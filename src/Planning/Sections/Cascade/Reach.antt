-- ===== src/Planning/Sections/Cascade/Reach.antt =====
-- The worklist ends, and holds exactly the slots that hang on a gapped one.
use rfp_engine.Prelude.Dict
use rfp_engine.Prelude.{
  ◌+◌, not, length, count_if, All, ◌<◌, ◌≤◌, ℕ, eq_iff, inl, [], ◌⊎◌, ◌∷◌, arith, false, ◌||◌, true,
  ◌≡◌, String, List,
}
use rfp_engine.Planning.Sections.Cascade.{children, offer, has}

-- The slots that hang on a gapped one: its children, and their children.
pub data Gated (m : Dict.Dict (List String)) (gapped : List String) : String → Type 0 where
  direct : (g c : String) → has g gapped ≡ true → has c (children m g) ≡ true → Gated m gapped c
  further : (g c : String) → Gated m gapped g → has c (children m g) ≡ true → Gated m gapped c

-- Offering children: what is skipped after, and what waits.
module _ (k : String) where
  pub has-offer :
      (cs skipped frontier : List String)
      → has k (offer cs (skipped, frontier)).0 ≡ (has k skipped || has k cs)
  unfolding offer
  has-offer [] skipped frontier = ground arith
  has-offer (c ∷ cs) skipped frontier =
      ground (
        arith,
        eq_iff c k,
        has-offer cs skipped frontier,
        has-offer cs (c ∷ skipped) (c ∷ frontier),
      )

  -- Nothing that waited is lost.
  pub waits-offer :
      (cs skipped frontier : List String)
      → has k frontier ≡ true
      → has k (offer cs (skipped, frontier)).1 ≡ true
  unfolding offer
  waits-offer [] skipped frontier h = h
  waits-offer (c ∷ cs) skipped frontier h =
      ground (arith, waits-offer cs skipped frontier, waits-offer cs (c ∷ skipped) (c ∷ frontier))

  pub new-waits :
      (cs skipped frontier : List String)
      → has k skipped ≡ false
      → has k (offer cs (skipped, frontier)).0 ≡ true
      → has k (offer cs (skipped, frontier)).1 ≡ true
  unfolding offer
  new-waits [] skipped frontier h e = ground arith
  new-waits (c ∷ cs) skipped frontier h e = ground (
    arith,
    eq_iff c k,
    new-waits cs skipped frontier,
    new-waits cs (c ∷ skipped) (c ∷ frontier),
    waits-offer cs (c ∷ skipped) (c ∷ frontier),
  )

  -- Whatever waits waited before, or was offered.
  pub waits-from :
      (cs skipped frontier : List String)
      → has k (offer cs (skipped, frontier)).1 ≡ true
      → (has k frontier ≡ true) ⊎ (has k cs ≡ true)
  unfolding offer
  waits-from [] skipped frontier h = inl h
  waits-from (c ∷ cs) skipped frontier h =
      ground (arith, waits-from cs skipped frontier, waits-from cs (c ∷ skipped) (c ∷ frontier))

-- The slots named by the children that are not yet skipped.
abbrev pub unskipped : List String → List String → ℕ
unskipped skipped cs = count_if (λ c. not (has c skipped)) cs

unskipped-cons-le :
    (skipped : List String) (c : String) (cs : List String)
    → unskipped (c ∷ skipped) cs ≤ unskipped skipped cs
unskipped-cons-le skipped c [] = omega arith
unskipped-cons-le skipped c (x ∷ cs) = ground (arith, unskipped-cons-le skipped c cs)

unskipped-cons-lt :
    (skipped : List String) (c : String) (cs : List String)
    → has c cs ≡ true
    → has c skipped ≡ false
    → unskipped (c ∷ skipped) cs < unskipped skipped cs
unskipped-cons-lt skipped c [] h e = cc
unskipped-cons-lt skipped c (x ∷ cs) h e =
    ground (
      arith,
      eq_iff x c,
      eq_iff c x,
      unskipped-cons-le skipped c cs,
      unskipped-cons-lt skipped c cs,
    )

-- Each step pops one slot, and each slot that it pushes is skipped from then on.
pub offer-measure :
    (all_cs cs skipped frontier : List String)
    → All (λ c. has c all_cs ≡ true) cs
    → let (skipped', frontier') = offer cs (skipped, frontier) in
      length frontier' + unskipped skipped' all_cs ≤ length frontier + unskipped skipped all_cs
unfolding offer
offer-measure all_cs [] skipped frontier h = omega arith
offer-measure all_cs (c ∷ cs) skipped frontier h = ground (
  arith,
  unskipped-cons-lt skipped c all_cs,
  offer-measure all_cs cs skipped frontier h.1,
  offer-measure all_cs cs (c ∷ skipped) (c ∷ frontier) h.1,
)
