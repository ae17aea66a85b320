-- ===== src/Planning/Sections/Cascade/Loop.antt =====
-- `cascade_gating` always ends, and skips exactly the slots that hang on a gapped one.
use rfp_engine.Prelude.Dict
use rfp_engine.Prelude.{
  zero, eq_iff, ◌↔◌, ◌<◌, ap, some, ◌+◌, str_eq, length, ℕ, inr, Bool-cases, refl, inl, eq_refl, [],
  ◌⊎◌, All, arith, true, ◌||◌, ◌≡◌, ◌++◌, ◌∷◌, List, String,
}
use rfp_engine.Planning.Sections.Cascade.{
  is_filled, gates_by_id, suc, Gater, cascade_gating, cascade_loop, first_frontier, offer, children,
  has, all_children,
}
use rfp_engine.Planning.Sections.Cascade.Reach.{
  new-waits, offer-measure, waits-offer, waits-from, unskipped, has-offer, further, direct, Gated,
}

has-append : (k : String) (xs ys : List String) → has k (xs ++ ys) ≡ (has k xs || has k ys)
has-append k [] ys = refl
has-append k (x ∷ xs) ys = ground (arith, has-append k xs ys)

All-has :
    (P : String → Type 0) (cs : List String) → ((c : String) → has c cs ≡ true → P c) → All P cs
All-has P [] h = tt
All-has P (c ∷ cs) h =
    (h c (ground (arith, eq_refl c)), All-has P cs (λ x e. h x (ground (arith, e))))

is_filled-of_has : (cs : List String) (c : String) → has c cs ≡ true → is_filled cs ≡ true
is_filled-of_has [] c h = cc
is_filled-of_has (x ∷ cs) c h = refl

children-all :
    (m : Dict.Dict (List String)) (g c : String)
    → has c (children m g) ≡ true
    → has c (all_children m) ≡ true
unfolding all_children Dict.get
children-all [] g c h = cc
children-all ((k, cs) ∷ m) g c h =
    ground (arith, has-append c cs (all_children m), children-all m g c)

module _ (m : Dict.Dict (List String)) (gapped : List String) where
  -- What holds of the skipped slots and the frontier before each step.
  record IsSearched (skipped frontier : List String) : Type 0 where
    sound : (k : String) → has k skipped ≡ true → Gated m gapped k
    waiting : (k : String) → has k frontier ≡ true → (has k gapped ≡ true) ⊎ Gated m gapped k
    closed :
        (g c : String)
        → (has g gapped ≡ true) ⊎ (has g skipped ≡ true)
        → has c (children m g) ≡ true
        → (has g frontier ≡ true) ⊎ (has c skipped ≡ true)

  child-Gated :
      (g c : String)
      → (has g gapped ≡ true) ⊎ Gated m gapped g
      → has c (children m g) ≡ true
      → Gated m gapped c
  child-Gated g c (inl known) h = direct g c known h
  child-Gated g c (inr gated) h = further g c gated h

  offer-IsSearched :
      (skipped : List String) (g : String) (frontier : List String)
      → IsSearched skipped (g ∷ frontier)
      → let (skipped', frontier') = offer (children m g) (skipped, frontier) in
        IsSearched skipped' frontier'
  offer-IsSearched skipped g frontier s = record {
    sound = λ k e. elim (Bool-cases (has k skipped)) [
      | inl old ↦ s.sound k old
      | inr new ↦ child-Gated g k popped (ground (arith, has-offer k cs skipped frontier))
    ];
    waiting = λ k e. elim (waits-from k cs skipped frontier e) [
      | inl old ↦ s.waiting k (ground arith)
      | inr child ↦ inr (child-Gated g k popped child)
    ];
    closed = λ x c known child. elim (Bool-cases (has x gapped || has x skipped)) [
      | inl old ↦ elim (s.closed x c (ground arith) child) [
        | inl waits ↦ elim (Bool-cases (str_eq g x)) [
          | inl same ↦ inr (
              ground
                (arith, ap (children m) ((eq_iff g x).0 same), has-offer c cs skipped frontier))
          | inr other_slot ↦ inl (waits-offer x cs skipped frontier (ground arith))
        ]
        | inr skips ↦ inr (ground (arith, has-offer c cs skipped frontier))
      ]
      | inr new ↦ inl (new-waits x cs skipped frontier (ground arith) (ground arith))
    ];
  }
    where
      cs : List String
      cs = children m g

      popped : (has g gapped ≡ true) ⊎ Gated m gapped g
      popped = s.waiting g (ground (arith, eq_refl g))

  first-IsSearched : IsSearched [] (first_frontier m gapped)
  first-IsSearched = record {
    sound = λ k e. absurd (cc e);
    waiting = λ k e. inl (has-filter k gapped e);
    closed = λ g c known child. inl (filled-waits g c gapped known child);
  }
    where
      has-filter :
          (k : String) (gs : List String) → has k (first_frontier m gs) ≡ true → has k gs ≡ true
      has-filter k [] h = h
      has-filter k (g ∷ gs) h = ground (arith, has-filter k gs)

      filled-waits :
          (g c : String) (gs : List String)
          → (has g gs ≡ true) ⊎ (has g [] ≡ true)
          → has c (children m g) ≡ true
          → has g (first_frontier m gs) ≡ true
      filled-waits g c [] known child = ground (arith, known)
      filled-waits g c (x ∷ gs) known child = elim (Bool-cases (str_eq x g)) [
        | inl same ↦ ground (
          arith,
          same,
          is_filled-of_has (children m g) c child,
          ap (λ y. is_filled (children m y)) ((eq_iff x g).0 same),
        )
        | inr apart ↦
            ground (arith, apart, filled-waits g c gs (inl (ground (arith, known, apart))) child)
      ]

  -- With enough fuel the loop ends, and what it skips is what hangs on a gapped slot.
  loop_lem :
      (fuel : ℕ) (skipped frontier : List String)
      → length frontier + unskipped skipped (all_children m) < fuel
      → IsSearched skipped frontier
      → (out : List String) × (cascade_loop m fuel (skipped, frontier) ≡ some out)
        × ((k : String) → (has k out ≡ true) ↔ Gated m gapped k)
  unfolding cascade_loop
  loop_lem zero skipped frontier h s = absurd (omega arith)
  loop_lem (suc fuel) skipped [] h s = (skipped, refl, λ k. (s.sound k, complete k))
    where
      complete : (k : String) → Gated m gapped k → has k skipped ≡ true
      complete k (direct g c known child) = ground (arith, s.closed g c (inl known) child)
      complete k (further g c gated child) =
          ground (arith, s.closed g c (inr (complete g gated)) child)
  loop_lem (suc fuel) skipped (g ∷ frontier) h s =
      let cs = children m g in
      let (skipped', frontier') = offer cs (skipped, frontier) in
      loop_lem fuel skipped' frontier'
        (omega (
          arith,
          offer-measure (all_children m) cs skipped frontier
              (All-has (λ c. has c (all_children m) ≡ true) cs (children-all m g)),
        ))
        (offer-IsSearched skipped g frontier s)

unskipped-none : (cs : List String) → unskipped [] cs ≡ length cs
unskipped-none [] = refl
unskipped-none (c ∷ cs) = omega (arith, unskipped-none cs)

-- Whatever gates the slots name, cycles and unknown slots among them: the worklist ends, and it
-- skips exactly the slots that a gapped slot gates, directly or through others.
pub cascade_gating_lem :
    (ss : List Gater) (gapped : List String)
    → (out : List String) × (cascade_gating ss gapped ≡ some out)
      × ((k : String) → (has k out ≡ true) ↔ Gated (gates_by_id ss []) gapped k)
unfolding cascade_gating
cascade_gating_lem ss gapped =
    let m = gates_by_id ss [] in
    loop_lem m gapped (length (first_frontier m gapped) + length (all_children m) + 1) []
      (first_frontier m gapped) (omega (arith, unskipped-none (all_children m)))
      (first-IsSearched m gapped)
