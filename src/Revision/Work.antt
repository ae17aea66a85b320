-- ===== src/Revision/Work.antt =====
-- The cids of what a round finalizes (engine/revision/round.py): each is that of one pending entry.
use rfp_engine.Web.Events.Pending.{has_cid, Entry}
use rfp_engine.Prelude.{
  eq_iff, inl, inr, refl, ◌∙◌, eq_refl, Bool-cases, [], ◌&&◌, ap, ◌||◌, arith, false, not, ◌++◌,
  All, filter, str_eq, ◌∷◌, ◌≡◌, any, map, true, String, Bool, List,
}
use rfp_engine.Revision.Finalize.{drops_too, work_of, dismissed, Commit, consumed}

-- No cid stands twice, and none is empty.
unfoldable pub are_distinct : List String → Bool
are_distinct [] = true
are_distinct (c ∷ cs) = not (str_eq c "") && (not (any (λ d. str_eq d c) cs) && are_distinct cs)

abbrev pub cids : List (Entry × Bool) → List String
cids work = map (λ w. w.0.cid) work

-- The entries of a round have the cids of pending entries, each once.
any-filter :
    (p : Entry → Bool) (c : String) (es : List Entry)
    → any (λ d. str_eq d c) (map (λ e. e.cid) es) ≡ false
    → any (λ d. str_eq d c) (map (λ e. e.cid) (filter p es)) ≡ false
any-filter p c [] h = refl
any-filter p c (e ∷ es) h = ground (arith, any-filter p c es)

filter_distinct :
    (p : Entry → Bool) (es : List Entry)
    → are_distinct (map (λ e. e.cid) es) ≡ true
    → are_distinct (map (λ e. e.cid) (filter p es)) ≡ true
unfolding are_distinct
filter_distinct p [] h = refl
filter_distinct p (e ∷ es) h = ground (arith, any-filter p e.cid es, filter_distinct p es)

any-append :
    (c : String) (xs ys : List String)
    → any (λ d. str_eq d c) (xs ++ ys) ≡ (any (λ d. str_eq d c) xs || any (λ d. str_eq d c) ys)
any-append c [] ys = refl
any-append c (x ∷ xs) ys = ground (arith, any-append c xs ys)

append_distinct :
    (xs ys : List String)
    → are_distinct xs ≡ true
    → are_distinct ys ≡ true
    → All (λ x. any (λ d. str_eq d x) ys ≡ false) xs
    → are_distinct (xs ++ ys) ≡ true
unfolding are_distinct
append_distinct [] ys hx hy apart = hy
append_distinct (x ∷ xs) ys hx hy (h, hs) =
    ground (arith, any-append x xs ys, h, append_distinct xs ys (ground arith) hy hs)

cids-append :
    (a b : Bool) (xs ys : List Entry)
    → cids (map (λ e. (e, a)) xs ++ map (λ e. (e, b)) ys)
      ≡ map (λ e. e.cid) xs ++ map (λ e. e.cid) ys
cids-append a b [] [] = refl
cids-append a b [] (y ∷ ys) = ap (◌∷◌ y.cid) (cids-append a b [] ys)
cids-append a b (x ∷ xs) ys = ap (◌∷◌ x.cid) (cids-append a b xs ys)

-- What a dismissed entry is not: one of those taken.
not_taken :
    (pended : String → Bool) (c : Commit) (x : String) (taken es : List Entry)
    → any (has_cid x) taken ≡ true
    → any (λ d. str_eq d x) (map (λ e. e.cid) (filter (drops_too pended c taken) es)) ≡ false
not_taken pended c x taken [] h = refl
not_taken pended c x taken (e ∷ es) h = elim (Bool-cases (drops_too pended c taken e)) [
  | inr kept ↦ rw kept (not_taken pended c x taken es h)
  | inl dropped ↦ elim (Bool-cases (str_eq e.cid x)) [
    | inl same ↦
        let there : any (has_cid e.cid) taken ≡ true =
          ap (λ y. any (has_cid y) taken) ((eq_iff e.cid x).0 same) ∙ h in
        absurd (ground (arith, dropped, there))
    | inr other ↦ rw (dropped, other) (not_taken pended c x taken es h)
  ]
]

each_taken :
    (pended : String → Bool) (c : Commit) (taken xs es : List Entry)
    → ((x : String) → any (has_cid x) xs ≡ true → any (has_cid x) taken ≡ true)
    → All
        (λ x.
          any (λ d. str_eq d x) (map (λ e. e.cid) (filter (drops_too pended c taken) es)) ≡ false)
        (map (λ e. e.cid) xs)
each_taken pended c taken [] es within = tt
each_taken pended c taken (x ∷ xs) es within = (
  not_taken pended c x.cid taken es (within x.cid (ground (arith, eq_refl x.cid))),
  each_taken pended c taken xs es (λ y h. within y (ground (arith, h))),
)

pub work_distinct :
    (pended : String → Bool) (c : Commit) (pending : List Entry)
    → are_distinct (map (λ e. e.cid) pending) ≡ true
    → are_distinct (cids (work_of pended c pending)) ≡ true
unfolding consumed dismissed
work_distinct pended c pending apart =
    let taken = consumed pended c pending in
    ap are_distinct (cids-append true false taken (dismissed pended c pending))
    ∙ append_distinct (map (λ e. e.cid) taken) (map (λ e. e.cid) (dismissed pended c pending))
        (filter_distinct _ pending apart) (filter_distinct _ pending apart)
        (each_taken pended c taken taken pending (λ x h. h))
