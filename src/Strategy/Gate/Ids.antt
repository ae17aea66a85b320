-- ===== src/Strategy/Gate/Ids.antt =====
-- The ids of the candidates under the edits of Gate 1 (engine/strategy/gate.py).
use Prim.Native.String.append
use Prim.Native.String.{◌++◌ as text_append}
use rfp_engine.Prelude.{
  ◌+◌, eq_refl, sym, ◌<◌, All-append, ap, ◌∙◌, str_eq, Bool-cases, inr, inl, refl, Option-cases,
  arith, ◌≡◌, ◌≢◌, none, some, Option, String, List, ℕ, [], ◌∷◌, ◌++◌, All, map,
}
use rfp_engine.Validation.Audit.{object, Json, Items, nil, cons}
use rfp_engine.Workspace.Pursuit.Types.{ok-injective, Result-cases, ok}
use rfp_engine.Strategy.Gate.Types.{Candidate, Edits}
use rfp_engine.Strategy.Gate.Edits.{
  items_of, has_none, is_among, true_value, new_candidate, number_of, entry_id, change, by_id,
  apply_kills, apply_changes, apply_adds, apply_edits, killed, edited, highest, next_candidate_id,
  id_number, strip_prefix,
}

abbrev pub ids_of : List Candidate → List (Option String)
ids_of cs = map (λ c. c.candidate_id) cs

-- No id stands twice.
abbrev pub Distinct : List (Option String) → Type 0
Distinct [] = Unit {0}
Distinct (i ∷ is) = All (λ j. i ≢ j) is × Distinct is

change-ids :
    (cid : Json) (f : Candidate → Candidate) (cs : List Candidate)
    → ((c : Candidate) → (f c).candidate_id ≡ c.candidate_id)
    → ids_of (change cid f cs) ≡ ids_of cs
unfolding change
change-ids cid f [] keeps = refl
change-ids cid f (c ∷ cs) keeps = ground (arith, keeps c, change-ids cid f cs keeps)

apply_kills-ids :
    (actor : String) (cids : Items) (cs out : List Candidate)
    → apply_kills actor cids cs ≡ ok out
    → ids_of out ≡ ids_of cs
unfolding apply_kills
apply_kills-ids actor nil cs out h = ap ids_of (sym (ok-injective cs out h))
apply_kills-ids actor (cons cid cids) cs out h = elim (Option-cases (by_id cs cid)) [
  | inl gone ↦ absurd (ground arith)
  | inr (c, there) ↦ elim (Bool-cases (str_eq c.status "killed")) [
    | inl dead ↦ absurd (ground arith)
    | inr live ↦
        apply_kills-ids actor cids (change cid (killed actor) cs) out (ground arith)
        ∙ change-ids cid (killed actor) cs (λ c. refl)
  ]
]

apply_changes-ids :
    (entries : Items) (cs out : List Candidate)
    → apply_changes entries cs ≡ ok out
    → ids_of out ≡ ids_of cs
unfolding apply_changes
apply_changes-ids nil cs out h = ap ids_of (sym (ok-injective cs out h))
apply_changes-ids (cons entry entries) cs out h = elim (Option-cases (entry_id entry)) [
  | inl bad ↦ absurd (ground arith)
  | inr (e, read) ↦ elim (Option-cases (by_id cs e.0)) [
    | inl gone ↦ absurd (ground arith)
    | inr (c, there) ↦
        apply_changes-ids entries (change e.0 (edited e.1) cs) out (ground arith)
        ∙ change-ids e.0 (edited e.1) cs (λ d. refl)
  ]
]

Distinct-append :
    (is : List (Option String)) (i : Option String)
    → Distinct is
    → All (λ j. j ≢ i) is
    → Distinct (is ++ i ∷ [])
Distinct-append [] i d new = (tt, tt)
Distinct-append (j ∷ is) i (apart, d) (h, hs) =
    (All-append (λ k. j ≢ k) is (i ∷ []) apart (h, tt), Distinct-append is i d hs)

pub strip_prefix-append : (p s : String) → strip_prefix p (text_append p s) ≡ some s
unfolding strip_prefix
strip_prefix-append String.[] s = ap some (λ i. append.nil s i)
strip_prefix-append (String.◌∷◌ c p) s =
    ap (strip_prefix (String.◌∷◌ c p)) (λ i. append.cons c p s i)
    ∙ ground (arith, eq_refl (String.◌∷◌ c ""), strip_prefix-append p s)

module _ (int_of : String → Option ℕ) (two_digits : ℕ → String)
    (int-two_digits : (n : ℕ) → int_of (two_digits n) ≡ some n) where
  next-number :
      (n : ℕ) → id_number int_of two_digits (some (text_append "cand_" (two_digits n))) ≡ n
  next-number n =
      ap (number_of int_of two_digits) (strip_prefix-append "cand_" (two_digits n))
      ∙ ap (λ o. elim o [ none ↦ 0 | some k ↦ k ]) (int-two_digits n)

  -- A number above all of the ids' is no candidate's.
  above-new :
      (cs : List Candidate) (n : ℕ)
      → highest int_of two_digits cs < n
      → All (λ j. j ≢ some (text_append "cand_" (two_digits n))) (ids_of cs)
  unfolding highest
  above-new [] n h = tt
  above-new (c ∷ cs) n h = (
    λ same. absurd (omega (arith, next-number n, ap (id_number int_of two_digits) same)),
    above-new cs n (omega arith),
  )

  new_candidate-id :
      (entry : Json) (cs : List Candidate) (c : Candidate)
      → new_candidate int_of two_digits entry cs ≡ some c
      → c.candidate_id ≡ some (next_candidate_id int_of two_digits cs)
  new_candidate-id (object fs) cs c h = elim (Option-cases (true_value "theme" fs)) [
    | inl bare ↦ absurd (ground arith)
    | inr (theme, there) ↦ elim (Bool-cases (is_among ("theme" ∷ "rationale" ∷ "cites" ∷ []) fs)) [
      | inl known ↦
          ap (λ o. elim o [ none ↦ none | some x ↦ x.candidate_id ]) (sym h)
          ∙ rw (there, known) refl
      | inr extra ↦ absurd (ground arith)
    ]
  ]
  new_candidate-id _ cs c h = absurd (ground arith)

  ids-append :
      (cs : List Candidate) (c : Candidate)
      → ids_of (cs ++ c ∷ []) ≡ ids_of cs ++ c.candidate_id ∷ []
  ids-append [] c = refl
  ids-append (d ∷ cs) c = ap (◌∷◌ d.candidate_id) (ids-append cs c)

  apply_adds-Distinct :
      (entries : Items) (cs out : List Candidate)
      → apply_adds int_of two_digits entries cs ≡ ok out
      → Distinct (ids_of cs)
      → Distinct (ids_of out)
  unfolding apply_adds next_candidate_id
  apply_adds-Distinct nil cs out h d = rw (sym (ok-injective cs out h)) d
  apply_adds-Distinct (cons entry entries) cs out h d =
      elim (Option-cases (new_candidate int_of two_digits entry cs)) [
        | inl bad ↦ absurd (ground arith)
        | inr (c, made) ↦ apply_adds-Distinct entries (cs ++ c ∷ []) out (ground arith) (
            rw (ids-append cs c, new_candidate-id entry cs c made)
              (Distinct-append (ids_of cs) (some (next_candidate_id int_of two_digits cs)) d
                (above-new cs (highest int_of two_digits cs + 1) (omega arith))))
      ]

  -- The edits of Gate 1 never give two candidates one id: where the ids are distinct and every
  -- number in the two-digit format reads back, they are distinct after any edits that apply.
  pub apply_edits-Distinct :
      (actor : String) (e : Edits) (cs out : List Candidate)
      → Distinct (ids_of cs)
      → apply_edits int_of two_digits actor e cs ≡ ok out
      → Distinct (ids_of out)
  unfolding apply_edits
  apply_edits-Distinct actor e cs out d h = elim (Bool-cases (has_none e.others)) [
    | inr strange ↦ absurd (ground arith)
    | inl plain ↦ elim (Result-cases (apply_kills actor (items_of e.kill) cs)) [
      | inl (x, bad) ↦ absurd (ground arith)
      | inr (ks, kills) ↦ elim (Result-cases (apply_changes (items_of e.edit) ks)) [
        | inl (x, bad) ↦ absurd (ground arith)
        | inr (es, changes) ↦ apply_adds-Distinct (items_of e.add) es out (ground arith) (
            rw
              (
                apply_changes-ids (items_of e.edit) ks es changes,
                apply_kills-ids actor (items_of e.kill) cs ks kills,
              )
              d)
      ]
    ]
  ]
