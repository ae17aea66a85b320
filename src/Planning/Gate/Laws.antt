-- ===== src/Planning/Gate/Laws.antt =====
-- What the edits of Gate 2 may change (engine/planning/gate.py).
use rfp_engine.Prelude.{
  eq_iff, sym, refl, ap, ◌∙◌, Option-cases, inr, Bool-cases, ◌⊎◌, arith, inl, ◌≡◌, Bool, true, List,
  [], ◌∷◌, str_eq,
}
use rfp_engine.Strategy.Gate.Edits.{is_truthy}
use rfp_engine.Workspace.Pursuit.Types.{Result, ok, raise, Result-cases, ok-injective}
use rfp_engine.Planning.Gate.Types.{Obligation, Waive}
use rfp_engine.Planning.Gate.Dispose.{
  consed, onto, at_first, at_last, waive_row, waive_one, apply_waives, or_raise, is_text,
}

-- The lists have the same length, and the elements at a place are related.
abbrev pub Pointwise : {A : Type 0} → (A → A → Type 0) → List A → List A → Type 0
Pointwise R [] [] = Unit {0}
Pointwise R (x ∷ xs) (y ∷ ys) = R x y × Pointwise R xs ys
Pointwise R _ _ = ⊥

module _ {A : Type 0} (R : A → A → Type 0) where
  pub Pointwise-refl : ((x : A) → R x x) → (xs : List A) → Pointwise R xs xs
  Pointwise-refl same [] = tt
  Pointwise-refl same (x ∷ xs) = (same x, Pointwise-refl same xs)

  pub Pointwise-trans :
      ((x y z : A) → R x y → R y z → R x z)
      → (xs ys zs : List A) → Pointwise R xs ys
      → Pointwise R ys zs
      → Pointwise R xs zs
  Pointwise-trans next [] [] [] h k = tt
  Pointwise-trans next (x ∷ xs) (y ∷ ys) (z ∷ zs) (h, hs) (k, ks) =
      (next x y z h k, Pointwise-trans next xs ys zs hs ks)
  Pointwise-trans next [] [] (z ∷ zs) h k = elim k [ ]
  Pointwise-trans next [] (y ∷ ys) zs h k = elim h [ ]
  Pointwise-trans next (x ∷ xs) [] zs h k = elim h [ ]
  Pointwise-trans next (x ∷ xs) (y ∷ ys) [] h k = elim k [ ]

  module _ (same : (x : A) → R x x) (is_it : A → Bool) (f : A → Result A)
      (step : (x y : A) → f x ≡ ok y → R x y) where
    onto-Pointwise : (x : A) (xs out : List A) → onto (f x) xs ≡ ok out → Pointwise R (x ∷ xs) out
    onto-Pointwise x xs out h = elim (Result-cases (f x)) [
      | inl (e, bad) ↦ absurd (ground arith)
      | inr (y, good) ↦
          rw (sym (ok-injective (y ∷ xs) out (ground arith)))
            (step x y good, Pointwise-refl same xs)
    ]

    consed-Pointwise :
        (x : A) (xs out : List A) (r : Result (List A))
        → ((ys : List A) → r ≡ ok ys → Pointwise R xs ys)
        → consed x r ≡ ok out
        → Pointwise R (x ∷ xs) out
    consed-Pointwise x xs out (raise e) h k = absurd (ground arith)
    consed-Pointwise x xs out (ok ys) h k =
        rw (sym (ok-injective (x ∷ ys) out k)) (same x, h ys refl)

    pub at_first-Pointwise :
        (xs out : List A) → or_raise (at_first is_it f xs) ≡ ok out → Pointwise R xs out
    unfolding at_first
    at_first-Pointwise [] out h = absurd (ground arith)
    at_first-Pointwise (x ∷ xs) out h = elim (Bool-cases (is_it x)) [
      | inl it ↦ onto-Pointwise x xs out (ground arith)
      | inr other ↦ elim (Option-cases (at_first is_it f xs)) [
        | inl gone ↦ absurd (ground arith)
        | inr (r, found) ↦
            consed-Pointwise x xs out r (λ ys k. at_first-Pointwise xs ys (ap or_raise found ∙ k))
              (ground arith)
      ]
    ]

    pub at_last-Pointwise :
        (xs out : List A) → or_raise (at_last is_it f xs) ≡ ok out → Pointwise R xs out
    unfolding at_last
    at_last-Pointwise [] out h = absurd (ground arith)
    at_last-Pointwise (x ∷ xs) out h = elim (Option-cases (at_last is_it f xs)) [
      | inr (r, found) ↦
          consed-Pointwise x xs out r (λ ys k. at_last-Pointwise xs ys (ap or_raise found ∙ k))
            (ground arith)
      | inl gone ↦ elim (Bool-cases (is_it x)) [
        | inl it ↦ onto-Pointwise x xs out (ground arith)
        | inr other ↦ absurd (ground arith)
      ]
    ]

-- A waived obligation: it was gapped, and it carries a note.
abbrev pub IsWaived : Obligation → Obligation → Type 0
IsWaived o p =
    (o.status ≡ "gapped") × (p.status ≡ "waived") × (p.id ≡ o.id) × (is_truthy p.note ≡ true)

abbrev pub WaivedOrKept : Obligation → Obligation → Type 0
WaivedOrKept o p = (p ≡ o) ⊎ IsWaived o p

WaivedOrKept-trans : (o p q : Obligation) → WaivedOrKept o p → WaivedOrKept p q → WaivedOrKept o q
WaivedOrKept-trans o p q (inl same) (inl still) = inl (still ∙ same)
WaivedOrKept-trans o p q (inl same) (inr (was, now, id, note)) =
    inr (ap (λ x. x.status) (sym same) ∙ was, now, id ∙ ap (λ x. x.id) same, note)
WaivedOrKept-trans o p q (inr (was, now, id, note)) (inl still) = inr (
  was,
  ap (λ x. x.status) still ∙ now,
  ap (λ x. x.id) still ∙ id,
  ap (λ x. is_truthy x.note) still ∙ note,
)
WaivedOrKept-trans o p q (inr (was, now, id, note)) (inr (gapped, waived, kept, with_note)) =
    absurd (ground (arith, ap (str_eq "waived") (sym now ∙ gapped)))

waive_row-WaivedOrKept :
    (w : Waive) (o p : Obligation)
    → is_truthy w.note ≡ true
    → waive_row w o ≡ ok p
    → WaivedOrKept o p
unfolding waive_row
waive_row-WaivedOrKept w o p noted h = elim (Bool-cases (str_eq o.status "waived")) [
  | inl twice ↦ absurd (ground arith)
  | inr fresh ↦ elim (Bool-cases (str_eq o.status "gapped")) [
    | inr covered ↦ absurd (ground arith)
    | inl gapped ↦
        let made = ok-injective (record o { status = "waived"; note = w.note }) p (ground arith) in
        inr (
          (eq_iff o.status "gapped").0 gapped,
          sym (ap (λ x. x.status) made),
          sym (ap (λ x. x.id) made),
          ap (λ x. is_truthy x.note) (sym made) ∙ noted,
        )
  ]
]

waive_one-WaivedOrKept :
    (w : Waive) (os out : List Obligation) → waive_one w os ≡ ok out → Pointwise WaivedOrKept os out
unfolding waive_one
waive_one-WaivedOrKept w os out h = elim (Bool-cases (is_truthy w.note)) [
  | inr bare ↦ absurd (ground arith)
  | inl noted ↦
      at_last-Pointwise WaivedOrKept (λ x. inl refl) (λ o. is_text w.id o.id) (waive_row w)
        (λ o p. waive_row-WaivedOrKept w o p noted) os out (ground arith)
]

-- Waives that apply leave every obligation as it was, but for those that were gapped and are now
-- waived under the same id with a note: a covered obligation is never waived, and none is waived
-- twice.
pub apply_waives_lem :
    (ws : List Waive) (os out : List Obligation)
    → apply_waives ws os ≡ ok out
    → Pointwise WaivedOrKept os out
unfolding apply_waives
apply_waives_lem [] os out h =
    rw (sym (ok-injective os out h)) (Pointwise-refl WaivedOrKept (λ o. inl refl) os)
apply_waives_lem (w ∷ ws) os out h = elim (Result-cases (waive_one w os)) [
  | inl (e, bad) ↦ absurd (ground arith)
  | inr (next, good) ↦
      Pointwise-trans WaivedOrKept WaivedOrKept-trans os next out
        (waive_one-WaivedOrKept w os next good) (apply_waives_lem ws next out (ground arith))
]
