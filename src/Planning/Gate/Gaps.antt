-- ===== src/Planning/Gate/Gaps.antt =====
-- What the dispositions of Gate 2 may change in the gaps of a plan (engine/planning/gate.py).
use rfp_engine.Prelude.{
  ◌&&◌, eq_iff, Bool-cases, ap, arith, refl, inr, sym, Option-cases, ◌∙◌, inl, ◌⊎◌, ◌≡◌, Bool, true,
  false, none, some, Option, String, List, [], ◌∷◌, str_eq, not, ◌||◌,
}
use rfp_engine.Strategy.Gate.Edits.{is_truthy, is_true}
use rfp_engine.Workspace.Pursuit.Types.{ok, Result-cases, ok-injective}
use rfp_engine.Planning.Gate.Types.{Gap, Section, Disposition, Reframe}
use rfp_engine.Planning.Gate.Dispose.{
  at_first, is_action, acted, dispose_gap, dispose_in, dispose_one, apply_dispositions, or_raise,
  with_gaps, same_text, is_text, kept_note,
}
use rfp_engine.Planning.Gate.Laws.{
  Pointwise, Pointwise-refl, Pointwise-trans, at_first-Pointwise, at_last-Pointwise,
}

abbrev is_reviewed : Option Reframe → Bool
is_reviewed none = false
is_reviewed (some r) = r.mandatory_review

-- A gap that was disposed: it was open, it ends in an action, and a reframe must be reviewed.
abbrev pub IsDisposed : Gap → Gap → Type 0
IsDisposed g h =
    (g.status ≡ "open")
    × (h.gap_id ≡ g.gap_id)
    × (is_action h.status ≡ true)
    × ((not (str_eq h.status "reframed") || is_reviewed h.reframe) ≡ true)

abbrev pub DisposedOrKept : Gap → Gap → Type 0
DisposedOrKept g h = (h ≡ g) ⊎ IsDisposed g h

-- A section with the same id and references, whose gaps are disposed or as they were.
abbrev pub Kept : Section → Section → Type 0
Kept s t =
    (t.section_id ≡ s.section_id)
    × (t.requirement_refs ≡ s.requirement_refs)
    × Pointwise DisposedOrKept s.gaps t.gaps

DisposedOrKept-trans : (g h k : Gap) → DisposedOrKept g h → DisposedOrKept h k → DisposedOrKept g k
DisposedOrKept-trans g h k (inl same) (inl still) = inl (still ∙ same)
DisposedOrKept-trans g h k (inl same) (inr (was, id, now, review)) =
    inr (ap (λ x. x.status) (sym same) ∙ was, id ∙ ap (λ x. x.gap_id) same, now, review)
DisposedOrKept-trans g h k (inr d) (inl still) = inr (rw still d)
DisposedOrKept-trans g h k (inr (was, id, now, review)) (inr (reopened, rest, more, last)) =
    absurd (ground (arith, ap is_action reopened))

Kept-refl : (s : Section) → Kept s s
Kept-refl s = (refl, refl, Pointwise-refl DisposedOrKept (λ g. inl refl) s.gaps)

Kept-trans : (s t u : Section) → Kept s t → Kept t u → Kept s u
Kept-trans s t u (id, refs, gaps) (id2, refs2, gaps2) = (
  id2 ∙ id,
  refs2 ∙ refs,
  Pointwise-trans DisposedOrKept DisposedOrKept-trans s.gaps t.gaps u.gaps gaps gaps2,
)

made-IsDisposed :
    (a : String) (g x h : Gap)
    → is_action a ≡ true
    → g.status ≡ "open"
    → x.status ≡ a
    → x.gap_id ≡ g.gap_id
    → (not (str_eq a "reframed") || is_reviewed x.reframe) ≡ true
    → ok x ≡ ok h
    → IsDisposed g h
made-IsDisposed a g x h action was now id review made =
    rw (sym (ok-injective x h made)) (was, id, ap is_action now ∙ action, rw now review)

acted-IsDisposed :
    (a : String) (i : Disposition) (g h : Gap)
    → is_action a ≡ true
    → g.status ≡ "open"
    → acted a i g ≡ ok h
    → IsDisposed g h
acted-IsDisposed a i g h action was made = elim (Bool-cases (str_eq a "answered")) [
  | inl answers ↦ elim (Bool-cases (is_truthy i.answer)) [
    | inr bare ↦ absurd (ground arith)
    | inl told ↦
        made-IsDisposed a g
          (record g { answer = i.answer; note = kept_note i.note g.note; status = a }) h action was
          refl refl
          (ground (arith, ap (λ x. str_eq x "reframed") ((eq_iff a "answered").0 answers)))
          (ground arith)
  ]
  | inr unanswered ↦ elim (Bool-cases (str_eq a "reframed")) [
    | inl reframes ↦ elim (Option-cases i.note) [
      | inl gone ↦ absurd (ground arith)
      | inr (v, there) ↦ elim (Bool-cases (is_true v)) [
        | inr blank ↦ absurd (ground arith)
        | inl full ↦
            made-IsDisposed a g
              (record g {
                reframe = some (record { note = v; mandatory_review = true });
                status = a;
              })
              h action was refl refl (ground arith) (ground arith)
      ]
    ]
    | inr plain ↦ elim (Bool-cases (str_eq a "draft_flagged" && is_truthy i.answer)) [
      | inl both ↦ absurd (ground arith)
      | inr fine ↦
          made-IsDisposed a g (record g { note = kept_note i.note g.note; status = a }) h action was
            refl refl (ground arith) (ground arith)
    ]
  ]
]

dispose_gap-DisposedOrKept :
    (i : Disposition) (g h : Gap) → dispose_gap i g ≡ ok h → DisposedOrKept g h
unfolding dispose_gap
dispose_gap-DisposedOrKept i g h made = elim (Option-cases i.action) [
  | inl missing ↦ absurd (ground arith)
  | inr (a, named) ↦ elim (Bool-cases (is_action a)) [
    | inr unknown ↦ absurd (ground arith)
    | inl action ↦ elim (Bool-cases (str_eq g.status "open")) [
      | inr settled ↦ absurd (ground arith)
      | inl open_yet ↦
          inr (acted-IsDisposed a i g h action ((eq_iff g.status "open").0 open_yet) (ground arith))
    ]
  ]
]

dispose_in-Kept : (i : Disposition) (s t : Section) → dispose_in i s ≡ ok t → Kept s t
unfolding dispose_in
dispose_in-Kept i s t h =
    elim (Result-cases
      (or_raise (at_first (λ g. same_text g.gap_id i.gap_id) (dispose_gap i) s.gaps))) [
        | inl (e, bad) ↦ absurd (ground arith)
        | inr (gs, good) ↦
            let made = ok-injective (record s { gaps = gs }) t (ap (with_gaps s) (sym good) ∙ h) in
            (
              sym (ap (λ x. x.section_id) made),
              sym (ap (λ x. x.requirement_refs) made),
              rw (sym (ap (λ x. x.gaps) made)) (
                  at_first-Pointwise DisposedOrKept (λ g. inl refl)
                    (λ g. same_text g.gap_id i.gap_id) (dispose_gap i)
                    (dispose_gap-DisposedOrKept i) s.gaps gs good),
            )
      ]

-- Dispositions that apply change nothing of a plan's sections but gaps that were open, and each of
-- these ends answered, omitted, reframed or flagged for drafting, a reframe always with its
-- mandatory review; a gap that was settled before is never settled anew.
pub apply_dispositions_lem :
    (is : List Disposition) (ss out : List Section)
    → apply_dispositions is ss ≡ ok out
    → Pointwise Kept ss out
unfolding apply_dispositions dispose_one
apply_dispositions_lem [] ss out h =
    rw (sym (ok-injective ss out h)) (Pointwise-refl Kept Kept-refl ss)
apply_dispositions_lem (i ∷ is) ss out h = elim (Result-cases (dispose_one i ss)) [
  | inl (e, bad) ↦ absurd (ground arith)
  | inr (next, good) ↦
      Pointwise-trans Kept Kept-trans ss next out
        (at_last-Pointwise Kept Kept-refl (λ s. is_text i.section_id s.section_id) (dispose_in i)
          (dispose_in-Kept i) ss next good)
        (apply_dispositions_lem is next out (ground arith))
]
