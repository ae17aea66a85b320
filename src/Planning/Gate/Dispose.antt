-- ===== src/Planning/Gate/Dispose.antt =====
-- `_apply_dispositions` and `_apply_waives` of engine/planning/gate.py, over the sections and the
-- obligations of a plan; an edit that fails raises a ContractError.
use rfp_engine.Prelude.{
  ◌&&◌, ◌||◌, Bool, true, false, none, some, Option, String, List, [], ◌∷◌, if◌then◌else◌, str_eq,
  not,
}
use rfp_engine.Validation.Audit.{Json}
use rfp_engine.Strategy.Gate.Edits.{is_true, is_truthy}
use rfp_engine.Workspace.Pursuit.Types.{Result, ok, raise, contract_error}
use rfp_engine.Planning.Gate.Types.{Gap, Section, Obligation, Disposition, Waive}

abbrev pub is_text : Option String → String → Bool
is_text none s = false
is_text (some t) s = str_eq t s

-- `a == b` for two values that may be missing.
abbrev pub same_text : Option String → Option String → Bool
same_text none none = true
same_text (some t) (some s) = str_eq t s
same_text _ _ = false

-- _ACTIONS
abbrev pub is_action : String → Bool
is_action a =
    str_eq a "answered"
    || str_eq a "omit_approved"
    || str_eq a "reframed"
    || str_eq a "draft_flagged"

abbrev pub kept_note : Option Json → Option Json → Option Json
kept_note none old = old
kept_note (some v) old = if is_true v then some v else old

abbrev pub consed : {A : Type 0} → A → Result (List A) → Result (List A)
consed x (ok xs) = ok (x ∷ xs)
consed x (raise e) = raise e

abbrev pub onto : {A : Type 0} → Result A → List A → Result (List A)
onto (ok x) xs = ok (x ∷ xs)
onto (raise e) xs = raise e

module _ {A : Type 0} (is_it : A → Bool) (f : A → Result A) where
  -- A change of the first that fits; `none` where there is none.
  unfoldable pub at_first : List A → Option (Result (List A))
  at_first [] = none
  at_first (x ∷ xs) =
      let rest = at_first xs in
      if is_it x
      then some (onto (f x) xs)
      else elim rest [ none ↦ none | some r ↦ some (consed x r) ]

  -- A change of the last that fits, which a dict by id finds.
  unfoldable pub at_last : List A → Option (Result (List A))
  at_last [] = none
  at_last (x ∷ xs) =
      let rest = at_last xs in
      elim rest [
        | some r ↦ some (consed x r)
        | none ↦ if is_it x then some (onto (f x) xs) else none
      ]

abbrev pub or_raise : {A : Type 0} → Option (Result A) → Result A
or_raise none = raise contract_error
or_raise (some r) = r

-- What an action writes to its gap.
abbrev pub acted : String → Disposition → Gap → Result Gap
acted a i g =
    if str_eq a "answered"
    then (if is_truthy i.answer
        then ok (record g { answer = i.answer; note = kept_note i.note g.note; status = a })
        else raise contract_error)
    else if str_eq a "reframed"
    then elim i.note [
      | none ↦ raise contract_error
      | some v ↦
          if is_true v
          then ok (record g {
            reframe = some (record { note = v; mandatory_review = true });
            status = a;
          })
          else raise contract_error
    ]
    else if str_eq a "draft_flagged" && is_truthy i.answer
    then raise contract_error
    else ok (record g { note = kept_note i.note g.note; status = a })

-- The disposition of a gap that is found.
unfoldable pub dispose_gap : Disposition → Gap → Result Gap
unfolding is_true
dispose_gap i g = elim i.action [
  | none ↦ raise contract_error
  | some a ↦
      if not (is_action a)
      then raise contract_error
      else if not (str_eq g.status "open")
      then raise contract_error
      else acted a i g
]

abbrev pub with_gaps : Section → Result (List Gap) → Result Section
with_gaps s (ok gs) = ok (record s { gaps = gs })
with_gaps s (raise e) = raise e

unfoldable pub dispose_in : Disposition → Section → Result Section
unfolding at_first dispose_gap
dispose_in i s =
    with_gaps s (or_raise (at_first (λ g. same_text g.gap_id i.gap_id) (dispose_gap i) s.gaps))

unfoldable pub dispose_one : Disposition → List Section → Result (List Section)
unfolding at_last dispose_in
dispose_one i ss = or_raise (at_last (λ s. is_text i.section_id s.section_id) (dispose_in i) ss)

-- `_apply_dispositions`, where the edits name no unknown operation.
unfoldable pub apply_dispositions : List Disposition → List Section → Result (List Section)
unfolding dispose_one
apply_dispositions [] ss = ok ss
apply_dispositions (i ∷ is) ss = elim (dispose_one i ss) [
  | raise e ↦ raise e
  | ok next ↦ apply_dispositions is next
]

unfoldable pub waive_row : Waive → Obligation → Result Obligation
waive_row w o =
    if str_eq o.status "waived"
    then raise contract_error
    else if not (str_eq o.status "gapped")
    then raise contract_error
    else ok (record o { status = "waived"; note = w.note })

abbrev has_id : Option String → Bool
has_id none = false
has_id (some t) = not (str_eq t "")

abbrev is_nil : List String → Bool
is_nil [] = true
is_nil (k ∷ ks) = false

unfoldable pub waive_one : Waive → List Obligation → Result (List Obligation)
unfolding at_last waive_row is_true
waive_one w os =
    if not (has_id w.id)
    then raise contract_error
    else if not (is_nil w.extra)
    then raise contract_error
    else if not (is_truthy w.note)
    then raise contract_error
    else or_raise (at_last (λ o. is_text w.id o.id) (waive_row w) os)

-- `_apply_waives`
unfoldable pub apply_waives : List Waive → List Obligation → Result (List Obligation)
unfolding waive_one
apply_waives [] os = ok os
apply_waives (w ∷ ws) os = elim (waive_one w os) [
  | raise e ↦ raise e
  | ok next ↦ apply_waives ws next
]
