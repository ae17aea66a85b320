-- ===== src/Planning/Gate/Tests.antt =====
-- Dispositions and waives of a small plan.
use rfp_engine.Prelude.Dict
use rfp_engine.Prelude.{
  ◌⊎◌, ◌+◌, ℕ, ◌≡◌, Bool, true, false, none, some, String, List, [], ◌∷◌, refl,
}
use rfp_engine.Planning.Gate.Edit.{Titled, Edited, gap_ping, apply_section_edits}
use rfp_engine.Planning.Gate.Sections.{standing, killed_as, added_as, apply_section_edits_lem}
use rfp_engine.Validation.Audit.{Json, object, field, end, text}
use rfp_engine.Workspace.Pursuit.Types.{ok, raise, Result}
use rfp_engine.Planning.Gate.Types.{Gap, Section, Obligation, Disposition}
use rfp_engine.Planning.Gate.Dispose.{apply_dispositions, apply_waives}
use rfp_engine.Planning.Gate.Laws.{Pointwise, apply_waives_lem, WaivedOrKept}
use rfp_engine.Planning.Gate.Gaps.{Kept, apply_dispositions_lem}

abbrev gap : String → Gap
gap id = record { gap_id = some id; status = "open"; answer = none; note = none; reframe = none }

abbrev planned : List Section
planned =
    record { section_id = "intro"; gaps = []; requirement_refs = "r1" ∷ [] }
    ∷ record { section_id = "team"; gaps = gap "g1" ∷ gap "g2" ∷ []; requirement_refs = [] }
    ∷ []

abbrev answer : Disposition
answer = record {
  section_id = some "team";
  gap_id = some "g1";
  action = some "answered";
  answer = some (text "yes");
  note = none;
}

abbrev turn : Disposition
turn = record {
  section_id = some "team";
  gap_id = some "g2";
  action = some "reframed";
  answer = none;
  note = some (text "say less");
}

abbrev disposed : List Section
disposed =
    record { section_id = "intro"; gaps = []; requirement_refs = "r1" ∷ [] }
    ∷ record {
      section_id = "team";
      gaps =
          record (gap "g1") { status = "answered"; answer = some (text "yes") }
          ∷ record (gap "g2") {
            status = "reframed";
            reframe = some (record { note = text "say less"; mandatory_review = true });
          }
          ∷ [];
      requirement_refs = [];
    }
    ∷ []

apply_dispositions_lem_example : Pointwise Kept planned disposed
unfolding apply_dispositions
apply_dispositions_lem_example = apply_dispositions_lem (answer ∷ turn ∷ []) planned disposed refl

abbrev rows : List Obligation
rows =
    record { id = "o1"; status = "covered"; note = none }
    ∷ record { id = "o2"; status = "gapped"; note = none }
    ∷ []

abbrev waived_rows : List Obligation
waived_rows =
    record { id = "o1"; status = "covered"; note = none }
    ∷ record { id = "o2"; status = "waived"; note = some (text "not ours") }
    ∷ []

apply_waives_lem_example : Pointwise WaivedOrKept rows waived_rows
unfolding apply_waives
apply_waives_lem_example =
    apply_waives_lem (record { id = some "o2"; note = some (text "not ours"); extra = [] } ∷ [])
      rows waived_rows refl

-- A second waive of one obligation raises, and so does a waive of a covered one.
abbrev is_refused : {A : Type 0} → Result A → Bool
is_refused (ok a) = false
is_refused (raise e) = true

waive_twice :
    is_refused (
      apply_waives (record { id = some "o2"; note = some (text "n"); extra = [] } ∷ []) waived_rows)
    ≡ true
unfolding apply_waives
waive_twice = refl

waive_covered :
    is_refused
      (apply_waives (record { id = some "o1"; note = some (text "n"); extra = [] } ∷ []) rows)
    ≡ true
unfolding apply_waives
waive_covered = refl

abbrev titled : String → Titled
titled id = record { section_id = id; title = text id; gap_ids = [] }

abbrev cleaned : String → String
cleaned t = t

abbrev digits : ℕ → String
digits n = "02"

abbrev section_edits : List Json
section_edits =
    object (
      field "op" (text "kill")
        (field "section_id" (text "team") (field "reason" (text "not asked") end)))
    ∷ object (field "op" (text "add") (field "title" (text "price") end))
    ∷ []

abbrev edited_plan : Edited
edited_plan = record {
  sections =
      titled "intro"
      ∷ record { section_id = "price"; title = text "price"; gap_ids = "gap_p1_gate2_02" ∷ [] }
      ∷ [];
  kills =
      record { section_id = "team"; title = text "team"; reason = text "not asked"; by = "Ann" }
      ∷ [];
  gap_lines =
      record { section_id = "price"; gap_id = "gap_p1_gate2_02"; question = gap_ping "price" "Ann" }
      ∷ [];
  gate_gaps = 1;
}

apply_section_edits_lem_example :
    (standing "team" edited_plan.sections + killed_as "team" edited_plan.kills
      ≡ standing "team" (titled "intro" ∷ titled "team" ∷ [])
        + added_as "team" edited_plan.gap_lines)
    × ((false ≡ false) ⊎ ((edited_plan.kills ≡ []) × (edited_plan.gap_lines ≡ [])))
unfolding apply_section_edits Dict.get Dict.put
apply_section_edits_lem_example =
    apply_section_edits_lem cleaned digits digits "p1" "Ann" "team" false section_edits
      (titled "intro" ∷ titled "team" ∷ []) edited_plan refl
