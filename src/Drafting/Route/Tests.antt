-- ===== src/Drafting/Route/Tests.antt =====
-- A section of three slots, one of them with an open gap that gates another.
use rfp_engine.Prelude.Dict
use rfp_engine.Prelude.{
  not, ◌&&◌, ◌↔◌, true, refl, any, [], none, some, ◌∷◌, false, ◌≡◌, Option, List, String,
}
use rfp_engine.Drafting.Route.Plan.{
  gaters, gated_by, is_answerable, lane_list, gate_lanes, route_gap, route_gaps, first_lanes,
  routed, section_plan,
}
use rfp_engine.Drafting.Route.Gaps.{blocks, drafts, strays}
use rfp_engine.Drafting.Route.Types.{
  is_model, awaiting, pinged, model, answered, open_gap, Kind, Gap, GapStatus, Slot,
}
use rfp_engine.Drafting.Route.Laws.{lane_drafted, section_drafted}
use rfp_engine.Drafting.Route.Gapped.{gapped_slots}
use rfp_engine.Planning.Sections.Cascade.{gates_by_id, cascade_gating}
use rfp_engine.Planning.Sections.Cascade.Reach.{Gated}

abbrev slot : String → List String → Slot
slot i gates = record {
  slot_id = i;
  is_header = false;
  fill_type = none;
  response_shape = some "prose";
  gates = gates;
}

abbrev slots : List Slot
slots = slot "a" ("b" ∷ []) ∷ slot "b" [] ∷ slot "c" [] ∷ []

abbrev gap_on : Option String → GapStatus → Gap
gap_on i s = record {
  gap_id = "g1";
  slot_id = i;
  status = s;
  note = "";
  answer = "";
  reframe_note = "";
}

abbrev gaps : List Gap
gaps = gap_on (some "a") open_gap ∷ gap_on (some "c") answered ∷ []

abbrev statuses : List Gap → Kind
statuses gs = (section_plan slots gs).status

one_slot_drafted : statuses gaps ≡ model
unfolding section_plan routed first_lanes route_gaps route_gap gate_lanes lane_list is_answerable
    gated_by cascade_gating Dict.get Dict.put
one_slot_drafted = refl

gated_slot_skipped : drafts "b" (routed slots gaps).lanes ≡ false
unfolding routed first_lanes route_gaps route_gap gate_lanes is_answerable gated_by cascade_gating
    Dict.get Dict.put
gated_slot_skipped = refl

stray_gap_pends : statuses (gap_on (some "z") pinged ∷ gaps) ≡ awaiting
unfolding section_plan routed first_lanes route_gaps route_gap gate_lanes lane_list is_answerable
    gated_by cascade_gating Dict.get Dict.put
stray_gap_pends = refl

lane_drafted_example : (drafts "c" (routed slots gaps).lanes ≡ true) ↔ (
    (drafts "c" (first_lanes slots []) ≡ true)
    × (any (blocks "c") gaps ≡ false)
    × ¬ Gated (gates_by_id (gaters slots) []) (gapped_slots slots gaps) "c")
lane_drafted_example = lane_drafted slots gaps "c"

section_drafted_example : is_model (section_plan slots gaps).status ≡ (
    not (any (strays (first_lanes slots [])) gaps)
    && any (λ s. drafts s.slot_id (routed slots gaps).lanes) slots)
section_drafted_example = section_drafted slots gaps
