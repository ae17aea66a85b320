-- ===== src/Drafting/Route/Plan.antt =====
-- `section_plan` of engine/drafting/route.py, and `is_answerable` of engine/planning/sections.py.
-- The slots are those that the section's ids resolve to.
use rfp_engine.Prelude.Dict
use rfp_engine.Prelude.{
  ◌||◌, all, true, any, not, ◌++◌, none, str_eq, false, [], some, if◌then◌else◌, Bool, ◌∷◌, Option,
  String, List,
}
use rfp_engine.Drafting.Route.Types.{
  gated, gated_skipped, other, none_draftable, pinged, all_omitted, draft_flagged, open_gap,
  is_omitted, reframed, omit_approved, answered, unknown_status, is_shape, unmatched,
  strange_status, undisposed, no_lane, awaiting, foreign_slot, reframed_steering, not_model,
  omission, shape_skipped, Kind, no_slot, answered_steering, is_model, omitted, model, SectionPlan,
  Reason, Plan, Lane, GapStatus, Warning, Steering, Gap, Slot,
}
use rfp_engine.Planning.Sections.Cascade.{cascade_gating, Gater}

-- SKIP_SHAPES
abbrev pub skip_shapes : List String
skip_shapes = "boolean" ∷ "numeric" ∷ "record" ∷ "table" ∷ "template_fill" ∷ "none" ∷ []

abbrev is_text : String → Option String → Bool
is_text w none = false
is_text w (some s) = str_eq s w

abbrev is_organizational : Slot → Bool
is_organizational s = s.is_header || is_text "none" s.response_shape

unfoldable pub is_answerable : Slot → Bool
is_answerable s =
    if is_organizational s
    then false
    else if is_text "template_fill" s.fill_type
    then false
    else not (any (λ w. is_text w s.response_shape) skip_shapes)

abbrev pub fresh_lane : Slot → Lane
fresh_lane s =
    if is_answerable s
    then record { slot_id = s.slot_id; kind = model; reason = none; gap = none; flagged = false }
    else record {
      slot_id = s.slot_id;
      kind = shape_skipped;
      reason = some no_lane;
      gap = none;
      flagged = false;
    }

-- The loop that fills `lanes`.
unfoldable pub first_lanes : List Slot → Dict.Dict Lane → Dict.Dict Lane
first_lanes [] m = m
first_lanes (s ∷ ss) m = first_lanes ss (Dict.put s.slot_id (fresh_lane s) m)

abbrev nonempty : String → String → String
nonempty s t = if str_eq s "" then t else s

abbrev slot_name : Option String → String
slot_name none = "(unnumbered)"
slot_name (some s) = nonempty s "(unnumbered)"

-- `_gap_label`
unfoldable pub gap_label : Gap → Option String → String
gap_label g slot = nonempty g.gap_id (slot_name slot)

abbrev add_steering : Steering → Plan → Plan
add_steering s p = record p { steering = p.steering ++ s ∷ [] }

abbrev pub warn : Warning → Plan → Plan
warn w p = record p { warnings = p.warnings ++ w ∷ [] }

abbrev pub set_lane : String → Lane → Plan → Plan
set_lane slot l p = record p { lanes = Dict.put slot l p.lanes }

-- A gap on a slot that the model was to draft.
abbrev pub dispose : GapStatus → Gap → String → Lane → Plan → Plan
dispose omit_approved g slot l p =
    set_lane slot
      (record l {
        kind = omitted;
        reason = some (omission (nonempty g.note "omission approved (B24)"));
        gap = some g;
      })
      p
dispose open_gap g slot l p =
    set_lane slot
      (record l {
        kind = awaiting;
        reason = some (undisposed (gap_label g (some slot)));
        gap = some g;
      })
      p
dispose pinged g slot l p =
    set_lane slot
      (record l {
        kind = awaiting;
        reason = some (undisposed (gap_label g (some slot)));
        gap = some g;
      })
      p
dispose answered g slot l p =
    add_steering (answered_steering (gap_label g (some slot)) g.answer)
      (set_lane slot (record l { gap = some g }) p)
dispose reframed g slot l p =
    add_steering (reframed_steering (gap_label g (some slot)) g.reframe_note)
      (set_lane slot (record l { gap = some g }) p)
dispose draft_flagged g slot l p = set_lane slot (record l { gap = some g; flagged = true }) p
dispose other g slot l p = warn (strange_status (gap_label g (some slot))) (
    set_lane slot
      (record l { kind = awaiting; reason = some (unknown_status (gap_label g (some slot))) }) p)

abbrev pub on_slot : Gap → String → Lane → Plan → Plan
on_slot g slot l p =
    let q : Plan = record p { matched = slot ∷ p.matched } in
    if is_model l.kind
    then dispose g.status g slot l q
    else warn (not_model (gap_label g (some slot)) slot) q

-- A gap that no slot of the section can be found for.
abbrev pub on_section : GapStatus → Gap → Plan → Plan
on_section answered g p = add_steering (answered_steering (gap_label g none) g.answer) p
on_section reframed g p = add_steering (reframed_steering (gap_label g none) g.reframe_note) p
on_section draft_flagged g p = record p { flag_section = true }
on_section s g p = record p { pend = some (unmatched (gap_label g none) s) }

abbrev pub on_lane : Gap → String → Option Lane → Plan → Plan
on_lane g slot (some l) p = on_slot g slot l p
on_lane g slot none p =
    on_section g.status g
      (warn (no_slot (gap_label g none)) (warn (foreign_slot (gap_label g none) slot) p))

abbrev pub on_target : Gap → Option String → Plan → Plan
on_target g none p = on_section g.status g (warn (no_slot (gap_label g none)) p)
on_target g (some slot) p = on_lane g slot (Dict.get slot p.lanes) p

unfoldable pub route_gap : Gap → Plan → Plan
route_gap g p = on_target g g.slot_id p

unfoldable pub route_gaps : List Gap → Plan → Plan
unfolding route_gap
route_gaps [] p = p
route_gaps (g ∷ gs) p = route_gaps gs (route_gap g p)

abbrev pub gate_lane : String → Option Lane → Dict.Dict Lane → Dict.Dict Lane
gate_lane slot none m = m
gate_lane slot (some l) m =
    if is_model l.kind
    then Dict.put slot (record l { kind = gated_skipped; reason = some gated }) m
    else m

unfoldable pub gate_lanes : List String → Dict.Dict Lane → Dict.Dict Lane
gate_lanes [] m = m
gate_lanes (slot ∷ slots) m = gate_lanes slots (gate_lane slot (Dict.get slot m) m)

-- `[lanes[sid] for sid in slot_ids]`: every id has a lane.
abbrev pub found_lane : Option Lane → List Lane → List Lane
found_lane none ls = ls
found_lane (some l) ls = l ∷ ls

unfoldable pub lane_list : List Slot → Dict.Dict Lane → List Lane
lane_list [] m = []
lane_list (s ∷ ss) m = found_lane (Dict.get s.slot_id m) (lane_list ss m)

abbrev pub settle_status : Option Reason → List Lane → Kind × Option Reason
settle_status (some r) ls = (awaiting, some r)
settle_status none ls =
    if all (λ l. is_shape l.kind) ls
    then (shape_skipped, some no_lane)
    else if any (λ l. is_model l.kind) ls
    then (model, none)
    else if all (λ l. is_shape l.kind || is_omitted l.kind) ls
    then (omitted, some all_omitted)
    else (awaiting, some none_draftable)

abbrev pub opening : List Slot → Plan
opening ss = record {
  lanes = first_lanes ss [];
  matched = [];
  pend = none;
  steering = [];
  flag_section = false;
  warnings = [];
}

unfoldable pub gaters : List Slot → List Gater
gaters [] = []
gaters (s ∷ ss) = record { slot_id = s.slot_id; gates = s.gates } ∷ gaters ss

-- The worklist always ends (Planning/Sections/Cascade/Loop).
abbrev pub skipped_slots : Option (List String) → List String
skipped_slots none = []
skipped_slots (some ids) = ids

-- `cascade_gating(section_slots, matched_gap_slots)`
unfoldable pub gated_by : List Slot → List String → List String
unfolding gaters
gated_by ss matched = skipped_slots (cascade_gating (gaters ss) matched)

-- The lanes after the gaps, and after the gating of what hangs on a gapped slot.
unfoldable pub routed : List Slot → List Gap → Plan
unfolding first_lanes route_gaps gate_lanes gated_by
routed ss gs =
    let p = route_gaps gs (opening ss) in
    record p { lanes = gate_lanes (gated_by ss p.matched) p.lanes }

abbrev pub result_of : List Slot → Plan → SectionPlan
result_of ss p =
    let ls = lane_list ss p.lanes in
    let (status, reason) = settle_status p.pend ls in
    record {
      status = status;
      reason = reason;
      lanes = ls;
      steering = p.steering;
      flag_section = p.flag_section;
      warnings = p.warnings;
    }

-- `section_plan` on Path A.
unfoldable pub section_plan : List Slot → List Gap → SectionPlan
unfolding routed lane_list
section_plan ss gs = result_of ss (routed ss gs)
