-- ===== src/Drafting/Route/Outline.antt =====
-- `_section_plan_b` of engine/drafting/route.py: on Path B the gaps belong to the whole section.
use rfp_engine.Drafting.Route.Types.{
  other, reframed, answered, pinged, open_gap, omit_approved, strange_status, unknown_status,
  reframed_steering, answered_steering, undisposed, draft_flagged, awaiting, Warning, omission,
  Steering, Reason, is_model, model, omitted, GapStatus, Gap, Kind,
}
use rfp_engine.Prelude.{
  ◌∙◌, arith, ◌++◌, ◌||◌, any, not, ◌&&◌, false, [], str_eq, ◌≡◌, true, none, some, if◌then◌else◌,
  Bool, ◌∷◌, String, Option, List,
}
use rfp_engine.Drafting.Route.Gaps.{is_blocking}
use rfp_engine.Drafting.Route.Plan.{gap_label}

pub record Outline : Type 0 where
  pub status : Kind
  pub reason : Option Reason
  pub steering : List Steering
  pub flag_section : Bool
  pub warnings : List Warning

abbrev note_of : Gap → String
note_of g = if str_eq g.note "" then "omission approved (B24)" else g.note

abbrev outline_status : GapStatus → Gap → Outline → Outline
outline_status omit_approved g o = record o {
  status = omitted;
  reason = some (omission (note_of g));
}
outline_status open_gap g o = record o {
  status = awaiting;
  reason = some (undisposed (gap_label g none));
}
outline_status pinged g o = record o {
  status = awaiting;
  reason = some (undisposed (gap_label g none));
}
outline_status answered g o = record o {
  steering = o.steering ++ answered_steering (gap_label g none) g.answer ∷ [];
}
outline_status reframed g o = record o {
  steering = o.steering ++ reframed_steering (gap_label g none) g.reframe_note ∷ [];
}
outline_status draft_flagged g o = record o { flag_section = true }
outline_status other g o = record o {
  status = awaiting;
  reason = some (unknown_status (gap_label g none));
  warnings = o.warnings ++ strange_status (gap_label g none) ∷ [];
}

-- The loop over the gaps.
unfoldable pub outline_gaps : List Gap → Outline → Outline
outline_gaps [] o = o
outline_gaps (g ∷ gs) o = outline_gaps gs (outline_status g.status g o)

unfoldable pub section_plan_b : List Gap → Outline
unfolding outline_gaps
section_plan_b gs =
    outline_gaps gs
      (record { status = model; reason = none; steering = []; flag_section = false; warnings = [] })

abbrev pub is_flag : GapStatus → Bool
is_flag draft_flagged = true
is_flag _ = false

outline_gaps-lem :
    (gs : List Gap) (o : Outline)
    → (is_model (outline_gaps gs o).status
        ≡ (is_model o.status && not (any (λ g. is_blocking g.status) gs)))
      × ((outline_gaps gs o).flag_section ≡ (o.flag_section || any (λ g. is_flag g.status) gs))
unfolding outline_gaps
outline_gaps-lem [] o = (ground arith, ground arith)
outline_gaps-lem (g ∷ gs) o =
    let (drafted, flagged) = outline_gaps-lem gs (outline_status g.status g o) in
    (drafted ∙ ground arith, flagged ∙ ground arith)

-- On Path B a section is drafted exactly if none of its gaps is open, pinged, of an unknown status
-- or an approved omission; it is flagged exactly if one of them is to be drafted with a flag.
pub outline_drafted :
    (gs : List Gap)
    → (is_model (section_plan_b gs).status ≡ not (any (λ g. is_blocking g.status) gs))
      × ((section_plan_b gs).flag_section ≡ any (λ g. is_flag g.status) gs)
unfolding section_plan_b
outline_drafted gs = outline_gaps-lem gs _
