-- ===== src/Pipeline/Driver/Stops.antt =====
-- Why an advance stopped.
use rfp_engine.Pipeline.Driver.Types.{
  validation_refused, drafting_refused, planning_incomplete, win_themes_refused, research_refused,
  intake_refused, at_gap, at_gate, refused, failed, stop_gate_2, stop_validation, stop_gate_1,
  stop_drafting, gate_0_rejected, stop_planning, stop_gate_0, stop_win_themes, sections_await,
  stop_research, stop_intake, ok, Status, Problem, Stages, World, AdvanceResult, Inputs, Stop,
}
use rfp_engine.Prelude.{refl, ◌⊎◌, ◌∷◌, false, arith, [], some, true, none, Bool, ◌≡◌, List, Option}
use rfp_engine.Pipeline.Driver.Advance.{
  advance, validation_phase, drafting_phase, planning_phase, strategy_phase, intake_phase,
}
use rfp_engine.Pipeline.Driver.Rule.{advance-Post, Fork, Post}

-- The failures that the driver reports.
abbrev pub is_failure_of : Stop → Problem → Bool
is_failure_of stop_intake intake_refused = true
is_failure_of stop_research research_refused = true
is_failure_of stop_win_themes win_themes_refused = true
is_failure_of stop_planning planning_incomplete = true
is_failure_of stop_drafting drafting_refused = true
is_failure_of stop_validation validation_refused = true
is_failure_of _ _ = false

abbrev pub names_failure : Option Stop → List Problem → Bool
names_failure (some at) (p ∷ []) = is_failure_of at p
names_failure _ _ = false

abbrev pub names_sections : List Problem → Bool
names_sections (sections_await (s ∷ ss) ∷ []) = true
names_sections _ = false

-- What each status says of where the advance stopped, and why.
abbrev pub Explains : Inputs → Status → Option Stop → List Problem → Type 0
Explains i ok at problems = (at ≡ none) × (problems ≡ [])
Explains i failed at problems = names_failure at problems ≡ true
Explains i refused at problems =
    ((at ≡ some stop_intake) × (i.intake_package ≡ false))
    ⊎ ((at ≡ some stop_gate_0) × (i.decide_gate0 ≡ true) × (problems ≡ gate_0_rejected ∷ []))
Explains i at_gate at problems =
    ((at ≡ some stop_gate_0) × (i.decide_gate0 ≡ false))
    ⊎ ((at ≡ some stop_gate_1) × (i.decide_gate1 ≡ false))
    ⊎ ((at ≡ some stop_gate_2) × (i.decide_gate2 ≡ false))
Explains i at_gap at problems = (at ≡ some stop_drafting) × (names_sections problems ≡ true)

module _ {W : Type 0} where
  abbrev pub Explained : Inputs → AdvanceResult → World W → Type 0
  Explained i r s = Explains i r.status r.stopped_at r.problems

  abbrev Clean : AdvanceResult → World W → Type 0
  Clean r s = (r.status ≡ ok) × (r.stopped_at ≡ none) × (r.problems ≡ [])

  abbrev pub Anything : World W → Type 0
  Anything s = Unit

  module _ (e : Stages W) (i : Inputs) (r : AdvanceResult) (s : World W) (clean : Clean r s) where
    intake_stops :
        Post (Fork (Explained i) Clean) Anything (intake_phase e i r s).0 (intake_phase e i r s).1
    unfolding intake_phase
    intake_stops = ground arith

    strategy_stops :
        Post
          (Fork (Explained i) Clean)
          Anything
          (strategy_phase e i r s).0
          (strategy_phase e i r s).1
    unfolding strategy_phase
    strategy_stops = ground arith

    planning_stops :
        Post
          (Fork (Explained i) Clean)
          Anything
          (planning_phase e i r s).0
          (planning_phase e i r s).1
    unfolding planning_phase
    planning_stops = ground arith

    drafting_stops :
        Post
          (Fork (Explained i) Clean)
          Anything
          (drafting_phase e i r s).0
          (drafting_phase e i r s).1
    unfolding drafting_phase
    drafting_stops = ground arith

    validation_stops :
        Post (Explained i) Anything (validation_phase e i r s).0 (validation_phase e i r s).1
    unfolding validation_phase
    validation_stops = ground arith

-- The result of an advance says why it stopped: `ok` has no problem, a gate stop is at a gate whose
-- decider was not supplied, `refused` is a missing package or a Gate 0 rejection, `failed` names
-- the stage that refused, and `awaiting_gap` names at least one section.
pub advance_explains :
    {W : Type 0} (e : Stages W) (i : Inputs) (s : World W)
    → Post (Explained i) Anything (advance e i s).0 (advance e i s).1
advance_explains e i s =
    advance-Post Anything (Explained i) Clean Clean Clean Clean Clean e i (intake_stops e i)
      (strategy_stops e i) (planning_stops e i) (drafting_stops e i) (validation_stops e i) s
      (refl, refl, refl)
