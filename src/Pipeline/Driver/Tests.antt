-- ===== src/Pipeline/Driver/Tests.antt =====
-- A workspace that counts what it has, the driver run over it, and the theorems there.
use rfp_engine.Prelude.{◌∷◌, none, ◌≡◌, refl, [], true, false, Bool}
use rfp_engine.Pipeline.Driver.Types.{
  ran_validation, ran_drafting, ran_plan_gate, ran_strategy, ran_research, ran_gate_0, ran_intake,
  ok, returned, Inputs, World, Stages,
}
use rfp_engine.Pipeline.Driver.Advance.{
  validation_phase, drafting_phase, planning_phase, strategy_phase, intake_phase, advance,
}
use rfp_engine.Pipeline.Driver.Rule.{Post}
use rfp_engine.Pipeline.Driver.Order.{stages-InOrder, InOrder}
use rfp_engine.Pipeline.Driver.Brackets.{advance-brackets, Kept, Closed}
use rfp_engine.Pipeline.Driver.Stops.{advance_explains, Anything, Explained}

-- A pursuit with one flag for each artifact that the driver asks for.
record Disk : Type 0 where
  brief : Bool
  gate0 : Bool
  frozen : Bool
  plan : Bool
  draft : Bool
  annotated : Bool

abbrev stages : Stages Disk
stages = record {
  brief_done = λ d. d.brief;
  gate_0_done = λ d. d.gate0;
  brief_frozen = λ d. d.frozen;
  plan_frozen = λ d. d.plan;
  draft_is_current = λ d. returned d.draft;
  awaiting_sections = λ d. returned [];
  validation_is_current = λ d. (returned (d.annotated, false), d);
  run_intake = λ d. (returned false, record d { brief = true });
  deposit_supplementals = λ d. (returned true, d);
  approve_gate0 = λ d. (returned false, record d { gate0 = true });
  run_research = λ d. (returned false, d);
  run_win_themes = λ d. (returned false, d);
  approve_gate1 = λ d. (returned true, record d { frozen = true });
  run_planning = λ d. (returned true, d);
  approve_gate2 = λ d. (returned true, record d { plan = true });
  run_drafting = λ d. (returned false, record d { draft = true });
  run_validation = λ d. (returned false, record d { annotated = true });
}

abbrev new_disk : Disk
new_disk = record {
  brief = false;
  gate0 = false;
  frozen = false;
  plan = false;
  draft = false;
  annotated = false;
}

abbrev world : Disk → World Disk
world d = record { ws = d; trace = [] }

abbrev everything : Inputs
everything = record {
  intake_package = true;
  decide_gate0 = true;
  decide_gate1 = true;
  decide_gate2 = true;
}

-- With every decision at hand one advance goes to the end.
runs_through :
    (advance stages everything (world new_disk)).0
    ≡ returned (record {
      status = ok;
      stopped_at = none;
      problems = [];
      ran_stages =
          ran_intake ∷ ran_gate_0 ∷ ran_research ∷ ran_strategy ∷ ran_plan_gate ∷ ran_drafting
          ∷ ran_validation ∷ [];
    })
unfolding advance intake_phase strategy_phase planning_phase drafting_phase validation_phase
runs_through = refl

advance-brackets_example :
    Post Closed Kept
      (advance stages everything (world new_disk)).0
      (advance stages everything (world new_disk)).1
advance-brackets_example = advance-brackets stages everything (world new_disk) refl

stages-InOrder_example : InOrder (advance stages everything (world new_disk)).1
stages-InOrder_example = stages-InOrder stages everything (world new_disk) refl

abbrev no_gate1 : Inputs
no_gate1 = record everything { decide_gate1 = false }

advance_explains_example :
    Post
      (Explained no_gate1)
      Anything
      (advance stages no_gate1 (world new_disk)).0
      (advance stages no_gate1 (world new_disk)).1
advance_explains_example = advance_explains stages no_gate1 (world new_disk)

abbrev no_gate0 : Inputs
no_gate0 = record everything { decide_gate0 = false }
