-- ===== src/Pipeline/Driver/Types.antt =====
-- The data of engine/pipeline/driver.py, the interface of the stages, and actions that may raise.
use rfp_engine.Prelude.{◌∷◌, true, [], String, Bool, none, Option, List}

-- The stage functions that `advance` calls.
pub data Op : Type 0 where
  intake deposit gate_0 research win_themes gate_1 planning gate_2 drafting validation : Op

-- `StageRun`s by the name that their header carries.
pub data RunStage : Type 0 where
  intake_run gate_0_run research_run strategy_run planning_run drafting_run validation_run :
      RunStage

pub data Footer : Type 0 where
  completed awaiting_gate awaiting_gap : Footer

-- What the run logs record of an advance.
pub data Entry : Type 0 where
  opened : RunStage → Entry
  called : Op → Entry
  repaired : Entry  -- the notice of an unreadable annotated draft
  ended : Footer → Entry

pub data Status : Type 0 where
  ok failed refused at_gate at_gap : Status

pub data Stop : Type 0 where
  stop_intake stop_gate_0 stop_research stop_win_themes stop_gate_1 stop_planning stop_gate_2
        stop_drafting stop_validation :
      Stop

pub data Problem : Type 0 where
  no_package intake_refused gate_0_rejected brief_awaits research_refused win_themes_refused
        planning_incomplete drafting_refused validation_refused :
      Problem
  sections_await : List String → Problem

-- The names that `ran_stages` holds.
pub data Ran : Type 0 where
  ran_intake ran_gate_0 ran_research ran_win_themes ran_strategy ran_planning ran_plan_gate
        ran_drafting ran_validation :
      Ran

pub record AdvanceResult : Type 0 where
  pub status : Status
  pub stopped_at : Option Stop
  pub problems : List Problem
  pub ran_stages : List Ran

abbrev pub new_result : AdvanceResult
new_result = record { status = ok; stopped_at = none; problems = []; ran_stages = [] }

-- A stage returns, or an exception leaves it.
pub data Outcome {ℓ} (A : Type ℓ) : Type ℓ where
  returned : A → Outcome A
  raised : Outcome A

-- The stages, and what the driver reads off a workspace. `true` stands for `refused`, for
-- `complete` of a plan, and for `rejected` of Gate 0.
pub record Stages (W : Type 0) : Type 0 where
  pub brief_done : W → Bool  -- "bid_brief" in completed_stages()
  pub gate_0_done : W → Bool  -- "gate_0" in completed_stages()
  pub brief_frozen : W → Bool  -- brief.frozen.json exists
  pub plan_frozen : W → Bool  -- plan.frozen.json exists
  pub draft_is_current : W → Outcome Bool
  pub awaiting_sections : W → Outcome (List String)
  pub validation_is_current : W → Outcome (Bool × Bool) × W  -- with whether it left a notice
  pub run_intake : W → Outcome Bool × W
  pub deposit_supplementals : W → Outcome Bool × W
  pub approve_gate0 : W → Outcome Bool × W
  pub run_research : W → Outcome Bool × W
  pub run_win_themes : W → Outcome Bool × W
  pub approve_gate1 : W → Outcome Bool × W
  pub run_planning : W → Outcome Bool × W
  pub approve_gate2 : W → Outcome Bool × W
  pub run_drafting : W → Outcome Bool × W
  pub run_validation : W → Outcome Bool × W

-- What the caller of `advance` supplies: `false` is a `None`.
pub record Inputs : Type 0 where
  pub intake_package : Bool
  pub decide_gate0 : Bool
  pub decide_gate1 : Bool
  pub decide_gate2 : Bool

pub record World (W : Type 0) : Type 0 where
  pub ws : W
  pub trace : List Entry

abbrev pub Action : Type 0 → Type 0 → Type 0
Action W A = World W → Outcome A × World W

module _ {W A : Type 0} where
  unfoldable pub pure : A → Action W A
  pure a s = (returned a, s)

module _ {W A B : Type 0} where
  abbrev pub continue : Outcome A → (A → Action W B) → Action W B
  continue (returned a) f s = f a s
  continue raised f s = (raised, s)

  infixl 10 ◌>>=◌ ◌>>◌
  unfoldable pub ◌>>=◌ : Action W A → (A → Action W B) → Action W B
  unfolding pure
  ◌>>=◌ m f s = let (r, s') = m s in continue r f s'

  abbrev pub ◌>>◌ : Action W A → Action W B → Action W B
  m >> n = m >>= λ _. n

module _ {W : Type 0} where
  -- A line of a run log.
  unfoldable pub write : Entry → Action W Bool
  write e s = (returned true, record s { trace = e ∷ s.trace })

  module _ {A : Type 0} where
    -- A look at the workspace.
    unfoldable pub look : (W → Outcome A) → Action W A
    look f s = (f s.ws, s)

    unfoldable pub look_and_mend : (W → Outcome A × W) → Action W A
    look_and_mend f s = let (r, w) = f s.ws in (r, record s { ws = w })

    -- A call of a stage.
    unfoldable pub call : Op → (W → Outcome A × W) → Action W A
    call op f s = let (r, w) = f s.ws in (r, record { ws = w; trace = called op ∷ s.trace })
