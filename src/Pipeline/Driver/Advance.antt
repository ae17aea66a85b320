-- ===== src/Pipeline/Driver/Advance.antt =====
-- `advance` of engine/pipeline/driver.py, one phase for each block of its body.
use rfp_engine.Pipeline.Driver.Types.{
  ran_plan_gate, ran_strategy, gate_2, gate_1, ran_planning, ran_win_themes, stop_gate_2,
  stop_gate_1, ran_intake, awaiting_gate, ran_validation, ran_research, validation_refused,
  planning_incomplete, research_refused, win_themes_refused, deposit, stop_validation,
  drafting_refused, stop_planning, stop_research, stop_win_themes, intake_refused, validation,
  drafting, planning, research, win_themes, intake, validation_run, drafting_run, planning_run,
  research_run, strategy_run, gate_0_run, intake_run, opened, ended, gate_0, ◌>>◌, sections_await,
  stop_drafting, at_gap, awaiting_gap, no_package, new_result, ran_drafting, returned, brief_awaits,
  stop_intake, look_and_mend, completed, ◌>>=◌, gate_0_rejected, pure, repaired, call, stop_gate_0,
  look, Action, write, Footer, refused, failed, Inputs, ran_gate_0, at_gate, Problem, Stages, Ran,
  Stop, AdvanceResult,
}
use rfp_engine.Prelude.{false, true, not, String, if◌then◌else◌, [], List, ◌∷◌, some, ◌++◌, Bool}

-- `return result` out of the body, or the rest of it.
pub data Next : Type 0 where
  stop : AdvanceResult → Next
  go : AdvanceResult → Next

abbrev fails : Stop → Problem → AdvanceResult → Next
fails at p r =
    stop (record r { status = failed; stopped_at = some at; problems = r.problems ++ p ∷ [] })

abbrev waits : Stop → AdvanceResult → Next
waits at r = stop (record r { status = at_gate; stopped_at = some at })

abbrev pub add_ran : Ran → AdvanceResult → AdvanceResult
add_ran x r = record r { ran_stages = r.ran_stages ++ x ∷ [] }

-- `_gate0_outcome`: a rejection is the redo door.
abbrev gate0_outcome : Bool → AdvanceResult → Next
gate0_outcome true r = stop (record (add_ran ran_gate_0 r) {
  status = refused;
  stopped_at = some stop_gate_0;
  problems = r.problems ++ gate_0_rejected ∷ [];
})
gate0_outcome false r = go (add_ran ran_gate_0 r)

abbrev pub go_on :
    {W : Type 0} → Next → (AdvanceResult → Action W AdvanceResult) → Action W AdvanceResult
go_on (stop r) rest = pure r
go_on (go r) rest = rest r

module _ {W : Type 0} (e : Stages W) (i : Inputs) where
  open e use {
    brief_done, gate_0_done, brief_frozen, plan_frozen, draft_is_current, awaiting_sections,
    validation_is_current, run_intake, deposit_supplementals, approve_gate0, run_research,
    run_win_themes, approve_gate1, run_planning, approve_gate2, run_drafting, run_validation,
  }

  abbrev closing : Footer → Next → Action W Next
  closing f n = do write (ended f); pure n

  -- The decision that is logged into the run that is open.
  unfoldable pub decide_gate_0 : AdvanceResult → Action W Next
  unfolding write call pure ◌>>=◌
  decide_gate_0 r = do
    rejected ← call gate_0 approve_gate0
    write (ended completed)
    pure (gate0_outcome rejected r)

  unfoldable pub first_intake : AdvanceResult → Action W Next
  unfolding decide_gate_0
  first_intake r =
      if not i.intake_package
      then pure (
          stop (record r {
            status = refused;
            stopped_at = some stop_intake;
            problems = r.problems ++ no_package ∷ [];
          }))
      else do
        write (opened intake_run)
        refusal ← call intake run_intake
        if refusal then closing completed (fails stop_intake intake_refused r) else do
          call deposit deposit_supplementals
          if not i.decide_gate0
              then closing awaiting_gate (waits stop_gate_0 (add_ran ran_intake r))
              else decide_gate_0 (add_ran ran_intake r)

  unfoldable pub resume_gate_0 : AdvanceResult → Action W Next
  unfolding decide_gate_0
  resume_gate_0 r =
      if not i.decide_gate0
      then pure (
          stop (record r {
            status = at_gate;
            stopped_at = some stop_gate_0;
            problems = r.problems ++ brief_awaits ∷ [];
          }))
      else do write (opened gate_0_run); decide_gate_0 r

  unfoldable pub intake_phase : AdvanceResult → Action W Next
  unfolding first_intake resume_gate_0 look
  intake_phase r = do
    done ← look (λ w. returned (brief_done w))
    if not done then first_intake r else do
      decided ← look (λ w. returned (gate_0_done w))
      if not decided then resume_gate_0 r else pure (go r)

  unfoldable pub decide_strategy : AdvanceResult → Action W Next
  unfolding write call pure ◌>>=◌
  decide_strategy r =
      if not i.decide_gate1
      then closing awaiting_gate (waits stop_gate_1 (add_ran ran_win_themes r))
      else do call gate_1 approve_gate1; write (ended completed); pure (go (add_ran ran_strategy r))

  unfoldable pub strategy_run_phase : AdvanceResult → Action W Next
  unfolding decide_strategy
  strategy_run_phase r = do
    write (opened strategy_run)
    refusal ← call win_themes run_win_themes
    if refusal
        then closing completed (fails stop_win_themes win_themes_refused r)
        else decide_strategy r

  unfoldable pub strategy_phase : AdvanceResult → Action W Next
  unfolding strategy_run_phase look
  strategy_phase r = do
    frozen ← look (λ w. returned (brief_frozen w))
    if frozen then pure (go r) else do
      write (opened research_run)
      refusal ← call research run_research
      if refusal
          then closing completed (fails stop_research research_refused r)
          else do write (ended completed); strategy_run_phase (add_ran ran_research r)

  unfoldable pub decide_plan : AdvanceResult → Action W Next
  unfolding write call pure ◌>>=◌
  decide_plan r =
      if not i.decide_gate2
      then closing awaiting_gate (waits stop_gate_2 (add_ran ran_planning r))
      else do
        call gate_2 approve_gate2
        write (ended completed)
        pure (go (add_ran ran_plan_gate r))

  unfoldable pub planning_phase : AdvanceResult → Action W Next
  unfolding decide_plan look
  planning_phase r = do
    frozen ← look (λ w. returned (plan_frozen w))
    if frozen then pure (go r) else do
      write (opened planning_run)
      complete ← call planning run_planning
      if not complete
          then closing completed (fails stop_planning planning_incomplete r)
          else decide_plan r

  abbrev drafting_end : List String → AdvanceResult → Action W Next
  drafting_end [] r = closing completed (go (add_ran ran_drafting r))
  drafting_end (s ∷ ss) r = closing awaiting_gap (
      stop (
        add_ran ran_drafting (record r {
          status = at_gap;
          stopped_at = some stop_drafting;
          problems = r.problems ++ sections_await (s ∷ ss) ∷ [];
        })))

  unfoldable pub drafting_phase : AdvanceResult → Action W Next
  unfolding write call look pure ◌>>=◌
  drafting_phase r = do
    current ← look draft_is_current
    if current then pure (go r) else do
      write (opened drafting_run)
      refusal ← call drafting run_drafting
      if refusal
          then closing completed (fails stop_drafting drafting_refused r)
          else do awaiting ← look awaiting_sections; drafting_end awaiting r

  abbrev repair : Bool → Action W Bool
  repair true = write repaired
  repair false = pure true

  unfoldable pub validation_phase : AdvanceResult → Action W AdvanceResult
  unfolding write call look_and_mend pure ◌>>=◌
  validation_phase r = do
    (current, notice) ← look_and_mend validation_is_current
    if current then pure r else do
      write (opened validation_run)
      repair notice
      refusal ← call validation run_validation
      write (ended completed)
      pure (
          if refusal
          then record r {
            status = failed;
            stopped_at = some stop_validation;
            problems = r.problems ++ validation_refused ∷ [];
          }
          else add_ran ran_validation r)

  unfoldable pub advance : Action W AdvanceResult
  advance = do
    a ← intake_phase new_result
    go_on a λ r. do
      b ← strategy_phase r
      go_on b λ r. do
        c ← planning_phase r
        go_on c λ r. do d ← drafting_phase r; go_on d validation_phase
