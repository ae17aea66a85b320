-- ===== src/Pipeline/Driver/Brackets.antt =====
-- The run logs of an advance: one run is open at a time, stages are called only inside it, and it
-- gets its footer unless an exception leaves the advance.
use rfp_engine.Prelude.{[], arith, ◌≢◌, ◌∷◌, ◌≡◌, none, false, true, some, Bool, List, Option}
use rfp_engine.Pipeline.Driver.Types.{
  ended, raised, opened, World, AdvanceResult, returned, Inputs, Entry, Stages, Outcome,
}
use rfp_engine.Pipeline.Driver.Advance.{
  go, stop, Next, advance, validation_phase, drafting_phase, planning_phase, strategy_phase,
  intake_phase,
}
use rfp_engine.Pipeline.Driver.Rule.{advance-Post, Fork, Post}

-- Whether a run is open at the end of a trace (newest entry first); `none` if the trace breaks the
-- rule on the way.
abbrev pub may_open : Option Bool → Option Bool
may_open (some false) = some true
may_open _ = none

abbrev pub may_end : Option Bool → Option Bool
may_end (some true) = some false
may_end _ = none

abbrev pub must_be_open : Option Bool → Option Bool
must_be_open (some true) = some true
must_be_open _ = none

abbrev pub brackets : List Entry → Option Bool
brackets [] = some false
brackets (opened _ ∷ t) = may_open (brackets t)
brackets (ended _ ∷ t) = may_end (brackets t)
brackets (_ ∷ t) = must_be_open (brackets t)

abbrev pub Closed : {W A : Type 0} → A → World W → Type 0
Closed a s = brackets s.trace ≡ some false

abbrev pub Kept : {W : Type 0} → World W → Type 0
Kept s = brackets s.trace ≢ none

module _ {W : Type 0} (e : Stages W) (i : Inputs) (r : AdvanceResult) (s : World W)
    (closed : brackets s.trace ≡ some false) where
  intake_brackets : Post Closed Kept (intake_phase e i r s).0 (intake_phase e i r s).1
  unfolding intake_phase
  intake_brackets = ground arith

  strategy_brackets : Post Closed Kept (strategy_phase e i r s).0 (strategy_phase e i r s).1
  unfolding strategy_phase
  strategy_brackets = ground arith

  planning_brackets : Post Closed Kept (planning_phase e i r s).0 (planning_phase e i r s).1
  unfolding planning_phase
  planning_brackets = ground arith

  drafting_brackets : Post Closed Kept (drafting_phase e i r s).0 (drafting_phase e i r s).1
  unfolding drafting_phase
  drafting_brackets = ground arith

  validation_brackets : Post Closed Kept (validation_phase e i r s).0 (validation_phase e i r s).1
  unfolding validation_phase
  validation_brackets = ground arith

forked :
    {W : Type 0} (o : Outcome Next) (s : World W)
    → Post Closed Kept o s
    → Post (Fork Closed Closed) Kept o s
forked (returned (stop r)) s h = h
forked (returned (go r)) s h = h
forked raised s h = h

-- However the stages behave: an advance over closed run logs opens one run at a time, calls stages
-- only inside an open run, and leaves every run with its footer when it returns; if an exception
-- leaves it, the trace still keeps the first two rules.
pub advance-brackets :
    {W : Type 0} (e : Stages W) (i : Inputs) (s : World W)
    → brackets s.trace ≡ some false
    → Post Closed Kept (advance e i s).0 (advance e i s).1
advance-brackets e i =
    advance-Post Kept Closed Closed Closed Closed Closed Closed e i
      (λ r t h. forked _ _ (intake_brackets e i r t h))
      (λ r t h. forked _ _ (strategy_brackets e i r t h))
      (λ r t h. forked _ _ (planning_brackets e i r t h))
      (λ r t h. forked _ _ (drafting_brackets e i r t h)) (validation_brackets e i)
