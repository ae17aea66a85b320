-- ===== src/Pipeline/Driver/Order.antt =====
-- The order of the stages, the stops, and the freeze that research never passes again.
use rfp_engine.Pipeline.Driver.Types.{
  raised, returned, Outcome, validation, drafting, gate_2, planning, gate_1, win_themes, called,
  research, gate_0, deposit, Inputs, AdvanceResult, Entry, intake, Stages, World, Op,
}
use rfp_engine.Prelude.{
  ◌≡◌, [], suc, arith, leb, ◌≤◌, ◌∷◌, if◌then◌else◌, none, some, ◌≢◌, Option, ℕ, List,
}
use rfp_engine.Pipeline.Driver.Advance.{
  advance, validation_phase, drafting_phase, planning_phase, strategy_phase, intake_phase,
}
use rfp_engine.Pipeline.Driver.Rule.{advance-Post, Fork, Post}

-- The fixed order.
abbrev pub rank : Op → ℕ
rank intake = 0
rank deposit = 1
rank gate_0 = 2
rank research = 3
rank win_themes = 4
rank gate_1 = 5
rank planning = 6
rank gate_2 = 7
rank drafting = 8
rank validation = 9

abbrev pub bump : Op → Option ℕ → Option ℕ
bump op none = none
bump op (some h) = if leb h (rank op) then some (suc (rank op)) else none

-- One more than the rank of the last stage called; `none` if the calls left the fixed order or
-- repeated a stage.
abbrev pub height : List Entry → Option ℕ
height [] = some 0
height (called op ∷ t) = bump op (height t)
height (_ ∷ t) = height t

abbrev pub Within : ℕ → Option ℕ → Type 0
Within k none = ⊥
Within k (some h) = h ≤ k

module _ {W : Type 0} where
  abbrev Below : ℕ → AdvanceResult → World W → Type 0
  Below k r s = Within k (height s.trace)

  abbrev pub InOrder : World W → Type 0
  InOrder s = height s.trace ≢ none

  module _ (e : Stages W) (i : Inputs) (r : AdvanceResult) (s : World W) where
    intake_order :
        Below 0 r s
        → Post (Fork (Below 10) (Below 3)) InOrder (intake_phase e i r s).0 (intake_phase e i r s).1
    unfolding intake_phase
    intake_order h = ground arith

    strategy_order :
        Below 3 r s
        → Post
            (Fork (Below 10) (Below 6))
            InOrder
            (strategy_phase e i r s).0
            (strategy_phase e i r s).1
    unfolding strategy_phase
    strategy_order h = ground arith

    planning_order :
        Below 6 r s
        → Post
            (Fork (Below 10) (Below 8))
            InOrder
            (planning_phase e i r s).0
            (planning_phase e i r s).1
    unfolding planning_phase
    planning_order h = ground arith

    drafting_order :
        Below 8 r s
        → Post
            (Fork (Below 10) (Below 9))
            InOrder
            (drafting_phase e i r s).0
            (drafting_phase e i r s).1
    unfolding drafting_phase
    drafting_order h = ground arith

    validation_order :
        Below 9 r s
        → Post (Below 10) InOrder (validation_phase e i r s).0 (validation_phase e i r s).1
    unfolding validation_phase
    validation_order h = ground arith

Post-InOrder :
    {W : Type 0} (e : Stages W) (i : Inputs) (o : Outcome AdvanceResult) (t : World W)
    → Post (Below 10) InOrder o t
    → InOrder t
Post-InOrder e i (returned r) t h = ground arith
Post-InOrder e i raised t h = h

-- Whatever the stages do, one advance calls them in the fixed order, each at most once, also where
-- an exception ends it.
pub stages-InOrder :
    {W : Type 0} (e : Stages W) (i : Inputs) (s : World W)
    → s.trace ≡ []
    → InOrder (advance e i s).1
stages-InOrder e i s new = Post-InOrder e i (advance e i s).0 (advance e i s).1 (
    advance-Post InOrder (Below 10) (Below 0) (Below 3) (Below 6) (Below 8) (Below 9) e i
      (intake_order e i) (strategy_order e i) (planning_order e i) (drafting_order e i)
      (validation_order e i) s (rw new (omega arith)))
