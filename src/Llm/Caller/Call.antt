-- ===== src/Llm/Caller/Call.antt =====
-- `cost_usd`, `SpendBudget` and `TracedCaller.call` of engine/llm/caller.py. Money is whole
-- micro-dollars, as in the run log; prices are nano-dollars a token, and Python's `round` to six
-- places is a parameter from nano-dollars to micro-dollars. The model behind the caller is the
-- result that it returns, and one reading of the clock stamps all lines of a call.
use rfp_engine.Prelude.{
  none, if◌then◌else◌, some, ◌*◌, ◌||◌, suc, ltb, ◌+◌, Option, Bool, ℕ, String,
}
use text.Mathlib.Text.{starts_with}
use rfp_engine.RunLog.Writer.{
  other, contract_error, agent_call, landed, emit, Emitted, Record, Logger,
}

pub record CallResult : Type 0 where
  pub model : String
  pub input_tokens : ℕ
  pub output_tokens : ℕ
  pub cache_read : ℕ
  pub cache_write : ℕ
  pub fell_back_from : Option String

-- A row of models.yaml.
pub record Row : Type 0 where
  pub input : ℕ
  pub output : ℕ
  pub cache_read : ℕ
  pub cache_write : ℕ

pub data Tier : Type 0 where
  frontier mid fast : Tier

abbrev fake_prices : Tier → ℕ × ℕ
fake_prices frontier = (15000, 75000)
fake_prices mid = (3000, 15000)
fake_prices fast = (1000, 5000)

-- `SpendBudget`
pub record Budget : Type 0 where
  pub total_usd : ℕ
  pub max_calls : ℕ
  pub spent_usd : ℕ
  pub calls : ℕ

unfoldable pub record_cost : ℕ → Budget → Budget
record_cost cost b = record b { spent_usd = b.spent_usd + cost; calls = suc b.calls }

unfoldable pub is_breached : Budget → Bool
is_breached b = ltb b.total_usd b.spent_usd || ltb b.max_calls b.calls

-- `TracedCaller`
pub record Traced : Type 0 where
  pub log : Logger
  pub ceiling_usd : ℕ
  pub spent_usd : ℕ
  pub prices : Option (String → Option Row)
  pub budget : Option Budget

-- A call returns, or raises.
pub data Called : Type 0 where
  returned : CallResult → Called
  unpriced contract_violated ceiling_exceeded budget_exceeded : Called

module _ (round_micro : ℕ → ℕ) where
  abbrev fake_cost : ℕ × ℕ → CallResult → ℕ
  fake_cost (per_in, per_out) r = round_micro (r.input_tokens * per_in + r.output_tokens * per_out)

  abbrev row_cost : Option Row → CallResult → Option ℕ
  row_cost none r = none
  row_cost (some w) r = some (
      round_micro (
        r.input_tokens * w.input
        + r.output_tokens * w.output
        + r.cache_read * w.cache_read
        + r.cache_write * w.cache_write))

  abbrev table_cost : Option (String → Option Row) → Tier → CallResult → Option ℕ
  table_cost none tier r = some (fake_cost (fake_prices tier) r)
  table_cost (some rows) tier r =
      if starts_with r.model "fake-"
      then some (fake_cost (fake_prices tier) r)
      else row_cost (rows r.model) r

  -- `none` is the ValueError of a model with no price row.
  unfoldable pub cost_usd : Tier → CallResult → Option (String → Option Row) → Option ℕ
  cost_usd tier r prices =
      if starts_with r.model "handoff/" then some 0 else table_cost prices tier r

module _ (validate : Record → Bool) where
  abbrev pub then_raise : Called → Emitted × Logger → Traced → Called × Traced
  then_raise c (landed n, log) t = (c, record t { log = log })
  then_raise c (contract_error, log) t = (contract_violated, record t { log = log })

  -- An error line, and the exception after it.
  abbrev pub fail_with : Called → ℕ → Traced → Called × Traced
  fail_with c now t = then_raise c (emit validate now (other "error") t.log) t

  abbrev pub check_budget : ℕ → CallResult → ℕ → Option Budget → Traced → Called × Traced
  check_budget now r cost none t = (returned r, t)
  check_budget now r cost (some b) t =
      let t' : Traced = record t { budget = some (record_cost cost b) } in
      if is_breached (record_cost cost b)
      then fail_with budget_exceeded now t'
      else (returned r, t')

  abbrev pub check_ceiling : ℕ → CallResult → ℕ → Traced → Called × Traced
  check_ceiling now r cost t =
      if ltb t.ceiling_usd t.spent_usd
      then fail_with ceiling_exceeded now t
      else check_budget now r cost t.budget t

  abbrev pub after_fallback : ℕ → CallResult → ℕ → Emitted × Logger → Traced → Called × Traced
  after_fallback now r cost (contract_error, log) t = (contract_violated, record t { log = log })
  after_fallback now r cost (landed n, log) t = check_ceiling now r cost (record t { log = log })

  abbrev pub report_fallback : ℕ → CallResult → ℕ → Option String → Traced → Called × Traced
  report_fallback now r cost none t = check_ceiling now r cost t
  report_fallback now r cost (some model) t =
      after_fallback now r cost (emit validate now (other "error") t.log) t

  abbrev pub after_emit : ℕ → CallResult → ℕ → Emitted × Logger → Traced → Called × Traced
  after_emit now r cost (contract_error, log) t = (contract_violated, record t { log = log })
  after_emit now r cost (landed n, log) t =
      report_fallback now r cost r.fell_back_from (record t { log = log })

  -- The call once it is priced: the spend is metered before the line lands.
  abbrev pub priced_call : ℕ → ℕ → CallResult → Option ℕ → Traced → Called × Traced
  priced_call now duration r none t = (unpriced, t)
  priced_call now duration r (some cost) t =
      after_emit now r cost
        (emit validate now (agent_call cost duration r.input_tokens r.output_tokens) t.log)
        (record t { spent_usd = t.spent_usd + cost })

  module _ (round_micro : ℕ → ℕ) where
    unfoldable pub call_model : ℕ → ℕ → Tier → CallResult → Traced → Called × Traced
    unfolding cost_usd record_cost is_breached
    call_model now duration tier r t =
        priced_call now duration r (cost_usd round_micro tier r t.prices) t
