-- ===== src/Llm/Caller/Tests.antt =====
-- A call under a ceiling that its cost breaks, and the theorems at concrete inputs.
use rfp_engine.RunLog.Writer.{accumulate, emit, Record, new_logger}
use rfp_engine.Llm.Caller.Call.{
  contract_violated, ceiling_exceeded, is_breached, record_cost, cost_usd, mid, Traced, call_model,
  CallResult, returned,
}
use rfp_engine.Prelude.{refl, ◌≤◌, ◌≢◌, none, ◌≡◌, [], some, ◌/◌, true, ℕ, Bool}
use rfp_engine.Llm.Caller.Laws.{call-Within, Within, call-Metered, Metered}

abbrev accepts : Record → Bool
accepts r = true

abbrev thousandth : ℕ → ℕ
thousandth n = n / 1000

abbrev result : CallResult
result = record {
  model = "fake-mid-1";
  input_tokens = 1000;
  output_tokens = 200;
  cache_read = 0;
  cache_write = 0;
  fell_back_from = some "primary";
}

abbrev caller : ℕ → Traced
caller ceiling = record {
  log = new_logger [];
  ceiling_usd = ceiling;
  spent_usd = 0;
  prices = none;
  budget = some (record { total_usd = 9000; max_calls = 2; spent_usd = 0; calls = 0 });
}

call_returns : (call_model accepts thousandth 5 1 mid result (caller 7000)).0 ≡ returned result
unfolding call_model emit cost_usd record_cost is_breached accumulate
call_returns = refl

call_over_ceiling :
    (call_model accepts thousandth 5 1 mid result (caller 5999)).0 ≡ ceiling_exceeded
unfolding call_model emit cost_usd record_cost is_breached accumulate
call_over_ceiling = refl

call_not_refused :
    (call_model accepts thousandth 5 1 mid result (caller 5999)).0 ≢ contract_violated
unfolding call_model emit cost_usd record_cost is_breached accumulate
call_not_refused h = cc

call-Within_example :
    let t' = (call_model accepts thousandth 5 1 mid result (caller 7000)).1 in
    (result ≡ result)
    × (cost_usd thousandth mid result (caller 7000).prices ≢ none)
    × (t'.spent_usd ≤ t'.ceiling_usd)
    × Within t'.budget
call-Within_example =
    call-Within thousandth accepts 5 1 mid result (caller 7000) result call_returns

call-Metered_example :
    let (c, t') = call_model accepts thousandth 5 1 mid result (caller 5999) in
    Metered thousandth accepts 5 1 mid result
      (caller 5999)
      (cost_usd thousandth mid result (caller 5999).prices)
      c
      t'
call-Metered_example = call-Metered thousandth accepts 5 1 mid result (caller 5999)
