-- ===== src/Llm/Caller/Laws.antt =====
-- What a traced call meters, and when it returns.
use rfp_engine.RunLog.Writer.{
  other, contract_error, landed, emit, agent_call, Emitted, Record, Logger, accumulate,
}
use rfp_engine.Llm.Caller.Call.{
  after_emit, ceiling_exceeded, budget_exceeded, record_cost, contract_violated, after_fallback,
  is_breached, then_raise, cost_usd, report_fallback, priced_call, call_model, check_ceiling,
  check_budget, fail_with, Tier, CallResult, Called, Budget, Traced, returned,
}
use rfp_engine.Prelude.{
  inr, refl, ◌∙◌, ◌+◌, ap, inl, ◌⊎◌, arith, ltb, ◌≢◌, Bool-cases, none, String, ◌≤◌, some, Bool,
  ◌≡◌, ℕ, Option,
}

-- A shared budget that is not breached, or none.
abbrev pub Within : Option Budget → Type 0
Within none = Unit
Within (some b) = (b.spent_usd ≤ b.total_usd) × (b.calls ≤ b.max_calls)

-- The money of a caller: what it has spent, and what its run log counts.
SameMoney : Traced → Traced → Type 0
SameMoney a b = (a.spent_usd ≡ b.spent_usd) × (a.log.totals.cost_usd ≡ b.log.totals.cost_usd)

module _ (validate : Record → Bool) (now : ℕ) where
  emit-totals :
      (text : String) (l : Logger) → (emit validate now (other text) l).1.totals ≡ l.totals
  unfolding emit accumulate
  emit-totals text l = ground arith

  emit-cost :
      (cost duration input output : ℕ) (l : Logger)
      → let (e, l') = emit validate now (agent_call cost duration input output) l in
        ((e ≡ contract_error) × (l'.totals.cost_usd ≡ l.totals.cost_usd))
        ⊎ (l'.totals.cost_usd ≡ l.totals.cost_usd + cost)
  unfolding emit accumulate
  emit-cost cost duration input output l = ground arith

  raise-SameMoney :
      (c : Called) (e : Emitted × Logger) (t : Traced)
      → e.1.totals ≡ t.log.totals
      → SameMoney (then_raise validate c e t).1 t
  unfolding SameMoney
  raise-SameMoney c (landed n, log) t h = (refl, ap (λ x. x.cost_usd) h)
  raise-SameMoney c (contract_error, log) t h = (refl, ap (λ x. x.cost_usd) h)

  fail-SameMoney : (c : Called) (t : Traced) → SameMoney (fail_with validate c now t).1 t
  fail-SameMoney c t =
      raise-SameMoney c (emit validate now (other "error") t.log) t (emit-totals "error" t.log)

  budget-SameMoney :
      (r : CallResult) (cost : ℕ) (b : Option Budget) (t : Traced)
      → SameMoney (check_budget validate now r cost b t).1 t
  unfolding SameMoney
  budget-SameMoney r cost none t = (refl, refl)
  budget-SameMoney r cost (some b) t = elim (Bool-cases (is_breached (record_cost cost b))) [
    | inl breached ↦
        rw breached
          (fail-SameMoney budget_exceeded (record t { budget = some (record_cost cost b) }))
    | inr within ↦ rw within (refl, refl)
  ]

  ceiling-SameMoney :
      (r : CallResult) (cost : ℕ) (t : Traced) → SameMoney (check_ceiling validate now r cost t).1 t
  ceiling-SameMoney r cost t = elim (Bool-cases (ltb t.ceiling_usd t.spent_usd)) [
    | inl over ↦ rw over (fail-SameMoney ceiling_exceeded t)
    | inr within ↦ rw within (budget-SameMoney r cost t.budget t)
  ]

  after_fallback-SameMoney :
      (r : CallResult) (cost : ℕ) (e : Emitted × Logger) (t : Traced)
      → e.1.totals ≡ t.log.totals
      → SameMoney (after_fallback validate now r cost e t).1 t
  unfolding SameMoney
  after_fallback-SameMoney r cost (contract_error, log) t h = (refl, ap (λ x. x.cost_usd) h)
  after_fallback-SameMoney r cost (landed n, log) t h =
      let (spent, counted) = ceiling-SameMoney r cost (record t { log = log }) in
      (spent, counted ∙ ap (λ x. x.cost_usd) h)

  fallback-SameMoney :
      (r : CallResult) (cost : ℕ) (o : Option String) (t : Traced)
      → SameMoney (report_fallback validate now r cost o t).1 t
  fallback-SameMoney r cost none t = ceiling-SameMoney r cost t
  fallback-SameMoney r cost (some m) t =
      after_fallback-SameMoney r cost (emit validate now (other "error") t.log) t
        (emit-totals "error" t.log)

  landed_apart : (n : ℕ) → landed n ≡ contract_error → ⊥
  landed_apart n e = cc

  after_emit-metered :
      (r : CallResult) (cost : ℕ) (e : Emitted × Logger) (t : Traced) (counted : ℕ)
      → ((e.0 ≡ contract_error) × (e.1.totals.cost_usd ≡ counted))
        ⊎ (e.1.totals.cost_usd ≡ counted + cost)
      → let (c, t') = after_emit validate now r cost e t in
        (t'.log.totals.cost_usd + t.spent_usd ≡ counted + cost + t'.spent_usd)
        ⊎ ((c ≡ contract_violated)
            × (t'.log.totals.cost_usd ≡ counted)
            × (t'.spent_usd ≡ t.spent_usd))
  unfolding SameMoney
  after_emit-metered r cost (contract_error, log) t counted (inl (bad, kept)) =
      inr (refl, kept, refl)
  after_emit-metered r cost (contract_error, log) t counted (inr grew) = inl (omega (arith, grew))
  after_emit-metered r cost (landed n, log) t counted (inl (bad, kept)) =
      absurd (landed_apart n bad)
  after_emit-metered r cost (landed n, log) t counted (inr grew) =
      let (spent, total) = fallback-SameMoney r cost r.fell_back_from (record t { log = log }) in
      inl (omega (arith, spent, total, grew))

module _ (round_micro : ℕ → ℕ) (validate : Record → Bool) (now duration : ℕ) (tier : Tier)
    (r : CallResult) (t : Traced) where
  -- A call that returns gives the result of the model, has a price, and leaves what has been spent
  -- within the ceiling of the run and within the shared budget.
  pub call-Within :
      (r' : CallResult)
      → let (c, t') = call_model validate round_micro now duration tier r t in
        c ≡ returned r'
        → (r' ≡ r)
          × (cost_usd round_micro tier r t.prices ≢ none)
          × (t'.spent_usd ≤ t'.ceiling_usd)
          × Within t'.budget
  unfolding call_model
  call-Within r' h = ground arith

  -- What a call does to the money of its caller: the run log counts what is spent, or its line was
  -- refused, and then the caller has spent the price of the call and the log has counted nothing.
  abbrev pub Metered : Option ℕ → Called → Traced → Type 0
  Metered o c t' =
      (t'.log.totals.cost_usd + t.spent_usd ≡ t.log.totals.cost_usd + t'.spent_usd)
      ⊎ ((c ≡ contract_violated)
          × (t'.log.totals.cost_usd ≡ t.log.totals.cost_usd)
          × ((cost : ℕ) × (o ≡ some cost) × (t'.spent_usd ≡ t.spent_usd + cost)))

  priced-Metered :
      (o : Option ℕ) → let (c, t') = priced_call validate now duration r o t in Metered o c t'
  priced-Metered none = inl refl
  priced-Metered (some cost) =
      elim (after_emit-metered validate now r cost
        (emit validate now (agent_call cost duration r.input_tokens r.output_tokens) t.log)
        (record t { spent_usd = t.spent_usd + cost }) t.log.totals.cost_usd
        (emit-cost validate now cost duration r.input_tokens r.output_tokens t.log)) [
          | inl grown ↦ inl (omega (arith, grown))
          | inr (refused, kept, spent) ↦ inr (refused, kept, (cost, refl, spent))
        ]

  -- However a call ends, the spend of the caller grows by what the totals of the run log grow by,
  -- unless the line of the call is refused by its contract: then the caller has spent the price of
  -- the call, and the run log has counted nothing of it.
  pub call-Metered :
      let (c, t') = call_model validate round_micro now duration tier r t in
      Metered (cost_usd round_micro tier r t.prices) c t'
  unfolding call_model
  call-Metered = priced-Metered (cost_usd round_micro tier r t.prices)
