-- ===== src/RunLog/Writer.antt =====
-- `RunLogger` of engine/runlog/writer.py over the records of its file. Costs are whole micro-dollars
-- (the code rounds every cost to six places), times whole milliseconds. The contract checks of a
-- line are a parameter; what they refuse never lands.
use rfp_engine.Prelude.{
  ◌&&◌, suc, ◌==◌, false, ◌++◌, [], ◌-◌, get_last?, true, if◌then◌else◌, ◌∷◌, bit, none, String,
  Bool, some, ◌+◌, Option, List, ℕ,
}

-- The records that the totals read, and the rest by its type.
pub data Body : Type 0 where
  agent_call : (cost duration input output : ℕ) → Body
  gate : (wait_ms : ℕ) → Body
  gap : Body
  validation : (is_block : Bool) → Body
  run_end : Body
  other : String → Body

pub record Record : Type 0 where
  pub seq : ℕ
  pub ts : ℕ
  pub body : Body

pub record Totals : Type 0 where
  pub cost_usd : ℕ
  pub input_tokens : ℕ
  pub output_tokens : ℕ
  pub agent_calls : ℕ
  pub gaps_opened : ℕ
  pub tier1_blocks : ℕ
  pub compute_ms : ℕ
  pub human_wait_ms : ℕ

abbrev pub no_totals : Totals
no_totals = record {
  cost_usd = 0;
  input_tokens = 0;
  output_tokens = 0;
  agent_calls = 0;
  gaps_opened = 0;
  tier1_blocks = 0;
  compute_ms = 0;
  human_wait_ms = 0;
}

pub record Logger : Type 0 where
  pub file : List Record  -- run.jsonl
  pub next_seq : ℕ  -- `_seq`
  pub totals : Totals
  pub first_ts : Option ℕ
  pub last_ts : Option ℕ
  pub has_footer : Bool

abbrev pub first_of_ts : Option ℕ → ℕ → Option ℕ
first_of_ts none t = some t
first_of_ts (some f) t = some f

abbrev pub add_body : Body → Totals → Totals
add_body (agent_call cost duration input output) t = record t {
  agent_calls = t.agent_calls + 1;
  cost_usd = t.cost_usd + cost;
  compute_ms = t.compute_ms + duration;
  input_tokens = t.input_tokens + input;
  output_tokens = t.output_tokens + output;
}
add_body (gate wait_ms) t = record t { human_wait_ms = t.human_wait_ms + wait_ms }
add_body gap t = record t { gaps_opened = t.gaps_opened + 1 }
add_body (validation is_block) t = record t { tier1_blocks = t.tier1_blocks + bit is_block }
add_body _ t = t

-- `_accumulate`
unfoldable pub accumulate : Record → Logger → Logger
accumulate r l = record l {
  totals = add_body r.body l.totals;
  first_ts = first_of_ts l.first_ts r.ts;
  last_ts = some r.ts;
}

-- `_replay_totals`
unfoldable pub replay_totals : List Record → Logger → Logger
unfolding accumulate
replay_totals [] l = l
replay_totals (r ∷ rs) l = replay_totals rs (accumulate r l)

pub data Emitted : Type 0 where
  landed : ℕ → Emitted
  contract_error : Emitted

module _ (validate : Record → Bool) where
  -- `emit`: the line is checked, appended, counted.
  unfoldable pub emit : ℕ → Body → Logger → Emitted × Logger
  unfolding accumulate
  emit now body l =
      let r : Record = record { seq = l.next_seq; ts = now; body = body } in
      if validate r
      then (
        landed l.next_seq,
        accumulate r (record l { file = l.file ++ r ∷ []; next_seq = suc l.next_seq }),
      )
      else (contract_error, l)

  abbrev close_footer : Emitted × Logger → Emitted × Logger
  close_footer (landed n, l) = (landed n, record l { has_footer = true })
  close_footer (contract_error, l) = (contract_error, l)

  -- `run_end`
  unfoldable pub end_run : ℕ → Logger → Emitted × Logger
  unfolding emit
  end_run now l = close_footer (emit now run_end l)

abbrev pub new_logger : List Record → Logger
new_logger file = record {
  file = file;
  next_seq = 0;
  totals = no_totals;
  first_ts = none;
  last_ts = none;
  has_footer = false;
}

abbrev pub is_footer : Body → Bool
is_footer run_end = true
is_footer _ = false

abbrev pub resume_from : Option Record → List Record → Logger
resume_from none file = new_logger file
resume_from (some r) file = record (replay_totals file (new_logger file)) {
  next_seq = r.seq + 1;
  has_footer = is_footer r.body;
}

-- `RunLogger(..., resume=True)` over the records of a file that ends cleanly.
unfoldable pub resume : List Record → Logger
unfolding replay_totals
resume file = resume_from (get_last? file) file

-- `_wall_ms`
abbrev span : Option ℕ → Option ℕ → ℕ
span (some a) (some b) = b - a
span _ _ = 0

unfoldable pub wall_ms : Logger → ℕ
wall_ms l = span l.first_ts l.last_ts

-- `seqs == list(range(len(seqs)))`, counted from a first number.
unfoldable pub gapless_from : ℕ → List Record → Bool
gapless_from n [] = true
gapless_from n (r ∷ rs) = (r.seq == n) && gapless_from (suc n) rs

-- `assert_seq_gapless` passes.
unfoldable pub is_gapless : List Record → Bool
unfolding gapless_from
is_gapless rs = gapless_from 0 rs
