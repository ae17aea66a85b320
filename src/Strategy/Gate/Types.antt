-- ===== src/Strategy/Gate/Types.antt =====
-- The brief as Gate 1 reads and writes it, and a request to decide it.
use rfp_engine.Prelude.{Bool, Option, String, List, ℕ}
use rfp_engine.Validation.Audit.{Json, Items, Fields}

-- A candidate of the win themes.
pub record Candidate : Type 0 where
  pub candidate_id : Option String
  pub theme : Json
  pub status : String
  pub kill_reason : Option String
  pub rationale : Option Json
  pub cites : Option Json

-- `brief["gate1"]`
pub record Stamp : Type 0 where
  pub approved_by : Option String
  pub at : Option String
  pub request_sha256 : Option String
  pub notes : Option String

-- The brief: the fields that the gate reads or writes, and the others.
pub record Brief : Type 0 where
  pub candidates : Option (List Candidate)
  pub approved : Option (List Json)
  pub status : Option String
  pub gate1 : Option Stamp
  pub created : Option String
  pub others : Fields

-- The edits: the lists that are given, and the operations that the gate does not know.
pub record Edits : Type 0 where
  pub kill : Option Items
  pub add : Option Items
  pub edit : Option Items
  pub others : Fields

-- The arguments of `approve_gate1`. None and an empty dict of edits are both `none` or blank.
pub record Request : Type 0 where
  pub decision : String
  pub actor : String
  pub at : String
  pub notes : Option String
  pub edits : Option Edits
  pub wait_ms : ℕ
  pub auto_approved : Bool

-- The same decision at another clock, after another wait.
abbrev pub resubmitted : String → ℕ → Request → Request
resubmitted at wait r = record r { at = at; wait_ms = wait }

-- The edits counted by operation.
pub record Summary : Type 0 where
  pub kill : ℕ
  pub add : ℕ
  pub edit : ℕ

pub record GateLine : Type 0 where
  pub decision : String
  pub actor : String
  pub auto_approved : Bool
  pub wait_ms : ℕ
  pub notes : Option String
  pub edits_summary : Option Summary

-- The lines that the gate emits to the run log.
pub data Line : Type 0 where
  stage_start stage_end : Line
  artifact : String → String → Line
  gate : GateLine → Line

-- GateResult
pub record GateResult : Type 0 where
  pub decision : String
  pub frozen : Bool
  pub brief_sha256 : Option String
  pub converged : Bool

-- What the gate calls of Python: `str.strip`, `datetime.fromisoformat` as a test, `json.dumps`, `int`
-- of a text, and the two-digit format.
pub record Python : Type 0 where
  pub strip : String → String
  pub is_iso : String → Bool
  pub json_dumps : Json → String
  pub int_of : String → Option ℕ
  pub two_digits : ℕ → String
