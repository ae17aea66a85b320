-- ===== src/Web/Events/Types.antt =====
-- The data of engine/web/events.py, and what its code takes from Python and from the schemas.
use rfp_engine.Prelude.{none, str_eq, some, false, List, Bool, ℕ, String, Option}
use rfp_engine.Validation.Audit.{Fields}

-- A line of events.jsonl: its id, the id of the pending entry that it finalizes, and its other
-- fields.
pub record Event : Type 0 where
  pub event_id : Option String
  pub pursuit_id : String
  pub kind : String
  pub at : String
  pub actor : String
  pub actor_role : String
  pub revision : ℕ
  pub cid : Option String
  pub fields : Fields

-- `isdigit` and `int`, the format `04d`, the schema of an event, and the roles that it lists.
pub record Python : Type 0 where
  pub digits : String → Option ℕ
  pub four_digits : ℕ → String
  pub validate : Event → Bool
  pub actor_roles : List String

-- A value, an EventsError, or a ContractError.
pub data Answer (A : Type 0) : Type 0 where
  answers : A → Answer A
  events_error contract_error : Answer A

abbrev pub is_id : String → Option String → Bool
is_id i none = false
is_id i (some j) = str_eq j i

-- The event has that id.
abbrev pub has_id : String → Event → Bool
has_id i e = is_id i e.event_id
