-- ===== src/Web/Share/Types.antt =====
-- The records of engine/web/share.py, and what its code takes from Python.
use rfp_engine.Prelude.Dict
use rfp_engine.Prelude.{[], none, ◌∷◌, some, ◌*◌, Bool, List, ◌||◌, Option, ℕ, String}

-- A line of links.jsonl by the keys that the lane writes: one that creates a link has all up to
-- `expires_at`, one that revokes it has `revoked` and what follows. `revoked` is absent or true.
pub record Link : Type 0 where
  pub link_id : String
  pub token : Option String
  pub pursuit_id : Option String
  pub created_by : Option String
  pub label : Option String
  pub created_at : Option String
  pub expires_at : Option String
  pub revoked : Bool
  pub revoked_by : Option String
  pub revoked_at : Option String

-- A line of access.jsonl.
pub record Access : Type 0 where
  pub at : String
  pub link_id : Option String
  pub action : String
  pub granted : Bool
  pub detail : String

-- What a call gives: a value, a ShareDenied with its status, or another exception.
pub data Fault : Type 0 where
  contract_error value_error key_error type_error : Fault

pub data Answer (A : Type 0) : Type 0 where
  answers : A → Answer A
  denied : ℕ → Answer A
  raises : Fault → Answer A

-- `isdigit` and `int` of a text, `str.strip`, the format `02d`, the time that a text in ISO 8601
-- means, in microseconds, and whether a text is ASCII, which `secrets.compare_digest` requires.
pub record Python : Type 0 where
  pub digits : String → Option ℕ
  pub strip : String → String
  pub two_digits : ℕ → String
  pub parse : String → Option ℕ
  pub is_ascii : String → Bool

-- timedelta(days=MAX_LINK_DAYS)
abbrev pub max_link_time : ℕ
max_link_time = 30 * 86400000000

abbrev pub later : {A : Type 0} → Option A → Option A → Option A
later old none = old
later old (some x) = some x

-- `{**old, **line}`
unfoldable pub merge : Link → Link → Link
merge old line = record {
  link_id = line.link_id;
  token = later old.token line.token;
  pursuit_id = later old.pursuit_id line.pursuit_id;
  created_by = later old.created_by line.created_by;
  label = later old.label line.label;
  created_at = later old.created_at line.created_at;
  expires_at = later old.expires_at line.expires_at;
  revoked = old.revoked || line.revoked;
  revoked_by = later old.revoked_by line.revoked_by;
  revoked_at = later old.revoked_at line.revoked_at;
}

abbrev pub merged : Option Link → Link → Link
merged none line = line
merged (some old) line = merge old line

-- The fold of the lines by link.
unfoldable pub fold_line : Link → Dict.Dict Link → Dict.Dict Link
fold_line line m = Dict.put line.link_id (merged (Dict.get line.link_id m) line) m

unfoldable pub fold_lines : List Link → Dict.Dict Link → Dict.Dict Link
unfolding fold_line
fold_lines [] m = m
fold_lines (line ∷ lines) m = fold_lines lines (fold_line line m)
