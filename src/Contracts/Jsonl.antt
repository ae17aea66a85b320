-- ===== src/Contracts/Jsonl.antt =====
-- engine/contracts/jsonl.py and `append_fsync` of engine/contracts/atomic.py: files of one record per
-- line, whose last line may have been cut by a crash. `json.loads` and `str.strip` are parameters. A
-- text is its lines that end in a line feed and what follows the last of them; no line has one of
-- the other line boundaries of `str.splitlines`, which `json.dumps` escapes.
use rfp_engine.Prelude.{
  Bool, true, false, none, some, Option, String, List, [], ◌∷◌, ◌++◌, if◌then◌else◌, str_eq,
}
use rfp_engine.Workspace.Pursuit.Types.{Result, ok, raise, contract_error}

pub record File : Type 0 where
  pub whole : List String
  pub tail : String

-- What a repair of the tail did.
pub data Repair : Type 0 where
  tail_newline_repaired torn_tail_truncated : Repair

-- The records, and whether the last line is torn.
pub record Lines (Rec : Type 0) : Type 0 where
  pub records : List Rec
  pub torn : Bool

module _ {Rec : Type 0} (json_loads : String → Option Rec) (strip : String → String) where
  abbrev is_blank_line : String → Bool
  is_blank_line line = str_eq (strip line) ""

  abbrev joined : Option Rec → Result (List Rec) → Result (List Rec)
  joined none rest = raise contract_error
  joined (some r) (ok rs) = ok (r ∷ rs)
  joined (some r) (raise e) = raise e

  -- The lines before the last: one that does not parse is corruption.
  unfoldable pub read_whole : List String → Result (List Rec)
  read_whole [] = ok []
  read_whole (line ∷ lines) =
      let rest = read_whole lines in
      if is_blank_line line then rest else joined (json_loads line) rest

  abbrev last_line : Option Rec → List Rec → Lines Rec
  last_line none rs = record { records = rs; torn = true }
  last_line (some r) rs = record { records = rs ++ r ∷ []; torn = false }

  -- The text after the last line feed: it is torn if it does not parse.
  abbrev pub read_tail : String → List Rec → Lines Rec
  read_tail tail rs =
      if is_blank_line tail
      then record { records = rs; torn = false }
      else last_line (json_loads tail) rs

  abbrev with_tail : String → Result (List Rec) → Result (Lines Rec)
  with_tail tail (raise e) = raise e
  with_tail tail (ok rs) = ok (read_tail tail rs)

  -- `read_jsonl`; a missing file has no lines.
  unfoldable pub read_jsonl : File → Result (Lines Rec)
  unfolding read_whole
  read_jsonl f = with_tail f.tail (read_whole f.whole)

  abbrev pub repaired : Option Rec → Bool → File → Result (File × Option Repair)
  repaired (some r) repair_torn f =
      ok (record { whole = f.whole ++ f.tail ∷ []; tail = "" }, some tail_newline_repaired)
  repaired none true f = ok (record f { tail = "" }, some torn_tail_truncated)
  repaired none false f = raise contract_error

  -- The tail rule, before the line is written.
  unfoldable pub repair_tail : Bool → File → Result (File × Option Repair)
  repair_tail repair_torn f =
      if str_eq f.tail "" then ok (f, none) else repaired (json_loads f.tail) repair_torn f

  abbrev pub ended : String → Result (File × Option Repair) → Result (File × Option Repair)
  ended line (raise e) = raise e
  ended line (ok (f, did)) = ok (record f { whole = f.whole ++ line ∷ [] }, did)

  -- `append_fsync` of one line.
  unfoldable pub append_fsync : Bool → String → File → Result (File × Option Repair)
  unfolding repair_tail
  append_fsync repair_torn line f = ended line (repair_tail repair_torn f)

  abbrev pub cut_at : String → File → Result (File × Option Repair) → File
  cut_at fragment old (raise e) = old
  cut_at fragment old (ok (f, did)) = record f { tail = fragment }

  -- A call that a crash cut while it wrote its line: the repair is done, the line is a fragment.
  unfoldable pub append_cut : Bool → String → File → File
  unfolding repair_tail
  append_cut repair_torn fragment f = cut_at fragment f (repair_tail repair_torn f)
