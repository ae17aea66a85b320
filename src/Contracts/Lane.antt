-- ===== src/Contracts/Lane.antt =====
-- What a lane of the workspace needs of its journal: the records that a reader sees, and an append
-- that adds one. engine/contracts/jsonl.py with `append_fsync` of engine/contracts/atomic.py is one.
use rfp_engine.Contracts.Jsonl
use rfp_engine.Workspace.Pursuit.Types.{ok-injective, Result-cases, raise, ok, Result}
use rfp_engine.Prelude.{
  refl, ◌∙◌, ap, inr, arith, inl, [], ◌∷◌, some, ◌++◌, none, Option, ◌≡◌, String, List,
}
use rfp_engine.Contracts.Jsonl.{read_jsonl, Lines}
use rfp_engine.Contracts.Journal.{attempt-read, lands, attempt}

pub record Lane (Rec : Type 0) : Type 1 where
  pub File : Type 0
  pub read : File → Result (List Rec)
  pub append : Rec → File → File
  pub read-append :
      (r : Rec) (f : File) (rs : List Rec) → read f ≡ ok rs → read (append r f) ≡ ok (rs ++ r ∷ [])

module _ {Rec : Type 0} (L : Lane Rec) where
  -- The records of a file that reads are these.
  abbrev pub Holds : L.File → List Rec → Type 0
  Holds f rs = L.read f ≡ ok rs

module _ {Rec : Type 0} (json_loads : String → Option Rec) (strip : String → String)
    (json_dumps : Rec → String) where
  abbrev records : Result (Lines Rec) → Result (List Rec)
  records (ok l) = ok l.records
  records (raise e) = raise e

  read_records : Jsonl.File → Result (List Rec)
  read_records f = records (read_jsonl json_loads strip f)

  -- `_append` under the lane's lock, which repairs a torn tail.
  append_line : Rec → Jsonl.File → Jsonl.File
  append_line r f = attempt json_loads strip (lands (json_dumps r)) f

  module _ (strip-nil : strip "" ≡ "")
      (blank-loads : (t : String) → strip t ≡ "" → json_loads t ≡ none)
      (loads-dumps : (r : Rec) → json_loads (json_dumps r) ≡ some r) where
    read_records-append_line :
        (r : Rec) (f : Jsonl.File) (rs : List Rec)
        → read_records f ≡ ok rs
        → read_records (append_line r f) ≡ ok (rs ++ r ∷ [])
    unfolding read_records append_line
    read_records-append_line r f rs h = elim (Result-cases (read_jsonl json_loads strip f)) [
      | inl (e, bad) ↦ absurd (ground arith)
      | inr (l, good) ↦
          let same : l.records ≡ rs = ok-injective l.records rs (ground arith) in
          let (u, read) =
            attempt-read json_loads strip strip-nil blank-loads (lands (json_dumps r)) f l.records
              l.torn (r, loads-dumps r) good in
          ap records read ∙ rw (loads-dumps r, same) refl
    ]

    -- A file of one record per line is such a journal, if what is dumped parses to what it was and
    -- blank text does not parse.
    pub jsonl_lane : Lane Rec
    jsonl_lane = record {
      File = Jsonl.File;
      read = read_records;
      append = append_line;
      read-append = read_records-append_line;
    }
