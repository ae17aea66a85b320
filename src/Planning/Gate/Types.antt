-- ===== src/Planning/Gate/Types.antt =====
-- The plan as the edits of Gate 2 read and write it (engine/planning/gate.py).
use rfp_engine.Prelude.{Bool, Option, String, List}
use rfp_engine.Validation.Audit.{Json}

-- `gap["reframe"]`
pub record Reframe : Type 0 where
  pub note : Json
  pub mandatory_review : Bool

pub record Gap : Type 0 where
  pub gap_id : Option String
  pub status : String
  pub answer : Option Json
  pub note : Option Json
  pub reframe : Option Reframe

pub record Section : Type 0 where
  pub section_id : String
  pub gaps : List Gap
  pub requirement_refs : List String

pub record Obligation : Type 0 where
  pub id : String
  pub status : String
  pub note : Option Json

-- An item of `edits["dispose"]`: what `item.get` finds.
pub record Disposition : Type 0 where
  pub section_id : Option String
  pub gap_id : Option String
  pub action : Option String
  pub answer : Option Json
  pub note : Option Json

-- An entry of `edits["waive_obligations"]`, with the keys that it has besides id and note.
pub record Waive : Type 0 where
  pub id : Option String
  pub note : Option Json
  pub extra : List String
