-- ===== src/Drafting/Route/Types.antt =====
-- The data of engine/drafting/route.py: slots, gaps, lanes, and the state of `section_plan`.
use rfp_engine.Prelude.Dict
use rfp_engine.Prelude.{String, Bool, Option, List, false, true}

-- What is read of a slot: whether it is a header, its fill type, its response shape, the slots it gates.
pub record Slot : Type 0 where
  pub slot_id : String
  pub is_header : Bool
  pub fill_type : Option String
  pub response_shape : Option String
  pub gates : List String

-- The status of a gap; `other` is any other text, or no status.
pub data GapStatus : Type 0 where
  omit_approved open_gap pinged answered reframed draft_flagged other : GapStatus

-- A text that is absent in the source is empty here, where the code reads both alike.
pub record Gap : Type 0 where
  pub gap_id : String
  pub slot_id : Option String
  pub status : GapStatus
  pub note : String
  pub answer : String
  pub reframe_note : String

pub data Kind : Type 0 where
  model omitted gated_skipped shape_skipped awaiting : Kind

pub data Reason : Type 0 where
  no_lane gated : Reason
  omission : String → Reason
  undisposed unknown_status : String → Reason
  unmatched : String → GapStatus → Reason
  all_omitted none_draftable : Reason

pub record Lane : Type 0 where
  pub slot_id : String
  pub kind : Kind
  pub reason : Option Reason
  pub gap : Option Gap
  pub flagged : Bool

pub data Steering : Type 0 where
  answered_steering reframed_steering : (label text : String) → Steering

pub data Warning : Type 0 where
  foreign_slot : (label slot : String) → Warning
  not_model : (label slot : String) → Warning
  strange_status : String → Warning
  no_slot : String → Warning

-- The local variables of `section_plan`.
pub record Plan : Type 0 where
  pub lanes : Dict.Dict Lane
  pub matched : List String
  pub pend : Option Reason
  pub steering : List Steering
  pub flag_section : Bool
  pub warnings : List Warning

pub record SectionPlan : Type 0 where
  pub status : Kind
  pub reason : Option Reason
  pub lanes : List Lane
  pub steering : List Steering
  pub flag_section : Bool
  pub warnings : List Warning

abbrev pub is_model : Kind → Bool
is_model model = true
is_model _ = false

abbrev pub is_shape : Kind → Bool
is_shape shape_skipped = true
is_shape _ = false

abbrev pub is_omitted : Kind → Bool
is_omitted omitted = true
is_omitted _ = false
