-- ===== src/Planning/Gate/Edit.antt =====
-- `_apply_section_edits` of engine/planning/gate.py: sections retitled, killed and added at Gate 2. The
-- regular expression of a slug and the formats of a number are parameters; a title of an added
-- section that is no text raises.
use Prim.Native.String.{◌++◌ as text_append}
use rfp_engine.Prelude.{
  ◌&&◌, ◌+◌, count_if, Bool, true, false, none, some, Option, String, List, ℕ, [], ◌∷◌, ◌++◌,
  if◌then◌else◌, str_eq, not, map,
}
use rfp_engine.Validation.Audit.{Json, Fields, text, object}
use rfp_engine.Planning.Sections.Aggregate.{unique_slugs}
use rfp_engine.Contracts.GateKey.{field_of}
use rfp_engine.Strategy.Gate.Edits.{is_true, is_among, true_value, strip_prefix}
use rfp_engine.Workspace.Pursuit.Types.{Result, ok, raise, contract_error}

-- A section as the edits see it: its id, its title and the ids of its gaps.
pub record Titled : Type 0 where
  pub section_id : String
  pub title : Json
  pub gap_ids : List String

-- A kill record of the gate's checkpoint.
pub record Kill : Type 0 where
  pub section_id : String
  pub title : Json
  pub reason : Json
  pub by : String

-- A gap line of the run log, for an added section.
pub record GapLine : Type 0 where
  pub section_id : String
  pub gap_id : String
  pub question : String

pub record Edited : Type 0 where
  pub sections : List Titled
  pub kills : List Kill
  pub gap_lines : List GapLine
  pub gate_gaps : ℕ

-- `slugs[-1]` of a list that is not empty.
unfoldable pub last_of : List String → String
last_of [] = ""
last_of (t ∷ []) = t
last_of (t ∷ u ∷ ts) = last_of (u ∷ ts)

-- A text stands somewhere in another.
unfoldable pub is_within : String → String → Bool
unfolding strip_prefix
is_within p String.[] = str_eq p ""
is_within p (String.◌∷◌ c s) =
    let rest = is_within p s in
    elim (strip_prefix p (String.◌∷◌ c s)) [ some left ↦ true | none ↦ rest ]

unfoldable pub count_gate_gaps : List Titled → ℕ
unfolding is_within
count_gate_gaps [] = 0
count_gate_gaps (s ∷ ss) = count_if (λ g. is_within "_gate2_" g) s.gap_ids + count_gate_gaps ss

-- `_gate2_gap_ping`
abbrev pub gap_ping : String → String → String
gap_ping title actor = text_append "[" (
    text_append title (
      text_append " / gate2-added] Section added by " (
        text_append actor
          " at Gate 2.\nThe knowledge base was not searched for it — provide content direction, approve omission, or choose flagged drafting (the engine will not draft around it).")))

abbrev pub as_text : Option Json → Option String
as_text (some (text t)) = some t
as_text _ = none

-- The section that an entry names.
abbrev pub names : Fields → String → Bool
names fs id = elim (field_of "section_id" fs) [ some (text t) ↦ str_eq id t | _ ↦ false ]

unfoldable pub find_section : Fields → List Titled → Option Titled
find_section fs [] = none
find_section fs (s ∷ ss) =
    let rest = find_section fs ss in if names fs s.section_id then some s else rest

unfoldable pub retitle : Fields → Json → List Titled → List Titled
retitle fs t [] = []
retitle fs t (s ∷ ss) =
    let rest = retitle fs t ss in
    if names fs s.section_id then record s { title = t } ∷ ss else s ∷ rest

-- `sections.remove(section)`
unfoldable pub without : Fields → List Titled → List Titled
without fs [] = []
without fs (s ∷ ss) = let rest = without fs ss in if names fs s.section_id then ss else s ∷ rest

abbrev pub edit_title : Fields → Edited → Result Edited
edit_title fs e =
    if not (is_among ("op" ∷ "section_id" ∷ "title" ∷ []) fs)
    then raise contract_error
    else elim (true_value "title" fs) [
      | none ↦ raise contract_error
      | some t ↦ elim (find_section fs e.sections) [
        | none ↦ raise contract_error
        | some s ↦ ok (record e { sections = retitle fs t e.sections })
      ]
    ]

abbrev pub kill_section : String → Fields → Edited → Result Edited
kill_section actor fs e =
    if not (is_among ("op" ∷ "section_id" ∷ "reason" ∷ []) fs)
    then raise contract_error
    else elim (true_value "reason" fs) [
      | none ↦ raise contract_error
      | some why ↦ elim (find_section fs e.sections) [
        | none ↦ raise contract_error
        | some s ↦ ok (record e {
          sections = without fs e.sections;
          kills =
              e.kills
              ++ record { section_id = s.section_id; title = s.title; reason = why; by = actor }
                ∷ [];
        })
      ]
    ]

module _ (clean : String → String) (str two_digits : ℕ → String) (pursuit_id actor : String) where
  -- The id, the gap and the gap line of an added section.
  abbrev pub new_slug : String → Edited → String
  new_slug t e = last_of (unique_slugs clean str (map (λ s. s.section_id) e.sections ++ t ∷ []))

  abbrev pub new_gap_id : Edited → String
  new_gap_id e =
      text_append "gap_"
        (text_append pursuit_id (text_append "_gate2_" (two_digits (e.gate_gaps + 1))))

  abbrev pub new_section : String → Edited → Titled
  new_section t e = record {
    section_id = new_slug t e;
    title = text t;
    gap_ids = new_gap_id e ∷ [];
  }

  abbrev pub new_line : String → Edited → GapLine
  new_line t e = record {
    section_id = new_slug t e;
    gap_id = new_gap_id e;
    question = gap_ping t actor;
  }

  abbrev pub added_to : String → Edited → Edited
  added_to t e = record {
    sections = e.sections ++ new_section t e ∷ [];
    kills = e.kills;
    gap_lines = e.gap_lines ++ new_line t e ∷ [];
    gate_gaps = e.gate_gaps + 1;
  }

  abbrev pub add_section : Fields → Edited → Result Edited
  add_section fs e =
      if not (is_among ("op" ∷ "title" ∷ []) fs)
      then raise contract_error
      else elim (as_text (true_value "title" fs)) [
        | none ↦ raise contract_error
        | some t ↦ ok (added_to t e)
      ]

  abbrev pub by_op : Bool → String → Fields → Edited → Result Edited
  by_op path_a op fs e =
      if str_eq op "edit"
      then edit_title fs e
      else if not (str_eq op "kill") && not (str_eq op "add")
      then raise contract_error
      else if path_a
      then raise contract_error
      else if str_eq op "kill"
      then kill_section actor fs e
      else add_section fs e

  unfoldable pub edit_one : Bool → Json → Edited → Result Edited
  unfolding is_true is_among find_section retitle without field_of unique_slugs last_of
  edit_one path_a (object fs) e = elim (as_text (field_of "op" fs)) [
    | none ↦ raise contract_error
    | some op ↦ by_op path_a op fs e
  ]
  edit_one path_a _ e = raise contract_error

  unfoldable pub edit_all : Bool → List Json → Edited → Result Edited
  unfolding edit_one
  edit_all path_a [] e = ok e
  edit_all path_a (entry ∷ entries) e = elim (edit_one path_a entry e) [
    | raise x ↦ raise x
    | ok next ↦ edit_all path_a entries next
  ]

  -- `_apply_section_edits`
  unfoldable pub apply_section_edits : Bool → List Json → List Titled → Result Edited
  unfolding edit_all count_gate_gaps
  apply_section_edits path_a entries ss =
      edit_all path_a entries
        (record { sections = ss; kills = []; gap_lines = []; gate_gaps = count_gate_gaps ss })
