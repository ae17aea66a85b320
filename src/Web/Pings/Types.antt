-- ===== src/Web/Pings/Types.antt =====
-- The records of engine/web/pings.py and the live documents that they ask about.
use rfp_engine.Prelude.Dict
use rfp_engine.Prelude.{
  any, not, str_eq, if◌then◌else◌, true, false, [], find?, none, ◌∷◌, some, Bool, List, Option,
  String,
}

-- A line of pings.jsonl by its keys: one that pings has all up to `by`, one that answers the rest.
pub record Line : Type 0 where
  pub ping_id : String
  pub gap_id : Option String
  pub section_id : Option String
  pub question : Option String
  pub route_to : Option String
  pub pinged_at : Option String
  pub by : Option String
  pub answered_at : Option String
  pub resolution : Option String
  pub answered_by : Option String
  pub answer : Option String

pub record Gap : Type 0 where
  pub gap_id : Option String
  pub status : Option String
  pub question_to_human : Option String
  pub reason : Option String
  pub answer : Option String
  pub answered_by : Option String
  pub answered_at : Option String

pub record Section : Type 0 where
  pub section_id : String
  pub gaps : List Gap

-- A plan with its sections, or a brief with the gaps of its intake.
pub data Doc : Type 0 where
  plan : List Section → Doc
  brief : List Gap → Doc

-- The section, the gap, and whether it stands on a plan.
pub record Found : Type 0 where
  pub section_id : String
  pub gap : Gap
  pub on_plan : Bool

-- The gap line of the run log.
pub record GapLine : Type 0 where
  pub gap_id : Option String
  pub reason : String
  pub question : Option String
  pub pinged_at : Option String
  pub answered_at : Option String
  pub resolution : String
  pub target : Option String

-- A value, a PingError, or a ContractError of the journal.
pub data Answer (A : Type 0) : Type 0 where
  answers : A → Answer A
  ping_error contract_error : Answer A

abbrev pub later : Option String → Option String → Option String
later old none = old
later old (some x) = some x

-- `{**old, **line}`
unfoldable pub merge : Line → Line → Line
merge old line = record {
  ping_id = line.ping_id;
  gap_id = later old.gap_id line.gap_id;
  section_id = later old.section_id line.section_id;
  question = later old.question line.question;
  route_to = later old.route_to line.route_to;
  pinged_at = later old.pinged_at line.pinged_at;
  by = later old.by line.by;
  answered_at = later old.answered_at line.answered_at;
  resolution = later old.resolution line.resolution;
  answered_by = later old.answered_by line.answered_by;
  answer = later old.answer line.answer;
}

abbrev pub merged : Option Line → Line → Line
merged none line = line
merged (some old) line = merge old line

-- `_folded`
unfoldable pub fold_line : Line → Dict.Dict Line → Dict.Dict Line
fold_line line m = Dict.put line.ping_id (merged (Dict.get line.ping_id m) line) m

unfoldable pub fold_lines : List Line → Dict.Dict Line → Dict.Dict Line
unfolding fold_line
fold_lines [] m = m
fold_lines (line ∷ lines) m = fold_lines lines (fold_line line m)

abbrev pub is : String → Option String → Bool
is t none = false
is t (some s) = str_eq s t

abbrev pub is_set : Option String → Bool
is_set none = false
is_set (some s) = not (str_eq s "")

-- `_live_gap`
unfoldable pub live_gap : String → List Section → Option Found
live_gap i [] = none
live_gap i (s ∷ ss) =
    let rest = live_gap i ss in
    elim (find? (λ g. is i g.gap_id) s.gaps) [
      | some g ↦ some (record { section_id = s.section_id; gap = g; on_plan = true })
      | none ↦ rest
    ]

abbrev intake_gap : Option Gap → Option Found
intake_gap none = none
intake_gap (some g) = some (record { section_id = "intake"; gap = g; on_plan = false })

-- `_find_gap`; `none` is its PingError.
unfoldable pub find_gap : String → Doc → Option Found
unfolding live_gap
find_gap i (plan ss) = live_gap i ss
find_gap i (brief gs) = intake_gap (find? (λ g. is i g.gap_id) gs)

-- The gap that `_find_gap` gives, changed in place.
unfoldable pub change_gap : String → (Gap → Gap) → List Gap → List Gap
change_gap i f [] = []
change_gap i f (g ∷ gs) =
    let rest = change_gap i f gs in if is i g.gap_id then f g ∷ gs else g ∷ rest

unfoldable pub change_sections : String → (Gap → Gap) → List Section → List Section
unfolding change_gap
change_sections i f [] = []
change_sections i f (s ∷ ss) =
    let rest = change_sections i f ss in
    if any (λ g. is i g.gap_id) s.gaps
    then record s { gaps = change_gap i f s.gaps } ∷ ss
    else s ∷ rest

unfoldable pub change_doc : String → (Gap → Gap) → Doc → Doc
unfolding change_sections
change_doc i f (plan ss) = plan (change_sections i f ss)
change_doc i f (brief gs) = brief (change_gap i f gs)
