-- ===== src/Planning/Gate/Plan.antt =====
-- The plan as `approve_gate2` of engine/planning/gate.py reads and writes it, and its request.
use rfp_engine.Planning.Gate.Edit.{Kill, GapLine}
use rfp_engine.Planning.Gate.Types.{Section, Obligation, Disposition, Waive}
use rfp_engine.Prelude.{
  none, ◌+◌, some, suc, [], ◌-◌, ◌||◌, false, any, ◌++◌, map, leb, str_eq, ◌∷◌, Bool, if◌then◌else◌,
  count_if, List, String, Option, ℕ,
}
use rfp_engine.Validation.Audit.{Fields, Json}
use rfp_engine.Workspace.Pursuit.Types.{Dir}

-- Python's `int`, which the difference of two counts is.
pub data ℤ : Type 0 where
  pos negsuc : ℕ → ℤ

abbrev pub minus : ℕ → ℕ → ℤ
minus m n = if leb n m then pos (m - n) else negsuc (n - m - 1)

-- `plan["coverage_summary"]`; a missing total is 0.
pub record Coverage : Type 0 where
  pub total_requirements : ℕ
  pub covered : ℤ
  pub open_gaps : ℕ
  pub omit_approved : ℕ
  pub draft_flagged : ℕ
  pub others : Fields

-- `plan["gate2"]`
pub record Stamp : Type 0 where
  pub approved_by : Option String
  pub at : Option String
  pub request_sha256 : Option String
  pub notes : Option String
  pub gates_collapsed : Bool

pub record Plan : Type 0 where
  pub path : Option String
  pub status : Option String
  pub sections : List Section
  pub obligations : List Obligation
  pub coverage_summary : Coverage
  pub gate2 : Option Stamp
  pub created : Option String
  pub others : Fields

-- The edits: the dict as it was sent, and its operations read from it.
pub record Edits : Type 0 where
  pub sent : Json
  pub sections : List Json
  pub dispose : List Disposition
  pub waive_obligations : List Waive
  pub unknown : List String

-- The arguments of `approve_gate2`.
pub record Request : Type 0 where
  pub decision : String
  pub actor : String
  pub at : String
  pub notes : Option String
  pub edits : Option Edits
  pub wait_ms : ℕ
  pub auto_approved : Bool
  pub gates_collapsed : Bool

-- What the section edits give: the sections, the kill records and the gap lines.
pub record Batch : Type 0 where
  pub sections : List Section
  pub kills : List Kill
  pub gap_lines : List GapLine

-- `_summary`: the edits counted by operation.
pub record Summary : Type 0 where
  pub dispose : ℕ
  pub add : ℕ
  pub kill : ℕ
  pub edit : ℕ
  pub waive : ℕ

pub record GateLine : Type 0 where
  pub decision : String
  pub actor : String
  pub auto_approved : Bool
  pub wait_ms : ℕ
  pub edits_summary : Option Summary
  pub notes : Option String

-- The lines that the gate emits to the run log.
pub data Line : Type 0 where
  stage_start stage_end : Line
  gap : GapLine → Line
  artifact : String → String → Line
  gate : GateLine → Line

pub record State : Type 0 where
  pub dir : Dir
  pub log : List Line

-- Gate2Result
pub record Gate2Result : Type 0 where
  pub decision : String
  pub frozen : Bool
  pub plan_sha256 : Option String
  pub converged : Bool

abbrev gap_statuses : List Section → List String
gap_statuses [] = []
gap_statuses (s ∷ ss) = map (λ g. g.status) s.gaps ++ gap_statuses ss

abbrev references : List Section → List String
references [] = []
references (s ∷ ss) = s.requirement_refs ++ references ss

-- len({…})
unfoldable count_distinct : List String → ℕ
count_distinct [] = 0
count_distinct (r ∷ rs) =
    let rest = count_distinct rs in if any (λ t. str_eq t r) rs then rest else suc rest

abbrev pub is_text : String → Option String → Bool
is_text t none = false
is_text t (some s) = str_eq s t

-- `_recount_coverage`
unfoldable pub recount_coverage : Plan → Plan
unfolding count_distinct
recount_coverage p =
    let statuses = gap_statuses p.sections in
    let open_gaps = count_if (λ s. str_eq s "open" || str_eq s "pinged") statuses in
    let omit = count_if (λ s. str_eq s "omit_approved") statuses in
    let flagged = count_if (λ s. str_eq s "draft_flagged") statuses in
    record p {
      coverage_summary = record p.coverage_summary {
        open_gaps = open_gaps;
        omit_approved = omit;
        draft_flagged = flagged;
        covered =
            if is_text "A_designated" p.path
            then minus p.coverage_summary.total_requirements (open_gaps + omit + flagged)
            else pos (count_distinct (references p.sections));
      };
    }
