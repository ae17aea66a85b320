-- ===== src/Planning/Gate/Trial.antt =====
-- A plan that is approved, or sent back, at Gate 2.
use rfp_engine.Prelude.Dict
use rfp_engine.Workspace.Pursuit.Types.{Codec, Payload, Result, ok, pursuit_plan}
use rfp_engine.Workspace.Pursuit.Files.{
  read_artifact, write_artifact, freeze_artifact, checkpoint, clear_checkpoint, read_frozen,
  is_frozen_name,
}
use rfp_engine.Strategy.Gate.Types.{Python}
use rfp_engine.Planning.Gate.Plan.{
  Plan, Batch, Request, Edits, State, Gate2Result, pos, recount_coverage,
}
use rfp_engine.Planning.Gate.Decide.{stamp, decide, decide_open, refusal}
use rfp_engine.Planning.Gate.Approve.{approve_gate2}
use rfp_engine.Prelude.{
  refl, str_eq, if◌then◌else◌, false, [], ◌≡◌, ◌∷◌, Option, true, none, String, some,
}
use rfp_engine.Validation.Audit.{end}
use rfp_engine.Planning.Gate.Again.{
  approve_gate2_converges, approve_gate2_reopens, approve_gate2_freezes, resubmitted,
}
use rfp_engine.Contracts.GateKey.{key_digest}

abbrev start : Plan
start = record {
  path = some "A_designated";
  status = some "gate2_pending";
  sections =
      record {
        section_id = "s1";
        gaps =
            record {
              gap_id = some "g1";
              status = "open";
              answer = none;
              note = none;
              reframe = none;
            }
            ∷ [];
        requirement_refs = [];
      }
      ∷ [];
  obligations = [];
  coverage_summary = record {
    total_requirements = 3;
    covered = pos 3;
    open_gaps = 0;
    omit_approved = 0;
    draft_flagged = 0;
    others = end;
  };
  gate2 = none;
  created = none;
  others = end;
}

abbrev request : String → Option String → Request
request decision notes = record {
  decision = decision;
  actor = "lead";
  at = "t1";
  notes = notes;
  edits = none;
  wait_ms = 5;
  auto_approved = false;
  gates_collapsed = false;
}

abbrev approval : Request
approval = request "approved" none

abbrev rejection : Request
rejection = request "rejected" (some "split it")

abbrev py : Python
py = record {
  strip = λ s. s;
  is_iso = λ s. true;
  json_dumps = λ j. "json";
  int_of = λ s. none;
  two_digits = λ n. "";
}

abbrev counted : Plan
counted = record start {
  coverage_summary = record {
    total_requirements = 3;
    covered = pos 2;
    open_gaps = 1;
    omit_approved = 0;
    draft_flagged = 0;
    others = end;
  };
}

abbrev approved : Plan
approved = record counted {
  gate2 = some (record {
    approved_by = some "lead";
    at = some "t1";
    request_sha256 = some "json";
    notes = none;
    gates_collapsed = false;
  });
  created = some "t1";
  status = some "approved";
}

abbrev draft : Plan
draft = record counted { status = some "draft" }

abbrev named : Option String → String
named none = ""
named (some s) = s

abbrev codec : Codec Plan
codec = record {
  dumps = λ p. named p.status;
  loads = λ t.
      if str_eq t "approved"
      then some approved
      else if str_eq t "draft"
      then some draft
      else some start;
  sha256 = λ t. t;
  validate = λ k p. true;
  is_inside = λ n. true;
}

abbrev no_edits : String → Edits → Plan → Result Batch
no_edits actor e p = ok (record { sections = p.sections; kills = []; gap_lines = [] })

abbrev earlier : Payload
earlier = record {
  decision = "done";
  actor = "";
  at = "";
  notes = "";
  artifact_sha256 = none;
  frozen_sha256 = none;
  request_sha256 = none;
  section_kills = [];
}

abbrev ready : State
ready = record {
  dir = record {
    files = ("plan.json", "gate2_pending") ∷ [];
    checkpoints = ("path_a_map", earlier) ∷ ("pursuit_plan", earlier) ∷ [];
  };
  log = [];
}

approve_gate2_freezes_example :
    (approved.status ≡ some "approved")
    × (read_artifact codec "plan.json" (approve_gate2 codec py no_edits approval ready).1.dir
        ≡ ok approved)
    × (read_frozen codec pursuit_plan (approve_gate2 codec py no_edits approval ready).1.dir
        ≡ ok approved)
unfolding key_digest approve_gate2 decide decide_open refusal stamp recount_coverage read_artifact
    write_artifact freeze_artifact checkpoint is_frozen_name Dict.get Dict.put
approve_gate2_freezes_example =
    approve_gate2_freezes codec py no_edits approval ready _ approved "t1" [] [] refl refl refl refl

approve_gate2_reopens_example :
    (draft.status ≡ some "draft")
    × (read_artifact codec "plan.json" (approve_gate2 codec py no_edits rejection ready).1.dir
        ≡ ok draft)
    × (Dict.get "path_a_map" (approve_gate2 codec py no_edits rejection ready).1.dir.checkpoints
        ≡ none)
    × (Dict.get "path_b_outline" (approve_gate2 codec py no_edits rejection ready).1.dir.checkpoints
        ≡ none)
    × (Dict.get "pursuit_plan" (approve_gate2 codec py no_edits rejection ready).1.dir.checkpoints
        ≡ none)
    × ((k : Payload) × (Dict.get "gate_2"
            (approve_gate2 codec py no_edits rejection ready).1.dir.checkpoints
          ≡ some k)
        × (k.decision ≡ "rejected")
        × (k.actor ≡ "lead")
        × (k.notes ≡ "split it"))
    × (Dict.get "plan.frozen.json" (approve_gate2 codec py no_edits rejection ready).1.dir.files
        ≡ none)
unfolding approve_gate2 decide decide_open refusal stamp recount_coverage read_artifact
    write_artifact freeze_artifact checkpoint clear_checkpoint is_frozen_name Dict.get Dict.put
    Dict.remove
approve_gate2_reopens_example =
    approve_gate2_reopens codec py no_edits rejection ready _ draft "t1" [] [] refl refl refl refl

approve_gate2_converges_example :
    (a : Gate2Result) × (approve_gate2 codec py no_edits
        (resubmitted "t9" 0 rejection)
        (approve_gate2 codec py no_edits rejection ready).1
      ≡ (ok a, (approve_gate2 codec py no_edits rejection ready).1))
    × (a.converged ≡ true)
    × (a.plan_sha256 ≡ some "draft")
unfolding approve_gate2 decide decide_open refusal stamp recount_coverage read_artifact
    write_artifact freeze_artifact checkpoint clear_checkpoint is_frozen_name Dict.get Dict.put
    Dict.remove
approve_gate2_converges_example =
    approve_gate2_converges codec py no_edits rejection ready _ draft "t1" false [] [] "t9" 0 refl
      refl refl refl
