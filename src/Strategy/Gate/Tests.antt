-- ===== src/Strategy/Gate/Tests.antt =====
-- A decision of Gate 1 on a small brief, with edits, stopped and run again.
use rfp_engine.Prelude.Dict
use rfp_engine.Prelude.{
  ap, zero, ◌+◌, suc, arith, ◌≡◌, Bool, true, false, none, some, Option, String, List, ℕ, [], ◌∷◌,
  refl, str_eq, if◌then◌else◌,
}
use rfp_engine.Validation.Audit.{Json, text, nil, cons, end, field, object}
use rfp_engine.Workspace.Pursuit.Types.{Codec, ok, bid_brief}
use rfp_engine.Strategy.Gate.Types.{Python, Brief, Request, Edits, GateResult, Candidate}
use rfp_engine.Strategy.Gate.Approve.{decide, State}
use rfp_engine.Strategy.Gate.Effects.{approve_gate1, crashed}
use rfp_engine.Workspace.Pursuit.Files.{read_artifact, write_artifact, freeze_artifact}
use rfp_engine.Strategy.Gate.Edits.{apply_edits}
use rfp_engine.Contracts.GateKey.{field_of, key_digest}
use rfp_engine.Strategy.Gate.Approve.{decide}
use rfp_engine.Strategy.Gate.Crash.{approve_gate1_resumes, ConvergesTo}
use rfp_engine.Strategy.Gate.Freeze.{approve_gate1_freezes}
use rfp_engine.Workspace.Pursuit.Files.{read_frozen}
use rfp_engine.Strategy.Gate.Ids.{apply_edits-Distinct, ids_of, Distinct}

abbrev candidate : String → String → Candidate
candidate id theme = record {
  candidate_id = some id;
  theme = text theme;
  status = "proposed";
  kill_reason = none;
  rationale = none;
  cites = none;
}

abbrev proposed : List Candidate
proposed = candidate "cand_01" "speed" ∷ candidate "cand_07" "price" ∷ []

abbrev pending : Brief
pending = record {
  candidates = some proposed;
  approved = none;
  status = some "gate1_pending";
  gate1 = none;
  created = none;
  others = end;
}

abbrev kill_one : Edits
kill_one = record {
  kill = some (cons (text "cand_01") nil);
  add = some (cons (object (field "theme" (text "care") end)) nil);
  edit = none;
  others = end;
}

abbrev approval : Request
approval = record {
  decision = "approved_with_edits";
  actor = "Ann";
  at = "2026-01-01";
  notes = none;
  edits = some kill_one;
  wait_ms = 5;
  auto_approved = false;
}

abbrev fixed_dumps : Json → String
fixed_dumps v = "json"

-- `int`, of the texts that the test has.
abbrev int_text : String → Option ℕ
int_text s = if str_eq s "01" then some 1 else if str_eq s "07" then some 7 else none

abbrev two : ℕ → String
two n = "08"

abbrev same : String → String
same s = s

abbrev dated : String → Bool
dated s = true

abbrev python : Python
python = record {
  strip = same;
  is_iso = dated;
  json_dumps = fixed_dumps;
  int_of = int_text;
  two_digits = two;
}

abbrev edited_candidates : List Candidate
edited_candidates =
    record (candidate "cand_01" "speed") {
      status = "killed";
      kill_reason = some "killed at Gate 1 by Ann";
    }
    ∷ candidate "cand_07" "price"
    ∷ candidate "cand_08" "care"
    ∷ []

-- The brief as the decision stamps it.
abbrev approved_brief : Brief
approved_brief = record {
  candidates = some (
      record (candidate "cand_01" "speed") {
        status = "killed";
        kill_reason = some "killed at Gate 1 by Ann";
      }
      ∷ record (candidate "cand_07" "price") { status = "approved" }
      ∷ record (candidate "cand_08" "care") { status = "approved" }
      ∷ []);
  approved = some (text "price" ∷ text "care" ∷ []);
  status = some "approved";
  gate1 = some (record {
    approved_by = some "Ann";
    at = some "2026-01-01";
    request_sha256 = some "json";
    notes = none;
  });
  created = some "2026-01-01";
  others = end;
}

abbrev dump : Option String → String
dump none = "none"
dump (some s) = s

abbrev parse_brief : String → Option Brief
parse_brief t =
    if str_eq t "gate1_pending"
    then some pending
    else if str_eq t "approved"
    then some approved_brief
    else none

abbrev codec : Codec Brief
codec = record {
  dumps = λ b. dump b.status;
  loads = parse_brief;
  sha256 = same;
  validate = λ k b. true;
  is_inside = λ name. true;
}

abbrev start : State
start = record {
  dir = record { files = ("brief.json", "gate1_pending") ∷ []; checkpoints = [] };
  log = [];
}

abbrev result : GateResult
result = record {
  decision = "approved_with_edits";
  frozen = true;
  brief_sha256 = some "approved";
  converged = false;
}

approve_gate1_resumes_example :
    ConvergesTo codec python
      (approve_gate1 codec python
        (record approval { at = "2026-02-02"; wait_ms = 9 })
        (crashed codec python 4 approval start))
      (approve_gate1 codec python approval start)
      result
unfolding approve_gate1 decide Dict.get read_artifact apply_edits field_of key_digest write_artifact
    freeze_artifact Dict.put
approve_gate1_resumes_example =
    approve_gate1_resumes codec python approval start pending proposed edited_candidates result
      "2026-02-02" 9 4 refl refl refl refl refl refl refl refl (omega arith)

approve_gate1_freezes_example :
    (read_frozen codec bid_brief (approve_gate1 codec python approval start).1.dir
      ≡ ok approved_brief)
    × (Dict.get "brief.frozen.json" (approve_gate1 codec python approval start).1.dir.files
        ≡ Dict.get "brief.json" (approve_gate1 codec python approval start).1.dir.files)
unfolding approve_gate1 decide Dict.get read_artifact apply_edits field_of key_digest write_artifact
    freeze_artifact Dict.put
approve_gate1_freezes_example =
    approve_gate1_freezes codec python approval start pending proposed edited_candidates result refl
      refl refl refl refl refl refl refl

-- A number as so many strokes, and back.
unfoldable unary : ℕ → String
unary zero = ""
unary (suc n) = String.◌∷◌ "|" (unary n)

unfoldable strokes : String → ℕ
strokes String.[] = 0
strokes (String.◌∷◌ c s) = strokes s + 1

abbrev int_strokes : String → Option ℕ
int_strokes s = some (strokes s)

strokes-unary : (n : ℕ) → int_strokes (unary n) ≡ some n
unfolding unary strokes
strokes-unary zero = refl
strokes-unary (suc n) = ground (arith, strokes-unary n)

abbrev stroked : List Candidate
stroked = candidate "cand_|" "speed" ∷ candidate "cand_|||" "price" ∷ []

abbrev kill_and_add : Edits
kill_and_add = record {
  kill = some (cons (text "cand_|") nil);
  add = some (cons (object (field "theme" (text "care") end)) nil);
  edit = none;
  others = end;
}

abbrev stroked_after : List Candidate
stroked_after =
    record (candidate "cand_|" "speed") {
      status = "killed";
      kill_reason = some "killed at Gate 1 by Ann";
    }
    ∷ candidate "cand_|||" "price"
    ∷ candidate "cand_||||" "care"
    ∷ []

apply_edits-Distinct_example : Distinct (ids_of stroked_after)
unfolding apply_edits unary strokes field_of
apply_edits-Distinct_example =
    apply_edits-Distinct int_strokes unary strokes-unary "Ann" kill_and_add stroked stroked_after
      (
        (
          λ h.
              absurd
                (ground (arith, ap (λ o. elim o [ none ↦ false | some t ↦ str_eq "cand_|" t ]) h)),
          tt,
        ),
        (tt, tt),
      )
      refl
