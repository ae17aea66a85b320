-- ===== src/Strategy/Gate/Approve.antt =====
-- `approve_gate1` of engine/strategy/gate.py: what is decided from the disk, then the effects in the
-- order in which the code has them. A crash is a stop between two effects. `str.strip`,
-- `datetime.fromisoformat`, `json.dumps`, `int` and the two-digit format are parameters.
use rfp_engine.Prelude.Dict
use rfp_engine.Prelude.{
  ◌&&◌, ◌||◌, not, str_eq, Bool, true, false, none, some, Option, String, List, [], ◌∷◌,
  if◌then◌else◌,
}
use rfp_engine.Validation.Audit.{Json, Items, Fields, null, text, array, object, end, field}
use rfp_engine.Contracts.GateKey.{key_digest, same_request}
use rfp_engine.Workspace.Pursuit.Types.{
  Codec, Dir, Payload, Result, Raised, ok, raise, contract_error, file_not_found, value_error,
}
use rfp_engine.Workspace.Pursuit.Files.{read_artifact}
use rfp_engine.Strategy.Gate.Types.{
  Python, Candidate, Edits, Brief, Stamp, Request, Line, GateResult,
}
use rfp_engine.Strategy.Gate.Edits.{given, apply_edits}

-- DECISIONS
abbrev pub is_decision : String → Bool
is_decision d =
    str_eq d "approved"
    || str_eq d "approved_with_edits"
    || str_eq d "rejected"
    || str_eq d "auto_approved"

-- DECISION_TO_STATUS
abbrev pub status_of : String → String
status_of d = if str_eq d "rejected" then "declined" else "approved"

abbrev pub is_approving : String → Bool
is_approving d = str_eq (status_of d) "approved"

abbrev text_or : Option String → String → String
text_or none t = t
text_or (some s) t = s

abbrev pub given_notes : Option String → Option String
given_notes none = none
given_notes (some s) = if str_eq s "" then none else some s

abbrev pub is_absent : {A : Type 0} → Option A → Bool
is_absent none = true
is_absent (some a) = false

abbrev text_json : Option String → Json
text_json none = null
text_json (some s) = text s

abbrev with_list : String → Option Items → Fields → Fields
with_list k none fs = fs
with_list k (some vs) fs = field k (array vs) fs

abbrev edits_json : Option Edits → Json
edits_json none = null
edits_json (some e) =
    object (with_list "kill" e.kill (with_list "add" e.add (with_list "edit" e.edit e.others)))

-- The fields of the request's digest.
abbrev pub request_fields : Request → Fields
request_fields r =
    field "decision" (text r.decision)
      (field "notes" (text_json r.notes) (field "edits" (edits_json r.edits) end))

-- A candidate that is still proposed is approved with the brief.
abbrev approve_candidate : Candidate → Candidate
approve_candidate c = if str_eq c.status "proposed" then record c { status = "approved" } else c

unfoldable pub approve_candidates : List Candidate → List Candidate
approve_candidates [] = []
approve_candidates (c ∷ cs) = approve_candidate c ∷ approve_candidates cs

unfoldable pub approved_themes : List Candidate → List Json
approved_themes [] = []
approved_themes (c ∷ cs) =
    let rest = approved_themes cs in if str_eq c.status "approved" then c.theme ∷ rest else rest

-- What the disk and the request decide.
pub data Decided : Type 0 where
  refused : Raised → Decided
  converges : GateResult → Decided
  refuses_edits : Raised → Decided
  proceeds : Brief → String → Bool → Decided

-- The effects of the gate on the log and on the pursuit's directory.
pub data Effect : Type 0 where
  logs : Line → Effect
  writes : Brief → Effect
  freezes : Brief → Effect
  records : Payload → Effect

-- The directory and the lines of the run log.
pub record State : Type 0 where
  pub dir : Dir
  pub log : List Line

module _ (c : Codec Brief) (py : Python) where
  -- The checks before anything is read.
  unfoldable pub refusal : Request → Option Raised
  refusal r =
      if not (is_decision r.decision)
      then some contract_error
      else if not (str_eq r.decision "auto_approved") && r.auto_approved
      then some contract_error
      else if str_eq r.decision "auto_approved" && not r.auto_approved
      then some contract_error
      else if str_eq r.actor ""
      then some contract_error
      else if not (py.is_iso r.at)
      then some value_error
      else if str_eq r.decision "approved_with_edits" && is_absent (given r.edits)
      then some contract_error
      else if str_eq r.decision "rejected" && str_eq (py.strip (text_or r.notes "")) ""
      then some contract_error
      else none

  abbrev pub digest : Request → String
  digest r = key_digest py.json_dumps c.sha256 (request_fields r)

  -- The brief as it leaves the gate.
  unfoldable pub stamp : Request → Brief → List Candidate → Brief
  unfolding approve_candidates approved_themes
  stamp r b cs =
      let final = if is_approving r.decision then approve_candidates cs else cs in
      record b {
        candidates = some final;
        approved = if is_approving r.decision then some (approved_themes final) else b.approved;
        gate1 = some (record {
          approved_by = some r.actor;
          at = some r.at;
          request_sha256 = some (digest r);
          notes = given_notes r.notes;
        });
        created = some r.at;
        status = some (status_of r.decision);
      }

  abbrev pub edited : Option Edits → String → List Candidate → Result (List Candidate)
  edited none actor cs = ok cs
  edited (some e) actor cs = apply_edits py.int_of py.two_digits actor e cs

  abbrev pub with_candidates : Request → Brief → Result (List Candidate) → Decided
  with_candidates r b (raise e) = refuses_edits e
  with_candidates r b (ok cs) = proceeds (stamp r b cs) r.at false

  abbrev stamped_by : Request → Option Stamp → Bool
  stamped_by r none = same_request none none none none r.actor (digest r)
  stamped_by r (some g) = same_request none none g.approved_by g.request_sha256 r.actor (digest r)

  abbrev stamped_at : Option Stamp → String → String
  stamped_at none at = at
  stamped_at (some g) at = text_or g.at at

  abbrev has_status : String → Brief → Bool
  has_status s b = str_eq (text_or b.status "") s

  -- No checkpoint: a brief that is stamped is completed with the stamp's clock.
  unfoldable pub decide_open : Request → Brief → List Candidate → Decided
  unfolding stamp
  decide_open r b cs =
      if has_status "approved" b || has_status "declined" b
      then (if has_status (status_of r.decision) b && stamped_by r b.gate1
          then proceeds b (stamped_at b.gate1 r.at) true
          else refused contract_error)
      else if not (has_status "gate1_pending" b)
      then refused contract_error
      else with_candidates r b (edited (given r.edits) r.actor cs)

  abbrev pub decide_prior : Request → Brief → List Candidate → Option Payload → Dir → Decided
  decide_prior r b cs none d = decide_open r b cs
  decide_prior r b cs (some p) d =
      if same_request (some r.decision) (some p.decision) (some p.actor) p.request_sha256 r.actor
        (digest r)
      then converges (record {
        decision = r.decision;
        frozen = not (is_absent (Dict.get "brief.frozen.json" d.files));
        brief_sha256 = p.artifact_sha256;
        converged = true;
      })
      else refused contract_error

  abbrev pub decide_candidates : Request → Brief → Option (List Candidate) → Dir → Decided
  decide_candidates r b none d = refused contract_error
  decide_candidates r b (some cs) d = decide_prior r b cs (Dict.get "gate_1" d.checkpoints) d

  abbrev decide_brief : Request → Result Brief → Dir → Decided
  decide_brief r (raise file_not_found) d = refused contract_error
  decide_brief r (raise e) d = refused e
  decide_brief r (ok b) d = decide_candidates r b b.candidates d

  unfoldable pub decide : Request → Dir → Decided
  unfolding refusal decide_open
  decide r d = elim (refusal r) [
    | some e ↦ refused e
    | none ↦ decide_brief r (read_artifact c "brief.json" d) d
  ]
