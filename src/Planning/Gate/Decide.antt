-- ===== src/Planning/Gate/Decide.antt =====
-- What `approve_gate2` of engine/planning/gate.py decides from the disk and the request. `str.strip`, `datetime.fromisoformat` and `json.dumps`
-- are parameters, and so is the batch of section edits, which Planning.Gate.Edit models over the
-- sections by id and title.
use rfp_engine.Prelude.Dict
use rfp_engine.Workspace.Pursuit.Types.{
  Codec, Dir, Payload, Result, Raised, ok, raise, contract_error, file_not_found, value_error,
}
use rfp_engine.Workspace.Pursuit.Files.{read_artifact, file_sha256}
use rfp_engine.Strategy.Gate.Approve.{is_decision, is_absent, given_notes}
use rfp_engine.Contracts.GateKey.{field_of, key_digest, same_request}
use rfp_engine.Validation.Audit.{Json, Fields, null, text, boolean, field, end, object}
use rfp_engine.Planning.Gate.Plan.{
  Plan, Batch, Request, Edits, Stamp, Gate2Result, Summary, recount_coverage, is_text,
}
use rfp_engine.Planning.Gate.Edit.{Kill, GapLine, as_text}
use rfp_engine.Planning.Gate.Dispose.{apply_dispositions, apply_waives}
use rfp_engine.Prelude.{
  ◌==◌, ◌+◌, true, ◌||◌, count_if, ◌&&◌, not, length, none, str_eq, false, [], ◌∷◌, List, some,
  Bool, if◌then◌else◌, Option, String,
}
use rfp_engine.Strategy.Gate.Types.{Python}
use rfp_engine.Strategy.Gate.Edits.{is_true}
use rfp_engine.Planning.Gate.Types.{Obligation, Section}

-- DECISION_TO_STATUS_2
abbrev pub status_of : String → String
status_of d = if str_eq d "rejected" then "draft" else "approved"

abbrev pub is_approving : String → Bool
is_approving d = str_eq (status_of d) "approved"

-- None and an empty dict of edits are falsy.
abbrev pub given : Option Edits → Option Edits
given none = none
given (some e) = if is_true e.sent then some e else none

abbrev text_json : Option String → Json
text_json none = null
text_json (some s) = text s

abbrev sent_json : Option Edits → Json
sent_json none = null
sent_json (some e) = e.sent

abbrev pub request_fields : Request → Fields
request_fields r = field "decision" (text r.decision) (
    field "notes" (text_json r.notes)
      (field "edits" (sent_json r.edits) (field "gates_collapsed" (boolean r.gates_collapsed) end)))

abbrev op_of : Json → Option String
op_of (object fs) = as_text (field_of "op" fs)
op_of _ = none

abbrev counted : Edits → Summary
counted e = record {
  dispose = length e.dispose;
  add = count_if (λ j. is_text "add" (op_of j)) e.sections;
  kill = count_if (λ j. is_text "kill" (op_of j)) e.sections;
  edit = count_if (λ j. is_text "edit" (op_of j)) e.sections;
  waive = length e.waive_obligations;
}

abbrev is_nothing : Summary → Bool
is_nothing s = (s.dispose + s.add + s.kill + s.edit + s.waive) == 0

unfoldable pub summary : Option Edits → Option Summary
summary none = none
summary (some e) = if is_nothing (counted e) then none else some (counted e)

-- What the disk and the request decide.
pub data Decided : Type 0 where
  refused : Raised → Decided
  converges : Gate2Result → Decided
  refuses_edits : Raised → Decided
  proceeds : Plan → String → Bool → List Kill → List GapLine → Decided

abbrev pub text_or : Option String → String → String
text_or none t = t
text_or (some s) t = s

abbrev is_set : Option String → Bool
is_set none = false
is_set (some s) = not (str_eq s "")

module _ (c : Codec Plan) (py : Python) (edit_sections : String → Edits → Plan → Result Batch) where
  -- The checks before anything is read.
  unfoldable pub refusal : Request → Option Raised
  refusal r =
      if not (is_decision r.decision)
      then some contract_error
      else if str_eq r.decision "auto_approved" && not r.auto_approved
          || not (str_eq r.decision "auto_approved") && r.auto_approved
      then some contract_error
      else if str_eq r.actor ""
      then some contract_error
      else if not (py.is_iso r.at)
      then some value_error
      else if str_eq r.decision "approved_with_edits" && is_absent (given r.edits)
      then some contract_error
      else if str_eq r.decision "rejected"
          && (not (is_set r.notes) || not (is_absent (given r.edits)))
      then some contract_error
      else none

  abbrev pub digest : Request → String
  digest r = key_digest py.json_dumps c.sha256 (request_fields r)

  abbrev with_waives :
      Batch → Plan → Result (List Section) → Result (List Obligation) → Result (Plan × Batch)
  with_waives b p (ok ss) (ok os) = ok (record p { sections = ss; obligations = os }, b)
  with_waives b p (raise e) os = raise e
  with_waives b p (ok ss) (raise e) = raise e

  abbrev with_batch : Edits → Plan → Result Batch → Result (Plan × Batch)
  with_batch e p (raise x) = raise x
  with_batch e p (ok b) = elim e.unknown [
    | k ∷ ks ↦ raise contract_error
    | [] ↦
        with_waives b p (apply_dispositions e.dispose b.sections)
          (apply_waives e.waive_obligations p.obligations)
  ]

  -- The batch of edits: section edits, then dispositions, then waives.
  abbrev pub edited : Option Edits → String → Plan → Result (Plan × Batch)
  edited none actor p = ok (p, record { sections = p.sections; kills = []; gap_lines = [] })
  edited (some e) actor p = with_batch e p (edit_sections actor e p)

  -- The plan as it leaves the gate.
  unfoldable pub stamp : Request → Plan → Plan
  unfolding recount_coverage
  stamp r p =
      let q = recount_coverage p in
      if is_approving r.decision
      then record q {
        gate2 = some (record {
          approved_by = some r.actor;
          at = some r.at;
          request_sha256 = some (digest r);
          notes = given_notes r.notes;
          gates_collapsed = r.gates_collapsed;
        });
        created = some r.at;
        status = some (status_of r.decision);
      }
      else record q { status = some (status_of r.decision) }

  abbrev pub with_edits : Request → Result (Plan × Batch) → Decided
  with_edits r (raise e) = refuses_edits e
  with_edits r (ok (p, b)) = proceeds (stamp r p) r.at false b.kills b.gap_lines

  abbrev pub by_status : Request → Plan → Decided
  by_status r p =
      let stamped = with_edits r (edited (given r.edits) r.actor p) in
      if is_text "gate2_pending" p.status
      then stamped
      else if str_eq r.decision "rejected" && is_text "draft" p.status
      then stamped
      else refused contract_error

  abbrev pub past_gate : Request → Plan → Option Stamp → Decided
  past_gate r p none = by_status r p
  past_gate r p (some g) =
      if is_approving r.decision
        && same_request none none g.approved_by g.request_sha256 r.actor (digest r)
      then proceeds p (text_or g.at r.at) true [] []
      else refused contract_error

  -- No checkpoint that binds: a stamped plan is completed with the stamp's clock.
  unfoldable pub decide_open : Request → Plan → Decided
  unfolding stamp
  decide_open r p = if is_text "approved" p.status then past_gate r p p.gate2 else by_status r p

  abbrev same_sha : Option String → Option String → Bool
  same_sha none none = true
  same_sha (some a) (some b) = str_eq a b
  same_sha _ _ = false

  abbrev pub decide_prior : Request → Plan → Option Payload → Dir → Decided
  decide_prior r p none d = decide_open r p
  decide_prior r p (some k) d =
      if same_request (some r.decision) (some k.decision) (some k.actor) k.request_sha256 r.actor
          (digest r)
        && same_sha k.artifact_sha256 (file_sha256 c "plan.json" d)
      then converges (record {
        decision = r.decision;
        frozen = not (is_absent (Dict.get "plan.frozen.json" d.files));
        plan_sha256 = k.artifact_sha256;
        converged = true;
      })
      else if is_text "gate2_pending" p.status
      then decide_open r p
      else refused contract_error

  abbrev pub decide_plan : Request → Result Plan → Dir → Decided
  decide_plan r (raise file_not_found) d = refused contract_error
  decide_plan r (raise e) d = refused e
  decide_plan r (ok p) d = decide_prior r p (Dict.get "gate_2" d.checkpoints) d

  unfoldable pub decide : Request → Dir → Decided
  unfolding refusal decide_open
  decide r d = elim (refusal r) [
    | some e ↦ refused e
    | none ↦ decide_plan r (read_artifact c "plan.json" d) d
  ]
