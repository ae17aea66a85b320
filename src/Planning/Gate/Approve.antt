-- ===== src/Planning/Gate/Approve.antt =====
-- `approve_gate2` of engine/planning/gate.py: the writes of a decision in their order.
use rfp_engine.Workspace.Pursuit.Types.{Codec, Dir, Payload, Result, ok, raise, pursuit_plan}
use rfp_engine.Workspace.Pursuit.Files.{
  write_artifact, freeze_artifact, checkpoint, clear_checkpoint,
}
use rfp_engine.Strategy.Gate.Approve.{given_notes}
use rfp_engine.Planning.Gate.Plan.{
  Plan, Batch, Request, Edits, State, Gate2Result, Line, GateLine, stage_start, stage_end, artifact,
  gate, gap,
}
use rfp_engine.Planning.Gate.Edit.{Kill, GapLine}
use rfp_engine.Prelude.{
  true, map, none, ◌++◌, false, [], ◌∷◌, List, some, Bool, if◌then◌else◌, String,
}
use rfp_engine.Strategy.Gate.Types.{Python}
use rfp_engine.Planning.Gate.Decide.{
  proceeds, refuses_edits, converges, digest, refused, given, text_or, decide, Decided, summary,
  is_approving,
}

module _ (c : Codec Plan) (py : Python) (edit_sections : String → Edits → Plan → Result Batch) where
  abbrev pub sha_of : Plan → String
  sha_of p = c.sha256 (c.dumps p)

  -- The redo door: `_PLANNING_STAGES` are cleared.
  abbrev pub clear_planning : Dir → Dir
  clear_planning d =
      clear_checkpoint "pursuit_plan"
        (clear_checkpoint "path_b_outline" (clear_checkpoint "path_a_map" d))

  abbrev pub payload : Request → Plan → String → List Kill → Payload
  payload r p at kills = record {
    decision = r.decision;
    actor = r.actor;
    at = at;
    notes = if is_approving r.decision then "" else text_or r.notes "";
    artifact_sha256 = some (sha_of p);
    frozen_sha256 = if is_approving r.decision then some (sha_of p) else none;
    request_sha256 = some (digest c py edit_sections r);
    section_kills = map (λ k. k.section_id) kills;
  }

  abbrev pub record_if : Bool → Payload → Dir → Dir
  record_if true k d = checkpoint "gate_2" k d
  record_if false k d = checkpoint "gate_2" k (clear_planning d)

  abbrev pub record_decision : Request → Plan → String → List Kill → Dir → Dir
  record_decision r p at kills d = record_if (is_approving r.decision) (payload r p at kills) d

  abbrev opening : List GapLine → List Line
  opening ls = stage_start ∷ map gap ls

  abbrev gate_line : Request → GateLine
  gate_line r = record {
    decision = r.decision;
    actor = r.actor;
    auto_approved = r.auto_approved;
    wait_ms = r.wait_ms;
    edits_summary = summary (given r.edits);
    notes = given_notes r.notes;
  }

  abbrev pub result_of : Request → Plan → Bool → Gate2Result
  result_of r p stamped = record {
    decision = r.decision;
    frozen = is_approving r.decision;
    plan_sha256 = some (sha_of p);
    converged = stamped;
  }

  abbrev written : Plan → List Line
  written p = artifact "plan.json" (sha_of p) ∷ []

  abbrev pub finish :
      Request → Plan → String → Bool → List Kill → Dir → List Line → Result Gate2Result × State
  finish r p at stamped kills d log = (
    ok (result_of r p stamped),
    record {
      dir = record_decision r p at kills d;
      log = log ++ gate (gate_line r) ∷ stage_end ∷ [];
    },
  )

  abbrev pub after_freeze :
      Request
      → Plan
      → String
      → Bool
      → List Kill
      → Result String × Dir
      → List Line
      → Result Gate2Result × State
  after_freeze r p at stamped kills (raise e, d) log = (raise e, record { dir = d; log = log })
  after_freeze r p at stamped kills (ok sha, d) log =
      finish r p at stamped kills d (log ++ artifact "plan.frozen.json" sha ∷ [])

  -- An approval freezes what it wrote.
  abbrev pub freeze_if :
      Bool
      → Request
      → Plan
      → String
      → Bool
      → List Kill
      → Dir
      → List Line
      → Result Gate2Result × State
  freeze_if true r p at stamped kills d log =
      after_freeze r p at stamped kills (freeze_artifact c pursuit_plan p d) log
  freeze_if false r p at stamped kills d log = finish r p at stamped kills d log

  abbrev after_write :
      Request
      → Plan
      → String
      → Bool
      → List Kill
      → Result String × Dir
      → List Line
      → Result Gate2Result × State
  after_write r p at stamped kills (raise e, d) log = (raise e, record { dir = d; log = log })
  after_write r p at stamped kills (ok path, d) log =
      freeze_if (is_approving r.decision) r p at stamped kills d (log ++ written p)

  -- The writes in their order: plan, freeze, log, checkpoint.
  abbrev pub carry_out : Request → Decided → State → Result Gate2Result × State
  carry_out r (refused e) s = (raise e, s)
  carry_out r (converges g) s = (ok g, s)
  carry_out r (refuses_edits e) s = (raise e, record s { log = s.log ++ stage_start ∷ [] })
  carry_out r (proceeds p at stamped kills lines) s =
      after_write r p at stamped kills (write_artifact c "pursuit_plan" p "plan.json" s.dir)
        (s.log ++ opening lines)

  -- `approve_gate2`
  unfoldable pub approve_gate2 : Request → State → Result Gate2Result × State
  unfolding decide
  approve_gate2 r s = carry_out r (decide c py edit_sections r s.dir) s
