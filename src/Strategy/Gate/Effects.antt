-- ===== src/Strategy/Gate/Effects.antt =====
-- The writes of `approve_gate1` of engine/strategy/gate.py in their order: brief, freeze, log,
-- checkpoint. An effect that raises ends the call.
use rfp_engine.Prelude.{
  take, Bool, true, false, none, some, Option, String, List, ℕ, [], ◌∷◌, if◌then◌else◌, ◌++◌,
}
use rfp_engine.Workspace.Pursuit.Types.{Codec, Dir, Payload, Result, Raised, ok, raise, bid_brief}
use rfp_engine.Workspace.Pursuit.Files.{write_artifact, freeze_artifact, checkpoint}
use rfp_engine.Strategy.Gate.Types.{
  Python, Brief, Request, GateLine, Line, GateResult, stage_start, stage_end, artifact, gate,
}
use rfp_engine.Strategy.Gate.Edits.{summary}
use rfp_engine.Strategy.Gate.Approve.{
  Effect, State, Decided, logs, writes, freezes, records, refused, converges, refuses_edits,
  proceeds, decide, is_approving, given_notes, digest,
}

module _ (c : Codec Brief) where
  abbrev raised : {A : Type 0} → Result A → Option Raised
  raised (ok a) = none
  raised (raise e) = some e

  -- What an effect does to the directory.
  unfoldable pub touch : Effect → Dir → Option Raised × Dir
  touch (logs l) d = (none, d)
  touch (writes b) d = let w = write_artifact c "bid_brief" b "brief.json" d in (raised w.0, w.1)
  touch (freezes b) d = let w = freeze_artifact c bid_brief b d in (raised w.0, w.1)
  touch (records p) d = (none, checkpoint "gate_1" p d)

  abbrev pub lines_of : Effect → List Line
  lines_of (logs l) = l ∷ []
  lines_of _ = []

  unfoldable pub perform : Effect → State → Option Raised × State
  unfolding touch
  perform e s = let w = touch e s.dir in (w.0, record { dir = w.1; log = s.log ++ lines_of e })

  unfoldable pub perform_all : List Effect → State → Option Raised × State
  unfolding perform
  perform_all [] s = (none, s)
  perform_all (e ∷ es) s =
      let rest = perform_all es (perform e s).1 in
      elim (perform e s).0 [ some r ↦ (some r, (perform e s).1) | none ↦ rest ]

  abbrev pub sha_of : Brief → String
  sha_of b = c.sha256 (c.dumps b)

  abbrev pub frozen_effects : Brief → Bool → List Effect → List Effect
  frozen_effects b true es = freezes b ∷ logs (artifact "brief.frozen.json" (sha_of b)) ∷ es
  frozen_effects b false es = es

  abbrev pub gate_line : Request → GateLine
  gate_line r = record {
    decision = r.decision;
    actor = r.actor;
    auto_approved = r.auto_approved;
    wait_ms = r.wait_ms;
    notes = given_notes r.notes;
    edits_summary = summary r.edits;
  }

  module _ (py : Python) where
    -- The checkpoint of the decision.
    abbrev pub payload : Request → Brief → String → Payload
    payload r b at = record {
      decision = r.decision;
      actor = r.actor;
      at = at;
      notes = "";
      artifact_sha256 = some (sha_of b);
      frozen_sha256 = if is_approving r.decision then some (sha_of b) else none;
      request_sha256 = some (digest c py r);
      section_kills = [];
    }

    unfoldable pub effects_of : Request → Decided → List Effect
    effects_of r (proceeds b at stamped) =
        logs stage_start
        ∷ writes b
        ∷ logs (artifact "brief.json" (sha_of b))
        ∷ frozen_effects b (is_approving r.decision)
            (logs (gate (gate_line r)) ∷ records (payload r b at) ∷ logs stage_end ∷ [])
    effects_of r (refuses_edits e) = logs stage_start ∷ []
    effects_of r _ = []

    abbrev pub returned : Request → Decided → Option Raised → Result GateResult
    returned r (refused e) ended = raise e
    returned r (refuses_edits e) ended = raise e
    returned r (converges g) ended = ok g
    returned r (proceeds b at stamped) none = ok (record {
      decision = r.decision;
      frozen = is_approving r.decision;
      brief_sha256 = some (sha_of b);
      converged = stamped;
    })
    returned r (proceeds b at stamped) (some e) = raise e

    -- `approve_gate1`
    unfoldable pub approve_gate1 : Request → State → Result GateResult × State
    unfolding decide effects_of perform_all
    approve_gate1 r s =
        let found = decide c py r s.dir in
        let done = perform_all (effects_of r found) s in (returned r found done.0, done.1)

    -- The state that a crash after so many effects leaves.
    unfoldable pub crashed : ℕ → Request → State → State
    unfolding decide effects_of perform_all
    crashed n r s = (perform_all (take n (effects_of r (decide c py r s.dir))) s).1
