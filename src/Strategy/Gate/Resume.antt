-- ===== src/Strategy/Gate/Resume.antt =====
-- A crash anywhere in `approve_gate1` of engine/strategy/gate.py, and the same decision once more.
use rfp_engine.Prelude.Dict
use rfp_engine.Prelude.{
  eq_refl, str_eq, Bool-cases, not, true, ap, ◌∙◌, inr, inl, Option-cases, refl, arith, ◌≡◌, false,
  none, some, Option, String, List, ℕ,
}
use rfp_engine.Workspace.Pursuit.Types.{Raised, Codec, Dir, Result, ok}
use rfp_engine.Workspace.Pursuit.Files.{read_artifact}
use rfp_engine.Strategy.Gate.Types.{resubmitted, Python, Brief, Request, GateResult, Candidate}
use rfp_engine.Strategy.Gate.Edits.{given}
use rfp_engine.Strategy.Gate.Approve.{
  digest, is_absent, decide_candidates, decide_prior, with_candidates, State, Decided, refusal,
  decide, decide_open, stamp, refused, converges, refuses_edits, proceeds, edited,
}
use rfp_engine.Strategy.Gate.Effects.{sha_of, payload, effects_of, perform_all, returned}
use rfp_engine.Contracts.GateKey.{same_request}

module _ (c : Codec Brief) (py : Python) where
  pub returned-ok :
      (r : Request) (e : Decided) (s : State) (g : GateResult)
      → returned c py r e (perform_all c (effects_of c py r e) s).0 ≡ ok g
      → (perform_all c (effects_of c py r e) s).0 ≡ none
  unfolding effects_of perform_all
  returned-ok r (refused e) s g h = absurd (ground arith)
  returned-ok r (refuses_edits e) s g h = absurd (ground arith)
  returned-ok r (converges g0) s g h = refl
  returned-ok r (proceeds b at st) s g h =
      elim (Option-cases (perform_all c (effects_of c py r (proceeds b at st)) s).0) [
        | inl done ↦ done
        | inr (x, ended) ↦ absurd (ground arith)
      ]

  abbrev pub edited_by : Request → List Candidate → Result (List Candidate)
  edited_by r cs = edited c py (given r.edits) r.actor cs

  abbrev carried : Request → Brief → Result (List Candidate) → Decided
  carried r b cs = with_candidates c py r b cs

  decide-open :
      (r : Request) (b : Brief) (cs : List Candidate)
      → b.status ≡ some "gate1_pending"
      → decide_open c py r b cs ≡ carried r b (edited_by r cs)
  unfolding decide_open
  decide-open r b cs pending = rw pending refl

  pub decide-read :
      (r : Request) (d : Dir) (b : Brief) (cs : List Candidate)
      → refusal c py r ≡ none
      → read_artifact c "brief.json" d ≡ ok b
      → b.candidates ≡ some cs
      → decide c py r d ≡ decide_prior c py r b cs (Dict.get "gate_1" d.checkpoints) d
  unfolding decide
  decide-read r d b cs fine there has =
      let read : decide c py r d ≡ decide_candidates c py r b b.candidates d =
        rw (decide, fine, there) refl in
      read ∙ ap (λ o. decide_candidates c py r b o d) has

  -- A decision on a pending brief that returns has stamped it.
  pub decide-pending :
      (r : Request) (d : Dir) (b : Brief) (cs out : List Candidate) (g : GateResult)
      (ended : Option Raised)
      → Dict.get "gate_1" d.checkpoints ≡ none
      → read_artifact c "brief.json" d ≡ ok b
      → b.status ≡ some "gate1_pending"
      → b.candidates ≡ some cs
      → edited_by r cs ≡ ok out
      → returned c py r (decide c py r d) ended ≡ ok g
      → (refusal c py r ≡ none) × (decide c py r d ≡ proceeds (stamp c py r b out) r.at false)
  unfolding decide
  decide-pending r d b cs out g ended absent there pending has fits h =
      elim (Option-cases (refusal c py r)) [
        | inr (e, bad) ↦ absurd (ground arith)
        | inl fine ↦ (
          fine,
          decide-read r d b cs fine there has
              ∙ ap (λ p. decide_prior c py r b cs p d) absent
              ∙ decide-open r b cs pending
              ∙ ap (carried r b) fits,
        )
      ]

  pub refusal-again :
      (r : Request) (at : String) (w : ℕ)
      → refusal c py r ≡ none
      → py.is_iso at ≡ true
      → refusal c py (resubmitted at w r) ≡ none
  unfolding refusal
  refusal-again r at w fine iso = ground arith

  -- The brief that a decision stamped is completed by the same decision, at the stamp's clock.
  pub decide_open-stamped :
      (r : Request) (b : Brief) (cs xs : List Candidate) (at : String) (w : ℕ)
      → decide_open c py (resubmitted at w r) (stamp c py r b cs) xs
        ≡ proceeds (stamp c py r b cs) r.at true
  unfolding decide_open stamp same_request
  decide_open-stamped r b cs xs at w = elim (Bool-cases (str_eq r.decision "rejected")) [
    | inl rejects ↦ rw (rejects, eq_refl r.actor, eq_refl (digest c py r)) refl
    | inr approves ↦ rw (approves, eq_refl r.actor, eq_refl (digest c py r)) refl
  ]

  abbrev pub recorded : Request → Brief → Dir → GateResult
  recorded r b d = record {
    decision = r.decision;
    frozen = not (is_absent (Dict.get "brief.frozen.json" d.files));
    brief_sha256 = some (sha_of c b);
    converged = true;
  }

  -- A decision that is recorded converges on the record.
  pub decide_prior-recorded :
      (r : Request) (b a : Brief) (xs : List Candidate) (d : Dir) (at : String) (w : ℕ)
      → decide_prior c py (resubmitted at w r) b xs (some (payload c py r a r.at)) d
        ≡ converges (recorded r a d)
  unfolding same_request
  decide_prior-recorded r b a xs d at w =
      rw (eq_refl r.decision, eq_refl r.actor, eq_refl (digest c py r)) refl
