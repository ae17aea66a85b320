-- ===== src/Planning/Gate/Again.antt =====
-- The decisions of Gate 2 seen from outside: what an approval and a rejection leave, and the same
-- decision submitted again (engine/planning/gate.py, `approve_gate2`).
use rfp_engine.Prelude.Dict
use mathlib.Core.Path.{subst}
use rfp_engine.Workspace.Pursuit.Types.{Codec, Dir, Payload, Result, ok, raise, pursuit_plan}
use rfp_engine.Workspace.Pursuit.Files.{vouched, read_artifact, file_sha256, read_frozen}
use rfp_engine.Planning.Gate.Plan.{Plan, Batch, Request, Edits, State, Gate2Result}
use rfp_engine.Planning.Gate.Edit.{GapLine, Kill}
use rfp_engine.Planning.Gate.Approve.{result_of, sha_of, carry_out, approve_gate2}
use rfp_engine.Prelude.{
  not, eq_refl, eq_iff, ap, ◌∙◌, arith, List, sym, refl, inl, none, true, false, inr, if◌then◌else◌,
  some, Option-cases, Bool, ◌≡◌, ℕ, String,
}
use rfp_engine.Strategy.Gate.Types.{Python}
use rfp_engine.Planning.Gate.Decided.{carry_out-Settled, Settled}
use rfp_engine.Workspace.Pursuit.Read.{read_frozen_verified}
use rfp_engine.Contracts.GateKey.{same_request}
use rfp_engine.Strategy.Gate.Approve.{is_absent}
use rfp_engine.Planning.Gate.Status.{decide-Stamped, decide-fine, decide-bad, Stamped}
use rfp_engine.Planning.Gate.Decide.{
  decide, decide_plan, decide_prior, digest, refusal, proceeds, converges, is_approving, status_of,
  text_or,
}

-- The same request at another clock, after another wait.
abbrev pub resubmitted : String → ℕ → Request → Request
resubmitted at wait r = record r { at = at; wait_ms = wait }

module _ (c : Codec Plan) (py : Python) (edit_sections : String → Edits → Plan → Result Batch) where
  -- The decision goes through, with that plan.
  abbrev pub Makes : Request → State → Plan → String → Bool → List Kill → List GapLine → Type 0
  Makes r s p at stamped kills lines =
      decide c py edit_sections r s.dir ≡ proceeds p at stamped kills lines

  decision-Settled :
      (r : Request) (s : State) (g : Gate2Result) (p : Plan) (at : String) (st : Bool)
      (kills : List Kill) (lines : List GapLine)
      → Makes r s p at st kills lines
      → (approve_gate2 c py edit_sections r s).0 ≡ ok g
      → (result_of c py edit_sections r p st ≡ g)
        × Settled c py edit_sections r p at kills s.dir (approve_gate2 c py edit_sections r s).1.dir
  unfolding approve_gate2
  decision-Settled r s g p at st kills lines goes h =
      subst
        (λ e.
          (carry_out c py edit_sections r e s).0 ≡ ok g
          → (result_of c py edit_sections r p st ≡ g)
            × Settled c py edit_sections r p at kills s.dir
                (carry_out c py edit_sections r e s).1.dir)
        (sym goes) (carry_out-Settled c py edit_sections r p at st kills lines g s) h

  read_plan :
      (p : Plan) (d : Dir)
      → Dict.get "plan.json" d.files ≡ some (c.dumps p)
      → c.is_inside "plan.json" ≡ true
      → c.loads (c.dumps p) ≡ some p
      → read_artifact c "plan.json" d ≡ ok p
  unfolding read_artifact
  read_plan p d text inside reads = rw (inside, text, reads) refl

  -- An approval at Gate 2 that goes through with a plan and returns leaves that plan, with the status
  -- approved, in plan.json and in the frozen copy, which the verified read gives, provided that the
  -- text of the plan parses to it.
  pub approve_gate2_freezes :
      (r : Request) (s : State) (g : Gate2Result) (p : Plan) (at : String) (kills : List Kill)
      (lines : List GapLine)
      → Makes r s p at false kills lines
      → c.loads (c.dumps p) ≡ some p
      → (approve_gate2 c py edit_sections r s).0 ≡ ok g
      → is_approving r.decision ≡ true
      → let d = (approve_gate2 c py edit_sections r s).1.dir in
        (p.status ≡ some "approved")
        × (read_artifact c "plan.json" d ≡ ok p)
        × (read_frozen c pursuit_plan d ≡ ok p)
  approve_gate2_freezes r s g p at kills lines goes reads h approves =
      let d = (approve_gate2 c py edit_sections r s).1.dir in
      let (same, v) = decision-Settled r s g p at false kills lines goes h in
      let status : p.status ≡ some (status_of r.decision) =
        subst (Stamped c py edit_sections r) goes (decide-Stamped c py edit_sections r s.dir) in
      (
        status ∙ ap some ((eq_iff (status_of r.decision) "approved").0 approves),
        read_plan p d v.plan_text v.inside reads,
        (read_frozen_verified c pursuit_plan p d).1 (
          c.dumps p,
          v.frozen approves,
          ap (vouched c) v.recorded
              ∙ ap (λ t. if t then some (sha_of c py edit_sections p) else none) approves,
          reads,
        ),
      )

  -- A rejection at Gate 2 that goes through with a plan and returns opens the redo: that plan is on
  -- the disk with the status draft, none of the three planning stages has a checkpoint, the checkpoint
  -- of the gate carries the decision, the actor and the notes, and a frozen plan is left as it was,
  -- provided that the text of the plan parses to it.
  pub approve_gate2_reopens :
      (r : Request) (s : State) (g : Gate2Result) (p : Plan) (at : String) (kills : List Kill)
      (lines : List GapLine)
      → Makes r s p at false kills lines
      → c.loads (c.dumps p) ≡ some p
      → (approve_gate2 c py edit_sections r s).0 ≡ ok g
      → r.decision ≡ "rejected"
      → let d = (approve_gate2 c py edit_sections r s).1.dir in
        (p.status ≡ some "draft")
        × (read_artifact c "plan.json" d ≡ ok p)
        × (Dict.get "path_a_map" d.checkpoints ≡ none)
        × (Dict.get "path_b_outline" d.checkpoints ≡ none)
        × (Dict.get "pursuit_plan" d.checkpoints ≡ none)
        × ((k : Payload) × (Dict.get "gate_2" d.checkpoints ≡ some k)
            × (k.decision ≡ "rejected")
            × (k.actor ≡ r.actor)
            × (k.notes ≡ text_or r.notes ""))
        × (Dict.get "plan.frozen.json" d.files ≡ Dict.get "plan.frozen.json" s.dir.files)
  approve_gate2_reopens r s g p at kills lines goes reads h rejected =
      let d = (approve_gate2 c py edit_sections r s).1.dir in
      let (same, v) = decision-Settled r s g p at false kills lines goes h in
      let status : p.status ≡ some (status_of r.decision) =
        subst (Stamped c py edit_sections r) goes (decide-Stamped c py edit_sections r s.dir) in
      let no : is_approving r.decision ≡ false = ap is_approving rejected in
      let gone = v.cleared no in
      (
        status ∙ ap (λ x. some (status_of x)) rejected,
        read_plan p d v.plan_text v.inside reads,
        gone.0,
        gone.1,
        gone.2,
        (_, v.recorded, rejected, refl, ap (λ b. if b then "" else text_or r.notes "") no),
        v.untouched no,
      )

  refusal-again :
      (r : Request) (at : String) (w : ℕ)
      → refusal c py edit_sections r ≡ none
      → py.is_iso at ≡ true
      → refusal c py edit_sections (resubmitted at w r) ≡ none
  unfolding refusal
  refusal-again r at w fine iso = ground arith

  refusal-fine :
      (r : Request) (s : State) (g : Gate2Result)
      → (approve_gate2 c py edit_sections r s).0 ≡ ok g
      → refusal c py edit_sections r ≡ none
  unfolding approve_gate2
  refusal-fine r s g h = elim (Option-cases (refusal c py edit_sections r)) [
    | inl fine ↦ fine
    | inr (e, bad) ↦
        let stops : raise e ≡ ok g =
          ap (λ x. (carry_out c py edit_sections r x s).0)
            (sym (decide-bad c py edit_sections r s.dir e bad))
          ∙ h in
        absurd (ground (arith, stops))
  ]

  -- On the plan that a decision left, the same request is answered from the checkpoint.
  decide-recorded :
      (r : Request) (p : Plan) (at when : String) (w : ℕ) (kills : List Kill) (before d : Dir)
      → refusal c py edit_sections (resubmitted when w r) ≡ none
      → c.loads (c.dumps p) ≡ some p
      → Settled c py edit_sections r p at kills before d
      → (a : Gate2Result) × (decide c py edit_sections (resubmitted when w r) d ≡ converges a)
        × (a.converged ≡ true)
        × (a.plan_sha256 ≡ some (sha_of c py edit_sections p))
  unfolding same_request file_sha256
  decide-recorded r p at when w kills before d fine reads v =
      let q = resubmitted when w r in
      (
        record {
          decision = r.decision;
          frozen = not (is_absent (Dict.get "plan.frozen.json" d.files));
          plan_sha256 = some (sha_of c py edit_sections p);
          converged = true;
        },
        decide-fine c py edit_sections q d fine
            ∙ ap (λ x. decide_plan c py edit_sections q x d)
                (read_plan p d v.plan_text v.inside reads)
            ∙ ap (λ k. decide_prior c py edit_sections q p k d) v.recorded
            ∙ rw
                (
                  eq_refl r.decision,
                  eq_refl r.actor,
                  eq_refl (digest c py edit_sections r),
                  v.plan_text,
                  eq_refl (sha_of c py edit_sections p),
                )
                refl,
        refl,
        refl,
      )

  -- A decision at Gate 2, approval or rejection, is made once: when it goes through with a plan and
  -- returns, the same request, submitted again with any clock that is a date and any wait, returns
  -- converged with the digest of that plan, and writes nothing and logs nothing, provided that the
  -- text of the plan parses to it.
  pub approve_gate2_converges :
      (r : Request) (s : State) (g : Gate2Result) (p : Plan) (when : String) (st : Bool)
      (kills : List Kill) (lines : List GapLine) (at : String) (w : ℕ)
      → Makes r s p when st kills lines
      → c.loads (c.dumps p) ≡ some p
      → (approve_gate2 c py edit_sections r s).0 ≡ ok g
      → py.is_iso at ≡ true
      → let left = (approve_gate2 c py edit_sections r s).1 in
        (a : Gate2Result) × (approve_gate2 c py edit_sections (resubmitted at w r) left
          ≡ (ok a, left))
        × (a.converged ≡ true)
        × (a.plan_sha256 ≡ g.plan_sha256)
  unfolding approve_gate2
  approve_gate2_converges r s g p when st kills lines at w goes reads h iso =
      let left = (approve_gate2 c py edit_sections r s).1 in
      let (answer, v) = decision-Settled r s g p when st kills lines goes h in
      let (a, found, converged, same) =
        decide-recorded r p when at w kills s.dir left.dir
          (refusal-again r at w (refusal-fine r s g h) iso) reads v in
      (
        a,
        ap (λ e. carry_out c py edit_sections (resubmitted at w r) e left) found,
        converged,
        same ∙ ap (λ x. x.plan_sha256) answer,
      )
