-- ===== src/Strategy/Gate/Freeze.antt =====
-- What an approval at Gate 1 leaves for the readers of the frozen brief.
use rfp_engine.Prelude.Dict
use rfp_engine.Prelude.{if◌then◌else◌, refl, ◌∙◌, sym, ap, ◌≡◌, true, false, none, some, List}
use rfp_engine.Workspace.Pursuit.Types.{Codec, ok, bid_brief}
use rfp_engine.Workspace.Pursuit.Files.{vouched, read_artifact, read_frozen}
use rfp_engine.Workspace.Pursuit.Read.{read_frozen_verified}
use rfp_engine.Strategy.Gate.Types.{Python, Brief, Request, GateResult, Candidate}
use rfp_engine.Strategy.Gate.Approve.{stamp, decide, State, proceeds, is_approving}
use rfp_engine.Strategy.Gate.Effects.{approve_gate1, effects_of, payload, gate_line, sha_of}
use rfp_engine.Strategy.Gate.Replay.{touch_all, perform_all-touch}
use rfp_engine.Strategy.Gate.Course.{course, course-frozen}
use rfp_engine.Strategy.Gate.Resume.{decide-pending, edited_by, returned-ok}
use rfp_engine.Strategy.Gate.Crash.{runs, approve-found}

module _ (c : Codec Brief) (py : Python) where
  -- On a brief that is pending and has no checkpoint, an approval that returns leaves one text in the
  -- brief and in its frozen copy, and the verified read of the frozen brief gives the brief as the
  -- gate stamped it, provided that its text parses to it.
  pub approve_gate1_freezes :
      (r : Request) (s : State) (b : Brief) (cs out : List Candidate) (g : GateResult)
      → Dict.get "gate_1" s.dir.checkpoints ≡ none
      → read_artifact c "brief.json" s.dir ≡ ok b
      → b.status ≡ some "gate1_pending"
      → b.candidates ≡ some cs
      → edited_by c py r cs ≡ ok out
      → c.loads (c.dumps (stamp c py r b out)) ≡ some (stamp c py r b out)
      → (approve_gate1 c py r s).0 ≡ ok g
      → is_approving r.decision ≡ true
      → (read_frozen c bid_brief (approve_gate1 c py r s).1.dir ≡ ok (stamp c py r b out))
        × (Dict.get "brief.frozen.json" (approve_gate1 c py r s).1.dir.files
            ≡ Dict.get "brief.json" (approve_gate1 c py r s).1.dir.files)
  unfolding effects_of
  approve_gate1_freezes r s b cs out g absent there pending has fits reads returns approving =
      let (fine, found) =
        decide-pending c py r s.dir b cs out g (runs c py r (decide c py r s.dir) s).0 absent there
          pending has fits
          (ap (λ x. x.0) (sym (approve-found c py r s (decide c py r s.dir) refl)) ∙ returns) in
      let decided = proceeds (stamp c py r b out) r.at false in
      let whole = approve-found c py r s decided found in
      let p = payload c py r (stamp c py r b out) r.at in
      let walk =
        perform_all-touch c
          (course c (is_approving r.decision) (stamp c py r b out) (gate_line c r) p) s in
      let done =
        sym walk.0 ∙ returned-ok c py r decided s g (ap (λ x. x.0) (sym whole) ∙ returns) in
      let approved = ap (λ t. course c t (stamp c py r b out) (gate_line c r) p) approving in
      let left =
        course-frozen c (stamp c py r b out) (gate_line c r) p s.dir
          (ap (λ es. (touch_all c es s.dir).0) (sym approved) ∙ done) in
      let last : (approve_gate1 c py r s).1.dir
          ≡ (touch_all c (course c true (stamp c py r b out) (gate_line c r) p) s.dir).1 =
        ap (λ x. x.1.dir) whole ∙ walk.1 ∙ ap (λ es. (touch_all c es s.dir).1) approved in
      let frozen = ap (λ d. Dict.get "brief.frozen.json" d.files) last ∙ left.0 in
      let sealed = ap (λ t. if t then some (sha_of c (stamp c py r b out)) else none) approving in
      (
        (read_frozen_verified c bid_brief (stamp c py r b out) (approve_gate1 c py r s).1.dir).1 (
          c.dumps (stamp c py r b out),
          frozen,
          ap (λ d. vouched c (Dict.get "gate_1" d.checkpoints)) last
              ∙ ap (vouched c) left.1
              ∙ sealed,
          reads,
        ),
        frozen ∙ sym left.2 ∙ sym (ap (λ d. Dict.get "brief.json" d.files) last),
      )
