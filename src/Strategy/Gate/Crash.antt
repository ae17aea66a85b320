-- ===== src/Strategy/Gate/Crash.antt =====
-- Gate 1 after a crash: the same decision once more, at another clock.
use rfp_engine.Prelude.Dict
use rfp_engine.Prelude.{
  inr, inl, sym, arith, ◌∙◌, refl, ap, ◌≡◌, Bool, true, false, none, some, Option, String, List, ℕ,
  take, ◌≤◌,
}
use rfp_engine.Workspace.Pursuit.Types.{Raised, Codec, Dir, Result, ok, raise}
use rfp_engine.Workspace.Pursuit.Files.{read_artifact}
use rfp_engine.Strategy.Gate.Types.{resubmitted, Python, Brief, Request, GateResult, Candidate}
use rfp_engine.Strategy.Gate.Approve.{
  decide, Effect, State, Decided, stamp, converges, proceeds, is_approving, decide_prior, refusal,
}
use rfp_engine.Strategy.Gate.Effects.{
  effects_of, perform_all, approve_gate1, crashed, payload, returned, gate_line, sha_of,
}
use rfp_engine.Strategy.Gate.Replay.{touch_all, perform_all-touch}
use rfp_engine.Strategy.Gate.Course.{course, course-stop, course-read, course-replay}
use rfp_engine.Strategy.Gate.Resume.{
  edited_by, decide-pending, decide_open-stamped, decide_prior-recorded, refusal-again, decide-read,
  returned-ok, recorded,
}

module _ (c : Codec Brief) (py : Python) where
  abbrev pub runs : Request → Decided → State → Option Raised × State
  runs r e s = perform_all c (effects_of c py r e) s

  abbrev pub yields : Request → Decided → Option Raised → Result GateResult
  yields r e ended = returned c py r e ended

  -- The course of a decision on a brief.
  abbrev course_of : Request → Request → Brief → List Effect
  course_of r q b = course c (is_approving r.decision) b (gate_line c q) (payload c py r b r.at)

  pub approve-found :
      (r : Request) (s : State) (e : Decided)
      → decide c py r s.dir ≡ e
      → approve_gate1 c py r s ≡ (yields r e (runs r e s).0, (runs r e s).1)
  unfolding approve_gate1
  approve-found r s e found = ap (λ x. (yields r x (runs r x s).0, (runs r x s).1)) found

  crashed-found :
      (n : ℕ) (r : Request) (s : State) (e : Decided)
      → decide c py r s.dir ≡ e
      → crashed c py n r s ≡ (perform_all c (take n (effects_of c py r e)) s).1
  unfolding crashed
  crashed-found n r s e found = ap (λ x. (perform_all c (take n (effects_of c py r x)) s).1) found

  stamp-candidates :
      (r : Request) (b : Brief) (cs : List Candidate)
      → (xs : List Candidate) × ((stamp c py r b cs).candidates ≡ some xs)
  unfolding stamp
  stamp-candidates r b cs = (_, refl)

  -- What a resubmission gives: the directory of the run that was not stopped, and its brief.
  abbrev pub ConvergesTo :
      Result GateResult × State → Result GateResult × State → GateResult → Type 0
  ConvergesTo resumed whole g =
      (resumed.1.dir ≡ whole.1.dir)
      × ((x : GateResult) × (resumed.0 ≡ ok x)
          × (x.brief_sha256 ≡ g.brief_sha256)
          × (x.converged ≡ true))

  yields-sha :
      (r : Request) (b : Brief) (at : String) (st : Bool) (ended : Option Raised) (g : GateResult)
      → yields r (proceeds b at st) ended ≡ ok g
      → some (sha_of c b) ≡ g.brief_sha256
  yields-sha r b at st none g h = ap (λ y. elim y [ ok x ↦ x.brief_sha256 | raise e ↦ none ]) h
  yields-sha r b at st (some e) g h = absurd (ground arith)

  abbrev Ends : Request → State → Brief → Dir → Type 0
  Ends q s b last =
      ((approve_gate1 c py q s).1.dir ≡ last)
      × ((x : GateResult) × ((approve_gate1 c py q s).0 ≡ ok x)
          × (x.brief_sha256 ≡ some (sha_of c b))
          × (x.converged ≡ true))

  -- No checkpoint yet: the stamp is completed.
  completes :
      (r : Request) (b : Brief) (cs : List Candidate) (s : State) (at : String) (w : ℕ) (last : Dir)
      → refusal c py (resubmitted at w r) ≡ none
      → read_artifact c "brief.json" s.dir ≡ ok (stamp c py r b cs)
      → Dict.get "gate_1" s.dir.checkpoints ≡ none
      → touch_all c (course_of r (resubmitted at w r) (stamp c py r b cs)) s.dir ≡ (none, last)
      → Ends (resubmitted at w r) s (stamp c py r b cs) last
  unfolding effects_of
  completes r b cs s at w last fine there absent ends =
      let q = resubmitted at w r in
      let (xs, has) = stamp-candidates r b cs in
      let resumed = proceeds (stamp c py r b cs) r.at true in
      let found : decide c py q s.dir ≡ resumed =
        decide-read c py q s.dir (stamp c py r b cs) xs fine there has
        ∙ ap (λ p. decide_prior c py q (stamp c py r b cs) xs p s.dir) absent
        ∙ decide_open-stamped c py r b cs xs at w in
      let walk = perform_all-touch c (course_of r q (stamp c py r b cs)) s in
      (
        ap (λ x. x.1.dir) (approve-found q s resumed found) ∙ walk.1 ∙ ap (λ x. x.1) ends,
        (
          _,
          ap (λ x. x.0) (approve-found q s resumed found)
              ∙ ap (yields q resumed) (walk.0 ∙ ap (λ x. x.0) ends),
          refl,
          refl,
        ),
      )

  -- The checkpoint is there: it is answered from the record.
  answers :
      (r : Request) (b : Brief) (cs : List Candidate) (s : State) (at : String) (w : ℕ)
      → refusal c py (resubmitted at w r) ≡ none
      → read_artifact c "brief.json" s.dir ≡ ok (stamp c py r b cs)
      → Dict.get "gate_1" s.dir.checkpoints ≡ some (payload c py r (stamp c py r b cs) r.at)
      → Ends (resubmitted at w r) s (stamp c py r b cs) s.dir
  unfolding effects_of perform_all
  answers r b cs s at w fine there kept =
      let q = resubmitted at w r in
      let (xs, has) = stamp-candidates r b cs in
      let answer = converges (recorded c py r (stamp c py r b cs) s.dir) in
      let found : decide c py q s.dir ≡ answer =
        decide-read c py q s.dir (stamp c py r b cs) xs fine there has
        ∙ ap (λ p. decide_prior c py q (stamp c py r b cs) xs p s.dir) kept
        ∙ decide_prior-recorded c py r (stamp c py r b cs) (stamp c py r b cs) xs s.dir at w in
      (
        ap (λ x. x.1.dir) (approve-found q s answer found),
        (_, ap (λ x. x.0) (approve-found q s answer found), refl, refl),
      )

  -- Wherever the stop was, the resubmission ends where the course ends.
  settles :
      (r : Request) (b : Brief) (cs : List Candidate) (v : State) (d : Dir) (at : String) (w n : ℕ)
      → refusal c py (resubmitted at w r) ≡ none
      → Dict.get "gate_1" d.checkpoints ≡ none
      → c.loads (c.dumps (stamp c py r b cs)) ≡ some (stamp c py r b cs)
      → 2 ≤ n
      → (touch_all c (course_of r r (stamp c py r b cs)) d).0 ≡ none
      → v.dir ≡ (touch_all c (take n (course_of r r (stamp c py r b cs))) d).1
      → Ends
          (resubmitted at w r)
          v
          (stamp c py r b cs)
          (touch_all c (course_of r r (stamp c py r b cs)) d).1
  settles r b cs v d at w n fine absent reads late done left =
      let t = is_approving r.decision in
      let out = stamp c py r b cs in
      let p = payload c py r out r.at in
      let there : read_artifact c "brief.json" v.dir ≡ ok out =
        ap (read_artifact c "brief.json") left
        ∙ course-read c t out (gate_line c r) p n d reads late done in
      elim (course-stop c t out (gate_line c r) p n d absent done) [
        | inl open_yet ↦
            completes r b cs v at w (touch_all c (course_of r r out) d).1 fine there
              (ap (λ x. Dict.get "gate_1" x.checkpoints) left ∙ open_yet)
              (ap (touch_all c (course_of r (resubmitted at w r) out)) left
                ∙ course-replay c t out (gate_line c r) (gate_line c (resubmitted at w r)) p n d
                    done)
        | inr (same, kept) ↦
            let answer =
              answers r b cs v at w fine there
                (ap (λ x. Dict.get "gate_1" x.checkpoints) (left ∙ same) ∙ kept) in
            (answer.0 ∙ left ∙ same, answer.1)
      ]

  -- A crash anywhere after Gate 1 wrote the brief loses nothing and decides nothing anew. On a brief
  -- that is pending and has no checkpoint, when a decision would have returned and the text of the
  -- brief as it stamps it parses to it, the same decision, actor, notes and edits, submitted again
  -- with any clock that is a date and any wait, return too, marked converged and with the same digest
  -- of the brief, and leave the directory (the brief, the freeze and the checkpoint) as the run
  -- without the crash does, with the clock of the first submission.
  pub approve_gate1_resumes :
      (r : Request) (s : State) (b : Brief) (cs out : List Candidate) (g : GateResult) (at : String)
      (w n : ℕ)
      → Dict.get "gate_1" s.dir.checkpoints ≡ none
      → read_artifact c "brief.json" s.dir ≡ ok b
      → b.status ≡ some "gate1_pending"
      → b.candidates ≡ some cs
      → edited_by c py r cs ≡ ok out
      → c.loads (c.dumps (stamp c py r b out)) ≡ some (stamp c py r b out)
      → (approve_gate1 c py r s).0 ≡ ok g
      → py.is_iso at ≡ true
      → 2 ≤ n
      → ConvergesTo
          (approve_gate1 c py (resubmitted at w r) (crashed c py n r s))
          (approve_gate1 c py r s)
          g
  unfolding effects_of
  approve_gate1_resumes r s b cs out g at w n absent there pending has fits reads returns iso late =
      let (fine, found) =
        decide-pending c py r s.dir b cs out g (runs r (decide c py r s.dir) s).0 absent there
          pending has fits
          (ap (λ x. x.0) (sym (approve-found r s (decide c py r s.dir) refl)) ∙ returns) in
      let decided = proceeds (stamp c py r b out) r.at false in
      let stopped = crashed c py n r s in
      let whole = approve-found r s decided found in
      let yielded : yields r decided (runs r decided s).0 ≡ ok g =
        ap (λ x. x.0) (sym whole) ∙ returns in
      let walk = perform_all-touch c (course_of r r (stamp c py r b out)) s in
      let done : (touch_all c (course_of r r (stamp c py r b out)) s.dir).0 ≡ none =
        sym walk.0 ∙ returned-ok c py r decided s g yielded in
      let left : stopped.dir ≡ (touch_all c (take n (course_of r r (stamp c py r b out))) s.dir).1 =
        ap (λ x. x.dir) (crashed-found n r s decided found)
        ∙ (perform_all-touch c (take n (course_of r r (stamp c py r b out))) s).1 in
      let ends =
        settles r b out stopped s.dir at w n (refusal-again c py r at w fine iso) absent reads late
          done left in
      (
        ends.0 ∙ sym walk.1 ∙ sym (ap (λ x. x.1.dir) whole),
        (
          ends.1.0,
          ends.1.1,
          ends.1.2 ∙ yields-sha r (stamp c py r b out) r.at false (runs r decided s).0 g yielded,
          ends.1.3,
        ),
      )
