-- ===== src/Strategy/Gate/Course.antt =====
-- The course of a Gate 1 decision that goes through: its effects, stopped and run again.
use rfp_engine.Prelude.Dict
use rfp_engine.Prelude.{
  ◌∙◌, sym, ap, zero, inl, inr, Option-cases, suc, arith, ◌⊎◌, refl, ◌≡◌, Bool, true, false, none,
  some, List, ℕ, [], ◌∷◌, ◌++◌, All, take, ◌≤◌,
}
use rfp_engine.Workspace.Pursuit.Types.{Codec, Dir, Payload, ok}
use rfp_engine.Workspace.Pursuit.Files.{read_artifact}
use rfp_engine.Strategy.Gate.Types.{Brief, GateLine, stage_start, stage_end, artifact, gate}
use rfp_engine.Strategy.Gate.Approve.{freezes, Effect, logs, writes, records}
use rfp_engine.Strategy.Gate.Effects.{touch, frozen_effects, sha_of}
use rfp_engine.Strategy.Gate.Replay.{
  touch_all, touch_all-replay, touch_all-keeps, touch-Held, All-take, touch_all-ok, touch_all-ended,
  Of, Alike, Held,
}
use rfp_engine.Strategy.Gate.Stop.{touch_all-stop, is_record, closing}

module _ (c : Codec Brief) where
  -- The effects before the checkpoint, and all of them.
  abbrev opening : Bool → Brief → GateLine → List Effect
  opening t b g =
      logs stage_start
      ∷ writes b
      ∷ logs (artifact "brief.json" (sha_of c b))
      ∷ frozen_effects c b t (logs (gate g) ∷ [])

  abbrev pub course : Bool → Brief → GateLine → Payload → List Effect
  course t b g p =
      logs stage_start
      ∷ writes b
      ∷ logs (artifact "brief.json" (sha_of c b))
      ∷ frozen_effects c b t (logs (gate g) ∷ records p ∷ logs stage_end ∷ [])

  opening-closing :
      (t : Bool) (b : Brief) (g : GateLine) (p : Payload)
      → opening t b g ++ closing p stage_end ≡ course t b g p
  opening-closing true b g p = refl
  opening-closing false b g p = refl

  opening-plain :
      (t : Bool) (b : Brief) (g : GateLine) → All (λ e. is_record e ≡ false) (opening t b g)
  opening-plain true b g = (refl, (refl, (refl, (refl, (refl, (refl, tt))))))
  opening-plain false b g = (refl, (refl, (refl, (refl, tt))))

  course-Of : (t : Bool) (b : Brief) (g : GateLine) (p : Payload) → All (Of b p) (course t b g p)
  course-Of true b g p = (tt, (refl, (tt, (refl, (tt, (tt, (refl, (tt, tt))))))))
  course-Of false b g p = (tt, (refl, (tt, (tt, (refl, (tt, tt))))))

  course-Alike :
      (t : Bool) (b : Brief) (g h : GateLine) (p : Payload)
      → Alike (course t b g p) (course t b h p)
  course-Alike true b g h p = (refl, (refl, (refl, (refl, (refl, (refl, (refl, (refl, tt))))))))
  course-Alike false b g h p = (refl, (refl, (refl, (refl, (refl, (refl, tt))))))

  -- Run again after a stop, with another gate line, it ends where it ends without the stop.
  pub course-replay :
      (t : Bool) (b : Brief) (g h : GateLine) (p : Payload) (n : ℕ) (d : Dir)
      → (touch_all c (course t b g p) d).0 ≡ none
      → touch_all c (course t b h p) (touch_all c (take n (course t b g p)) d).1
        ≡ (none, (touch_all c (course t b g p) d).1)
  course-replay t b g h p n d done =
      touch_all-replay c b p n (course t b g p) (course t b h p) d
        (touch_all c (take n (course t b g p)) d).1 (course-Alike t b g h p) (course-Of t b g p)
        done refl

  pub course-stop :
      (t : Bool) (b : Brief) (g : GateLine) (p : Payload) (n : ℕ) (d : Dir)
      → Dict.get "gate_1" d.checkpoints ≡ none
      → (touch_all c (course t b g p) d).0 ≡ none
      → (Dict.get "gate_1" (touch_all c (take n (course t b g p)) d).1.checkpoints ≡ none)
        ⊎ (((touch_all c (take n (course t b g p)) d).1 ≡ (touch_all c (course t b g p) d).1)
            × (Dict.get "gate_1" (touch_all c (course t b g p) d).1.checkpoints ≡ some p))
  course-stop true b g p n d absent done =
      touch_all-stop c n (opening true b g) p stage_end d (opening-plain true b g) absent done
  course-stop false b g p n d absent done =
      touch_all-stop c n (opening false b g) p stage_end d (opening-plain false b g) absent done

  -- Stopped after the brief is written, it leaves the brief on the disk.
  pub course-read :
      (t : Bool) (b : Brief) (g : GateLine) (p : Payload) (n : ℕ) (d : Dir)
      → c.loads (c.dumps b) ≡ some b
      → 2 ≤ n
      → (touch_all c (course t b g p) d).0 ≡ none
      → read_artifact c "brief.json" (touch_all c (take n (course t b g p)) d).1 ≡ ok b
  unfolding touch_all touch read_artifact
  course-read t b g p zero d reads few done = absurd (omega arith)
  course-read t b g p (suc zero) d reads few done = absurd (omega arith)
  course-read t b g p (suc (suc n)) d reads few done =
      let rest =
        logs (artifact "brief.json" (sha_of c b))
        ∷ frozen_effects c b t (logs (gate g) ∷ records p ∷ logs stage_end ∷ []) in
      elim (Option-cases (touch c (writes b) d).0) [
        | inr (r, ended) ↦ absurd (ground (arith, touch_all-ended c (writes b) rest d r ended))
        | inl first ↦
            let held : Held c (writes b) (touch_all c (writes b ∷ take n rest) d).1 =
              rw (touch_all-ok c (writes b) (take n rest) d first) (
                touch_all-keeps c b p (writes b) (take n rest) (touch c (writes b) d).1 refl
                  (All-take c (Of b p) n rest (course-Of t b g p).1.1)
                  (touch-Held c (writes b) d first)) in
            ground (arith, held.0, held.2, reads)
      ]

  -- An effect of a run that returns has its place on the disk at the end.
  touch_all-done :
      (b : Brief) (p : Payload) (e : Effect) (before after : List Effect) (d : Dir)
      → All (Of b p) (before ++ e ∷ after)
      → (touch_all c (before ++ e ∷ after) d).0 ≡ none
      → Held c e (touch_all c (before ++ e ∷ after) d).1
  touch_all-done b p e [] after d (of, ofs) done = elim (Option-cases (touch c e d).0) [
    | inr (r, ended) ↦ absurd (ground (arith, touch_all-ended c e after d r ended))
    | inl first ↦
        rw (touch_all-ok c e after d first)
          (touch_all-keeps c b p e after (touch c e d).1 of ofs (touch-Held c e d first))
  ]
  touch_all-done b p e (f ∷ before) after d (of, ofs) done = elim (Option-cases (touch c f d).0) [
    | inr (r, ended) ↦ absurd (ground (arith, touch_all-ended c f (before ++ e ∷ after) d r ended))
    | inl first ↦
        let onward = touch_all-ok c f (before ++ e ∷ after) d first in
        rw onward (
          touch_all-done b p e before after (touch c f d).1 ofs (ap (λ w. w.0) (sym onward) ∙ done))
  ]

  -- What an approval leaves: the frozen text and the checkpoint.
  pub course-frozen :
      (b : Brief) (g : GateLine) (p : Payload) (d : Dir)
      → (touch_all c (course true b g p) d).0 ≡ none
      → (Dict.get "brief.frozen.json" (touch_all c (course true b g p) d).1.files
          ≡ some (c.dumps b))
        × (Dict.get "gate_1" (touch_all c (course true b g p) d).1.checkpoints ≡ some p)
        × (Dict.get "brief.json" (touch_all c (course true b g p) d).1.files ≡ some (c.dumps b))
  course-frozen b g p d done =
      let wrote = logs stage_start ∷ [] in
      let froze = wrote ++ writes b ∷ logs (artifact "brief.json" (sha_of c b)) ∷ [] in
      let closed =
        froze
        ++ freezes b ∷ logs (artifact "brief.frozen.json" (sha_of c b)) ∷ logs (gate g) ∷ [] in
      let ofs = course-Of true b g p in
      (
        (touch_all-done b p (freezes b) froze
            (logs (artifact "brief.frozen.json" (sha_of c b))
              ∷ logs (gate g)
              ∷ records p
              ∷ logs stage_end
              ∷ [])
            d ofs done).0,
        touch_all-done b p (records p) closed (logs stage_end ∷ []) d ofs done,
        (touch_all-done b p (writes b) wrote
            (logs (artifact "brief.json" (sha_of c b))
              ∷ freezes b
              ∷ logs (artifact "brief.frozen.json" (sha_of c b))
              ∷ logs (gate g)
              ∷ records p
              ∷ logs stage_end
              ∷ [])
            d ofs done).0,
      )
