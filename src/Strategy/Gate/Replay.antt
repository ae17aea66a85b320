-- ===== src/Strategy/Gate/Replay.antt =====
-- The effects of Gate 1 on the directory, run again after a crash: what was done is left as it is.
use rfp_engine.Prelude.Dict
use rfp_engine.Prelude.{
  zero, suc, sym, ◌∙◌, ap, eq_iff, eq_refl, inr, inl, arith, Bool-cases, Option-cases, refl, ◌≡◌,
  true, none, some, Option, List, ℕ, [], ◌∷◌, All, take,
}
use rfp_engine.Workspace.Pursuit.Types.{Codec, Dir, Payload, Raised}
use rfp_engine.Workspace.Pursuit.Files.{write_artifact, freeze_artifact, checkpoint, is_frozen_name}
use rfp_engine.Strategy.Gate.Types.{stage_start, Brief}
use rfp_engine.Strategy.Gate.Approve.{Effect, State, logs, writes, freezes, records}
use rfp_engine.Strategy.Gate.Effects.{touch, perform, perform_all}

-- An effect of a run that handles one brief and one checkpoint.
abbrev pub Of : Brief → Payload → Effect → Type 0
Of b p (logs l) = Unit {0}
Of b p (writes a) = a ≡ b
Of b p (freezes a) = a ≡ b
Of b p (records q) = q ≡ p

-- A log line touches no directory, whatever it says.
abbrev pub quiet : Effect → Effect
quiet (logs l) = logs stage_start
quiet e = e

-- The same effects, whatever the log lines say.
abbrev pub Alike : List Effect → List Effect → Type 0
Alike [] [] = Unit {0}
Alike (e ∷ es) (f ∷ fs) = (quiet e ≡ quiet f) × Alike es fs
Alike _ _ = ⊥

module _ (c : Codec Brief) where
  unfoldable pub touch_all : List Effect → Dir → Option Raised × Dir
  unfolding touch
  touch_all [] d = (none, d)
  touch_all (e ∷ es) d =
      let rest = touch_all es (touch c e d).1 in
      elim (touch c e d).0 [ some r ↦ (some r, (touch c e d).1) | none ↦ rest ]

  pub perform_all-touch :
      (es : List Effect) (s : State)
      → ((perform_all c es s).0 ≡ (touch_all es s.dir).0)
        × ((perform_all c es s).1.dir ≡ (touch_all es s.dir).1)
  unfolding perform_all perform touch_all
  perform_all-touch [] s = (refl, refl)
  perform_all-touch (e ∷ es) s = elim (Option-cases (touch c e s.dir).0) [
    | inl done ↦ ground (arith, perform_all-touch es (perform c e s).1)
    | inr (r, ended) ↦ ground arith
  ]

  -- What an effect that returned leaves on the disk.
  abbrev pub Held : Effect → Dir → Type 0
  Held (logs l) d = Unit {0}
  Held (writes b) d =
      (Dict.get "brief.json" d.files ≡ some (c.dumps b))
      × (c.validate "bid_brief" b ≡ true)
      × (c.is_inside "brief.json" ≡ true)
  Held (freezes b) d =
      (Dict.get "brief.frozen.json" d.files ≡ some (c.dumps b)) × (c.validate "bid_brief" b ≡ true)
  Held (records p) d = Dict.get "gate_1" d.checkpoints ≡ some p

  pub touch-Held : (e : Effect) (d : Dir) → (touch c e d).0 ≡ none → Held e (touch c e d).1
  unfolding touch write_artifact freeze_artifact checkpoint is_frozen_name
  touch-Held (logs l) d h = tt
  touch-Held (writes b) d h = elim (Bool-cases (c.validate "bid_brief" b)) [
    | inr bad ↦ absurd (ground arith)
    | inl valid ↦ elim (Bool-cases (c.is_inside "brief.json")) [
      | inr bad ↦ absurd (ground arith)
      | inl inside ↦
          (ground (arith, Dict.get-put_here "brief.json" (c.dumps b) d.files), valid, inside)
    ]
  ]
  touch-Held (freezes b) d h = elim (Bool-cases (c.validate "bid_brief" b)) [
    | inr bad ↦ absurd (ground arith)
    | inl valid ↦ elim (Option-cases (Dict.get "brief.frozen.json" d.files)) [
      | inl gone ↦
          (ground (arith, Dict.get-put_here "brief.frozen.json" (c.dumps b) d.files), valid)
      | inr (text, there) ↦ (ground (arith, eq_iff text (c.dumps b)), valid)
    ]
  ]
  touch-Held (records p) d h = Dict.get-put_here "gate_1" p d.checkpoints

  touch-again : (e : Effect) (d : Dir) → Held e d → touch c e d ≡ (none, d)
  unfolding touch write_artifact freeze_artifact checkpoint is_frozen_name
  touch-again (logs l) d h = refl
  touch-again (writes b) d (there, valid, inside) =
      rw (valid, inside) (ground (arith, Dict.put-same "brief.json" (c.dumps b) d.files there))
  touch-again (freezes b) d (there, valid) = rw (valid, there) (ground (arith, eq_refl (c.dumps b)))
  touch-again (records p) d h = ground (arith, Dict.put-same "gate_1" p d.checkpoints h)

  touch-keeps :
      (b : Brief) (p : Payload) (e f : Effect) (d : Dir)
      → Of b p e
      → Of b p f
      → Held e d
      → Held e (touch c f d).1
  unfolding touch write_artifact freeze_artifact checkpoint is_frozen_name
  touch-keeps b p (logs l) f d oe of held = tt
  touch-keeps b p e (logs l) d oe of held = held
  touch-keeps b p (writes a) (writes g) d oe of held = (
    ground (arith, Dict.get-put_here "brief.json" (c.dumps g) d.files, ap c.dumps (of ∙ sym oe)),
    held.1,
    held.2,
  )
  touch-keeps b p (writes a) (freezes g) d oe of held = (
    ground (arith, Dict.get-put "brief.frozen.json" "brief.json" (c.dumps g) d.files),
    held.1,
    held.2,
  )
  touch-keeps b p (freezes a) (writes g) d oe of held =
      (ground (arith, Dict.get-put "brief.json" "brief.frozen.json" (c.dumps g) d.files), held.1)
  touch-keeps b p (freezes a) (freezes g) d oe of held =
      (ground (arith, held.0, Dict.get-put_here "brief.frozen.json" (c.dumps g) d.files), held.1)
  touch-keeps b p (writes a) (records g) d oe of held = held
  touch-keeps b p (freezes a) (records g) d oe of held = held
  touch-keeps b p (records a) (writes g) d oe of held = ground arith
  touch-keeps b p (records a) (freezes g) d oe of held = ground arith
  touch-keeps b p (records a) (records g) d oe of held =
      Dict.get-put_here "gate_1" g d.checkpoints ∙ ap some (of ∙ sym oe)

  pub touch_all-ok :
      (e : Effect) (es : List Effect) (d : Dir)
      → (touch c e d).0 ≡ none
      → touch_all (e ∷ es) d ≡ touch_all es (touch c e d).1
  unfolding touch_all
  touch_all-ok e es d done = rw (touch_all, done) refl

  pub touch_all-ended :
      (e : Effect) (es : List Effect) (d : Dir) (r : Raised)
      → (touch c e d).0 ≡ some r
      → touch_all (e ∷ es) d ≡ (some r, (touch c e d).1)
  unfolding touch_all
  touch_all-ended e es d r ended = rw (touch_all, ended) refl

  -- What was done stays done while other effects run.
  pub touch_all-keeps :
      (b : Brief) (p : Payload) (e : Effect) (fs : List Effect) (d : Dir)
      → Of b p e
      → All (Of b p) fs
      → Held e d
      → Held e (touch_all fs d).1
  unfolding touch_all
  touch_all-keeps b p e [] d oe ofs held = held
  touch_all-keeps b p e (f ∷ fs) d oe (of, ofs) held =
      let now = touch-keeps b p e f d oe of held in
      elim (Option-cases (touch c f d).0) [
        | inl done ↦
            rw (touch_all-ok f fs d done) (touch_all-keeps b p e fs (touch c f d).1 oe ofs now)
        | inr (r, ended) ↦ rw (touch_all-ended f fs d r ended) now
      ]

  touch-quiet : (e : Effect) (d : Dir) → touch c (quiet e) d ≡ touch c e d
  unfolding touch
  touch-quiet (logs l) d = refl
  touch-quiet (writes b) d = refl
  touch-quiet (freezes b) d = refl
  touch-quiet (records p) d = refl

  touch-alike : (e f : Effect) (d : Dir) → quiet e ≡ quiet f → touch c f d ≡ touch c e d
  touch-alike e f d same =
      sym (touch-quiet f d) ∙ ap (λ x. touch c x d) (sym same) ∙ touch-quiet e d

  pub All-take : {A : Type 0} (P : A → Type 0) (n : ℕ) (xs : List A) → All P xs → All P (take n xs)
  All-take P zero xs h = tt
  All-take P (suc n) [] h = tt
  All-take P (suc n) (x ∷ xs) (h, hs) = (h, All-take P n xs hs)

  touch_all-Alike : (es fs : List Effect) (d : Dir) → Alike es fs → touch_all fs d ≡ touch_all es d
  unfolding touch_all
  touch_all-Alike [] [] d h = refl
  touch_all-Alike [] (f ∷ fs) d h = elim h [ ]
  touch_all-Alike (e ∷ es) [] d h = elim h [ ]
  touch_all-Alike (e ∷ es) (f ∷ fs) d (same, rest) =
      let alike = touch-alike e f d same in
      elim (Option-cases (touch c e d).0) [
        | inl first ↦
            touch_all-ok f fs d (ap (λ w. w.0) alike ∙ first)
            ∙ ap (λ w. touch_all fs w.1) alike
            ∙ touch_all-Alike es fs (touch c e d).1 rest
            ∙ sym (touch_all-ok e es d first)
        | inr (r, ended) ↦
            touch_all-ended f fs d r (ap (λ w. w.0) alike ∙ ended)
            ∙ ap (λ w. (some r, w.1)) alike
            ∙ sym (touch_all-ended e es d r ended)
      ]

  -- A run that returns, stopped anywhere and then run again from the start, ends in the directory in
  -- which it ends without the stop.
  pub touch_all-replay :
      (b : Brief) (p : Payload) (n : ℕ) (es fs : List Effect) (d u : Dir)
      → Alike es fs
      → All (Of b p) es
      → (touch_all es d).0 ≡ none
      → u ≡ (touch_all (take n es) d).1
      → touch_all fs u ≡ (none, (touch_all es d).1)
  unfolding touch_all
  touch_all-replay b p zero es fs d u alike ofs done here =
      ap (touch_all fs) here ∙ touch_all-Alike es fs d alike ∙ ground arith
  touch_all-replay b p (suc n) [] [] d u alike ofs done here = ground arith
  touch_all-replay b p (suc n) [] (f ∷ fs) d u alike ofs done here = elim alike [ ]
  touch_all-replay b p (suc n) (e ∷ es) [] d u alike ofs done here = elim alike [ ]
  touch_all-replay b p (suc n) (e ∷ es) (f ∷ fs) d u (same, rest) (of, ofs) done here =
      elim (Option-cases (touch c e d).0) [
        | inr (r, ended) ↦ absurd (ground (arith, touch_all-ended e es d r ended))
        | inl first ↦
            let after = (touch c e d).1 in
            let u_is : u ≡ (touch_all (take n es) after).1 =
              here ∙ ap (λ w. w.1) (touch_all-ok e (take n es) d first) in
            let held : Held e u = rw u_is (
              touch_all-keeps b p e (take n es) after of (All-take (Of b p) n es ofs)
                (touch-Held e d first)) in
            let again : touch c f u ≡ (none, u) = touch-alike e f u same ∙ touch-again e u held in
            touch_all-ok f fs u (ap (λ w. w.0) again)
            ∙ ap (touch_all fs) (ap (λ w. w.1) again)
            ∙ touch_all-replay b p n es fs after u rest ofs
                (ap (λ w. w.0) (sym (touch_all-ok e es d first)) ∙ done) u_is
            ∙ ap (λ w. (none, w.1)) (sym (touch_all-ok e es d first))
      ]
