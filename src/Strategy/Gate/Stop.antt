-- ===== src/Strategy/Gate/Stop.antt =====
-- Where a crash of Gate 1 leaves the directory: before its checkpoint, or as the whole call does.
use rfp_engine.Prelude.Dict
use rfp_engine.Prelude.{
  some, zero, sym, ◌∙◌, ap, refl, suc, inr, inl, Option-cases, ◌⊎◌, arith, ◌≡◌, Bool, true, false,
  none, List, ℕ, [], ◌∷◌, ◌++◌, All, take,
}
use rfp_engine.Workspace.Pursuit.Types.{Codec, Dir, Payload}
use rfp_engine.Workspace.Pursuit.Files.{write_artifact, freeze_artifact, checkpoint}
use rfp_engine.Strategy.Gate.Types.{Brief, Line}
use rfp_engine.Strategy.Gate.Approve.{Effect, logs, writes, freezes, records}
use rfp_engine.Strategy.Gate.Effects.{touch}
use rfp_engine.Strategy.Gate.Replay.{touch_all, touch_all-ok, touch_all-ended}

abbrev pub is_record : Effect → Bool
is_record (records p) = true
is_record _ = false

-- The checkpoint and the line after it.
abbrev pub closing : Payload → Line → List Effect
closing p l = records p ∷ logs l ∷ []

module _ (c : Codec Brief) where
  touch-open :
      (e : Effect) (d : Dir) → is_record e ≡ false → (touch c e d).1.checkpoints ≡ d.checkpoints
  unfolding touch write_artifact freeze_artifact checkpoint
  touch-open (logs l) d h = refl
  touch-open (writes b) d h = ground arith
  touch-open (freezes b) d h = elim (Option-cases (Dict.get "brief.frozen.json" d.files)) [
    | inl gone ↦ ground arith
    | inr (text, there) ↦ ground arith
  ]
  touch-open (records p) d h = absurd (ground arith)

  pub touch_all-stop :
      (n : ℕ) (es : List Effect) (p : Payload) (l : Line) (d : Dir)
      → All (λ e. is_record e ≡ false) es
      → Dict.get "gate_1" d.checkpoints ≡ none
      → (touch_all c (es ++ closing p l) d).0 ≡ none
      → (Dict.get "gate_1" (touch_all c (take n (es ++ closing p l)) d).1.checkpoints ≡ none)
        ⊎ (((touch_all c (take n (es ++ closing p l)) d).1 ≡ (touch_all c (es ++ closing p l) d).1)
            × (Dict.get "gate_1" (touch_all c (es ++ closing p l) d).1.checkpoints ≡ some p))
  unfolding touch_all touch checkpoint
  touch_all-stop zero es p l d plain absent done = inl absent
  touch_all-stop (suc zero) [] p l d plain absent done =
      inr (refl, Dict.get-put_here "gate_1" p d.checkpoints)
  touch_all-stop (suc (suc zero)) [] p l d plain absent done =
      inr (refl, Dict.get-put_here "gate_1" p d.checkpoints)
  touch_all-stop (suc (suc (suc n))) [] p l d plain absent done =
      inr (refl, Dict.get-put_here "gate_1" p d.checkpoints)
  touch_all-stop (suc n) (e ∷ es) p l d (h, hs) absent done = elim (Option-cases (touch c e d).0) [
    | inr (r, ended) ↦ absurd (ground (arith, touch_all-ended c e (es ++ closing p l) d r ended))
    | inl first ↦
        let rest = touch_all-ok c e (es ++ closing p l) d first in
        let stopped = touch_all-ok c e (take n (es ++ closing p l)) d first in
        rw (stopped, rest)
          (touch_all-stop n es p l (touch c e d).1 hs
            (ap (Dict.get "gate_1") (touch-open e d h) ∙ absent) (ap (λ w. w.0) (sym rest) ∙ done))
  ]
