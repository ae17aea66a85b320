-- ===== src/Workspace/Pursuit/Read.antt =====
-- What `read_frozen` of engine/workspace/pursuit.py returns.
use rfp_engine.Prelude.Dict
use rfp_engine.Prelude.{
  refl, ap, str_eq, Bool-cases, Option, inr, inl, Option-cases, ◌↔◌, some, none, arith, eq_iff, ◌≡◌,
  String,
}
use rfp_engine.Workspace.Pursuit.Types.{Dir, frozen_file, frozen_gate, Codec, Kind, ok}
use rfp_engine.Workspace.Pursuit.Files.{frozen_text, read_frozen, vouched}

module _ {Obj : Type 0} (c : Codec Obj) where
  -- The bytes on disk, the digest that the gate's checkpoint carries, and what they parse to.
  abbrev pub Vouched : Kind → Obj → Dir → Type 0
  Vouched k obj d =
      (text : String) × (Dict.get (frozen_file k) d.files ≡ some text)
      × (vouched c (Dict.get (frozen_gate k) d.checkpoints) ≡ some (c.sha256 text))
      × (c.loads text ≡ some obj)

  frozen_text-ok :
      (there recorded : Option String) (obj : Obj)
      → (frozen_text c there recorded ≡ ok obj) ↔ (
          (text : String) × (there ≡ some text)
          × (recorded ≡ some (c.sha256 text))
          × (c.loads text ≡ some obj))
  frozen_text-ok none recorded obj =
      (λ h. absurd (ground (arith, h)), λ (text, there, same, read). absurd (ground arith))
  frozen_text-ok (some text) none obj =
      (λ h. absurd (ground (arith, h)), λ (t, there, same, read). absurd (ground arith))
  frozen_text-ok (some text) (some sha) obj = (
    λ h. elim (Bool-cases (str_eq sha (c.sha256 text))) [
      | inl same ↦ elim (Option-cases (c.loads text)) [
        | inl torn ↦ absurd (ground arith)
        | inr (o, read) ↦ (text, refl, ap some ((eq_iff sha (c.sha256 text)).0 same), ground arith)
      ]
      | inr apart ↦ absurd (ground arith)
    ],
    λ (t, there, same, read). ground (arith, eq_iff sha (c.sha256 text)),
  )

  -- A read succeeds exactly when the frozen file is there, the checkpoint of its gate carries the
  -- digest of its bytes, and they parse to what is returned: a freeze that nobody vouched for and
  -- one that was modified after the gate are refused.
  pub read_frozen_verified :
      (k : Kind) (obj : Obj) (d : Dir) → (read_frozen c k d ≡ ok obj) ↔ Vouched k obj d
  unfolding read_frozen
  read_frozen_verified k obj d =
      frozen_text-ok (Dict.get (frozen_file k) d.files)
        (vouched c (Dict.get (frozen_gate k) d.checkpoints)) obj
