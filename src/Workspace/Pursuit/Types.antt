-- ===== src/Workspace/Pursuit/Types.antt =====
-- The directory of a pursuit, and what its code takes from Python and from the schemas.
use rfp_engine.Prelude.Dict
use rfp_engine.Prelude.{ap, refl, inr, inl, ◌⊎◌, ◌≡◌, Bool, List, Option, String}

-- The artifact kinds that a gate freezes.
pub data Kind : Type 0 where
  bid_brief pursuit_plan : Kind

-- ARTIFACT_FILES
abbrev pub artifact_file : Kind → String
artifact_file bid_brief = "brief.json"
artifact_file pursuit_plan = "plan.json"

-- FROZEN_FILES
abbrev pub frozen_file : Kind → String
frozen_file bid_brief = "brief.frozen.json"
frozen_file pursuit_plan = "plan.frozen.json"

-- FROZEN_GATES
abbrev pub frozen_gate : Kind → String
frozen_gate bid_brief = "gate_1"
frozen_gate pursuit_plan = "gate_2"

-- The keys of a checkpoint's payload that the gates write and read.
pub record Payload : Type 0 where
  pub decision : String
  pub actor : String
  pub at : String
  pub notes : String
  pub artifact_sha256 : Option String
  pub frozen_sha256 : Option String
  pub request_sha256 : Option String
  pub section_kills : List String

-- The files by their names below the root, and the payloads under checkpoints/ by stage.
pub record Dir : Type 0 where
  pub files : Dict.Dict String
  pub checkpoints : Dict.Dict Payload

pub data Raised : Type 0 where
  contract_error file_not_found decode_error value_error : Raised

pub data Result {ℓ} (A : Type ℓ) : Type ℓ where
  ok : A → Result A
  raise : Raised → Result A

-- `_serialize` and `json.loads`, the digest, the schema of a kind, and whether a name resolves
-- below the root.
pub record Codec (Obj : Type 0) : Type 0 where
  pub dumps : Obj → String
  pub loads : String → Option Obj
  pub sha256 : String → String
  pub validate : String → Obj → Bool
  pub is_inside : String → Bool

pub Result-cases {ℓ} :
    {A : Type ℓ} (x : Result A) → ((e : Raised) × (x ≡ raise e)) ⊎ ((a : A) × (x ≡ ok a))
Result-cases (raise e) = inl (e, refl)
Result-cases (ok a) = inr (a, refl)

pub ok-injective {ℓ} : {A : Type ℓ} (x y : A) → ok x ≡ ok y → x ≡ y
ok-injective x y h = ap (λ r. elim r [ ok z ↦ z | raise e ↦ x ]) h
