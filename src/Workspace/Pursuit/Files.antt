-- ===== src/Workspace/Pursuit/Files.antt =====
-- The operations of `PursuitDir` in engine/workspace/pursuit.py that the gates call, on the fixed
-- names that they call them with. A write is atomic: it lands whole. The writers of any other name
-- are not modelled.
use rfp_engine.Prelude.Dict
use rfp_engine.Prelude.{
  not, true, if◌then◌else◌, false, ◌||◌, some, none, str_eq, Option, Bool, String,
}
use rfp_engine.Workspace.Pursuit.Types.{
  frozen_gate, file_not_found, decode_error, contract_error, frozen_file, pursuit_plan, ok, raise,
  bid_brief, Result, Kind, Payload, Dir, Codec,
}

unfoldable pub ends_with : String → String → Bool
ends_with w String.[] = str_eq w ""
ends_with w (String.◌∷◌ c s) = let rest = ends_with w s in str_eq w (String.◌∷◌ c s) || rest

-- `_refuse_frozen_name`
unfoldable pub is_frozen_name : String → Bool
unfolding ends_with
is_frozen_name name = ends_with ".frozen.json" name

abbrev pub put_file : String → String → Dir → Dir
put_file name text d = record d { files = Dict.put name text d.files }

-- `completed_stages`, asked about one stage.
unfoldable pub is_completed : String → Dir → Bool
is_completed stage d = elim (Dict.get stage d.checkpoints) [ none ↦ false | some p ↦ true ]

-- `checkpoint`
unfoldable pub checkpoint : String → Payload → Dir → Dir
checkpoint stage p d = record d { checkpoints = Dict.put stage p d.checkpoints }

-- `clear_checkpoint`: a missing one is fine.
unfoldable pub clear_checkpoint : String → Dir → Dir
clear_checkpoint stage d = record d { checkpoints = Dict.remove stage d.checkpoints }

module _ {Obj : Type 0} (c : Codec Obj) where
  -- `write_artifact`, called without a name: the name is that of ARTIFACT_FILES.
  unfoldable pub write_artifact : String → Obj → String → Dir → Result String × Dir
  unfolding is_frozen_name
  write_artifact kind obj name d =
      if is_frozen_name name
      then (raise contract_error, d)
      else if not (c.validate kind obj)
      then (raise contract_error, d)
      else if not (c.is_inside name)
      then (raise contract_error, d)
      else (ok name, put_file name (c.dumps obj) d)

  abbrev pub parsed : Option Obj → Result Obj
  parsed none = raise decode_error
  parsed (some o) = ok o

  abbrev pub parsed_file : Option String → Result Obj
  parsed_file none = raise file_not_found
  parsed_file (some text) = parsed (c.loads text)

  -- `read_artifact` without a kind.
  unfoldable pub read_artifact : String → Dir → Result Obj
  read_artifact name d =
      if c.is_inside name then parsed_file (Dict.get name d.files) else raise contract_error

  abbrev digest_of : Option String → Option String
  digest_of none = none
  digest_of (some text) = some (c.sha256 text)

  unfoldable pub file_sha256 : String → Dir → Option String
  file_sha256 name d = digest_of (Dict.get name d.files)

  abbrev pub freeze_over : Option String → String → String → Dir → Result String × Dir
  freeze_over none name text d = (ok (c.sha256 text), put_file name text d)
  freeze_over (some there) name text d =
      if str_eq there text then (ok (c.sha256 text), d) else (raise contract_error, d)

  kind_name : Kind → String
  kind_name bid_brief = "bid_brief"
  kind_name pursuit_plan = "pursuit_plan"

  -- `freeze_artifact`: idempotent, or refused.
  unfoldable pub freeze_artifact : Kind → Obj → Dir → Result String × Dir
  unfolding kind_name
  freeze_artifact kind obj d =
      if not (c.validate (kind_name kind) obj)
      then (raise contract_error, d)
      else freeze_over (Dict.get (frozen_file kind) d.files) (frozen_file kind) (c.dumps obj) d

  abbrev pub vouched : Option Payload → Option String
  vouched none = none
  vouched (some p) = p.frozen_sha256

  abbrev pub verified : Option String → String → Result Obj
  verified none text = raise contract_error
  verified (some sha) text =
      if str_eq sha (c.sha256 text) then parsed (c.loads text) else raise contract_error

  abbrev pub frozen_text : Option String → Option String → Result Obj
  frozen_text none recorded = raise file_not_found
  frozen_text (some text) recorded = verified recorded text

  -- `read_frozen`: the bytes on disk are those that the gate's checkpoint vouches for.
  unfoldable pub read_frozen : Kind → Dir → Result Obj
  read_frozen kind d =
      frozen_text (Dict.get (frozen_file kind) d.files)
        (vouched (Dict.get (frozen_gate kind) d.checkpoints))
