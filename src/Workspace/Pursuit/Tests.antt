-- ===== src/Workspace/Pursuit/Tests.antt =====
-- Runs of the freeze door on a small directory, with a concrete serializer and digest.
use rfp_engine.Prelude.{◌↔◌, ◌∷◌, some, none, refl, ◌≡◌, true, String, Option, []}
use rfp_engine.Workspace.Pursuit.Types.{Codec, Payload, Dir, bid_brief, ok}
use rfp_engine.Workspace.Pursuit.Files.{read_frozen}
use rfp_engine.Workspace.Pursuit.Read.{Vouched, read_frozen_verified}
use rfp_engine.Workspace.Pursuit.Runs.{max_of, mint_run_id}

abbrev parse : String → Option String
parse String.[] = none
parse (String.◌∷◌ c s) = some s

-- An object is its text, serialized with one leading character.
abbrev codec : Codec String
codec = record {
  dumps = λ o. String.◌∷◌ "J" o;
  loads = parse;
  sha256 = λ t. String.◌∷◌ "h" t;
  validate = λ k o. true;
  is_inside = λ name. true;
}

abbrev decided : Payload
decided = record {
  decision = "approved";
  actor = "Ann";
  at = "2026-01-01";
  notes = "";
  artifact_sha256 = some "hJbrief";
  frozen_sha256 = some "hJbrief";
  request_sha256 = none;
  section_kills = [];
}

abbrev vouched_dir : Dir
vouched_dir = record {
  files = ("brief.frozen.json", "Jbrief") ∷ [];
  checkpoints = ("gate_1", decided) ∷ [];
}

read_frozen_verified_example :
    (read_frozen codec bid_brief vouched_dir ≡ ok "brief")
    ↔ Vouched codec bid_brief "brief" vouched_dir
read_frozen_verified_example = read_frozen_verified codec bid_brief "brief" vouched_dir

-- A gap in the numbers is not filled.
minted_above : mint_run_id (1 ∷ 4 ∷ 2 ∷ []) ≡ 5
unfolding mint_run_id max_of
minted_above = refl
