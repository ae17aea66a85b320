-- ===== src/Contracts/Tests.antt =====
-- One decision written in two ways.
use rfp_engine.Prelude.{
  false, ap, none, some, Bool, ◌∷◌, str_eq, if◌then◌else◌, [], ℕ, List, Option, ◌≡◌, refl, String,
}
use rfp_engine.Validation.Audit.{Json, Fields, text, array, object, nil, end, field, null}
use rfp_engine.Workspace.Pursuit.Types.{ok}
use rfp_engine.Contracts.GateKey.{field_of, is_semantic, request_digest}
use rfp_engine.Contracts.Requests.{
  AllBlank, field_blank, array_blank, end_blank, null_blank, object_blank, request_digest-Alike,
  both_in, both_out, right_out, same,
}
use rfp_engine.Contracts.Jsonl.{read_whole, read_jsonl, File}
use rfp_engine.Contracts.Journal.{journal_read, journal, cut, lands, Attempt, records_of}

abbrev bare : Fields
bare = field "decision" (text "approved") end

abbrev padded : Fields
padded =
    field "edits" (object (field "dispose" (array nil) end))
      (field "notes" null (field "decision" (text "approved") end))

abbrev tag : Json → String
tag (object end) = "empty"
tag (object (field k v fs)) = k
tag _ = "other"

abbrev sha : String → String
sha s = s

-- An edit that disposes nothing, and no notes.
no_edits_blank : AllBlank (field "dispose" (array nil) end)
no_edits_blank = field_blank "dispose" (array nil) end array_blank end_blank

request_digest-Alike_example : request_digest tag sha padded ≡ request_digest tag sha bare
unfolding is_semantic field_of
request_digest-Alike_example = request_digest-Alike tag sha padded bare refl refl (
  both_in (text "approved") (text "approved") (same (text "approved")),
  (
    right_out null null_blank,
    (
      right_out (object (field "dispose" (array nil) end)) (object_blank _ no_edits_blank),
      (both_out, (both_out, (both_out, (both_out, (both_out, tt))))),
    ),
  ),
)

abbrev loads : String → Option ℕ
loads t = if str_eq t "one" then some 1 else if str_eq t "two" then some 2 else none

abbrev unstripped : String → String
unstripped t = t

abbrev empty_file : File
empty_file = record { whole = []; tail = "" }

-- A record, a torn line, a record that lacks its line feed, and a record.
abbrev attempts : List Attempt
attempts = lands "one" ∷ cut "tw" ∷ cut "two" ∷ lands "one" ∷ []

journal_read_example :
    (u : Bool) × (read_jsonl loads unstripped (journal loads unstripped attempts empty_file)
      ≡ ok (record { records = 1 ∷ 2 ∷ 1 ∷ []; torn = u }))
unfolding records_of read_jsonl read_whole
journal_read_example =
    journal_read loads unstripped refl (λ t h. ap loads h) attempts empty_file [] false
      ((1, refl), (tt, (tt, ((1, refl), tt)))) refl
