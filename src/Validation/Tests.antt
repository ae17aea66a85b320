-- ===== src/Validation/Tests.antt =====
-- A draft of two sections, its waivers, and the theorems at concrete inputs.
use rfp_engine.Validation.Findings.{block_result, block, ValidationRecord, Finding}
use rfp_engine.Prelude.{
  ◌↔◌, if◌then◌else◌, refl, str_eq, suc, false, true, Bool, Option, ◌∷◌, none, [], some, String,
  List, ◌≡◌,
}
use rfp_engine.Validation.Counted.{
  build_annotated-IsCounted, IsCounted, Agrees, consume_annotated_lem,
}
use rfp_engine.Validation.Audit.{
  reason_texts, pass_needs_supported, verdict_of, end, text, or_empty, field, get_field, object,
  Fields, parse_verdict_wire, Json, pass_claim, block_claim, not_audited, unverifiable, text_lt,
  is_stale, audit_claim, is_pass, FactCard, Claim,
}
use rfp_engine.Validation.Annotate.{
  claim_row, claim_rows, build_sections, build_section, Done, build_annotated, Entry,
  consume_annotated, Annotated,
}
use rfp_engine.Validation.Waiver.Approve.{WaiverStatus, waive_in, approve_waiver}
use rfp_engine.Validation.Waiver.Laws.{waiver_counts, Returned, desk}
use rfp_engine.Prelude.Last.{find_last}

abbrev stale_finding : Finding
stale_finding = record {
  check = "claim_audit";
  rule = "tier1_stale";
  disposition = block;
  message = "lapsed";
  section_id = "s1";
  slot_id = none;
}

abbrev other_finding : Finding
other_finding = record stale_finding { section_id = "s2"; slot_id = some "q4" }

abbrev audit_record : ValidationRecord
audit_record = record { check = "claim_audit"; result = block_result; section_id = "s1" }

abbrev claim : Claim
claim = record {
  claim_id = "c1";
  tier = 1;
  text_digest = "d";
  fact_sheet_ref = some "kb1";
  status = not_audited;
  disposition = pass_claim;
  reasons = [];
  waived_by = none;
  waiver_reason = none;
}

-- Dates of one and two letters stand for days.
abbrev card : FactCard
card = record { kb_id = "kb1"; review_due = some (50 ∷ 49 ∷ []) }

no_verdict_blocks : is_pass (audit_claim claim none [] (some card) []).disposition ≡ false
unfolding audit_claim
no_verdict_blocks = refl

card-is_stale : is_stale card (50 ∷ 50 ∷ []) ≡ true
unfolding is_stale text_lt
card-is_stale = refl

abbrev blocked_claim : Claim
blocked_claim = record claim { status = unverifiable; disposition = block_claim }

abbrev entries : List Entry
entries =
    record { section_id = "s1"; section_type = "answer"; is_drafted = true }
    ∷ record { section_id = "s2"; section_type = "form"; is_drafted = false }
    ∷ []

abbrev per : String → Option Done
per i =
    if str_eq i "s1"
    then some
        (record { claims = blocked_claim ∷ record claim { claim_id = "c2" } ∷ []; findings = [] })
    else none

abbrev draft : Annotated
draft = build_annotated entries per

build_annotated-IsCounted_example : IsCounted draft
build_annotated-IsCounted_example = build_annotated-IsCounted entries per

consume_annotated_lem_example :
    (consume_annotated (some draft) (audit_record ∷ []) ≡ true) ↔ Agrees draft (audit_record ∷ [])
consume_annotated_lem_example = consume_annotated_lem draft (audit_record ∷ [])

abbrev accept_all : Annotated → Bool
accept_all a = true

draft_waived :
    Returned
      (approve_waiver accept_all "c1" "ann" "the client agreed" "t1" (desk draft [])).0
      WaiverStatus.waived
unfolding approve_waiver build_annotated build_section build_sections claim_rows claim_row find_last
draft_waived = refl

waiver_counts_example :
    let a' = waive_in "c1" "ann" "the client agreed" "t1" draft in
    ((approve_waiver accept_all "c1" "ann" "the client agreed" "t1" (desk draft [])).1.annotated
      ≡ some a')
    × IsCounted a'
    × (suc a'.packaging.tier1_blocks ≡ draft.packaging.tier1_blocks)
    × (a'.packaging.waived ≡ suc draft.packaging.waived)
waiver_counts_example =
    waiver_counts accept_all "c1" "ann" "the client agreed" "t1" draft []
      (build_annotated-IsCounted entries per) draft_waived

abbrev loads : String → Option Json
loads s = some (object (field "verdict" (text s) end))

abbrev shown : Json → String
shown j = ""

approved_passes :
    is_pass
      (audit_claim claim
        (parse_verdict_wire loads shown "SUPPORTED").0
        []
        (some card)
        (50 ∷ [])).disposition
    ≡ true
unfolding audit_claim parse_verdict_wire get_field or_empty verdict_of reason_texts is_stale text_lt
approved_passes = refl

pass_needs_supported_example :
    (fs : Fields) × (loads "SUPPORTED" ≡ some (object fs))
    × (get_field "verdict" fs ≡ text "SUPPORTED")
pass_needs_supported_example =
    pass_needs_supported loads shown "SUPPORTED" claim [] (some card) (50 ∷ []) refl approved_passes
