-- ===== src/Validation/Annotate.antt =====
-- engine/validation/annotate.py: packaging by counting, the annotated draft, and the guard that
-- reads it back against the trace.
use rfp_engine.Validation.Audit.{waived_claim, block_claim, Claim}
use rfp_engine.Prelude.{
  true, ◌||◌, ◌==◌, ◌&&◌, str_eq, false, not, all, any, ◌++◌, none, ltb, filter, ◌∷◌, if◌then◌else◌,
  some, count_if, ℕ, Option, [], String, List, Bool,
}
use rfp_engine.Validation.Findings.{is_block_result, ValidationRecord, Finding}

abbrev pub is_blocked : Claim → Bool
is_blocked c = elim c.disposition [ block_claim ↦ true | _ ↦ false ]

abbrev pub is_waived : Claim → Bool
is_waived c = elim c.disposition [ waived_claim ↦ true | _ ↦ false ]

pub record Packaging : Type 0 where
  pub blocked : Bool
  pub tier1_blocks : ℕ
  pub waived : ℕ

unfoldable pub packaging_state : List Claim → Packaging
packaging_state cs =
    let blocks = count_if is_blocked cs in
    record { blocked = ltb 0 blocks; tier1_blocks = blocks; waived = count_if is_waived cs }

-- A section of the draft envelope.
pub record Entry : Type 0 where
  pub section_id : String
  pub section_type : String
  pub is_drafted : Bool  -- status == "drafted"

-- What the checks found of a section.
pub record Done : Type 0 where
  pub claims : List Claim
  pub findings : List Finding

-- A section of the annotated draft; no claims key is no claims.
pub record Section : Type 0 where
  pub section_id : String
  pub section_type : String
  pub is_drafted : Bool
  pub claims : List Claim
  pub findings : List Finding

pub record Annotated : Type 0 where
  pub packaging : Packaging
  pub sections : List Section

abbrev no_done : Done
no_done = record { claims = []; findings = [] }

abbrev pub done_of : Option Done → Done
done_of none = no_done
done_of (some d) = d

abbrev unless_blank : Option String → Option String
unless_blank none = none
unless_blank (some t) = if str_eq t "" then none else some t

-- `_claim_row`: the row of a claim, without the optional keys that are empty.
unfoldable pub claim_row : Claim → Claim
claim_row c = record {
  claim_id = c.claim_id;
  text_digest = c.text_digest;
  tier = c.tier;
  status = c.status;
  disposition = c.disposition;
  fact_sheet_ref = unless_blank c.fact_sheet_ref;
  reasons = c.reasons;
  waived_by = unless_blank c.waived_by;
  waiver_reason = unless_blank c.waiver_reason;
}

unfoldable pub claim_rows : List Claim → List Claim
unfolding claim_row
claim_rows [] = []
claim_rows (c ∷ cs) = claim_row c ∷ claim_rows cs

unfoldable pub build_section : Entry → Option Done → Section
unfolding claim_rows
build_section e d = record {
  section_id = e.section_id;
  section_type = e.section_type;
  is_drafted = e.is_drafted;
  claims = if e.is_drafted then claim_rows (done_of d).claims else [];
  findings = if e.is_drafted then (done_of d).findings else [];
}

unfoldable pub build_sections : (String → Option Done) → List Entry → List Section
unfolding build_section
build_sections per [] = []
build_sections per (e ∷ es) = build_section e (per e.section_id) ∷ build_sections per es

-- `all_claims`: those of the drafted entries.
unfoldable pub drafted_claims : (String → Option Done) → List Entry → List Claim
drafted_claims per [] = []
drafted_claims per (e ∷ es) =
    (if e.is_drafted then (done_of (per e.section_id)).claims else []) ++ drafted_claims per es

unfoldable pub build_annotated : List Entry → (String → Option Done) → Annotated
unfolding packaging_state build_sections drafted_claims
build_annotated es per = record {
  packaging = packaging_state (drafted_claims per es);
  sections = build_sections per es;
}

-- `[c for s in sections for c in s.get("claims", [])]`
unfoldable pub claims_of : List Section → List Claim
claims_of [] = []
claims_of (s ∷ ss) = s.claims ++ claims_of ss

unfoldable pub drafted_sections : List Section → List Section
drafted_sections ss = filter (λ s. s.is_drafted) ss

-- The checks of a trace that has a record for every drafted section.
abbrev pub checks : List String
checks = "claim_audit" ∷ "coverage" ∷ "consistency" ∷ "red_team" ∷ "voice_polish" ∷ []

unfoldable pub has_record : String → String → List ValidationRecord → Bool
has_record check section rs = any (λ r. str_eq r.check check && str_eq r.section_id section) rs

unfoldable pub covers : List ValidationRecord → List Section → String → Bool
unfolding has_record
covers rs drafted check = all (λ s. has_record check s.section_id rs) drafted

abbrev pub same_packaging : Packaging → Packaging → Bool
same_packaging a b =
    (if a.blocked then b.blocked else not b.blocked)
    && ((a.tier1_blocks == b.tier1_blocks) && (a.waived == b.waived))

-- `consume_annotated` of a draft that could be read: whether it found no problem.
unfoldable pub consume_annotated : Option Annotated → List ValidationRecord → Bool
consume_annotated none rs = false
consume_annotated (some a) rs =
    let drafted = drafted_sections a.sections in
    all (covers rs drafted) checks
    && (same_packaging (packaging_state (claims_of drafted)) a.packaging
        && (a.packaging.tier1_blocks == 0 || any (λ r. is_block_result r.result) rs))
