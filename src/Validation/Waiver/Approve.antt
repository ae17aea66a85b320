-- ===== src/Validation/Waiver/Approve.antt =====
-- `approve_waiver` of engine/validation/waiver.py.
use rfp_engine.Prelude.{
  ◌++◌, not, [], none, ◌∷◌, some, any, str_eq, Bool, if◌then◌else◌, String, Option, List,
}
use rfp_engine.Validation.Annotate.{claims_of, packaging_state, Section, Annotated}
use rfp_engine.Validation.Findings.{waived_result, ValidationRecord}
use rfp_engine.Validation.Audit.{
  ClaimDisposition, block_claim, waived_over, waived_claim, waived_status, Claim,
}
use rfp_engine.Validation.Waiver.Text.{is_smelly}
use rfp_engine.Prelude.Last.{change_last, find_last}

pub data Warning : Type 0 where
  no_draft unknown_claim not_blocking boilerplate_reason : Warning

pub data WaiverStatus : Type 0 where
  waived already_waived refused : WaiverStatus

pub record WaiverResult : Type 0 where
  pub status : WaiverStatus
  pub warnings : List Warning
  pub section_id : Option String

-- The pursuit's annotated draft, and the validation records of its log.
pub record Desk : Type 0 where
  pub annotated : Option Annotated
  pub log : List ValidationRecord

-- The function returns, or `write_artifact` refuses the draft by its schema.
pub data Outcome : Type 0 where
  returned : WaiverResult → Outcome
  contract_error : Outcome

abbrev pub is_claim : String → Claim → Bool
is_claim i c = str_eq c.claim_id i

abbrev pub holds_claim : String → Section → Bool
holds_claim i s = any (is_claim i) s.claims

abbrev pub target_in : String → Option Section → Option Claim
target_in i none = none
target_in i (some s) = find_last (is_claim i) s.claims

-- The target of the two loops: the last claim of the id, in the last section that has one.
unfoldable pub target_claim : String → List Section → Option Claim
target_claim i ss = target_in i (find_last (holds_claim i) ss)

unfoldable pub waive_claim : String → String → String → Claim → Claim
waive_claim actor reason at c = record c {
  status = waived_status;
  disposition = waived_claim;
  reasons = waived_over c.status actor at ∷ c.reasons;
  waived_by = some actor;
  waiver_reason = some reason;
}

unfoldable pub change_claim : String → (Claim → Claim) → List Section → List Section
change_claim i f ss =
    change_last (holds_claim i) (λ s. record s { claims = change_last (is_claim i) f s.claims }) ss

abbrev pub result : WaiverStatus → List Warning → Option String → Outcome
result status warnings section =
    returned (record { status = status; warnings = warnings; section_id = section })

abbrev smell : String → List Warning
smell reason = if is_smelly reason then boilerplate_reason ∷ [] else []

-- The annotated draft after the waiver, its packaging recounted.
unfoldable pub waive_in : String → String → String → String → Annotated → Annotated
waive_in i actor reason at a =
    let ss = change_claim i (waive_claim actor reason at) a.sections in
    record { packaging = packaging_state (claims_of ss); sections = ss }

module _ (validate : Annotated → Bool) (i actor reason at : String) where
  abbrev pub waive_disposed : ClaimDisposition → String → Annotated → Desk → Outcome × Desk
  waive_disposed waived_claim section a d = (result already_waived [] (some section), d)
  waive_disposed block_claim section a d =
      let a' = waive_in i actor reason at a in
      if not (validate a') then (contract_error, d) else (
        result waived (smell reason) (some section),
        record {
          annotated = some a';
          log =
              d.log
              ++ record { check = "claim_audit"; result = waived_result; section_id = section }
                ∷ [];
        },
      )
  waive_disposed _ section a d = (result refused (not_blocking ∷ []) (some section), d)

  abbrev pub waive_target : Option Claim → String → Annotated → Desk → Outcome × Desk
  waive_target none section a d = (result refused (unknown_claim ∷ []) none, d)
  waive_target (some c) section a d = waive_disposed c.disposition section a d

  abbrev pub waive_section : Option Section → Annotated → Desk → Outcome × Desk
  waive_section none a d = (result refused (unknown_claim ∷ []) none, d)
  waive_section (some s) a d = waive_target (find_last (is_claim i) s.claims) s.section_id a d

  abbrev pub waive_draft : Option Annotated → Desk → Outcome × Desk
  waive_draft none d = (result refused (no_draft ∷ []) none, d)
  waive_draft (some a) d = waive_section (find_last (holds_claim i) a.sections) a d

  unfoldable pub approve_waiver : Desk → Outcome × Desk
  approve_waiver d = waive_draft d.annotated d
