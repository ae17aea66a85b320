-- ===== src/Validation/Findings.antt =====
-- engine/validation/findings.py: the one maker of findings and the one writer of validation records.
use Prim.Native.String.{◌++◌ as text_append}
use rfp_engine.Prelude.Dict
use rfp_engine.Prelude.{
  refl, length-append, all-append, suc, length, ◌||◌, all, count_if, ap, eq_iff, ◌≤◌, ℕ, arith,
  ◌++◌, none, ◌⊎◌, ◌&&◌, not, str_eq, ◌≡◌, if◌then◌else◌, [], ◌∷◌, false, some, true, List, Option,
  String, Bool,
}

pub data Disposition : Type 0 where
  advisory review block : Disposition

abbrev pub is_block : Disposition → Bool
is_block block = true
is_block _ = false

abbrev pub block_capable_check : String
block_capable_check = "claim_audit"

-- RULE_OWNERS
unfoldable pub rule_owners : Dict.Dict String
rule_owners =
    ("tier1_unsupported", "claim_audit")
    ∷ ("tier1_misattributed", "claim_audit")
    ∷ ("tier1_overstated", "claim_audit")
    ∷ ("tier1_unverifiable", "claim_audit")
    ∷ ("tier1_stale", "claim_audit")
    ∷ ("slot_unanswered", "coverage")
    ∷ ("length_exceeded", "coverage")
    ∷ ("flag_missing", "coverage")
    ∷ ("canonical_violated", "coverage")
    ∷ ("omission_line_missing", "coverage")
    ∷ ("constraint_review", "coverage")
    ∷ ("sub_question_unaddressed", "coverage")
    ∷ ("cross_ref_dangling", "consistency")
    ∷ ("contradiction", "consistency")
    ∷ ("weak_section", "red_team")
    ∷ ("prohibited_word", "voice_polish")
    ∷ []

pub record Finding : Type 0 where
  pub check : String
  pub rule : String
  pub disposition : Disposition
  pub message : String
  pub section_id : String
  pub slot_id : Option String

abbrev joined : String → String → String
joined a b = text_append a (text_append ":" b)

-- `if self.slot_id`: an empty slot id counts as none.
abbrev with_slot : String → Option String → String
with_slot base none = base
with_slot base (some s) = if str_eq s "" then base else joined base s

unfoldable pub finding_id : Finding → String
finding_id f = with_slot (joined f.check (joined f.rule f.section_id)) f.slot_id

-- The `ContractError`s.
pub data Refusal : Type 0 where
  unknown_rule foreign_rule foreign_block : Refusal

pub data Made {ℓ} (A : Type ℓ) : Type ℓ where
  made : A → Made A
  refused : Refusal → Made A

abbrev pub owned_finding : Option String → Finding → Made Finding
owned_finding none f = refused unknown_rule
owned_finding (some owner) f =
    if not (str_eq owner f.check)
    then refused foreign_rule
    else if is_block f.disposition && not (str_eq f.check block_capable_check)
    then refused foreign_block
    else made f

unfoldable pub make_finding : Finding → Made Finding
make_finding f = owned_finding (Dict.get f.rule rule_owners) f

unfoldable pub contains : List String → String → Bool
contains [] a = false
contains (x ∷ xs) a = if str_eq x a then true else contains xs a

-- The loop of `dedupe`, with the ids that it has seen.
unfoldable pub dedupe_from : List String → List Finding → List Finding
dedupe_from seen [] = []
dedupe_from seen (f ∷ fs) =
    let keep = f ∷ dedupe_from (finding_id f ∷ seen) fs in
    let skip = dedupe_from seen fs in if contains seen (finding_id f) then skip else keep

unfoldable pub dedupe : List Finding → List Finding
unfolding dedupe_from contains
dedupe fs = dedupe_from [] fs

-- A validation record of the run log: its check and its result.
pub data Verdict : Type 0 where
  pass_result flag_result block_result waived_result : Verdict

abbrev pub is_block_result : Verdict → Bool
is_block_result block_result = true
is_block_result _ = false

pub record ValidationRecord : Type 0 where
  pub check : String
  pub result : Verdict
  pub section_id : String

-- `emit_validation` on the validation records of a log.
unfoldable pub emit_validation :
    ValidationRecord → List ValidationRecord → Made (List ValidationRecord)
emit_validation v log =
    if is_block_result v.result && not (str_eq v.check block_capable_check)
    then refused foreign_block
    else made (log ++ v ∷ [])

made_owned :
    (o : Option String) (f f' : Finding)
    → owned_finding o f ≡ made f'
    → (f' ≡ f)
      × (o ≡ some f.check)
      × ((is_block f.disposition ≡ false) ⊎ (f.check ≡ block_capable_check))
made_owned none f f' h = cc
made_owned (some owner) f f' h =
    ground (arith, eq_iff owner f.check, eq_iff f.check block_capable_check)

made_lem :
    (f f' : Finding)
    → make_finding f ≡ made f'
    → (f' ≡ f)
      × (Dict.get f.rule rule_owners ≡ some f.check)
      × ((is_block f.disposition ≡ false) ⊎ (f.check ≡ block_capable_check))
unfolding make_finding
made_lem f f' h = made_owned (Dict.get f.rule rule_owners) f f' h

-- Two findings that `make_finding` lets through with one rule come from one check, which the
-- registry names as the rule's owner; and one that blocks comes from the claim audit.
pub one_rule_one_check :
    (f g f' g' : Finding)
    → make_finding f ≡ made f'
    → make_finding g ≡ made g'
    → f.rule ≡ g.rule
    → (f'.check ≡ g'.check)
      × (Dict.get f'.rule rule_owners ≡ some f'.check)
      × ((is_block f'.disposition ≡ false) ⊎ (f'.check ≡ block_capable_check))
one_rule_one_check f g f' g' hf hg same =
    let a = made_lem f f' hf in
    let b = made_lem g g' hg in ground (arith, ap (λ k. Dict.get k rule_owners) same)

-- The finding that an id names first.
unfoldable pub find_finding : String → List Finding → Option Finding
find_finding k [] = none
find_finding k (f ∷ fs) = if str_eq (finding_id f) k then some f else find_finding k fs

count_id : String → List Finding → ℕ
count_id k = count_if (λ f. str_eq (finding_id f) k)

contains_at :
    (seen : List String) (a k : String) → str_eq a k ≡ true → contains seen a ≡ contains seen k
contains_at seen a k e = ap (contains seen) ((eq_iff a k).0 e)

dedupe_from_lem :
    (k : String) (seen : List String) (fs : List Finding)
    → (find_finding k (dedupe_from seen fs) ≡ (if contains seen k then none else find_finding k fs))
      × (count_id k (dedupe_from seen fs) ≤ (if contains seen k then 0 else 1))
unfolding dedupe_from find_finding contains count_id
dedupe_from_lem k seen [] = ground arith
dedupe_from_lem k seen (f ∷ fs) = ground (
  arith,
  contains_at seen (finding_id f) k,
  dedupe_from_lem k seen fs,
  dedupe_from_lem k (finding_id f ∷ seen) fs,
)

-- Deduplication keeps the first finding of every id, and leaves each id once: an acknowledgement by
-- id clears one defect.
pub dedupe_lem :
    (k : String) (fs : List Finding)
    → (find_finding k (dedupe fs) ≡ find_finding k fs)
      × (count_if (λ f. str_eq (finding_id f) k) (dedupe fs) ≤ 1)
unfolding dedupe count_id
dedupe_lem k fs = dedupe_from_lem k [] fs

-- A record is lawful if a `block` in it is the claim audit's.
abbrev pub is_lawful : ValidationRecord → Bool
is_lawful r = not (is_block_result r.result) || str_eq r.check block_capable_check

made-append :
    (v : ValidationRecord) (log log' : List ValidationRecord)
    → emit_validation v log ≡ made log'
    → (is_lawful v ≡ true) × (log ++ v ∷ [] ≡ log')
unfolding emit_validation
made-append v log log' e = ground arith

-- A record that the one writer lets into a log of lawful records leaves a log of lawful records,
-- one longer; the writer refuses every unlawful record.
pub emit_validation_lawful :
    (v : ValidationRecord) (log log' : List ValidationRecord)
    → all is_lawful log ≡ true
    → emit_validation v log ≡ made log'
    → (all is_lawful log' ≡ true) × (length log' ≡ suc (length log)) × (is_lawful v ≡ true)
emit_validation_lawful v log log' h e =
    let (lawful, eq) = made-append v log log' e in
    (
      rw (← eq, all-append, h, lawful) refl,
      rw (← eq) (omega (arith, length-append log (v ∷ []))),
      lawful,
    )
