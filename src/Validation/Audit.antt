-- ===== src/Validation/Audit.antt =====
-- engine/validation/audit.py: the verdict wire, the staleness clock and the disposition map.
-- Texts are compared by code points, as Python compares them; a JSON value is a tree whose numbers
-- and nested texts the code does not look into. `json.loads` is a parameter, and so is `str()`.
use rfp_engine.Prelude.Dict
use rfp_engine.Prelude.{
  ap, eq_iff, inr, inl, Option-cases, refl, arith, ◌≡◌, not, take, ltb, true, zero, ◌==◌, false,
  ◌∷◌, none, str_eq, [], some, if◌then◌else◌, ℕ, List, Option, String, Bool,
}
use rfp_engine.Validation.Findings.{made, review, rule_owners, block, make_finding, Finding}

-- The values that `json.loads` returns.
mutual
  pub data Json : Type 0 where
    null : Json
    boolean : Bool → Json
    number : ℕ → Json
    text : String → Json
    array : Items → Json
    object : Fields → Json

  pub data Items : Type 0 where
    nil : Items
    cons : Json → Items → Items

  pub data Fields : Type 0 where
    end : Fields
    field : String → Json → Fields → Fields

-- `wire.get(key)`; `none` is the AttributeError of a value that is no object.
unfoldable pub get_field : String → Fields → Json
get_field k end = null
get_field k (field j v fs) = let rest = get_field k fs in if str_eq j k then v else rest

abbrev pub wire_get : String → Json → Option Json
wire_get k (object fs) = some (get_field k fs)
wire_get k _ = none

-- What `x or []` keeps.
unfoldable pub or_empty : Json → Json
or_empty null = array nil
or_empty (boolean false) = array nil
or_empty (number zero) = array nil
or_empty (text s) = if str_eq s "" then array nil else text s
or_empty (object end) = array nil
or_empty v = v

pub data Verdict : Type 0 where
  supported overstated unsupported misattributed : Verdict

-- VERDICTS: the texts of the enum.
unfoldable pub verdict_of : Json → Option Verdict
verdict_of (text s) =
    if str_eq s "SUPPORTED"
    then some supported
    else if str_eq s "OVERSTATED"
    then some overstated
    else if str_eq s "UNSUPPORTED"
    then some unsupported
    else if str_eq s "MISATTRIBUTED"
    then some misattributed
    else none
verdict_of _ = none

module _ (json_loads : String → Option Json) (str : Json → String) where
  unfoldable pub reason_texts : Items → List String
  reason_texts nil = []
  reason_texts (cons v vs) = str v ∷ reason_texts vs

  abbrev pub listed : Option Verdict → Json → Option Verdict × List String
  listed (some v) (array items) = (some v, reason_texts items)
  listed _ _ = (none, [])

  abbrev pub read_wire : Option Json → Option Verdict × List String
  read_wire (some (object fs)) =
      listed (verdict_of (get_field "verdict" fs)) (or_empty (get_field "reasons" fs))
  read_wire _ = (none, [])

  -- A text that does not parse, a wire that is no object, a verdict outside the enum and reasons
  -- that are no list all give no verdict.
  unfoldable pub parse_verdict_wire : String → Option Verdict × List String
  unfolding get_field or_empty verdict_of reason_texts
  parse_verdict_wire wire = read_wire (json_loads wire)

-- Lexicographic comparison of code points.
unfoldable pub text_lt : List ℕ → List ℕ → Bool
text_lt [] [] = false
text_lt [] (y ∷ ys) = true
text_lt (x ∷ xs) [] = false
text_lt (x ∷ xs) (y ∷ ys) = let rest = text_lt xs ys in if x == y then rest else ltb x y

-- The card of a fact, as far as the audit reads it; dates as code points.
pub record FactCard : Type 0 where
  pub kb_id : String
  pub review_due : Option (List ℕ)

abbrev due_before : Option (List ℕ) → List ℕ → Bool
due_before none at = false
due_before (some []) at = false
due_before (some (c ∷ cs)) at = text_lt (c ∷ cs) at

-- `is_stale`: `at[:10]` is the day of the injected clock.
unfoldable pub is_stale : FactCard → List ℕ → Bool
unfolding text_lt
is_stale card at = due_before card.review_due (take 10 at)

pub data ClaimStatus : Type 0 where
  not_audited unverifiable stale supported_status overstated_status unsupported_status
        misattributed_status waived_status :
      ClaimStatus

pub data ClaimDisposition : Type 0 where
  pass_claim flag_claim block_claim waived_claim : ClaimDisposition

pub data Reason : Type 0 where
  no_referent no_verdict lapsed : Reason
  quoted : String → Reason
  waived_over : ClaimStatus → String → String → Reason

pub record Claim : Type 0 where
  pub claim_id : String
  pub tier : ℕ
  pub text_digest : String
  pub fact_sheet_ref : Option String
  pub status : ClaimStatus
  pub disposition : ClaimDisposition
  pub reasons : List Reason
  pub waived_by : Option String
  pub waiver_reason : Option String

abbrev block_status : Verdict → ClaimStatus
block_status supported = supported_status
block_status overstated = overstated_status
block_status unsupported = unsupported_status
block_status misattributed = misattributed_status

abbrev settle : ClaimStatus → ClaimDisposition → List Reason → Claim → Claim
settle s d rs c = record c { status = s; disposition = d; reasons = rs }

abbrev judge : Option Verdict → List Reason → Option FactCard → List ℕ → Claim → Claim
judge verdict reasons none at c = settle unverifiable block_claim (no_referent ∷ []) c
judge none reasons (some card) at c = settle unverifiable block_claim (no_verdict ∷ []) c
judge (some supported) reasons (some card) at c =
    if is_stale card at
    then settle stale flag_claim (lapsed ∷ []) c
    else settle supported_status pass_claim reasons c
judge (some v) reasons (some card) at c = settle (block_status v) block_claim reasons c

unfoldable pub audit_claim : Claim → Option Verdict → List Reason → Option FactCard → List ℕ → Claim
audit_claim c verdict reasons card at =
    if c.tier == 1 then judge verdict reasons card at c else settle not_audited pass_claim [] c

-- `_RULE_FOR_STATUS`; `none` is the KeyError.
unfoldable pub rule_for_status : ClaimStatus → Option String
rule_for_status overstated_status = some "tier1_overstated"
rule_for_status unsupported_status = some "tier1_unsupported"
rule_for_status misattributed_status = some "tier1_misattributed"
rule_for_status unverifiable = some "tier1_unverifiable"
rule_for_status stale = some "tier1_stale"
rule_for_status _ = none

-- The claims that may pass.
abbrev pub earns_pass : ℕ → Option Verdict → Option FactCard → List ℕ → Bool
earns_pass tier verdict card at =
    if tier == 1
    then elim verdict [
      | some supported ↦ elim card [ some c ↦ not (is_stale c at) | none ↦ false ]
      | _ ↦ false
    ]
    else true

abbrev pub is_pass : ClaimDisposition → Bool
is_pass pass_claim = true
is_pass _ = false

-- An audited claim passes exactly if it is not Tier 1, or a verdict SUPPORTED was read on a card
-- that is not stale at the injected clock: no missing card and no unreadable verdict ever passes.
pub audit_pass :
    (c : Claim) (v : Option Verdict) (rs : List Reason) (card : Option FactCard) (at : List ℕ)
    → is_pass (audit_claim c v rs card at).disposition ≡ earns_pass c.tier v card at
unfolding audit_claim
audit_pass c v rs card at = ground arith

-- The finding that `validate_section` makes of a blocked or flagged claim.
abbrev pub claim_finding :
    ClaimDisposition → Option String → String → String → Option String → Option Finding
claim_finding block_claim (some rule) message section slot = some (record {
  check = "claim_audit";
  rule = rule;
  disposition = block;
  message = message;
  section_id = section;
  slot_id = slot;
})
claim_finding flag_claim (some rule) message section slot = some (record {
  check = "claim_audit";
  rule = rule;
  disposition = review;
  message = message;
  section_id = section;
  slot_id = slot;
})
claim_finding _ _ _ _ _ = none

-- `make_finding` returns the finding as it was given.
abbrev pub Accepted : Option Finding → Type 0
Accepted none = ⊥
Accepted (some f) = make_finding f ≡ made f

-- For an audited claim that does not pass, the status has a rule, the rule is the claim audit's,
-- and `make_finding` accepts the finding: the stage never raises over its own verdicts.
pub audit_finding_made :
    (c : Claim) (v : Option Verdict) (rs : List Reason) (card : Option FactCard) (at : List ℕ)
    (message section : String) (slot : Option String)
    → is_pass (audit_claim c v rs card at).disposition ≡ false
    → let a = audit_claim c v rs card at in
      Accepted (claim_finding a.disposition (rule_for_status a.status) message section slot)
unfolding audit_claim rule_for_status make_finding rule_owners Dict.get
audit_finding_made c v rs card at message section slot h = ground arith

text_lt_trans :
    (xs ys zs : List ℕ) → text_lt xs ys ≡ true → text_lt ys zs ≡ true → text_lt xs zs ≡ true
unfolding text_lt
text_lt_trans [] [] zs h k = cc
text_lt_trans [] (y ∷ ys) [] h k = cc
text_lt_trans [] (y ∷ ys) (z ∷ zs) h k = refl
text_lt_trans (x ∷ xs) [] zs h k = cc
text_lt_trans (x ∷ xs) (y ∷ ys) [] h k = cc
text_lt_trans (x ∷ xs) (y ∷ ys) (z ∷ zs) h k = ground (arith, text_lt_trans xs ys zs)

-- The staleness clock only runs forward: a card that is stale at one clock is stale at every clock
-- with a later day.
pub stale_stays :
    (card : FactCard) (at later : List ℕ)
    → is_stale card at ≡ true
    → text_lt (take 10 at) (take 10 later) ≡ true
    → is_stale card later ≡ true
unfolding is_stale
stale_stays card at later h k = elim (Option-cases card.review_due) [
  | inl e ↦ absurd (ground arith)
  | inr (due, e) ↦ rw e (due_stays due (rw e at h))
]
  where
    due_stays :
        (d : List ℕ)
        → due_before (some d) (take 10 at) ≡ true
        → due_before (some d) (take 10 later) ≡ true
    due_stays [] h = h
    due_stays (c ∷ cs) h = text_lt_trans (c ∷ cs) (take 10 at) (take 10 later) h k

verdict_of-supported : (j : Json) → verdict_of j ≡ some supported → j ≡ text "SUPPORTED"
unfolding verdict_of
verdict_of-supported (text s) h = ap text ((eq_iff s "SUPPORTED").0 (ground arith))
verdict_of-supported null h = cc
verdict_of-supported (boolean b) h = cc
verdict_of-supported (number n) h = cc
verdict_of-supported (array xs) h = cc
verdict_of-supported (object fs) h = cc

listed-supported :
    (json_loads : String → Option Json) (str : Json → String) (v : Option Verdict) (j : Json)
    → (listed json_loads str v j).0 ≡ some supported
    → v ≡ some supported
listed-supported json_loads str v j h = ground arith

passes-supported :
    (c : Claim) (v : Option Verdict) (rs : List Reason) (card : Option FactCard) (at : List ℕ)
    → c.tier ≡ 1
    → is_pass (audit_claim c v rs card at).disposition ≡ true
    → v ≡ some supported
unfolding audit_claim
passes-supported c v rs card at bindable h = ground arith

read_wire-supported :
    (json_loads : String → Option Json) (str : Json → String) (o : Option Json)
    → (read_wire json_loads str o).0 ≡ some supported
    → (fs : Fields) × (o ≡ some (object fs)) × (get_field "verdict" fs ≡ text "SUPPORTED")
read_wire-supported json_loads str none h = absurd (nothing h)
  where
    nothing : ◌≡◌ {A = Option Verdict} none (some supported) → ⊥
    nothing e = cc
read_wire-supported json_loads str (some (object fs)) h = (
  fs,
  refl,
  verdict_of-supported (get_field "verdict" fs) (
      listed-supported json_loads str (verdict_of (get_field "verdict" fs))
        (or_empty (get_field "reasons" fs)) h),
)
read_wire-supported json_loads str (some null) h = absurd (ground (arith, h))
read_wire-supported json_loads str (some (boolean b)) h = absurd (ground (arith, h))
read_wire-supported json_loads str (some (number n)) h = absurd (ground (arith, h))
read_wire-supported json_loads str (some (text t)) h = absurd (ground (arith, h))
read_wire-supported json_loads str (some (array xs)) h = absurd (ground (arith, h))

-- A Tier 1 claim passes only if the verifier's text parses to an object whose verdict is the text
-- SUPPORTED: no other text is ever an approval.
pub pass_needs_supported :
    (json_loads : String → Option Json) (str : Json → String) (wire : String) (c : Claim)
    (rs : List Reason) (card : Option FactCard) (at : List ℕ)
    → c.tier ≡ 1
    → is_pass (audit_claim c (parse_verdict_wire json_loads str wire).0 rs card at).disposition
      ≡ true
    → (fs : Fields) × (json_loads wire ≡ some (object fs))
      × (get_field "verdict" fs ≡ text "SUPPORTED")
unfolding parse_verdict_wire
pass_needs_supported json_loads str wire c rs card at bindable h =
    read_wire-supported json_loads str (json_loads wire)
      (passes-supported c (parse_verdict_wire json_loads str wire).0 rs card at bindable h)
