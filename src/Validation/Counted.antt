-- ===== src/Validation/Counted.antt =====
-- The packaging of an annotated draft against its claims (engine/validation/annotate.py): what
-- `build_annotated` assembles, and what `consume_annotated` accepts.
use rfp_engine.Validation.Audit.{Claim}
use rfp_engine.Validation.Annotate.{
  is_blocked, is_waived, Packaging, packaging_state, Entry, Done, done_of, Section, Annotated,
  claim_row, claim_rows, build_section, build_sections, drafted_claims, build_annotated, claims_of,
  drafted_sections, checks, has_record, covers, same_packaging, consume_annotated,
}
use rfp_engine.Prelude.{
  ◌∙◌, arith, All, ◌⊎◌, true, refl, inr, ◌==◌, inl, ◌&&◌, str_eq, sym, Bool-cases, false, all, any,
  ◌++◌, ap, ◌∷◌, some, count_if, ◌≡◌, Option, [], String, List, Bool, ◌↔◌, eq_iff, ==_iff,
}
use rfp_engine.Validation.Findings.{is_block_result, ValidationRecord}

-- A section that is not drafted carries no claims.
abbrev pub IsClean : Section → Type 0
IsClean s = (s.is_drafted ≡ true) ⊎ (s.claims ≡ [])

-- An annotated draft is counted if its packaging is the recount over all its claims, and only
-- drafted sections carry claims.
pub record IsCounted (a : Annotated) : Type 0 where
  pub counted : a.packaging ≡ packaging_state (claims_of a.sections)
  pub clean : All IsClean a.sections

pub claims_of-drafted :
    (ss : List Section) → All IsClean ss → claims_of (drafted_sections ss) ≡ claims_of ss
unfolding claims_of drafted_sections
claims_of-drafted [] h = refl
claims_of-drafted (s ∷ ss) h = elim (Bool-cases s.is_drafted) [
  | inl e ↦ rw e (ap (λ cs. s.claims ++ cs) (claims_of-drafted ss h.1))
  | inr e ↦ elim h.0 [
    | inl d ↦ absurd (cc (e, d))
    | inr none_there ↦ rw (e, none_there) (claims_of-drafted ss h.1)
  ]
]

claim_rows-append : (cs ds : List Claim) → claim_rows (cs ++ ds) ≡ claim_rows cs ++ claim_rows ds
unfolding claim_rows
claim_rows-append [] ds = refl
claim_rows-append (c ∷ cs) ds = ap (λ rs. claim_row c ∷ rs) (claim_rows-append cs ds)

count_if-rows :
    (p : Claim → Bool)
    → ((c : Claim) → p (claim_row c) ≡ p c)
    → (cs : List Claim) → count_if p (claim_rows cs) ≡ count_if p cs
unfolding claim_rows
count_if-rows p keeps [] = refl
count_if-rows p keeps (c ∷ cs) = ground (arith, keeps c, count_if-rows p keeps cs)

-- The rows are blocked and waived as the claims are.
packaging_state-rows : (cs : List Claim) → packaging_state (claim_rows cs) ≡ packaging_state cs
unfolding packaging_state
packaging_state-rows cs =
    rw
      (
        count_if-rows is_blocked (λ c. unfold claim_row in refl) cs,
        count_if-rows is_waived (λ c. unfold claim_row in refl) cs,
      )
      refl

claims_of-build :
    (per : String → Option Done) (es : List Entry)
    → claims_of (build_sections per es) ≡ claim_rows (drafted_claims per es)
unfolding claims_of build_sections build_section drafted_claims
claims_of-build per [] = unfold claim_rows in refl
claims_of-build per (e ∷ es) = elim (Bool-cases e.is_drafted) [
  | inl drafted ↦
      rw (drafted, claim_rows-append (done_of (per e.section_id)).claims (drafted_claims per es))
        (ap (λ cs. claim_rows (done_of (per e.section_id)).claims ++ cs) (claims_of-build per es))
  | inr skipped ↦ rw skipped (claims_of-build per es)
]

build-IsClean : (per : String → Option Done) (es : List Entry) → All IsClean (build_sections per es)
unfolding build_sections build_section
build-IsClean per [] = tt
build-IsClean per (e ∷ es) = (ground arith, build-IsClean per es)

-- What `build_annotated` assembles is counted: its packaging, which is taken of the claims that the
-- checks hand over, is the recount over the rows that the draft carries, and a section that is not
-- drafted carries none.
pub build_annotated-IsCounted :
    (es : List Entry) (per : String → Option Done) → IsCounted (build_annotated es per)
unfolding build_annotated
build_annotated-IsCounted es per = record {
  counted =
      sym (packaging_state-rows (drafted_claims per es))
      ∙ ap packaging_state (sym (claims_of-build per es));
  clean = build-IsClean per es;
}

-- A record of a check that targets a section.
abbrev pub Recorded : String → String → List ValidationRecord → Type 0
Recorded check section [] = ⊥
Recorded check section (r ∷ rs) =
    ((r.check ≡ check) × (r.section_id ≡ section)) ⊎ Recorded check section rs

-- A claim that blocks, and a record that does.
abbrev pub Blocked : List Claim → Type 0
Blocked [] = ⊥
Blocked (c ∷ cs) = (is_blocked c ≡ true) ⊎ Blocked cs

abbrev pub BlockRecorded : List ValidationRecord → Type 0
BlockRecorded [] = ⊥
BlockRecorded (r ∷ rs) = (is_block_result r.result ≡ true) ⊎ BlockRecorded rs

-- What the receipts and the trace are to agree about.
pub record Agrees (a : Annotated) (rs : List ValidationRecord) : Type 0 where
  pub covered :
      All (λ check. All (λ s. Recorded check s.section_id rs) (drafted_sections a.sections)) checks
  pub recounted : a.packaging ≡ packaging_state (claims_of (drafted_sections a.sections))
  pub traced : Blocked (claims_of (drafted_sections a.sections)) → BlockRecorded rs

has_record-Recorded :
    (check section : String) (rs : List ValidationRecord)
    → (has_record check section rs ≡ true) ↔ Recorded check section rs
unfolding has_record
has_record-Recorded check section [] = (λ h. absurd (ground (arith, h)), λ x. absurd x)
has_record-Recorded check section (r ∷ rs) =
    let (to, from) = has_record-Recorded check section rs in
    elim (Bool-cases (str_eq r.check check && str_eq r.section_id section)) [
      | inl this ↦ (
        λ h. inl (
          (eq_iff r.check check).0 (ground arith),
          (eq_iff r.section_id section).0 (ground arith),
        ),
        λ x. ground (arith, this),
      )
      | inr other ↦ (
        λ h. inr (to (ground (arith, h, other))),
        λ x. elim x [
          | inl (same, there) ↦
              absurd (ground (arith, eq_iff r.check check, eq_iff r.section_id section))
          | inr rest ↦ ground (arith, from rest)
        ],
      )
    ]

covers-Recorded :
    (check : String) (rs : List ValidationRecord) (ss : List Section)
    → (covers rs ss check ≡ true) ↔ All (λ s. Recorded check s.section_id rs) ss
unfolding covers
covers-Recorded check rs [] = (λ h. tt, λ h. refl)
covers-Recorded check rs (s ∷ ss) =
    let (to, from) = has_record-Recorded check s.section_id rs in
    let (to_all, from_all) = covers-Recorded check rs ss in
    (
      λ h. (to (ground (arith, h)), to_all (ground (arith, h))),
      λ (h, hs). ground (arith, from h, from_all hs),
    )

all-covers :
    (rs : List ValidationRecord) (ss : List Section) (cs : List String)
    → (all (covers rs ss) cs ≡ true)
      ↔ All (λ check. All (λ s. Recorded check s.section_id rs) ss) cs
all-covers rs ss [] = (λ h. tt, λ h. refl)
all-covers rs ss (c ∷ cs) =
    let (to, from) = covers-Recorded c rs ss in
    let (to_all, from_all) = all-covers rs ss cs in
    (
      λ h. (to (ground (arith, h)), to_all (ground (arith, h))),
      λ (h, hs). ground (arith, from h, from_all hs),
    )

any-Blocked : (cs : List Claim) → ((count_if is_blocked cs == 0) ≡ false) ↔ Blocked cs
any-Blocked [] = (λ h. absurd (ground (arith, h)), λ x. absurd x)
any-Blocked (c ∷ cs) =
    let (to, from) = any-Blocked cs in
    elim (Bool-cases (is_blocked c)) [
      | inl blocks ↦ (λ h. inl blocks, λ x. ground (arith, blocks))
      | inr passes ↦ (
        λ h. inr (to (ground (arith, h, passes))),
        λ x. elim x [
          | inl blocks ↦ absurd (ground (arith, blocks, passes))
          | inr rest ↦ ground (arith, from rest, passes)
        ],
      )
    ]

any-BlockRecorded :
    (rs : List ValidationRecord)
    → (any (λ r. is_block_result r.result) rs ≡ true) ↔ BlockRecorded rs
any-BlockRecorded [] = (λ h. absurd (ground (arith, h)), λ x. absurd x)
any-BlockRecorded (r ∷ rs) =
    let (to, from) = any-BlockRecorded rs in
    elim (Bool-cases (is_block_result r.result)) [
      | inl blocks ↦ (λ h. inl blocks, λ x. ground (arith, blocks))
      | inr passes ↦ (
        λ h. inr (to (ground (arith, h, passes))),
        λ x. elim x [
          | inl blocks ↦ absurd (ground (arith, blocks, passes))
          | inr rest ↦ ground (arith, from rest, passes)
        ],
      )
    ]

same_packaging_iff : (p q : Packaging) → (same_packaging p q ≡ true) ↔ (q ≡ p)
same_packaging_iff p q = (
  λ h.
      (let blocked : q.blocked ≡ p.blocked = ground (arith, h) in
        let blocks : q.tier1_blocks ≡ p.tier1_blocks =
          sym ((==_iff p.tier1_blocks q.tier1_blocks).0 (ground (arith, h))) in
        let waived : q.waived ≡ p.waived = sym ((==_iff p.waived q.waived).0 (ground (arith, h))) in
        λ i. record { blocked = blocked i; tier1_blocks = blocks i; waived = waived i }),
  λ e. rw e (ground arith),
)

-- `consume_annotated` finds no problem exactly if every check has a record for every drafted
-- section, the packaging is the recount over the claims of the drafted sections, and a claim that
-- blocks among them has a `block` record on the trace.
pub consume_annotated_lem :
    (a : Annotated) (rs : List ValidationRecord)
    → (consume_annotated (some a) rs ≡ true) ↔ Agrees a rs
unfolding consume_annotated
consume_annotated_lem a rs =
    let drafted = drafted_sections a.sections in
    let (to_covered, from_covered) = all-covers rs drafted checks in
    let (to_same, from_same) =
      same_packaging_iff (packaging_state (claims_of drafted)) a.packaging in
    let (to_blocked, from_blocked) = any-Blocked (claims_of drafted) in
    let (to_recorded, from_recorded) = any-BlockRecorded rs in
    (
      λ h.
          (let recount : a.packaging ≡ packaging_state (claims_of drafted) =
              to_same (ground (arith, h)) in
            let counted : a.packaging.tier1_blocks ≡ count_if is_blocked (claims_of drafted) =
              unfold packaging_state in ap (λ p. p.tier1_blocks) recount in
            record {
              covered = to_covered (ground (arith, h));
              recounted = recount;
              traced = λ b. to_recorded (ground (arith, h, counted, from_blocked b));
            }),
      λ v.
          (let counted : a.packaging.tier1_blocks ≡ count_if is_blocked (claims_of drafted) =
              unfold packaging_state in ap (λ p. p.tier1_blocks) v.recounted in
            let covered : all (covers rs drafted) checks ≡ true = from_covered v.covered in
            let same = from_same v.recounted in
            elim (Bool-cases (count_if is_blocked (claims_of drafted) == 0)) [
              | inl clear ↦ ground (arith, covered, same, counted, clear)
              | inr blocks ↦
                  ground (arith, covered, same, from_recorded (v.traced (to_blocked blocks)))
            ]),
    )
