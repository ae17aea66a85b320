-- ===== src/Validation/Waiver/Laws.antt =====
-- What a waiver does to the counts, to the recount and to a second waiver of the same claim.
use mathlib.Core.Path.{subst}
use rfp_engine.Prelude.{
  sym, refl, suc, ap, All, [], inr, count_if-append, Bool-cases, inl, Option-cases, ◌∷◌, arith, bit,
  ◌+◌, count_if, some, ◌≡◌, List, Bool, String,
}
use rfp_engine.Prelude.Last.{
  any-change_last, find_last-change_last, count_if-change_last, change_last, find_last,
}
use rfp_engine.Validation.Counted.{IsCounted, IsClean}
use rfp_engine.Validation.Audit.{ClaimDisposition, waived_claim, block_claim, Claim}
use rfp_engine.Validation.Annotate.{
  is_waived, is_blocked, packaging_state, Annotated, claims_of, Section,
}
use rfp_engine.Validation.Waiver.Approve.{
  waive_disposed, waive_draft, already_waived, refused, contract_error, returned, Outcome,
  approve_waiver, WaiverStatus, Desk, waive_claim, change_claim, waive_in, holds_claim, is_claim,
}
use rfp_engine.Validation.Findings.{ValidationRecord}

abbrev wrap : String → (Claim → Claim) → Section → Section
wrap i f s = record s { claims = change_last (is_claim i) f s.claims }

claims-change :
    (i : String) (f : Claim → Claim) (q : Claim → Bool) (ss : List Section) (s : Section)
    (c : Claim)
    → find_last (holds_claim i) ss ≡ some s
    → find_last (is_claim i) s.claims ≡ some c
    → count_if q (claims_of (change_last (holds_claim i) (wrap i f) ss)) + bit (q c)
      ≡ count_if q (claims_of ss) + bit (q (f c))
unfolding find_last change_last claims_of
claims-change i f q [] s c hs hc = ground arith
claims-change i f q (x ∷ ss) s c hs hc = elim (Option-cases (find_last (holds_claim i) ss)) [
  | inl last_here ↦ elim (Bool-cases (holds_claim i x)) [
    | inl here ↦
        let same : x ≡ s = ground (arith, hs, last_here, here) in
        rw (last_here, here)
          (omega (
            arith,
            count_if-append q (change_last (is_claim i) f x.claims) (claims_of ss),
            count_if-append q x.claims (claims_of ss),
            count_if-change_last (is_claim i) q f x.claims c (rw same hc),
          ))
    | inr elsewhere ↦ absurd (ground (arith, hs, last_here, elsewhere))
  ]
  | inr (y, later_on) ↦ rw later_on (
      omega (
        arith,
        count_if-append q x.claims (claims_of ss),
        count_if-append q x.claims (claims_of (change_last (holds_claim i) (wrap i f) ss)),
        claims-change i f q ss s c (ground (arith, hs, later_on)) hc,
      ))
]

change-IsClean :
    (i : String) (f : Claim → Claim) (ss : List Section)
    → All IsClean ss
    → All IsClean (change_last (holds_claim i) (wrap i f) ss)
unfolding change_last
change-IsClean i f [] h = tt
change-IsClean i f (x ∷ ss) h = elim (Option-cases (find_last (holds_claim i) ss)) [
  | inl last_here ↦ elim (Bool-cases (holds_claim i x)) [
    | inl here ↦ rw (last_here, here) (kept_clean h.0, h.1)
    | inr elsewhere ↦ rw (last_here, elsewhere) h
  ]
  | inr (y, later_on) ↦ rw later_on (h.0, change-IsClean i f ss h.1)
]
  where
    kept_clean : IsClean x → IsClean (wrap i f x)
    kept_clean (inl drafted) = inl drafted
    kept_clean (inr empty) = inr (ap (change_last (is_claim i) f) empty)

-- What is found of a claim that is about to be waived.
module _ (i actor reason at : String) (a : Annotated) (s : Section) (c : Claim)
    (hs : find_last (holds_claim i) a.sections ≡ some s)
    (hc : find_last (is_claim i) s.claims ≡ some c) (blocks : c.disposition ≡ block_claim) where
  waive_in_counts :
      IsCounted a
      → IsCounted (waive_in i actor reason at a)
        × (suc (waive_in i actor reason at a).packaging.tier1_blocks ≡ a.packaging.tier1_blocks)
        × ((waive_in i actor reason at a).packaging.waived ≡ suc a.packaging.waived)
  unfolding waive_in change_claim packaging_state waive_claim
  waive_in_counts v = (
    record {
      counted = refl;
      clean = change-IsClean i (waive_claim actor reason at) a.sections v.clean;
    },
    rw (v.counted) (
        ground (
          arith,
          blocks,
          claims-change i (waive_claim actor reason at) is_blocked a.sections s c hs hc,
        )),
    rw (v.counted) (
        ground (
          arith,
          blocks,
          claims-change i (waive_claim actor reason at) is_waived a.sections s c hs hc,
        )),
  )

  again :
      (find_last (holds_claim i) (waive_in i actor reason at a).sections
        ≡ some (wrap i (waive_claim actor reason at) s))
      × (find_last (is_claim i) (wrap i (waive_claim actor reason at) s).claims
          ≡ some (waive_claim actor reason at c))
  unfolding waive_in change_claim waive_claim
  again = (
    find_last-change_last (holds_claim i) (wrap i (waive_claim actor reason at)) a.sections s
        (λ y. any-change_last (is_claim i) (waive_claim actor reason at) y.claims (λ z. refl)) hs,
    find_last-change_last (is_claim i) (waive_claim actor reason at) s.claims c (λ z. refl) hc,
  )

abbrev pub Returned : Outcome → WaiverStatus → Type 0
Returned (returned r) s = r.status ≡ s
Returned contract_error s = ⊥

-- A desk with an annotated draft on it.
abbrev pub desk : Annotated → List ValidationRecord → Desk
desk a log = record { annotated = some a; log = log }

module _ (validate : Annotated → Bool) (i actor reason at : String) (a : Annotated)
    (log : List ValidationRecord) where
  disposed :
      (x : ClaimDisposition) (section : String)
      → Returned
          (waive_disposed validate i actor reason at x section a (desk a log)).0
          WaiverStatus.waived
      → (x ≡ block_claim)
        × ((waive_disposed validate i actor reason at x section a (desk a log)).1.annotated
            ≡ some (waive_in i actor reason at a))
  disposed x section h = ground arith

  -- What a waiver that succeeded had found.
  waived_found :
      Returned (approve_waiver validate i actor reason at (desk a log)).0 WaiverStatus.waived
      → (s : Section) × (c : Claim) × (find_last (holds_claim i) a.sections ≡ some s)
        × (find_last (is_claim i) s.claims ≡ some c)
        × (c.disposition ≡ block_claim)
        × ((approve_waiver validate i actor reason at (desk a log)).1.annotated
            ≡ some (waive_in i actor reason at a))
  unfolding approve_waiver
  waived_found h = elim (Option-cases (find_last (holds_claim i) a.sections)) [
    | inl missing ↦ absurd (refuted (rw missing at h))
    | inr (s, hs) ↦ elim (Option-cases (find_last (is_claim i) s.claims)) [
      | inl missing ↦ absurd (refuted (rw (hs, missing) at h))
      | inr (c, hc) ↦
          let (blocks, written) = disposed c.disposition s.section_id (rw (hs, hc) at h) in
          (s, c, hs, hc, blocks, rw (hs, hc) written)
    ]
  ]
    where
      refuted : refused ≡ WaiverStatus.waived → ⊥
      refuted h = cc

  -- A waiver that succeeds on a counted draft writes a counted draft: one blocking claim fewer, one
  -- waived claim more.
  pub waiver_counts :
      IsCounted a
      → Returned (approve_waiver validate i actor reason at (desk a log)).0 WaiverStatus.waived
      → let a' = waive_in i actor reason at a in
        ((approve_waiver validate i actor reason at (desk a log)).1.annotated ≡ some a')
        × IsCounted a'
        × (suc a'.packaging.tier1_blocks ≡ a.packaging.tier1_blocks)
        × (a'.packaging.waived ≡ suc a.packaging.waived)
  waiver_counts v h =
      let (s, c, hs, hc, blocks, written) = waived_found h in
      let (counted, fewer, more) = waive_in_counts i actor reason at a s c hs hc blocks v in
      (written, counted, fewer, more)

already_waived_lem :
    (validate : Annotated → Bool) (i actor reason at : String) (d : Desk) (a : Annotated)
    (s : Section) (c : Claim)
    → find_last (holds_claim i) a.sections ≡ some s
    → find_last (is_claim i) s.claims ≡ some c
    → c.disposition ≡ waived_claim
    → let after = waive_draft validate i actor reason at (some a) d in
      Returned after.0 already_waived × (after.1 ≡ d)
already_waived_lem validate i actor reason at d a s c hs hc w = rw (hs, hc, w) (refl, refl)

-- `approve_waiver` on a desk whose draft is known.
second :
    (validate : Annotated → Bool) (i actor reason at : String) (d : Desk) (a : Annotated)
    → d.annotated ≡ some a
    → (let after = waive_draft validate i actor reason at (some a) d in
        Returned after.0 already_waived × (after.1 ≡ d))
    → let after = approve_waiver validate i actor reason at d in
      Returned after.0 already_waived × (after.1 ≡ d)
unfolding approve_waiver
second validate i actor reason at d a there h =
    subst
      (λ o.
        Returned (waive_draft validate i actor reason at o d).0 already_waived
        × ((waive_draft validate i actor reason at o d).1 ≡ d))
      (sym there) h

-- A second waiver of a claim, by anyone and for any reason, answers `already_waived` and changes
-- neither the draft nor the log.
pub waiver_converges :
    (validate : Annotated → Bool) (i actor reason at actor' reason' at' : String) (a : Annotated)
    (log : List ValidationRecord)
    → Returned (approve_waiver validate i actor reason at (desk a log)).0 WaiverStatus.waived
    → let d' = (approve_waiver validate i actor reason at (desk a log)).1 in
      Returned (approve_waiver validate i actor' reason' at' d').0 already_waived
      × ((approve_waiver validate i actor' reason' at' d').1 ≡ d')
waiver_converges validate i actor reason at actor' reason' at' a log h =
    let (s, c, hs, hc, blocks, written) = waived_found validate i actor reason at a log h in
    let (hs', hc') = again i actor reason at a s c hs hc blocks in
    second validate i actor' reason' at' _ (waive_in i actor reason at a) written (
      already_waived_lem validate i actor' reason' at' _ (waive_in i actor reason at a)
        (wrap i (waive_claim actor reason at) s) (waive_claim actor reason at c) hs' hc'
        (unfold waive_claim in refl))
