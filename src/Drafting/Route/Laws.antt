-- ===== src/Drafting/Route/Laws.antt =====
-- Which slots the model drafts: none that an undisposed gap, an approved omission or a gate stands on.
use rfp_engine.Prelude.Dict
use rfp_engine.Prelude.{
  ◌↔◌, inr, inl, none, refl, Bool-cases, ◌||◌, false, ap, some, ◌∙◌, true, [], arith, not, ◌∷◌,
  ◌&&◌, str_eq, all, ◌≡◌, any, Bool, Option, List, String,
}
use rfp_engine.Drafting.Route.Plan.{
  gaters, gated_by, opening, route_gaps, found_lane, settle_status, first_lanes, gate_lane,
  section_plan, lane_list, routed, gate_lanes,
}
use rfp_engine.Drafting.Route.Types.{
  gated, gated_skipped, is_shape, is_model, Gap, Reason, Slot, Lane,
}
use rfp_engine.Drafting.Route.Gaps.{
  not_drafted, drafts-put, route_gaps-lem, blocks, strays, drafted_lane, is_pended, stray_undrafted,
  drafts,
}
use rfp_engine.Drafting.Route.Gapped.{gapped_slots, Gated-gapped}
use rfp_engine.Planning.Sections.Cascade.Reach.{Gated}
use rfp_engine.Planning.Sections.Cascade.{gates_by_id}
use rfp_engine.Planning.Sections.Cascade.Loop.{cascade_gating_lem}

names : String → List String → Bool
names k = any (λ slot. str_eq slot k)

drafts-gate_lane :
    (k slot : String) (o : Option Lane) (m : Dict.Dict Lane)
    → Dict.get slot m ≡ o
    → drafts k (gate_lane slot o m) ≡ (drafts k m && not (str_eq slot k))
drafts-gate_lane k slot none m e = stray_undrafted true m k (some slot) (rw e refl)
drafts-gate_lane k slot (some l) m e = elim (Bool-cases (is_model l.kind)) [
  | inl drafted ↦
      rw drafted
        (drafts-put slot k l (record l { kind = gated_skipped; reason = some gated }) m e drafted).0
  | inr undrafted ↦ rw undrafted (not_drafted slot k l m true e undrafted)
]

drafts-gate_lanes :
    (k : String) (slots : List String) (m : Dict.Dict Lane)
    → drafts k (gate_lanes slots m) ≡ (drafts k m && not (names k slots))
unfolding gate_lanes names
drafts-gate_lanes k [] m = ground arith
drafts-gate_lanes k (slot ∷ slots) m =
    drafts-gate_lanes k slots (gate_lane slot (Dict.get slot m) m)
    ∙ ap (λ b. b && not (names k slots)) (drafts-gate_lane k slot (Dict.get slot m) m refl)
    ∙ ground arith

drafts-routed :
    (ss : List Slot) (gs : List Gap) (k : String)
    → drafts k (routed ss gs).lanes ≡ (
        (drafts k (first_lanes ss []) && not (any (blocks k) gs))
        && not (names k (gated_by ss (route_gaps gs (opening ss)).matched)))
unfolding routed
drafts-routed ss gs k =
    let p = route_gaps gs (opening ss) in
    let gated_ids = gated_by ss p.matched in
    drafts-gate_lanes k gated_ids p.lanes
    ∙ ap (λ b. b && not (names k gated_ids)) ((route_gaps-lem gs (opening ss)).0 k)

gated_by-Gated :
    (ss : List Slot) (matched : List String) (k : String)
    → (names k (gated_by ss matched) ≡ true) ↔ Gated (gates_by_id (gaters ss) []) matched k
unfolding gated_by names
gated_by-Gated ss matched k =
    let (out, ends, decides) = cascade_gating_lem (gaters ss) matched in rw ends (decides k)

unless_iff :
    (a b c x : Bool) {P : Type 0}
    → x ≡ ((a && not b) && not c)
    → (c ≡ true) ↔ P
    → (x ≡ true) ↔ ((a ≡ true) × (b ≡ false) × ¬ P)
unless_iff a b c x e decides = (
  λ h. (ground arith, ground arith, λ p. ground (arith, decides.1 p)),
  λ h. elim (Bool-cases c) [
    | inl holds ↦ absurd (h.2 (decides.0 holds))
    | inr fails ↦ ground arith
  ],
)

through : {P Q R : Type 0} → P ↔ Q → Q ↔ R → P ↔ R
through (a, b) (c, d) = (λ x. c (a x), λ x. b (d x))

-- The model is to draft a slot exactly if the code's first routing is to, no gap stands on the slot
-- but an answered, reframed or flagged one, and the slot does not hang, directly or through others,
-- on a slot of the section that some gap names, whatever the status of that gap.
pub lane_drafted :
    (ss : List Slot) (gs : List Gap) (k : String)
    → (drafts k (routed ss gs).lanes ≡ true) ↔ (
        (drafts k (first_lanes ss []) ≡ true)
        × (any (blocks k) gs ≡ false)
        × ¬ Gated (gates_by_id (gaters ss) []) (gapped_slots ss gs) k)
lane_drafted ss gs k =
    let matched = (route_gaps gs (opening ss)).matched in
    unless_iff (drafts k (first_lanes ss [])) (any (blocks k) gs) (names k (gated_by ss matched)) _
      (drafts-routed ss gs k)
      (through (gated_by-Gated ss matched k) (Gated-gapped ss gs (gates_by_id (gaters ss) []) k))

shapes_draft_none :
    (ls : List Lane) → all (λ l. is_shape l.kind) ls ≡ true → any (λ l. is_model l.kind) ls ≡ false
shapes_draft_none [] h = refl
shapes_draft_none (l ∷ ls) h = ground (arith, shapes_draft_none ls)

settle_status-model :
    (pend : Option Reason) (ls : List Lane)
    → is_model (settle_status pend ls).0 ≡ (not (is_pended pend) && any (λ l. is_model l.kind) ls)
settle_status-model (some r) ls = refl
settle_status-model none ls = ground (arith, shapes_draft_none ls)

any-found_lane :
    (o : Option Lane) (ls : List Lane)
    → any (λ l. is_model l.kind) (found_lane o ls)
      ≡ (drafted_lane o || any (λ l. is_model l.kind) ls)
any-found_lane none ls = refl
any-found_lane (some l) ls = refl

any-lane_list :
    (ss : List Slot) (m : Dict.Dict Lane)
    → any (λ l. is_model l.kind) (lane_list ss m) ≡ any (λ s. drafts s.slot_id m) ss
unfolding lane_list
any-lane_list [] m = refl
any-lane_list (s ∷ ss) m =
    any-found_lane (Dict.get s.slot_id m) (lane_list ss m)
    ∙ ap (λ b. drafts s.slot_id m || b) (any-lane_list ss m)

-- A section is drafted exactly if the model is to draft one of its slots and no gap without a slot
-- of the section is an omission or undisposed: such a gap pends the whole section.
pub section_drafted :
    (ss : List Slot) (gs : List Gap)
    → is_model (section_plan ss gs).status ≡ (
        not (any (strays (first_lanes ss [])) gs)
        && any (λ s. drafts s.slot_id (routed ss gs).lanes) ss)
unfolding section_plan
section_drafted ss gs =
    let r = routed ss gs in
    settle_status-model r.pend (lane_list ss r.lanes)
    ∙ ap (λ b. not (is_pended r.pend) && b) (any-lane_list ss r.lanes)
    ∙ ap (λ b. not b && any (λ s. drafts s.slot_id r.lanes) ss) pended
  where
    pended : is_pended (routed ss gs).pend ≡ any (strays (first_lanes ss [])) gs
    pended = unfold routed in (route_gaps-lem gs (opening ss)).1
