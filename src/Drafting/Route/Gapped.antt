-- ===== src/Drafting/Route/Gapped.antt =====
-- Which slots count as gapped (engine/drafting/route.py): those of the section that some gap names.
use rfp_engine.Prelude.Dict
use rfp_engine.Prelude.{
  any, str_eq, ◌&&◌, ◌||◌, ◌≡◌, ◌∙◌, ◌↔◌, ap, refl, sym, none, some, [], ◌∷◌, inl, inr, Bool-cases,
  Option, String, List, Bool, eq_iff, arith, filter,
}
use rfp_engine.Planning.Sections.Cascade.{has}
use rfp_engine.Planning.Sections.Cascade.Reach.{Gated, direct, further}
use rfp_engine.Drafting.Route.Types.{Slot, Gap, GapStatus, Lane, Plan, is_model}
use rfp_engine.Drafting.Route.Plan.{
  route_gap, route_gaps, on_target, on_lane, on_slot, on_section, dispose, opening, first_lanes,
  fresh_lane,
}
use rfp_engine.Drafting.Route.Gaps.{is_at, has_lane, on_target-Routes, Routes}

-- The slots that the gaps of a section name.
abbrev pub named : List Gap → List String
named [] = []
named (g ∷ gs) = elim g.slot_id [ none ↦ named gs | some slot ↦ slot ∷ named gs ]

-- The slots of a section that some gap stands on, whatever the gap's status.
abbrev pub gapped_slots : List Slot → List Gap → List String
gapped_slots ss gs = filter (λ i. any (λ s. str_eq s.slot_id i) ss) (named gs)

dispose-matched :
    (s : GapStatus) (g : Gap) (slot : String) (l : Lane) (p : Plan)
    → (dispose s g slot l p).matched ≡ p.matched
dispose-matched s g slot l p = ground arith

on_section-matched : (s : GapStatus) (g : Gap) (p : Plan) → (on_section s g p).matched ≡ p.matched
on_section-matched s g p = ground arith

on_slot-matched :
    (g : Gap) (slot : String) (l : Lane) (p : Plan)
    → (on_slot g slot l p).matched ≡ slot ∷ p.matched
on_slot-matched g slot l p = elim (Bool-cases (is_model l.kind)) [
  | inl drafted ↦ rw drafted (dispose-matched g.status g slot l _)
  | inr other ↦ rw other refl
]

-- What one gap adds.
on_lane-matched :
    (g : Gap) (slot k : String) (o : Option Lane) (p : Plan)
    → Dict.get slot p.lanes ≡ o
    → has k (on_lane g slot o p).matched
      ≡ (has k p.matched || (str_eq slot k && has_lane p.lanes k))
on_lane-matched g slot k none p e =
    ap (has k) (on_section-matched g.status g _)
    ∙ ground (arith, eq_iff slot k, e, ap (λ j. Dict.get j p.lanes))
on_lane-matched g slot k (some l) p e =
    ap (has k) (on_slot-matched g slot l p)
    ∙ ground (arith, eq_iff slot k, e, ap (λ j. Dict.get j p.lanes))

on_target-matched :
    (g : Gap) (t : Option String) (k : String) (p : Plan)
    → has k (on_target g t p).matched ≡ (has k p.matched || (is_at k t && has_lane p.lanes k))
on_target-matched g none k p = ap (has k) (on_section-matched g.status g _) ∙ ground arith
on_target-matched g (some slot) k p = on_lane-matched g slot k (Dict.get slot p.lanes) p refl

has-named : (k : String) (gs : List Gap) → any (λ g. is_at k g.slot_id) gs ≡ has k (named gs)
has-named k [] = refl
has-named k (g ∷ gs) = head g.slot_id (has-named k gs)
  where
    head :
        (o : Option String) {b : Bool}
        → b ≡ has k (named gs)
        → (is_at k o || b) ≡ has k (elim o [ none ↦ named gs | some slot ↦ slot ∷ named gs ])
    head none h = h
    head (some slot) h = ap (λ b. str_eq slot k || b) h

join : (a b c d : Bool) → ((a || (b && d)) || (c && d)) ≡ (a || ((b || c) && d))
join a b c d = ground arith

matched-any :
    (k : String) (gs : List Gap) (p : Plan)
    → has k (route_gaps gs p).matched
      ≡ (has k p.matched || (any (λ g. is_at k g.slot_id) gs && has_lane p.lanes k))
unfolding route_gaps route_gap Routes
matched-any k [] p = ground arith
matched-any k (g ∷ gs) p =
    matched-any k gs (on_target g g.slot_id p)
    ∙ ap (λ b. has k (on_target g g.slot_id p).matched || (any (λ x. is_at k x.slot_id) gs && b))
        ((on_target-Routes g g.slot_id p).1 k)
    ∙ ap (λ b. b || (any (λ x. is_at k x.slot_id) gs && has_lane p.lanes k))
        (on_target-matched g g.slot_id k p)
    ∙ join (has k p.matched) (is_at k g.slot_id) (any (λ x. is_at k x.slot_id) gs)
        (has_lane p.lanes k)

matched-named :
    (k : String) (gs : List Gap) (p : Plan)
    → has k (route_gaps gs p).matched
      ≡ (has k p.matched || (has k (named gs) && has_lane p.lanes k))
matched-named k gs p =
    matched-any k gs p ∙ ap (λ b. has k p.matched || (b && has_lane p.lanes k)) (has-named k gs)

-- Every slot of the section has a lane, and no other has.
has_lane-first_lanes :
    (k : String) (ss : List Slot) (m : Dict.Dict Lane)
    → has_lane (first_lanes ss m) k ≡ (has_lane m k || any (λ s. str_eq s.slot_id k) ss)
unfolding first_lanes
has_lane-first_lanes k [] m = ground arith
has_lane-first_lanes k (s ∷ ss) m =
    has_lane-first_lanes k ss (Dict.put s.slot_id (fresh_lane s) m)
    ∙ ap (λ b. b || any (λ t. str_eq t.slot_id k) ss) placed
    ∙ ground arith
  where
    placed : has_lane (Dict.put s.slot_id (fresh_lane s) m) k ≡ (has_lane m k || str_eq s.slot_id k)
    placed = ground (arith, Dict.get-put s.slot_id k (fresh_lane s) m)

has-filter :
    (p : String → Bool) (k : String) (xs : List String) → has k (filter p xs) ≡ (has k xs && p k)
has-filter p k [] = ground arith
has-filter p k (x ∷ xs) = elim (Bool-cases (p x)) [
  | inl yes_p ↦ rw yes_p (ground (arith, has-filter p k xs, yes_p, eq_iff x k, ap p))
  | inr no_p ↦ rw no_p (ground (arith, has-filter p k xs, no_p, eq_iff x k, ap p))
]

-- The code collects exactly the gapped slots.
matched-gapped :
    (ss : List Slot) (gs : List Gap) (k : String)
    → has k (route_gaps gs (opening ss)).matched ≡ has k (gapped_slots ss gs)
unfolding Dict.get
matched-gapped ss gs k =
    matched-named k gs (opening ss)
    ∙ ap (λ b. has k (named gs) && b) (has_lane-first_lanes k ss [])
    ∙ sym (has-filter (λ i. any (λ s. str_eq s.slot_id i) ss) k (named gs))

Gated-same :
    (m : Dict.Dict (List String)) (xs ys : List String) (k : String)
    → ((g : String) → has g xs ≡ has g ys)
    → Gated m xs k
    → Gated m ys k
Gated-same m xs ys k same (direct g c there child) = direct g k (sym (same g) ∙ there) child
Gated-same m xs ys k same (further g c gated child) =
    further g k (Gated-same m xs ys g same gated) child

-- Hanging on the slots that the code collects is hanging on the gapped ones.
pub Gated-gapped :
    (ss : List Slot) (gs : List Gap) (m : Dict.Dict (List String)) (k : String)
    → Gated m (route_gaps gs (opening ss)).matched k ↔ Gated m (gapped_slots ss gs) k
Gated-gapped ss gs m k = (
  Gated-same m _ _ k (matched-gapped ss gs),
  Gated-same m _ _ k (λ g. sym (matched-gapped ss gs g)),
)
