-- ===== src/Drafting/Route/Gaps.antt =====
-- What each gap of a section does to the drafting of its slots.
use rfp_engine.Prelude.Dict
use rfp_engine.Drafting.Route.Types.{
  foreign_slot, no_slot, other, pinged, open_gap, omit_approved, draft_flagged, is_model, reframed,
  answered, Plan, Reason, Gap, Lane, GapStatus,
}
use rfp_engine.Prelude.{
  [], any, List, ◌∷◌, inr, ◌∙◌, eq_iff, refl, sym, ap, inl, arith, Bool-cases, ◌||◌, not, none,
  str_eq, ◌≡◌, some, true, ◌&&◌, false, Bool, Option, String,
}
use rfp_engine.Drafting.Route.Plan.{
  gap_label, warn, on_target, on_lane, route_gaps, on_slot, route_gap, dispose, on_section,
}

abbrev pub is_blocking : GapStatus → Bool
is_blocking answered = false
is_blocking reframed = false
is_blocking draft_flagged = false
is_blocking _ = true

abbrev pub is_at : String → Option String → Bool
is_at slot none = false
is_at slot (some t) = str_eq t slot

-- A gap that stands on a slot and does not let the model draft it.
abbrev pub blocks : String → Gap → Bool
blocks slot g = is_blocking g.status && is_at slot g.slot_id

abbrev pub drafted_lane : Option Lane → Bool
drafted_lane none = false
drafted_lane (some l) = is_model l.kind

-- The model is to draft the slot.
abbrev pub drafts : String → Dict.Dict Lane → Bool
drafts slot m = drafted_lane (Dict.get slot m)

abbrev is_there : Option Lane → Bool
is_there none = false
is_there (some l) = true

abbrev pub has_lane : Dict.Dict Lane → String → Bool
has_lane m slot = is_there (Dict.get slot m)

-- A gap that no slot of the section can be found for, and that the engine does not guess about.
abbrev pub is_stray : Dict.Dict Lane → Option String → Bool
is_stray m none = true
is_stray m (some slot) = not (has_lane m slot)

abbrev pub strays : Dict.Dict Lane → Gap → Bool
strays m g = is_blocking g.status && is_stray m g.slot_id

abbrev pub is_pended : Option Reason → Bool
is_pended none = false
is_pended (some r) = true

pub drafts-put :
    (slot k : String) (l l' : Lane) (m : Dict.Dict Lane)
    → Dict.get slot m ≡ some l
    → is_model l.kind ≡ true
    → (drafts k (Dict.put slot l' m)
        ≡ (drafts k m && not (not (is_model l'.kind) && str_eq slot k)))
      × (has_lane (Dict.put slot l' m) k ≡ has_lane m k)
drafts-put slot k l l' m found drafted = elim (Bool-cases (str_eq slot k)) [
  | inl same ↦
      let here : Dict.get k m ≡ some l =
        ap (λ j. Dict.get j m) (sym ((eq_iff slot k).0 same)) ∙ found in
      rw (Dict.get-put slot k l' m, same, here, drafted) (ground arith)
  | inr apart ↦ rw (Dict.get-put slot k l' m, apart) (ground arith)
]

drafts-dispose :
    (s : GapStatus) (g : Gap) (slot : String) (l : Lane) (p : Plan) (k : String)
    → Dict.get slot p.lanes ≡ some l
    → is_model l.kind ≡ true
    → (drafts k (dispose s g slot l p).lanes
        ≡ (drafts k p.lanes && not (is_blocking s && str_eq slot k)))
      × (has_lane (dispose s g slot l p).lanes k ≡ has_lane p.lanes k)
      × (is_pended (dispose s g slot l p).pend ≡ is_pended p.pend)
drafts-dispose omit_approved g slot l p k found drafted =
    let (a, b) = drafts-put slot k l _ p.lanes found drafted in (a, b, refl)
drafts-dispose open_gap g slot l p k found drafted =
    let (a, b) = drafts-put slot k l _ p.lanes found drafted in (a, b, refl)
drafts-dispose pinged g slot l p k found drafted =
    let (a, b) = drafts-put slot k l _ p.lanes found drafted in (a, b, refl)
drafts-dispose answered g slot l p k found drafted =
    let (a, b) = drafts-put slot k l _ p.lanes found drafted in (rw drafted at a, b, refl)
drafts-dispose reframed g slot l p k found drafted =
    let (a, b) = drafts-put slot k l _ p.lanes found drafted in (rw drafted at a, b, refl)
drafts-dispose draft_flagged g slot l p k found drafted =
    let (a, b) = drafts-put slot k l _ p.lanes found drafted in (rw drafted at a, b, refl)
drafts-dispose other g slot l p k found drafted =
    let (a, b) = drafts-put slot k l _ p.lanes found drafted in (a, b, refl)

on_section-keeps :
    (s : GapStatus) (g : Gap) (p : Plan)
    → ((on_section s g p).lanes ≡ p.lanes)
      × (is_pended (on_section s g p).pend ≡ (is_pended p.pend || is_blocking s))
on_section-keeps s g p = ground arith

-- What a gap of a status and a target does: to the drafting of each slot, to the lanes that there
-- are, to the section.
unfoldable pub Routes : GapStatus → Option String → Plan → Plan → Type 0
Routes s t p q =
    ((k : String) → drafts k q.lanes ≡ (drafts k p.lanes && not (is_blocking s && is_at k t)))
    × ((k : String) → has_lane q.lanes k ≡ has_lane p.lanes k)
    × (is_pended q.pend ≡ (is_pended p.pend || (is_blocking s && is_stray p.lanes t)))

pub not_drafted :
    (slot k : String) (l : Lane) (m : Dict.Dict Lane) (b : Bool)
    → Dict.get slot m ≡ some l
    → is_model l.kind ≡ false
    → drafts k m ≡ (drafts k m && not (b && str_eq slot k))
not_drafted slot k l m b found undrafted = elim (Bool-cases (str_eq slot k)) [
  | inl same ↦
      let here : Dict.get k m ≡ some l =
        ap (λ j. Dict.get j m) (sym ((eq_iff slot k).0 same)) ∙ found in
      rw (same, here, undrafted) refl
  | inr apart ↦ rw apart (ground arith)
]

pub stray_undrafted :
    (b : Bool) (m : Dict.Dict Lane) (k : String) (t : Option String)
    → is_stray m t ≡ true
    → drafts k m ≡ (drafts k m && not (b && is_at k t))
stray_undrafted b m k none h = ground arith
stray_undrafted b m k (some slot) h = elim (Bool-cases (str_eq slot k)) [
  | inl same ↦ rw same (ground (arith, h, ap (λ j. Dict.get j m) ((eq_iff slot k).0 same)))
  | inr apart ↦ rw apart (ground arith)
]

-- A gap that goes to the whole section.
on_section-Routes :
    (g : Gap) (s : GapStatus) (t : Option String) (p q : Plan)
    → q.lanes ≡ p.lanes
    → q.pend ≡ p.pend
    → is_stray p.lanes t ≡ true
    → Routes s t p (on_section s g q)
unfolding Routes
on_section-Routes g s t p q same_lanes same_pend stray =
    let (kept, pended) = on_section-keeps s g q in
    (
      λ k. ap (drafts k) (kept ∙ same_lanes) ∙ stray_undrafted (is_blocking s) p.lanes k t stray,
      λ k. ap (λ m. has_lane m k) (kept ∙ same_lanes),
      ground (arith, pended, same_pend, stray),
    )

-- A gap on a slot of the section.
on_slot-Routes :
    (g : Gap) (slot : String) (l : Lane) (p : Plan)
    → Dict.get slot p.lanes ≡ some l
    → Routes g.status (some slot) p (on_slot g slot l p)
unfolding Routes
on_slot-Routes g slot l p found = elim (Bool-cases (is_model l.kind)) [
  | inl drafted ↦
      let q : Plan = record p { matched = slot ∷ p.matched } in
      simp drafted (
        λ k. (drafts-dispose g.status g slot l q k found drafted).0,
        λ k. (drafts-dispose g.status g slot l q k found drafted).1,
        (drafts-dispose g.status g slot l q slot found drafted).2 ∙ unstray,
      )
  | inr undrafted ↦
      simp undrafted (
        λ k. not_drafted slot k l p.lanes (is_blocking g.status) found undrafted,
        λ k. refl,
        unstray,
      )
]
  where
    unstray :
        is_pended p.pend
        ≡ (is_pended p.pend || (is_blocking g.status && is_stray p.lanes (some slot)))
    unstray = rw found (ground arith)

on_lane-Routes :
    (g : Gap) (slot : String) (o : Option Lane) (p : Plan)
    → Dict.get slot p.lanes ≡ o
    → Routes g.status (some slot) p (on_lane g slot o p)
on_lane-Routes g slot none p e =
    on_section-Routes g g.status (some slot) p
      (warn (no_slot (gap_label g none)) (warn (foreign_slot (gap_label g none) slot) p)) refl refl
      (rw e refl)
on_lane-Routes g slot (some l) p e = on_slot-Routes g slot l p e

pub on_target-Routes :
    (g : Gap) (t : Option String) (p : Plan) → Routes g.status t p (on_target g t p)
on_target-Routes g none p =
    on_section-Routes g g.status none p (warn (no_slot (gap_label g none)) p) refl refl refl
on_target-Routes g (some slot) p = on_lane-Routes g slot (Dict.get slot p.lanes) p refl

stray_same :
    (m m' : Dict.Dict Lane) (t : Option String)
    → ((k : String) → has_lane m' k ≡ has_lane m k)
    → is_stray m' t ≡ is_stray m t
stray_same m m' none h = refl
stray_same m m' (some slot) h = ap not (h slot)

any-strays :
    (m m' : Dict.Dict Lane) (gs : List Gap)
    → ((k : String) → has_lane m' k ≡ has_lane m k)
    → any (strays m') gs ≡ any (strays m) gs
any-strays m m' [] h = refl
any-strays m m' (g ∷ gs) h = ground (arith, stray_same m m' g.slot_id h, any-strays m m' gs h)

-- What all the gaps do.
pub route_gaps-lem :
    (gs : List Gap) (p : Plan)
    → ((k : String)
        → drafts k (route_gaps gs p).lanes ≡ (drafts k p.lanes && not (any (blocks k) gs)))
      × (is_pended (route_gaps gs p).pend ≡ (is_pended p.pend || any (strays p.lanes) gs))
unfolding route_gaps Routes route_gap
route_gaps-lem [] p = (λ k. ground arith, ground arith)
route_gaps-lem (g ∷ gs) p =
    let (drafting, lanes, pend) = on_target-Routes g g.slot_id p in
    let (later_drafting, later_pend) = route_gaps-lem gs (route_gap g p) in
    (
      λ k.
          later_drafting k
          ∙ ap (λ b. b && not (any (blocks k) gs)) (drafting k)
          ∙ split_and (drafts k p.lanes) (blocks k g) (any (blocks k) gs),
      later_pend
          ∙ ap (λ b. is_pended (route_gap g p).pend || b)
              (any-strays p.lanes (route_gap g p).lanes gs lanes)
          ∙ ap (λ b. b || any (strays p.lanes) gs) pend
          ∙ split_or (is_pended p.pend) (is_blocking g.status && is_stray p.lanes g.slot_id)
              (any (strays p.lanes) gs),
    )
  where
    split_and : (a b c : Bool) → ((a && not b) && not c) ≡ (a && not (b || c))
    split_and a b c = ground arith

    split_or : (a b c : Bool) → ((a || b) || c) ≡ (a || (b || c))
    split_or a b c = ground arith
