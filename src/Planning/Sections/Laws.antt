-- ===== src/Planning/Sections/Laws.antt =====
-- Every slot is in exactly one section, in the order of the slots.
use rfp_engine.Prelude.Dict
use rfp_engine.Prelude.{
  inr, false, ◌==◌, inl, if◌then◌else◌, ◌⊎◌, arith, some, str_eq, not, ◌||◌, ◌&&◌, true, all, ℕ,
  Bool, Option, sym, ◌∙◌, refl, none, ap, [], ◌≡◌, ◌≢◌, ◌++◌, ◌∷◌, String, List,
}
use rfp_engine.Planning.Sections.Aggregate.{
  slug, numbered, titles_of, unique_from, no_groups, sections_of, has_parent, is_disposed, count_of,
  unique_slugs, sectioned, joins_parent, zero_silent_misses, aggregate, add_slots, add_slot,
  add_sheet, add_docx, in_bare_sheet, join, open_group, Key, Group, Slot, Grouping, join_last,
  ids_of,
}

-- All members of all groups, in order.
members_of : List Group → List String
members_of [] = []
members_of (g ∷ gs) = ids_of g.members ++ members_of gs

ids_of-append : (ss : List Slot) (s : Slot) → ids_of (ss ++ s ∷ []) ≡ ids_of ss ++ s.slot_id ∷ []
unfolding ids_of
ids_of-append [] s = refl
ids_of-append (x ∷ ss) s = ap (λ is. x.slot_id ∷ is) (ids_of-append ss s)

append_assoc : (xs ys zs : List String) → (xs ++ ys) ++ zs ≡ xs ++ (ys ++ zs)
append_assoc [] ys zs = refl
append_assoc (x ∷ xs) ys zs = ap (λ l. x ∷ l) (append_assoc xs ys zs)

append_nil : (xs : List String) → xs ++ [] ≡ xs
append_nil [] = refl
append_nil (x ∷ xs) = ap (λ l. x ∷ l) (append_nil xs)

open_group-members :
    (gs : List Group) (title : String) (s : Slot)
    → members_of (gs ++ record { title = title; members = s ∷ [] } ∷ [])
      ≡ members_of gs ++ s.slot_id ∷ []
unfolding members_of ids_of
open_group-members [] title s = refl
open_group-members (g ∷ gs) title s =
    ap (λ l. ids_of g.members ++ l) (open_group-members gs title s)
    ∙ sym (append_assoc (ids_of g.members) (members_of gs) (s.slot_id ∷ []))

join_last-members :
    (s : Slot) (g : Group) (gs : List Group)
    → members_of (join_last s (g ∷ gs)) ≡ members_of (g ∷ gs) ++ s.slot_id ∷ []
unfolding members_of join_last
join_last-members s g [] =
    append_nil (ids_of (g.members ++ s ∷ []))
    ∙ ids_of-append g.members s
    ∙ ap (λ l. l ++ s.slot_id ∷ []) (sym (append_nil (ids_of g.members)))
join_last-members s g (h ∷ gs) =
    ap (λ l. ids_of g.members ++ l) (join_last-members s h gs)
    ∙ sym (append_assoc (ids_of g.members) (members_of (h ∷ gs)) (s.slot_id ∷ []))

-- A current key means that a group is open.
Opened : Grouping → Type 0
Opened a = (a.key ≢ none) → a.groups ≢ []

-- What one slot does: it is the last member, and a group is open.
Adds : Slot → Grouping → Grouping → Type 0
Adds s a b = (members_of b.groups ≡ members_of a.groups ++ s.slot_id ∷ []) × (b.groups ≢ [])

cons_apart : (g : Group) (gs : List Group) → (g ∷ gs) ≢ []
cons_apart g gs h = cc

open_group-Adds :
    (title : String) (s : Slot) (key : Key) (a : Grouping) → Adds s a (open_group title s key a)
unfolding Adds
open_group-Adds title s key a = (open_group-members a.groups title s, ends_apart a.groups)
  where
    ends_apart : (gs : List Group) → (gs ++ record { title = title; members = s ∷ [] } ∷ []) ≢ []
    ends_apart [] h = cc
    ends_apart (g ∷ gs) h = cc

join-Adds : (s : Slot) (a : Grouping) → a.groups ≢ [] → Adds s a (join s a)
unfolding Adds join_last
join-Adds s a full = joined a.groups full
  where
    joined :
        (gs : List Group)
        → gs ≢ []
        → (members_of (join_last s gs) ≡ members_of gs ++ s.slot_id ∷ []) × (join_last s gs ≢ [])
    joined [] full = absurd (full refl)
    joined (g ∷ []) full = (join_last-members s g [], λ h. cc)
    joined (g ∷ h ∷ gs) full = (join_last-members s g (h ∷ gs), λ h. cc)

joins_parent-some :
    (sheet : String) (parent : Option String) (key : Key)
    → joins_parent sheet parent key ≡ true
    → key ≢ none
joins_parent-some sheet parent none h e = cc
joins_parent-some sheet parent (some k) h e = cc

in_bare_sheet-some : (sheet : String) (key : Key) → in_bare_sheet sheet key ≡ true → key ≢ none
in_bare_sheet-some sheet none h e = cc
in_bare_sheet-some sheet (some k) h e = cc

and_right : (a b : Bool) → (a && b) ≡ true → b ≡ true
and_right a b h = ground arith

or_cases : (a b : Bool) → (a || b) ≡ true → (a ≡ true) ⊎ (b ≡ true)
or_cases a b h = ground arith

-- Either way of placing a slot adds it, where joining is safe.
Adds-if :
    (b : Bool) (s : Slot) (a x y : Grouping)
    → (b ≡ true → Adds s a x)
    → Adds s a y
    → Adds s a (if b then x else y)
Adds-if true s a x y h k = h refl
Adds-if false s a x y h k = k

module _ (strip rstrip : String → String) where
  add_docx-Adds : (s : Slot) (a : Grouping) → Opened a → Adds s a (add_docx strip rstrip s a)
  unfolding Opened
  add_docx-Adds s a opened =
      Adds-if (not (s.is_header || not (has_parent s.parent)) && joins_parent "" s.parent a.key) s a
        (join s a) _
        (λ h. join-Adds s a (opened (joins_parent-some "" s.parent a.key (and_right _ _ h))))
        (open_group-Adds _ s _ a)

  add_sheet-Adds :
      (sheet : String) (s : Slot) (a : Grouping)
      → Opened a
      → Adds s a (add_sheet strip rstrip sheet s a)
  unfolding Opened
  add_sheet-Adds sheet s a opened =
      Adds-if s.is_header s a _ _ (λ h. open_group-Adds _ s _ a)
        (Adds-if (joins_parent sheet s.parent a.key || in_bare_sheet sheet a.key) s a (join s a) _
          (λ h. join-Adds s a (
            opened (elim (or_cases _ _ h) [
              | inl j ↦ joins_parent-some sheet s.parent a.key j
              | inr b ↦ in_bare_sheet-some sheet a.key b
            ])))
          (open_group-Adds _ s _ a))

  add_slot-Adds : (s : Slot) (a : Grouping) → Opened a → Adds s a (add_slot strip rstrip s a)
  unfolding add_slot
  add_slot-Adds s a opened =
      Adds-if (str_eq (strip s.sheet) "") s a _ _ (λ h. add_docx-Adds s a opened)
        (add_sheet-Adds (strip s.sheet) s a opened)

  add_slots-members :
      (ss : List Slot) (a : Grouping)
      → Opened a
      → members_of (add_slots strip rstrip ss a).groups ≡ members_of a.groups ++ ids_of ss
  unfolding add_slots ids_of Opened Adds
  add_slots-members [] a opened = sym (append_nil (members_of a.groups))
  add_slots-members (s ∷ ss) a opened =
      let (added, full) = add_slot-Adds s a opened in
      add_slots-members ss (add_slot strip rstrip s a) (λ k. full)
      ∙ ap (λ l. l ++ ids_of ss) added
      ∙ append_assoc (members_of a.groups) (s.slot_id ∷ []) (ids_of ss)

module _ (clean : String → String) (str : ℕ → String) where
  sectioned-members :
      (seen : Dict.Dict ℕ) (gs : List Group)
      → sectioned (sections_of (unique_from clean str seen (titles_of gs)) gs) ≡ members_of gs
  unfolding sectioned sections_of unique_from titles_of members_of
  sectioned-members seen [] = refl
  sectioned-members seen (g ∷ gs) =
      ap (λ l. ids_of g.members ++ l)
        (sectioned-members
          (numbered clean str (slug clean str g.title) (Dict.get (slug clean str g.title) seen)
            seen).1
          gs)

-- The sections of a plan hold every slot exactly once, in the order of the slots.
pub aggregate_covers :
    (strip rstrip clean : String → String) (str : ℕ → String) (ss : List Slot)
    → sectioned (aggregate strip rstrip clean str ss) ≡ ids_of ss
unfolding aggregate unique_slugs members_of Opened
aggregate_covers strip rstrip clean str ss =
    sectioned-members clean str [] (add_slots strip rstrip ss no_groups).groups
    ∙ add_slots-members strip rstrip ss no_groups (λ k e. k refl)

same_items_refl : (xs ys : List String) → all (λ k. count_of k xs == count_of k xs) ys ≡ true
same_items_refl xs [] = refl
same_items_refl xs (y ∷ ys) = ground (arith, same_items_refl xs ys)

-- Over the sections that `aggregate` makes, the check for silent misses passes exactly if every
-- slot has one of the four dispositions.
pub aggregate_never_misses :
    (strip rstrip clean : String → String) (str : ℕ → String) (ss : List Slot)
    (disposition : String → Option String)
    → zero_silent_misses ss (aggregate strip rstrip clean str ss) disposition
      ≡ all (is_disposed disposition) ss
unfolding zero_silent_misses
aggregate_never_misses strip rstrip clean str ss disposition =
    rw
      (
        aggregate_covers strip rstrip clean str ss,
        same_items_refl (ids_of ss) (ids_of ss ++ ids_of ss),
      )
      refl
