-- ===== src/Planning/Sections/Aggregate.antt =====
-- `unique_slugs`, `aggregate` and `assert_zero_silent_misses` of engine/planning/sections.py.
-- Python's `str.strip`, `rstrip(" >")` and `str` of a number are parameters, and so is what the
-- regular expression, `strip("-")` and the cut to 30 characters make of a title.
use rfp_engine.Prelude.Dict
use Prim.Native.String.{◌++◌ as text_append}
use rfp_engine.Prelude.{
  any, ◌==◌, suc, ◌||◌, ◌&&◌, all, count_if, not, some, false, true, str_eq, ℕ, none, ◌++◌, ◌∷◌,
  if◌then◌else◌, Bool, [], List, Option, String,
}

-- What is read of a slot; a text that is absent is empty where the code reads both alike.
pub record Slot : Type 0 where
  pub slot_id : String
  pub sheet : String
  pub is_header : Bool
  pub parent : Option String
  pub path : String
  pub question_text : String
  pub ref_id : String

pub record Group : Type 0 where
  pub title : String
  pub members : List Slot

-- `current_key`: the sheet, and the slot that opened the section.
abbrev pub Key : Type 0
Key = Option (String × Option String)

pub record Grouping : Type 0 where
  pub groups : List Group
  pub key : Key

pub record Section : Type 0 where
  pub section_id : String
  pub title : String
  pub slot_ids : List String

abbrev or_text : String → String → String
or_text a b = if str_eq a "" then b else a

abbrev same_parent : Option String → Option String → Bool
same_parent none none = true
same_parent (some a) (some b) = str_eq a b
same_parent _ _ = false

abbrev pub has_parent : Option String → Bool
has_parent none = false
has_parent (some p) = not (str_eq p "")

abbrev pub joins_parent : String → Option String → Key → Bool
joins_parent sheet parent none = false
joins_parent sheet parent (some (s, opener)) = str_eq s sheet && same_parent parent opener

abbrev pub in_bare_sheet : String → Key → Bool
in_bare_sheet sheet (some (s, none)) = str_eq s sheet
in_bare_sheet sheet _ = false

-- `groups[-1][1].append(slot)`
unfoldable pub join_last : Slot → List Group → List Group
join_last s [] = []
join_last s (g ∷ []) = record g { members = g.members ++ s ∷ [] } ∷ []
join_last s (g ∷ h ∷ gs) = g ∷ join_last s (h ∷ gs)

abbrev pub join : Slot → Grouping → Grouping
join s a = record a { groups = join_last s a.groups }

abbrev pub open_group : String → Slot → Key → Grouping → Grouping
open_group title s key a = record {
  groups = a.groups ++ record { title = title; members = s ∷ [] } ∷ [];
  key = key;
}

module _ (strip rstrip : String → String) where
  -- The lane of a slot with no sheet.
  abbrev pub add_docx : Slot → Grouping → Grouping
  add_docx s a =
      if not (s.is_header || not (has_parent s.parent)) && joins_parent "" s.parent a.key
      then join s a
      else open_group (strip (or_text s.path (or_text s.question_text s.slot_id))) s
          (some ("", some s.slot_id)) a

  -- The lane of a slot on a sheet.
  abbrev pub add_sheet : String → Slot → Grouping → Grouping
  add_sheet sheet s a =
      if s.is_header
      then open_group
          (rstrip
            (text_append sheet (text_append " > " (strip (or_text s.question_text s.ref_id)))))
          s (some (sheet, some s.slot_id)) a
      else if joins_parent sheet s.parent a.key || in_bare_sheet sheet a.key
      then join s a
      else open_group sheet s (some (sheet, none)) a

  unfoldable pub add_slot : Slot → Grouping → Grouping
  unfolding join_last
  add_slot s a =
      let sheet = strip s.sheet in if str_eq sheet "" then add_docx s a else add_sheet sheet s a

  unfoldable pub add_slots : List Slot → Grouping → Grouping
  unfolding add_slot
  add_slots [] a = a
  add_slots (s ∷ ss) a = add_slots ss (add_slot s a)

abbrev pub no_groups : Grouping
no_groups = record { groups = []; key = none }

module _ (clean : String → String) (str : ℕ → String) where
  unfoldable pub slug : String → String
  slug title = or_text (clean title) "section"

  abbrev pub numbered : String → Option ℕ → Dict.Dict ℕ → String × Dict.Dict ℕ
  numbered s none seen = (s, Dict.put s 1 seen)
  numbered s (some n) seen =
      (text_append s (text_append "-" (str (suc n))), Dict.put s (suc n) seen)

  -- The loop of `unique_slugs`.
  unfoldable pub unique_from : Dict.Dict ℕ → List String → List String
  unfolding slug
  unique_from seen [] = []
  unique_from seen (t ∷ ts) =
      let (s, seen') = numbered (slug t) (Dict.get (slug t) seen) seen in s ∷ unique_from seen' ts

  unfoldable pub unique_slugs : List String → List String
  unfolding unique_from
  unique_slugs titles = unique_from [] titles

unfoldable pub titles_of : List Group → List String
titles_of [] = []
titles_of (g ∷ gs) = g.title ∷ titles_of gs

unfoldable pub ids_of : List Slot → List String
ids_of [] = []
ids_of (s ∷ ss) = s.slot_id ∷ ids_of ss

-- `zip(ids, groups)`
unfoldable pub sections_of : List String → List Group → List Section
unfolding ids_of
sections_of (i ∷ ids) (g ∷ gs) =
    record { section_id = i; title = g.title; slot_ids = ids_of g.members } ∷ sections_of ids gs
sections_of _ _ = []

module _ (strip rstrip clean : String → String) (str : ℕ → String) where
  unfoldable pub aggregate : List Slot → List Section
  unfolding add_slots unique_slugs titles_of sections_of
  aggregate ss =
      let gs = (add_slots strip rstrip ss no_groups).groups in
      sections_of (unique_slugs clean str (titles_of gs)) gs

unfoldable pub sectioned : List Section → List String
sectioned [] = []
sectioned (s ∷ ss) = s.slot_ids ++ sectioned ss

abbrev pub count_of : String → List String → ℕ
count_of k = count_if (λ i. str_eq i k)

-- `sorted(xs) == sorted(ys)`, as equal counts.
abbrev pub same_items : List String → List String → Bool
same_items xs ys = all (λ k. count_of k xs == count_of k ys) (xs ++ ys)

abbrev dispositions : List String
dispositions = "grounded" ∷ "gapped" ∷ "shape_skipped" ∷ "gated_skipped" ∷ []

abbrev is_disposition : Option String → Bool
is_disposition none = false
is_disposition (some d) = any (str_eq d) dispositions

abbrev pub is_disposed : (String → Option String) → Slot → Bool
is_disposed disposition s = is_disposition (disposition s.slot_id)

-- Whether `assert_zero_silent_misses` lets the plan pass.
unfoldable pub zero_silent_misses : List Slot → List Section → (String → Option String) → Bool
unfolding sectioned ids_of
zero_silent_misses ss sections disposition =
    same_items (sectioned sections) (ids_of ss) && all (is_disposed disposition) ss
