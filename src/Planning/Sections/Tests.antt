-- ===== src/Planning/Sections/Tests.antt =====
-- Slots of a sheet and of a document, and the theorems there.
use rfp_engine.Prelude.Dict
use rfp_engine.Prelude.{
  ◌↔◌, length, refl, [], false, ◌∷◌, none, some, true, ◌==◌, ◌≡◌, Option, Bool, if◌then◌else◌, List,
  ℕ, String,
}
use rfp_engine.Planning.Sections.Aggregate.{
  sections_of, titles_of, join_last, add_slot, slug, ids_of, add_slots, unique_from, Slot,
  unique_slugs, sectioned, aggregate,
}
use rfp_engine.Planning.Sections.Laws.{aggregate_covers}
use rfp_engine.Planning.Sections.Cascade.{gates_by_id, has, cascade_gating, Gater}
use rfp_engine.Planning.Sections.Cascade.Reach.{Gated}
use rfp_engine.Planning.Sections.Cascade.Loop.{cascade_gating_lem}

abbrev same : String → String
same s = s

abbrev digit : ℕ → String
digit n = if n == 2 then "2" else "n"

abbrev slot : String → String → Bool → Option String → Slot
slot i sheet header parent = record {
  slot_id = i;
  sheet = sheet;
  is_header = header;
  parent = parent;
  path = "p";
  question_text = "q";
  ref_id = "";
}

abbrev slots : List Slot
slots =
    slot "s1" "A" true none
    ∷ slot "s2" "A" false (some "s1")
    ∷ slot "s3" "" false none
    ∷ slot "s4" "" false (some "s3")
    ∷ slot "s5" "" false none
    ∷ []

abbrev all_gapped : String → Option String
all_gapped i = some "gapped"

three_sections : length (aggregate same same same digit slots) ≡ 3
unfolding aggregate unique_slugs unique_from add_slots add_slot join_last titles_of sections_of slug
    Dict.get Dict.put
three_sections = refl

aggregate_covers_example : sectioned (aggregate same same same digit slots) ≡ ids_of slots
aggregate_covers_example = aggregate_covers same same same digit slots

-- Three titles, two ids: a numbered id meets the id of a title that carries the number itself.
slugs_meet : unique_slugs same digit ("a" ∷ "a-2" ∷ "a" ∷ []) ≡ "a" ∷ "a-2" ∷ "a-2" ∷ []
unfolding unique_slugs unique_from slug Dict.get Dict.put
slugs_meet = refl

-- "a" and "b" gate one another, and "b" gates an unknown slot.
abbrev gate_cycle : List Gater
gate_cycle =
    record { slot_id = "a"; gates = "b" ∷ [] }
    ∷ record { slot_id = "b"; gates = "a" ∷ "z" ∷ [] }
    ∷ []

cascade_gating_lem_example :
    (out : List String) × (cascade_gating gate_cycle ("a" ∷ []) ≡ some out)
    × ((k : String) → (has k out ≡ true) ↔ Gated (gates_by_id gate_cycle []) ("a" ∷ []) k)
cascade_gating_lem_example = cascade_gating_lem gate_cycle ("a" ∷ [])
