-- ===== src/Web/Events/Tests.antt =====
-- A lane with three events, one of them revised, and the pending store of a pursuit.
use rfp_engine.Prelude.Dict
use rfp_engine.Workspace.Pursuit.Types.{ok, ok-injective}
use rfp_engine.Strategy.Gate.Edits.{strip_prefix}
use rfp_engine.Web.Events.Types.{Event, Python, has_id}
use rfp_engine.Contracts.Lane.{Lane}
use rfp_engine.Prelude.{
  ◌≢◌, ◌≤◌, refl, ap, count_if, zero, [], none, ◌∷◌, ◌≡◌, suc, some, ◌++◌, List, Option, true, ℕ,
  String,
}
use rfp_engine.Web.Events.Read.{set_at, id_of, collapse, last_wins, event_of, latest}
use rfp_engine.Web.Events.Append.{append_lem, highest, has_role, append}
use rfp_engine.Web.Events.Pending.{
  absent, drops, drop_pending, step, run, write_pending, read_pending, is_refused, add_pending,
  Filing, Rules,
}
use rfp_engine.Validation.Audit.{end}
use rfp_engine.Web.Events.Collapse.{last_wins_lem}
use rfp_engine.Web.Events.Cids.{cids_distinct}

abbrev pub memory : Lane Event
memory = record {
  File = List Event;
  read = λ rs. ok rs;
  append = λ r rs. rs ++ r ∷ [];
  read-append = λ r f rs h. ap (λ x. ok (x ++ r ∷ [])) (ok-injective f rs h);
}

-- Numbers are written as strokes.
unfoldable pub strokes_read : String → Option ℕ
strokes_read String.[] = some 0
strokes_read (String.◌∷◌ c s) = elim (strokes_read s) [ none ↦ none | some n ↦ some (suc n) ]

unfoldable pub strokes : ℕ → String
strokes zero = ""
strokes (suc n) = String.◌∷◌ "|" (strokes n)

pub read-strokes : (n : ℕ) → strokes_read (strokes n) ≡ some n
unfolding strokes_read strokes
read-strokes zero = refl
read-strokes (suc n) = rw (read-strokes n) refl

abbrev pub py : Python
py = record {
  digits = strokes_read;
  four_digits = strokes;
  validate = λ e. true;
  actor_roles = "reviewer" ∷ [];
}

abbrev event : Option String → String → Event
event i kind = record {
  event_id = i;
  pursuit_id = "p1";
  kind = kind;
  at = "t1";
  actor = "ana";
  actor_role = "reviewer";
  revision = 1;
  cid = none;
  fields = end;
}

abbrev lines : List Event
lines =
    event (some "evt_|") "edit"
    ∷ event none "note"
    ∷ event (some "evt_||") "accept"
    ∷ event (some "evt_|") "routed"
    ∷ []

last_wins_lem_example :
    (event_of "evt_|" (last_wins lines) ≡ some (event (some "evt_|") "routed"))
    × (count_if (has_id "evt_|") (last_wins lines) ≤ 1)
unfolding latest
last_wins_lem_example = last_wins_lem lines "evt_|" refl

append_lem_example :
    (Lane.read memory (append memory py "p1" 1 "outcome" "t2" "ana" "reviewer" none end lines).1
      ≡ ok (lines ++ record (event (some "evt_|||") "outcome") { at = "t2" } ∷ []))
    × ((i : String) × (some "evt_|||" ≡ some i) × (count_if (has_id i) lines ≡ 0))
unfolding append has_role highest strip_prefix last_wins collapse id_of set_at Dict.get Dict.put
    strokes strokes_read
append_lem_example =
    append_lem memory py read-strokes "p1" 1 "outcome" "t2" "ana" "reviewer" none end lines _ lines
      refl refl

abbrev pub rules : Rules
rules = record {
  actor_roles = "reviewer" ∷ [];
  edit_reasons = "tone" ∷ [];
  is_prose = λ s. true;
  four_digits = strokes;
  is_store = λ s. true;
}

abbrev comment : Filing
comment = record {
  kind = "comment";
  provenance = "internal";
  section_id = "s1";
  actor = "ana";
  actor_role = "reviewer";
  at = "t1";
  slot_id = none;
  text = some "shorter";
  before = none;
  after = none;
  edit_reason = some "tone";
  extra = end;
}

cids_distinct_example : ◌≢◌ {A = String} "cmt_|" "cmt_||"
unfolding add_pending is_refused read_pending write_pending run step drop_pending strokes
cids_distinct_example =
    cids_distinct rules strokes_read comment comment 1 1 (drops (λ c. true) ∷ []) absent _ _
      read-strokes refl refl
