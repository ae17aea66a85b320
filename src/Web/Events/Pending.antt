-- ===== src/Web/Events/Pending.antt =====
-- The pending store of engine/web/events.py: the comments and edits that await a round.
use Prim.Native.String.{◌++◌ as text_append}
use rfp_engine.Prelude.{
  ◌&&◌, ◌+◌, ◌||◌, find?, ◌++◌, [], not, any, false, filter, ◌∷◌, none, if◌then◌else◌, str_eq, true,
  ℕ, Bool, Option, some, List, String,
}
use rfp_engine.Web.Events.Types.{contract_error, events_error, answers, Answer}
use rfp_engine.Validation.Audit.{Fields}

-- An entry by the keys of its schema; `revision` is the draft's when it was filed.
pub record Entry : Type 0 where
  pub cid : String
  pub kind : String
  pub provenance : String
  pub section_id : String
  pub actor : String
  pub actor_role : String
  pub at : String
  pub revision : ℕ
  pub slot_id : Option String
  pub text : Option String
  pub before : Option String
  pub after : Option String
  pub edit_reason : Option String
  pub included_by : Option String
  pub dismissed_by : Option String
  pub extra : Fields

pub record Store : Type 0 where
  pub pending : List Entry
  pub next_cid : ℕ

-- pending.json: not there, not of its schema, or read.
pub data Stored : Type 0 where
  absent invalid : Stored
  stored : Store → Stored

-- What a door asks to file: an entry without the cid and the revision.
pub record Filing : Type 0 where
  pub kind : String
  pub provenance : String
  pub section_id : String
  pub actor : String
  pub actor_role : String
  pub at : String
  pub slot_id : Option String
  pub text : Option String
  pub before : Option String
  pub after : Option String
  pub edit_reason : Option String
  pub extra : Fields

-- The marks that the doors put on an entry, with the actor.
pub data Mark : Type 0 where
  includes dismisses : String → Mark

-- The vocabularies of the schema, the regular expression of `check_prose`, the format `04d`, and
-- the schema of the store.
pub record Rules : Type 0 where
  pub actor_roles : List String
  pub edit_reasons : List String
  pub is_prose : String → Bool
  pub four_digits : ℕ → String
  pub is_store : Store → Bool

unfoldable pub apply_mark : Mark → Entry → Entry
apply_mark (includes who) e = record e { included_by = some who }
apply_mark (dismisses who) e = record e { dismissed_by = some who }

abbrev is_none : Option String → Bool
is_none none = true
is_none (some s) = false

-- `not text`
abbrev is_blank : Option String → Bool
is_blank none = true
is_blank (some s) = str_eq s ""

abbrev pub has_cid : String → Entry → Bool
has_cid c e = str_eq e.cid c

module _ (py : Rules) where
  abbrev listed : Option String → List String → Bool
  listed none names = true
  listed (some r) names = any (λ n. str_eq n r) names

  abbrev is_safe : Option String → Bool
  is_safe none = true
  is_safe (some s) = py.is_prose s

  -- The checks of `add_pending`, in its order; true is an EventsError.
  unfoldable pub is_refused : Filing → Bool
  is_refused a =
      if not (str_eq a.kind "comment" || str_eq a.kind "edit")
      then true
      else if str_eq a.kind "comment" && is_blank a.text
      then true
      else if str_eq a.kind "edit" && (is_none a.before || is_none a.after)
      then true
      else if not (listed a.edit_reason py.edit_reasons)
      then true
      else if not (any (λ n. str_eq n a.actor_role) py.actor_roles)
      then true
      else not (is_safe a.text && (is_safe a.before && is_safe a.after))

  -- `_read_pending`
  unfoldable pub read_pending : Stored → Answer Store
  read_pending absent = answers (record { pending = []; next_cid = 1 })
  read_pending invalid = contract_error
  read_pending (stored s) = answers s

  -- `_write_pending`: the schema is checked on the way out.
  unfoldable pub write_pending : {A : Type 0} → A → Store → Stored → Answer A × Stored
  write_pending a s old = if py.is_store s then (answers a, stored s) else (contract_error, old)

  abbrev pub cid_of : ℕ → String
  cid_of n = text_append "cmt_" (py.four_digits n)

  abbrev pub entry_of : Filing → ℕ → ℕ → Entry
  entry_of a n revision = record {
    cid = cid_of n;
    kind = a.kind;
    provenance = a.provenance;
    section_id = a.section_id;
    actor = a.actor;
    actor_role = a.actor_role;
    at = a.at;
    revision = revision;
    slot_id = a.slot_id;
    text = a.text;
    before = a.before;
    after = a.after;
    edit_reason = a.edit_reason;
    included_by = none;
    dismissed_by = none;
    extra = a.extra;
  }

  abbrev pub add_read : Filing → ℕ → Answer Store → Stored → Answer Entry × Stored
  add_read a revision (answers s) old =
      let e = entry_of a s.next_cid revision in
      write_pending e (record { pending = s.pending ++ e ∷ []; next_cid = s.next_cid + 1 }) old
  add_read a revision events_error old = (events_error, old)
  add_read a revision contract_error old = (contract_error, old)

  -- `add_pending`, where the draft has that revision.
  unfoldable pub add_pending : Filing → ℕ → Stored → Answer Entry × Stored
  unfolding is_refused read_pending write_pending
  add_pending a revision old =
      if is_refused a then (events_error, old) else add_read a revision (read_pending old) old

  -- The entry that `next(…)` finds is changed in place.
  unfoldable pub change_entry : String → (Entry → Entry) → List Entry → List Entry
  change_entry c f [] = []
  change_entry c f (e ∷ es) =
      let rest = change_entry c f es in if has_cid c e then f e ∷ es else e ∷ rest

  abbrev mark_found : String → Mark → Option Entry → Store → Stored → Answer Entry × Stored
  mark_found c k none s old = (events_error, old)
  mark_found c k (some e) s old =
      write_pending (apply_mark k e)
        (record s { pending = change_entry c (apply_mark k) s.pending }) old

  abbrev pub mark_read : String → Mark → Answer Store → Stored → Answer Entry × Stored
  mark_read c k (answers s) old = mark_found c k (find? (has_cid c) s.pending) s old
  mark_read c k events_error old = (events_error, old)
  mark_read c k contract_error old = (contract_error, old)

  unfoldable pub mark_pending : String → Mark → Stored → Answer Entry × Stored
  unfolding read_pending write_pending apply_mark change_entry
  mark_pending c k old = mark_read c k (read_pending old) old

  abbrev pub without : (String → Bool) → List Entry → List Entry
  without gone es = filter (λ e. not (gone e.cid)) es

  abbrev remove_found : String → Option Entry → Store → Stored → Answer Entry × Stored
  remove_found c none s old = (events_error, old)
  remove_found c (some e) s old =
      write_pending e (record s { pending = without (λ d. str_eq d c) s.pending }) old

  abbrev pub remove_read : String → Answer Store → Stored → Answer Entry × Stored
  remove_read c (answers s) old = remove_found c (find? (has_cid c) s.pending) s old
  remove_read c events_error old = (events_error, old)
  remove_read c contract_error old = (contract_error, old)

  -- `remove_pending`: nothing was dropped exactly if no entry has the cid.
  unfoldable pub remove_pending : String → Stored → Answer Entry × Stored
  unfolding read_pending write_pending
  remove_pending c old = remove_read c (read_pending old) old

  abbrev pub drop_read : (String → Bool) → Answer Store → Stored → Answer Unit × Stored
  drop_read gone (answers s) old =
      write_pending tt (record s { pending = without gone s.pending }) old
  drop_read gone events_error old = (events_error, old)
  drop_read gone contract_error old = (contract_error, old)

  -- `drop_pending`, of a set of cids.
  unfoldable pub drop_pending : (String → Bool) → Stored → Answer Unit × Stored
  unfolding read_pending write_pending
  drop_pending gone old = drop_read gone (read_pending old) old

  pub data Op : Type 0 where
    adds : Filing → ℕ → Op
    marks : String → Mark → Op
    removes : String → Op
    drops : (String → Bool) → Op

  unfoldable pub step : Op → Stored → Stored
  unfolding add_pending mark_pending remove_pending drop_pending
  step (adds a revision) s = (add_pending a revision s).1
  step (marks c k) s = (mark_pending c k s).1
  step (removes c) s = (remove_pending c s).1
  step (drops gone) s = (drop_pending gone s).1

  unfoldable pub run : List Op → Stored → Stored
  unfolding step
  run [] s = s
  run (o ∷ os) s = run os (step o s)
