-- ===== src/Revision/Finalize.antt =====
-- The part of engine/revision/round.py that finalizes what a round consumed: each pending entry that
-- the round takes becomes one event of the lane, however often the commit is replayed. The run log's
-- injection-screen lines that stand between are not modelled.
use rfp_engine.Prelude.Dict
use rfp_engine.Workspace.Pursuit.Types.{Result, ok, raise}
use rfp_engine.Prelude.{
  [], ◌∷◌, ◌++◌, take, any, map, none, if◌then◌else◌, filter, true, ◌&&◌, ◌||◌, not, some, List,
  str_eq, false, ℕ, Bool, Option, String,
}
use rfp_engine.Contracts.Lane.{Lane}
use rfp_engine.Validation.Audit.{end, text, field, Fields}
use rfp_engine.Web.Events.Types.{Event, Python, Answer, answers, events_error, contract_error}
use rfp_engine.Web.Events.Append.{append}
use rfp_engine.Web.Events.Pending.{has_cid, Entry}
use rfp_engine.Web.Events.Read.{last_wins, index_by_cid}

-- What one run of the commit brings: its clock, the draft's revision, the sections it left for the
-- next round, the replies by cid, and the section type of each section of the envelope.
pub record Commit : Type 0 where
  pub pursuit_id : String
  pub at : String
  pub revision : ℕ
  pub replies : Dict.Dict String
  pub section_types : Dict.Dict (Option String)

abbrev is_set : Option String → Bool
is_set none = false
is_set (some s) = not (str_eq s "")

-- `pending` that a round may consume.
unfoldable pub is_consumable : Entry → Bool
is_consumable e = str_eq e.provenance "internal" || is_set e.included_by

unfoldable pub is_dismissed : Entry → Bool
is_dismissed e = str_eq e.provenance "external" && is_set e.dismissed_by

module _ (pended : String → Bool) (c : Commit) where
  abbrev is_known : Option (Option String) → Bool
  is_known none = false
  is_known (some t) = true

  unfoldable pub consumed : List Entry → List Entry
  unfolding is_consumable
  consumed pending = filter (λ e. is_consumable e && not (pended e.section_id)) pending

  abbrev pub drops_too : List Entry → Entry → Bool
  drops_too taken e =
      is_dismissed e
      && not (any (has_cid e.cid) taken)
      && (is_known (Dict.get e.section_id c.section_types) && not (pended e.section_id))

  -- The entries in the order they are finalized: those consumed, then those dismissed.
  unfoldable pub dismissed : List Entry → List Entry
  unfolding is_dismissed consumed
  dismissed pending = filter (drops_too (consumed pending)) pending

abbrev field_if : String → Option String → Fields → Fields
field_if k none fs = fs
field_if k (some s) fs = field k (text s) fs

abbrev when_set : Option String → Option String
when_set none = none
when_set (some s) = if str_eq s "" then none else some s

abbrev section_type : Option (Option String) → Option String
section_type none = none
section_type (some t) = t

-- The fields of the event beside its cid; a None is left out by `append`.
unfoldable pub fields_of : Commit → Bool → Entry → Fields
fields_of c with_reply e = field "section_id" (text e.section_id) (
    field_if "section_type" (section_type (Dict.get e.section_id c.section_types)) (
      field_if "edit_reason" (when_set e.edit_reason) (
        if str_eq e.kind "comment"
        then field_if "comment_text" e.text
            (field_if "agent_reply" (if with_reply then Dict.get e.cid c.replies else none) end)
        else field_if "before" e.before (field_if "after" e.after end))))

module _ (L : Lane Event) (py : Python) where
  abbrev finalize_new : Commit → Bool → Entry → Option Event → L.File → Answer Event × L.File
  finalize_new c with_reply e (some done) f = (answers done, f)
  finalize_new c with_reply e none f =
      append L py c.pursuit_id c.revision e.kind c.at e.actor e.actor_role (some e.cid)
        (fields_of c with_reply e) f

  -- `_finalize`
  unfoldable pub finalize : Commit → Dict.Dict Event → Bool → Entry → L.File → Answer Event × L.File
  unfolding append fields_of
  finalize c already with_reply e f = finalize_new c with_reply e (Dict.get e.cid already) f

  abbrev pub joined : Event → Answer (List Event) → Answer (List Event)
  joined e (answers es) = answers (e ∷ es)
  joined e events_error = events_error
  joined e contract_error = contract_error

  abbrev pub and_then :
      Answer Event × L.File → (L.File → Answer (List Event) × L.File) → Answer (List Event) × L.File
  and_then (answers e, f) next = let rest = next f in (joined e rest.0, rest.1)
  and_then (events_error, f) next = (events_error, f)
  and_then (contract_error, f) next = (contract_error, f)

  -- The loop over the entries, each with whether it gets its reply; an exception ends it.
  unfoldable pub finalize_all :
      Commit → Dict.Dict Event → List (Entry × Bool) → L.File → Answer (List Event) × L.File
  unfolding finalize
  finalize_all c already [] f = (answers [], f)
  finalize_all c already ((e, with_reply) ∷ es) f =
      and_then (finalize c already with_reply e f) (λ g. finalize_all c already es g)

  abbrev commit_read :
      Commit → List (Entry × Bool) → L.File → Result (List Event) → Answer (List Event) × L.File
  commit_read c work f (raise e) = (contract_error, f)
  commit_read c work f (ok lines) = finalize_all c (index_by_cid (last_wins lines) []) work f

  -- The finalizing of a commit: what was finalized before is read once, at its start.
  unfoldable pub commit : Commit → List (Entry × Bool) → L.File → Answer (List Event) × L.File
  unfolding finalize_all
  commit c work f = commit_read c work f (L.read f)

  -- A commit that a crash ended after some of its entries.
  abbrev pub crashed : Commit → ℕ → List (Entry × Bool) → L.File → L.File
  crashed c k work f = (commit c (take k work) f).1

  unfoldable pub crashes : List (Commit × ℕ) → List (Entry × Bool) → L.File → L.File
  unfolding commit
  crashes [] work f = f
  crashes ((c, k) ∷ more) work f = crashes more work (crashed c k work f)

abbrev pub work_of : (String → Bool) → Commit → List Entry → List (Entry × Bool)
work_of pended c pending =
    map (λ e. (e, true)) (consumed pended c pending)
    ++ map (λ e. (e, false)) (dismissed pended c pending)
