-- ===== src/Revision/Tests.antt =====
-- A round with one comment that it consumes and a guest's that was dismissed, whose commit crashed
-- after the first.
use rfp_engine.Prelude.Dict
use rfp_engine.Web.Events.Append
use rfp_engine.Strategy.Gate.Edits.{strip_prefix}
use rfp_engine.Web.Events.Tests.{memory, py, strokes_read, strokes, read-strokes}
use rfp_engine.Web.Events.Types.{Event}
use rfp_engine.Web.Events.Pending.{Entry}
use rfp_engine.Prelude.{refl, arith, ◌≡◌, All, false, [], ◌∷◌, some, none, Option, List, String}
use rfp_engine.Revision.Finalize.{
  fields_of, is_dismissed, is_consumable, dismissed, consumed, finalize, finalize_all, work_of,
  commit, Commit, crashes,
}
use rfp_engine.Validation.Audit.{end}
use rfp_engine.Web.Events.Append.{has_role, append}
use rfp_engine.Web.Events.Read.{index_by_cid, set_at, id_of, collapse, last_wins}
use rfp_engine.Revision.Work.{are_distinct}
use rfp_engine.Revision.Once.{commit-IsOnce, IsOnce}
use rfp_engine.Revision.Replay.{seen}

abbrev entry : String → String → Option String → Entry
entry c provenance dismissed_by = record {
  cid = c;
  kind = "comment";
  provenance = provenance;
  section_id = "s1";
  actor = "ana";
  actor_role = "reviewer";
  at = "t1";
  revision = 1;
  slot_id = none;
  text = some "shorter";
  before = none;
  after = none;
  edit_reason = none;
  included_by = none;
  dismissed_by = dismissed_by;
  extra = end;
}

abbrev pending : List Entry
pending = entry "cmt_|" "internal" none ∷ entry "cmt_||" "external" (some "bo") ∷ []

abbrev round : String → Commit
round at = record {
  pursuit_id = "p1";
  at = at;
  revision = 2;
  replies = ("cmt_|", "done") ∷ [];
  section_types = ("s1", none) ∷ [];
}

abbrev done : List Event
done =
    ((commit memory py (round "t3") (work_of (λ s. false) (round "t3") pending)
      (crashes memory py ((round "t2", 1) ∷ []) (work_of (λ s. false) (round "t3") pending) [])).1)

commit-IsOnce_example :
    (v : IsOnce memory py read-strokes done) × All
      (λ w. seen w.0.cid v.lines ≡ 1)
      (work_of (λ s. false) (round "t3") pending)
unfolding crashes commit finalize_all finalize append has_role Append.highest strip_prefix last_wins
    collapse id_of set_at Dict.get Dict.put strokes strokes_read consumed dismissed is_consumable
    is_dismissed index_by_cid are_distinct fields_of
commit-IsOnce_example =
    commit-IsOnce memory py read-strokes (λ s. false) ((round "t2", 1) ∷ []) (round "t3") pending []
      _ (record { lines = []; reads = refl; once = λ c. omega arith }) refl refl
