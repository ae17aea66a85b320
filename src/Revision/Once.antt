-- ===== src/Revision/Once.antt =====
-- Each entry that a round takes becomes one event, whatever crashes its commit (engine/revision/round.py).
use rfp_engine.Prelude.Dict
use rfp_engine.Workspace.Pursuit.Types.{ok}
use rfp_engine.Web.Events.Types.{Event, Python, answers}
use rfp_engine.Web.Events.Pending.{Entry}
use rfp_engine.Prelude.{
  zero, suc, take, All, ◌≤◌, refl, arith, some, [], any, ◌↔◌, none, false, ◌∷◌, ◌≡◌, map, true,
  str_eq, ℕ, Bool, List, String,
}
use rfp_engine.Web.Events.Read.{last_wins, index_by_cid}
use rfp_engine.Contracts.Lane.{Lane}
use rfp_engine.Revision.Finalize.{crashed, work_of, crashes, commit, Commit}
use rfp_engine.Revision.Work.{work_distinct, are_distinct, cids}
use rfp_engine.Revision.Replay.{
  IsDone, finalize_all-Finalized, AtMostOnce, index_by_cid-none, IsFresh, seen,
}

module _ (L : Lane Event) (py : Python)
    (digits-four_digits : (n : ℕ) → py.digits (py.four_digits n) ≡ some n) where
  abbrev index : List Event → Dict.Dict Event
  index lines = index_by_cid (last_wins lines) []

  index-none :
      (d : String) (lines : List Event)
      → str_eq d "" ≡ false
      → (Dict.get d (index lines) ≡ none) ↔ (seen d lines ≡ 0)
  unfolding Dict.get
  index-none d lines n = ground (arith, index_by_cid-none d (last_wins lines) [] n)

  index-IsFresh :
      (work : List (Entry × Bool)) (lines : List Event)
      → are_distinct (cids work) ≡ true
      → All (IsFresh L py digits-four_digits (index lines) lines) work
  unfolding are_distinct
  index-IsFresh [] lines apart = tt
  index-IsFresh (w ∷ work) lines apart =
      ((index-none w.0.cid lines (ground arith)).0, index-IsFresh work lines (ground arith))

  all_once :
      (work : List (Entry × Bool)) (lines now : List Event)
      → are_distinct (cids work) ≡ true
      → ((d : String) → seen d lines ≤ seen d now)
      → AtMostOnce L py digits-four_digits now
      → All (IsDone L py digits-four_digits (index lines) now) work
      → All (λ w. seen w.0.cid now ≡ 1) work
  unfolding are_distinct
  all_once [] lines now apart grows once done = tt
  all_once (w ∷ work) lines now apart grows once (h, hs) = (
    ground (arith, h, grows w.0.cid, once w.0.cid, index-none w.0.cid lines (ground arith)),
    all_once work lines now (ground arith) grows once hs,
  )

  -- A lane that reads, and shows no cid twice.
  pub record IsOnce (f : L.File) : Type 0 where
    pub lines : List Event
    pub reads : L.read f ≡ ok lines
    pub once : (c : String) → seen c lines ≤ 1

  commit_lem :
      (c : Commit) (work : List (Entry × Bool)) (f : L.File)
      → IsOnce f
      → are_distinct (cids work) ≡ true
      → (v : IsOnce (commit L py c work f).1) × ((es : List Event)
          → (commit L py c work f).0 ≡ answers es
          → All (λ w. seen w.0.cid v.lines ≡ 1) work)
  unfolding commit
  commit_lem c work f o apart =
      let v =
        finalize_all-Finalized L py digits-four_digits c (index o.lines) work f o.lines o.reads
          o.once apart (index-IsFresh work o.lines apart) in
      rw o.reads (
        record { lines = v.now; reads = v.reads; once = v.once },
        λ es h. all_once work o.lines v.now apart v.grows v.once (v.all_done es h),
      )

  take-any :
      (k : ℕ) (c : String) (work : List (Entry × Bool))
      → any (λ d. str_eq d c) (cids work) ≡ false
      → any (λ d. str_eq d c) (cids (take k work)) ≡ false
  take-any zero c work h = refl
  take-any (suc k) c [] h = refl
  take-any (suc k) c (w ∷ work) h = ground (arith, take-any k c work)

  take_distinct :
      (k : ℕ) (work : List (Entry × Bool))
      → are_distinct (cids work) ≡ true
      → are_distinct (cids (take k work)) ≡ true
  unfolding are_distinct
  take_distinct zero work h = refl
  take_distinct (suc k) [] h = refl
  take_distinct (suc k) (w ∷ work) h = ground (arith, take-any k w.0.cid work, take_distinct k work)

  crashes-IsOnce :
      (attempts : List (Commit × ℕ)) (work : List (Entry × Bool)) (f : L.File)
      → IsOnce f
      → are_distinct (cids work) ≡ true
      → IsOnce (crashes L py attempts work f)
  unfolding crashes
  crashes-IsOnce [] work f o apart = o
  crashes-IsOnce ((c, k) ∷ more) work f o apart =
      crashes-IsOnce more work (crashed L py c k work f)
        ((commit_lem c (take k work) f o (take_distinct k work apart)).0) apart

  -- Every pending entry that a round takes, to consume or to dismiss it, is seen as exactly one event
  -- once a commit has answered, however many commits crashed before it and wherever, each with its
  -- own clock: provided that the lane showed no cid twice, that no two pending entries have one cid
  -- and none an empty one, and that every number in the four-digit format reads back.
  pub commit-IsOnce :
      (pended : String → Bool) (attempts : List (Commit × ℕ)) (c : Commit) (pending : List Entry)
      (f : L.File) (es : List Event)
      → IsOnce f
      → are_distinct (map (λ e. e.cid) pending) ≡ true
      → let work = work_of pended c pending in
        let out = commit L py c work (crashes L py attempts work f) in
        out.0 ≡ answers es → (v : IsOnce out.1) × All (λ w. seen w.0.cid v.lines ≡ 1) work
  commit-IsOnce pended attempts c pending f es o apart h =
      let work = work_of pended c pending in
      let d : are_distinct (cids work) ≡ true = work_distinct pended c pending apart in
      let (v, done) =
        commit_lem c work (crashes L py attempts work f) (crashes-IsOnce attempts work f o d) d in
      (v, done es h)
