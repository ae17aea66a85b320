-- ===== src/Revision/Replay.antt =====
-- One run of a round's finalizing, on the lane as a reader sees it (engine/revision/round.py).
use rfp_engine.Prelude.Dict
use rfp_engine.Workspace.Pursuit.Types.{ok}
use rfp_engine.Web.Events.Types.{
  is_id, Event, Python, Answer, answers, events_error, contract_error,
}
use rfp_engine.Web.Events.Pending.{Entry}
use rfp_engine.Web.Events.Append.{append, append-Appended}
use rfp_engine.Prelude.{
  eq_refl, ◌⊎◌, count_if-append, Option-cases, ◌∙◌, ap, inr, eq_iff, bit, inl, All, ◌≤◌, ◌+◌, refl,
  Bool-cases, ◌++◌, arith, some, [], Option, any, ◌↔◌, none, false, ◌∷◌, ◌≡◌, true, count_if,
  str_eq, ℕ, Bool, List, String,
}
use rfp_engine.Web.Events.Read.{put_cid, last_wins, index_by_cid}
use rfp_engine.Contracts.Lane.{Lane}
use rfp_engine.Revision.Finalize.{finalize, and_then, joined, fields_of, Commit, finalize_all}
use rfp_engine.Revision.Work.{are_distinct, cids}

-- The event finalizes the entry of that cid.
abbrev pub carries : String → Event → Bool
carries c e = is_id c e.cid

-- How many events of that cid a reader of the lane sees.
abbrev pub seen : String → List Event → ℕ
seen c lines = count_if (carries c) (last_wins lines)

get-put_cid :
    (c : String) (o : Option String) (e : Event) (m : Dict.Dict Event)
    → str_eq c "" ≡ false
    → (Dict.get c (put_cid o e m) ≡ none) ↔ ((is_id c o ≡ false) × (Dict.get c m ≡ none))
get-put_cid c none e m n = (λ h. (refl, h), λ h. h.1)
get-put_cid c (some d) e m n = elim (Bool-cases (str_eq d "")) [
  | inl blank ↦ rw blank (ground (arith, eq_iff d "", eq_iff d c, eq_iff c ""))
  | inr full ↦ rw full (ground (arith, Dict.get-put d c e m, eq_iff d c))
]

pub index_by_cid-none :
    (c : String) (es : List Event) (m : Dict.Dict Event)
    → str_eq c "" ≡ false
    → (Dict.get c (index_by_cid es m) ≡ none)
      ↔ ((count_if (carries c) es ≡ 0) × (Dict.get c m ≡ none))
unfolding index_by_cid
index_by_cid-none c [] m n = (λ h. (refl, h), λ h. h.1)
index_by_cid-none c (e ∷ es) m n =
    ground (arith, get-put_cid c e.cid e m n, index_by_cid-none c es (put_cid e.cid e m) n)

seen-append :
    (c : String) (lines : List Event) (e : Event)
    → last_wins (lines ++ e ∷ []) ≡ last_wins lines ++ e ∷ []
    → seen c (lines ++ e ∷ []) ≡ seen c lines + bit (carries c e)
seen-append c lines e h =
    ap (count_if (carries c)) h
    ∙ ground (arith, count_if-append (carries c) (last_wins lines) (e ∷ []))

module _ (L : Lane Event) (py : Python)
    (digits-four_digits : (n : ℕ) → py.digits (py.four_digits n) ≡ some n) where
  abbrev pub AtMostOnce : List Event → Type 0
  AtMostOnce lines = (c : String) → seen c lines ≤ 1

  abbrev pub IsFresh : Dict.Dict Event → List Event → (Entry × Bool) → Type 0
  IsFresh already lines w = Dict.get w.0.cid already ≡ none → seen w.0.cid lines ≡ 0

  abbrev pub IsDone : Dict.Dict Event → List Event → (Entry × Bool) → Type 0
  IsDone already lines w = Dict.get w.0.cid already ≡ none → seen w.0.cid lines ≡ 1

  -- What finalizing leaves of a lane.
  pub record Finalized (already : Dict.Dict Event) (work : List (Entry × Bool)) (lines : List Event)
      (out : Answer (List Event) × L.File) : Type 0 where
    pub now : List Event
    pub reads : L.read out.1 ≡ ok now
    pub once : AtMostOnce now
    pub grows : (c : String) → seen c lines ≤ seen c now
    pub all_done : (es : List Event) → out.0 ≡ answers es → All (IsDone already now) work

  apart-IsFresh :
      (already : Dict.Dict Event) (c : String) (lines after : List Event)
      (work : List (Entry × Bool))
      → ((d : String) → str_eq c d ≡ false → seen d after ≡ seen d lines)
      → any (λ d. str_eq d c) (cids work) ≡ false
      → All (IsFresh already lines) work
      → All (IsFresh already after) work
  apart-IsFresh already c lines after [] same other fresh = tt
  apart-IsFresh already c lines after (w ∷ work) same other (h, hs) = (
    λ new. same w.0.cid (ground (arith, eq_iff c w.0.cid, eq_iff w.0.cid c)) ∙ h new,
    apart-IsFresh already c lines after work same (ground arith) hs,
  )

  joined-answers :
      (e : Event) (a : Answer (List Event)) (es : List Event)
      → joined L py e a ≡ answers es
      → (rest : List Event) × (a ≡ answers rest)
  joined-answers e (answers rest) es h = (rest, refl)
  joined-answers e events_error es h = absurd (ground arith)
  joined-answers e contract_error es h = absurd (ground arith)

  -- The rest of the loop after an entry that was finalized, by this run or before it.
  after_entry :
      (already : Dict.Dict Event) (w : Entry × Bool) (work : List (Entry × Bool))
      (lines now : List Event) (p : Answer Event × L.File)
      (next : L.File → Answer (List Event) × L.File) (ev : Event)
      → p.0 ≡ answers ev
      → Finalized already work now (next p.1)
      → ((d : String) → seen d lines ≤ seen d now)
      → (Dict.get w.0.cid already ≡ none → seen w.0.cid now ≡ 1)
      → Finalized already (w ∷ work) lines (and_then L py p next)
  after_entry already w work lines now (events_error, g) next ev h v grows done =
      absurd (ground arith)
  after_entry already w work lines now (contract_error, g) next ev h v grows done =
      absurd (ground arith)
  after_entry already w work lines now (answers ev', g) next ev h v grows done = record {
    now = v.now;
    reads = v.reads;
    once = v.once;
    grows = λ d. omega (arith, grows d, v.grows d);
    all_done = λ es k.
        let (rest, all) = joined-answers ev' (next g).0 es k in
        (λ new. omega (arith, done new, v.grows w.0.cid, v.once w.0.cid), v.all_done rest all);
  }

  -- An exception ends the loop.
  after_failure :
      (already : Dict.Dict Event) (work : List (Entry × Bool)) (lines : List Event)
      (p : Answer Event × L.File) (next : L.File → Answer (List Event) × L.File)
      → L.read p.1 ≡ ok lines
      → AtMostOnce lines
      → (p.0 ≡ events_error) ⊎ (p.0 ≡ contract_error)
      → Finalized already work lines (and_then L py p next)
  after_failure already work lines (answers ev, g) next reads once (inl h) = absurd (ground arith)
  after_failure already work lines (answers ev, g) next reads once (inr h) = absurd (ground arith)
  after_failure already work lines (events_error, g) next reads once h = record {
    now = lines;
    reads = reads;
    once = once;
    grows = λ d. omega arith;
    all_done = λ es k. absurd (ground arith);
  }
  after_failure already work lines (contract_error, g) next reads once h = record {
    now = lines;
    reads = reads;
    once = once;
    grows = λ d. omega arith;
    all_done = λ es k. absurd (ground arith);
  }

  pub finalize_all-Finalized :
      (c : Commit) (already : Dict.Dict Event) (work : List (Entry × Bool)) (f : L.File)
      (lines : List Event)
      → L.read f ≡ ok lines
      → AtMostOnce lines
      → are_distinct (cids work) ≡ true
      → All (IsFresh already lines) work
      → Finalized already work lines (finalize_all L py c already work f)
  unfolding finalize_all finalize are_distinct
  finalize_all-Finalized c already [] f lines reads once apart fresh = record {
    now = lines;
    reads = reads;
    once = once;
    grows = λ d. omega arith;
    all_done = λ es h. tt;
  }
  finalize_all-Finalized c already ((e, b) ∷ work) f lines reads once apart (here, fresh) =
      elim (Option-cases (Dict.get e.cid already)) [
        | inr (done, old) ↦
            let v = finalize_all-Finalized c already work f lines reads once (ground arith) fresh in
            rw old (
              after_entry already (e, b) work lines lines (answers done, f)
                (λ g. finalize_all L py c already work g) done refl v (λ d. omega arith)
                (λ new. absurd (ground (arith, old, new))))
        | inl new ↦
            let p =
              append L py c.pursuit_id c.revision e.kind c.at e.actor e.actor_role (some e.cid)
                (fields_of c b e) f in
            let next : L.File → Answer (List Event) × L.File =
              λ g. finalize_all L py c already work g in
            elim (append-Appended L py digits-four_digits c.pursuit_id c.revision e.kind c.at
              e.actor e.actor_role (some e.cid) (fields_of c b e) f lines reads) [
                | inl (ev, made, carried, reads', view) ↦
                    let more : (d : String)
                        → seen d (lines ++ ev ∷ []) ≡ seen d lines + bit (str_eq e.cid d) =
                      λ d.
                        seen-append d lines ev view
                        ∙ ap (λ o. seen d lines + bit (is_id d o)) carried in
                    let none_before : seen e.cid lines ≡ 0 = here new in
                    let v =
                      finalize_all-Finalized c already work p.1 (lines ++ ev ∷ []) reads'
                        (λ d. ground (arith, more d, once d, none_before, eq_iff e.cid d))
                        (ground arith)
                        (apart-IsFresh already e.cid lines (lines ++ ev ∷ []) work
                          (λ d other. ground (arith, more d, other)) (ground arith) fresh) in
                    rw new (
                      after_entry already (e, b) work lines (lines ++ ev ∷ []) p next ev made v
                        (λ d. omega (arith, more d))
                        (λ _. ground (arith, more e.cid, none_before, eq_refl e.cid)))
                | inr (same, failed) ↦ rw new (
                    after_failure already ((e, b) ∷ work) lines p next (ap L.read same ∙ reads) once
                      failed)
              ]
      ]
