-- ===== src/Web/Events/Cids.antt =====
-- No cid is given twice (engine/web/events.py): the counter of the pending store only grows.
use rfp_engine.Web.Events.Pending.{
  entry_of, drop_read, drops, remove_read, removes, has_cid, mark_read, marks, add_read, is_refused,
  cid_of, adds, drop_pending, Entry, Op, remove_pending, Filing, mark_pending, add_pending, run,
  step, read_pending, invalid, absent, stored, Store, write_pending, Stored, Rules,
}
use rfp_engine.Prelude.{
  none, ◌∙◌, ◌≢◌, some, sym, Option, ◌++◌, String, ap, find?, Option-cases, ◌+◌, refl, [], ◌∷◌, ◌≡◌,
  List, arith, inr, inl, Bool-cases, ◌≤◌, ℕ,
}
use rfp_engine.Web.Events.Types.{contract_error, answers, Answer}
use rfp_engine.Web.Events.Append.{value_of}
use rfp_engine.Strategy.Gate.Ids.{strip_prefix-append}
use rfp_engine.Strategy.Gate.Edits.{strip_prefix}

module _ (py : Rules) where
  -- The next cid of a store that is read.
  unfoldable next_of : Stored → ℕ
  next_of absent = 1
  next_of invalid = 0
  next_of (stored s) = s.next_cid

  write-next_of :
      {A : Type 0} (a : A) (s : Store) (old : Stored)
      → next_of old ≤ s.next_cid
      → next_of old ≤ next_of (write_pending py a s old).1
  unfolding write_pending next_of
  write-next_of a s old h = elim (Bool-cases (py.is_store s)) [
    | inl fine ↦ rw fine h
    | inr bad ↦ rw bad (omega arith)
  ]

  -- What is read leaves the counter to the write.
  after_read :
      {B : Type 0} (old : Stored) (next : Answer Store → Stored → Answer B × Stored)
      → ((s : Store) → (next_of old ≡ s.next_cid) → next_of old ≤ next_of (next (answers s) old).1)
      → (next contract_error old).1 ≡ old
      → next_of old ≤ next_of (next (read_pending py old) old).1
  unfolding read_pending next_of
  after_read absent next h e = h (record { pending = []; next_cid = 1 }) refl
  after_read invalid next h e = omega arith
  after_read (stored s) next h e = h s refl

  add-next_of :
      (a : Filing) (revision : ℕ) (old : Stored)
      → next_of old ≤ next_of (add_pending py a revision old).1
  unfolding add_pending
  add-next_of a revision old = elim (Bool-cases (is_refused py a)) [
    | inl refused ↦ rw refused (omega arith)
    | inr fine ↦ rw fine (
        after_read old (add_read py a revision) (λ s e. write-next_of _ _ old (omega (arith, e)))
          refl)
  ]

  step-next_of : (o : Op py) (old : Stored) → next_of old ≤ next_of (step py o old)
  unfolding step add_pending mark_pending remove_pending drop_pending
  step-next_of (adds a revision) old = add-next_of a revision old
  step-next_of (marks c k) old =
      after_read old (mark_read py c k)
        (λ s e. elim (Option-cases (find? (has_cid c) s.pending)) [
          | inl missing ↦ rw missing (omega arith)
          | inr (x, found) ↦ rw found (write-next_of _ _ old (omega (arith, e)))
        ])
        refl
  step-next_of (removes c) old =
      after_read old (remove_read py c)
        (λ s e. elim (Option-cases (find? (has_cid c) s.pending)) [
          | inl missing ↦ rw missing (omega arith)
          | inr (x, found) ↦ rw found (write-next_of _ _ old (omega (arith, e)))
        ])
        refl
  step-next_of (drops gone) old =
      after_read old (drop_read py gone) (λ s e. write-next_of _ _ old (omega (arith, e))) refl

  run-next_of : (os : List (Op py)) (old : Stored) → next_of old ≤ next_of (run py os old)
  unfolding run
  run-next_of [] old = omega arith
  run-next_of (o ∷ os) old = omega (arith, step-next_of o old, run-next_of os (step py o old))

  write_made :
      (x e : Entry) (s : Store) (old : Stored)
      → (write_pending py x s old).0 ≡ answers e
      → (x ≡ e) × ((write_pending py x s old).1 ≡ stored s)
  unfolding write_pending
  write_made x e s old h = elim (Bool-cases (py.is_store s)) [
    | inr bad ↦ absurd (ground arith)
    | inl fine ↦
        let hit : answers x ≡ answers e = ground arith in (ap (value_of x) hit, rw fine refl)
  ]

  add_answers :
      (a : Filing) (revision : ℕ) (old : Stored) (e : Entry)
      → (add_pending py a revision old).0 ≡ answers e
      → (e.cid ≡ cid_of py (next_of old))
        × (next_of (add_pending py a revision old).1 ≡ next_of old + 1)
  unfolding add_pending next_of read_pending
  add_answers a revision old e h = elim (Bool-cases (is_refused py a)) [
    | inl refused ↦ absurd (ground arith)
    | inr fine ↦ rw fine (filed old (rw fine at h))
  ]
    where
      made :
          (s : Store) (old : Stored)
          → (add_read py a revision (answers s) old).0 ≡ answers e
          → (e.cid ≡ cid_of py s.next_cid)
            × (next_of (add_read py a revision (answers s) old).1 ≡ s.next_cid + 1)
      made s old h =
          let (same, put) =
            write_made (entry_of py a s.next_cid revision) e
              (record {
                pending = s.pending ++ entry_of py a s.next_cid revision ∷ [];
                next_cid = s.next_cid + 1;
              })
              old h in
          (sym (ap (λ x. x.cid) same), ap next_of put)

      filed :
          (old : Stored)
          → (add_read py a revision (read_pending py old) old).0 ≡ answers e
          → (e.cid ≡ cid_of py (next_of old))
            × (next_of (add_read py a revision (read_pending py old) old).1 ≡ next_of old + 1)
      filed absent h = made (record { pending = []; next_cid = 1 }) absent h
      filed invalid h = absurd (ground arith)
      filed (stored s) h = made s (stored s) h

  -- No cid is given twice: an entry that is filed after any calls has another cid than one that was
  -- filed before them, dropped or not, provided that every number in the four-digit format reads
  -- back.
  pub cids_distinct :
      (digits : String → Option ℕ) (a b : Filing) (m n : ℕ) (os : List (Op py)) (old : Stored)
      (e d : Entry)
      → ((k : ℕ) → digits (py.four_digits k) ≡ some k)
      → (add_pending py a m old).0 ≡ answers e
      → (add_pending py b n (run py os (add_pending py a m old).1)).0 ≡ answers d
      → e.cid ≢ d.cid
  cids_distinct digits a b m n os old e d reads first second same =
      let (c, grown) = add_answers a m old e first in
      let (c', grown') = add_answers b n (run py os (add_pending py a m old).1) d second in
      let i = next_of old in
      let k = next_of (run py os (add_pending py a m old).1) in
      let texts : some (py.four_digits i) ≡ some (py.four_digits k) =
        sym (strip_prefix-append "cmt_" (py.four_digits i))
        ∙ ap (strip_prefix "cmt_") (sym c ∙ same ∙ c')
        ∙ strip_prefix-append "cmt_" (py.four_digits k) in
      let numbers : some i ≡ some k =
        sym (reads i)
        ∙ ap {A = Option String} {B = Option ℕ} (λ o. elim o [ none ↦ none | some s ↦ digits s ])
            texts
        ∙ reads k in
      omega (
        arith,
        ap {B = ℕ} (λ o. elim o [ none ↦ 0 | some j ↦ j ]) numbers,
        run-next_of os (add_pending py a m old).1,
        grown,
      )
