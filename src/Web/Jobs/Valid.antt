-- ===== src/Web/Jobs/Valid.antt =====
-- What holds of the job lane between the steps of its threads, and the steps of a submission.
use rfp_engine.Prelude.{
  ◌==◌, Bool, sym, ℕ, ◌≤◌, ◌<◌, String, ◌≡◌, ◌≢◌, ◌↔◌, refl, true, false, Option, none, some, List,
  [], ◌∷◌, ◌++◌, arith, All, All-append, count_if, count_if-append, Option-cases, inl, inr, eq_iff,
}
use rfp_engine.Web.Jobs.Types.{
  queued, running, is_active, Job, NewestRun, Runner, find_job, update_job, is_busy_with, busy,
}
use rfp_engine.Web.Jobs.Steps.{
  write_owed, write_registered, Outcome, returned, register, enqueue, new_job, start, complete,
  cancel,
}
use rfp_engine.Web.Jobs.Rows.{
  waiting-append, All-below-append, state_of, count_if-update_job, find_job-append,
}

-- No id waits twice.
abbrev pub Distinct : List ℕ → Type 0
Distinct [] = Unit
Distinct (q ∷ qs) = All (λ k. k ≢ q) qs × Distinct qs

pub record IsValid (r : Runner) : Type 0 where
  pub below : All (λ j. j.id < r.next_id) r.jobs
  pub one_active : (p : String) → count_if (is_busy_with p) r.jobs ≤ 1
  pub waiting : All (λ q. state_of q r.jobs ≡ some queued) r.queue
  pub distinct : Distinct r.queue
  pub worker : (i : ℕ) → (state_of i r.jobs ≡ some running) ↔ (r.current ≡ some i)

-- The state that a target reports is a settled one.
abbrev pub Settles : Outcome → Type 0
Settles (returned s _) = is_active s ≡ false
Settles _ = Unit

abbrev pub is_at : ℕ → Option ℕ → Bool
is_at i none = false
is_at i (some k) = k == i

-- One step of one thread. A submission waits for the registry lock, which is held until its line is
-- written; the job is put on the queue once, at any later time. The worker does nothing else before
-- a line that it owes is written.
pub data Step : Runner → Runner → Type 0 where
  registers :
      {r : Runner} (kind pursuit by at : String)
      → r.registering ≡ none
      → Step r (register kind pursuit by at r).1
  writes_registered : {r : Runner} → Step r (write_registered r)
  enqueues :
      {r : Runner} (i : ℕ)
      → is_at i r.registering ≡ false
      → state_of i r.jobs ≡ some queued
      → All (λ k. k ≢ i) r.queue
      → Step r (enqueue i r)
  starts : {r : Runner} → r.owes ≡ none → Step r (start r)
  completes :
      {r : Runner} (o : Outcome) (runs : String → Option NewestRun)
      → r.owes ≡ none
      → Settles o
      → Step r (complete o runs r)
  writes_owed : {r : Runner} → Step r (write_owed r)
  cancels : {r : Runner} (i : ℕ) (by : String) → Step r (cancel i by r).1

pub data Reach (r : Runner) : Runner → Type 0 where
  here : Reach r r
  next : {s t : Runner} → Reach r s → Step s t → Reach r t

pub none-busy : (p : String) (js : List Job) → busy p js ≡ none → count_if (is_busy_with p) js ≡ 0
unfolding busy
none-busy p [] h = refl
none-busy p (j ∷ js) h = ground (arith, none-busy p js)

pub some-busy :
    (p : String) (js : List Job) (j : Job) → busy p js ≡ some j → 0 < count_if (is_busy_with p) js
unfolding busy
some-busy p [] j h = ground arith
some-busy p (x ∷ js) j h = ground (arith, some-busy p js j)

-- A change that keeps the pursuit and wakes nothing up keeps one active job.
pub one_active-update_job :
    (i : ℕ) (f : Job → Job) (js : List Job) (j : Job)
    → find_job i js ≡ some j
    → (f j).pursuit ≡ j.pursuit
    → (is_active (f j).state ≡ true → is_active j.state ≡ true)
    → (p : String) → count_if (is_busy_with p) js ≤ 1
    → count_if (is_busy_with p) (update_job i f js) ≤ 1
unfolding is_busy_with
one_active-update_job i f js j found same calm p h =
    ground (arith, count_if-update_job i f (is_busy_with p) js j)

one_active-append :
    (js : List Job) (x : Job) (p : String)
    → busy x.pursuit js ≡ none
    → count_if (is_busy_with p) js ≤ 1
    → count_if (is_busy_with p) (js ++ x ∷ []) ≤ 1
unfolding is_busy_with
one_active-append js x p free h = ground (
  arith,
  eq_iff x.pursuit p,
  none-busy x.pursuit js,
  count_if-append (is_busy_with p) js (x ∷ []),
)

pub register-IsValid :
    (kind pursuit by at : String) {r : Runner}
    → IsValid r
    → IsValid (register kind pursuit by at r).1
unfolding register
register-IsValid kind pursuit by at {r} v = elim (Option-cases (busy pursuit r.jobs)) [
  | inr (j, taken) ↦ rw taken v
  | inl free ↦
      let x : Job = new_job r.next_id kind pursuit by at in
      rw free (record {
        below = All-below-append r.next_id r.jobs x v.below refl;
        one_active = λ p. one_active-append r.jobs x p free (v.one_active p);
        waiting = waiting-append queued r.jobs x r.queue v.waiting;
        distinct = v.distinct;
        worker = λ i. (
          (λ h. ground (arith, v.worker i, find_job-append i r.jobs x)),
          (λ h. ground (arith, v.worker i, find_job-append i r.jobs x)),
        );
      })
]

Distinct-append :
    (qs : List ℕ) (i : ℕ) → All (λ k. k ≢ i) qs → Distinct qs → Distinct (qs ++ i ∷ [])
Distinct-append [] i h d = (tt, tt)
Distinct-append (q ∷ qs) i h d =
    (All-append (λ k. k ≢ q) qs (i ∷ []) d.0 ((λ e. h.0 (sym e)), tt), Distinct-append qs i h.1 d.1)

pub enqueue-IsValid :
    (i : ℕ) {r : Runner}
    → state_of i r.jobs ≡ some queued
    → All (λ k. k ≢ i) r.queue
    → IsValid r
    → IsValid (enqueue i r)
unfolding enqueue
enqueue-IsValid i {r} waits new v = record {
  below = v.below;
  one_active = v.one_active;
  waiting =
      All-append (λ q. state_of q r.jobs ≡ some queued) r.queue (i ∷ []) v.waiting (waits, tt);
  distinct = Distinct-append r.queue i new v.distinct;
  worker = v.worker;
}

pub write_registered-IsValid : {r : Runner} → IsValid r → IsValid (write_registered r)
unfolding write_registered
write_registered-IsValid v = record {
  below = v.below;
  one_active = v.one_active;
  waiting = v.waiting;
  distinct = v.distinct;
  worker = v.worker;
}

pub write_owed-IsValid : {r : Runner} → IsValid r → IsValid (write_owed r)
unfolding write_owed
write_owed-IsValid v = record {
  below = v.below;
  one_active = v.one_active;
  waiting = v.waiting;
  distinct = v.distinct;
  worker = v.worker;
}
