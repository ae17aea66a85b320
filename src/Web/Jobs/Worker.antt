-- ===== src/Web/Jobs/Worker.antt =====
-- The worker's steps and `cancel` keep the lane valid.
use rfp_engine.Web.Jobs.Valid.{Settles, IsValid, Distinct, one_active-update_job}
use rfp_engine.Prelude.{
  not, ◌&&◌, ◌∙◌, [], false, String, ap, Bool, Option, ◌∷◌, Option-cases, Bool-cases, ℕ, ◌<◌, ◌≡◌,
  ◌≢◌, ◌↔◌, refl, true, none, some, List, arith, ◌==◌, if◌then◌else◌, All, inl, inr,
}
use rfp_engine.Web.Jobs.Types.{
  cancellable_kind, is_running, NewestRun, cancelled, queued, running, is_active, Job, Runner,
  find_job, update_job,
}
use rfp_engine.Web.Jobs.Steps.{
  cancel, finish_current, flag, complete, contract_error, returned, finish_change, close_open_run,
  finish_job, badge, take_next, Outcome, lane, start, set_state, take_job, mark,
}
use rfp_engine.Web.Jobs.Rows.{
  find_job-update_job, state_of-update_job, waiting-update_job, state_of, All-update_job,
}

-- One job changes, and the worker and the queue move on: what is left to show of it.
module _ (i : ℕ) (f : Job → Job) (keep : (j : Job) → (f j).id ≡ j.id) (r r' : Runner) (j : Job)
    (found : find_job i r.jobs ≡ some j) (v : IsValid r) where
  changed-IsValid :
      r'.jobs ≡ update_job i f r.jobs
      → r'.next_id ≡ r.next_id
      → (f j).pursuit ≡ j.pursuit
      → (is_active (f j).state ≡ true → is_active j.state ≡ true)
      → All (λ q. q ≢ i) r'.queue
      → All (λ q. state_of q r.jobs ≡ some queued) r'.queue
      → Distinct r'.queue
      → ((k : ℕ)
          → ((if k == i then some (f j).state else state_of k r.jobs) ≡ some running)
            ↔ (r'.current ≡ some k))
      → IsValid r'
  changed-IsValid jobs ids same calm other waiting distinct worker = record {
    below =
        rw (jobs, ids)
          (All-update_job i f (λ x. x.id < r.next_id) r.jobs (λ x h. rw (keep x) h) v.below);
    one_active =
        λ p. rw jobs (one_active-update_job i f r.jobs j found same calm p (v.one_active p));
    waiting = rw jobs (waiting-update_job i f keep queued r.jobs r'.queue other waiting);
    distinct = distinct;
    worker = λ k. rw jobs (rw (state_of-update_job i f keep r.jobs j k found) (worker k));
  }

module _ (i : ℕ) (rest : List ℕ) (r : Runner) (v : IsValid r) (idle : r.current ≡ none) where
  take_job-IsValid :
      (j : Job)
      → find_job i r.jobs ≡ some j
      → j.state ≡ queued
      → All (λ q. q ≢ i) rest
      → All (λ q. state_of q r.jobs ≡ some queued) rest
      → Distinct rest
      → IsValid (take_job i (some j) (record r { queue = rest }))
  unfolding mark
  take_job-IsValid j found waits other waiting distinct = elim (Bool-cases j.cancel) [
    | inl e ↦
        rw (e, waits, found)
          (changed-IsValid i (set_state cancelled "cancelled before start") (λ x. refl) r _ j found
            v refl refl refl (λ h. ground arith) other waiting distinct
            (λ k. ((λ h. ground (arith, v.worker k)), (λ h. ground (arith, v.worker k)))))
    | inr e ↦
        rw (e, found)
          (changed-IsValid i (set_state running "running") (λ x. refl) r _ j found v refl refl refl
            (λ h. rw waits) other waiting distinct
            (λ k. ((λ h. ground (arith, v.worker k)), (λ h. ground (arith, v.worker k)))))
  ]

pub waiting_job :
    (i : ℕ) (js : List Job)
    → state_of i js ≡ some queued
    → (j : Job) × (find_job i js ≡ some j) × (j.state ≡ queued)
waiting_job i js h = elim (Option-cases (find_job i js)) [
  | inl none_there ↦ absurd (ground arith)
  | inr (j, found) ↦ (j, found, ground arith)
]

Fresh-flip : (i : ℕ) (qs : List ℕ) → All (λ k. k ≢ i) qs → All (λ q. q ≢ i) qs
Fresh-flip i qs h = h

pub start-IsValid : {r : Runner} → IsValid r → IsValid (start r)
unfolding start
start-IsValid {r} v = go r.current refl r.queue refl
  where
    go : (c : Option ℕ) → r.current ≡ c → (q : List ℕ) → r.queue ≡ q → IsValid (take_next c q r)
    go (some i) ec q eq = v
    go none ec [] eq = v
    go none ec (i ∷ rest) eq =
        let waits : All (λ q. state_of q r.jobs ≡ some queued) (i ∷ rest) = rw eq at v.waiting in
        let distinct : Distinct (i ∷ rest) = rw eq at v.distinct in
        let (j, found, is_waiting) = waiting_job i r.jobs waits.0 in
        rw found (take_job-IsValid i rest r v ec j found is_waiting distinct.0 waits.1 distinct.1)

-- The lane that the runner picks for a settled outcome is a settled state.
lane-Settles : (o : Outcome) (c : Bool) → Settles o → is_active (badge c (lane o)) ≡ false
unfolding lane
lane-Settles (returned s m) c h = ground arith
lane-Settles (contract_error m) c h = ground arith
lane-Settles _ c h = ground arith

running_not_queued :
    (i : ℕ) (js : List Job) (qs : List ℕ)
    → state_of i js ≡ some running
    → All (λ q. state_of q js ≡ some queued) qs
    → All (λ q. q ≢ i) qs
running_not_queued i js [] h w = tt
running_not_queued i js (q ∷ qs) h w =
    ((λ e. absurd (cc (h, w.0, ap (λ x. state_of x js) e))), running_not_queued i js qs h w.1)

module _ (o : Outcome) (runs : String → Option NewestRun) (settles : Settles o) where
  finish_job-IsValid :
      {r : Runner} (i : ℕ) (j : Job)
      → IsValid r
      → find_job i r.jobs ≡ some j
      → r.current ≡ some i
      → j.state ≡ running
      → IsValid (finish_job i (some j) (lane o) runs r)
  unfolding mark
  finish_job-IsValid {r} i j v found busy_with runs_now =
      let closed = (close_open_run j runs).0 in
      rw found (
        changed-IsValid i (finish_change closed (lane o)) (λ x. ground arith) r _ j found v refl
          refl (ground arith) (λ h. rw runs_now)
          (running_not_queued i r.jobs r.queue ((v.worker i).1 busy_with) v.waiting) v.waiting
          v.distinct
          (λ k. (
            (λ h. ground (arith, v.worker k, lane-Settles o j.cancel settles)),
            (λ h. ground arith),
          )))

pub running_job :
    (i : ℕ) (js : List Job)
    → state_of i js ≡ some running
    → (j : Job) × (find_job i js ≡ some j) × (j.state ≡ running)
running_job i js h = elim (Option-cases (find_job i js)) [
  | inl none_there ↦ absurd (ground arith)
  | inr (j, found) ↦ (j, found, ground arith)
]

pub complete-IsValid :
    (o : Outcome) (runs : String → Option NewestRun) {r : Runner}
    → Settles o
    → IsValid r
    → IsValid (complete o runs r)
unfolding complete
complete-IsValid o runs {r} settles v = go r.current refl
  where
    go : (c : Option ℕ) → r.current ≡ c → IsValid (finish_current c (lane o) runs r)
    go none e = v
    go (some i) e =
        let (j, found, is_run) = running_job i r.jobs ((v.worker i).1 e) in
        rw found (finish_job-IsValid o runs settles i j v found e is_run)

cancel_found-IsValid :
    (i : ℕ) (by : String) {r : Runner} (j : Job)
    → IsValid r
    → find_job i r.jobs ≡ some j
    → IsValid (record r { jobs = update_job i (flag by) r.jobs })
cancel_found-IsValid i by {r} j v found = record {
  below = All-update_job i (flag by) (λ x. x.id < r.next_id) r.jobs (λ x h. h) v.below;
  one_active =
      λ p. one_active-update_job i (flag by) r.jobs j found refl (λ h. h) p (v.one_active p);
  waiting = flagged r.queue v.waiting;
  distinct = v.distinct;
  worker = λ k. rw (same_state k) (v.worker k);
}
  where
    same_state : (k : ℕ) → state_of k (update_job i (flag by) r.jobs) ≡ state_of k r.jobs
    same_state k = ground (arith, find_job-update_job i (flag by) (λ x. refl) k r.jobs)

    flagged :
        (qs : List ℕ)
        → All (λ q. state_of q r.jobs ≡ some queued) qs
        → All (λ q. state_of q (update_job i (flag by) r.jobs) ≡ some queued) qs
    flagged [] h = tt
    flagged (q ∷ qs) h = (same_state q ∙ h.0, flagged qs h.1)

pub cancel-IsValid : (i : ℕ) (by : String) {r : Runner} → IsValid r → IsValid (cancel i by r).1
unfolding cancel
cancel-IsValid i by {r} v = elim (Option-cases (find_job i r.jobs)) [
  | inl missing ↦ rw missing v
  | inr (j, found) ↦ elim (Bool-cases (is_active j.state)) [
    | inr settled ↦ rw (found, settled) v
    | inl active ↦ elim (Bool-cases (is_running j.state && not (cancellable_kind j.kind))) [
      | inl deaf ↦ rw (found, active, deaf) v
      | inr polls ↦ rw (found, active, polls) (cancel_found-IsValid i by j v found)
    ]
  ]
]
