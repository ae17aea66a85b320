-- ===== src/Web/Jobs/Owed.antt =====
-- Every step of the job lane keeps what the journal tells, and what it is owed.
use mathlib.Core.Path.{subst}
use rfp_engine.Prelude.{
  All-append, ==_iff, ◌≢◌, ◌∙◌, ap, false, refl, inr, ◌==◌, ◌&&◌, inl, [], if◌then◌else◌, not,
  Bool-cases, ◌∷◌, arith, Option-cases, All, none, some, String, ◌≡◌, List, ℕ, Option,
}
use rfp_engine.Web.Jobs.Types.{
  queued, is_active, update_job, running, cancelled, is_queued, is_running, find_job, NewestRun,
  State, Job, line_of, Runner, cancellable_kind,
}
use rfp_engine.Web.Jobs.Steps.{
  take_next, finish_current, is_failure, finish_change, set_state, close_open_run, flag, lane,
  finish_job, take_job, Outcome, enqueue, cancel, complete, start, mark, write_owed,
  write_registered, written,
}
use rfp_engine.Web.Jobs.Valid.{
  starts, cancels, completes, enqueues, registers, writes_registered, writes_owed, IsValid, Step,
  is_at,
}
use rfp_engine.Web.Jobs.Rows.{find_job-id, find_job-update_job, state_of}
use rfp_engine.Web.Jobs.Journal.{
  IsJournalled, recovered, last_line, last_line-append, line_state, boot_states,
  register-IsJournalled, changed-IsJournalled,
}
use rfp_engine.Web.Jobs.Worker.{waiting_job, running_job}

-- What the written line of a job adds to the journal's last word.
says_of_line :
    (i k : ℕ) (r : Runner) (j : Job)
    → find_job k r.jobs ≡ some j
    → line_state (last_line i (written (some k) r))
      ≡ (if k == i then state_of i r.jobs else line_state (last_line i r.journal))
unfolding line_of
says_of_line i k r j found = rw found (
    ground (
      arith,
      found,
      find_job-id k r.jobs j,
      ==_iff k i,
      ap (λ n. find_job n r.jobs),
      last_line-append i r.journal (line_of j),
    ))

job_of_state :
    (i : ℕ) (js : List Job) (s : State)
    → state_of i js ≡ some s
    → (j : Job) × (find_job i js ≡ some j)
job_of_state i js s h = elim (Option-cases (find_job i js)) [
  | inl none_there ↦ absurd (ground arith)
  | inr there ↦ there
]

write_owed-IsJournalled : (r : Runner) → IsJournalled r → IsJournalled (write_owed r)
unfolding write_owed recovered
write_owed-IsJournalled r h = record {
  apart = λ k e. ((h.apart k e).0, (h.apart k e).1, refl);
  owed = λ k e. absurd (ground (arith, e));
  says = λ i. elim (Option-cases r.owes) [
    | inl nothing ↦ rw nothing (h.says i ∙ ground (arith, nothing))
    | inr (k, owes) ↦
        let (s, known) = h.owed k (rw owes (ground arith)) in
        let (j, found) = job_of_state k r.jobs s known in
        rw owes (
          ap boot_states (says_of_line i k r j found) ∙ (elim (Bool-cases (k == i)) [
            | inl same ↦ elim (Bool-cases (is_at i r.registering)) [
              | inl both ↦ absurd (ground (arith, (h.apart i both).2, owes, same))
              | inr no_lock ↦ ground (arith, same, no_lock)
            ]
            | inr other ↦ ground (arith, other, h.says i, owes)
          ]))
  ];
}

write_registered-IsJournalled : (r : Runner) → IsJournalled r → IsJournalled (write_registered r)
unfolding write_registered recovered
write_registered-IsJournalled r h = record {
  apart = λ k e. absurd (ground (arith, e));
  owed = h.owed;
  says = λ i. elim (Option-cases r.registering) [
    | inl nothing ↦ rw nothing (h.says i ∙ ground (arith, nothing))
    | inr (k, new) ↦
        let (known, other_waits, unowed) = h.apart k (rw new (ground arith)) in
        let (j, found) = job_of_state k r.jobs queued known in
        rw new (
          ap boot_states (says_of_line i k r j found) ∙ (elim (Bool-cases (k == i)) [
            | inl same ↦
                ground (arith, same, ap (λ n. is_at n r.owes) ((==_iff k i).0 same), unowed)
            | inr other ↦ ground (arith, other, h.says i, new)
          ]))
  ];
}

-- A job that waits is journalled.
waits_written :
    (i : ℕ) (rest : List ℕ) (r : Runner)
    → r.queue ≡ i ∷ rest
    → IsJournalled r
    → is_at i r.registering ≡ false
waits_written i rest r e h = elim (Bool-cases (is_at i r.registering)) [
  | inr no_lock ↦ no_lock
  | inl lock ↦
      let gone : All (λ q. q ≢ i) (i ∷ rest) = subst (All (λ q. q ≢ i)) e (h.apart i lock).1 in
      absurd (gone.0 refl)
]

start-IsJournalled :
    (r : Runner) → r.owes ≡ none → IsValid r → IsJournalled r → IsJournalled (start r)
unfolding start
start-IsJournalled r free v h = go r.current r.queue refl
  where
    pick :
        (i : ℕ) (rest : List ℕ) (j : Job)
        → r.queue ≡ i ∷ rest
        → find_job i r.jobs ≡ some j
        → j.state ≡ queued
        → IsJournalled (take_job i (some j) (record r { queue = rest }))
    pick i rest j eq found waits =
        let fewer : (k : ℕ) → All (λ q. q ≢ k) r.queue → All (λ q. q ≢ k) rest = λ k all.
          (let here : All (λ q. q ≢ k) (i ∷ rest) = subst (All (λ q. q ≢ k)) eq all in here.1) in
        elim (Bool-cases (j.cancel && is_queued j.state)) [
          | inl e ↦ rw e (
              unfold mark in
              rw found (
                changed-IsJournalled i (set_state cancelled "cancelled before start") r j r.current
                  rest r.runs (λ x. refl) found free (rw waits refl) (waits_written i rest r eq h)
                  fewer h))
          | inr e ↦ rw e (
              unfold mark in
              rw found (
                changed-IsJournalled i (set_state running "running") r j (some i) rest r.runs
                  (λ x. refl) found free (rw waits refl) (waits_written i rest r eq h) fewer h))
        ]

    go : (c : Option ℕ) (q : List ℕ) → r.queue ≡ q → IsJournalled (take_next c q r)
    go (some i) q eq = h
    go none [] eq = h
    go none (i ∷ rest) eq =
        let waits : All (λ q. state_of q r.jobs ≡ some queued) (i ∷ rest) = rw eq at v.waiting in
        let (j, found, is_waiting) = waiting_job i r.jobs waits.0 in
        rw found (pick i rest j eq found is_waiting)

complete-IsJournalled :
    (o : Outcome) (runs : String → Option NewestRun) (r : Runner)
    → r.owes ≡ none
    → IsValid r
    → IsJournalled r
    → IsJournalled (complete o runs r)
unfolding complete
complete-IsJournalled o runs r free v h = go r.current refl
  where
    ends :
        (i : ℕ) (j : Job)
        → find_job i r.jobs ≡ some j
        → j.state ≡ running
        → IsJournalled (finish_job i (some j) (lane o) runs r)
    ends i j found is_run =
        let closed = (close_open_run j runs).0 in
        let written_before : is_at i r.registering ≡ false =
          elim (Bool-cases (is_at i r.registering)) [
            | inr no_lock ↦ no_lock
            | inl lock ↦ absurd (ground (arith, (h.apart i lock).0, found, is_run))
          ] in
        unfold mark in
        rw found (
          changed-IsJournalled i (finish_change closed (lane o)) r j none r.queue
            (if is_failure (lane o).0 then (close_open_run j runs).1 else runs) (λ x. ground arith)
            found free (rw is_run refl) written_before (λ k all. all) h)

    go : (c : Option ℕ) → r.current ≡ c → IsJournalled (finish_current c (lane o) runs r)
    go none e = h
    go (some i) e =
        let (j, found, is_run) = running_job i r.jobs ((v.worker i).1 e) in
        rw found (ends i j found is_run)

-- A change that leaves every state leaves what the journal tells.
same_states-IsJournalled :
    (r : Runner) (js : List Job)
    → ((k : ℕ) → state_of k js ≡ state_of k r.jobs)
    → IsJournalled r
    → IsJournalled (record r { jobs = js })
unfolding recovered
same_states-IsJournalled r js same h = record {
  apart = λ k e. (same k ∙ (h.apart k e).0, (h.apart k e).1, (h.apart k e).2);
  owed = λ k e. ((h.owed k e).0, same k ∙ (h.owed k e).1);
  says = λ i. h.says i ∙ ground (arith, same i);
}

cancel-IsJournalled :
    (i : ℕ) (by : String) (r : Runner) → IsJournalled r → IsJournalled (cancel i by r).1
unfolding cancel
cancel-IsJournalled i by r h = elim (Option-cases (find_job i r.jobs)) [
  | inl missing ↦ rw missing h
  | inr (j, found) ↦ elim (Bool-cases (is_active j.state)) [
    | inr settled ↦ rw (found, settled) h
    | inl active ↦ elim (Bool-cases (is_running j.state && not (cancellable_kind j.kind))) [
      | inl deaf ↦ rw (found, active, deaf) h
      | inr polls ↦
          rw (found, active, polls)
            (same_states-IsJournalled r (update_job i (flag by) r.jobs)
              (λ k. ground (arith, find_job-update_job i (flag by) (λ (x : Job). refl) k r.jobs)) h)
    ]
  ]
]

enqueue-IsJournalled :
    (i : ℕ) (r : Runner)
    → is_at i r.registering ≡ false
    → IsJournalled r
    → IsJournalled (enqueue i r)
unfolding enqueue recovered
enqueue-IsJournalled i r released h = record {
  apart = λ k e. (
    (h.apart k e).0,
    All-append (λ q. q ≢ k) r.queue (i ∷ []) (h.apart k e).1
        ((λ same. ground (arith, e, released, ap (λ n. is_at n r.registering) same)), tt),
    (h.apart k e).2,
  );
  owed = h.owed;
  says = h.says;
}

pub Step-IsJournalled : {r s : Runner} → Step r s → IsValid r → IsJournalled r → IsJournalled s
Step-IsJournalled (registers kind pursuit by at idle) v h =
    register-IsJournalled kind pursuit by at _ idle v h
Step-IsJournalled writes_registered v h = write_registered-IsJournalled _ h
Step-IsJournalled (enqueues i written_before waits new) v h =
    enqueue-IsJournalled i _ written_before h
Step-IsJournalled (starts free) v h = start-IsJournalled _ free v h
Step-IsJournalled (completes o runs free settles) v h = complete-IsJournalled o runs _ free v h
Step-IsJournalled (cancels i by) v h = cancel-IsJournalled i by _ h
Step-IsJournalled writes_owed v h = write_owed-IsJournalled _ h
