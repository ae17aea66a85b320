-- ===== src/Web/Jobs/Tests.antt =====
-- Runs of the job lane, and the theorems at concrete inputs.
use rfp_engine.Prelude.{false, ◌≢◌, All, refl, some, ◌≡◌, ℕ, ◌≤◌, none, count_if, []}
use rfp_engine.Web.Jobs.Types.{
  error, orphaned, update_job, queued, find_job, busy, running, is_busy_with, Runner,
}
use rfp_engine.Web.Jobs.Restart.{rehydrate}
use rfp_engine.Web.Jobs.Steps.{
  cancel, write_owed, write_registered, conflict, raise, other_exception, mark, complete, lane,
  Outcome, enqueue, start, register, submit,
}
use rfp_engine.Web.Jobs.Valid.{
  is_at, writes_owed, writes_registered, completes, IsValid, starts, enqueues, registers, here,
  next, Reach,
}
use rfp_engine.Web.Jobs.Rows.{state_of}
use rfp_engine.Web.Jobs.Journal.{recovered}
use rfp_engine.Web.Jobs.Lane.{one_job_per_pursuit, single_worker, cancel_branches, cancel_answer}
use rfp_engine.Web.Jobs.Boot.{rehydrate-released, rehydrate-IsValid}
use rfp_engine.Web.Jobs.Recovery.{crash_recovery}

abbrev boot : Runner
boot = rehydrate [] (λ p. none)

abbrev registered : Runner
registered = (register "revise" "acme" "ann" "t0" boot).1

abbrev waiting : Runner
waiting = enqueue 1 (write_registered registered)

abbrev started : Runner
started = start waiting

journalled_waits : state_of 1 (write_registered registered).jobs ≡ some queued
unfolding rehydrate register busy write_registered find_job
journalled_waits = refl

journalled_fresh : All (λ k. k ≢ 1) (write_registered registered).queue
unfolding rehydrate register busy write_registered
journalled_fresh = tt

boot_released : (boot.registering ≡ none) × (boot.owes ≡ none)
boot_released = rehydrate-released [] (λ p. none)

abbrev journalled : Runner
journalled = write_registered registered

journalled_released : is_at 1 journalled.registering ≡ false
unfolding write_registered
journalled_released = refl

registered_path : Reach boot waiting
registered_path =
    next (next (next here (registers "revise" "acme" "ann" "t0" boot_released.0)) writes_registered)
      (enqueues {r = journalled} 1 journalled_released journalled_waits journalled_fresh)

waiting_unowed : waiting.owes ≡ none
unfolding rehydrate register busy enqueue write_registered
waiting_unowed = refl

started_path : Reach boot started
started_path = next registered_path (starts waiting_unowed)

-- Two submissions for one pursuit: the second is a conflict.
second_conflicts : (submit "advance" "acme" "bob" "t1" started).0 ≡ raise conflict
unfolding rehydrate submit register write_registered busy start mark enqueue find_job update_job
second_conflicts = refl

one_job_per_pursuit_example : count_if (is_busy_with "acme") started.jobs ≤ 1
one_job_per_pursuit_example =
    one_job_per_pursuit "acme" (rehydrate-IsValid [] (λ p. none)) started_path

started_runs : state_of 1 started.jobs ≡ some running
unfolding rehydrate register write_registered busy start mark enqueue find_job update_job
started_runs = refl

abbrev crashing : Outcome
crashing = other_exception "KeyError" "'sections'"

-- The target has raised, the job shows its error, and the line is not written.
abbrev failing : Runner
failing = complete crashing (λ p. none) (write_owed started)

started_is_written : (write_owed started).owes ≡ none
unfolding write_owed
started_is_written = refl

failing_path : Reach boot failing
failing_path =
    next (next started_path writes_owed)
      (completes crashing (λ p. none) started_is_written (unfold lane in tt))

failing_shows_error : state_of 1 failing.jobs ≡ some error
unfolding rehydrate register busy write_registered enqueue start mark find_job update_job write_owed
    complete lane
failing_shows_error = refl

failing_is_orphaned : recovered 1 failing ≡ some orphaned
unfolding rehydrate register busy write_registered enqueue start mark find_job update_job write_owed
    complete lane recovered
failing_is_orphaned = refl

crash_recovery_example :
    IsValid (rehydrate failing.journal (λ p. none))
    × ((i : ℕ) → state_of i (rehydrate failing.journal (λ p. none)).jobs ≡ recovered i failing)
crash_recovery_example = crash_recovery [] (λ p. none) (λ p. none) failing_path

single_worker_example : ◌≡◌ {A = ℕ} 1 1
single_worker_example =
    single_worker 1 1 (rehydrate-IsValid [] (λ p. none)) started_path started_runs started_runs

cancel_branches_example :
    cancel 1 "bob" started ≡ cancel_answer 1 "bob" started (find_job 1 started.jobs)
cancel_branches_example = cancel_branches 1 "bob" started
