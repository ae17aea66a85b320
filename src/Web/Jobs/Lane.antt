-- ===== src/Web/Jobs/Lane.antt =====
-- The job lane as its callers see it: one active job to a pursuit, one running job in all, and
-- what a request to cancel is answered.
use rfp_engine.Web.Jobs.Valid.{
  writes_registered, writes_owed, write_registered-IsValid, write_owed-IsValid, IsValid, Step,
  registers, enqueues, starts, completes, cancels, Reach, here, next, register-IsValid,
  enqueue-IsValid,
}
use rfp_engine.Web.Jobs.Worker.{start-IsValid, complete-IsValid, cancel-IsValid}
use rfp_engine.Web.Jobs.Types.{
  update_job, running, find_job, Job, is_busy_with, cancellable, Runner,
}
use rfp_engine.Prelude.{
  if◌then◌else◌, Option, inr, inl, Option-cases, none, arith, some, ◌≡◌, ◌≤◌, ℕ, count_if, String,
}
use rfp_engine.Web.Jobs.Steps.{Reply, not_found, flag, ok, conflict, raise, cancel}
use rfp_engine.Web.Jobs.Rows.{state_of}

pub Step-IsValid : {r s : Runner} → Step r s → IsValid r → IsValid s
Step-IsValid (registers kind pursuit by at idle) v = register-IsValid kind pursuit by at v
Step-IsValid writes_registered v = write_registered-IsValid v
Step-IsValid (enqueues i written waits new) v = enqueue-IsValid i waits new v
Step-IsValid (starts free) v = start-IsValid v
Step-IsValid (completes o runs free settles) v = complete-IsValid o runs settles v
Step-IsValid writes_owed v = write_owed-IsValid v
Step-IsValid (cancels i by) v = cancel-IsValid i by v

pub Reach-IsValid : {r s : Runner} → IsValid r → Reach r s → IsValid s
Reach-IsValid v here = v
Reach-IsValid v (next path step) = Step-IsValid step (Reach-IsValid v path)

-- Whatever its threads do, a lane that starts valid has at most one queued or running job to each
-- pursuit.
pub one_job_per_pursuit :
    {r s : Runner} (p : String) → IsValid r → Reach r s → count_if (is_busy_with p) s.jobs ≤ 1
one_job_per_pursuit p v path = (Reach-IsValid v path).one_active p

-- Whatever its threads do, two ids whose jobs are both running are the same id.
pub single_worker :
    {r s : Runner} (i k : ℕ)
    → IsValid r
    → Reach r s
    → state_of i s.jobs ≡ some running
    → state_of k s.jobs ≡ some running
    → i ≡ k
single_worker i k v path hi hk =
    let w = Reach-IsValid v path in ground (arith, (w.worker i).0 hi, (w.worker k).0 hk)

-- What `cancel` should answer about a job.
abbrev pub cancel_answer : ℕ → String → Runner → Option Job → Reply Job × Runner
cancel_answer i by r none = (raise not_found, r)
cancel_answer i by r (some j) =
    if cancellable j
    then (ok (flag by j), record r { jobs = update_job i (flag by) r.jobs })
    else (raise conflict, r)

-- `cancel` succeeds exactly on the jobs whose view says `cancellable`, and then sets the flag and
-- the message and leaves the state; it refuses every other job and every unknown id unchanged.
pub cancel_branches :
    (i : ℕ) (by : String) (r : Runner) → cancel i by r ≡ cancel_answer i by r (find_job i r.jobs)
unfolding cancel cancellable
cancel_branches i by r = elim (Option-cases (find_job i r.jobs)) [
  | inl missing ↦ rw missing
  | inr (j, found) ↦ rw found (ground arith)
]
