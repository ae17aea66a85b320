-- ===== src/Web/Jobs/Boot.antt =====
-- A restart: what a runner that is rebuilt from the journal holds.
use rfp_engine.Web.Jobs.Types.{
  running, is_busy_with, NewestRun, Runner, Job, is_active, find_job, job_of, Line, State,
}
use rfp_engine.Prelude.{
  inr, suc, max, All-append, ◌≢◌, count_if, inl, false, Bool-cases, ◌<◌, ◌≤◌, All, refl, arith, [],
  ◌==◌, ◌∷◌, String, ◌≡◌, none, List, some, if◌then◌else◌, ℕ, Option,
}
use rfp_engine.Web.Jobs.Restart.{
  empty_runner, boot_job, orphan, rehydrate, boot_jobs, last_lines, put_line,
}
use rfp_engine.Web.Jobs.Steps.{name_run}
use rfp_engine.Web.Jobs.Journal.{boot_state, boot_states, line_state, later, last_line}
use rfp_engine.Web.Jobs.Rows.{find_job-append, state_of}
use rfp_engine.Web.Jobs.Valid.{IsValid}

-- The line of an id in a list with one line to each id.
unfoldable pub find_line : ℕ → List Line → Option Line
find_line i [] = none
find_line i (l ∷ ls) = let rest = find_line i ls in if l.id == i then some l else rest

pub find_line-put_line :
    (i : ℕ) (x : Line) (ls : List Line)
    → find_line i (put_line x ls) ≡ (if x.id == i then some x else find_line i ls)
unfolding find_line put_line
find_line-put_line i x [] = refl
find_line-put_line i x (l ∷ ls) = ground (arith, find_line-put_line i x ls)

-- The loop that builds the dict keeps the last line of each id.
pub find_line-last_lines :
    (i : ℕ) (acc ls : List Line)
    → find_line i (last_lines acc ls) ≡ later (last_line i ls) (find_line i acc)
unfolding last_lines last_line
find_line-last_lines i acc [] = refl
find_line-last_lines i acc (l ∷ ls) =
    ground (arith, find_line-last_lines i (put_line l acc) ls, find_line-put_line i l acc)

first : Option State → Option State → Option State
first (some s) _ = some s
first none y = y

state_of-boot_job :
    (i : ℕ) (j : Job) (r : Runner)
    → state_of i (boot_job j r).jobs
      ≡ first (state_of i r.jobs) (if j.id == i then some (boot_state j.state) else none)
unfolding boot_job first
state_of-boot_job i j r = ground (
  arith,
  find_job-append i r.jobs j,
  find_job-append i r.jobs (name_run (r.runs j.pursuit) (orphan j)),
)

state_of-boot_jobs :
    (i : ℕ) (ls : List Line) (r : Runner)
    → state_of i (boot_jobs ls r).jobs
      ≡ first (state_of i r.jobs) (boot_states (line_state (find_line i ls)))
unfolding boot_jobs find_line job_of first
state_of-boot_jobs i [] r = ground arith
state_of-boot_jobs i (l ∷ ls) r =
    ground
      (arith, state_of-boot_jobs i ls (boot_job (job_of l) r), state_of-boot_job i (job_of l) r)

-- After a restart each job has the state of its last line, and work of the dead server is orphaned.
pub state_of-rehydrate :
    (i : ℕ) (journal : List Line) (runs : String → Option NewestRun)
    → state_of i (rehydrate journal runs).jobs ≡ boot_states (line_state (last_line i journal))
unfolding rehydrate find_line find_job first
state_of-rehydrate i journal runs = rw state_of-boot_jobs (rw find_line-last_lines (ground arith))

-- What holds of the registry while it is rebuilt.
record IsIdle (r : Runner) : Type 0 where
  below : All (λ j. j.id < r.next_id) r.jobs
  calm : All (λ j. is_active j.state ≡ false) r.jobs
  empty : r.queue ≡ []
  free : r.current ≡ none
  released : r.registering ≡ none
  unowed : r.owes ≡ none

below_mono : (n m : ℕ) (js : List Job) → n ≤ m → All (λ j. j.id < n) js → All (λ j. j.id < m) js
below_mono n m [] le h = tt
below_mono n m (j ∷ js) le h = (omega arith, below_mono n m js le h.1)

boot_job-IsIdle : (j : Job) (r : Runner) → IsIdle r → IsIdle (boot_job j r)
unfolding boot_job
boot_job-IsIdle j r v = elim (Bool-cases (is_active j.state)) [
  | inl active ↦ rw active (record {
    below =
        All-append (λ x. x.id < max r.next_id (suc j.id)) r.jobs _
          (below_mono r.next_id _ r.jobs (omega arith) v.below) (ground arith, tt);
    calm = All-append (λ x. is_active x.state ≡ false) r.jobs _ v.calm (ground arith, tt);
    empty = v.empty;
    free = v.free;
    released = v.released;
    unowed = v.unowed;
  })
  | inr settled ↦ rw settled (record {
    below =
        All-append (λ x. x.id < max r.next_id (suc j.id)) r.jobs _
          (below_mono r.next_id _ r.jobs (omega arith) v.below) (omega arith, tt);
    calm = All-append (λ x. is_active x.state ≡ false) r.jobs _ v.calm (settled, tt);
    empty = v.empty;
    free = v.free;
    released = v.released;
    unowed = v.unowed;
  })
]

boot_jobs-IsIdle : (ls : List Line) (r : Runner) → IsIdle r → IsIdle (boot_jobs ls r)
unfolding boot_jobs
boot_jobs-IsIdle [] r v = v
boot_jobs-IsIdle (l ∷ ls) r v =
    boot_jobs-IsIdle ls (boot_job (job_of l) r) (boot_job-IsIdle (job_of l) r v)

calm-count :
    (p : String) (js : List Job)
    → All (λ j. is_active j.state ≡ false) js
    → count_if (is_busy_with p) js ≡ 0
unfolding is_busy_with
calm-count p [] h = refl
calm-count p (j ∷ js) h = ground (arith, calm-count p js h.1)

calm-state :
    (i : ℕ) (js : List Job) → All (λ j. is_active j.state ≡ false) js → state_of i js ≢ some running
unfolding find_job
calm-state i [] h e = ground arith
calm-state i (j ∷ js) h e = ground (arith, calm-state i js h.1)

IsIdle-IsValid : (r : Runner) → IsIdle r → IsValid r
IsIdle-IsValid r v = record {
  below = v.below;
  one_active = λ p. omega (arith, calm-count p r.jobs v.calm);
  waiting = rw v.empty tt;
  distinct = rw v.empty tt;
  worker = λ i. ((λ h. absurd (calm-state i r.jobs v.calm h)), (λ h. ground (arith, v.free)));
}

rehydrate-IsIdle :
    (journal : List Line) (runs : String → Option NewestRun) → IsIdle (rehydrate journal runs)
unfolding rehydrate
rehydrate-IsIdle journal runs =
    boot_jobs-IsIdle (last_lines [] journal) (empty_runner journal runs)
      (record { below = tt; calm = tt; empty = refl; free = refl; released = refl; unowed = refl })

-- A runner that is rebuilt from any journal is valid.
pub rehydrate-IsValid :
    (journal : List Line) (runs : String → Option NewestRun) → IsValid (rehydrate journal runs)
rehydrate-IsValid journal runs =
    IsIdle-IsValid (rehydrate journal runs) (rehydrate-IsIdle journal runs)

-- Nothing is owed to its journal.
pub rehydrate-released :
    (journal : List Line) (runs : String → Option NewestRun)
    → ((rehydrate journal runs).registering ≡ none) × ((rehydrate journal runs).owes ≡ none)
rehydrate-released journal runs = let v = rehydrate-IsIdle journal runs in (v.released, v.unowed)
