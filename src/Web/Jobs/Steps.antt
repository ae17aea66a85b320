-- ===== src/Web/Jobs/Steps.antt =====
-- The operations of engine/web/jobs.py on a live runner, one function for each atomic step of a
-- thread. `submit` is `register`, `write_registered` and `enqueue`; `_work` is `start`, `write_owed`,
-- `complete` and `write_owed` again. Between a change and its line the registry shows the change and
-- the journal does not.
use Prim.Native.String.{◌++◌ as text_append}
use text.Mathlib.Text.{starts_with}
use rfp_engine.Prelude.{
  ℕ, suc, String, Bool, ◌||◌, true, false, not, ◌&&◌, Option, none, some, List, [], ◌∷◌, ◌++◌,
  str_eq, if◌then◌else◌,
}
use rfp_engine.Web.Jobs.Types.{
  State, queued, running, refused, error, cancelled, is_queued, is_running, is_done, is_active, Job,
  line_of, Line, opens, refuses, fails, NewestRun, Runner, cancellable_kind, find_job, update_job,
  busy,
}

pub data Refusal : Type 0 where
  conflict : Refusal  -- JobConflict, 409
  not_found : Refusal  -- JobNotFound, 404

pub data Reply {ℓ} (A : Type ℓ) : Type ℓ where
  ok : A → Reply A
  raise : Refusal → Reply A

-- `_finish` and the transition to `running`, up to the call of `_journal`: the job changes, and the
-- worker owes its line.
abbrev pub mark_found : ℕ → (Job → Job) → Option Job → Runner → Runner
mark_found i f none r = r
mark_found i f (some j) r = record r { jobs = update_job i f r.jobs; owes = some i }

unfoldable pub mark : ℕ → (Job → Job) → Runner → Runner
mark i f r = mark_found i f (find_job i r.jobs) r

-- `_journal`: the line of the job as it stands when it is written.
abbrev pub journal_line : Option Job → List Line → List Line
journal_line none ls = ls
journal_line (some j) ls = ls ++ line_of j ∷ []

abbrev pub written : Option ℕ → Runner → List Line
written none r = r.journal
written (some i) r = journal_line (find_job i r.jobs) r.journal

-- `self._journal(job)` of the worker.
unfoldable pub write_owed : Runner → Runner
write_owed r = record r { journal = written r.owes r; owes = none }

-- `self._journal(job)` of `submit`, after which the registry lock is released.
unfoldable pub write_registered : Runner → Runner
write_registered r = record r { journal = written r.registering r; registering = none }

abbrev pub new_job : ℕ → String → String → String → String → Job
new_job i kind pursuit by at = record {
  id = i;
  kind = kind;
  pursuit = pursuit;
  by = by;
  at = at;
  state = queued;
  message = "queued";
  cancel = false;
  run_id = none;
}

-- The part of `submit` under the registry lock, up to the call of `_journal`.
abbrev pub insert_job : Job → Option Job → Runner → Reply Job × Runner
insert_job job (some _) r = (raise conflict, r)
insert_job job none r = (
  ok job,
  record r { jobs = r.jobs ++ job ∷ []; next_id = suc r.next_id; registering = some job.id },
)

unfoldable pub register : String → String → String → String → Runner → Reply Job × Runner
register kind pursuit by at r =
    insert_job (new_job r.next_id kind pursuit by at) (busy pursuit r.jobs) r

-- `self._queue.put((job, target))`, after the lock is released.
unfoldable pub enqueue : ℕ → Runner → Runner
enqueue i r = record r { queue = r.queue ++ i ∷ [] }

abbrev pub queue_it : Reply Job × Runner → Reply Job × Runner
queue_it (raise e, r) = (raise e, r)
queue_it (ok job, r) = (ok job, enqueue job.id (write_registered r))

unfoldable pub submit : String → String → String → String → Runner → Reply Job × Runner
submit kind pursuit by at r = queue_it (register kind pursuit by at r)

-- Whether the log opens and has or gets a footer. When it opens and no footer can be written,
-- `run_end` raises, and so does a logger that `fails`: the caller swallows that.
abbrev pub can_close : NewestRun → Bool
can_close n = elim n.opening [
  | opens ↦ n.has_footer || n.is_writable
  | refuses ↦ false
  | fails ↦ false
]

unfoldable pub close_run : Option NewestRun → Option NewestRun
close_run none = none
close_run (some n) = if can_close n then some (record n { has_footer = true }) else some n

abbrev pub name_run : Option NewestRun → Job → Job
name_run none j = j
name_run (some n) j = if can_close n then record j { run_id = some n.run_id } else j

unfoldable pub set_run :
    String → Option NewestRun → (String → Option NewestRun) → String → Option NewestRun
set_run p n runs q = if str_eq p q then n else runs q

-- `_close_open_run` under its caller's `except Exception`: the newest run of the job's pursuit gets a
-- footer, and the job names it. A log that a logger refuses to open is left alone, and so are the log
-- and the job when opening or writing raises: of the failure only a line on stderr is left.
unfoldable pub close_open_run :
    Job → (String → Option NewestRun) → Job × (String → Option NewestRun)
unfolding close_run set_run
close_open_run j runs =
    (name_run (runs j.pursuit) j, set_run j.pursuit (close_run (runs j.pursuit)) runs)

-- What a target does: it returns a state and a message, or raises.
pub data Outcome : Type 0 where
  returned : State → String → Outcome
  contract_error cost_ceiling_exceeded live_call_error handoff_timeout : String → Outcome
  other_exception : String → String → Outcome  -- the class's name, and the text

-- The typed error lanes of `_work`.
unfoldable pub lane : Outcome → State × String
lane (returned s m) = (s, m)
lane (contract_error m) = (refused, m)
lane (cost_ceiling_exceeded m) = (
  refused,
  text_append m " — raise the ceiling deliberately and re-run; the brake never silently truncates",
)
lane (live_call_error m) = (refused, m)
lane (handoff_timeout m) = (refused, text_append m " — an absent operator is a refusal, not a bug")
lane (other_exception name m) = (error, text_append name (text_append ": " m))

abbrev pub is_failure : State → Bool
is_failure refused = true
is_failure error = true
is_failure _ = false

-- The badge follows the flow's report.
abbrev pub badge : Bool → State × String → State
badge cancel (s, m) = if cancel && (is_done s && starts_with m "cancelled") then cancelled else s

abbrev pub set_state : State → String → Job → Job
set_state s m j = record j { state = s; message = m }

-- `_work` up to the call of the target: the worker takes the oldest job.
abbrev pub take_job : ℕ → Option Job → Runner → Runner
take_job i none r = r
take_job i (some j) r =
    if j.cancel && is_queued j.state
    then mark i (set_state cancelled "cancelled before start") r
    else record (mark i (set_state running "running") r) { current = some i }

abbrev pub take_next : Option ℕ → List ℕ → Runner → Runner
take_next (some i) queue r = r
take_next none [] r = r
take_next none (i ∷ rest) r = take_job i (find_job i r.jobs) (record r { queue = rest })

unfoldable pub start : Runner → Runner
start r = take_next r.current r.queue r

-- `_work` from the target's return: the lane is chosen, a failure closes the open run, and the job
-- is finished. `runs` is what the target left behind.
abbrev pub finish_change : Job → State × String → Job → Job
finish_change closed (s, m) x =
    set_state (badge x.cancel (s, m)) m
      (if is_failure s then record x { run_id = closed.run_id } else x)

abbrev pub finish_job :
    ℕ → Option Job → State × String → (String → Option NewestRun) → Runner → Runner
finish_job i none result runs r = record r { current = none }
finish_job i (some j) (s, m) runs r =
    let (closed, runs') = close_open_run j runs in
    mark i (finish_change closed (s, m))
      (record r { current = none; runs = if is_failure s then runs' else runs })

abbrev pub finish_current :
    Option ℕ → State × String → (String → Option NewestRun) → Runner → Runner
finish_current none result runs r = r
finish_current (some i) result runs r = finish_job i (find_job i r.jobs) result runs r

unfoldable pub complete : Outcome → (String → Option NewestRun) → Runner → Runner
complete o runs r = finish_current r.current (lane o) runs r

-- `cancel`: a refusal changes nothing.
abbrev pub flag : String → Job → Job
flag by j = record j { cancel = true; message = text_append "cancel requested by " by }

abbrev pub cancel_found : ℕ → String → Option Job → Runner → Reply Job × Runner
cancel_found i by none r = (raise not_found, r)
cancel_found i by (some j) r =
    if not (is_active j.state)
    then (raise conflict, r)
    else if is_running j.state && not (cancellable_kind j.kind)
    then (raise conflict, r)
    else (ok (flag by j), record r { jobs = update_job i (flag by) r.jobs })

unfoldable pub cancel : ℕ → String → Runner → Reply Job × Runner
cancel i by r = cancel_found i by (find_job i r.jobs) r
