-- ===== src/Web/Jobs/Types.antt =====
-- The data of engine/web/jobs.py, and the look-ups in the registry.
use rfp_engine.Prelude.{
  ℕ, String, Bool, true, false, ◌&&◌, Option, none, some, List, [], ◌∷◌, ◌==◌, str_eq,
  if◌then◌else◌, find?,
}

pub data State : Type 0 where
  queued running done refused error cancelled orphaned : State

abbrev pub is_queued : State → Bool
is_queued queued = true
is_queued _ = false

abbrev pub is_running : State → Bool
is_running running = true
is_running _ = false

abbrev pub is_done : State → Bool
is_done done = true
is_done _ = false

-- `state in ("queued", "running")`
abbrev pub is_active : State → Bool
is_active queued = true
is_active running = true
is_active _ = false

pub record Job : Type 0 where
  pub id : ℕ
  pub kind : String
  pub pursuit : String
  pub by : String
  pub at : String
  pub state : State
  pub message : String
  pub cancel : Bool
  pub run_id : Option String

-- One line of jobs.jsonl: the cancel flag is not journalled.
pub record Line : Type 0 where
  pub id : ℕ
  pub kind : String
  pub pursuit : String
  pub by : String
  pub at : String
  pub state : State
  pub message : String
  pub run_id : Option String

unfoldable pub line_of : Job → Line
line_of j = record {
  id = j.id;
  kind = j.kind;
  pursuit = j.pursuit;
  by = j.by;
  at = j.at;
  state = j.state;
  message = j.message;
  run_id = j.run_id;
}

unfoldable pub job_of : Line → Job
job_of l = record {
  id = l.id;
  kind = l.kind;
  pursuit = l.pursuit;
  by = l.by;
  at = l.at;
  state = l.state;
  message = l.message;
  cancel = false;
  run_id = l.run_id;
}

-- What becomes of the attempt to resume a run's logger: it opens, it refuses the log as corrupt
-- (ContractError), or it raises otherwise, as it does when the directory cannot be read.
pub data Opening : Type 0 where
  opens refuses fails : Opening

-- A pursuit's newest run, as the lane reads it: how its log opens, whether its last record is a
-- footer, and whether a footer can be written.
pub record NewestRun : Type 0 where
  pub run_id : String
  pub opening : Opening
  pub has_footer : Bool
  pub is_writable : Bool

pub record Runner : Type 0 where
  pub jobs : List Job  -- `_jobs`, in insertion order
  pub journal : List Line  -- jobs.jsonl
  pub queue : List ℕ  -- `_queue`, the oldest first
  pub next_id : ℕ  -- what `_ids` gives next
  pub current : Option ℕ  -- the job in the worker's hands
  pub registering : Option ℕ  -- inserted by the holder of `_registry_lock`, and not yet journalled
  pub owes : Option ℕ  -- changed by the worker, and not yet journalled
  pub runs : String → Option NewestRun  -- by pursuit

unfoldable pub cancellable_kind : String → Bool
cancellable_kind k = str_eq k "revise"

unfoldable pub cancellable : Job → Bool
unfolding cancellable_kind
cancellable j = if is_queued j.state then true else is_running j.state && cancellable_kind j.kind

-- `_jobs[id]`, and a change made to that job's dict.
unfoldable pub find_job : ℕ → List Job → Option Job
find_job i [] = none
find_job i (j ∷ js) = let rest = find_job i js in if j.id == i then some j else rest

unfoldable pub update_job : ℕ → (Job → Job) → List Job → List Job
update_job i f [] = []
update_job i f (j ∷ js) = if j.id == i then f j ∷ js else j ∷ update_job i f js

unfoldable pub is_busy_with : String → Job → Bool
is_busy_with p j = str_eq j.pursuit p && is_active j.state

unfoldable pub busy : String → List Job → Option Job
unfolding is_busy_with
busy p js = find? (is_busy_with p) js
