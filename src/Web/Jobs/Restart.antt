-- ===== src/Web/Jobs/Restart.antt =====
-- `_rehydrate` of engine/web/jobs.py: a new runner over the records of the journal.
use Prim.Native.String.{◌++◌ as text_append}
use rfp_engine.Prelude.{suc, max, String, Option, none, List, [], ◌∷◌, ◌++◌, ◌==◌, if◌then◌else◌}
use rfp_engine.Web.Jobs.Types.{orphaned, is_active, Job, Line, line_of, job_of, NewestRun, Runner}
use rfp_engine.Web.Jobs.Steps.{close_open_run}

-- `last[line["id"]] = line`: the last line of each id, where its first one stood.
unfoldable pub put_line : Line → List Line → List Line
put_line l [] = l ∷ []
put_line l (m ∷ ms) = if m.id == l.id then l ∷ ms else m ∷ put_line l ms

unfoldable pub last_lines : List Line → List Line → List Line
unfolding put_line
last_lines acc [] = acc
last_lines acc (l ∷ ls) = last_lines (put_line l acc) ls

-- The loop of `_rehydrate` over the last lines: work of a dead server is orphaned, its open run is
-- closed, and the change is journalled.
unfoldable pub orphan : Job → Job
orphan j = record j {
  state = orphaned;
  message = text_append "server restarted mid-run — " j.message;
}

unfoldable pub boot_job : Job → Runner → Runner
unfolding close_open_run orphan line_of
boot_job j r =
    let keep = record r { jobs = r.jobs ++ j ∷ []; next_id = max r.next_id (suc j.id) } in
    let (j', runs') = close_open_run (orphan j) r.runs in
    if is_active j.state
    then record r {
      jobs = r.jobs ++ j' ∷ [];
      journal = r.journal ++ line_of j' ∷ [];
      next_id = max r.next_id (suc j.id);
      runs = runs';
    }
    else keep

unfoldable pub boot_jobs : List Line → Runner → Runner
unfolding boot_job job_of
boot_jobs [] r = r
boot_jobs (l ∷ ls) r = boot_jobs ls (boot_job (job_of l) r)

abbrev pub empty_runner : List Line → (String → Option NewestRun) → Runner
empty_runner journal runs = record {
  jobs = [];
  journal = journal;
  queue = [];
  next_id = 1;
  current = none;
  registering = none;
  owes = none;
  runs = runs;
}

-- A new `JobRunner` over the records of the journal.
unfoldable pub rehydrate : List Line → (String → Option NewestRun) → Runner
unfolding boot_jobs last_lines
rehydrate journal runs = boot_jobs (last_lines [] journal) (empty_runner journal runs)
