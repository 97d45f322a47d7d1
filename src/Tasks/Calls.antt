-- ===== src/Tasks/Calls.antt =====
-- What the task bodies of workers/tasks.py share, on the tables of a World.
use stage.Prelude.{
  ℕ, ◌+◌, ◌*◌, List, [], ◌∷◌, ◌++◌, Option, none, some, Bool, true, false, ◌&&◌, ◌==◌, Result, ok,
  err, if◌then◌else◌, update_where, by_key, Text, text_eq, codes, str, ℤ, is_zero, str_int, or_text,
}
use stage.Models.{Project, ProjectStatus, Job, JobStatus, JobStep, Node}
use stage.Lifecycle.{start_job}
use stage.Workers.Log.{append_log, take_last}
use stage.Workers.Steps.{StepError, multiple_results, mark_job}
use stage.Tasks.World.{World, returned, raised, Run, pure, raise, ◌>>◌, modify, Reply, settle}

unfoldable pub with_jobs : (List Job → List Job) → World → World
with_jobs f w = record w { db = record w.db { jobs = f w.db.jobs } }

unfoldable pub with_projects : (List Project → List Project) → World → World
with_projects f w = record w { db = record w.db { projects = f w.db.projects } }

unfoldable pub log_line : ℕ → Text → World → World
unfolding with_jobs append_log
log_line job_id line w =
    with_jobs
      (update_where (λ (j : Job). j.id == job_id)
        (λ j. record j { log = append_log w.patterns j.log line }))
      w

unfoldable pub say : ℕ → Text → Run (Unit {0})
unfolding log_line
say job_id line = modify (log_line job_id line)

unfoldable pub log_lines : ℕ → List Text → World → World
unfolding log_line
log_lines job_id [] w = w
log_lines job_id (line ∷ lines) w = log_lines job_id lines (log_line job_id line w)

-- A call that is given `on_line`, the callback of `_log_lines`.
unfoldable pub stream : {A : Type 0} → ℕ → Reply A → Run A
unfolding log_lines
stream job_id reply w =
    settle reply.answer (log_lines job_id reply.lines (record w { now = w.now + reply.took }))

-- SandboxResult
pub record RunResult : Type 0 where
  pub exit_code : ℤ
  pub output : Text
  pub timed_out : Bool

-- `[]` is the hint that is not given.
unfoldable pub check : RunResult → Text → Run (Unit {0})
unfolding str_int
check result hint =
    if result.timed_out
    then raise (or_text hint (codes "command timed out: " ++ take_last 500 result.output))
    else if is_zero result.exit_code
    then pure tt
    else raise (
        or_text hint (
          codes "command exited "
          ++ str_int result.exit_code
          ++ codes ": "
          ++ take_last 800 result.output))

abbrev message : StepError → Text
message multiple_results = codes "Multiple rows were found when one or none was required"

unfoldable pub put_steps : Result StepError (List JobStep) → Run (Unit {0})
put_steps (ok steps) w = returned tt (record w { steps = steps })
put_steps (err e) w = raised (message e) w

-- `_step`: the row, then its line in the log.
unfoldable pub step : ℕ → ℕ → ℕ → Text → Run (Unit {0})
unfolding stage.Workers.Steps.step put_steps say str
step job_id index total name =
    (λ w. put_steps (stage.Workers.Steps.step w.now job_id index total name w.steps) w)
    >> say job_id (codes "[" ++ str index ++ codes "/" ++ str total ++ codes "] " ++ name)

unfoldable pub put_rows : Result StepError (List Job × List JobStep) → Run (Unit {0})
put_rows (ok (jobs, steps)) w =
    returned tt (record w { db = record w.db { jobs = jobs }; steps = steps })
put_rows (err e) w = raised (message e) w

unfoldable pub mark : ℕ → JobStatus → Option Text → Run (Unit {0})
unfolding mark_job put_rows
mark job_id status error w = put_rows (mark_job w.now status error job_id w.db.jobs w.steps) w

unfoldable pub fail : ℕ → Text → Run (Unit {0})
unfolding say mark
fail job_id text = do
  say job_id (codes "FAILED: " ++ text)
  mark job_id JobStatus.failed (some text)

abbrev start_found : ℕ → Option Job → Run Bool
start_found job_id none w = returned false w
start_found job_id (some job) w =
    returned true (with_jobs (update_where (λ (j : Job). j.id == job_id) (λ _. job)) w)

abbrev startable : ℕ → Option Job → Option Job
startable now none = none
startable now (some job) = start_job now job

-- The first lines of a task: whether it goes on, with the job's row written if so.
unfoldable pub start : ℕ → Run Bool
unfolding with_jobs start_job
start job_id w =
    start_found job_id (startable w.now (by_key (λ (j : Job). j.id) w.db.jobs job_id)) w

-- `db.get(Project, project_id)`
abbrev pub project_row : ℕ → World → Option Project
project_row project_id w = by_key (λ (p : Project). p.id) w.db.projects project_id

unfoldable pub write_project : ℕ → (Project → Project) → World → World
unfolding with_projects
write_project project_id f w =
    with_projects (update_where (λ (p : Project). p.id == project_id) f) w

unfoldable pub put_status : ProjectStatus → Project → Project
put_status status p = record p { status = status }

unfoldable pub set_project_status : ℕ → ProjectStatus → Run (Unit {0})
unfolding write_project put_status
set_project_status project_id status = modify (write_project project_id (put_status status))

-- The TTL clock starts when a project becomes ready.
unfoldable pub make_ready : ℕ → Project → Project
make_ready now p = record p {
  status = ProjectStatus.ready;
  last_accessed_at = some now;
  expiry_warned = false;
  expires_at =
      if p.auto_destroy
      then if p.ttl_hours == 0 then p.expires_at else some (now + p.ttl_hours * 3600)
      else p.expires_at;
}

unfoldable pub mark_ready : ℕ → Run (Unit {0})
unfolding write_project make_ready
mark_ready project_id w = returned tt (write_project project_id (make_ready w.now) w)

-- `update_node_ip` of repositories/projects.py, on the first row of that name.
unfoldable pub set_ip : ℕ → Text → Text → List Node → List Node
set_ip project_id name ip [] = []
set_ip project_id name ip (n ∷ ns) =
    let rest = set_ip project_id name ip ns in
    if n.project_id == project_id && text_eq n.name name
    then record n { ip_address = some ip; status = "running" } ∷ ns
    else n ∷ rest

unfoldable pub update_node_ips : ℕ → List (Text × Text) → List Node → List Node
unfolding set_ip
update_node_ips project_id [] nodes = nodes
update_node_ips project_id ((name, ip) ∷ ips) nodes =
    update_node_ips project_id ips (set_ip project_id name ip nodes)

unfoldable pub record_ips : ℕ → List (Text × Text) → Run (Unit {0})
unfolding update_node_ips
record_ips project_id ips =
    modify (λ w. record w { nodes = update_node_ips project_id ips w.nodes })
