-- ===== src/Lifecycle.antt =====
-- The life of a job: queueing a deploy, starting, cancelling (workers/tasks.py, api/routers/jobs.py), and
-- the reaper of jobs whose worker died.
pub mod Deploys
pub mod Stale
pub mod Cancel
pub mod Expiry
use stage.Prelude.{
  ℕ, ◌+◌, ◌*◌, List, [], ◌∷◌, ◌++◌, Option, none, some, Bool, true, false, not, ◌&&◌, ◌||◌, ◌==◌,
  ltb, select, Result, ok, err, ◌>>=◌, ◌>>◌, ensure, if◌then◌else◌, any, update_where, order_desc,
  Text, length,
}
use stage.Prelude.{max}
use stage.Models.{
  Db, Project, Deployment, ProjectStatus, provisioning, destroying, failed, Job, JobType, JobStatus,
}
use stage.Repositories.Jobs.{new_job}
use stage.Repositories.Projects.{is_active}

-- What a queueing call may raise.
pub data QueueError : Type 0 where
  deploy_already_running : Job → QueueError
  integrity_error : QueueError

is_deploy : JobType → Bool
is_deploy JobType.deploy = true
is_deploy _ = false

-- The rows of the partial index `uq_jobs_active_deploy_per_deployment`, for one deployment.
unfoldable pub is_active_deploy : ℕ → Job → Bool
unfolding is_deploy
is_active_deploy deployment_id job =
    elim job.deployment_id [ none ↦ false | some d ↦ d == deployment_id ]
    && (is_deploy job.type && is_active job.status)

abbrev first : List Job → Option Job
first [] = none
first (j ∷ js) = some j

unfoldable pub active_deploy_job : List Job → ℕ → Option Job
unfolding is_active_deploy
active_deploy_job jobs deployment_id =
    first (order_desc (λ (j : Job). j.created_at) (select (is_active_deploy deployment_id) jobs))

-- The rows that a job refers to: its project and its deployment.
unfoldable pub has_rows : Db → ℕ → ℕ → Bool
has_rows db project_id deployment_id =
    any (λ (p : Project). p.id == project_id) db.projects
    && any (λ (d : Deployment). d.id == deployment_id) db.deployments

-- An insert, which the database refuses where a row that the job refers to is gone, or where the partial
-- index would hold two rows.
unfoldable pub insert_deploy : Db → ℕ → ℕ → Job → Option (List Job)
unfolding is_active_deploy has_rows
insert_deploy db project_id deployment_id job =
    if not (has_rows db project_id deployment_id) || any (is_active_deploy deployment_id) db.jobs
    then none
    else some (db.jobs ++ job ∷ [])

insert_answer : List Job → ℕ → Job → Option (List Job) → Result QueueError (List Job × Job)
insert_answer after deployment_id job (some jobs) = ok (jobs, job)
insert_answer after deployment_id job none = elim (active_deploy_job after deployment_id) [
  | none ↦ err integrity_error
  | some running ↦ err (deploy_already_running running)
]

-- `queue_deploy`. The check reads the table of jobs as it was (`seen`), the insert meets the database as it is by
-- then (`db`), and the query behind the rollback reads the table again (`after`): other requests may have
-- committed in between.
unfoldable pub queue_deploy :
    ℕ → ℕ → List Job → Db → List Job → ℕ → ℕ → Result QueueError (List Job × Job)
unfolding active_deploy_job insert_deploy insert_answer
queue_deploy id now seen db after project_id deployment_id =
    elim (active_deploy_job seen deployment_id) [
      | some running ↦ err (deploy_already_running running)
      | none ↦
          let job = new_job id now (some project_id) (some deployment_id) JobType.deploy in
          insert_answer after deployment_id job (insert_deploy db project_id deployment_id job)
    ]

unfoldable pub queue_undeploy : ℕ → ℕ → List Job → ℕ → ℕ → List Job × Job
queue_undeploy id now jobs project_id deployment_id =
    let job = new_job id now (some project_id) (some deployment_id) JobType.undeploy in
    (jobs ++ job ∷ [], job)

-- The first lines of every task: give up on a job that is gone or whose cancellation was requested.
unfoldable pub start_job : ℕ → Job → Option Job
start_job now job =
    if job.cancel_requested
    then none
    else some (record job { status = JobStatus.running; started_at = some now })

-- `revoke_job`, on the job's row.
unfoldable pub revoke_job : ℕ → Job → Job
revoke_job now job = record job { status = JobStatus.cancelled; finished_at = some now }

-- `cancel_job` of the router: 409 for a job that is not queued or running.
unfoldable pub cancel_job : ℕ → Job → Result ℕ Job
unfolding revoke_job
cancel_job now job = do ensure (is_active job.status) 409; ok (revoke_job now job)

-- The limits, from the settings `provision_timeout_seconds` and `scan_timeout_seconds`.
abbrev pub hard_limit : ℕ → ℕ
hard_limit provision_timeout = provision_timeout + 120

-- `_DEPLOY_TASK_WORST_CASE_SECONDS`, `_TASK_BUDGET_SECONDS` and `task_time_limit` of celery_app.py.
unfoldable pub deploy_worst_case : ℕ → ℕ → ℕ
deploy_worst_case provision_timeout scan_timeout =
    300 + provision_timeout + 600 + (2 * scan_timeout + 10) + 600

unfoldable pub task_time_limit : ℕ → ℕ → ℕ
unfolding deploy_worst_case
task_time_limit provision_timeout scan_timeout =
    max provision_timeout (deploy_worst_case provision_timeout scan_timeout) + 120

abbrev is_running : JobStatus → Bool
is_running JobStatus.running = true
is_running _ = false

-- `Job.started_at < cutoff`, with the cutoff at `now - (hard_limit + 300)`.
abbrev started_before : ℕ → ℕ → Option ℕ → Bool
started_before now provision_timeout none = false
started_before now provision_timeout (some t) = ltb (t + (hard_limit provision_timeout + 300)) now

unfoldable pub is_stale : ℕ → ℕ → Job → Bool
is_stale now provision_timeout job =
    is_running job.status && started_before now provision_timeout job.started_at

unfoldable pub reap : ℕ → Text → Job → Job
reap now message job = record job {
  status = JobStatus.failed;
  finished_at = some now;
  error_message = some message;
}

-- A project that a stale job was working on.
unfoldable pub is_midway : ProjectStatus → Bool
is_midway provisioning = true
is_midway destroying = true
is_midway _ = false

unfoldable pub names_project : ℕ → Job → Bool
names_project project_id job = elim job.project_id [ none ↦ false | some p ↦ p == project_id ]

-- `reap_stale_jobs`, with the message it writes: the tables and the number of jobs failed.
unfoldable pub reap_stale_jobs : ℕ → ℕ → Text → Db → Db × ℕ
unfolding is_stale reap is_midway names_project
reap_stale_jobs now provision_timeout message db =
    let stale = select (is_stale now provision_timeout) db.jobs in
    (
      record db {
        jobs = update_where (is_stale now provision_timeout) (reap now message) db.jobs;
        projects =
            update_where (λ (p : Project). any (names_project p.id) stale && is_midway p.status)
              (λ p. record p { status = ProjectStatus.failed }) db.projects;
      },
      length stale,
    )
