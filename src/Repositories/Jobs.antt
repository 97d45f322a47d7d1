-- ===== src/Repositories/Jobs.antt =====
-- JobRepository of repositories/jobs.py.
use stage.Prelude.{
  ℕ, ◌-◌, List, [], ◌∷◌, ◌++◌, Option, none, some, Bool, false, ◌==◌, select, Result, ok, err,
  ◌>>=◌, by_key, keep, order_desc, paginate, Text, length, drop,
}
use stage.Models.{Project, Job, JobType, JobStatus, Deployment, Db}
use stage.Access.{AccessError, not_found, Scope, can_access}

-- `session.get(Project, id)` and the visibility test after it; `None` is not visible.
unfoldable pub visible_project : Scope → List Project → Option ℕ → Option Project
visible_project scope projects none = none
visible_project scope projects (some id) =
    keep (can_access scope) (by_key (λ (p : Project). p.id) projects id)

abbrev pub or_not_found {ℓ} : {A : Type ℓ} → Option A → Result AccessError A
or_not_found none = err not_found
or_not_found (some a) = ok a

unfoldable pub get : Scope → Db → ℕ → Result AccessError Job
unfolding visible_project
get scope db job_id = do
  job ← or_not_found (by_key (λ (j : Job). j.id) db.jobs job_id)
  project ← or_not_found (visible_project scope db.projects job.project_id)
  ok job

unfoldable pub is_run_of : ℕ → Job → Bool
is_run_of deployment_id job = elim job.deployment_id [ none ↦ false | some d ↦ d == deployment_id ]

unfoldable pub list_for_deployment : Scope → Db → ℕ → ℕ → ℕ → Result AccessError (List Job × ℕ)
unfolding visible_project is_run_of
list_for_deployment scope db deployment_id page page_size = do
  deployment ← or_not_found (by_key (λ (d : Deployment). d.id) db.deployments deployment_id)
  project ← or_not_found (visible_project scope db.projects (some deployment.project_id))
  let runs = order_desc (λ (j : Job). j.created_at) (select (is_run_of deployment_id) db.jobs)
  ok (paginate runs page page_size)

-- The columns that a new row does not name take their defaults.
abbrev pub new_job : ℕ → ℕ → Option ℕ → Option ℕ → JobType → Job
new_job id now project_id deployment_id type = record {
  id = id;
  project_id = project_id;
  deployment_id = deployment_id;
  type = type;
  status = JobStatus.queued;
  log = [];
  created_at = now;
  started_at = none;
  finished_at = none;
  error_message = none;
  cancel_requested = false;
}

unfoldable pub create : ℕ → ℕ → Db → Option ℕ → JobType → Db × Job
create id now db project_id type =
    let job = new_job id now project_id none type in (record db { jobs = db.jobs ++ job ∷ [] }, job)

abbrev or_else : Option Text → Option Text → Option Text
or_else none old = old
or_else (some new) old = some new

unfoldable pub set_status : Job → JobStatus → Option Text → Job
set_status job status error_message = record job {
  status = status;
  error_message = or_else error_message job.error_message;
}

-- `(job.log + line + "\n")[-200000:]`
unfoldable pub append_log : Job → Text → Job
append_log job line =
    let log = job.log ++ line ++ 10 ∷ [] in record job { log = drop (length log - 200000) log }
