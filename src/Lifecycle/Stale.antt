-- ===== src/Lifecycle/Stale.antt =====
-- The reaper of stale jobs: what it unlocks, and whom it hits.
use stage.Prelude.{
  ℕ, ◌+◌, ◌<◌, List, [], ◌∷◌, some, true, not, ◌&&◌, select, ◌≡◌, refl, arith, find, update_where,
  Text,
}
use stage.Models.{Db, Job, JobStatus}
use stage.Repositories.Projects.{is_provision_job, get_active_provision_job}
use stage.Lifecycle.{is_stale, reap, reap_stale_jobs, task_time_limit}

module _ (now provision_timeout : ℕ) (message : Text) where
  abbrev reaped_jobs : List Job → List Job
  reaped_jobs = update_where (is_stale now provision_timeout) (reap now message)

  no_stale : (jobs : List Job) → select (is_stale now provision_timeout) (reaped_jobs jobs) ≡ []
  unfolding update_where select is_stale reap
  no_stale [] = refl
  no_stale (j ∷ jobs) = ground (arith, no_stale jobs)

  still_locked :
      (project_id : ℕ) (jobs : List Job)
      → find (is_provision_job project_id) (reaped_jobs jobs)
        ≡ find (λ j. not (is_stale now provision_timeout j) && is_provision_job project_id j) jobs
  unfolding update_where find reap is_provision_job
  still_locked project_id [] = refl
  still_locked project_id (j ∷ jobs) = ground (arith, still_locked project_id jobs)

  -- After a sweep no stale job is left, and what locks a project's provision and destroy routes is
  -- exactly what locked it before, less the stale jobs.
  pub reap_stale_jobs_lem :
      (db : Db) (project_id : ℕ)
      → (select
            (is_stale now provision_timeout)
            (reap_stale_jobs now provision_timeout message db).0.jobs
          ≡ [])
        × (get_active_provision_job (reap_stale_jobs now provision_timeout message db).0 project_id
            ≡ find
                (λ j. not (is_stale now provision_timeout j) && is_provision_job project_id j)
                db.jobs)
  unfolding reap_stale_jobs get_active_provision_job
  reap_stale_jobs_lem db project_id = (no_stale db.jobs, still_locked project_id db.jobs)

-- The sweep can hit a job that Celery has not stopped yet: for every setting of the timeouts, a running
-- job with a starting time is taken for dead at a time when its task's own time limit has not passed.
pub reaps_within_time_limit :
    (provision_timeout scan_timeout started : ℕ) (job : Job)
    → job.status ≡ JobStatus.running
    → job.started_at ≡ some started
    → (now : ℕ) × (is_stale now provision_timeout job ≡ true)
      × (now < started + task_time_limit provision_timeout scan_timeout)
unfolding is_stale task_time_limit
reaps_within_time_limit provision_timeout scan_timeout started job running at =
    (started + (provision_timeout + 421), ground arith, omega arith)
