-- ===== src/Examples/Jobs.antt =====
-- Jobs, their steps and their logs at concrete rows and times.
use stage.Prelude.{
  All, ◌++◌, [], ◌∷◌, ◌++◌, some, true, false, ok, err, ◌≡◌, ◌≢◌, ◌≤◌, ◌<◌, ◌+◌, ℕ, refl, arith,
  by_key, inl, inr, codes, length, drop, select, update_where, List, Text, Option,
}
use stage.Workers.Redaction.{Patterns}
use stage.Lifecycle.Expiry.{Sweep, tear_down, reap_expired_projects}
use stage.Lifecycle.Expiry.Rounds.{holders, row, IsDestroyJob, reap_expired_projects_lem}
use stage.Models.{Project, ProjectStatus, Job, JobStatus, JobStep}
use stage.Lifecycle.{
  is_stale, reap_stale_jobs, cancel_job, start_job, task_time_limit, is_active_deploy, queue_deploy,
  integrity_error, revoke_job,
}
use stage.Lifecycle.Deploys.{HasOneDeployEach, IsAnswer, queue_deploy_lem}
use stage.Lifecycle.Stale.{reap_stale_jobs_lem, reaps_within_time_limit}
use stage.Lifecycle.Cancel.{cancelled_job_starts}
use stage.Workers.Steps.{step, mark_job, multiple_results, new_step}
use stage.Workers.Steps.Track.{
  rows_at, open_rows, open_at, succeeded_now, begun_row, reopened_rows, step_fresh,
}
use stage.Workers.Steps.Marks.{step_back_is_stuck}
use stage.Workers.Log.{cap_log, cap_log-keeps-end}
use stage.Examples.Data.{shop, provision_job, deploy_job, db, steps}

one_each : HasOneDeployEach (provision_job ∷ deploy_job ∷ [])
unfolding is_active_deploy select
one_each d = ground arith

-- A second deploy of deployment 500, whose check read the table before the first was queued.
queue_deploy_lem_example :
    IsAnswer 100 500 [] db db.jobs (queue_deploy 1002 95 [] db db.jobs 100 500)
queue_deploy_lem_example = queue_deploy_lem 1002 95 [] db db.jobs 100 500 one_each

-- By then the winner may be gone: the IntegrityError is raised.
winner_gone : queue_deploy 1002 95 [] db (provision_job ∷ []) 100 500 ≡ err integrity_error
unfolding queue_deploy is_active_deploy select stage.Prelude.find stage.Prelude.any
    stage.Prelude.order_desc
winner_gone = refl

-- No job is stale after a sweep at time 9000.
reap_stale_jobs_lem_example :
    select (is_stale 9000 1800) (reap_stale_jobs 9000 1800 (codes "reaped") db).0.jobs ≡ []
reap_stale_jobs_lem_example = (reap_stale_jobs_lem 9000 1800 (codes "reaped") db 100).0

reaps_within_time_limit_example :
    (now : ℕ) × (is_stale now 1800 provision_job ≡ true) × (now < 71 + task_time_limit 1800 600)
reaps_within_time_limit_example = reaps_within_time_limit 1800 600 71 provision_job refl refl

cancelled : cancel_job 90 deploy_job ≡ ok (revoke_job 90 deploy_job)
unfolding cancel_job
cancelled = refl

cancelled_job_starts_example :
    (started : Job) × ((revoke_job 90 deploy_job).status ≡ JobStatus.cancelled)
    × (start_job 91 (revoke_job 90 deploy_job) ≡ some started)
    × (started.status ≡ JobStatus.running)
cancelled_job_starts_example =
    cancelled_job_starts 90 91 deploy_job (revoke_job 90 deploy_job) refl cancelled

fresh : rows_at 1000 3 steps ≡ 0
unfolding select stage.Workers.Steps.is_at
fresh = refl

one_open : open_rows 1000 steps ≡ 1
unfolding select stage.Workers.Steps.is_open
one_open = refl

few_open : open_rows 1000 steps ≤ 1
few_open = omega (arith, one_open)

used : rows_at 1000 1 steps ≡ 1
unfolding select stage.Workers.Steps.is_at
used = refl

shut : open_at 1000 1 steps ≡ 0
unfolding select stage.Workers.Steps.is_at stage.Workers.Steps.is_open
shut = refl

step_fresh_example :
    step 80 1000 3 3 (codes "Check") steps
    ≡ ok (
        succeeded_now 80 1000 3 3 (codes "Check") steps
        ++ begun_row 80 1000 3 3 (codes "Check") steps ∷ [])
step_fresh_example = (step_fresh 80 1000 3 3 (codes "Check") steps fresh few_open).0

job_there : by_key (λ (j : Job). j.id) db.jobs 1000 ≡ some provision_job
unfolding stage.Prelude.find
job_there = refl

unused : rows_at 1000 3 (reopened_rows 80 1000 1 3 (codes "Plan") steps) ≡ 0
unfolding select update_where stage.Workers.Steps.is_at stage.Workers.Steps.reopen
unused = refl

step_back_is_stuck_example :
    (steps' : List JobStep) × (step 80 1000 1 3 (codes "Plan") steps ≡ ok steps')
    × (step 80 1000 3 3 (codes "Plan") steps' ≡ err multiple_results)
    × ((status : JobStatus) (error : Option Text)
        → mark_job 80 status error 1000 db.jobs steps' ≡ err multiple_results)
step_back_is_stuck_example =
    step_back_is_stuck 80 1000 1 3 (codes "Plan") db.jobs steps provision_job job_there used shut
      one_open 3 unused

cap_log-keeps-end_example :
    (head : Text) × (rest : Text) × (head ++ rest ≡ codes "abc" ++ codes "uvwxyz" ++ 10 ∷ [])
    × (cap_log 8 (codes "[cut]") (codes "abc") (codes "uvwxyz") ≡ codes "[cut]" ++ rest)
    × (length (cap_log 8 (codes "[cut]") (codes "abc") (codes "uvwxyz")) ≡ 8)
unfolding stage.Workers.Redaction.starts_with
cap_log-keeps-end_example =
    cap_log-keeps-end 8 (codes "[cut]") (codes "abc") (codes "uvwxyz") (omega arith)

-- A project whose time is over, and one that a provision job holds.
abbrev over : Project
over = record shop { id = 300; status = ProjectStatus.ready; expires_at = some 80 }

abbrev held : Project
held = record shop { status = ProjectStatus.failed; expires_at = some 80 }

abbrev sweep : Sweep
sweep = record { jobs = provision_job ∷ []; projects = held ∷ over ∷ []; next = 3000 }

plain : Patterns
plain = record { strip_ansi = λ s. s; secret = []; heuristic = [] }

reap_expired_projects_lem_example :
    (holders 300 (reap_expired_projects plain (λ p. []) (λ p. true) 100 sweep) ≡ 1)
    × (row 300 (reap_expired_projects plain (λ p. []) (λ p. true) 100 sweep).projects
        ≡ some (record over { status = ProjectStatus.destroying }))
    × ((added : List Job) × ((reap_expired_projects plain (λ p. []) (λ p. true) 100 sweep).jobs
          ≡ sweep.jobs ++ added)
        × All IsDestroyJob added)
unfolding stage.Repositories.Projects.is_provision_job stage.Lifecycle.Expiry.is_expired
    stage.Lifecycle.Expiry.is_soon stage.Prelude.find select update_where
reap_expired_projects_lem_example =
    reap_expired_projects_lem plain (λ p. []) (λ p. true) 100 (λ p. refl) sweep 300
      (refl, (refl, tt))

held_is_passed_over :
    (row 100 (reap_expired_projects plain (λ p. []) (λ p. true) 100 sweep).projects) ≡ some held
unfolding reap_expired_projects stage.Prelude.find update_where select
held_is_passed_over = refl
