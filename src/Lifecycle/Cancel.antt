-- ===== src/Lifecycle/Cancel.antt =====
-- Cancelling a job, and starting it all the same.
use stage.Prelude.{ℕ, some, false, ok, ◌≡◌, refl, arith}
use stage.Models.{Job, JobStatus}
use stage.Lifecycle.{start_job, cancel_job}

-- A job that is cancelled through the API, whose flag nothing sets, is still started by the task if the
-- broker delivers it: its status goes back from cancelled to running.
pub cancelled_job_starts :
    (now later : ℕ) (job cancelled : Job)
    → job.cancel_requested ≡ false
    → cancel_job now job ≡ ok cancelled
    → (started : Job) × (cancelled.status ≡ JobStatus.cancelled)
      × (start_job later cancelled ≡ some started)
      × (started.status ≡ JobStatus.running)
unfolding cancel_job start_job
cancelled_job_starts now later job cancelled unset done = (
  record cancelled { status = JobStatus.running; started_at = some later },
  ground arith,
  ground arith,
  refl,
)
