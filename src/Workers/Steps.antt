-- ===== src/Workers/Steps.antt =====
-- `_step`, `_mark_job` and `_fail` of workers/tasks.py, on the `job_steps` rows. A session that raises
-- commits nothing.
pub mod Track
pub mod Marks
use stage.Prelude.{
  ℕ, ◌+◌, List, [], ◌∷◌, ◌++◌, Option, none, some, Bool, true, false, ◌&&◌, ◌==◌, select, Result,
  ok, err, ◌>>=◌, ◌>>◌, if◌then◌else◌, update_where, by_key, Text, take,
}
use stage.Models.{Job, JobStatus, JobStep, StepStatus}

-- SQLAlchemy's MultipleResultsFound.
pub data StepError : Type 0 where
  multiple_results : StepError

-- `scalar_one_or_none()`
abbrev pub one_or_none {ℓ} : {A : Type ℓ} → List A → Result StepError (Option A)
one_or_none [] = ok none
one_or_none (row ∷ []) = ok (some row)
one_or_none (a ∷ b ∷ rest) = err multiple_results

abbrev pub is_none : Option ℕ → Bool
is_none none = true
is_none (some _) = false

-- The rows of a job that have no `finished_at`, and its row at an index.
unfoldable pub is_open : ℕ → JobStep → Bool
is_open job_id step = step.job_id == job_id && is_none step.finished_at

unfoldable pub is_at : ℕ → ℕ → JobStep → Bool
is_at job_id index step = step.job_id == job_id && step.step_index == index

unfoldable pub reopen : ℕ → Text → JobStep → JobStep
reopen total name step = record step {
  step_total = total;
  name = name;
  status = StepStatus.running;
  finished_at = none;
}

unfoldable pub close : ℕ → StepStatus → JobStep → JobStep
close now status step = record step { finished_at = some now; status = status }

abbrev pub new_step : ℕ → ℕ → ℕ → ℕ → Text → JobStep
new_step now job_id index total name = record {
  job_id = job_id;
  step_index = index;
  step_total = total;
  name = name;
  status = StepStatus.running;
  started_at = some now;
  finished_at = none;
  error_message = none;
}

-- The row of `prev` is the only open one, so to write to the open rows is to write to it.
close_previous : ℕ → ℕ → List JobStep → Option JobStep → List JobStep
unfolding is_open close
close_previous now job_id steps none = steps
close_previous now job_id steps (some prev) =
    update_where (is_open job_id) (close now StepStatus.succeeded) steps

-- The row of `existing` is the one at the job's index.
unfoldable pub step_from :
    ℕ → ℕ → ℕ → ℕ → Text → List JobStep → Option JobStep → Result StepError (List JobStep)
unfolding reopen is_at is_open close_previous
step_from now job_id index total name steps (some existing) =
    ok (update_where (is_at job_id index) (reopen total name) steps)
step_from now job_id index total name steps none = do
  prev ← one_or_none (select (is_open job_id) steps)
  ok (close_previous now job_id steps prev ++ new_step now job_id index total name ∷ [])

-- The rows after `_step`.
unfoldable pub step : ℕ → ℕ → ℕ → ℕ → Text → List JobStep → Result StepError (List JobStep)
unfolding step_from
step now job_id index total name steps = do
  existing ← one_or_none (select (is_at job_id index) steps)
  step_from now job_id index total name steps existing

abbrev pub is_terminal : JobStatus → Bool
is_terminal JobStatus.succeeded = true
is_terminal JobStatus.failed = true
is_terminal JobStatus.cancelled = true
is_terminal _ = false

unfoldable pub mark : ℕ → JobStatus → Option Text → Job → Job
mark now status error job = record job {
  status = status;
  error_message = error;
  finished_at = if is_terminal status then some now else job.finished_at;
}

abbrev pub step_status : JobStatus → StepStatus
step_status JobStatus.succeeded = StepStatus.succeeded
step_status _ = StepStatus.failed

abbrev pub is_success : JobStatus → Bool
is_success JobStatus.succeeded = true
is_success _ = false

-- `if error and status != "succeeded": step.error_message = error[:500]`
abbrev pub step_error : JobStatus → Option Text → Option Text → Option Text
step_error status none old = old
step_error status (some []) old = old
step_error status (some (c ∷ error)) old =
    if is_success status then old else some (take 500 (c ∷ error))

unfoldable pub close_marked : ℕ → JobStatus → Option Text → JobStep → JobStep
close_marked now status error s = record s {
  finished_at = some now;
  status = step_status status;
  error_message = step_error status error s.error_message;
}

close_final : ℕ → JobStatus → Option Text → ℕ → List JobStep → Option JobStep → List JobStep
unfolding is_open close_marked
close_final now status error job_id steps none = steps
close_final now status error job_id steps (some final) =
    update_where (is_open job_id) (close_marked now status error) steps

mark_found :
    ℕ
    → JobStatus
    → Option Text
    → ℕ
    → List Job
    → List JobStep
    → Option Job
    → Result StepError (List Job × List JobStep)
unfolding mark close_final
mark_found now status error job_id jobs steps none = ok (jobs, steps)
mark_found now status error job_id jobs steps (some job) = do
  final ← one_or_none (select (is_open job_id) steps)
  ok (
    update_where (λ j. j.id == job_id) (mark now status error) jobs,
    close_final now status error job_id steps final,
  )

-- The job's row and the step rows after `_mark_job`; a job that is gone is left alone.
unfoldable pub mark_job :
    ℕ
    → JobStatus
    → Option Text
    → ℕ
    → List Job
    → List JobStep
    → Result StepError (List Job × List JobStep)
unfolding mark_found
mark_job now status error job_id jobs steps =
    mark_found now status error job_id jobs steps (by_key (λ (j : Job). j.id) jobs job_id)
