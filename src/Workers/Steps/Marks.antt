-- ===== src/Workers/Steps/Marks.antt =====
-- What `_mark_job` leaves behind, and the runs that it cannot finish.
use stage.Prelude.{
  ℕ, ◌≤◌, List, [], ◌∷◌, Option, none, some, ◌==◌, select, ok, err, ◌≡◌, refl, arith, update_where,
  by_key, Text, length, ap, sym, take, ◌&&◌, if◌then◌else◌,
}
use stage.Models.{Job, JobStatus, JobStep, StepStatus}
use stage.Workers.Steps.{
  is_none, multiple_results, one_or_none, is_open, is_at, mark, close_marked, close_final,
  mark_found, mark_job, step, step_from,
}
use stage.Workers.Steps.Track.{
  open_rows, rows_at, open_at, reopened_rows, step_again, empty_of_length,
}

two_rows : (rows : List JobStep) → 2 ≤ length rows → one_or_none rows ≡ err multiple_results
two_rows [] h = absurd (omega arith)
two_rows (s ∷ []) h = absurd (omega arith)
two_rows (a ∷ b ∷ rest) h = refl

-- A job's row and a step's row after the end of the job.
abbrev pub end_time : JobStatus → ℕ → Option ℕ → Option ℕ
end_time JobStatus.queued now old = old
end_time JobStatus.running now old = old
end_time JobStatus.succeeded now old = some now
end_time JobStatus.failed now old = some now
end_time JobStatus.cancelled now old = some now
end_time JobStatus.interrupted now old = old

abbrev pub ended_job : ℕ → JobStatus → Option Text → Job → Job
ended_job now status error job = record job {
  status = status;
  error_message = error;
  finished_at = end_time status now job.finished_at;
}

-- How the step ends, and the error that it keeps.
abbrev pub outcome : JobStatus → StepStatus
outcome JobStatus.queued = StepStatus.failed
outcome JobStatus.running = StepStatus.failed
outcome JobStatus.succeeded = StepStatus.succeeded
outcome JobStatus.failed = StepStatus.failed
outcome JobStatus.cancelled = StepStatus.failed
outcome JobStatus.interrupted = StepStatus.failed

abbrev pub noted : StepStatus → Option Text → Option Text → Option Text
noted StepStatus.failed (some (c ∷ error)) old = some (take 500 (c ∷ error))
noted _ _ old = old

abbrev pub ended_step : ℕ → JobStatus → Option Text → ℕ → JobStep → JobStep
ended_step now status error job_id s =
    if s.job_id == job_id && is_none s.finished_at
    then record s {
      status = outcome status;
      error_message = noted (outcome status) error s.error_message;
      finished_at = some now;
    }
    else s

module _ (now : ℕ) (status : JobStatus) (error : Option Text) (job_id : ℕ) where
  open_rows-mark :
      (steps : List JobStep)
      → open_rows job_id (update_where (is_open job_id) (close_marked now status error) steps) ≡ 0
  unfolding update_where select is_open close_marked
  open_rows-mark [] = refl
  open_rows-mark (s ∷ steps) = ground (arith, open_rows-mark steps)

  mark_none :
      (steps : List JobStep)
      → open_rows job_id steps ≡ 0
      → update_where (is_open job_id) (close_marked now status error) steps ≡ steps
  unfolding update_where select
  mark_none [] h = refl
  mark_none (s ∷ steps) h = ground (arith, mark_none steps)

  close_final_lem :
      (steps rows : List JobStep)
      → select (is_open job_id) steps ≡ rows
      → length rows ≤ 1
      → (final : Option JobStep) × (one_or_none rows ≡ ok final)
        × (close_final now status error job_id steps final
            ≡ update_where (is_open job_id) (close_marked now status error) steps)
  unfolding close_final
  close_final_lem steps [] e h = (none, refl, sym (mark_none steps (ap length e)))
  close_final_lem steps (s ∷ []) e h = (some s, refl, refl)
  close_final_lem steps (a ∷ b ∷ rest) e h = absurd (omega arith)

  module _ (jobs : List Job) (steps : List JobStep) (job : Job)
      (known : by_key (λ (j : Job). j.id) jobs job_id ≡ some job) where
    abbrev pub marked_rows : List JobStep
    marked_rows = update_where (is_open job_id) (close_marked now status error) steps

    -- The tables after `_mark_job`, with at most one step of the job open.
    pub mark_job_rows :
        open_rows job_id steps ≤ 1
        → (mark_job now status error job_id jobs steps
            ≡ ok (update_where (λ j. j.id == job_id) (mark now status error) jobs, marked_rows))
          × (open_rows job_id marked_rows ≡ 0)
    unfolding mark_job mark_found
    mark_job_rows single =
        let (final, found, closed) =
          close_final_lem steps (select (is_open job_id) steps) refl single in
        (rw known (rw found (rw closed)), open_rows-mark steps)

    abbrev pub marked_jobs : List Job
    marked_jobs = update_where (λ j. j.id == job_id) (mark now status error) jobs

    -- With two steps of a job open, `_mark_job` raises for every status: the job cannot be finished.
    pub mark_job_stuck :
        2 ≤ open_rows job_id steps
        → mark_job now status error job_id jobs steps ≡ err multiple_results
    unfolding mark_job mark_found
    mark_job_stuck two = rw known (rw (two_rows (select (is_open job_id) steps) two))

-- Going back to an earlier step that was closed, while a later one is open, opens a second row: the
-- call itself succeeds, and then the job can neither take a step at an index that it has not used nor be
-- marked, whatever its outcome.
pub step_back_is_stuck :
    (now job_id index total : ℕ) (name : Text) (jobs : List Job) (steps : List JobStep) (job : Job)
    → by_key (λ (j : Job). j.id) jobs job_id ≡ some job
    → rows_at job_id index steps ≡ 1
    → open_at job_id index steps ≡ 0
    → open_rows job_id steps ≡ 1
    → (next : ℕ) → rows_at job_id next (reopened_rows now job_id index total name steps) ≡ 0
    → (steps' : List JobStep) × (step now job_id index total name steps ≡ ok steps')
      × (step now job_id next total name steps' ≡ err multiple_results)
      × ((status : JobStatus) (error : Option Text)
          → mark_job now status error job_id jobs steps' ≡ err multiple_results)
unfolding step step_from
step_back_is_stuck now job_id index total name jobs steps job known used shut single next unused =
    let (stepped, count) = step_again now job_id index total name steps used in
    let steps' = reopened_rows now job_id index total name steps in
    let two : open_rows job_id steps' ≡ 2 = omega (arith, count) in
    (
      steps',
      stepped,
      rw (empty_of_length (select (is_at job_id next) steps') unused)
          (rw (two_rows (select (is_open job_id) steps') (omega arith))),
      λ status error. mark_job_stuck now status error job_id jobs steps' job known (omega arith),
    )
