-- ===== src/Workers/Steps/Track.antt =====
-- At most one step of a job is open: when `_step` keeps that, and when it breaks it.
use stage.Prelude.{
  ℕ, ◌+◌, ◌≤◌, List, [], ◌∷◌, ◌++◌, Option, none, some, select, ok, ◌≡◌, refl, arith, update_where,
  Text, length, ap, sym, map, ◌∙◌, ◌==◌, ◌&&◌, if◌then◌else◌,
}
use stage.Models.{JobStep, StepStatus}
use stage.Workers.Steps.{
  one_or_none, is_none, is_open, is_at, reopen, close, new_step, close_previous, step,
}

-- `uq_job_steps_job_id_step_index`, for one job and index.
abbrev pub rows_at : ℕ → ℕ → List JobStep → ℕ
rows_at job_id index steps = length (select (is_at job_id index) steps)

abbrev pub open_rows : ℕ → List JobStep → ℕ
open_rows job_id steps = length (select (is_open job_id) steps)

-- The open row of a job that stands at an index.
abbrev pub open_at : ℕ → ℕ → List JobStep → ℕ
open_at job_id index steps = length (select (is_open job_id) (select (is_at job_id index) steps))

module _ (now job_id : ℕ) where
  open_rows-close :
      (steps : List JobStep)
      → open_rows job_id (update_where (is_open job_id) (close now StepStatus.succeeded) steps) ≡ 0
  unfolding update_where select is_open close
  open_rows-close [] = refl
  open_rows-close (s ∷ steps) = ground (arith, open_rows-close steps)

  open_rows-new :
      (steps : List JobStep) (s : JobStep)
      → open_rows job_id (steps ++ s ∷ []) ≡ open_rows job_id steps + open_rows job_id (s ∷ [])
  unfolding select
  open_rows-new [] s = omega arith
  open_rows-new (x ∷ xs) s = ground (arith, open_rows-new xs s)

  module _ (index total : ℕ) (name : Text) where
    open_rows-reopen :
        (steps : List JobStep)
        → open_rows job_id (update_where (is_at job_id index) (reopen total name) steps)
            + open_at job_id index steps
          ≡ open_rows job_id steps + rows_at job_id index steps
    unfolding update_where select is_open is_at reopen
    open_rows-reopen [] = refl
    open_rows-reopen (s ∷ steps) = ground (arith, open_rows-reopen steps)

  close_none :
      (steps : List JobStep)
      → open_rows job_id steps ≡ 0
      → update_where (is_open job_id) (close now StepStatus.succeeded) steps ≡ steps
  unfolding update_where select
  close_none [] h = refl
  close_none (s ∷ steps) h = ground (arith, close_none steps)

  -- Closing the previous step closes what is open.
  close_previous_lem :
      (steps rows : List JobStep)
      → select (is_open job_id) steps ≡ rows
      → length rows ≤ 1
      → (prev : Option JobStep) × (one_or_none rows ≡ ok prev)
        × (close_previous now job_id steps prev
            ≡ update_where (is_open job_id) (close now StepStatus.succeeded) steps)
  unfolding close_previous
  close_previous_lem steps [] e h = (none, refl, sym (close_none steps (ap length e)))
  close_previous_lem steps (s ∷ []) e h = (some s, refl, refl)
  close_previous_lem steps (a ∷ b ∷ rest) e h = absurd (omega arith)

closed_map :
    (now job_id : ℕ) (steps : List JobStep)
    → update_where (is_open job_id) (close now StepStatus.succeeded) steps
      ≡ map
          (λ (s : JobStep).
            if s.job_id == job_id && is_none s.finished_at
            then record s { status = StepStatus.succeeded; finished_at = some now }
            else s)
          steps
unfolding update_where is_open close
closed_map now job_id [] = refl
closed_map now job_id (s ∷ steps) =
    ap
      (λ (rows : List JobStep).
        (if s.job_id == job_id && is_none s.finished_at
          then record s { status = StepStatus.succeeded; finished_at = some now }
          else s)
        ∷ rows)
      (closed_map now job_id steps)

pub empty_of_length : (rows : List JobStep) → length rows ≡ 0 → rows ≡ []
empty_of_length [] h = refl
empty_of_length (s ∷ rows) h = absurd (omega arith)

pub single_of_length : (rows : List JobStep) → length rows ≡ 1 → (s : JobStep) × (rows ≡ s ∷ [])
single_of_length [] h = absurd (omega arith)
single_of_length (s ∷ []) h = (s, refl)
single_of_length (a ∷ b ∷ rows) h = absurd (omega arith)

module _ (now job_id index total : ℕ) (name : Text) (steps : List JobStep) where
  abbrev pub closed_rows : List JobStep
  closed_rows = update_where (is_open job_id) (close now StepStatus.succeeded) steps

  -- The rows after a step at an index that the job has not used.
  pub step_fresh_rows :
      rows_at job_id index steps ≡ 0
      → open_rows job_id steps ≤ 1
      → (step now job_id index total name steps
          ≡ ok (closed_rows ++ new_step now job_id index total name ∷ []))
        × (open_rows job_id (closed_rows ++ new_step now job_id index total name ∷ []) ≡ 1)
  unfolding step
  step_fresh_rows unused single =
      let (prev, found, closed) =
        close_previous_lem now job_id steps (select (is_open job_id) steps) refl single in
      let absent = empty_of_length (select (is_at job_id index) steps) unused in
      (
        rw absent (rw found (rw closed)),
        unfold select is_open in
            ground (
              arith,
              open_rows-new now job_id closed_rows (new_step now job_id index total name),
              open_rows-close now job_id steps,
            ),
      )

  -- The open rows of the job closed as succeeded now, and the others as they were.
  abbrev pub succeeded_now : List JobStep
  succeeded_now =
      map
        (λ (s : JobStep).
          if s.job_id == job_id && is_none s.finished_at
          then record s { status = StepStatus.succeeded; finished_at = some now }
          else s)
        steps

  abbrev pub begun_row : JobStep
  begun_row = record {
    job_id = job_id;
    step_index = index;
    step_total = total;
    name = name;
    status = StepStatus.running;
    started_at = some now;
    finished_at = none;
    error_message = none;
  }

  -- A step at an index that the job has not used, with at most one row open, leaves exactly one row
  -- open, its own, running from now on, after the others: the row that was open is closed now as
  -- succeeded and no other row changes.
  pub step_fresh :
      rows_at job_id index steps ≡ 0
      → open_rows job_id steps ≤ 1
      → (step now job_id index total name steps ≡ ok (succeeded_now ++ begun_row ∷ []))
        × (open_rows job_id (succeeded_now ++ begun_row ∷ []) ≡ 1)
  step_fresh unused single =
      let (stepped, count) = step_fresh_rows unused single in
      let e : closed_rows ≡ succeeded_now = closed_map now job_id steps in
      (
        stepped ∙ ap (λ (rows : List JobStep). ok (rows ++ begun_row ∷ [])) e,
        ap (λ (rows : List JobStep). open_rows job_id (rows ++ begun_row ∷ [])) (sym e) ∙ count,
      )

  abbrev pub reopened_rows : List JobStep
  reopened_rows = update_where (is_at job_id index) (reopen total name) steps

  -- A step at an index that the job has used reopens that row. The number of open rows goes up by one
  -- if the row was closed, and stays if it was open.
  pub step_again :
      rows_at job_id index steps ≡ 1
      → (step now job_id index total name steps ≡ ok reopened_rows)
        × (open_rows job_id reopened_rows + open_at job_id index steps ≡ open_rows job_id steps + 1)
  unfolding step
  step_again used =
      let (s, here) = single_of_length (select (is_at job_id index) steps) used in
      (rw here, omega (arith, open_rows-reopen now job_id index total name steps, used))
