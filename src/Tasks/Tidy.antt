-- ===== src/Tasks/Tidy.antt =====
-- The state that the tasks keep between their calls, and what each shared call of Calls does to it.
use stage.Prelude.{
  ℕ, ◌+◌, ◌≤◌, ◌<◌, List, [], ◌∷◌, ◌++◌, Option, none, some, true, false, ◌==◌, ◌≡◌, refl, arith,
  update_where, select, find, by_key-update, by_key-update_map, by_key-key, subst, by_key, Text,
  is_zero, sym, ◌∙◌, if◌then◌else◌,
}
use mathlib.Core.Option
use stage.Models.{Project, ProjectStatus, Deployment, Scan, Job, JobStatus, JobStep}
use stage.Lifecycle.{start_job}
use stage.Workers.Log.{append_log}
use stage.Workers.Steps.{is_open, is_at, close, new_step}
use stage.Workers.Steps.Track.{rows_at, open_rows, closed_rows, step_fresh_rows}
use stage.Workers.Steps.Marks.{mark_job_rows}
use stage.Tasks.World.{World, returned, Reply, ask}
use stage.Tasks.Calls.{
  with_jobs, with_projects, log_line, say, log_lines, stream, RunResult, check, put_steps, step,
  put_rows, mark, fail, start, project_row, write_project, put_status, set_project_status,
}
use stage.Tasks.Triples.{Leads, leads, also, branch, pure_lem, raise_lem, modify_lem, settle_lem}

-- The job's row, at the key of the task.
abbrev pub job_row : ℕ → World → Option Job
job_row job_id w = by_key (λ (j : Job). j.id) w.db.jobs job_id

module _ (job_id : ℕ) where
  -- The job's row is there, the other tables are as T says, and at most one step of the job is open.
  abbrev pub IsSafe : (List Project → List Scan → List Deployment → Type 0) → World → Type 0
  IsSafe T w =
      (job : Job) × (job_row job_id w ≡ some job)
      × T w.db.projects w.db.scans w.db.deployments
      × (open_rows job_id w.steps ≤ 1)

  -- And the rows of the steps are as U says.
  abbrev pub IsWith :
      (List JobStep → Type 0)
      → (List Project → List Scan → List Deployment → Type 0)
      → World
      → Type 0
  IsWith U T w = IsSafe T w × U w.steps

  -- No step after `last` has been taken.
  abbrev pub Unused : ℕ → List JobStep → Type 0
  Unused last steps = (index : ℕ) → last < index → rows_at job_id index steps ≡ 0

  abbrev pub IsTidy : ℕ → (List Project → List Scan → List Deployment → Type 0) → World → Type 0
  IsTidy last = IsWith (Unused last)

  -- The end of a task: the job has its status, and no step of it is open.
  abbrev pub IsEnded :
      JobStatus → (List Project → List Scan → List Deployment → Type 0) → World → Type 0
  IsEnded status T w =
      (job : Job) × (job_row job_id w ≡ some job)
      × (job.status ≡ status)
      × T w.db.projects w.db.scans w.db.deployments
      × (open_rows job_id w.steps ≡ 0)

-- The predicate on a project's row.
abbrev pub On : ℕ → (Option Project → Type 0) → List Project → List Scan → List Deployment → Type 0
On project_id T projects scans deployments = T (by_key (λ (p : Project). p.id) projects project_id)

-- A line in the log changes the job's row in its log only.
log_line_job :
    (job_id : ℕ) (line : Text) (w : World) (job : Job)
    → job_row job_id w ≡ some job
    → (job' : Job) × (job_row job_id (log_line job_id line w) ≡ some job')
      × (job'.status ≡ job.status)
unfolding log_line with_jobs
log_line_job job_id line w job known = (
  record job { log = append_log w.patterns job.log line },
  by_key-update (λ (j : Job). j.id) job_id
      (λ j. record j { log = append_log w.patterns j.log line }) (λ j e. e) w.db.jobs job known,
  refl,
)

module _ (job_id : ℕ) (T : List Project → List Scan → List Deployment → Type 0) where
  log_line-IsSafe :
      (line : Text) (w : World) → IsSafe job_id T w → IsSafe job_id T (log_line job_id line w)
  unfolding log_line with_jobs
  log_line-IsSafe line w (job, known, holds, single) =
      let (job', known', same) = log_line_job job_id line w job known in
      (job', known', holds, single)

  pub log_line-IsEnded :
      (status : JobStatus) (line : Text) (w : World)
      → IsEnded job_id status T w
      → IsEnded job_id status T (log_line job_id line w)
  unfolding log_line with_jobs
  log_line-IsEnded status line w (job, known, is, holds, closed) =
      let (job', known', same) = log_line_job job_id line w job known in
      (job', known', same ∙ is, holds, closed)

  pub log_line-IsWith :
      (U : List JobStep → Type 0) (line : Text) (w : World)
      → IsWith job_id U T w
      → IsWith job_id U T (log_line job_id line w)
  unfolding log_line with_jobs
  log_line-IsWith U line w (safe, rows) = (log_line-IsSafe line w safe, rows)

  pub log_line-IsTidy :
      (last : ℕ) (line : Text) (w : World)
      → IsTidy job_id last T w
      → IsTidy job_id last T (log_line job_id line w)
  log_line-IsTidy last = log_line-IsWith (Unused job_id last)

  pub log_lines-IsWith :
      (U : List JobStep → Type 0) (lines : List Text) (w : World)
      → IsWith job_id U T w
      → IsWith job_id U T (log_lines job_id lines w)
  unfolding log_lines
  log_lines-IsWith U [] w h = h
  log_lines-IsWith U (line ∷ lines) w h =
      log_lines-IsWith U lines (log_line job_id line w) (log_line-IsWith U line w h)

-- A fresh step adds its row, and no other row moves to another index.
rows_at-closed :
    (now job_id i : ℕ) (steps : List JobStep) (s : JobStep)
    → rows_at job_id i (closed_rows now job_id 0 0 [] steps ++ s ∷ [])
      ≡ rows_at job_id i steps + rows_at job_id i (s ∷ [])
unfolding select update_where is_open is_at close
rows_at-closed now job_id i [] s = omega arith
rows_at-closed now job_id i (x ∷ steps) s = ground (arith, rows_at-closed now job_id i steps s)

rows_at-new :
    (now job_id index total i : ℕ) (name : Text)
    → rows_at job_id i (new_step now job_id index total name ∷ []) ≡ (if index == i then 1 else 0)
unfolding select is_at
rows_at-new now job_id index total i name = ground arith

module _ (job_id : ℕ) (T : List Project → List Scan → List Deployment → Type 0) where
  pub say-IsWith :
      (U : List JobStep → Type 0) (line : Text) {R : World → Type 0}
      → Leads (IsWith job_id U T) (say job_id line) (IsWith job_id U T) R
  unfolding say
  say-IsWith U line = modify_lem _ (log_line-IsWith job_id T U line)

  pub say_lem :
      (last : ℕ) (line : Text) {R : World → Type 0}
      → Leads (IsTidy job_id last T) (say job_id line) (IsTidy job_id last T) R
  say_lem last = say-IsWith (Unused job_id last)

  pub say-IsSafe :
      (line : Text) {R : World → Type 0}
      → Leads (IsSafe job_id T) (say job_id line) (IsSafe job_id T) R
  unfolding say
  say-IsSafe line = modify_lem _ (log_line-IsSafe job_id T line)

  pub say-IsEnded :
      (status : JobStatus) (line : Text) {R : World → Type 0}
      → Leads (IsEnded job_id status T) (say job_id line) (IsEnded job_id status T) R
  unfolding say
  say-IsEnded status line = modify_lem _ (log_line-IsEnded job_id T status line)

  pub ask-IsWith :
      {A : Type 0} (U : List JobStep → Type 0) (reply : Reply A) {R : World → Type 0}
      → ((w : World) → IsWith job_id U T w → R w)
      → Leads (IsWith job_id U T) (ask reply) (IsWith job_id U T) R
  unfolding ask
  ask-IsWith U reply down =
      leads λ w h. (settle_lem reply.answer down).from (record w { now = w.now + reply.took }) h

  pub stream-IsWith :
      {A : Type 0} (U : List JobStep → Type 0) (reply : Reply A) {R : World → Type 0}
      → ((w : World) → IsWith job_id U T w → R w)
      → Leads (IsWith job_id U T) (stream job_id reply) (IsWith job_id U T) R
  unfolding stream
  stream-IsWith U reply down = leads λ w h.
      let w' = record w { now = w.now + reply.took } in
      (settle_lem reply.answer down).from (log_lines job_id reply.lines w')
        (log_lines-IsWith job_id T U reply.lines w' h)

  pub check-IsWith :
      (U : List JobStep → Type 0) (result : RunResult) (hint : Text) {R : World → Type 0}
      → ((w : World) → IsWith job_id U T w → R w)
      → Leads (IsWith job_id U T) (check result hint) (IsWith job_id U T) R
  unfolding check
  check-IsWith U result hint down =
      branch result.timed_out (raise_lem _ down)
        (branch (is_zero result.exit_code) (pure_lem tt) (raise_lem _ down))

  pub ask_to :
      {A : Type 0} (last : ℕ) (reply : Reply A) {R : World → Type 0}
      → ((w : World) → IsTidy job_id last T w → R w)
      → Leads (IsTidy job_id last T) (ask reply) (IsTidy job_id last T) R
  ask_to last = ask-IsWith (Unused job_id last)

  pub stream_to :
      {A : Type 0} (last : ℕ) (reply : Reply A) {R : World → Type 0}
      → ((w : World) → IsTidy job_id last T w → R w)
      → Leads (IsTidy job_id last T) (stream job_id reply) (IsTidy job_id last T) R
  stream_to last = stream-IsWith (Unused job_id last)

  pub ask_lem :
      {A : Type 0} (last : ℕ) (reply : Reply A)
      → Leads (IsTidy job_id last T) (ask reply) (IsTidy job_id last T) (IsSafe job_id T)
  ask_lem last reply = ask_to last reply (λ w h. h.0)

  pub stream_lem :
      {A : Type 0} (last : ℕ) (reply : Reply A)
      → Leads (IsTidy job_id last T) (stream job_id reply) (IsTidy job_id last T) (IsSafe job_id T)
  stream_lem last reply = stream_to last reply (λ w h. h.0)

  pub check_to :
      (last : ℕ) (result : RunResult) (hint : Text) {R : World → Type 0}
      → ((w : World) → IsTidy job_id last T w → R w)
      → Leads (IsTidy job_id last T) (check result hint) (IsTidy job_id last T) R
  check_to last = check-IsWith (Unused job_id last)

  pub check_lem :
      (last : ℕ) (result : RunResult) (hint : Text)
      → Leads (IsTidy job_id last T) (check result hint) (IsTidy job_id last T) (IsSafe job_id T)
  check_lem last result hint = check_to last result hint (λ w h. h.0)

  -- A step at an index that has no row.
  pub step-IsWith :
      (U V : List JobStep → Type 0) (index total : ℕ) (name : Text)
      → ((steps : List JobStep) → U steps → rows_at job_id index steps ≡ 0)
      → ((steps steps' : List JobStep)
          → U steps
          → ((i : ℕ)
              → rows_at job_id i steps' ≡ rows_at job_id i steps + (if index == i then 1 else 0))
          → V steps')
      → Leads
          (IsWith job_id U T)
          (step job_id index total name)
          (IsWith job_id V T)
          (IsSafe job_id T)
  unfolding step put_steps
  step-IsWith U V index total name fresh moves =
      also {Q = IsWith job_id V T}
        (leads λ w ((job, known, holds, single), rows).
          let (stepped, count) =
            step_fresh_rows w.now job_id index total name w.steps (fresh w.steps rows) single in
          rw stepped (
            (job, known, holds, omega (arith, count)),
            moves w.steps _ rows λ i.
                rows_at-closed w.now job_id i w.steps (new_step w.now job_id index total name)
                ∙ (omega (arith, rows_at-new w.now job_id index total i name)),
          ))
        (say-IsWith V _)

  -- A step behind those that were taken.
  pub step_lem :
      (last index total : ℕ) (name : Text)
      → last < index
      → Leads
          (IsTidy job_id last T)
          (step job_id index total name)
          (IsTidy job_id index T)
          (IsSafe job_id T)
  step_lem last index total name behind =
      step-IsWith (Unused job_id last) (Unused job_id index) index total name
        (λ steps unused. unused index behind)
        λ steps steps' unused moved i h. ground (arith, moved i, unused i (omega arith))

  -- The end of a task, which cannot raise.
  pub mark-IsEnded :
      (status : JobStatus) (error : Option Text) {R : World → Type 0}
      → Leads (IsSafe job_id T) (mark job_id status error) (IsEnded job_id status T) R
  unfolding mark put_rows stage.Workers.Steps.mark
  mark-IsEnded status error = leads λ w (job, known, holds, single).
      let (marked, closed) =
        mark_job_rows w.now status error job_id w.db.jobs w.steps job known single in
      rw marked (
        stage.Workers.Steps.mark w.now status error job,
        by_key-update (λ (j : Job). j.id) job_id (stage.Workers.Steps.mark w.now status error)
            (λ j e. e) w.db.jobs job known,
        refl,
        holds,
        closed,
      )

  pub fail_lem :
      (text : Text) {R : World → Type 0}
      → Leads (IsSafe job_id T) (fail job_id text) (IsEnded job_id JobStatus.failed T) R
  unfolding fail
  fail_lem text = also (say-IsSafe _) (mark-IsEnded JobStatus.failed (some text))

module _ (job_id project_id : ℕ) (T : Option Project → Type 0) where
  -- A write to the project's row.
  pub write_lem :
      (U : Option Project → Type 0) (f : Project → Project) (w : World)
      → ((p : Project) → (f p).id ≡ p.id)
      → ((p : Option Project) → T p → U (Option.map f p))
      → IsSafe job_id (On project_id T) w
      → IsSafe job_id (On project_id U) (write_project project_id f w)
  unfolding write_project with_projects
  write_lem U f w same to (job, known, holds, single) = (
    job,
    known,
    subst U (sym (by_key-update_map (λ (p : Project). p.id) project_id f same w.db.projects))
        (to (project_row project_id w) holds),
    single,
  )

  pub set_project_status_lem :
      (U : Option Project → Type 0) (status : ProjectStatus) {R : World → Type 0}
      → ((p : Option Project) → T p → U (Option.map (put_status status) p))
      → Leads
          (IsSafe job_id (On project_id T))
          (set_project_status project_id status)
          (IsSafe job_id (On project_id U))
          R
  unfolding set_project_status
  set_project_status_lem U status to =
      modify_lem _ λ w h. write_lem U (put_status status) w (unfold put_status in λ p. refl) to h

-- A job that waits for its worker: it is not cancelled and has no steps yet.
abbrev pub IsQueued : ℕ → World → Type 0
IsQueued job_id w =
    (job : Job) × (job_row job_id w ≡ some job)
    × (job.cancel_requested ≡ false)
    × (find (λ (s : JobStep). s.job_id == job_id) w.steps ≡ none)

no_rows_at :
    (job_id i : ℕ) (steps : List JobStep)
    → find (λ (s : JobStep). s.job_id == job_id) steps ≡ none
    → rows_at job_id i steps ≡ 0
unfolding select find is_at
no_rows_at job_id i [] h = refl
no_rows_at job_id i (s ∷ steps) h = ground (arith, no_rows_at job_id i steps)

no_open_rows :
    (job_id : ℕ) (steps : List JobStep)
    → find (λ (s : JobStep). s.job_id == job_id) steps ≡ none
    → open_rows job_id steps ≤ 1
unfolding select find is_open
no_open_rows job_id [] h = omega arith
no_open_rows job_id (s ∷ steps) h = ground (arith, no_open_rows job_id steps)

-- Such a job is started.
pub start-IsWith :
    (job_id : ℕ) (T : List Project → List Scan → List Deployment → Type 0) (w : World)
    → IsQueued job_id w
    → T w.db.projects w.db.scans w.db.deployments
    → (w' : World) × (start job_id w ≡ returned true w')
      × IsWith job_id (λ steps. (i : ℕ) → rows_at job_id i steps ≡ 0) T w'
      × (w'.db.projects ≡ w.db.projects)
      × (w'.db.deployments ≡ w.db.deployments)
      × (w'.db.teams ≡ w.db.teams)
unfolding start start_job with_jobs
start-IsWith job_id T w (job, known, wanted, none_yet) holds =
    let job' = record job { status = JobStatus.running; started_at = some w.now } in
    let key : Job → ℕ = λ j. j.id in
    (
      with_jobs (update_where (λ (j : Job). j.id == job_id) (λ _. job')) w,
      rw known (rw wanted refl),
      (
        (
          job',
          by_key-update key job_id (λ _. job') (λ _ _. by_key-key key job_id w.db.jobs job known)
              w.db.jobs job known,
          holds,
          no_open_rows job_id w.steps none_yet,
        ),
        λ i. no_rows_at job_id i w.steps none_yet,
      ),
      refl,
      refl,
      refl,
    )

pub start_lem :
    (job_id : ℕ) (T : List Project → List Scan → List Deployment → Type 0) (w : World)
    → IsQueued job_id w
    → T w.db.projects w.db.scans w.db.deployments
    → (w' : World) × (start job_id w ≡ returned true w') × IsTidy job_id 0 T w'
start_lem job_id T w queued holds =
    let (w', started, (safe, unused), _, _, _) = start-IsWith job_id T w queued holds in
    (w', started, (safe, λ i _. unused i))
