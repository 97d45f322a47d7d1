-- ===== src/Lifecycle/Expiry.antt =====
-- `reap_expired_projects` of workers/tasks.py: one sweep over the projects whose time has run out. The
-- records of the audit log are not modelled.
pub mod Rounds
use stage.Prelude.{
  ℕ, ◌+◌, ◌*◌, List, [], ◌∷◌, ◌++◌, Option, none, some, Bool, true, false, not, ◌&&◌, ◌||◌, ◌==◌,
  leb, ltb, find, select, update_where, Text, length, if◌then◌else◌,
}
use stage.Models.{Project, ProjectStatus, ready, failed, destroying, Job, JobType, JobStatus}
use stage.Repositories.Jobs.{new_job}
use stage.Repositories.Projects.{is_provision_job}
use stage.Workers.Redaction.{Patterns}
use stage.Workers.Log.{append_log}

-- EXPIRY_WARNING_MINUTES
abbrev pub expiry_warning_minutes : ℕ
expiry_warning_minutes = 60

abbrev is_ready : ProjectStatus → Bool
is_ready ProjectStatus.ready = true
is_ready _ = false

abbrev is_reapable : ProjectStatus → Bool
is_reapable ProjectStatus.ready = true
is_reapable ProjectStatus.failed = true
is_reapable _ = false

-- The rows to warn of: they expire within the warning time, and not before now.
unfoldable pub is_soon : ℕ → Project → Bool
is_soon now p = elim p.expires_at [
  | none ↦ false
  | some e ↦
      p.auto_destroy
      && (not p.expiry_warned
          && (is_ready p.status && (leb e (now + expiry_warning_minutes * 60) && ltb now e)))
]

unfoldable pub warn : Project → Project
warn p = record p { expiry_warned = true }

unfoldable pub is_expired : ℕ → Project → Bool
is_expired now p = elim p.expires_at [
  | none ↦ false
  | some e ↦ p.auto_destroy && (is_reapable p.status && leb e now)
]

-- The rows that the sweep writes, and the id of the next job.
pub record Sweep : Type 0 where
  pub jobs : List Job
  pub projects : List Project
  pub next : ℕ

unfoldable pub tear_down : Project → Project
tear_down p = record p { status = ProjectStatus.destroying }

-- The destroy job, with the line that the sweep appends to its log.
unfoldable pub destroy_job : Patterns → (Project → Text) → ℕ → Sweep → Project → Job
unfolding append_log
destroy_job patterns line now s p =
    let job = new_job s.next now (some p.id) none JobType.destroy in
    record job { log = append_log patterns job.log (line p) }

unfoldable pub is_busy : ℕ → List Job → Bool
unfolding is_provision_job find
is_busy project_id jobs = elim (find (is_provision_job project_id) jobs) [
  | none ↦ false
  | some job ↦ true
]

-- One round: a project with an active job is passed over.
unfoldable pub reap_one : Patterns → (Project → Text) → ℕ → Project → Sweep → Sweep
unfolding destroy_job is_busy tear_down
reap_one patterns line now p s = if is_busy p.id s.jobs then s else record {
  jobs = s.jobs ++ destroy_job patterns line now s p ∷ [];
  projects = update_where (λ (q : Project). q.id == p.id) tear_down s.projects;
  next = s.next + 1;
}

-- The loop; an exception of the broker ends it, and the round it was raised in is not committed.
unfoldable pub reap_all :
    Patterns → (Project → Text) → (Project → Bool) → ℕ → List Project → Sweep → Sweep
unfolding reap_one
reap_all patterns line delivered now [] s = s
reap_all patterns line delivered now (p ∷ ps) s =
    let rest = reap_all patterns line delivered now ps (reap_one patterns line now p s) in
    if is_busy p.id s.jobs || delivered p then rest else s

unfoldable pub reap_expired_projects :
    Patterns → (Project → Text) → (Project → Bool) → ℕ → Sweep → Sweep
unfolding reap_all is_soon warn is_expired
reap_expired_projects patterns line delivered now s =
    let warned = update_where (is_soon now) warn s.projects in
    reap_all patterns line delivered now (select (is_expired now) warned)
      (record s { projects = warned })
