-- ===== src/Lifecycle/Expiry/Rounds.antt =====
-- What a sweep does to each project: the active jobs that hold it, and its row.
use mathlib.Core.Option
use stage.Prelude.{
  ℕ, suc, ◌+◌, List, [], ◌∷◌, ◌++◌, Option, none, some, Bool, true, false, not, ◌&&◌, ◌==◌, ◌≡◌,
  refl, arith, inl, inr, find, select, select-snoc, update_where, by_key, IsKeyed, keep,
  by_key-select, select-IsKeyed, update_where-IsKeyed, Text, length, length-append, if◌then◌else◌,
  Bool-cases, ap, ◌∙◌, sym, All,
}
use mathlib.Core.List.{append-nil, append_assoc}
use stage.Models.{Project, ProjectStatus, Job, JobType, JobStatus}
use stage.Repositories.Projects.{is_provision_job}
use stage.Workers.Redaction.{Patterns}
use stage.Lifecycle.Expiry.{
  is_soon, warn, is_expired, Sweep, tear_down, destroy_job, is_busy, reap_one, reap_all,
  reap_expired_projects,
}

-- The active jobs that hold a project, and its row.
abbrev pub holders : ℕ → Sweep → ℕ
holders project_id s = length (select (is_provision_job project_id) s.jobs)

abbrev pub row : ℕ → List Project → Option Project
row project_id projects = by_key (λ (p : Project). p.id) projects project_id

is_busy_iff :
    (project_id : ℕ) (jobs : List Job)
    → is_busy project_id jobs ≡ not (length (select (is_provision_job project_id) jobs) == 0)
unfolding is_busy find select
is_busy_iff project_id [] = refl
is_busy_iff project_id (j ∷ jobs) = ground (arith, is_busy_iff project_id jobs)

row-tear_down :
    (i d : ℕ) (projects : List Project)
    → row d (update_where (λ (q : Project). q.id == i) tear_down projects)
      ≡ (if i == d then Option.map tear_down (row d projects) else row d projects)
unfolding find update_where tear_down
row-tear_down i d [] = ground arith
row-tear_down i d (q ∷ projects) = ground (arith, row-tear_down i d projects)

module _ (patterns : Patterns) (line : Project → Text) (now : ℕ) where
  is_provision_job-destroy_job :
      (s : Sweep) (p : Project) (d : ℕ)
      → is_provision_job d (destroy_job patterns line now s p) ≡ (p.id == d)
  unfolding is_provision_job destroy_job
  is_provision_job-destroy_job s p d = ground arith

  last_lem :
      (s : Sweep) (p : Project) (d : ℕ)
      → holders d s + length (select (is_provision_job d) (destroy_job patterns line now s p ∷ []))
        ≡ (if p.id == d then suc (holders d s) else holders d s)
  unfolding select
  last_lem s p d = ground (arith, is_provision_job-destroy_job s p d)

  holders-queued :
      (s : Sweep) (p : Project) (d : ℕ)
      → length (select (is_provision_job d) (s.jobs ++ destroy_job patterns line now s p ∷ []))
        ≡ (if p.id == d then suc (holders d s) else holders d s)
  holders-queued s p d =
      let job = destroy_job patterns line now s p in
      ap length (select-snoc (is_provision_job d) s.jobs job)
      ∙ length-append (select (is_provision_job d) s.jobs) (select (is_provision_job d) (job ∷ []))
      ∙ last_lem s p d

  holders-reap_one :
      (p : Project) (s : Sweep) (d : ℕ)
      → holders d (reap_one patterns line now p s)
        ≡ (if p.id == d && holders d s == 0 then 1 else holders d s)
  unfolding reap_one
  holders-reap_one p s d = elim (Bool-cases (p.id == d)) [
    | inl here ↦ ground (arith, is_busy_iff p.id s.jobs, holders-queued s p d)
    | inr other ↦ ground (arith, holders-queued s p d)
  ]

  row-reap_one :
      (p : Project) (s : Sweep) (d : ℕ)
      → row d (reap_one patterns line now p s).projects ≡ (
          if p.id == d && holders d s == 0
          then Option.map tear_down (row d s.projects)
          else row d s.projects)
  unfolding reap_one
  row-reap_one p s d = elim (Bool-cases (p.id == d)) [
    | inl here ↦ ground (arith, is_busy_iff p.id s.jobs, row-tear_down p.id d s.projects)
    | inr other ↦ ground (arith, row-tear_down p.id d s.projects)
  ]

-- A destroy job that waits for a worker.
abbrev pub IsDestroyJob : Job → Type 0
IsDestroyJob j =
    (j.type ≡ JobType.destroy) × (j.status ≡ JobStatus.queued) × ((p : ℕ) × (j.project_id ≡ some p))

All-both :
    (one more : List Job)
    → All IsDestroyJob one
    → All IsDestroyJob more
    → All IsDestroyJob (one ++ more)
All-both [] more good fine = fine
All-both (j ∷ one) more (g, good) fine = (g, All-both one more good fine)

jobs-reap_one :
    (patterns : Patterns) (line : Project → Text) (now : ℕ) (p : Project) (s : Sweep)
    → (added : List Job) × ((reap_one patterns line now p s).jobs ≡ s.jobs ++ added)
      × All IsDestroyJob added
unfolding reap_one destroy_job
jobs-reap_one patterns line now p s = elim (Bool-cases (is_busy p.id s.jobs)) [
  | inl busy ↦ ([], rw busy (sym (append-nil s.jobs)), tt)
  | inr free ↦
      (destroy_job patterns line now s p ∷ [], rw free refl, ((refl, refl, (p.id, refl)), tt))
]

abbrev pub is_there : Option Project → Bool
is_there none = false
is_there (some p) = true

module _ (patterns : Patterns) (line : Project → Text) (delivered : Project → Bool) (now : ℕ)
    (broker : (p : Project) → delivered p ≡ true) where
  reap_all_step :
      (p : Project) (ps : List Project) (s : Sweep)
      → reap_all patterns line delivered now (p ∷ ps) s
        ≡ reap_all patterns line delivered now ps (reap_one patterns line now p s)
  unfolding reap_all
  reap_all_step p ps s = ground (arith, broker p)

  row_cons :
      (p : Project) (ps : List Project) (d : ℕ)
      → row d (p ∷ ps) ≡ (if p.id == d then some p else row d ps)
  unfolding find
  row_cons p ps d = refl

  gone :
      (p : Project) (ps : List Project) (d : ℕ)
      → row p.id ps ≡ none
      → (p.id == d) ≡ true
      → row d ps ≡ none
  gone p ps d h here = ground arith

  holders-reap_all :
      (ps : List Project) (s : Sweep) (d : ℕ)
      → IsKeyed (λ (p : Project). p.id) ps
      → holders d (reap_all patterns line delivered now ps s)
        ≡ (if is_there (row d ps) && holders d s == 0 then 1 else holders d s)
  holders-reap_all [] s d h = unfold reap_all find in refl
  holders-reap_all (p ∷ ps) s d h =
      ap (holders d) (reap_all_step p ps s)
      ∙ holders-reap_all ps (reap_one patterns line now p s) d h.1
      ∙ (elim (Bool-cases (p.id == d)) [
        | inl here ↦
            ground (
              arith,
              holders-reap_one patterns line now p s d,
              gone p ps d h.0 here,
              row_cons p ps d,
            )
        | inr other ↦ ground (arith, holders-reap_one patterns line now p s d, row_cons p ps d)
      ])

  row-reap_all :
      (ps : List Project) (s : Sweep) (d : ℕ)
      → IsKeyed (λ (p : Project). p.id) ps
      → row d (reap_all patterns line delivered now ps s).projects ≡ (
          if is_there (row d ps) && holders d s == 0
          then Option.map tear_down (row d s.projects)
          else row d s.projects)
  row-reap_all [] s d h = unfold reap_all find in refl
  row-reap_all (p ∷ ps) s d h =
      ap (λ (x : Sweep). row d x.projects) (reap_all_step p ps s)
      ∙ row-reap_all ps (reap_one patterns line now p s) d h.1
      ∙ (elim (Bool-cases (p.id == d)) [
        | inl here ↦ ground (
          arith,
          holders-reap_one patterns line now p s d,
          row-reap_one patterns line now p s d,
          gone p ps d h.0 here,
          row_cons p ps d,
        )
        | inr other ↦ ground (
          arith,
          holders-reap_one patterns line now p s d,
          row-reap_one patterns line now p s d,
          row_cons p ps d,
        )
      ])

  -- The rows with the warnings written.
  abbrev pub warned : List Project → List Project
  warned projects =
      update_where (is_soon now) (λ (p : Project). record p { expiry_warned = true }) projects

  -- Whether a sweep tears a project down: its row is expired, and no active job holds it.
  abbrev pub is_due : Option Project → ℕ → Bool
  is_due none held = false
  is_due (some p) held = is_expired now p && held == 0

  is_due_lem :
      (o : Option Project) (held : ℕ)
      → (is_there (keep (is_expired now) o) && held == 0) ≡ is_due o held
  is_due_lem none held = refl
  is_due_lem (some p) held = ground arith

  -- The jobs that the loop adds.
  jobs-reap_all :
      (ps : List Project) (s : Sweep)
      → (added : List Job) × ((reap_all patterns line delivered now ps s).jobs ≡ s.jobs ++ added)
        × All IsDestroyJob added
  unfolding reap_all
  jobs-reap_all [] s = ([], sym (append-nil s.jobs), tt)
  jobs-reap_all (p ∷ ps) s =
      let (one, first, good) = jobs-reap_one patterns line now p s in
      let (more, rest, fine) = jobs-reap_all ps (reap_one patterns line now p s) in
      (
        one ++ more,
        ap (λ (x : Sweep). x.jobs) (reap_all_step p ps s)
            ∙ rest
            ∙ ap (λ (js : List Job). js ++ more) first
            ∙ append_assoc s.jobs one more,
        All-both one more good fine,
      )

  -- If the broker takes every job and no two rows have one id, a sweep gives every expired project
  -- that no active job holds exactly one, a queued destroy job, and the status destroying; a project that
  -- an active job holds gets no second one, and each other project keeps its row, the warning apart; every
  -- job that was there stays as it was, and the jobs that are added are queued destroy jobs.
  pub reap_expired_projects_lem :
      (s : Sweep) (d : ℕ)
      → IsKeyed (λ (p : Project). p.id) s.projects
      → (holders d (reap_expired_projects patterns line delivered now s)
          ≡ (if is_due (row d (warned s.projects)) (holders d s) then 1 else holders d s))
        × (row d (reap_expired_projects patterns line delivered now s).projects ≡ (
            if is_due (row d (warned s.projects)) (holders d s)
            then Option.map
                (λ (p : Project). record p { status = ProjectStatus.destroying })
                (row d (warned s.projects))
            else row d (warned s.projects)))
        × ((added : List Job) × ((reap_expired_projects patterns line delivered now s).jobs
              ≡ s.jobs ++ added)
            × All IsDestroyJob added)
  unfolding reap_expired_projects warn tear_down
  reap_expired_projects_lem s d keyed =
      let key : Project → ℕ = λ p. p.id in
      let rows = warned s.projects in
      let s' = record s { projects = rows } in
      let found =
        by_key-select key (is_expired now) d rows
          (update_where-IsKeyed key (is_soon now) warn (λ p. refl) s.projects keyed) in
      let due : (is_there (row d (select (is_expired now) rows)) && holders d s == 0)
          ≡ is_due (row d rows) (holders d s) =
        ap (λ o. is_there o && holders d s == 0) found ∙ is_due_lem (row d rows) (holders d s) in
      let keys =
        select-IsKeyed key (is_expired now) rows
          (update_where-IsKeyed key (is_soon now) warn (λ p. refl) s.projects keyed) in
      (
        holders-reap_all (select (is_expired now) rows) s' d keys
            ∙ ap (λ (b : Bool). if b then 1 else holders d s) due,
        row-reap_all (select (is_expired now) rows) s' d keys
            ∙ ap (λ (b : Bool). if b then Option.map tear_down (row d rows) else row d rows) due,
        jobs-reap_all (select (is_expired now) rows) s',
      )
