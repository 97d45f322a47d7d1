-- ===== src/Lifecycle/Deploys.antt =====
-- One deploy at a time: what `queue_deploy` answers when other requests race with it.
use stage.Prelude.{
  ℕ, ◌≤◌, List, [], ◌∷◌, ◌++◌, none, some, Bool, true, false, ◌==◌, select, Result, ok, err,
  if◌then◌else◌, ◌≡◌, refl, arith, Elem, ◌⊎◌, inl, inr, any, Bool-cases, Option-cases, ◌≢◌,
  order_desc, length, subst,
}
use stage.Prelude.{select-snoc, Elem-order_desc, order_desc-ne-nil, Elem-select}
use mathlib.Core.List.{append-nil}
use stage.Models.{Db, Job, JobType}
use stage.Repositories.Jobs.{new_job}
use stage.Lifecycle.{
  has_rows, QueueError, deploy_already_running, integrity_error, is_active_deploy,
  active_deploy_job, first, insert_deploy, insert_answer, queue_deploy,
}

-- At most one active deploy of each deployment.
abbrev pub HasOneDeployEach : List Job → Type 0
HasOneDeployEach jobs = (d : ℕ) → length (select (is_active_deploy d) jobs) ≤ 1

select_of_any : (p : Job → Bool) (jobs : List Job) → any p jobs ≡ true → select p jobs ≢ []
unfolding any select
select_of_any p [] h e = ground arith
select_of_any p (j ∷ jobs) h e = ground (arith, select_of_any p jobs)

select_of_not_any : (p : Job → Bool) (jobs : List Job) → any p jobs ≡ false → select p jobs ≡ []
unfolding any select
select_of_not_any p [] h = refl
select_of_not_any p (j ∷ jobs) h = ground (arith, select_of_not_any p jobs)

first-Elem : (jobs : List Job) (j : Job) → first jobs ≡ some j → Elem j jobs
first-Elem [] j e = ground arith
first-Elem (x ∷ jobs) j e = inl (ground arith)

first-ne-none : (jobs : List Job) → jobs ≢ [] → first jobs ≢ none
first-ne-none [] h e = h refl
first-ne-none (x ∷ jobs) h e = ground arith

active_deploy_job-Elem :
    (jobs : List Job) (d : ℕ) (j : Job)
    → active_deploy_job jobs d ≡ some j
    → (is_active_deploy d j ≡ true) × Elem j jobs
unfolding active_deploy_job
active_deploy_job-Elem jobs d j e = Elem-select (is_active_deploy d) jobs j (
    Elem-order_desc (λ (x : Job). x.created_at) j (select (is_active_deploy d) jobs)
      (first-Elem _ j e))

active_deploy_job-some :
    (jobs : List Job) (d : ℕ)
    → any (is_active_deploy d) jobs ≡ true
    → active_deploy_job jobs d ≢ none
unfolding active_deploy_job
active_deploy_job-some jobs d h = first-ne-none _ (
    order_desc-ne-nil (λ (x : Job). x.created_at) (select (is_active_deploy d) jobs)
      (select_of_any (is_active_deploy d) jobs h))

-- What an answer says: a queued job is active, alone for each deployment, and the rows that it refers to are
-- there; a refusal names a job that is active in the table of the first check or in the table that is read again; and
-- the bare error is for an insert that was refused where that table has no active deploy.
abbrev pub IsAnswer : ℕ → ℕ → List Job → Db → List Job → Result QueueError (List Job × Job) → Type 0
IsAnswer p d seen db after (ok (jobs', job)) =
    (has_rows db p d ≡ true) × HasOneDeployEach jobs' × (active_deploy_job jobs' d ≡ some job)
IsAnswer p d seen db after (err (deploy_already_running j)) =
    (is_active_deploy d j ≡ true) × (Elem j seen ⊎ Elem j after)
IsAnswer p d seen db after (err integrity_error) =
    (active_deploy_job after d ≡ none)
    × ((has_rows db p d ≡ false) ⊎ (any (is_active_deploy d) db.jobs ≡ true))

module _ (id now : ℕ) (seen : List Job) (db : Db) (after : List Job) (project_id d : ℕ) where
  abbrev jobs : List Job
  jobs = db.jobs

  abbrev queued_job : Job
  queued_job = new_job id now (some project_id) (some d) JobType.deploy

  select-queued_job :
      (e : ℕ)
      → select (is_active_deploy e) (queued_job ∷ []) ≡ (if d == e then queued_job ∷ [] else [])
  unfolding is_active_deploy select
  select-queued_job e = ground arith

  one_more :
      any (is_active_deploy d) jobs ≡ false
      → HasOneDeployEach jobs
      → HasOneDeployEach (jobs ++ queued_job ∷ [])
  one_more free one e = elim (Bool-cases (d == e)) [
    | inl same ↦
        let d≡e : d ≡ e = ground arith in
        let none_there : select (is_active_deploy e) jobs ≡ [] =
          subst (λ x. select (is_active_deploy x) jobs ≡ []) d≡e
            (select_of_not_any (is_active_deploy d) jobs free) in
        rw (select-snoc (is_active_deploy e) jobs queued_job)
          (rw none_there (rw (select-queued_job e) (rw same (omega arith))))
    | inr other ↦
        rw (select-snoc (is_active_deploy e) jobs queued_job)
          (rw (select-queued_job e) (rw other (rw append-nil (one e))))
  ]

  new_is_active :
      any (is_active_deploy d) jobs ≡ false
      → active_deploy_job (jobs ++ queued_job ∷ []) d ≡ some queued_job
  unfolding active_deploy_job order_desc
  new_is_active free = rw (select-snoc (is_active_deploy d) jobs queued_job) (
      rw (select_of_not_any (is_active_deploy d) jobs free)
        (rw (select-queued_job d) (ground arith)))

  abbrev answer : Result QueueError (List Job × Job)
  answer = insert_answer after d queued_job (insert_deploy db project_id d queued_job)

  refused :
      (has_rows db project_id d ≡ false) ⊎ (any (is_active_deploy d) jobs ≡ true)
      → IsAnswer project_id d seen db after (insert_answer after d queued_job none)
  unfolding insert_answer
  refused why = elim (Option-cases (active_deploy_job after d)) [
    | inl absent ↦ rw (absent, insert_answer) (absent, why)
    | inr (running, found) ↦
        let (active, there) = active_deploy_job-Elem after d running found in
        rw (found, insert_answer) (active, inr there)
  ]

  answer-IsAnswer : HasOneDeployEach jobs → IsAnswer project_id d seen db after answer
  unfolding insert_answer insert_deploy
  answer-IsAnswer one = elim (Bool-cases (has_rows db project_id d)) [
    | inl there ↦ elim (Bool-cases (any (is_active_deploy d) jobs)) [
      | inl taken ↦ rw there (rw taken (refused (inr taken)))
      | inr free ↦ rw there (rw free (there, one_more free one, new_is_active free))
    ]
    | inr gone ↦ rw gone (refused (inl gone))
  ]

  -- However stale the table that the first check read, and whatever the table is when it is read again: a queued
  -- deploy is the only active one of its deployment, no deployment has two, and its project and deployment
  -- are there; a refusal names a deploy of this deployment that is active in a table that was read; and
  -- the bare IntegrityError is raised only where the insert was refused, for a row that is gone or for an active
  -- deploy, and no active deploy is found when the table is read again. Before, no deployment may
  -- have two active deploys.
  pub queue_deploy_lem :
      HasOneDeployEach jobs
      → IsAnswer project_id d seen db after (queue_deploy id now seen db after project_id d)
  unfolding queue_deploy
  queue_deploy_lem one = elim (Option-cases (active_deploy_job seen d)) [
    | inr (running, found) ↦
        let (active, there) = active_deploy_job-Elem seen d running found in
        rw (found, queue_deploy) (active, inl there)
    | inl free ↦ rw (free, queue_deploy) (answer-IsAnswer one)
  ]
