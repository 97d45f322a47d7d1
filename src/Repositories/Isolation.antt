-- ===== src/Repositories/Isolation.antt =====
-- Tenant isolation of the repositories: what a caller is answered depends only on the rows of
-- projects that the caller may see.
use stage.Prelude.{
  ℕ, String, List, [], ◌∷◌, Option, none, some, Bool, true, false, ◌&&◌, ◌||◌, ◌==◌, select, ◌≡◌,
  refl, arith, inl, inr, any, Option-cases, by_key, keep, IsKeyed, by_key-select, select-select,
  find-select,
}
use stage.Models.{Project, Job, Deployment, Scan, Db}
use stage.Access.{Scope, can_access, is_system, contains}
use stage.Repositories.Jobs.{visible_project, or_not_found, is_run_of}
use stage.Repositories.Jobs
use stage.Repositories.Scans
use stage.Repositories.Deployments
use stage.Repositories.Projects

-- The projects of the teams that a scope names; all of them for the system scope.
unfoldable pub reaches : Scope → Project → Bool
reaches scope project =
    is_system scope || any (λ team_id. team_id == project.team_id) scope.team_ids

-- Whether a row names a project that the scope reaches.
unfoldable pub sees : Scope → Db → Option ℕ → Bool
unfolding reaches
sees scope db none = false
sees scope db (some id) = elim (by_key (λ (p : Project). p.id) db.projects id) [
  | none ↦ false
  | some p ↦ reaches scope p
]

contains-eq-any : (a : ℕ) (xs : List ℕ) → contains a xs ≡ any (λ x. x == a) xs
unfolding contains any
contains-eq-any a [] = refl
contains-eq-any a (x ∷ xs) = ground (arith, contains-eq-any a xs)

can_access-eq-reaches : (scope : Scope) (p : Project) → can_access scope p ≡ reaches scope p
unfolding can_access reaches
can_access-eq-reaches scope p = ground (arith, contains-eq-any p.team_id scope.team_ids)

keep-reaches :
    (scope : Scope) (o : Option Project) → keep (can_access scope) o ≡ keep (reaches scope) o
keep-reaches scope none = refl
keep-reaches scope (some p) = rw can_access-eq-reaches

-- The project of a job's deployment.
abbrev through : Db → Option ℕ → Option ℕ
through db none = none
through db (some id) = elim (by_key (λ (d : Deployment). d.id) db.deployments id) [
  | none ↦ none
  | some d ↦ some d.project_id
]

-- The database without the rows of other teams: their projects, the deployments and scans of those,
-- and the jobs that belong to no visible project and run for no visible deployment.
abbrev pub hide : Scope → Db → Db
hide scope db = record db {
  projects = select (reaches scope) db.projects;
  deployments = select (λ (d : Deployment). sees scope db (some d.project_id)) db.deployments;
  scans = select (λ (s : Scan). sees scope db (some s.project_id)) db.scans;
  jobs =
      select (λ (j : Job). sees scope db j.project_id || sees scope db (through db j.deployment_id))
        db.jobs;
}

-- Primary keys.
pub record HasKeys (db : Db) : Type 0 where
  pub projects : IsKeyed (λ (p : Project). p.id) db.projects
  pub deployments : IsKeyed (λ (d : Deployment). d.id) db.deployments
  pub scans : IsKeyed (λ (s : Scan). s.id) db.scans
  pub jobs : IsKeyed (λ (j : Job). j.id) db.jobs

module _ (scope : Scope) (db : Db) (keys : HasKeys db) where
  visible-hide :
      (project_id : Option ℕ)
      → visible_project scope (hide scope db).projects project_id
        ≡ visible_project scope db.projects project_id
  unfolding visible_project
  visible-hide none = refl
  visible-hide (some id) =
      let all = by_key (λ (p : Project). p.id) db.projects id in
      ground (
        arith,
        by_key-select (λ (p : Project). p.id) (reaches scope) id db.projects keys.projects,
        keep-reaches scope all,
        keep-reaches scope (keep (reaches scope) all),
      )

  -- What the visibility test of the repositories lets through is what the scope reaches.
  sees-eq-visible :
      (project_id : Option ℕ)
      → sees scope db project_id
        ≡ elim (visible_project scope db.projects project_id) [ none ↦ false | some p ↦ true ]
  unfolding sees visible_project
  sees-eq-visible none = refl
  sees-eq-visible (some id) = elim (Option-cases (by_key (λ (p : Project). p.id) db.projects id)) [
    | inl absent ↦ ground arith
    | inr (p, found) ↦ ground (arith, can_access-eq-reaches scope p)
  ]

  get_project-hide :
      (id : ℕ) → Projects.get_project scope (hide scope db) id ≡ Projects.get_project scope db id
  unfolding Projects.get_project
  get_project-hide id = ground (arith, visible-hide (some id))

  get_deployment-hide :
      (id : ℕ) → Deployments.get scope (hide scope db) id ≡ Deployments.get scope db id
  unfolding Deployments.get
  get_deployment-hide id =
      elim (Option-cases (by_key (λ (d : Deployment). d.id) db.deployments id)) [
        | inl absent ↦ rw (
          by_key-select (λ (d : Deployment). d.id) (λ d. sees scope db (some d.project_id)) id
              db.deployments keys.deployments,
          absent,
        )
        | inr (d, found) ↦ ground (
          arith,
          by_key-select (λ (d : Deployment). d.id) (λ d. sees scope db (some d.project_id)) id
              db.deployments keys.deployments,
          visible-hide (some d.project_id),
          sees-eq-visible (some d.project_id),
        )
      ]

  get_scan-hide : (id : ℕ) → Scans.get scope (hide scope db) id ≡ Scans.get scope db id
  unfolding Scans.get
  get_scan-hide id = elim (Option-cases (by_key (λ (s : Scan). s.id) db.scans id)) [
    | inl absent ↦ rw (
      by_key-select (λ (s : Scan). s.id) (λ s. sees scope db (some s.project_id)) id db.scans
          keys.scans,
      absent,
    )
    | inr (s, found) ↦ ground (
      arith,
      by_key-select (λ (s : Scan). s.id) (λ s. sees scope db (some s.project_id)) id db.scans
          keys.scans,
      visible-hide (some s.project_id),
      sees-eq-visible (some s.project_id),
    )
  ]

  get_job-hide : (id : ℕ) → Jobs.get scope (hide scope db) id ≡ Jobs.get scope db id
  unfolding Jobs.get
  get_job-hide id =
      let shown =
        by_key-select (λ (j : Job). j.id)
          (λ j. sees scope db j.project_id || sees scope db (through db j.deployment_id)) id db.jobs
          keys.jobs in
      elim (Option-cases (by_key (λ (j : Job). j.id) db.jobs id)) [
        | inl absent ↦ rw (shown, absent)
        | inr (j, found) ↦
            ground (arith, shown, visible-hide j.project_id, sees-eq-visible j.project_id)
      ]

  -- A row of a visible project is not hidden.
  sees_of_project :
      (project_id : ℕ) (p : Project) (row : ℕ)
      → visible_project scope db.projects (some project_id) ≡ some p
      → (row == project_id) ≡ true
      → sees scope db (some row) ≡ true
  sees_of_project project_id p row visible same = ground (arith, sees-eq-visible (some row))

  list_scans-hide :
      (project_id page page_size : ℕ) (tool : Option String)
      → Scans.list_scans scope (hide scope db) project_id tool page page_size
        ≡ Scans.list_scans scope db project_id tool page page_size
  unfolding Scans.list_scans
  list_scans-hide project_id page page_size tool =
      elim (Option-cases (visible_project scope db.projects (some project_id))) [
        | inl hidden ↦ rw (visible-hide (some project_id), hidden)
        | inr (p, visible) ↦ rw (
          visible-hide (some project_id),
          visible,
          select-select (λ (s : Scan). s.project_id == project_id && Scans.matches_tool tool s)
              (λ (s : Scan). sees scope db (some s.project_id)) db.scans
              (λ s h. sees_of_project project_id p s.project_id visible (ground (arith))),
        )
      ]

  list_deployments-hide :
      (project_id page page_size : ℕ)
      → Deployments.list_deployments scope (hide scope db) project_id page page_size
        ≡ Deployments.list_deployments scope db project_id page page_size
  unfolding Deployments.list_deployments
  list_deployments-hide project_id page page_size =
      elim (Option-cases (visible_project scope db.projects (some project_id))) [
        | inl hidden ↦ rw (visible-hide (some project_id), hidden)
        | inr (p, visible) ↦ rw (
          visible-hide (some project_id),
          visible,
          select-select (λ (d : Deployment). d.project_id == project_id)
              (λ (d : Deployment). sees scope db (some d.project_id)) db.deployments
              (λ d h. sees_of_project project_id p d.project_id visible h),
        )
      ]

  -- A run of a visible deployment is not hidden.
  sees_of_run :
      (deployment_id : ℕ) (d : Deployment) (p : Project) (j : Job)
      → by_key (λ (x : Deployment). x.id) db.deployments deployment_id ≡ some d
      → visible_project scope db.projects (some d.project_id) ≡ some p
      → is_run_of deployment_id j ≡ true
      → (sees scope db j.project_id || sees scope db (through db j.deployment_id)) ≡ true
  unfolding is_run_of
  sees_of_run deployment_id d p j found visible run =
      ground (arith, sees-eq-visible (some d.project_id))

  list_for_deployment-hide :
      (deployment_id page page_size : ℕ)
      → Jobs.list_for_deployment scope (hide scope db) deployment_id page page_size
        ≡ Jobs.list_for_deployment scope db deployment_id page page_size
  unfolding Jobs.list_for_deployment
  list_for_deployment-hide deployment_id page page_size =
      let shown =
        by_key-select (λ (d : Deployment). d.id) (λ d. sees scope db (some d.project_id))
          deployment_id db.deployments keys.deployments in
      elim (Option-cases (by_key (λ (d : Deployment). d.id) db.deployments deployment_id)) [
        | inl absent ↦ rw (shown, absent)
        | inr (d, found) ↦
            elim (Option-cases (visible_project scope db.projects (some d.project_id))) [
              | inl hidden ↦ ground (
                arith,
                shown,
                sees-eq-visible (some d.project_id),
                visible-hide (some d.project_id),
              )
              | inr (p, visible) ↦ ground (
                arith,
                shown,
                visible-hide (some d.project_id),
                sees-eq-visible (some d.project_id),
                select-select (is_run_of deployment_id)
                    (λ (j : Job).
                      sees scope db j.project_id || sees scope db (through db j.deployment_id))
                    db.jobs (λ j. sees_of_run deployment_id d p j found visible),
              )
            ]
      ]

  filter_sees : (p : Project) → Projects.project_filter scope p ≡ true → reaches scope p ≡ true
  unfolding Projects.project_filter reaches
  filter_sees p h = ground (arith, contains-eq-any p.team_id scope.team_ids)

  -- In a database whose ids are unique, these ten reads answer alike with and without the rows of teams that
  -- the scope does not reach, errors included: a project, a deployment, a scan or a job by its id, the
  -- pages of projects, of deployments, of scans and of the runs of a deployment, with their totals, the
  -- number of projects, and a project by its name.
  pub reads-hide :
      (id page page_size : ℕ) (tool : Option String) (name : String)
      → (Projects.get_project scope (hide scope db) id ≡ Projects.get_project scope db id)
        × (Deployments.get scope (hide scope db) id ≡ Deployments.get scope db id)
        × (Scans.get scope (hide scope db) id ≡ Scans.get scope db id)
        × (Jobs.get scope (hide scope db) id ≡ Jobs.get scope db id)
        × (Projects.list_projects scope (hide scope db) page page_size
            ≡ Projects.list_projects scope db page page_size)
        × (Deployments.list_deployments scope (hide scope db) id page page_size
            ≡ Deployments.list_deployments scope db id page page_size)
        × (Scans.list_scans scope (hide scope db) id tool page page_size
            ≡ Scans.list_scans scope db id tool page page_size)
        × (Jobs.list_for_deployment scope (hide scope db) id page page_size
            ≡ Jobs.list_for_deployment scope db id page page_size)
        × (Projects.count scope (hide scope db) ≡ Projects.count scope db)
        × (Projects.get_by_name scope (hide scope db) name ≡ Projects.get_by_name scope db name)
  reads-hide id page page_size tool name = (
    get_project-hide id,
    get_deployment-hide id,
    get_scan-hide id,
    get_job-hide id,
    unfold Projects.list_projects in rw (select-select _ _ db.projects filter_sees),
    list_deployments-hide id page page_size,
    list_scans-hide id page page_size tool,
    list_for_deployment-hide id page page_size,
    unfold Projects.count in rw (select-select _ _ db.projects filter_sees),
    unfold Projects.get_by_name in
        find-select _ _ db.projects (λ p h. filter_sees p (ground arith)),
  )
