-- ===== src/Repositories/Projects.antt =====
-- ProjectRepository of repositories/projects.py.
use stage.Prelude.{
  ℕ, String, List, [], ◌∷◌, ◌++◌, Option, none, some, Bool, true, false, not, ◌&&◌, ◌==◌, str_eq,
  select, Result, ok, err, ◌>>◌, find, update_where, order_desc, paginate, length,
}
use stage.Models.{ProjectStatus, Project, InfraDoc, Job, JobType, JobStatus, Db}
use stage.Access.{AccessError, runtime_error, Scope, contains, guard}
use stage.Repositories.Jobs.{visible_project, or_not_found}

-- `Project.team_id.in_(scope.team_ids)`: unlike `can_access`, it gives a system scope nothing.
unfoldable pub project_filter : Scope → Project → Bool
project_filter scope project = contains project.team_id scope.team_ids

unfoldable pub get_project : Scope → Db → ℕ → Result AccessError Project
unfolding visible_project
get_project scope db project_id = or_not_found (visible_project scope db.projects (some project_id))

unfoldable pub list_projects : Scope → Db → ℕ → ℕ → List Project × ℕ
unfolding project_filter
list_projects scope db page page_size =
    paginate
      (order_desc (λ (p : Project). p.created_at) (select (project_filter scope) db.projects)) page
      page_size

unfoldable pub get_by_name : Scope → Db → String → Option Project
unfolding project_filter
get_by_name scope db name = find (λ p. project_filter scope p && str_eq p.name name) db.projects

unfoldable pub count : Scope → Db → ℕ
unfolding project_filter
count scope db = length (select (project_filter scope) db.projects)

abbrev new_project : ℕ → ℕ → ℕ → ℕ → String → InfraDoc → Project
new_project id now owner_id team_id name infra_spec = record {
  id = id;
  owner_id = owner_id;
  team_id = team_id;
  name = name;
  status = ProjectStatus.draft;
  infra_spec = infra_spec;
  workspace_path = none;
  created_at = now;
  updated_at = now;
  ttl_hours = 24;
  expires_at = none;
  auto_destroy = true;
  last_accessed_at = some now;
  expiry_warned = false;
}

unfoldable pub create :
    ℕ → ℕ → Scope → Db → String → InfraDoc → ℕ → Result AccessError (Db × Project)
create id now scope db name infra_spec team_id = elim scope.user_id [
  | none ↦ err runtime_error
  | some user_id ↦
      let project = new_project id now user_id team_id name infra_spec in
      ok (record db { projects = db.projects ++ project ∷ [] }, project)
]

unfoldable pub write_project : Project → List Project → List Project
write_project project = update_where (λ p. p.id == project.id) (λ _. project)

unfoldable pub update_spec : Scope → Db → Project → InfraDoc → Result AccessError (Db × Project)
unfolding write_project
update_spec scope db project infra_spec = do
  guard scope project "project.update"
  let changed = record project { infra_spec = infra_spec }
  ok (record db { projects = write_project changed db.projects }, changed)

unfoldable pub set_status : Db → Project → ProjectStatus → Db × Project
unfolding write_project
set_status db project status =
    let changed = record project { status = status } in
    (record db { projects = write_project changed db.projects }, changed)

unfoldable pub delete : Scope → Db → Project → Result AccessError Db
delete scope db project = do
  guard scope project "project.destroy"
  ok (record db { projects = select (λ (p : Project). not (p.id == project.id)) db.projects })

abbrev holds_project : JobType → Bool
holds_project JobType.provision = true
holds_project JobType.destroy = true
holds_project JobType.configure = true
holds_project _ = false

abbrev pub is_active : JobStatus → Bool
is_active JobStatus.queued = true
is_active JobStatus.running = true
is_active _ = false

abbrev pub belongs_to : ℕ → Job → Bool
belongs_to project_id job = elim job.project_id [ none ↦ false | some p ↦ p == project_id ]

-- The query of `get_active_provision_job`, on one row.
unfoldable pub is_provision_job : ℕ → Job → Bool
is_provision_job project_id job =
    belongs_to project_id job && (holds_project job.type && is_active job.status)

unfoldable pub get_active_provision_job : Db → ℕ → Option Job
unfolding is_provision_job
get_active_provision_job db project_id = find (is_provision_job project_id) db.jobs
