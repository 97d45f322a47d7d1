-- ===== src/Repositories/Deployments.antt =====
-- DeploymentRepository of repositories/deployments.py.
pub mod Upsert
use stage.Prelude.{
  ℕ, ◌+◌, String, List, [], ◌∷◌, ◌++◌, Option, none, some, Bool, not, ◌&&◌, ◌==◌, str_eq, select,
  Result, ok, ◌>>=◌, ◌>>◌, find, update_where, by_key, order_desc, paginate, Text,
}
use stage.Models.{Deployment, Db}
use stage.Access.{AccessError, Scope, guard}
use stage.Repositories.Jobs.{visible_project, or_not_found}

unfoldable pub list_deployments : Scope → Db → ℕ → ℕ → ℕ → Result AccessError (List Deployment × ℕ)
unfolding visible_project
list_deployments scope db project_id page page_size = do
  project ← or_not_found (visible_project scope db.projects (some project_id))
  let rows = select (λ (d : Deployment). d.project_id == project_id) db.deployments
  ok (paginate (order_desc (λ (d : Deployment). d.created_at) rows) page page_size)

unfoldable pub get : Scope → Db → ℕ → Result AccessError Deployment
unfolding visible_project
get scope db deployment_id = do
  deployment ← or_not_found (by_key (λ (d : Deployment). d.id) db.deployments deployment_id)
  project ← or_not_found (visible_project scope db.projects (some deployment.project_id))
  ok deployment

-- The arguments of `create` that an existing row takes over.
pub record Release : Type 0 where
  pub repo_url : String
  pub branch : String
  pub port : ℕ
  pub replicas : ℕ
  pub strategy : String

-- The row of a service, by the columns of `uq_deployments_project_service`.
unfoldable pub is_service : ℕ → String → Deployment → Bool
is_service project_id service_name d =
    d.project_id == project_id && str_eq d.service_name service_name

unfoldable pub release : Release → Deployment → Deployment
release r d = record d {
  repo_url = r.repo_url;
  branch = r.branch;
  port = r.port;
  replicas = r.replicas;
  strategy = r.strategy;
  status = "queued";
}

abbrev pub new_deployment : ℕ → ℕ → ℕ → String → Release → Deployment
new_deployment id now project_id service_name r = record {
  id = id;
  project_id = project_id;
  service_name = service_name;
  repo_url = r.repo_url;
  branch = r.branch;
  port = r.port;
  replicas = r.replicas;
  strategy = r.strategy;
  status = "queued";
  image_ref = none;
  live_url = none;
  created_at = now;
}

-- The two ends of `create`, for the service's row as the query found it.
unfoldable pub write_service :
    ℕ
    → ℕ
    → ℕ
    → String
    → Release
    → List Deployment
    → Option Deployment
    → List Deployment × Deployment
unfolding release
write_service id now project_id service_name r rows (some existing) =
    (update_where (λ d. d.id == existing.id) (release r) rows, release r existing)
write_service id now project_id service_name r rows none =
    let d = new_deployment id now project_id service_name r in (rows ++ d ∷ [], d)

-- The rows after `create`, once the caller may write.
unfoldable pub upsert :
    ℕ → ℕ → ℕ → String → Release → List Deployment → List Deployment × Deployment
unfolding is_service write_service
upsert id now project_id service_name r rows =
    write_service id now project_id service_name r rows
      (find (is_service project_id service_name) rows)

unfoldable pub create :
    ℕ → ℕ → Scope → Db → ℕ → String → Release → Result AccessError (Db × Deployment)
unfolding visible_project upsert
create id now scope db project_id service_name r = do
  project ← or_not_found (visible_project scope db.projects (some project_id))
  guard scope project "deployment.create"
  let (rows, d) = upsert id now project_id service_name r db.deployments
  ok (record db { deployments = rows }, d)

abbrev or_else : Option Text → Option Text → Option Text
or_else none old = old
or_else (some new) old = some new

unfoldable pub set_status : Deployment → String → Option Text → Option Text → Deployment
set_status d status image_ref live_url = record d {
  status = status;
  image_ref = or_else image_ref d.image_ref;
  live_url = or_else live_url d.live_url;
}

unfoldable pub delete : Scope → Db → ℕ → Result AccessError Db
unfolding get
delete scope db deployment_id = do
  d ← get scope db deployment_id
  project ← or_not_found (visible_project scope db.projects (some d.project_id))
  guard scope project "deployment.delete"
  ok (record db { deployments = select (λ (x : Deployment). not (x.id == d.id)) db.deployments })
