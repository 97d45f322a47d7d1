-- ===== src/Tasks/Provision.antt =====
-- `provision_task` of workers/tasks.py with its three ways to provision. A `Calls` record has what the
-- code outside the tables answers: rendered files, kubectl, Terraform, Ansible, Vault, Elasticsearch.
use stage.Prelude.{
  ℕ, List, ◌++◌, Option, none, some, Bool, ◌==◌, Result, if◌then◌else◌, update_where, Text, codes,
}
use stage.Models.{Project, JobStatus, Node}
use stage.Spec.{InfraSpec, Network, Caps, SpecError}
use stage.Pool.{PooledCluster}
use stage.Tasks.World.{Run, pure, raise, ◌>>=◌, ◌>>◌, attempt, get, modify, Reply, ask}
use stage.Tasks.Calls.{
  say, stream, RunResult, step, mark, project_row, write_project, mark_ready, record_ips,
}

-- What does not change between the calls: the network parser, the caps, how pydantic words its errors,
-- `spec_hash` of core/pool.py, `k8s_namespace`, `json.loads`, and whether Elasticsearch is configured.
pub record Env : Type 0 where
  pub ip_network : Text → Option Network
  pub caps : Caps
  pub error_text : List SpecError → Text
  pub spec_hash : InfraSpec → Text
  pub k8s_namespace : ℕ → Text
  pub parse_ips : Text → Result Text (List (Text × Text))
  pub elasticsearch : Bool

pub record Calls : Type 0 where
  pub workspace_root : Reply (Unit {0})
  pub render_namespace : Reply (Unit {0})
  pub apply_namespace : Reply (Unit {0})
  pub provision_team : Reply (Unit {0})
  pub has_pipeline : Bool
  pub apply_pipeline : Reply (Unit {0})
  pub apply_credentials : Reply (Unit {0})
  pub has_dashboard : Bool
  pub apply_dashboard : Reply (Unit {0})
  pub transfer_kubeconfig : Reply (Unit {0})
  pub render : Reply (Unit {0})
  pub terraform_init : Reply RunResult
  pub terraform_apply : Reply RunResult
  pub terraform_destroy : Reply RunResult
  pub terraform_output : Reply RunResult
  pub ssh_private_key : Reply (Unit {0})
  pub ansible_playbook : ℕ → Reply RunResult
  pub has_kubeconfig : Bool
  pub store_kubeconfig : Reply (Unit {0})

-- `try: m  except Exception as exc: _append_log(job_id, f"WARNING: {text}: {exc}")`
unfoldable pub best_effort : ℕ → Text → Run (Unit {0}) → Run (Unit {0})
unfolding attempt say
best_effort job_id text m =
    attempt m (λ e. say job_id (codes "WARNING: " ++ text ++ codes ": " ++ e))

unfoldable pub grant_tenant_log_access : Env → Calls → ℕ → Run (Unit {0})
unfolding best_effort ask say
grant_tenant_log_access env calls job_id =
    if env.elasticsearch
    then best_effort job_id (codes "could not grant Elasticsearch access") (do
      ask calls.provision_team
      say job_id (codes "Elasticsearch access granted for this team's own logs."))
    else pure tt

unfoldable pub install_registry_credentials_secret : Calls → ℕ → Run (Unit {0})
unfolding best_effort stream say
install_registry_credentials_secret calls job_id =
    best_effort job_id (codes "could not install the registry credentials secret") (do
      stream job_id calls.apply_credentials
      say job_id (codes "Registry credentials secret installed for this namespace."))

unfoldable pub install_tenant_dashboard : Calls → ℕ → Run (Unit {0})
unfolding best_effort stream say
install_tenant_dashboard calls job_id =
    best_effort job_id (codes "could not install the Tekton dashboard") (
      if calls.has_dashboard
      then (do
        stream job_id calls.apply_dashboard
        say job_id (codes "Tekton dashboard installed for this namespace."))
      else say job_id (codes "WARNING: k8s/tekton/dashboard.yaml not found — no Tekton dashboard"))

-- The `return` inside its `try` leaves the function.
unfoldable pub install_tenant_pipeline : Calls → ℕ → Run (Unit {0})
unfolding best_effort stream say install_registry_credentials_secret install_tenant_dashboard
install_tenant_pipeline calls job_id =
    if calls.has_pipeline
    then (do
      best_effort job_id (codes "could not install the Tekton pipeline") (do
        stream job_id calls.apply_pipeline
        say job_id (codes "Tekton pipeline installed for this namespace."))
      install_registry_credentials_secret calls job_id
      install_tenant_dashboard calls job_id)
    else say job_id (codes "WARNING: k8s/tekton/pipeline.yaml not found — Tekton deploys will fail")

-- `project.id`, which raises where the row is gone.
unfoldable pub require_project : Option Project → Run (Unit {0})
require_project none = raise (codes "'NoneType' object has no attribute 'id'")
require_project (some p) = pure tt

unfoldable pub run_nodes : ℕ → List Node → List Node
run_nodes project_id =
    update_where (λ (n : Node). n.project_id == project_id) (λ n. record n { status = "running" })

unfoldable pub provision_namespace : Env → Calls → ℕ → ℕ → InfraSpec → Run (Unit {0})
unfolding require_project run_nodes grant_tenant_log_access install_tenant_pipeline mark_ready mark
    say step stream
provision_namespace env calls job_id project_id spec = do
  w ← get
  require_project (project_row project_id w)
  step job_id 1 2 (codes "rendering namespace, quota, limits and network policy")
  ask calls.render_namespace
  step job_id 2 2 (codes "applying to the shared cluster")
  stream job_id calls.apply_namespace
  modify (λ w. record w { nodes = run_nodes project_id w.nodes })
  grant_tenant_log_access env calls job_id
  install_tenant_pipeline calls job_id
  mark_ready project_id
  mark job_id JobStatus.succeeded none
  say job_id (
      codes "Namespace "
      ++ env.k8s_namespace project_id
      ++ codes " ("
      ++ spec.project
      ++ codes ") ready.")

unfoldable pub adopt_pooled_cluster : Calls → ℕ → ℕ → PooledCluster → Run (Unit {0})
unfolding say write_project ask record_ips mark_ready mark
adopt_pooled_cluster calls job_id project_id pooled = do
  say job_id (codes "Claimed a pre-warmed cluster from the pool.")
  modify (write_project project_id (λ p. record p { workspace_path = some pooled.workspace_path }))
  ask calls.transfer_kubeconfig
  record_ips project_id pooled.node_ips
  mark_ready project_id
  mark job_id JobStatus.succeeded none
  say job_id (codes "Provisioning complete (warm pool).")
