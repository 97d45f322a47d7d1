-- ===== src/Tasks/Deploy.antt =====
-- `deploy_task` and `undeploy_task` of workers/tasks.py.
pub mod Ends
pub mod Undeployed
use stage.Prelude.{
  ℕ, ◌+◌, List, [], ◌∷◌, ◌++◌, Option, none, some, Bool, ◌&&◌, ◌==◌, str_eq, if◌then◌else◌,
  update_where, by_key, length, Text, codes, or_text,
}
use stage.Models.{Project, Team, Deployment, JobStatus}
use stage.Tasks.World.{
  World, Run, pure, raise, ◌>>=◌, ◌>>◌, attempt, either, lastly, get, modify, ask,
}
use stage.Tasks.Calls.{step, mark, fail, start, project_row}
use stage.Tasks.Scan.{Readers}
use stage.Tasks.Clone.{clone_repo, purge_path}
use stage.Tasks.Kubectl.{Settings, Kubectl, kubectl}
use stage.Tasks.Ship.{in_namespace, gitops_applies_to, release}
use stage.Tasks.Build.{declared_stages, ensure_dockerfile, gate_and_build}
use stage.Tasks.TektonRun.{Outputs}
use stage.Tasks.TektonBuild.{tekton_build_and_scan}

-- The settings, the readers, and the calls of each part. `commit` is the random end of the image's tag, and
-- the scans of the run have the given ids.
pub record Env : Type 0 where
  pub settings : Settings
  pub readers : Readers
  pub outputs : Outputs
  pub registry : Text
  pub commit : Text
  pub k8s_namespace : ℕ → Text
  pub tekton_enabled : Bool
  pub scan_ids : ℕ × ℕ × ℕ

pub record Calls : Type 0 where
  pub build : stage.Tasks.Build.Calls
  pub tekton : stage.Tasks.TektonRun.Calls
  pub ship : stage.Tasks.Ship.Calls

abbrev pub deployment_row : ℕ → World → Option Deployment
deployment_row id w = by_key (λ (d : Deployment). d.id) w.db.deployments id

abbrev pub team_row : ℕ → World → Option Team
team_row id w = by_key (λ (t : Team). t.id) w.db.teams id

unfoldable pub tekton_applies_to : Bool → Project → Bool
tekton_applies_to enabled project = enabled && in_namespace project.infra_spec.mode

-- `if deployment.status not in ("blocked",): repo.set_status(deployment, "failed")`
unfoldable pub fail_row : Deployment → Deployment
unfolding stage.Repositories.Deployments.set_status
fail_row d =
    if str_eq d.status "blocked"
    then d
    else stage.Repositories.Deployments.set_status d "failed" none none

unfoldable pub fail_deployment : ℕ → World → World
unfolding fail_row
fail_deployment id w = record w {
  db = record w.db {
    deployments = update_where (λ (d : Deployment). d.id == id) fail_row w.db.deployments;
  };
}

unfoldable pub give_up : ℕ → Deployment → Text → Run (Unit {0})
unfolding fail_deployment fail
give_up job_id d e = do modify (fail_deployment d.id); fail job_id e

abbrev pub image_ref_of : Env → Text → Project → Deployment → Text
image_ref_of env slug project d =
    env.registry
    ++ codes "/"
    ++ slug
    ++ codes "/"
    ++ codes project.name
    ++ codes "-"
    ++ codes d.service_name
    ++ codes ":commit-"
    ++ env.commit

module _ (env : Env) (calls : Calls) (job_id : ℕ) where
  -- The build in the cluster, behind the clone; the number of the tenant's stages is returned.
  unfoldable pub build_in_cluster : Project → Deployment → Text → Run ℕ
  unfolding declared_stages ensure_dockerfile ask tekton_build_and_scan
  build_in_cluster project d image_ref = do
    stages ← declared_stages calls.build job_id
    dockerfile ← ensure_dockerfile calls.build job_id d (ask calls.build.read_dockerfile)
    tekton_build_and_scan env.settings env.outputs calls.tekton env.readers job_id env.scan_ids
        (env.k8s_namespace project.id) d image_ref stages dockerfile
    pure (length stages)

  unfoldable pub build_image : Project → Deployment → Text → Run ℕ
  unfolding build_in_cluster tekton_applies_to gate_and_build
  build_image project d image_ref =
      if tekton_applies_to env.tekton_enabled project
      then build_in_cluster project d image_ref
      else gate_and_build env.readers calls.build job_id env.scan_ids d image_ref

  -- What stands in the `try` behind the clone.
  unfoldable pub build_and_release : Project → Deployment → Text → Run (Unit {0})
  unfolding build_image release
  build_and_release project d image_ref = build_image project d image_ref >>= λ count.
      release env.settings calls.ship job_id (env.k8s_namespace project.id) project d image_ref
        count

  unfoldable pub clone_first : Deployment → Run (Unit {0})
  unfolding step clone_repo
  clone_first d = do
    step job_id 1 9 (codes "cloning repository")
    clone_repo calls.build.clone job_id (or_text (codes d.branch) (codes "default branch"))

  -- The `try` with its handler and its `finally`: `cloned` is set once the clone has returned.
  unfoldable pub deploy_guarded : Project → Deployment → Text → Run (Unit {0})
  unfolding either clone_first lastly attempt build_and_release give_up purge_path
  deploy_guarded project d image_ref =
      either (clone_first d)
        (λ _.
          lastly (attempt (build_and_release project d image_ref) (give_up job_id d))
            (purge_path job_id calls.build.clone.purge_root >>= λ _. pure tt))
        (give_up job_id d)

  -- A team that is gone is an AttributeError that no handler catches.
  unfoldable pub deploy_with : Project → Deployment → Option Team → Run (Unit {0})
  unfolding deploy_guarded
  deploy_with project d none = raise (codes "'NoneType' object has no attribute 'slug'")
  deploy_with project d (some team) =
      deploy_guarded project d (image_ref_of env team.slug project d)

  unfoldable pub deploy_project : Deployment → Option Project → Run (Unit {0})
  unfolding mark deploy_with
  deploy_project d none = mark job_id JobStatus.failed (some (codes "project record missing"))
  deploy_project d (some project) = get >>= λ w. deploy_with project d (team_row project.team_id w)

  unfoldable pub deploy_found : ℕ → Option Deployment → Run (Unit {0})
  unfolding mark deploy_project
  deploy_found project_id none =
      mark job_id JobStatus.failed (some (codes "deployment record missing"))
  deploy_found project_id (some d) = get >>= λ w. deploy_project d (project_row project_id w)

  unfoldable pub deploy_task : ℕ → ℕ → Run (Unit {0})
  unfolding start deploy_found
  deploy_task deployment_id project_id = start job_id >>= λ started.
      if started
      then (get >>= λ w. deploy_found project_id (deployment_row deployment_id w))
      else pure tt

-- The calls of `undeploy_task`: the ArgoCD application, or the three kinds of objects.
pub record Removal : Type 0 where
  pub gitops_enabled : Bool
  pub delete_application : Kubectl
  pub delete_deployment : Kubectl
  pub delete_service : Kubectl
  pub delete_ingress : Kubectl

module _ (settings : Settings) (calls : Removal) (job_id : ℕ) where
  -- The results of kubectl are not looked at.
  unfoldable pub remove_objects : Project → Run (Unit {0})
  unfolding gitops_applies_to kubectl
  remove_objects project =
      if gitops_applies_to calls.gitops_enabled project
      then (kubectl settings job_id calls.delete_application >>= λ _. pure tt)
      else (do
        deployment ← kubectl settings job_id calls.delete_deployment
        service ← kubectl settings job_id calls.delete_service
        ingress ← kubectl settings job_id calls.delete_ingress
        pure tt)

  unfoldable pub undeploy_found : Option Project → Run (Unit {0})
  unfolding mark remove_objects
  undeploy_found none = mark job_id JobStatus.failed (some (codes "project record missing"))
  undeploy_found (some project) = remove_objects project >> mark job_id JobStatus.succeeded none

  unfoldable pub undeploy_task : ℕ → Run (Unit {0})
  unfolding start attempt undeploy_found fail
  undeploy_task project_id = start job_id >>= λ started.
      if started
      then attempt (get >>= λ w. undeploy_found (project_row project_id w)) (fail job_id)
      else pure tt
