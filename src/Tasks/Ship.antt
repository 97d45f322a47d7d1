-- ===== src/Tasks/Ship.antt =====
-- The last part of `deploy_task` of workers/tasks.py, from the rendering to the live URL:
-- `_render_manifests`, `_gitops_ship`, and the rollout.
pub mod Released
pub mod Undisturbed
pub mod Secrets
use stage.Prelude.{
  ℕ, ◌+◌, String, List, [], ◌∷◌, ◌++◌, Option, none, some, Bool, false, not, ◌&&◌, ◌==◌, str_eq,
  if◌then◌else◌, select, map, take, Text, text_eq, codes, is_zero,
}
use stage.Models.{Project, Deployment, JobStatus}
use stage.Workers.Log.{take_last}
use stage.Tasks.World.{World, Run, pure, raise, ◌>>=◌, ◌>>◌, lastly, modify, Reply, ask}
use stage.Tasks.Calls.{say, stream, step, mark}
use stage.Tasks.Gates.{set_deployment}
use stage.Tasks.Kubectl.{Settings, Kubectl, kubectl, Apply, kubectl_apply}

-- The directory of the rendered manifests, the secrets that Vault holds, the rendering of each manifest,
-- and the calls after it.
pub record Calls : Type 0 where
  pub out_dir : Text
  pub has_secret_keys : Bool
  pub load_secrets : Reply Bool
  pub render : Text → Reply (Unit {0})
  pub gitops_enabled : Bool
  pub apply_secrets : Apply
  pub publish_manifests : Reply Text
  pub write_objects : Reply (Unit {0})
  pub apply_objects : Apply
  pub apply_manifests : Apply
  pub rollout_status : Kubectl
  pub rollout_undo : Kubectl
  pub cluster_domain : Text
  pub gitops_branch : Text

underscore_to_dash : ℕ → ℕ
underscore_to_dash c = if c == 95 then 45 else c

unfoldable pub deployment_name : Deployment → Text
unfolding underscore_to_dash
deployment_name d = map underscore_to_dash (codes d.service_name)

abbrev pub secret_yaml : Text
secret_yaml = codes "secret.yaml"

-- The templates, by the names of their files.
unfoldable pub templates : String → Bool → List Text
templates strategy secrets =
    let base = codes "service.yaml" ∷ codes "ingress.yaml" ∷ [] in
    let workload =
      if str_eq strategy "deployment"
      then codes "deployment.yaml" ∷ base
      else codes "rollout.yaml" ∷ codes "analysis.yaml" ∷ base in
    if secrets then secret_yaml ∷ workload else workload

abbrev pub path_of : Text → Text → Text
path_of out_dir name = out_dir ++ codes "/" ++ name

unfoldable pub write_file : Text → World → World
write_file path w = record w { files = path ∷ w.files }

unfoldable pub unlink : Text → World → World
unlink path w = record w { files = select (λ file. not (text_eq file path)) w.files }

-- A file is written once its template is rendered.
unfoldable pub render_each : Calls → List Text → Run (Unit {0})
unfolding ask write_file
render_each calls [] = pure tt
render_each calls (name ∷ names) =
    let rest = render_each calls names in
    ask (calls.render name) >> (modify (write_file (path_of calls.out_dir name)) >> rest)

unfoldable pub render_manifests : Calls → Deployment → Run (List Text)
unfolding ask templates render_each
render_manifests calls d =
    (if calls.has_secret_keys then ask calls.load_secrets else pure false) >>= λ secrets.
    render_each calls (templates d.strategy secrets) >> pure (templates d.strategy secrets)

-- `infra_spec.get("mode") == "namespace"`
abbrev pub in_namespace : Option String → Bool
in_namespace none = false
in_namespace (some mode) = str_eq mode "namespace"

unfoldable pub gitops_applies_to : Bool → Project → Bool
gitops_applies_to enabled project = enabled && in_namespace project.infra_spec.mode

abbrev pub is_secret : Text → Bool
is_secret name = text_eq name secret_yaml

abbrev apply_if_any : Settings → ℕ → Apply → List Text → Run (Unit {0})
apply_if_any settings job_id call [] = pure tt
apply_if_any settings job_id call (m ∷ ms) = kubectl_apply settings job_id call (m ∷ ms)

unfoldable pub gitops_ship :
    Settings → Calls → ℕ → Text → Deployment → List Text → Text → Run (Unit {0})
unfolding kubectl_apply say stream ask deployment_name
gitops_ship settings calls job_id ns d manifests image_ref = do
  apply_if_any settings job_id calls.apply_secrets
      (map (path_of calls.out_dir) (select is_secret manifests))
  say job_id (
      codes "publishing manifests for "
      ++ deployment_name d
      ++ codes " to the platform manifest repository")
  sha ← stream job_id calls.publish_manifests
  say job_id (codes "manifests committed as " ++ take 12 sha)
  ask calls.write_objects
  kubectl_apply settings job_id calls.apply_objects
      (codes "appproject.yaml" ∷ codes "application.yaml" ∷ [])
  say job_id (
      codes "ArgoCD Application "
      ++ ns
      ++ codes "-"
      ++ deployment_name d
      ++ codes " synced from "
      ++ calls.gitops_branch)

-- The loop of the `finally`.
unfoldable pub unlink_secrets : Calls → List Text → Run (Unit {0})
unfolding unlink
unlink_secrets calls [] = pure tt
unlink_secrets calls (name ∷ names) =
    let rest = unlink_secrets calls names in
    if is_secret name then modify (unlink (path_of calls.out_dir name)) >> rest else rest

-- The manifests rendered, applied or committed, and the secret's file removed.
unfoldable pub ship : Settings → Calls → ℕ → Text → Project → Deployment → Text → Run (Unit {0})
unfolding render_manifests lastly gitops_applies_to gitops_ship kubectl_apply unlink_secrets
ship settings calls job_id ns project d image_ref = render_manifests calls d >>= λ manifests.
    lastly
      (if gitops_applies_to calls.gitops_enabled project
        then gitops_ship settings calls job_id ns d manifests image_ref
        else kubectl_apply settings job_id calls.apply_manifests
            (map (path_of calls.out_dir) manifests))
      (unlink_secrets calls manifests)

unfoldable pub roll_out : Settings → Calls → ℕ → Run (Unit {0})
unfolding kubectl say
roll_out settings calls job_id = kubectl settings job_id calls.rollout_status >>= λ rollout.
    if is_zero rollout.exit_code then pure tt else (do
      say job_id (codes "rollout failed — rolling back")
      undone ← kubectl settings job_id calls.rollout_undo
      raise (codes "rollout failed: " ++ take_last 500 rollout.output))

-- Steps 7 to 9, behind the build: `count` is the number of the tenant's own stages.
unfoldable pub release :
    Settings → Calls → ℕ → Text → Project → Deployment → Text → ℕ → Run (Unit {0})
unfolding step set_deployment ship roll_out mark say deployment_name
release settings calls job_id ns project d image_ref count = do
  step job_id (count + 7) (9 + count) (codes "rendering + applying manifests")
  modify (set_deployment d.id "deploying" (some image_ref) none)
  ship settings calls job_id ns project d image_ref
  step job_id (count + 8) (9 + count) (codes "waiting for rollout")
  roll_out settings calls job_id
  step job_id (count + 9) (9 + count) (codes "capturing live URL")
  let live_url =
      codes "http://" ++ deployment_name d ++ codes "." ++ ns ++ codes "." ++ calls.cluster_domain
  modify (set_deployment d.id "live" (some image_ref) (some live_url))
  mark job_id JobStatus.succeeded none
  say job_id (codes "Deployment live at " ++ live_url)
