-- ===== src/Tasks/Ship/Released.antt =====
-- How the last part of a deploy ends: with a live deployment and a job that succeeded, or with an exception.
use stage.Prelude.{
  ℕ, ◌+◌, List, [], ◌∷◌, Option, none, some, false, is_zero, map, select, ◌≡◌, refl, arith, Text,
  codes,
}
use stage.Models.{Project, Deployment, JobStep, JobStatus}
use stage.Tasks.World.{World, Run, pure, Reply, modify}
use stage.Tasks.Kubectl.{
  Kubeconfig, missing, unreadable, holds, Settings, Kubectl, refuse, reject_loopback, kubectl,
  kubectl_quiet, Apply, apply_each, kubectl_apply,
}
use stage.Tasks.Ship.{
  Calls, templates, path_of, write_file, unlink, render_each, render_manifests, is_secret,
  gitops_applies_to, apply_if_any, gitops_ship, unlink_secrets, ship, roll_out, release,
}
use stage.Tasks.Gates.Kept.{
  OnDeployment, IsThere, rewrite, State, During, Raises, set_there, set_deployment_lem,
}
use stage.Tasks.Triples.{Leads, bind, also, branch, pure_lem, raise_lem, modify_lem, lastly_any}
use stage.Tasks.Yields.{failing}
use stage.Tasks.Tidy.{
  IsSafe, Unused, IsEnded, say-IsWith, ask-IsWith, stream-IsWith, check-IsWith, step_lem,
  mark-IsEnded, say-IsEnded,
}

-- A live deployment, of the image that was released.
abbrev pub IsLive : Text → Option Deployment → Type 0
IsLive image_ref none = ⊥
IsLive image_ref (some d) = (d.status ≡ "live") × (d.image_ref ≡ some image_ref)

IsLive-of :
    (image_ref live_url : Text) (o : Option Deployment)
    → IsThere o
    → IsLive image_ref (rewrite "live" (some image_ref) (some live_url) o)
unfolding stage.Repositories.Deployments.set_status
IsLive-of image_ref live_url none h = absurd h
IsLive-of image_ref live_url (some d) h = (refl, refl)

module _ (job_id deployment_id : ℕ) (U : List JobStep → Type 0) where
  abbrev Before : World → Type 0
  Before = State job_id deployment_id U

  abbrev pub Keeps : {A : Type 0} → Run A → Type 0
  Keeps m = Leads Before m Before (Raises job_id deployment_id)

  pub asks : {A : Type 0} (reply : Reply A) → Keeps (stage.Tasks.World.ask reply)
  asks reply = ask-IsWith job_id _ U reply (λ w h. h.0)

  pub streams : {A : Type 0} (reply : Reply A) → Keeps (stage.Tasks.Calls.stream job_id reply)
  streams reply = stream-IsWith job_id _ U reply (λ w h. h.0)

  pub checks :
      (result : stage.Tasks.Calls.RunResult) (hint : Text)
      → Keeps (stage.Tasks.Calls.check result hint)
  checks result hint = check-IsWith job_id _ U result hint (λ w h. h.0)

  pub says : (line : Text) → Keeps (stage.Tasks.Calls.say job_id line)
  says line = say-IsWith job_id _ U line

  pub raises : {A : Type 0} (e : Text) → Keeps {A = A} (stage.Tasks.World.raise e)
  raises e = raise_lem e λ w h. h.0

  -- A program that takes no step: its exceptions leave the steps alone as well.
  abbrev pub Calm : {A : Type 0} → Run A → Type 0
  Calm m = Leads Before m Before Before

  pub eased : {A : Type 0} {m : Run A} → Calm m → Keeps m
  eased l = failing (λ w h. h.0) l

  refuse_lem : (settings : Settings) (path : Text) (o : Option Text) → Calm (refuse settings path o)
  unfolding refuse
  refuse_lem settings path none = pure_lem tt
  refuse_lem settings path (some address) = raise_lem _ λ w h. h

  pub reject_lem : (settings : Settings) (k : Kubeconfig) → Calm (reject_loopback settings k)
  unfolding reject_loopback
  reject_lem settings missing = pure_lem tt
  reject_lem settings unreadable = pure_lem tt
  reject_lem settings (holds path text) = refuse_lem settings path (settings.loopback text)

  pub quiet_lem : (settings : Settings) (k : Kubectl) → Calm (kubectl_quiet settings k)
  unfolding kubectl_quiet
  quiet_lem settings k =
      bind (ask-IsWith job_id _ U k.kubeconfig λ w h. h)
        λ config. also (reject_lem settings config) (ask-IsWith job_id _ U k.run λ w h. h)

  pub kubectl_lem : (settings : Settings) (k : Kubectl) → Keeps (kubectl settings job_id k)
  unfolding kubectl
  kubectl_lem settings k =
      bind (asks k.kubeconfig) λ config. also (eased (reject_lem settings config)) (streams k.run)

  each_lem :
      (apply : Text → Reply stage.Tasks.Calls.RunResult) (paths : List Text)
      → Keeps (apply_each job_id apply paths)
  unfolding apply_each
  each_lem apply [] = pure_lem tt
  each_lem apply (path ∷ paths) =
      bind (streams (apply path)) λ result. also (checks result []) (each_lem apply paths)

  apply_lem :
      (settings : Settings) (call : Apply) (paths : List Text)
      → Keeps (kubectl_apply settings job_id call paths)
  unfolding kubectl_apply
  apply_lem settings call paths = bind (asks call.kubeconfig) λ config.
      also (eased (reject_lem settings config)) (
        bind (asks call.get_namespace) λ namespaces.
          also
            (branch (is_zero namespaces.exit_code) (pure_lem tt)
              (bind (kubectl_lem settings call.create_namespace) λ _. pure_lem tt))
            (each_lem call.apply paths))

  if_any_lem :
      (settings : Settings) (call : Apply) (paths : List Text)
      → Keeps (apply_if_any settings job_id call paths)
  if_any_lem settings call [] = pure_lem tt
  if_any_lem settings call (m ∷ ms) = apply_lem settings call (m ∷ ms)

  render_lem : (calls : Calls) (names : List Text) → Keeps (render_each calls names)
  unfolding render_each
  render_lem calls [] = pure_lem tt
  render_lem calls (name ∷ names) =
      also (asks (calls.render name))
        (also (modify_lem _ (unfold write_file in λ w h. h)) (render_lem calls names))

  manifests_lem : (calls : Calls) (d : Deployment) → Keeps (render_manifests calls d)
  unfolding render_manifests
  manifests_lem calls d =
      bind (branch calls.has_secret_keys (asks calls.load_secrets) (pure_lem false))
        λ secrets. also (render_lem calls (templates d.strategy secrets)) (pure_lem _)

  gitops_lem :
      (settings : Settings) (calls : Calls) (ns : Text) (d : Deployment) (manifests : List Text)
      (image_ref : Text)
      → Keeps (gitops_ship settings calls job_id ns d manifests image_ref)
  unfolding gitops_ship
  gitops_lem settings calls ns d manifests image_ref =
      also
        (if_any_lem settings calls.apply_secrets
          (map (path_of calls.out_dir) (select is_secret manifests)))
        (also (says _) (
          bind (streams calls.publish_manifests) λ sha. also (says _) (
            also (asks calls.write_objects)
              (also (apply_lem settings calls.apply_objects objects) (says _)))))
    where
      objects : List Text
      objects = codes "appproject.yaml" ∷ codes "application.yaml" ∷ []

  unlink_lem :
      (calls : Calls) (names : List Text) {P : World → Type 0}
      → ((path : Text) (w : World) → P w → P (unlink path w))
      → {R : World → Type 0} → Leads P (unlink_secrets calls names) P R
  unfolding unlink_secrets
  unlink_lem calls [] keep = pure_lem tt
  unlink_lem calls (name ∷ names) keep =
      branch (is_secret name) (also (modify_lem _ (keep _)) (unlink_lem calls names keep))
        (unlink_lem calls names keep)

  ship_lem :
      (settings : Settings) (calls : Calls) (ns : Text) (project : Project) (d : Deployment)
      (image_ref : Text)
      → Keeps (ship settings calls job_id ns project d image_ref)
  unfolding ship
  ship_lem settings calls ns project d image_ref = bind (manifests_lem calls d) λ manifests.
      lastly_any
        (branch (gitops_applies_to calls.gitops_enabled project)
          (gitops_lem settings calls ns d manifests image_ref)
          (apply_lem settings calls.apply_manifests (map (path_of calls.out_dir) manifests)))
        (unlink_lem calls manifests (unfold unlink in λ path w h. h))
        (unlink_lem calls manifests (unfold unlink in λ path w h. h))

  roll_out_lem : (settings : Settings) (calls : Calls) → Keeps (roll_out settings calls job_id)
  unfolding roll_out
  roll_out_lem settings calls = bind (kubectl_lem settings calls.rollout_status) λ rollout.
      branch (is_zero rollout.exit_code) (pure_lem tt)
        (also (says _) (bind (kubectl_lem settings calls.rollout_undo) λ undone. raises _))

live_lem :
    (job_id deployment_id last : ℕ) (image_ref live_url : Text) {R : World → Type 0}
    → Leads
        (During job_id deployment_id last)
        (modify
          (stage.Tasks.Gates.set_deployment deployment_id "live" (some image_ref) (some live_url)))
        (IsSafe job_id (OnDeployment deployment_id (IsLive image_ref)))
        R
live_lem job_id deployment_id last image_ref live_url = modify_lem _ λ w h.
    set_deployment_lem job_id deployment_id {T = IsThere} (IsLive image_ref) "live" (some image_ref)
      (some live_url) w (IsLive-of image_ref live_url) h.0

-- From the build on, a deploy ends with its deployment live and its job succeeded, or raises.
pub release_lem :
    (settings : Settings) (calls : Calls) (job_id : ℕ) (ns : Text) (project : Project)
    (d : Deployment) (image_ref : Text) (count : ℕ)
    → Leads
        (During job_id d.id (6 + count))
        (release settings calls job_id ns project d image_ref count)
        (IsEnded job_id JobStatus.succeeded (OnDeployment d.id (IsLive image_ref)))
        (Raises job_id d.id)
unfolding release
release_lem settings calls job_id ns project d image_ref count =
    also (step_lem job_id _ (6 + count) (count + 7) (9 + count) _ (omega arith)) (
      also (set_there job_id d.id (count + 7) "deploying" (some image_ref) none) (
        also
          (ship_lem job_id d.id (Unused job_id (count + 7)) settings calls ns project d image_ref)
          (also (step_lem job_id _ (count + 7) (count + 8) (9 + count) _ (omega arith)) (
            also (roll_out_lem job_id d.id (Unused job_id (count + 8)) settings calls) (
              also (step_lem job_id _ (count + 8) (count + 9) (9 + count) _ (omega arith)) (
                also (live_lem job_id d.id (count + 9) image_ref _) (
                  also (mark-IsEnded job_id _ JobStatus.succeeded none)
                    (say-IsEnded job_id _ JobStatus.succeeded _))))))))
