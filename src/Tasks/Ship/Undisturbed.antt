-- ===== src/Tasks/Ship/Undisturbed.antt =====
-- What the calls of the shipping leave alone.
use stage.Prelude.{ℕ, List, [], ◌∷◌, select, map, Text, codes, is_zero, Option, none, some}
use stage.Models.{Deployment}
use stage.Tasks.World.{World, Run, Reply, ask}
use stage.Tasks.Calls.{log_line, log_lines, say, stream, RunResult, check}
use stage.Tasks.Kubectl.{
  Kubeconfig, missing, unreadable, holds, Settings, Kubectl, refuse, reject_loopback, kubectl,
  Apply, apply_each, kubectl_apply,
}
use stage.Tasks.Ship.{Calls, path_of, is_secret, apply_if_any, gitops_ship}
use stage.Tasks.Triples.{
  Leads, leads, bind, also, branch, pure_lem, raise_lem, modify_lem, settle_lem,
}

-- What a task's line and the passing of time leave alone, every call leaves alone.
module _ (job_id : ℕ) (P : World → Type 0)
    (logs : (line : Text) (w : World) → P w → P (log_line job_id line w))
    (waits : (now : ℕ) (w : World) → P w → P (record w { now = now })) where
  abbrev pub Leaves : {A : Type 0} → Run A → Type 0
  Leaves m = Leads P m P P

  pub asks_of : {A : Type 0} (reply : Reply A) → Leaves (ask reply)
  unfolding ask
  asks_of reply = leads λ w h. (settle_lem reply.answer (λ w h. h)).from _ (waits _ w h)

  logs_all : (lines : List Text) (w : World) → P w → P (log_lines job_id lines w)
  unfolding log_lines
  logs_all [] w h = h
  logs_all (line ∷ lines) w h = logs_all lines (log_line job_id line w) (logs line w h)

  streams_of : {A : Type 0} (reply : Reply A) → Leaves (stream job_id reply)
  unfolding stream
  streams_of reply =
      leads
        λ w h. (settle_lem reply.answer (λ w h. h)).from _ (logs_all reply.lines _ (waits _ w h))

  says_of : (line : Text) → Leaves (say job_id line)
  unfolding say
  says_of line = modify_lem _ (logs line)

  checks_of : (result : RunResult) → Leaves (check result [])
  unfolding check
  checks_of result =
      branch result.timed_out (raise_lem _ λ w h. h)
        (branch (is_zero result.exit_code) (pure_lem tt) (raise_lem _ λ w h. h))

  refuse_of :
      (settings : Settings) (path : Text) (o : Option Text) → Leaves (refuse settings path o)
  unfolding refuse
  refuse_of settings path none = pure_lem tt
  refuse_of settings path (some address) = raise_lem _ λ w h. h

  reject_of : (settings : Settings) (k : Kubeconfig) → Leaves (reject_loopback settings k)
  unfolding reject_loopback
  reject_of settings missing = pure_lem tt
  reject_of settings unreadable = pure_lem tt
  reject_of settings (holds path text) = refuse_of settings path (settings.loopback text)

  kubectl_of : (settings : Settings) (k : Kubectl) → Leaves (kubectl settings job_id k)
  unfolding kubectl
  kubectl_of settings k =
      bind (asks_of k.kubeconfig) λ config. also (reject_of settings config) (streams_of k.run)

  each_of :
      (apply : Text → Reply RunResult) (paths : List Text) → Leaves (apply_each job_id apply paths)
  unfolding apply_each
  each_of apply [] = pure_lem tt
  each_of apply (path ∷ paths) =
      bind (streams_of (apply path)) λ result. also (checks_of result) (each_of apply paths)

  pub apply_of :
      (settings : Settings) (call : Apply) (paths : List Text)
      → Leaves (kubectl_apply settings job_id call paths)
  unfolding kubectl_apply
  apply_of settings call paths = bind (asks_of call.kubeconfig) λ config.
      also (reject_of settings config) (
        bind (asks_of call.get_namespace) λ namespaces.
          also
            (branch (is_zero namespaces.exit_code) (pure_lem tt)
              (bind (kubectl_of settings call.create_namespace) λ _. pure_lem tt))
            (each_of call.apply paths))

  if_any_of :
      (settings : Settings) (call : Apply) (paths : List Text)
      → Leaves (apply_if_any settings job_id call paths)
  if_any_of settings call [] = pure_lem tt
  if_any_of settings call (m ∷ ms) = apply_of settings call (m ∷ ms)

  pub gitops_of :
      (settings : Settings) (calls : Calls) (ns : Text) (d : Deployment) (manifests : List Text)
      (image_ref : Text)
      → Leaves (gitops_ship settings calls job_id ns d manifests image_ref)
  unfolding gitops_ship
  gitops_of settings calls ns d manifests image_ref =
      also
        (if_any_of settings calls.apply_secrets
          (map (path_of calls.out_dir) (select is_secret manifests)))
        (also (says_of _) (
          bind (streams_of calls.publish_manifests) λ sha. also (says_of _) (
            also (asks_of calls.write_objects)
              (also (apply_of settings calls.apply_objects objects) (says_of _)))))
    where
      objects : List Text
      objects = codes "appproject.yaml" ∷ codes "application.yaml" ∷ []
