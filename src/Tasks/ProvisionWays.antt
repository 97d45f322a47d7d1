-- ===== src/Tasks/ProvisionWays.antt =====
-- Each way to provision leads to a ready project and a succeeded job, or raises in a state that can be
-- failed.
use stage.Prelude.{
  ℕ, zero, suc, ◌+◌, [], Option, none, some, ◌==◌, ◌≡◌, refl, arith, Text, codes, is_zero,
}
use mathlib.Core.Option
use stage.Models.{Project, ProjectStatus, JobStatus}
use stage.Spec.{InfraSpec}
use stage.Pool.{PooledCluster}
use stage.Tasks.World.{World, Run, ◌>>=◌, ◌>>◌, attempt, Reply, ask, settle}
use stage.Tasks.Calls.{
  with_projects, say, stream, check, step, mark, write_project, make_ready, mark_ready, record_ips,
}
use stage.Tasks.Provision.{
  Env, Calls, best_effort, grant_tenant_log_access, install_registry_credentials_secret,
  install_tenant_dashboard, install_tenant_pipeline, require_project, provision_namespace,
  adopt_pooled_cluster,
}
use stage.Tasks.ProvisionTask.{attempts, sleep, configure, apply, store_credential, provision_vm}
use stage.Tasks.Triples.{
  Leads, leads, bind, also, branch, attempt_lem, pure_lem, raise_lem, get_lem, modify_lem,
  settle_lem,
}
use stage.Tasks.Tidy.{
  IsSafe, IsTidy, IsEnded, On, say_lem, say-IsEnded, ask_to, stream_to, check_to, ask_lem,
  stream_lem, check_lem, step_lem, mark-IsEnded, write_lem,
}

-- The project is there, and there and ready.
abbrev pub IsThere : Option Project → Type 0
IsThere none = ⊥
IsThere (some p) = Unit

abbrev pub IsReady : Option Project → Type 0
IsReady none = ⊥
IsReady (some p) = p.status ≡ ProjectStatus.ready

IsReady-of : (now : ℕ) (p : Option Project) → IsThere p → IsReady (Option.map (make_ready now) p)
unfolding make_ready
IsReady-of now none h = absurd h
IsReady-of now (some p) h = refl

IsThere-of : (f : Project → Project) (p : Option Project) → IsThere p → IsThere (Option.map f p)
IsThere-of f none h = absurd h
IsThere-of f (some p) h = tt

module _ (env : Env) (calls : Calls) (job_id project_id : ℕ) where
  abbrev pub At : ℕ → World → Type 0
  At last = IsTidy job_id last (On project_id IsThere)

  abbrev pub Raises : World → Type 0
  Raises = IsSafe job_id (On project_id IsThere)

  abbrev pub Done : World → Type 0
  Done = IsEnded job_id JobStatus.succeeded (On project_id IsReady)

  abbrev Stays : ℕ → Run (Unit {0}) → Type 0
  Stays last m = Leads (At last) m (At last) Raises

  ready_lem :
      (last : ℕ)
      → Leads (At last) (mark_ready project_id) (IsSafe job_id (On project_id IsReady)) Raises
  unfolding mark_ready
  ready_lem last = leads λ w h.
      write_lem job_id project_id IsThere IsReady (make_ready w.now) w
        (unfold make_ready in λ p. refl) (IsReady-of w.now) h.0

  -- The three last lines of every way to provision.
  finish :
      (last : ℕ) (line : Text)
      → Leads
          (At last)
          (mark_ready project_id >> (mark job_id JobStatus.succeeded none >> say job_id line))
          Done
          Raises
  finish last line = also (ready_lem last) (
      also (mark-IsEnded job_id (On project_id IsReady) JobStatus.succeeded none)
        (say-IsEnded job_id (On project_id IsReady) JobStatus.succeeded line))

  best_effort_lem :
      (last : ℕ) (text : Text) (m : Run (Unit {0}))
      → Leads (At last) m (At last) (At last)
      → Stays last (best_effort job_id text m)
  unfolding best_effort
  best_effort_lem last text m l = attempt_lem l λ e. say_lem job_id (On project_id IsThere) last _

  installs :
      (last : ℕ) (text line : Text) (reply : Reply (Unit {0}))
      → Stays last (best_effort job_id text (stream job_id reply >> say job_id line))
  installs last text line reply = best_effort_lem last text _ (
      also (stream_to job_id (On project_id IsThere) last reply (λ w h. h))
        (say_lem job_id (On project_id IsThere) last line))

  grant_lem : (last : ℕ) → Stays last (grant_tenant_log_access env calls job_id)
  unfolding grant_tenant_log_access
  grant_lem last =
      branch env.elasticsearch
        (best_effort_lem last (codes "could not grant Elasticsearch access") _ (
          also (ask_to job_id (On project_id IsThere) last calls.provision_team (λ w h. h))
            (say_lem job_id (On project_id IsThere) last _)))
        (pure_lem tt)

  dashboard_lem : (last : ℕ) → Stays last (install_tenant_dashboard calls job_id)
  unfolding install_tenant_dashboard
  dashboard_lem last = best_effort_lem last (codes "could not install the Tekton dashboard") _ (
      branch calls.has_dashboard
        (also (stream_to job_id (On project_id IsThere) last calls.apply_dashboard (λ w h. h))
          (say_lem job_id (On project_id IsThere) last _))
        (say_lem job_id (On project_id IsThere) last _))

  pipeline_lem : (last : ℕ) → Stays last (install_tenant_pipeline calls job_id)
  unfolding install_tenant_pipeline install_registry_credentials_secret
  pipeline_lem last =
      branch calls.has_pipeline
        (also (installs last (codes "could not install the Tekton pipeline") _ calls.apply_pipeline)
          (also
            (installs last (codes "could not install the registry credentials secret") _
              calls.apply_credentials)
            (dashboard_lem last)))
        (say_lem job_id (On project_id IsThere) last _)

  require_lem : (last : ℕ) (p : Option Project) → Stays last (require_project p)
  unfolding require_project
  require_lem last none = raise_lem _ (λ w h. h.0)
  require_lem last (some p) = pure_lem tt

  pub namespace_lem :
      (spec : InfraSpec)
      → Leads (At 0) (provision_namespace env calls job_id project_id spec) Done Raises
  unfolding provision_namespace
  namespace_lem spec = bind get_lem λ w. also (require_lem 0 _) (
      also (step_lem job_id (On project_id IsThere) 0 1 2 _ (omega arith)) (
        also (ask_lem job_id (On project_id IsThere) 1 calls.render_namespace) (
          also (step_lem job_id (On project_id IsThere) 1 2 2 _ (omega arith)) (
            also (stream_lem job_id (On project_id IsThere) 2 calls.apply_namespace) (
              also (modify_lem _ λ w h. h)
                (also (grant_lem 2) (also (pipeline_lem 2) (finish 2 _))))))))

  pub adopt_lem :
      (pooled : PooledCluster)
      → Leads (At 0) (adopt_pooled_cluster calls job_id project_id pooled) Done Raises
  unfolding adopt_pooled_cluster record_ips write_project with_projects
  adopt_lem pooled = also (say_lem job_id (On project_id IsThere) 0 _) (
      also
        (modify_lem _ λ w h.
          (write_lem job_id project_id IsThere IsThere _ w (λ p. refl) (IsThere-of _) h.0, h.1))
        (also (ask_lem job_id (On project_id IsThere) 0 calls.transfer_kubeconfig)
          (also (modify_lem _ λ w h. h) (finish 0 _))))

  retry_lem : (left attempt : ℕ) → Stays 4 (configure calls job_id left attempt)
  unfolding configure
  retry_lem zero attempt = pure_lem tt
  retry_lem (suc left) attempt =
      bind (stream_lem job_id (On project_id IsThere) 4 (calls.ansible_playbook attempt)) λ result.
        branch (is_zero result.exit_code) (pure_lem tt) (
          also
            (branch (attempt == attempts) (check_lem job_id (On project_id IsThere) 4 result [])
              (pure_lem tt))
            (also (say_lem job_id (On project_id IsThere) 4 _)
              (also (unfold sleep in modify_lem _ λ w h. h) (retry_lem left (attempt + 1)))))

  -- The cleanup of a failed apply raises, whatever the cleanup does.
  apply_lem : Stays 2 (apply calls job_id)
  unfolding apply
  apply_lem =
      attempt_lem {R = At 2}
        (bind (stream_to job_id (On project_id IsThere) 2 calls.terraform_apply (λ w h. h))
          λ result. check_to job_id (On project_id IsThere) 2 result [] (λ w h. h))
        (λ e. also (say_lem job_id (On project_id IsThere) 2 _) (
          bind (stream_lem job_id (On project_id IsThere) 2 calls.terraform_destroy) λ cleanup.
            also (say_lem job_id (On project_id IsThere) 2 _) (raise_lem e (λ w h. h.0))))

  store_lem : Stays 4 (store_credential calls job_id)
  unfolding store_credential
  store_lem =
      branch calls.has_kubeconfig
        (also (ask_lem job_id (On project_id IsThere) 4 calls.store_kubeconfig)
          (say_lem job_id (On project_id IsThere) 4 _))
        (pure_lem tt)

  -- From the addresses on.
  capture_lem :
      Leads
        (At 3)
        (ask calls.terraform_output >>= λ out.
          check out []
          >> (settle (env.parse_ips out.output) >>= λ node_ips.
              record_ips project_id node_ips
              >> (step job_id 4 4 (codes "ansible-playbook configure")
                  >> (ask calls.ssh_private_key
                      >> (configure calls job_id attempts 1
                          >> (store_credential calls job_id
                              >> (mark_ready project_id
                                  >> (mark job_id JobStatus.succeeded none
                                      >> say job_id (codes "Provisioning complete.")))))))))
        Done
        Raises
  unfolding record_ips
  capture_lem = bind (ask_lem job_id (On project_id IsThere) 3 calls.terraform_output) λ out.
      also (check_lem job_id (On project_id IsThere) 3 out []) (
        bind (settle_lem (env.parse_ips out.output) (λ w h. h.0)) λ node_ips.
          also (modify_lem _ λ w h. h) (
            also (step_lem job_id (On project_id IsThere) 3 4 4 _ (omega arith)) (
              also (ask_lem job_id (On project_id IsThere) 4 calls.ssh_private_key)
                (also (retry_lem attempts 1) (also store_lem (finish 4 _))))))

  pub vm_lem : Leads (At 0) (provision_vm env calls job_id project_id) Done Raises
  unfolding provision_vm record_ips
  vm_lem = also (ask_lem job_id (On project_id IsThere) 0 calls.render) (
      also (say_lem job_id (On project_id IsThere) 0 _) (
        also (step_lem job_id (On project_id IsThere) 0 1 4 _ (omega arith)) (
          bind (stream_lem job_id (On project_id IsThere) 1 calls.terraform_init) λ init.
            also (check_lem job_id (On project_id IsThere) 1 init []) (
              also (step_lem job_id (On project_id IsThere) 1 2 4 _ (omega arith)) (
                also apply_lem (
                  also (step_lem job_id (On project_id IsThere) 2 3 4 _ (omega arith))
                    capture_lem))))))
