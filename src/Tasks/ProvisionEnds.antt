-- ===== src/Tasks/ProvisionEnds.antt =====
-- How `provision_task` ends.
use stage.Prelude.{ℕ, List, Option, none, some, Result, ok, err, true, ◌≡◌, refl, ◌⊎◌, inl, inr}
use mathlib.Core.Option
use stage.Models.{Project, ProjectStatus, JobStatus}
use stage.Spec.{InfraSpec, Mode, namespace, vm, SpecError, validate}
use stage.Pool.{PooledCluster}
use stage.Tasks.World.{World, returned, ◌>>=◌}
use stage.Tasks.Limit.{is_in_time, run_task, run_task_lem}
use stage.Tasks.Calls.{project_row}
use stage.Tasks.Provision.{Env, Calls}
use stage.Tasks.ProvisionTask.{
  or_raise, claim, commit_claim, hand_over, provision_by, provision_body, failed_or_kept,
  fail_status, provision_guarded, provision_task,
}
use stage.Tasks.Triples.{
  Leads, leads, bind, also, attempt_lem, ending, pure_lem, raise_lem, modify_lem, returns,
}
use stage.Tasks.Tidy.{IsEnded, On, IsQueued, ask_lem, fail_lem, write_lem, start_lem}
use stage.Tasks.ProvisionWays.{IsThere, IsReady, At, Raises, Done, namespace_lem, adopt_lem, vm_lem}

-- A project whose destruction was asked for keeps that status.
abbrev pub IsDown : Option Project → Type 0
IsDown none = ⊥
IsDown (some p) = (p.status ≡ ProjectStatus.failed) ⊎ (p.status ≡ ProjectStatus.destroying)

failed_or_kept_lem :
    (s : ProjectStatus)
    → (failed_or_kept s ≡ ProjectStatus.failed) ⊎ (failed_or_kept s ≡ ProjectStatus.destroying)
failed_or_kept_lem ProjectStatus.draft = inl refl
failed_or_kept_lem ProjectStatus.provisioning = inl refl
failed_or_kept_lem ProjectStatus.ready = inl refl
failed_or_kept_lem ProjectStatus.destroying = inr refl
failed_or_kept_lem ProjectStatus.destroyed = inl refl
failed_or_kept_lem ProjectStatus.failed = inl refl

IsDown-of : (p : Option Project) → IsThere p → IsDown (Option.map fail_status p)
unfolding fail_status
IsDown-of none h = absurd h
IsDown-of (some p) h = failed_or_kept_lem p.status

module _ (env : Env) (calls : Calls) (job_id project_id : ℕ) where
  hand_over_lem :
      (pooled : Option PooledCluster)
      → Leads
          (At env calls job_id project_id 0)
          (hand_over env calls job_id project_id pooled)
          (Done env calls job_id project_id)
          (Raises env calls job_id project_id)
  unfolding hand_over commit_claim
  hand_over_lem none = vm_lem env calls job_id project_id
  hand_over_lem (some pooled) =
      also (modify_lem _ λ w h. h) (adopt_lem env calls job_id project_id pooled)

  ways_lem :
      (mode : Mode) (spec : InfraSpec)
      → Leads
          (At env calls job_id project_id 0)
          (provision_by mode env calls job_id project_id spec)
          (Done env calls job_id project_id)
          (Raises env calls job_id project_id)
  unfolding provision_by claim
  ways_lem namespace spec = namespace_lem env calls job_id project_id spec
  ways_lem vm spec = bind (leads λ w h. h) hand_over_lem

  validated_lem :
      (r : Result (List SpecError) InfraSpec)
      → Leads
          (At env calls job_id project_id 0)
          (or_raise env.error_text r)
          (At env calls job_id project_id 0)
          (Raises env calls job_id project_id)
  validated_lem (ok spec) = pure_lem spec
  validated_lem (err e) = raise_lem _ (λ w h. h.0)

  body_lem :
      (document : InfraSpec)
      → Leads
          (At env calls job_id project_id 0)
          (provision_body env calls job_id project_id document)
          (Done env calls job_id project_id)
          (Raises env calls job_id project_id)
  unfolding provision_body
  body_lem document = bind (validated_lem (validate env.ip_network env.caps document)) λ spec.
      also (ask_lem job_id (On project_id IsThere) 0 calls.workspace_root) (ways_lem spec.mode spec)

  -- The job succeeded and the project is ready, or it failed and the project is down.
  abbrev pub IsProvisioned : World → Type 0
  IsProvisioned w =
      IsEnded job_id JobStatus.succeeded (On project_id IsReady) w
      ⊎ IsEnded job_id JobStatus.failed (On project_id IsDown) w

  guarded_lem :
      (document : InfraSpec)
      → Leads
          (At env calls job_id project_id 0)
          (provision_guarded env calls job_id project_id document)
          IsProvisioned
          (λ _. ⊥)
  unfolding provision_guarded
  guarded_lem document = attempt_lem (ending (λ w h. inl h) (body_lem document)) λ e.
      ending (λ w h. inr h)
        (also
          (modify_lem _ λ w h.
            write_lem job_id project_id IsThere IsDown fail_status w
              (unfold fail_status in λ p. refl) IsDown-of h)
          (fail_lem job_id (On project_id IsDown) e))

  provision_task_returns :
      (document : InfraSpec) (w : World)
      → IsQueued job_id w
      → IsThere (project_row project_id w)
      → (w' : World) × (provision_task env calls job_id project_id document w ≡ returned tt w')
        × IsProvisioned w'
  unfolding provision_task ◌>>=◌
  provision_task_returns document w queued there =
      let (w0, started, tidy) = start_lem job_id (On project_id IsThere) w queued there in
      rw started (
        returns (provision_guarded env calls job_id project_id document) w0
          ((guarded_lem document).from w0 tidy))

  -- A worker runs `provision_task` for a job that is there, is not cancelled and has no steps yet, and whose
  -- project is there. Whatever the calls of the runners return or raise, provided that the task is
  -- over within Celery's soft time limit, it returns without an exception, in namespace mode, from the
  -- warm pool and with virtual machines alike: either the job is succeeded and its project ready, or
  -- the job is failed and its project failed or, if its destruction was asked for, destroying; and no
  -- step of the job is left open.
  pub provision_task_ends :
      (document : InfraSpec) (w : World) (provision_timeout scan_timeout : ℕ)
      → IsQueued job_id w
      → IsThere (project_row project_id w)
      → is_in_time provision_timeout scan_timeout
          (provision_task env calls job_id project_id document)
          w
        ≡ true
      → (w' : World) × (run_task provision_timeout scan_timeout
            (provision_task env calls job_id project_id document)
            w
          ≡ some (returned tt w'))
        × IsProvisioned w'
  provision_task_ends document w provision_timeout scan_timeout queued there in_time =
      let (w', run, ended) = provision_task_returns document w queued there in
      (w', run_task_lem provision_timeout scan_timeout _ w _ in_time run, ended)
