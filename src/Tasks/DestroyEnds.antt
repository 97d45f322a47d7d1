-- ===== src/Tasks/DestroyEnds.antt =====
-- How `destroy_task` ends.
use mathlib.Core.Option
use stage.Prelude.{
  ℕ, Option, none, some, ◌≡◌, refl, strip, is_space, ◌⊎◌, inl, inr, str_eq, is_zero, Text,
}
use stage.Models.{Project, ProjectStatus, JobStatus}
use stage.Tasks.World.{World, returned, Run, ◌>>=◌}
use stage.Tasks.Calls.{RunResult, set_project_status, put_status, project_row}
use stage.Tasks.Destroy.{
  Workspace, Calls, is_blank, remove_target, remove_workspace, mode_of, give_up, succeed,
  destroy_namespace, forget, destroy_vm, destroy_body, destroy_guarded, destroy_task,
}
use stage.Tasks.Triples.{Leads, bind, also, branch, starting, attempt_lem, ending, get_lem, returns}
use stage.Tasks.Tidy.{
  IsSafe, IsTidy, IsEnded, On, IsQueued, say_lem, say-IsEnded, ask_lem, stream_lem, mark-IsEnded,
  fail_lem, set_project_status_lem, start_lem,
}

abbrev pub Anyhow : Option Project → Type 0
Anyhow p = Unit

-- The row, if it is still there, has the status: `DELETE /projects/{id}` may have removed it.
abbrev pub IsNow : ProjectStatus → Option Project → Type 0
IsNow status none = Unit
IsNow status (some p) = p.status ≡ status

IsNow-of :
    (status : ProjectStatus) (p : Option Project) → IsNow status (Option.map (put_status status) p)
unfolding put_status
IsNow-of status none = tt
IsNow-of status (some p) = refl

module _ (calls : Calls) (job_id project_id : ℕ) (ws : Workspace) (ns project_name : Text) where
  abbrev Before : World → Type 0
  Before = IsTidy job_id 0 (On project_id Anyhow)

  abbrev Raises : World → Type 0
  Raises = IsSafe job_id (On project_id Anyhow)

  -- The project is destroyed and the job succeeded, or both failed.
  abbrev pub IsDestroyed : World → Type 0
  IsDestroyed w =
      IsEnded job_id JobStatus.succeeded (On project_id (IsNow ProjectStatus.destroyed)) w
      ⊎ IsEnded job_id JobStatus.failed (On project_id (IsNow ProjectStatus.failed)) w

  abbrev Ends : Run (Unit {0}) → Type 0
  Ends m = Leads Before m IsDestroyed Raises

  status_lem :
      (status : ProjectStatus) {R : World → Type 0}
      → Leads Raises
          (set_project_status project_id status)
          (IsSafe job_id (On project_id (IsNow status)))
          R
  status_lem status =
      set_project_status_lem job_id project_id Anyhow (IsNow status) status λ p _. IsNow-of status p

  give_up_lem : (result : RunResult) → Ends (give_up job_id project_id result)
  unfolding give_up
  give_up_lem result =
      starting (λ w h. h.0)
        (ending (λ w h. inr h)
          (also (status_lem ProjectStatus.failed) (mark-IsEnded job_id _ JobStatus.failed _)))

  succeed_lem : (line : Text) → Ends (succeed job_id project_id line)
  unfolding succeed
  succeed_lem line =
      starting (λ w h. h.0)
        (ending (λ w h. inl h)
          (also (status_lem ProjectStatus.destroyed) (
            also (mark-IsEnded job_id _ JobStatus.succeeded none)
              (say-IsEnded job_id _ JobStatus.succeeded line))))

  target_lem : (target : Option Text) → Leads Before (remove_target job_id ws target) Before Raises
  unfolding remove_target
  target_lem none = say_lem job_id _ 0 _
  target_lem (some target) =
      branch (is_blank (strip is_space ws.path)) (say_lem job_id _ 0 _)
        (branch ws.inside_root (say_lem job_id _ 0 _) (say_lem job_id _ 0 _))

  remove_lem : Leads Before (remove_workspace job_id ws) Before Raises
  unfolding remove_workspace
  remove_lem = target_lem ws.target

  forget_lem : Ends (forget calls job_id project_id project_name)
  unfolding forget
  forget_lem = also (ask_lem job_id _ 0 calls.delete_kubeconfig) (succeed_lem _)

  namespace_lem : Ends (destroy_namespace calls job_id project_id ws ns project_name)
  unfolding destroy_namespace
  namespace_lem = also (say_lem job_id _ 0 _) (
      bind (stream_lem job_id _ 0 calls.delete_namespace) λ result.
        branch (is_zero result.exit_code) (also remove_lem (succeed_lem _)) (give_up_lem result))

  vm_lem : Ends (destroy_vm calls job_id project_id ws project_name)
  unfolding destroy_vm
  vm_lem =
      branch ws.exists
        (also (say_lem job_id _ 0 _) (
          bind (stream_lem job_id _ 0 calls.terraform_destroy) λ result.
            branch (is_zero result.exit_code) (also remove_lem forget_lem)
              (also (say_lem job_id _ 0 _) (give_up_lem result))))
        (also (say_lem job_id _ 0 _) forget_lem)

  guarded_lem :
      Leads Before (destroy_guarded calls job_id project_id ws ns project_name) IsDestroyed (λ _. ⊥)
  unfolding destroy_guarded destroy_body
  guarded_lem =
      attempt_lem
        (bind get_lem λ w.
          branch (str_eq (mode_of (project_row project_id w)) "namespace") namespace_lem vm_lem)
        λ e. ending (λ w h. inr h) (also (status_lem ProjectStatus.failed) (fail_lem job_id _ e))

  -- Whatever the calls return or raise, and whether or not the project's row is still there,
  -- `destroy_task` of a job that is there, is not cancelled and has no steps, if Celery does not stop it at
  -- a time limit, returns without an exception: either the job is succeeded and the project, if it is there, destroyed, or both are failed. The
  -- project never stays in `destroying`.
  pub destroy_task_ends :
      (w : World)
      → IsQueued job_id w
      → (w' : World) × (destroy_task calls job_id project_id ws ns project_name w ≡ returned tt w')
        × IsDestroyed w'
  unfolding destroy_task ◌>>=◌
  destroy_task_ends w queued =
      let (w0, started, tidy) = start_lem job_id (On project_id Anyhow) w queued tt in
      rw started (
        returns (destroy_guarded calls job_id project_id ws ns project_name) w0
          (guarded_lem.from w0 tidy))
