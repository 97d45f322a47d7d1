-- ===== src/Tasks/Destroy.antt =====
-- `destroy_task` and `_remove_workspace` of workers/tasks.py.
use stage.Prelude.{
  ℕ, String, [], ◌∷◌, ◌++◌, Option, none, some, Bool, true, false, str_eq, if◌then◌else◌, Text,
  codes, strip, is_space, str_int, is_zero,
}
use stage.Models.{Project, ProjectStatus, JobStatus}
use stage.Workers.Log.{take_last}
use stage.Tasks.World.{Run, pure, ◌>>=◌, ◌>>◌, attempt, get, Reply, ask}
use stage.Tasks.Calls.{say, stream, RunResult, mark, fail, start, project_row, set_project_status}

-- What `_remove_workspace` finds: the path as `str`, the resolved path unless `resolve` raises, whether
-- it lies below the root, and the root.
pub record Workspace : Type 0 where
  pub path : Text
  pub target : Option Text
  pub inside_root : Bool
  pub root : Text
  pub exists : Bool

pub record Calls : Type 0 where
  pub delete_namespace : Reply RunResult
  pub terraform_destroy : Reply RunResult
  pub delete_kubeconfig : Reply (Unit {0})

abbrev pub is_blank : Text → Bool
is_blank [] = true
is_blank (c ∷ s) = false

unfoldable pub remove_target : ℕ → Workspace → Option Text → Run (Unit {0})
unfolding say strip is_space
remove_target job_id ws none =
    say job_id (codes "refusing to remove unresolvable workspace path " ++ ws.path)
remove_target job_id ws (some target) =
    if is_blank (strip is_space ws.path)
    then say job_id (codes "no workspace recorded for this project — nothing to remove")
    else if ws.inside_root
    then say job_id (codes "workspace " ++ target ++ codes " removed")
    else say job_id
        (codes "refusing to remove " ++ target ++ codes ": outside the workspace root " ++ ws.root)

unfoldable pub remove_workspace : ℕ → Workspace → Run (Unit {0})
unfolding remove_target
remove_workspace job_id ws = remove_target job_id ws ws.target

-- `(project.infra_spec or {}).get("mode", "vm") if project else "vm"`
abbrev pub mode_of : Option Project → String
mode_of none = "vm"
mode_of (some p) = elim p.infra_spec.mode [ none ↦ "vm" | some mode ↦ mode ]

-- The status of the project, then the job's with the end of the output.
unfoldable pub give_up : ℕ → ℕ → RunResult → Run (Unit {0})
unfolding set_project_status mark
give_up job_id project_id result = do
  set_project_status project_id ProjectStatus.failed
  mark job_id JobStatus.failed (some (take_last 800 result.output))

unfoldable pub succeed : ℕ → ℕ → Text → Run (Unit {0})
unfolding set_project_status mark say
succeed job_id project_id line = do
  set_project_status project_id ProjectStatus.destroyed
  mark job_id JobStatus.succeeded none
  say job_id line

unfoldable pub destroy_namespace : Calls → ℕ → ℕ → Workspace → Text → Text → Run (Unit {0})
unfolding give_up succeed remove_workspace stream say
destroy_namespace calls job_id project_id ws ns project_name = do
  say job_id (codes "deleting namespace " ++ ns ++ codes " (" ++ project_name ++ codes ")")
  result ← stream job_id calls.delete_namespace
  if is_zero result.exit_code
      then (do
        remove_workspace job_id ws
        succeed job_id project_id
            (codes "Namespace " ++ ns ++ codes " (" ++ project_name ++ codes ") removed."))
      else give_up job_id project_id result

unfoldable pub forget : Calls → ℕ → ℕ → Text → Run (Unit {0})
unfolding ask succeed
forget calls job_id project_id project_name = do
  ask calls.delete_kubeconfig
  succeed job_id project_id (codes "Destroy of " ++ project_name ++ codes " complete.")

unfoldable pub destroy_vm : Calls → ℕ → ℕ → Workspace → Text → Run (Unit {0})
unfolding forget give_up remove_workspace stream say str_int
destroy_vm calls job_id project_id ws project_name =
    let rest = forget calls job_id project_id project_name in
    if ws.exists
    then (do
      say job_id (codes "terraform destroy")
      result ← stream job_id calls.terraform_destroy
      if is_zero result.exit_code then remove_workspace job_id ws >> rest else (do
        say job_id (codes "destroy exit " ++ str_int result.exit_code)
        give_up job_id project_id result))
    else say job_id (codes "No workspace found — nothing to destroy.") >> rest

unfoldable pub destroy_body : Calls → ℕ → ℕ → Workspace → Text → Text → Run (Unit {0})
unfolding destroy_namespace destroy_vm
destroy_body calls job_id project_id ws ns project_name = do
  w ← get
  if str_eq (mode_of (project_row project_id w)) "namespace"
      then destroy_namespace calls job_id project_id ws ns project_name
      else destroy_vm calls job_id project_id ws project_name

-- The body under its `except`.
unfoldable pub destroy_guarded : Calls → ℕ → ℕ → Workspace → Text → Text → Run (Unit {0})
unfolding destroy_body attempt set_project_status fail
destroy_guarded calls job_id project_id ws ns project_name =
    attempt (destroy_body calls job_id project_id ws ns project_name)
      (λ e. do set_project_status project_id ProjectStatus.failed; fail job_id e)

unfoldable pub destroy_task : Calls → ℕ → ℕ → Workspace → Text → Text → Run (Unit {0})
unfolding destroy_guarded start
destroy_task calls job_id project_id ws ns project_name = start job_id >>= λ started.
    if started then destroy_guarded calls job_id project_id ws ns project_name else pure tt
