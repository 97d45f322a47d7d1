-- ===== src/Tasks/Clone.antt =====
-- `_clone_repo`, `_clone_hint` and `_purge_path` of workers/tasks.py.
use stage.Prelude.{ℕ, ◌++◌, Bool, true, false, not, if◌then◌else◌, Result, Text, codes}
use stage.Tasks.World.{Run, pure, raise, ◌>>=◌, ◌>>◌, attempt, settle, Reply, ask}
use stage.Tasks.Calls.{say, stream, RunResult, check}

-- Whether the path is there: at first, after `rmtree`, and after `rm` in a container.
pub record Purge : Type 0 where
  pub path : Text
  pub exists : Bool
  pub exists_after_rmtree : Bool
  pub sandbox : Reply (Unit {0})
  pub exists_at_end : Bool

unfoldable pub purge_path : ℕ → Purge → Run Bool
unfolding attempt ask say
purge_path job_id purge =
    if not purge.exists
    then pure true
    else if not purge.exists_after_rmtree
    then pure true
    else attempt (ask purge.sandbox) (λ e. pure tt)
      >> (if purge.exists_at_end
          then (do
            say job_id (
                codes "could not remove "
                ++ purge.path
                ++ codes "; it holds tenant data and is now orphaned")
            pure false)
          else pure true)

-- `validate_url` is `validate_repo_url`; `hint` is `_clone_hint`, empty where it gives none.
pub record Clone : Type 0 where
  pub url : Text
  pub validate_url : Result Text (Unit {0})
  pub has_credential : Bool
  pub git : Reply RunResult
  pub hint : RunResult → Text
  pub purge_git : Purge
  pub purge_root : Purge

-- `if not purged: raise`
unfoldable pub require_purged : Bool → Run (Unit {0})
require_purged true = pure tt
require_purged false = raise (
    codes "Could not remove .git from the checkout before building. Refusing to continue, because "
    ++ codes "the build context would carry git metadata — and, for an authenticated clone, the "
    ++ codes "credential used to fetch it — into the image.")

-- `branch` is the branch, or the words for the default one.
unfoldable pub clone_repo : Clone → ℕ → Text → Run (Unit {0})
unfolding stream say check purge_path require_purged
clone_repo clone job_id branch = do
  settle clone.validate_url
  if clone.has_credential
      then say job_id (codes "using the team's configured git credential")
      else pure tt
  say job_id (codes "cloning " ++ clone.url ++ codes " (" ++ branch ++ codes ")")
  result ← stream job_id clone.git
  check result (clone.hint result)
  purged ← purge_path job_id clone.purge_git
  require_purged purged
