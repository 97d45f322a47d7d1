-- ===== src/Tasks/Kubectl.antt =====
-- `kubectl`, `kubectl_apply` and the choice of the kubeconfig, of workers/tasks.py.
use stage.Prelude.{ℕ, List, [], ◌∷◌, ◌++◌, Option, none, some, if◌then◌else◌, Text, codes, is_zero}
use stage.Tasks.World.{Run, pure, raise, ◌>>=◌, ◌>>◌, Reply, ask}
use stage.Tasks.Calls.{stream, RunResult, check}

-- The file that `_kubeconfig_path` yields: not there, not to be read, or with its path and its text.
pub data Kubeconfig : Type 0 where
  missing unreadable : Kubeconfig
  holds : (path text : Text) → Kubeconfig

-- The loopback address that `_LOOPBACK_SERVER_RE` finds in a text, and the sandbox's network.
pub record Settings : Type 0 where
  pub loopback : Text → Option Text
  pub registry_network : Text

-- One call: the kubeconfig from Vault or the settings, and the run in the sandbox.
pub record Kubectl : Type 0 where
  pub kubeconfig : Reply Kubeconfig
  pub run : Reply RunResult

unfoldable pub refuse : Settings → Text → Option Text → Run (Unit {0})
refuse settings path none = pure tt
refuse settings path (some address) = raise (
    codes "The kubeconfig at "
    ++ path
    ++ codes " points at "
    ++ address
    ++ codes ", which inside the platform's sandbox container is the container itself, not the "
    ++ codes "cluster. Point KUBECONFIG_PATH at a kubeconfig whose server is reachable from the "
    ++ codes "sandbox network ("
    ++ settings.registry_network
    ++ codes ") — for kind, `kind get kubeconfig --internal`.")

unfoldable pub reject_loopback : Settings → Kubeconfig → Run (Unit {0})
unfolding refuse
reject_loopback settings missing = pure tt
reject_loopback settings unreadable = pure tt
reject_loopback settings (holds path text) = refuse settings path (settings.loopback text)

-- With `on_line`, and without.
unfoldable pub kubectl : Settings → ℕ → Kubectl → Run RunResult
unfolding ask reject_loopback stream
kubectl settings job_id call = do
  kubeconfig ← ask call.kubeconfig
  reject_loopback settings kubeconfig
  stream job_id call.run

unfoldable pub kubectl_quiet : Settings → Kubectl → Run RunResult
unfolding ask reject_loopback
kubectl_quiet settings call = do
  kubeconfig ← ask call.kubeconfig
  reject_loopback settings kubeconfig
  ask call.run

-- A manifest is applied by its path.
pub record Apply : Type 0 where
  pub kubeconfig : Reply Kubeconfig
  pub get_namespace : Reply RunResult
  pub create_namespace : Kubectl
  pub apply : Text → Reply RunResult

unfoldable pub apply_each : ℕ → (Text → Reply RunResult) → List Text → Run (Unit {0})
unfolding stream check
apply_each job_id apply [] = pure tt
apply_each job_id apply (manifest ∷ manifests) =
    let rest = apply_each job_id apply manifests in
    stream job_id (apply manifest) >>= λ result. check result [] >> rest

unfoldable pub kubectl_apply : Settings → ℕ → Apply → List Text → Run (Unit {0})
unfolding ask reject_loopback kubectl apply_each
kubectl_apply settings job_id call manifests = do
  kubeconfig ← ask call.kubeconfig
  reject_loopback settings kubeconfig
  namespaces ← ask call.get_namespace
  if is_zero namespaces.exit_code
      then pure tt
      else kubectl settings job_id call.create_namespace >>= λ _. pure tt
  apply_each job_id call.apply manifests
