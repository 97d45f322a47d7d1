-- ===== src/Tasks/Build.antt =====
-- The first part of `deploy_task` of workers/tasks.py where the sandbox builds: the clone, the gates, the
-- tenant's own stages, the Dockerfile, the build, the push and the scan of the image.
pub mod Gated
use stage.Prelude.{
  ℕ, ◌+◌, List, [], ◌∷◌, ◌++◌, Option, none, some, Bool, true, false, not, ◌&&◌, ◌||◌, ◌==◌,
  if◌then◌else◌, map, length, drop, Text, codes, str, str_int, is_zero, lower, Result, ok, err,
}
use stage.Models.{Deployment}
use stage.Parsers.{join}
use stage.Workers.Log.{take_last}
use stage.Config.Stages.{Document, InvalidPipelineConfig, PipelineStage, load_stages}
use stage.Tasks.World.{Run, pure, raise, ◌>>=◌, ◌>>◌, modify, Reply, ask}
use stage.Tasks.Calls.{say, stream, RunResult, check, step}
use stage.Tasks.Scan.{Readers}
use stage.Tasks.Clone.{Clone}
use stage.Tasks.Gates.{set_deployment, secret_scan_gate, dependency_scan_gate, image_gate}

-- A file of the checkout, by whether it is there and can be read.
pub record Source : Type 0 where
  pub has_dockerfile : Bool
  pub has_requirements : Bool
  pub main_py : Option Text
  pub app_py : Option Text

-- `looks_like_app` is the search for `_FASTAPI_APP_RE`, `stage_error` the text of an exception.
pub record Calls : Type 0 where
  pub clone : Clone
  pub gates : stage.Tasks.Gates.Calls
  pub read_stages : Reply Document
  pub stage_error : InvalidPipelineConfig → Text
  pub run_stage : ℕ → Reply RunResult
  pub source : Source
  pub looks_like_app : Text → Bool
  pub write_dockerfile : Reply (Unit {0})
  pub read_dockerfile : Reply Text
  pub docker_build : Reply RunResult
  pub docker_push : Reply RunResult
  pub registry : Text
  pub registry_internal : Text

starts_with : Text → Text → Bool
starts_with [] s = true
starts_with (c ∷ prefix) [] = false
starts_with (c ∷ prefix) (d ∷ s) = c == d && starts_with prefix s

contains : Text → Text → Bool
unfolding starts_with
contains part [] = starts_with part []
contains part (c ∷ s) = starts_with part (c ∷ s) || contains part s

is_app : (Text → Bool) → Option Text → Bool
unfolding contains lower
is_app looks_like_app none = false
is_app looks_like_app (some text) = contains (codes "fastapi") (lower text) && looks_like_app text

-- `_detect_fastapi_entrypoint`
unfoldable pub detect_entrypoint : (Text → Bool) → Source → Option Text
unfolding is_app
detect_entrypoint looks_like_app source =
    if not source.has_requirements
    then none
    else if is_app looks_like_app source.main_py
    then some (codes "main")
    else if is_app looks_like_app source.app_py
    then some (codes "app")
    else none

-- What follows the detection, where there is no Dockerfile.
generate : Calls → ℕ → Deployment → Run Text → Option Text → Run Text
unfolding ask say
generate calls job_id d read none = raise (
    codes "No Dockerfile at the root of "
    ++ codes d.repo_url
    ++ codes " (branch "
    ++ codes d.branch
    ++ codes "), and this doesn't look like a plain FastAPI app (need requirements.txt + "
    ++ codes "main.py/app.py with `app = FastAPI(...)`) — add a Dockerfile and deploy again.")
generate calls job_id d read (some entrypoint) = do
  ask calls.write_dockerfile
  dockerfile ← read
  say job_id (
      codes "No Dockerfile found — detected a FastAPI app in "
      ++ entrypoint
      ++ codes ".py and generated one automatically.")
  pure dockerfile

-- `read` reads the generated file back, where that is wanted.
unfoldable pub ensure_dockerfile : Calls → ℕ → Deployment → Run Text → Run Text
unfolding generate detect_entrypoint
ensure_dockerfile calls job_id d read =
    if calls.source.has_dockerfile
    then pure []
    else generate calls job_id d read (detect_entrypoint calls.looks_like_app calls.source)

stages_or_raise :
    (InvalidPipelineConfig → Text)
    → Result InvalidPipelineConfig (List PipelineStage)
    → Run (List PipelineStage)
stages_or_raise stage_error (ok stages) = pure stages
stages_or_raise stage_error (err e) = raise (stage_error e)

announce : ℕ → List PipelineStage → Run (Unit {0})
unfolding say str join
announce job_id [] = pure tt
announce job_id (s ∷ stages) = say job_id (
    codes ".platform.yml declares "
    ++ str (length (s ∷ stages))
    ++ codes " extra stage(s): "
    ++ join (map (λ (s : PipelineStage). s.name) (s ∷ stages)))

-- The stages of `.platform.yml`, with their line in the log.
unfoldable pub declared_stages : Calls → ℕ → Run (List PipelineStage)
unfolding ask load_stages stages_or_raise announce
declared_stages calls job_id = do
  document ← ask calls.read_stages
  stages ← stages_or_raise calls.stage_error (load_stages document)
  announce job_id stages
  pure stages

unfoldable pub check_stage : PipelineStage → RunResult → Run (Unit {0})
unfolding str_int
check_stage stage result =
    if result.timed_out
    then raise (codes "stage '" ++ stage.name ++ codes "' timed out")
    else if is_zero result.exit_code
    then pure tt
    else raise (
        codes "stage '"
        ++ stage.name
        ++ codes "' failed (exit "
        ++ str_int result.exit_code
        ++ codes "): "
        ++ take_last 400 result.output)

-- `for offset, stage in enumerate(user_stages, start=offset + 1)`
unfoldable pub run_stages : Calls → ℕ → ℕ → ℕ → List PipelineStage → Run (Unit {0})
unfolding step stream check_stage
run_stages calls job_id total offset [] = pure tt
run_stages calls job_id total offset (stage ∷ stages) =
    let rest = run_stages calls job_id total (offset + 1) stages in
    step job_id (3 + (offset + 1)) total stage.name
    >> (stream job_id (calls.run_stage (offset + 1)) >>= λ result. check_stage stage result >> rest)

-- `_registry_scan_ref`: the registry's address where a sandbox reaches it.
unfoldable pub registry_scan_ref : Text → Text → Text → Text
unfolding starts_with
registry_scan_ref registry [] image_ref = image_ref
registry_scan_ref registry (c ∷ internal) image_ref =
    if starts_with (registry ++ codes "/") image_ref
    then (c ∷ internal) ++ drop (length registry) image_ref
    else image_ref

-- Steps 4 to 6, behind the tenant's stages.
unfoldable pub build_and_push : Readers → Calls → ℕ → ℕ → Deployment → Text → ℕ → Run (Unit {0})
unfolding set_deployment step stream check image_gate registry_scan_ref
build_and_push readers calls job_id scan_id d image_ref count = do
  modify (set_deployment d.id "building" none none)
  step job_id (count + 4) (9 + count) (codes "building image")
  build ← stream job_id calls.docker_build
  check build []
  step job_id (count + 5) (9 + count) (codes "pushing image to registry")
  push ← stream job_id calls.docker_push
  check push []
  step job_id (count + 6) (9 + count) (codes "trivy scan + gate")
  modify (set_deployment d.id "scanning" none none)
  image_gate readers calls.gates job_id scan_id d
      (registry_scan_ref calls.registry calls.registry_internal image_ref) image_ref

-- The scans of the three gates have the given ids. What is returned are the tenant's stages.
unfoldable pub gate_and_build : Readers → Calls → ℕ → ℕ × ℕ × ℕ → Deployment → Text → Run ℕ
unfolding step secret_scan_gate dependency_scan_gate declared_stages run_stages ensure_dockerfile
    build_and_push
gate_and_build readers calls job_id (secrets_id, audit_id, image_id) d image_ref = do
  step job_id 2 9 (codes "secret scan (gitleaks) + gate")
  secret_scan_gate readers calls.gates job_id secrets_id d
  step job_id 3 9 (codes "dependency scan (pip-audit) + gate")
  dependency_scan_gate readers calls.gates job_id audit_id d
  stages ← declared_stages calls job_id
  run_stages calls job_id (9 + length stages) 0 stages
  dockerfile ← ensure_dockerfile calls job_id d (pure [])
  build_and_push readers calls job_id image_id d image_ref (length stages)
  pure (length stages)
