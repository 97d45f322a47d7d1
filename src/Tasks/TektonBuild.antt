-- ===== src/Tasks/TektonBuild.antt =====
-- The whole of `_tekton_build_and_scan` of workers/tasks.py: the submission, the wait, and the clean-up with
-- `_persist_tekton_scan_results`, `_delete_tekton_run_pods` and `_delete_tekton_workspace_pvc`.
pub mod Polled
pub mod Cleaned
pub mod Concluded
use stage.Prelude.{
  ℕ, ◌+◌, String, List, [], ◌∷◌, ◌++◌, Option, none, some, Bool, ◌&&◌, any, find, if◌then◌else◌,
  Text, text_eq, codes, or_text, length, Result, ok, err,
}
use stage.Models.{Deployment}
use stage.Config.Stages.{PipelineStage}
use stage.Parsers.{ParsedFindings, TrivyResult, parse_gitleaks, parse_trivy, parse_pip_audit}
use stage.Tekton.Pipeline.{
  PipelineRun, or_found, pipeline_task_names, render_pipelinerun, registry_egress_warning,
}
use stage.Tasks.World.{Run, pure, ◌>>=◌, ◌>>◌, attempt, either, lastly, get, modify, ask, settle}
use stage.Tasks.Calls.{say, check}
use stage.Tasks.Scan.{TrivyDocument, no_report, report_of, malformed, Readers}
use stage.Tasks.Gates.{set_deployment, record_scan}
use stage.Tasks.Build.{registry_scan_ref}
use stage.Tasks.Kubectl.{Settings}
use stage.Tasks.TektonRun.{
  Claim, TaskPod, Outputs, Calls, call, call_json, read, wait, timeout_seconds, enough_polls,
  report, conclude,
}

-- `except Exception: pass`
unfoldable pub best_effort : {A : Type 0} → Run A → Run (Unit {0})
unfolding attempt
best_effort m = attempt (m >>= λ _. pure tt) (λ e. pure tt)

-- `by_task`, a dictionary: the last Pod of a task; an empty name is none.
unfoldable pub pod_of : Text → List TaskPod → Option Text
pod_of task [] = none
pod_of task (p ∷ ps) = or_found (pod_of task ps) (elim p.task [
  | none ↦ none
  | some t ↦ if text_eq t task then elim p.pod [ some (c ∷ s) ↦ some (c ∷ s) | _ ↦ none ] else none
])

results_of : TrivyDocument → Result Text (Option (List TrivyResult))
results_of no_report = ok none
results_of (report_of results) = ok (some results)
results_of (malformed e) = err e

-- What a parser gives back or raises.
abbrev parsed_as : {A : Type 0} → (A → ParsedFindings) → Result Text A → Result Text ParsedFindings
parsed_as parse (ok report) = ok (parse report)
parsed_as parse (err e) = err e

parse_leaks : Readers → Text → Result Text ParsedFindings
unfolding parse_gitleaks
parse_leaks readers text = parsed_as parse_gitleaks (readers.read_leaks text)

parse_audit : Readers → Text → Result Text ParsedFindings
unfolding parse_pip_audit
parse_audit readers text =
    parsed_as (parse_pip_audit readers.cvss3_base_score) (readers.read_audit text)

parse_image : Readers → Text → Result Text ParsedFindings
unfolding parse_trivy results_of
parse_image readers text = parsed_as parse_trivy (results_of (readers.read_trivy text))

persist_report :
    ℕ
    → Deployment
    → String
    → Text
    → (Text → Result Text ParsedFindings)
    → Option Text
    → Run (Unit {0})
unfolding record_scan
persist_report scan_id d tool target parse none = pure tt
persist_report scan_id d tool target parse (some text) =
    settle (parse text) >>= λ parsed. record_scan scan_id d tool target parsed

persist_pod :
    Settings
    → Outputs
    → Calls
    → ℕ
    → Deployment
    → String
    → Text
    → (Text → Result Text ParsedFindings)
    → Option Text
    → Run (Unit {0})
unfolding best_effort call persist_report
persist_pod settings outputs calls scan_id d tool target parse none = pure tt
persist_pod settings outputs calls scan_id d tool target parse (some pod) = best_effort (
    call settings (calls.logs pod) >>= λ logs.
    persist_report scan_id d tool target parse (outputs.report_in logs))

-- `_persist_tekton_scan_results`: a task without a Pod or without a report has no row.
unfoldable pub persist_scans :
    Settings → Outputs → Calls → Readers → ℕ × ℕ × ℕ → Deployment → Text → Run (Unit {0})
unfolding either call_json persist_pod pod_of parse_leaks parse_audit parse_image
persist_scans settings outputs calls readers (secrets_id, audit_id, image_id) d image_ref =
    either (call_json settings outputs.pods calls.get_pods)
      (λ pods. do
        persist_pod settings outputs calls secrets_id d "gitleaks" (codes d.repo_url)
            (parse_leaks readers) (pod_of (codes "secret-scan") pods)
        persist_pod settings outputs calls audit_id d "pip_audit" (codes d.repo_url)
            (parse_audit readers) (pod_of (codes "dependency-scan") pods)
        persist_pod settings outputs calls image_id d "trivy" image_ref (parse_image readers)
            (pod_of (codes "scan") pods))
      (λ e. pure tt)

unfoldable pub is_owned_by : Text → Claim → Bool
is_owned_by run_name claim =
    any (λ (o : Text × Text). text_eq o.0 (codes "PipelineRun") && text_eq o.1 run_name)
      claim.owners

delete_found : Settings → Calls → Option Claim → Run (Unit {0})
unfolding call
delete_found settings calls none = pure tt
delete_found settings calls (some claim) =
    call settings (calls.delete_claim claim.name) >>= λ _. pure tt

unfoldable pub delete_workspace_pvc : Settings → Outputs → Calls → Run (Unit {0})
unfolding best_effort call_json find is_owned_by delete_found
delete_workspace_pvc settings outputs calls = best_effort (
    call_json settings outputs.claims calls.get_claims >>= λ claims.
    delete_found settings calls (find (is_owned_by calls.run_name) claims))

unfoldable pub delete_run_pods : Settings → Calls → Run (Unit {0})
unfolding best_effort call
delete_run_pods settings calls = best_effort (call settings calls.delete_pods)

warn : ℕ → Text → Run (Unit {0})
unfolding say
warn job_id [] = pure tt
warn job_id (c ∷ s) = say job_id (c ∷ s)

-- The body of the `try`, from the first poll.
unfoldable pub watch :
    Settings → Outputs → Calls → ℕ → Deployment → Text → List PipelineStage → Run (Unit {0})
unfolding read wait report conclude pipeline_task_names
watch settings outputs calls job_id d image_ref stages = get >>= λ w.
    wait calls.run_name (read settings outputs calls (pipeline_task_names stages))
      (report job_id stages (9 + length stages)) (w.now + timeout_seconds) enough_polls 0
      (record { seen = []; announced = [] })
    >>= λ last. conclude calls job_id d image_ref stages last

unfoldable pub clean_up :
    Settings → Outputs → Calls → Readers → ℕ × ℕ × ℕ → Deployment → Text → Run (Unit {0})
unfolding persist_scans delete_run_pods delete_workspace_pvc
clean_up settings outputs calls readers scan_ids d image_ref = do
  persist_scans settings outputs calls readers scan_ids d image_ref
  delete_run_pods settings calls
  delete_workspace_pvc settings outputs calls

-- The run that is submitted: it pushes to the registry's address inside the cluster.
unfoldable pub submitted :
    Calls → Text → Deployment → Text → List PipelineStage → Text → PipelineRun
unfolding render_pipelinerun registry_scan_ref
submitted calls ns d image_ref stages dockerfile =
    render_pipelinerun calls.b64 calls.run_name ns (codes d.repo_url)
      (or_text (codes d.branch) (codes "main"))
      (registry_scan_ref calls.registry calls.registry_internal image_ref) calls.timeout
      calls.registry_insecure calls.default_stage_image stages dockerfile

unfoldable pub tekton_build_and_scan :
    Settings
    → Outputs
    → Calls
    → Readers
    → ℕ
    → ℕ × ℕ × ℕ
    → Text
    → Deployment
    → Text
    → List PipelineStage
    → Text
    → Run (Unit {0})
unfolding warn ask check say set_deployment watch lastly clean_up registry_egress_warning submitted
tekton_build_and_scan settings outputs calls readers job_id scan_ids ns d image_ref stages
      dockerfile =
    do
      warn job_id (
          registry_egress_warning calls.resolve (or_text calls.registry_internal calls.registry)
            calls.registry_cidr)
      kubeconfig ← ask calls.kubeconfig
      applied ← ask (calls.apply_manifest (submitted calls ns d image_ref stages dockerfile))
      check applied []
      say job_id (codes "Tekton PipelineRun " ++ calls.run_name ++ codes " started in " ++ ns)
      modify (set_deployment d.id "building" none none)
      lastly (watch settings outputs calls job_id d image_ref stages)
          (clean_up settings outputs calls readers scan_ids d image_ref)
