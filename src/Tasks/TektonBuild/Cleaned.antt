-- ===== src/Tasks/TektonBuild/Cleaned.antt =====
-- What the clean-up behind a run keeps, whatever it meets.
use stage.Prelude.{ℕ, String, List, Option, none, some, find, Text, codes, Result}
use stage.Models.{Deployment, JobStep}
use stage.Parsers.{ParsedFindings}
use stage.Tasks.World.{Run}
use stage.Tasks.Kubectl.{Settings}
use stage.Tasks.Gates.Kept.{record_with}
use stage.Tasks.Ship.Released.{Calm}
use stage.Tasks.Scan.{Readers}
use stage.Tasks.Triples.{bind, also, either_lem, attempt_lem, pure_lem, settle_lem}
use stage.Tasks.TektonRun.{Claim, Outputs, Calls}
use stage.Tasks.TektonBuild.{
  best_effort, pod_of, parse_leaks, parse_audit, parse_image, persist_report, persist_pod,
  persist_scans, is_owned_by, delete_found, delete_workspace_pvc, delete_run_pods, clean_up,
}
use stage.Tasks.TektonBuild.Polled.{json_lem, call_lem}

-- What the clean-up keeps, whatever it meets.
module _ (settings : Settings) (outputs : Outputs) (calls : Calls) (readers : Readers) (job_id : ℕ)
    (d : Deployment) (U : List JobStep → Type 0) where
  effort_lem : {A : Type 0} (m : Run A) → Calm job_id d.id U m → Calm job_id d.id U (best_effort m)
  unfolding best_effort
  effort_lem m l = attempt_lem (bind l λ _. pure_lem tt) (λ e. pure_lem tt)

  kept_lem :
      (scan_id : ℕ) (tool : String) (target : Text) (parse : Text → Result Text ParsedFindings)
      (o : Option Text)
      → Calm job_id d.id U (persist_report scan_id d tool target parse o)
  unfolding persist_report
  kept_lem scan_id tool target parse none = pure_lem tt
  kept_lem scan_id tool target parse (some text) =
      bind (settle_lem (parse text) (λ w h. h))
        λ parsed. record_with job_id d.id U scan_id d tool target parsed

  pod_lem :
      (scan_id : ℕ) (tool : String) (target : Text) (parse : Text → Result Text ParsedFindings)
      (o : Option Text)
      → Calm job_id d.id U (persist_pod settings outputs calls scan_id d tool target parse o)
  unfolding persist_pod
  pod_lem scan_id tool target parse none = pure_lem tt
  pod_lem scan_id tool target parse (some pod) = effort_lem _ (
      bind (call_lem settings job_id d U (calls.logs pod))
        λ logs. kept_lem scan_id tool target parse (outputs.report_in logs))

  persist_lem :
      (scan_ids : ℕ × ℕ × ℕ) (image_ref : Text)
      → Calm job_id d.id U (persist_scans settings outputs calls readers scan_ids d image_ref)
  unfolding persist_scans
  persist_lem (secrets_id, audit_id, image_id) image_ref =
      either_lem (json_lem settings job_id d U outputs.pods calls.get_pods)
        (λ pods.
          also
            (pod_lem secrets_id "gitleaks" (codes d.repo_url) (parse_leaks readers)
              (pod_of (codes "secret-scan") pods))
            (also
              (pod_lem audit_id "pip_audit" (codes d.repo_url) (parse_audit readers)
                (pod_of (codes "dependency-scan") pods))
              (pod_lem image_id "trivy" image_ref (parse_image readers)
                (pod_of (codes "scan") pods))))
        (λ e. pure_lem tt)

  found_lem : (o : Option Claim) → Calm job_id d.id U (delete_found settings calls o)
  unfolding delete_found
  found_lem none = pure_lem tt
  found_lem (some claim) =
      bind (call_lem settings job_id d U (calls.delete_claim claim.name)) λ _. pure_lem tt

  pub clean_up_lem :
      (scan_ids : ℕ × ℕ × ℕ) (image_ref : Text)
      → Calm job_id d.id U (clean_up settings outputs calls readers scan_ids d image_ref)
  unfolding clean_up delete_run_pods delete_workspace_pvc
  clean_up_lem scan_ids image_ref = also (persist_lem scan_ids image_ref) (
      also (effort_lem _ (call_lem settings job_id d U calls.delete_pods)) (
        effort_lem _ (
          bind (json_lem settings job_id d U outputs.claims calls.get_claims)
            λ claims. found_lem (find (is_owned_by calls.run_name) claims))))
