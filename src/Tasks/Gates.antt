-- ===== src/Tasks/Gates.antt =====
-- The gates of `deploy_task` of workers/tasks.py: `_run_secret_scan_gate`, `_run_dependency_scan_gate` and
-- the scan of the pushed image.
pub mod Kept
pub mod Passed
use stage.Prelude.{
  ℕ, ◌+◌, String, List, [], ◌∷◌, ◌++◌, Option, none, some, Bool, not, ◌&&◌, ◌==◌, ltb,
  if◌then◌else◌, update_where, find, take, length, Text, codes, str, is_zero, str_int, Result, ok,
  err,
}
use stage.Models.{Db, Deployment, Scan}
use stage.Access.{AccessError, system}
use stage.Parsers.{
  Summary, Finding, ParsedFindings, parse_gitleaks, parse_trivy, parse_pip_audit, join,
}
use stage.Workers.Log.{take_last}
use stage.Tasks.World.{
  World, returned, raised, Run, pure, raise, ◌>>=◌, ◌>>◌, modify, Reply, ask, settle,
}
use stage.Tasks.Calls.{say, stream}
use stage.Tasks.ProvisionTask.{sleep}
use stage.Tasks.Scan.{
  ScanRun, TrivyDocument, no_report, report_of, malformed, Readers, set_result, add_findings, ran,
  report_text,
}

-- The two runs that a gate may need.
pub record Twice : Type 0 where
  pub first : Reply ScanRun
  pub second : Reply ScanRun

-- The path of the checkout, which paths exist, and the scanners.
pub record Calls : Type 0 where
  pub cloned : Text
  pub exists : Text → Bool
  pub run_gitleaks : Twice
  pub run_pip_audit : Twice
  pub run_trivy : Twice

-- `repo.set_status(deployment, status, image_ref=image_ref, live_url=live_url)`
unfoldable pub set_deployment : ℕ → String → Option Text → Option Text → World → World
unfolding stage.Repositories.Deployments.set_status
set_deployment deployment_id status image_ref live_url w = record w {
  db = record w.db {
    deployments =
        update_where (λ (d : Deployment). d.id == deployment_id)
          (λ d. stage.Repositories.Deployments.set_status d status image_ref live_url)
          w.db.deployments;
  };
}

-- The scope of the system meets only a NotFoundError, which has no text.
put_scan : Result AccessError (Db × Scan) → Run Scan
put_scan (ok (db, scan)) w = returned scan (record w { db = db })
put_scan (err e) w = raised [] w

-- The row of a gate's scan, with its result and its findings.
unfoldable pub record_scan : ℕ → Deployment → String → Text → ParsedFindings → Run (Unit {0})
unfolding put_scan stage.Repositories.Scans.create set_result add_findings
record_scan scan_id d tool target parsed = do
  scan ← λ w.
      put_scan
        (stage.Repositories.Scans.create scan_id w.now system w.db d.project_id tool target
          (some d.id))
        w
  modify (set_result scan.id "completed" (some parsed.summary))
  modify (add_findings scan.id parsed.findings)

-- `not (timed_out or exit_code not in (0, 1))`
unfoldable pub has_run : ScanRun → Bool
has_run result = not result.timed_out && ran result.exit_code

abbrev pub exited : String → ScanRun → Text
exited tool result = codes tool ++ codes " exited " ++ str_int result.exit_code

-- A run, and a second one where the first did not come to its end.
unfoldable pub run_twice :
    ℕ → String → (ScanRun → Bool) → (Reply ScanRun → Run ScanRun) → Twice → Run ScanRun
unfolding say sleep str_int
run_twice job_id tool good run twice = run twice.first >>= λ result.
    if good result
    then pure result
    else (do say job_id (exited tool result ++ codes " — retrying once"); sleep 5; run twice.second)

-- `repo.set_status(deployment, "blocked"); raise RuntimeError(text)`
unfoldable pub block : ℕ → Option Text → Text → Run (Unit {0})
unfolding set_deployment
block deployment_id image_ref text = do
  modify (set_deployment deployment_id "blocked" image_ref none)
  raise text

unfoldable pub require : Bool → ℕ → Option Text → Text → Run (Unit {0})
unfolding block
require test deployment_id image_ref text =
    if test then pure tt else block deployment_id image_ref text

-- sum(parsed.summary.values())
abbrev pub total : Summary → ℕ
total s = s.critical + s.high + s.medium + s.low + s.unknown

abbrev pub counts : String → Summary → Text
counts tool s =
    codes tool
    ++ codes ": "
    ++ str s.critical
    ++ codes " critical, "
    ++ str s.high
    ++ codes " high, "
    ++ str s.medium
    ++ codes " medium, "
    ++ str s.low
    ++ codes " low, "
    ++ str s.unknown
    ++ codes " unknown"

-- The identifiers of `parsed.findings[:5]` that are there.
identifiers : List Finding → List Text
identifiers [] = []
identifiers (f ∷ fs) = elim f.identifier [
  | none ↦ identifiers fs
  | some [] ↦ identifiers fs
  | some (c ∷ s) ↦ (c ∷ s) ∷ identifiers fs
]

kinds_text : ℕ → Text → Text
kinds_text count [] = []
kinds_text count (c ∷ s) =
    codes " (" ++ (c ∷ s) ++ (if ltb 5 count then codes ", ..." else []) ++ codes ")"

unfoldable pub secret_scan_gate : Readers → Calls → ℕ → ℕ → Deployment → Run (Unit {0})
unfolding run_twice has_run stream require record_scan parse_gitleaks say str str_int kinds_text
    identifiers join
secret_scan_gate readers calls job_id scan_id d = do
  result ← run_twice job_id "gitleaks" has_run (stream job_id) calls.run_gitleaks
  require (has_run result) d.id none (
      codes "Checkout could not be scanned for secrets, so it was not deployed. "
      ++ exited "gitleaks" result
      ++ codes ": "
      ++ take_last 400 result.stdout)
  leaks ← settle (readers.read_leaks (report_text result.report))
  let parsed = parse_gitleaks leaks
  let count = total parsed.summary
  record_scan scan_id d "gitleaks" calls.cloned parsed
  require (count == 0) d.id none (
      codes "Deploy blocked: gitleaks found "
      ++ str count
      ++ codes " committed secret(s)"
      ++ kinds_text count (join (identifiers (take 5 parsed.findings)))
      ++ codes ". Remove them from git history, rotate them, and deploy again.")
  say job_id (codes "gitleaks: no committed secrets found")

-- `_find_requirements`: the first candidate that exists.
unfoldable pub find_requirements : (Text → Bool) → Text → Option Text
unfolding find
find_requirements exists repo = find exists (
    (repo ++ codes "/requirements.txt")
    ∷ (repo ++ codes "/app/requirements.txt")
    ∷ (repo ++ codes "/requirements/base.txt")
    ∷ [])

unfoldable pub audit_gate : Readers → Calls → ℕ → ℕ → Deployment → Text → Run (Unit {0})
unfolding run_twice has_run stream require record_scan parse_pip_audit say str str_int
audit_gate readers calls job_id scan_id d requirements = do
  result ← run_twice job_id "pip-audit" has_run (stream job_id) calls.run_pip_audit
  require (has_run result) d.id none (
      codes "Dependencies could not be scanned, so the image was not built. "
      ++ exited "pip-audit" result
      ++ codes ": "
      ++ take_last 400 result.stdout)
  dependencies ← settle (readers.read_audit result.stdout)
  let parsed = parse_pip_audit readers.cvss3_base_score dependencies
  let gate = total parsed.summary
  say job_id (counts "pip-audit" parsed.summary)
  record_scan scan_id d "pip_audit" requirements parsed
  require (gate == 0) d.id none (
      codes "Deploy blocked: pip-audit found "
      ++ str gate
      ++ codes " known-vulnerable pinned dependencies. Rotate to a fixed version and deploy again.")

-- Without a requirements.txt the gate is passed over.
unfoldable pub audit_found : Readers → Calls → ℕ → ℕ → Deployment → Option Text → Run (Unit {0})
unfolding audit_gate say
audit_found readers calls job_id scan_id d none =
    say job_id (codes "pip-audit: no requirements.txt found — skipping dependency scan")
audit_found readers calls job_id scan_id d (some requirements) =
    audit_gate readers calls job_id scan_id d requirements

unfoldable pub dependency_scan_gate : Readers → Calls → ℕ → ℕ → Deployment → Run (Unit {0})
unfolding audit_found find_requirements
dependency_scan_gate readers calls job_id scan_id d =
    audit_found readers calls job_id scan_id d (find_requirements calls.exists calls.cloned)

-- `not (trivy.timed_out or trivy.exit_code != 0)`
unfoldable pub exits_well : ScanRun → Bool
exits_well result = not result.timed_out && is_zero result.exit_code

unfoldable pub gate_report : ℕ → ℕ → Deployment → Text → Text → TrivyDocument → Run (Unit {0})
unfolding block require record_scan parse_trivy say str
gate_report job_id scan_id d scan_ref image_ref no_report = block d.id (some image_ref) (
    codes "Image could not be scanned, so it was not deployed: "
    ++ codes "Trivy produced no readable report.")
gate_report job_id scan_id d scan_ref image_ref (malformed e) = raise e
gate_report job_id scan_id d scan_ref image_ref (report_of results) = do
  let parsed = parse_trivy (some results)
  say job_id (counts "trivy" parsed.summary)
  record_scan scan_id d "trivy" scan_ref parsed
  require (not (ltb 0 (parsed.summary.critical + parsed.summary.high))) d.id (some image_ref) (
      codes "Image blocked: "
      ++ str parsed.summary.critical
      ++ codes " critical, "
      ++ str parsed.summary.high
      ++ codes " high. Gate on CRITICAL/HIGH.")

unfoldable pub image_gate : Readers → Calls → ℕ → ℕ → Deployment → Text → Text → Run (Unit {0})
unfolding run_twice exits_well ask require gate_report str_int
image_gate readers calls job_id scan_id d scan_ref image_ref = do
  result ← run_twice job_id "trivy" exits_well ask calls.run_trivy
  require (exits_well result) d.id (some image_ref) (
      codes "Image could not be scanned, so it was not deployed. Trivy exited "
      ++ str_int result.exit_code
      ++ codes ": "
      ++ take_last 400 result.stdout)
  gate_report job_id scan_id d scan_ref image_ref (readers.read_trivy result.stdout)
