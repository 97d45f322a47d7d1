-- ===== src/Tasks/Scan.antt =====
-- `scan_task` of workers/tasks.py, with `set_result` and `add_findings` of repositories/jobs.py.
use stage.Prelude.{
  ℕ, String, List, ◌++◌, Option, none, some, Result, Bool, false, not, ◌||◌, ◌==◌, str_eq,
  if◌then◌else◌, map, update_where, by_key, Text, codes, str, ℤ, pos, negsuc, str_int,
}
use stage.Models.{Scan, JobStatus}
use stage.Parsers.{
  Summary, Finding, ParsedFindings, Leak, parse_gitleaks, TrivyResult, parse_trivy, Dependency,
  parse_pip_audit,
}
use stage.Workers.Log.{take_last}
use stage.Tasks.World.{
  World, Run, pure, raise, ◌>>=◌, ◌>>◌, attempt, either, lastly, get, modify, Reply, ask, settle,
}
use stage.Tasks.Calls.{say, stream, mark, fail, start}
use stage.Tasks.Clone.{purge_path, Clone, clone_repo}

-- A scanner's run: `report` is the text of the artifact, if there is one.
pub record ScanRun : Type 0 where
  pub exit_code : ℤ
  pub stdout : Text
  pub timed_out : Bool
  pub report : Option Text

-- What `json.loads` makes of Trivy's output: no object with a key `Results`, or its results, or an object
-- with that key on which the parser raises.
pub data TrivyDocument : Type 0 where
  no_report : TrivyDocument
  report_of : List TrivyResult → TrivyDocument
  malformed : Text → TrivyDocument

-- The readers of the reports, with the exceptions of the parsers, and how a summary is printed.
pub record Readers : Type 0 where
  pub read_trivy : Text → TrivyDocument
  pub read_leaks : Text → Result Text (Option (List Leak))
  pub read_audit : Text → Result Text (Option (List Dependency))
  pub cvss3_base_score : Text → ℕ
  pub dumps : Summary → Text

pub record Calls : Type 0 where
  pub run_trivy : Reply ScanRun
  pub clone : Clone
  pub run_gitleaks : Reply ScanRun
  pub find_requirements : Reply (Unit {0})
  pub run_pip_audit : Reply ScanRun

-- A summary that is not given leaves the old one.
abbrev or_old : Option Summary → Option Summary → Option Summary
or_old none old = old
or_old (some summary) old = some summary

unfoldable pub put_result : String → Option Summary → Scan → Scan
put_result status summary s = record s { status = status; summary = or_old summary s.summary }

unfoldable pub set_result : ℕ → String → Option Summary → World → World
unfolding put_result
set_result scan_id status summary w = record w {
  db = record w.db {
    scans = update_where (λ (s : Scan). s.id == scan_id) (put_result status summary) w.db.scans;
  };
}

unfoldable pub add_findings : ℕ → List Finding → World → World
add_findings scan_id found w = record w { findings = w.findings ++ map (λ f. (scan_id, f)) found }

abbrev pub scan_row : ℕ → World → Option Scan
scan_row scan_id w = by_key (λ (s : Scan). s.id) w.db.scans scan_id

-- `exit_code not in (0, 1)`
abbrev pub ran : ℤ → Bool
ran (pos n) = n == 0 || n == 1
ran (negsuc n) = false

abbrev pub could_not_scan : String → Text → ScanRun → Text
could_not_scan tool target result =
    codes tool
    ++ codes " could not scan "
    ++ target
    ++ codes ". Exit "
    ++ str_int result.exit_code
    ++ codes ": "
    ++ take_last 400 result.stdout

-- The results of a usable report, `_is_usable_trivy_report`.
unfoldable pub trivy_findings : Text → ScanRun → TrivyDocument → Run ParsedFindings
unfolding str_int parse_trivy
trivy_findings target result no_report = raise (could_not_scan "Trivy" target result)
trivy_findings target result (report_of results) = pure (parse_trivy (some results))
trivy_findings target result (malformed e) = raise e

unfoldable pub require_ran : String → Text → ScanRun → Run (Unit {0})
unfolding str_int
require_ran tool target result =
    if result.timed_out || not (ran result.exit_code)
    then raise (could_not_scan tool target result)
    else pure tt

-- The report's text, or that of an empty list.
abbrev pub report_text : Option Text → Text
report_text none = codes "[]"
report_text (some text) = text

unfoldable pub trivy_scan : Readers → Calls → ℕ → Text → Run ParsedFindings
unfolding stream trivy_findings
trivy_scan readers calls job_id target = stream job_id calls.run_trivy >>= λ result.
    trivy_findings target result (readers.read_trivy result.stdout)

unfoldable pub gitleaks_scan : Readers → Calls → ℕ → Text → Run ParsedFindings
unfolding stream require_ran parse_gitleaks
gitleaks_scan readers calls job_id target = do
  result ← stream job_id calls.run_gitleaks
  require_ran "gitleaks" target result
  leaks ← settle (readers.read_leaks (report_text result.report))
  pure (parse_gitleaks leaks)

unfoldable pub pip_audit_scan : Readers → Calls → ℕ → Text → Run ParsedFindings
unfolding stream ask require_ran parse_pip_audit
pip_audit_scan readers calls job_id target = do
  ask calls.find_requirements
  result ← stream job_id calls.run_pip_audit
  require_ran "pip-audit" target result
  dependencies ← settle (readers.read_audit result.stdout)
  pure (parse_pip_audit readers.cvss3_base_score dependencies)

-- Behind the scanner: the result, the findings, the job.
unfoldable pub store : Readers → ℕ → ℕ → String → ParsedFindings → Run (Unit {0})
unfolding set_result add_findings mark say
store readers job_id scan_id tool parsed = do
  modify (set_result scan_id "completed" (some parsed.summary))
  modify (add_findings scan_id parsed.findings)
  mark job_id JobStatus.succeeded none
  say job_id (codes tool ++ codes " scan complete: " ++ readers.dumps parsed.summary)

unfoldable pub fail_scan : ℕ → ℕ → Text → Run (Unit {0})
unfolding set_result fail
fail_scan job_id scan_id e = do modify (set_result scan_id "failed" none); fail job_id e

unfoldable pub scan_and_store : Readers → ℕ → ℕ → String → Run ParsedFindings → Run (Unit {0})
unfolding attempt store fail_scan
scan_and_store readers job_id scan_id tool scan =
    attempt (scan >>= λ parsed. store readers job_id scan_id tool parsed) (fail_scan job_id scan_id)

-- The scanners that read a checkout: `cloned` is set once the clone has returned, and then the
-- checkout is removed whatever happens.
unfoldable pub scan_checkout :
    Readers → Calls → ℕ → ℕ → String → Run ParsedFindings → Run (Unit {0})
unfolding either clone_repo fail_scan scan_and_store lastly purge_path
scan_checkout readers calls job_id scan_id tool scan =
    either (clone_repo calls.clone job_id (codes "default branch"))
      (λ _.
        lastly (scan_and_store readers job_id scan_id tool scan)
          (purge_path job_id calls.clone.purge_root >>= λ _. pure tt))
      (fail_scan job_id scan_id)

unfoldable pub scan_by : Readers → Calls → ℕ → ℕ → String → Text → Run (Unit {0})
unfolding scan_checkout scan_and_store trivy_scan gitleaks_scan pip_audit_scan
scan_by readers calls job_id scan_id tool target =
    if str_eq tool "trivy"
    then scan_and_store readers job_id scan_id tool (trivy_scan readers calls job_id target)
    else if str_eq tool "gitleaks"
    then scan_checkout readers calls job_id scan_id tool (gitleaks_scan readers calls job_id target)
    else scan_checkout readers calls job_id scan_id tool
        (pip_audit_scan readers calls job_id target)

unfoldable pub scan_found : Readers → Calls → ℕ → ℕ → String → Text → Option Scan → Run (Unit {0})
unfolding mark set_result scan_by str
scan_found readers calls job_id scan_id tool target none =
    mark job_id JobStatus.failed (some (codes "scan " ++ str scan_id ++ codes " not found"))
scan_found readers calls job_id scan_id tool target (some scan) =
    modify (set_result scan_id "running" none) >> scan_by readers calls job_id scan_id tool target

unfoldable pub scan_task : Readers → Calls → ℕ → ℕ → String → Text → Run (Unit {0})
unfolding start scan_found
scan_task readers calls job_id scan_id tool target = start job_id >>= λ started.
    if started
    then (get >>= λ w. scan_found readers calls job_id scan_id tool target (scan_row scan_id w))
    else pure tt
