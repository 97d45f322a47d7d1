-- ===== src/Tasks/ScanEnds.antt =====
-- How `scan_task` ends.
use mathlib.Core.Option
use stage.Prelude.{
  ℕ, String, List, Option, none, some, Bool, true, false, not, ◌||◌, ◌+◌, ◌≡◌, refl, sym, subst,
  ◌⊎◌, inl, inr, str_eq, Text, by_key, by_key-update_map,
}
use stage.Models.{Project, Deployment, Scan, JobStatus}
use stage.Parsers.{Summary, ParsedFindings}
use stage.Tasks.World.{World, returned, Run, ◌>>=◌, get, ask}
use stage.Tasks.Calls.{log_line, say}
use stage.Tasks.Clone.{Purge, purge_path, require_purged, clone_repo}
use stage.Tasks.Scan.{
  ScanRun, TrivyDocument, no_report, report_of, malformed, report_text, Readers, Calls, put_result,
  set_result, add_findings, scan_row, ran, trivy_findings, require_ran, trivy_scan, gitleaks_scan,
  pip_audit_scan, store, fail_scan, scan_and_store, scan_checkout, scan_by, scan_found, scan_task,
}
use stage.Tasks.Triples.{
  Leads, leads, bind, also, branch, starting, attempt_lem, either_lem, ending, pure_lem, raise_lem,
  modify_lem, settle_lem, lastly_lem, returns,
}
use stage.Tasks.Tidy.{
  IsSafe, IsTidy, IsEnded, IsQueued, log_line-IsTidy, log_line-IsEnded, say_lem, say-IsEnded,
  ask_lem, stream_lem, check_lem, mark-IsEnded, fail_lem, start_lem,
}

abbrev pub OnScan : ℕ → (Option Scan → Type 0) → List Project → List Scan → List Deployment → Type 0
OnScan scan_id T projects scans deployments = T (by_key (λ (s : Scan). s.id) scans scan_id)

abbrev IsThere : Option Scan → Type 0
IsThere none = ⊥
IsThere (some s) = Unit

-- A completed scan has a summary.
abbrev pub IsCompleted : Option Scan → Type 0
IsCompleted none = ⊥
IsCompleted (some s) = (s.status ≡ "completed") × ((summary : Summary) × (s.summary ≡ some summary))

-- A scan that is still there is failed.
abbrev pub IsFailed : Option Scan → Type 0
IsFailed none = Unit
IsFailed (some s) = s.status ≡ "failed"

-- What cleaning up and logging leave true.
pub purge_lem :
    (job_id : ℕ) (purge : Purge) {Q R : World → Type 0}
    → ((line : Text) (w : World) → Q w → Q (log_line job_id line w))
    → ((now : ℕ) (w : World) → Q w → Q (record w { now = now }))
    → Leads Q (purge_path job_id purge) Q R
unfolding purge_path ask say
purge_lem job_id purge {Q = Q} logs waits = branch (not purge.exists) (pure_lem true) (
    branch (not purge.exists_after_rmtree) (pure_lem true) (
      also
        (attempt_lem {R = Q}
          (leads λ w h.
            (settle_lem purge.sandbox.answer (λ w h. h)).from
              (record w { now = w.now + purge.sandbox.took }) (waits _ w h))
          (λ e. pure_lem tt))
        (branch purge.exists_at_end (also (modify_lem _ (logs _)) (pure_lem false))
          (pure_lem true))))

module _ (readers : Readers) (calls : Calls) (job_id scan_id : ℕ) (tool : String)
    (target : Text) where
  abbrev Scans : (Option Scan → Type 0) → List Project → List Scan → List Deployment → Type 0
  Scans = OnScan scan_id

  abbrev Before : World → Type 0
  Before = IsTidy job_id 0 (Scans IsThere)

  abbrev Raises : World → Type 0
  Raises = IsSafe job_id (Scans IsThere)

  -- The job succeeded with a completed scan, or it failed with the scan failed or gone.
  abbrev pub IsScanned : World → Type 0
  IsScanned w =
      IsEnded job_id JobStatus.succeeded (Scans IsCompleted) w
      ⊎ IsEnded job_id JobStatus.failed (Scans IsFailed) w

  abbrev Ends : Run (Unit {0}) → Type 0
  Ends m = Leads Before m IsScanned (λ _. ⊥)

  set_result_lem :
      {T : Option Scan → Type 0} (U : Option Scan → Type 0) (status : String)
      (summary : Option Summary) (w : World)
      → ((s : Option Scan) → T s → U (Option.map (put_result status summary) s))
      → IsSafe job_id (Scans T) w
      → IsSafe job_id (Scans U) (set_result scan_id status summary w)
  unfolding set_result
  set_result_lem U status summary w to (job, known, there, single) = (
    job,
    known,
    subst U
        (sym (
          by_key-update_map (λ (s : Scan). s.id) scan_id (put_result status summary)
            (unfold put_result in λ s. refl) w.db.scans))
        (to (scan_row scan_id w) there),
    single,
  )

  IsCompleted-of :
      (summary : Summary) (s : Option Scan)
      → IsThere s
      → IsCompleted (Option.map (put_result "completed" (some summary)) s)
  unfolding put_result
  IsCompleted-of summary none h = absurd h
  IsCompleted-of summary (some s) h = (refl, (summary, refl))

  IsFailed-of : (s : Option Scan) → IsFailed (Option.map (put_result "failed" none) s)
  unfolding put_result
  IsFailed-of none = tt
  IsFailed-of (some s) = refl

  IsThere-of : (s : Option Scan) → IsThere s → IsThere (Option.map (put_result "running" none) s)
  IsThere-of none h = absurd h
  IsThere-of (some s) h = tt

  store_lem :
      (parsed : ParsedFindings)
      → Leads Before (store readers job_id scan_id tool parsed) IsScanned Raises
  unfolding store
  store_lem parsed =
      ending (λ w h. inl h)
        (also {Q = IsSafe job_id (Scans IsCompleted)}
          (modify_lem _ λ w h.
            set_result_lem IsCompleted "completed" (some parsed.summary) w
              (λ s t. IsCompleted-of parsed.summary s t) h.0)
          (also (modify_lem _ (unfold add_findings in λ w h. h)) (
            also (mark-IsEnded job_id _ JobStatus.succeeded none)
              (say-IsEnded job_id _ JobStatus.succeeded _))))

  fail_scan_lem : (e : Text) → Leads Raises (fail_scan job_id scan_id e) IsScanned (λ _. ⊥)
  unfolding fail_scan
  fail_scan_lem e =
      ending (λ w h. inr h)
        (also
          (modify_lem _
            λ w h. set_result_lem {T = IsThere} IsFailed "failed" none w (λ s _. IsFailed-of s) h)
          (fail_lem job_id (Scans IsFailed) e))

  read_lem :
      (result : ScanRun) (d : TrivyDocument)
      → Leads Before (trivy_findings target result d) Before Raises
  unfolding trivy_findings
  read_lem result no_report = raise_lem _ λ w h. h.0
  read_lem result (report_of results) = pure_lem _
  read_lem result (malformed e) = raise_lem _ λ w h. h.0

  trivy_lem : Leads Before (trivy_scan readers calls job_id target) Before Raises
  unfolding trivy_scan
  trivy_lem =
      bind (stream_lem job_id _ 0 calls.run_trivy)
        λ result. read_lem result (readers.read_trivy result.stdout)

  ran_lem :
      (name : String) (result : ScanRun)
      → Leads Before (require_ran name target result) Before Raises
  unfolding require_ran
  ran_lem name result =
      branch (result.timed_out || not (ran result.exit_code)) (raise_lem _ λ w h. h.0) (pure_lem tt)

  gitleaks_lem : Leads Before (gitleaks_scan readers calls job_id target) Before Raises
  unfolding gitleaks_scan
  gitleaks_lem = bind (stream_lem job_id _ 0 calls.run_gitleaks) λ result.
      also (ran_lem "gitleaks" result) (
        bind (settle_lem (readers.read_leaks (report_text result.report)) (λ w h. h.0))
          λ leaks. pure_lem _)

  pip_audit_lem : Leads Before (pip_audit_scan readers calls job_id target) Before Raises
  unfolding pip_audit_scan
  pip_audit_lem = also (ask_lem job_id _ 0 calls.find_requirements) (
      bind (stream_lem job_id _ 0 calls.run_pip_audit) λ result. also (ran_lem "pip-audit" result) (
        bind (settle_lem (readers.read_audit result.stdout) (λ w h. h.0))
          λ dependencies. pure_lem _))

  stored_lem :
      (scan : Run ParsedFindings)
      → Leads Before scan Before Raises
      → Ends (scan_and_store readers job_id scan_id tool scan)
  unfolding scan_and_store
  stored_lem scan l = attempt_lem (bind l store_lem) fail_scan_lem

  IsScanned-log : (line : Text) (w : World) → IsScanned w → IsScanned (log_line job_id line w)
  IsScanned-log line w (inl h) =
      inl (log_line-IsEnded job_id (Scans IsCompleted) JobStatus.succeeded line w h)
  IsScanned-log line w (inr h) =
      inr (log_line-IsEnded job_id (Scans IsFailed) JobStatus.failed line w h)

  purged_lem : (purged : Bool) → Leads Before (require_purged purged) Before Raises
  unfolding require_purged
  purged_lem true = pure_lem tt
  purged_lem false = raise_lem _ λ w h. h.0

  clone_lem :
      (branch_name : Text) → Leads Before (clone_repo calls.clone job_id branch_name) Before Raises
  unfolding clone_repo
  clone_lem branch_name = also (settle_lem calls.clone.validate_url (λ w h. h.0)) (
      also (branch calls.clone.has_credential (say_lem job_id _ 0 _) (pure_lem tt)) (
        also (say_lem job_id _ 0 _) (
          bind (stream_lem job_id _ 0 calls.clone.git) λ result.
            also (check_lem job_id _ 0 result (calls.clone.hint result)) (
              bind
                (purge_lem job_id calls.clone.purge_git (log_line-IsTidy job_id (Scans IsThere) 0)
                  (λ now w h. h))
                purged_lem))))

  checkout_lem :
      (scan : Run ParsedFindings)
      → Leads Before scan Before Raises
      → Ends (scan_checkout readers calls job_id scan_id tool scan)
  unfolding scan_checkout
  checkout_lem scan l =
      either_lem (clone_lem _)
        (λ _. lastly_lem (stored_lem scan l) (
          bind (purge_lem job_id calls.clone.purge_root IsScanned-log (λ now w h. h))
            λ _. pure_lem tt))
        fail_scan_lem

  by_lem : Ends (scan_by readers calls job_id scan_id tool target)
  unfolding scan_by
  by_lem =
      branch (str_eq tool "trivy") (stored_lem _ trivy_lem) (
        branch (str_eq tool "gitleaks") (checkout_lem _ gitleaks_lem)
          (checkout_lem _ pip_audit_lem))

  found_lem :
      (row : Option Scan)
      → Leads
          (IsTidy job_id 0 (Scans (λ s. s ≡ row)))
          (scan_found readers calls job_id scan_id tool target row)
          IsScanned
          (λ _. ⊥)
  unfolding scan_found
  found_lem none =
      ending {Q = IsEnded job_id JobStatus.failed (Scans (λ s. s ≡ none))}
        (λ w (job, known, is, gone, closed).
          inr (job, known, is, subst IsFailed (sym gone) tt, closed))
        (starting (λ w h. h.0) (mark-IsEnded job_id _ JobStatus.failed _))
  found_lem (some scan) =
      also
        (modify_lem _ λ w h. (
          set_result_lem {T = λ s. s ≡ some scan} IsThere "running" none w
              (λ s e. IsThere-of s (subst IsThere {x = some scan} (sym e) tt)) h.0,
          unfold set_result in h.1,
        ))
        by_lem

  guarded_lem :
      Leads
        (IsTidy job_id 0 (Scans (λ s. Unit)))
        (get >>= λ w. scan_found readers calls job_id scan_id tool target (scan_row scan_id w))
        IsScanned
        (λ _. ⊥)
  unfolding ◌>>=◌ get
  guarded_lem = leads λ w ((job, known, _, single), unused).
      (found_lem (scan_row scan_id w)).from w ((job, known, refl, single), unused)

  -- Whatever the scanners, the clone and the clean-up return or raise, `scan_task` of a job that is there, is
  -- not cancelled and has no steps, if Celery does not stop it at a time limit, returns without an
  -- exception, for every tool: either the job is
  -- succeeded and the scan completed with a summary, or the job is failed and the scan, if its row
  -- is there, failed. No scan is left running.
  pub scan_task_ends :
      (w : World)
      → IsQueued job_id w
      → (w' : World) × (scan_task readers calls job_id scan_id tool target w ≡ returned tt w')
        × IsScanned w'
  unfolding scan_task ◌>>=◌
  scan_task_ends w queued =
      let (w0, started, tidy) = start_lem job_id (Scans (λ s. Unit)) w queued tt in
      rw started (
        returns
          (get >>= λ w. scan_found readers calls job_id scan_id tool target (scan_row scan_id w)) w0
          (guarded_lem.from w0 tidy))
