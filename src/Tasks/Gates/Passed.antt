-- ===== src/Tasks/Gates/Passed.antt =====
-- What the gates of a deploy leave behind where they let it through.
use stage.Prelude.{
  ℕ, List, [], ◌∷◌, Option, none, some, true, false, not, ok, ◌==◌, ltb, ◌≡◌, refl, ◌⊎◌, inl, inr,
  arith, Text, length, pos, ==_iff,
}
use stage.Models.{Deployment}
use stage.Parsers.{
  Leak, Dependency, critical, high, ParsedFindings, parse_gitleaks, parse_trivy, parse_pip_audit,
}
use stage.Parsers.Counts.{count, total-counts, IsCounted, parsed-IsCounted}
use stage.Tasks.Scan.{ScanRun, TrivyDocument, no_report, report_of, malformed, Readers, report_text}
use stage.Tasks.Gates.{
  Calls, has_run, total, secret_scan_gate, find_requirements, audit_gate, audit_found,
  dependency_scan_gate, exits_well, gate_report, image_gate,
}
use stage.Tasks.Gates.Kept.{
  Came, During, Raises, block_lem, require_lem, record_lem, stream_value, ask_value, twice_lem,
}
use stage.Tasks.Triples.{Leads, also, ending, raise_lem}
use stage.Tasks.Yields.{bind_value, given, settle_value}
use stage.Tasks.Tidy.{say_lem}

-- gitleaks came to its end, and its report, as it was read, has no leak.
abbrev pub SecretsPassed : Readers → Calls → Type 0
SecretsPassed readers calls =
    (r : ScanRun) × Came has_run calls.run_gitleaks r
    × (r.timed_out ≡ false)
    × ((r.exit_code ≡ pos 0) ⊎ (r.exit_code ≡ pos 1))
    × ((leaks : Option (List Leak)) × (readers.read_leaks (report_text r.report) ≡ ok leaks)
        × ((parse_gitleaks leaks).findings ≡ []))

-- There are no requirements, or pip-audit came to its end and its report, as it was read, has no finding.
abbrev pub DependenciesPassed : Readers → Calls → Type 0
DependenciesPassed readers calls =
    (find_requirements calls.exists calls.cloned ≡ none)
    ⊎ ((r : ScanRun) × Came has_run calls.run_pip_audit r
        × (r.timed_out ≡ false)
        × ((r.exit_code ≡ pos 0) ⊎ (r.exit_code ≡ pos 1))
        × ((deps : Option (List Dependency)) × (readers.read_audit r.stdout ≡ ok deps)
            × ((parse_pip_audit readers.cvss3_base_score deps).findings ≡ [])))

-- Trivy succeeded with a report, in which no finding is critical or high.
abbrev pub ImagePassed : Readers → Calls → Type 0
ImagePassed readers calls =
    (r : ScanRun) × Came exits_well calls.run_trivy r
    × (r.timed_out ≡ false)
    × (r.exit_code ≡ pos 0)
    × ((results : List stage.Parsers.TrivyResult) × (readers.read_trivy r.stdout
          ≡ report_of results)
        × (count critical (parse_trivy (some results)).findings ≡ 0)
        × (count high (parse_trivy (some results)).findings ≡ 0))

has_run_lem :
    (r : ScanRun)
    → has_run r ≡ true
    → (r.timed_out ≡ false) × ((r.exit_code ≡ pos 0) ⊎ (r.exit_code ≡ pos 1))
unfolding has_run
has_run_lem r h = ground arith

exits_well_lem : (r : ScanRun) → exits_well r ≡ true → (r.timed_out ≡ false) × (r.exit_code ≡ pos 0)
unfolding exits_well
exits_well_lem r h = ground arith

nil_of_length {ℓ} : {A : Type ℓ} (xs : List A) → length xs ≡ 0 → xs ≡ []
nil_of_length [] h = refl
nil_of_length (x ∷ xs) h = absurd (omega arith)

no_findings_of :
    (p : ParsedFindings) → IsCounted p → (total p.summary == 0) ≡ true → p.findings ≡ []
no_findings_of p counted h = nil_of_length p.findings (
    omega (
      arith,
      total-counts p.findings,
      counted critical,
      counted high,
      counted stage.Parsers.medium,
      counted stage.Parsers.low,
      counted stage.Parsers.unknown,
      (==_iff (total p.summary) 0).0 h,
    ))

module _ (readers : Readers) (calls : Calls) (job_id scan_id : ℕ) (d : Deployment) where
  pub secrets_lem :
      (last : ℕ)
      → Leads
          (During job_id d.id last)
          (secret_scan_gate readers calls job_id scan_id d)
          (λ w. During job_id d.id last w × SecretsPassed readers calls)
          (Raises job_id d.id)
  unfolding secret_scan_gate
  secrets_lem last =
      bind_value
        (twice_lem job_id d.id last "gitleaks" has_run _ calls.run_gitleaks
          (stream_value job_id d.id last))
        λ r. given λ came. also (require_lem job_id d.id last (has_run r) none _) (
          given λ good.
            bind_value (settle_value (readers.read_leaks (report_text r.report)) (λ w h. h.0))
              λ leaks. given λ was_read.
                also (record_lem job_id d.id last scan_id d "gitleaks" calls.cloned _) (
                  also (require_lem job_id d.id last _ none _) (
                    given λ none_found.
                      ending
                        (λ w h. (
                          h,
                          (
                            r,
                            came,
                            (has_run_lem r good).0,
                            (has_run_lem r good).1,
                            (leaks, was_read, no_findings_of _ (leaks_counted leaks) none_found),
                          ),
                        ))
                        (say_lem job_id _ last _))))
    where
      leaks_counted : (leaks : Option (List Leak)) → IsCounted (parse_gitleaks leaks)
      leaks_counted leaks = (parsed-IsCounted readers.cvss3_base_score leaks none none).0

  audit_lem :
      (last : ℕ) (requirements : Text)
      → Leads
          (During job_id d.id last)
          (audit_gate readers calls job_id scan_id d requirements)
          (λ w. During job_id d.id last w × DependenciesPassed readers calls)
          (Raises job_id d.id)
  unfolding audit_gate
  audit_lem last requirements =
      bind_value
        (twice_lem job_id d.id last "pip-audit" has_run _ calls.run_pip_audit
          (stream_value job_id d.id last))
        λ r. given λ came. also (require_lem job_id d.id last (has_run r) none _) (
          given λ good. bind_value (settle_value (readers.read_audit r.stdout) (λ w h. h.0)) λ deps.
            given λ was_read. also (say_lem job_id _ last _) (
              also (record_lem job_id d.id last scan_id d "pip_audit" requirements _) (
                ending
                  (λ w (h, none_found). (
                    h,
                    inr (
                      r,
                      came,
                      (has_run_lem r good).0,
                      (has_run_lem r good).1,
                      (deps, was_read, no_findings_of _ (audit_counted deps) none_found),
                    ),
                  ))
                  (require_lem job_id d.id last _ none _))))
    where
      audit_counted :
          (deps : Option (List Dependency))
          → IsCounted (parse_pip_audit readers.cvss3_base_score deps)
      audit_counted deps = (parsed-IsCounted readers.cvss3_base_score none none deps).2

  found_lem :
      (last : ℕ) (o : Option Text)
      → find_requirements calls.exists calls.cloned ≡ o
      → Leads
          (During job_id d.id last)
          (audit_found readers calls job_id scan_id d o)
          (λ w. During job_id d.id last w × DependenciesPassed readers calls)
          (Raises job_id d.id)
  unfolding audit_found
  found_lem last none e = ending (λ w h. (h, inl e)) (say_lem job_id _ last _)
  found_lem last (some requirements) e = audit_lem last requirements

  pub dependencies_lem :
      (last : ℕ)
      → Leads
          (During job_id d.id last)
          (dependency_scan_gate readers calls job_id scan_id d)
          (λ w. During job_id d.id last w × DependenciesPassed readers calls)
          (Raises job_id d.id)
  unfolding dependency_scan_gate
  dependencies_lem last = found_lem last _ refl

  report_lem :
      (last : ℕ) (scan_ref image_ref : Text) (r : ScanRun)
      → Came exits_well calls.run_trivy r
      → exits_well r ≡ true
      → (document : TrivyDocument) → readers.read_trivy r.stdout ≡ document
      → Leads
          (During job_id d.id last)
          (gate_report job_id scan_id d scan_ref image_ref document)
          (λ w. During job_id d.id last w × ImagePassed readers calls)
          (Raises job_id d.id)
  unfolding gate_report
  report_lem last scan_ref image_ref r came good no_report e =
      block_lem job_id d.id last (some image_ref) _
  report_lem last scan_ref image_ref r came good (malformed f) e = raise_lem f λ w h. h.0
  report_lem last scan_ref image_ref r came good (report_of results) e =
      also (say_lem job_id _ last _) (
        also (record_lem job_id d.id last scan_id d "trivy" scan_ref _) (
          ending
            (λ w (h, safe). (
              h,
              (
                r,
                came,
                (exits_well_lem r good).0,
                (exits_well_lem r good).1,
                (
                  results,
                  e,
                  omega (arith, counted critical, not_above _ safe),
                  omega (arith, counted high, not_above _ safe),
                ),
              ),
            ))
            (require_lem job_id d.id last _ (some image_ref) _)))
    where
      counted : IsCounted (parse_trivy (some results))
      counted = (parsed-IsCounted readers.cvss3_base_score none (some results) none).1

      not_above : (n : ℕ) → not (ltb 0 n) ≡ true → n ≡ 0
      not_above n h = ground arith

  pub image_lem :
      (last : ℕ) (scan_ref image_ref : Text)
      → Leads
          (During job_id d.id last)
          (image_gate readers calls job_id scan_id d scan_ref image_ref)
          (λ w. During job_id d.id last w × ImagePassed readers calls)
          (Raises job_id d.id)
  unfolding image_gate
  image_lem last scan_ref image_ref =
      bind_value
        (twice_lem job_id d.id last "trivy" exits_well _ calls.run_trivy
          (ask_value job_id d.id last))
        λ r. given λ came.
          also (require_lem job_id d.id last (exits_well r) (some image_ref) _)
            (given λ good. report_lem last scan_ref image_ref r came good _ refl)
