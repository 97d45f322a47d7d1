-- ===== src/Parsers/Counts.antt =====
-- The summary of a report counts its findings, severity by severity.
use stage.Prelude.{
  ℕ, ◌+◌, List, [], ◌∷◌, Option, none, some, Bool, true, false, select, if◌then◌else◌, ◌≡◌, refl,
  arith, inl, inr, Bool-cases, Text, length,
}
use stage.Prelude.{select-snoc, length-append}
use stage.Parsers.{
  Severity, critical, high, medium, low, unknown, Summary, bump, Finding, ParsedFindings,
  no_findings, add, Leak, leak_finding, add_leaks, parse_gitleaks, TrivyVuln, TrivyResult,
  trivy_finding, add_vulns, add_results, parse_trivy, Vuln, Dependency, Key, is_seen, shown,
  audit_finding, audit_vulns, audit_dependencies, parse_pip_audit,
}

-- `summary[severity]`
abbrev pub at : Severity → Summary → ℕ
at critical s = s.critical
at high s = s.high
at medium s = s.medium
at low s = s.low
at unknown s = s.unknown

abbrev same : Severity → Severity → Bool
same critical critical = true
same high high = true
same medium medium = true
same low low = true
same unknown unknown = true
same _ _ = false

-- How many findings have a severity.
abbrev pub count : Severity → List Finding → ℕ
count s findings = length (select (λ (f : Finding). same s f.severity) findings)

abbrev pub IsCounted : ParsedFindings → Type 0
IsCounted p = (s : Severity) → at s p.summary ≡ count s p.findings

IsCounted-none : IsCounted no_findings
unfolding select
IsCounted-none critical = refl
IsCounted-none _ = refl

at-bump : (s t : Severity) (m : Summary) → at s (bump m t) ≡ at s m + (if same s t then 1 else 0)
unfolding bump
at-bump critical critical m = refl
at-bump critical t m = ground arith
at-bump high t m = ground arith
at-bump medium t m = ground arith
at-bump low t m = ground arith
at-bump unknown t m = ground arith

IsCounted-add : (p : ParsedFindings) (f : Finding) → IsCounted p → IsCounted (add p f)
unfolding add select
IsCounted-add p f h s = ground (
  arith,
  h s,
  at-bump s f.severity p.summary,
  select-snoc (λ (g : Finding). same s g.severity) p.findings f,
  length-append (select (λ (g : Finding). same s g.severity) p.findings)
      (select (λ (g : Finding). same s g.severity) (f ∷ [])),
)

add_leaks-IsCounted :
    (p : ParsedFindings) (leaks : List Leak) → IsCounted p → IsCounted (add_leaks p leaks)
unfolding add_leaks
add_leaks-IsCounted p [] h = h
add_leaks-IsCounted p (leak ∷ leaks) h =
    add_leaks-IsCounted (add p (leak_finding leak)) leaks (IsCounted-add p (leak_finding leak) h)

add_vulns-IsCounted :
    (p : ParsedFindings) (target : Option Text) (vulns : List TrivyVuln)
    → IsCounted p
    → IsCounted (add_vulns p target vulns)
unfolding add_vulns
add_vulns-IsCounted p target [] h = h
add_vulns-IsCounted p target (vuln ∷ vulns) h =
    add_vulns-IsCounted (add p (trivy_finding target vuln)) target vulns
      (IsCounted-add p (trivy_finding target vuln) h)

add_results-IsCounted :
    (p : ParsedFindings) (results : List TrivyResult)
    → IsCounted p
    → IsCounted (add_results p results)
unfolding add_results
add_results-IsCounted p [] h = h
add_results-IsCounted p (r ∷ results) h =
    add_results-IsCounted (add_vulns p r.target r.vulnerabilities) results
      (add_vulns-IsCounted p r.target r.vulnerabilities h)

-- Each finding counts under one severity.
pub total-counts :
    (fs : List Finding)
    → count critical fs + count high fs + count medium fs + count low fs + count unknown fs
      ≡ length fs
unfolding select
total-counts [] = refl
total-counts (f ∷ fs) = ground (arith, total-counts fs)

module _ (cvss3_base_score : Text → ℕ) where
  audit_vulns-IsCounted :
      (dep : Dependency) (vulns : List Vuln) (p : ParsedFindings) (seen : List Key)
      → IsCounted p
      → IsCounted (audit_vulns cvss3_base_score dep vulns p seen).0
  unfolding audit_vulns
  audit_vulns-IsCounted dep [] p seen h = h
  audit_vulns-IsCounted dep (vuln ∷ vulns) p seen h =
      let key : Key = (shown dep.name, shown vuln.id) in
      let f = audit_finding cvss3_base_score dep vuln in
      elim (Bool-cases (is_seen key seen)) [
        | inl old ↦ rw old (audit_vulns-IsCounted dep vulns p seen h)
        | inr new ↦
            rw new (audit_vulns-IsCounted dep vulns (add p f) (key ∷ seen) (IsCounted-add p f h))
      ]

  audit_dependencies-IsCounted :
      (deps : List Dependency) (p : ParsedFindings) (seen : List Key)
      → IsCounted p
      → IsCounted (audit_dependencies cvss3_base_score deps p seen).0
  unfolding audit_dependencies
  audit_dependencies-IsCounted [] p seen h = h
  audit_dependencies-IsCounted (dep ∷ deps) p seen h =
      audit_dependencies-IsCounted deps (audit_vulns cvss3_base_score dep dep.vulns p seen).0
        (audit_vulns cvss3_base_score dep dep.vulns p seen).1
        (audit_vulns-IsCounted dep dep.vulns p seen h)

  -- For each severity, every parser's summary holds the number of its findings of that severity, whatever
  -- the report, and also where there is none.
  pub parsed-IsCounted :
      (leaks : Option (List Leak)) (results : Option (List TrivyResult))
      (deps : Option (List Dependency))
      → IsCounted (parse_gitleaks leaks)
        × IsCounted (parse_trivy results)
        × IsCounted (parse_pip_audit cvss3_base_score deps)
  unfolding parse_gitleaks parse_trivy parse_pip_audit
  parsed-IsCounted leaks results deps = (gitleaks leaks, trivy results, audit deps)
    where
      gitleaks : (o : Option (List Leak)) → IsCounted (parse_gitleaks o)
      gitleaks none = IsCounted-none
      gitleaks (some l) = add_leaks-IsCounted no_findings l IsCounted-none

      trivy : (o : Option (List TrivyResult)) → IsCounted (parse_trivy o)
      trivy none = IsCounted-none
      trivy (some l) = add_results-IsCounted no_findings l IsCounted-none

      audit : (o : Option (List Dependency)) → IsCounted (parse_pip_audit cvss3_base_score o)
      audit none = IsCounted-none
      audit (some l) = audit_dependencies-IsCounted l no_findings [] IsCounted-none
