-- ===== src/Parsers.antt =====
-- controlplane/parsers: scanner reports to counted findings. `json.loads` and the lookups with `get` give
-- the records below, `none` where the text is no JSON (or no mapping, where the parser asks). They are a
-- parameter, Readers of Tasks/Scan, and raise there on JSON of another shape (null, or a null under
-- `Vulnerabilities`), at which the parser raises before it has given anything back.
pub mod Counts
pub mod Advisories
use stage.Prelude.{
  ℕ, ◌+◌, List, [], ◌∷◌, ◌++◌, Option, none, some, Bool, true, false, ◌&&◌, ◌||◌, leb, ltb, select,
  if◌then◌else◌, Text,
}
use stage.Prelude.{codes, lower, text_eq}

pub data Severity : Type 0 where
  critical high medium low unknown : Severity

-- SEVERITY_ORDER
abbrev severity_named : Text → Severity
severity_named key =
    if text_eq key (codes "critical")
    then critical
    else if text_eq key (codes "high")
    then high
    else if text_eq key (codes "medium")
    then medium
    else if text_eq key (codes "low")
    then low
    else unknown

unfoldable pub normalize_severity : Option Text → Severity
unfolding lower text_eq
normalize_severity none = unknown
normalize_severity (some []) = unknown
normalize_severity (some (c ∷ s)) = severity_named (lower (c ∷ s))

pub record Summary : Type 0 where
  pub critical : ℕ
  pub high : ℕ
  pub medium : ℕ
  pub low : ℕ
  pub unknown : ℕ

abbrev pub empty_summary : Summary
empty_summary = record { critical = 0; high = 0; medium = 0; low = 0; unknown = 0 }

unfoldable pub bump : Summary → Severity → Summary
bump s critical = record s { critical = s.critical + 1 }
bump s high = record s { high = s.high + 1 }
bump s medium = record s { medium = s.medium + 1 }
bump s low = record s { low = s.low + 1 }
bump s unknown = record s { unknown = s.unknown + 1 }

pub record Finding : Type 0 where
  pub severity : Severity
  pub identifier : Option Text
  pub package_name : Option Text
  pub installed_version : Option Text
  pub fixed_version : Option Text
  pub title : Option Text
  pub description : Option Text
  pub file_path : Option Text
  pub line_number : Option ℕ

pub record ParsedFindings : Type 0 where
  pub summary : Summary
  pub findings : List Finding

abbrev pub no_findings : ParsedFindings
no_findings = record { summary = empty_summary; findings = [] }

-- One round of a parser's loop: the finding is appended and counted.
unfoldable pub add : ParsedFindings → Finding → ParsedFindings
unfolding bump
add p f = record { summary = bump p.summary f.severity; findings = p.findings ++ f ∷ [] }

-- An entry of a gitleaks report.
pub record Leak : Type 0 where
  pub rule_id : Option Text
  pub description : Option Text
  pub file : Option Text
  pub start_line : Option ℕ

unfoldable pub leak_finding : Leak → Finding
leak_finding leak = record {
  severity = high;
  identifier = leak.rule_id;
  package_name = none;
  installed_version = none;
  fixed_version = none;
  title = leak.description;
  description = none;
  file_path = leak.file;
  line_number = leak.start_line;
}

add_leaks : ParsedFindings → List Leak → ParsedFindings
unfolding add leak_finding
add_leaks p [] = p
add_leaks p (leak ∷ leaks) = add_leaks (add p (leak_finding leak)) leaks

unfoldable pub parse_gitleaks : Option (List Leak) → ParsedFindings
unfolding add_leaks
parse_gitleaks none = no_findings
parse_gitleaks (some leaks) = add_leaks no_findings leaks

-- A vulnerability of a trivy report, and the vulnerabilities of one of its targets.
pub record TrivyVuln : Type 0 where
  pub severity : Option Text
  pub vulnerability_id : Option Text
  pub pkg_name : Option Text
  pub installed_version : Option Text
  pub fixed_version : Option Text
  pub title : Option Text
  pub description : Option Text

pub record TrivyResult : Type 0 where
  pub target : Option Text
  pub vulnerabilities : List TrivyVuln

-- `text or None`
abbrev or_none : Option Text → Option Text
or_none none = none
or_none (some []) = none
or_none (some (c ∷ s)) = some (c ∷ s)

unfoldable pub trivy_finding : Option Text → TrivyVuln → Finding
unfolding normalize_severity
trivy_finding target vuln = record {
  severity = normalize_severity vuln.severity;
  identifier = vuln.vulnerability_id;
  package_name = vuln.pkg_name;
  installed_version = vuln.installed_version;
  fixed_version = or_none vuln.fixed_version;
  title = vuln.title;
  description = vuln.description;
  file_path = target;
  line_number = none;
}

add_vulns : ParsedFindings → Option Text → List TrivyVuln → ParsedFindings
unfolding add trivy_finding
add_vulns p target [] = p
add_vulns p target (vuln ∷ vulns) = add_vulns (add p (trivy_finding target vuln)) target vulns

add_results : ParsedFindings → List TrivyResult → ParsedFindings
unfolding add_vulns
add_results p [] = p
add_results p (r ∷ results) = add_results (add_vulns p r.target r.vulnerabilities) results

unfoldable pub parse_trivy : Option (List TrivyResult) → ParsedFindings
unfolding add_results
parse_trivy none = no_findings
parse_trivy (some results) = add_results no_findings results

-- The `severity` of a pip-audit vulnerability: a name, or a mapping with a CVSS vector, a number (in
-- hundredths), or a name under `score`.
pub data RawSeverity : Type 0 where
  named : Option Text → RawSeverity
  vector : Text → RawSeverity
  score : ℕ → RawSeverity
  named_score : Option Text → RawSeverity

pub record Vuln : Type 0 where
  pub id : Option Text
  pub severity : RawSeverity
  pub fix_versions : List Text
  pub aliases : List Text
  pub description : Option Text

pub record Dependency : Type 0 where
  pub name : Option Text
  pub version : Option Text
  pub vulns : List Vuln

-- Thresholds in hundredths.
unfoldable pub score_to_level : ℕ → Severity
score_to_level s =
    if leb 900 s
    then critical
    else if leb 700 s
    then high
    else if leb 400 s
    then medium
    else if ltb 0 s
    then low
    else unknown

-- `str(value)` of a text or of None.
abbrev pub shown : Option Text → Text
shown none = codes "None"
shown (some s) = s

abbrev pub Key : Type 0
Key = Text × Text

unfoldable pub key_eq : Key → Key → Bool
unfolding text_eq
key_eq (a, b) (c, d) = text_eq a c && text_eq b d

unfoldable pub is_seen : Key → List Key → Bool
unfolding key_eq
is_seen key [] = false
is_seen key (k ∷ ks) = key_eq k key || is_seen key ks

abbrev first_text : List Text → Option Text
first_text [] = none
first_text (v ∷ vs) = some v

is_named : Text → Bool
is_named [] = false
is_named (c ∷ s) = true

-- ", ".join(texts)
unfoldable pub join : List Text → Text
join [] = []
join (a ∷ []) = a
join (a ∷ b ∷ rest) = a ++ (44 ∷ 32 ∷ join (b ∷ rest))

-- The CVSS 3.1 base score of a vector is floating-point arithmetic: a parameter, in hundredths.
module _ (cvss3_base_score : Text → ℕ) where
  unfoldable pub severity_of : RawSeverity → Severity
  unfolding normalize_severity score_to_level
  severity_of (named s) = normalize_severity s
  severity_of (vector v) = score_to_level (cvss3_base_score v)
  severity_of (score n) = score_to_level n
  severity_of (named_score s) = normalize_severity s

  unfoldable pub audit_finding : Dependency → Vuln → Finding
  unfolding severity_of is_named join select
  audit_finding dep vuln = record {
    severity = severity_of vuln.severity;
    identifier = vuln.id;
    package_name = dep.name;
    installed_version = dep.version;
    fixed_version = first_text vuln.fix_versions;
    title = or_none (some (join (select is_named vuln.aliases)));
    description = vuln.description;
    file_path = none;
    line_number = none;
  }

  -- The loop over the vulnerabilities of one dependency, with the keys seen so far.
  unfoldable pub audit_vulns :
      Dependency → List Vuln → ParsedFindings → List Key → ParsedFindings × List Key
  unfolding audit_finding is_seen add
  audit_vulns dep [] p seen = (p, seen)
  audit_vulns dep (vuln ∷ vulns) p seen =
      let key : Key = (shown dep.name, shown vuln.id) in
      let skip = audit_vulns dep vulns p seen in
      let keep_it = audit_vulns dep vulns (add p (audit_finding dep vuln)) (key ∷ seen) in
      if is_seen key seen then skip else keep_it

  unfoldable pub audit_dependencies :
      List Dependency → ParsedFindings → List Key → ParsedFindings × List Key
  unfolding audit_vulns
  audit_dependencies [] p seen = (p, seen)
  audit_dependencies (dep ∷ deps) p seen =
      let (p', seen') = audit_vulns dep dep.vulns p seen in audit_dependencies deps p' seen'

  unfoldable pub parse_pip_audit : Option (List Dependency) → ParsedFindings
  unfolding audit_dependencies
  parse_pip_audit none = no_findings
  parse_pip_audit (some deps) = (audit_dependencies deps no_findings []).0
