-- ===== src/Parsers/Advisories.antt =====
-- pip-audit reports one advisory of one package once, however often the report repeats it.
use stage.Prelude.{
  ℕ, List, [], ◌∷◌, ◌++◌, some, false, ◌||◌, ◌≡◌, refl, arith, inl, inr, Bool-cases, Text, ap,
}
use stage.Prelude.{text_eq_iff}
use stage.Parsers.{
  Finding, ParsedFindings, no_findings, add, Vuln, Dependency, Key, key_eq, is_seen, shown,
  audit_finding, audit_vulns, audit_dependencies, parse_pip_audit,
}

-- The package and the advisory of a finding.
abbrev pub key_of : Finding → Key
key_of f = (shown f.package_name, shown f.identifier)

unfoldable pub keys : List Finding → List Key
keys [] = []
keys (f ∷ fs) = key_of f ∷ keys fs

-- No key of the list comes twice.
abbrev pub AreDistinct : List Key → Type 0
AreDistinct [] = Unit
AreDistinct (k ∷ ks) = (is_seen k ks ≡ false) × AreDistinct ks

key_eq_comm : (j k : Key) → key_eq j k ≡ key_eq k j
unfolding key_eq
key_eq_comm (a, b) (c, d) =
    ground (arith, text_eq_iff a c, text_eq_iff c a, text_eq_iff b d, text_eq_iff d b)

keys-snoc : (fs : List Finding) (f : Finding) → keys (fs ++ f ∷ []) ≡ keys fs ++ key_of f ∷ []
unfolding keys
keys-snoc [] f = refl
keys-snoc (x ∷ xs) f = ap (λ ks. key_of x ∷ ks) (keys-snoc xs f)

is_seen-snoc : (j k : Key) (ks : List Key) → is_seen j (ks ++ k ∷ []) ≡ is_seen j ks || key_eq k j
unfolding is_seen
is_seen-snoc j k [] = ground arith
is_seen-snoc j k (x ∷ ks) = ground (arith, is_seen-snoc j k ks)

AreDistinct-snoc :
    (ks : List Key) (k : Key) → AreDistinct ks → is_seen k ks ≡ false → AreDistinct (ks ++ k ∷ [])
unfolding is_seen
AreDistinct-snoc [] k h new = (refl, tt)
AreDistinct-snoc (x ∷ ks) k h new =
    (ground (arith, is_seen-snoc x k ks, key_eq_comm x k), AreDistinct-snoc ks k h.1 (ground arith))

-- What the loop keeps: the keys seen are those of the findings, and these differ.
record Inv (p : ParsedFindings) (seen : List Key) : Type 0 where
  distinct : AreDistinct (keys p.findings)
  same : (k : Key) → is_seen k seen ≡ is_seen k (keys p.findings)

Inv-add :
    (p : ParsedFindings) (seen : List Key) (f : Finding)
    → Inv p seen
    → is_seen (key_of f) seen ≡ false
    → Inv (add p f) (key_of f ∷ seen)
unfolding add
Inv-add p seen f inv new = record {
  distinct = rw keys-snoc (
      AreDistinct-snoc (keys p.findings) (key_of f) inv.distinct
        (ground (arith, inv.same (key_of f))));
  same = λ k.
      unfold is_seen in
      rw keys-snoc (ground (arith, inv.same k, is_seen-snoc k (key_of f) (keys p.findings)));
}

module _ (cvss3_base_score : Text → ℕ) where
  audit_vulns-Inv :
      (dep : Dependency) (vulns : List Vuln) (p : ParsedFindings) (seen : List Key)
      → Inv p seen
      → Inv
          (audit_vulns cvss3_base_score dep vulns p seen).0
          (audit_vulns cvss3_base_score dep vulns p seen).1
  unfolding audit_vulns audit_finding
  audit_vulns-Inv dep [] p seen inv = inv
  audit_vulns-Inv dep (vuln ∷ vulns) p seen inv =
      let f = audit_finding cvss3_base_score dep vuln in
      elim (Bool-cases (is_seen (shown dep.name, shown vuln.id) seen)) [
        | inl old ↦ rw old (audit_vulns-Inv dep vulns p seen inv)
        | inr new ↦
            rw new
              (audit_vulns-Inv dep vulns (add p f) (key_of f ∷ seen) (Inv-add p seen f inv new))
      ]

  audit_dependencies-Inv :
      (deps : List Dependency) (p : ParsedFindings) (seen : List Key)
      → Inv p seen
      → Inv
          (audit_dependencies cvss3_base_score deps p seen).0
          (audit_dependencies cvss3_base_score deps p seen).1
  unfolding audit_dependencies
  audit_dependencies-Inv [] p seen inv = inv
  audit_dependencies-Inv (dep ∷ deps) p seen inv =
      audit_dependencies-Inv deps (audit_vulns cvss3_base_score dep dep.vulns p seen).0
        (audit_vulns cvss3_base_score dep dep.vulns p seen).1
        (audit_vulns-Inv dep dep.vulns p seen inv)

  -- No two findings of a pip-audit report have the same package and the same advisory.
  pub parse_pip_audit-AreDistinct :
      (deps : List Dependency)
      → AreDistinct (keys (parse_pip_audit cvss3_base_score (some deps)).findings)
  unfolding parse_pip_audit
  parse_pip_audit-AreDistinct deps =
      (audit_dependencies-Inv deps no_findings []
        (record { distinct = unfold keys in tt; same = λ k. unfold keys in refl })).distinct
