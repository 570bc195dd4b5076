-- ===== src/Remediation/Coverage.antt =====
-- Which failing controls have a deterministic template.
use valsec.Prelude.{
  ℕ, ◌⊎◌, inl, inr, String, true, false, Option, List, [], ◌∷◌, map, ◌≡◌, refl, ok, arith, All,
  All-keep, keep, lower, values,
}
use valsec.Schema.{InterfaceSettings, VendorNeutralConfig}
use valsec.Compliance.Verdicts.{Verdict, is_fail, fail, not_applicable, Control}
use valsec.Compliance.Cisco.{
  has_text, cisco_controls, proxy_arp, proxy_arp_disabled, observed_values,
}
use valsec.Compliance.Catalogues.{get_controls, juniper_controls}
use valsec.Compliance.Engine.{
  ComplianceResult, ComplianceReport, evaluate_control, report_of, evaluate_compliance,
}
use valsec.Compliance.Engine.Totals.{evaluate_compliance-inv}
use valsec.Remediation.Templates.{Remediation, generate_remediation, generate_juniper_remediation}
use valsec.Remediation.Service.{cisco_control_id, deterministic_remediation, resolve_remediation}

-- The remediation is a template and not the model's text.
abbrev pub IsTemplate : Remediation → Type 0
IsTemplate r =
    (has_text r.cli ≡ true) × (r.is_fallback ≡ false) × (r.source ≡ "deterministic_template")

abbrev Covers : (String → Remediation) → VendorNeutralConfig → Control → Type 0
Covers generate config c =
    (c.evaluate config).0 ≡ fail → IsTemplate (generate c.remediation_reference)

-- The schema has no proxy-ARP state, so this rule never sees evidence.
unobserved_proxy_arp :
    (xs : List InterfaceSettings) → observed_values (map proxy_arp_disabled xs) ≡ []
unfolding observed_values
unobserved_proxy_arp [] = refl
unobserved_proxy_arp (x ∷ xs) = unobserved_proxy_arp xs

proxy_arp-na : (xs : List InterfaceSettings) → (proxy_arp xs).0 ≡ not_applicable
unfolding proxy_arp
proxy_arp-na xs = rw (unobserved_proxy_arp xs)

module _ (float_text : ℕ → ℕ → String) (config : VendorNeutralConfig) where
  cisco_covered :
      All
        (Covers (λ reference. generate_remediation (cisco_control_id reference)) config)
        (cisco_controls float_text)
  unfolding cisco_controls generate_remediation cisco_control_id
  cisco_covered = ground (arith, proxy_arp-na (values config.interfaces))

  juniper_covered : All (Covers generate_juniper_remediation config) (juniper_controls float_text)
  unfolding juniper_controls generate_juniper_remediation
  juniper_covered = ground arith

failing : (v : Verdict) → is_fail v ≡ true → v ≡ fail
failing v h = ground arith

module _ (propose : String → String → ComplianceResult → Option String)
    (vendor os_type : String) where
  resolve_of_IsTemplate :
      (r : ComplianceResult)
      → IsTemplate (deterministic_remediation vendor r.remediation_reference)
      → IsTemplate (resolve_remediation propose vendor os_type r)
  unfolding resolve_remediation
  resolve_of_IsTemplate r h = rw h.0 h

  covered_results :
      (generate : String → Remediation) (config : VendorNeutralConfig) (cs : List Control)
      → ((reference : String) → deterministic_remediation vendor reference ≡ generate reference)
      → All (Covers generate config) cs
      → All
          (λ (r : ComplianceResult).
            r.verdict ≡ fail → IsTemplate (resolve_remediation propose vendor os_type r))
          (map (evaluate_control config) cs)
  unfolding evaluate_control
  covered_results generate config [] same h = tt
  covered_results generate config (c ∷ cs) same (h, hs) = (
    λ failed. resolve_of_IsTemplate (evaluate_control config c) (rw same (h failed)),
    covered_results generate config cs same hs,
  )

  failed_results :
      (rs : List ComplianceResult)
      → All
          (λ (r : ComplianceResult).
            r.verdict ≡ fail → IsTemplate (resolve_remediation propose vendor os_type r))
          rs
      → All
          (λ (r : ComplianceResult). IsTemplate (resolve_remediation propose vendor os_type r))
          (keep (λ r. is_fail r.verdict) rs)
  failed_results rs =
      All-keep _ _ (λ r. is_fail r.verdict) rs
        (λ r failed covered. covered (failing r.verdict failed))

cisco_dispatch :
    (vendor reference : String)
    → lower vendor ≡ "cisco"
    → deterministic_remediation vendor reference ≡ generate_remediation (cisco_control_id reference)
unfolding deterministic_remediation
cisco_dispatch vendor reference e = rw e

juniper_dispatch :
    (vendor reference : String)
    → lower vendor ≡ "juniper"
    → deterministic_remediation vendor reference ≡ generate_juniper_remediation reference
unfolding deterministic_remediation
juniper_dispatch vendor reference e = rw e

cisco_selected :
    (float_text : ℕ → ℕ → String) (vendor : String)
    → lower vendor ≡ "cisco"
    → get_controls float_text "cis_cisco_ios_v1" vendor ≡ ok (cisco_controls float_text)
unfolding get_controls
cisco_selected float_text vendor e = rw e

juniper_selected :
    (float_text : ℕ → ℕ → String) (vendor : String)
    → lower vendor ≡ "juniper"
    → get_controls float_text "cis_cisco_ios_v1" vendor ≡ ok (juniper_controls float_text)
unfolding get_controls
juniper_selected float_text vendor e = rw e

-- In an audit of a Cisco or Juniper device against its CIS benchmark every failing control is
-- remediated by a deterministic template: whatever the local model would propose is not used.
pub cis_failures_have_templates :
    (float_text : ℕ → ℕ → String) (propose : String → String → ComplianceResult → Option String)
    (config : VendorNeutralConfig) (vendor os_type : String) {report : ComplianceReport}
    → (lower vendor ≡ "cisco") ⊎ (lower vendor ≡ "juniper")
    → evaluate_compliance float_text config "cis_cisco_ios_v1" vendor ≡ ok report
    → All
        (λ r. IsTemplate (resolve_remediation propose vendor os_type r))
        (keep (λ r. is_fail r.verdict) report.results)
unfolding report_of
cis_failures_have_templates float_text propose config vendor os_type (inl e) h =
    let (controls, found, made) = evaluate_compliance-inv float_text config _ vendor h in
    let selected : cisco_controls float_text ≡ controls =
      ground (arith, cisco_selected float_text vendor e) in
    rw (made, ← selected)
      (failed_results propose vendor os_type _ (
        covered_results propose vendor os_type _ config _
          (λ reference. cisco_dispatch vendor reference e) (cisco_covered float_text config)))
cis_failures_have_templates float_text propose config vendor os_type (inr e) h =
    let (controls, found, made) = evaluate_compliance-inv float_text config _ vendor h in
    let selected : juniper_controls float_text ≡ controls =
      ground (arith, juniper_selected float_text vendor e) in
    rw (made, ← selected)
      (failed_results propose vendor os_type _ (
        covered_results propose vendor os_type _ config _
          (λ reference. juniper_dispatch vendor reference e) (juniper_covered float_text config)))
