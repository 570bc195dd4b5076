-- ===== src/Compliance/Engine/Evidence.antt =====
-- What the rules conclude from missing evidence.
use valsec.Prelude.{ℕ, String, List, [], ◌∷◌, map, ◌≡◌, refl, ok, arith, All}
use valsec.Schema.{empty_config}
use valsec.Compliance.Verdicts.{not_applicable, Control, required_bool, minimum, maximum}
use valsec.Compliance.Cisco.{
  cisco_controls, modern_enable_secret, secure_http, proxy_arp, banners, vty_ssh_only,
  ssh_version_2, ntp_server, snmp_v3, cdp_disabled,
}
use valsec.Compliance.Neutral.{
  ssh2, ssh_only, ntp, snmp, secure_secret, least_functionality, fortinet_secure_management,
  fortinet_ntp, fortinet_policy_logging,
}
use valsec.Compliance.Catalogues.{
  get_controls, juniper_controls, nist_controls, fortinet_nist_controls, stig_controls,
  iso_controls,
}
use valsec.Compliance.Engine.{
  ComplianceReport, ComplianceResult, evaluate_control, report_of, evaluate_compliance,
  calculate_compliance_score,
}
use valsec.Compliance.Engine.Totals.{evaluate_compliance-inv}

abbrev Unobserved : Control → Type 0
Unobserved c = (c.evaluate empty_config).0 ≡ not_applicable

module _ (float_text : ℕ → ℕ → String) where
  cisco-Unobserved : All Unobserved (cisco_controls float_text)
  unfolding cisco_controls required_bool modern_enable_secret secure_http proxy_arp banners maximum
      vty_ssh_only ssh_version_2 minimum ntp_server snmp_v3 cdp_disabled
  cisco-Unobserved = ground arith

  juniper-Unobserved : All Unobserved (juniper_controls float_text)
  unfolding juniper_controls required_bool secure_secret ssh2 maximum ntp snmp
  juniper-Unobserved = ground arith

  nist-Unobserved : All Unobserved (nist_controls float_text)
  unfolding nist_controls required_bool ssh2 maximum minimum least_functionality ntp
  nist-Unobserved = ground arith

  fortinet-Unobserved : All Unobserved (fortinet_nist_controls float_text)
  unfolding fortinet_nist_controls required_bool maximum fortinet_secure_management
      fortinet_policy_logging fortinet_ntp
  fortinet-Unobserved = ground arith

  stig-Unobserved : All Unobserved (stig_controls float_text)
  unfolding stig_controls required_bool ssh2 ssh_only maximum snmp ntp
  stig-Unobserved = ground arith

  iso-Unobserved : All Unobserved (iso_controls float_text)
  unfolding iso_controls required_bool ssh2 ssh_only ntp
  iso-Unobserved = ground arith

  controls-Unobserved :
      (framework vendor : String) {controls : List Control}
      → get_controls float_text framework vendor ≡ ok controls
      → All Unobserved controls
  unfolding get_controls
  controls-Unobserved framework vendor h = ground (
    arith, cisco-Unobserved, juniper-Unobserved, nist-Unobserved, fortinet-Unobserved,
    stig-Unobserved, iso-Unobserved,
  )

results_without_evidence :
    (cs : List Control)
    → All Unobserved cs
    → All
        (λ (r : ComplianceResult). r.verdict ≡ not_applicable)
        (map (evaluate_control empty_config) cs)
unfolding evaluate_control
results_without_evidence [] h = tt
results_without_evidence (c ∷ cs) (h, k) = (h, results_without_evidence cs k)

no_applicable :
    (rs : List ComplianceResult)
    → All (λ r. r.verdict ≡ not_applicable) rs
    → calculate_compliance_score rs ≡ 0
unfolding calculate_compliance_score
no_applicable [] h = refl
no_applicable (r ∷ rs) (e, h) = ground (arith, no_applicable rs h)

-- A configuration in which nothing was observed is neither praised nor blamed: every result of
-- its report is NOT_APPLICABLE and its score is 0, whatever the framework and the vendor.
pub evaluate_compliance-empty :
    (float_text : ℕ → ℕ → String) (framework vendor : String) {report : ComplianceReport}
    → evaluate_compliance float_text empty_config framework vendor ≡ ok report
    → All (λ r. r.verdict ≡ not_applicable) report.results × (report.compliance_score ≡ 0)
unfolding report_of
evaluate_compliance-empty float_text framework vendor h =
    let (controls, found, made) =
      evaluate_compliance-inv float_text empty_config framework vendor h in
    let all_na =
      results_without_evidence controls (controls-Unobserved float_text framework vendor found) in
    rw made (all_na, no_applicable _ all_na)
