-- ===== src/Compliance/Tests.antt =====
-- Runs of the evaluator and of the drift report on small audits.
use valsec.Prelude.{
  lower, false, ℕ, ◌<◌, ◌≤◌, String, true, some, List, [], ◌∷◌, map, ◌≡◌, refl, ok, arith, All, ◌↔◌,
  count_if,
}
use valsec.Schema.{VendorNeutralConfig, empty_config, empty_service_hardening}
use valsec.Compliance.Verdicts.{
  required_bool, Verdict, pass, fail, not_applicable, high, is_pass, is_fail,
}
use valsec.Compliance.Neutral.{ssh2, ntp, ssh_only}
use valsec.Compliance.Catalogues.{get_controls, iso_controls}
use valsec.Compliance.Engine.{
  ComplianceResult, ComplianceReport, evaluate_control, report_of, evaluate_compliance,
  calculate_compliance_score,
}
use valsec.Compliance.Engine.Score.{calculate_compliance_score_full}
use valsec.Compliance.Engine.Evidence.{evaluate_compliance-empty}
use valsec.Compliance.Drift.{build_drift_report}
use valsec.Compliance.Drift.Laws.{
  shown, failing_now, passing_now, failing_twice, build_drift_report-IsSound, UniqueKeys,
}

abbrev float_text : ℕ → ℕ → String
float_text a b = "1.0"

-- Passwords are encrypted and SSH is version 1.
abbrev sample_config : VendorNeutralConfig
sample_config = record empty_config {
  service_hardening = record empty_service_hardening { password_encryption = some true };
}

abbrev sample_report : ComplianceReport
sample_report = report_of (map (evaluate_control sample_config) (iso_controls float_text))

abbrev empty_report : ComplianceReport
empty_report = report_of (map (evaluate_control empty_config) (iso_controls float_text))

evaluate_iso :
    evaluate_compliance float_text sample_config "iso_iec_27001_2022" "Cisco" ≡ ok sample_report
unfolding evaluate_compliance get_controls lower
evaluate_iso = refl

evaluate_iso_empty :
    evaluate_compliance float_text empty_config "iso_iec_27001_2022" "Cisco" ≡ ok empty_report
unfolding evaluate_compliance get_controls lower
evaluate_iso_empty = refl

sample_totals :
    (sample_report.total_passed ≡ 1)
    × (sample_report.total_failed ≡ 0)
    × (sample_report.total_na ≡ 5)
unfolding report_of evaluate_control iso_controls required_bool ssh2 ntp ssh_only
sample_totals = (refl, refl, refl)

evaluate_compliance-empty_example :
    All (λ r. r.verdict ≡ not_applicable) empty_report.results × (empty_report.compliance_score ≡ 0)
evaluate_compliance-empty_example =
    evaluate_compliance-empty float_text "iso_iec_27001_2022" "Cisco" evaluate_iso_empty

abbrev result : String → Verdict → ComplianceResult
result id verdict = record {
  control_id = id;
  title = "";
  framework = "f";
  severity = high;
  verdict = verdict;
  observed_detail = "";
  remediation_reference = id;
}

abbrev before : List ComplianceResult
before = result "a" fail ∷ result "b" pass ∷ result "c" fail ∷ []

abbrev after : List ComplianceResult
after = result "a" pass ∷ result "b" fail ∷ result "c" fail ∷ []

-- One of three is 33.33 per cent.
score_of_a_third : calculate_compliance_score before ≡ 3333
unfolding calculate_compliance_score
score_of_a_third = refl

calculate_compliance_score_full_example :
    (calculate_compliance_score before ≤ 10000)
    × ((calculate_compliance_score before ≡ 10000) ↔ (
        (0 < count_if (λ r. is_pass r.verdict) before)
        × (count_if (λ r. is_fail r.verdict) before ≡ 0)))
calculate_compliance_score_full_example = calculate_compliance_score_full before (omega arith)

abbrev no_diff : String → String → String
no_diff a b = ""

build_drift_report-IsSound_example :
    let d = build_drift_report no_diff (some before) after "x" "y" (some "0") "1" in
    (d.newly_failed ≡ map (shown before true) (failing_now before after))
    × (d.newly_passed ≡ map (shown before true) (passing_now before after))
    × (d.still_failing ≡ map (shown before false) (failing_twice before after))
build_drift_report-IsSound_example =
    build_drift_report-IsSound no_diff (some before) after "x" "y" (some "0") "1"

before-UniqueKeys : UniqueKeys before
before-UniqueKeys = ((refl, (refl, tt)), ((refl, tt), (tt, tt)))
