-- ===== src/Compliance/Engine.antt =====
-- The deterministic evaluator (backend/compliance/engine.py). A score is counted in hundredths of
-- a per cent, so `round(passed / applicable * 100, 2)` is a division rounded half to even.
pub mod Totals
pub mod Score
pub mod Evidence
use valsec.Prelude.{
  ℕ, ◌+◌, ◌-◌, ◌*◌, ◌/◌, ◌%◌, String, Bool, not, ◌&&◌, ◌||◌, List, [], ◌∷◌, map, is_empty, keep,
  count_if, length, ◌==◌, ltb, if◌then◌else◌, Result, ok, ◌>>=◌,
}
use valsec.Schema.{VendorNeutralConfig}
use valsec.Compliance.Verdicts.{Verdict, Severity, Control, is_pass, is_fail, is_na}
use valsec.Compliance.Catalogues.{CatalogueError, get_controls}

pub record ComplianceResult : Type 0 where
  pub control_id : String
  pub title : String
  pub framework : String
  pub severity : Severity
  pub verdict : Verdict
  pub observed_detail : String
  pub remediation_reference : String

pub record ComplianceReport : Type 0 where
  pub results : List ComplianceResult
  pub compliance_score : ℕ
  pub total_passed : ℕ
  pub total_failed : ℕ
  pub total_na : ℕ

-- `round(a / b)`, half to even.
unfoldable pub round_div : ℕ → ℕ → ℕ
round_div a b =
    let q = a / b in
    let r = a % b in if ltb b (2 * r) || (2 * r == b && q % 2 == 1) then q + 1 else q

-- `round((passed / total) * 100, 2)`, and 0.0 of nothing.
unfoldable pub percentage : ℕ → ℕ → ℕ
unfolding round_div
percentage passed total = if total == 0 then 0 else round_div (passed * 10000) total

abbrev pub applicable : List ComplianceResult → List ComplianceResult
applicable = keep (λ r. not (is_na r.verdict))

unfoldable pub calculate_compliance_score : List ComplianceResult → ℕ
unfolding percentage
calculate_compliance_score results =
    if is_empty (applicable results)
    then 0
    else percentage (count_if (λ r. is_pass r.verdict) (applicable results))
        (length (applicable results))

unfoldable pub evaluate_control : VendorNeutralConfig → Control → ComplianceResult
evaluate_control config control =
    let (verdict, detail) = control.evaluate config in
    record {
      control_id = control.control_id;
      title = control.title;
      framework = control.framework;
      severity = control.severity;
      verdict = verdict;
      observed_detail = detail;
      remediation_reference = control.remediation_reference;
    }

unfoldable pub report_of : List ComplianceResult → ComplianceReport
report_of results = record {
  results = results;
  compliance_score = calculate_compliance_score results;
  total_passed = count_if (λ r. is_pass r.verdict) results;
  total_failed = count_if (λ r. is_fail r.verdict) results;
  total_na = count_if (λ r. is_na r.verdict) results;
}

unfoldable pub evaluate_compliance :
    (ℕ → ℕ → String)
    → VendorNeutralConfig
    → String
    → String
    → Result CatalogueError ComplianceReport
unfolding evaluate_control report_of
evaluate_compliance float_text config framework_key vendor = do
  controls ← get_controls float_text framework_key vendor
  ok (report_of (map (evaluate_control config) controls))

unfoldable pub evaluate_cis_cisco_ios :
    (ℕ → ℕ → String) → VendorNeutralConfig → Result CatalogueError ComplianceReport
unfolding evaluate_compliance
evaluate_cis_cisco_ios float_text config =
    evaluate_compliance float_text config "cis_cisco_ios_v1" "cisco"
