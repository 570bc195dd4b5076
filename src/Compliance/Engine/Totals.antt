-- ===== src/Compliance/Engine/Totals.antt =====
-- The report of an evaluation against the controls of the catalogue.
use valsec.Prelude.{ℕ, String, List, map, ◌≡◌, ok, >>=-eq-ok}
use valsec.Schema.{VendorNeutralConfig}
use valsec.Compliance.Verdicts.{Control}
use valsec.Compliance.Catalogues.{get_controls}
use valsec.Compliance.Engine.{ComplianceReport, evaluate_control, report_of, evaluate_compliance}

-- The controls and the report of a successful evaluation.
pub evaluate_compliance-inv :
    (float_text : ℕ → ℕ → String) (config : VendorNeutralConfig) (framework vendor : String)
    {report : ComplianceReport}
    → evaluate_compliance float_text config framework vendor ≡ ok report
    → (controls : List Control) × (get_controls float_text framework vendor ≡ ok controls)
      × (report ≡ report_of (map (evaluate_control config) controls))
unfolding evaluate_compliance
evaluate_compliance-inv float_text config framework vendor h =
    let (controls, found, made) = >>=-eq-ok (get_controls float_text framework vendor) _ h in
    (controls, found, cc)
