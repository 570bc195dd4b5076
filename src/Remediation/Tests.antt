-- ===== src/Remediation/Tests.antt =====
-- Runs of the remediation of small findings.
use valsec.Prelude.{
  ℕ, String, Option, none, some, List, [], ◌∷◌, map, ◌≡◌, refl, ok, err, All, keep, inr, lower,
  Result,
}
use valsec.Errors.{PushFailure, push_auth}
use valsec.Schema.{VendorNeutralConfig, empty_config}
use valsec.Compliance.Verdicts.{is_fail}
use valsec.Compliance.Catalogues.{get_controls, juniper_controls}
use valsec.Compliance.Engine.{
  ComplianceResult, ComplianceReport, evaluate_control, report_of, evaluate_compliance,
}
use valsec.Remediation.Service.{resolve_remediation}
use valsec.Remediation.Coverage.{IsTemplate, cis_failures_have_templates}
use valsec.Remediation.Risk.{classify_risk}
use valsec.Remediation.Execution.{Action, PushResult, applied}
use valsec.Remediation.Execution.Lifecycle.{
  Call, approve, execute, mark_failed, calls, IsConsistent, SameText, calls-IsConsistent,
}

abbrev float_text : ℕ → ℕ → String
float_text a b = "1.0"

-- A model with the same proposal for every finding.
abbrev propose : String → String → ComplianceResult → Option String
propose vendor os_type r = some "reload"

abbrev sample_config : VendorNeutralConfig
sample_config = record empty_config {
  ssh = record { version = some 1; timeout_seconds = none; auth_retries = none };
}

abbrev sample_report : ComplianceReport
sample_report = report_of (map (evaluate_control sample_config) (juniper_controls float_text))

evaluate_juniper :
    evaluate_compliance float_text sample_config "cis_cisco_ios_v1" "Juniper" ≡ ok sample_report
unfolding evaluate_compliance get_controls lower
evaluate_juniper = refl

lower_juniper : lower "Juniper" ≡ "juniper"
unfolding lower
lower_juniper = refl

cis_failures_have_templates_example :
    All
      (λ r. IsTemplate (resolve_remediation propose "Juniper" "junos" r))
      (keep (λ r. is_fail r.verdict) sample_report.results)
cis_failures_have_templates_example =
    cis_failures_have_templates float_text propose sample_config "Juniper" "junos"
      (inr lower_juniper) evaluate_juniper

abbrev truncate : String → String
truncate s = s

abbrev refuse : String → Result PushFailure PushResult
refuse text = err push_auth

abbrev history : List Call
history = approve (some "no ip http server") ∷ execute refuse 5 ∷ mark_failed "auth" ∷ []

calls-IsConsistent_example :
    IsConsistent truncate "cisco" (calls truncate "cisco" history none)
    × SameText truncate "cisco" none (calls truncate "cisco" history none)
calls-IsConsistent_example = calls-IsConsistent truncate "cisco" history none tt

abbrev done_action : Action
done_action = record {
  status = applied;
  remediation_text = "no ip http server";
  risky = classify_risk "cisco" "no ip http server";
  failure_message = none;
  pre_change_snapshot = some "a";
  post_change_snapshot = some "b";
  diff_summary = some "";
  applied_at = some 5;
}
