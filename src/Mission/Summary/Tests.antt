-- ===== src/Mission/Summary/Tests.antt =====
-- The summary of three rows, one of them remediated.
use valsec.Prelude.{ℕ, none, some, [], ◌∷◌, ◌≡◌, refl}
use valsec.Compliance.Verdicts.{Verdict, high, fail, pass}
use valsec.Compliance.Engine.{round_div}
use valsec.Mission.Types.{audited, unreachable}
use valsec.Mission.Campaign.{config_complete, verified}
use valsec.Mission.Summary.{SummaryConfig, Summary, mission_summary}

abbrev audit_of : ℕ → Verdict → SummaryConfig
audit_of score verdict = record {
  status = config_complete;
  compliance_score = some score;
  results = (verdict, high) ∷ [];
}

abbrev sample : Summary
sample =
    mission_summary
      (record { device_id = some 1; state = audited; config = some (audit_of 5000 fail) }
        ∷ record { device_id = some 2; state = audited; config = some (audit_of 10000 pass) }
        ∷ record { device_id = none; state = unreachable; config = none }
        ∷ [])
      (record { device_id = 1; status = verified; verification_config = some (audit_of 10000 pass) }
        ∷ [])

sample_before : sample.score_before ≡ some 7500
unfolding mission_summary round_div
sample_before = refl

sample_after : sample.score_after ≡ some 10000
unfolding mission_summary round_div
sample_after = refl

sample_compliant : sample.devices_compliant ≡ 1
unfolding mission_summary
sample_compliant = refl

sample_requiring : sample.devices_requiring_remediation ≡ 1
unfolding mission_summary
sample_requiring = refl
