-- ===== src/Audit/Tests.antt =====
-- Audits of one Cisco configuration.
use valsec.Prelude.{ℕ, true, false, Option, none, some, List, [], ◌∷◌, ◌≡◌, refl, ok, err, lower}
use valsec.Schema.{empty_config}
use valsec.Compliance.Engine.{evaluate_compliance}
use valsec.Compliance.Catalogues.{get_controls}
use valsec.Mission.Campaign.{config_queued}
use valsec.Audit.{
  UnknownLine, Normalized, Proposal, Config, Store, Outcome, audit_complete, needs_training,
  Services, normalizer_for, finding_rows, proposals_of, evaluate, after_evaluation,
  train_or_evaluate, gate, persist_findings, after_parse, audit, audit_found, run_config_audit,
  finish,
}
use valsec.Audit.Proposals.{with_propose, deterministic, run_config_audit-deterministic}
use valsec.Audit.Outcomes.{EndedRow, run_config_audit-Ended}
use valsec.Audit.Complete.{Complete, run_config_audit-Complete}

abbrev pub config : Config
config = record {
  vendor = "cisco";
  os_type = "ios";
  firmware_version = none;
  raw_config = "x";
  status = config_queued;
  selected_framework = "cis_cisco_ios_v1";
  compliance_score = none;
  total_passed = 0;
  total_failed = 0;
  total_na = 0;
  uploaded_at = some 3;
  completed_at = none;
}

abbrev pub store : Store
store = record { config = config; device = none; findings = []; results = []; report = none }

abbrev unknown : UnknownLine
unknown = record { raw_source_line = "frobnicate"; line_number = 1; context = none }

abbrev normalized : List UnknownLine → Normalized
normalized lines = record { config = empty_config; findings = []; unknown_lines = lines }

abbrev pub services : List UnknownLine → Services
services lines = record {
  normalize = λ kind text. ok (normalized lines);
  propose = λ vendor rest. ok [];
  propose_remediation = λ vendor os_type r. none;
  render = λ row report remediations. ok "pdf";
  float_text = λ a b. "";
  now = 5;
  cancelled_meanwhile = false;
}

abbrev proposal : Proposal
proposal = record {
  schema_field = some "aaa.new_model";
  field_value = some "true";
  confidence = 90;
}

waits : (run_config_audit (services (unknown ∷ [])) true false (some store)).1 ≡ needs_training 1
unfolding run_config_audit audit_found audit after_parse gate train_or_evaluate persist_findings
    finding_rows proposals_of
waits = refl

run_config_audit-deterministic_example :
    deterministic (
      run_config_audit
        (with_propose (λ vendor lines. ok ((1, proposal) ∷ [])) (services (unknown ∷ [])))
        true
        false
        (some store))
    ≡ deterministic (
        run_config_audit
          (with_propose (λ vendor lines. err "down") (services (unknown ∷ [])))
          false
          false
          (some store))
run_config_audit-deterministic_example =
    run_config_audit-deterministic (services (unknown ∷ []))
      (λ vendor lines. ok ((1, proposal) ∷ [])) (λ vendor lines. err "down") true false false
      (some store)

run_config_audit-Ended_example :
    EndedRow store (run_config_audit (services []) true false (some store))
run_config_audit-Ended_example = run_config_audit-Ended (services []) true false store

abbrev run : Option Store × Outcome
run = run_config_audit (services []) true false (some store)

abbrev pub stored_of : Option Store → Store
stored_of none = store
stored_of (some s) = s

abbrev pub score_of : Outcome → ℕ
score_of (audit_complete score) = score
score_of _ = 0

run_completed : run ≡ (some (stored_of run.0), audit_complete (score_of run.1))
unfolding run_config_audit audit_found audit after_parse gate train_or_evaluate persist_findings
    evaluate after_evaluation finish normalizer_for lower evaluate_compliance get_controls
run_completed = refl

run_config_audit-Complete_example : Complete (services []) store (stored_of run.0) (score_of run.1)
run_config_audit-Complete_example = run_config_audit-Complete (services []) true store run_completed
