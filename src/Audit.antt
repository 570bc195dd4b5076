-- ===== src/Audit.antt =====
-- The audit of one configuration (backend/tasks/audit_orchestrator.py). The store is what the
-- database holds of it. The parsers, the local model, the renderer of reports and what the clock
-- answers are parameters; values of findings are JSON texts.
pub mod Proposals
pub mod Complete
pub mod Outcomes
pub mod Tests
use valsec.Prelude.{
  ℕ, String, Bool, true, false, ◌&&◌, Option, none, some, List, [], ◌∷◌, ◌++◌, map, length,
  is_blank, lower, min, ◌==◌, ◌is◌, if◌then◌else◌, Result, ok, err, is_some,
}
use valsec.Schema.{VendorNeutralConfig}
use valsec.Compliance.Verdicts.{Verdict, Severity, is_fail}
use valsec.Compliance.Catalogues.{CatalogueError}
use valsec.Compliance.Engine.{ComplianceResult, ComplianceReport, evaluate_compliance}
use valsec.Remediation.Templates.{Remediation}
use valsec.Remediation.Service.{resolve_remediation}
use valsec.Mission.Campaign.{
  ConfigStatus, normalising, awaiting_training, compliance_check, config_complete, config_failed,
  config_cancelled,
}

-- `ConfidenceTier`
pub data Confidence : Type 0 where
  confirmed probable unverified : Confidence

-- `NormalizedFinding` of the parsers.
pub record Parsed : Type 0 where
  pub schema_field : String
  pub field_value : String
  pub raw_source_line : String
  pub line_number : ℕ
  pub confidence : Confidence
  pub mapping_source : String

pub record UnknownLine : Type 0 where
  pub raw_source_line : String
  pub line_number : ℕ
  pub context : Option String

-- `NormalizationResult`
pub record Normalized : Type 0 where
  pub config : VendorNeutralConfig
  pub findings : List Parsed
  pub unknown_lines : List UnknownLine

-- What the model proposes for a line, its confidence in hundredths.
pub record Proposal : Type 0 where
  pub schema_field : Option String
  pub field_value : Option String
  pub confidence : ℕ

-- The column `field_value` of a row: of an unknown line its context and text, with the value and
-- the confidence of a proposal if there is one.
pub data FieldValue : Type 0 where
  parsed_value : String → FieldValue
  unknown_value : Option String → String → Option (Option String × ℕ) → FieldValue

-- A row of `normalized_findings`.
pub record FindingRow : Type 0 where
  pub schema_field : String
  pub field_value : FieldValue
  pub raw_source_line : String
  pub line_number : ℕ
  pub confidence : Confidence
  pub mapping_source : String

-- A row of `compliance_results`.
pub record ResultRow : Type 0 where
  pub framework : String
  pub control_id : String
  pub title : String
  pub verdict : Verdict
  pub severity : Severity
  pub observed_value : String
  pub remediation_cli : Option String
  pub is_remediation_fallback : Bool

pub record Config : Type 0 where
  pub vendor : String
  pub os_type : String
  pub firmware_version : Option String
  pub raw_config : String
  pub status : ConfigStatus
  pub selected_framework : String
  pub compliance_score : Option ℕ
  pub total_passed : ℕ
  pub total_failed : ℕ
  pub total_na : ℕ
  pub uploaded_at : Option ℕ
  pub completed_at : Option ℕ

-- The two times of the device, where the configuration has one.
pub record DeviceTimes : Type 0 where
  pub first_seen_at : Option ℕ
  pub last_audited_at : Option ℕ

pub record Store : Type 0 where
  pub config : Config
  pub device : Option DeviceTimes
  pub findings : List FindingRow
  pub results : List ResultRow
  -- The PDF of the report.
  pub report : Option String

-- `status` of the answer; the text of an exception is left out.
pub data Outcome : Type 0 where
  already_running missing audit_cancelled audit_failed : Outcome
  needs_training : ℕ → Outcome
  audit_complete : ℕ → Outcome

-- The classes of `normalizer_type`.
pub data Normalizer : Type 0 where
  cisco_ios juniper_junos fortios : Normalizer
  generic_fallback : String → Normalizer

unfoldable pub normalizer_for : String → Normalizer
normalizer_for vendor =
    if lower vendor is "cisco"
    then cisco_ios
    else if lower vendor is "juniper"
    then juniper_junos
    else if lower vendor is "fortinet"
    then fortios
    else generic_fallback vendor

pub record Services : Type 0 where
  -- `parse` of a normalizer with the mappings that were learned.
  pub normalize : Normalizer → String → Result String Normalized
  -- `propose_config_mappings`: proposals by line numbers, or an exception.
  pub propose : String → List UnknownLine → Result String (List (ℕ × Proposal))
  -- `propose_config_remediation` behind `resolve_remediation`.
  pub propose_remediation : String → String → ComplianceResult → Option String
  -- `generate_compliance_pdf`
  pub render : Config → ComplianceReport → List (String × Remediation) → Result String String
  pub float_text : ℕ → ℕ → String
  pub now : ℕ
  -- The row is found cancelled when it is loaded again after `normalising` was committed.
  pub cancelled_meanwhile : Bool

unfoldable pub proposal_for : ℕ → List (ℕ × Proposal) → Option Proposal
proposal_for n [] = none
proposal_for n ((k, p) ∷ rest) = if k == n then some p else proposal_for n rest

-- `has_proposal`, with the field.
abbrev pub proposed_field : Option Proposal → Option (String × Proposal)
proposed_field none = none
proposed_field (some p) = elim p.schema_field [
  | none ↦ none
  | some field ↦ if is_blank field then none else some (field, p)
]

abbrev pub unknown_row : UnknownLine → Option (String × Proposal) → FindingRow
unknown_row line none = record {
  schema_field = "unrecognized";
  field_value = unknown_value line.context line.raw_source_line none;
  raw_source_line = line.raw_source_line;
  line_number = line.line_number;
  confidence = unverified;
  mapping_source = "parser";
}
unknown_row line (some (field, p)) = record {
  schema_field = field;
  field_value =
      unknown_value line.context line.raw_source_line (some (p.field_value, p.confidence));
  raw_source_line = line.raw_source_line;
  line_number = line.line_number;
  confidence = probable;
  mapping_source = "ai_proposal";
}

abbrev pub parsed_row : Parsed → FindingRow
parsed_row f = record {
  schema_field = f.schema_field;
  field_value = parsed_value f.field_value;
  raw_source_line = f.raw_source_line;
  line_number = f.line_number;
  confidence = f.confidence;
  mapping_source = f.mapping_source;
}

-- The rows of `_persist_findings`, which replace those of an earlier pass.
unfoldable pub finding_rows : Normalized → List (ℕ × Proposal) → List FindingRow
finding_rows n proposals =
    map parsed_row n.findings
    ++ map (λ line. unknown_row line (proposed_field (proposal_for line.line_number proposals)))
        n.unknown_lines

abbrev pub cli_of : Option Remediation → Option String
cli_of none = none
cli_of (some r) = r.cli

abbrev pub fallback_of : Option Remediation → Bool
fallback_of none = false
fallback_of (some r) = r.is_fallback

abbrev pub result_row : ComplianceResult → Option Remediation → ResultRow
result_row r remediation = record {
  framework = r.framework;
  control_id = r.control_id;
  title = r.title;
  verdict = r.verdict;
  severity = r.severity;
  observed_value = r.observed_detail;
  remediation_cli = cli_of remediation;
  is_remediation_fallback = fallback_of remediation;
}

abbrev pub set_status : ConfigStatus → Store → Store
set_status status s = record s { config = record s.config { status = status } }

-- `_mark_device_audited`
abbrev pub earliest : Option ℕ → ℕ → ℕ
earliest none t = t
earliest (some s) t = min s t

unfoldable pub mark_device_audited : Option ℕ → ℕ → Option DeviceTimes → Option DeviceTimes
mark_device_audited uploaded_at completed_at none = none
mark_device_audited uploaded_at completed_at (some d) = some (record {
  first_seen_at = some (earliest d.first_seen_at (earliest uploaded_at completed_at));
  last_audited_at = some completed_at;
})

-- `if normalized.config.device_info.os_version`
abbrev pub firmware : Option String → Option String → Option String
firmware none old = old
firmware (some version) old = if is_blank version then old else some version

abbrev pub is_cancelled : ConfigStatus → Bool
is_cancelled config_cancelled = true
is_cancelled _ = false

module _ (services : Services) where
  open services use {
    normalize, propose, propose_remediation, render, float_text, now, cancelled_meanwhile,
  }

  unfoldable pub proposals_of : Bool → String → List UnknownLine → List (ℕ × Proposal)
  proposals_of false vendor lines = []
  proposals_of true vendor lines = elim (propose vendor lines) [
    | ok proposals ↦ proposals
    | err e ↦ []
  ]

  unfoldable pub remediation_for : Config → ComplianceResult → Option Remediation
  remediation_for config r =
      if is_fail r.verdict
      then some (resolve_remediation propose_remediation config.vendor config.os_type r)
      else none

  -- `remediations` of `_persist_compliance_results`.
  unfoldable pub remediations : Config → List ComplianceResult → List (String × Remediation)
  remediations config [] = []
  remediations config (r ∷ rs) = elim (remediation_for config r) [
    | some remediation ↦ (r.control_id, remediation) ∷ remediations config rs
    | none ↦ remediations config rs
  ]

  unfoldable pub result_rows : Config → List ComplianceResult → List ResultRow
  result_rows config rs = map (λ r. result_row r (remediation_for config r)) rs

  abbrev pub scored : ComplianceReport → Config → Config
  scored report config = record config {
    compliance_score = some report.compliance_score;
    total_passed = report.total_passed;
    total_failed = report.total_failed;
    total_na = report.total_na;
    completed_at = some now;
  }

  -- The handler: what was committed last, as failed.
  abbrev pub as_failed : Store → Store × Outcome
  as_failed s = (set_status config_failed s, audit_failed)

  unfoldable pub finish : Store → ComplianceReport → Result String String → Store × Outcome
  finish s report (err e) = as_failed s
  finish s report (ok pdf) = (
    record {
      config = record (scored report s.config) { status = config_complete };
      device = mark_device_audited s.config.uploaded_at now s.device;
      findings = s.findings;
      results = result_rows s.config report.results;
      report = some pdf;
    },
    audit_complete report.compliance_score,
  )

  unfoldable pub after_evaluation : Store → Result CatalogueError ComplianceReport → Store × Outcome
  after_evaluation s (err e) = as_failed s
  after_evaluation s (ok report) =
      finish s report
        (render (scored report s.config) report (remediations s.config report.results))

  unfoldable pub evaluate : Store → VendorNeutralConfig → Store × Outcome
  evaluate s config =
      after_evaluation s
        (evaluate_compliance float_text config s.config.selected_framework s.config.vendor)

  -- The store with the firmware version and the rows of `_persist_findings`.
  unfoldable pub persist_findings : Bool → Store → Normalized → Store
  persist_findings allow s n = record s {
    config = record s.config {
      firmware_version = firmware n.config.device_info.os_version s.config.firmware_version;
    };
    findings = finding_rows n (proposals_of allow s.config.vendor n.unknown_lines);
  }

  -- `training_required`: there are unknown lines.
  unfoldable pub train_or_evaluate :
      List UnknownLine → VendorNeutralConfig → Store → Store × Outcome
  train_or_evaluate [] config s = evaluate (set_status compliance_check s) config
  train_or_evaluate (line ∷ lines) config s =
      (set_status awaiting_training s, needs_training (length (line ∷ lines)))

  -- The gates, for the store that is to be committed.
  unfoldable pub gate : Bool → Normalized → Store → Store × Outcome
  gate true n s = (set_status config_cancelled s, audit_cancelled)
  gate false n s = train_or_evaluate n.unknown_lines n.config s

  unfoldable pub after_parse : Bool → Store → Result String Normalized → Store × Outcome
  after_parse allow s (err e) = as_failed s
  after_parse allow s (ok n) = gate cancelled_meanwhile n (persist_findings allow s n)

  unfoldable pub audit : Bool → Store → Store × Outcome
  audit allow s =
      let started = set_status normalising s in
      after_parse allow started (normalize (normalizer_for s.config.vendor) s.config.raw_config)

  -- The task for the row, if it is found; `locked` where another task holds its lock.
  unfoldable pub audit_found : Bool → Store → Store × Outcome
  audit_found allow s = if is_cancelled s.config.status then (s, audit_cancelled) else audit allow s

  unfoldable pub run_config_audit : Bool → Bool → Option Store → Option Store × Outcome
  run_config_audit allow locked none = (none, if locked then already_running else missing)
  run_config_audit allow locked (some s) =
      if locked
      then (some s, already_running)
      else let (s', outcome) = audit_found allow s in (some s', outcome)
