-- ===== src/Normalizer/Tests.antt =====
-- Examples of the parsers.
use mathlib.Core.List.{Mem}
use valsec.Prelude.{
  ℕ, String, true, false, Option, none, some, List, [], ◌∷◌, ◌≡◌, refl, ok, lower, strip, map, keep,
  All, is_line_break, ◌is◌, if◌then◌else◌,
}
use valsec.Schema.{ratio, empty_config}
use valsec.Audit.{
  Parsed, Normalized, Store, Services, Outcome, audit_complete, normalizer_for, generic_fallback,
  run_config_audit, audit_found, audit, after_parse, gate, train_or_evaluate, persist_findings,
  evaluate, after_evaluation, finish,
}
use valsec.Audit.Tests.{config, store, services, stored_of, score_of}
use valsec.Compliance.Engine.{ComplianceReport, evaluate_compliance}
use valsec.Compliance.Catalogues.{get_controls}
use valsec.Compliance.Cisco.{cisco_controls}
use valsec.Normalizer.Lines.{numbered_lines, number_from, lines_from}
use valsec.Normalizer.Settings.{
  Setting, flag, count, text, timeout, items, vty_timeout, transport_input, v3_only,
  default_communities_removed, http_server_disabled, enable_secret_type, domain_name, hostname,
  set_default, has_interface,
}
use valsec.Normalizer.Cisco.Statements.{statement_of, top, line_vty, scoped, global, other}
use valsec.Normalizer.Cisco.Parse.{
  LearnedMatch, parse, parse_line, step_under, carry_out, banner_step,
}
use valsec.Normalizer.Cisco.Traces.{outside, ExplainedBy, LeftBy, parse-IsTraced}
use valsec.Normalizer.Cisco.Repairs.{IsRepaired, cisco_templates_repair}
use valsec.Normalizer.Generic.{parse_fallback}
use valsec.Normalizer.Generic.Explained.{untaught, is_left, run_config_audit-explained}

abbrev pub as_text : Setting → String
as_text s = "x"

-- What lines say inside `line vty`.
vty_statements :
    map
      (λ l. statement_of line_vty (strip l))
      (" exec-timeout 5 30" ∷ " transport input SSH telnet" ∷ " login local"
        ∷ "snmp-server group ops v3 priv" ∷ "no snmp-server community Public" ∷ "no ip HTTP server"
        ∷ "enable secret 9 abc" ∷ [])
    ≡ scoped (timeout vty_timeout (ratio 330 60))
      ∷ scoped (items transport_input ("ssh" ∷ "telnet" ∷ []))
      ∷ other
      ∷ global (flag v3_only true)
      ∷ global (flag default_communities_removed true)
      ∷ global (flag http_server_disabled true)
      ∷ global (count enable_secret_type 9)
      ∷ []
unfolding statement_of strip
vty_statements = refl

-- The optional part of `ip domain(?:-name)?` lets the name of a longer command through.
domain_statements :
    map (statement_of top) ("ip domain name lab" ∷ "ip domain-name lab" ∷ [])
    ≡ global (text domain_name "name lab") ∷ global (text domain_name "lab") ∷ []
unfolding statement_of
domain_statements = refl

abbrev finding_names : Normalized → List (ℕ × String)
finding_names r = map (λ (f : Parsed). (f.line_number, f.schema_field)) r.findings

-- A finding of a subinterface is recorded, but its setting is in no configuration.
subinterface_lost :
    finding_names (parse as_text untaught "interface G1.5\n shutdown\n")
    ≡ (1, "interfaces.G1.5.name") ∷ (2, "interfaces.G1.5.shutdown") ∷ []
unfolding parse numbered_lines parse_line step_under carry_out statement_of number_from lines_from
    is_line_break set_default has_interface strip
subinterface_lost = refl

abbrev banner_config : String
banner_config = "banner motd ^C\nKeep out\n^C\nfoo\n"

banner_findings :
    finding_names (parse as_text untaught banner_config) ≡ (1, "access_control.banner_motd") ∷ []
unfolding parse numbered_lines parse_line step_under carry_out statement_of banner_step number_from
    lines_from is_line_break strip
banner_findings = refl

parse-IsTraced_example :
    All
      (ExplainedBy (λ l. Mem l (outside none (numbered_lines banner_config))))
      (parse as_text untaught banner_config).findings
    × All
        (LeftBy (λ l. Mem l (outside none (numbered_lines banner_config))))
        (parse as_text untaught banner_config).unknown_lines
parse-IsTraced_example = parse-IsTraced as_text untaught banner_config

abbrev pub numeral : ℕ → ℕ → String
numeral w s = "n"

cisco_templates_repair_example :
    All
      (IsRepaired numeral as_text untaught empty_config [] [] line_vty 7 (λ m c. refl))
      (cisco_controls numeral)
cisco_templates_repair_example =
    cisco_templates_repair numeral as_text untaught empty_config [] [] line_vty 7 (λ m c. refl)

-- A device without a parser, and a mapping that explains its one line.
abbrev taught : String → ℕ → Option String → Option LearnedMatch
taught raw n context =
    if raw is "sysname r1"
    then some (record {
      schema_field = "device_info.hostname";
      field_value = "r1";
      setting = some (text hostname "r1");
    })
    else none

abbrev taught_store : Store
taught_store = record store {
  config = record config {
    vendor = "mikrotik";
    selected_framework = "nist_sp_800_53_rev5";
    raw_config = "sysname r1\n \n";
  };
}

abbrev fallback_services : Services
fallback_services = record (services []) {
  normalize = λ kind raw_config. ok (parse_fallback taught raw_config);
}

abbrev taught_run : Option Store × Outcome
taught_run = run_config_audit fallback_services true false (some taught_store)

taught_completed :
    taught_run ≡ (some (stored_of taught_run.0), audit_complete (score_of taught_run.1))
unfolding run_config_audit audit_found audit after_parse gate train_or_evaluate persist_findings
    evaluate after_evaluation finish normalizer_for lower evaluate_compliance get_controls
    parse_fallback number_from lines_from is_line_break
taught_completed = refl

mikrotik_fallback : normalizer_for "mikrotik" ≡ generic_fallback "mikrotik"
unfolding normalizer_for lower
mikrotik_fallback = refl

run_config_audit-explained_example :
    (keep (is_left taught) (numbered_lines "sysname r1\n \n") ≡ [])
    × (report : ComplianceReport) × (evaluate_compliance fallback_services.float_text
          (parse_fallback taught "sysname r1\n \n").config
          "nist_sp_800_53_rev5"
          "mikrotik"
        ≡ ok report)
    × (score_of taught_run.1 ≡ report.compliance_score)
run_config_audit-explained_example =
    run_config_audit-explained taught fallback_services true taught_store mikrotik_fallback
      (λ vendor raw_config. refl) taught_completed
