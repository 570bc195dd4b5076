-- ===== src/Remediation/Service.antt =====
-- The dispatch by vendor, with the local model's proposal as a fallback
-- (backend/remediation/service.py). The model behind `propose_config_remediation` is a parameter.
use valsec.Prelude.{
  String, true, false, Option, none, some, List, [], ◌∷◌, ◌is◌, lower, after_colon, starts_with,
  lookup, if◌then◌else◌,
}
use valsec.Compliance.Cisco.{has_text}
use valsec.Compliance.Engine.{ComplianceResult}
use valsec.Remediation.Templates.{
  Remediation, fallback_required, generate_remediation, generate_fortios_remediation,
  generate_juniper_remediation,
}

unfoldable pub cisco_canonical : List (String × String)
cisco_canonical =
    ("credential.secure_hash", "1.1.2")
    ∷ ("password.encryption", "1.1.1")
    ∷ ("http.disabled", "1.2.2")
    ∷ ("banner.login", "1.4.1")
    ∷ ("ssh.version", "1.5.4")
    ∷ ("ssh.only", "1.5.3")
    ∷ ("session.timeout", "1.5.2")
    ∷ ("logging.enabled", "1.6.2")
    ∷ ("logging.buffer", "1.6.1")
    ∷ ("ntp.servers", "1.7.1")
    ∷ ("snmp.v3", "1.8.1")
    ∷ ("aaa.enabled", "1.9.1")
    ∷ ("discovery.disabled", "1.10.1")
    ∷ []

-- `_CISCO_CANONICAL.get(reference, reference)`
abbrev or_itself : String → Option String → String
or_itself s none = s
or_itself s (some t) = t

unfoldable pub cisco_control_id : String → String
unfolding cisco_canonical lookup after_colon
cisco_control_id reference =
    if starts_with reference "cisco_remediation:"
    then after_colon reference
    else or_itself reference (lookup reference cisco_canonical)

unfoldable pub deterministic_remediation : String → String → Remediation
deterministic_remediation vendor_name reference =
    let vendor = lower vendor_name in
    if vendor is "cisco"
    then generate_remediation (cisco_control_id reference)
    else if vendor is "juniper"
    then generate_juniper_remediation reference
    else if vendor is "fortinet"
    then generate_fortios_remediation reference
    else fallback_required

-- What the code falls back to once the model has been asked.
abbrev pub fallback : Option String → Remediation
fallback proposal =
    if has_text proposal
    then record { cli = proposal; is_fallback = true; source = "ai_generated_fallback" }
    else record { cli = none; is_fallback = false; source = "remediation_unavailable" }

unfoldable pub resolve_remediation :
    (String → String → ComplianceResult → Option String)
    → String
    → String
    → ComplianceResult
    → Remediation
unfolding deterministic_remediation
resolve_remediation propose vendor os_type result =
    let deterministic = deterministic_remediation vendor result.remediation_reference in
    if has_text deterministic.cli then deterministic else fallback (propose vendor os_type result)
