-- ===== src/Compliance/Catalogues.antt =====
-- The catalogues over the neutral schema and their selection (backend/compliance/catalogues.py).
-- The evaluators are in Verdicts and Neutral.
use valsec.Prelude.{
  ℕ, String, none, some, List, [], ◌∷◌, ◌is◌, lower, values, if◌then◌else◌, Result, ok, err, lookup,
}
use valsec.Schema.{VendorNeutralConfig}
use valsec.Compliance.Verdicts.{
  Evaluation, Severity, critical, high, medium, low, Control, required_bool, minimum, maximum,
}
use valsec.Compliance.Cisco.{cisco_controls}
use valsec.Compliance.Neutral.{
  ssh2, ssh_only, ntp, snmp, secure_secret, least_functionality, fortinet_secure_management,
  fortinet_ntp, fortinet_policy_logging, banner_state,
}

pub record FrameworkMetadata : Type 0 where
  pub key : String
  pub title : String
  pub version : String

-- `KeyError` and `UnsupportedFrameworkVendorError`.
pub data CatalogueError : Type 0 where
  key_error unsupported : CatalogueError

unfoldable pub frameworks : List (String × FrameworkMetadata)
frameworks =
    (
      "cis_cisco_ios_v1",
      record { key = "cis_cisco_ios_v1"; title = "CIS Benchmark"; version = "v1.0.0" },
    )
    ∷ (
      "nist_sp_800_53_rev5",
      record { key = "nist_sp_800_53_rev5"; title = "NIST SP 800-53"; version = "Rev. 5" },
    )
    ∷ (
      "disa_stig_network_v1",
      record { key = "disa_stig_network_v1"; title = "DISA Network Device STIG"; version = "V1R1" },
    )
    ∷ (
      "iso_iec_27001_2022",
      record { key = "iso_iec_27001_2022"; title = "ISO/IEC 27001"; version = "2022" },
    )
    ∷ []

abbrev control :
    String → String → String → Severity → (VendorNeutralConfig → Evaluation) → String → Control
control control_id title framework severity evaluator reference = record {
  control_id = control_id;
  title = title;
  framework = framework;
  severity = severity;
  evaluate = evaluator;
  remediation_reference = reference;
}

abbrev cis_juniper : String
cis_juniper = "CIS Juniper JunOS Benchmark v1.0.0"

abbrev nist : String
nist = "NIST SP 800-53 Rev. 5"

abbrev stig : String
stig = "DISA Network Device Management Security Requirements Guide V1R1"

abbrev iso : String
iso = "ISO/IEC 27001:2022 Annex A"

module _ (float_text : ℕ → ℕ → String) where
  abbrev session_timeout : String → VendorNeutralConfig → Evaluation
  session_timeout label c = maximum float_text c.line_vty.exec_timeout_minutes 10 label "minutes"

  unfoldable pub juniper_controls : List Control
  juniper_controls =
      control "JUN-1.1" "Ensure a secure root authentication hash is configured" cis_juniper
        critical (λ c. secure_secret c.device_info.enable_secret_type) "credential.secure_hash"
      ∷ control "JUN-1.2" "Ensure clear-text HTTP management is disabled" cis_juniper high
          (λ c.
            required_bool c.service_hardening.http_server_disabled
              "Clear-text HTTP management disablement")
          "http.disabled"
      ∷ control "JUN-1.3" "Ensure a login warning banner is configured" cis_juniper low
          (λ c. required_bool (banner_state c.access_control.banner_login) "Login warning banner")
          "banner.login"
      ∷ control "JUN-2.1" "Ensure remote sessions use SSH version 2" cis_juniper high
          (λ c. ssh2 c.ssh.version) "ssh.version"
      ∷ control "JUN-2.2" "Ensure remote session idle timeout is 10 minutes or less" cis_juniper
          medium (session_timeout "Remote session timeout") "session.timeout"
      ∷ control "JUN-3.1" "Ensure system logging is configured" cis_juniper medium
          (λ c. required_bool c.logging.timestamps_enabled "System logging") "logging.enabled"
      ∷ control "JUN-3.2" "Ensure NTP servers are configured" cis_juniper medium
          (λ c. ntp c.ntp.servers) "ntp.servers"
      ∷ control "JUN-3.3" "Ensure NTP authentication is enabled" cis_juniper medium
          (λ c. required_bool c.ntp.authenticate "NTP authentication") "ntp.authenticate"
      ∷ control "JUN-4.1" "Ensure SNMPv3 is used and default communities are removed" cis_juniper
          high (λ c. snmp c.snmp.v3_only c.snmp.default_communities_removed) "snmp.v3"
      ∷ control "JUN-4.2" "Ensure centralized authentication is configured" cis_juniper high
          (λ c. required_bool c.aaa.new_model "Centralized authentication") "aaa.enabled"
      ∷ control "JUN-5.1" "Ensure neighbor discovery is disabled where not required" cis_juniper low
          (λ c. required_bool c.cdp.global_disabled "Neighbor discovery disablement")
          "discovery.disabled"
      ∷ []

  unfoldable pub nist_controls : List Control
  nist_controls =
      control "AC-2" "Account Management" nist high
        (λ c. required_bool c.aaa.new_model "Centralized account management") "aaa.enabled"
      ∷ control "IA-5" "Authenticator Management" nist high
          (λ c. required_bool c.service_hardening.password_encryption "Stored-password protection")
          "password.encryption"
      ∷ control "SC-8" "Transmission Confidentiality and Integrity" nist high
          (λ c. ssh2 c.ssh.version) "ssh.version"
      ∷ control "AC-12" "Session Termination" nist medium (session_timeout "Remote session timeout")
          "session.timeout"
      ∷ control "AU-2" "Event Logging" nist medium
          (λ c. required_bool c.logging.timestamps_enabled "Timestamped event logging")
          "logging.enabled"
      ∷ control "AU-4" "Audit Log Storage Capacity" nist medium
          (λ c. minimum c.logging.buffered_size 64000 "Logging buffer" "bytes") "logging.buffer"
      ∷ control "CM-7" "Least Functionality" nist medium
          (λ c.
            least_functionality c.service_hardening.http_server_disabled
              c.service_hardening.finger_disabled)
          "services.minimal"
      ∷ control "SC-45" "System Time Synchronization" nist medium (λ c. ntp c.ntp.servers)
          "ntp.servers"
      ∷ []

  unfoldable pub fortinet_nist_controls : List Control
  fortinet_nist_controls =
      control "AC-12" "Terminate inactive administrative sessions" nist medium
        (session_timeout "Administrative session timeout") "fortios.session.timeout"
      ∷ control "AC-17" "Restrict remote administration to encrypted protocols" nist high
          (λ c. fortinet_secure_management c.line_vty.transport_input) "fortios.management.secure"
      ∷ control "IA-5" "Protect stored administrator credentials" nist high
          (λ c.
            required_bool c.service_hardening.password_encryption
              "Encrypted administrator password storage")
          "fortios.password.encryption"
      ∷ control "SC-13" "Use strong cryptography for administrative services" nist high
          (λ c.
            required_bool c.service_hardening.strong_crypto_enabled "FortiOS strong cryptography")
          "fortios.strong_crypto"
      ∷ control "AU-2" "Enable system event logging" nist medium
          (λ c. required_bool c.logging.enabled "FortiOS logging") "fortios.logging.enabled"
      ∷ control "AU-12" "Log traffic accepted by firewall policies" nist high
          (λ c. fortinet_policy_logging (values c.firewall_policies)) "fortios.policy.logging"
      ∷ control "SC-45" "Synchronize time with an authoritative source" nist medium
          (λ c. fortinet_ntp c.ntp.enabled c.ntp.servers) "fortios.ntp"
      ∷ []

  unfoldable pub stig_controls : List Control
  stig_controls =
      control "V-243075" "Use approved encryption for remote administrative access" stig high
        (λ c. ssh2 c.ssh.version) "ssh.version"
      ∷ control "V-243076" "Restrict remote administrative access to secure protocols" stig high
          (λ c. ssh_only c.line_vty.transport_input) "ssh.only"
      ∷ control "V-243077" "Terminate inactive management sessions" stig medium
          (session_timeout "Remote session timeout") "session.timeout"
      ∷ control "V-243078" "Generate time-stamped audit records" stig medium
          (λ c. required_bool c.logging.timestamps_enabled "Timestamped logging") "logging.enabled"
      ∷ control "V-243079" "Use SNMPv3 for management monitoring" stig high
          (λ c. snmp c.snmp.v3_only c.snmp.default_communities_removed) "snmp.v3"
      ∷ control "V-243080" "Synchronize time with an authoritative source" stig medium
          (λ c. ntp c.ntp.servers) "ntp.servers"
      ∷ []

  unfoldable pub iso_controls : List Control
  iso_controls =
      control "A.5.15" "Access control" iso high
        (λ c. required_bool c.aaa.new_model "Centralized access control") "aaa.enabled"
      ∷ control "A.8.5" "Secure authentication" iso high (λ c. ssh2 c.ssh.version) "ssh.version"
      ∷ control "A.8.9" "Configuration management" iso medium
          (λ c.
            required_bool c.service_hardening.password_encryption
              "Configuration credential protection")
          "password.encryption"
      ∷ control "A.8.15" "Logging" iso medium
          (λ c. required_bool c.logging.timestamps_enabled "Timestamped logging") "logging.enabled"
      ∷ control "A.8.17" "Clock synchronization" iso medium (λ c. ntp c.ntp.servers) "ntp.servers"
      ∷ control "A.8.20" "Network security" iso high (λ c. ssh_only c.line_vty.transport_input)
          "ssh.only"
      ∷ []

  unfoldable pub get_controls : String → String → Result CatalogueError (List Control)
  get_controls framework_key vendor_name =
      let vendor = lower vendor_name in
      if vendor is "fortinet"
      then (if framework_key is "nist_sp_800_53_rev5"
          then ok fortinet_nist_controls
          else err unsupported)
      else if framework_key is "cis_cisco_ios_v1"
      then (if vendor is "cisco"
          then ok (cisco_controls float_text)
          else if vendor is "juniper"
          then ok juniper_controls
          else err unsupported)
      else if framework_key is "nist_sp_800_53_rev5"
      then ok nist_controls
      else if framework_key is "disa_stig_network_v1"
      then ok stig_controls
      else if framework_key is "iso_iec_27001_2022"
      then ok iso_controls
      else err key_error

unfoldable pub get_framework_metadata : String → String → Result CatalogueError FrameworkMetadata
unfolding frameworks lookup
get_framework_metadata framework_key vendor_name = elim (lookup framework_key frameworks) [
  | none ↦ err key_error
  | some metadata ↦
      if framework_key is "cis_cisco_ios_v1"
      then ok (record metadata {
        title =
            if lower vendor_name is "cisco"
            then "CIS Cisco IOS Benchmark"
            else if lower vendor_name is "juniper"
            then "CIS Juniper JunOS Benchmark"
            else metadata.title;
      })
      else ok metadata
]
