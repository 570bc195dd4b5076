-- ===== src/Remediation/Templates.antt =====
-- The deterministic templates (backend/remediation/cisco_remediation.py, fortios_remediation.py,
-- juniper_remediation.py), each a dict from a reference to the lines of a block.
use valsec.Prelude.{
  String, Bool, true, false, Option, none, some, List, [], ◌∷◌, ◌++◌, lookup, join,
}

pub record Remediation : Type 0 where
  pub cli : Option String
  pub is_fallback : Bool
  pub source : String

abbrev newline : String
newline = "\n"

abbrev pub fallback_required : Remediation
fallback_required = record {
  cli = none;
  is_fallback = true;
  source = "ai_generated_fallback_required";
}

abbrev pub template : String → Remediation
template cli = record { cli = some cli; is_fallback = false; source = "deterministic_template" }

abbrev from_template : Option (List String) → (List String → String) → Remediation
from_template none block = fallback_required
from_template (some commands) block = template (block commands)

unfoldable pub cisco_templates : List (String × List String)
cisco_templates =
    ("1.1.1", "service password-encryption" ∷ [])
    ∷ ("1.1.2", "enable algorithm-type scrypt secret <REPLACE_WITH_STRONG_SECRET>" ∷ [])
    ∷ ("1.2.1", "no service finger" ∷ [])
    ∷ ("1.2.2", "no ip http server" ∷ [])
    ∷ ("1.2.3", "ip http secure-server" ∷ [])
    ∷ ("1.2.4", "no service tcp-small-servers" ∷ [])
    ∷ ("1.2.5", "no service udp-small-servers" ∷ [])
    ∷ ("1.2.6", "no ip bootp server" ∷ [])
    ∷ ("1.3.1", "no ip source-route" ∷ [])
    ∷ (
      "1.4.1",
      "banner motd ^CAuthorized access only.^C" ∷ "banner login ^CAuthorized access only.^C" ∷ [],
    )
    ∷ ("1.5.1", "line con 0" ∷ " exec-timeout 10 0" ∷ "exit" ∷ [])
    ∷ ("1.5.2", "line vty 0 15" ∷ " exec-timeout 10 0" ∷ "exit" ∷ [])
    ∷ ("1.5.3", "line vty 0 15" ∷ " transport input ssh" ∷ "exit" ∷ [])
    ∷ ("1.5.4", "ip ssh version 2" ∷ [])
    ∷ ("1.5.5", "ip ssh time-out 60" ∷ [])
    ∷ ("1.5.6", "ip ssh authentication-retries 3" ∷ [])
    ∷ ("1.6.1", "logging buffered 64000 informational" ∷ [])
    ∷ ("1.6.2", "service timestamps log datetime msec" ∷ [])
    ∷ ("1.7.1", "ntp server <NTP_SERVER_ADDRESS>" ∷ [])
    ∷ (
      "1.8.1",
      "no snmp-server community public" ∷ "no snmp-server community private"
          ∷ "snmp-server group <GROUP_NAME> v3 priv" ∷ [],
    )
    ∷ ("1.9.1", "aaa new-model" ∷ [])
    ∷ ("1.10.1", "no cdp run" ∷ [])
    ∷ []

unfoldable pub generate_remediation : String → Remediation
unfolding cisco_templates join lookup
generate_remediation control_id =
    from_template (lookup control_id cisco_templates)
      (λ commands. join newline ("configure terminal" ∷ (commands ++ "end" ∷ "write memory" ∷ [])))

unfoldable pub fortios_templates : List (String × List String)
fortios_templates =
    ("fortios.session.timeout", "config system global" ∷ "    set admintimeout 10" ∷ "end" ∷ [])
    ∷ (
      "fortios.management.secure",
      "config system interface" ∷ "    edit \"<MANAGEMENT_INTERFACE>\""
          ∷ "        set allowaccess ping https ssh" ∷ "    next" ∷ "end" ∷ [],
    )
    ∷ (
      "fortios.strong_crypto",
      "config system global" ∷ "    set strong-crypto enable" ∷ "    set admin-ssh-v1 disable"
          ∷ "end" ∷ [],
    )
    ∷ ("fortios.logging.enabled", "config log disk setting" ∷ "    set status enable" ∷ "end" ∷ [])
    ∷ (
      "fortios.policy.logging",
      "config firewall policy" ∷ "    edit <POLICY_ID>" ∷ "        set logtraffic all" ∷ "    next"
          ∷ "end" ∷ [],
    )
    ∷ (
      "fortios.ntp",
      "config system ntp" ∷ "    set ntpsync enable" ∷ "    set type custom"
          ∷ "    config ntpserver" ∷ "        edit 1"
          ∷ "            set server \"<NTP_SERVER_ADDRESS>\"" ∷ "        next" ∷ "    end" ∷ "end"
          ∷ [],
    )
    ∷ []

unfoldable pub generate_fortios_remediation : String → Remediation
unfolding fortios_templates join lookup
generate_fortios_remediation reference =
    from_template (lookup reference fortios_templates) (join newline)

unfoldable pub juniper_templates : List (String × List String)
juniper_templates =
    ("credential.secure_hash", "set system root-authentication plain-text-password" ∷ [])
    ∷ ("http.disabled", "delete system services web-management http" ∷ [])
    ∷ ("banner.login", "set system login message \"Authorized access only.\"" ∷ [])
    ∷ ("ssh.version", "set system services ssh protocol-version v2" ∷ [])
    ∷ ("ssh.only", "set system services ssh" ∷ "delete system services telnet" ∷ [])
    ∷ ("session.timeout", "set system login idle-timeout 10" ∷ [])
    ∷ ("logging.enabled", "set system syslog file messages any info" ∷ [])
    ∷ ("logging.buffer", "set system syslog file messages archive size 1m" ∷ [])
    ∷ ("ntp.servers", "set system ntp server <NTP_SERVER_ADDRESS>" ∷ [])
    ∷ (
      "ntp.authenticate",
      "set system ntp authentication-key 1 type sha256 value <NTP_KEY>"
          ∷ "set system ntp trusted-key 1" ∷ [],
    )
    ∷ (
      "snmp.v3",
      "delete snmp community public" ∷ "delete snmp community private"
          ∷ "set snmp v3 usm local-engine user <USER> authentication-sha authentication-key <AUTH_KEY>"
          ∷ [],
    )
    ∷ (
      "aaa.enabled",
      "set system authentication-order radius"
          ∷ "set system radius-server <RADIUS_SERVER> secret <SECRET>" ∷ [],
    )
    ∷ ("discovery.disabled", "set protocols lldp interface all disable" ∷ [])
    ∷ ("password.encryption", "set system root-authentication plain-text-password" ∷ [])
    ∷ []

unfoldable pub generate_juniper_remediation : String → Remediation
unfolding juniper_templates join lookup
generate_juniper_remediation reference =
    from_template (lookup reference juniper_templates)
      (λ commands. join newline ("configure" ∷ (commands ++ "commit and-quit" ∷ [])))
