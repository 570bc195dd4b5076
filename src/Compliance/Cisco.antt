-- ===== src/Compliance/Cisco.antt =====
-- The CIS Cisco IOS catalogue (backend/compliance/cis_cisco_ios.py).
use valsec.Prelude.{
  ℕ, String, Bool, true, false, not, ◌&&◌, ◌||◌, Option, none, some, List, [], ◌∷◌, map, is_empty,
  any, all, keep, is_some, ◌==◌, ◌is◌, is_blank, lower, strip, show, concat, join, sorted_set,
  values, if◌then◌else◌,
}
use valsec.Schema.{whole_of, VendorNeutralConfig, InterfaceSettings}
use valsec.Compliance.Verdicts.{
  Evaluation, pass, fail, not_applicable, Severity, critical, high, medium, low, Control, is_true,
  is_false, required_bool, minimum, maximum,
}

abbrev pub framework_label : String
framework_label = "CIS Cisco IOS Benchmark v1.0.0"

-- `secret_type in {5, 8, 9}`
abbrev pub is_modern_hash : ℕ → Bool
is_modern_hash n = n == 5 || n == 8 || n == 9

unfoldable pub modern_enable_secret : Option ℕ → Evaluation
modern_enable_secret none =
    (not_applicable, "Enable-secret hashing type was not observed in the normalized configuration.")
modern_enable_secret (some t) =
    if is_modern_hash t
    then (pass, concat ("Enable secret uses supported hashing type " ∷ show t ∷ "." ∷ []))
    else (
      fail,
      concat ("Enable secret uses hashing type " ∷ show t ∷ "; expected type 5, 8, or 9." ∷ []),
    )

unfoldable pub secure_http : Option Bool → Option Bool → Evaluation
secure_http (some true) secure = (not_applicable, "HTTP management is explicitly disabled.")
secure_http none secure =
    (not_applicable, "HTTP management requirement cannot be determined from normalized data.")
secure_http (some false) (some true) =
    (pass, "HTTP management is enabled and HTTPS management is configured.")
secure_http (some false) (some false) =
    (fail, "HTTP management is enabled but HTTPS management is explicitly disabled.")
secure_http (some false) none =
    (fail, "HTTP management is enabled but HTTPS management was not observed.")

-- `getattr(interface, "proxy_arp_disabled", None)`: the schema has no such field.
abbrev pub proxy_arp_disabled : InterfaceSettings → Option Bool
proxy_arp_disabled interface = none

unfoldable pub observed_values : List (Option Bool) → List Bool
observed_values [] = []
observed_values (none ∷ vs) = observed_values vs
observed_values (some b ∷ vs) = b ∷ observed_values vs

unfoldable pub proxy_arp : List InterfaceSettings → Evaluation
unfolding observed_values
proxy_arp interfaces =
    let observed = observed_values (map proxy_arp_disabled interfaces) in
    if is_empty observed
    then (
      not_applicable,
      "No untrusted-interface proxy-ARP evidence is available in the normalized schema.",
    )
    else if all (λ b. b) observed
    then (pass, "Proxy ARP is disabled on all normalized untrusted interfaces.")
    else (fail, "Proxy ARP is enabled on at least one normalized untrusted interface.")

-- The truth of an optional text.
abbrev pub has_text : Option String → Bool
has_text none = false
has_text (some s) = not (is_blank s)

unfoldable pub banners : Option String → Option String → Evaluation
banners motd login =
    if not (is_some motd) && not (is_some login)
    then (
      not_applicable, "Neither MOTD nor login banner was observed in the normalized configuration.",
    )
    else if has_text motd && has_text login
    then (pass, "Both MOTD and login warning banners are configured.")
    else (
      fail,
      concat (
          (if has_text motd then "login" else "MOTD")
          ∷ " warning banner is missing or empty."
          ∷ []),
    )

-- `set(xs) == {"ssh"}`
abbrev pub only_ssh : List String → Bool
only_ssh xs = not (is_empty xs) && all (λ x. x is "ssh") xs

unfoldable pub vty_ssh_only : List String → Evaluation
vty_ssh_only transports =
    if is_empty transports
    then (not_applicable, "VTY transport input was not observed in the normalized configuration.")
    else if only_ssh (map lower transports)
    then (pass, "VTY transport input permits SSH only.")
    else (
      fail,
      concat (
          "VTY transport input permits: "
          ∷ join ", " (sorted_set (map lower transports))
          ∷ "."
          ∷ []),
    )

unfoldable pub ssh_version_2 : Option ℕ → Evaluation
ssh_version_2 none =
    (not_applicable, "SSH version was not observed in the normalized configuration.")
ssh_version_2 (some v) =
    if v == 2
    then (pass, "SSH version 2 is configured.")
    else (fail, concat ("SSH version is " ∷ show v ∷ "; expected version 2." ∷ []))

-- The servers whose text is more than white space.
unfoldable pub usable_servers : List String → List String
usable_servers = keep (λ s. not (is_blank (strip s)))

unfoldable pub ntp_server : List String → Evaluation
unfolding usable_servers
ntp_server servers =
    if is_empty servers
    then (not_applicable, "No NTP server statement was observed in the normalized configuration.")
    else if is_empty (usable_servers servers)
    then (fail, "NTP server statements contain no usable server address or hostname.")
    else (pass, concat ("NTP servers configured: " ∷ join ", " (usable_servers servers) ∷ "." ∷ []))

abbrev snmp_problems : Option Bool → Option Bool → List String
snmp_problems v3 removed =
    if is_true v3
    then (if is_true removed then [] else "public/private community removal is not confirmed" ∷ [])
    else "SNMPv3-only use is not confirmed"
      ∷ (if is_true removed then [] else "public/private community removal is not confirmed" ∷ [])

unfoldable pub snmp_v3 : Option Bool → Option Bool → Evaluation
snmp_v3 v3 removed =
    if not (is_some v3) && not (is_some removed)
    then (not_applicable, "SNMP version and default-community evidence was not observed.")
    else if is_true v3 && is_true removed
    then (pass, "SNMPv3 is configured and public/private communities are removed.")
    else (fail, concat (join "; " (snmp_problems v3 removed) ∷ "." ∷ []))

unfoldable pub cdp_disabled : Option Bool → List (Option Bool) → Evaluation
cdp_disabled (some true) interface_values = (pass, "CDP is globally disabled.")
cdp_disabled (some false) interface_values = (fail, "CDP is globally enabled.")
cdp_disabled none interface_values =
    if not (is_empty interface_values) && all is_true interface_values
    then (pass, "CDP is disabled on every normalized interface.")
    else if any is_false interface_values
    then (fail, "CDP is enabled on at least one normalized interface.")
    else (not_applicable, "Global CDP state and complete interface CDP evidence were not observed.")

abbrev control : String → String → Severity → (VendorNeutralConfig → Evaluation) → Control
control control_id title severity evaluator = record {
  control_id = control_id;
  title = title;
  framework = framework_label;
  severity = severity;
  evaluate = evaluator;
  remediation_reference = concat ("cisco_remediation:" ∷ control_id ∷ []);
}

module _ (float_text : ℕ → ℕ → String) where
  unfoldable pub cisco_controls : List Control
  cisco_controls =
      control "1.1.1" "Ensure 'service password-encryption' is enabled" medium
        (λ c. required_bool c.service_hardening.password_encryption "service password-encryption")
      ∷ control "1.1.2" "Ensure 'enable secret' is configured using modern hashing" critical
          (λ c. modern_enable_secret c.device_info.enable_secret_type)
      ∷ control "1.2.1" "Ensure 'no service finger' is configured" low
          (λ c. required_bool c.service_hardening.finger_disabled "no service finger")
      ∷ control "1.2.2" "Ensure 'no ip http server' is configured" medium
          (λ c. required_bool c.service_hardening.http_server_disabled "no ip http server")
      ∷ control "1.2.3"
          "Ensure 'ip http secure-server' is configured if HTTP management is required" medium
          (λ c.
            secure_http c.service_hardening.http_server_disabled
              c.service_hardening.http_secure_server_enabled)
      ∷ control "1.2.4" "Ensure 'no service tcp-small-servers' is configured" medium (λ c.
        required_bool c.service_hardening.tcp_small_servers_disabled "no service tcp-small-servers")
      ∷ control "1.2.5" "Ensure 'no service udp-small-servers' is configured" medium (λ c.
        required_bool c.service_hardening.udp_small_servers_disabled "no service udp-small-servers")
      ∷ control "1.2.6" "Ensure 'no ip bootp server' is configured" low
          (λ c. required_bool c.service_hardening.bootp_server_disabled "no ip bootp server")
      ∷ control "1.3.1" "Ensure 'no ip source-route' is configured" medium
          (λ c. required_bool c.access_control.source_route_disabled "no ip source-route")
      ∷ control "1.3.2" "Ensure 'no ip proxy-arp' is configured on all untrusted interfaces" low
          (λ c. proxy_arp (values c.interfaces))
      ∷ control "1.4.1" "Ensure login and MOTD warning banners are configured" low
          (λ c. banners c.access_control.banner_motd c.access_control.banner_login)
      ∷ control "1.5.1" "Ensure console 'exec-timeout' is configured at 10 minutes or less" medium
          (λ c.
            maximum float_text c.line_console.exec_timeout_minutes 10 "Console exec-timeout"
              "minutes")
      ∷ control "1.5.2" "Ensure VTY 'exec-timeout' is configured at 10 minutes or less" medium
          (λ c. maximum float_text c.line_vty.exec_timeout_minutes 10 "VTY exec-timeout" "minutes")
      ∷ control "1.5.3" "Ensure VTY 'transport input ssh' is configured with no Telnet" critical
          (λ c. vty_ssh_only c.line_vty.transport_input)
      ∷ control "1.5.4" "Ensure 'ip ssh version 2' is enabled" high
          (λ c. ssh_version_2 c.ssh.version)
      ∷ control "1.5.5" "Ensure 'ip ssh time-out' is configured at 60 seconds or less" low
          (λ c. maximum float_text (whole_of c.ssh.timeout_seconds) 60 "SSH timeout" "seconds")
      ∷ control "1.5.6" "Ensure 'ip ssh authentication-retries' is configured at 3 or less" medium
          (λ c.
            maximum float_text (whole_of c.ssh.auth_retries) 3 "SSH authentication retries"
              "retries")
      ∷ control "1.6.1" "Ensure 'logging buffered' is enabled with at least 64000 bytes" medium
          (λ c. minimum c.logging.buffered_size 64000 "Logging buffer" "bytes")
      ∷ control "1.6.2" "Ensure log timestamps are enabled" low
          (λ c. required_bool c.logging.timestamps_enabled "service timestamps log")
      ∷ control "1.7.1" "Ensure NTP servers are configured" medium (λ c. ntp_server c.ntp.servers)
      ∷ control "1.8.1" "Ensure SNMPv3 is used and default community strings are removed" high
          (λ c. snmp_v3 c.snmp.v3_only c.snmp.default_communities_removed)
      ∷ control "1.9.1" "Ensure 'aaa new-model' is enabled" high
          (λ c. required_bool c.aaa.new_model "aaa new-model")
      ∷ control "1.10.1" "Ensure CDP is disabled" low (λ c.
        cdp_disabled c.cdp.global_disabled
          (map (λ (i : InterfaceSettings). i.cdp_disabled) (values c.interfaces)))
      ∷ []
