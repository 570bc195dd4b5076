-- ===== src/Compliance/Neutral.antt =====
-- The evaluators of the vendor-neutral and FortiOS controls (backend/compliance/catalogues.py,
-- `_ssh2` to `_fortinet_policy_logging`).
use valsec.Prelude.{
  ℕ, String, Bool, false, not, ◌&&◌, ◌||◌, Option, none, some, List, [], ◌∷◌, map, is_empty, keep,
  is_some, ◌==◌, ◌is◌, lower, show, concat, join, sorted_set, if◌then◌else◌,
}
use valsec.Schema.{FirewallPolicy}
use valsec.Compliance.Verdicts.{Evaluation, pass, fail, is_true, missing}
use valsec.Compliance.Cisco.{is_modern_hash, has_text, only_ssh, usable_servers}

unfoldable pub ssh2 : Option ℕ → Evaluation
unfolding missing
ssh2 none = missing "SSH protocol version"
ssh2 (some v) =
    if v == 2
    then (pass, "SSH protocol version 2 is configured.")
    else (fail, concat ("SSH protocol version is " ∷ show v ∷ "; version 2 is required." ∷ []))

unfoldable pub ssh_only : List String → Evaluation
unfolding missing
ssh_only transport_input =
    if is_empty (map lower transport_input)
    then missing "Remote-management transport"
    else if only_ssh (map lower transport_input)
    then (pass, "Remote management permits SSH only.")
    else (
      fail,
      concat (
          "Remote management permits: "
          ∷ join ", " (sorted_set (map lower transport_input))
          ∷ "."
          ∷ []),
    )

unfoldable pub ntp : List String → Evaluation
unfolding missing usable_servers
ntp servers =
    if is_empty servers
    then missing "NTP server configuration"
    else if is_empty (usable_servers servers)
    then (fail, "NTP server statements contain no usable address.")
    else (pass, concat ("NTP servers configured: " ∷ join ", " (usable_servers servers) ∷ "." ∷ []))

unfoldable pub snmp : Option Bool → Option Bool → Evaluation
unfolding missing
snmp v3 defaults =
    if not (is_some v3) && not (is_some defaults)
    then missing "SNMP security state"
    else if is_true v3 && is_true defaults
    then (pass, "SNMPv3 is configured and default communities are removed.")
    else (fail, "SNMPv3-only use and removal of default communities are not both confirmed.")

unfoldable pub secure_secret : Option ℕ → Evaluation
unfolding missing
secure_secret none = missing "Secure privileged credential hashing"
secure_secret (some t) =
    if is_modern_hash t then (pass, "A supported secure credential hash is configured.") else (
      fail,
      concat ("Credential hash type " ∷ show t ∷ " is not in the supported secure set." ∷ []),
    )

unfoldable pub least_functionality : Option Bool → Option Bool → Evaluation
unfolding missing
least_functionality http finger =
    if not (is_some http) && not (is_some finger)
    then missing "Unnecessary service state"
    else if is_true http && is_true finger
    then (pass, "Clear-text HTTP management and finger services are disabled.")
    else (fail, "One or more unnecessary clear-text services are not confirmed disabled.")

-- `protocols & {"http", "telnet"}` and `protocols & {"ssh", "https"}`
abbrev pub insecure_protocols : List String → List String
insecure_protocols = keep (λ p. p is "http" || p is "telnet")

abbrev pub secure_protocols : List String → List String
secure_protocols = keep (λ p. p is "ssh" || p is "https")

unfoldable pub fortinet_secure_management : List String → Evaluation
unfolding missing
fortinet_secure_management transport_input =
    let protocols = map lower transport_input in
    let insecure = insecure_protocols protocols in
    let secure = secure_protocols protocols in
    if is_empty protocols
    then missing "FortiGate administrative access protocols"
    else if not (is_empty secure) && is_empty insecure
    then (
      pass,
      concat (
          "Administrative access uses secure protocols: "
          ∷ join ", " (sorted_set secure)
          ∷ "."
          ∷ []),
    )
    else (
      fail,
      concat (
          "Administrative access permits insecure protocols: "
          ∷ join ", " (sorted_set (if is_empty insecure then protocols else insecure))
          ∷ "."
          ∷ []),
    )

unfoldable pub fortinet_ntp : Option Bool → List String → Evaluation
unfolding missing
fortinet_ntp enabled servers =
    if not (is_some enabled) && is_empty servers
    then missing "FortiGate NTP synchronization"
    else if is_true enabled && not (is_empty servers)
    then (pass, concat ("NTP synchronization is enabled with: " ∷ join ", " servers ∷ "." ∷ []))
    else (fail, "NTP synchronization is disabled or has no configured server.")

-- `policy.action == "accept"`
abbrev pub accepts : Option String → Bool
accepts none = false
accepts (some a) = a is "accept"

abbrev pub accepting : List FirewallPolicy → List FirewallPolicy
accepting = keep (λ p. p.enabled && accepts p.action)

abbrev pub unlogged : List FirewallPolicy → List FirewallPolicy
unlogged = keep (λ p. not (is_true p.logging_enabled))

unfoldable pub fortinet_policy_logging : List FirewallPolicy → Evaluation
unfolding missing
fortinet_policy_logging all_policies =
    let policies = accepting all_policies in
    let silent = unlogged policies in
    if is_empty policies
    then missing "Enabled accepting firewall policies"
    else if is_empty silent
    then (pass, "Traffic logging is enabled on every enabled accepting firewall policy.")
    else (
      fail,
      concat (
          "Traffic logging is not enabled on firewall policies: "
          ∷ join ", " (map (λ (p : FirewallPolicy). p.policy_id) silent)
          ∷ "."
          ∷ []),
    )

-- `bool(banner) if banner is not None else None`
abbrev pub banner_state : Option String → Option Bool
banner_state none = none
banner_state (some s) = some (has_text (some s))
