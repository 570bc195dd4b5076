-- ===== src/Remediation/Risk.antt =====
-- The conservative risk classification (backend/connectors/risk_classifier.py).
use valsec.Prelude.{String, Bool, List, [], ◌∷◌, any, ◌is◌, lower, strip, contains, if◌then◌else◌}

abbrev has_marker : List String → String → Bool
has_marker markers text = any (λ m. contains m text) markers

abbrev pub cisco_markers : List String
cisco_markers = "line vty" ∷ "line console" ∷ "ip ssh" ∷ "crypto key" ∷ "interface " ∷ []

abbrev pub juniper_markers : List String
juniper_markers = "system login" ∷ "system services ssh" ∷ []

abbrev pub embedded_markers : List String
embedded_markers = "dropbear." ∷ "network.wan" ∷ "network.lan" ∷ "firewall." ∷ []

unfoldable pub classify_risk : String → String → Bool
unfolding lower strip contains
classify_risk vendor remediation_text =
    let text = lower remediation_text in
    let normalized_vendor = lower (strip vendor) in
    if normalized_vendor is "cisco"
    then has_marker cisco_markers text
    else if normalized_vendor is "juniper"
    then has_marker juniper_markers text
    else has_marker embedded_markers text
