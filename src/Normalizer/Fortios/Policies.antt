-- ===== src/Normalizer/Fortios/Policies.antt =====
-- The firewall policies of backend/normalizer/fortios.py (`_set_policy`, `_policy_attribute`).
use valsec.Prelude.{
  String, Bool, true, false, not, ◌||◌, Option, none, some, List, [], ◌∷◌, ◌++◌, ◌is◌, lower,
  member, join, if◌then◌else◌,
}
use valsec.Schema.{FirewallPolicy, VendorNeutralConfig}

-- The attributes that hold a list, and those that hold a text.
pub data PolicyList : Type 0 where
  source_interfaces destination_interfaces source_addresses destination_addresses : PolicyList
  services : PolicyList

pub data PolicyText : Type 0 where
  policy_name policy_action : PolicyText

pub data PolicySetting : Type 0 where
  listed : PolicyList → List String → PolicySetting
  worded : PolicyText → String → PolicySetting
  enabled logged : Bool → PolicySetting

abbrev pub set_policy_list : PolicyList → List String → FirewallPolicy → FirewallPolicy
set_policy_list source_interfaces xs p = record p { source_interfaces = xs }
set_policy_list destination_interfaces xs p = record p { destination_interfaces = xs }
set_policy_list source_addresses xs p = record p { source_addresses = xs }
set_policy_list destination_addresses xs p = record p { destination_addresses = xs }
set_policy_list services xs p = record p { services = xs }

abbrev pub set_policy_text : PolicyText → String → FirewallPolicy → FirewallPolicy
set_policy_text policy_name s p = record p { name = some s }
set_policy_text policy_action s p = record p { action = some s }

abbrev pub set_policy : PolicySetting → FirewallPolicy → FirewallPolicy
set_policy (listed field xs) p = set_policy_list field xs p
set_policy (worded field s) p = set_policy_text field s p
set_policy (enabled b) p = record p { enabled = b }
set_policy (logged b) p = record p { logging_enabled = some b }

-- What a key and its values set, if they are known and there is a value.
unfoldable pub policy_setting : String → List String → Option PolicySetting
unfolding lower join
policy_setting key [] = none
policy_setting key (v ∷ vs) =
    if key is "name"
    then some (worded policy_name (join " " (v ∷ vs)))
    else if key is "srcintf"
    then some (listed source_interfaces (v ∷ vs))
    else if key is "dstintf"
    then some (listed destination_interfaces (v ∷ vs))
    else if key is "srcaddr"
    then some (listed source_addresses (v ∷ vs))
    else if key is "dstaddr"
    then some (listed destination_addresses (v ∷ vs))
    else if key is "service"
    then some (listed services (v ∷ vs))
    else if key is "action"
    then some (worded policy_action (join " " (v ∷ vs)))
    else if key is "status"
    then some (enabled (not (lower v is "disable")))
    else if key is "logtraffic"
    then some (logged (not (member (lower v) ("disable" ∷ "utm" ∷ []))))
    else none

abbrev pub empty_policy : String → FirewallPolicy
empty_policy policy_id = record {
  policy_id = policy_id;
  name = none;
  source_interfaces = [];
  destination_interfaces = [];
  source_addresses = [];
  destination_addresses = [];
  services = [];
  action = none;
  enabled = true;
  logging_enabled = none;
}

unfoldable pub has_policy : String → List (String × FirewallPolicy) → Bool
has_policy key [] = false
has_policy key ((k, p) ∷ rest) = (k is key) || has_policy key rest

unfoldable pub update_policy :
    String
    → (FirewallPolicy → FirewallPolicy)
    → List (String × FirewallPolicy)
    → List (String × FirewallPolicy)
update_policy key f [] = []
update_policy key f ((k, p) ∷ rest) =
    let others = update_policy key f rest in if k is key then (k, f p) ∷ rest else (k, p) ∷ others

-- `firewall_policies.setdefault(edit, FirewallPolicy(policy_id=edit))`
unfoldable pub ensure_policy : String → VendorNeutralConfig → VendorNeutralConfig
unfolding has_policy
ensure_policy key c =
    if has_policy key c.firewall_policies
    then c
    else record c { firewall_policies = c.firewall_policies ++ (key, empty_policy key) ∷ [] }

unfoldable pub change_policy : String → PolicySetting → VendorNeutralConfig → VendorNeutralConfig
unfolding update_policy
change_policy key s c = record c {
  firewall_policies = update_policy key (set_policy s) c.firewall_policies;
}
