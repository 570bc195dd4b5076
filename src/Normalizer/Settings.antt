-- ===== src/Normalizer/Settings.antt =====
-- The fields of the schema (backend/normalizer/schema.py) as the parsers name them, and what a
-- parser's `_assign` writes.
pub mod Names
pub mod Servers
use valsec.Prelude.{
  ℕ, String, Bool, true, false, ◌||◌, Option, none, some, List, [], ◌∷◌, ◌++◌, member, ◌is◌,
  if◌then◌else◌,
}
use valsec.Schema.{Number, VendorNeutralConfig, InterfaceSettings}

pub data FlagField : Type 0 where
  password_encryption finger_disabled tcp_small_servers_disabled : FlagField
  udp_small_servers_disabled bootp_server_disabled http_server_disabled : FlagField
  http_secure_server_enabled strong_crypto_enabled source_route_disabled : FlagField
  new_model logging_enabled timestamps_enabled v3_only default_communities_removed : FlagField
  ntp_enabled ntp_authenticate cdp_global_disabled : FlagField

pub data CountField : Type 0 where
  enable_secret_type ssh_version ssh_timeout_seconds ssh_auth_retries buffered_size : CountField

pub data TextField : Type 0 where
  hostname domain_name model os_version banner_motd banner_login : TextField
  transport_preferred access_class authentication_login trap_severity : TextField

pub data TimeoutField : Type 0 where
  console_timeout vty_timeout : TimeoutField

pub data ListField : Type 0 where
  transport_input ntp_servers : ListField

pub data InterfaceFlag : Type 0 where
  interface_shutdown interface_cdp_disabled : InterfaceFlag

pub data InterfaceText : Type 0 where
  interface_name interface_description interface_ip_address : InterfaceText

-- A field with the value that a statement gives it: a list, or one item of it.
pub data Setting : Type 0 where
  flag : FlagField → Bool → Setting
  count : CountField → ℕ → Setting
  text : TextField → String → Setting
  timeout : TimeoutField → Number → Setting
  items : ListField → List String → Setting
  item : ListField → String → Setting
  on_interface : String → InterfaceFlag → Bool → Setting
  of_interface : String → InterfaceText → String → Setting

abbrev pub set_flag : FlagField → Bool → VendorNeutralConfig → VendorNeutralConfig
set_flag password_encryption b c = record c {
  service_hardening = record c.service_hardening { password_encryption = some b };
}
set_flag finger_disabled b c = record c {
  service_hardening = record c.service_hardening { finger_disabled = some b };
}
set_flag tcp_small_servers_disabled b c = record c {
  service_hardening = record c.service_hardening { tcp_small_servers_disabled = some b };
}
set_flag udp_small_servers_disabled b c = record c {
  service_hardening = record c.service_hardening { udp_small_servers_disabled = some b };
}
set_flag bootp_server_disabled b c = record c {
  service_hardening = record c.service_hardening { bootp_server_disabled = some b };
}
set_flag http_server_disabled b c = record c {
  service_hardening = record c.service_hardening { http_server_disabled = some b };
}
set_flag http_secure_server_enabled b c = record c {
  service_hardening = record c.service_hardening { http_secure_server_enabled = some b };
}
set_flag strong_crypto_enabled b c = record c {
  service_hardening = record c.service_hardening { strong_crypto_enabled = some b };
}
set_flag source_route_disabled b c = record c {
  access_control = record c.access_control { source_route_disabled = some b };
}
set_flag new_model b c = record c { aaa = record c.aaa { new_model = some b } }
set_flag logging_enabled b c = record c { logging = record c.logging { enabled = some b } }
set_flag timestamps_enabled b c = record c {
  logging = record c.logging { timestamps_enabled = some b };
}
set_flag v3_only b c = record c { snmp = record c.snmp { v3_only = some b } }
set_flag default_communities_removed b c = record c {
  snmp = record c.snmp { default_communities_removed = some b };
}
set_flag ntp_enabled b c = record c { ntp = record c.ntp { enabled = some b } }
set_flag ntp_authenticate b c = record c { ntp = record c.ntp { authenticate = some b } }
set_flag cdp_global_disabled b c = record c { cdp = record c.cdp { global_disabled = some b } }

abbrev pub set_count : CountField → ℕ → VendorNeutralConfig → VendorNeutralConfig
set_count enable_secret_type n c = record c {
  device_info = record c.device_info { enable_secret_type = some n };
}
set_count ssh_version n c = record c { ssh = record c.ssh { version = some n } }
set_count ssh_timeout_seconds n c = record c { ssh = record c.ssh { timeout_seconds = some n } }
set_count ssh_auth_retries n c = record c { ssh = record c.ssh { auth_retries = some n } }
set_count buffered_size n c = record c { logging = record c.logging { buffered_size = some n } }

abbrev pub set_text : TextField → String → VendorNeutralConfig → VendorNeutralConfig
set_text hostname s c = record c { device_info = record c.device_info { hostname = some s } }
set_text domain_name s c = record c { device_info = record c.device_info { domain_name = some s } }
set_text model s c = record c { device_info = record c.device_info { model = some s } }
set_text os_version s c = record c { device_info = record c.device_info { os_version = some s } }
set_text banner_motd s c = record c {
  access_control = record c.access_control { banner_motd = some s };
}
set_text banner_login s c = record c {
  access_control = record c.access_control { banner_login = some s };
}
set_text transport_preferred s c = record c {
  line_console = record c.line_console { transport_preferred = some s };
}
set_text access_class s c = record c { line_vty = record c.line_vty { access_class = some s } }
set_text authentication_login s c = record c {
  aaa = record c.aaa { authentication_login = some s };
}
set_text trap_severity s c = record c { logging = record c.logging { trap_severity = some s } }

abbrev pub set_timeout : TimeoutField → Number → VendorNeutralConfig → VendorNeutralConfig
set_timeout console_timeout n c = record c {
  line_console = record c.line_console { exec_timeout_minutes = some n };
}
set_timeout vty_timeout n c = record c {
  line_vty = record c.line_vty { exec_timeout_minutes = some n };
}

abbrev pub update_list :
    ListField → (List String → List String) → VendorNeutralConfig → VendorNeutralConfig
update_list transport_input f c = record c {
  line_vty = record c.line_vty { transport_input = f c.line_vty.transport_input };
}
update_list ntp_servers f c = record c { ntp = record c.ntp { servers = f c.ntp.servers } }

-- `if item not in current: current.append(item)`
unfoldable pub add_item : String → List String → List String
add_item s xs = if member s xs then xs else xs ++ s ∷ []

unfoldable pub add_items : List String → List String → List String
add_items [] xs = xs
add_items (s ∷ ss) xs = add_items ss (add_item s xs)

abbrev pub set_interface_flag : InterfaceFlag → Bool → InterfaceSettings → InterfaceSettings
set_interface_flag interface_shutdown b i = record i { shutdown = some b }
set_interface_flag interface_cdp_disabled b i = record i { cdp_disabled = some b }

abbrev pub set_interface_text : InterfaceText → String → InterfaceSettings → InterfaceSettings
set_interface_text interface_name s i = record i { name = some s }
set_interface_text interface_description s i = record i { description = some s }
set_interface_text interface_ip_address s i = record i { ip_address = some s }

-- The change of one entry of a dict, which stays where it is.
unfoldable pub update_interface :
    String
    → (InterfaceSettings → InterfaceSettings)
    → List (String × InterfaceSettings)
    → List (String × InterfaceSettings)
update_interface name f [] = []
update_interface name f ((k, i) ∷ rest) =
    let others = update_interface name f rest in
    if k is name then (k, f i) ∷ rest else (k, i) ∷ others

unfoldable pub has_interface : String → List (String × InterfaceSettings) → Bool
has_interface name [] = false
has_interface name ((k, i) ∷ rest) = (k is name) || has_interface name rest

-- `interfaces.setdefault(name, settings)`
unfoldable pub set_default :
    String
    → InterfaceSettings
    → List (String × InterfaceSettings)
    → List (String × InterfaceSettings)
set_default name settings entries =
    if has_interface name entries then entries else entries ++ (name, settings) ∷ []

abbrev pub with_interface :
    String → (InterfaceSettings → InterfaceSettings) → VendorNeutralConfig → VendorNeutralConfig
with_interface name f c = record c { interfaces = update_interface name f c.interfaces }
