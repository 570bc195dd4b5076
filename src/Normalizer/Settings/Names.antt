-- ===== src/Normalizer/Settings/Names.antt =====
-- The dotted names of the settings (backend/normalizer/schema.py), and their assignment to a
-- configuration, `_assign_schema_value` of backend/normalizer/cisco_ios.py.
use valsec.Prelude.{String, [], ◌∷◌, contains, concat, if◌then◌else◌}
use valsec.Schema.{VendorNeutralConfig}
use valsec.Normalizer.Settings.{
  FlagField, password_encryption, finger_disabled, tcp_small_servers_disabled,
  udp_small_servers_disabled, bootp_server_disabled, http_server_disabled,
  http_secure_server_enabled, strong_crypto_enabled, source_route_disabled, new_model,
  logging_enabled, timestamps_enabled, v3_only, default_communities_removed, ntp_enabled,
  ntp_authenticate, cdp_global_disabled, CountField, enable_secret_type, ssh_version,
  ssh_timeout_seconds, ssh_auth_retries, buffered_size, TextField, hostname, domain_name, model,
  os_version, banner_motd, banner_login, transport_preferred, access_class, authentication_login,
  trap_severity, TimeoutField, console_timeout, vty_timeout, ListField, transport_input,
  ntp_servers, InterfaceFlag, interface_shutdown, interface_cdp_disabled, InterfaceText,
  interface_name, interface_description, interface_ip_address, Setting, flag, count, text, timeout,
  items, item, on_interface, of_interface, set_flag, set_count, set_text, set_timeout, update_list,
  add_item, set_interface_flag, set_interface_text, with_interface,
}

abbrev pub flag_name : FlagField → String
flag_name password_encryption = "service_hardening.password_encryption"
flag_name finger_disabled = "service_hardening.finger_disabled"
flag_name tcp_small_servers_disabled = "service_hardening.tcp_small_servers_disabled"
flag_name udp_small_servers_disabled = "service_hardening.udp_small_servers_disabled"
flag_name bootp_server_disabled = "service_hardening.bootp_server_disabled"
flag_name http_server_disabled = "service_hardening.http_server_disabled"
flag_name http_secure_server_enabled = "service_hardening.http_secure_server_enabled"
flag_name strong_crypto_enabled = "service_hardening.strong_crypto_enabled"
flag_name source_route_disabled = "access_control.source_route_disabled"
flag_name new_model = "aaa.new_model"
flag_name logging_enabled = "logging.enabled"
flag_name timestamps_enabled = "logging.timestamps_enabled"
flag_name v3_only = "snmp.v3_only"
flag_name default_communities_removed = "snmp.default_communities_removed"
flag_name ntp_enabled = "ntp.enabled"
flag_name ntp_authenticate = "ntp.authenticate"
flag_name cdp_global_disabled = "cdp.global_disabled"

abbrev pub count_name : CountField → String
count_name enable_secret_type = "device_info.enable_secret_type"
count_name ssh_version = "ssh.version"
count_name ssh_timeout_seconds = "ssh.timeout_seconds"
count_name ssh_auth_retries = "ssh.auth_retries"
count_name buffered_size = "logging.buffered_size"

abbrev pub text_name : TextField → String
text_name hostname = "device_info.hostname"
text_name domain_name = "device_info.domain_name"
text_name model = "device_info.model"
text_name os_version = "device_info.os_version"
text_name banner_motd = "access_control.banner_motd"
text_name banner_login = "access_control.banner_login"
text_name transport_preferred = "line_console.transport_preferred"
text_name access_class = "line_vty.access_class"
text_name authentication_login = "aaa.authentication_login"
text_name trap_severity = "logging.trap_severity"

abbrev pub timeout_name : TimeoutField → String
timeout_name console_timeout = "line_console.exec_timeout_minutes"
timeout_name vty_timeout = "line_vty.exec_timeout_minutes"

abbrev pub list_name : ListField → String
list_name transport_input = "line_vty.transport_input"
list_name ntp_servers = "ntp.servers"

abbrev pub interface_flag_name : InterfaceFlag → String
interface_flag_name interface_shutdown = "shutdown"
interface_flag_name interface_cdp_disabled = "cdp_disabled"

abbrev pub interface_text_name : InterfaceText → String
interface_text_name interface_name = "name"
interface_text_name interface_description = "description"
interface_text_name interface_ip_address = "ip_address"

-- `f"interfaces.{name}.{field}"`
abbrev pub interface_field : String → String → String
interface_field name field = concat ("interfaces." ∷ name ∷ "." ∷ field ∷ [])

abbrev pub field_name : Setting → String
field_name (flag f b) = flag_name f
field_name (count f n) = count_name f
field_name (text f s) = text_name f
field_name (timeout f n) = timeout_name f
field_name (items f ss) = list_name f
field_name (item f s) = list_name f
field_name (on_interface name f b) = interface_field name (interface_flag_name f)
field_name (of_interface name f s) = interface_field name (interface_text_name f)

-- An entry of an interface is reached by the parts of its dotted name: with a dot in the name of
-- the interface they lead nowhere, and nothing is written.
abbrev pub assign_setting : Setting → VendorNeutralConfig → VendorNeutralConfig
assign_setting (flag f b) c = set_flag f b c
assign_setting (count f n) c = set_count f n c
assign_setting (text f s) c = set_text f s c
assign_setting (timeout f n) c = set_timeout f n c
assign_setting (items f ss) c = update_list f (λ _. ss) c
assign_setting (item f s) c = update_list f (add_item s) c
assign_setting (on_interface name f b) c =
    if contains "." name then c else with_interface name (set_interface_flag f b) c
assign_setting (of_interface name f s) c =
    if contains "." name then c else with_interface name (set_interface_text f s) c
