-- ===== src/Schema.antt =====
-- The vendor-neutral configuration (backend/normalizer/schema.py). `None` is `none`; an
-- `int | float` is a `Number`: the floats that the parsers make are minutes with seconds over 60,
-- and decimals.
use valsec.Prelude.{ℕ, ◌*◌, String, Bool, Option, none, some, List, [], leb}

-- `ratio n d` is the float `n / d`.
pub data Number : Type 0 where
  whole : ℕ → Number
  ratio : ℕ → ℕ → Number

-- `value <= maximum`
unfoldable pub number_le : Number → ℕ → Bool
number_le (whole n) k = leb n k
number_le (ratio n d) k = leb n (k * d)

-- An optional `int` where an `int | float` is wanted.
abbrev pub whole_of : Option ℕ → Option Number
whole_of none = none
whole_of (some n) = some (whole n)

pub record DeviceInfo : Type 0 where
  pub hostname : Option String
  pub domain_name : Option String
  pub model : Option String
  pub os_version : Option String
  pub enable_secret_type : Option ℕ

pub record ServiceHardening : Type 0 where
  pub password_encryption : Option Bool
  pub finger_disabled : Option Bool
  pub tcp_small_servers_disabled : Option Bool
  pub udp_small_servers_disabled : Option Bool
  pub bootp_server_disabled : Option Bool
  pub http_server_disabled : Option Bool
  pub http_secure_server_enabled : Option Bool
  pub strong_crypto_enabled : Option Bool

pub record AccessControl : Type 0 where
  pub banner_motd : Option String
  pub banner_login : Option String
  pub source_route_disabled : Option Bool

pub record LineConsole : Type 0 where
  pub exec_timeout_minutes : Option Number
  pub transport_preferred : Option String

pub record LineVty : Type 0 where
  pub transport_input : List String
  pub exec_timeout_minutes : Option Number
  pub access_class : Option String

pub record Ssh : Type 0 where
  pub version : Option ℕ
  pub timeout_seconds : Option ℕ
  pub auth_retries : Option ℕ

pub record Aaa : Type 0 where
  pub new_model : Option Bool
  pub authentication_login : Option String

pub record Logging : Type 0 where
  pub enabled : Option Bool
  pub buffered_size : Option ℕ
  pub trap_severity : Option String
  pub timestamps_enabled : Option Bool

pub record Snmp : Type 0 where
  pub v3_only : Option Bool
  pub default_communities_removed : Option Bool

pub record Ntp : Type 0 where
  pub enabled : Option Bool
  pub servers : List String
  pub authenticate : Option Bool

pub record Cdp : Type 0 where
  pub global_disabled : Option Bool

pub record InterfaceSettings : Type 0 where
  pub name : Option String
  pub description : Option String
  pub shutdown : Option Bool
  pub ip_address : Option String
  pub cdp_disabled : Option Bool

pub record FirewallPolicy : Type 0 where
  pub policy_id : String
  pub name : Option String
  pub source_interfaces : List String
  pub destination_interfaces : List String
  pub source_addresses : List String
  pub destination_addresses : List String
  pub services : List String
  pub action : Option String
  pub enabled : Bool
  pub logging_enabled : Option Bool

pub record VendorNeutralConfig : Type 0 where
  pub device_info : DeviceInfo
  pub service_hardening : ServiceHardening
  pub access_control : AccessControl
  pub line_console : LineConsole
  pub line_vty : LineVty
  pub ssh : Ssh
  pub aaa : Aaa
  pub logging : Logging
  pub snmp : Snmp
  pub ntp : Ntp
  pub cdp : Cdp
  pub interfaces : List (String × InterfaceSettings)
  pub firewall_policies : List (String × FirewallPolicy)

abbrev pub empty_service_hardening : ServiceHardening
empty_service_hardening = record {
  password_encryption = none;
  finger_disabled = none;
  tcp_small_servers_disabled = none;
  udp_small_servers_disabled = none;
  bootp_server_disabled = none;
  http_server_disabled = none;
  http_secure_server_enabled = none;
  strong_crypto_enabled = none;
}

-- `VendorNeutralConfig()`, where nothing has been observed.
abbrev pub empty_config : VendorNeutralConfig
empty_config = record {
  device_info = record {
    hostname = none;
    domain_name = none;
    model = none;
    os_version = none;
    enable_secret_type = none;
  };
  service_hardening = empty_service_hardening;
  access_control = record { banner_motd = none; banner_login = none; source_route_disabled = none };
  line_console = record { exec_timeout_minutes = none; transport_preferred = none };
  line_vty = record { transport_input = []; exec_timeout_minutes = none; access_class = none };
  ssh = record { version = none; timeout_seconds = none; auth_retries = none };
  aaa = record { new_model = none; authentication_login = none };
  logging = record {
    enabled = none;
    buffered_size = none;
    trap_severity = none;
    timestamps_enabled = none;
  };
  snmp = record { v3_only = none; default_communities_removed = none };
  ntp = record { enabled = none; servers = []; authenticate = none };
  cdp = record { global_disabled = none };
  interfaces = [];
  firewall_policies = [];
}
