-- ===== src/Mission/Types.antt =====
-- The rows that a mission reads and writes (backend/models.py), with the helpers of
-- backend/network_mission_service.py and backend/device_registry.py on them. Ids are numbers in the
-- order of creation. Of an event its type and its device are kept.
use valsec.Prelude.{
  ℕ, String, Bool, true, false, not, ◌&&◌, ◌||◌, Option, none, some, List, [], ◌∷◌, ◌++◌, keep,
  ◌==◌, ◌is◌, is_blank, lower, strip, lookup, length, if◌then◌else◌,
}

-- `NetworkMissionStatus`
pub data MissionStatus : Type 0 where
  created discovering collecting auditing ready_for_review remediation_pending : MissionStatus
  remediating completed partially_completed failed cancelled : MissionStatus

-- `MissionDeviceState`
pub data DeviceState : Type 0 where
  seed identified credential_missing unsupported out_of_scope unreachable : DeviceState
  collection_failed ready audit_queued audited remediation_ready : DeviceState

pub record Device : Type 0 where
  pub id : ℕ
  pub org_id : Option ℕ
  pub display_name : String
  pub vendor : String
  pub os_type : String
  pub management_address : Option String

pub record Credential : Type 0 where
  pub id : ℕ
  pub device_id : ℕ
  pub credential_type : String
  pub username : String

pub record Mission : Type 0 where
  pub organization_id : Option ℕ
  pub seed_device : Device
  pub max_depth : ℕ
  pub max_devices : ℕ
  pub status : MissionStatus
  pub started_at : Option ℕ
  pub completed_at : Option ℕ

-- `NetworkMissionDevice`
pub record Node : Type 0 where
  pub id : ℕ
  pub device_id : Option ℕ
  pub config_id : Option ℕ
  pub address : String
  pub parent_address : Option String
  pub depth : ℕ
  pub vendor_hint : Option String
  pub platform_hint : Option String
  pub discovery_sources : List String
  pub state : DeviceState
  pub reason : Option String

-- `NeighborCandidate`, as far as a mission reads it.
pub record Candidate : Type 0 where
  pub address : String
  pub sources : List String
  pub vendor_hint : Option String
  pub system_name : Option String

pub record Event : Type 0 where
  pub event_type : String
  pub device_id : Option ℕ

-- `CredentialAccessLog`
pub record Access : Type 0 where
  pub credential_id : ℕ
  pub purpose : String

abbrev pub event : String → Option ℕ → Event
event kind device_id = record { event_type = kind; device_id = device_id }

abbrev pub is_created : MissionStatus → Bool
is_created created = true
is_created _ = false

abbrev pub is_seed : DeviceState → Bool
is_seed seed = true
is_seed _ = false

abbrev pub is_ready : DeviceState → Bool
is_ready ready = true
is_ready _ = false

abbrev pub is_audit_queued : DeviceState → Bool
is_audit_queued audit_queued = true
is_audit_queued _ = false

-- The states of a row that is about to be collected, or is.
abbrev pub is_live : DeviceState → Bool
is_live seed = true
is_live ready = true
is_live audit_queued = true
is_live _ = false

-- `a == b` of two nullable columns.
abbrev pub same_id : Option ℕ → Option ℕ → Bool
same_id none none = true
same_id none (some b) = false
same_id (some a) none = false
same_id (some a) (some b) = a == b

abbrev pub same_text : Option String → String → Bool
same_text none t = false
same_text (some s) t = s is t

-- The change of one row.
unfoldable pub update_node : ℕ → (Node → Node) → List Node → List Node
update_node id f [] = []
update_node id f (n ∷ ns) = (if n.id == id then f n else n) ∷ update_node id f ns

-- `query(Device).filter(vendor, management_address).first()`
unfoldable pub find_device : String → String → List Device → Option Device
find_device vendor address [] = none
find_device vendor address (d ∷ ds) =
    if d.vendor is vendor && same_text d.management_address address
    then some d
    else find_device vendor address ds

-- The same among the devices of one owner.
unfoldable pub find_owned : Option ℕ → String → String → List Device → Option Device
find_owned org_id vendor address [] = none
find_owned org_id vendor address (d ∷ ds) =
    if same_id d.org_id org_id && (d.vendor is vendor && same_text d.management_address address)
    then some d
    else find_owned org_id vendor address ds

-- The row that `resolve_device` stages where nothing matches.
abbrev pub new_device : Option ℕ → String → String → String → String → ℕ → Device
new_device org_id vendor os_type display_name address id = record {
  id = id;
  org_id = org_id;
  display_name = display_name;
  vendor = vendor;
  os_type = os_type;
  management_address = some address;
}

-- `resolve_device` at a management address: the device, and the devices afterwards.
unfoldable pub resolve_device :
    Option ℕ → String → String → String → String → List Device → Device × List Device
unfolding find_owned
resolve_device org_id vendor os_type display_name address devices =
    elim (find_owned org_id vendor address devices) [
      | some device ↦ (device, devices)
      | none ↦
          let device = new_device org_id vendor os_type display_name address (length devices) in
          (device, devices ++ device ∷ [])
    ]

-- `order_by(credential_type, id).first()`, where the types are "ssh" and "telnet": an earlier
-- credential of the list has the smaller id.
unfoldable pub first_credential : List Credential → Option Credential
first_credential [] = none
first_credential (c ∷ cs) =
    let rest = first_credential cs in
    if c.credential_type is "ssh" then some c else elim rest [
      | some d ↦ if d.credential_type is "ssh" then some d else some c
      | none ↦ some c
    ]

unfoldable pub credential_for_device : List Credential → ℕ → Bool → Option Credential
unfolding first_credential
credential_for_device credentials device_id ssh_only = first_credential (
    keep (λ c. c.device_id == device_id && (not ssh_only || c.credential_type is "ssh"))
      credentials)

unfoldable pub supported_discovery_vendors : List (String × (String × String))
supported_discovery_vendors =
    ("cisco", ("cisco", "ios"))
    ∷ ("juniper", ("juniper", "junos"))
    ∷ ("junos", ("juniper", "junos"))
    ∷ ("fortinet", ("fortinet", "fortios"))
    ∷ ("fortios", ("fortinet", "fortios"))
    ∷ ("openwrt", ("OpenWrt", "embedded-linux"))
    ∷ ("cirotech", ("Cirotech", "embedded-linux"))
    ∷ []

unfoldable pub normalize_discovered_vendor : Option String → Option (String × String)
unfolding supported_discovery_vendors
normalize_discovered_vendor none = none
normalize_discovered_vendor (some hint) =
    if is_blank hint then none else lookup (lower (strip hint)) supported_discovery_vendors
