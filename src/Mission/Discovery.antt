-- ===== src/Mission/Discovery.antt =====
-- The traversal of `run_network_mission` (backend/tasks/network_missions.py): the queue of nodes
-- to log into, the addresses seen, and the rows that are added. What the code asks others is a
-- parameter: the target guard at the mission's networks, the stored credentials, the vault, and
-- the neighbours that a device reports. The rows are committed after each node.
pub mod Termination
pub mod Scope
pub mod Unqueued
use valsec.Prelude.{
  ℕ, zero, suc, ◌+◌, String, Bool, true, false, not, ◌&&◌, ◌||◌, Option, none, some, List, [], ◌∷◌,
  ◌++◌, any, length, ltb, leb, ◌is◌, is_blank, member, concat, if◌then◌else◌, Result, ok, err,
  is_some,
}
use valsec.Errors.{
  TargetError, PullFailure, pull_auth, pull_unreachable, pull_target, pull_http, pull_other,
}
use valsec.Compliance.Cisco.{has_text}
use valsec.Mission.Types.{
  Mission, Device, Credential, Node, Candidate, Event, Access, event, credential_missing,
  unsupported, out_of_scope, unreachable, ready, DeviceState, same_id, update_node, find_device,
  resolve_device, credential_for_device, normalize_discovered_vendor,
}

-- What a mission asks of the rest of the program and of the network.
pub record Network : Type 0 where
  -- `assert_connectable_target` at the mission's networks.
  pub guard : String → Result TargetError String
  -- The rows of `device_credentials`.
  pub credentials : List Credential
  -- `retrieve_stored_credential`: the plaintext, or what the vault raises.
  pub retrieve : Credential → Result PullFailure String
  -- `discover_seed_neighbors` with that plaintext.
  pub neighbors : Device → String → Result PullFailure (List Candidate)

pub record Survey : Type 0 where
  pub nodes : List Node
  pub devices : List Device
  pub events : List Event
  pub accesses : List Access
  pub seen : List String
  pub queue : List (Node × Device)

abbrev add_event : String → Option ℕ → Survey → Survey
add_event kind device_id s = record s { events = s.events ++ event kind device_id ∷ [] }

abbrev add_node : Node → Survey → Survey
add_node n s = record s { nodes = s.nodes ++ n ∷ [] }

-- `parent_node.state = …; parent_node.reason = …`
abbrev pub set_node : ℕ → DeviceState → String → Survey → Survey
set_node id state reason s = record s {
  nodes = update_node id (λ n. record n { state = state; reason = some reason }) s.nodes;
}

pop_from : List (Node × Device) → Survey → Option ((Node × Device) × Survey)
pop_from [] s = none
pop_from (entry ∷ queue) s = some (entry, record s { queue = queue })

-- `queue.popleft()`
unfoldable pub pop : Survey → Option ((Node × Device) × Survey)
unfolding pop_from
pop s = pop_from s.queue s

-- The row of a candidate at an address, one step below its parent.
abbrev pub candidate_node : Node → Candidate → String → DeviceState → Survey → Node
candidate_node parent c address state s = record {
  id = length s.nodes;
  device_id = none;
  config_id = none;
  address = address;
  parent_address = some parent.address;
  depth = parent.depth + 1;
  vendor_hint = c.vendor_hint;
  platform_hint = c.system_name;
  discovery_sources = c.sources;
  state = state;
  reason = none;
}

-- A CDP or LLDP source and a vendor hint.
abbrev pub strong_identity : Candidate → Bool
strong_identity c = any (λ s. s is "cdp" || s is "lldp") c.sources && has_text c.vendor_hint

abbrev pub profile_of : Candidate → Option (String × String)
profile_of c = if strong_identity c then normalize_discovered_vendor c.vendor_hint else none

-- `existing is not None and existing.org_id != mission.organization_id`
abbrev pub is_foreign : Option Device → Option ℕ → Bool
is_foreign none org_id = false
is_foreign (some d) org_id = not (same_id d.org_id org_id)

abbrev name_or : Option String → String → String
name_or none address = concat ("discovered-" ∷ address ∷ [])
name_or (some n) address = if is_blank n then concat ("discovered-" ∷ address ∷ []) else n

-- `existing or resolve_device(…)`
abbrev obtain :
    Option Device
    → Mission
    → Candidate
    → String
    → String
    → String
    → List Device
    → Device × List Device
obtain (some d) m c vendor os_type pinned devices = (d, devices)
obtain none m c vendor os_type pinned devices =
    resolve_device m.organization_id vendor os_type (name_or c.system_name pinned) pinned devices

-- A row with its device, what it adds to the queue, and the event.
abbrev pub admit : Device → Node → List (Node × Device) → Survey → Survey
admit device n q s =
    add_event "device_authorized" (some device.id) (add_node n (record s { queue = s.queue ++ q }))

pub data Visit : Type 0 where
  going aborted : Survey → Visit

abbrev pub after_visit : Visit → Survey
after_visit (going s) = s
after_visit (aborted s) = s

module _ (net : Network) where
  open net use {guard, credentials, retrieve, neighbors}

  -- The three branches on the stored credential, for a row that has its device.
  unfoldable pub authorize_with : Option Credential → Mission → Node → Device → Survey → Survey
  authorize_with none m node device s =
      admit device
        (record node {
          state = credential_missing;
          reason = some "Stored device credential required";
        })
        [] s
  authorize_with (some credential) m node device s =
      if not (credential.credential_type is "ssh") && ltb node.depth m.max_depth
      then admit device
          (record node {
            state = ready;
            reason = some "Eligible for collection; SSH credential required for further traversal";
          })
          [] s
      else let n = record node { state = ready; reason = none } in
        admit device n (if ltb node.depth m.max_depth then (n, device) ∷ [] else []) s

  unfoldable pub authorize : Mission → Node → Device → Survey → Survey
  authorize m node device s =
      authorize_with (credential_for_device credentials device.id false) m
        (record node { device_id = some device.id }) device s

  -- A supported platform: the device's owner is checked before the node gets the device.
  unfoldable pub assign : Mission → Candidate → String → String → String → Node → Survey → Survey
  assign m c pinned vendor os_type node s =
      let existing = find_device vendor pinned s.devices in
      if is_foreign existing m.organization_id
      then add_event "device_rejected" none
          (add_node (record node { reason = some "Device belongs to another organization" }) s)
      else let (device, devices) = obtain existing m c vendor os_type pinned s.devices in
        authorize m node device (record s { devices = devices })

  -- The branches on the profile of a candidate.
  unfoldable pub identify_as :
      Option (String × String) → Mission → Candidate → String → Node → Survey → Survey
  identify_as none m c pinned node s = add_event "device_discovered" none (
      add_node
        (record node {
          reason = some (
              if strong_identity c
              then "Unsupported device platform"
              else "Identity could not be established from authenticated CDP/LLDP evidence");
        })
        s)
  identify_as (some (vendor, os_type)) m c pinned node s = assign m c pinned vendor os_type node s

  unfoldable pub identify : Mission → Node → Candidate → String → Survey → Survey
  identify m parent c pinned s =
      identify_as (profile_of c) m c pinned (candidate_node parent c pinned unsupported s) s

  -- The body of the loop over candidates, for an address that is new.
  unfoldable pub visit_candidate : Mission → Node → Candidate → Survey → Survey
  visit_candidate m parent c s =
      let s' = record s { seen = s.seen ++ c.address ∷ [] } in
      elim (guard c.address) [
        | err e ↦ add_event "target_rejected" none (
            add_node
              (record (candidate_node parent c c.address out_of_scope s') {
                reason = some "Target is outside the authorized mission scope";
              })
              s')
        | ok pinned ↦ identify m parent c pinned s'
      ]

  unfoldable pub visit_candidates : Mission → Node → List Candidate → Survey → Survey
  visit_candidates m parent [] s = s
  visit_candidates m parent (c ∷ cs) s =
      let rest =
        visit_candidates m parent cs
          (if member c.address s.seen then s else visit_candidate m parent c s) in
      if leb (m.max_devices + 1) (length s.seen) then s else rest

  abbrev pub ssh_credential : Device → Option Credential
  ssh_credential device = credential_for_device credentials device.id true

  -- `_discover_with_device_credential`: `ok none` is a missing SSH credential. The access is
  -- logged once the vault has answered, also if the device then fails.
  unfoldable pub discover : Device → Survey → Survey × Result PullFailure (Option (List Candidate))
  discover device s = elim (ssh_credential device) [
    | none ↦ (s, ok none)
    | some credential ↦ elim (retrieve credential) [
      | err e ↦ (s, err e)
      | ok plaintext ↦ (
        record s {
          accesses =
              s.accesses
              ++ record { credential_id = credential.id; purpose = "network_mission_discovery" }
                ∷ [];
        },
        elim (neighbors device plaintext) [ ok cs ↦ ok (some cs) | err e ↦ err e ],
      )
    ]
  ]

  -- What the handlers make of a discovery.
  unfoldable pub after_discovery :
      Mission → Node → Result PullFailure (Option (List Candidate)) → Survey → Visit
  after_discovery m parent (ok none) s = going (
      set_node parent.id credential_missing "Stored SSH credential required for topology traversal"
        s)
  after_discovery m parent (ok (some candidates)) s = going (visit_candidates m parent candidates s)
  after_discovery m parent (err pull_auth) s =
      going (set_node parent.id credential_missing "Stored credential was rejected" s)
  after_discovery m parent (err pull_unreachable) s =
      going (set_node parent.id unreachable "Topology discovery connection failed" s)
  after_discovery m parent (err (pull_target e)) s =
      going (set_node parent.id unreachable "Topology discovery connection failed" s)
  after_discovery m parent (err (pull_http e)) s =
      going (set_node parent.id unreachable "Topology discovery connection failed" s)
  after_discovery m parent (err (pull_other e)) s = aborted s

  -- One round of the loop over the queue.
  unfoldable pub visit : Mission → Node → Device → Survey → Visit
  visit m parent device s =
      if leb m.max_depth parent.depth
      then going s
      else let (s', found) = discover device s in after_discovery m parent found s'

  -- `while queue and len(seen) <= max_devices`, with fuel; `none` means that the fuel ran out.
  unfoldable pub traverse : ℕ → Mission → Survey → Option Visit
  traverse zero m s = none
  traverse (suc fuel) m s = elim (pop s) [
    | none ↦ some (going s)
    | some ((parent, device), s') ↦ elim (leb (length s.seen) m.max_devices) [
      | false ↦ some (going s)
      | true ↦ elim (visit m parent device s') [
        | going t ↦ traverse fuel m t
        | aborted t ↦ some (aborted t)
      ]
    ]
  ]
