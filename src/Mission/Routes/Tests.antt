-- ===== src/Mission/Routes/Tests.antt =====
-- A mission on one device, its campaign, and the requests of two owners.
use valsec.Prelude.{
  ◌≤◌, min, String, true, false, none, some, List, [], ◌∷◌, ◌++◌, any, is_empty, ◌≡◌, refl, Result,
  ok, err, is_ok, lookup, strip, codes, split, before, lower, contains, All,
}
use valsec.Compliance.Verdicts.{fail}
use valsec.Compliance.Catalogues.{frameworks}
use valsec.Remediation.Risk.{classify_risk}
use valsec.Remediation.Execution.{approve_row, approve_text, approve_finding_action}
use valsec.Target.{
  Address, Network, is_blocked, is_blocked_v4, is_in, parse_network_scope, parse_entries,
  check_network, administrative_scope, require_subnets, validate_requested_scope, check_address,
  check_records, resolve_host, check_scope, scope_of, assert_connectable_target,
}
use valsec.Target.Tests.{resolver, administrative, round_trip, administrative_found, prints}
use valsec.Access.{
  Tables, owner, has_role, require_org_role, device_by_id, authorize_owned,
  authorize_or_claim_device, acting_device_user, access_found, get_device_for_access,
}
use valsec.Mission.Types.{Device, created, ready, audited, Node, credential_for_device}
use valsec.Mission.Campaign.{pending_approval, pending}
use valsec.Mission.Routes.{
  Settings, finalize_campaign, execute_target, collect_device, finalize_mission, MissionCreate,
  Created, require_vault, current_user, role_or_404, is_valid_body, or_422, seed_address,
  new_mission, create_in_scope, create_network_mission, is_retried, retry_mission_audit,
}
use valsec.Mission.Routes.Campaigns.{
  ResultFinding, CampaignTarget, CampaignRow, Fleet, is_offered, is_joined, join_targets,
  create_targets, create_campaign, approve_target, approve_targets, approve_campaign,
  execute_campaign, Request, approve, execute, Room, campaign_access, answer, serve, serve_all,
}
use valsec.Mission.Routes.Creation.{create_network_mission-IsConfined}
use valsec.Mission.Routes.Targets.{IsOffered, IsComplete, create_campaign-IsOffered}
use valsec.Mission.Routes.Approval.{IsSafe, is_confirmation, serve_all-IsApproved}

abbrev settings : Settings
settings = record {
  enable_credential_vault = true;
  require_auth = true;
  discovery_max_depth = 3;
  discovery_max_devices = 25;
}

abbrev device : Device
device = record {
  id = 0;
  org_id = some 4;
  display_name = "r";
  vendor = "cisco";
  os_type = "ios";
  management_address = some "a111";
}

abbrev tables : Tables
tables = record {
  organizations = 4 ∷ [];
  memberships =
      record { user_id = 1; org_id = 4; role = owner }
      ∷ record { user_id = 2; org_id = 4; role = owner }
      ∷ [];
  devices = device ∷ [];
}

abbrev finding : ResultFinding
finding = record {
  id = 5;
  config_id = 6;
  vendor = "cisco";
  framework = "f";
  control_id = "1.1.1";
  title = "t";
  verdict = fail;
  remediation_cli = some "ip ssh version 2";
  is_remediation_fallback = false;
  action = none;
}

abbrev node : Node
node = record {
  id = 8;
  device_id = some 0;
  config_id = some 6;
  address = "a111";
  parent_address = none;
  depth = 0;
  vendor_hint = none;
  platform_hint = none;
  discovery_sources = [];
  state = audited;
  reason = none;
}

abbrev fleet : Fleet
fleet = record {
  framework = "f";
  status = created;
  nodes = node ∷ [];
  findings = finding ∷ [];
  campaigns = [];
}

abbrev sample_target : CampaignTarget
sample_target = record {
  mission_device_id = 8;
  device_id = some 0;
  finding = finding;
  remediation_action = none;
  status = pending;
}

abbrev campaign : CampaignRow
campaign = record {
  framework = "f";
  control_id = "1.1.1";
  title = "t";
  status = pending_approval;
  created_by_user_id = some 1;
  approved_by_user_id = none;
  approved_at = none;
  targets = sample_target ∷ [];
}

abbrev room : Room
room = record { campaign = campaign; tasks = [] }

-- The creator, no confirmation, a confirmed approval of the other owner, two executions.
abbrev requests : List Request
requests =
    approve (some 1) true 3
    ∷ approve (some 2) false 4
    ∷ approve (some 2) true 5
    ∷ execute (some 1)
    ∷ execute (some 2)
    ∷ []

served :
    (serve_all settings tables (some 4) true requests room).tasks
    ≡ execute_target 5 8 ∷ finalize_campaign ∷ []
unfolding serve_all serve answer campaign_access require_vault current_user role_or_404 has_role
    approve_campaign approve_targets approve_target approve_finding_action approve_text approve_row
    classify_risk execute_campaign strip lower contains
served = refl

serve_all-IsApproved_example :
    IsSafe settings tables 4 true
      (any is_confirmation requests)
      (serve_all settings tables (some 4) true requests room)
serve_all-IsApproved_example =
    serve_all-IsApproved settings tables 4 true requests campaign refl refl

abbrev fleet_of : {E : Type 0} → Result E Fleet → Fleet
fleet_of (ok f) = f
fleet_of (err e) = fleet

abbrev answered : Fleet
answered = fleet_of (create_campaign "1.1.1" (some 1) fleet)

campaign_created : create_campaign "1.1.1" (some 1) fleet ≡ ok answered
unfolding create_campaign create_targets join_targets is_offered is_joined
campaign_created = refl

create_campaign-IsOffered_example :
    (c : CampaignRow) × (answered.campaigns ≡ [] ++ c ∷ [])
    × (c.status ≡ pending_approval)
    × (c.created_by_user_id ≡ some 1)
    × (is_empty c.targets ≡ false)
    × All (IsOffered (node ∷ []) "f" "1.1.1") c.targets
    × IsComplete "f" "1.1.1" (node ∷ []) (finding ∷ []) c.targets
    × (is_ok (create_campaign "1.1.1" (some 2) answered) ≡ false)
create_campaign-IsOffered_example =
    create_campaign-IsOffered "1.1.1" (some 1) (some 2) fleet campaign_created

retried :
    (retry_mission_audit
      (record { id = 0; device_id = 0; credential_type = "ssh"; username = "u" } ∷ [])
      (record {
        organization_id = some 4;
        seed_device = device;
        max_depth = 1;
        max_devices = 1;
        status = created;
        started_at = none;
        completed_at = none;
      })
      (record node { config_id = none; state = ready } ∷ node ∷ [])).2
    ≡ collect_device 8 ∷ finalize_mission ∷ []
unfolding retry_mission_audit is_retried credential_for_device
retried = refl

abbrev body : MissionCreate
body = record {
  seed_device_id = 0;
  framework = "cis_cisco_ios_v1";
  authorized_networks = "a11-a11111" ∷ [];
  max_depth = 9;
  max_devices = 900;
}

abbrev made : Created
made =
    new_mission settings resolver body (some 1) ("a11-a11111" ∷ [])
      (record { device = device; tables = tables; claimed = false })

mission_created : create_network_mission settings resolver body (some 1) tables ≡ ok made
unfolding create_network_mission is_valid_body require_vault frameworks lookup get_device_for_access
    acting_device_user device_by_id access_found authorize_or_claim_device authorize_owned
    require_org_role has_role seed_address create_in_scope or_422 validate_requested_scope
    administrative_scope require_subnets split parse_network_scope parse_entries check_network
    is_blocked is_blocked_v4 strip assert_connectable_target resolve_host check_records
    check_address check_scope scope_of codes before
mission_created = refl

create_network_mission-IsConfined_example :
    (made.mission.status ≡ created)
    × (made.mission.max_depth ≤ min body.max_depth settings.discovery_max_depth)
    × (made.mission.max_devices ≤ min body.max_devices settings.discovery_max_devices)
    × ((seed : String) × (a : Address) × (nets : List Network) × (device.management_address
          ≡ some seed)
        × (resolver.parse_address seed ≡ some a)
        × (is_blocked a ≡ false)
        × (parse_network_scope resolver body.authorized_networks ≡ ok nets)
        × (parse_network_scope resolver made.authorized_networks ≡ ok nets)
        × (any (is_in a) nets ≡ true)
        × (any (is_in a) administrative ≡ true))
create_network_mission-IsConfined_example =
    create_network_mission-IsConfined settings resolver body (some 1) tables round_trip
      administrative_found (λ e. cc) prints mission_created
