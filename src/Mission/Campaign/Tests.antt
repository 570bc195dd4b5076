-- ===== src/Mission/Campaign/Tests.antt =====
-- A campaign with one target.
use valsec.Prelude.{
  ℕ, ◌<◌, String, Bool, true, false, Option, none, some, [], ◌∷◌, ◌≡◌, refl, ◌⊎◌, ◌↔◌, ok, err, All,
  keep, Result, arith, length, all,
}
use valsec.Errors.{TargetError, PullFailure, PushFailure, push_unreachable}
use valsec.Remediation.Execution.{
  Action, approved, applying, is_applied, PushResult, execute_approved_action,
}
use valsec.Mission.Types.{
  Mission, remediating, completed, Device, Credential, credential_for_device, first_credential,
}
use valsec.Mission.Campaign.{
  config_complete, Target, target_approved, target_applying, verified, Campaign, campaign_approved,
  executing, is_success,
}
use valsec.Mission.Campaign.Execute.{
  newer_pass, execute_action, unless_compliant, apply_pinned, apply_with, after_push, verify_push,
  Services, Store, execute_campaign_target, is_applying, is_executable,
}
use valsec.Mission.Campaign.Execute.Calls.{
  with_push, answered, IsCleared, execute_campaign_target-sent,
}
use valsec.Mission.Campaign.Execute.Safety.{HasEvidence, execute_campaign_target-verified}
use valsec.Mission.Campaign.Finalize.{
  Final, done, audit_done, is_verified, is_completed, statuses, finalize_remediation_campaign,
}
use valsec.Mission.Campaign.Finalize.Laws.{finalize_remediation_campaign_final}

abbrev guard : String → Result TargetError String
guard address = ok address

abbrev retrieve : Credential → Result PullFailure String
retrieve c = ok "secret"

abbrev push : Option String → String → String → Result PushFailure PushResult
push host secret text =
    ok (record { pre_change_snapshot = "a"; post_change_snapshot = "b"; diff_summary = "" })

abbrev persist : String → Result PullFailure (ℕ × Bool)
persist snapshot = ok (5, false)

abbrev same : String → String
same s = s

abbrev services : Services
services = record {
  guard = guard;
  credentials = record { id = 0; device_id = 3; credential_type = "ssh"; username = "u" } ∷ [];
  retrieve = retrieve;
  push = push;
  persist = persist;
  audits = [];
  truncate = same;
  now = 9;
}

abbrev device : Device
device = record {
  id = 3;
  org_id = some 7;
  display_name = "r1";
  vendor = "cisco";
  os_type = "ios";
  management_address = some "10.0.0.1";
}

abbrev action : Action
action = record {
  status = approved;
  remediation_text = "no ip http server";
  risky = false;
  failure_message = none;
  pre_change_snapshot = none;
  post_change_snapshot = none;
  diff_summary = none;
  applied_at = none;
}

abbrev target : Target
target = record {
  device = device;
  remediation_action = some action;
  verification_config = none;
  status = target_approved;
  failure_message = none;
  started_at = none;
  completed_at = none;
}

abbrev store : Store
store = record {
  target = target;
  others = [];
  campaign_status = campaign_approved;
  campaign_completed_at = none;
  framework = "f";
  control_id = "1.1";
  finding_completed_at = some 1;
  events = [];
  accesses = [];
  sent = [];
}

abbrev dead : Option String → String → String → Result PushFailure PushResult
dead host secret text = err push_unreachable

-- The first delivery changes the device and queues the audit.
first_delivery : (execute_campaign_target services store).0.target.status ≡ verified
unfolding execute_campaign_target execute_action newer_pass unless_compliant apply_pinned apply_with
    after_push verify_push credential_for_device first_credential execute_approved_action
first_delivery = refl

execute_campaign_target-sent_example :
    (((execute_campaign_target services store).0.sent ≡ [])
      × (execute_campaign_target (with_push services dead) store
          ≡ execute_campaign_target services store))
    ⊎ ((a : Action) × (credential : Credential) × (plaintext : String) × (some action ≡ some a)
        × (is_applied a.status ≡ false)
        × (is_applying a.status ≡ false)
        × IsCleared services credential plaintext store
        × (is_executable campaign_approved ≡ true)
        × (is_success target_approved ≡ false)
        × (execute_campaign_target services store ≡ answered services credential plaintext a store))
execute_campaign_target-sent_example = execute_campaign_target-sent services dead store

execute_campaign_target-verified_example :
    HasEvidence services (execute_campaign_target services store).0.target
execute_campaign_target-verified_example =
    execute_campaign_target-verified services store (λ e. cc) first_delivery

-- What a worker that was lost while the connector ran leaves.
abbrev lost : Store
lost = record store {
  target = record target {
    remediation_action = some (record action { status = applying });
    status = target_applying;
  };
  campaign_status = executing;
}

abbrev campaign : Campaign
campaign = record {
  targets =
      record target {
        status = verified;
        verification_config = some (record { id = 5; status = config_complete });
      }
      ∷ [];
  status = executing;
  completed_at = none;
}

abbrev mission : Mission
mission = record {
  organization_id = some 7;
  seed_device = device;
  max_depth = 2;
  max_devices = 5;
  status = remediating;
  started_at = none;
  completed_at = none;
}

finalize_remediation_campaign_final_example :
    (f : Final) × (finalize_remediation_campaign 9 60 60 campaign [] mission [] ≡ done f)
    × All
        (λ t. audit_done t.verification_config ≡ true)
        (keep (λ t. is_verified t.status) f.campaign.targets)
    × ((f.mission.status ≡ completed) ↔ (
        (0 < length (statuses f.campaign.targets))
        × (all is_success (statuses f.campaign.targets) ≡ true)
        × (all is_completed [] ≡ true)))
finalize_remediation_campaign_final_example =
    finalize_remediation_campaign_final 9 60 60 campaign [] mission [] (omega arith)
