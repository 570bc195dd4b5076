-- ===== src/Mission/Campaign/Execute.antt =====
-- The task `execute_campaign_target` (backend/tasks/network_missions.py). Its store is what the
-- database holds when the task ends, with the texts that were handed to the connector. What the
-- task asks others is a parameter.
pub mod Safety
pub mod Calls
use valsec.Prelude.{
  ℕ, String, Bool, true, false, ◌||◌, Option, none, some, List, [], ◌∷◌, ◌++◌, Result, ok, err,
  is_blank, ◌is◌, ◌==◌, ltb, ◌&&◌, if◌then◌else◌, is_some, is_empty,
}
use valsec.Errors.{
  TargetError, PullFailure, PushFailure, push_auth, push_unreachable, pending_rollback, push_error,
  push_other,
}
use valsec.Compliance.Verdicts.{Verdict, is_pass}
use valsec.Remediation.Execution.{
  Action, ActionStatus, applied, applying, is_applied, PushResult, start_applying, record_evidence,
  execute_approved_action, mark_action_failed,
}
use valsec.Mission.Types.{
  Device, Credential, Event, Access, event, credential_for_device, same_text,
}
use valsec.Mission.Campaign.{
  Config, ConfigStatus, config_queued, config_complete, CampaignStatus, campaign_approved,
  executing, TargetStatus, target_applying, verified, already_compliant, target_failed, rolled_back,
  target_unreachable, Target, is_success, mark_campaign_complete,
}

-- A row of `compliance_results` with its `Config`.
pub record AuditRow : Type 0 where
  pub config_id : ℕ
  pub device_id : ℕ
  pub config_status : ConfigStatus
  pub completed_at : Option ℕ
  pub framework : String
  pub control_id : String
  pub verdict : Verdict

pub record Services : Type 0 where
  -- `assert_connectable_target` at the mission's networks.
  pub guard : String → Result TargetError String
  -- The rows of `device_credentials`.
  pub credentials : List Credential
  -- `retrieve_stored_credential`: the plaintext, or what the vault raises.
  pub retrieve : Credential → Result PullFailure String
  -- The connector of `execute_approved_action` at an address, with a plaintext and a text.
  pub push : Option String → String → String → Result PushFailure PushResult
  -- `persist_device_config` of a snapshot: the id, and whether there were dispatch errors.
  pub persist : String → Result PullFailure (ℕ × Bool)
  -- The audits of all devices: `compliance_results` joined with `configs`.
  pub audits : List AuditRow
  -- `message[:500]`
  pub truncate : String → String
  -- `datetime.utcnow()`
  pub now : ℕ

-- The address and the text of a call of the connector.
pub record Sent : Type 0 where
  pub host : Option String
  pub text : String

pub record Store : Type 0 where
  pub target : Target
  -- The statuses of the campaign's other targets.
  pub others : List TargetStatus
  pub campaign_status : CampaignStatus
  pub campaign_completed_at : Option ℕ
  pub framework : String
  pub control_id : String
  -- `target.finding.config.completed_at`
  pub finding_completed_at : Option ℕ
  pub events : List Event
  pub accesses : List Access
  pub sent : List Sent

abbrev pub with_target : Target → Store → Store
with_target t s = record s { target = t }

-- `target.status = failed`, with a message, and complete.
abbrev pub fail_target : ℕ → String → Store → Store
fail_target now message s =
    with_target
      (record s.target {
        status = target_failed;
        failure_message = some message;
        completed_at = some now;
      })
      s

-- What `persist_device_config` leaves in a target: verified unless the dispatch had errors.
abbrev pub verify_target : String → ℕ × Bool → Target → Target
verify_target message (id, true) t = record t {
  verification_config = some (record { id = id; status = config_queued });
  status = target_failed;
  failure_message = some message;
}
verify_target message (id, false) t = record t {
  verification_config = some (record { id = id; status = config_queued });
  status = verified;
  failure_message = none;
}

abbrev pub complete_at : ℕ → Target → Target
complete_at now t = record t { completed_at = some now }

-- The end of a call: the store, and the exception that leaves the task, if there is one.
abbrev pub Outcome : Type 0
Outcome = Store × Option PullFailure

abbrev pub is_executable : CampaignStatus → Bool
is_executable campaign_approved = true
is_executable executing = true
is_executable _ = false

abbrev pub is_applying : ActionStatus → Bool
is_applying applying = true
is_applying _ = false

-- `pinned`: nothing where the guard refuses.
abbrev pub pinned_by : Result TargetError String → Option String
pinned_by (ok address) = some address
pinned_by (err e) = none

abbrev pub same_address : Option String → Option String → Bool
same_address none none = true
same_address none (some b) = false
same_address (some a) none = false
same_address (some a) (some b) = a is b

abbrev pub is_config_complete : ConfigStatus → Bool
is_config_complete config_complete = true
is_config_complete _ = false

-- `a > b` of two nullable times.
abbrev pub is_later : Option ℕ → Option ℕ → Bool
is_later (some a) (some b) = ltb b a
is_later _ _ = false

-- The filter of the query for a newer audit in which the control passes.
unfoldable pub is_newer_pass : Store → AuditRow → Bool
is_newer_pass s row =
    row.device_id == s.target.device.id
    && (is_config_complete row.config_status
        && (is_later row.completed_at s.finding_completed_at
            && (row.framework is s.framework
                && (row.control_id is s.control_id && is_pass row.verdict))))

-- `newer_pass`: the configuration of the first such row.
unfoldable pub newer_pass : Store → List AuditRow → Option Config
newer_pass s [] = none
newer_pass s (row ∷ rows) =
    if is_newer_pass s row
    then some (record { id = row.config_id; status = row.config_status })
    else newer_pass s rows

abbrev pub or_blank : Option String → String
or_blank none = ""
or_blank (some t) = t

module _ (services : Services) where
  open services use {guard, credentials, retrieve, push, persist, audits, truncate, now}

  -- An action whose evidence was committed and whose target was not.
  unfoldable pub recover_from : String → Result PullFailure (ℕ × Bool) → Store → Outcome
  recover_from snapshot (err e) s = (s, some e)
  recover_from snapshot (ok answer) s = (
    with_target
        (complete_at now (verify_target "Post-change audit dispatch failed" answer s.target)) s,
    none,
  )

  unfoldable pub recover : Option String → Store → Outcome
  unfolding recover_from
  recover none s = (fail_target now "Applied action has no verification snapshot" s, none)
  recover (some snapshot) s =
      if is_blank snapshot
      then (fail_target now "Applied action has no verification snapshot" s, none)
      else recover_from snapshot (persist snapshot) s

  -- A prior delivery whose outcome is not known.
  unfoldable pub ambiguous : Store → Outcome
  unfolding mark_campaign_complete
  ambiguous s =
      let (status, completed_at) =
        mark_campaign_complete now (target_failed ∷ s.others) s.campaign_completed_at in
      (
        record (fail_target now "Prior apply outcome is ambiguous; operator review required" s) {
          campaign_status = status;
          campaign_completed_at = completed_at;
        },
        none,
      )

  -- `mark_action_failed` and the two columns of the target.
  abbrev pub push_failed : String → TargetStatus → String → Action → Store → Store
  push_failed message status shown action s =
      with_target
        (record s.target {
          remediation_action = some (mark_action_failed truncate message action);
          status = status;
          failure_message = some shown;
        })
        s

  -- What follows the handlers and the `else` clause.
  abbrev pub conclude : Store → Outcome
  conclude s = (
    record s {
      target = complete_at now s.target;
      events = s.events ++ event "remediation_completed" (some s.target.device.id) ∷ [];
    },
    none,
  )

  unfoldable pub verify_push : Result PullFailure (ℕ × Bool) → Store → Outcome
  verify_push (err e) s = (s, some e)
  verify_push (ok answer) s = conclude (
      with_target
        (verify_target "Change verified but compliance verification dispatch failed" answer
          s.target)
        s)

  -- The handlers, for the action as `execute_approved_action` left it.
  unfoldable pub after_push : Action → Result PushFailure PushResult → Store → Outcome
  after_push action (err push_auth) s =
      let message : String = "Stored credential was rejected during remediation" in
      conclude (push_failed message target_failed message action s)
  after_push action (err push_unreachable) s =
      let message : String = "Device unreachable during remediation" in
      conclude (push_failed message target_unreachable message action s)
  after_push action (err (pending_rollback e)) s =
      conclude (push_failed e rolled_back (truncate e) action s)
  after_push action (err (push_error e)) s =
      conclude (push_failed e target_failed (truncate e) action s)
  after_push action (err (push_other e)) s =
      let message : String = "Remediation failed; review the worker event for this target" in
      conclude (push_failed message target_failed message action s)
  after_push action (ok result) s =
      verify_push (persist result.post_change_snapshot)
        (with_target (record s.target { remediation_action = some action }) s)

  -- The store that is committed before the connector is called.
  abbrev pub begin : Credential → Store → Store
  begin credential s = record s {
    target = record s.target { status = target_applying; started_at = some now };
    campaign_status = executing;
    accesses =
        s.accesses
        ++ record { credential_id = credential.id; purpose = "network_mission_remediation" } ∷ [];
  }

  abbrev pub send : Action → Store → Store
  send action s = record s {
    sent =
        s.sent
        ++ record { host = s.target.device.management_address; text = action.remediation_text }
          ∷ [];
  }

  unfoldable pub apply_with : Credential → Action → Result PullFailure String → Store → Outcome
  apply_with credential action (err e) s = (s, some e)
  apply_with credential action (ok plaintext) s =
      let (action', result) =
        execute_approved_action (push s.target.device.management_address plaintext) now action in
      after_push action' result (send action (begin credential s))

  unfoldable pub apply_pinned : Option Credential → Action → Store → Outcome
  apply_pinned none action s = (fail_target now "Stored SSH credential required" s, none)
  apply_pinned (some credential) action s =
      if same_address (pinned_by (guard (or_blank s.target.device.management_address)))
        s.target.device.management_address
      then apply_with credential action (retrieve credential) s
      else (fail_target now "Device address no longer matches its authorized target" s, none)

  -- The branch on `newer_pass`, and what follows it.
  unfoldable pub unless_compliant : Option Config → Action → Store → Outcome
  unless_compliant (some config) action s = (
    with_target
        (record s.target {
          status = already_compliant;
          verification_config = some config;
          completed_at = some now;
        })
        s,
    none,
  )
  unless_compliant none action s =
      apply_pinned (credential_for_device credentials s.target.device.id true) action s

  unfoldable pub execute_action : Option Action → Store → Outcome
  execute_action none s = (fail_target now "Approved remediation action is missing" s, none)
  execute_action (some action) s =
      if is_applied action.status
      then recover action.post_change_snapshot s
      else if is_applying action.status
      then ambiguous s
      else unless_compliant (newer_pass s audits) action s

  unfoldable pub execute_campaign_target : Store → Outcome
  execute_campaign_target s =
      if is_success s.target.status
      then (s, none)
      else if is_executable s.campaign_status
      then execute_action s.target.remediation_action s
      else (s, none)
