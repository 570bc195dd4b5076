-- ===== src/Mission/Campaign/Finalize.antt =====
-- The task `finalize_remediation_campaign` (backend/tasks/network_missions.py). The audit of a
-- target is the configuration that its `verification_config` holds; the other campaigns of the
-- mission are their statuses.
pub mod Laws
use valsec.Prelude.{
  ℕ, String, Bool, true, false, not, ◌&&◌, ◌||◌, Option, none, some, List, [], ◌∷◌, ◌++◌, map, any,
  all, ltb, if◌then◌else◌, concat,
}
use valsec.Mission.Types.{
  Mission, completed, partially_completed, remediation_pending, Event, event,
}
use valsec.Mission.Campaign.{
  ConfigStatus, config_queued, normalising, awaiting_training, compliance_check, config_complete,
  config_failed, config_cancelled, CampaignStatus, campaign_completed, campaign_partial,
  campaign_failed, campaign_cancelled, TargetStatus, pending, target_approved, target_applying,
  verified, target_failed, Config, Target, Campaign, mark_campaign_complete,
}

abbrev is_config_complete : ConfigStatus → Bool
is_config_complete config_complete = true
is_config_complete _ = false

-- `{complete, failed, cancelled, awaiting_training}`
abbrev is_audit_over : ConfigStatus → Bool
is_audit_over config_complete = true
is_audit_over config_failed = true
is_audit_over config_cancelled = true
is_audit_over awaiting_training = true
is_audit_over _ = false

-- `status.value`
abbrev config_status_text : ConfigStatus → String
config_status_text config_queued = "queued"
config_status_text normalising = "normalising"
config_status_text awaiting_training = "awaiting_training"
config_status_text compliance_check = "compliance_check"
config_status_text config_complete = "complete"
config_status_text config_failed = "failed"
config_status_text config_cancelled = "cancelled"

-- `{pending, approved, applying}`
abbrev pub is_active : TargetStatus → Bool
is_active pending = true
is_active target_approved = true
is_active target_applying = true
is_active _ = false

abbrev pub is_verified : TargetStatus → Bool
is_verified verified = true
is_verified _ = false

abbrev audit_running : Option Config → Bool
audit_running none = false
audit_running (some config) = not (is_audit_over config.status)

-- Whether the audit after the change is complete, or was not linked.
abbrev pub audit_done : Option Config → Bool
audit_done none = true
audit_done (some config) = is_config_complete config.status

abbrev audit_message : Option Config → Option String
audit_message none = none
audit_message (some config) =
    some (concat ("Post-change audit " ∷ config_status_text config.status ∷ []))

-- The body of the loop over the targets.
unfoldable pub settle_target : Target → Target
settle_target t =
    if is_verified t.status && not (audit_done t.verification_config)
    then record t { status = target_failed; failure_message = audit_message t.verification_config }
    else t

abbrev pub is_terminal : CampaignStatus → Bool
is_terminal campaign_completed = true
is_terminal campaign_partial = true
is_terminal campaign_failed = true
is_terminal campaign_cancelled = true
is_terminal _ = false

abbrev pub is_completed : CampaignStatus → Bool
is_completed campaign_completed = true
is_completed _ = false

pub record Final : Type 0 where
  pub campaign : Campaign
  pub mission : Mission
  pub events : List Event

-- `self.retry`, or the tables at the return.
pub data Poll : Type 0 where
  retry : Poll
  done : Final → Poll

abbrev pub statuses : List Target → List TargetStatus
statuses ts = map (λ (t : Target). t.status) ts

-- From the rollup to the commit.
unfoldable pub close_mission : ℕ → Campaign → List CampaignStatus → Mission → List Event → Final
close_mission now campaign others mission events =
    if any (λ s. not (is_terminal s)) others
    then record {
      campaign = campaign;
      mission = record mission { status = remediation_pending; completed_at = none };
      events = events;
    }
    else record {
      campaign = campaign;
      mission = record mission {
        status =
            if all is_completed (campaign.status ∷ others) then completed else partially_completed;
        completed_at = some now;
      };
      events = events ++ event "mission_completed" none ∷ [];
    }

unfoldable pub close_campaign : ℕ → Campaign → Campaign
unfolding settle_target
close_campaign now campaign =
    let targets = map settle_target campaign.targets in
    let (status, completed_at) =
      mark_campaign_complete now (statuses targets) campaign.completed_at in
    record { targets = targets; status = status; completed_at = completed_at }

abbrev pub is_busy : Target → Bool
is_busy t = is_active t.status || audit_running t.verification_config

unfoldable pub finalize_remediation_campaign :
    ℕ → ℕ → ℕ → Campaign → List CampaignStatus → Mission → List Event → Poll
finalize_remediation_campaign now retries limit campaign others mission events =
    if any is_busy campaign.targets && ltb retries limit
    then retry
    else done (close_mission now (close_campaign now campaign) others mission events)
