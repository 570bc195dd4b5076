-- ===== src/Mission/Campaign.antt =====
-- The rows of remediation campaigns (backend/models.py): a campaign fixes one control on several
-- targets. Times are numbers; of a snapshot's configuration its id and its status are kept.
pub mod Execute
pub mod Rollup
pub mod Finalize
pub mod Tests
use valsec.Prelude.{
  ℕ, String, Bool, true, false, Option, some, List, ltb, ◌==◌, ◌&&◌, count_if, length,
  if◌then◌else◌,
}
use valsec.Remediation.Execution.{Action}
use valsec.Mission.Types.{MissionStatus, Device}

-- `ConfigStatus`
pub data ConfigStatus : Type 0 where
  config_queued normalising awaiting_training compliance_check : ConfigStatus
  config_complete config_failed config_cancelled : ConfigStatus

-- `RemediationCampaignStatus`
pub data CampaignStatus : Type 0 where
  pending_approval campaign_approved executing campaign_completed : CampaignStatus
  campaign_partial campaign_failed campaign_cancelled : CampaignStatus

-- `CampaignTargetStatus`
pub data TargetStatus : Type 0 where
  pending target_approved target_applying verified already_compliant : TargetStatus
  target_failed rolled_back target_unreachable : TargetStatus

pub record Config : Type 0 where
  pub id : ℕ
  pub status : ConfigStatus

pub record Target : Type 0 where
  pub device : Device
  pub remediation_action : Option Action
  pub verification_config : Option Config
  pub status : TargetStatus
  pub failure_message : Option String
  pub started_at : Option ℕ
  pub completed_at : Option ℕ

pub record Campaign : Type 0 where
  pub targets : List Target
  pub status : CampaignStatus
  pub completed_at : Option ℕ

-- `{verified, already_compliant}`
abbrev pub is_success : TargetStatus → Bool
is_success verified = true
is_success already_compliant = true
is_success _ = false

-- `{failed, rolled_back, unreachable}`
abbrev pub is_failure : TargetStatus → Bool
is_failure target_failed = true
is_failure rolled_back = true
is_failure target_unreachable = true
is_failure _ = false

-- How many targets succeeded, and how many failed.
abbrev pub successes : List TargetStatus → ℕ
successes = count_if is_success

abbrev pub failures : List TargetStatus → ℕ
failures = count_if is_failure

unfoldable pub campaign_rollup : List TargetStatus → CampaignStatus
campaign_rollup statuses =
    if ltb 0 (successes statuses) && ltb 0 (failures statuses)
    then campaign_partial
    else if ltb 0 (successes statuses) && successes statuses == length statuses
    then campaign_completed
    else if ltb 0 (failures statuses) && failures statuses == length statuses
    then campaign_failed
    else executing

-- The statuses that end a campaign in `mark_campaign_complete`.
abbrev pub is_ended : CampaignStatus → Bool
is_ended campaign_completed = true
is_ended campaign_partial = true
is_ended campaign_failed = true
is_ended _ = false

-- `mark_campaign_complete`: the new status and the new time of completion.
unfoldable pub mark_campaign_complete : ℕ → List TargetStatus → Option ℕ → CampaignStatus × Option ℕ
unfolding campaign_rollup
mark_campaign_complete now statuses completed_at =
    let status = campaign_rollup statuses in
    (status, if is_ended status then some now else completed_at)
