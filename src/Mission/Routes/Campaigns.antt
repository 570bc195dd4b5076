-- ===== src/Mission/Routes/Campaigns.antt =====
-- The requests of a remediation campaign (backend/routers/network_missions.py): its creation from
-- the findings of a mission, its approval and its execution. Ids are numbers; events are left out.
use valsec.Prelude.{
  ℕ, String, Bool, true, false, not, ◌&&◌, Option, none, some, List, [], ◌∷◌, ◌++◌, map, any, keep,
  ◌==◌, ◌is◌, if◌then◌else◌, Result, ok, err, ◌>>=◌, ◌>>◌, raise_if, is_some,
}
use valsec.Errors.{HttpException, http}
use valsec.Compliance.Verdicts.{Verdict, is_fail}
use valsec.Remediation.Execution.{Action, approve_finding_action}
use valsec.Mission.Types.{
  MissionStatus, remediation_pending, remediating, Node, remediation_ready, same_id,
}
use valsec.Mission.Campaign.{
  CampaignStatus, pending_approval, campaign_approved, executing, campaign_cancelled, TargetStatus,
  pending, target_approved,
}
use valsec.Access.{Role, owner_roles, operate_roles, Tables}
use valsec.Mission.Routes.{
  Settings, Task, execute_target, finalize_campaign, require_vault, current_user, role_or_404,
}

-- A row of `compliance_results` of a configuration, with its action.
pub record ResultFinding : Type 0 where
  pub id : ℕ
  pub config_id : ℕ
  pub vendor : String
  pub framework : String
  pub control_id : String
  pub title : String
  pub verdict : Verdict
  pub remediation_cli : Option String
  pub is_remediation_fallback : Bool
  pub action : Option Action

-- `RemediationCampaignTarget` with the finding that it names.
pub record CampaignTarget : Type 0 where
  pub mission_device_id : ℕ
  pub device_id : Option ℕ
  pub finding : ResultFinding
  pub remediation_action : Option Action
  pub status : TargetStatus

-- `RemediationCampaign`
pub record CampaignRow : Type 0 where
  pub framework : String
  pub control_id : String
  pub title : String
  pub status : CampaignStatus
  pub created_by_user_id : Option ℕ
  pub approved_by_user_id : Option ℕ
  pub approved_at : Option ℕ
  pub targets : List CampaignTarget

-- What a request on campaigns reads and writes of a mission.
pub record Fleet : Type 0 where
  pub framework : String
  pub status : MissionStatus
  pub nodes : List Node
  pub findings : List ResultFinding
  pub campaigns : List CampaignRow

-- The filter of the join, on a finding and on a row with its configuration.
unfoldable pub is_offered : String → String → ResultFinding → Bool
is_offered framework control_id f =
    (f.framework is framework)
    && ((f.control_id is control_id)
        && (is_fail f.verdict && (is_some f.remediation_cli && not f.is_remediation_fallback)))

unfoldable pub is_joined : ResultFinding → Node → Bool
is_joined f n = same_id n.config_id (some f.config_id) && is_some n.device_id

abbrev pub new_target : ResultFinding → Node → CampaignTarget
new_target f n = record {
  mission_device_id = n.id;
  device_id = n.device_id;
  finding = f;
  remediation_action = none;
  status = pending;
}

-- The pairs of the join, as the targets that are made of them.
unfoldable pub join_targets : String → String → List Node → List ResultFinding → List CampaignTarget
join_targets framework control_id nodes [] = []
join_targets framework control_id nodes (f ∷ fs) =
    let rest = join_targets framework control_id nodes fs in
    if is_offered framework control_id f
    then map (new_target f) (keep (is_joined f) nodes) ++ rest
    else rest

abbrev pub is_cancelled_campaign : CampaignStatus → Bool
is_cancelled_campaign campaign_cancelled = true
is_cancelled_campaign _ = false

-- A campaign of the control that is not cancelled.
unfoldable pub is_open_campaign : String → String → CampaignRow → Bool
is_open_campaign framework control_id c =
    (c.framework is framework)
    && ((c.control_id is control_id) && not (is_cancelled_campaign c.status))

-- `node.state = remediation_ready`
abbrev pub mark_ready : List CampaignTarget → Node → Node
mark_ready targets n =
    if any (λ t. t.mission_device_id == n.id) targets
    then record n { state = remediation_ready }
    else n

abbrev pub new_campaign :
    String → Option ℕ → Fleet → CampaignTarget → List CampaignTarget → CampaignRow
new_campaign control_id user fleet first targets = record {
  framework = fleet.framework;
  control_id = control_id;
  title = first.finding.title;
  status = pending_approval;
  created_by_user_id = user;
  approved_by_user_id = none;
  approved_at = none;
  targets = first ∷ targets;
}

abbrev pub add_campaign : CampaignRow → Fleet → Fleet
add_campaign c fleet = record fleet {
  status = remediation_pending;
  nodes = map (mark_ready c.targets) fleet.nodes;
  campaigns = fleet.campaigns ++ c ∷ [];
}

unfoldable pub create_targets :
    String → Option ℕ → Fleet → List CampaignTarget → Result HttpException Fleet
create_targets control_id user fleet [] =
    err (http 409 "No deterministic remediations are available for this mission control")
create_targets control_id user fleet (first ∷ targets) =
    if any (is_open_campaign fleet.framework control_id) fleet.campaigns
    then err (http 409 "A campaign already exists for this mission control")
    else ok (add_campaign (new_campaign control_id user fleet first targets) fleet)

-- `create_campaign`, past the lookup of the mission.
unfoldable pub create_campaign : String → Option ℕ → Fleet → Result HttpException Fleet
create_campaign control_id user fleet =
    create_targets control_id user fleet
      (join_targets fleet.framework control_id fleet.nodes fleet.findings)

-- The body of the loop of `approve_campaign`.
unfoldable pub approve_target : Bool → CampaignTarget → Result HttpException CampaignTarget
approve_target confirm_risky t =
    approve_finding_action t.finding.vendor
      (record { remediation_cli = t.finding.remediation_cli; action = t.finding.action })
    >>= λ action.
        if action.risky && not confirm_risky
        then err (http 409 "Campaign contains risky changes; explicit confirmation is required")
        else ok (record t {
          finding = record t.finding { action = some action };
          remediation_action = some action;
          status = target_approved;
        })

unfoldable pub approve_targets :
    Bool → List CampaignTarget → Result HttpException (List CampaignTarget)
approve_targets confirm_risky [] = ok []
approve_targets confirm_risky (t ∷ ts) = approve_target confirm_risky t >>= λ approved.
    approve_targets confirm_risky ts >>= λ others. ok (approved ∷ others)

abbrev pub is_pending : CampaignStatus → Bool
is_pending pending_approval = true
is_pending _ = false

abbrev pub is_approved : CampaignStatus → Bool
is_approved campaign_approved = true
is_approved _ = false

-- The creator approves: a user who is the one that the row names.
abbrev pub is_creator : Option ℕ → Option ℕ → Bool
is_creator creator none = false
is_creator creator (some user) = same_id creator (some user)

-- `approve_campaign`, past the lookup of the campaign, with the organization's policy.
unfoldable pub approve_campaign :
    Bool → Bool → Option ℕ → ℕ → CampaignRow → Result HttpException CampaignRow
approve_campaign separate_approver confirm_risky user now c =
    raise_if (not (is_pending c.status)) (http 409 "Campaign is not pending approval")
    >> raise_if (separate_approver && is_creator c.created_by_user_id user)
        (http 409 "Organization policy requires a different owner to approve this campaign")
    >>= λ _. approve_targets confirm_risky c.targets >>= λ targets. ok (record c {
      status = campaign_approved;
      approved_by_user_id = user;
      approved_at = some now;
      targets = targets;
    })

-- The tasks of `execute_campaign`: one for each target, then the finalization.
abbrev pub campaign_tasks : List CampaignTarget → List Task
campaign_tasks targets =
    map (λ t. execute_target t.finding.id t.mission_device_id) targets ++ finalize_campaign ∷ []

-- `execute_campaign`, past the lookup of the campaign: the row, the mission's status, the tasks.
unfoldable pub execute_campaign :
    CampaignRow → Result HttpException (CampaignRow × MissionStatus × List Task)
execute_campaign c =
    raise_if (not (is_approved c.status))
      (http 409 "Campaign requires explicit owner approval before execution")
    >> ok (record c { status = executing }, remediating, campaign_tasks c.targets)

-- A request of a user, with what it sends along and the time.
pub data Request : Type 0 where
  approve : Option ℕ → Bool → ℕ → Request
  execute : Option ℕ → Request

-- A campaign with the tasks that its requests queued.
pub record Room : Type 0 where
  pub campaign : CampaignRow
  pub tasks : List Task

-- `_campaign_or_404` for a campaign that exists.
unfoldable pub campaign_access :
    Settings → Tables → Option ℕ → (Role → Bool) → Option ℕ → Result HttpException (Option ℕ)
campaign_access settings t org roles session =
    require_vault settings >> current_user settings.require_auth session >>= λ user.
    role_or_404 "Remediation campaign not found" t user org roles >> ok user

module _ (settings : Settings) (t : Tables) (org : Option ℕ) (separate_approver : Bool) where
  unfoldable pub answer : Request → CampaignRow → Result HttpException (CampaignRow × List Task)
  answer (approve session confirm_risky now) c =
      campaign_access settings t org owner_roles session >>= λ user.
      approve_campaign separate_approver confirm_risky user now c >>= λ c'. ok (c', [])
  answer (execute session) c = campaign_access settings t org operate_roles session >>= λ user.
      execute_campaign c >>= λ (c', mission, tasks). ok (c', tasks)

  -- A request that raises leaves the campaign.
  abbrev pub after_answer : Room → Result HttpException (CampaignRow × List Task) → Room
  after_answer room (err e) = room
  after_answer room (ok (c, tasks)) = record { campaign = c; tasks = room.tasks ++ tasks }

  unfoldable pub serve : Request → Room → Room
  serve request room = after_answer room (answer request room.campaign)

  unfoldable pub serve_all : List Request → Room → Room
  serve_all [] room = room
  serve_all (request ∷ rest) room = serve_all rest (serve request room)
