-- ===== src/Mission/Routes/Approval.antt =====
-- What the requests on a campaign establish before a device is changed.
use valsec.Prelude.{
  ℕ, Bool, true, false, ◌&&◌, ◌||◌, Option, some, List, [], ◌∷◌, ◌++◌, any, ◌≡◌, refl, ap, sym, ◌∙◌,
  ◌⊎◌, inl, inr, ok, >>=-eq-ok, arith, Result-cases, All, All-map,
}
use valsec.Access.{owner_roles, operate_roles, has_role, Tables}
use valsec.Mission.Types.{MissionStatus}
use valsec.Mission.Campaign.{pending_approval, campaign_approved, executing}
use valsec.Mission.Routes.{Settings, Task}
use valsec.Mission.Routes.Campaigns.{
  CampaignRow, is_pending, is_approved, is_creator, approve_campaign, campaign_tasks,
  execute_campaign, Request, approve, execute, Room, campaign_access, answer, serve, serve_all,
}
use valsec.Mission.Routes.Steps.{
  IsApprovedTarget, approve_campaign-ok, execute_campaign-ok, campaign_access-owner,
}

-- An approval that confirms risky changes.
abbrev pub is_confirmation : Request → Bool
is_confirmation (approve session confirm now) = confirm
is_confirmation (execute session) = false

or_assoc : (a b c : Bool) → ((a || b) || c) ≡ (a || (b || c))
or_assoc a b c = ground arith

-- The state of a campaign that no request has brought further than the confirmations allow.
module _ (settings : Settings) (t : Tables) (org : ℕ) (separate : Bool) where
  abbrev pub IsApproved : Bool → CampaignRow → Type 0
  IsApproved confirmed c =
      (approver : ℕ) × (c.approved_by_user_id ≡ some approver)
      × (has_role t.memberships approver org owner_roles ≡ true)
      × ((separate && is_creator c.created_by_user_id (some approver)) ≡ false)
      × All (IsApprovedTarget confirmed) c.targets

  abbrev pub IsSafe : Bool → Room → Type 0
  IsSafe confirmed room =
      ((room.campaign.status ≡ pending_approval) × (room.tasks ≡ []))
      ⊎ (IsApproved confirmed room.campaign
          × (((room.campaign.status ≡ campaign_approved) × (room.tasks ≡ []))
              ⊎ ((room.campaign.status ≡ executing)
                  × (room.tasks ≡ campaign_tasks room.campaign.targets))))

  IsApproved-later : (b d : Bool) (c : CampaignRow) → IsApproved b c → IsApproved (b || d) c
  IsApproved-later b d c (approver, by, owns, separated, targets) = (
    approver,
    by,
    owns,
    separated,
    All-map (IsApprovedTarget b) (IsApprovedTarget (b || d)) c.targets
        (λ target (action, has, text, status, safe).
          (action, has, text, status, ground (arith, safe)))
        targets,
  )

  IsSafe-later : (b d : Bool) (room : Room) → IsSafe b room → IsSafe (b || d) room
  IsSafe-later b d room (inl pending) = inl pending
  IsSafe-later b d room (inr (approved, rest)) =
      inr (IsApproved-later b d room.campaign approved, rest)

  IsApproved-sooner : (b d : Bool) (c : CampaignRow) → IsApproved d c → IsApproved (b || d) c
  IsApproved-sooner b d c (approver, by, owns, separated, targets) = (
    approver,
    by,
    owns,
    separated,
    All-map (IsApprovedTarget d) (IsApprovedTarget (b || d)) c.targets
        (λ target (action, has, text, status, safe).
          (action, has, text, status, ground (arith, safe)))
        targets,
  )

  pending_room :
      (b : Bool) (room : Room)
      → IsSafe b room
      → is_pending room.campaign.status ≡ true
      → room.tasks ≡ []
  pending_room b room (inl (status, nothing)) waits = nothing
  pending_room b room (inr (approved, inl (status, nothing))) waits = nothing
  pending_room b room (inr (approved, inr (status, queued))) waits =
      cc (ap is_pending status, waits)

  waiting_room :
      (b : Bool) (room : Room)
      → IsSafe b room
      → is_approved room.campaign.status ≡ true
      → IsApproved b room.campaign × (room.tasks ≡ [])
  waiting_room b room (inl (status, nothing)) waits = cc (ap is_approved status, waits)
  waiting_room b room (inr (approved, inl (status, nothing))) waits = (approved, nothing)
  waiting_room b room (inr (approved, inr (status, queued))) waits =
      cc (ap is_approved status, waits)

  -- The requests that are answered.
  approve-IsSafe :
      (b confirm : Bool) (user : Option ℕ) (now : ℕ) (room : Room) {c : CampaignRow}
      → IsSafe b room
      → (approver : ℕ) × (user ≡ some approver)
        × (has_role t.memberships approver org owner_roles ≡ true)
      → approve_campaign separate confirm user now room.campaign ≡ ok c
      → IsSafe (b || confirm) (record { campaign = c; tasks = room.tasks ++ [] })
  approve-IsSafe b confirm user now room {c} safe (approver, at, owns) e =
      let (waits, separated, status, by, targets) =
        approve_campaign-ok separate confirm user now room.campaign e in
      let owner : IsApproved confirm c = (
        approver,
        by ∙ at,
        owns,
        ap (λ u. separate && is_creator c.created_by_user_id u) (sym at) ∙ separated,
        targets,
      ) in
      inr (
        IsApproved-sooner b confirm c owner,
        inl (status, ap (λ x. x ++ []) (pending_room b room safe waits)),
      )

  execute-IsSafe :
      (b : Bool) (room : Room) (c : CampaignRow) (m : MissionStatus) (tasks : List Task)
      → IsSafe b room
      → execute_campaign room.campaign ≡ ok (c, m, tasks)
      → IsSafe (b || false) (record { campaign = c; tasks = room.tasks ++ tasks })
  execute-IsSafe b room c m tasks safe e =
      let (waits, made, queued) = execute_campaign-ok room.campaign c m tasks e in
      let (approved, nothing) = waiting_room b room safe waits in
      rw (← made, ← queued, nothing)
        (inr (IsApproved-later b false room.campaign approved, inr (refl, refl)))

  answer-IsSafe :
      (b : Bool) (request : Request) (room : Room) (c : CampaignRow) (tasks : List Task)
      → settings.require_auth ≡ true
      → IsSafe b room
      → answer settings t (some org) separate request room.campaign ≡ ok (c, tasks)
      → IsSafe (b || is_confirmation request) (record { campaign = c; tasks = room.tasks ++ tasks })
  unfolding answer
  answer-IsSafe b (approve session confirm now) room c tasks auth safe e =
      let (user, access, e1) =
        >>=-eq-ok (campaign_access settings t (some org) owner_roles session) _ e in
      let (c', approved, e2) =
        >>=-eq-ok (approve_campaign separate confirm user now room.campaign) _ e1 in
      let made : c' ≡ c = cc in
      let none_new : [] ≡ tasks = cc in
      rw (← made, ← none_new)
        (approve-IsSafe b confirm user now room safe
          (campaign_access-owner settings t org session auth access) approved)
  answer-IsSafe b (execute session) room c tasks auth safe e =
      let (user, access, e1) =
        >>=-eq-ok (campaign_access settings t (some org) operate_roles session) _ e in
      let ((c', m, queued), executed, e2) = >>=-eq-ok (execute_campaign room.campaign) _ e1 in
      let made : c' ≡ c = cc in
      let same : queued ≡ tasks = cc in
      rw (← made, ← same) (execute-IsSafe b room c' m queued safe executed)

  serve-IsSafe :
      (b : Bool) (request : Request) (room : Room)
      → settings.require_auth ≡ true
      → IsSafe b room
      → IsSafe (b || is_confirmation request) (serve settings t (some org) separate request room)
  unfolding serve
  serve-IsSafe b request room auth safe =
      elim (Result-cases (answer settings t (some org) separate request room.campaign)) [
        | inl (e, refused) ↦ rw refused (IsSafe-later b (is_confirmation request) room safe)
        | inr ((c, tasks), answered) ↦
            rw answered (answer-IsSafe b request room c tasks auth safe answered)
      ]

  serve_all-IsSafe :
      (requests : List Request) (b : Bool) (room : Room)
      → settings.require_auth ≡ true
      → IsSafe b room
      → IsSafe
          (b || any is_confirmation requests)
          (serve_all settings t (some org) separate requests room)
  unfolding serve_all
  serve_all-IsSafe [] b room auth safe = IsSafe-later b false room safe
  serve_all-IsSafe (request ∷ rest) b room auth safe =
      rw (← or_assoc b (is_confirmation request) (any is_confirmation rest)) (
        serve_all-IsSafe rest (b || is_confirmation request) _ auth
          (serve-IsSafe b request room auth safe))

  -- With authentication, take a campaign that waits for approval and any sequence of requests to
  -- approve and to execute it, of any users, the refused ones included. Afterwards it still waits
  -- and no task was queued; or the approver that it names owns the organization and, if the
  -- policy asks for it, is not the creator, each target is approved with an action whose text is
  -- that of its finding and that is risky only if some approval confirmed risky changes, and
  -- either nothing was queued or the campaign is executing and one task was queued for each
  -- target, with one that finalizes.
  pub serve_all-IsApproved :
      (requests : List Request) (c : CampaignRow)
      → settings.require_auth ≡ true
      → c.status ≡ pending_approval
      → IsSafe
          (any is_confirmation requests)
          (serve_all settings t (some org) separate requests (record { campaign = c; tasks = [] }))
  serve_all-IsApproved requests c auth fresh =
      serve_all-IsSafe requests false (record { campaign = c; tasks = [] }) auth (inl (fresh, refl))
