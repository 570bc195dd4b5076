-- ===== src/Mission/Routes/Steps.antt =====
-- What one approval and one execution of a campaign leave, and who may approve.
use valsec.Prelude.{
  ℕ, String, Bool, true, false, not, ◌&&◌, ◌||◌, Option, none, some, List, [], ◌∷◌, ◌≡◌, refl, ap,
  sym, ◌∙◌, inl, inr, Result, ok, err, ◌>>◌, raise_if, >>=-eq-ok, if-eq, arith, eq_iff, ◌is◌,
  is_blank, strip, All,
}
use valsec.Errors.{HttpException, http}
use valsec.Access.{owner_roles, has_role, Tables}
use valsec.Remediation.Execution.{
  Action, is_applied, approve_row, approve_text, approve_finding_action,
}
use valsec.Mission.Types.{MissionStatus}
use valsec.Mission.Campaign.{
  CampaignStatus, pending_approval, campaign_approved, executing, target_approved,
}
use valsec.Mission.Routes.{Settings, Task, require_vault, current_user, role_or_404}
use valsec.Mission.Routes.Campaigns.{
  CampaignTarget, CampaignRow, approve_target, approve_targets, is_pending, is_approved, is_creator,
  approve_campaign, campaign_tasks, execute_campaign, campaign_access,
}

-- The target has its action, whose text is that of its finding; it is risky only if that was
-- confirmed.
abbrev pub IsApprovedTarget : Bool → CampaignTarget → Type 0
IsApprovedTarget confirmed t =
    (action : Action) × (t.remediation_action ≡ some action)
    × (t.finding.remediation_cli ≡ some action.remediation_text)
    × (t.status ≡ target_approved)
    × ((action.risky && not confirmed) ≡ false)

abbrev text_of : Result HttpException Action → String
text_of (ok action) = action.remediation_text
text_of (err e) = ""

approve_row-text :
    (vendor cli : String) (o : Option Action) {action : Action}
    → approve_row vendor cli o ≡ ok action
    → action.remediation_text ≡ cli
unfolding approve_row
approve_row-text vendor cli none e = sym (ap text_of e)
approve_row-text vendor cli (some old) {action} e =
    elim (if-eq (not (old.remediation_text is cli)) e) [
      | inl (differs, e1) ↦ cc
      | inr (same, e1) ↦
          let at : old.remediation_text ≡ cli = (eq_iff _ _).0 (ground (arith, same)) in
          elim (if-eq (not (is_applied old.status)) e1) [
            | inl (renewed, e2) ↦ sym (ap text_of e2) ∙ at
            | inr (kept, e2) ↦ sym (ap text_of e2) ∙ at
          ]
    ]

approve_text-text :
    (vendor : String) (cli : Option String) (o : Option Action) {action : Action}
    → approve_text vendor cli o ≡ ok action
    → cli ≡ some action.remediation_text
unfolding approve_text
approve_text-text vendor none o e = cc
approve_text-text vendor (some cli) o e = elim (if-eq (is_blank cli || is_blank (strip cli)) e) [
  | inl (blank, e1) ↦ cc
  | inr (filled, e1) ↦ ap some (sym (approve_row-text vendor cli o e1))
]

approve_target-IsApprovedTarget :
    (confirm : Bool) (t : CampaignTarget) {t' : CampaignTarget}
    → approve_target confirm t ≡ ok t'
    → IsApprovedTarget confirm t'
unfolding approve_target approve_finding_action
approve_target-IsApprovedTarget confirm t {t'} e =
    let (action, approved, e1) =
      >>=-eq-ok
        (approve_finding_action t.finding.vendor
          (record { remediation_cli = t.finding.remediation_cli; action = t.finding.action }))
        _ e in
    elim (if-eq (action.risky && not confirm) e1) [
      | inl (risky, e2) ↦ cc
      | inr (safe, e2) ↦
          let made : record t {
            finding = record t.finding { action = some action };
            remediation_action = some action;
            status = target_approved;
          }
              ≡ t' =
            cc in
          rw (← made) (action, refl, approve_text-text _ _ _ approved, refl, safe)
    ]

approve_targets-All :
    (confirm : Bool) (ts : List CampaignTarget) {ts' : List CampaignTarget}
    → approve_targets confirm ts ≡ ok ts'
    → All (IsApprovedTarget confirm) ts'
unfolding approve_targets
approve_targets-All confirm [] {ts'} e = let at : [] ≡ ts' = cc in rw (← at) tt
approve_targets-All confirm (t ∷ ts) {ts'} e =
    let (approved, first, e1) = >>=-eq-ok (approve_target confirm t) _ e in
    let (others, rest, e2) = >>=-eq-ok (approve_targets confirm ts) _ e1 in
    let at : approved ∷ others ≡ ts' = cc in
    rw (← at) (approve_target-IsApprovedTarget confirm t first, approve_targets-All confirm ts rest)

pending_status : (status : CampaignStatus) → is_pending status ≡ true → status ≡ pending_approval
pending_status pending_approval e = refl
pending_status _ e = cc

approved_status : (status : CampaignStatus) → is_approved status ≡ true → status ≡ campaign_approved
approved_status campaign_approved e = refl
approved_status _ e = cc

raise_if-ok :
    (test : Bool) (E : HttpException) {u : Unit {0}} → raise_if test E ≡ ok u → test ≡ false
raise_if-ok true E e = cc
raise_if-ok false E e = refl

true_unless : (b : Bool) → not b ≡ false → b ≡ true
true_unless true e = refl
true_unless false e = cc

-- What an execution leaves.
pub execute_campaign-ok :
    (c c' : CampaignRow) (m : MissionStatus) (tasks : List Task)
    → execute_campaign c ≡ ok (c', m, tasks)
    → (is_approved c.status ≡ true)
      × (record c { status = executing } ≡ c')
      × (campaign_tasks c.targets ≡ tasks)
unfolding execute_campaign
execute_campaign-ok c c' m tasks e =
    let (u, approved, made) =
      >>=-eq-ok
        (raise_if (not (is_approved c.status))
          (http 409 "Campaign requires explicit owner approval before execution"))
        _ e in
    (true_unless _ (raise_if-ok _ _ approved), cc, cc)

-- What an approval leaves.
pub approve_campaign-ok :
    (separate confirm : Bool) (user : Option ℕ) (now : ℕ) (c : CampaignRow) {c' : CampaignRow}
    → approve_campaign separate confirm user now c ≡ ok c'
    → (is_pending c.status ≡ true)
      × (separate && is_creator c'.created_by_user_id user ≡ false)
      × (c'.status ≡ campaign_approved)
      × (c'.approved_by_user_id ≡ user)
      × All (IsApprovedTarget confirm) c'.targets
unfolding approve_campaign
approve_campaign-ok separate confirm user now c {c'} e =
    let (u, checked, e1) =
      >>=-eq-ok
        (raise_if (not (is_pending c.status)) (http 409 "Campaign is not pending approval")
          >> raise_if (separate && is_creator c.created_by_user_id user)
              (http 409 "Organization policy requires a different owner to approve this campaign"))
        _ e in
    let (v, pending, checked2) =
      >>=-eq-ok (raise_if (not (is_pending c.status)) (http 409 "Campaign is not pending approval"))
        _ checked in
    let (targets, approved, e2) = >>=-eq-ok (approve_targets confirm c.targets) _ e1 in
    let made : record c {
      status = campaign_approved;
      approved_by_user_id = user;
      approved_at = some now;
      targets = targets;
    }
        ≡ c' =
      cc in
    let was : is_pending c.status ≡ true = true_unless _ (raise_if-ok _ _ pending) in
    rw (← made)
      (was, raise_if-ok _ _ checked2, refl, refl, approve_targets-All confirm c.targets approved)

owner_of_access :
    (t : Tables) (org : ℕ) (session who : Option ℕ) {u : Unit {0}}
    → current_user true session ≡ ok who
    → role_or_404 "Remediation campaign not found" t who (some org) owner_roles ≡ ok u
    → (approver : ℕ) × (who ≡ some approver)
      × (has_role t.memberships approver org owner_roles ≡ true)
unfolding current_user role_or_404
owner_of_access t org none who known allowed = cc
owner_of_access t org (some user) none known allowed = cc
owner_of_access t org (some user) (some approver) known allowed = (
  approver,
  refl,
  let passed = raise_if-ok (not (has_role t.memberships approver org owner_roles)) _ allowed in
      ground (arith, passed),
)

-- With authentication, access as an owner is access of a user who owns the organization.
pub campaign_access-owner :
    (settings : Settings) (t : Tables) (org : ℕ) (session : Option ℕ) {user : Option ℕ}
    → settings.require_auth ≡ true
    → campaign_access settings t (some org) owner_roles session ≡ ok user
    → (approver : ℕ) × (user ≡ some approver)
      × (has_role t.memberships approver org owner_roles ≡ true)
unfolding campaign_access
campaign_access-owner settings t org session {user} auth e =
    let (who, known, e1) =
      >>=-eq-ok (require_vault settings >> current_user settings.require_auth session) _ e in
    let (v, vault, e2) = >>=-eq-ok (require_vault settings) _ known in
    let (w, allowed, e3) =
      >>=-eq-ok (role_or_404 "Remediation campaign not found" t who (some org) owner_roles) _ e1 in
    let at : who ≡ user = cc in
    let e4 : current_user true session ≡ ok who = rw (← auth) e2 in
    let (approver, found, owns) = owner_of_access t org session who e4 allowed in
    (approver, sym at ∙ found, owns)
