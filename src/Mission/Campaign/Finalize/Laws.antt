-- ===== src/Mission/Campaign/Finalize/Laws.antt =====
-- What the finalization of a campaign says of the mission.
use valsec.Prelude.{
  ◌<◌, ℕ, ◌≤◌, Bool, true, false, not, List, [], ◌∷◌, map, ◌≡◌, refl, ◌↔◌, All, keep, any, all,
  arith, Bool-cases, inl, inr, ltb, ◌&&◌, if-elim, length,
}
use valsec.Mission.Types.{Mission, completed, Event}
use valsec.Mission.Campaign.{
  CampaignStatus, campaign_completed, Target, Campaign, is_success, mark_campaign_complete,
}
use valsec.Mission.Campaign.Rollup.{campaign_rollup_lem}
use valsec.Mission.Campaign.Finalize.{
  audit_done, is_verified, settle_target, is_terminal, is_completed, Final, done, close_mission,
  close_campaign, statuses, is_busy, finalize_remediation_campaign,
}

settle_target-Done :
    (t : Target)
    → is_verified (settle_target t).status ≡ true
    → audit_done (settle_target t).verification_config ≡ true
unfolding settle_target
settle_target-Done t h = ground arith

settled-Done :
    (ts : List Target)
    → All
        (λ t. audit_done t.verification_config ≡ true)
        (keep (λ t. is_verified t.status) (map settle_target ts))
settled-Done [] = tt
settled-Done (t ∷ ts) = elim (Bool-cases (is_verified (settle_target t).status)) [
  | inl proven ↦ rw proven (settle_target-Done t proven, settled-Done ts)
  | inr other ↦ rw other (settled-Done ts)
]

no_rest :
    (others : List CampaignStatus)
    → all is_completed others ≡ true
    → any (λ s. not (is_terminal s)) others ≡ false
no_rest [] h = refl
no_rest (s ∷ others) h = ground (arith, no_rest others)

is_completed_iff : (s : CampaignStatus) → (is_completed s ≡ true) ↔ (s ≡ campaign_completed)
is_completed_iff s = ground arith

close_mission-completed :
    (now : ℕ) (campaign : Campaign) (others : List CampaignStatus) (mission : Mission)
    (events : List Event)
    → ((close_mission now campaign others mission events).mission.status ≡ completed)
      ↔ ((campaign.status ≡ campaign_completed) × (all is_completed others ≡ true))
unfolding close_mission
close_mission-completed now campaign others mission events =
    ground (arith, no_rest others, is_completed_iff campaign.status)

close_mission-campaign :
    (now : ℕ) (campaign : Campaign) (others : List CampaignStatus) (mission : Mission)
    (events : List Event)
    → (close_mission now campaign others mission events).campaign ≡ campaign
unfolding close_mission
close_mission-campaign now campaign others mission events =
    if-elim (λ (f : Final). f.campaign ≡ campaign) (any (λ s. not (is_terminal s)) others) refl refl

close_campaign-Done :
    (now : ℕ) (campaign : Campaign)
    → All
        (λ t. audit_done t.verification_config ≡ true)
        (keep (λ t. is_verified t.status) (close_campaign now campaign).targets)
unfolding close_campaign
close_campaign-Done now campaign = settled-Done campaign.targets

close_campaign_iff :
    (now : ℕ) (campaign : Campaign)
    → ((close_campaign now campaign).status ≡ campaign_completed) ↔ (
        (0 < length (statuses (close_campaign now campaign).targets))
        × (all is_success (statuses (close_campaign now campaign).targets) ≡ true))
unfolding close_campaign mark_campaign_complete
close_campaign_iff now campaign =
    (campaign_rollup_lem (statuses (map settle_target campaign.targets))).0

spent_polls : (busy : Bool) {room : Bool} → room ≡ false → (busy && room) ≡ false
spent_polls busy e = ground (arith, e)

-- Once the polls are used up the task never asks for another. Then every target that is left
-- verified and has an audit has a complete one, and the mission is completed exactly if the
-- campaign has targets that all are verified or already compliant and every other campaign of the
-- mission is completed.
pub finalize_remediation_campaign_final :
    (now retries limit : ℕ) (campaign : Campaign) (others : List CampaignStatus) (mission : Mission)
    (events : List Event)
    → limit ≤ retries
    → (f : Final) × (finalize_remediation_campaign now retries limit campaign others mission events
        ≡ done f)
      × All
          (λ t. audit_done t.verification_config ≡ true)
          (keep (λ t. is_verified t.status) f.campaign.targets)
      × ((f.mission.status ≡ completed) ↔ (
          (0 < length (statuses f.campaign.targets))
          × (all is_success (statuses f.campaign.targets) ≡ true)
          × (all is_completed others ≡ true)))
unfolding finalize_remediation_campaign
finalize_remediation_campaign_final now retries limit campaign others mission events spent =
    let closed = close_campaign now campaign in
    let final = close_mission now closed others mission events in
    let over : ltb retries limit ≡ false = ground (arith, spent) in
    let keeps = close_mission-campaign now closed others mission events in
    let ends = close_mission-completed now closed others mission events in
    let rolled = close_campaign_iff now campaign in
    (
      final,
      rw (spent_polls (any is_busy campaign.targets) over) refl,
      rw keeps (close_campaign-Done now campaign),
      rw keeps (
        λ h.
            let (whole, rest) = ends.0 h in
            let (some_, all_) = rolled.0 whole in (some_, all_, rest),
        λ (some_, all_, rest). ends.1 (rolled.1 (some_, all_), rest),
      ),
    )
