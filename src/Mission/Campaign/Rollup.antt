-- ===== src/Mission/Campaign/Rollup.antt =====
-- What the rollup of a campaign says of its targets.
use valsec.Prelude.{
  ◌+◌, ◌≤◌, ◌<◌, ◌≡◌, refl, Bool, true, false, List, [], ◌∷◌, ◌↔◌, count_if, count_if-le, length,
  any, all, arith,
}
use valsec.Mission.Campaign.{
  TargetStatus, is_success, is_failure, successes, failures, campaign_rollup, campaign_completed,
  campaign_partial, campaign_failed,
}

module _ {ℓ} {A : Type ℓ} (p : A → Bool) where
  count_if-all : (xs : List A) → (count_if p xs ≡ length xs) ↔ (all p xs ≡ true)
  count_if-all [] = (λ _. refl, λ _. refl)
  count_if-all (x ∷ xs) = ground (arith, count_if-all xs, count_if-le p xs)

  count_if-any : (xs : List A) → (0 < count_if p xs) ↔ (any p xs ≡ true)
  count_if-any [] = (λ h. absurd (omega arith), λ h. cc)
  count_if-any (x ∷ xs) = ground (arith, count_if-any xs)

disjoint : (s : TargetStatus) → is_success s ≡ true → is_failure s ≡ false
disjoint s h = ground arith

outcomes-le : (ss : List TargetStatus) → successes ss + failures ss ≤ length ss
outcomes-le [] = omega arith
outcomes-le (s ∷ ss) = ground (arith, outcomes-le ss, disjoint s)

-- A campaign is completed exactly if it has targets and each succeeded, failed exactly if it has
-- targets and each failed, and partially completed exactly if some succeeded and some failed.
pub campaign_rollup_lem :
    (ss : List TargetStatus)
    → ((campaign_rollup ss ≡ campaign_completed) ↔ ((0 < length ss) × (all is_success ss ≡ true)))
      × ((campaign_rollup ss ≡ campaign_failed) ↔ ((0 < length ss) × (all is_failure ss ≡ true)))
      × ((campaign_rollup ss ≡ campaign_partial)
          ↔ ((any is_success ss ≡ true) × (any is_failure ss ≡ true)))
unfolding campaign_rollup
campaign_rollup_lem ss = (
  ground (arith, count_if-all is_success ss, outcomes-le ss),
  ground (arith, count_if-all is_failure ss, outcomes-le ss),
  ground (arith, count_if-any is_success ss, count_if-any is_failure ss),
)
