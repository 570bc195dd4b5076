-- ===== src/Mission/Collect/Laws.antt =====
-- What the collection of one row leaves.
use valsec.Prelude.{
  ℕ, Bool, true, false, Option, none, some, ◌≡◌, refl, ◌⊎◌, inl, inr, Result, ok, err, is_some,
  Option-cases,
}
use valsec.Errors.{PullFailure, pull_auth, pull_unreachable, pull_target, pull_http, pull_other}
use valsec.Mission.Types.{
  Credential, audit_queued, collection_failed, credential_missing, unreachable,
}
use valsec.Mission.Collect.{
  Collection, after_pull, collect_with, collect_as, collect_mission_device,
}

-- The pull left a configuration, or the row has none and says why, or the task raised.
abbrev pub Collected : Collection → Type 0
Collected c =
    ((is_some c.node.config_id ≡ true)
      × ((c.node.state ≡ audit_queued) ⊎ (c.node.state ≡ collection_failed)))
    ⊎ (((c.node.config_id ≡ none)
          × (is_some c.node.reason ≡ true)
          × ((c.node.state ≡ credential_missing) ⊎ (c.node.state ≡ unreachable)))
        ⊎ (is_some c.raised ≡ true))

after_pull-Collected :
    (r : Result PullFailure (ℕ × Bool)) (c : Collection)
    → c.node.config_id ≡ none
    → Collected (after_pull r c)
unfolding after_pull
after_pull-Collected (ok (id, true)) c fresh = inl (refl, inr refl)
after_pull-Collected (ok (id, false)) c fresh = inl (refl, inl refl)
after_pull-Collected (err pull_auth) c fresh = inr (inl (fresh, refl, inl refl))
after_pull-Collected (err pull_unreachable) c fresh = inr (inl (fresh, refl, inr refl))
after_pull-Collected (err (pull_target e)) c fresh = inr (inl (fresh, refl, inr refl))
after_pull-Collected (err (pull_http e)) c fresh = inr (inl (fresh, refl, inr refl))
after_pull-Collected (err (pull_other e)) c fresh = inr (inr refl)

collect_as_fresh :
    (pull : Credential → Result PullFailure (ℕ × Bool)) (o : Option Credential) (id : Option ℕ)
    (c : Collection)
    → id ≡ none
    → c.node.config_id ≡ none
    → Collected (collect_as pull o id c)
unfolding collect_as collect_with
collect_as_fresh pull none none c e fresh = inr (inl (fresh, refl, inl refl))
collect_as_fresh pull (some credential) none c e fresh =
    after_pull-Collected (pull credential) _ fresh
collect_as_fresh pull o (some id) c e fresh = absurd cc

collect_as_done :
    (pull : Credential → Result PullFailure (ℕ × Bool)) (o : Option Credential) (id : Option ℕ)
    (c : Collection)
    → is_some id ≡ true
    → collect_as pull o id c ≡ c
unfolding collect_as
collect_as_done pull o none c e = absurd cc
collect_as_done pull o (some id) c e = refl

-- A collection of a row without a configuration leaves it with one, queued for its audit or
-- failed, or without one, with a reason and the state of a missing credential or an unreachable
-- device, or raises. And unless the row is left without a configuration, a second delivery,
-- whatever credential and pull it would find, changes nothing and pulls nothing.
pub collect_mission_device_once :
    (pull pull' : Credential → Result PullFailure (ℕ × Bool)) (o o' : Option Credential)
    (c : Collection)
    → c.node.config_id ≡ none
    → let first = collect_mission_device pull o c in
      Collected first
      × ((first.node.config_id ≡ none) ⊎ (collect_mission_device pull' o' first ≡ first))
unfolding collect_mission_device
collect_mission_device_once pull pull' o o' c fresh =
    let first = collect_as pull o c.node.config_id c in
    (
      collect_as_fresh pull o c.node.config_id c fresh fresh,
      elim (Option-cases first.node.config_id) [
        | inl without ↦ inl without
        | inr (id, named) ↦
            inr (collect_as_done pull' o' first.node.config_id first (rw named refl))
      ],
    )
