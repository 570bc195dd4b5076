-- ===== src/Mission/Collect.antt =====
-- The task `collect_mission_device` (backend/tasks/network_missions.py) on a row that was found.
-- The pull with a credential of the row's device is a parameter: the configuration's id and whether
-- its dispatch had errors, or what it raised.
pub mod Laws
use valsec.Prelude.{
  ℕ, String, Bool, true, false, Option, none, some, List, [], ◌∷◌, ◌++◌, Result, ok, err,
}
use valsec.Errors.{PullFailure, pull_auth, pull_unreachable, pull_target, pull_http, pull_other}
use valsec.Mission.Types.{
  Credential, DeviceState, credential_missing, unreachable, audit_queued, collection_failed, Node,
  Event, event,
}

-- The row, the events, the credentials that a pull was made with, and what left the task.
pub record Collection : Type 0 where
  pub node : Node
  pub events : List Event
  pub pulls : List Credential
  pub raised : Option PullFailure

abbrev mark : DeviceState → String → Collection → Collection
mark state reason c = record c { node = record c.node { state = state; reason = some reason } }

abbrev log_pulled : Collection → Collection
log_pulled c = record c { events = c.events ++ event "configuration_pulled" c.node.device_id ∷ [] }

unfoldable pub after_pull : Result PullFailure (ℕ × Bool) → Collection → Collection
after_pull (ok (id, true)) c = log_pulled (record c {
  node = record c.node {
    config_id = some id;
    state = collection_failed;
    reason = some "Audit dispatch failed";
  };
})
after_pull (ok (id, false)) c =
    log_pulled (record c {
      node = record c.node { config_id = some id; state = audit_queued; reason = none };
    })
after_pull (err pull_auth) c = mark credential_missing "Stored credential was rejected" c
after_pull (err pull_unreachable) c = mark unreachable "Configuration collection failed" c
after_pull (err (pull_target e)) c = mark unreachable "Configuration collection failed" c
after_pull (err (pull_http e)) c = mark unreachable "Configuration collection failed" c
after_pull (err (pull_other e)) c = record c { raised = some (pull_other e) }

unfoldable pub collect_with :
    (Credential → Result PullFailure (ℕ × Bool)) → Option Credential → Collection → Collection
collect_with pull none c = mark credential_missing "Stored device credential required" c
collect_with pull (some credential) c =
    after_pull (pull credential) (record c { pulls = c.pulls ++ credential ∷ [] })

unfoldable pub collect_as :
    (Credential → Result PullFailure (ℕ × Bool))
    → Option Credential
    → Option ℕ
    → Collection
    → Collection
collect_as pull credential none c = collect_with pull credential c
collect_as pull credential (some id) c = c

-- With the answer of `credential_for_device`.
unfoldable pub collect_mission_device :
    (Credential → Result PullFailure (ℕ × Bool)) → Option Credential → Collection → Collection
collect_mission_device pull credential c = collect_as pull credential c.node.config_id c
