-- ===== src/Mission/Review.antt =====
-- The task `finalize_network_mission` (backend/tasks/network_missions.py): it waits for the audits
-- of a mission's rows and publishes the mission for review. The rows are committed before a retry.
pub mod Laws
pub mod Tests
use valsec.Prelude.{
  ℕ, ◌+◌, String, Bool, true, false, not, ◌&&◌, ◌||◌, Option, none, some, List, [], ◌∷◌, ◌++◌, map,
  any, ltb, if◌then◌else◌,
}
use valsec.Mission.Types.{
  Mission, ready_for_review, failed, DeviceState, audited, audit_queued, ready, collection_failed,
  Node, Event, event,
}
use valsec.Mission.Campaign.{
  ConfigStatus, config_complete, config_failed, config_cancelled, awaiting_training, Config,
}

-- A row with the configuration that it names.
pub record Row : Type 0 where
  pub node : Node
  pub config : Option Config

abbrev pub is_audited : DeviceState → Bool
is_audited audited = true
is_audited _ = false

-- `{audit_queued, ready}`
abbrev pub is_waiting : DeviceState → Bool
is_waiting audit_queued = true
is_waiting ready = true
is_waiting _ = false

-- The new row, its event, and whether it is still active.
unfoldable pub settle_as : Option ConfigStatus → Node → Node × (List Event × Bool)
settle_as none n = (n, ([], is_waiting n.state))
settle_as (some config_complete) n =
    if is_audited n.state
    then (n, ([], false))
    else (record n { state = audited }, (event "audit_completed" n.device_id ∷ [], false))
settle_as (some config_failed) n =
    (record n { state = collection_failed; reason = some "Audit failed" }, ([], false))
settle_as (some config_cancelled) n =
    (record n { state = collection_failed; reason = some "Audit cancelled" }, ([], false))
settle_as (some awaiting_training) n =
    (record n { reason = some "Audit awaiting operator training" }, ([], false))
settle_as (some _) n = (n, ([], true))

abbrev pub status_of : Option Config → Option ConfigStatus
status_of none = none
status_of (some c) = some c.status

abbrev pub is_status_complete : Option ConfigStatus → Bool
is_status_complete (some config_complete) = true
is_status_complete _ = false

abbrev pub is_status_failed : Option ConfigStatus → Bool
is_status_failed (some config_failed) = true
is_status_failed (some config_cancelled) = true
is_status_failed _ = false

abbrev pub has_complete : Row → Bool
has_complete r = is_status_complete (status_of r.config)

abbrev pub has_failed : Row → Bool
has_failed r = is_status_failed (status_of r.config)

-- The loop over the rows: the rows, the events, and whether one is active.
unfoldable pub settle_rows : List Row → List Row × (List Event × Bool)
unfolding settle_as
settle_rows [] = ([], ([], false))
settle_rows (r ∷ rs) =
    let (n, (events, active)) = settle_as (status_of r.config) r.node in
    let (rest, (later, others)) = settle_rows rs in
    (record r { node = n } ∷ rest, (events ++ later, active || others))

-- The tables at the end of the task, and whether it asked for a retry.
pub record Review : Type 0 where
  pub mission : Mission
  pub rows : List Row
  pub events : List Event
  pub retried : Bool

unfoldable pub finalize_network_mission : ℕ → ℕ → Mission → List Row → List Event → Review
finalize_network_mission retries limit mission rows events =
    let (rows', (added, active)) = settle_rows rows in
    if active && ltb retries limit
    then record { mission = mission; rows = rows'; events = events ++ added; retried = true }
    else record {
      mission = record mission {
        status = if any has_complete rows then ready_for_review else failed;
        completed_at = none;
      };
      rows = rows';
      events = (events ++ added) ++ event "mission_audit_ready" none ∷ [];
      retried = false;
    }
