-- ===== src/Mission/Review/Tests.antt =====
-- The review of a mission with one audited row.
use valsec.Prelude.{true, false, none, some, List, [], ◌∷◌, ◌≡◌, ◌↔◌, All, keep, any, arith}
use valsec.Mission.Types.{
  Mission, auditing, ready_for_review, failed, audited, collection_failed, audit_queued, Device,
}
use valsec.Mission.Campaign.{config_complete}
use valsec.Mission.Run.{seed_node}
use valsec.Mission.Review.{Row, has_complete, has_failed, settle_rows, finalize_network_mission}
use valsec.Mission.Review.Laws.{finalize_network_mission_final}

abbrev device : Device
device = record {
  id = 3;
  org_id = some 7;
  display_name = "r1";
  vendor = "cisco";
  os_type = "ios";
  management_address = some "10.0.0.1";
}

abbrev mission : Mission
mission = record {
  organization_id = some 7;
  seed_device = device;
  max_depth = 2;
  max_devices = 5;
  status = auditing;
  started_at = some 1;
  completed_at = none;
}

abbrev rows : List Row
rows =
    record {
      node = record (seed_node device "10.0.0.1" 0) { state = audit_queued };
      config = some (record { id = 1; status = config_complete });
    }
    ∷ []

finalize_network_mission_final_example :
    let r = finalize_network_mission 60 60 mission rows [] in
    (r.retried ≡ false)
    × All (λ row. row.node.state ≡ audited) (keep has_complete r.rows)
    × All (λ row. row.node.state ≡ collection_failed) (keep has_failed r.rows)
    × ((settle_rows r.rows).1.0 ≡ [])
    × ((r.mission.status ≡ ready_for_review) ↔ (any has_complete rows ≡ true))
    × ((r.mission.status ≡ failed) ↔ (any has_complete rows ≡ false))
finalize_network_mission_final_example =
    finalize_network_mission_final 60 60 mission rows [] (omega arith)
