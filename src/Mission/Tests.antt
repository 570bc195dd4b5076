-- ===== src/Mission/Tests.antt =====
-- A mission on a network of two devices.
use valsec.Prelude.{
  any, ◌==◌, false, ℕ, Option, ◌+◌, ◌≤◌, String, Bool, true, none, some, List, [], ◌∷◌, ◌≡◌, refl,
  ◌≢◌, ◌⊎◌, ok, err, All, keep, Result, arith, length, ◌is◌, if◌then◌else◌,
}
use valsec.Errors.{TargetError, unsafe_target, PullFailure}
use valsec.Mission.Types.{
  is_audit_queued, ready, Mission, created, auditing, Device, Credential, Node, Candidate, is_live,
}
use valsec.Mission.Discovery.{Network, Survey, Visit, after_visit, traverse}
use valsec.Mission.Discovery.Termination.{traverse-total}
use valsec.Mission.Discovery.Scope.{Cleared, InScope, traverse-InScope}
use valsec.Mission.Run.{Run, is_eligible, run_network_mission, seed_node}
use valsec.Mission.Run.Laws.{run_network_mission-Settled}
use valsec.Mission.Collect.{Collection, collect_mission_device}
use valsec.Mission.Collect.Laws.{Collected, collect_mission_device_once}

abbrev guard : String → Result TargetError String
guard address =
    if address is "10.0.0.1"
    then ok address
    else if address is "10.0.0.2"
    then ok address
    else err (unsafe_target "outside")

abbrev retrieve : Credential → Result PullFailure String
retrieve c = ok "secret"

abbrev neighbors : Device → String → Result PullFailure (List Candidate)
neighbors d secret = ok (
    record {
      address = "10.0.0.2";
      sources = "cdp" ∷ [];
      vendor_hint = some "Cisco";
      system_name = some "r2";
    }
    ∷ record { address = "8.8.8.8"; sources = "arp" ∷ []; vendor_hint = none; system_name = none }
    ∷ [])

abbrev net : Network
net = record {
  guard = guard;
  credentials = record { id = 0; device_id = 0; credential_type = "ssh"; username = "u" } ∷ [];
  retrieve = retrieve;
  neighbors = neighbors;
}

abbrev seed_device : Device
seed_device = record {
  id = 0;
  org_id = some 7;
  display_name = "r1";
  vendor = "cisco";
  os_type = "ios";
  management_address = some "10.0.0.1";
}

abbrev mission : Mission
mission = record {
  organization_id = some 7;
  seed_device = seed_device;
  max_depth = 2;
  max_devices = 5;
  status = created;
  started_at = none;
  completed_at = none;
}

abbrev blank : Survey
blank = record {
  nodes = [];
  devices = seed_device ∷ [];
  events = [];
  accesses = [];
  seen = [];
  queue = [];
}

abbrev takes : Node → Bool
takes n = true

run_network_mission-Settled_example :
    (r : Run) × (run_network_mission net takes 9 7 mission blank ≡ some r)
    × (length r.survey.nodes ≤ 6)
    × All (λ n. n.depth ≤ 2) r.survey.nodes
    × All
        (λ n. (n.device_id ≢ none) × Cleared net mission n.address)
        (keep (λ n. is_live n.state) r.survey.nodes)
    × All
        (λ n. any (λ id. id == n.id) r.tasks ≡ true)
        (keep (λ n. is_audit_queued n.state) r.survey.nodes)
    × ((r.mission.status ≢ auditing) ⊎ (keep is_eligible r.survey.nodes ≡ []))
run_network_mission-Settled_example =
    run_network_mission-Settled net takes 9 7 mission blank refl (omega arith) refl refl

abbrev queued_seed : Survey
queued_seed = record blank {
  seen = "10.0.0.1" ∷ [];
  queue = (seed_node seed_device "10.0.0.1" 0, seed_device) ∷ [];
}

traverse-total_example :
    (v : Visit) × (traverse net 9 mission queued_seed ≡ some v)
    × (length (after_visit v).seen ≤ 6)
    × (length (after_visit v).nodes + 1 ≡ 0 + length (after_visit v).seen)
traverse-total_example = traverse-total net 9 mission queued_seed (omega arith) (omega arith)

queued_seed-InScope : InScope net mission queued_seed
queued_seed-InScope = (tt, ((omega arith, ("10.0.0.1", refl), refl, refl), tt))

traverse-InScope_example :
    InScope net mission
      (after_visit (traverse-total net 9 mission queued_seed (omega arith) (omega arith)).0)
traverse-InScope_example =
    traverse-InScope net mission 9 queued_seed _ queued_seed-InScope
      (traverse-total net 9 mission queued_seed (omega arith) (omega arith)).1

abbrev pull : Credential → Result PullFailure (ℕ × Bool)
pull c = ok (4, false)

abbrev uncollected : Collection
uncollected = record {
  node = record (seed_node seed_device "10.0.0.1" 0) { state = ready };
  events = [];
  pulls = [];
  raised = none;
}

abbrev ssh : Option Credential
ssh = some (record { id = 0; device_id = 0; credential_type = "ssh"; username = "u" })

collect_mission_device_once_example :
    Collected (collect_mission_device pull ssh uncollected)
    × (((collect_mission_device pull ssh uncollected).node.config_id ≡ none)
        ⊎ (collect_mission_device pull ssh (collect_mission_device pull ssh uncollected)
            ≡ collect_mission_device pull ssh uncollected))
collect_mission_device_once_example = collect_mission_device_once pull pull ssh ssh uncollected refl
