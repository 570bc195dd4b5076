-- ===== src/Mission/Run.antt =====
-- The task `run_network_mission` (backend/tasks/network_missions.py) around its traversal. Times
-- are numbers. Whether a queue takes a task is a parameter; the final poll is taken to be queued.
-- Rows are dispatched in the order of creation, which is one of depth.
pub mod Laws
use valsec.Prelude.{
  ℕ, zero, suc, ◌+◌, String, Bool, true, false, not, ◌&&◌, Option, none, some, List, [], ◌∷◌, ◌++◌,
  ◌==◌, ◌is◌, length, is_empty, is_some, if◌then◌else◌, Result, ok, err, ◌>>=◌,
}
use valsec.Errors.{TargetError, unsafe_target}
use valsec.Mission.Types.{
  Mission, MissionStatus, discovering, collecting, auditing, failed, Device, Node, Event, Access,
  event, seed, ready, audit_queued, collection_failed, is_created, is_seed, is_ready, same_text,
  update_node,
}
use valsec.Mission.Discovery.{Network, Survey, Visit, going, aborted, traverse}

-- The tables after the task: the mission, its survey, the nodes whose collection was queued, and
-- whether the final poll was.
pub record Run : Type 0 where
  pub mission : Mission
  pub survey : Survey
  pub tasks : List ℕ
  pub polled : Bool

abbrev pub text_or_empty : Option String → String
text_or_empty none = ""
text_or_empty (some s) = s

abbrev pub log : String → Option ℕ → Survey → Survey
log kind device_id s = record s { events = s.events ++ event kind device_id ∷ [] }

abbrev stop : ℕ → String → Option ℕ → Mission → Survey → Run
stop now kind device_id m s = record {
  mission = record m { status = failed; completed_at = some now };
  survey = log kind device_id s;
  tasks = [];
  polled = false;
}

-- `state == ready` and `device_id IS NOT NULL`
abbrev pub is_eligible : Node → Bool
is_eligible n = is_ready n.state && is_some n.device_id

abbrev dispatched : Bool → Node → Node
dispatched true n = record n { state = audit_queued }
dispatched false n = record n {
  state = collection_failed;
  reason = some "Collection task dispatch failed";
}

abbrev queued : Bool → Node → List ℕ
queued true n = n.id ∷ []
queued false n = []

-- The loop over the eligible rows, up to a number of them: the rows, and the tasks queued.
unfoldable pub dispatch_ready : (Node → Bool) → ℕ → List Node → List Node × List ℕ
dispatch_ready takes zero ns = (ns, [])
dispatch_ready takes (suc quota) [] = ([], [])
dispatch_ready takes (suc quota) (n ∷ ns) =
    let after = dispatch_ready takes quota ns in
    let skipped = dispatch_ready takes (suc quota) ns in
    if is_eligible n
    then (dispatched (takes n) n ∷ after.0, queued (takes n) n ++ after.1)
    else (n ∷ skipped.0, skipped.1)

abbrev promote_seed : Node → Node
promote_seed n = if is_seed n.state then record n { state = ready } else n

-- From the end of the traversal to the return.
unfoldable pub finish : (Node → Bool) → ℕ → ℕ → Mission → Survey → Run
finish takes now seed_id m s =
    let rows = update_node seed_id promote_seed s.nodes in
    let (rows', tasks) = dispatch_ready takes (m.max_devices + 1) rows in
    record {
      mission =
          if is_empty tasks
          then record m { status = failed; completed_at = some now }
          else record m { status = auditing };
      survey = record s { nodes = rows' };
      tasks = tasks;
      polled = not (is_empty tasks);
    }

abbrev finish_visit : (Node → Bool) → ℕ → ℕ → Mission → Visit → Run
finish_visit takes now seed_id m (going s) = finish takes now seed_id m s
finish_visit takes now seed_id m (aborted s) = stop now "mission_failed" none m s

abbrev pub seed_node : Device → String → ℕ → Node
seed_node device pinned id = record {
  id = id;
  device_id = some device.id;
  config_id = none;
  address = pinned;
  parent_address = none;
  depth = 0;
  vendor_hint = some device.vendor;
  platform_hint = some device.display_name;
  discovery_sources = "seed" ∷ [];
  state = seed;
  reason = none;
}

unfoldable pub find_address : String → List Node → Option Node
find_address address [] = none
find_address address (n ∷ ns) = if n.address is address then some n else find_address address ns

-- The traversal from a seed row, and what follows.
unfoldable pub survey_from :
    Network → (Node → Bool) → ℕ → ℕ → Mission → String → Node → Survey → Option Run
survey_from net takes now fuel m pinned node s =
    elim (traverse net fuel m
      (record s { seen = pinned ∷ []; queue = (node, m.seed_device) ∷ [] })) [
        | none ↦ none
        | some v ↦ some (finish_visit takes now node.id m v)
      ]

unfoldable pub with_seed :
    Network → (Node → Bool) → ℕ → ℕ → Mission → String → Option Node → Survey → Option Run
with_seed net takes now fuel m pinned (some node) s = survey_from net takes now fuel m pinned node s
with_seed net takes now fuel m pinned none s =
    let node = seed_node m.seed_device pinned (length s.nodes) in
    survey_from net takes now fuel m pinned node
      (log "device_discovered" (some m.seed_device.id) (record s { nodes = s.nodes ++ node ∷ [] }))

-- `pinned_seed != seed.management_address` is an unsafe target too.
unfoldable pub pin_seed : Network → Device → Result TargetError String
pin_seed net device = net.guard (text_or_empty device.management_address) >>= λ pinned.
    if same_text device.management_address pinned
    then ok pinned
    else err (unsafe_target "Seed no longer resolves to its registered address")

unfoldable pub start : Network → (Node → Bool) → ℕ → ℕ → Mission → Survey → Option Run
unfolding find_address
start net takes now fuel m s = elim (pin_seed net m.seed_device) [
  | err e ↦ some (stop now "target_rejected" (some m.seed_device.id) m s)
  | ok pinned ↦ with_seed net takes now fuel m pinned (find_address pinned s.nodes) s
]

-- The whole task on a mission that was found; `none` means that the fuel ran out.
unfoldable pub run_network_mission : Network → (Node → Bool) → ℕ → ℕ → Mission → Survey → Option Run
run_network_mission net takes now fuel m s =
    if is_created m.status
    then start net takes now fuel (record m { status = discovering; started_at = some now })
        (log "mission_started" none s)
    else some (record { mission = m; survey = s; tasks = []; polled = false })
