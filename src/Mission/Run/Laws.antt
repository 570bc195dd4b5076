-- ===== src/Mission/Run/Laws.antt =====
-- What a whole run of `run_network_mission` leaves in the tables.
use valsec.Prelude.{
  keep, ◌≢◌, none, ◌⊎◌, All-map, All-keep, ℕ, zero, suc, ◌+◌, ◌≤◌, String, Bool, true, false, none,
  some, List, [], ◌∷◌, ◌++◌, ◌≡◌, refl, length, ok, >>=-eq-ok, sym, arith, All, All-append,
  Result-cases, any, ◌||◌, Bool-cases, if-elim, inl, inr, ◌==◌,
}
use valsec.Mission.Types.{
  MissionStatus, collecting, ready_for_review, remediation_pending, remediating, completed,
  partially_completed, failed, cancelled, Mission, auditing, created, discovering, Device, Node,
  DeviceState, audit_queued, is_audit_queued, is_seed, is_live, same_id, same_text, update_node,
}
use valsec.Mission.Discovery.{Network, Survey, Visit, going, aborted, after_visit}
use valsec.Mission.Discovery.Termination.{traverse-total, length-update_node}
use valsec.Mission.Discovery.Scope.{Cleared, NodeOk, EntryOk, traverse-InScope}
use valsec.Mission.Discovery.Unqueued.{IsUnqueued, AllUnqueued, traverse-AllUnqueued}
use valsec.Mission.Run.{
  Run, text_or_empty, is_eligible, dispatched, dispatch_ready, promote_seed, finish, finish_visit,
  stop, seed_node, survey_from, with_seed, pin_seed, start, log, run_network_mission, find_address,
}

length-dispatch_ready :
    (takes : Node → Bool) (quota : ℕ) (ns : List Node)
    → length (dispatch_ready takes quota ns).0 ≡ length ns
unfolding dispatch_ready
length-dispatch_ready takes zero ns = refl
length-dispatch_ready takes (suc quota) [] = refl
length-dispatch_ready takes (suc quota) (n ∷ ns) =
    ground (arith, length-dispatch_ready takes quota ns, length-dispatch_ready takes (suc quota) ns)

dispatched_done : (b : Bool) (n : Node) → is_eligible (dispatched b n) ≡ false
dispatched_done true n = refl
dispatched_done false n = refl

-- With a quota for every row none is left over.
dispatch_ready_complete :
    (takes : Node → Bool) (quota : ℕ) (ns : List Node)
    → length ns ≤ quota
    → All (λ n. is_eligible n ≡ false) (dispatch_ready takes quota ns).0
unfolding dispatch_ready
dispatch_ready_complete takes zero [] h = tt
dispatch_ready_complete takes (suc quota) [] h = tt
dispatch_ready_complete takes zero (n ∷ ns) h = absurd (omega arith)
dispatch_ready_complete takes (suc quota) (n ∷ ns) h = elim (Bool-cases (is_eligible n)) [
  | inl chosen ↦
      rw chosen (dispatched_done (takes n) n, dispatch_ready_complete takes quota ns (omega arith))
  | inr passed ↦ rw passed (passed, dispatch_ready_complete takes (suc quota) ns (omega arith))
]

live_of_eligible : (n : Node) → is_eligible n ≡ true → is_live n.state ≡ true
live_of_eligible n h = ground arith

live_of_seed : (s : DeviceState) → is_seed s ≡ true → is_live s ≡ true
live_of_seed s h = ground arith

keep_none : (ns : List Node) → All (λ n. is_eligible n ≡ false) ns → keep is_eligible ns ≡ []
keep_none [] h = refl
keep_none (n ∷ ns) (e, h) = rw e (keep_none ns h)

settled_dispatch :
    (status : MissionStatus) (ns : List Node)
    → (status ≡ auditing → All (λ n. is_eligible n ≡ false) ns)
    → (status ≢ auditing) ⊎ (keep is_eligible ns ≡ [])
settled_dispatch auditing ns h = inr (keep_none ns (h refl))
settled_dispatch created ns h = inl (λ e. cc)
settled_dispatch discovering ns h = inl (λ e. cc)
settled_dispatch collecting ns h = inl (λ e. cc)
settled_dispatch ready_for_review ns h = inl (λ e. cc)
settled_dispatch remediation_pending ns h = inl (λ e. cc)
settled_dispatch remediating ns h = inl (λ e. cc)
settled_dispatch completed ns h = inl (λ e. cc)
settled_dispatch partially_completed ns h = inl (λ e. cc)
settled_dispatch failed ns h = inl (λ e. cc)
settled_dispatch cancelled ns h = inl (λ e. cc)

abbrev pub is_queued : Node → Bool
is_queued n = is_audit_queued n.state

or_true : (b : Bool) {c : Bool} → c ≡ true → (b || c) ≡ true
or_true b e = ground arith

self_first : (id : ℕ) (ids : List ℕ) → any (λ k. k == id) (id ∷ ids) ≡ true
self_first id ids = ground arith

unqueued_state : (s : DeviceState) → s ≢ audit_queued → is_audit_queued s ≡ false
unqueued_state s idle = ground arith

module _ (net : Network) (m : Mission) where
  dispatched-NodeOk :
      (b : Bool) (n : Node) → is_eligible n ≡ true → NodeOk net m n → NodeOk net m (dispatched b n)
  dispatched-NodeOk true n e h = (h.0, λ _. h.1 (live_of_eligible n e))
  dispatched-NodeOk false n e h = (h.0, λ q. cc)

  dispatch_ready-NodeOk :
      (takes : Node → Bool) (quota : ℕ) (ns : List Node)
      → All (NodeOk net m) ns
      → All (NodeOk net m) (dispatch_ready takes quota ns).0
  unfolding dispatch_ready
  dispatch_ready-NodeOk takes zero ns h = h
  dispatch_ready-NodeOk takes (suc quota) [] h = tt
  dispatch_ready-NodeOk takes (suc quota) (n ∷ ns) (ok_n, h) = elim (Bool-cases (is_eligible n)) [
    | inl chosen ↦
        rw chosen
          (dispatched-NodeOk (takes n) n chosen ok_n, dispatch_ready-NodeOk takes quota ns h)
    | inr passed ↦ rw passed (ok_n, dispatch_ready-NodeOk takes (suc quota) ns h)
  ]

  promote-NodeOk : (n : Node) → NodeOk net m n → NodeOk net m (promote_seed n)
  promote-NodeOk n h = elim (Bool-cases (is_seed n.state)) [
    | inl first ↦ rw first (h.0, λ _. h.1 (live_of_seed n.state first))
    | inr later ↦ rw later h
  ]

  promote_seed-NodeOk :
      (id : ℕ) (ns : List Node)
      → All (NodeOk net m) ns
      → All (NodeOk net m) (update_node id promote_seed ns)
  unfolding update_node
  promote_seed-NodeOk id [] h = tt
  promote_seed-NodeOk id (n ∷ ns) (h, hs) =
      (if-elim (NodeOk net m) (n.id == id) (promote-NodeOk n h) h, promote_seed-NodeOk id ns hs)

  -- Every row that is queued for its audit has a task.
  abbrev pub HasTasks : List Node → List ℕ → Type 0
  HasTasks ns tasks = All (λ n. any (λ id. id == n.id) tasks ≡ true) (keep is_queued ns)

  widen : (ns : List Node) (id : ℕ) (tasks : List ℕ) → HasTasks ns tasks → HasTasks ns (id ∷ tasks)
  widen ns id tasks h = All-map _ _ (keep is_queued ns) (λ n e. or_true (id == n.id) e) h

  no_tasks : (tasks : List ℕ) (rows : List Node) → All IsUnqueued rows → HasTasks rows tasks
  no_tasks tasks [] h = tt
  no_tasks tasks (n ∷ rows) (idle, h) = rw (unqueued_state n.state idle) (no_tasks tasks rows h)

  dispatch_ready-HasTasks :
      (takes : Node → Bool) (quota : ℕ) (ns : List Node)
      → All IsUnqueued ns
      → HasTasks (dispatch_ready takes quota ns).0 (dispatch_ready takes quota ns).1
  unfolding dispatch_ready
  dispatch_ready-HasTasks takes zero ns h = no_tasks [] ns h
  dispatch_ready-HasTasks takes (suc quota) [] h = tt
  dispatch_ready-HasTasks takes (suc quota) (n ∷ ns) (idle, h) = elim (Bool-cases (is_eligible n)) [
    | inr passed ↦
        rw (passed, unqueued_state n.state idle) (dispatch_ready-HasTasks takes (suc quota) ns h)
    | inl chosen ↦ elim (Bool-cases (takes n)) [
      | inr refused ↦ rw (chosen, refused) (dispatch_ready-HasTasks takes quota ns h)
      | inl taken ↦
          rw (chosen, taken)
            (
              self_first n.id _,
              widen (dispatch_ready takes quota ns).0 n.id (dispatch_ready takes quota ns).1
                  (dispatch_ready-HasTasks takes quota ns h),
            )
    ]
  ]

  promote_seed-Unqueued :
      (id : ℕ) (ns : List Node)
      → All IsUnqueued ns
      → All IsUnqueued (update_node id promote_seed ns)
  unfolding update_node
  promote_seed-Unqueued id [] h = tt
  promote_seed-Unqueued id (n ∷ ns) (idle, h) = (
    if-elim IsUnqueued (n.id == id) (if-elim IsUnqueued (is_seed n.state) (λ e. cc) idle) idle,
    promote_seed-Unqueued id ns h,
  )

  -- What a finished run satisfies.
  abbrev pub Settled : Run → Type 0
  Settled r =
      (length r.survey.nodes ≤ m.max_devices + 1)
      × All (NodeOk net m) r.survey.nodes
      × HasTasks r.survey.nodes r.tasks
      × (r.mission.status ≡ auditing → All (λ n. is_eligible n ≡ false) r.survey.nodes)

  finish-Settled :
      (takes : Node → Bool) (now id : ℕ) (s : Survey)
      → length s.nodes ≤ m.max_devices + 1
      → All (NodeOk net m) s.nodes
      → All IsUnqueued s.nodes
      → Settled (finish takes now id m s)
  unfolding finish
  finish-Settled takes now id s few rows idle =
      let promoted = update_node id promote_seed s.nodes in
      let fits : length promoted ≤ m.max_devices + 1 =
        omega (arith, length-update_node id promote_seed s.nodes) in
      (
        omega (arith, length-dispatch_ready takes (m.max_devices + 1) promoted),
        dispatch_ready-NodeOk takes (m.max_devices + 1) promoted
            (promote_seed-NodeOk id s.nodes rows),
        dispatch_ready-HasTasks takes (m.max_devices + 1) promoted
            (promote_seed-Unqueued id s.nodes idle),
        λ _. dispatch_ready_complete takes (m.max_devices + 1) promoted fits,
      )

  finish_visit-Settled :
      (takes : Node → Bool) (now id : ℕ) (v : Visit)
      → length (after_visit v).nodes ≤ m.max_devices + 1
      → All (NodeOk net m) (after_visit v).nodes
      → AllUnqueued (after_visit v)
      → Settled (finish_visit takes now id m v)
  finish_visit-Settled takes now id (going s) few rows idle =
      finish-Settled takes now id s few rows idle
  finish_visit-Settled takes now id (aborted s) few rows idle =
      (few, rows, no_tasks [] s.nodes idle, λ e. cc)

  survey_from-Settled :
      (takes : Node → Bool) (now fuel : ℕ) (pinned : String) (node : Node) (s : Survey)
      → m.max_devices + 2 ≤ fuel
      → length s.nodes ≡ 1
      → All (NodeOk net m) s.nodes
      → All IsUnqueued s.nodes
      → EntryOk net m (node, m.seed_device)
      → (r : Run) × (survey_from net takes now fuel m pinned node s ≡ some r) × Settled r
  unfolding survey_from
  survey_from-Settled takes now fuel pinned node s enough one rows idle entry =
      let s0 = record s { seen = pinned ∷ []; queue = (node, m.seed_device) ∷ [] } in
      let (v, result, seen, grown) = traverse-total net fuel m s0 (omega arith) (omega arith) in
      let scope = traverse-InScope net m fuel s0 v (rows, (entry, tt)) result in
      (
        finish_visit takes now node.id m v,
        rw (result, survey_from),
        finish_visit-Settled takes now node.id v (omega arith) scope.0
            (traverse-AllUnqueued net m fuel s0 v idle result),
      )

  pin_seed-ok :
      (device : Device) {pinned : String}
      → pin_seed net device ≡ ok pinned
      → Cleared net m pinned × (same_text device.management_address pinned ≡ true)
  unfolding pin_seed
  pin_seed-ok device {pinned} e =
      let (p, answer, test) = >>=-eq-ok (net.guard (text_or_empty device.management_address)) _ e in
      elim (Bool-cases (same_text device.management_address p)) [
        | inl same ↦
            let at : p ≡ pinned = ground (arith, test, same) in
            ((text_or_empty device.management_address, rw (sym at) answer), rw (sym at) same)
        | inr other ↦ absurd (ground (arith, test, other))
      ]

  seed-InScope :
      (device : Device) (n : Node) (pinned : String)
      → n.address ≡ pinned
      → n.depth ≡ 0
      → Cleared net m pinned × (same_text device.management_address pinned ≡ true)
      → same_id device.org_id m.organization_id ≡ true
      → EntryOk net m (n, device)
  seed-InScope device n pinned at top (cleared, same) own =
      (omega arith, rw at cleared, rw at same, own)

  with_seed-Settled :
      (takes : Node → Bool) (now fuel : ℕ) (pinned : String) (s : Survey)
      → m.max_devices + 2 ≤ fuel
      → s.nodes ≡ []
      → Cleared net m pinned × (same_text m.seed_device.management_address pinned ≡ true)
      → same_id m.seed_device.org_id m.organization_id ≡ true
      → (r : Run) × (with_seed net takes now fuel m pinned none s ≡ some r) × Settled r
  unfolding with_seed
  with_seed-Settled takes now fuel pinned s enough fresh cleared own =
      let node = seed_node m.seed_device pinned (length s.nodes) in
      let row : NodeOk net m node = (omega arith, λ _. (λ e. cc, cleared.0)) in
      survey_from-Settled takes now fuel pinned node
        (log "device_discovered" (some m.seed_device.id)
          (record s { nodes = s.nodes ++ node ∷ [] }))
        enough (rw fresh refl)
        (All-append (NodeOk net m) s.nodes (node ∷ []) (rw fresh tt) (row, tt))
        (All-append IsUnqueued s.nodes (node ∷ []) (rw fresh tt) ((λ e. cc), tt))
        (seed-InScope m.seed_device node pinned refl refl cleared own)

  find_none : (pinned : String) {ns : List Node} → ns ≡ [] → find_address pinned ns ≡ none
  unfolding find_address
  find_none pinned fresh = rw fresh refl

  start-Settled :
      (takes : Node → Bool) (now fuel : ℕ) (s : Survey)
      → m.max_devices + 2 ≤ fuel
      → s.nodes ≡ []
      → same_id m.seed_device.org_id m.organization_id ≡ true
      → (r : Run) × (start net takes now fuel m s ≡ some r) × Settled r
  unfolding start
  start-Settled takes now fuel s enough fresh own =
      elim (Result-cases (pin_seed net m.seed_device)) [
        | inl (e, refused) ↦ (
          stop now "target_rejected" (some m.seed_device.id) m s,
          rw (refused, start) refl,
          (rw fresh (omega arith), rw fresh tt, rw fresh tt, λ e. cc),
        )
        | inr (pinned, cleared) ↦
            let gone : find_address pinned s.nodes ≡ none = find_none pinned fresh in
            let (r, runs, settled) =
              with_seed-Settled takes now fuel pinned s enough fresh
                (pin_seed-ok m.seed_device cleared) own in
            (r, rw (cleared, gone, start) runs, settled)
      ]

-- For a created mission of the seed device's own organization with no rows yet, and with fuel for
-- at least max_devices + 2 rounds, the task returns, and in the rows it leaves: there are at most
-- max_devices + 1; each is within max_depth; each that is a seed, ready or queued for its audit
-- has a device, and an address that the target guard returned; each that is queued for its audit
-- has its collection task among those that were queued; and the mission is not auditing, or no
-- row with a device is left ready.
pub run_network_mission-Settled :
    (net : Network) (takes : Node → Bool) (now fuel : ℕ) (m : Mission) (s : Survey)
    → m.status ≡ created
    → m.max_devices + 2 ≤ fuel
    → s.nodes ≡ []
    → same_id m.seed_device.org_id m.organization_id ≡ true
    → (r : Run) × (run_network_mission net takes now fuel m s ≡ some r)
      × (length r.survey.nodes ≤ m.max_devices + 1)
      × All (λ n. n.depth ≤ m.max_depth) r.survey.nodes
      × All
          (λ n. (n.device_id ≢ none) × Cleared net m n.address)
          (keep (λ n. is_live n.state) r.survey.nodes)
      × All
          (λ n. any (λ id. id == n.id) r.tasks ≡ true)
          (keep (λ n. is_audit_queued n.state) r.survey.nodes)
      × ((r.mission.status ≢ auditing) ⊎ (keep is_eligible r.survey.nodes ≡ []))
unfolding run_network_mission
run_network_mission-Settled net takes now fuel m s waiting enough fresh own =
    let (r, runs, (few, rows, tasks, none_left)) =
      start-Settled net (record m { status = discovering; started_at = some now }) takes now fuel
        (log "mission_started" none s) enough fresh own in
    (
      r,
      rw waiting runs,
      few,
      All-map (NodeOk net m) (λ n. n.depth ≤ m.max_depth) r.survey.nodes (λ n h. h.0) rows,
      All-keep (NodeOk net m) _ (λ n. is_live n.state) r.survey.nodes (λ n live h. h.1 live) rows,
      tasks,
      settled_dispatch r.mission.status r.survey.nodes none_left,
    )
