-- ===== src/Mission/Discovery/Scope.antt =====
-- Where a traversal goes: which rows are collected, and which devices are logged into.
use valsec.Prelude.{
  ℕ, zero, suc, sym, ◌∙◌, ◌≤◌, ◌<◌, String, true, false, Option, none, some, List, [], ◌∷◌, ◌++◌,
  ◌≡◌, refl, ◌≢◌, leb, Result, ok, err, arith, All, All-append, if-elim, ltb, member, ◌==◌,
  Bool-cases, Option-cases, inl, inr, eq_refl, length,
}
use valsec.Errors.{
  TargetError, PullFailure, pull_auth, pull_unreachable, pull_target, pull_http, pull_other,
}
use valsec.Mission.Types.{
  Mission, Device, Credential, Node, Candidate, DeviceState, is_live, same_id, same_text,
  update_node, find_device, find_owned, resolve_device,
}
use valsec.Mission.Discovery.{
  Network, Survey, Visit, going, aborted, profile_of, pop, pop_from, after_visit, obtain,
  is_foreign, admit, authorize_with, authorize, assign, identify_as, identify, visit_candidate,
  visit_candidates, ssh_credential, discover, after_discovery, visit, traverse, set_node,
}
use valsec.Mission.Discovery.Termination.{
  Visit-cases, traverse_empty, traverse_full, traverse_aborted, traverse_going,
}

same_id_refl : (a : Option ℕ) → same_id a a ≡ true
same_id_refl none = refl
same_id_refl (some a) = ground arith

find_device-match :
    (vendor address : String) (ds : List Device) {d : Device}
    → find_device vendor address ds ≡ some d
    → same_text d.management_address address ≡ true
unfolding find_device
find_device-match vendor address [] e = cc
find_device-match vendor address (x ∷ ds) {d} e =
    ground (arith, find_device-match vendor address ds {d = d})

find_owned-match :
    (org_id : Option ℕ) (vendor address : String) (ds : List Device) {d : Device}
    → find_owned org_id vendor address ds ≡ some d
    → (same_text d.management_address address ≡ true) × (same_id d.org_id org_id ≡ true)
unfolding find_owned
find_owned-match org_id vendor address [] e = cc
find_owned-match org_id vendor address (x ∷ ds) {d} e =
    ground (arith, find_owned-match org_id vendor address ds {d = d})

resolve_device-match :
    (org_id : Option ℕ) (vendor os_type name address : String) (ds : List Device)
    → let d = (resolve_device org_id vendor os_type name address ds).0 in
      (same_text d.management_address address ≡ true) × (same_id d.org_id org_id ≡ true)
unfolding resolve_device
resolve_device-match org_id vendor os_type name address ds =
    elim (Option-cases (find_owned org_id vendor address ds)) [
      | inl unknown ↦ rw (unknown, resolve_device) (eq_refl address, same_id_refl org_id)
      | inr (d, found) ↦
          rw (found, resolve_device) (find_owned-match org_id vendor address ds found)
    ]

module _ (net : Network) (m : Mission) where
  -- An address that the target guard has returned.
  abbrev pub Cleared : String → Type 0
  Cleared address = (asked : String) × (net.guard asked ≡ ok address)

  -- A row is within the depth, and if it is live it has a device and a cleared address.
  abbrev pub NodeOk : Node → Type 0
  NodeOk n =
      (n.depth ≤ m.max_depth) × (is_live n.state ≡ true → (n.device_id ≢ none) × Cleared n.address)

  -- A device to log into is the mission's own and stands at the cleared address of its row.
  abbrev pub EntryOk : Node × Device → Type 0
  EntryOk (n, d) =
      (n.depth ≤ m.max_depth)
      × Cleared n.address
      × (same_text d.management_address n.address ≡ true)
      × (same_id d.org_id m.organization_id ≡ true)

  abbrev pub InScope : Survey → Type 0
  InScope s = All NodeOk s.nodes × All EntryOk s.queue

  admit-InScope :
      (device : Device) (n : Node) (q : List (Node × Device)) (s : Survey)
      → InScope s
      → NodeOk n
      → All EntryOk q
      → InScope (admit device n q s)
  admit-InScope device n q s (nodes, queue) row entries = (
    All-append NodeOk s.nodes (n ∷ []) nodes (row, tt),
    All-append EntryOk s.queue q queue entries,
  )

  authorize_with-InScope :
      (o : Option Credential) (node : Node) (device : Device) (s : Survey)
      → InScope s
      → node.depth ≤ m.max_depth
      → node.device_id ≢ none
      → EntryOk (node, device)
      → InScope (authorize_with net o m node device s)
  unfolding authorize_with
  authorize_with-InScope none node device s h depth known entry =
      admit-InScope device _ [] s h (depth, λ e. cc) tt
  authorize_with-InScope (some c) node device s h depth known entry =
      if-elim InScope _ (admit-InScope device _ [] s h (depth, λ _. (known, entry.1)) tt) (
        admit-InScope device _ _ s h (depth, λ _. (known, entry.1))
          (if-elim (All EntryOk) (ltb node.depth m.max_depth) (entry, tt) tt))

  authorize-InScope :
      (node : Node) (device : Device) (s : Survey)
      → InScope s
      → EntryOk (node, device)
      → InScope (authorize net m node device s)
  unfolding authorize
  authorize-InScope node device s h entry =
      authorize_with-InScope _ (record node { device_id = some device.id }) device s h entry.0
        (λ e. cc) entry

  add_row-InScope : (n : Node) (s : Survey) → InScope s → NodeOk n → All NodeOk (s.nodes ++ n ∷ [])
  add_row-InScope n s h row = All-append NodeOk s.nodes (n ∷ []) h.0 (row, tt)

  module _ (c : Candidate) (pinned : String) where
    obtain-match :
        (o : Option Device) (vendor os_type : String) (ds : List Device)
        → find_device vendor pinned ds ≡ o
        → is_foreign o m.organization_id ≡ false
        → let d = (obtain o m c vendor os_type pinned ds).0 in
          (same_text d.management_address pinned ≡ true)
          × (same_id d.org_id m.organization_id ≡ true)
    obtain-match none vendor os_type ds e own =
        resolve_device-match m.organization_id vendor os_type _ pinned ds
    obtain-match (some d) vendor os_type ds e own =
        (find_device-match vendor pinned ds e, ground arith)

    assign-InScope :
        (vendor os_type : String) (node : Node) (s : Survey)
        → InScope s
        → node.depth ≤ m.max_depth
        → is_live node.state ≢ true
        → node.address ≡ pinned
        → Cleared pinned
        → InScope (assign net m c pinned vendor os_type node s)
    unfolding assign
    assign-InScope vendor os_type node s h depth waiting at cleared =
        let existing = find_device vendor pinned s.devices in
        elim (Bool-cases (is_foreign existing m.organization_id)) [
          | inl foreign ↦ rw foreign (add_row-InScope _ s h (depth, λ e. absurd (waiting e)), h.1)
          | inr own ↦
              let (placed, ours) = obtain-match existing vendor os_type s.devices refl own in
              rw own (
                authorize-InScope node _ (record s { devices = _ }) h
                  (depth, rw at cleared, rw at placed, ours))
        ]

    identify_as-InScope :
        (profile : Option (String × String)) (node : Node) (s : Survey)
        → InScope s
        → node.depth ≤ m.max_depth
        → is_live node.state ≢ true
        → node.address ≡ pinned
        → Cleared pinned
        → InScope (identify_as net profile m c pinned node s)
    unfolding identify_as
    identify_as-InScope none node s h depth waiting at cleared =
        (add_row-InScope _ s h (depth, λ e. absurd (waiting e)), h.1)
    identify_as-InScope (some (vendor, os_type)) node s h depth waiting at cleared =
        assign-InScope vendor os_type node s h depth waiting at cleared

  module _ (parent : Node) (shallow : parent.depth < m.max_depth) where
    visit_candidate-InScope :
        (c : Candidate) (s : Survey) → InScope s → InScope (visit_candidate net m parent c s)
    unfolding visit_candidate identify
    visit_candidate-InScope c s h = go (net.guard c.address) refl
      where
        go :
            (r : Result TargetError String)
            → net.guard c.address ≡ r
            → InScope (visit_candidate net m parent c s)
        go (err e) q = rw (q, visit_candidate) (add_row-InScope _ s h (omega arith, λ e. cc), h.1)
        go (ok pinned) q =
            rw (q, visit_candidate)
              (identify_as-InScope c pinned (profile_of c) _ (record s { seen = _ }) h (omega arith)
                (λ e. cc) refl (c.address, q))

    visit_candidates-InScope :
        (cs : List Candidate) (s : Survey)
        → InScope s
        → InScope (visit_candidates net m parent cs s)
    unfolding visit_candidates
    visit_candidates-InScope [] s h = h
    visit_candidates-InScope (c ∷ cs) s h = if-elim InScope _ h (
        visit_candidates-InScope cs _
          (if-elim InScope (member c.address s.seen) h (visit_candidate-InScope c s h)))

  set_node-InScope :
      (id : ℕ) (state : DeviceState) (reason : String) (s : Survey)
      → is_live state ≢ true
      → InScope s
      → InScope (set_node id state reason s)
  unfolding update_node
  set_node-InScope id state reason s down (rows, entries) = (go s.nodes rows, entries)
    where
      go :
          (ns : List Node)
          → All NodeOk ns
          → All NodeOk (update_node id (λ n. record n { state = state; reason = some reason }) ns)
      go [] h = tt
      go (n ∷ ns) (h, hs) = (if-elim NodeOk (n.id == id) (h.0, λ e. absurd (down e)) h, go ns hs)

  discover-InScope : (device : Device) (s : Survey) → InScope s → InScope (discover net device s).0
  unfolding discover
  discover-InScope device s h = elim (Option-cases (ssh_credential net device)) [
    | inl absent ↦ rw (absent, discover) h
    | inr (credential, found) ↦ go credential found (net.retrieve credential) refl
  ]
    where
      go :
          (credential : Credential)
          → ssh_credential net device ≡ some credential
          → (r : Result PullFailure String) → net.retrieve credential ≡ r
          → InScope (discover net device s).0
      go credential found (err e) q = rw (found, q, discover) h
      go credential found (ok plaintext) q = rw (found, q, discover) h

  after_discovery-InScope :
      (parent : Node) (r : Result PullFailure (Option (List Candidate))) (s : Survey)
      → parent.depth < m.max_depth
      → InScope s
      → InScope (after_visit (after_discovery net m parent r s))
  unfolding after_discovery
  after_discovery-InScope parent (ok none) s d h = set_node-InScope _ _ _ s (λ e. cc) h
  after_discovery-InScope parent (ok (some cs)) s d h = visit_candidates-InScope parent d cs s h
  after_discovery-InScope parent (err pull_auth) s d h = set_node-InScope _ _ _ s (λ e. cc) h
  after_discovery-InScope parent (err pull_unreachable) s d h = set_node-InScope _ _ _ s (λ e. cc) h
  after_discovery-InScope parent (err (pull_target e)) s d h = set_node-InScope _ _ _ s (λ e. cc) h
  after_discovery-InScope parent (err (pull_http e)) s d h = set_node-InScope _ _ _ s (λ e. cc) h
  after_discovery-InScope parent (err (pull_other e)) s d h = h

  visit-InScope :
      (parent : Node) (device : Device) (s : Survey)
      → InScope s
      → InScope (after_visit (visit net m parent device s))
  unfolding visit
  visit-InScope parent device s h = elim (Bool-cases (leb m.max_depth parent.depth)) [
    | inl deep ↦ rw deep h
    | inr shallow ↦
        rw shallow (after_discovery-InScope parent _ _ (ground arith) (discover-InScope device s h))
  ]

  pop_from-InScope :
      (q : List (Node × Device)) (s t : Survey) {entry : Node × Device}
      → pop_from q s ≡ some (entry, t)
      → All NodeOk s.nodes
      → All EntryOk q
      → InScope t
  unfolding pop_from
  pop_from-InScope [] s t e rows entries = cc
  pop_from-InScope (first ∷ q) s t e rows entries =
      let same : record s { queue = q } ≡ t = cc in rw (← same) (rows, entries.1)

  pop-InScope :
      (s t : Survey) {entry : Node × Device} → pop s ≡ some (entry, t) → InScope s → InScope t
  unfolding pop
  pop-InScope s t e h = pop_from-InScope s.queue s t e h.0 h.1

  -- A traversal that returns keeps its scope: every row is within the depth limit and, if it is a
  -- seed, ready or queued for its audit, has a device and an address that the target guard
  -- returned; and every device that waits to be logged into belongs to the mission's organization
  -- and stands at the cleared address of its row.
  pub traverse-InScope :
      (fuel : ℕ) (s : Survey) (v : Visit)
      → InScope s
      → traverse net fuel m s ≡ some v
      → InScope (after_visit v)
  traverse-InScope zero s v h e = unfold traverse in cc
  traverse-InScope (suc fuel) s v h e = elim (Option-cases (pop s)) [
    | inl empty ↦ let same : going s ≡ v = cc (traverse_empty net fuel m s empty) in rw (← same) h
    | inr (((parent, device), s'), popped) ↦ elim (Bool-cases (leb (length s.seen) m.max_devices)) [
      | inr full ↦
          let same : going s ≡ v = cc (traverse_full net fuel m s popped full) in rw (← same) h
      | inl room ↦
          let visited = visit-InScope parent device s' (pop-InScope s s' popped h) in
          elim (Visit-cases (visit net m parent device s')) [
            | inr (t, stopped) ↦
                let same : aborted t ≡ v = cc (traverse_aborted net fuel m s popped room stopped) in
                rw (← same) (rw stopped at visited)
            | inl (t, went) ↦
                traverse-InScope fuel t v (rw went at visited)
                  (sym (traverse_going net fuel m s popped room went) ∙ e)
          ]
    ]
  ]
