-- ===== src/Mission/Discovery/Unqueued.antt =====
-- A traversal queues no audit (backend/tasks/network_missions.py): collection tasks are dispatched
-- after it.
use valsec.Prelude.{
  ℕ, zero, suc, sym, ◌∙◌, String, Option, none, some, List, [], ◌∷◌, ◌++◌, ◌≡◌, refl, ◌≢◌, leb,
  Result, ok, err, All, All-append, if-elim, member, ◌==◌, Bool-cases, Option-cases, inl, inr,
  length,
}
use valsec.Errors.{
  TargetError, PullFailure, pull_auth, pull_unreachable, pull_target, pull_http, pull_other,
}
use valsec.Mission.Types.{
  Mission, Device, Credential, Node, Candidate, DeviceState, audit_queued, update_node, find_device,
}
use valsec.Mission.Discovery.{
  Network, Survey, Visit, going, aborted, profile_of, pop, pop_from, after_visit, is_foreign,
  authorize_with, authorize, assign, identify_as, identify, visit_candidate, visit_candidates,
  ssh_credential, discover, after_discovery, visit, traverse, set_node,
}
use valsec.Mission.Discovery.Termination.{
  Visit-cases, traverse_empty, traverse_full, traverse_aborted, traverse_going,
}

-- A row that is not queued for its audit.
abbrev pub IsUnqueued : Node → Type 0
IsUnqueued n = n.state ≢ audit_queued

abbrev pub AllUnqueued : Survey → Type 0
AllUnqueued s = All IsUnqueued s.nodes

append-AllUnqueued :
    (n : Node) (ns : List Node) → All IsUnqueued ns → IsUnqueued n → All IsUnqueued (ns ++ n ∷ [])
append-AllUnqueued n ns h row = All-append IsUnqueued ns (n ∷ []) h (row, tt)

set_node-AllUnqueued :
    (id : ℕ) (state : DeviceState) (reason : String) (s : Survey)
    → state ≢ audit_queued
    → AllUnqueued s
    → AllUnqueued (set_node id state reason s)
unfolding update_node
set_node-AllUnqueued id state reason s idle rows = go s.nodes rows
  where
    go :
        (ns : List Node)
        → All IsUnqueued ns
        → All IsUnqueued (update_node id (λ n. record n { state = state; reason = some reason }) ns)
    go [] h = tt
    go (n ∷ ns) (h, hs) = (if-elim IsUnqueued (n.id == id) idle h, go ns hs)

module _ (net : Network) (m : Mission) where
  authorize_with-AllUnqueued :
      (o : Option Credential) (node : Node) (device : Device) (s : Survey)
      → AllUnqueued s
      → AllUnqueued (authorize_with net o m node device s)
  unfolding authorize_with
  authorize_with-AllUnqueued none node device s h = append-AllUnqueued _ s.nodes h (λ e. cc)
  authorize_with-AllUnqueued (some c) node device s h =
      if-elim AllUnqueued _ (append-AllUnqueued _ s.nodes h (λ e. cc))
        (append-AllUnqueued _ s.nodes h (λ e. cc))

  module _ (c : Candidate) (pinned : String) where
    assign-AllUnqueued :
        (vendor os_type : String) (node : Node) (s : Survey)
        → IsUnqueued node
        → AllUnqueued s
        → AllUnqueued (assign net m c pinned vendor os_type node s)
    unfolding assign authorize
    assign-AllUnqueued vendor os_type node s idle h =
        elim (Bool-cases (is_foreign (find_device vendor pinned s.devices) m.organization_id)) [
          | inl foreign ↦ rw foreign (append-AllUnqueued _ s.nodes h idle)
          | inr own ↦ rw own (authorize_with-AllUnqueued _ _ _ (record s { devices = _ }) h)
        ]

    identify_as-AllUnqueued :
        (profile : Option (String × String)) (node : Node) (s : Survey)
        → IsUnqueued node
        → AllUnqueued s
        → AllUnqueued (identify_as net profile m c pinned node s)
    unfolding identify_as
    identify_as-AllUnqueued none node s idle h = append-AllUnqueued _ s.nodes h idle
    identify_as-AllUnqueued (some (vendor, os_type)) node s idle h =
        assign-AllUnqueued vendor os_type node s idle h

  module _ (parent : Node) where
    visit_candidate-AllUnqueued :
        (c : Candidate) (s : Survey)
        → AllUnqueued s
        → AllUnqueued (visit_candidate net m parent c s)
    unfolding visit_candidate identify
    visit_candidate-AllUnqueued c s h = go (net.guard c.address) refl
      where
        go :
            (r : Result TargetError String)
            → net.guard c.address ≡ r
            → AllUnqueued (visit_candidate net m parent c s)
        go (err e) q = rw (q, visit_candidate) (append-AllUnqueued _ s.nodes h (λ e. cc))
        go (ok pinned) q =
            rw (q, visit_candidate)
              (identify_as-AllUnqueued c pinned (profile_of c) _ (record s { seen = _ }) (λ e. cc)
                h)

    visit_candidates-AllUnqueued :
        (cs : List Candidate) (s : Survey)
        → AllUnqueued s
        → AllUnqueued (visit_candidates net m parent cs s)
    unfolding visit_candidates
    visit_candidates-AllUnqueued [] s h = h
    visit_candidates-AllUnqueued (c ∷ cs) s h = if-elim AllUnqueued _ h (
        visit_candidates-AllUnqueued cs _
          (if-elim AllUnqueued (member c.address s.seen) h (visit_candidate-AllUnqueued c s h)))

  discover-AllUnqueued :
      (device : Device) (s : Survey) → AllUnqueued s → AllUnqueued (discover net device s).0
  unfolding discover
  discover-AllUnqueued device s h = elim (Option-cases (ssh_credential net device)) [
    | inl absent ↦ rw (absent, discover) h
    | inr (credential, found) ↦ go credential found (net.retrieve credential) refl
  ]
    where
      go :
          (credential : Credential)
          → ssh_credential net device ≡ some credential
          → (r : Result PullFailure String) → net.retrieve credential ≡ r
          → AllUnqueued (discover net device s).0
      go credential found (err e) q = rw (found, q, discover) h
      go credential found (ok plaintext) q = rw (found, q, discover) h

  after_discovery-AllUnqueued :
      (parent : Node) (r : Result PullFailure (Option (List Candidate))) (s : Survey)
      → AllUnqueued s
      → AllUnqueued (after_visit (after_discovery net m parent r s))
  unfolding after_discovery
  after_discovery-AllUnqueued parent (ok none) s h = set_node-AllUnqueued _ _ _ s (λ e. cc) h
  after_discovery-AllUnqueued parent (ok (some cs)) s h = visit_candidates-AllUnqueued parent cs s h
  after_discovery-AllUnqueued parent (err pull_auth) s h = set_node-AllUnqueued _ _ _ s (λ e. cc) h
  after_discovery-AllUnqueued parent (err pull_unreachable) s h =
      set_node-AllUnqueued _ _ _ s (λ e. cc) h
  after_discovery-AllUnqueued parent (err (pull_target e)) s h =
      set_node-AllUnqueued _ _ _ s (λ e. cc) h
  after_discovery-AllUnqueued parent (err (pull_http e)) s h =
      set_node-AllUnqueued _ _ _ s (λ e. cc) h
  after_discovery-AllUnqueued parent (err (pull_other e)) s h = h

  visit-AllUnqueued :
      (parent : Node) (device : Device) (s : Survey)
      → AllUnqueued s
      → AllUnqueued (after_visit (visit net m parent device s))
  unfolding visit
  visit-AllUnqueued parent device s h = elim (Bool-cases (leb m.max_depth parent.depth)) [
    | inl deep ↦ rw deep h
    | inr shallow ↦
        rw shallow (after_discovery-AllUnqueued parent _ _ (discover-AllUnqueued device s h))
  ]

  pop_from-AllUnqueued :
      (q : List (Node × Device)) (s t : Survey) {entry : Node × Device}
      → pop_from q s ≡ some (entry, t)
      → AllUnqueued s
      → AllUnqueued t
  unfolding pop_from
  pop_from-AllUnqueued [] s t e rows = cc
  pop_from-AllUnqueued (first ∷ q) s t e rows =
      let same : record s { queue = q } ≡ t = cc in rw (← same) rows

  pop-AllUnqueued :
      (s t : Survey) {entry : Node × Device}
      → pop s ≡ some (entry, t)
      → AllUnqueued s
      → AllUnqueued t
  unfolding pop
  pop-AllUnqueued s t e h = pop_from-AllUnqueued s.queue s t e h

  -- A traversal that returns leaves no row queued for its audit, if there was none before.
  pub traverse-AllUnqueued :
      (fuel : ℕ) (s : Survey) (v : Visit)
      → AllUnqueued s
      → traverse net fuel m s ≡ some v
      → AllUnqueued (after_visit v)
  traverse-AllUnqueued zero s v h e = unfold traverse in cc
  traverse-AllUnqueued (suc fuel) s v h e = elim (Option-cases (pop s)) [
    | inl empty ↦ let same : going s ≡ v = cc (traverse_empty net fuel m s empty) in rw (← same) h
    | inr (((parent, device), s'), popped) ↦ elim (Bool-cases (leb (length s.seen) m.max_devices)) [
      | inr full ↦
          let same : going s ≡ v = cc (traverse_full net fuel m s popped full) in rw (← same) h
      | inl room ↦
          let visited = visit-AllUnqueued parent device s' (pop-AllUnqueued s s' popped h) in
          elim (Visit-cases (visit net m parent device s')) [
            | inr (t, stopped) ↦
                let same : aborted t ≡ v = cc (traverse_aborted net fuel m s popped room stopped) in
                rw (← same) (rw stopped at visited)
            | inl (t, went) ↦
                traverse-AllUnqueued fuel t v (rw went at visited)
                  (sym (traverse_going net fuel m s popped room went) ∙ e)
          ]
    ]
  ]
