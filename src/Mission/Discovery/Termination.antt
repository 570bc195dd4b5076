-- ===== src/Mission/Discovery/Termination.antt =====
-- The traversal ends, and what each of its parts adds.
use valsec.Prelude.{
  ℕ, Bool-cases, Option-cases, leb, member, inl, inr, ◌⊎◌, ◌∙◌, true, false, zero, suc, ◌+◌, ◌≤◌,
  ◌<◌, String, Option, none, some, List, [], ◌∷◌, ◌++◌, ◌≡◌, refl, length, length-append, Result,
  ok, err, arith,
}
use valsec.Errors.{PullFailure, pull_auth, pull_unreachable, pull_target, pull_http, pull_other}
use valsec.Mission.Types.{Mission, Device, Credential, Node, Candidate, update_node}
use valsec.Mission.Discovery.{
  Network, Survey, Visit, going, aborted, authorize, assign, identify, visit_candidate,
  visit_candidates, discover, profile_of, after_visit, pop, authorize_with, identify_as,
  after_discovery, visit, traverse,
}

-- From one survey to a later one: no address is forgotten, the queue grows by at most as many
-- entries as there are new addresses, and there is a new row for each of them.
abbrev pub Grows : Survey → Survey → Type 0
Grows s t =
    (length s.seen ≤ length t.seen)
    × (length t.queue + length s.seen ≤ length s.queue + length t.seen)
    × (length t.nodes + length s.seen ≡ length s.nodes + length t.seen)

-- One new address: at most one queue entry, and one row.
abbrev AddsOne : Survey → Survey → Type 0
AddsOne s t =
    (length t.seen ≡ length s.seen)
    × (length t.queue ≤ length s.queue + 1)
    × (length t.nodes ≡ length s.nodes + 1)

pub length-update_node :
    (id : ℕ) (f : Node → Node) (ns : List Node) → length (update_node id f ns) ≡ length ns
unfolding update_node
length-update_node id f [] = refl
length-update_node id f (n ∷ ns) = omega (arith, length-update_node id f ns)

snoc {ℓ} : {A : Type ℓ} (xs : List A) (x : A) → length (xs ++ x ∷ []) ≡ length xs + 1
snoc xs x = length-append xs (x ∷ [])

pub Visit-cases : (v : Visit) → ((t : Survey) × (v ≡ going t)) ⊎ ((t : Survey) × (v ≡ aborted t))
Visit-cases (going t) = inl (t, refl)
Visit-cases (aborted t) = inr (t, refl)

length-pop :
    (s t : Survey) {entry : Node × Device}
    → pop s ≡ some (entry, t)
    → (length t.queue + 1 ≡ length s.queue)
      × (length t.seen ≡ length s.seen)
      × (length t.nodes ≡ length s.nodes)
unfolding pop
length-pop s t e = ground arith

module _ (net : Network) where
  authorize_with-AddsOne :
      (o : Option Credential) (m : Mission) (node : Node) (device : Device) (s : Survey)
      → AddsOne s (authorize_with net o m node device s)
  unfolding authorize_with
  authorize_with-AddsOne none m node device s = grind (arith, snoc, length-append)
  authorize_with-AddsOne (some c) m node device s = grind (arith, snoc, length-append)

  authorize-AddsOne :
      (m : Mission) (node : Node) (device : Device) (s : Survey)
      → AddsOne s (authorize net m node device s)
  unfolding authorize
  authorize-AddsOne m node device s = authorize_with-AddsOne _ m _ device s

  assign-AddsOne :
      (m : Mission) (c : Candidate) (pinned vendor os_type : String) (node : Node) (s : Survey)
      → AddsOne s (assign net m c pinned vendor os_type node s)
  unfolding assign
  assign-AddsOne m c pinned vendor os_type node s = grind (arith, snoc, authorize-AddsOne)

  identify_as-AddsOne :
      (profile : Option (String × String)) (m : Mission) (c : Candidate) (pinned : String)
      (node : Node) (s : Survey)
      → AddsOne s (identify_as net profile m c pinned node s)
  unfolding identify_as
  identify_as-AddsOne none m c pinned node s = grind (arith, snoc)
  identify_as-AddsOne (some (vendor, os_type)) m c pinned node s =
      assign-AddsOne m c pinned vendor os_type node s

  identify-AddsOne :
      (m : Mission) (parent : Node) (c : Candidate) (pinned : String) (s : Survey)
      → AddsOne s (identify net m parent c pinned s)
  unfolding identify
  identify-AddsOne m parent c pinned s = identify_as-AddsOne (profile_of c) m c pinned _ s

  visit_candidate-Grows :
      (m : Mission) (parent : Node) (c : Candidate) (s : Survey)
      → Grows s (visit_candidate net m parent c s)
        × (length (visit_candidate net m parent c s).seen ≡ length s.seen + 1)
  unfolding visit_candidate
  visit_candidate-Grows m parent c s = grind (arith, snoc, identify-AddsOne)

  visit_candidates-Grows :
      (m : Mission) (parent : Node) (cs : List Candidate) (s : Survey)
      → length s.seen ≤ m.max_devices + 1
      → Grows s (visit_candidates net m parent cs s)
        × (length (visit_candidates net m parent cs s).seen ≤ m.max_devices + 1)
  unfolding visit_candidates
  visit_candidates-Grows m parent [] s h = ground arith
  visit_candidates-Grows m parent (c ∷ cs) s h =
      elim (Bool-cases (leb (m.max_devices + 1) (length s.seen))) [
        | inl full ↦ rw full (ground arith)
        | inr room ↦ rw room (elim (Bool-cases (member c.address s.seen)) [
          | inl old ↦ rw old (visit_candidates-Grows m parent cs s h)
          | inr new ↦
              let (one, more) = visit_candidate-Grows m parent c s in
              let (rest, bound) =
                visit_candidates-Grows m parent cs (visit_candidate net m parent c s)
                  (ground arith) in
              rw new (omega arith)
        ])
      ]

  discover-Grows :
      (device : Device) (s : Survey)
      → (length (discover net device s).0.seen ≡ length s.seen)
        × (length (discover net device s).0.queue ≡ length s.queue)
        × (length (discover net device s).0.nodes ≡ length s.nodes)
  unfolding discover
  discover-Grows device s = ground arith

  after_discovery-Grows :
      (m : Mission) (parent : Node) (r : Result PullFailure (Option (List Candidate))) (s : Survey)
      → length s.seen ≤ m.max_devices + 1
      → let t = after_visit (after_discovery net m parent r s) in
        Grows s t × (length t.seen ≤ m.max_devices + 1)
  unfolding after_discovery
  after_discovery-Grows m parent (ok none) s h = grind (arith, length-update_node)
  after_discovery-Grows m parent (ok (some cs)) s h = visit_candidates-Grows m parent cs s h
  after_discovery-Grows m parent (err pull_auth) s h = grind (arith, length-update_node)
  after_discovery-Grows m parent (err pull_unreachable) s h = grind (arith, length-update_node)
  after_discovery-Grows m parent (err (pull_target e)) s h = grind (arith, length-update_node)
  after_discovery-Grows m parent (err (pull_http e)) s h = grind (arith, length-update_node)
  after_discovery-Grows m parent (err (pull_other e)) s h = ground arith

  pub visit-Grows :
      (m : Mission) (parent : Node) (device : Device) (s : Survey)
      → length s.seen ≤ m.max_devices + 1
      → let t = after_visit (visit net m parent device s) in
        Grows s t × (length t.seen ≤ m.max_devices + 1)
  unfolding visit
  visit-Grows m parent device s h = elim (Bool-cases (leb m.max_depth parent.depth)) [
    | inl deep ↦ rw deep (ground arith)
    | inr shallow ↦
        let (s', found) = discover net device s in
        let same = discover-Grows device s in
        let after = after_discovery-Grows m parent found s' (omega arith) in
        rw shallow (omega (arith, same, after))
  ]

  module _ (fuel : ℕ) (m : Mission) (s : Survey) where
    pub traverse_empty : pop s ≡ none → traverse net (suc fuel) m s ≡ some (going s)
    unfolding traverse
    traverse_empty e = rw (e, traverse)

    module _ {parent : Node} {device : Device} {s' : Survey}
        (popped : pop s ≡ some ((parent, device), s')) where
      pub traverse_full :
          leb (length s.seen) m.max_devices ≡ false → traverse net (suc fuel) m s ≡ some (going s)
      unfolding traverse
      traverse_full e = ground arith

      pub traverse_aborted :
          {t : Survey}
          → leb (length s.seen) m.max_devices ≡ true
          → visit net m parent device s' ≡ aborted t
          → traverse net (suc fuel) m s ≡ some (aborted t)
      unfolding traverse
      traverse_aborted room e = ground arith

      pub traverse_going :
          {t : Survey}
          → leb (length s.seen) m.max_devices ≡ true
          → visit net m parent device s' ≡ going t
          → traverse net (suc fuel) m s ≡ traverse net fuel m t
      unfolding traverse
      traverse_going room e = ground arith

  -- A traversal that has seen at most max_devices + 1 addresses, with fuel for each queue entry
  -- and each address that may still be added, returns; at most max_devices + 1 addresses are then
  -- seen, and each newly seen address has one new row.
  pub traverse-total :
      (fuel : ℕ) (m : Mission) (s : Survey)
      → length s.seen ≤ m.max_devices + 1
      → length s.queue + (m.max_devices + 1) < fuel + length s.seen
      → (v : Visit) × (traverse net fuel m s ≡ some v)
        × (length (after_visit v).seen ≤ m.max_devices + 1)
        × (length (after_visit v).nodes + length s.seen
            ≡ length s.nodes + length (after_visit v).seen)
  traverse-total zero m s h enough = absurd (omega arith)
  traverse-total (suc fuel) m s h enough = elim (Option-cases (pop s)) [
    | inl empty ↦ (going s, traverse_empty fuel m s empty, h, refl)
    | inr (((parent, device), s'), popped) ↦ elim (Bool-cases (leb (length s.seen) m.max_devices)) [
      | inr full ↦ (going s, traverse_full fuel m s popped full, h, refl)
      | inl room ↦
          let taken = length-pop s s' popped in
          let (grown, bound) = visit-Grows m parent device s' (omega arith) in
          elim (Visit-cases (visit net m parent device s')) [
            | inr (t, stopped) ↦ (
              aborted t,
              traverse_aborted fuel m s popped room stopped,
              rw stopped at bound,
              omega (arith, rw stopped at grown, taken),
            )
            | inl (t, went) ↦
                let grown' = rw went at grown in
                let bound' : length t.seen ≤ m.max_devices + 1 = rw went at bound in
                let (v, result, most, rows) =
                  traverse-total fuel m t bound' (omega (arith, grown', taken)) in
                (
                  v,
                  traverse_going fuel m s popped room went ∙ result,
                  most,
                  omega (arith, grown', taken),
                )
          ]
    ]
  ]
