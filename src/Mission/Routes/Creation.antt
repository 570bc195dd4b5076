-- ===== src/Mission/Routes/Creation.antt =====
-- Where a mission that was created may go.
use valsec.Prelude.{
  ℕ, ◌≤◌, min, String, true, false, not, Option, none, some, List, [], any, ◌≡◌, ◌≢◌, ap, ◌∙◌,
  Result, ok, err, ◌>>◌, raise_if, >>=-eq-ok, if-eq, inl, inr, arith, is_blank, is_some, lookup,
  eq_iff, ◌is◌,
}
use valsec.Errors.{http, TargetError}
use valsec.Compliance.Catalogues.{frameworks}
use valsec.Target.{
  Address, Network, is_blocked, is_in, Resolver, parse_network_scope, administrative_scope,
  validate_requested_scope, assert_connectable_target,
}
use valsec.Target.Safety.{
  Prints, validate_requested_scope_confines, validate_requested_scope-stored,
}
use valsec.Access.{Tables, Granted, operate_roles, get_device_for_access}
use valsec.Mission.Types.{created}
use valsec.Mission.Routes.{
  Settings, require_vault, MissionCreate, is_valid_body, Created, or_422, seed_address, new_mission,
  create_in_scope, create_network_mission,
}

or_422-ok :
    {A : Type 0} (answer : Result TargetError A) {a : A} → or_422 answer ≡ ok a → answer ≡ ok a
unfolding or_422
or_422-ok (ok b) e = cc
or_422-ok (err x) e = cc

seed_address-ok :
    (o : Option String) {address : String} → seed_address o ≡ ok address → o ≡ some address
unfolding seed_address
seed_address-ok none e = cc
seed_address-ok (some b) e = elim (if-eq (is_blank b) e) [
  | inl (blank, e1) ↦ cc
  | inr (filled, e1) ↦ cc
]

module _ (settings : Settings) (resolver : Resolver) where
  open resolver use {parse_address, show_address}

  -- The scopes are validated, the address is its own target, and the row is the new one.
  create_in_scope-ok :
      (body : MissionCreate) (user : Option ℕ) (granted : Granted) (address : String)
      {made : Created}
      → create_in_scope settings resolver body user granted address ≡ ok made
      → (scopes : List String) × (validate_requested_scope resolver body.authorized_networks
          ≡ ok scopes)
        × (assert_connectable_target resolver address (some scopes) ≡ ok address)
        × (made ≡ new_mission settings resolver body user scopes granted)
  unfolding create_in_scope
  create_in_scope-ok body user granted address {made} e =
      let (scopes, valid, e1) =
        >>=-eq-ok (or_422 (validate_requested_scope resolver body.authorized_networks)) _ e in
      let (pinned, target, e2) =
        >>=-eq-ok (or_422 (assert_connectable_target resolver address (some scopes))) _ e1 in
      elim (if-eq (not (pinned is address)) e2) [
        | inl (moved, e3) ↦ cc
        | inr (same, e3) ↦
            let at : pinned ≡ address = (eq_iff _ _).0 (ground (arith, same)) in
            (scopes, or_422-ok _ valid, rw at at (or_422-ok _ target), cc)
      ]

  -- Let a deployment have a non-empty allow-list, let printed addresses parse to what was
  -- printed, and let the networks that are read print as texts that parse to them. Then a mission
  -- that is created is in the status created, its depth and its number of devices are at most
  -- what was asked and what the settings allow, the scope that it stores parses to the networks
  -- that were requested, and the address of its seed device stands for an address that is not
  -- blocked and lies in a network that was requested and in a network of the allow-list.
  pub create_network_mission-IsConfined :
      (body : MissionCreate) (session : Option ℕ) (t : Tables) {made : Created}
      {administrative : List Network}
      → ((a : Address) → parse_address (show_address a) ≡ some a)
      → administrative_scope resolver ≡ ok administrative
      → administrative ≢ []
      → ((entry : String) (net : Network)
          → resolver.parse_network entry ≡ some net
          → Prints resolver net)
      → create_network_mission settings resolver body session t ≡ ok made
      → (made.mission.status ≡ created)
        × (made.mission.max_depth ≤ min body.max_depth settings.discovery_max_depth)
        × (made.mission.max_devices ≤ min body.max_devices settings.discovery_max_devices)
        × ((address : String) × (a : Address) × (nets : List Network)
            × (made.mission.seed_device.management_address ≡ some address)
            × (parse_address address ≡ some a)
            × (is_blocked a ≡ false)
            × (parse_network_scope resolver body.authorized_networks ≡ ok nets)
            × (parse_network_scope resolver made.authorized_networks ≡ ok nets)
            × (any (is_in a) nets ≡ true)
            × (any (is_in a) administrative ≡ true))
  unfolding create_network_mission
  create_network_mission-IsConfined body session t {made} round admin some_ prints e =
      let (u, allowed, e1) =
        >>=-eq-ok
          (raise_if (not (is_valid_body body)) (http 422 "Invalid request")
            >> require_vault settings
            >> raise_if (not (is_some (lookup body.framework frameworks)))
                (http 422 "Unsupported compliance framework"))
          _ e in
      let (granted, access, e2) =
        >>=-eq-ok
          (get_device_for_access settings.require_auth session body.seed_device_id operate_roles t)
          _ e1 in
      let (address, found, e3) = >>=-eq-ok (seed_address granted.device.management_address) _ e2 in
      let (scopes, valid, target, at) = create_in_scope-ok body _ granted address e3 in
      let scoped : made.authorized_networks ≡ scopes = ap (λ m. m.authorized_networks) at in
      let seeded : made.mission.seed_device ≡ granted.device = ap (λ m. m.mission.seed_device) at in
      let (a, nets, parsed, free, requested, held, inside) =
        validate_requested_scope_confines resolver body.authorized_networks address round admin
          some_ valid prints target in
      let stored =
        validate_requested_scope-stored resolver body.authorized_networks prints requested valid in
      (
        ap (λ m. m.mission.status) at,
        rw at (omega arith),
        rw at (omega arith),
        (
          address,
          a,
          nets,
          ap (λ d. d.management_address) seeded ∙ seed_address-ok _ found,
          parsed,
          free,
          requested,
          ap (λ s. parse_network_scope resolver s) scoped ∙ stored,
          held,
          inside,
        ),
      )
