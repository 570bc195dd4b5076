-- ===== src/Target/Tests.antt =====
-- A resolver whose addresses are written in unary, "a" before a version 4 and "b" before a version 6.
use valsec.Prelude.{
  ℕ, zero, suc, String, true, false, Option, none, some, List, [], ◌∷◌, any, All, ◌≡◌, refl, ap,
  ◌⊎◌, ok, if◌then◌else◌, ◌==◌, strip, codes, before, split,
}
use Prim.Native.Char.{code}
use Prim.Native.String as Text
use valsec.Target.{
  metadata_address, Address, v4, v6, Network, is_blocked, is_blocked_v4, is_in, Resolver,
  check_network, parse_entries, parse_network_scope, administrative_scope, require_subnets,
  validate_requested_scope, check_address, check_records, resolve_host, check_scope, scope_of,
  assert_connectable_target,
}
use valsec.Target.Safety.{assert_connectable_target_safe, validate_requested_scope_confines, Prints}

abbrev unary : ℕ → String
unary zero = ""
unary (suc n) = Text.◌∷◌ "1" (unary n)

abbrev count : String → ℕ
count Text.[] = 0
count (Text.◌∷◌ c s) = suc (count s)

count-unary : (n : ℕ) → count (unary n) ≡ n
count-unary zero = refl
count-unary (suc n) = ap suc (count-unary n)

abbrev show_address : Address → String
show_address (v4 n) = Text.◌∷◌ "a" (unary n)
show_address (v6 n) = Text.◌∷◌ "b" (unary n)

abbrev parse_address : String → Option Address
parse_address Text.[] = none
parse_address (Text.◌∷◌ c s) = if code c == b'a' then some (v4 (count s)) else some (v6 (count s))

pub round_trip : (a : Address) → parse_address (show_address a) ≡ some a
round_trip (v4 n) = rw (count-unary n) refl
round_trip (v6 n) = rw (count-unary n) refl

abbrev parse_network : String → Option Network
parse_network s = some (record { is_v6 = false; first = 2; last = 5 })

abbrev show_network : Network → String
show_network net = "a11-a11111"

abbrev resolve_all : String → Option (List String)
resolve_all host = some ("a111" ∷ "a1111%0" ∷ [])

abbrev pub resolver : Resolver
resolver = record {
  parse_address = parse_address;
  show_address = show_address;
  parse_network = parse_network;
  show_network = show_network;
  resolve = resolve_all;
  authorized_networks = "a11-a11111";
}

abbrev pub administrative : List Network
administrative = record { is_v6 = false; first = 2; last = 5 } ∷ []

accepted : assert_connectable_target resolver "router" (some ("a11-a11111" ∷ [])) ≡ ok "a111"
unfolding assert_connectable_target resolve_host check_records check_address check_scope scope_of
    codes before parse_network_scope parse_entries check_network is_blocked is_blocked_v4 strip
accepted = refl

pub administrative_found : administrative_scope resolver ≡ ok administrative
unfolding administrative_scope split parse_network_scope parse_entries check_network is_blocked
    is_blocked_v4 strip
administrative_found = refl

valid : validate_requested_scope resolver ("a11-a11111" ∷ []) ≡ ok ("a11-a11111" ∷ [])
unfolding validate_requested_scope administrative_scope require_subnets split parse_network_scope
    parse_entries check_network is_blocked is_blocked_v4 strip
valid = refl

assert_connectable_target_safe_example :
    (a : Address) × (others : List Address) × (nets : List Network) × (parse_address "a111"
      ≡ some a)
    × (resolve_host resolver (resolve_all (strip "router")) ≡ ok (a ∷ others))
    × All (λ b. is_blocked b ≡ false) (a ∷ others)
    × (scope_of resolver (some ("a11-a11111" ∷ [])) ≡ ok nets)
    × ((nets ≡ []) ⊎ (any (is_in a) nets ≡ true))
assert_connectable_target_safe_example =
    assert_connectable_target_safe resolver "router" (some ("a11-a11111" ∷ [])) round_trip accepted

plain : strip "a11-a11111" ≡ "a11-a11111"
unfolding strip
plain = refl

pub prints : (entry : String) (net : Network) → parse_network entry ≡ some net → Prints resolver net
prints entry net e = (plain, refl, e)

validate_requested_scope_confines_example :
    (a : Address) × (nets : List Network) × (parse_address "a111" ≡ some a)
    × (is_blocked a ≡ false)
    × (parse_network_scope resolver ("a11-a11111" ∷ []) ≡ ok nets)
    × (any (is_in a) nets ≡ true)
    × (any (is_in a) administrative ≡ true)
validate_requested_scope_confines_example =
    validate_requested_scope_confines resolver ("a11-a11111" ∷ []) "router" round_trip
      administrative_found (λ e. cc) valid prints accepted

-- `169.254.0.0/16` passes the check of its two ends, with the metadata endpoint between them.
abbrev link_local : Network
link_local = record { is_v6 = false; first = 2851995648; last = 2852061183 }

link_local_accepted :
    (check_network resolver "169.254.0.0/16" (some link_local) ≡ ok link_local)
    × (is_in (v4 metadata_address) link_local ≡ true)
unfolding check_network is_blocked is_blocked_v4
link_local_accepted = (refl, refl)
