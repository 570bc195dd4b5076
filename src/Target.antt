-- ===== src/Target.antt =====
-- The target guard (backend/connectors/target_guard.py). An address is its number and its version;
-- a network is its version with its first and last address, which is all that the code asks of it.
-- Parsing and printing of addresses and the resolver are parameters.
pub mod Safety
pub mod Tests
use valsec.Prelude.{
  ℕ, ◌*◌, ◌/◌, ◌%◌, String, Bool, true, false, not, ◌&&◌, ◌||◌, Option, none, some, List, [], ◌∷◌,
  ◌++◌, map, any, keep, is_empty, length, ltb, leb, ◌==◌, is_blank, strip, codes, before, split,
  member, concat, if◌then◌else◌, Result, ok, err, ◌>>=◌,
}
use valsec.Errors.{TargetError, unsafe_target, unresolved_target}

pub data Address : Type 0 where
  v4 v6 : ℕ → Address

pub record Network : Type 0 where
  pub is_v6 : Bool
  pub first : ℕ
  pub last : ℕ

abbrev pub address_is_v6 : Address → Bool
address_is_v6 (v4 n) = false
address_is_v6 (v6 n) = true

abbrev pub number : Address → ℕ
number (v4 n) = n
number (v6 n) = n

abbrev pub of_version : Bool → ℕ → Address
of_version true n = v6 n
of_version false n = v4 n

abbrev pub same : Bool → Bool → Bool
same true b = b
same false b = not b

-- `169.254.169.254`
abbrev pub metadata_address : ℕ
metadata_address = 2852039166

-- `127.0.0.0/8`, and the metadata endpoint.
unfoldable pub is_blocked_v4 : ℕ → Bool
is_blocked_v4 n = n / 16777216 == 127 || n == metadata_address

-- `ipv4_mapped` is the last 32 bits behind `::ffff:0:0/96`; the loopback address is `::1`.
unfoldable pub is_blocked : Address → Bool
is_blocked (v4 n) = is_blocked_v4 n
is_blocked (v6 n) = if n / 4294967296 == 65535 then is_blocked_v4 (n % 4294967296) else n == 1

-- `address.version == network.version and address in network`
abbrev pub is_in : Address → Network → Bool
is_in a net =
    same (address_is_v6 a) net.is_v6 && (leb net.first (number a) && leb (number a) net.last)

-- `network.version == allowed.version and network.subnet_of(allowed)`
abbrev pub is_subnet : Network → Network → Bool
is_subnet net allowed =
    same net.is_v6 allowed.is_v6 && (leb allowed.first net.first && leb net.last allowed.last)

-- What `ipaddress` and `socket` answer, and the setting AUTHORIZED_NETWORKS.
pub record Resolver : Type 0 where
  pub parse_address : String → Option Address
  pub show_address : Address → String
  pub parse_network : String → Option Network
  pub show_network : Network → String
  -- The addresses of `getaddrinfo`, in its order.
  pub resolve : String → Option (List String)
  pub authorized_networks : String

abbrev pub non_blank : List String → List String
non_blank ss = keep (λ s. not (is_blank s)) (map strip ss)

abbrev pub is_long : String → Bool
is_long s = ltb 253 (length (codes s))

abbrev pub has_control : String → Bool
has_control s = any (λ c. ltb c 33) (codes s)

module _ (r : Resolver) where
  open r use {
    parse_address, show_address, parse_network, show_network, resolve, authorized_networks,
  }

  unfoldable pub check_network : String → Option Network → Result TargetError Network
  check_network entry none =
      err (unsafe_target (concat ("Invalid authorized network CIDR: " ∷ entry ∷ [])))
  check_network entry (some net) =
      if is_blocked (of_version net.is_v6 net.first) || is_blocked (of_version net.is_v6 net.last)
      then err (unsafe_target "Authorized networks cannot include loopback or metadata services")
      else ok net

  -- The loop over the entries, which are stripped and not blank.
  unfoldable pub parse_entries : List String → Result TargetError (List Network)
  parse_entries [] = ok []
  parse_entries (e ∷ es) =
      check_network e (parse_network e) >>= λ net. parse_entries es >>= λ nets. ok (net ∷ nets)

  -- `parse_network_scope` of a list, and of a text.
  unfoldable pub parse_network_scope : List String → Result TargetError (List Network)
  parse_network_scope entries = parse_entries (non_blank entries)

  unfoldable pub administrative_scope : Result TargetError (List Network)
  administrative_scope = parse_network_scope (split b',' authorized_networks)

  unfoldable pub require_subnets : List Network → List Network → Result TargetError (List String)
  require_subnets administrative [] = ok []
  require_subnets administrative (net ∷ nets) =
      if any (is_subnet net) administrative
      then (require_subnets administrative nets >>= λ shown. ok (show_network net ∷ shown))
      else err (
          unsafe_target (
            concat
              ("Mission network " ∷ show_network net ∷ " is outside AUTHORIZED_NETWORKS" ∷ [])))

  abbrev pub constrain : List Network → List Network → Result TargetError (List String)
  constrain nets [] = ok (map show_network nets)
  constrain nets (allowed ∷ rest) = require_subnets (allowed ∷ rest) nets

  abbrev pub some_network : List Network → Result TargetError (List Network)
  some_network [] = err (unsafe_target "At least one authorized network CIDR is required")
  some_network (net ∷ nets) = ok (net ∷ nets)

  unfoldable pub validate_requested_scope : List String → Result TargetError (List String)
  validate_requested_scope requested = parse_network_scope requested >>= λ parsed.
      some_network parsed >>= λ nets.
      administrative_scope >>= λ administrative. constrain nets administrative

  unfoldable pub check_address : Option Address → Result TargetError Address
  check_address none = err (unresolved_target "Device host resolved to an invalid address")
  check_address (some a) =
      if is_blocked a
      then err (unsafe_target "Connections to loopback or metadata services are blocked")
      else ok a

  -- The loop over the records; of a list without repeats only the first is used.
  unfoldable pub check_records : List String → Result TargetError (List Address)
  check_records [] = ok []
  check_records (raw ∷ rest) = check_address (parse_address (before b'%' raw)) >>= λ a.
      check_records rest >>= λ others. ok (a ∷ others)

  unfoldable pub resolve_host : Option (List String) → Result TargetError (List Address)
  resolve_host none = err (unresolved_target "Device host could not be resolved")
  resolve_host (some records) = check_records records

  abbrev pub select : List Address → Result TargetError String
  select [] = err (unresolved_target "Device host did not resolve to an IP address")
  select (a ∷ rest) = ok (show_address a)

  -- `scope` where it is not empty, at the address that the selected text is parsed to.
  unfoldable pub check_scope : List Network → Option Address → String → Result TargetError String
  check_scope [] a selected = ok selected
  check_scope (net ∷ nets) none selected = err (unresolved_target "invalid address")
  check_scope (net ∷ nets) (some a) selected =
      if any (is_in a) (net ∷ nets)
      then ok selected
      else err (unsafe_target "Device target is outside the authorized network scope")

  unfoldable pub scope_of : Option (List String) → Result TargetError (List Network)
  scope_of none = administrative_scope
  scope_of (some networks) = parse_network_scope networks

  unfoldable pub assert_connectable_target :
      String → Option (List String) → Result TargetError String
  assert_connectable_target host allowed =
      let candidate = strip host in
      if is_blank candidate || (is_long candidate || has_control candidate)
      then err (unsafe_target "Device host must be a valid hostname or IP address")
      else (resolve_host (resolve candidate) >>= λ addresses. select addresses >>= λ selected.
          scope_of allowed >>= λ scope. check_scope scope (parse_address selected) selected)
