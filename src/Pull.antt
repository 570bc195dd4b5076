-- ===== src/Pull.antt =====
-- The pull of a configuration with a stored credential (backend/device_pull_service.py). The
-- target guard, the vault, the two connectors and the dispatch of the audit are parameters.
pub mod Safety
pub mod Tests
use valsec.Prelude.{
  ℕ, zero, suc, String, Bool, true, false, not, ◌&&◌, ◌||◌, Option, none, some, List, [], ◌∷◌, ◌is◌,
  is_blank, is_some, lower, strip, lookup, if◌then◌else◌, Result, ok, err, ◌>>=◌, ◌>>◌, raise_if,
}
use valsec.Errors.{
  HttpException, http, TargetError, unsafe_target, PullFailure, pull_unreachable, pull_target,
  pull_http,
}
use valsec.Compliance.Catalogues.{frameworks}
use valsec.Mission.Types.{Device, Credential, Access, same_text}

abbrev pub unsupported : String → HttpException
unsupported detail = http 422 detail

unfoldable pub validate_pull_framework : String → String → Result HttpException (Unit {0})
validate_pull_framework vendor framework =
    let normalized = lower vendor in
    if not (is_some (lookup framework frameworks))
    then err (unsupported "Unsupported compliance framework")
    else if framework is "cis_cisco_ios_v1"
        && not (normalized is "cisco" || normalized is "juniper")
    then err (unsupported "The CIS catalogue is vendor-specific; choose a vendor-neutral framework")
    else raise_if (normalized is "fortinet" && not (framework is "nist_sp_800_53_rev5"))
        (unsupported "Fortinet FortiOS currently supports nist_sp_800_53_rev5")

-- A call of a connector.
pub record Fetch : Type 0 where
  pub protocol : String
  pub host : String
  pub port : ℕ

pub record Services : Type 0 where
  pub guard : String → Result TargetError String
  pub retrieve : Credential → Result PullFailure String
  pub ssh_fetch : String → ℕ → String → String → String → Result PullFailure String
  pub telnet_fetch : String → ℕ → String → String → Result PullFailure String
  pub persist : String → Result PullFailure (ℕ × Bool)

-- `port or 22`
abbrev pub or_port : Option ℕ → ℕ → ℕ
or_port none default = default
or_port (some zero) default = default
or_port (some (suc p)) default = suc p

-- The calls of the connectors, the credential accesses that were recorded, and the result.
pub record Pulled : Type 0 where
  pub fetches : List Fetch
  pub accesses : List Access
  pub result : Result PullFailure (ℕ × Bool)

abbrev pub refused : List Fetch → PullFailure → Pulled
refused fetches e = record { fetches = fetches; accesses = []; result = err e }

abbrev pub of_http : Result HttpException (Unit {0}) → Result PullFailure (Unit {0})
of_http (ok _) = ok tt
of_http (err e) = err (pull_http e)

abbrev pub of_target : Result TargetError String → Result PullFailure String
of_target (ok address) = ok address
of_target (err e) = err (pull_target e)

-- `if not device.management_address`
abbrev pub address_of : Option String → Result PullFailure String
address_of none = err pull_unreachable
address_of (some address) = if is_blank address then err pull_unreachable else ok address

-- `pinned_address != device.management_address`
abbrev pub pin : Option String → String → Result PullFailure String
pin registered pinned =
    if same_text registered pinned
    then ok pinned
    else err (
        pull_target (unsafe_target "Stored device address no longer resolves to its pinned target"))

module _ (services : Services) where
  open services use {guard, retrieve, ssh_fetch, telnet_fetch, persist}

  -- Everything before the credential is decrypted: the pinned address.
  unfoldable pub prepare : Device → String → Result PullFailure String
  prepare device framework = of_http (validate_pull_framework device.vendor framework) >>= λ _.
      address_of device.management_address >>= λ address.
      of_target (guard address) >>= λ pinned. pin device.management_address pinned

  abbrev record_access : List Fetch → String → Credential → Result PullFailure (ℕ × Bool) → Pulled
  record_access fetches purpose credential (err e) = refused fetches e
  record_access fetches purpose credential (ok answer) = record {
    fetches = fetches;
    accesses = record { credential_id = credential.id; purpose = purpose } ∷ [];
    result = ok answer;
  }

  unfoldable pub ingest : List Fetch → String → Credential → Result PullFailure String → Pulled
  ingest fetches purpose credential (err e) = refused fetches e
  ingest fetches purpose credential (ok raw) =
      if is_blank (strip raw)
      then refused fetches pull_unreachable
      else record_access fetches purpose credential (persist raw)

  unfoldable pub fetch : Device → Credential → String → Option ℕ → String → String → Pulled
  fetch device credential purpose port pinned plaintext =
      if credential.credential_type is "telnet"
      then (if not (lower device.vendor is "cirotech")
          then refused [] pull_unreachable
          else ingest (record { protocol = "telnet"; host = pinned; port = or_port port 23 } ∷ [])
              purpose credential
              (telnet_fetch pinned (or_port port 23) credential.username plaintext))
      else ingest (record { protocol = "ssh"; host = pinned; port = or_port port 22 } ∷ []) purpose
          credential
          (ssh_fetch pinned (or_port port 22) credential.username plaintext device.vendor)

  unfoldable pub fetch_with :
      Device → Credential → String → Option ℕ → String → Result PullFailure String → Pulled
  fetch_with device credential purpose port pinned (err e) = refused [] e
  fetch_with device credential purpose port pinned (ok plaintext) =
      fetch device credential purpose port pinned plaintext

  unfoldable pub pull_prepared :
      Device → Credential → String → Option ℕ → Result PullFailure String → Pulled
  pull_prepared device credential purpose port (err e) = refused [] e
  pull_prepared device credential purpose port (ok pinned) =
      fetch_with device credential purpose port pinned (retrieve credential)

  unfoldable pub pull_with_stored_credential :
      Device → Credential → String → String → Option ℕ → Pulled
  pull_with_stored_credential device credential framework purpose port =
      pull_prepared device credential purpose port (prepare device framework)
