-- ===== src/Mission/Routes.antt =====
-- The requests that create, start and retry a mission (backend/routers/network_missions.py), with
-- the checks that all its requests share. A request that raises commits nothing.
pub mod Campaigns
pub mod Creation
pub mod Steps
pub mod Approval
pub mod Targets
pub mod Tests
use valsec.Prelude.{
  ℕ, String, Bool, true, false, not, ◌&&◌, ◌||◌, Option, none, some, List, [], ◌∷◌, ◌++◌, map, any,
  all, keep, length, is_empty, is_some, is_blank, strip, codes, leb, min, ◌==◌, ◌is◌, lookup,
  if◌then◌else◌, Result, ok, err, ◌>>=◌, ◌>>◌, raise_if,
}
use valsec.Errors.{HttpException, http, TargetError, unsafe_target, unresolved_target}
use valsec.Compliance.Catalogues.{frameworks}
use valsec.Target.{Resolver, validate_requested_scope, assert_connectable_target}
use valsec.Access.{Role, operate_roles, has_role, Tables, Granted, get_device_for_access}
use valsec.Mission.Types.{
  Device, Credential, Mission, MissionStatus, created, auditing, is_created, Node, DeviceState,
  seed, identified, credential_missing, unreachable, collection_failed, ready, audit_queued,
  credential_for_device, is_created,
}

pub record Settings : Type 0 where
  pub enable_credential_vault : Bool
  pub require_auth : Bool
  pub discovery_max_depth : ℕ
  pub discovery_max_devices : ℕ

-- A task that is handed to a queue, with the row that it is for: a target of a campaign is named by
-- its finding and by its row of the mission.
pub data Task : Type 0 where
  run_mission finalize_mission : Task
  collect_device : ℕ → Task
  execute_target : ℕ → ℕ → Task
  finalize_campaign : Task

-- `_require_vault`
unfoldable pub require_vault : Settings → Result HttpException (Unit {0})
require_vault settings = raise_if (not settings.enable_credential_vault) (http 404 "Not found")

-- `_current_user`, given the user of the session.
unfoldable pub current_user : Bool → Option ℕ → Result HttpException (Option ℕ)
current_user false session = ok none
current_user true none = err (http 401 "Authentication required.")
current_user true (some user) = ok (some user)

-- The test of the role in `_mission_or_404` and `_campaign_or_404`. A membership always names an
-- organization.
unfoldable pub role_or_404 :
    String → Tables → Option ℕ → Option ℕ → (Role → Bool) → Result HttpException (Unit {0})
role_or_404 detail t none org roles = ok tt
role_or_404 detail t (some user) none roles = err (http 404 detail)
role_or_404 detail t (some user) (some org) roles =
    raise_if (not (has_role t.memberships user org roles)) (http 404 detail)

pub record MissionCreate : Type 0 where
  pub seed_device_id : ℕ
  pub framework : String
  pub authorized_networks : List String
  pub max_depth : ℕ
  pub max_devices : ℕ

abbrev within : ℕ → ℕ → ℕ → Bool
within least most n = leb least n && leb n most

-- The bounds of the fields, and `validate_scope_strings`.
unfoldable pub is_valid_body : MissionCreate → Bool
is_valid_body body =
    within 1 10 body.max_depth
    && (within 1 1000 body.max_devices
        && (within 1 32 (length body.authorized_networks)
            && all (λ value. not (is_blank (strip value)) && leb (length (codes value)) 64)
                body.authorized_networks))

-- The mission's row with the columns that only requests read, and the tables after the claim.
pub record Created : Type 0 where
  pub mission : Mission
  pub framework : String
  pub authorized_networks : List String
  pub created_by_user_id : Option ℕ
  pub tables : Tables

-- `HTTPException(422, str(exc))`
abbrev pub as_http : TargetError → HttpException
as_http (unsafe_target e) = http 422 e
as_http (unresolved_target e) = http 422 e

unfoldable pub or_422 : {A : Type 0} → Result TargetError A → Result HttpException A
or_422 (ok a) = ok a
or_422 (err e) = err (as_http e)

-- `if not device.management_address`
unfoldable pub seed_address : Option String → Result HttpException String
seed_address none = err (http 409 "Seed device requires a management address")
seed_address (some address) =
    if is_blank address
    then err (http 409 "Seed device requires a management address")
    else ok address

module _ (settings : Settings) (resolver : Resolver) where
  abbrev new_mission : MissionCreate → Option ℕ → List String → Granted → Created
  new_mission body user scopes granted = record {
    mission = record {
      organization_id = granted.device.org_id;
      seed_device = granted.device;
      max_depth = min body.max_depth settings.discovery_max_depth;
      max_devices = min body.max_devices settings.discovery_max_devices;
      status = created;
      started_at = none;
      completed_at = none;
    };
    framework = body.framework;
    authorized_networks = scopes;
    created_by_user_id = user;
    tables = granted.tables;
  }

  -- From the scopes to the row.
  unfoldable pub create_in_scope :
      MissionCreate → Option ℕ → Granted → String → Result HttpException Created
  create_in_scope body user granted address =
      or_422 (validate_requested_scope resolver body.authorized_networks) >>= λ scopes.
      or_422 (assert_connectable_target resolver address (some scopes)) >>= λ pinned.
      if not (pinned is address)
      then err (http 409 "Seed address no longer resolves to its registered target")
      else ok (new_mission body user scopes granted)

  -- `create_network_mission` with the user of the session.
  unfoldable pub create_network_mission :
      MissionCreate → Option ℕ → Tables → Result HttpException Created
  create_network_mission body session t =
      raise_if (not (is_valid_body body)) (http 422 "Invalid request")
      >> require_vault settings
      >> raise_if (not (is_some (lookup body.framework frameworks)))
          (http 422 "Unsupported compliance framework")
      >>= λ _.
          get_device_for_access settings.require_auth session body.seed_device_id operate_roles t
          >>= λ granted. seed_address granted.device.management_address >>= λ address.
              create_in_scope body (if settings.require_auth then session else none) granted address

-- `start_network_mission`, past the lookup of the mission. The error leaves out the status.
unfoldable pub start_network_mission : List Credential → Mission → Result HttpException (List Task)
start_network_mission credentials m =
    if not (is_created m.status)
    then err (http 409 "Mission is not ready to start")
    else if not (is_some (credential_for_device credentials m.seed_device.id true))
    then err (http 409 "Seed device requires a stored SSH credential")
    else ok (run_mission ∷ [])

-- The states that `retry_mission_audit` takes up again.
abbrev pub is_retryable : DeviceState → Bool
is_retryable ready = true
is_retryable credential_missing = true
is_retryable collection_failed = true
is_retryable unreachable = true
is_retryable _ = false

abbrev pub has_credential : List Credential → Option ℕ → Bool
has_credential credentials none = false
has_credential credentials (some id) = is_some (credential_for_device credentials id false)

unfoldable pub is_retried : List Credential → Node → Bool
is_retried credentials n =
    not (is_some n.config_id) && (is_retryable n.state && has_credential credentials n.device_id)

abbrev pub requeue : List Credential → Node → Node
requeue credentials n =
    if is_retried credentials n then record n { state = audit_queued; reason = none } else n

-- `retry_mission_audit`: the mission, its rows and the tasks.
unfoldable pub retry_mission_audit :
    List Credential → Mission → List Node → Mission × List Node × List Task
retry_mission_audit credentials m nodes =
    let retried = keep (is_retried credentials) nodes in
    if is_empty retried then (m, nodes, []) else (
      record m { status = auditing },
      map (requeue credentials) nodes,
      map (λ n. collect_device n.id) retried ++ finalize_mission ∷ [],
    )
