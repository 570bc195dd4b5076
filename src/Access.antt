-- ===== src/Access.antt =====
-- The organizations of users and the owners of devices (backend/organization_access.py and
-- backend/device_ownership.py). Users, organizations and devices are numbers; the locks are left
-- out, since an access is one transaction. What the session answers is a parameter.
pub mod Ownership
pub mod Tests
use valsec.Prelude.{
  ℕ, String, Bool, true, false, not, ◌&&◌, ◌||◌, Option, none, some, List, [], ◌∷◌, ◌++◌, any, ◌==◌,
  length, if◌then◌else◌, Result, ok, err, ◌>>=◌,
}
use valsec.Errors.{HttpException, http}
use valsec.Mission.Types.{Device, find_device, new_device}

-- `MembershipRole`
pub data Role : Type 0 where
  owner operator viewer : Role

pub record Membership : Type 0 where
  pub user_id : ℕ
  pub org_id : ℕ
  pub role : Role

pub record Tables : Type 0 where
  pub organizations : List ℕ
  pub memberships : List Membership
  pub devices : List Device

-- `READ_ROLES`, `OPERATE_ROLES` and `OWNER_ROLES`, as tests.
abbrev pub read_roles : Role → Bool
read_roles role = true

abbrev pub operate_roles : Role → Bool
operate_roles owner = true
operate_roles operator = true
operate_roles viewer = false

abbrev pub owner_roles : Role → Bool
owner_roles owner = true
owner_roles _ = false

-- A membership of the user in the organization with one of the roles.
unfoldable pub has_role : List Membership → ℕ → ℕ → (Role → Bool) → Bool
has_role ms user org roles = any (λ m. m.user_id == user && (m.org_id == org && roles m.role)) ms

unfoldable pub require_org_role : Tables → ℕ → ℕ → (Role → Bool) → Result HttpException (Unit {0})
require_org_role t user org roles =
    if has_role t.memberships user org roles
    then ok tt
    else err (http 403 "Device access requires organization membership")

-- `personal_organization`, whose id is the user's.
unfoldable pub personal_organization : ℕ → Tables → ℕ × Tables
personal_organization user t = (
  user,
  record t {
    organizations =
        if any (λ o. o == user) t.organizations
        then t.organizations
        else t.organizations ++ user ∷ [];
    memberships =
        if has_role t.memberships user user read_roles
        then t.memberships
        else t.memberships ++ record { user_id = user; org_id = user; role = owner } ∷ [];
  },
)

-- `device.org_id = …`
abbrev pub claim : ℕ → Device → Device
claim org d = record d { org_id = some org }

unfoldable pub update_device : ℕ → (Device → Device) → List Device → List Device
update_device id f [] = []
update_device id f (d ∷ ds) = (if d.id == id then f d else d) ∷ update_device id f ds

unfoldable pub device_by_id : ℕ → List Device → Option Device
device_by_id id [] = none
device_by_id id (d ∷ ds) = if d.id == id then some d else device_by_id id ds

-- `claim_org_id or personal_organization(db, user).id`
unfoldable pub claiming_org : Option ℕ → ℕ → Tables → ℕ × Tables
claiming_org none user t = personal_organization user t
claiming_org (some org) user t = (org, t)

-- The device, the tables, and whether it was claimed.
pub record Granted : Type 0 where
  pub device : Device
  pub tables : Tables
  pub claimed : Bool

unfoldable pub claim_device : Device → ℕ × Tables → Granted
claim_device device (org, t) = record {
  device = claim org device;
  tables = record t { devices = update_device device.id (claim org) t.devices };
  claimed = true;
}

unfoldable pub authorize_owned :
    Option ℕ → Device → ℕ → (Role → Bool) → Option ℕ → Tables → Result HttpException Granted
authorize_owned none device user roles claim_org t =
    ok (claim_device device (claiming_org claim_org user t))
authorize_owned (some org) device user roles claim_org t =
    require_org_role t user org roles >>= λ _.
    ok (record { device = device; tables = t; claimed = false })

unfoldable pub authorize_or_claim_device :
    Device → Option ℕ → (Role → Bool) → Option ℕ → Tables → Result HttpException Granted
authorize_or_claim_device device none roles claim_org t =
    ok (record { device = device; tables = t; claimed = false })
authorize_or_claim_device device (some user) roles claim_org t =
    authorize_owned device.org_id device user roles claim_org t

-- `acting_device_user`: nobody in local mode, else the user of the session.
unfoldable pub acting_device_user : Bool → Option ℕ → Result HttpException (Option ℕ)
acting_device_user false session = ok none
acting_device_user true none = err (http 403 "Device access requires ownership")
acting_device_user true (some user) = ok (some user)

unfoldable pub access_found :
    Option Device → Option ℕ → (Role → Bool) → Tables → Result HttpException Granted
access_found none user roles t = err (http 404 "Device not found")
access_found (some device) user roles t = authorize_or_claim_device device user roles none t

unfoldable pub get_device_for_access :
    Bool → Option ℕ → ℕ → (Role → Bool) → Tables → Result HttpException Granted
get_device_for_access require_auth session id roles t =
    acting_device_user require_auth session >>= λ user.
    access_found (device_by_id id t.devices) user roles t

unfoldable pub create_target : Device → ℕ × Tables → Granted
create_target device (org, t) =
    let owned = record device { org_id = some org; id = length t.devices } in
    record {
      device = owned;
      tables = record t { devices = t.devices ++ owned ∷ [] };
      claimed = true;
    }

unfoldable pub target_found :
    Option Device → Device → ℕ → Option ℕ → Tables → Result HttpException Granted
target_found none device user org t = ok (create_target device (claiming_org org user t))
target_found (some found) device user org t =
    authorize_or_claim_device found (some user) operate_roles org t

unfoldable pub require_claim : Option ℕ → ℕ → Tables → Result HttpException (Unit {0})
require_claim none user t = ok tt
require_claim (some org) user t = require_org_role t user org operate_roles

-- `get_target_device_for_access` of a user, where `device` holds the identity that is asked for.
unfoldable pub get_target_device_for_access :
    ℕ → Device → String → Option ℕ → Tables → Result HttpException Granted
get_target_device_for_access user device address org t = require_claim org user t >>= λ _.
    target_found (find_device device.vendor address t.devices)
      (record device { management_address = some address }) user org t
