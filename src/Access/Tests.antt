-- ===== src/Access/Tests.antt =====
-- Two users and two devices.
use valsec.Prelude.{ℕ, true, Option, none, some, List, [], ◌∷◌, ◌≡◌, refl}
use valsec.Mission.Types.{Device}
use valsec.Access.{Tables, owner, operator, operate_roles, device_by_id, Granted}
use valsec.Access.Ownership.{AccessCall, by_id, by_target, accesses, owned_by, accesses-owner}

abbrev device : ℕ → Option ℕ → Device
device id org = record {
  id = id;
  org_id = org;
  display_name = "r";
  vendor = "cisco";
  os_type = "ios";
  management_address = some "10.0.0.1";
}

abbrev tables : Tables
tables = record {
  organizations = 7 ∷ [];
  memberships = record { user_id = 1; org_id = 7; role = operator } ∷ [];
  devices = device 0 (some 7) ∷ device 1 none ∷ [];
}

abbrev history : List AccessCall
history =
    by_id true (some 2) 0 operate_roles
    ∷ by_target 2 (device 0 none) "10.0.0.1" none
    ∷ by_id true (some 2) 1 operate_roles
    ∷ []

accesses-owner_example : owned_by 0 (accesses history tables) ≡ some 7
unfolding device_by_id
accesses-owner_example = accesses-owner history 0 7 tables (refl, (refl, tt)) refl

abbrev granted : Granted
granted = record {
  device = device 1 (some 2);
  tables = record {
    organizations = 7 ∷ 2 ∷ [];
    memberships =
        record { user_id = 1; org_id = 7; role = operator }
        ∷ record { user_id = 2; org_id = 2; role = owner }
        ∷ [];
    devices = device 0 (some 7) ∷ device 1 (some 2) ∷ [];
  };
  claimed = true;
}
