-- ===== src/Access/Ownership.antt =====
-- Who owns a device after an access, and who gets one.
use valsec.Prelude.{
  ℕ, suc, ◌+◌, ◌≤◌, String, Bool, true, false, ◌&&◌, Option, none, some, List, [], ◌∷◌, ◌++◌,
  length, ◌is◌, if-eq, ◌≡◌, ◌≢◌, ◌∙◌, ap, refl, ◌⊎◌, inl, inr, Result, ok, err, >>=-eq-ok, arith,
  ◌==◌,
}
use native.Mathlib.Decide.{ℕ_discrete}
use valsec.Errors.{HttpException}
use valsec.Mission.Types.{Device, find_device, same_text}
use valsec.Access.{
  Role, Tables, operate_roles, read_roles, has_role, require_org_role, personal_organization, claim,
  update_device, device_by_id, claiming_org, Granted, claim_device, authorize_owned,
  authorize_or_claim_device, acting_device_user, access_found, get_device_for_access, create_target,
  target_found, require_claim, get_target_device_for_access,
}

-- The owner of the device with an id.
abbrev pub owner_of : Option Device → Option ℕ
owner_of none = none
owner_of (some d) = d.org_id

abbrev pub owned_by : ℕ → Tables → Option ℕ
owned_by id t = owner_of (device_by_id id t.devices)

-- The rows are numbered by their ids, from a first number on.
abbrev pub IsNumbered : ℕ → List Device → Type 0
IsNumbered n [] = Unit
IsNumbered n (d ∷ ds) = (d.id ≡ n) × IsNumbered (suc n) ds

-- A claim of one device leaves the owner of any other alone.
update_device-owner :
    (i id org : ℕ) (ds : List Device)
    → i ≢ id
    → owner_of (device_by_id i (update_device id (claim org) ds)) ≡ owner_of (device_by_id i ds)
unfolding update_device device_by_id
update_device-owner i id org [] other = refl
update_device-owner i id org (d ∷ ds) other =
    ground (arith, other, update_device-owner i id org ds other)

update_device-IsNumbered :
    (n id org : ℕ) (ds : List Device)
    → IsNumbered n ds
    → IsNumbered n (update_device id (claim org) ds)
unfolding update_device
update_device-IsNumbered n id org [] h = tt
update_device-IsNumbered n id org (d ∷ ds) (at, h) =
    (ground (arith, at), update_device-IsNumbered (suc n) id org ds h)

append-IsNumbered :
    (n : ℕ) (ds : List Device) (d : Device)
    → IsNumbered n ds
    → d.id ≡ n + length ds
    → IsNumbered n (ds ++ d ∷ [])
append-IsNumbered n [] d h e = (omega (arith, e), tt)
append-IsNumbered n (x ∷ ds) d (at, h) e = (at, append-IsNumbered (suc n) ds d h (omega (arith, e)))

device_by_id-id : (i : ℕ) (ds : List Device) {d : Device} → device_by_id i ds ≡ some d → d.id ≡ i
unfolding device_by_id
device_by_id-id i [] e = cc
device_by_id-id i (x ∷ ds) e = elim (if-eq (x.id == i) e) [
  | inl (here, same) ↦ ground (arith, here, same)
  | inr (there, later) ↦ device_by_id-id i ds later
]

found-ge :
    (n : ℕ) (vendor address : String) (ds : List Device) {d : Device}
    → IsNumbered n ds
    → find_device vendor address ds ≡ some d
    → n ≤ d.id
unfolding find_device
found-ge n vendor address [] h e = cc
found-ge n vendor address (x ∷ ds) (at, h) e =
    elim (if-eq (x.vendor is vendor && same_text x.management_address address) e) [
      | inl (here, same) ↦ ground (arith, same, at)
      | inr (there, later) ↦ omega (arith, found-ge (suc n) vendor address ds h later)
    ]

-- A device that is found by its target is the row of its id.
found_row :
    (n : ℕ) (vendor address : String) (ds : List Device) {d : Device}
    → IsNumbered n ds
    → find_device vendor address ds ≡ some d
    → device_by_id d.id ds ≡ some d
unfolding find_device device_by_id
found_row n vendor address [] h e = cc
found_row n vendor address (x ∷ ds) {d} (at, h) e =
    elim (if-eq (x.vendor is vendor && same_text x.management_address address) e) [
      | inl (here, same) ↦ ground (arith, same)
      | inr (there, later) ↦
          let above = found-ge (suc n) vendor address ds h later in
          ground (arith, above, at, found_row (suc n) vendor address ds h later)
    ]

append-owner :
    (i o : ℕ) (ds es : List Device)
    → owner_of (device_by_id i ds) ≡ some o
    → owner_of (device_by_id i (ds ++ es)) ≡ some o
unfolding device_by_id
append-owner i o [] es h = cc
append-owner i o (d ∷ ds) es h = ground (arith, h, append-owner i o ds es)

-- `claiming_org` leaves the devices alone.
claiming_org-devices :
    (c : Option ℕ) (user : ℕ) (t : Tables) → (claiming_org c user t).1.devices ≡ t.devices
unfolding claiming_org personal_organization
claiming_org-devices none user t = refl
claiming_org-devices (some org) user t = refl

abbrev Keeps : Tables → Granted → Type 0
Keeps t g =
    IsNumbered 0 g.tables.devices
    × ((i o : ℕ) → owned_by i t ≡ some o → owned_by i g.tables ≡ some o)

-- A device is the row of its id.
abbrev IsRow : Device → Tables → Type 0
IsRow device t = device_by_id device.id t.devices ≡ some device

claim_device-owner :
    (device : Device) (org i o : ℕ) (ds : List Device)
    → device.org_id ≡ none
    → device_by_id device.id ds ≡ some device
    → owner_of (device_by_id i ds) ≡ some o
    → owner_of (device_by_id i (update_device device.id (claim org) ds)) ≡ some o
claim_device-owner device org i o ds free row h = elim (ℕ_discrete i device.id) [
  | yes same ↦ absurd cc
  | no other ↦ update_device-owner i device.id org ds other ∙ h
]

claim_device-Keeps :
    (device : Device) (c : Option ℕ) (user : ℕ) (t : Tables)
    → device.org_id ≡ none
    → IsRow device t
    → IsNumbered 0 t.devices
    → Keeps t (claim_device device (claiming_org c user t))
unfolding claim_device
claim_device-Keeps device c user t free row num = rw (claiming_org-devices c user t) (
  update_device-IsNumbered 0 device.id _ t.devices num,
  λ i o h. claim_device-owner device _ i o t.devices free row h,
)

authorize_owned-Keeps :
    (org : Option ℕ) (device : Device) (user : ℕ) (roles : Role → Bool) (c : Option ℕ) (t : Tables)
    {g : Granted}
    → device.org_id ≡ org
    → IsRow device t
    → IsNumbered 0 t.devices
    → authorize_owned org device user roles c t ≡ ok g
    → Keeps t g
unfolding authorize_owned
authorize_owned-Keeps none device user roles c t {g} free row num e =
    let at : claim_device device (claiming_org c user t) ≡ g = cc in
    rw (← at) (claim_device-Keeps device c user t free row num)
authorize_owned-Keeps (some org) device user roles c t {g} owned row num e =
    let (u, allowed, e1) = >>=-eq-ok (require_org_role t user org roles) _ e in
    let at : record { device = device; tables = t; claimed = false } ≡ g = cc in
    rw (← at) (num, λ i o h. h)

authorize_or_claim_device-Keeps :
    (device : Device) (user : Option ℕ) (roles : Role → Bool) (c : Option ℕ) (t : Tables)
    {g : Granted}
    → IsRow device t
    → IsNumbered 0 t.devices
    → authorize_or_claim_device device user roles c t ≡ ok g
    → Keeps t g
unfolding authorize_or_claim_device
authorize_or_claim_device-Keeps device none roles c t {g} row num e =
    let at : record { device = device; tables = t; claimed = false } ≡ g = cc in
    rw (← at) (num, λ i o h. h)
authorize_or_claim_device-Keeps device (some user) roles c t row num e =
    authorize_owned-Keeps device.org_id device user roles c t refl row num e

access_found-Keeps :
    (d : Option Device) (user : Option ℕ) (roles : Role → Bool) (t : Tables) {g : Granted}
    → ((device : Device) → d ≡ some device → IsRow device t)
    → IsNumbered 0 t.devices
    → access_found d user roles t ≡ ok g
    → Keeps t g
unfolding access_found
access_found-Keeps none user roles t row num e = cc
access_found-Keeps (some device) user roles t row num e =
    authorize_or_claim_device-Keeps device user roles none t (row device refl) num e

target_found-Keeps :
    (d : Option Device) (device : Device) (user : ℕ) (c : Option ℕ) (t : Tables) {g : Granted}
    → ((found : Device) → d ≡ some found → IsRow found t)
    → IsNumbered 0 t.devices
    → target_found d device user c t ≡ ok g
    → Keeps t g
unfolding target_found create_target
target_found-Keeps none device user c t {g} row num e =
    let at : create_target device (claiming_org c user t) ≡ g = cc in
    rw (← at) (
      rw (claiming_org-devices c user t) (
        append-IsNumbered 0 t.devices _ num (omega arith),
        λ i o h. append-owner i o t.devices _ h,
      ))
target_found-Keeps (some found) device user c t row num e =
    authorize_or_claim_device-Keeps found (some user) operate_roles c t (row found refl) num e

-- An access by an id or by a target, with what the session answers.
pub data AccessCall : Type 0 where
  by_id : Bool → Option ℕ → ℕ → (Role → Bool) → AccessCall
  by_target : ℕ → Device → String → Option ℕ → AccessCall

-- A refused access is rolled back.
abbrev pub tables_after : Tables → Result HttpException Granted → Tables
tables_after t (ok g) = g.tables
tables_after t (err e) = t

pub access : AccessCall → Tables → Tables
access (by_id auth session id roles) t =
    tables_after t (get_device_for_access auth session id roles t)
access (by_target user device address org) t =
    tables_after t (get_target_device_for_access user device address org t)

pub accesses : List AccessCall → Tables → Tables
accesses [] t = t
accesses (a ∷ rest) t = accesses rest (access a t)

abbrev KeepsTables : Tables → Tables → Type 0
KeepsTables t u =
    IsNumbered 0 u.devices × ((i o : ℕ) → owned_by i t ≡ some o → owned_by i u ≡ some o)

tables_after-Keeps :
    (t : Tables) (r : Result HttpException Granted)
    → ((g : Granted) → r ≡ ok g → Keeps t g)
    → IsNumbered 0 t.devices
    → KeepsTables t (tables_after t r)
tables_after-Keeps t (ok g) keeps num = keeps g refl
tables_after-Keeps t (err e) keeps num = (num, λ i o h. h)

get_device_for_access-Keeps :
    (auth : Bool) (session : Option ℕ) (id : ℕ) (roles : Role → Bool) (t : Tables) {g : Granted}
    → IsNumbered 0 t.devices
    → get_device_for_access auth session id roles t ≡ ok g
    → Keeps t g
unfolding get_device_for_access
get_device_for_access-Keeps auth session id roles t num e =
    let (user, acting, e1) = >>=-eq-ok (acting_device_user auth session) _ e in
    access_found-Keeps (device_by_id id t.devices) user roles t
      (λ d at. ap (λ i. device_by_id i t.devices) (device_by_id-id id t.devices at) ∙ at) num e1

get_target-Keeps :
    (user : ℕ) (device : Device) (address : String) (org : Option ℕ) (t : Tables) {g : Granted}
    → IsNumbered 0 t.devices
    → get_target_device_for_access user device address org t ≡ ok g
    → Keeps t g
unfolding get_target_device_for_access
get_target-Keeps user device address org t num e =
    let (u, claimable, e1) = >>=-eq-ok (require_claim org user t) _ e in
    target_found-Keeps (find_device device.vendor address t.devices) _ user org t
      (λ d at. found_row 0 device.vendor address t.devices num at) num e1

access-Keeps : (a : AccessCall) (t : Tables) → IsNumbered 0 t.devices → KeepsTables t (access a t)
unfolding access
access-Keeps (by_id auth session id roles) t num =
    tables_after-Keeps t _ (λ g e. get_device_for_access-Keeps auth session id roles t num e) num
access-Keeps (by_target user device address org) t num =
    tables_after-Keeps t _ (λ g e. get_target-Keeps user device address org t num e) num

-- Let the ids of the devices be those of their rows. Then no sequence of accesses to devices, by
-- id or by target, of any users and with any roles and requested organizations, failed ones
-- included, changes the owner of a device that has one.
pub accesses-owner :
    (as_ : List AccessCall) (i o : ℕ) (t : Tables)
    → IsNumbered 0 t.devices
    → owned_by i t ≡ some o
    → owned_by i (accesses as_ t) ≡ some o
unfolding accesses
accesses-owner [] i o t num h = h
accesses-owner (a ∷ rest) i o t num h =
    let (num', kept) = access-Keeps a t num in
    accesses-owner rest i o (access a t) num' (kept i o h)

-- Owned before, with a membership that has one of the roles; or unowned before, and now in the
-- user's personal organization, of which the user is a member.
abbrev pub IsAuthorized : ℕ → (Role → Bool) → Device → Granted → Type 0
IsAuthorized user roles device g =
    ((g.claimed ≡ false)
      × (g.device ≡ device)
      × ((org : ℕ) × (device.org_id ≡ some org)
          × (has_role g.tables.memberships user org roles ≡ true)))
    ⊎ ((g.claimed ≡ true)
        × (device.org_id ≡ none)
        × (g.device.org_id ≡ some user)
        × (has_role g.tables.memberships user user read_roles ≡ true))
