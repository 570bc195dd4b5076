-- ===== src/Pull/Safety.antt =====
-- Which frameworks a pull accepts, and where its connectors are called.
use valsec.Prelude.{
  raise_if, not, ◌&&◌, ◌||◌, is_some, if◌then◌else◌, eq_iff, ◌is◌, ℕ, String, Bool, true, false,
  Option, none, some, [], ◌∷◌, ◌≡◌, refl, ◌⊎◌, inl, inr, Result, ok, err, is_ok, >>=-eq-ok, arith,
  lower, lookup, Bool-cases,
}
use valsec.Errors.{TargetError, HttpException, PullFailure}
use valsec.Compliance.Cisco.{cisco_controls}
use valsec.Compliance.Catalogues.{
  unsupported as no_catalogue, key_error, fortinet_nist_controls, juniper_controls, nist_controls,
  stig_controls, iso_controls, CatalogueError, get_controls, frameworks,
}
use valsec.Mission.Types.{Device, Credential}
use valsec.Pull.{
  unsupported, pin, or_port, Services, Pulled, validate_pull_framework, prepare, ingest, fetch,
  fetch_with, pull_prepared, pull_with_stored_credential, of_http, of_target, address_of,
}

is_comm : (s t : String) → (s is t) ≡ (t is s)
is_comm s t = ground (arith, eq_iff s t, eq_iff t s)

is_some_if {ℓ} :
    {A : Type ℓ} (test : Bool) (x : A) (rest : Option A)
    → is_some (if test then some x else rest) ≡ (test || is_some rest)
is_some_if true x rest = refl
is_some_if false x rest = refl

known_frameworks :
    (framework : String)
    → is_some (lookup framework frameworks) ≡ (
        "cis_cisco_ios_v1" is framework
        || ("nist_sp_800_53_rev5" is framework
            || ("disa_stig_network_v1" is framework
                || ("iso_iec_27001_2022" is framework || false))))
unfolding lookup frameworks
known_frameworks framework = simp is_some_if

-- The two chains of tests, whatever they raise or return.
same_tests :
    {A : Type 0} (c n s i fortinet cisco juniper : Bool)
    (no_framework no_vendor no_fortinet : HttpException) (none_for_vendor : CatalogueError)
    (unknown : CatalogueError) (a1 a2 a3 a4 a5 a6 : A)
    → (c && n) ≡ false
    → is_ok (
        if not (c || (n || (s || (i || false))))
        then err no_framework
        else if c && not (cisco || juniper)
        then err no_vendor
        else raise_if (fortinet && not n) no_fortinet)
      ≡ is_ok {E = CatalogueError} (
          if fortinet
          then (if n then ok a1 else err none_for_vendor)
          else if c
          then (if cisco then ok a2 else if juniper then ok a3 else err none_for_vendor)
          else if n
          then ok a4
          else if s
          then ok a5
          else if i
          then ok a6
          else err unknown)
same_tests true true s i f ci ju x y z e u a1 a2 a3 a4 a5 a6 h = cc
same_tests true false s i f ci ju x y z e u a1 a2 a3 a4 a5 a6 h = ground arith
same_tests false n s i f ci ju x y z e u a1 a2 a3 a4 a5 a6 h = ground arith

exclusive :
    (framework : String)
    → ("cis_cisco_ios_v1" is framework && "nist_sp_800_53_rev5" is framework) ≡ false
exclusive framework = elim (Bool-cases ("cis_cisco_ios_v1" is framework)) [
  | inr other ↦ rw other refl
  | inl cis ↦ rw (← (eq_iff "cis_cisco_ios_v1" framework).0 cis) refl
]

-- A pull accepts exactly the pairs of a vendor and a framework for which there is a catalogue.
pub validate_pull_framework-get_controls :
    (float_text : ℕ → ℕ → String) (vendor framework : String)
    → is_ok (validate_pull_framework vendor framework)
      ≡ is_ok (get_controls float_text framework vendor)
unfolding validate_pull_framework get_controls
validate_pull_framework-get_controls float_text vendor framework =
    rw
      (
        known_frameworks framework,
        is_comm framework "cis_cisco_ios_v1",
        is_comm framework "nist_sp_800_53_rev5",
        is_comm framework "disa_stig_network_v1",
        is_comm framework "iso_iec_27001_2022",
      )
      (same_tests ("cis_cisco_ios_v1" is framework) ("nist_sp_800_53_rev5" is framework)
        ("disa_stig_network_v1" is framework) ("iso_iec_27001_2022" is framework)
        (lower vendor is "fortinet") (lower vendor is "cisco") (lower vendor is "juniper")
        (unsupported "Unsupported compliance framework")
        (unsupported "The CIS catalogue is vendor-specific; choose a vendor-neutral framework")
        (unsupported "Fortinet FortiOS currently supports nist_sp_800_53_rev5") no_catalogue
        key_error (fortinet_nist_controls float_text) (cisco_controls float_text)
        (juniper_controls float_text) (nist_controls float_text) (stig_controls float_text)
        (iso_controls float_text) (exclusive framework))

pin_ok :
    (registered : Option String) (answer : String) {pinned : String}
    → pin registered answer ≡ ok pinned
    → (registered ≡ some pinned) × (answer ≡ pinned)
pin_ok none answer e = cc
pin_ok (some address) answer e = ground (arith, eq_iff address answer, e)

address_ok :
    (registered : Option String) {address : String}
    → address_of registered ≡ ok address
    → registered ≡ some address
address_ok none e = cc
address_ok (some a) e = ground (arith, e)

target_ok : (r : Result TargetError String) {a : String} → of_target r ≡ ok a → r ≡ ok a
target_ok (ok a) e = ground (arith, e)
target_ok (err x) e = cc

http_ok : (r : Result HttpException (Unit {0})) {u : Unit {0}} → of_http r ≡ ok u → is_ok r ≡ true
http_ok (ok u) e = refl
http_ok (err x) e = cc

module _ (services : Services) where
  open services use {guard, retrieve, persist}

  -- The services with other connectors.
  abbrev pub with_connectors :
      (String → ℕ → String → String → String → Result PullFailure String)
      → (String → ℕ → String → String → Result PullFailure String)
      → Services
  with_connectors ssh telnet = record services { ssh_fetch = ssh; telnet_fetch = telnet }

  -- The pull was refused with no call, or it is what the ingestion makes of the answer of one
  -- connector at a host, with the plaintext of the credential.
  abbrev pub FetchedAt : String → Device → Credential → String → Option ℕ → Pulled → Pulled → Type 0
  FetchedAt pinned device credential purpose port p q =
      ((p.fetches ≡ []) × (q ≡ p))
      ⊎ ((plaintext : String) × (retrieve credential ≡ ok plaintext)
          × ((p
                ≡ ingest services
                    (record { protocol = "ssh"; host = pinned; port = or_port port 22 } ∷ [])
                    purpose credential
                    (services.ssh_fetch pinned (or_port port 22) credential.username plaintext
                      device.vendor))
              ⊎ ((p
                    ≡ ingest services
                        (record { protocol = "telnet"; host = pinned; port = or_port port 23 } ∷ [])
                        purpose credential
                        (services.telnet_fetch pinned (or_port port 23) credential.username
                          plaintext))
                  × (lower device.vendor ≡ "cirotech"))))

  -- What is established before a credential is decrypted.
  abbrev pub IsCleared : Device → String → String → Type 0
  IsCleared device framework pinned =
      (is_ok (validate_pull_framework device.vendor framework) ≡ true)
      × (device.management_address ≡ some pinned)
      × (guard pinned ≡ ok pinned)

  prepare-IsCleared :
      (device : Device) (framework : String) {pinned : String}
      → prepare services device framework ≡ ok pinned
      → IsCleared device framework pinned
  unfolding prepare
  prepare-IsCleared device framework {pinned} e =
      let (_, valid, e1) =
        >>=-eq-ok (of_http (validate_pull_framework device.vendor framework)) _ e in
      let (address, present, e2) = >>=-eq-ok (address_of device.management_address) _ e1 in
      let (answer, guarded, e3) = >>=-eq-ok (of_target (guard address)) _ e2 in
      let (registered, same) = pin_ok device.management_address answer e3 in
      let named = address_ok device.management_address present in
      let at : address ≡ pinned = ground (arith, registered, named) in
      let cleared = target_ok (guard address) guarded in
      (http_ok _ valid, registered, cc (at, same, cleared))

  module _ (ssh : String → ℕ → String → String → String → Result PullFailure String)
      (telnet : String → ℕ → String → String → Result PullFailure String) where
    fetch-FetchedAt :
        (device : Device) (credential : Credential) (purpose : String) (port : Option ℕ)
        (pinned plaintext : String)
        → retrieve credential ≡ ok plaintext
        → FetchedAt pinned device credential purpose port
            (fetch services device credential purpose port pinned plaintext)
            (fetch (with_connectors ssh telnet) device credential purpose port pinned plaintext)
    unfolding fetch
    fetch-FetchedAt device credential purpose port pinned plaintext stored =
        elim (Bool-cases (credential.credential_type is "telnet")) [
          | inr other ↦ rw other (inr (plaintext, stored, inl refl))
          | inl old ↦ elim (Bool-cases (lower device.vendor is "cirotech")) [
            | inr refused_ ↦ rw (old, refused_) (inl (refl, refl))
            | inl fixed ↦
                rw (old, fixed)
                  (inr (
                    plaintext,
                    stored,
                    inr (refl, (eq_iff (lower device.vendor) "cirotech").0 fixed),
                  ))
          ]
        ]

    fetch_with-FetchedAt :
        (device : Device) (credential : Credential) (purpose : String) (port : Option ℕ)
        (pinned : String) (r : Result PullFailure String)
        → retrieve credential ≡ r
        → FetchedAt pinned device credential purpose port
            (fetch_with services device credential purpose port pinned r)
            (fetch_with (with_connectors ssh telnet) device credential purpose port pinned r)
    unfolding fetch_with
    fetch_with-FetchedAt device credential purpose port pinned (err e) stored = inl (refl, refl)
    fetch_with-FetchedAt device credential purpose port pinned (ok plaintext) stored =
        fetch-FetchedAt device credential purpose port pinned plaintext stored

    -- No connector is called, or one is, once, after the checks.
    abbrev pub IsSafe : Device → Credential → String → String → Option ℕ → Pulled → Pulled → Type 0
    IsSafe device credential framework purpose port p q =
        ((p.fetches ≡ []) × (q ≡ p))
        ⊎ ((pinned : String) × IsCleared device framework pinned
            × FetchedAt pinned device credential purpose port p q)

    pull_prepared-IsSafe :
        (device : Device) (credential : Credential) (framework purpose : String) (port : Option ℕ)
        (r : Result PullFailure String)
        → prepare services device framework ≡ r
        → IsSafe device credential framework purpose port
            (pull_prepared services device credential purpose port r)
            (pull_prepared (with_connectors ssh telnet) device credential purpose port r)
    unfolding pull_prepared
    pull_prepared-IsSafe device credential framework purpose port (err e) h = inl (refl, refl)
    pull_prepared-IsSafe device credential framework purpose port (ok pinned) h = inr (
      pinned,
      prepare-IsCleared device framework h,
      fetch_with-FetchedAt device credential purpose port pinned (retrieve credential) refl,
    )

    -- Either a pull logs no call and does not depend on what the connectors would answer, or its
    -- framework has passed the check for the vendor, and the pull is the ingestion of the answer
    -- of the SSH connector, or of the Telnet connector for a Cirotech device, called once with
    -- the credential's name and plaintext at the device's registered address, which the target
    -- guard pins to itself.
    pub pull_with_stored_credential-IsSafe :
        (device : Device) (credential : Credential) (framework purpose : String) (port : Option ℕ)
        → IsSafe device credential framework purpose port
            (pull_with_stored_credential services device credential framework purpose port)
            (pull_with_stored_credential
              (with_connectors ssh telnet)
              device
              credential
              framework
              purpose
              port)
    unfolding pull_with_stored_credential prepare
    pull_with_stored_credential-IsSafe device credential framework purpose port =
        pull_prepared-IsSafe device credential framework purpose port _ refl
