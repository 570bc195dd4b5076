-- ===== src/Target/Safety.antt =====
-- What a target that the guard returns satisfies.
use valsec.Prelude.{
  ◌>>=◌, before, is_blank, if◌then◌else◌, String, Bool, true, false, ◌||◌, Option, none, some, List,
  [], ◌∷◌, any, All, ◌≡◌, refl, ◌⊎◌, inl, inr, ◌≢◌, ◌∙◌, Result, ok, err, >>=-eq-ok, arith,
  Bool-cases, strip, sym, ap, map, if-eq,
}
use valsec.Errors.{TargetError}
use valsec.Target.{
  is_long, has_control, Address, Network, of_version, non_blank, check_network, parse_entries,
  is_blocked, is_in, is_subnet, Resolver, parse_network_scope, administrative_scope,
  require_subnets, constrain, some_network, validate_requested_scope, check_address, check_records,
  resolve_host, select, check_scope, scope_of, assert_connectable_target,
}

checked_host :
    {A : Type 0} {a : A} (refused : Bool) (x : TargetError) (m : Result TargetError A)
    → (if refused then err x else m) ≡ ok a
    → m ≡ ok a
checked_host true x m e = cc
checked_host false x m e = e

is_in-is_subnet :
    (a : Address) (net allowed : Network)
    → is_in a net ≡ true
    → is_subnet net allowed ≡ true
    → is_in a allowed ≡ true
is_in-is_subnet a net allowed h k = ground (arith, h, k)

module _ (r : Resolver) where
  open r use {parse_address, show_address, parse_network, show_network, resolve}

  check_address-ok :
      (o : Option Address) {a : Address}
      → check_address r o ≡ ok a
      → (o ≡ some a) × (is_blocked a ≡ false)
  unfolding check_address
  check_address-ok none e = cc
  check_address-ok (some b) {a} e = elim (Bool-cases (is_blocked b)) [
    | inl blocked ↦ absurd (ground (arith, e, blocked))
    | inr free ↦ let at : b ≡ a = ground (arith, e, free) in (rw at, rw at at free)
  ]

  abbrev IsFree : Address → Type 0
  IsFree a = is_blocked a ≡ false

  check_records-All :
      (records : List String) {found : List Address}
      → check_records r records ≡ ok found
      → All IsFree found
  unfolding check_records
  check_records-All [] {found} e = let at : [] ≡ found = cc in rw (← at) tt
  check_records-All (raw ∷ rest) {found} e =
      let (a, checked, e1) = >>=-eq-ok (check_address r (parse_address (before b'%' raw))) _ e in
      let (others, more, e2) = >>=-eq-ok (check_records r rest) _ e1 in
      let at : a ∷ others ≡ found = cc in
      rw (← at) ((check_address-ok _ checked).1, check_records-All rest more)

  resolve_host-All :
      (records : Option (List String)) {found : List Address}
      → resolve_host r records ≡ ok found
      → All IsFree found
  unfolding resolve_host
  resolve_host-All none e = cc
  resolve_host-All (some records) e = check_records-All records e

  check_scope-ok :
      (nets : List Network) (a : Option Address) (selected : String) {answer : String}
      → check_scope r nets a selected ≡ ok answer
      → (selected ≡ answer)
        × ((nets ≡ []) ⊎ ((b : Address) × (a ≡ some b) × (any (is_in b) nets ≡ true)))
  unfolding check_scope
  check_scope-ok [] a selected e = (cc, inl refl)
  check_scope-ok (net ∷ nets) none selected e = cc
  check_scope-ok (net ∷ nets) (some b) selected e = elim (Bool-cases (any (is_in b) (net ∷ nets))) [
    | inl inside ↦ (ground (arith, e, inside), inr (b, refl, inside))
    | inr outside ↦ absurd (ground (arith, e, outside))
  ]

  select-ok :
      (found : List Address) {selected : String}
      → select r found ≡ ok selected
      → (a : Address) × (others : List Address) × (found ≡ a ∷ others) × (show_address a ≡ selected)
  select-ok [] e = cc
  select-ok (a ∷ others) e = (a, others, refl, cc)

  -- If the target guard answers with a text, and printed addresses parse to what was printed,
  -- then the host resolved to at least one address, the text stands for the first of them, none
  -- of them is a loopback address or the metadata endpoint, also behind an IPv4-mapped address,
  -- and the scope that applies is empty or has a network that holds the address.
  pub assert_connectable_target_safe :
      (host : String) (allowed : Option (List String)) {selected : String}
      → ((a : Address) → parse_address (show_address a) ≡ some a)
      → assert_connectable_target r host allowed ≡ ok selected
      → (a : Address) × (others : List Address) × (nets : List Network) × (parse_address selected
          ≡ some a)
        × (resolve_host r (resolve (strip host)) ≡ ok (a ∷ others))
        × All (λ b. is_blocked b ≡ false) (a ∷ others)
        × (scope_of r allowed ≡ ok nets)
        × ((nets ≡ []) ⊎ (any (is_in a) nets ≡ true))
  unfolding assert_connectable_target
  assert_connectable_target_safe host allowed {selected} round e =
      let e0 =
        checked_host (is_blank (strip host) || (is_long (strip host) || has_control (strip host))) _
          _ e in
      let (found, resolved, e1) = >>=-eq-ok (resolve_host r (resolve (strip host))) _ e0 in
      let (picked, first, e2) = >>=-eq-ok (select r found) _ e1 in
      let (nets, scope, e3) = >>=-eq-ok (scope_of r allowed) _ e2 in
      let (a, others, split_, shown) = select-ok found first in
      let (kept, inside) = check_scope-ok nets (parse_address picked) picked e3 in
      let at : show_address a ≡ selected = shown ∙ kept in
      let parsed : parse_address picked ≡ some a = rw (← shown) (round a) in
      (
        a,
        others,
        nets,
        rw (← at) (round a),
        cc (resolved, split_),
        rw split_ at (resolve_host-All (resolve (strip host)) resolved),
        scope,
        elim inside [
          | inl open_ ↦ inl open_
          | inr (b, was, member_) ↦
              let b_is : b ≡ a = ground (arith, was, parsed) in inr (rw b_is at member_)
        ],
      )

  some_network-ok :
      (nets : List Network) {kept : List Network}
      → some_network r nets ≡ ok kept
      → (nets ≡ kept) × (kept ≢ [])
  some_network-ok [] e = cc
  some_network-ok (net ∷ nets) e = (cc, λ empty. cc)

  require_subnets-All :
      (administrative nets : List Network) {shown : List String}
      → require_subnets r administrative nets ≡ ok shown
      → All (λ net. any (is_subnet net) administrative ≡ true) nets
  unfolding require_subnets
  require_subnets-All administrative [] e = tt
  require_subnets-All administrative (net ∷ nets) {shown} e =
      elim (Bool-cases (any (is_subnet net) administrative)) [
        | inr outside ↦ absurd (ground (arith, e, outside))
        | inl inside ↦
            let e0 : (require_subnets r administrative nets >>= λ rest.
            ok (r.show_network net ∷ rest))
                ≡ ok shown =
              rw inside at e in
            let (rest, tail, e1) = >>=-eq-ok (require_subnets r administrative nets) _ e0 in
            (inside, require_subnets-All administrative nets tail)
      ]

  constrain-All :
      (nets administrative : List Network) {shown : List String}
      → constrain r nets administrative ≡ ok shown
      → administrative ≢ []
      → All (λ net. any (is_subnet net) administrative ≡ true) nets
  constrain-All nets [] e some_ = absurd (some_ refl)
  constrain-All nets (allowed ∷ rest) e some_ = require_subnets-All (allowed ∷ rest) nets e

  any_subnet :
      (a : Address) (net : Network) (administrative : List Network)
      → is_in a net ≡ true
      → any (is_subnet net) administrative ≡ true
      → any (is_in a) administrative ≡ true
  any_subnet a net [] h k = cc
  any_subnet a net (allowed ∷ rest) h k = elim (Bool-cases (is_subnet net allowed)) [
    | inl below ↦ rw (is_in-is_subnet a net allowed h below)
    | inr aside ↦
        let k' : any (is_subnet net) rest ≡ true = rw aside at k in
        ground (arith, any_subnet a net rest h k')
  ]

  covered :
      (a : Address) (nets administrative : List Network)
      → All (λ net. any (is_subnet net) administrative ≡ true) nets
      → any (is_in a) nets ≡ true
      → any (is_in a) administrative ≡ true
  covered a [] administrative h k = cc
  covered a (net ∷ nets) administrative (here, h) k = elim (Bool-cases (is_in a net)) [
    | inl inside ↦ any_subnet a net administrative inside here
    | inr outside ↦ covered a nets administrative h (rw outside at k)
  ]

  -- A network prints as a text that is neither blank nor padded, and that parses to it.
  abbrev pub Prints : Network → Type 0
  Prints net =
      (strip (show_network net) ≡ show_network net)
      × (is_blank (show_network net) ≡ false)
      × (parse_network (show_network net) ≡ some net)

  -- A network that a scope accepts: it prints, and its ends are not blocked.
  abbrev IsUsable : Network → Type 0
  IsUsable net =
      Prints net
      × ((is_blocked (of_version net.is_v6 net.first) || is_blocked (of_version net.is_v6 net.last))
          ≡ false)

  check_network-ok :
      (entry : String) (o : Option Network) {net : Network}
      → check_network r entry o ≡ ok net
      → (o ≡ some net)
        × ((is_blocked (of_version net.is_v6 net.first)
              || is_blocked (of_version net.is_v6 net.last))
            ≡ false)
  unfolding check_network
  check_network-ok entry none e = cc
  check_network-ok entry (some n) {net} e =
      elim (if-eq
        (is_blocked (of_version n.is_v6 n.first) || is_blocked (of_version n.is_v6 n.last)) e) [
          | inl (blocked, refused) ↦ cc
          | inr (free, taken) ↦
              let at : n ≡ net = cc in
              (
                ap some at,
                ap
                      (λ (x : Network).
                        is_blocked (of_version x.is_v6 x.first)
                        || is_blocked (of_version x.is_v6 x.last))
                      (sym at)
                    ∙ free,
              )
        ]

  parse_entries-IsUsable :
      (entries : List String) {nets : List Network}
      → ((entry : String) (net : Network) → parse_network entry ≡ some net → Prints net)
      → parse_entries r entries ≡ ok nets
      → All IsUsable nets
  unfolding parse_entries
  parse_entries-IsUsable [] {nets} prints e = let at : [] ≡ nets = cc in rw (← at) tt
  parse_entries-IsUsable (entry ∷ entries) {nets} prints e =
      let (net, checked, e1) = >>=-eq-ok (check_network r entry (parse_network entry)) _ e in
      let (others, more, e2) = >>=-eq-ok (parse_entries r entries) _ e1 in
      let at : net ∷ others ≡ nets = cc in
      let (read, free) = check_network-ok entry (parse_network entry) checked in
      rw (← at) ((prints entry net read, free), parse_entries-IsUsable entries prints more)

  non_blank_shown :
      (nets : List Network)
      → All IsUsable nets
      → non_blank (map show_network nets) ≡ map show_network nets
  non_blank_shown [] h = refl
  non_blank_shown (net ∷ nets) (((plain, filled, read), free), h) =
      simp (plain, filled, non_blank_shown nets h)

  parse_entries_shown :
      (nets : List Network) → All IsUsable nets → parse_entries r (map show_network nets) ≡ ok nets
  unfolding parse_entries check_network
  parse_entries_shown [] h = refl
  parse_entries_shown (net ∷ nets) (((plain, filled, read), free), h) =
      simp (read, free, parse_entries_shown nets h)

  -- The networks of a scope parse to themselves when they are printed.
  parse_network_scope_shown :
      (requested : List String) {nets : List Network}
      → ((entry : String) (net : Network) → parse_network entry ≡ some net → Prints net)
      → parse_network_scope r requested ≡ ok nets
      → parse_network_scope r (map show_network nets) ≡ ok nets
  unfolding parse_network_scope
  parse_network_scope_shown requested {nets} prints e =
      let usable = parse_entries-IsUsable (non_blank requested) prints e in
      ap (λ s. parse_entries r s) (non_blank_shown nets usable) ∙ parse_entries_shown nets usable

  require_subnets-shown :
      (administrative nets : List Network) {shown : List String}
      → require_subnets r administrative nets ≡ ok shown
      → shown ≡ map show_network nets
  unfolding require_subnets
  require_subnets-shown administrative [] e = cc
  require_subnets-shown administrative (net ∷ nets) {shown} e =
      elim (if-eq (any (is_subnet net) administrative) e) [
        | inr (outside, e0) ↦ cc
        | inl (inside, e0) ↦
            let (rest, tail, e1) = >>=-eq-ok (require_subnets r administrative nets) _ e0 in
            let same = require_subnets-shown administrative nets tail in
            let at : show_network net ∷ rest ≡ shown = cc in
            sym at ∙ ap (λ s. show_network net ∷ s) same
      ]

  constrain-shown :
      (nets administrative : List Network) {shown : List String}
      → constrain r nets administrative ≡ ok shown
      → shown ≡ map show_network nets
  constrain-shown nets [] e = cc
  constrain-shown nets (allowed ∷ rest) e = require_subnets-shown (allowed ∷ rest) nets e

  -- What a validated scope stores parses to the networks that were requested.
  pub validate_requested_scope-stored :
      (requested : List String) {shown : List String} {nets : List Network}
      → ((entry : String) (net : Network) → parse_network entry ≡ some net → Prints net)
      → parse_network_scope r requested ≡ ok nets
      → validate_requested_scope r requested ≡ ok shown
      → parse_network_scope r shown ≡ ok nets
  unfolding validate_requested_scope
  validate_requested_scope-stored requested {shown} {nets} prints read valid =
      let (nets', parsed_scope, e1) = >>=-eq-ok (parse_network_scope r requested) _ valid in
      let (kept, nonempty, e2) = >>=-eq-ok (some_network r nets') _ e1 in
      let (admin, found, e3) = >>=-eq-ok (administrative_scope r) _ e2 in
      let (whole, real) = some_network-ok nets' nonempty in
      let at : kept ≡ nets = cc (parsed_scope, whole, read) in
      let printed = constrain-shown kept admin e3 ∙ ap (λ ns. map show_network ns) at in
      ap (λ s. parse_network_scope r s) printed ∙ parse_network_scope_shown requested prints read

  -- Let a deployment have a non-empty allow-list, let printed addresses parse to what was
  -- printed, and let the networks that are read print as texts, neither blank nor padded, that
  -- parse to them. Then every target that the guard answers for a mission scope that was
  -- validated is an address that is not blocked, lies in a network that was requested, and lies
  -- in a network of the allow-list.
  pub validate_requested_scope_confines :
      (requested : List String) (host : String) {administrative : List Network}
      {shown : List String} {selected : String}
      → ((a : Address) → parse_address (show_address a) ≡ some a)
      → administrative_scope r ≡ ok administrative
      → administrative ≢ []
      → validate_requested_scope r requested ≡ ok shown
      → ((entry : String) (net : Network) → parse_network entry ≡ some net → Prints net)
      → assert_connectable_target r host (some shown) ≡ ok selected
      → (a : Address) × (nets : List Network) × (parse_address selected ≡ some a)
        × (is_blocked a ≡ false)
        × (parse_network_scope r requested ≡ ok nets)
        × (any (is_in a) nets ≡ true)
        × (any (is_in a) administrative ≡ true)
  unfolding validate_requested_scope scope_of
  validate_requested_scope_confines requested host {administrative} {shown} round admin some_ valid
        prints target =
      let (a, others, nets, parsed, resolved, free, scope, inside) =
        assert_connectable_target_safe host (some shown) round target in
      let (nets', parsed_scope, e1) = >>=-eq-ok (parse_network_scope r requested) _ valid in
      let (kept, nonempty, e2) = >>=-eq-ok (some_network r nets') _ e1 in
      let (admin', found, e3) = >>=-eq-ok (administrative_scope r) _ e2 in
      let same_admin : admin' ≡ administrative = cc (found, admin) in
      let (whole, real) = some_network-ok nets' nonempty in
      let e4 : constrain r kept administrative ≡ ok shown = cc (e3, same_admin) in
      let printed = constrain-shown kept administrative e4 in
      let requested_nets : parse_network_scope r requested ≡ ok kept = cc (parsed_scope, whole) in
      let again : parse_network_scope r shown ≡ ok kept =
        ap (λ s. parse_network_scope r s) printed
        ∙ parse_network_scope_shown requested prints requested_nets in
      let at : nets ≡ kept = cc (again, scope) in
      let member_ : any (is_in a) kept ≡ true = elim inside [
        | inl empty ↦ absurd (real (sym at ∙ empty))
        | inr held ↦ ap (λ ns. any (is_in a) ns) (sym at) ∙ held
      ] in
      (
        a,
        kept,
        parsed,
        free.0,
        requested_nets,
        member_,
        covered a kept administrative (constrain-All kept administrative e4 some_) member_,
      )
