-- ===== src/Normalizer/Fortios/Access.antt =====
-- No command of FortiOS takes back that HTTP is allowed (backend/normalizer/fortios.py).
use valsec.Prelude.{
  ℕ, String, Bool, true, Option, none, some, List, [], ◌∷◌, ◌++◌, keep, member, ◌is◌, is_blank,
  eq_iff, ◌≡◌, refl, arith, inl, inr, Bool-cases,
}
use valsec.Schema.{VendorNeutralConfig, Number}
use valsec.Normalizer.Settings.{
  Setting, FlagField, CountField, TextField, TimeoutField, flag, count, text, timeout, items, item,
  on_interface, of_interface, transport_input, ntp_servers, set_flag, set_count, set_text,
  set_timeout, add_item, add_items,
}
use valsec.Normalizer.Settings.Servers.{member-add_item}
use valsec.Normalizer.Generic.{assign_neutral, with_match, assigned, matched_config}
use valsec.Normalizer.Cisco.Parse.{LearnedMatch}
use valsec.Normalizer.Junos.Parse.{assign_junos, config_or}
use valsec.Normalizer.Fortios.Commands.{
  Act, sets, interface_text, interface_status, allows, protects, snmp_level, default_name,
  custom_name, policy, unread,
}
use valsec.Normalizer.Fortios.Policies.{ensure_policy, change_policy}
use valsec.Normalizer.Fortios.Acts.{
  FortiValue, FortiParse, ensure_interface, ensure_record, ensured_by, protocols, extend_protocols,
  set_forti, set_settings, act_on,
}
use valsec.Normalizer.Fortios.Parse.{keep_command}

abbrev pub transports : VendorNeutralConfig → List String
transports c = c.line_vty.transport_input

-- A list that has a text, and a longer one that keeps it.
abbrev pub Keeps : List String → List String → Type 0
Keeps xs ys = (x : String) → member x xs ≡ true → member x ys ≡ true

Keeps-append : (xs ys : List String) → Keeps xs (xs ++ ys)
Keeps-append [] ys x h = cc
Keeps-append (y ∷ xs) ys x h = elim (Bool-cases (y is x)) [
  | inl e ↦ rw e refl
  | inr e ↦ rw e (Keeps-append xs ys x (rw (← h, e) refl))
]

Keeps-add_item : (s : String) (xs : List String) → Keeps xs (add_item s xs)
unfolding add_item
Keeps-add_item s xs x h = elim (Bool-cases (member s xs)) [
  | inl e ↦ rw e h
  | inr e ↦ rw e (Keeps-append xs (s ∷ []) x h)
]

Keeps-add_items : (ss xs : List String) → Keeps xs (add_items ss xs)
unfolding add_items
Keeps-add_items [] xs x h = h
Keeps-add_items (s ∷ ss) xs x h = Keeps-add_items ss (add_item s xs) x (Keeps-add_item s xs x h)

flag_transports :
    (f : FlagField) (b : Bool) (c : VendorNeutralConfig)
    → transports (set_flag f b c) ≡ transports c
flag_transports f b c = ground arith

count_transports :
    (f : CountField) (n : ℕ) (c : VendorNeutralConfig) → transports (set_count f n c) ≡ transports c
count_transports f n c = ground arith

text_transports :
    (f : TextField) (s : String) (c : VendorNeutralConfig)
    → transports (set_text f s c) ≡ transports c
text_transports f s c = ground arith

timeout_transports :
    (f : TimeoutField) (n : Number) (c : VendorNeutralConfig)
    → transports (set_timeout f n c) ≡ transports c
timeout_transports f n c = ground arith

-- No assignment takes a transport away.
pub Keeps-assign_junos :
    (s : Setting) (c : VendorNeutralConfig) → Keeps (transports c) (transports (assign_junos s c))
unfolding assign_junos assign_neutral
Keeps-assign_junos (flag f b) c x h = rw (flag_transports f b c) h
Keeps-assign_junos (count f n) c x h = rw (count_transports f n c) h
Keeps-assign_junos (text f s) c x h = rw (text_transports f s c) h
Keeps-assign_junos (timeout f n) c x h = rw (timeout_transports f n c) h
Keeps-assign_junos (items transport_input ss) c x h = Keeps-add_items ss (transports c) x h
Keeps-assign_junos (items ntp_servers ss) c x h = h
Keeps-assign_junos (item transport_input s) c x h = Keeps-add_item s (transports c) x h
Keeps-assign_junos (item ntp_servers s) c x h = h
Keeps-assign_junos (on_interface name f b) c x h = h
Keeps-assign_junos (of_interface name f s) c x h = h

assign_neutral-Keeps :
    (s : Setting) (c : VendorNeutralConfig)
    → Keeps (transports c) (transports (config_or c (assign_neutral s c)))
unfolding assign_junos
assign_neutral-Keeps s c = Keeps-assign_junos s c

-- HTTP is known to be allowed, in the configuration and among the protocols.
abbrev pub IsOpen : FortiParse → Type 0
IsOpen p =
    (member "http" (transports p.config) ≡ true)
    × (member "http" p.management_protocols ≡ true)
    × (p.saw_allowaccess ≡ true)

policy_transports :
    (key : String) (c : VendorNeutralConfig) → transports (ensure_policy key c) ≡ transports c
unfolding ensure_policy
policy_transports key c = ground arith

pub record_transports :
    (section edit : String) (c : VendorNeutralConfig)
    → transports (ensure_record section edit c) ≡ transports c
unfolding ensure_record ensure_interface
record_transports section edit c = elim (Bool-cases (section is "system interface")) [
  | inl e ↦ rw e refl
  | inr e ↦ elim (Bool-cases (section is "firewall policy")) [
    | inl f ↦ rw (e, f) (policy_transports edit c)
    | inr f ↦ rw (e, f) refl
  ]
]

pub ensured_transports :
    (edit : Option String) (section : String) (c : VendorNeutralConfig)
    → transports (ensured_by edit section c) ≡ transports c
unfolding ensured_by
ensured_transports none section c = refl
ensured_transports (some edit) section c = elim (Bool-cases (is_blank edit)) [
  | inl e ↦ rw e refl
  | inr e ↦ rw e (record_transports section edit c)
]

keep_command-IsOpen :
    (m : LearnedMatch) (a : Option VendorNeutralConfig) (raw : String) (n : ℕ) (p : FortiParse)
    → Keeps (transports p.config) (transports (config_or p.config a))
    → IsOpen p
    → IsOpen (keep_command (with_match m a) raw n p)
keep_command-IsOpen m none raw n p kept h = h
keep_command-IsOpen m (some c) raw n p kept (seen, known, saw) = (kept "http" seen, known, saw)

mapped-IsOpen :
    (m : LearnedMatch) (s : Option Setting) (raw : String) (n : ℕ) (p : FortiParse)
    → IsOpen p
    → IsOpen (keep_command (assigned m s p.config) raw n p)
unfolding assigned
mapped-IsOpen m none raw n p h = h
mapped-IsOpen m (some s) raw n p h =
    keep_command-IsOpen m (assign_neutral s p.config) raw n p (assign_neutral-Keeps s p.config) h

pub matched-IsOpen :
    (o : Option LearnedMatch) (raw : String) (n : ℕ) (p : FortiParse)
    → IsOpen p
    → IsOpen (keep_command (matched_config o p.config) raw n p)
unfolding matched_config assigned
matched-IsOpen none raw n p h = h
matched-IsOpen (some m) raw n p h = mapped-IsOpen m m.setting raw n p h

module _ (json : FortiValue → String) where
  set_forti-IsOpen :
      (s : Setting) (raw : String) (n : ℕ) (p : FortiParse)
      → IsOpen p
      → IsOpen (set_forti json s raw n p)
  unfolding set_forti
  set_forti-IsOpen s raw n p (seen, known, saw) =
      (Keeps-assign_junos s p.config "http" seen, known, saw)

  pub set_settings-IsOpen :
      (ss : List Setting) (raw : String) (n : ℕ) (p : FortiParse)
      → IsOpen p
      → IsOpen (set_settings json ss raw n p)
  unfolding set_settings
  set_settings-IsOpen [] raw n p h = h
  set_settings-IsOpen (s ∷ ss) raw n p h =
      set_settings-IsOpen ss raw n _ (set_forti-IsOpen s raw n p h)

  pub act_on-IsOpen :
      (act : Act) (raw : String) (n : ℕ) (p : FortiParse)
      → IsOpen p
      → IsOpen (act_on json act raw n p)
  unfolding act_on extend_protocols change_policy
  act_on-IsOpen (sets ss) raw n p h = set_settings-IsOpen ss raw n p h
  act_on-IsOpen (interface_text edit field s) raw n p h = h
  act_on-IsOpen (interface_status edit b) raw n p h = h
  act_on-IsOpen (allows allowed) raw n p (seen, known, saw) = (
    Keeps-assign_junos (items transport_input (extend_protocols allowed p.management_protocols))
        p.config "http" seen,
    Keeps-add_items (keep (λ x. member x allowed) protocols) p.management_protocols "http" known,
    refl,
  )
  act_on-IsOpen (protects b) raw n p h = h
  act_on-IsOpen (snmp_level b) raw n p h = h
  act_on-IsOpen default_name raw n p h = h
  act_on-IsOpen (custom_name s) raw n p h = h
  act_on-IsOpen (policy edit key s) raw n p h = h
  act_on-IsOpen unread raw n p h = h

pub member-keep :
    (p : String → Bool) (x : String) (xs : List String)
    → p x ≡ true
    → member x xs ≡ true
    → member x (keep p xs) ≡ true
member-keep p x [] taken h = h
member-keep p x (y ∷ xs) taken h = elim (Bool-cases (y is x)) [
  | inl e ↦ let same : y ≡ x = (eq_iff y x).0 e in rw (same, taken, (eq_iff x x).1 refl) refl
  | inr e ↦ elim (Bool-cases (p y)) [
    | inl k ↦ rw (k, e) (member-keep p x xs taken (rw (← h, e) refl))
    | inr k ↦ rw k (member-keep p x xs taken (rw (← h, e) refl))
  ]
]

-- What is added to a list stands in it.
pub member-add_items :
    (x : String) (ss xs : List String) → member x ss ≡ true → member x (add_items ss xs) ≡ true
unfolding add_items
member-add_items x [] xs h = cc
member-add_items x (s ∷ ss) xs h = elim (Bool-cases (s is x)) [
  | inl e ↦ Keeps-add_items ss (add_item s xs) x (rw ((eq_iff s x).0 e) (member-add_item x xs))
  | inr e ↦ member-add_items x ss (add_item s xs) (rw (← h, e) refl)
]

pub allowed_http :
    (allowed known : List String)
    → member "http" allowed ≡ true
    → member "http" (extend_protocols allowed known) ≡ true
unfolding extend_protocols
allowed_http allowed known h =
    member-add_items "http" (keep (λ p. member p allowed) protocols) known
      (member-keep (λ p. member p allowed) "http" protocols h refl)
