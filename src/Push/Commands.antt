-- ===== src/Push/Commands.antt =====
-- The commands that are made of a text, and which of them a vendor's procedure may send.
use valsec.Prelude.{
  String, Bool, true, false, not, ◌&&◌, ◌||◌, List, [], ◌∷◌, ◌++◌, any, keep, is_blank, strip,
  lower, contains, member, ◌is◌, eq_iff, if◌then◌else◌, Result, ok, >>=-eq-ok, All, All-append,
  All-map, ◌≡◌, refl, inl, inr, Bool-cases, arith, if-eq, if-elim, join, map, split,
}
use valsec.Errors.{PushFailure}
use valsec.Remediation.Risk.{classify_risk}
use valsec.Push.Uci.{is_uci_mutation}
use valsec.Push.{
  shell_meta, fortinet_keys, cisco_wrappers, unless_wrapper, uci_parts, uci_lines, mutation_lines,
  generic_reload, some_command, accepted_commands,
}

-- The commands that write the startup configuration of Cisco IOS.
abbrev pub startup_writes : List String
startup_writes = "write memory" ∷ "copy running-config startup-config" ∷ []

-- What `apply_remediation` adds to a UCI change.
abbrev pub uci_endings : List String
uci_endings = "uci commit" ∷ "/etc/init.d/sysntpd restart" ∷ "/etc/init.d/system reload" ∷ []

-- The commands that a vendor's procedure may send, of Junos any.
abbrev pub is_permitted : String → String → Bool
is_permitted vendor_key command =
    if vendor_key is "cisco"
    then not (member (lower command) startup_writes)
    else if vendor_key is "juniper"
    then true
    else is_uci_mutation command || member command uci_endings

-- The texts that are not refused as a whole.
abbrev pub is_pushable : String → String → Bool
is_pushable vendor text =
    let vendor_key = lower (strip vendor) in
    not (member vendor_key fortinet_keys)
    && (vendor_key is "cisco" || (vendor_key is "juniper" || not (classify_risk vendor text)))

unfoldable pub Permitted : String → List String → Type 0
Permitted vendor_key = All (λ c. is_permitted vendor_key c ≡ true)

keep-All :
    (Q : String → Type 0) (p : String → Bool) (xs : List String)
    → ((x : String) → p x ≡ true → Q x)
    → All Q (keep p xs)
keep-All Q p [] f = tt
keep-All Q p (x ∷ xs) f = elim (Bool-cases (p x)) [
  | inl taken ↦ rw taken (f x taken, keep-All Q p xs f)
  | inr passed ↦ rw passed (keep-All Q p xs f)
]

AllUci : List String → Type 0
AllUci = All (λ c. is_uci_mutation c ≡ true)

uci_parts-AllUci :
    (parts : List String) {commands : List String} → uci_parts parts ≡ ok commands → AllUci commands
unfolding uci_parts AllUci
uci_parts-AllUci [] {commands} e = let at : [] ≡ commands = cc in rw (← at) tt
uci_parts-AllUci (part ∷ parts) {commands} e =
    elim (if-eq (is_blank part || lower part is "uci commit") e) [
      | inl (skipped, e1) ↦ uci_parts-AllUci parts e1
      | inr (kept, e1) ↦ elim (if-eq (not (is_uci_mutation part)) e1) [
        | inl (refused, e2) ↦ cc
        | inr (matches, e2) ↦
            let (rest, e3, e4) = >>=-eq-ok (uci_parts parts) _ e2 in
            let at : part ∷ rest ≡ commands = cc in
            let matched : is_uci_mutation part ≡ true = ground (arith, matches) in
            rw (← at) (matched, uci_parts-AllUci parts e3)
      ]
    ]

uci_lines-AllUci :
    (lines : List String) {commands : List String} → uci_lines lines ≡ ok commands → AllUci commands
unfolding uci_lines AllUci
uci_lines-AllUci [] {commands} e = let at : [] ≡ commands = cc in rw (← at) tt
uci_lines-AllUci (line ∷ lines) {commands} e =
    elim (if-eq (any (λ marker. contains marker line) shell_meta) e) [
      | inl (refused, e1) ↦ cc
      | inr (clean, e1) ↦
          let (first, e2, e3) = >>=-eq-ok (uci_parts (map strip (split b';' line))) _ e1 in
          let (rest, e4, e5) = >>=-eq-ok (uci_lines lines) _ e3 in
          let at : first ++ rest ≡ commands = cc in
          rw (← at) (All-append _ first rest (uci_parts-AllUci _ e2) (uci_lines-AllUci lines e4))
    ]

some_command-eq :
    (commands : List String) {answer : List String}
    → some_command commands ≡ ok answer
    → commands ≡ answer
some_command-eq [] e = cc
some_command-eq (c ∷ cs) e = cc

cisco_permitted :
    (command : String)
    → not (member (lower command) cisco_wrappers) ≡ true
    → not (member (lower command) startup_writes) ≡ true
cisco_permitted command h = ground (arith, h)

or_left : (a b : Bool) → a ≡ true → a || b ≡ true
or_left true b h = refl
or_left false b h = cc

or_right : (a b : Bool) → b ≡ true → a || b ≡ true
or_right true b h = refl
or_right false b h = h

cisco-Permitted : (lines : List String) → Permitted "cisco" (unless_wrapper cisco_wrappers lines)
unfolding Permitted
cisco-Permitted lines = keep-All _ _ lines cisco_permitted

abbrev accept : List String → Result PushFailure (List String)
accept commands = ok commands

cisco-ok :
    (lines : List String) {commands : List String}
    → accept (unless_wrapper cisco_wrappers lines) ≡ ok commands
    → Permitted "cisco" commands
cisco-ok lines {commands} e =
    let at : unless_wrapper cisco_wrappers lines ≡ commands = cc in
    rw (← at) (cisco-Permitted lines)

pub juniper-Permitted : (commands : List String) → Permitted "juniper" commands
unfolding Permitted
juniper-Permitted [] = tt
juniper-Permitted (c ∷ cs) = (refl, juniper-Permitted cs)

uci-Permitted :
    (key : String) (commands : List String)
    → (key is "cisco") ≡ false
    → (key is "juniper") ≡ false
    → All (λ c. is_uci_mutation c || member c uci_endings ≡ true) commands
    → Permitted key commands
unfolding Permitted
uci-Permitted key commands cisco juniper h = rw (cisco, juniper) h

pub mutation_lines-Permitted :
    (vendor text : String) {commands : List String}
    → mutation_lines vendor text ≡ ok commands
    → Permitted (lower (strip vendor)) commands
unfolding mutation_lines AllUci
mutation_lines-Permitted vendor text {commands} e =
    elim (if-eq (lower (strip vendor) is "cisco") e) [
      | inl (cisco, e1) ↦
          let key : lower (strip vendor) ≡ "cisco" = (eq_iff _ _).0 cisco in rw key (cisco-ok _ e1)
      | inr (other, e1) ↦ elim (if-eq (lower (strip vendor) is "juniper") e1) [
        | inl (juniper, e2) ↦
            let key : lower (strip vendor) ≡ "juniper" = (eq_iff _ _).0 juniper in
            rw key (juniper-Permitted commands)
        | inr (uci, e2) ↦ elim (if-eq (not (member (lower (strip vendor)) fortinet_keys)) e2) [
          | inl (served, e3) ↦
              uci-Permitted _ commands other uci
                (All-map _ _ _ (λ c h. or_left _ _ h) (uci_lines-AllUci _ e3))
          | inr (closed, e3) ↦ cc
        ]
      ]
    ]

ending-IsPermitted :
    (commands : List String)
    → All (λ c. member c uci_endings ≡ true) ("uci commit" ∷ generic_reload commands)
unfolding generic_reload
ending-IsPermitted commands = (
  refl,
  let Ending : List String → Type 0 = All (λ c. member c uci_endings ≡ true) in
      let reload : Ending ("/etc/init.d/system reload" ∷ []) = (refl, tt) in
      let restart : Ending ("/etc/init.d/sysntpd restart" ∷ []) = (refl, tt) in
      if-elim Ending (contains "system.ntp" (lower (join "\n" commands))) restart (
        if-elim Ending
          (contains "system.@system" (lower (join "\n" commands))
            || contains "system.hostname" (lower (join "\n" commands)))
          {b = []} reload tt),
)

pub uci_ending-Permitted :
    (key : String) (commands : List String)
    → (key is "cisco") ≡ false
    → (key is "juniper") ≡ false
    → Permitted key ("uci commit" ∷ generic_reload commands)
uci_ending-Permitted key commands cisco juniper = uci-Permitted key _ cisco juniper (
    All-map (λ c. member c uci_endings ≡ true)
      (λ c. is_uci_mutation c || member c uci_endings ≡ true)
      ("uci commit" ∷ generic_reload commands) (λ c h. or_right _ _ h)
      (ending-IsPermitted commands))

pub Permitted-append :
    (key : String) (xs ys : List String)
    → Permitted key xs
    → Permitted key ys
    → Permitted key (xs ++ ys)
unfolding Permitted
Permitted-append key xs ys = All-append _ xs ys

pub cisco_framed :
    (commands : List String)
    → Permitted "cisco" commands
    → Permitted "cisco" ("configure terminal" ∷ commands ++ "end" ∷ [])
unfolding Permitted lower
cisco_framed commands h = (refl, All-append _ commands _ h (refl, tt))

-- An accepted text is the mutation lines, of a vendor and a text that are not refused.
pub accepted_commands-IsPushable :
    (vendor text : String) {commands : List String}
    → accepted_commands vendor text ≡ ok commands
    → (is_pushable vendor text ≡ true) × (mutation_lines vendor text ≡ ok commands)
unfolding accepted_commands
accepted_commands-IsPushable vendor text {commands} e =
    elim (if-eq (member (lower (strip vendor)) fortinet_keys) e) [
      | inl (fortinet, e1) ↦ cc
      | inr (served, e1) ↦
          elim (if-eq
            (not (lower (strip vendor) is "cisco" || lower (strip vendor) is "juniper")
              && classify_risk vendor text)
            e1) [
              | inl (risky, e2) ↦ cc
              | inr (safe, e2) ↦
                  let (mutations, e3, e4) = >>=-eq-ok (mutation_lines vendor text) _ e2 in
                  let at : mutations ≡ commands = some_command-eq mutations e4 in
                  (ground (arith, served, safe), rw (← at) e3)
            ]
    ]
