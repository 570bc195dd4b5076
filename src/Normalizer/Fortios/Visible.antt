-- ===== src/Normalizer/Fortios/Visible.antt =====
-- HTTP that an interface allows stays visible to the end of a FortiOS configuration
-- (backend/normalizer/fortios.py).
use valsec.Prelude.{
  ℕ, String, Bool, true, false, not, ◌&&◌, ◌||◌, Option, some, List, [], ◌∷◌, map, member, is_empty,
  ◌is◌, is_blank, eq_iff, lower, strip, starts_with, ◌≡◌, refl, ap, ◌∙◌, inl, inr, Bool-cases,
  Result, ok,
}
use valsec.Schema.{VendorNeutralConfig, Number, ServiceHardening, LineVty}
use valsec.Audit.{Normalized}
use valsec.Compliance.Verdicts.{fail}
use valsec.Compliance.Neutral.{fortinet_secure_management, insecure_protocols, secure_protocols}
use valsec.Normalizer.Generic.{assign_neutral}
use valsec.Normalizer.Cisco.Parse.{LearnedMatch}
use valsec.Normalizer.Junos.Parse.{assign_junos}
use valsec.Normalizer.Fortios.Commands.{
  Act, sets, interface_text, interface_status, allows, protects, snmp_level, default_name,
  custom_name, policy, unread, comment_settings, command_act, edit_act, record_act, switch_act,
  interface_act,
}
use valsec.Normalizer.Fortios.Acts.{
  FortiValue, Frame, FortiParse, current_section, current_edit, extend_protocols, act_on,
}
use valsec.Normalizer.Fortios.Parse.{
  edit_record, infer_management, infer_removed, forti_result, unknown_command, act_or_keep,
  tokens_of, token_act, ensured, run_tokens, run_command, block_line, forti_line, forti_lines,
}
use valsec.Normalizer.Fortios.Access.{
  transports, IsOpen, member-keep, member-add_items, record_transports, ensured_transports,
  matched-IsOpen, allowed_http, set_settings-IsOpen, act_on-IsOpen,
}

module _ (json : FortiValue → String) (shlex_split : String → Result String (List String))
    (number : String → Option Number) (list_text : List String → String)
    (resolve : String → ℕ → Option String → Option LearnedMatch) where
  unknown_command-IsOpen :
      (raw : String) (n : ℕ) (p : FortiParse)
      → IsOpen p
      → IsOpen (unknown_command json shlex_split number list_text resolve raw n p)
  unfolding unknown_command
  unknown_command-IsOpen raw n p h = matched-IsOpen _ raw n p h

  act_or_keep-IsOpen :
      (act : Act) (raw : String) (n : ℕ) (p : FortiParse)
      → IsOpen p
      → IsOpen (act_or_keep json shlex_split number list_text resolve act raw n p)
  unfolding act_or_keep
  act_or_keep-IsOpen unread raw n p h = unknown_command-IsOpen raw n p h
  act_or_keep-IsOpen (sets ss) raw n p h = act_on-IsOpen json (sets ss) raw n p h
  act_or_keep-IsOpen (interface_text edit field s) raw n p h = h
  act_or_keep-IsOpen (interface_status edit b) raw n p h = h
  act_or_keep-IsOpen (allows allowed) raw n p h = act_on-IsOpen json (allows allowed) raw n p h
  act_or_keep-IsOpen (protects b) raw n p h = act_on-IsOpen json (protects b) raw n p h
  act_or_keep-IsOpen (snmp_level b) raw n p h = act_on-IsOpen json (snmp_level b) raw n p h
  act_or_keep-IsOpen default_name raw n p h = act_on-IsOpen json default_name raw n p h
  act_or_keep-IsOpen (custom_name s) raw n p h = act_on-IsOpen json (custom_name s) raw n p h
  act_or_keep-IsOpen (policy edit key s) raw n p h =
      act_on-IsOpen json (policy edit key s) raw n p h

  ensured-IsOpen :
      (p : FortiParse) → IsOpen p → IsOpen (ensured json shlex_split number list_text resolve p)
  unfolding ensured
  ensured-IsOpen p (seen, known, saw) = (
    rw (ensured_transports (current_edit p.stack) (current_section p.stack) p.config) seen,
    known,
    saw,
  )

  run_tokens-IsOpen :
      (ts : List String) (raw : String) (n : ℕ) (p : FortiParse)
      → IsOpen p
      → IsOpen (run_tokens json shlex_split number list_text resolve ts raw n p)
  unfolding run_tokens
  run_tokens-IsOpen [] raw n p h = unknown_command-IsOpen raw n p h
  run_tokens-IsOpen (a ∷ []) raw n p h = unknown_command-IsOpen raw n p h
  run_tokens-IsOpen (a ∷ b ∷ []) raw n p h = unknown_command-IsOpen raw n p h
  run_tokens-IsOpen (a ∷ b ∷ c ∷ rest) raw n p h =
      elim (Bool-cases (member (lower a) ("set" ∷ "unset" ∷ []))) [
        | inl e ↦ rw e (
            act_or_keep-IsOpen
              (token_act json shlex_split number list_text resolve p.stack (lower a) (lower b)
                (c ∷ rest))
              raw n _ (ensured-IsOpen p h))
        | inr e ↦ rw e (unknown_command-IsOpen raw n p h)
      ]

  run_command-IsOpen :
      (line raw : String) (n : ℕ) (p : FortiParse)
      → IsOpen p
      → IsOpen (run_command json shlex_split number list_text resolve line raw n p)
  unfolding run_command
  run_command-IsOpen line raw n p h =
      run_tokens-IsOpen
        (tokens_of json shlex_split number list_text resolve line (shlex_split line)) raw n p h

  edit_record-IsOpen :
      (edit : String) (f : Frame) (fs : List Frame) (p : FortiParse)
      → IsOpen p
      → IsOpen (edit_record edit f fs p)
  unfolding edit_record
  edit_record-IsOpen edit f fs p (seen, known, saw) =
      (rw (record_transports f.section edit p.config) seen, known, saw)

  block_line-IsOpen :
      (stack : List Frame) (line raw : String) (n : ℕ) (p : FortiParse)
      → IsOpen p
      → IsOpen (block_line json shlex_split number list_text resolve stack line raw n p)
  unfolding block_line
  block_line-IsOpen [] line raw n p h = run_command-IsOpen line raw n p h
  block_line-IsOpen (f ∷ fs) line raw n p h = elim (Bool-cases (starts_with (lower line) "edit ")) [
    | inl e ↦ rw e (edit_record-IsOpen _ f fs p h)
    | inr e ↦ elim (Bool-cases (lower line is "next")) [
      | inl k ↦ rw (e, k) h
      | inr k ↦ elim (Bool-cases (lower line is "end")) [
        | inl l ↦ rw (e, k, l) h
        | inr l ↦ rw (e, k, l) (run_command-IsOpen line raw n p h)
      ]
    ]
  ]

  forti_line-IsOpen :
      (line : ℕ × String) (p : FortiParse)
      → IsOpen p
      → IsOpen (forti_line json shlex_split number list_text resolve line p)
  unfolding forti_line
  forti_line-IsOpen (n, raw) p h = elim (Bool-cases (is_blank (strip raw))) [
    | inl e ↦ rw e h
    | inr e ↦ elim (Bool-cases (starts_with (strip raw) "#")) [
      | inl k ↦ rw (e, k) (set_settings-IsOpen json (comment_settings (strip raw)) raw n p h)
      | inr k ↦ elim (Bool-cases (starts_with (lower (strip raw)) "config ")) [
        | inl l ↦ rw (e, k, l) h
        | inr l ↦ rw (e, k, l) (block_line-IsOpen p.stack (strip raw) raw n p h)
      ]
    ]
  ]

  forti_lines-IsOpen :
      (lines : List (ℕ × String)) (p : FortiParse)
      → IsOpen p
      → IsOpen (forti_lines json shlex_split number list_text resolve lines p)
  unfolding forti_lines
  forti_lines-IsOpen [] p h = h
  forti_lines-IsOpen (line ∷ lines) p h = forti_lines-IsOpen lines _ (forti_line-IsOpen line p h)

-- What a result says of HTTP: the server counts as enabled, and the control on secure management
-- fails.
abbrev pub IsVisible : Normalized → Type 0
IsVisible r =
    (r.config.service_hardening.http_server_disabled ≡ some false)
    × ((fortinet_secure_management r.config.line_vty.transport_input).0 ≡ fail)

later : (b : Bool) {c : Bool} → c ≡ true → (b || c) ≡ true
later true h = refl
later false h = h

still_member : (xs : List String) → member "http" xs ≡ true → member "http" (map lower xs) ≡ true
unfolding lower
still_member [] h = h
still_member (x ∷ xs) h = elim (Bool-cases (x is "http")) [
  | inl e ↦ rw ((eq_iff x "http").0 e) refl
  | inr e ↦ later (lower x is "http") (still_member xs (rw (← h, e) refl))
]

member_nonempty : (x : String) (xs : List String) → member x xs ≡ true → is_empty xs ≡ false
member_nonempty x [] h = cc
member_nonempty x (y ∷ xs) h = refl

insecure_fails :
    (xs : List String) → member "http" xs ≡ true → (fortinet_secure_management xs).0 ≡ fail
unfolding fortinet_secure_management
insecure_fails xs h =
    let lowered = still_member xs h in
    let insecure =
      member_nonempty "http" (insecure_protocols (map lower xs))
        (member-keep (λ p. p is "http" || p is "telnet") "http" (map lower xs) refl lowered) in
    elim (Bool-cases (is_empty (secure_protocols (map lower xs)))) [
      | inl e ↦ rw (member_nonempty "http" (map lower xs) lowered, e) refl
      | inr e ↦ rw (member_nonempty "http" (map lower xs) lowered, e, insecure) refl
    ]

removed_transports :
    (q : FortiParse) (c : VendorNeutralConfig)
    → ((infer_removed q c).service_hardening ≡ c.service_hardening)
      × ((infer_removed q c).line_vty ≡ c.line_vty)
removed_transports q c = elim (Bool-cases (q.saw_snmp_v3 && not q.saw_default_community)) [
  | inl e ↦ rw e (refl, refl)
  | inr e ↦ rw e (refl, refl)
]

result-IsVisible :
    (json : FortiValue → String) (p : FortiParse) → IsOpen p → IsVisible (forti_result json p)
unfolding forti_result
result-IsVisible json p (seen, known, saw) =
    let (hardening, vty) = removed_transports p (infer_management p p.config) in
    (
      ap (λ (h : ServiceHardening). h.http_server_disabled) hardening ∙ (rw (saw, known) refl),
      insecure_fails _ (ap (λ (v : LineVty). member "http" v.transport_input) vty ∙ rw saw seen),
    )

-- A line that holds a command: it is neither blank nor a comment, and opens or ends no block and
-- no record.
abbrev pub IsCommand : String → Type 0
IsCommand line =
    (is_blank line ≡ false)
    × (starts_with line "#" ≡ false)
    × (starts_with (lower line) "config " ≡ false)
    × (starts_with (lower line) "edit " ≡ false)
    × ((lower line is "next") ≡ false)
    × ((lower line is "end") ≡ false)

module _ (json : FortiValue → String) (shlex_split : String → Result String (List String))
    (number : String → Option Number) (list_text : List String → String)
    (resolve : String → ℕ → Option String → Option LearnedMatch) where
  forti_line-command :
      (raw : String) (n : ℕ) (f : Frame) (fs : List Frame) (p : FortiParse)
      → p.stack ≡ f ∷ fs
      → IsCommand (strip raw)
      → forti_line json shlex_split number list_text resolve (n, raw) p
        ≡ run_command json shlex_split number list_text resolve (strip raw) raw n p
  unfolding forti_line block_line
  forti_line-command raw n f fs p at (filled, plain, closed, new_, more, open_) =
      simp (filled, plain, closed, at, new_, more, open_) refl

  token_act-allowaccess :
      (edit : String) (fs : List Frame) (stack : List Frame) (action key v : String)
      (vs : List String)
      → stack ≡ record { section = "system interface"; edit = some edit } ∷ fs
      → is_blank edit ≡ false
      → action ≡ "set"
      → key ≡ "allowaccess"
      → token_act json shlex_split number list_text resolve stack action key (v ∷ vs)
        ≡ allows (map lower (v ∷ vs))
  unfolding token_act command_act edit_act record_act switch_act interface_act
  token_act-allowaccess edit fs stack action key v vs at named set_ allow =
      rw (at, set_, allow, named) refl

  run_command-allowaccess :
      (edit : String) (fs : List Frame) (line raw a b v : String) (vs : List String) (n : ℕ)
      (p : FortiParse)
      → p.stack ≡ record { section = "system interface"; edit = some edit } ∷ fs
      → is_blank edit ≡ false
      → shlex_split line ≡ ok (a ∷ b ∷ v ∷ vs)
      → lower a ≡ "set"
      → lower b ≡ "allowaccess"
      → run_command json shlex_split number list_text resolve line raw n p
        ≡ act_on json
            (allows (map lower (v ∷ vs)))
            raw
            n
            (ensured json shlex_split number list_text resolve p)
  unfolding run_command run_tokens tokens_of act_or_keep
  run_command-allowaccess edit fs line raw a b v vs n p at named split_ set_ allow =
      simp
        (
          split_,
          set_,
          token_act-allowaccess edit fs p.stack "set" (lower b) v vs at named refl allow,
        )
        refl

  act_on-IsVisible :
      (allowed : List String) (raw : String) (n : ℕ) (p : FortiParse) (lines : List (ℕ × String))
      → member "http" allowed ≡ true
      → IsVisible (
          forti_result json (
            forti_lines json shlex_split number list_text resolve lines
              (act_on json (allows allowed) raw n p)))
  unfolding act_on assign_junos assign_neutral
  act_on-IsVisible allowed raw n p lines granted =
      let known = allowed_http allowed p.management_protocols granted in
      result-IsVisible json _ (
        forti_lines-IsOpen json shlex_split number list_text resolve lines
          (act_on json (allows allowed) raw n p)
          (
            member-add_items "http" (extend_protocols allowed p.management_protocols)
                (transports p.config) known,
            known,
            refl,
          ))

  -- In a record of `config system interface`, let a line come that holds a command and that
  -- `shlex` splits into `set`, `allowaccess` and values, of which one is `http` in any case. Then
  -- from any state of the parse, however the configuration goes on and whatever the learned
  -- mappings are, the result says that HTTP is enabled, and the FortiGate control on secure
  -- administrative access fails.
  pub allowaccess_http-IsVisible :
      (edit : String) (fs : List Frame) (raw a b v : String) (vs : List String) (n : ℕ)
      (p : FortiParse) (lines : List (ℕ × String))
      → p.stack ≡ record { section = "system interface"; edit = some edit } ∷ fs
      → is_blank edit ≡ false
      → IsCommand (strip raw)
      → shlex_split (strip raw) ≡ ok (a ∷ b ∷ v ∷ vs)
      → lower a ≡ "set"
      → lower b ≡ "allowaccess"
      → member "http" (map lower (v ∷ vs)) ≡ true
      → IsVisible (
          forti_result json
            (forti_lines json shlex_split number list_text resolve ((n, raw) ∷ lines) p))
  unfolding forti_lines
  allowaccess_http-IsVisible edit fs raw a b v vs n p lines at named command split_ set_ allow
        granted =
      let read =
        forti_line-command raw n (record { section = "system interface"; edit = some edit }) fs p at
          command
        ∙ run_command-allowaccess edit fs (strip raw) raw a b v vs n p at named split_ set_ allow in
      rw read (
        act_on-IsVisible (map lower (v ∷ vs)) raw n
          (ensured json shlex_split number list_text resolve p) lines granted)
