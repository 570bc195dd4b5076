-- ===== src/Normalizer/Fortios/Acts.antt =====
-- The local variables of `FortiOSNormalizer.parse` (backend/normalizer/fortios.py), and what a
-- command does to them.
use valsec.Prelude.{
  ℕ, String, Bool, true, false, ◌&&◌, ◌||◌, Option, none, some, List, [], ◌∷◌, ◌++◌, ◌is◌, is_blank,
  member, join, concat, keep, if◌then◌else◌,
}
use valsec.Schema.{VendorNeutralConfig, empty_config}
use valsec.Audit.{Parsed, UnknownLine, confirmed}
use valsec.Normalizer.Settings.{
  Setting, flag, items, transport_input, on_interface, of_interface, interface_shutdown,
  set_default, with_interface, set_interface_flag, set_interface_text, default_communities_removed,
  password_encryption, v3_only, add_items,
}
use valsec.Normalizer.Settings.Names.{field_name}
use valsec.Normalizer.Cisco.Parse.{empty_interface}
use valsec.Normalizer.Junos.Parse.{assign_junos}
use valsec.Normalizer.Fortios.Policies.{PolicySetting, ensure_policy, change_policy}
use valsec.Normalizer.Fortios.Commands.{
  Act, sets, interface_text, interface_status, allows, protects, snmp_level, default_name,
  custom_name, policy, unread,
}

-- What the value of a finding is printed from.
pub data FortiValue : Type 0 where
  of_setting : Setting → FortiValue
  of_policy : PolicySetting → FortiValue
  plain : String → FortiValue

-- A finding; that of `allowaccess` shares the list of protocols, which later lines extend.
pub data Noted : Type 0 where
  noted : Parsed → Noted
  shared : String → ℕ → Noted

-- A frame of `stack`; the innermost block comes first here.
pub record Frame : Type 0 where
  pub section : String
  pub edit : Option String

pub record FortiParse : Type 0 where
  pub config : VendorNeutralConfig
  pub findings : List Noted
  pub unknown_lines : List UnknownLine
  pub stack : List Frame
  pub management_protocols : List String
  pub saw_allowaccess : Bool
  pub saw_snmp_v3 : Bool
  pub saw_default_community : Bool

abbrev pub forti_start : FortiParse
forti_start = record {
  config = empty_config;
  findings = [];
  unknown_lines = [];
  stack = [];
  management_protocols = [];
  saw_allowaccess = false;
  saw_snmp_v3 = false;
  saw_default_community = false;
}

abbrev pub section_names : List Frame → List String
section_names [] = []
section_names (f ∷ fs) = section_names fs ++ f.section ∷ []

-- `" > ".join(...) or None`
unfoldable pub forti_context : List Frame → Option String
unfolding join
forti_context stack =
    if is_blank (join " > " (section_names stack))
    then none
    else some (join " > " (section_names stack))

unfoldable pub ensure_interface : String → VendorNeutralConfig → VendorNeutralConfig
unfolding set_default
ensure_interface name c = record c {
  interfaces = set_default name (record empty_interface { name = some name }) c.interfaces;
}

-- `_ensure_record`
unfoldable pub ensure_record : String → String → VendorNeutralConfig → VendorNeutralConfig
unfolding ensure_interface ensure_policy
ensure_record section edit c =
    if section is "system interface"
    then ensure_interface edit c
    else if section is "firewall policy"
    then ensure_policy edit c
    else c

abbrev pub current_section : List Frame → String
current_section [] = ""
current_section (f ∷ fs) = f.section

abbrev pub current_edit : List Frame → Option String
current_edit [] = none
current_edit (f ∷ fs) = f.edit

-- The records that a command makes sure of, whether it is understood or not.
unfoldable pub ensured_by : Option String → String → VendorNeutralConfig → VendorNeutralConfig
unfolding ensure_record
ensured_by none section c = c
ensured_by (some edit) section c = if is_blank edit then c else ensure_record section edit c

abbrev pub protocols : List String
protocols = "ssh" ∷ "https" ∷ "http" ∷ "telnet" ∷ []

-- The protocols of one line that are not known yet, behind those that are.
unfoldable pub extend_protocols : List String → List String → List String
unfolding add_items
extend_protocols allowed known = add_items (keep (λ p. member p allowed) protocols) known

-- `protected if current is None else current and protected`
abbrev pub protected_so_far : Option Bool → Bool → Bool
protected_so_far none b = b
protected_so_far (some current) b = current && b

module _ (json : FortiValue → String) where
  abbrev pub note : String → FortiValue → String → ℕ → Noted
  note field value raw n = noted (record {
    schema_field = field;
    field_value = json value;
    raw_source_line = raw;
    line_number = n;
    confidence = confirmed;
    mapping_source = "parser";
  })

  abbrev pub note_setting : Setting → String → ℕ → Noted
  note_setting s raw n = note (field_name s) (of_setting s) raw n

  -- `_set`
  unfoldable pub set_forti : Setting → String → ℕ → FortiParse → FortiParse
  unfolding assign_junos
  set_forti s raw n p = record p {
    config = assign_junos s p.config;
    findings = p.findings ++ note_setting s raw n ∷ [];
  }

  unfoldable pub set_settings : List Setting → String → ℕ → FortiParse → FortiParse
  unfolding set_forti
  set_settings [] raw n p = p
  set_settings (s ∷ ss) raw n p = set_settings ss raw n (set_forti s raw n p)

  -- What is written to a record directly, with its finding.
  abbrev pub write : (VendorNeutralConfig → VendorNeutralConfig) → Noted → FortiParse → FortiParse
  write f finding p = record p { config = f p.config; findings = p.findings ++ finding ∷ [] }

  unfoldable pub act_on : Act → String → ℕ → FortiParse → FortiParse
  unfolding set_settings extend_protocols change_policy assign_junos set_forti
  act_on (sets ss) raw n p = set_settings ss raw n p
  act_on (interface_text edit field s) raw n p =
      write (with_interface edit (set_interface_text field s))
        (note_setting (of_interface edit field s) raw n) p
  act_on (interface_status edit b) raw n p =
      write (with_interface edit (set_interface_flag interface_shutdown b))
        (note_setting (on_interface edit interface_shutdown b) raw n) p
  act_on (allows allowed) raw n p =
      let known = extend_protocols allowed p.management_protocols in
      record p {
        config = assign_junos (items transport_input known) p.config;
        findings = p.findings ++ shared raw n ∷ [];
        management_protocols = known;
        saw_allowaccess = true;
      }
  act_on (protects b) raw n p =
      set_forti
        (flag password_encryption
          (protected_so_far p.config.service_hardening.password_encryption b))
        raw n p
  act_on (snmp_level b) raw n p =
      set_forti (flag v3_only b) raw n (record p { saw_snmp_v3 = p.saw_snmp_v3 || b })
  act_on default_name raw n p =
      set_forti (flag default_communities_removed false) raw n
        (record p { saw_default_community = true })
  act_on (custom_name s) raw n p = record p {
    findings = p.findings ++ note "snmp.community" (plain s) raw n ∷ [];
  }
  act_on (policy edit key s) raw n p =
      write (change_policy edit s)
        (note (concat ("firewall_policies." ∷ edit ∷ "." ∷ key ∷ [])) (of_policy s) raw n) p
  act_on unread raw n p = p
