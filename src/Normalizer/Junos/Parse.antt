-- ===== src/Normalizer/Junos/Parse.antt =====
-- `JuniperJunosNormalizer.parse` (backend/normalizer/juniper_junos.py).
use valsec.Prelude.{
  ℕ, String, Bool, true, false, not, ◌&&◌, Option, none, some, List, [], ◌∷◌, ◌++◌, if◌then◌else◌,
  is_some,
}
use valsec.Schema.{VendorNeutralConfig, empty_config}
use valsec.Audit.{Parsed, UnknownLine, Normalized}
use valsec.Normalizer.Lines.{numbered_lines}
use valsec.Normalizer.Settings.{
  Setting, on_interface, interface_shutdown, set_default, with_interface, set_interface_flag,
  set_flag, http_server_disabled, default_communities_removed,
}
use valsec.Normalizer.Cisco.Parse.{LearnedMatch, setting_finding, match_finding, empty_interface}
use valsec.Normalizer.Generic.{assign_neutral}
use valsec.Normalizer.Junos.Blocks.{JunosStatement, statements_from}
use valsec.Normalizer.Junos.Meaning.{
  Sighting, https, http, snmp_v3, default_community, Meaning, sets, sights, disables, unread,
  command_meaning,
}

pub record JunosParse : Type 0 where
  pub config : VendorNeutralConfig
  pub findings : List Parsed
  pub unknown_lines : List UnknownLine
  pub saw_https : Bool
  pub saw_http : Bool
  pub saw_snmp_v3 : Bool
  pub saw_default_community : Bool

abbrev pub unseen : JunosParse
unseen = record {
  config = empty_config;
  findings = [];
  unknown_lines = [];
  saw_https = false;
  saw_http = false;
  saw_snmp_v3 = false;
  saw_default_community = false;
}

abbrev pub config_or : VendorNeutralConfig → Option VendorNeutralConfig → VendorNeutralConfig
config_or c none = c
config_or c (some d) = d

-- `_assign`, which leaves the configuration as it is where there is no such field.
unfoldable pub assign_junos : Setting → VendorNeutralConfig → VendorNeutralConfig
unfolding assign_neutral
assign_junos s c = config_or c (assign_neutral s c)

unfoldable pub assign_junos_match : Option Setting → VendorNeutralConfig → VendorNeutralConfig
unfolding assign_junos
assign_junos_match none c = c
assign_junos_match (some s) c = assign_junos s c

abbrev pub sight : Sighting → Bool → JunosParse → JunosParse
sight https b p = record p { saw_https = b }
sight http b p = record p { saw_http = b }
sight snmp_v3 b p = record p { saw_snmp_v3 = b }
sight default_community b p = record p { saw_default_community = b }

-- `interfaces.setdefault(name, InterfaceSettings(name=name))` and its `shutdown`.
unfoldable pub disable_interface : String → Bool → VendorNeutralConfig → VendorNeutralConfig
unfolding set_default
disable_interface name is_set c =
    with_interface name (set_interface_flag interface_shutdown is_set) (record c {
      interfaces = set_default name (record empty_interface { name = some name }) c.interfaces;
    })

unfoldable pub unread_statement : Option LearnedMatch → JunosStatement → JunosParse → JunosParse
unfolding assign_junos_match
unread_statement (some m) s p = record p {
  config = assign_junos_match m.setting p.config;
  findings = p.findings ++ match_finding m s.raw_source_line s.line_number ∷ [];
}
unread_statement none s p = record p {
  unknown_lines =
      p.unknown_lines
      ++ record {
        raw_source_line = s.raw_source_line;
        line_number = s.line_number;
        context = s.context;
      }
        ∷ [];
}

-- What a whole configuration says by leaving something out.
abbrev pub infer_http : JunosParse → VendorNeutralConfig → VendorNeutralConfig
infer_http p c =
    if p.saw_https && not p.saw_http && not (is_some c.service_hardening.http_server_disabled)
    then set_flag http_server_disabled true c
    else c

abbrev pub infer_communities : JunosParse → VendorNeutralConfig → VendorNeutralConfig
infer_communities p c =
    if p.saw_snmp_v3
      && not p.saw_default_community
      && not (is_some c.snmp.default_communities_removed)
    then set_flag default_communities_removed true c
    else c

unfoldable pub junos_result : JunosParse → Normalized
junos_result p = record {
  config = infer_communities p (infer_http p p.config);
  findings = p.findings;
  unknown_lines = p.unknown_lines;
}

module _ (json : Setting → String) where
  -- `_set`
  unfoldable pub set_junos : Setting → JunosStatement → JunosParse → JunosParse
  unfolding assign_junos
  set_junos setting s p = record p {
    config = assign_junos setting p.config;
    findings = p.findings ++ setting_finding json setting s.raw_source_line s.line_number ∷ [];
  }

  unfoldable pub set_all : List Setting → JunosStatement → JunosParse → JunosParse
  unfolding set_junos
  set_all [] s p = p
  set_all (setting ∷ settings) s p = set_all settings s (set_junos setting s p)

module _ (json : Setting → String)
    (resolve : String → ℕ → Option String → Option LearnedMatch) where
  unfoldable pub follow : Meaning → JunosStatement → JunosParse → JunosParse
  unfolding disable_interface set_all set_junos unread_statement
  follow (sets settings) s p = set_all json settings s p
  follow (sights what b setting) s p = set_junos json setting s (sight what b p)
  follow (disables name is_set) s p = record p {
    config = disable_interface name is_set p.config;
    findings =
        p.findings
        ++ setting_finding json (on_interface name interface_shutdown is_set) s.raw_source_line
            s.line_number
          ∷ [];
  }
  follow unread s p = unread_statement (resolve s.raw_source_line s.line_number s.context) s p

  unfoldable pub follow_all : List JunosStatement → JunosParse → JunosParse
  unfolding follow command_meaning
  follow_all [] p = p
  follow_all (s ∷ ss) p = follow_all ss (follow (command_meaning s.command) s p)

  unfoldable pub parse_junos : String → Normalized
  unfolding follow_all statements_from numbered_lines junos_result
  parse_junos raw_config =
      junos_result (follow_all (statements_from [] (numbered_lines raw_config)) unseen)
