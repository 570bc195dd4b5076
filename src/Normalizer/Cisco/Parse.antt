-- ===== src/Normalizer/Cisco/Parse.antt =====
-- `CiscoIOSNormalizer.parse` (backend/normalizer/cisco_ios.py): its state, and what each line does
-- to it.
use valsec.Prelude.{
  ℕ, String, not, ◌&&◌, Option, none, some, List, [], ◌∷◌, ◌++◌, is_blank, strip, join, contains,
  concat, if◌then◌else◌,
}
use valsec.Schema.{VendorNeutralConfig, empty_config, InterfaceSettings}
use valsec.Audit.{Parsed, UnknownLine, Normalized, confirmed}
use valsec.Normalizer.Lines.{numbered_lines, ends_with, before_end, before_text}
use valsec.Normalizer.Settings.{TextField, interface_name, Setting, text, of_interface, set_default}
use valsec.Normalizer.Settings.Names.{assign_setting, field_name}
use valsec.Normalizer.Cisco.Statements.{
  Section, top, line_console, line_vty, inside, Statement, blank, separator, console, vty, other,
  banner, interface, scoped, global, statement_of,
}

-- `LearnedMatch`, with the assignment that it makes: none where the schema has no such field.
pub record LearnedMatch : Type 0 where
  pub schema_field : String
  pub field_value : String
  pub setting : Option Setting

-- `banner`
pub record Banner : Type 0 where
  pub field : TextField
  pub delimiter : String
  pub start_line : ℕ
  pub start_raw : String
  pub content : List String

-- The local variables of `parse` and the result that it fills.
pub record Parse : Type 0 where
  pub config : VendorNeutralConfig
  pub findings : List Parsed
  pub unknown_lines : List UnknownLine
  pub section : Section
  pub open_banner : Option Banner

abbrev pub fresh_parse : Parse
fresh_parse = record {
  config = empty_config;
  findings = [];
  unknown_lines = [];
  section = top;
  open_banner = none;
}

abbrev pub empty_interface : InterfaceSettings
empty_interface = record {
  name = none;
  description = none;
  shutdown = none;
  ip_address = none;
  cdp_disabled = none;
}

abbrev pub section_text : Section → Option String
section_text top = none
section_text line_console = some "line_console"
section_text line_vty = some "line_vty"
section_text (inside name) = some (concat ("interface:" ∷ name ∷ []))

abbrev pub assign_match : Option Setting → VendorNeutralConfig → VendorNeutralConfig
assign_match none c = c
assign_match (some s) c = assign_setting s c

-- `text.partition(delimiter)[0].strip()` of a banner on one line.
unfoldable pub banner_text : String → String → String
unfolding before_text strip
banner_text delimiter rest = strip (before_text rest delimiter)

abbrev pub non_blank_line : String → List String
non_blank_line s = if is_blank s then [] else s ∷ []

abbrev pub match_finding : LearnedMatch → String → ℕ → Parsed
match_finding m raw n = record {
  schema_field = m.schema_field;
  field_value = m.field_value;
  raw_source_line = raw;
  line_number = n;
  confidence = confirmed;
  mapping_source = "learned_mapping";
}

-- `_apply_learned_mapping`, and the unknown line where it finds nothing.
abbrev pub apply_match : Option LearnedMatch → String → ℕ → Parse → Parse
apply_match (some m) raw n p = record p {
  config = assign_match m.setting p.config;
  findings = p.findings ++ match_finding m raw n ∷ [];
}
apply_match none raw n p = record p {
  unknown_lines =
      p.unknown_lines
      ++ record { raw_source_line = raw; line_number = n; context = section_text p.section } ∷ [];
}

-- The start of a banner that no line has ended.
abbrev pub open_lines : Option Banner → List UnknownLine
open_lines none = []
open_lines (some b) =
    record { raw_source_line = b.start_raw; line_number = b.start_line; context = some "banner" }
    ∷ []

abbrev pub parse_result : Parse → Normalized
parse_result p = record {
  config = p.config;
  findings = p.findings;
  unknown_lines = p.unknown_lines ++ open_lines p.open_banner;
}

module _ (json : Setting → String) where
  abbrev pub setting_finding : Setting → String → ℕ → Parsed
  setting_finding s raw n = record {
    schema_field = field_name s;
    field_value = json s;
    raw_source_line = raw;
    line_number = n;
    confidence = confirmed;
    mapping_source = "parser";
  }

  -- `_set`
  abbrev pub set_setting : Setting → String → ℕ → Parse → Parse
  set_setting s raw n p = record p {
    config = assign_setting s p.config;
    findings = p.findings ++ setting_finding s raw n ∷ [];
  }

  -- A line inside a banner, which ends with the delimiter or goes on.
  unfoldable pub banner_step : Banner → String → Parse → Parse
  unfolding ends_with before_end strip
  banner_step b raw p =
      if ends_with (strip raw) b.delimiter
      then record (set_setting
          (text b.field
            (join "\n" (b.content ++ non_blank_line (strip (before_end (strip raw) b.delimiter)))))
          b.start_raw b.start_line p) { open_banner = none }
      else record p { open_banner = some (record b { content = b.content ++ raw ∷ [] }) }

  unfoldable pub banner_start : TextField → String → String → String → ℕ → Parse → Parse
  unfolding banner_text contains
  banner_start field delimiter rest raw n p =
      if not (is_blank delimiter) && contains delimiter rest
      then set_setting (text field (banner_text delimiter rest)) raw n p
      else record p {
        open_banner = some (record {
          field = field;
          delimiter = delimiter;
          start_line = n;
          start_raw = raw;
          content = non_blank_line rest;
        });
      }

module _ (json : Setting → String)
    (resolve : String → ℕ → Option String → Option LearnedMatch) where
  unfoldable pub carry_out : Statement → String → ℕ → Parse → Parse
  unfolding set_default banner_start
  carry_out blank raw n p = p
  carry_out separator raw n p = record p { section = top }
  carry_out console raw n p = record p { section = line_console }
  carry_out vty raw n p = record p { section = line_vty }
  carry_out (banner field delimiter rest) raw n p =
      record (banner_start json field delimiter rest raw n p) { section = top }
  carry_out (interface name) raw n p =
      record (set_setting json (of_interface name interface_name name) raw n (record p {
        config = record p.config {
          interfaces = set_default name empty_interface p.config.interfaces;
        };
      })) { section = inside name }
  carry_out (scoped s) raw n p = set_setting json s raw n p
  carry_out (global s) raw n p = record (set_setting json s raw n p) { section = top }
  carry_out other raw n p = apply_match (resolve raw n (section_text p.section)) raw n p

  unfoldable pub step_under : Option Banner → ℕ × String → Parse → Parse
  unfolding statement_of strip banner_step carry_out
  step_under (some b) (n, raw) p = banner_step json b raw p
  step_under none (n, raw) p = carry_out (statement_of p.section (strip raw)) raw n p

  -- The body of the loop.
  unfoldable pub parse_line : ℕ × String → Parse → Parse
  unfolding step_under
  parse_line line p = step_under p.open_banner line p

  unfoldable pub parse_lines : List (ℕ × String) → Parse → Parse
  unfolding parse_line
  parse_lines [] p = p
  parse_lines (line ∷ lines) p = parse_lines lines (parse_line line p)

  unfoldable pub parse : String → Normalized
  unfolding parse_lines numbered_lines
  parse raw_config = parse_result (parse_lines (numbered_lines raw_config) fresh_parse)
