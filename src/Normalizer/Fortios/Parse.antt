-- ===== src/Normalizer/Fortios/Parse.antt =====
-- `FortiOSNormalizer.parse` (backend/normalizer/fortios.py): its loop, and the end of it.
use valsec.Prelude.{
  ℕ, String, true, not, ◌&&◌, Option, none, some, List, [], ◌∷◌, ◌++◌, ◌is◌, is_blank, lower, strip,
  words, member, starts_with, map, if◌then◌else◌, Result, ok, err,
}
use valsec.Schema.{Number, VendorNeutralConfig}
use valsec.Audit.{Parsed, Normalized, confirmed}
use valsec.Normalizer.Lines.{numbered_lines, drop_length}
use valsec.Normalizer.Settings.{
  items, transport_input, set_flag, http_server_disabled, http_secure_server_enabled,
  default_communities_removed,
}
use valsec.Normalizer.Settings.Names.{field_name}
use valsec.Normalizer.Cisco.Parse.{LearnedMatch, match_finding}
use valsec.Normalizer.Generic.{matched_config}
use valsec.Normalizer.Junos.Meaning.{unquote}
use valsec.Normalizer.Fortios.Commands.{Act, unread, command_act, comment_settings}
use valsec.Normalizer.Fortios.Acts.{
  FortiValue, of_setting, Noted, noted, shared, Frame, FortiParse, forti_start, forti_context,
  ensure_record, current_section, current_edit, ensured_by, set_settings, act_on,
}

-- `config`, `edit`, `next` and `end`; the last three count inside a block only.
abbrev pub push_section : String → FortiParse → FortiParse
push_section name p = record p { stack = record { section = name; edit = none } ∷ p.stack }

unfoldable pub edit_record : String → Frame → List Frame → FortiParse → FortiParse
unfolding ensure_record
edit_record edit f fs p = record p {
  config = ensure_record f.section edit p.config;
  stack = record f { edit = some edit } ∷ fs;
}

abbrev pub next_record : Frame → List Frame → FortiParse → FortiParse
next_record f fs p = record p { stack = record f { edit = none } ∷ fs }

-- `_apply_learned_mapping`, and the unknown line where it finds or can assign nothing.
abbrev pub keep_command :
    Option (LearnedMatch × VendorNeutralConfig) → String → ℕ → FortiParse → FortiParse
keep_command none raw n p = record p {
  unknown_lines =
      p.unknown_lines
      ++ record { raw_source_line = raw; line_number = n; context = forti_context p.stack } ∷ [];
}
keep_command (some (m, c)) raw n p = record p {
  config = c;
  findings = p.findings ++ noted (match_finding m raw n) ∷ [];
}

abbrev pub infer_management : FortiParse → VendorNeutralConfig → VendorNeutralConfig
infer_management p c =
    if p.saw_allowaccess
    then set_flag http_server_disabled (not (member "http" p.management_protocols))
        (set_flag http_secure_server_enabled (member "https" p.management_protocols) c)
    else c

abbrev pub infer_removed : FortiParse → VendorNeutralConfig → VendorNeutralConfig
infer_removed p c =
    if p.saw_snmp_v3 && not p.saw_default_community
    then set_flag default_communities_removed true c
    else c

module _ (json : FortiValue → String) where
  -- A finding at the end of the parse, when the shared list is printed.
  abbrev pub print_noted : List String → Noted → Parsed
  print_noted known (noted f) = f
  print_noted known (shared raw n) = record {
    schema_field = field_name (items transport_input known);
    field_value = json (of_setting (items transport_input known));
    raw_source_line = raw;
    line_number = n;
    confidence = confirmed;
    mapping_source = "parser";
  }

  unfoldable pub forti_result : FortiParse → Normalized
  forti_result p = record {
    config = infer_removed p (infer_management p p.config);
    findings = map (print_noted p.management_protocols) p.findings;
    unknown_lines = p.unknown_lines;
  }

module _ (json : FortiValue → String) (shlex_split : String → Result String (List String))
    (number : String → Option Number) (list_text : List String → String)
    (resolve : String → ℕ → Option String → Option LearnedMatch) where
  unfoldable pub unknown_command : String → ℕ → FortiParse → FortiParse
  unfolding matched_config
  unknown_command raw n p =
      keep_command (matched_config (resolve raw n (forti_context p.stack)) p.config) raw n p

  unfoldable pub act_or_keep : Act → String → ℕ → FortiParse → FortiParse
  unfolding unknown_command act_on
  act_or_keep unread raw n p = unknown_command raw n p
  act_or_keep act raw n p = act_on json act raw n p

  -- `_tokens`
  unfoldable pub tokens_of : String → Result String (List String) → List String
  unfolding words
  tokens_of line (ok tokens) = tokens
  tokens_of line (err raised) = words line

  -- A command of at least three tokens; `unset` has no values.
  unfoldable pub token_act : List Frame → String → String → List String → Act
  unfolding command_act lower
  token_act stack action key values =
      if action is "set"
      then command_act number list_text (current_section stack) (current_edit stack) key values
      else unread

  unfoldable pub ensured : FortiParse → FortiParse
  unfolding ensured_by
  ensured p = record p {
    config = ensured_by (current_edit p.stack) (current_section p.stack) p.config;
  }

  unfoldable pub run_tokens : List String → String → ℕ → FortiParse → FortiParse
  unfolding token_act ensured act_or_keep lower unknown_command
  run_tokens [] raw n p = unknown_command raw n p
  run_tokens (a ∷ []) raw n p = unknown_command raw n p
  run_tokens (a ∷ b ∷ []) raw n p = unknown_command raw n p
  run_tokens (a ∷ b ∷ c ∷ rest) raw n p =
      if member (lower a) ("set" ∷ "unset" ∷ [])
      then act_or_keep (token_act p.stack (lower a) (lower b) (c ∷ rest)) raw n (ensured p)
      else unknown_command raw n p

  unfoldable pub run_command : String → String → ℕ → FortiParse → FortiParse
  unfolding run_tokens tokens_of
  run_command line raw n p = run_tokens (tokens_of line (shlex_split line)) raw n p

  -- A line that is no comment and opens no section.
  unfoldable pub block_line : List Frame → String → String → ℕ → FortiParse → FortiParse
  unfolding lower drop_length strip unquote edit_record run_command
  block_line [] line raw n p = run_command line raw n p
  block_line (f ∷ fs) line raw n p =
      if starts_with (lower line) "edit "
      then edit_record (unquote (strip (drop_length "edit " line))) f fs p
      else if lower line is "next"
      then next_record f fs p
      else if lower line is "end"
      then record p { stack = fs }
      else run_command line raw n p

  unfoldable pub forti_line : ℕ × String → FortiParse → FortiParse
  unfolding strip lower drop_length comment_settings set_settings block_line
  forti_line (n, raw) p =
      let line = strip raw in
      if is_blank line
      then p
      else if starts_with line "#"
      then set_settings json (comment_settings line) raw n p
      else if starts_with (lower line) "config "
      then push_section (lower (strip (drop_length "config " line))) p
      else block_line p.stack line raw n p

  unfoldable pub forti_lines : List (ℕ × String) → FortiParse → FortiParse
  unfolding forti_line
  forti_lines [] p = p
  forti_lines (line ∷ lines) p = forti_lines lines (forti_line line p)

  unfoldable pub parse_fortios : String → Normalized
  unfolding forti_lines numbered_lines forti_result
  parse_fortios raw_config = forti_result json (forti_lines (numbered_lines raw_config) forti_start)
