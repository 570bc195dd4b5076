-- ===== src/Normalizer/Generic.antt =====
-- The fallback for vendors without a parser (`GenericFallbackNormalizer.parse` and `_assign` of
-- backend/normalizer/generic.py).
pub mod Explained
use valsec.Prelude.{
  ℕ, String, Bool, true, false, Option, none, some, List, [], ◌∷◌, ◌++◌, is_blank, strip,
  if◌then◌else◌,
}
use valsec.Schema.{VendorNeutralConfig, empty_config}
use valsec.Audit.{Parsed, UnknownLine, Normalized}
use valsec.Normalizer.Lines.{numbered_lines}
use valsec.Normalizer.Settings.{
  Setting, flag, count, text, timeout, items, item, on_interface, of_interface, update_list,
  add_items,
}
use valsec.Normalizer.Settings.Names.{assign_setting}
use valsec.Normalizer.Cisco.Parse.{LearnedMatch, match_finding}

-- Items of a list are added where they are missing; a field of an interface has a name of three
-- parts, which is refused.
unfoldable pub assign_neutral : Setting → VendorNeutralConfig → Option VendorNeutralConfig
unfolding add_items
assign_neutral (flag f b) c = some (assign_setting (flag f b) c)
assign_neutral (count f n) c = some (assign_setting (count f n) c)
assign_neutral (text f s) c = some (assign_setting (text f s) c)
assign_neutral (timeout f n) c = some (assign_setting (timeout f n) c)
assign_neutral (items f ss) c = some (update_list f (add_items ss) c)
assign_neutral (item f s) c = some (assign_setting (item f s) c)
assign_neutral (on_interface name f b) c = none
assign_neutral (of_interface name f s) c = none

abbrev pub with_match :
    LearnedMatch → Option VendorNeutralConfig → Option (LearnedMatch × VendorNeutralConfig)
with_match m none = none
with_match m (some c) = some (m, c)

unfoldable pub assigned :
    LearnedMatch
    → Option Setting
    → VendorNeutralConfig
    → Option (LearnedMatch × VendorNeutralConfig)
unfolding assign_neutral
assigned m none c = none
assigned m (some s) c = with_match m (assign_neutral s c)

-- The configuration, if a mapping was found and could be assigned.
unfoldable pub matched_config :
    Option LearnedMatch → VendorNeutralConfig → Option (LearnedMatch × VendorNeutralConfig)
unfolding assigned
matched_config none c = none
matched_config (some m) c = assigned m m.setting c

-- The result with a line that a mapping explains, or that nothing does.
abbrev pub keep_line :
    Option (LearnedMatch × VendorNeutralConfig) → String → ℕ → Normalized → Normalized
keep_line none raw n r = record r {
  unknown_lines =
      r.unknown_lines ++ record { raw_source_line = raw; line_number = n; context = none } ∷ [];
}
keep_line (some (m, c)) raw n r = record {
  config = c;
  findings = r.findings ++ match_finding m raw n ∷ [];
  unknown_lines = r.unknown_lines;
}

abbrev pub nothing : Normalized
nothing = record { config = empty_config; findings = []; unknown_lines = [] }

module _ (resolve : String → ℕ → Option String → Option LearnedMatch) where
  unfoldable pub fallback_line : ℕ × String → Normalized → Normalized
  unfolding strip matched_config
  fallback_line (n, raw) r =
      if is_blank (strip raw)
      then r
      else keep_line (matched_config (resolve raw n none) r.config) raw n r

  unfoldable pub fallback_lines : List (ℕ × String) → Normalized → Normalized
  unfolding fallback_line
  fallback_lines [] r = r
  fallback_lines (line ∷ lines) r = fallback_lines lines (fallback_line line r)

  unfoldable pub parse_fallback : String → Normalized
  unfolding fallback_lines numbered_lines
  parse_fallback raw_config = fallback_lines (numbered_lines raw_config) nothing
