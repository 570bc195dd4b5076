-- ===== src/Normalizer/Generic/Explained.antt =====
-- What the fallback leaves unknown, whatever was taught, and what that means for an audit.
use valsec.Prelude.{
  ℕ, String, Bool, true, false, not, ◌&&◌, Option, none, some, List, [], ◌∷◌, ◌++◌, append_assoc,
  append-nil, map, keep, is_blank, is_some, strip, ◌≡◌, refl, sym, ap, inl, inr, Bool-cases, ok,
  err, Result, ◌∙◌, if◌then◌else◌,
}
use valsec.Schema.{empty_config}
use valsec.Audit.{
  UnknownLine, Normalized, generic_fallback, Services, Store, audit_complete, normalizer_for,
  run_config_audit,
}
use valsec.Audit.Complete.{run_config_audit-Complete}
use valsec.Compliance.Engine.{ComplianceReport, evaluate_compliance}
use valsec.Normalizer.Lines.{numbered_lines}
use valsec.Normalizer.Settings.{
  Setting, flag, count, text, timeout, items, item, on_interface, of_interface,
}
use valsec.Normalizer.Cisco.Parse.{LearnedMatch}
use valsec.Normalizer.Generic.{
  nothing, assign_neutral, assigned, keep_line, matched_config, fallback_line, fallback_lines,
  parse_fallback,
}

-- A resolver that was taught nothing.
abbrev pub untaught : String → ℕ → Option String → Option LearnedMatch
untaught raw n context = none

abbrev pub as_unknown : ℕ × String → UnknownLine
as_unknown (n, raw) = record { raw_source_line = raw; line_number = n; context = none }

abbrev of_ok : Normalized → Result String Normalized → Normalized
of_ok n (ok m) = m
of_ok n (err e) = n

no_written : (lines : List (ℕ × String)) → map as_unknown lines ≡ [] → lines ≡ []
no_written [] e = refl
no_written (line ∷ lines) e = cc

-- A mapping explains a line if it sets a field of the schema that the fallback can reach.
abbrev pub reaches : Option Setting → Bool
unfolding assign_neutral
reaches none = false
reaches (some s) = is_some (assign_neutral s empty_config)

unfoldable pub is_explained : Option LearnedMatch → Bool
unfolding reaches
is_explained none = false
is_explained (some m) = reaches m.setting

abbrev unless : Bool → List UnknownLine → List UnknownLine → List UnknownLine
unless b us vs = if b then us else us ++ vs

setting_kept :
    (m : LearnedMatch) (s : Setting) (raw : String) (n : ℕ) (r : Normalized)
    → (keep_line (assigned m (some s) r.config) raw n r).unknown_lines
      ≡ unless (reaches (some s)) r.unknown_lines (as_unknown (n, raw) ∷ [])
unfolding assigned assign_neutral reaches
setting_kept m (flag f b) raw n r = refl
setting_kept m (count f k) raw n r = refl
setting_kept m (text f t) raw n r = refl
setting_kept m (timeout f k) raw n r = refl
setting_kept m (items f ts) raw n r = refl
setting_kept m (item f t) raw n r = refl
setting_kept m (on_interface name f b) raw n r = refl
setting_kept m (of_interface name f t) raw n r = refl

assigned_kept :
    (m : LearnedMatch) (s : Option Setting) (raw : String) (n : ℕ) (r : Normalized)
    → (keep_line (assigned m s r.config) raw n r).unknown_lines
      ≡ unless (reaches s) r.unknown_lines (as_unknown (n, raw) ∷ [])
unfolding assigned reaches
assigned_kept m none raw n r = refl
assigned_kept m (some s) raw n r = setting_kept m s raw n r

line_kept :
    (o : Option LearnedMatch) (raw : String) (n : ℕ) (r : Normalized)
    → (keep_line (matched_config o r.config) raw n r).unknown_lines
      ≡ unless (is_explained o) r.unknown_lines (as_unknown (n, raw) ∷ [])
unfolding matched_config is_explained
line_kept none raw n r = refl
line_kept (some m) raw n r = assigned_kept m m.setting raw n r

kept_by :
    (b : Bool) (line : ℕ × String) (us : List UnknownLine) (lines : List (ℕ × String))
    → unless (not b) us (as_unknown line ∷ []) ++ map as_unknown lines
      ≡ us ++ map as_unknown (if b then line ∷ lines else lines)
kept_by true line us lines = append_assoc us (as_unknown line ∷ []) (map as_unknown lines)
kept_by false line us lines = refl

module _ (resolve : String → ℕ → Option String → Option LearnedMatch) where
  -- A line that is not blank and that nothing explains.
  abbrev pub is_left : ℕ × String → Bool
  is_left (n, raw) = not (is_blank (strip raw)) && not (is_explained (resolve raw n none))

  line_left :
      (n : ℕ) (raw : String) (r : Normalized)
      → (fallback_line resolve (n, raw) r).unknown_lines
        ≡ unless (not (is_left (n, raw))) r.unknown_lines (as_unknown (n, raw) ∷ [])
  unfolding fallback_line
  line_left n raw r = elim (Bool-cases (is_blank (strip raw))) [
    | inl e ↦ rw e refl
    | inr e ↦ elim (Bool-cases (is_explained (resolve raw n none))) [
      | inl k ↦ rw (e, k) (line_kept (resolve raw n none) raw n r ∙ rw k refl)
      | inr k ↦ rw (e, k) (line_kept (resolve raw n none) raw n r ∙ rw k refl)
    ]
  ]

  kept_first :
      (line : ℕ × String) (lines : List (ℕ × String)) (us : List UnknownLine)
      → unless (not (is_left line)) us (as_unknown line ∷ []) ++ map as_unknown (keep is_left lines)
        ≡ us ++ map as_unknown (keep is_left (line ∷ lines))
  kept_first line lines us = kept_by (is_left line) line us (keep is_left lines)

  fallback_lines-left :
      (lines : List (ℕ × String)) (r : Normalized)
      → (fallback_lines resolve lines r).unknown_lines
        ≡ r.unknown_lines ++ map as_unknown (keep is_left lines)
  unfolding fallback_lines
  fallback_lines-left [] r = sym (append-nil r.unknown_lines)
  fallback_lines-left ((n, raw) ∷ lines) r =
      fallback_lines-left lines (fallback_line resolve (n, raw) r)
      ∙ ap (λ us. us ++ map as_unknown (keep is_left lines)) (line_left n raw r)
      ∙ kept_first (n, raw) lines r.unknown_lines

-- An audit of a device whose vendor has no parser is complete only if every line that is not
-- blank is explained by a learned mapping that sets a field of the schema, and then its score is
-- that of the configuration which these mappings made.
pub run_config_audit-explained :
    (resolve : String → ℕ → Option String → Option LearnedMatch) (services : Services)
    (allow : Bool) (s : Store) {s' : Store} {score : ℕ}
    → normalizer_for s.config.vendor ≡ generic_fallback s.config.vendor
    → ((vendor raw_config : String)
        → services.normalize (generic_fallback vendor) raw_config
          ≡ ok (parse_fallback resolve raw_config))
    → run_config_audit services allow false (some s) ≡ (some s', audit_complete score)
    → (keep (is_left resolve) (numbered_lines s.config.raw_config) ≡ [])
      × (report : ComplianceReport) × (evaluate_compliance services.float_text
            (parse_fallback resolve s.config.raw_config).config
            s.config.selected_framework
            s.config.vendor
          ≡ ok report)
      × (score ≡ report.compliance_score)
unfolding parse_fallback
run_config_audit-explained resolve services allow s fallback is_fallback done =
    let complete = run_config_audit-Complete services allow s done in
    let parsed : parse_fallback resolve s.config.raw_config ≡ complete.normalized =
      ap (of_ok (parse_fallback resolve s.config.raw_config)) (
        sym (is_fallback s.config.vendor s.config.raw_config)
        ∙ ap (λ n. services.normalize n s.config.raw_config) (sym fallback)
        ∙ complete.is_normalized) in
    let left = fallback_lines-left resolve (numbered_lines s.config.raw_config) nothing in
    (
      no_written _ (sym left ∙ ap (λ (r : Normalized). r.unknown_lines) parsed ∙ complete.is_known),
      complete.report,
      ap
            (λ (r : Normalized).
              evaluate_compliance services.float_text r.config s.config.selected_framework
                s.config.vendor)
            parsed
          ∙ complete.is_evaluated,
      complete.is_scored,
    )
