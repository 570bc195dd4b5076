-- ===== src/Normalizer/Cisco/Repairs.antt =====
-- The templates of backend/remediation/cisco_remediation.py, read by the parser of
-- backend/normalizer/cisco_ios.py and judged by backend/compliance/cis_cisco_ios.py.
use valsec.Prelude.{
  ℕ, String, true, false, Option, none, some, List, [], ◌∷◌, ◌≡◌, refl, All, ◌⊎◌, inl, inr, lookup,
  ap, member, strip, is_blank,
}
use valsec.Schema.{VendorNeutralConfig, number_le}
use valsec.Audit.{Parsed, UnknownLine}
use valsec.Compliance.Verdicts.{pass, Control, required_bool, maximum, minimum}
use valsec.Compliance.Cisco.{
  cisco_controls, ntp_server, snmp_v3, ssh_version_2, vty_ssh_only, banners, cdp_disabled,
}
use valsec.Remediation.Templates.{cisco_templates}
use valsec.Normalizer.Lines.{number_from}
use valsec.Normalizer.Settings.{add_item, Setting}
use valsec.Normalizer.Settings.Servers.{add_item-usable}
use valsec.Normalizer.Cisco.Statements.{Section, statement_of}
use valsec.Normalizer.Cisco.Parse.{
  LearnedMatch, Parse, apply_match, parse_line, parse_lines, carry_out, step_under,
}

-- What the parser holds between two statements, outside every banner.
abbrev pub between : VendorNeutralConfig → List Parsed → List UnknownLine → Section → Parse
between config findings unknown_lines section = record {
  config = config;
  findings = findings;
  unknown_lines = unknown_lines;
  section = section;
  open_banner = none;
}

-- The commands of a control's template, if it has one.
abbrev pub commands_of : Option (List String) → List String
commands_of none = []
commands_of (some commands) = commands

added_server :
    (s : String) (xs : List String)
    → is_blank (strip s) ≡ false
    → (ntp_server (add_item s xs)).0 ≡ pass
unfolding ntp_server
added_server s xs usable =
    let (written, some_usable) = add_item-usable s xs usable in rw (written, some_usable) refl

-- A line that no mapping explains leaves the configuration alone.
apply_match-none :
    (m : Option LearnedMatch) (raw : String) (n : ℕ) (p : Parse)
    → m ≡ none
    → (apply_match m raw n p).config ≡ p.config
apply_match-none none raw n p e = refl
apply_match-none (some m) raw n p e = cc

module _ (json : Setting → String)
    (resolve : String → ℕ → Option String → Option LearnedMatch) where
  -- The configuration after the `!` that ends a block and the template of a control behind it.
  unfoldable pub repaired : String → ℕ → Parse → VendorNeutralConfig
  unfolding parse_lines lookup
  repaired control_id n p =
      let commands = commands_of (lookup control_id cisco_templates) in
      (parse_lines json resolve (number_from n ("!" ∷ commands)) p).config

module _ (float_text : ℕ → ℕ → String) (json : Setting → String)
    (resolve : String → ℕ → Option String → Option LearnedMatch) (config : VendorNeutralConfig)
    (findings : List Parsed) (unknown_lines : List UnknownLine) (section : Section) (n : ℕ)
    (unmapped : (m : ℕ) (context : Option String) → resolve "exit" m context ≡ none) where
  -- A control passes once its template has been read. Three cannot: what the template of 1.1.2
  -- says is not what a configuration shows, 1.2.3 may not apply, and 1.3.2 has no evidence.
  abbrev pub IsRepaired : Control → Type 0
  IsRepaired c =
      (member c.control_id ("1.1.2" ∷ "1.2.3" ∷ "1.3.2" ∷ []) ≡ true)
      ⊎ ((c.evaluate (
            repaired json resolve c.control_id n (between config findings unknown_lines section))).0
          ≡ pass)

  -- Wherever the parser of IOS stands outside a banner, and whatever it has read before, once it
  -- has read a `!` and the commands of a control's template the control passes, for every control
  -- of the CIS catalogue but 1.1.2, 1.2.3 and 1.3.2, if no learned mapping explains `exit`.
  pub cisco_templates_repair : All IsRepaired (cisco_controls float_text)
  unfolding cisco_controls repaired parse_line step_under carry_out statement_of strip lookup
      cisco_templates parse_lines number_from required_bool maximum minimum snmp_v3 ssh_version_2
      vty_ssh_only banners cdp_disabled number_le
  cisco_templates_repair = (
    inr refl,
    (
      inl refl,
      (
        inr refl,
        (
          inr refl,
          (
            inl refl,
            (
              inr refl,
              (
                inr refl,
                (
                  inr refl,
                  (
                    inr refl,
                    (
                      inl refl,
                      (
                        inr refl,
                        (
                          inr (
                              ap
                                (λ (c : VendorNeutralConfig).
                                  (maximum float_text c.line_console.exec_timeout_minutes 10
                                    "Console exec-timeout" "minutes").0)
                                (apply_match-none _ "exit" _ _ (unmapped _ _))),
                          (
                            inr (
                                ap
                                  (λ (c : VendorNeutralConfig).
                                    (maximum float_text c.line_vty.exec_timeout_minutes 10
                                      "VTY exec-timeout" "minutes").0)
                                  (apply_match-none _ "exit" _ _ (unmapped _ _))),
                            (
                              inr (
                                  ap
                                    (λ (c : VendorNeutralConfig).
                                      (vty_ssh_only c.line_vty.transport_input).0)
                                    (apply_match-none _ "exit" _ _ (unmapped _ _))),
                              (
                                inr refl,
                                (
                                  inr refl,
                                  (
                                    inr refl,
                                    (
                                      inr refl,
                                      (
                                        inr refl,
                                        (
                                          inr (
                                              added_server "<NTP_SERVER_ADDRESS>" config.ntp.servers
                                                refl),
                                          (inr refl, (inr refl, (inr refl, tt))),
                                        ),
                                      ),
                                    ),
                                  ),
                                ),
                              ),
                            ),
                          ),
                        ),
                      ),
                    ),
                  ),
                ),
              ),
            ),
          ),
        ),
      ),
    ),
  )
