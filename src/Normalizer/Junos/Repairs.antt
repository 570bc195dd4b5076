-- ===== src/Normalizer/Junos/Repairs.antt =====
-- The templates of backend/remediation/juniper_remediation.py, read by the parser of
-- backend/normalizer/juniper_junos.py and judged by the Juniper controls of
-- backend/compliance/catalogues.py.
use valsec.Prelude.{
  ℕ, String, false, Option, none, some, List, ◌≡◌, refl, ap, All, ◌⊎◌, inl, inr, lookup, strip,
  is_blank,
}
use valsec.Schema.{VendorNeutralConfig, number_le}
use valsec.Compliance.Verdicts.{pass, Control, required_bool, maximum}
use valsec.Compliance.Catalogues.{juniper_controls}
use valsec.Compliance.Neutral.{ssh2, ntp, snmp}
use valsec.Remediation.Templates.{juniper_templates}
use valsec.Normalizer.Lines.{number_from}
use valsec.Normalizer.Settings.{Setting, add_item}
use valsec.Normalizer.Settings.Servers.{add_item-usable}
use valsec.Normalizer.Cisco.Parse.{LearnedMatch}
use valsec.Normalizer.Cisco.Repairs.{commands_of}
use valsec.Normalizer.Junos.Blocks.{JunosStatement, statements_from, place_line, line_of}
use valsec.Normalizer.Junos.Meaning.{command_meaning}
use valsec.Normalizer.Junos.Parse.{JunosParse, follow, follow_all, unread_statement}

added_server :
    (s : String) (xs : List String) → is_blank (strip s) ≡ false → (ntp (add_item s xs)).0 ≡ pass
unfolding ntp
added_server s xs usable =
    let (written, some_usable) = add_item-usable s xs usable in rw (written, some_usable) refl

-- A statement that no mapping explains leaves the configuration alone.
unread_statement-none :
    (m : Option LearnedMatch) (s : JunosStatement) (p : JunosParse)
    → m ≡ none
    → (unread_statement m s p).config ≡ p.config
unfolding unread_statement
unread_statement-none none s p e = refl
unread_statement-none (some m) s p e = cc

module _ (json : Setting → String)
    (resolve : String → ℕ → Option String → Option LearnedMatch) where
  -- The configuration after the template of a reference has been read inside some blocks.
  unfoldable pub repaired_junos : String → List String → ℕ → JunosParse → VendorNeutralConfig
  unfolding follow_all statements_from lookup
  repaired_junos reference stack n p =
      let commands = commands_of (lookup reference juniper_templates) in
      (follow_all json resolve (statements_from stack (number_from n commands)) p).config

module _ (float_text : ℕ → ℕ → String) (json : Setting → String)
    (resolve : String → ℕ → Option String → Option LearnedMatch) (stack : List String) (n : ℕ)
    (p : JunosParse)
    (unmapped : (m : ℕ) (context : Option String)
      → resolve "set system radius-server <RADIUS_SERVER> secret <SECRET>" m context ≡ none) where
  abbrev pub IsRepairedJunos : Control → Type 0
  IsRepairedJunos c =
      (c.control_id ≡ "JUN-1.1")
      ⊎ ((c.evaluate (repaired_junos json resolve c.remediation_reference stack n p)).0 ≡ pass)

  -- Whatever has been read before, in whatever blocks, once the parser of JunOS has read the
  -- template of a control the control passes, for every Juniper control but JUN-1.1, if no
  -- learned mapping explains the statement of the RADIUS server.
  pub juniper_templates_repair : All IsRepairedJunos (juniper_controls float_text)
  unfolding juniper_controls repaired_junos follow_all follow command_meaning statements_from
      place_line line_of strip lookup juniper_templates number_from required_bool maximum ssh2 snmp
      number_le
  juniper_templates_repair = (
    inl refl,
    (
      inr refl,
      (
        inr refl,
        (
          inr refl,
          (
            inr refl,
            (
              inr refl,
              (
                inr (added_server "<NTP_SERVER_ADDRESS>" p.config.ntp.servers refl),
                (
                  inr refl,
                  (
                    inr refl,
                    (
                      inr (
                          ap
                            (λ (c : VendorNeutralConfig).
                              (required_bool c.aaa.new_model "Centralized authentication").0)
                            (unread_statement-none _ _ _ (unmapped _ _))),
                      (inr refl, tt),
                    ),
                  ),
                ),
              ),
            ),
          ),
        ),
      ),
    ),
  )
