-- ===== src/Normalizer/Junos/Tests.antt =====
-- Examples of the JunOS parser.
use valsec.Prelude.{true, false, [], ◌∷◌, ◌≡◌, refl, strip, map, All}
use valsec.Schema.{ratio}
use valsec.Compliance.Catalogues.{juniper_controls}
use valsec.Normalizer.Settings.{
  text, hostname, timeout, console_timeout, vty_timeout, items, transport_input, flag,
  http_server_disabled,
}
use valsec.Normalizer.Generic.Explained.{untaught}
use valsec.Normalizer.Tests.{as_text, numeral}
use valsec.Normalizer.Junos.Blocks.{statements_from, line_of}
use valsec.Normalizer.Junos.Meaning.{command_meaning, sets, sights, http, unread}
use valsec.Normalizer.Junos.Parse.{unseen}
use valsec.Normalizer.Junos.Nesting.{
  Forest, ends, comment, command, leaf, block, IsShaped, forest_lines, forest_statements,
  statements_from-nested,
}
use valsec.Normalizer.Junos.Repairs.{IsRepairedJunos, juniper_templates_repair}

-- An inactive `ssh` counts as SSH-only access.
meanings :
    map command_meaning (
      "system host-name \"edge  1\";" ∷ "deactivate system services ssh"
      ∷ "delete system services web-management http" ∷ "set system login idle-timeout 7.5"
      ∷ "set firewall filter x" ∷ [])
    ≡ sets (text hostname "edge 1" ∷ [])
      ∷ sets (items transport_input ("ssh" ∷ []) ∷ [])
      ∷ sights http false (flag http_server_disabled true)
      ∷ sets (timeout console_timeout (ratio 75 10) ∷ timeout vty_timeout (ratio 75 10) ∷ [])
      ∷ unread
      ∷ []
unfolding command_meaning
meanings = refl

abbrev nested_config : Forest
nested_config =
    comment (1, "# lab")
      (block (2, "system {") "system"
        (leaf (3, "  host-name r1;") "host-name r1"
          (block (4, "  services {") "services" (leaf (5, "    ssh;") "ssh" ends) (6, "  }") ends))
        (7, "}") (command (8, "set snmp v3;") "set snmp v3" ends))

nested_config-IsShaped : IsShaped nested_config
unfolding line_of strip
nested_config-IsShaped = (refl, (refl, ((refl, (refl, (refl, tt), refl, tt))), refl, (refl, tt)))

statements_from-nested_example :
    statements_from [] (forest_lines nested_config) ≡ forest_statements [] nested_config
statements_from-nested_example = statements_from-nested nested_config nested_config-IsShaped

juniper_templates_repair_example :
    All
      (IsRepairedJunos numeral as_text untaught ("system" ∷ []) 4 unseen (λ m c. refl))
      (juniper_controls numeral)
juniper_templates_repair_example =
    juniper_templates_repair numeral as_text untaught ("system" ∷ []) 4 unseen (λ m c. refl)
