-- ===== src/Push/Tests.antt =====
-- Pushes to devices that answer every call.
use valsec.Prelude.{
  String, true, none, [], ◌∷◌, ◌≡◌, refl, ◌⊎◌, ok, err, All, lower, strip, split_lines, split,
  contains, codes, concat,
}
use valsec.Errors.{push_error}
use valsec.Push.Uci.{is_uci_mutation}
use valsec.Push.{
  Remote, mutation_lines, accepted_commands, uci_parts, uci_lines, send_all, confirm, reverify,
  transact, connected, push_commands, push_accepted, apply_remediation,
}
use valsec.Push.Commands.{is_pushable, is_permitted}
use valsec.Push.Safety.{apply_remediation-permitted}
use valsec.Push.Junos.{Final, apply_remediation-Final}

abbrev remote : Remote
remote = record {
  fetch = λ sent. ok (concat sent);
  connect = ok tt;
  broken = λ sent. none;
  diff = λ before after. after;
}

abbrev cisco_text : String
cisco_text = "configure terminal\nip domain-name lab\nend\nwrite memory"

cisco_sent :
    (apply_remediation remote "cisco" cisco_text).0
    ≡ "configure terminal" ∷ "ip domain-name lab" ∷ "end" ∷ []
unfolding apply_remediation accepted_commands mutation_lines push_accepted push_commands connected
    transact send_all lower strip split_lines
cisco_sent = refl

-- An abbreviated command is no wrapper, so that the startup configuration is written.
abbreviated_write :
    (apply_remediation remote "cisco" "hostname r1\nend\ncopy run start").0
    ≡ "configure terminal" ∷ "hostname r1" ∷ "copy run start" ∷ "end" ∷ []
unfolding apply_remediation accepted_commands mutation_lines push_accepted push_commands connected
    transact send_all lower strip split_lines
abbreviated_write = refl

uci_refused :
    mutation_lines "openwrt" "uci set system.ntp.enabled=1; reboot"
    ≡ err (push_error "UCI remediation contains an unsupported command")
unfolding mutation_lines uci_lines uci_parts is_uci_mutation lower strip split_lines split contains
    codes
uci_refused = refl

uci_accepted :
    mutation_lines "openwrt" "uci set system.ntp.enabled='1'; uci commit"
    ≡ ok ("uci set system.ntp.enabled='1'" ∷ [])
unfolding mutation_lines uci_lines uci_parts is_uci_mutation lower strip split_lines split contains
    codes
uci_accepted = refl

apply_remediation-permitted_example :
    let sent = (apply_remediation remote "cisco" cisco_text).0 in
    (sent ≡ [])
    ⊎ ((is_pushable "cisco" cisco_text ≡ true)
        × All (λ c. is_permitted (lower (strip "cisco")) c ≡ true) sent)
apply_remediation-permitted_example = apply_remediation-permitted remote "cisco" cisco_text

abbrev junos_text : String
junos_text = "set system host-name r1\ncommit"

junos_sent :
    (apply_remediation remote " Juniper" junos_text).0
    ≡ "configure" ∷ "set system host-name r1" ∷ "commit confirmed 5" ∷ "commit" ∷ []
unfolding apply_remediation accepted_commands mutation_lines push_accepted push_commands connected
    transact reverify confirm send_all lower strip split_lines
junos_sent = refl

vendor_key : lower (strip " Juniper") ≡ "juniper"
unfolding lower strip
vendor_key = refl

apply_remediation-Final_example : Final remote (apply_remediation remote " Juniper" junos_text)
apply_remediation-Final_example = apply_remediation-Final remote " Juniper" junos_text vendor_key
