-- ===== src/Push.antt =====
-- The application of an approved text over SSH (backend/connectors/ssh_push.py). What was sent on
-- the channel is a list of commands; the device, its connection and the diff are parameters.
pub mod Uci
pub mod Commands
pub mod Safety
pub mod Junos
pub mod Tests
use valsec.Prelude.{
  String, Bool, true, false, not, ◌&&◌, ◌||◌, Option, none, some, List, [], ◌∷◌, ◌++◌, map, any,
  keep, is_empty, is_blank, strip, lower, contains, member, join, split, split_lines, ◌is◌,
  if◌then◌else◌, Result, ok, err, ◌>>=◌,
}
use valsec.Errors.{PushFailure, push_auth, push_unreachable, pending_rollback, push_error}
use valsec.Remediation.Risk.{classify_risk}
use valsec.Remediation.Execution.{PushResult}
use Uci.{is_uci_mutation}

abbrev pub fortinet_keys : List String
fortinet_keys = "fortinet" ∷ "fortios" ∷ "fortigate" ∷ []

abbrev pub cisco_wrappers : List String
cisco_wrappers =
    "configure terminal" ∷ "conf t" ∷ "end" ∷ "write memory" ∷ "copy running-config startup-config"
    ∷ []

abbrev pub juniper_wrappers : List String
juniper_wrappers = "configure" ∷ "commit" ∷ "commit and-quit" ∷ "commit and quit" ∷ "exit" ∷ []

abbrev pub shell_meta : List String
shell_meta = "&&" ∷ "||" ∷ "`" ∷ "$(" ∷ ">" ∷ "<" ∷ "\0" ∷ []

abbrev pub unless_wrapper : List String → List String → List String
unless_wrapper wrappers lines = keep (λ line. not (member (lower line) wrappers)) lines

-- The inner loop, over the stripped pieces of a line.
unfoldable pub uci_parts : List String → Result PushFailure (List String)
uci_parts [] = ok []
uci_parts (part ∷ parts) =
    if is_blank part || lower part is "uci commit"
    then uci_parts parts
    else if not (is_uci_mutation part)
    then err (push_error "UCI remediation contains an unsupported command")
    else (uci_parts parts >>= λ commands. ok (part ∷ commands))

-- The loop over the lines.
unfoldable pub uci_lines : List String → Result PushFailure (List String)
uci_lines [] = ok []
uci_lines (line ∷ lines) =
    if any (λ marker. contains marker line) shell_meta
    then err (push_error "UCI remediation contains unsupported shell syntax")
    else (uci_parts (map strip (split b';' line)) >>= λ commands.
        uci_lines lines >>= λ others. ok (commands ++ others))

unfoldable pub mutation_lines : String → String → Result PushFailure (List String)
mutation_lines vendor remediation_text =
    let vendor_key = lower (strip vendor) in
    let lines = keep (λ line. not (is_blank line)) (map strip (split_lines remediation_text)) in
    if vendor_key is "cisco"
    then ok (unless_wrapper cisco_wrappers lines)
    else if vendor_key is "juniper"
    then ok (unless_wrapper juniper_wrappers lines)
    else if not (member vendor_key fortinet_keys)
    then uci_lines lines
    else err (push_error "This vendor has no safe automatic push procedure")

unfoldable pub generic_reload : List String → List String
generic_reload commands =
    let joined = lower (join "\n" commands) in
    if contains "system.ntp" joined
    then "/etc/init.d/sysntpd restart" ∷ []
    else if contains "system.@system" joined || contains "system.hostname" joined
    then "/etc/init.d/system reload" ∷ []
    else []

abbrev pub some_command : List String → Result PushFailure (List String)
some_command [] =
    err (push_error "Approved remediation contains no applicable configuration commands")
some_command (c ∷ cs) = ok (c ∷ cs)

-- The refusals, and the commands where there is none.
unfoldable pub accepted_commands : String → String → Result PushFailure (List String)
accepted_commands vendor remediation_text =
    let vendor_key = lower (strip vendor) in
    if member vendor_key fortinet_keys
    then err (push_error "FortiOS automatic push is not implemented safely")
    else if not (vendor_key is "cisco" || vendor_key is "juniper")
        && classify_risk vendor remediation_text
    then err (
        push_error
          "Risky UCI changes must be applied manually because automatic rollback is unavailable")
    else mutation_lines vendor remediation_text >>= λ commands. some_command commands

-- The device as it answers once a list of commands was sent to it.
pub record Remote : Type 0 where
  -- `fetch_device_config`
  pub fetch : List String → Result PushFailure String
  -- `_connect` with `invoke_shell`.
  pub connect : Result PushFailure (Unit {0})
  -- What the next `sendall` raises.
  pub broken : List String → Option PushFailure
  pub diff : String → String → String

-- The commands that were sent, and what the call returns or raises.
abbrev pub Outcome : Type 0
Outcome = List String × Result PushFailure PushResult

abbrev pub pending_unless : PushFailure → PushFailure
pending_unless push_auth =
    pending_rollback
      "Junos could not be re-verified after commit confirmed; final commit was not sent and the device should auto-rollback within five minutes"
pending_unless push_unreachable =
    pending_rollback
      "Junos could not be re-verified after commit confirmed; final commit was not sent and the device should auto-rollback within five minutes"
pending_unless e = e

module _ (remote : Remote) where
  open remote use {fetch, connect, broken, diff}

  unfoldable pub send_all : List String → List String → List String × Option PushFailure
  send_all sent [] = (sent, none)
  send_all sent (c ∷ cs) = elim (broken sent) [
    | some e ↦ (sent, some e)
    | none ↦ send_all (sent ++ c ∷ []) cs
  ]

  abbrev pub result_of : String → String → PushResult
  result_of before after = record {
    pre_change_snapshot = before;
    post_change_snapshot = after;
    diff_summary = diff before after;
  }

  abbrev pub conclude_read : String → List String → Result PushFailure String → Outcome
  conclude_read before sent (err e) = (sent, err e)
  conclude_read before sent (ok after) = (sent, ok (result_of before after))

  -- The last read, for Cisco and UCI.
  abbrev pub reread : String → List String × Option PushFailure → Outcome
  reread before (sent, some e) = (sent, err e)
  reread before (sent, none) = conclude_read before sent (fetch sent)

  abbrev pub committed : PushResult → List String × Option PushFailure → Outcome
  committed result (sent, some e) = (sent, err e)
  committed result (sent, none) = (sent, ok result)

  unfoldable pub confirm : String → List String → Result PushFailure String → Outcome
  confirm before sent (err e) = (sent, err (pending_unless e))
  confirm before sent (ok after) =
      committed (result_of before after) (send_all sent ("commit" ∷ []))

  unfoldable pub reverify : String → List String × Option PushFailure → Outcome
  reverify before (sent, some e) = (sent, err e)
  reverify before (sent, none) = confirm before sent (fetch sent)

  unfoldable pub transact : String → List String → String → Outcome
  transact vendor_key commands before =
      if vendor_key is "cisco"
      then reread before (send_all [] ("configure terminal" ∷ commands ++ "end" ∷ []))
      else if vendor_key is "juniper"
      then reverify before (send_all [] ("configure" ∷ commands ++ "commit confirmed 5" ∷ []))
      else reread before (send_all [] (commands ++ "uci commit" ∷ generic_reload commands))

  unfoldable pub connected : String → List String → String → Result PushFailure (Unit {0}) → Outcome
  connected vendor_key commands before (err e) = ([], err e)
  connected vendor_key commands before (ok _) = transact vendor_key commands before

  unfoldable pub push_commands : String → List String → Result PushFailure String → Outcome
  push_commands vendor_key commands (err e) = ([], err e)
  push_commands vendor_key commands (ok before) = connected vendor_key commands before connect

  unfoldable pub push_accepted : String → Result PushFailure (List String) → Outcome
  push_accepted vendor_key (err e) = ([], err e)
  push_accepted vendor_key (ok commands) = push_commands vendor_key commands (fetch [])

  unfoldable pub apply_remediation : String → String → Outcome
  apply_remediation vendor remediation_text =
      push_accepted (lower (strip vendor)) (accepted_commands vendor remediation_text)
