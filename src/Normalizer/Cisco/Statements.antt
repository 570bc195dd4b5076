-- ===== src/Normalizer/Cisco/Statements.antt =====
-- What a stripped line of an IOS configuration says, where it stands, in the order of the tests of
-- `parse` (backend/normalizer/cisco_ios.py).
use Prim.Native.Char.{Char, code}
use Prim.Native.String as Text
use valsec.Prelude.{
  ℕ, ◌+◌, ◌*◌, String, Bool, true, false, ◌&&◌, ◌||◌, Option, none, some, List, [], ◌∷◌, leb, ◌==◌,
  ◌is◌, is_blank, lower, strip, words, concat, is_some, if◌then◌else◌,
}
use valsec.Schema.{Number, whole, ratio}
use valsec.Normalizer.Lines.{after_words, whole_number, and_then, is_digit_code, drop_length}
use valsec.Normalizer.Settings.{
  TextField, banner_motd, banner_login, transport_preferred, access_class, TimeoutField,
  console_timeout, vty_timeout, transport_input, interface_shutdown, interface_cdp_disabled,
  InterfaceText, interface_description, interface_ip_address, Setting, text, timeout, items,
  on_interface, of_interface,
}
use valsec.Normalizer.Cisco.Globals.{global_setting, orelse_setting}

-- `context`
pub data Section : Type 0 where
  top line_console line_vty : Section
  inside : String → Section

-- A line in the order of the tests; `scoped` is understood by its context, `global` anywhere.
pub data Statement : Type 0 where
  blank separator console vty other : Statement
  -- The field, the delimiter and the text behind it, which the line ends or not.
  banner : TextField → String → String → Statement
  interface : String → Statement
  scoped global : Setting → Statement

abbrev is_letter : Char → Bool
is_letter c = (leb b'a' (code c) && leb (code c) b'z') || (leb b'A' (code c) && leb (code c) b'Z')

-- `remainder[:2]` if it is a caret and a letter, `remainder[0]` otherwise.
unfoldable pub delimiter_of : String → String
delimiter_of Text.[] = ""
delimiter_of (Text.◌∷◌ c Text.[]) = Text.◌∷◌ c ""
delimiter_of (Text.◌∷◌ c (Text.◌∷◌ d s)) =
    if (code c == b'^') && is_letter d then Text.◌∷◌ c (Text.◌∷◌ d "") else Text.◌∷◌ c ""

unfoldable pub banner_of : TextField → String → Statement
unfolding delimiter_of drop_length strip
banner_of field remainder =
    banner field (delimiter_of remainder) (strip (drop_length (delimiter_of remainder) remainder))

-- Whole minutes where no seconds are given.
abbrev pub timeout_of : Option ℕ → Option ℕ → Option Number
timeout_of none seconds = none
timeout_of (some m) none = none
timeout_of (some m) (some s) = some (if s == 0 then whole m else ratio (m * 60 + s) 60)

abbrev pub timeout_setting : TimeoutField → Option Number → Option Setting
timeout_setting field none = none
timeout_setting field (some n) = some (timeout field n)

-- `(\d+)(?:\s+(\d+))?$`
unfoldable pub timeout_words : List String → Option Number
unfolding whole_number
timeout_words [] = none
timeout_words (a ∷ []) = timeout_of (whole_number a) (some 0)
timeout_words (a ∷ b ∷ []) = timeout_of (whole_number a) (whole_number b)
timeout_words (a ∷ b ∷ c ∷ rest) = none

unfoldable pub exec_timeout : TimeoutField → String → Option Setting
unfolding after_words words timeout_words
exec_timeout field line =
    timeout_setting field
      (and_then (after_words ("exec-timeout" ∷ []) line) (λ r. timeout_words (words r)))

abbrev pub console_texts : Option String → Option Setting
console_texts none = none
console_texts (some s) = some (text transport_preferred s)

unfoldable pub vty_inputs : Option String → Option Setting
unfolding words lower
vty_inputs none = none
vty_inputs (some s) = some (items transport_input (words (lower s)))

abbrev pub vty_access : Option String → Option Setting
vty_access none = none
vty_access (some s) = some (text access_class s)

abbrev pub interface_texts : InterfaceText → String → Option String → Option Setting
interface_texts field name none = none
interface_texts field name (some s) = some (of_interface name field s)

-- `(\S+)\s+(\S+)`
abbrev pub two_words : List String → Option String
two_words [] = none
two_words (a ∷ []) = none
two_words (a ∷ b ∷ rest) = some (concat (a ∷ " " ∷ b ∷ []))

unfoldable pub interface_setting : String → String → Option Setting
unfolding after_words words lower
interface_setting name line =
    let line_of =
      interface_texts interface_description name (after_words ("description" ∷ []) line) in
    let address =
      interface_texts interface_ip_address name
        (and_then (after_words ("ip" ∷ "address" ∷ []) line) (λ r. two_words (words r))) in
    if lower line is "shutdown"
    then some (on_interface name interface_shutdown true)
    else if lower line is "no shutdown"
    then some (on_interface name interface_shutdown false)
    else if lower line is "no cdp enable"
    then orelse_setting (orelse_setting line_of address)
        (some (on_interface name interface_cdp_disabled true))
    else orelse_setting line_of address

-- `_parse_context_line`
unfoldable pub context_setting : Section → String → Option Setting
unfolding exec_timeout interface_setting after_words vty_inputs
context_setting top line = none
context_setting line_console line =
    orelse_setting (exec_timeout console_timeout line)
      (console_texts (after_words ("transport" ∷ "preferred" ∷ []) line))
context_setting line_vty line = orelse_setting (exec_timeout vty_timeout line) (
    orelse_setting (vty_inputs (after_words ("transport" ∷ "input" ∷ []) line))
      (vty_access (after_words ("access-class" ∷ []) line)))
context_setting (inside name) line = interface_setting name line

abbrev pub starts_digit : String → Option String
starts_digit Text.[] = none
starts_digit (Text.◌∷◌ c s) = if is_digit_code (code c) then some "" else none

unfoldable pub is_console : String → Bool
unfolding after_words
is_console line =
    is_some (and_then (after_words ("line" ∷ "con" ∷ []) line) starts_digit)
    || is_some (and_then (after_words ("line" ∷ "console" ∷ []) line) starts_digit)

-- What `_parse_context_line` or `_parse_global_line` makes of a line, if either does.
abbrev pub setting_statement : Option Setting → Option Setting → Statement
setting_statement (some s) g = scoped s
setting_statement none (some s) = global s
setting_statement none none = other

unfoldable pub line_statement : Section → String → Statement
unfolding is_console after_words context_setting global_setting
line_statement section line =
    let settings = setting_statement (context_setting section line) (global_setting line) in
    if is_console line
    then console
    else if is_some (after_words ("line" ∷ "vty" ∷ []) line)
    then vty
    else settings

unfoldable pub block_statement :
    Option String → Option String → Option String → Statement → Statement
unfolding banner_of
block_statement (some remainder) b i s = banner_of banner_motd remainder
block_statement none (some remainder) i s = banner_of banner_login remainder
block_statement none none (some name) s = interface name
block_statement none none none s = s

unfoldable pub statement_of : Section → String → Statement
unfolding line_statement after_words block_statement
statement_of section line =
    if is_blank line
    then blank
    else if line is "!"
    then separator
    else block_statement (after_words ("banner" ∷ "motd" ∷ []) line)
        (after_words ("banner" ∷ "login" ∷ []) line) (after_words ("interface" ∷ []) line)
        (line_statement section line)
