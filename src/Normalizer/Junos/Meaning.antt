-- ===== src/Normalizer/Junos/Meaning.antt =====
-- What a JunOS statement means, by its words: the tests of `parse` in
-- backend/normalizer/juniper_junos.py, in their order.
use Prim.Native.Char.{code}
use Prim.Native.String as Text
use valsec.Prelude.{
  ℕ, ◌*◌, ◌+◌, ◌^◌, String, Bool, true, not, ◌&&◌, ◌||◌, Option, none, some, List, [], ◌∷◌, ◌++◌,
  ◌==◌, ◌is◌, lower, member, strip, words, codes, split, starts_with, join, length, if◌then◌else◌,
}
use valsec.Schema.{Number, whole, ratio}
use valsec.Normalizer.Lines.{whole_number, ends_with, before_end, and_then, drop_word}
use valsec.Normalizer.Settings.{
  Setting, flag, count, text, timeout, items, hostname, os_version, enable_secret_type,
  password_encryption, finger_disabled, http_server_disabled, http_secure_server_enabled,
  banner_login, banner_motd, console_timeout, vty_timeout, transport_input, ssh_version,
  ssh_timeout_seconds, ssh_auth_retries, new_model, authentication_login, buffered_size,
  trap_severity, timestamps_enabled, ntp_servers, ntp_authenticate, v3_only,
  default_communities_removed, cdp_global_disabled,
}
use valsec.Normalizer.Junos.Blocks.{drop_semicolons}

-- What `parse` remembers to the end of the configuration.
pub data Sighting : Type 0 where
  https http snmp_v3 default_community : Sighting

pub data Meaning : Type 0 where
  -- The settings in their order; with a sighting, which is assigned first.
  sets : List Setting → Meaning
  sights : Sighting → Bool → Setting → Meaning
  disables : String → Bool → Meaning
  unread : Meaning

-- The words that follow some words, whatever their case.
unfoldable pub rest_after : List String → List String → Option (List String)
unfolding lower
rest_after [] ws = some ws
rest_after (p ∷ ps) [] = none
rest_after (p ∷ ps) (w ∷ ws) = let rest = rest_after ps ws in if lower w is p then rest else none

-- `value[1:-1]` between quotes.
unfoldable pub unquote : String → String
unfolding ends_with before_end
unquote Text.[] = ""
unquote (Text.◌∷◌ c s) =
    if (code c == b'"') && ends_with s "\"" then before_end s "\"" else Text.◌∷◌ c s

-- `(.+)`
unfoldable pub captured : Option (List String) → Option String
unfolding join
captured none = none
captured (some []) = none
captured (some (w ∷ ws)) = some (join " " (w ∷ ws))

-- `(\S+)`
abbrev pub captured_word : Option (List String) → Option String
captured_word none = none
captured_word (some []) = none
captured_word (some (w ∷ ws)) = some w

-- `(\S+)$`
abbrev pub last_word : Option (List String) → Option String
last_word none = none
last_word (some []) = none
last_word (some (w ∷ [])) = some w
last_word (some (w ∷ v ∷ vs)) = none

abbrev pub counted : Option ℕ → (ℕ → Meaning) → Option Meaning
counted none f = none
counted (some n) f = some (f n)

-- `\d+(?:\.\d+)?`
abbrev decimal_parts : Option ℕ → Option ℕ → ℕ → Option Number
decimal_parts none fraction scale = none
decimal_parts (some w) none scale = none
decimal_parts (some w) (some f) scale =
    some (if f == 0 then whole w else ratio (w * scale + f) scale)

unfoldable pub decimal : List String → Option Number
unfolding whole_number codes
decimal [] = none
decimal (a ∷ []) = decimal_parts (whole_number a) (some 0) 1
decimal (a ∷ b ∷ []) = decimal_parts (whole_number a) (whole_number b) (10 ^ length (codes b))
decimal (a ∷ b ∷ c ∷ rest) = none

abbrev pub scaled : Option ℕ → ℕ → Option ℕ
scaled none k = none
scaled (some n) k = some (n * k)

-- `(\d+)([kmg])?$`
unfoldable pub size_of : String → Option ℕ
unfolding whole_number ends_with before_end
size_of w =
    if ends_with w "k"
    then scaled (whole_number (before_end w "k")) 1024
    else if ends_with w "m"
    then scaled (whole_number (before_end w "m")) (1024 * 1024)
    else if ends_with w "g"
    then scaled (whole_number (before_end w "g")) (1024 * 1024 * 1024)
    else whole_number w

abbrev pub skip_word : Option (List String) → Option (List String)
skip_word none = none
skip_word (some []) = none
skip_word (some (w ∷ ws)) = some ws

unfoldable pub then_after : List String → Option (List String) → Option (List String)
unfolding rest_after
then_after ps none = none
then_after ps (some ws) = rest_after ps ws

abbrev pub first_meaning : List (Option Meaning) → Meaning
first_meaning [] = unread
first_meaning (none ∷ ms) = first_meaning ms
first_meaning (some m ∷ ms) = m

abbrev pub when : Bool → Meaning → Option Meaning
when test m = if test then some m else none

abbrev pub either_rest : Option (List String) → Option (List String) → Option (List String)
either_rest none o = o
either_rest (some ws) o = some ws

-- `(?:system )?word\s+(.+)$`
unfoldable pub system_text : String → List String → Option String
unfolding rest_after join captured
system_text word ws =
    captured (either_rest (rest_after ("system" ∷ word ∷ []) ws) (rest_after (word ∷ []) ws))

unfoldable pub version_digits : Option (List String) → Option ℕ
unfolding whole_number drop_word
version_digits o = and_then (last_word o) (λ w. elim (whole_number w) [
  | some n ↦ some n
  | none ↦ and_then (drop_word "v" w) whole_number
])

abbrev pub password_settings : String → Meaning
password_settings password = sets (
    count enable_secret_type (if starts_with password "$" then 9 else 0)
    ∷ flag password_encryption (starts_with password "$")
    ∷ [])

abbrev pub both_timeouts : Number → Meaning
both_timeouts n = sets (timeout console_timeout n ∷ timeout vty_timeout n ∷ [])

abbrev pub ssh_only_setting : Setting
ssh_only_setting = items transport_input ("ssh" ∷ [])

abbrev pub timed : Option Number → Option Meaning
timed none = none
timed (some n) = some (both_timeouts n)

-- `(\S+)\s+disable$`
unfoldable pub disabled_interface : Option (List String) → Option String
unfolding lower
disabled_interface none = none
disabled_interface (some []) = none
disabled_interface (some (w ∷ [])) = none
disabled_interface (some (w ∷ v ∷ [])) = if lower v is "disable" then some w else none
disabled_interface (some (w ∷ v ∷ x ∷ xs)) = none

-- The statements of `system` up to its login.
unfoldable pub system_meanings : Bool → List String → List (Option Meaning)
unfolding system_text rest_after captured unquote join lower decimal split
system_meanings is_set ws =
    let low = lower (join " " ws) in
    and_then (system_text "host-name" ws) (λ s. some (sets (text hostname (unquote s) ∷ [])))
    ∷ and_then (system_text "version" ws) (λ s. some (sets (text os_version (unquote s) ∷ [])))
    ∷ and_then
        (captured (rest_after ("system" ∷ "root-authentication" ∷ "encrypted-password" ∷ []) ws))
        (λ s. some (password_settings (unquote s)))
    ∷ when (low is "system services finger") (sets (flag finger_disabled (not is_set) ∷ []))
    ∷ when (low is "system services web-management http")
        (sights http is_set (flag http_server_disabled (not is_set)))
    ∷ when (starts_with low "system services web-management https")
        (sights https is_set (flag http_secure_server_enabled is_set))
    ∷ and_then (captured (rest_after ("system" ∷ "login" ∷ "message" ∷ []) ws))
        (λ s. some (sets (text banner_login (unquote s) ∷ text banner_motd (unquote s) ∷ [])))
    ∷ and_then (last_word (rest_after ("system" ∷ "login" ∷ "idle-timeout" ∷ []) ws))
        (λ s. timed (decimal (split b'.' s)))
    ∷ []

unfoldable pub ssh_meanings : List String → List (Option Meaning)
unfolding rest_after join lower version_digits whole_number
ssh_meanings ws =
    when (lower (join " " ws) is "system services ssh") (sets (ssh_only_setting ∷ []))
    ∷ counted
        (version_digits (rest_after ("system" ∷ "services" ∷ "ssh" ∷ "protocol-version" ∷ []) ws))
        (λ n. sets (count ssh_version n ∷ ssh_only_setting ∷ []))
    ∷ counted
        (and_then
          (last_word (rest_after ("system" ∷ "services" ∷ "ssh" ∷ "client-alive-interval" ∷ []) ws))
          whole_number)
        (λ n. sets (count ssh_timeout_seconds n ∷ []))
    ∷ counted
        (and_then
          (last_word
            (rest_after ("system" ∷ "services" ∷ "ssh" ∷ "max-authentication-retries" ∷ []) ws))
          whole_number)
        (λ n. sets (count ssh_auth_retries n ∷ []))
    ∷ []

unfoldable pub logging_meanings : Bool → List String → List (Option Meaning)
unfolding rest_after captured join lower unquote size_of then_after
logging_meanings is_set ws =
    and_then (captured (rest_after ("system" ∷ "authentication-order" ∷ []) ws))
      (λ s. some (sets (flag new_model is_set ∷ text authentication_login (unquote s) ∷ [])))
    ∷ counted
        (and_then
          (last_word (
            then_after ("archive" ∷ "size" ∷ [])
              (skip_word (rest_after ("system" ∷ "syslog" ∷ "file" ∷ []) ws))))
          (λ w. size_of (lower w)))
        (λ n. sets (count buffered_size n ∷ []))
    ∷ and_then
        (captured_word (
          skip_word (
            skip_word (
              either_rest (rest_after ("system" ∷ "syslog" ∷ "host" ∷ []) ws)
                (rest_after ("system" ∷ "syslog" ∷ "file" ∷ []) ws)))))
        (λ w. some (sets (text trap_severity (lower w) ∷ flag timestamps_enabled is_set ∷ [])))
    ∷ []

unfoldable pub network_meanings : Bool → List String → List (Option Meaning)
unfolding rest_after join lower disabled_interface
network_meanings is_set ws =
    let low = lower (join " " ws) in
    and_then (captured_word (rest_after ("system" ∷ "ntp" ∷ "server" ∷ []) ws))
      (λ w. some (sets (items ntp_servers (w ∷ []) ∷ [])))
    ∷ when
        (starts_with low "system ntp authentication-key"
          || starts_with low "system ntp trusted-key")
        (sets (flag ntp_authenticate is_set ∷ []))
    ∷ when (starts_with low "snmp v3") (sights snmp_v3 is_set (flag v3_only is_set))
    ∷ and_then (captured_word (rest_after ("snmp" ∷ "community" ∷ []) ws)) (λ w.
      when (member (lower w) ("public" ∷ "private" ∷ []))
        (sights default_community is_set (flag default_communities_removed (not is_set))))
    ∷ when (low is "protocols lldp interface all disable")
        (sets (flag cdp_global_disabled is_set ∷ []))
    ∷ and_then (disabled_interface (rest_after ("interfaces" ∷ []) ws))
        (λ name. some (disables name is_set))
    ∷ []

-- The words of a command without its action.
unfoldable pub meaning_of : Bool → List String → Meaning
unfolding system_meanings ssh_meanings logging_meanings network_meanings
meaning_of is_set ws = first_meaning (
    system_meanings is_set ws
    ++ ssh_meanings ws
    ++ logging_meanings is_set ws
    ++ network_meanings is_set ws)

-- `normalized.split(" ", 1)`, if the first word is an action.
unfoldable pub action_meaning : List String → Meaning
unfolding meaning_of
action_meaning [] = meaning_of true []
action_meaning (w ∷ []) = meaning_of true (w ∷ [])
action_meaning (w ∷ v ∷ vs) =
    let whole = meaning_of true (w ∷ v ∷ vs) in
    if member w ("set" ∷ "delete" ∷ "deactivate" ∷ [])
    then meaning_of (w is "set") (v ∷ vs)
    else whole

unfoldable pub command_meaning : String → Meaning
unfolding action_meaning words drop_semicolons strip
command_meaning command = action_meaning (words (drop_semicolons (strip command)))
