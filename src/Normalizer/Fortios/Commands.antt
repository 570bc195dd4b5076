-- ===== src/Normalizer/Fortios/Commands.antt =====
-- What a `set` command of FortiOS means in its section: the tests of `parse` in
-- backend/normalizer/fortios.py, in their order.
use Prim.Native.Char.{Char, code}
use Prim.Native.String as Text
use valsec.Prelude.{
  String, Bool, true, not, ◌&&◌, ◌||◌, Option, none, some, List, [], ◌∷◌, ◌==◌, leb, ◌is◌, is_blank,
  lower, member, join, concat, map, if◌then◌else◌,
}
use valsec.Schema.{Number}
use valsec.Normalizer.Lines.{is_digit_code, drop_length, drop_word}
use valsec.Normalizer.Settings.{
  Setting, flag, count, text, timeout, items, hostname, model, os_version, vty_timeout,
  console_timeout, ssh_version, strong_crypto_enabled, new_model, authentication_login,
  logging_enabled, ntp_enabled, ntp_servers, InterfaceText, interface_description,
  interface_ip_address,
}
use valsec.Normalizer.Fortios.Policies.{PolicySetting, policy_setting}

pub data Act : Type 0 where
  sets : List Setting → Act
  interface_text : String → InterfaceText → String → Act
  interface_status : String → Bool → Act
  allows : List String → Act
  protects snmp_level : Bool → Act
  default_name : Act
  custom_name : String → Act
  policy : String → String → PolicySetting → Act
  unread : Act

-- The digits that a text starts with, and what follows them.
unfoldable pub digits_of : String → String
digits_of Text.[] = ""
digits_of (Text.◌∷◌ c s) =
    let rest = digits_of s in if is_digit_code (code c) then Text.◌∷◌ c rest else ""

unfoldable pub after_digits : String → String
after_digits Text.[] = ""
after_digits (Text.◌∷◌ c s) =
    let rest = after_digits s in if is_digit_code (code c) then rest else Text.◌∷◌ c s

-- A dot with the digits behind it, or nothing.
unfoldable pub dotted : String → String
unfolding digits_of
dotted Text.[] = ""
dotted (Text.◌∷◌ c s) =
    if (code c == b'.') && not (is_blank (digits_of s)) then Text.◌∷◌ c (digits_of s) else ""

-- `\d+\.\d+(?:\.\d+)?` at the start of a text.
unfoldable pub version_of : String → Option String
unfolding digits_of after_digits dotted drop_length
version_of s =
    let second = dotted (after_digits s) in
    if is_blank (digits_of s) || is_blank second
    then none
    else some (concat (digits_of s ∷ second ∷ dotted (drop_length second (after_digits s)) ∷ []))

abbrev pub is_model_char : Char → Bool
is_model_char c =
    is_digit_code (code c)
    || (leb b'a' (code c) && leb (code c) b'z')
    || (leb b'A' (code c) && leb (code c) b'Z')
    || (code c == b'_' || code c == b'-')

abbrev pub longer_model :
    Char → Option (String × String) → Option (String × String) → Option (String × String)
longer_model c (some (m, v)) later = some (Text.◌∷◌ c m, v)
longer_model c none later = later

abbrev pub with_model : Char → Option String → Option (String × String)
with_model c none = none
with_model c (some v) = some (Text.◌∷◌ c "", v)

-- The version behind a hyphen, at the end of a model of one character.
unfoldable pub after_hyphen : Char → String → Option (String × String)
unfolding version_of
after_hyphen c Text.[] = none
after_hyphen c (Text.◌∷◌ d s) = if code d == b'-' then with_model c (version_of s) else none

-- `([A-Za-z0-9_-]+)-(\d+\.\d+(?:\.\d+)?)`: the longest model that a version follows.
unfoldable pub model_version : String → Option (String × String)
unfolding after_hyphen
model_version Text.[] = none
model_version (Text.◌∷◌ c s) =
    let longer = longer_model c (model_version s) (after_hyphen c s) in
    if is_model_char c then longer else none

abbrev pub version_settings : Option (String × String) → List Setting
version_settings none = []
version_settings (some (m, v)) = text model m ∷ text os_version v ∷ []

unfoldable pub parsed_comment : Option String → List Setting
unfolding model_version
parsed_comment none = []
parsed_comment (some s) = version_settings (model_version s)

-- The settings of a comment.
unfoldable pub comment_settings : String → List Setting
unfolding parsed_comment drop_word
comment_settings line = parsed_comment (drop_word "#config-version=" line)

abbrev pub timeouts : Option Number → Act
timeouts none = unread
timeouts (some n) = sets (timeout vty_timeout n ∷ timeout console_timeout n ∷ [])

abbrev pub policy_act : String → String → Option PolicySetting → Act
policy_act edit key none = unread
policy_act edit key (some s) = policy edit key s

-- `section.removeprefix("user ")`
unfoldable pub server_kind : String → String
unfolding drop_length
server_kind section = drop_length "user " section

module _ (number : String → Option Number) (list_text : List String → String) where
  -- `str(value)`, where one value is no list.
  abbrev pub hostname_text : String → List String → String
  hostname_text v [] = v
  hostname_text v (w ∷ ws) = list_text (v ∷ w ∷ ws)

  unfoldable pub global_act : String → String → List String → Act
  unfolding lower
  global_act key v vs =
      if key is "hostname"
      then sets (text hostname (hostname_text v vs) ∷ [])
      else if member key ("admintimeout" ∷ "admin-console-timeout" ∷ [])
      then timeouts (number v)
      else if key is "admin-ssh-v1"
      then sets (count ssh_version (if lower v is "disable" then 2 else 1) ∷ [])
      else if key is "strong-crypto"
      then sets (flag strong_crypto_enabled (lower v is "enable") ∷ [])
      else unread

unfoldable pub interface_act : String → String → String → List String → Act
unfolding lower join
interface_act edit key v vs =
    if member key ("alias" ∷ "description" ∷ [])
    then interface_text edit interface_description (join " " (v ∷ vs))
    else if key is "ip"
    then interface_text edit interface_ip_address (join " " (v ∷ vs))
    else if key is "status"
    then interface_status edit (lower v is "down")
    else if key is "allowaccess"
    then allows (map lower (v ∷ vs))
    else unread

-- `value.upper() == "ENC"`
unfoldable pub upper_is_enc : String → Bool
unfolding lower
upper_is_enc v = lower v is "enc"

-- The sections whose commands stand in an `edit` record.
unfoldable pub record_act : String → String → String → String → List String → Act
unfolding lower interface_act server_kind policy_setting upper_is_enc
record_act section edit key v vs =
    if section is "system interface"
    then interface_act edit key v vs
    else if (section is "system admin") && (key is "password")
    then protects (upper_is_enc v)
    else if member section ("user radius" ∷ "user tacacs+" ∷ "user ldap" ∷ [])
        && member key ("server" ∷ "remote-auth" ∷ [])
    then sets (flag new_model true ∷ text authentication_login (server_kind section) ∷ [])
    else if (section is "ntpserver") && (key is "server")
    then sets (items ntp_servers (v ∷ []) ∷ [])
    else if (section is "system snmp user") && (key is "security-level")
    then snmp_level (member (lower v) ("auth-priv" ∷ "auth-no-priv" ∷ []))
    else if (section is "system snmp community") && (key is "name")
    then (if member (lower v) ("public" ∷ "private" ∷ []) then default_name else custom_name v)
    else if section is "firewall policy"
    then policy_act edit key (policy_setting key (v ∷ vs))
    else unread

-- `status` of a log setting, and `ntpsync`, in a record or not.
unfoldable pub switch_act : String → String → String → Act
unfolding lower
switch_act section key v =
    if member section
        ("log disk setting" ∷ "log fortianalyzer setting" ∷ "log syslogd setting" ∷ [])
      && (key is "status")
    then sets (flag logging_enabled (lower v is "enable") ∷ [])
    else if (section is "system ntp") && (key is "ntpsync")
    then sets (flag ntp_enabled (lower v is "enable") ∷ [])
    else unread

abbrev pub or_act : Act → Act → Act
or_act unread b = b
or_act a b = a

-- `edit` counts where it is a text that is not empty.
unfoldable pub edit_act : Option String → String → String → String → List String → Act
unfolding record_act switch_act
edit_act none section key v vs = switch_act section key v
edit_act (some edit) section key v vs =
    or_act (switch_act section key v)
      (if is_blank edit then unread else record_act section edit key v vs)

module _ (number : String → Option Number) (list_text : List String → String) where
  -- A `set` command with its values; every test wants one.
  unfoldable pub command_act : String → Option String → String → List String → Act
  unfolding global_act edit_act
  command_act section edit key [] = unread
  command_act section edit key (v ∷ vs) =
      if section is "system global"
      then global_act number list_text key v vs
      else edit_act edit section key v vs
