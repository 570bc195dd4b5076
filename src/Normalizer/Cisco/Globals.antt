-- ===== src/Normalizer/Cisco/Globals.antt =====
-- The statements that count wherever they stand (`_parse_global_line` of
-- backend/normalizer/cisco_ios.py).
use Prim.Native.Char.{Char, code}
use Prim.Native.String as Text
use valsec.Prelude.{
  ℕ, String, Bool, true, false, ◌&&◌, ◌||◌, not, Option, none, some, List, [], ◌∷◌, leb, ◌==◌,
  lower, words, codes, starts_with, member, if◌then◌else◌, is_some, is_space,
}
use valsec.Normalizer.Lines.{
  drop_length, after_words, says, drop_word, whole_number, leading_digits, value_of_digits,
  is_digit_code, and_then,
}
use valsec.Normalizer.Settings.{
  FlagField, password_encryption, finger_disabled, tcp_small_servers_disabled,
  udp_small_servers_disabled, bootp_server_disabled, http_server_disabled,
  http_secure_server_enabled, source_route_disabled, new_model, timestamps_enabled, v3_only,
  default_communities_removed, ntp_authenticate, cdp_global_disabled, CountField,
  enable_secret_type, ssh_version, ssh_timeout_seconds, ssh_auth_retries, buffered_size, TextField,
  hostname, domain_name, os_version, authentication_login, trap_severity, ntp_servers, Setting,
  flag, count, text, item,
}

abbrev pub rules : List (List String × Bool × FlagField)
rules =
    ("service" ∷ "password-encryption" ∷ [], true, password_encryption)
    ∷ ("no" ∷ "service" ∷ "password-encryption" ∷ [], false, password_encryption)
    ∷ ("service" ∷ "finger" ∷ [], false, finger_disabled)
    ∷ ("no" ∷ "service" ∷ "finger" ∷ [], true, finger_disabled)
    ∷ ("service" ∷ "tcp-small-servers" ∷ [], false, tcp_small_servers_disabled)
    ∷ ("no" ∷ "service" ∷ "tcp-small-servers" ∷ [], true, tcp_small_servers_disabled)
    ∷ ("service" ∷ "udp-small-servers" ∷ [], false, udp_small_servers_disabled)
    ∷ ("no" ∷ "service" ∷ "udp-small-servers" ∷ [], true, udp_small_servers_disabled)
    ∷ ("ip" ∷ "bootp" ∷ "server" ∷ [], false, bootp_server_disabled)
    ∷ ("no" ∷ "ip" ∷ "bootp" ∷ "server" ∷ [], true, bootp_server_disabled)
    ∷ ("ip" ∷ "http" ∷ "server" ∷ [], false, http_server_disabled)
    ∷ ("no" ∷ "ip" ∷ "http" ∷ "server" ∷ [], true, http_server_disabled)
    ∷ ("ip" ∷ "http" ∷ "secure-server" ∷ [], true, http_secure_server_enabled)
    ∷ ("no" ∷ "ip" ∷ "http" ∷ "secure-server" ∷ [], false, http_secure_server_enabled)
    ∷ ("ip" ∷ "source-route" ∷ [], false, source_route_disabled)
    ∷ ("no" ∷ "ip" ∷ "source-route" ∷ [], true, source_route_disabled)
    ∷ ("cdp" ∷ "run" ∷ [], false, cdp_global_disabled)
    ∷ ("no" ∷ "cdp" ∷ "run" ∷ [], true, cdp_global_disabled)
    ∷ ("aaa" ∷ "new-model" ∷ [], true, new_model)
    ∷ ("no" ∷ "aaa" ∷ "new-model" ∷ [], false, new_model)
    ∷ ("ntp" ∷ "authenticate" ∷ [], true, ntp_authenticate)
    ∷ ("no" ∷ "ntp" ∷ "authenticate" ∷ [], false, ntp_authenticate)
    ∷ []

abbrev pub orelse_setting : Option Setting → Option Setting → Option Setting
orelse_setting none s = s
orelse_setting (some r) s = some r

unfoldable pub first_rule : List (List String × Bool × FlagField) → String → Option Setting
unfolding says
first_rule [] line = none
first_rule ((ws, value, field) ∷ rest) line =
    let later = first_rule rest line in if says ws line then some (flag field value) else later

-- The last two rules, whose patterns end in `.+`.
unfoldable pub timestamps_rule : String → Option Setting
unfolding says after_words
timestamps_rule line =
    let on = is_some (after_words ("service" ∷ "timestamps" ∷ "log" ∷ []) line) in
    let off =
      says ("no" ∷ "service" ∷ "timestamps" ∷ "log" ∷ []) line
      || is_some (after_words ("no" ∷ "service" ∷ "timestamps" ∷ "log" ∷ []) line) in
    if on
    then some (flag timestamps_enabled true)
    else if off
    then some (flag timestamps_enabled false)
    else none

abbrev pub captured_text : TextField → Option String → Option Setting
captured_text f none = none
captured_text f (some s) = some (text f s)

abbrev pub captured_count : CountField → Option ℕ → Option Setting
captured_count f none = none
captured_count f (some n) = some (count f n)

-- `(\d+)\s+.+`
unfoldable pub counted_word : List String → Option ℕ
unfolding whole_number
counted_word [] = none
counted_word (w ∷ []) = none
counted_word (w ∷ v ∷ vs) = whole_number w

-- `(\S+).*`
abbrev pub first_word : List String → Option String
first_word [] = none
first_word (w ∷ ws) = some w

abbrev pub captured_item : Option String → Option Setting
captured_item none = none
captured_item (some s) = some (item ntp_servers s)

unfoldable pub first_setting : List (Option Setting) → Option Setting
first_setting [] = none
first_setting (s ∷ ss) = orelse_setting s (first_setting ss)

-- `patterns`
unfoldable pub pattern_setting : String → Option Setting
unfolding after_words words first_setting whole_number counted_word leading_digits codes
pattern_setting line = first_setting (
    captured_text hostname (after_words ("hostname" ∷ []) line)
    ∷ captured_text domain_name (after_words ("ip" ∷ "domain-name" ∷ []) line)
    ∷ captured_text domain_name (after_words ("ip" ∷ "domain" ∷ []) line)
    ∷ captured_text os_version (after_words ("version" ∷ []) line)
    ∷ captured_count enable_secret_type
        (and_then (after_words ("enable" ∷ "secret" ∷ []) line) (λ r. counted_word (words r)))
    ∷ captured_count ssh_version
        (and_then (after_words ("ip" ∷ "ssh" ∷ "version" ∷ []) line) whole_number)
    ∷ captured_count ssh_timeout_seconds
        (and_then (after_words ("ip" ∷ "ssh" ∷ "time-out" ∷ []) line) whole_number)
    ∷ captured_count ssh_timeout_seconds
        (and_then (after_words ("ip" ∷ "ssh" ∷ "timeout" ∷ []) line) whole_number)
    ∷ captured_count ssh_auth_retries
        (and_then (after_words ("ip" ∷ "ssh" ∷ "authentication-retries" ∷ []) line) whole_number)
    ∷ captured_text authentication_login
        (after_words ("aaa" ∷ "authentication" ∷ "login" ∷ []) line)
    ∷ captured_count buffered_size (
        and_then (after_words ("logging" ∷ "buffered" ∷ []) line)
          (λ r. value_of_digits (leading_digits (codes r))))
    ∷ captured_text trap_severity (after_words ("logging" ∷ "trap" ∷ []) line)
    ∷ captured_item
        (and_then (after_words ("ntp" ∷ "server" ∷ []) line) (λ r. first_word (words r)))
    ∷ [])

-- `\w`
abbrev is_word : Char → Bool
is_word c =
    is_digit_code (code c)
    || (leb b'a' (code c) && leb (code c) b'z')
    || (leb b'A' (code c) && leb (code c) b'Z')
    || (code c == b'_')

abbrev starts_word : String → Bool
starts_word Text.[] = false
starts_word (Text.◌∷◌ c s) = is_word c

-- `\bv3\b` in a text in lower case, before which another character stands.
unfoldable pub names_v3 : Char → String → Bool
unfolding drop_length
names_v3 prior Text.[] = false
names_v3 prior (Text.◌∷◌ c s) =
    (not (is_word prior)
      && starts_with (Text.◌∷◌ c s) "v3"
      && not (starts_word (drop_length "v3" (Text.◌∷◌ c s))))
    || names_v3 c s

-- `\s+.+\bv3\b`: a white space and one more character at least stand before it.
unfoldable pub v3_follows : String → Bool
unfolding names_v3 is_space
v3_follows Text.[] = false
v3_follows (Text.◌∷◌ c Text.[]) = false
v3_follows (Text.◌∷◌ c (Text.◌∷◌ d s)) = is_space c && names_v3 d s

abbrev pub holds : Option Bool → Bool
holds none = false
holds (some b) = b

-- `^snmp-server\s+(?:group|user)\s+.+\bv3\b`
unfoldable pub is_v3 : String → Bool
unfolding after_words drop_word v3_follows lower
is_v3 line =
    let rest = after_words ("snmp-server" ∷ []) line in
    holds (and_then rest (λ r. and_then (drop_word "group" r) (λ t. some (v3_follows (lower t)))))
    || holds (and_then rest (λ r. and_then (drop_word "user" r) (λ t. some (v3_follows (lower t)))))

-- `community.group(2)` behind an optional `no`.
unfoldable pub community : List String → String → Option String
unfolding after_words words
community ws line = and_then (after_words ws line) (λ r. first_word (words r))

unfoldable pub community_setting : Bool → Option String → Option Setting
unfolding lower
community_setting negated none = none
community_setting negated (some name) =
    if member (lower name) ("public" ∷ "private" ∷ [])
    then some (flag default_communities_removed negated)
    else some (flag v3_only false)

unfoldable pub snmp_setting : String → Option Setting
unfolding is_v3 community community_setting
snmp_setting line =
    if is_v3 line
    then some (flag v3_only true)
    else orelse_setting
        (community_setting true (community ("no" ∷ "snmp-server" ∷ "community" ∷ []) line))
        (community_setting false (community ("snmp-server" ∷ "community" ∷ []) line))

unfoldable pub global_setting : String → Option Setting
unfolding first_rule timestamps_rule pattern_setting snmp_setting
global_setting line = orelse_setting (first_rule rules line) (
    orelse_setting (timestamps_rule line)
      (orelse_setting (pattern_setting line) (snmp_setting line)))
