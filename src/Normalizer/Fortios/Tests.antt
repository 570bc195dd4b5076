-- ===== src/Normalizer/Fortios/Tests.antt =====
-- Examples of the FortiOS parser, with texts that `shlex` splits at white space.
use valsec.Prelude.{
  lower, strip, member, true, some, ℕ, String, Option, none, List, [], ◌∷◌, ◌≡◌, refl, map, Result,
  ok, words, join,
}
use valsec.Schema.{Number}
use valsec.Audit.{Parsed}
use valsec.Normalizer.Settings.{
  items, transport_input, text, model, os_version, set_default, has_interface, add_item,
}
use valsec.Normalizer.Generic.Explained.{untaught}
use valsec.Normalizer.Fortios.Commands.{comment_settings}
use valsec.Normalizer.Fortios.Acts.{FortiValue, of_setting, FortiParse, forti_start, act_on}
use valsec.Normalizer.Fortios.Parse.{forti_result, forti_lines, forti_line}
use valsec.Normalizer.Fortios.Visible.{IsVisible, IsCommand, allowaccess_http-IsVisible}

abbrev printed : FortiValue → String
printed (of_setting (items transport_input xs)) = join "," xs
printed _ = "-"

abbrev split_words : String → Result String (List String)
split_words line = ok (words line)

abbrev no_number : String → Option Number
no_number v = none

abbrev listing : List String → String
listing = join " "

header_settings :
    comment_settings "#config-version=FG-60F-7.2.5-FW-build1517-230606:opmode=0"
    ≡ text model "FG-60F" ∷ text os_version "7.2.5" ∷ []
unfolding comment_settings
header_settings = refl

abbrev two_ports : List (ℕ × String)
two_ports =
    (1, "config system interface")
    ∷ (2, " edit port1")
    ∷ (3, "  set allowaccess https")
    ∷ (4, " next")
    ∷ (5, " edit port2")
    ∷ (6, "  set allowaccess http")
    ∷ []

abbrev after_two_ports : FortiParse
after_two_ports = forti_lines printed split_words no_number listing untaught two_ports forti_start

abbrev finding_values : List Parsed → List (ℕ × String)
finding_values = map (λ (f : Parsed). (f.line_number, f.field_value))

-- The finding of the first port shows the protocol of the second: both share one list.
shared_findings :
    finding_values (forti_result printed after_two_ports).findings
    ≡ (3, "https,http") ∷ (6, "https,http") ∷ []
unfolding forti_result forti_lines forti_line act_on words set_default has_interface add_item
shared_findings = refl

abbrev in_port : FortiParse
in_port = record forti_start {
  stack = record { section = "system interface"; edit = some "port1" } ∷ [];
}

abbrev http_line : String
http_line = "  set allowaccess ping HTTP"

http_line-IsCommand : IsCommand (strip http_line)
unfolding strip lower
http_line-IsCommand = (refl, refl, refl, refl, refl, refl)

http_tokens : split_words (strip http_line) ≡ ok ("set" ∷ "allowaccess" ∷ "ping" ∷ "HTTP" ∷ [])
unfolding strip words
http_tokens = refl

lower_set : (lower "set" ≡ "set") × (lower "allowaccess" ≡ "allowaccess")
unfolding lower
lower_set = (refl, refl)

has_http : member "http" (map lower ("ping" ∷ "HTTP" ∷ [])) ≡ true
unfolding lower
has_http = refl

allowaccess_http-IsVisible_example : IsVisible (
    forti_result printed (
      forti_lines printed split_words no_number listing untaught
        ((7, http_line) ∷ (8, "  set allowaccess https") ∷ (9, "end") ∷ [])
        in_port))
allowaccess_http-IsVisible_example =
    allowaccess_http-IsVisible printed split_words no_number listing untaught "port1" [] http_line
      "set" "allowaccess" "ping" ("HTTP" ∷ []) 7 in_port
      ((8, "  set allowaccess https") ∷ (9, "end") ∷ []) refl refl http_line-IsCommand http_tokens
      lower_set.0 lower_set.1 has_http
