-- ===== src/Normalizer/Lines.antt =====
-- The text of a configuration: its lines, and the forms of pattern that the parsers match on a
-- stripped line, case-insensitively.
use Prim.Native.Char.{code}
use Prim.Native.String as Text
use valsec.Prelude.{
  ℕ, ◌+◌, ◌-◌, ◌*◌, String, Bool, true, false, ◌&&◌, ◌||◌, Option, none, some, List, [], ◌∷◌, all,
  leb, ◌==◌, ◌is◌, is_blank, is_space, is_line_break, lower, lower_char, lstrip, starts_with, words,
  codes, cons_first, if◌then◌else◌,
}

-- The lines of `splitlines`; `cr` where a carriage return has just ended one.
unfoldable pub lines_from : Bool → String → List String
lines_from cr Text.[] = []
lines_from cr (Text.◌∷◌ c s) =
    let rest = lines_from (code c == 13) s in
    if cr && code c == 10
    then rest
    else if is_line_break (code c)
    then "" ∷ rest
    else cons_first c rest

-- `enumerate(raw_config.splitlines(), start=1)`
unfoldable pub number_from : ℕ → List String → List (ℕ × String)
number_from n [] = []
number_from n (line ∷ lines) = (n, line) ∷ number_from (n + 1) lines

unfoldable pub numbered_lines : String → List (ℕ × String)
numbered_lines raw_config = number_from 1 (lines_from false raw_config)

-- What follows a word in lower case.
unfoldable pub drop_word : String → String → Option String
unfolding lower_char
drop_word Text.[] s = some s
drop_word (Text.◌∷◌ c w) Text.[] = none
drop_word (Text.◌∷◌ c w) (Text.◌∷◌ d s) =
    let rest = drop_word w s in if code (lower_char d) == code c then rest else none

-- `\s+`
unfoldable pub skip_space : String → Option String
unfolding is_space lstrip
skip_space Text.[] = none
skip_space (Text.◌∷◌ c s) = if is_space c then some (lstrip s) else none

abbrev pub and_then {ℓ} : {A : Type ℓ} → Option String → (String → Option A) → Option A
and_then none f = none
and_then (some s) f = f s

-- `^word\s+…\s+`, and what follows. In a stripped line that is a text, which ends the line.
unfoldable pub after_words : List String → String → Option String
unfolding drop_word skip_space
after_words [] s = some s
after_words (w ∷ ws) s = and_then (drop_word w s) (λ r. and_then (skip_space r) (after_words ws))

abbrev pub same_words : List String → List String → Bool
same_words [] [] = true
same_words [] (v ∷ vs) = false
same_words (w ∷ ws) [] = false
same_words (w ∷ ws) (v ∷ vs) = (w is v) && same_words ws vs

-- `^word\s+…\s+word$`
unfoldable pub says : List String → String → Bool
unfolding words lower
says ws line = same_words (words (lower line)) ws

abbrev pub is_digit_code : ℕ → Bool
is_digit_code c = leb b'0' c && leb c b'9'

-- The value of a text of digits.
unfoldable pub value_from : ℕ → List ℕ → ℕ
value_from n [] = n
value_from n (c ∷ cs) = value_from (n * 10 + (c - b'0')) cs

-- `^\d+$`
unfoldable pub whole_number : String → Option ℕ
unfolding codes value_from
whole_number text =
    if is_blank text
    then none
    else if all is_digit_code (codes text)
    then some (value_from 0 (codes text))
    else none

-- `(\d+)` at the start of a text.
unfoldable pub leading_digits : List ℕ → List ℕ
leading_digits [] = []
leading_digits (c ∷ cs) = let rest = leading_digits cs in if is_digit_code c then c ∷ rest else []

abbrev pub value_of_digits : List ℕ → Option ℕ
value_of_digits [] = none
value_of_digits (c ∷ cs) = some (value_from 0 (c ∷ cs))

-- `s.endswith(t)` for a text that is not empty, and what stands before it.
unfoldable pub ends_with : String → String → Bool
ends_with Text.[] t = is_blank t
ends_with (Text.◌∷◌ c s) t = (Text.◌∷◌ c s is t) || ends_with s t

unfoldable pub before_end : String → String → String
before_end Text.[] t = ""
before_end (Text.◌∷◌ c s) t =
    let rest = before_end s t in if Text.◌∷◌ c s is t then "" else Text.◌∷◌ c rest

-- `s.partition(t)[0]`
unfoldable pub before_text : String → String → String
before_text Text.[] t = ""
before_text (Text.◌∷◌ c s) t =
    let rest = before_text s t in if starts_with (Text.◌∷◌ c s) t then "" else Text.◌∷◌ c rest

-- What follows the first characters, as many as a text has.
unfoldable pub drop_length : String → String → String
drop_length Text.[] s = s
drop_length (Text.◌∷◌ c t) Text.[] = ""
drop_length (Text.◌∷◌ c t) (Text.◌∷◌ d s) = drop_length t s
