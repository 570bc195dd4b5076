-- ===== src/Push/Uci.antt =====
-- The one form of UCI command that is sent, `_UCI_MUTATION` (backend/connectors/ssh_push.py), on
-- character codes. Each piece of the pattern ends where the next one cannot begin before, so that the
-- longest run is the only match.
use valsec.Prelude.{
  ℕ, String, Bool, true, false, not, ◌&&◌, ◌||◌, List, [], ◌∷◌, any, all, is_empty, leb, ◌==◌,
  if◌then◌else◌, codes,
}

abbrev is_white : ℕ → Bool
is_white c = (leb 9 c && leb c 13) || (leb 28 c && leb c 31) || c == 32

abbrev is_alphanumeric : ℕ → Bool
is_alphanumeric c =
    (leb b'a' c && leb c b'z') || ((leb b'A' c && leb c b'Z') || (leb b'0' c && leb c b'9'))

abbrev one_of : String → ℕ → Bool
one_of text c = any (λ d. c == d) (codes text)

-- `[A-Za-z0-9_@.\[\]-]`
abbrev is_name_char : ℕ → Bool
is_name_char c = is_alphanumeric c || one_of "_@.[]-" c

-- `[A-Za-z0-9_./:@+,-]`
abbrev is_bare_char : ℕ → Bool
is_bare_char c = is_alphanumeric c || one_of "_./:@+,-" c

abbrev same_codes : List ℕ → List ℕ → Bool
same_codes [] [] = true
same_codes [] (d ∷ ds) = false
same_codes (c ∷ cs) [] = false
same_codes (c ∷ cs) (d ∷ ds) = c == d && same_codes cs ds

-- The longest run of such characters, and what follows it.
abbrev span : (ℕ → Bool) → List ℕ → List ℕ × List ℕ
span p [] = ([], [])
span p (c ∷ cs) = let (run, rest) = span p cs in if p c then (c ∷ run, rest) else ([], c ∷ cs)

-- What follows an opening quotation mark: a text without it, and the mark at the end.
abbrev closes : ℕ → List ℕ → Bool
closes q [] = false
closes q (c ∷ []) = c == q
closes q (c ∷ d ∷ cs) = not (c == q || (c == 10 || c == 13)) && closes q (d ∷ cs)

abbrev is_value : List ℕ → Bool
is_value [] = false
is_value (c ∷ cs) =
    if c == 39 || c == 34 then closes c cs else is_bare_char c && all is_bare_char cs

-- `(?:=…)?`
abbrev is_assignment : List ℕ → Bool
is_assignment [] = true
is_assignment (c ∷ cs) = c == b'=' && is_value cs

abbrev is_verb : List ℕ → Bool
is_verb word =
    any (λ verb. same_codes word (codes verb)) ("set" ∷ "add_list" ∷ "delete" ∷ "rename" ∷ [])

unfoldable pub is_uci_mutation : String → Bool
unfolding codes
is_uci_mutation text =
    let (first, after_first) = span (λ c. not (is_white c)) (codes text) in
    let (gap, after_gap) = span is_white after_first in
    let (verb, after_verb) = span (λ c. not (is_white c)) after_gap in
    let (space, after_space) = span is_white after_verb in
    let (name, value) = span is_name_char after_space in
    same_codes first (codes "uci")
    && (not (is_empty gap)
        && (is_verb verb && (not (is_empty space) && (not (is_empty name) && is_assignment value))))
