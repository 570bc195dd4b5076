-- ===== src/Prelude/Text.antt =====
-- The methods of Python's `str` that the source calls, on texts of ASCII characters.
use Prim.Native.Nat.{ℕ, zero, suc, ◌-◌, ◌/◌, ◌%◌, Ordering}
use Prim.Native.Char.{Char, code}
use Prim.Native.String
use Prim.Native.String.{String}
use mathlib.Core.Bool.{Bool, true, false, ◌&&◌, ◌||◌}
use mathlib.Core.List.{List, [], ◌∷◌}
use text.Mathlib.Text
use valsec.Prelude.Tests.{leb, ◌==◌, if◌then◌else◌}
use valsec.Prelude.Lists.{any}

infix 50 ◌is◌
abbrev pub ◌is◌ : String → String → Bool
s is t = Text.◌==◌ s t

abbrev pub is_blank : String → Bool
is_blank String.[] = true
is_blank (String.◌∷◌ _ _) = false

-- `s in xs`
abbrev pub member : String → List String → Bool
member s xs = any (λ x. x is s) xs

nth : String → ℕ → Char → Char
nth String.[] n d = d
nth (String.◌∷◌ c s) zero d = c
nth (String.◌∷◌ c s) (suc n) d = nth s n d

unfoldable pub lower_char : Char → Char
unfolding nth
lower_char c =
    if leb b'A' (code c) && leb (code c) b'Z'
    then nth "abcdefghijklmnopqrstuvwxyz" (code c - b'A') c
    else c

-- `s.lower()`, which is `s.casefold()` too.
unfoldable pub lower : String → String
unfolding lower_char
lower String.[] = ""
lower (String.◌∷◌ c s) = String.◌∷◌ (lower_char c) (lower s)

-- The characters that `strip` removes: tab to carriage return, the separators 28 to 31, space.
unfoldable pub is_space : Char → Bool
is_space c =
    (leb 9 (code c) && leb (code c) 13) || (leb 28 (code c) && leb (code c) 31) || (code c == 32)

unfoldable pub lstrip : String → String
unfolding is_space
lstrip String.[] = ""
lstrip (String.◌∷◌ c s) = if is_space c then lstrip s else String.◌∷◌ c s

-- Drops the white space at the end: a character stays if it is none, or if any stays behind it.
rstrip : String → String
unfolding is_space
rstrip String.[] = ""
rstrip (String.◌∷◌ c s) =
    let rest = rstrip s in if is_space c && is_blank rest then "" else String.◌∷◌ c rest

unfoldable pub strip : String → String
unfolding lstrip rstrip
strip s = rstrip (lstrip s)

abbrev pub starts_with : String → String → Bool
starts_with s t = Text.starts_with s t

-- `t in s`
unfoldable pub contains : String → String → Bool
contains t String.[] = is_blank t
contains t (String.◌∷◌ c s) = starts_with (String.◌∷◌ c s) t || contains t s

-- `s.split(":", 1)[1]`, and the empty text where there is no colon.
unfoldable pub after_colon : String → String
after_colon String.[] = ""
after_colon (String.◌∷◌ c s) = if code c == b':' then s else after_colon s

abbrev pub concat : List String → String
concat [] = ""
concat (s ∷ ss) = String.◌++◌ s (concat ss)

-- `sep.join(xs)`
unfoldable pub join : String → List String → String
join sep [] = ""
join sep (s ∷ []) = s
join sep (s ∷ t ∷ ss) = String.◌++◌ s (String.◌++◌ sep (join sep (t ∷ ss)))

digit : ℕ → Char
unfolding nth
digit n = nth "0123456789" n "0"

show_digits : ℕ → ℕ → String → String
unfolding digit
show_digits zero n acc = acc
show_digits (suc f) n acc =
    let rest = show_digits f (n / 10) (String.◌∷◌ (digit (n % 10)) acc) in
    if n == 0 then acc else rest

-- `str(n)`: a number has at most as many digits as it counts.
unfoldable pub show : ℕ → String
unfolding show_digits
show n = if n == 0 then "0" else show_digits n n ""

-- Insertion into a list that is sorted by code points, where a text stands once.
insert_sorted : String → List String → List String
insert_sorted s [] = s ∷ []
insert_sorted s (t ∷ ts) = elim (String.compare s t) [
  | Ordering.lt ↦ s ∷ t ∷ ts
  | Ordering.eq ↦ t ∷ ts
  | Ordering.gt ↦ t ∷ insert_sorted s ts
]

-- `sorted(set(xs))`
unfoldable pub sorted_set : List String → List String
unfolding insert_sorted
sorted_set [] = []
sorted_set (s ∷ ss) = insert_sorted s (sorted_set ss)

-- `ord` of each character.
unfoldable pub codes : String → List ℕ
codes String.[] = []
codes (String.◌∷◌ c s) = code c ∷ codes s

-- `s.split(sep, 1)[0]` at a separator of one character.
unfoldable pub before : ℕ → String → String
before sep String.[] = ""
before sep (String.◌∷◌ c s) =
    let rest = before sep s in if code c == sep then "" else String.◌∷◌ c rest

abbrev pub cons_first : Char → List String → List String
cons_first c [] = String.◌∷◌ c "" ∷ []
cons_first c (s ∷ ss) = String.◌∷◌ c s ∷ ss

-- `s.split(sep)` at a separator of one character.
unfoldable pub split : ℕ → String → List String
split sep String.[] = "" ∷ []
split sep (String.◌∷◌ c s) =
    let rest = split sep s in if code c == sep then "" ∷ rest else cons_first c rest

-- The characters at which `splitlines` breaks.
unfoldable pub is_line_break : ℕ → Bool
is_line_break c =
    (leb 10 c && leb c 13) || ((leb 28 c && leb c 30) || (c == 133 || (c == 8232 || c == 8233)))

-- `s.splitlines()` up to empty lines: a break of two characters counts twice.
unfoldable pub split_lines : String → List String
unfolding is_line_break
split_lines String.[] = []
split_lines (String.◌∷◌ c s) =
    let rest = split_lines s in if is_line_break (code c) then "" ∷ rest else cons_first c rest

-- `s.split()` up to empty words, which `words` drops.
pieces : String → List String
unfolding is_space
pieces String.[] = []
pieces (String.◌∷◌ c s) = let rest = pieces s in if is_space c then "" ∷ rest else cons_first c rest

abbrev drop_blank : List String → List String
drop_blank [] = []
drop_blank (s ∷ ss) = if is_blank s then drop_blank ss else s ∷ drop_blank ss

-- `s.split()`
unfoldable pub words : String → List String
unfolding pieces
words s = drop_blank (pieces s)
