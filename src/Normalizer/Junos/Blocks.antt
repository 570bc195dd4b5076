-- ===== src/Normalizer/Junos/Blocks.antt =====
-- `_statements` of backend/normalizer/juniper_junos.py: the lines with the names of the blocks
-- around them.
use Prim.Native.Char.{code}
use Prim.Native.String as Text
use valsec.Prelude.{
  ℕ, String, Bool, ◌&&◌, ◌||◌, Option, none, some, List, [], ◌∷◌, ◌++◌, any, ◌==◌, is_blank, member,
  strip, starts_with, join, if◌then◌else◌,
}
use valsec.Normalizer.Lines.{ends_with, before_end}

pub record JunosStatement : Type 0 where
  pub command : String
  pub raw_source_line : String
  pub line_number : ℕ
  pub context : Option String

-- The lines in the order of the tests.
pub data Line : Type 0 where
  skipped closing : Line
  opening flat entry : String → Line

-- `s.rstrip(";")`
unfoldable pub drop_semicolons : String → String
drop_semicolons Text.[] = ""
drop_semicolons (Text.◌∷◌ c s) =
    let rest = drop_semicolons s in
    if (code c == b';') && is_blank rest then "" else Text.◌∷◌ c rest

abbrev pub starts_any : List String → String → Bool
starts_any prefixes s = any (starts_with s) prefixes

abbrev pub actions : List String
actions = "set " ∷ "delete " ∷ "deactivate " ∷ []

-- A stripped line. Unfamiliar syntax is an entry too.
unfoldable pub line_of : String → Line
unfolding drop_semicolons ends_with before_end strip
line_of stripped =
    if is_blank stripped || starts_any ("#" ∷ "/*" ∷ "*" ∷ []) stripped
    then skipped
    else if member stripped ("}" ∷ "};" ∷ [])
    then closing
    else if ends_with stripped "{"
    then opening (strip (before_end stripped "{"))
    else if starts_any actions stripped
    then flat (drop_semicolons stripped)
    else if ends_with stripped ";"
    then entry (strip (before_end stripped ";"))
    else entry stripped

-- `stack.pop()`, of a stack that may be empty.
abbrev pub pop : List String → List String
pop [] = []
pop (x ∷ []) = []
pop (x ∷ y ∷ ys) = x ∷ pop (y ∷ ys)

-- `" ".join(stack) or None`
unfoldable pub stack_context : List String → Option String
unfolding join
stack_context stack = if is_blank (join " " stack) then none else some (join " " stack)

abbrev pub statement_at : String → Option String → ℕ × String → JunosStatement
statement_at command context (n, raw) = record {
  command = command;
  raw_source_line = raw;
  line_number = n;
  context = context;
}

-- The stack and the statement that a line leaves.
unfoldable pub place_line : Line → ℕ × String → List String → List String × List JunosStatement
unfolding join stack_context
place_line skipped line stack = (stack, [])
place_line closing line stack = (pop stack, [])
place_line (opening name) line stack = (stack ++ name ∷ [], [])
place_line (flat command) line stack = (stack, statement_at command none line ∷ [])
place_line (entry text) line stack =
    (stack, statement_at (join " " (stack ++ text ∷ [])) (stack_context stack) line ∷ [])

unfoldable pub statements_from : List String → List (ℕ × String) → List JunosStatement
unfolding place_line line_of strip
statements_from stack [] = []
statements_from stack ((n, raw) ∷ lines) =
    let (inner, placed) = place_line (line_of (strip raw)) (n, raw) stack in
    placed ++ statements_from inner lines
