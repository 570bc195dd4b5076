-- ===== src/Normalizer/Junos/Nesting.antt =====
-- The stack of `_statements` (backend/normalizer/juniper_junos.py) against the nesting of a
-- configuration: blocks as a forest, whose statements carry the names of the blocks around them.
use valsec.Prelude.{
  ℕ, String, none, List, [], ◌∷◌, ◌++◌, append_assoc, append-nil, ◌≡◌, refl, sym, ap, ◌∙◌, strip,
  join,
}
use valsec.Normalizer.Junos.Blocks.{
  JunosStatement, Line, skipped, closing, opening, flat, entry, line_of, pop, stack_context,
  statement_at, place_line, statements_from,
}

-- A configuration: its first line, or block with the line that closes it, and what follows.
pub data Forest : Type 0 where
  ends : Forest
  comment : ℕ × String → Forest → Forest
  command : ℕ × String → String → Forest → Forest
  leaf : ℕ × String → String → Forest → Forest
  block : ℕ × String → String → Forest → ℕ × String → Forest → Forest

abbrev reads : ℕ × String → Line
reads (n, raw) = line_of (strip raw)

-- Each line is what the forest says.
abbrev pub IsShaped : Forest → Type 0
IsShaped ends = Unit
IsShaped (comment line rest) = (reads line ≡ skipped) × IsShaped rest
IsShaped (command line text rest) = (reads line ≡ flat text) × IsShaped rest
IsShaped (leaf line text rest) = (reads line ≡ entry text) × IsShaped rest
IsShaped (block line name inner last rest) =
    (reads line ≡ opening name) × IsShaped inner × (reads last ≡ closing) × IsShaped rest

abbrev pub forest_lines : Forest → List (ℕ × String)
forest_lines ends = []
forest_lines (comment line rest) = line ∷ forest_lines rest
forest_lines (command line text rest) = line ∷ forest_lines rest
forest_lines (leaf line text rest) = line ∷ forest_lines rest
forest_lines (block line name inner last rest) =
    line ∷ (forest_lines inner ++ last ∷ forest_lines rest)

-- The statements by recursion on the nesting, without a stack that is popped.
abbrev pub forest_statements : List String → Forest → List JunosStatement
forest_statements path ends = []
forest_statements path (comment line rest) = forest_statements path rest
forest_statements path (command line text rest) =
    statement_at text none line ∷ forest_statements path rest
forest_statements path (leaf line text rest) =
    statement_at (join " " (path ++ text ∷ [])) (stack_context path) line
    ∷ forest_statements path rest
forest_statements path (block line name inner last rest) =
    forest_statements (path ++ name ∷ []) inner ++ forest_statements path rest

pop-append : (path : List String) (name : String) → pop (path ++ name ∷ []) ≡ path
pop-append [] name = refl
pop-append (x ∷ []) name = refl
pop-append (x ∷ y ∷ path) name = ap (λ rest. x ∷ rest) (pop-append (y ∷ path) name)

-- The statements of the lines after one that is known.
after_line :
    (line : ℕ × String) (read : Line) (stack : List String) (lines : List (ℕ × String))
    → reads line ≡ read
    → statements_from stack (line ∷ lines)
      ≡ (place_line read line stack).1 ++ statements_from (place_line read line stack).0 lines
unfolding statements_from
after_line (n, raw) read stack lines e =
    ap
      (λ (l : Line).
        (place_line l (n, raw) stack).1 ++ statements_from (place_line l (n, raw) stack).0 lines)
      e

nested :
    (forest : Forest) (path : List String) (after : List (ℕ × String))
    → IsShaped forest
    → statements_from path (forest_lines forest ++ after)
      ≡ forest_statements path forest ++ statements_from path after
unfolding place_line
nested ends path after shaped = refl
nested (comment line rest) path after (here, shaped) =
    after_line line skipped path _ here ∙ nested rest path after shaped
nested (command line text rest) path after (here, shaped) =
    after_line line (flat text) path _ here
    ∙ ap (λ ss. statement_at text none line ∷ ss) (nested rest path after shaped)
nested (leaf line text rest) path after (here, shaped) =
    after_line line (entry text) path _ here
    ∙ ap (λ ss. statement_at (join " " (path ++ text ∷ [])) (stack_context path) line ∷ ss)
        (nested rest path after shaped)
nested (block line name inner last rest) path after (here, inside, closed, shaped) =
    let deeper = path ++ name ∷ [] in
    let behind = forest_lines rest ++ after in
    let outer = nested rest path after shaped in
    let back = after_line last closing deeper behind closed in
    let entered = nested inner deeper (last ∷ behind) inside in
    ap (λ lines. statements_from path (line ∷ lines))
      (append_assoc (forest_lines inner) (last ∷ forest_lines rest) after)
    ∙ after_line line (opening name) path _ here
    ∙ entered
    ∙ ap (λ ss. forest_statements deeper inner ++ ss)
        (back ∙ ap (λ stack. statements_from stack behind) (pop-append path name) ∙ outer)
    ∙ sym (append_assoc (forest_statements deeper inner) (forest_statements path rest) _)

-- The stack of the parser follows the nesting: for every forest of comments, commands, entries
-- and blocks, the statements of its lines are those that recursion on the nesting gives, each
-- entry behind the names of the blocks around it.
pub statements_from-nested :
    (forest : Forest)
    → IsShaped forest
    → statements_from [] (forest_lines forest) ≡ forest_statements [] forest
unfolding statements_from
statements_from-nested forest shaped =
    ap (statements_from []) (sym (append-nil (forest_lines forest)))
    ∙ nested forest [] [] shaped
    ∙ append-nil (forest_statements [] forest)
