-- ===== src/Normalizer/Cisco/Traces.antt =====
-- Where the findings and the unknown lines of the IOS parser come from.
use valsec.Prelude.{
  ℕ, if-elim, if◌then◌else◌, is_some, ◌is◌, ◌∙◌, sym, arith, String, Option, none, some, List, [],
  ◌∷◌, All, All-append, Bool-cases, inl, inr, ◌≡◌, refl, is_blank, strip, not, ◌&&◌, contains,
}
use mathlib.Core.Path.{subst}
use mathlib.Core.List.{Mem, mem-cons_self, mem-cons_of_mem}
use valsec.Audit.{Parsed, UnknownLine}
use valsec.Normalizer.Lines.{numbered_lines, ends_with, after_words}
use valsec.Normalizer.Settings.{Setting, TextField}
use valsec.Normalizer.Cisco.Statements.{
  Section, top, setting_statement, line_statement, block_statement, is_console, context_setting,
  Statement, blank, separator, console, vty, other, banner, interface, scoped, global, statement_of,
}
use valsec.Normalizer.Cisco.Globals.{global_setting}
use valsec.Normalizer.Cisco.Parse.{
  section_text, LearnedMatch, Banner, Parse, fresh_parse, apply_match, open_lines, set_setting,
  banner_step, banner_start, carry_out, parse_line, step_under, parse_lines, parse,
}

-- The delimiter of the banner that a statement opens and does not end.
abbrev pub opening : Statement → Option String
opening blank = none
opening separator = none
opening console = none
opening vty = none
opening other = none
opening (banner field delimiter rest) =
    if not (is_blank delimiter) && contains delimiter rest then none else some delimiter
opening (interface name) = none
opening (scoped s) = none
opening (global s) = none

-- What is open behind a line of a banner: nothing if the line ends with the delimiter.
abbrev pub after_inside : String → String → Option String
after_inside delimiter raw = if ends_with (strip raw) delimiter then none else some delimiter

-- The lines that no banner swallows, with the delimiter of the banner that is open.
pub outside : Option String → List (ℕ × String) → List (ℕ × String)
outside opened [] = []
outside (some delimiter) ((n, raw) ∷ lines) = outside (after_inside delimiter raw) lines
outside none ((n, raw) ∷ lines) = (n, raw) ∷ outside (opening (statement_of top (strip raw))) lines

setting_statement-opening : (a b : Option Setting) → opening (setting_statement a b) ≡ none
setting_statement-opening none none = refl
setting_statement-opening none (some s) = refl
setting_statement-opening (some s) b = refl

line_statement-opening :
    (section : Section) (line : String) → opening (line_statement section line) ≡ none
unfolding line_statement
line_statement-opening section line =
    let None : Statement → Type 0 = λ s. opening s ≡ none in
    if-elim None (is_console line) refl (
      if-elim None (is_some (after_words ("line" ∷ "vty" ∷ []) line)) refl
        (setting_statement-opening (context_setting section line) (global_setting line)))

block_statement-opening :
    (b i n : Option String) (s t : Statement)
    → opening s ≡ none
    → opening t ≡ none
    → opening (block_statement b i n s) ≡ opening (block_statement b i n t)
unfolding block_statement
block_statement-opening (some r) i n s t p q = refl
block_statement-opening none (some r) n s t p q = refl
block_statement-opening none none (some name) s t p q = refl
block_statement-opening none none none s t p q = p ∙ sym q

-- Whether a line opens a banner does not depend on the section.
statement_of-opening :
    (section : Section) (line : String)
    → opening (statement_of section line) ≡ opening (statement_of top line)
unfolding statement_of
statement_of-opening section line = elim (Bool-cases (is_blank line)) [
  | inl e ↦ rw e refl
  | inr e ↦ elim (Bool-cases (line is "!")) [
    | inl k ↦ rw (e, k) refl
    | inr k ↦
        rw (e, k)
          (block_statement-opening (after_words ("banner" ∷ "motd" ∷ []) line)
            (after_words ("banner" ∷ "login" ∷ []) line) (after_words ("interface" ∷ []) line)
            (line_statement section line) (line_statement top line)
            (line_statement-opening section line) (line_statement-opening top line))
  ]
]

abbrev opened_in : Option Banner → Option String
opened_in none = none
opened_in (some b) = some b.delimiter

apply_match-opened :
    (m : Option LearnedMatch) (raw : String) (n : ℕ) (p : Parse)
    → opened_in p.open_banner ≡ none
    → opened_in (apply_match m raw n p).open_banner ≡ none
apply_match-opened none raw n p h = h
apply_match-opened (some m) raw n p h = h

module _ (Source : ℕ × String → Type 0) where
  abbrev pub ExplainedBy : Parsed → Type 0
  ExplainedBy f = Source (f.line_number, f.raw_source_line)

  abbrev pub LeftBy : UnknownLine → Type 0
  LeftBy u = Source (u.line_number, u.raw_source_line)

  abbrev OpenedBy : Option Banner → Type 0
  OpenedBy none = Unit
  OpenedBy (some b) = Source (b.start_line, b.start_raw)

  -- What a parse has recorded so far names lines of the source.
  abbrev IsTraced : Parse → Type 0
  IsTraced p = All ExplainedBy p.findings × All LeftBy p.unknown_lines × OpenedBy p.open_banner

  module _ (json : Setting → String)
      (resolve : String → ℕ → Option String → Option LearnedMatch) where
    set_setting-IsTraced :
        (s : Setting) (raw : String) (n : ℕ) (p : Parse)
        → Source (n, raw)
        → IsTraced p
        → IsTraced (set_setting json s raw n p)
    set_setting-IsTraced s raw n p here (found, left, opened) =
        (All-append ExplainedBy p.findings _ found (here, tt), left, opened)

    apply_match-IsTraced :
        (m : Option LearnedMatch) (raw : String) (n : ℕ) (p : Parse)
        → Source (n, raw)
        → IsTraced p
        → IsTraced (apply_match m raw n p)
    apply_match-IsTraced (some m) raw n p here (found, left, opened) =
        (All-append ExplainedBy p.findings _ found (here, tt), left, opened)
    apply_match-IsTraced none raw n p here (found, left, opened) =
        (found, All-append LeftBy p.unknown_lines _ left (here, tt), opened)

    banner_step-IsTraced :
        (b : Banner) (raw : String) (p : Parse)
        → p.open_banner ≡ some b
        → IsTraced p
        → IsTraced (banner_step json b raw p)
    unfolding banner_step
    banner_step-IsTraced b raw p e (found, left, opened) =
        let opener : Source (b.start_line, b.start_raw) = subst OpenedBy e opened in
        elim (Bool-cases (ends_with (strip raw) b.delimiter)) [
          | inl e ↦ rw e (All-append ExplainedBy p.findings _ found (opener, tt), left, tt)
          | inr e ↦ rw e (found, left, opener)
        ]

    banner_start-IsTraced :
        (field : TextField) (delimiter rest raw : String) (n : ℕ) (p : Parse)
        → Source (n, raw)
        → IsTraced p
        → IsTraced (banner_start json field delimiter rest raw n p)
    unfolding banner_start
    banner_start-IsTraced field delimiter rest raw n p here (found, left, opened) =
        elim (Bool-cases (not (is_blank delimiter) && contains delimiter rest)) [
          | inl e ↦ rw e (All-append ExplainedBy p.findings _ found (here, tt), left, opened)
          | inr e ↦ rw e (found, left, here)
        ]

    carry_out-IsTraced :
        (statement : Statement) (raw : String) (n : ℕ) (p : Parse)
        → Source (n, raw)
        → IsTraced p
        → IsTraced (carry_out json resolve statement raw n p)
    unfolding carry_out
    carry_out-IsTraced blank raw n p here h = h
    carry_out-IsTraced separator raw n p here h = h
    carry_out-IsTraced console raw n p here h = h
    carry_out-IsTraced vty raw n p here h = h
    carry_out-IsTraced (banner field delimiter rest) raw n p here h =
        banner_start-IsTraced field delimiter rest raw n p here h
    carry_out-IsTraced (interface name) raw n p here (found, left, opened) =
        (All-append ExplainedBy p.findings _ found (here, tt), left, opened)
    carry_out-IsTraced (scoped s) raw n p here h = set_setting-IsTraced s raw n p here h
    carry_out-IsTraced (global s) raw n p here h = set_setting-IsTraced s raw n p here h
    carry_out-IsTraced other raw n p here h = apply_match-IsTraced _ raw n p here h

    banner_step-opened :
        (b : Banner) (raw : String) (p : Parse)
        → opened_in (banner_step json b raw p).open_banner ≡ after_inside b.delimiter raw
    unfolding banner_step
    banner_step-opened b raw p = ground arith

    carry_out-opened :
        (statement : Statement) (raw : String) (n : ℕ) (p : Parse)
        → opened_in p.open_banner ≡ none
        → opened_in (carry_out json resolve statement raw n p).open_banner ≡ opening statement
    unfolding carry_out banner_start
    carry_out-opened blank raw n p h = h
    carry_out-opened separator raw n p h = h
    carry_out-opened console raw n p h = h
    carry_out-opened vty raw n p h = h
    carry_out-opened (banner field delimiter rest) raw n p h = ground arith
    carry_out-opened (interface name) raw n p h = h
    carry_out-opened (scoped s) raw n p h = h
    carry_out-opened (global s) raw n p h = h
    carry_out-opened other raw n p h =
        apply_match-opened (resolve raw n (section_text p.section)) raw n p h

    parse_lines-IsTraced :
        (lines : List (ℕ × String)) (p : Parse) (opened_by : Option Banner)
        → p.open_banner ≡ opened_by
        → All Source (outside (opened_in opened_by) lines)
        → IsTraced p
        → IsTraced (parse_lines json resolve lines p)
    unfolding parse_lines parse_line outside step_under
    parse_lines-IsTraced [] p opened_by e here h = h
    parse_lines-IsTraced ((n, raw) ∷ lines) p (some b) e here h = rw e (
        parse_lines-IsTraced lines (banner_step json b raw p) _ refl
          (rw (banner_step-opened b raw p) here) (banner_step-IsTraced b raw p e h))
    parse_lines-IsTraced ((n, raw) ∷ lines) p none e (here, later) h =
        let next = carry_out json resolve (statement_of p.section (strip raw)) raw n p in
        let opened =
          carry_out-opened (statement_of p.section (strip raw)) raw n p (rw e refl)
          ∙ statement_of-opening p.section (strip raw) in
        let stepped : IsTraced (parse_lines json resolve lines next) =
          parse_lines-IsTraced lines next _ refl (rw opened later)
            (carry_out-IsTraced (statement_of p.section (strip raw)) raw n p here h) in
        subst
          (λ o. IsTraced (parse_lines json resolve lines (step_under json resolve o (n, raw) p)))
          (sym e) stepped

    open_lines-LeftBy : (b : Option Banner) → OpenedBy b → All LeftBy (open_lines b)
    open_lines-LeftBy none h = tt
    open_lines-LeftBy (some b) h = (h, tt)

-- The pairs of a list are members of it.
All-Mem :
    (ls ks : List (ℕ × String)) → ((l : ℕ × String) → Mem l ls → Mem l ks) → All (λ l. Mem l ks) ls
All-Mem [] ks within = tt
All-Mem (l ∷ ls) ks within =
    (within l mem-cons_self, All-Mem ls ks (λ k k_in. within k (mem-cons_of_mem l k_in)))

-- Whatever the learned mappings are, every finding and every unknown line that the parser of IOS
-- returns has the number and the text of a line of the configuration that no banner swallows: the
-- line on which a banner starts counts, the lines up to the one that ends it do not.
pub parse-IsTraced :
    (json : Setting → String) (resolve : String → ℕ → Option String → Option LearnedMatch)
    (raw_config : String)
    → All
        (ExplainedBy (λ l. Mem l (outside none (numbered_lines raw_config))))
        (parse json resolve raw_config).findings
      × All
          (LeftBy (λ l. Mem l (outside none (numbered_lines raw_config))))
          (parse json resolve raw_config).unknown_lines
unfolding parse
parse-IsTraced json resolve raw_config =
    let lines = outside none (numbered_lines raw_config) in
    let Source = λ (l : ℕ × String). Mem l lines in
    let (found, left, opened) =
      parse_lines-IsTraced Source json resolve (numbered_lines raw_config) fresh_parse none refl
        (All-Mem lines lines (λ l l_in. l_in)) (tt, tt, tt) in
    (found, All-append (LeftBy Source) _ _ left (open_lines-LeftBy Source json resolve _ opened))
