-- ===== src/Database/Dump/Quoting.antt =====
-- How PostgreSQL reads a literal in quotes, and that it reads the text back that was quoted.
use Prim.Native.Char.{Char, code}
use Prim.Native.String.{[], ◌∷◌, ◌++◌}
use text.Mathlib.TextLemmas.{nil-append, cons-append, append_assoc}
use cargobay.Prelude.{
  String, Bool, true, false, ◌≡◌, ap, ◌∙◌, Option, none, some, eqb, eqb→eq, inl, inr, Bool-cases,
  if◌then◌else◌,
}
use text.Mathlib.TextEquality.{Char-path}
use cargobay.Database.Dump.Literals.{replace_all, quote, quote_sql_string}

-- a character in front of the text of the literal
abbrev read_before : Char → Option (String × String) → Option (String × String)
read_before c none = none
read_before c (some (s, rest)) = some (c ∷ s, rest)

-- What stands in the literal, and what follows it; `closing` where the last character was a quote,
-- which ends the literal unless a second quote follows.
unfoldable pub read_quoted : Bool → String → Option (String × String)
read_quoted false [] = none
read_quoted false (c ∷ s) =
    let plain = read_quoted false s in
    let closed = read_quoted true s in
    if eqb (code c) (code quote) then closed else read_before c plain
read_quoted true [] = some ("", "")
read_quoted true (c ∷ s) =
    let plain = read_quoted false s in
    if eqb (code c) (code quote) then read_before quote plain else some ("", c ∷ s)

-- a literal at the start of a text
unfoldable pub read_literal : String → Option (String × String)
unfolding read_quoted
read_literal [] = none
read_literal (c ∷ s) =
    let inside = read_quoted false s in if eqb (code c) (code quote) then inside else none

two_quotes : (s : String) → "''" ++ s ≡ quote ∷ (quote ∷ s)
two_quotes s =
    cons-append quote "'" s
    ∙ ap (λ t. quote ∷ t) (cons-append quote "" s ∙ ap (λ t. quote ∷ t) (nil-append s))

one_quote : (s : String) → "'" ++ s ≡ quote ∷ s
one_quote s = cons-append quote "" s ∙ ap (λ t. quote ∷ t) (nil-append s)

inside :
    (s rest : String)
    → read_quoted true rest ≡ some ("", rest)
    → read_quoted false (replace_all quote "''" s ++ ("'" ++ rest)) ≡ some (s, rest)
unfolding read_quoted replace_all
inside [] rest h = rw (nil-append ("'" ++ rest), one_quote rest) h
inside (c ∷ s) rest h =
    let tail : String = replace_all quote "''" s in
    let ih : read_quoted false (tail ++ ("'" ++ rest)) ≡ some (s, rest) = inside s rest h in
    elim (Bool-cases (eqb (code c) (code quote))) [
      | inl e ↦
          let same : c ≡ quote = Char-path c quote (eqb→eq (code c) (code quote) e) in
          rw
            (
              e,
              two_quotes tail,
              cons-append quote (quote ∷ tail) ("'" ++ rest),
              cons-append quote tail ("'" ++ rest),
              same,
            )
            (ap (read_before quote) ih)
      | inr e ↦ rw (e, cons-append c tail ("'" ++ rest), e) (ap (read_before c) ih)
    ]

-- A text that is written as a literal is read back as it was, and the literal ends where it was
-- meant to: what follows it is left, provided that it does not begin with a quote.
pub read_literal-quote_sql_string :
    (s rest : String)
    → read_quoted true rest ≡ some ("", rest)
    → read_literal (quote_sql_string s ++ rest) ≡ some (s, rest)
unfolding read_literal quote_sql_string
read_literal-quote_sql_string s rest h =
    let body : String = replace_all quote "''" s in
    rw (one_quote (body ++ "'"), cons-append quote (body ++ "'") rest, append_assoc body "'" rest)
      (inside s rest h)
