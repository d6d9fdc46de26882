-- ===== src/Database/Dump/Arrays.antt =====
-- How PostgreSQL reads the items of an array from a text, and that it reads back what was written.
use Prim.Native.Char.{Char, code}
use Prim.Native.String.{◌∷◌, ◌++◌}
use text.Mathlib.TextLemmas.{nil-append, cons-append, append_assoc}
use cargobay.Prelude.{
  String, false, ◌≡◌, refl, ap, ◌∙◌, Option, none, some, List, eqb, eqb→eq, inl, inr, Bool-cases,
  if◌then◌else◌, map, ◌==◌,
}
use text.Mathlib.TextEquality.{Char-path}
use cargobay.Database.Dump.Literals.{
  replace_all, join, quote_item, double_quote, backslash, pg_text_array_literal,
}

-- where the reader stands
pub data Place : Type 0 where
  opened : Place
  item : Place
  escaped : Place
  closed : Place
  separated : Place

abbrev comma : Char
comma = ","

abbrev close_brace : Char
close_brace = "}"

-- a character in front of the first item
abbrev on_first : Char → Option (List String) → Option (List String)
on_first c none = none
on_first c (some List.[]) = none
on_first c (some (List.◌∷◌ s rest)) = some (List.◌∷◌ (c ∷ s) rest)

-- an item that has ended
abbrev ended : Option (List String) → Option (List String)
ended none = none
ended (some rest) = some (List.◌∷◌ "" rest)

abbrev finished : String → Option (List String)
finished s = if s == "" then some List.[] else none

-- the items behind an opening brace, each in double quotes
unfoldable pub read_items : Place → String → Option (List String)
read_items place String.[] = none
read_items opened (c ∷ s) =
    let inside = read_items item s in
    if eqb (code c) (code double_quote)
    then inside
    else (if eqb (code c) (code close_brace) then finished s else none)
read_items item (c ∷ s) =
    let behind = read_items closed s in
    let next = read_items escaped s in
    let inside = read_items item s in
    if eqb (code c) (code double_quote)
    then ended behind
    else (if eqb (code c) (code backslash) then next else on_first c inside)
read_items escaped (c ∷ s) = on_first c (read_items item s)
read_items closed (c ∷ s) =
    let next = read_items separated s in
    if eqb (code c) (code comma)
    then next
    else (if eqb (code c) (code close_brace) then finished s else none)
read_items separated (c ∷ s) =
    let inside = read_items item s in if eqb (code c) (code double_quote) then inside else none

-- an array in braces
unfoldable pub read_array : String → Option (List String)
unfolding read_items
read_array String.[] = none
read_array (c ∷ s) =
    let inside = read_items opened s in if eqb (code c) (code "{") then inside else none

abbrev escape : String → String
escape s = replace_all double_quote "\\\"" (replace_all backslash "\\\\" s)

-- two characters in front
pair : (c d : Char) (s : String) → (c ∷ (d ∷ "")) ++ s ≡ c ∷ (d ∷ s)
pair c d s =
    cons-append c (d ∷ "") s ∙ ap (λ t. c ∷ t) (cons-append d "" s ∙ ap (λ t. d ∷ t) (nil-append s))

one : (c : Char) (s : String) → (c ∷ "") ++ s ≡ c ∷ s
one c s = cons-append c "" s ∙ ap (λ t. c ∷ t) (nil-append s)

escape-backslash : (s : String) → escape (backslash ∷ s) ≡ backslash ∷ (backslash ∷ escape s)
unfolding replace_all
escape-backslash s =
    rw (pair backslash backslash (replace_all backslash "\\\\" s), replace_all) refl

escape-double_quote :
    (s : String) → escape (double_quote ∷ s) ≡ backslash ∷ (double_quote ∷ escape s)
unfolding replace_all
escape-double_quote s = pair backslash double_quote (escape s)

escape_other :
    (c : Char) (s : String)
    → eqb (code c) (code backslash) ≡ false
    → eqb (code c) (code double_quote) ≡ false
    → escape (c ∷ s) ≡ c ∷ escape s
unfolding replace_all
escape_other c s b q = rw (b, replace_all) (rw (q, replace_all) refl)

-- an item in front of what is read behind it
item_read :
    (s rest : String) (items : List String)
    → read_items closed rest ≡ some items
    → read_items item (escape s ++ ("\"" ++ rest)) ≡ some (List.◌∷◌ s items)
unfolding read_items replace_all
item_read String.[] rest items h =
    rw (nil-append ("\"" ++ rest), one double_quote rest) (ap ended h)
item_read (c ∷ s) rest items h =
    let ih = item_read s rest items h in
    let tail : String = escape s in
    let end : String = "\"" ++ rest in
    elim (Bool-cases (eqb (code c) (code backslash))) [
      | inl e ↦
          let same : c ≡ backslash = Char-path c backslash (eqb→eq (code c) (code backslash) e) in
          rw
            (
              same,
              escape-backslash s,
              cons-append backslash (backslash ∷ tail) end,
              cons-append backslash tail end,
            )
            (ap (on_first backslash) ih)
      | inr b ↦ elim (Bool-cases (eqb (code c) (code double_quote))) [
        | inl e ↦
            let same : c ≡ double_quote =
              Char-path c double_quote (eqb→eq (code c) (code double_quote) e) in
            rw
              (
                same,
                escape-double_quote s,
                cons-append backslash (double_quote ∷ tail) end,
                cons-append double_quote tail end,
              )
              (ap (on_first double_quote) ih)
        | inr q ↦ rw (escape_other c s b q, cons-append c tail end, q, b) (ap (on_first c) ih)
      ]
    ]

quote_item_behind :
    (s rest : String) → quote_item s ++ rest ≡ double_quote ∷ (escape s ++ ("\"" ++ rest))
unfolding quote_item
quote_item_behind s rest =
    rw
      (
        one double_quote (escape s ++ "\""),
        cons-append double_quote (escape s ++ "\"") rest,
        append_assoc (escape s) "\"" rest,
      )
      refl

-- the items behind the one that stands first
rest_read :
    (s : String) (items : List String)
    → (t : String) × (join "," (map quote_item (List.◌∷◌ s items)) ++ "}" ≡ quote_item s ++ t)
      × (read_items closed t ≡ some items)
unfolding read_items join
rest_read s List.[] = ("}", refl, refl)
rest_read s (List.◌∷◌ next items) =
    let (t, at, reads) = rest_read next items in
    let later : String = join "," (map quote_item (List.◌∷◌ next items)) in
    let behind : read_items separated (quote_item next ++ t) ≡ some (List.◌∷◌ next items) =
      rw (quote_item_behind next t) (item_read next t items reads) in
    (
      comma ∷ (later ++ "}"),
      rw
          (
            append_assoc (quote_item s) ("," ++ later) "}",
            one comma later,
            cons-append comma later "}",
          )
          refl,
      rw at behind,
    )

-- The literal of an array of texts is read back as these texts, whatever characters they hold.
pub read_array-pg_text_array_literal :
    (items : List String) → read_array (pg_text_array_literal items) ≡ some items
unfolding read_array read_items pg_text_array_literal join
read_array-pg_text_array_literal List.[] = refl
read_array-pg_text_array_literal (List.◌∷◌ s items) =
    let (t, at, reads) = rest_read s items in
    rw (one "{" (join "," (map quote_item (List.◌∷◌ s items)) ++ "}"), at, quote_item_behind s t)
      (item_read s t items reads)
