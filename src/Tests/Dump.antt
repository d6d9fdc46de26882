-- ===== src/Tests/Dump.antt =====
-- Literals and a restore over a database that is a list of statements.
use Prim.Native.String.{◌++◌}
use cargobay.Prelude.{
  String, ◌≡◌, refl, true, none, some, List, [], ◌∷◌, Error, message, Result, ok, err, ◌⊎◌, ◌==◌,
  wrapping, if◌then◌else◌,
}
use cargobay.Database.Dump.{restored, restore_statements}
use cargobay.Database.Dump.Literals.{quote_sql_string, pg_text_array_literal}
use cargobay.Database.Dump.Quoting.{read_quoted, read_literal, read_literal-quote_sql_string}
use cargobay.Database.Dump.Arrays.{read_array, read_array-pg_text_array_literal}
use cargobay.Database.Dump.Restored.{in_order, restore_statements_lem}

no_quote : read_quoted true ", 1)" ≡ some ("", ", 1)")
unfolding read_quoted
no_quote = refl

read_literal-quote_sql_string_example :
    read_literal (quote_sql_string "it's ' all''" ++ ", 1)") ≡ some ("it's ' all''", ", 1)")
read_literal-quote_sql_string_example = read_literal-quote_sql_string "it's ' all''" ", 1)" no_quote

read_array-pg_text_array_literal_example :
    read_array (pg_text_array_literal ("a\"b\\" ∷ "" ∷ "{}" ∷ []))
    ≡ some ("a\"b\\" ∷ "" ∷ "{}" ∷ [])
read_array-pg_text_array_literal_example =
    read_array-pg_text_array_literal ("a\"b\\" ∷ "" ∷ "{}" ∷ [])

abbrev log : String → List String → Result (List String)
log statement tables =
    if statement == "bad" then err (message "syntax error") else ok (statement ∷ tables)

abbrev broken : List String
broken = "INSERT" ∷ "bad" ∷ []

restore_statements_lem_example :
    ((((restore_statements (List String) log broken ("old" ∷ []) (none ∷ none ∷ [])).2 ≡ none)
        × (in_order (List String) log broken ("old" ∷ [])
            ≡ ok (restore_statements (List String) log broken ("old" ∷ []) (none ∷ none ∷ [])).0))
      ⊎ ((e : Error) × ((restore_statements
              (List String)
              log
              broken
              ("old" ∷ [])
              (none ∷ none ∷ [])).2
            ≡ some e)
          × ((restore_statements (List String) log broken ("old" ∷ []) (none ∷ none ∷ [])).0
              ≡ ("old" ∷ []))))
    × (restore_statements (List String) log broken ("old" ∷ []) []
        ≡ restored ("old" ∷ []) (
          [],
          wrapping "restore statement failed" (in_order (List String) log broken ("old" ∷ [])),
        ))
restore_statements_lem_example =
    restore_statements_lem (List String) log broken ("old" ∷ []) (none ∷ none ∷ [])
