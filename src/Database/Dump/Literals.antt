-- ===== src/Database/Dump/Literals.antt =====
-- The literals of SQL that a dump of database.go is written with. `format_int`, `format_float`,
-- `format_time` and `marshal` stand for strconv, for time.Format in UTC and for encoding/json, whose
-- values `A` are; `F` are the floating-point numbers.
use Prim.Native.Char.{Char, code}
use Prim.Native.String.{◌∷◌, ◌++◌}
use cargobay.Prelude.{ℕ, String, Bool, true, false, List, Result, ok, err, eqb, if◌then◌else◌, map}

-- strings.ReplaceAll(s, string(c), by)
unfoldable pub replace_all : Char → String → String → String
replace_all c by String.[] = ""
replace_all c by (d ∷ s) =
    let rest = replace_all c by s in if eqb (code d) (code c) then by ++ rest else d ∷ rest

-- strings.Join
unfoldable pub join : String → List String → String
join separator List.[] = ""
join separator (List.◌∷◌ s List.[]) = s
join separator (List.◌∷◌ s (List.◌∷◌ t rest)) = s ++ (separator ++ join separator (List.◌∷◌ t rest))

abbrev pub quote : Char
quote = "'"

abbrev pub double_quote : Char
double_quote = "\""

abbrev pub backslash : Char
backslash = "\\"

unfoldable pub quote_sql_string : String → String
unfolding replace_all
quote_sql_string s = "'" ++ (replace_all quote "''" s ++ "'")

-- an item of pgTextArrayLiteral
unfoldable pub quote_item : String → String
unfolding replace_all
quote_item item =
    "\"" ++ (replace_all double_quote "\\\"" (replace_all backslash "\\\\" item) ++ "\"")

unfoldable pub pg_text_array_literal : List String → String
unfolding join quote_item
pg_text_array_literal items = "{" ++ (join "," (map quote_item items) ++ "}")

pub data ℤ : Type 0 where
  pos : ℕ → ℤ
  negsuc : ℕ → ℤ

-- what pgx makes of a column
pub data Value (F A : Type 0) : Type 0 where
  nil : Value F A
  boolean : Bool → Value F A
  text : String → Value F A
  bytes : String → Value F A
  int16 : ℤ → Value F A
  int32 : ℤ → Value F A
  int64 : ℤ → Value F A
  int : ℤ → Value F A
  float32 : F → Value F A
  float64 : F → Value F A
  time : ℕ → Value F A
  texts : List String → Value F A
  other : A → Value F A

module _ (F A : Type 0) (format_int : ℤ → String) (format_float : ℕ → F → String)
    (format_time : ℕ → String) (marshal : A → Result String) where
  unfoldable pub sql_literal : Value F A → String
  unfolding quote_sql_string pg_text_array_literal
  sql_literal nil = "NULL"
  sql_literal (boolean true) = "TRUE"
  sql_literal (boolean false) = "FALSE"
  sql_literal (text s) = quote_sql_string s
  sql_literal (bytes s) = quote_sql_string s
  sql_literal (int16 n) = format_int n
  sql_literal (int32 n) = format_int n
  sql_literal (int64 n) = format_int n
  sql_literal (int n) = format_int n
  sql_literal (float32 x) = format_float 32 x
  sql_literal (float64 x) = format_float 64 x
  sql_literal (time t) = quote_sql_string (format_time t)
  sql_literal (texts items) = quote_sql_string (pg_text_array_literal items)
  sql_literal (other v) = elim (marshal v) [
    | err e ↦ "NULL"
    | ok encoded ↦ quote_sql_string encoded
  ]
