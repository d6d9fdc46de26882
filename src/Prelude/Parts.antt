-- ===== src/Prelude/Parts.antt =====
-- strings.Split at a character, and the functions of strings that trim.
use Prim.Native.Char.{Char, code}
use Prim.Native.String.{String, ◌∷◌}
use mathlib.Core.Bool.{Bool, ◌||◌, ◌&&◌}
use mathlib.Core.List.{List}
use text.Mathlib.Text.{◌==◌}
use cargobay.Prelude.Tests.{eqb, leb, if◌then◌else◌}

-- a character in front of the first part
abbrev on_first : Char → List String → List String
on_first d List.[] = List.◌∷◌ (d ∷ "") List.[]
on_first d (List.◌∷◌ s rest) = List.◌∷◌ (d ∷ s) rest

-- strings.Split(s, string(c)): the parts between the occurrences of c, at least one
unfoldable pub split : Char → String → List String
split c String.[] = List.◌∷◌ "" List.[]
split c (d ∷ s) =
    let rest = split c s in if eqb (code d) (code c) then List.◌∷◌ "" rest else on_first d rest

-- what is left behind the leading characters that pass
unfoldable pub trim_left : (Char → Bool) → String → String
trim_left drops String.[] = ""
trim_left drops (c ∷ s) = let rest = trim_left drops s in if drops c then rest else c ∷ s

unfoldable pub trim_right : (Char → Bool) → String → String
trim_right drops String.[] = ""
trim_right drops (c ∷ s) =
    let rest = trim_right drops s in
    if rest == "" then (if drops c then "" else c ∷ "") else c ∷ rest

-- what strings.TrimSpace takes for a space: the white space of ASCII and Latin-1, and that of Unicode
abbrev pub is_space : Char → Bool
is_space c =
    let n = code c in
    (leb 9 n && leb n 13)
    || eqb n 32
    || eqb n 133
    || eqb n 160
    || eqb n 5760
    || (leb 8192 n && leb n 8202)
    || eqb n 8232
    || eqb n 8233
    || eqb n 8239
    || eqb n 8287
    || eqb n 12288

unfoldable pub trim_space : String → String
unfolding trim_left trim_right
trim_space s = trim_right is_space (trim_left is_space s)
