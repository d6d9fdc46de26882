-- ===== src/Prelude/Text.antt =====
-- What the program uses of the package strings, on texts: Cut at a character, CutPrefix and
-- CutSuffix.
use Prim.Native.Char.{Char, code}
use Prim.Native.String.{String, [], ◌∷◌, ◌++◌, count}
use Prim.Native.String.count
use mathlib.Core.Path.{◌≡◌, refl, ap, sym, subst, ◌∙◌}
use mathlib.Core.Logic.{inl, inr}
use mathlib.Core.Bool.{Bool, true, false}
use mathlib.Core.Option.{Option, none, some, some-injective}
use native.Mathlib.Omega.{arith}
use text.Mathlib.Text.{◌==◌}
use text.Mathlib.TextEquality.{eq_iff, Char-path}
use text.Mathlib.TextPositions.{eq_refl}
use text.Mathlib.TextLemmas.{nil-append, cons-append, length-append}
use cargobay.Prelude.Tests.{eqb, eqb→eq, Bool-cases, Option-cases, if◌then◌else◌}

-- a character in front of what is cut off
abbrev behind : Char → Option (String × String) → Option (String × String)
behind d none = none
behind d (some (before, after)) = some (d ∷ before, after)

-- strings.Cut(s, string(c)): what stands before and after the first c
unfoldable pub cut : Char → String → Option (String × String)
cut c [] = none
cut c (d ∷ s) = let rest = cut c s in if eqb (code d) (code c) then some ("", s) else behind d rest

-- strings.CutPrefix
unfoldable pub cut_prefix : String → String → Option String
cut_prefix [] s = some s
cut_prefix (c ∷ p) [] = none
cut_prefix (c ∷ p) (d ∷ s) =
    let rest = cut_prefix p s in if eqb (code c) (code d) then rest else none

abbrev consed : Char → Option String → Option String
consed c none = none
consed c (some s) = some (c ∷ s)

-- strings.CutSuffix
unfoldable pub cut_suffix : String → String → Option String
cut_suffix suffix [] = if suffix == "" then some "" else none
cut_suffix suffix (c ∷ s) =
    let rest = cut_suffix suffix s in if suffix == c ∷ s then some "" else consed c rest

-- what is cut off is the suffix
pub cut_suffix_sound :
    (suffix s : String) {t : String} → cut_suffix suffix s ≡ some t → s ≡ t ++ suffix
unfolding cut_suffix
cut_suffix_sound suffix [] {t} h = elim (Bool-cases (suffix == "")) [
  | inl e ↦
      let p : some "" ≡ some t = rw e at h in
      subst (λ x. "" ≡ x ++ suffix) (some-injective _ _ p)
        (sym ((eq_iff suffix "").0 e) ∙ sym (nil-append suffix))
  | inr e ↦ cc (rw e at h)
]
cut_suffix_sound suffix (c ∷ s) {t} h = elim (Bool-cases (suffix == c ∷ s)) [
  | inl e ↦
      let p : some "" ≡ some t = rw e at h in
      subst (λ x. c ∷ s ≡ x ++ suffix) (some-injective _ _ p)
        (sym ((eq_iff suffix (c ∷ s)).0 e) ∙ sym (nil-append suffix))
  | inr e ↦
      let h' : consed c (cut_suffix suffix s) ≡ some t = rw e at h in
      elim (Option-cases (cut_suffix suffix s)) [
        | inl n ↦ cc (rw n at h')
        | inr (u, n) ↦
            let p : some (c ∷ u) ≡ some t = rw n at h' in
            subst (λ x. c ∷ s ≡ x ++ suffix) (some-injective _ _ p)
              (ap (λ r. c ∷ r) (cut_suffix_sound suffix s n) ∙ sym (cons-append c u suffix))
      ]
]

cut_suffix_self : (s : String) → cut_suffix s s ≡ some ""
unfolding cut_suffix
cut_suffix_self [] = refl
cut_suffix_self (c ∷ s) = rw (eq_refl (c ∷ s))

longer : (c : Char) (t s : String) → (s == c ∷ (t ++ s)) ≡ false
longer c t s = elim (Bool-cases (s == c ∷ (t ++ s))) [
  | inl e ↦ absurd (
      omega
        (arith, ap count ((eq_iff s (c ∷ (t ++ s))).0 e), count.cons c (t ++ s), length-append t s))
  | inr e ↦ e
]

pub cut_suffix-append : (t suffix : String) → cut_suffix suffix (t ++ suffix) ≡ some t
unfolding cut_suffix
cut_suffix-append [] suffix = rw nil-append (cut_suffix_self suffix)
cut_suffix-append (c ∷ t) suffix =
    rw (cons-append c t suffix) (rw (longer c t suffix, cut_suffix-append t suffix))

-- what is left of a text after its prefix, if it has it: strings.TrimPrefix
abbrev pub trim_prefix : String → String → String
trim_prefix prefix s = elim (cut_prefix prefix s) [ none ↦ s | some t ↦ t ]

-- strings.TrimSuffix
abbrev pub trim_suffix : String → String → String
trim_suffix suffix s = elim (cut_suffix suffix s) [ none ↦ s | some t ↦ t ]

-- strings.HasPrefix
abbrev pub has_prefix : String → String → Bool
has_prefix prefix s = elim (cut_prefix prefix s) [ none ↦ false | some t ↦ true ]

-- what is cut off is the prefix
pub cut_prefix_sound :
    (prefix s : String) {t : String} → cut_prefix prefix s ≡ some t → s ≡ prefix ++ t
unfolding cut_prefix
cut_prefix_sound [] s {t} h = some-injective _ _ h ∙ sym (nil-append t)
cut_prefix_sound (c ∷ p) [] h = cc
cut_prefix_sound (c ∷ p) (d ∷ s) {t} h = elim (Bool-cases (eqb (code c) (code d))) [
  | inl e ↦
      let same : c ≡ d = Char-path c d (eqb→eq (code c) (code d) e) in
      let rest : s ≡ p ++ t = cut_prefix_sound p s (rw (e, cut_prefix) at h) in
      subst (λ x. x ∷ s ≡ (c ∷ p) ++ t) same (ap (λ r. c ∷ r) rest ∙ sym (cons-append c p t))
  | inr e ↦ cc (rw (e, cut_prefix) at h)
]
