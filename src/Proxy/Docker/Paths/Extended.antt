-- ===== src/Proxy/Docker/Paths/Extended.antt =====
-- What becomes of the last place to split at, where a text goes on with a character that the
-- separator does not have.
use Prim.Native.Char.{Char, code}
use Prim.Native.String.{[], ◌∷◌, ◌++◌}
use cargobay.Prelude.{
  String, Bool, true, false, not, ◌&&◌, ◌≡◌, refl, sym, ap, subst, ◌∙◌, Option, none, some, arith,
  eqb, inl, inr, Bool-cases, Option-cases,
}
use text.Mathlib.TextLemmas.{nil-append, cons-append}
use cargobay.Prelude.Text.{cut_prefix}
use cargobay.Proxy.Docker.Paths.{split_at_last}

-- the character is none of the text's
abbrev pub IsApart : Char → String → Type 0
IsApart c [] = Unit
IsApart c (d ∷ s) = (eqb (code d) (code c) ≡ false) × IsApart c s

abbrev pub is_apart : Char → String → Bool
is_apart c [] = true
is_apart c (d ∷ s) = not (eqb (code d) (code c)) && is_apart c s

pub is_apart_sound : (c : Char) (s : String) → is_apart c s ≡ true → IsApart c s
is_apart_sound c [] h = tt
is_apart_sound c (d ∷ s) h = (ground arith, is_apart_sound c s (ground arith))

module _ (c : Char) (s : String) where
  -- a split of a text, with the rest behind it
  abbrev pub longer : Option (String × String) → Option (String × String)
  longer none = none
  longer (some (before, after)) = some (before, after ++ (c ∷ s))

  abbrev longer_rest : Option String → Option String
  longer_rest none = none
  longer_rest (some after) = some (after ++ (c ∷ s))

  cut_prefix-extended :
      (p u : String) → IsApart c p → cut_prefix p (u ++ (c ∷ s)) ≡ longer_rest (cut_prefix p u)
  unfolding cut_prefix
  cut_prefix-extended [] u apart = refl
  cut_prefix-extended (d ∷ p) [] apart = rw (nil-append (c ∷ s)) (rw (apart.0, cut_prefix) refl)
  cut_prefix-extended (d ∷ p) (e ∷ u) apart =
      let ih = cut_prefix-extended p u apart.1 in
      rw (cons-append e u (c ∷ s)) (elim (Bool-cases (eqb (code d) (code e))) [
        | inl same ↦ rw (same, cut_prefix) ih
        | inr other ↦ rw (other, cut_prefix) refl
      ])

  -- a round of the search, by what the rest and the prefix give
  abbrev round : Char → Option (String × String) → Option String → Option (String × String)
  round d (some (before, after)) start = some (d ∷ before, after)
  round d none (some after) = some ("", after)
  round d none none = none

  one_round :
      (p t : String) (d : Char)
      → split_at_last p (d ∷ t) ≡ round d (split_at_last p t) (cut_prefix p (d ∷ t))
  unfolding split_at_last
  one_round p t d = elim (Option-cases (split_at_last p t)) [
    | inr (found, e) ↦ rw (e, split_at_last) refl
    | inl e ↦ elim (Option-cases (cut_prefix p (d ∷ t))) [
      | inl f ↦ rw (e, f, split_at_last) refl
      | inr (after, f) ↦ rw (e, f, split_at_last) refl
    ]
  ]

  round-longer :
      (d : Char) (found : Option (String × String)) (start : Option String)
      → round d (longer found) (longer_rest start) ≡ longer (round d found start)
  round-longer d (some (before, after)) start = refl
  round-longer d none (some after) = refl
  round-longer d none none = refl

  pub split_at_last-extended :
      (p u : String)
      → IsApart c p
      → split_at_last p (c ∷ s) ≡ none
      → split_at_last p (u ++ (c ∷ s)) ≡ longer (split_at_last p u)
  unfolding split_at_last
  split_at_last-extended p [] apart h = rw (nil-append (c ∷ s)) h
  split_at_last-extended p (d ∷ u) apart h =
      let ih : split_at_last p (u ++ (c ∷ s)) ≡ longer (split_at_last p u) =
        split_at_last-extended p u apart h in
      let starts : cut_prefix p (d ∷ (u ++ (c ∷ s))) ≡ longer_rest (cut_prefix p (d ∷ u)) =
        subst (λ t. cut_prefix p t ≡ longer_rest (cut_prefix p (d ∷ u))) (cons-append d u (c ∷ s))
          (cut_prefix-extended p (d ∷ u) apart) in
      ap (split_at_last p) (cons-append d u (c ∷ s))
      ∙ one_round p (u ++ (c ∷ s)) d
      ∙ ap (λ found. round d found (cut_prefix p (d ∷ (u ++ (c ∷ s))))) ih
      ∙ ap (round d (longer (split_at_last p u))) starts
      ∙ round-longer d (split_at_last p u) (cut_prefix p (d ∷ u))
      ∙ ap longer (sym (one_round p u d))
