-- ===== src/Proxy/Docker/Paths/Splitting.antt =====
-- What the parts of a path are.
use Prim.Native.Char.{Char, code}
use Prim.Native.String.{[], ◌∷◌, ◌++◌}
use cargobay.Prelude.{
  String, false, ◌≡◌, refl, sym, ap, subst, ◌∙◌, Option, none, some, arith, eqb, inl, inr,
  Bool-cases, Option-cases,
}
use text.Mathlib.TextLemmas.{nil-append, cons-append, append_assoc}
use cargobay.Prelude.Text.{cut, cut_prefix}
use cargobay.Proxy.Docker.Paths.Extended.{IsApart, is_apart_sound, longer, split_at_last-extended}
use cargobay.Proxy.Docker.Paths.{
  Route, split_at_last, manifest, upload, route_read, route_head, route_delete, route_patch,
  route_put,
}

abbrev slash : Char
slash = "/"

-- no slash in a text
abbrev pub HasNoSlash : String → Type 0
HasNoSlash s = cut "/" s ≡ none

-- of a text with a character in front
no_slash_tail :
    (c : Char) (s : String)
    → HasNoSlash (c ∷ s)
    → (eqb (code c) (code slash) ≡ false) × HasNoSlash s
unfolding cut
no_slash_tail c s h = elim (Bool-cases (eqb (code c) (code slash))) [
  | inl e ↦ cc (rw (e, cut) at h)
  | inr e ↦ elim (Option-cases (cut "/" s)) [
    | inl n ↦ (e, n)
    | inr ((b, a), n) ↦ cc (rw (e, n, cut) at h)
  ]
]

-- what begins with a slash is not a prefix
not_prefix :
    (p : String) (c : Char) (s : String)
    → eqb (code c) (code slash) ≡ false
    → cut_prefix (slash ∷ p) (c ∷ s) ≡ none
unfolding cut_prefix
not_prefix p c s h = ground arith

-- a part without a slash in front adds no place to split at
skips :
    (p u s : String)
    → HasNoSlash u
    → split_at_last (slash ∷ p) s ≡ none
    → split_at_last (slash ∷ p) (u ++ s) ≡ none
unfolding split_at_last
skips p [] s n h = rw (nil-append s) h
skips p (c ∷ u) s n h =
    let (other, rest) = no_slash_tail c u n in
    let ih = skips p u s rest h in
    rw (cons-append c u s, ih, not_prefix p c (u ++ s) other, split_at_last) refl

-- a text without a slash has no prefix with one
slashless : (mid q s : String) → HasNoSlash s → cut_prefix (mid ++ (slash ∷ q)) s ≡ none
unfolding cut_prefix
slashless [] q [] n = rw (nil-append (slash ∷ q)) refl
slashless [] q (c ∷ s) n = rw (nil-append (slash ∷ q)) (not_prefix q c s (no_slash_tail c s n).0)
slashless (d ∷ mid) q [] n = rw (cons-append d mid (slash ∷ q)) refl
slashless (d ∷ mid) q (c ∷ s) n =
    rw (cons-append d mid (slash ∷ q)) (ground (arith, slashless mid q s (no_slash_tail c s n).1))

-- a text without a slash is not split
unsplit : (p s : String) → HasNoSlash s → split_at_last (slash ∷ p) s ≡ none
unfolding split_at_last
unsplit p [] n = refl
unsplit p (c ∷ s) n =
    let (other, rest) = no_slash_tail c s n in
    rw (unsplit p s rest, not_prefix p c s other, split_at_last) refl

-- at a slash where the rest of the separator does not stand
passes :
    (p s : String)
    → split_at_last (slash ∷ p) s ≡ none
    → cut_prefix p s ≡ none
    → split_at_last (slash ∷ p) (slash ∷ s) ≡ none
unfolding split_at_last cut_prefix
passes p s h e = rw (h, e, split_at_last, cut_prefix) refl

cut_prefix-append : (p s : String) → cut_prefix p (p ++ s) ≡ some s
unfolding cut_prefix
cut_prefix-append [] s = rw (nil-append s) refl
cut_prefix-append (c ∷ p) s = rw (cons-append c p s) (ground (arith, cut_prefix-append p s))

-- a path that was put together is split into its parts
splits :
    (p repository reference : String)
    → split_at_last (slash ∷ p) (p ++ reference) ≡ none
    → split_at_last (slash ∷ p) (repository ++ (slash ∷ (p ++ reference)))
      ≡ some (repository, reference)
unfolding split_at_last cut_prefix
splits p [] reference h =
    rw (nil-append (slash ∷ (p ++ reference)))
      (rw (h, cut_prefix-append p reference, split_at_last, cut_prefix) refl)
splits p (c ∷ repository) reference h =
    rw (cons-append c repository (slash ∷ (p ++ reference)))
      (rw (splits p repository reference h, split_at_last) refl)

splits_at :
    (p repository reference : String)
    → split_at_last (slash ∷ p) (p ++ reference) ≡ none
    → split_at_last (slash ∷ p) (repository ++ ((slash ∷ p) ++ reference))
      ≡ some (repository, reference)
splits_at p repository reference h =
    rw (cons-append slash p reference) (splits p repository reference h)

-- a slash at the end of the first of two parts
slash_between : (u s : String) → (u ++ "/") ++ s ≡ u ++ (slash ∷ s)
slash_between u s =
    append_assoc u "/" s
    ∙ ap (λ t. u ++ t) (cons-append slash "" s ∙ ap (λ t. slash ∷ t) (nil-append s))

module _ (reference : String) (n : HasNoSlash reference) where
  manifests_once : split_at_last "/manifests/" ("manifests/" ++ reference) ≡ none
  unfolding cut
  manifests_once = rw (slash_between "manifests" reference) (
      skips "manifests/" "manifests" (slash ∷ reference) refl (
        passes "manifests/" reference (unsplit "manifests/" reference n)
          (slashless "manifests" "" reference n)))

  uploads_once : split_at_last "/blobs/uploads/" ("blobs/uploads/" ++ reference) ≡ none
  unfolding cut cut_prefix
  uploads_once =
      let p : String = "blobs/uploads/" in
      let apart : "blobs/uploads" ++ (slash ∷ reference)
          ≡ "blobs" ++ (slash ∷ ("uploads" ++ (slash ∷ reference))) =
        append_assoc "blobs/" "uploads" (slash ∷ reference)
        ∙ slash_between "blobs" ("uploads" ++ (slash ∷ reference)) in
      let ends : split_at_last "/blobs/uploads/" (slash ∷ reference) ≡ none =
        passes p reference (unsplit p reference n) (slashless "blobs" "uploads/" reference n) in
      let middle : split_at_last "/blobs/uploads/" ("uploads" ++ (slash ∷ reference)) ≡ none =
        skips p "uploads" (slash ∷ reference) refl ends in
      let starts : split_at_last "/blobs/uploads/" (slash ∷ ("uploads" ++ (slash ∷ reference)))
          ≡ none =
        passes p ("uploads" ++ (slash ∷ reference)) middle
          (rw (cons-append "u" "ploads" (slash ∷ reference), cut_prefix) refl) in
      rw (slash_between "blobs/uploads" reference, apart)
        (skips p "blobs" (slash ∷ ("uploads" ++ (slash ∷ reference))) refl starts)

-- where a manifest that is put goes, by the place of "/blobs/uploads/" in front of it
abbrev pub manifest_or_upload : String → String → Option (String × String) → Route
manifest_or_upload repository reference none = manifest repository reference
manifest_or_upload repository reference (some (before, after)) =
    upload before (after ++ ("manifests/" ++ reference))

spelled-IsApart : IsApart "m" "/blobs/uploads/"
spelled-IsApart = is_apart_sound "m" "/blobs/uploads/" refl

-- the place of "/blobs/uploads/" in the path of a manifest
uploads_before :
    (repository reference : String)
    → HasNoSlash reference
    → split_at_last "/blobs/uploads/" (repository ++ ("/manifests/" ++ reference))
      ≡ longer "m" ("anifests/" ++ reference) (split_at_last "/blobs/uploads/" (repository ++ "/"))
unfolding cut cut_prefix
uploads_before repository reference n =
    let none_behind : split_at_last "/blobs/uploads/" ("manifests" ++ (slash ∷ reference)) ≡ none =
      skips "blobs/uploads/" "manifests" (slash ∷ reference) refl (
        passes "blobs/uploads/" reference (unsplit "blobs/uploads/" reference n)
          (slashless "blobs" "uploads/" reference n)) in
    let rest : String = "anifests/" ++ reference in
    let head : "manifests/" ++ reference ≡ "m" ∷ rest = cons-append "m" "anifests/" reference in
    let apart : split_at_last "/blobs/uploads/" ("m" ∷ rest) ≡ none =
      subst (λ t. split_at_last "/blobs/uploads/" t ≡ none)
        (sym (slash_between "manifests" reference) ∙ head) none_behind in
    let path : (repository ++ "/") ++ ("m" ∷ rest) ≡ repository ++ ("/manifests/" ++ reference) =
      slash_between repository ("m" ∷ rest)
      ∙ ap (λ t. repository ++ t)
          (sym (cons-append slash "manifests/" reference ∙ ap (λ t. slash ∷ t) head)) in
    subst
      (λ t.
        split_at_last "/blobs/uploads/" t
        ≡ longer "m" rest (split_at_last "/blobs/uploads/" (repository ++ "/")))
      path
      (split_at_last-extended "m" rest "/blobs/uploads/" (repository ++ "/") spelled-IsApart apart)

put_routed :
    (repository reference : String)
    → split_at_last "/manifests/" (repository ++ ("/manifests/" ++ reference))
      ≡ some (repository, reference)
    → split_at_last "/blobs/uploads/" (repository ++ ("/manifests/" ++ reference))
      ≡ longer "m" ("anifests/" ++ reference) (split_at_last "/blobs/uploads/" (repository ++ "/"))
    → route_put (repository ++ ("/manifests/" ++ reference))
      ≡ manifest_or_upload repository reference
          (split_at_last "/blobs/uploads/" (repository ++ "/"))
unfolding route_put
put_routed repository reference m p =
    elim (Option-cases (split_at_last "/blobs/uploads/" (repository ++ "/"))) [
      | inl e ↦ rw (p, e, m, route_put) refl
      | inr ((before, after), e) ↦
          rw (p, e, route_put)
            (ap (λ t. upload before (after ++ t)) (sym (cons-append "m" "anifests/" reference)))
    ]

-- A request that names a manifest, or an upload, by a repository and a reference without a slash
-- reaches the handler with just these two, whatever the repository is called; except for PUT of a
-- manifest. That one does where the repository, with a slash behind it, does not hold
-- "/blobs/uploads/". Where it does, the request is taken for the end of an upload: to the repository
-- before the last place of this text, with all that stands behind it as the upload's name.
pub routes-joined :
    (repository reference : String)
    → HasNoSlash reference
    → (route_read (repository ++ ("/manifests/" ++ reference)) ≡ manifest repository reference)
      × (route_head (repository ++ ("/manifests/" ++ reference)) ≡ manifest repository reference)
      × (route_delete (repository ++ ("/manifests/" ++ reference)) ≡ manifest repository reference)
      × (route_patch (repository ++ ("/blobs/uploads/" ++ reference)) ≡ upload repository reference)
      × (route_put (repository ++ ("/blobs/uploads/" ++ reference)) ≡ upload repository reference)
      × (route_put (repository ++ ("/manifests/" ++ reference))
          ≡ manifest_or_upload repository reference
              (split_at_last "/blobs/uploads/" (repository ++ "/")))
unfolding route_read route_head route_delete route_patch route_put
routes-joined repository reference n =
    let path : String = repository ++ ("/manifests/" ++ reference) in
    let m : split_at_last "/manifests/" path ≡ some (repository, reference) =
      splits_at "manifests/" repository reference (manifests_once reference n) in
    let u : split_at_last "/blobs/uploads/" (repository ++ ("/blobs/uploads/" ++ reference))
        ≡ some (repository, reference) =
      splits_at "blobs/uploads/" repository reference (uploads_once reference n) in
    let p : split_at_last "/blobs/uploads/" path
        ≡ longer "m" ("anifests/" ++ reference)
            (split_at_last "/blobs/uploads/" (repository ++ "/")) =
      uploads_before repository reference n in
    (rw m refl, rw m refl, rw m refl, rw u refl, rw u refl, put_routed repository reference m p)
