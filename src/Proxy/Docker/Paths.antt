-- ===== src/Proxy/Docker/Paths.antt =====
-- The texts of docker.go: the path of a request, the name of a repository, and the scope of a token.
pub mod Extended
pub mod Splitting
use Prim.Native.String.{[], ◌∷◌, ◌++◌}
use mathlib.Core.Option
use cargobay.Prelude.{
  String, Bool, true, false, not, Option, none, some, List, contains, ◌==◌, if◌then◌else◌,
}
use cargobay.Prelude.Text.{cut, cut_prefix, cut_suffix, has_prefix}
use cargobay.Prelude.Parts.{split}

-- strings.LastIndex(path, sep), for a sep that is not empty, and the two parts
unfoldable pub split_at_last : String → String → Option (String × String)
unfolding cut_prefix
split_at_last sep [] = none
split_at_last sep (c ∷ s) =
    let rest = split_at_last sep s in
    elim rest [
      | some (before, after) ↦ some (c ∷ before, after)
      | none ↦ Option.map (λ after. ("", after)) (cut_prefix sep (c ∷ s))
    ]

unfoldable pub trim_suffix_sep : String → String → Option String
trim_suffix_sep path suffix = cut_suffix suffix path

unfoldable pub is_digest_reference : String → Bool
is_digest_reference reference = has_prefix "sha256:" reference

unfoldable pub split_docker_repository : String → String × String
unfolding cut
split_docker_repository repository = elim (cut "/" repository) [
  | none ↦ ("", repository)
  | some (namespace, name) ↦ (namespace, name)
]

-- strings.Contains(repository, "/")
abbrev pub has_slash : String → Bool
has_slash s = elim (cut "/" s) [ none ↦ false | some parts ↦ true ]

unfoldable pub normalize_repository : String → String
normalize_repository repository =
    if not (has_slash repository) then "library/" ++ repository else repository

-- What a request is about, by the shape of its path.
pub data Route : Type 0 where
  manifest : String → String → Route
  tags : String → Route
  blob : String → String → Route
  upload : String → String → Route
  new_upload : String → Route
  not_found : Route

-- the first of these shapes that fits
abbrev pub fits {ℓ} : {A : Type ℓ} → (A → Route) → Option A → Route → Route
fits route (some a) others = route a
fits route none others = others

unfoldable pub route_read : String → Route
unfolding split_at_last trim_suffix_sep
route_read path =
    fits (λ p. manifest p.0 p.1) (split_at_last "/manifests/" path)
      (fits tags (trim_suffix_sep path "/tags/list")
        (fits (λ p. blob p.0 p.1) (split_at_last "/blobs/" path) not_found))

unfoldable pub route_head : String → Route
unfolding split_at_last
route_head path =
    fits (λ p. manifest p.0 p.1) (split_at_last "/manifests/" path)
      (fits (λ p. blob p.0 p.1) (split_at_last "/blobs/" path) not_found)

unfoldable pub route_put : String → Route
unfolding split_at_last
route_put path =
    fits (λ p. upload p.0 p.1) (split_at_last "/blobs/uploads/" path)
      (fits (λ p. manifest p.0 p.1) (split_at_last "/manifests/" path) not_found)

unfoldable pub route_post : String → Route
unfolding trim_suffix_sep
route_post path =
    fits new_upload (trim_suffix_sep path "/blobs/uploads/")
      (fits new_upload (trim_suffix_sep path "/blobs/uploads") not_found)

unfoldable pub route_patch : String → Route
unfolding split_at_last
route_patch path = fits (λ p. upload p.0 p.1) (split_at_last "/blobs/uploads/" path) not_found

unfoldable pub route_delete : String → Route
unfolding split_at_last
route_delete path = fits (λ p. manifest p.0 p.1) (split_at_last "/manifests/" path) not_found

pub record DockerScope : Type 0 where
  pub repository : String
  pub actions : List String

unfoldable pub parse_docker_scope : String → Option DockerScope
unfolding cut split
parse_docker_scope scope = elim (cut ":" scope) [
  | none ↦ none
  | some (kind, rest) ↦ if not (kind == "repository") then none else elim (cut ":" rest) [
    | none ↦ none
    | some (repository, action_list) ↦
        if repository == ""
        then none
        else some (record { repository = repository; actions = split "," action_list })
  ]
]

unfoldable pub has : DockerScope → String → Bool
has scope action = contains scope.actions action
