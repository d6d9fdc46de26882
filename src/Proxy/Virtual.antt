-- ===== src/Proxy/Virtual.antt =====
-- backend/pkg/proxy/virtual.go: virtual registries, which try their members in order.
pub mod Members
pub mod Fetch
use cargobay.Prelude.{
  ℕ, String, Bool, true, false, ◌&&◌, ◌||◌, Option, none, some, List, [], ◌∷◌, Error, message,
  Result, ok, err, not, eqb, ◌==◌, if◌then◌else◌,
}
use cargobay.Prelude.Text.{cut_suffix}
use cargobay.Database.Models.{RegistryConfig}
use cargobay.Database.Tables.{Db}
use cargobay.Database.Registries.{get_registry, virtual_type_for}
use cargobay.Database.Access.{tables}
use cargobay.Middleware.User.{User}
use cargobay.Rbac.Types.{Rbac}
use cargobay.Rbac.Access.{can_read_registry}
use cargobay.Proxy.Target.{Credentials, upstream_auth}

unfoldable pub base_type_of_virtual : String → Option String
base_type_of_virtual registry_type = elim (cut_suffix "-virtual" registry_type) [
  | none ↦ none
  | some base ↦ if base == "" then none else some base
]

unfoldable pub is_virtual_registry : Option RegistryConfig → String → Bool
is_virtual_registry none member_type = false
is_virtual_registry (some reg) member_type = reg.type == virtual_type_for member_type

-- One round of the loop over the members: what is appended to the candidates.
unfoldable pub candidate :
    Rbac Db → Option User → String → Result (Option RegistryConfig) → Option RegistryConfig
candidate r user member_type (err e) = none
candidate r user member_type (ok none) = none
candidate r user member_type (ok (some member)) =
    if not member.enabled || not (member.type == member_type)
    then none
    else if not (can_read_registry tables r user (some member))
    then none
    else some member

-- the loop over the members
unfoldable pub candidates : Rbac Db → Option User → String → List String → List RegistryConfig
unfolding candidate
candidates r user member_type [] = []
candidates r user member_type (member_id ∷ rest) =
    let others = candidates r user member_type rest in
    elim (candidate r user member_type (get_registry r.db member_id)) [
      | none ↦ others
      | some member ↦ member ∷ others
    ]

unfoldable pub resolve_member_candidates :
    Rbac Db → Option User → Option RegistryConfig → String → List RegistryConfig
unfolding candidates is_virtual_registry
resolve_member_candidates r user none member_type = []
resolve_member_candidates r user (some reg) member_type =
    if not (is_virtual_registry (some reg) member_type)
    then reg ∷ []
    else candidates r user member_type reg.members

-- A response of an upstream registry; its body is open until it is closed.
pub record Response : Type 0 where
  pub status : ℕ
  pub body : String

module _ (build_url : RegistryConfig → Result String)
    -- http.NewRequest and http.DefaultClient.Do
    (send : String → Credentials → Result Response) where
  -- One round of the loop: the response of a candidate, if it is asked and answers.
  unfoldable pub attempt : RegistryConfig → Result Response
  attempt cand = elim (build_url cand) [
    | err e ↦ err e
    | ok url ↦ send url (upstream_auth (some cand))
  ]

  -- The loop, from the last error, with the responses whose bodies it closes.
  unfoldable pub fetch_from :
      Option Error → List RegistryConfig → Result (Response × RegistryConfig) × List Response
  unfolding attempt
  fetch_from none [] = (err (message "no upstream candidate available"), [])
  fetch_from (some e) [] = (err e, [])
  fetch_from last (cand ∷ rest) = elim (attempt cand) [
    | err e ↦ fetch_from (some e) rest
    | ok resp ↦ elim (eqb resp.status 200) [
      | true ↦ (ok (resp, cand), [])
      | false ↦
          let later = fetch_from (some (Error.upstream cand.id resp.status)) rest in
          (later.0, resp ∷ later.1)
    ]
  ]

  unfoldable pub fetch_first_upstream_stream :
      List RegistryConfig → Result (Response × RegistryConfig) × List Response
  unfolding fetch_from
  fetch_first_upstream_stream [] =
      (err (message "no upstream proxy configured for this registry"), [])
  fetch_first_upstream_stream (cand ∷ rest) = fetch_from none (cand ∷ rest)
