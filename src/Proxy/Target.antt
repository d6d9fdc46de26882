-- ===== src/Proxy/Target.antt =====
-- backend/pkg/proxy/access.go: the registry that a request addresses. `split_host` stands for
-- net.SplitHostPort (the host, if there is no error), and `url_host` for the Host of what url.Parse
-- returns, or "" where it fails; nothing is assumed of either.
pub mod Resolution
pub mod Gate
use cargobay.Prelude.{
  ℕ, String, Bool, true, false, ◌&&◌, ◌||◌, Option, none, some, List, [], ◌∷◌, Result, ok, err, not,
  ◌==◌, if◌then◌else◌,
}
use cargobay.Prelude.Text.{cut}
use cargobay.Http.{status_unauthorized, status_forbidden}
use cargobay.Database.Models.{RegistryConfig}
use cargobay.Database.Tables.{Db}
use cargobay.Database.Registries.{
  list_registries, get_registry_by_host, get_default_registry, virtual_type_for,
}
use cargobay.Database.Access.{tables}
use cargobay.Middleware.User.{User}
use cargobay.Rbac.Types.{Rbac}
use cargobay.Rbac.Access.{can_read_registry, can_publish_registry}

-- `err == nil && reg != nil && test(reg)`
unfoldable pub accepted {ℓ} : {A : Type ℓ} → (A → Bool) → Result (Option A) → Option A
accepted test (ok (some reg)) = if test reg then some reg else none
accepted test (ok none) = none
accepted test (err e) = none

unfoldable pub registry_type_matches : String → String → Bool
registry_type_matches reg_type artifact_type =
    reg_type == artifact_type || reg_type == virtual_type_for artifact_type

-- the loop of matchRegistryByPrefix
unfoldable pub first_match :
    (String → String) → String → String → List RegistryConfig → Option RegistryConfig
first_match url_host prefix artifact_type [] = none
first_match url_host prefix artifact_type (reg ∷ regs) =
    let rest = first_match url_host prefix artifact_type regs in
    if not (reg.type == artifact_type)
    then rest
    else if reg.id == prefix
    then some reg
    else if reg.proxy && url_host reg.url == prefix
    then some reg
    else rest

-- the registry and the label that a request's artifacts are stored under
pub record Target : Type 0 where
  pub reg : Option RegistryConfig
  pub label : String

-- What an access check answers: it lets the request on, or replies with a status and an error body.
pub data Access : Type 0 where
  granted : Access
  denied : ℕ → Access

unfoldable pub check_access : Rbac Db → Option User → Option RegistryConfig → Bool → Access
check_access r user reg require_publish =
    if if require_publish
      then can_publish_registry tables r user reg
      else can_read_registry tables r user reg
    then granted
    else denied (elim user [ none ↦ status_unauthorized | some u ↦ status_forbidden ])

-- What an upstream request carries as its credentials.
pub data Credentials : Type 0 where
  anonymous : Credentials
  basic : String → String → Credentials
  bearer : String → Credentials

unfoldable pub upstream_auth : Option RegistryConfig → Credentials
upstream_auth none = anonymous
upstream_auth (some reg) =
    if reg.upstream_auth_type == "basic"
    then (if not (reg.upstream_username == "") || not (reg.upstream_secret == "")
        then basic reg.upstream_username reg.upstream_secret
        else anonymous)
    else if reg.upstream_auth_type == "bearer"
    then (if not (reg.upstream_secret == "") then bearer reg.upstream_secret else anonymous)
    else anonymous

module _ (split_host : String → Option String) (url_host : String → String) where
  unfoldable pub host_only : String → String
  host_only host = elim (split_host host) [ some h ↦ h | none ↦ host ]

  -- The registry that is bound to the host of the request, if its type fits.
  unfoldable pub bound_registry : (RegistryConfig → Bool) → Db → String → Option RegistryConfig
  unfolding accepted host_only
  bound_registry test db request_host =
      let host = host_only request_host in
      if not (host == "") then accepted test (get_registry_by_host db host) else none

  unfoldable pub default_registry : Db → String → Option RegistryConfig
  unfolding accepted
  default_registry db artifact_type = accepted (λ reg. true) (get_default_registry db artifact_type)

  unfoldable pub resolve_registry : Db → String → String → Option RegistryConfig
  unfolding bound_registry default_registry registry_type_matches
  resolve_registry db request_host artifact_type =
      elim (bound_registry (λ reg. registry_type_matches reg.type artifact_type) db request_host) [
        | some reg ↦ some reg
        | none ↦ default_registry db artifact_type
      ]

  unfoldable pub match_registry_by_prefix : Db → String → String → Option RegistryConfig
  unfolding first_match
  match_registry_by_prefix db prefix artifact_type = elim (list_registries db) [
    | err e ↦ none
    | ok regs ↦ first_match url_host prefix artifact_type regs
  ]

  -- A registry named by the first segment of the path, with the rest of the path.
  unfoldable pub prefixed_registry : Db → String → String → Option (RegistryConfig × String)
  unfolding match_registry_by_prefix
  prefixed_registry db path artifact_type = elim (cut "/" path) [
    | none ↦ none
    | some (prefix, rest) ↦ elim (match_registry_by_prefix db prefix artifact_type) [
      | none ↦ none
      | some reg ↦ some (reg, rest)
    ]
  ]

  unfoldable pub resolve_registry_with_path_prefix :
      Db → String → String → String → Option RegistryConfig × String
  unfolding bound_registry prefixed_registry default_registry
  resolve_registry_with_path_prefix db request_host path artifact_type =
      elim (bound_registry (λ reg. reg.type == artifact_type) db request_host) [
        | some reg ↦ (some reg, path)
        | none ↦ elim (prefixed_registry db path artifact_type) [
          | some (reg, rest) ↦ (some reg, rest)
          | none ↦ (default_registry db artifact_type, path)
        ]
      ]

  -- RequireReadAccess: the target that the handler finds in the request, or the refusal.
  pub data ReadGate : Type 0 where
    admitted : Target → ReadGate
    refused : ℕ → ReadGate

  unfoldable pub require_read_access : Rbac Db → Option User → String → String → ReadGate
  unfolding check_access
  require_read_access r user request_host artifact_type =
      let reg = resolve_registry r.db request_host artifact_type in
      elim (check_access r user reg false) [
        | denied status ↦ refused status
        | granted ↦
            admitted (record {
              reg = reg;
              label = elim reg [ none ↦ artifact_type | some reg' ↦ reg'.id ];
            })
      ]
