-- ===== src/Proxy/Target/Gate.antt =====
-- What RequireReadAccess lets through, and what a path prefix addresses.
use mathlib.Core.Option
use cargobay.Prelude.{
  ℕ, String, ◌≡◌, ◌≢◌, ◌⊎◌, refl, sym, subst, ◌∙◌, true, not, ◌&&◌, ◌||◌, Option, none, some, List,
  [], ◌∷◌, Memᴰ, arith, Bool-cases, Result-cases, inl, inr, ◌==◌, eq_iff,
}
use cargobay.Http.{status_unauthorized, status_forbidden}
use cargobay.Database.Models.{RegistryConfig}
use cargobay.Database.Tables.{Db}
use cargobay.Database.Access.{tables}
use cargobay.Database.Registries.{list_registries}
use cargobay.Database.Registries.Listing.{list_registries_sound}
use cargobay.Middleware.User.{User}
use cargobay.Rbac.Types.{Rbac}
use cargobay.Rbac.Access.{can_read_registry}
use cargobay.Rbac.Grants.{MayRead, can_read_registry_iff}
use cargobay.Proxy.Target.{
  Target, check_access, host_only, resolve_registry, ReadGate, admitted, refused,
  require_read_access, first_match, match_registry_by_prefix, upstream_auth, Credentials, anonymous,
  basic, bearer,
}
use cargobay.Proxy.Target.Resolution.{resolve_registry-Reaches}

-- the status of a refusal: of nobody, and of a user
abbrev pub refusal_of : Option User → ℕ
refusal_of none = status_unauthorized
refusal_of (some u) = status_forbidden

-- the label of a target
abbrev pub label_of : String → Option RegistryConfig → String
label_of artifact_type none = artifact_type
label_of artifact_type (some reg) = reg.id

-- credentials that hold no secret
abbrev pub WithoutSecret : Credentials → Type 0
WithoutSecret anonymous = Unit
WithoutSecret (basic username password) = password ≡ ""
WithoutSecret (bearer token) = ⊥

without_secret :
    (reg : RegistryConfig) → reg.upstream_secret ≡ "" → WithoutSecret (upstream_auth (some reg))
unfolding upstream_auth
without_secret reg h = elim (Bool-cases (reg.upstream_auth_type == "basic")) [
  | inl b ↦
      elim (Bool-cases (not (reg.upstream_username == "") || not (reg.upstream_secret == ""))) [
        | inl s ↦ rw (b, s, WithoutSecret, upstream_auth) h
        | inr s ↦ rw (b, s, WithoutSecret, upstream_auth) tt
      ]
  | inr b ↦ elim (Bool-cases (reg.upstream_auth_type == "bearer")) [
    | inl t ↦ rw (b, t, h, WithoutSecret, upstream_auth) tt
    | inr t ↦ rw (b, t, WithoutSecret, upstream_auth) tt
  ]
]

module _ (split_host : String → Option String) (url_host : String → String) where
  -- What RequireReadAccess may answer to a request: the target that the request resolves to, which
  -- the user may read, or a refusal where he may not, with the status for him.
  abbrev pub IsAnswer :
      Rbac Db → Option User → String → String → ReadGate split_host url_host → Type 0
  IsAnswer r user request_host artifact_type (admitted target) =
      (target.reg ≡ resolve_registry split_host url_host r.db request_host artifact_type)
      × (target.label ≡ label_of artifact_type target.reg)
      × MayRead tables r user target.reg
  IsAnswer r user request_host artifact_type (refused status) =
      (¬ MayRead tables r user
        (resolve_registry split_host url_host r.db request_host artifact_type))
      × (status ≡ refusal_of user)

  status_refused :
      (user : Option User)
      → elim user [ none ↦ status_unauthorized | some u ↦ status_forbidden ] ≡ refusal_of user
  status_refused none = refl
  status_refused (some u) = refl

  label_lem :
      (artifact_type : String) (reg : Option RegistryConfig)
      → elim reg [ none ↦ artifact_type | some reg' ↦ reg'.id ] ≡ label_of artifact_type reg
  label_lem artifact_type none = refl
  label_lem artifact_type (some reg) = refl

  -- RequireReadAccess hands a request on with the registry that it resolves to, and the label of
  -- that registry, only where the user may read the registry. It refuses the request only where he
  -- may not: with 401 where nobody is logged in, and with 403 otherwise.
  pub require_read_access-IsAnswer :
      (r : Rbac Db) (user : Option User) (request_host artifact_type : String)
      → IsAnswer r user request_host artifact_type
          (require_read_access split_host url_host r user request_host artifact_type)
  unfolding require_read_access check_access
  require_read_access-IsAnswer r user request_host artifact_type =
      let reg = resolve_registry split_host url_host r.db request_host artifact_type in
      let decided = can_read_registry_iff tables r user reg in
      elim (Bool-cases (can_read_registry tables r user reg)) [
        | inl e ↦
            rw (e, IsAnswer, require_read_access, check_access)
              (refl, label_lem artifact_type reg, decided.0 e)
        | inr e ↦
            rw (e, IsAnswer, require_read_access, check_access)
              ((λ may. cc (decided.1 may, e)), status_refused user)
      ]

  -- Where RequireReadAccess hands a request on with a private registry, the request named the host
  -- that the registry is bound to, and its user may read the registry.
  pub private_admitted :
      (r : Rbac Db) (user : Option User) (request_host artifact_type : String) (target : Target)
      (reg : RegistryConfig)
      → require_read_access split_host url_host r user request_host artifact_type ≡ admitted target
      → target.reg ≡ some reg
      → reg.private ≡ true
      → (reg.host ≢ "")
        × (reg.host ≡ host_only split_host url_host request_host)
        × (reg.enabled ≡ true)
        × MayRead tables r user (some reg)
  private_admitted r user request_host artifact_type target reg h found private =
      let answer : IsAnswer r user request_host artifact_type (admitted target) =
        subst (IsAnswer r user request_host artifact_type) h
          (require_read_access-IsAnswer r user request_host artifact_type) in
      let resolved = sym (answer.0) ∙ found in
      let (enabled, fits, how) =
        resolve_registry-Reaches split_host url_host r.db request_host artifact_type resolved in
      let may = subst (MayRead tables r user) found (answer.2) in
      elim how [
        | inl (named, bound) ↦ ((λ p. named (sym bound ∙ p)), bound, enabled, may)
        | inr (public, x) ↦ cc (public, private)
      ]

  abbrev Answers : String → String → RegistryConfig → Type 0
  Answers prefix artifact_type reg =
      (reg.type ≡ artifact_type)
      × ((reg.id ≡ prefix) ⊎ ((reg.proxy ≡ true) × (url_host reg.url ≡ prefix)))

  -- what the loop finds is in the list, of the type, and answers to the prefix
  first_match_sound :
      (prefix artifact_type : String) (regs : List RegistryConfig) {reg : RegistryConfig}
      → first_match url_host prefix artifact_type regs ≡ some reg
      → Memᴰ reg regs × Answers prefix artifact_type reg
  unfolding first_match
  first_match_sound prefix artifact_type [] h = cc
  first_match_sound prefix artifact_type (x ∷ xs) {reg} h =
      let fits = λ (t : (x.type == artifact_type) ≡ true). (eq_iff x.type artifact_type).0 t in
      let skip : first_match url_host prefix artifact_type xs ≡ some reg
          → Memᴰ reg (x ∷ xs) × Answers prefix artifact_type reg =
        λ h'. let (m, rest) = first_match_sound prefix artifact_type xs h' in (Memᴰ.tail m, rest) in
      let stop : x ≡ reg
          → Answers prefix artifact_type x
          → Memᴰ reg (x ∷ xs) × Answers prefix artifact_type reg =
        λ p a. (Memᴰ.head (sym p), subst (Answers prefix artifact_type) p a) in
      elim (Bool-cases (x.type == artifact_type)) [
        | inr t ↦ skip (rw (t, first_match) at h)
        | inl t ↦ elim (Bool-cases (x.id == prefix)) [
          | inl i ↦
              stop (Option.some-injective _ _ (rw (t, i, first_match) at h))
                (fits t, inl ((eq_iff x.id prefix).0 i))
          | inr i ↦ elim (Bool-cases (x.proxy && url_host x.url == prefix)) [
            | inl u ↦
                stop (Option.some-injective _ _ (rw (t, i, u, first_match) at h))
                  (fits t, inr (ground arith, ground (arith, eq_iff (url_host x.url) prefix)))
            | inr u ↦ skip (rw (t, i, u, first_match) at h)
          ]
        ]
      ]

  -- A registry that the prefix of a path addresses is enabled, of the type, and either has the
  -- prefix as its ID or proxies an upstream at that host. The secret that is stored for it is not
  -- loaded: the credentials that upstreamAuth makes of it are none, or have an empty password. This
  -- is not about a token that an upstream hands out for a challenge.
  pub match_by_prefix_sound :
      (db : Db) (prefix artifact_type : String) (reg : RegistryConfig)
      → match_registry_by_prefix split_host url_host db prefix artifact_type ≡ some reg
      → (reg.enabled ≡ true)
        × (reg.type ≡ artifact_type)
        × ((reg.id ≡ prefix) ⊎ ((reg.proxy ≡ true) × (url_host reg.url ≡ prefix)))
        × WithoutSecret (upstream_auth (some reg))
  unfolding match_registry_by_prefix
  match_by_prefix_sound db prefix artifact_type reg h = elim (Result-cases (list_registries db)) [
    | inr (x, e) ↦ cc (rw (e, match_registry_by_prefix) at h)
    | inl (regs, e) ↦
        let (m, (t, how)) =
          first_match_sound prefix artifact_type regs (rw (e, match_registry_by_prefix) at h) in
        let (enabled, bare) = list_registries_sound db regs e m in
        (enabled, t, how, without_secret reg bare)
  ]
