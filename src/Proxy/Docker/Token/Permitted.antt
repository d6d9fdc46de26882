-- ===== src/Proxy/Docker/Token/Permitted.antt =====
-- What the token endpoint permits.
use cargobay.Prelude.{
  String, true, ◌&&◌, ◌≡◌, ◌≢◌, ◌⊎◌, sym, ap, subst, Option, none, some, List, [], arith, inl, inr,
  Bool-cases, Option-cases, Result, contains, ◌==◌, eq_iff,
}
use cargobay.Database.Models.{RegistryConfig}
use cargobay.Database.Tables.{Db}
use cargobay.Database.Access.{tables}
use cargobay.Middleware.User.{User}
use cargobay.Rbac.Types.{Rbac}
use cargobay.Rbac.Access.{can_read_registry, can_publish_registry}
use cargobay.Rbac.Grants.{MayRead, MayPublish, can_read_registry_iff, can_publish_registry_iff}
use cargobay.Proxy.Docker.Paths.{DockerScope, parse_docker_scope, has}
use cargobay.Proxy.Docker.Upstream.{Outside}
use cargobay.Proxy.Docker.Requests.{Request, resolve_target_for_path}
use cargobay.Proxy.Docker.Token.{
  read_only, Grant, permitted, refused, unscoped_grant, scoped_grant, grant_for,
}

-- a key with these permissions lets its bearer write
abbrev pub Writes : List String → Type 0
Writes permissions = contains permissions "write" ≡ true

-- Who may have these permissions for a scope on a registry.
abbrev pub MayHave :
    Rbac Db → Option User → Option RegistryConfig → DockerScope → List String → Type 0
MayHave r user reg scope permissions =
    (((has scope "pull" ≡ true) × MayRead tables r user reg)
      ⊎ ((has scope "push" ≡ true) × MayPublish tables r user reg))
    × (Writes permissions → (has scope "push" ≡ true) × MayPublish tables r user reg)

-- Who may have them without a scope: a user, and to write one whose credential is not read-only.
abbrev pub MayLogIn : Option User → List String → Type 0
MayLogIn none permissions = ⊥
MayLogIn (some user) permissions = Writes permissions → user.scope ≢ "read"

abbrev pub Permitted : Outside → Rbac Db → Request → List String → Option DockerScope → Type 0
Permitted out r req permissions none = MayLogIn req.user permissions
Permitted out r req permissions (some scope) =
    MayHave r req.user (resolve_target_for_path out r.db req.host scope.repository).0.reg scope
      permissions

permitted_injective : {ps qs : List String} → permitted ps ≡ permitted qs → ps ≡ qs
permitted_injective h = ap permissions_of h
  where
    permissions_of : Grant → List String
    permissions_of (permitted ps) = ps
    permissions_of (refused status) = []

unscoped_sound :
    (user : Option User) (permissions : List String)
    → unscoped_grant user ≡ permitted permissions
    → MayLogIn user permissions
unfolding unscoped_grant
unscoped_sound none permissions h = cc
unscoped_sound (some user) permissions h = λ w e.
    let read : (user.scope == "read") ≡ true = (eq_iff user.scope "read").1 e in
    let p : read_only ≡ permissions = permitted_injective (rw (read, unscoped_grant) at h) in
    let w' : Writes read_only = subst Writes (sym p) w in cc w'

scoped_sound :
    (r : Rbac Db) (user : Option User) (reg : Option RegistryConfig) (scope : DockerScope)
    (permissions : List String)
    → scoped_grant r user reg scope ≡ permitted permissions
    → MayHave r user reg scope permissions
unfolding scoped_grant
scoped_sound r user reg scope permissions h =
    let reads = (can_read_registry_iff tables r user reg).0 in
    let publishes = (can_publish_registry_iff tables r user reg).0 in
    elim (Bool-cases (has scope "push" && can_publish_registry tables r user reg)) [
      | inl e ↦
          let push : (has scope "push" ≡ true) × MayPublish tables r user reg =
            (ground arith, publishes (ground arith)) in
          (inr push, λ w. push)
      | inr e ↦ elim (Bool-cases (has scope "pull" && can_read_registry tables r user reg)) [
        | inl d ↦
            let p : read_only ≡ permissions = permitted_injective (rw (e, d, scoped_grant) at h) in
            (
              inl (ground arith, reads (ground arith)),
              λ w. let w' : Writes read_only = subst Writes (sym p) w in cc w',
            )
        | inr d ↦ cc (rw (e, d, scoped_grant) at h)
      ]
    ]

-- a read-only credential may not have what lets a key write
pub read_only_kept :
    (out : Outside) (r : Rbac Db) (req : Request) (user : User) (permissions : List String)
    (scope : Option DockerScope)
    → req.user ≡ some user
    → Permitted out r req permissions scope
    → Writes permissions
    → user.scope ≢ "read"
read_only_kept out r req user permissions none u h w =
    let h' : MayLogIn (some user) permissions = subst (λ x. MayLogIn x permissions) u h in h' w
read_only_kept out r req user permissions (some scope) u h w =
    let reg = (resolve_target_for_path out r.db req.host scope.repository).0.reg in
    let publish : MayPublish tables r (some user) reg =
      subst (λ x. MayPublish tables r x reg) u (h.1 w).1 in
    full reg publish
  where
    full : (reg : Option RegistryConfig) → MayPublish tables r (some user) reg → user.scope ≢ "read"
    full none p = elim p [ ]
    full (some reg) p = p.1

pub granted_lem :
    (out : Outside) (key_id secret : String) (generated : Result String) (r : Rbac Db)
    (req : Request) (permissions : List String)
    → grant_for key_id secret generated out r req ≡ permitted permissions
    → Permitted out r req permissions (parse_docker_scope req.scope)
unfolding grant_for
granted_lem out key_id secret generated r req permissions h =
    elim (Option-cases (parse_docker_scope req.scope)) [
      | inl e ↦ rw e (unscoped_sound req.user permissions (rw (e, grant_for) at h))
      | inr (scope, e) ↦ rw e (scoped_sound r req.user _ scope permissions (rw (e, grant_for) at h))
    ]
