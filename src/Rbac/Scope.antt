-- ===== src/Rbac/Scope.antt =====
-- What a credential's scope leaves of its user's permissions.
use cargobay.Prelude.{
  String, ◌≡◌, ◌≢◌, refl, ◌↔◌, ◌⊎◌, Bool, true, not, ◌&&◌, ◌||◌, Option, none, some, List, [], ◌∷◌,
  arith, contains, Bool-cases, inl, inr, ◌==◌, eq_iff,
}
use cargobay.Prelude.GoMap
use cargobay.Prelude.GoMap.{GoMap}
use cargobay.Http.{next}
use cargobay.Database.Api.{DatabaseApi}
use cargobay.Middleware.User.{User}
use cargobay.Rbac.Types.{Rbac, PermissionDefinition}
use cargobay.Rbac.Static.{static_permissions}
use cargobay.Rbac.Access.{
  is_read_action, is_read_permission, has_permission, has_effective_permission, require_permission,
}

-- the static permissions whose action is "read" or "search"
abbrev pub read_permissions : List String
read_permissions =
    "artifact:read" ∷ "artifact:search" ∷ "registry:read" ∷ "user:read" ∷ "audit:read"
    ∷ "system:read" ∷ []

abbrev all_in : List String → GoMap PermissionDefinition → Bool
all_in allowed [] = true
all_in allowed ((k, d) ∷ rest) =
    (not (is_read_action (some d)) || contains allowed k) && all_in allowed rest

all_in_sound :
    (allowed : List String) (table : GoMap PermissionDefinition) (p : String)
    → all_in allowed table ≡ true
    → is_read_action (GoMap.get p table) ≡ true
    → contains allowed p ≡ true
unfolding GoMap.get is_read_action
all_in_sound allowed [] p fits h = cc
all_in_sound allowed ((k, d) ∷ rest) p fits h = elim (Bool-cases (k == p)) [
  | inl e ↦ rw (← (eq_iff k p).0 e) (ground (arith, rw e at h))
  | inr e ↦ all_in_sound allowed rest p (ground arith) (rw e at h)
]

read_table : all_in read_permissions static_permissions ≡ true
unfolding static_permissions is_read_action
read_table = refl

abbrev all_read : List String → Bool
all_read [] = true
all_read (k ∷ ks) = is_read_permission k && all_read ks

all_read_sound :
    (ks : List String) (p : String)
    → all_read ks ≡ true
    → contains ks p ≡ true
    → is_read_permission p ≡ true
all_read_sound [] p fits h = cc
all_read_sound (k ∷ ks) p fits h = elim (Bool-cases (k == p)) [
  | inl e ↦ rw (← (eq_iff k p).0 e) (ground arith)
  | inr e ↦ all_read_sound ks p (ground arith) (ground arith)
]

read_list : all_read read_permissions ≡ true
unfolding is_read_permission static_permissions is_read_action GoMap.get
read_list = refl

is_read_permission_iff :
    (p : String) → (is_read_permission p ≡ true) ↔ (contains read_permissions p ≡ true)
unfolding is_read_permission
is_read_permission_iff p = (
  λ h. all_in_sound read_permissions static_permissions p read_table h,
  λ h. all_read_sound read_permissions p read_list h,
)

module _ (api : DatabaseApi) (r : Rbac api.Db) where
  abbrev pub MayUse : Option User → String → Type 0
  MayUse none p = ⊥
  MayUse (some user) p =
      (has_permission api r user.user_id p ≡ true)
      × ((user.scope ≢ "read") ⊎ (contains read_permissions p ≡ true))

  require_sound :
      (user : Option User) (p : String) → require_permission api r p user ≡ next → MayUse user p
  unfolding require_permission has_effective_permission
  require_sound none p h = cc
  require_sound (some user) p h = (
    ground arith,
    elim (Bool-cases (user.scope == "read")) [
      | inl e ↦ inr (ground (arith, is_read_permission_iff p))
      | inr e ↦ inl (λ q. ground (arith, (eq_iff user.scope "read").1 q))
    ],
  )

  require_complete :
      (user : Option User) (p : String) → MayUse user p → require_permission api r p user ≡ next
  unfolding require_permission has_effective_permission
  require_complete none p h = elim h [ ]
  require_complete (some user) p (has, inl full) = ground (arith, eq_iff user.scope "read")
  require_complete (some user) p (has, inr reads) = ground (arith, is_read_permission_iff p)

  -- The guard of a route lets a request through exactly when it carries a user who has the
  -- permission by a role, and either the credential is not read-only or the permission is one of
  -- the six that read or search.
  pub require_permission_iff :
      (user : Option User) (p : String) → (require_permission api r p user ≡ next) ↔ MayUse user p
  require_permission_iff user p = (require_sound user p, require_complete user p)
