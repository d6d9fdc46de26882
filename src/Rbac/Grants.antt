-- ===== src/Rbac/Grants.antt =====
-- Who may read from a registry and who may publish to it: the decisions of Access against a
-- description by the ways in which access is granted.
use cargobay.Prelude.{
  ◌≡◌, refl, ◌≢◌, ◌↔◌, ◌⊎◌, Bool, true, false, Option, none, some, List, Memᴰ, arith, Result, ok,
  err, any_sound, any_complete, Bool-cases, inl, inr, eq_iff, if◌then◌else◌,
}
use cargobay.Database.Models.{RegistryConfig, RegistryAccess, Group, GroupRegistryAccess}
use cargobay.Database.Api.{DatabaseApi}
use cargobay.Middleware.User.{User}
use cargobay.Rbac.Types.{Rbac}
use cargobay.Rbac.Access.{
  allows, has_permission, has_effective_permission, group_grants, can_read_private,
  can_read_registry, can_publish_registry,
}

-- a lookup that succeeded, found a row, and the row gives the right
allows_iff {ℓ} :
    {A : Type ℓ} (right : A → Bool) (found : Result (Option A))
    → (allows right found ≡ true) ↔ ((a : A) × (found ≡ ok (some a)) × (right a ≡ true))
unfolding allows
allows_iff right (ok (some a)) = (λ h. (a, refl, h), λ w. ground (arith, w.1, w.2))
allows_iff right (ok none) = (λ h. cc, λ w. cc (w.1))
allows_iff right (err e) = (λ h. cc, λ w. cc (w.1))

module _ (api : DatabaseApi) (r : Rbac api.Db) where
  -- A row that grants a right on the registry to the user, or to a group that the user is in.
  pub data Granted (right : RegistryAccess → Bool) (group_right : GroupRegistryAccess → Bool)
      (user : User) (reg : RegistryConfig) : Type 0 where
    direct :
        (a : RegistryAccess)
        → api.get_registry_access r.db reg.id user.user_id ≡ ok (some a)
        → right a ≡ true
        → Granted right group_right user reg
    member :
        (groups : List Group) (g : Group) (a : GroupRegistryAccess)
        → api.list_groups_for_user r.db user.user_id ≡ ok groups
        → Memᴰ g groups
        → api.get_group_registry_access r.db reg.id g.id ≡ ok (some a)
        → group_right a ≡ true
        → Granted right group_right user reg

  module _ (right : RegistryAccess → Bool) (group_right : GroupRegistryAccess → Bool) (user : User)
      (reg : RegistryConfig) where
    -- the test that ends both decisions
    abbrev row_grants : Bool
    row_grants =
        if allows right (api.get_registry_access r.db reg.id user.user_id)
        then true
        else group_grants api group_right r reg.id (api.list_groups_for_user r.db user.user_id)

    groups_sound :
        (found : Result (List Group))
        → api.list_groups_for_user r.db user.user_id ≡ found
        → group_grants api group_right r reg.id found ≡ true
        → Granted right group_right user reg
    unfolding group_grants
    groups_sound (err e) eq h = cc
    groups_sound (ok groups) eq h =
        let (g, m, yes_g) = any_sound _ groups h in
        let (a, found, can) = (allows_iff group_right _).0 yes_g in member groups g a eq m found can

    row_grants_sound : row_grants ≡ true → Granted right group_right user reg
    row_grants_sound h =
        elim (Bool-cases (allows right (api.get_registry_access r.db reg.id user.user_id))) [
          | inl e ↦ let (a, found, can) = (allows_iff right _).0 e in direct a found can
          | inr e ↦ groups_sound _ refl (rw e at h)
        ]

    row_grants_complete : Granted right group_right user reg → row_grants ≡ true
    unfolding group_grants
    row_grants_complete (direct a found can) = rw ((allows_iff right _).1 (a, found, can))
    row_grants_complete (member groups g a eq m found can) =
        let hit =
          any_complete (λ g. allows group_right (api.get_group_registry_access r.db reg.id g.id)) m
            ((allows_iff group_right _).1 (a, found, can)) in
        rw (eq, group_grants) (ground (arith, hit))

  -- Nothing is asked of a request that resolves to no registry, and a public registry is open. A
  -- private one is open to the managers of registries, and to those with a row that lets them read.
  abbrev pub MayRead : Option User → Option RegistryConfig → Type 0
  MayRead user none = Unit
  MayRead none (some reg) = reg.private ≡ false
  MayRead (some user) (some reg) =
      (reg.private ≡ false)
      ⊎ ((has_effective_permission api r (some user) "registry:write" ≡ true)
          ⊎ Granted (λ a. a.can_read) (λ a. a.can_read) user reg)

  -- Publishing takes a private registry, a credential that is not read-only, and the right to
  -- manage registries or a row that lets the user publish.
  abbrev pub MayPublish : Option User → Option RegistryConfig → Type 0
  MayPublish user none = ⊥
  MayPublish none (some reg) = ⊥
  MayPublish (some user) (some reg) =
      (reg.private ≡ true)
      × (user.scope ≢ "read")
      × ((has_permission api r user.user_id "registry:write" ≡ true)
          ⊎ Granted (λ a. a.can_publish) (λ a. a.can_publish) user reg)

  private_sound :
      (user : User) (reg : RegistryConfig)
      → can_read_private api r (some user) reg ≡ true
      → (has_effective_permission api r (some user) "registry:write" ≡ true)
        ⊎ Granted (λ a. a.can_read) (λ a. a.can_read) user reg
  unfolding can_read_private
  private_sound user reg h =
      elim (Bool-cases (has_effective_permission api r (some user) "registry:write")) [
        | inl e ↦ inl e
        | inr e ↦ inr (row_grants_sound _ _ user reg (rw e at h))
      ]

  private_complete :
      (user : User) (reg : RegistryConfig)
      → (has_effective_permission api r (some user) "registry:write" ≡ true)
        ⊎ Granted (λ a. a.can_read) (λ a. a.can_read) user reg
      → can_read_private api r (some user) reg ≡ true
  unfolding can_read_private
  private_complete user reg (inl e) = rw e
  private_complete user reg (inr g) = ground (arith, row_grants_complete _ _ user reg g)

  can_read_sound :
      (user : Option User) (reg : Option RegistryConfig)
      → can_read_registry api r user reg ≡ true
      → MayRead user reg
  unfolding can_read_registry
  can_read_sound user none h = tt
  can_read_sound none (some reg) h = ground arith
  can_read_sound (some user) (some reg) h = elim (Bool-cases reg.private) [
    | inl e ↦ inr (private_sound user reg (rw e at h))
    | inr e ↦ inl e
  ]

  can_read_complete :
      (user : Option User) (reg : Option RegistryConfig)
      → MayRead user reg
      → can_read_registry api r user reg ≡ true
  unfolding can_read_registry
  can_read_complete user none h = refl
  can_read_complete none (some reg) h = rw h
  can_read_complete (some user) (some reg) (inl h) = rw h
  can_read_complete (some user) (some reg) (inr h) = ground (arith, private_complete user reg h)

  -- A request may read from a registry exactly when one of the ways to read that MayRead lists is
  -- open to it: the decision grants nothing else and refuses none of them.
  pub can_read_registry_iff :
      (user : Option User) (reg : Option RegistryConfig)
      → (can_read_registry api r user reg ≡ true) ↔ MayRead user reg
  can_read_registry_iff user reg = (can_read_sound user reg, can_read_complete user reg)

  can_publish_sound :
      (user : Option User) (reg : Option RegistryConfig)
      → can_publish_registry api r user reg ≡ true
      → MayPublish user reg
  unfolding can_publish_registry
  can_publish_sound user none h = cc
  can_publish_sound none (some reg) h = cc
  can_publish_sound (some user) (some reg) h = (
    ground arith,
    λ e. ground (arith, (eq_iff user.scope "read").1 e),
    elim (Bool-cases (has_permission api r user.user_id "registry:write")) [
      | inl e ↦ inl e
      | inr e ↦ inr (row_grants_sound _ _ user reg (ground arith))
    ],
  )

  can_publish_complete :
      (user : Option User) (reg : Option RegistryConfig)
      → MayPublish user reg
      → can_publish_registry api r user reg ≡ true
  unfolding can_publish_registry
  can_publish_complete user none h = elim h [ ]
  can_publish_complete none (some reg) h = elim h [ ]
  can_publish_complete (some user) (some reg) (private, full, inl e) =
      ground (arith, eq_iff user.scope "read")
  can_publish_complete (some user) (some reg) (private, full, inr g) =
      ground (arith, eq_iff user.scope "read", row_grants_complete _ _ user reg g)

  -- A request may publish to a registry exactly when the registry is private, the credential is
  -- not read-only, and the user manages registries or has a row that lets him publish.
  pub can_publish_registry_iff :
      (user : Option User) (reg : Option RegistryConfig)
      → (can_publish_registry api r user reg ≡ true) ↔ MayPublish user reg
  can_publish_registry_iff user reg = (can_publish_sound user reg, can_publish_complete user reg)
