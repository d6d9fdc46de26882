-- ===== src/Rbac/Access.antt =====
-- The decisions of rbac.go: permissions by role, the scope of a credential, and who may read from
-- or publish to a registry. In one decision a query of the database is made at most once for each
-- of its arguments, so that a query is a function of the database's state.
use cargobay.Prelude.{
  String, Bool, true, false, not, ◌&&◌, ◌||◌, Option, none, some, List, [], ◌∷◌, ◌++◌, Result, ok,
  err, any, contains, ◌==◌, if◌then◌else◌,
}
use cargobay.Prelude.GoMap
use cargobay.Http.{Verdict, next, reply, status_unauthorized, status_forbidden}
use cargobay.Database.Models.{RegistryConfig, RegistryAccess, Group, GroupRegistryAccess}
use cargobay.Database.Api.{DatabaseApi}
use cargobay.Middleware.User.{User}
use cargobay.Rbac.Types.{RoleDefinition, PermissionDefinition, Rbac}
use cargobay.Rbac.Static.{static_permissions}

unfoldable pub is_read_action : Option PermissionDefinition → Bool
is_read_action none = false
is_read_action (some perm) = perm.action == "read" || perm.action == "search"

unfoldable pub is_read_permission : String → Bool
unfolding is_read_action
is_read_permission permission_id = is_read_action (GoMap.get permission_id static_permissions)

-- `err == nil && access != nil && access.right`
unfoldable pub allows {ℓ} : {A : Type ℓ} → (A → Bool) → Result (Option A) → Bool
allows right (ok (some access)) = right access
allows right (ok none) = false
allows right (err e) = false

unfoldable pub role_permissions : Option RoleDefinition → List String
role_permissions none = []
role_permissions (some role) = role.permissions

-- The inner loop of GetUserRolePermissions: the permissions of a role, each appended once. `seen`
-- holds just the texts that were appended.
unfoldable pub add_unseen : List String → List String → List String
add_unseen acc [] = acc
add_unseen acc (perm ∷ rest) = add_unseen (if contains acc perm then acc else acc ++ perm ∷ []) rest

module _ (api : DatabaseApi) where
  open api use {
    Db, get_user_roles, get_registry_access, list_groups_for_user, get_group_registry_access,
  }

  unfoldable pub get_permission : Rbac Db → String → Option PermissionDefinition
  get_permission r id = GoMap.get id r.permission_cache

  unfoldable pub get_role : Rbac Db → String → Option RoleDefinition
  get_role r id = GoMap.get id r.role_cache

  unfoldable pub get_role_permissions : Rbac Db → String → List String
  unfolding role_permissions
  get_role_permissions r role_id = role_permissions (GoMap.get role_id r.role_cache)

  unfoldable pub has_permission_in_role : Rbac Db → String → String → Bool
  has_permission_in_role r role_id permission_id = elim (GoMap.get role_id r.role_cache) [
    | none ↦ false
    | some role ↦ contains role.permissions permission_id
  ]

  unfoldable pub has_permission : Rbac Db → String → String → Bool
  has_permission r user_id permission_id = elim (get_user_roles r.db user_id) [
    | err e ↦ false
    | ok roles ↦ any (λ role_id. has_permission_in_role r role_id permission_id) roles
  ]

  unfoldable pub has_effective_permission : Rbac Db → Option User → String → Bool
  has_effective_permission r none permission_id = false
  has_effective_permission r (some user) permission_id =
      if user.scope == "read" && not (is_read_permission permission_id)
      then false
      else has_permission r user.user_id permission_id

  -- The loop over the groups of a user, with what is asked of each group's grant.
  unfoldable pub group_grants :
      (GroupRegistryAccess → Bool) → Rbac Db → String → Result (List Group) → Bool
  unfolding allows
  group_grants right r registry_id (err e) = false
  group_grants right r registry_id (ok groups) =
      any (λ g. allows right (get_group_registry_access r.db registry_id g.id)) groups

  unfoldable pub can_read_private : Rbac Db → Option User → RegistryConfig → Bool
  unfolding allows group_grants
  can_read_private r none reg = false
  can_read_private r (some user) reg =
      if has_effective_permission r (some user) "registry:write"
      then true
      else if allows (λ (a : RegistryAccess). a.can_read)
          (get_registry_access r.db reg.id user.user_id)
      then true
      else group_grants (λ g. g.can_read) r reg.id (list_groups_for_user r.db user.user_id)

  unfoldable pub can_read_registry : Rbac Db → Option User → Option RegistryConfig → Bool
  unfolding can_read_private
  can_read_registry r user none = true
  can_read_registry r user (some reg) =
      if not reg.private then true else can_read_private r user reg

  unfoldable pub can_publish_registry : Rbac Db → Option User → Option RegistryConfig → Bool
  unfolding allows group_grants
  can_publish_registry r user none = false
  can_publish_registry r none (some reg) = false
  can_publish_registry r (some user) (some reg) =
      if not reg.private || user.scope == "read"
      then false
      else if has_permission r user.user_id "registry:write"
      then true
      else if allows (λ (a : RegistryAccess). a.can_publish)
          (get_registry_access r.db reg.id user.user_id)
      then true
      else group_grants (λ g. g.can_publish) r reg.id (list_groups_for_user r.db user.user_id)

  -- The resource is not consulted.
  unfoldable pub has_permission_in_resource : Rbac Db → String → String → String → String → Bool
  has_permission_in_resource r user_id permission_id resource_type resource_id =
      if not (has_permission r user_id permission_id) then false else true

  unfoldable pub can_manage_user : Rbac Db → String → String → Bool
  can_manage_user r user_id target_user_id =
      if has_permission r user_id "user:admin"
      then true
      else if user_id == target_user_id
      then true
      else false

  unfoldable pub require_permission : Rbac Db → String → Option User → Verdict
  require_permission r permission_id none = reply status_unauthorized "Unauthorized"
  require_permission r permission_id (some user) =
      if not (has_effective_permission r (some user) permission_id)
      then reply status_forbidden "Insufficient permissions"
      else next

  unfoldable pub has_any_permission : Rbac Db → String → List String → Bool
  has_any_permission r user_id permissions = any (has_permission r user_id) permissions

  unfoldable pub has_all_permissions : Rbac Db → String → List String → Bool
  has_all_permissions r user_id [] = true
  has_all_permissions r user_id (perm ∷ rest) =
      let others = has_all_permissions r user_id rest in
      if not (has_permission r user_id perm) then false else others

  unfoldable pub collect : Rbac Db → List String → List String → List String
  unfolding add_unseen
  collect r acc [] = acc
  collect r acc (role_id ∷ rest) = collect r (add_unseen acc (get_role_permissions r role_id)) rest

  unfoldable pub get_user_role_permissions : Rbac Db → String → List String
  unfolding collect
  get_user_role_permissions r user_id = elim (get_user_roles r.db user_id) [
    | err e ↦ []
    | ok roles ↦ collect r [] roles
  ]
