-- ===== src/Rbac/Static.antt =====
-- The static tables of rbac.go, which no operation may modify, and `New`, which loads them.
use cargobay.Prelude.{String, true, List, [], ◌∷◌}
use cargobay.Prelude.GoMap
use cargobay.Prelude.GoMap.{GoMap}
use cargobay.Rbac.Types.{RoleDefinition, PermissionDefinition, Rbac}

-- One entry of `staticPermissions`; its key is its ID.
abbrev system_permission :
    String → String → String → String → String → String × PermissionDefinition
system_permission id name description resource action = (
  id,
  record {
    id = id;
    name = name;
    description = description;
    resource = resource;
    action = action;
    is_system = true;
  },
)

-- One entry of `staticRoles`; its key is its ID.
abbrev system_role : String → String → String → List String → String × RoleDefinition
system_role id name description permissions = (
  id,
  record {
    id = id;
    name = name;
    description = description;
    permissions = permissions;
    is_system = true;
  },
)

unfoldable pub static_permissions : GoMap PermissionDefinition
static_permissions =
    system_permission "artifact:read" "Read Artifacts" "Ability to read/download artifacts"
      "artifact" "read"
    ∷ system_permission "artifact:write" "Write Artifacts" "Ability to upload/publish artifacts"
        "artifact" "write"
    ∷ system_permission "artifact:delete" "Delete Artifacts" "Ability to delete artifacts"
        "artifact" "delete"
    ∷ system_permission "artifact:sign" "Sign Artifacts" "Ability to digitally sign artifacts"
        "artifact" "sign"
    ∷ system_permission "artifact:search" "Search Artifacts" "Ability to search artifacts"
        "artifact" "search"
    ∷ system_permission "artifact:replicate" "Replicate Artifacts"
        "Ability to replicate artifacts between instances" "artifact" "replicate"
    ∷ system_permission "registry:read" "Read Registries" "Ability to read registry configurations"
        "registry" "read"
    ∷ system_permission "registry:write" "Write Registries" "Ability to configure registries"
        "registry" "write"
    ∷ system_permission "registry:delete" "Delete Registries"
        "Ability to delete registry configurations" "registry" "delete"
    ∷ system_permission "user:read" "Read Users" "Ability to read user information" "user" "read"
    ∷ system_permission "user:write" "Manage Users" "Ability to create, update, and delete users"
        "user" "write"
    ∷ system_permission "user:admin" "Admin Users" "Ability to manage user permissions and roles"
        "user" "admin"
    ∷ system_permission "audit:read" "Read Audit Logs" "Ability to view audit logs" "audit" "read"
    ∷ system_permission "system:read" "Read System" "Ability to read system configuration and stats"
        "system" "read"
    ∷ system_permission "system:write" "Manage System" "Ability to modify system configuration"
        "system" "write"
    ∷ []

unfoldable pub static_roles : GoMap RoleDefinition
static_roles =
    system_role "admin" "Administrator" "Full administrative access to all resources" (
      "artifact:read" ∷ "artifact:write" ∷ "artifact:delete" ∷ "artifact:sign" ∷ "artifact:search"
      ∷ "artifact:replicate" ∷ "registry:read" ∷ "registry:write" ∷ "registry:delete" ∷ "user:read"
      ∷ "user:write" ∷ "user:admin" ∷ "audit:read" ∷ "system:read" ∷ "system:write" ∷ [])
    ∷ system_role "viewer" "Viewer" "Read-only access to artifacts and registries"
        ("artifact:read" ∷ "artifact:search" ∷ "registry:read" ∷ [])
    ∷ system_role "publisher" "Publisher" "Can upload and sign artifacts but not delete"
        ("artifact:read" ∷ "artifact:write" ∷ "artifact:sign" ∷ "artifact:search" ∷ [])
    ∷ []

-- The loop `for id, x := range static { cache[id] = x }`.
load {ℓ} : {V : Type ℓ} → GoMap V → GoMap V → GoMap V
load [] cache = cache
load ((id, x) ∷ rest) cache = load rest (GoMap.put id x cache)

unfoldable pub load_static_permissions : {Db : Type 0} → Rbac Db → Rbac Db
unfolding load
load_static_permissions r = record r {
  permission_cache = load static_permissions r.permission_cache;
}

unfoldable pub load_static_roles : {Db : Type 0} → Rbac Db → Rbac Db
unfolding load
load_static_roles r = record r { role_cache = load static_roles r.role_cache }

unfoldable pub new : {Db : Type 0} → Db → Rbac Db
unfolding load_static_permissions load_static_roles
new db =
    load_static_roles
      (load_static_permissions (record { db = db; role_cache = []; permission_cache = [] }))
