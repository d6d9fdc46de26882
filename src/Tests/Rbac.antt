-- ===== src/Tests/Rbac.antt =====
-- Access control on a small database.
use cargobay.Prelude.{◌≡◌, refl, ◌↔◌, true, false, some, List, [], ◌∷◌}
use cargobay.Http.{next}
use cargobay.Database.Models.{RegistryConfig}
use cargobay.Database.Tables.{Db, empty, query, find_where}
use cargobay.Database.Roles.{get_user_roles, seconds}
use cargobay.Database.Grants.{get_registry_access}
use cargobay.Prelude.GoMap
use cargobay.Database.Access.{tables}
use cargobay.Middleware.User.{User}
use cargobay.Rbac.Types.{Rbac}
use cargobay.Rbac.Static.{new, static_roles}
use cargobay.Rbac.Access.{
  can_read_registry, can_publish_registry, has_permission, has_effective_permission,
  has_permission_in_role, require_permission,
}
use cargobay.Rbac.Roles.{RoleOp, run_ops, create, update, delete, add_permission}
use cargobay.Rbac.SystemRoles.{HasSystemRoles, new-HasSystemRoles, run_ops-HasSystemRoles}
use cargobay.Rbac.Grants.{MayRead, MayPublish, can_read_registry_iff, can_publish_registry_iff}
use cargobay.Rbac.Scope.{MayUse, require_permission_iff}

abbrev pub office : Db
office = record empty {
  user_roles = ("ann", "viewer") ∷ ("bob", "admin") ∷ [];
  registry_access =
      record {
        registry_id = "tools";
        user_id = "ann";
        can_read = true;
        can_publish = false;
        granted_at = 1;
      }
      ∷ [];
}

abbrev pub tools : RegistryConfig
tools = record {
  id = "tools";
  name = "Tools";
  url = "";
  type = "npm";
  proxy = false;
  enabled = true;
  priority = 10;
  private = true;
  host = "";
  upstream_auth_type = "none";
  upstream_username = "";
  upstream_secret = "";
  has_upstream_secret = false;
  members = [];
}

abbrev pub ann : User
ann = record {
  user_id = "ann";
  username = "ann";
  email = "ann@example.com";
  roles = "viewer" ∷ [];
  permissions = [];
  scope = "full";
}

abbrev pub manager : Rbac Db
manager = new office

ann_reads : can_read_registry tables manager (some ann) (some tools) ≡ true
unfolding can_read_registry has_effective_permission has_permission has_permission_in_role
    get_user_roles get_registry_access query find_where seconds new static_roles GoMap.get GoMap.put
    GoMap.delete
ann_reads = refl

bob_manages : has_permission tables manager "bob" "registry:write" ≡ true
unfolding has_permission has_permission_in_role get_user_roles query seconds new static_roles
    GoMap.get GoMap.put GoMap.delete
bob_manages = refl

can_read_registry_iff_example :
    (can_read_registry tables manager (some ann) (some tools) ≡ true)
    ↔ MayRead tables manager (some ann) (some tools)
can_read_registry_iff_example = can_read_registry_iff tables manager (some ann) (some tools)

can_publish_registry_iff_example :
    (can_publish_registry tables manager (some ann) (some tools) ≡ true)
    ↔ MayPublish tables manager (some ann) (some tools)
can_publish_registry_iff_example = can_publish_registry_iff tables manager (some ann) (some tools)

require_permission_iff_example :
    (require_permission tables manager "artifact:write" (some ann) ≡ next)
    ↔ MayUse tables manager (some ann) "artifact:write"
require_permission_iff_example = require_permission_iff tables manager (some ann) "artifact:write"

abbrev meddling : List RoleOp
meddling =
    create "admin" "mine" ("user:admin" ∷ [])
    ∷ update "admin" "nobody" "" []
    ∷ delete "viewer"
    ∷ add_permission "viewer" "user:admin"
    ∷ []

run_ops-HasSystemRoles_example : HasSystemRoles (run_ops tables meddling manager)
run_ops-HasSystemRoles_example =
    run_ops-HasSystemRoles tables meddling manager (new-HasSystemRoles office)
