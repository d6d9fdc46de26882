-- ===== src/Tests/Roles.antt =====
-- Role management on a small database.
use cargobay.Prelude.{◌≡◌, false, [], ◌∷◌, ◌==◌, contains, if◌then◌else◌, String}
use cargobay.Database.Access.{tables}
use cargobay.Rbac.Types.{Rbac, RoleDefinition}
use cargobay.Rbac.Access.{get_role, get_user_role_permissions, has_permission}
use cargobay.Rbac.Roles.{role_id_of, create_role}
use cargobay.Database.Tables.{Db}
use cargobay.Rbac.Changes.{created, left, create_role_effect}
use cargobay.Rbac.Effective.{IsDistinct, get_user_role_permissions_exact}
use cargobay.Tests.Rbac.{manager}

abbrev packer : RoleDefinition
packer = record {
  id = "packer";
  name = "packer";
  description = "";
  permissions = "artifact:read" ∷ [];
  is_system = false;
}

-- the manager with a custom role
abbrev staffed : Rbac Db
staffed = record manager { role_cache = ("packer", packer) ∷ [] }

create_role_effect_example :
    let (r', answer) = create_role tables "packer" "packs" ("artifact:read" ∷ []) staffed in
    (answer ≡ created tables staffed "packer" "packs" ("artifact:read" ∷ []))
    × (get_role tables r' "packer" ≡ (
        if role_id_of "packer" == "packer"
        then left tables staffed answer
        else get_role tables staffed "packer"))
create_role_effect_example =
    create_role_effect tables staffed "packer" "packs" ("artifact:read" ∷ []) "packer"

get_user_role_permissions_exact_example :
    ((q : String)
      → contains (get_user_role_permissions tables manager "ann") q
        ≡ has_permission tables manager "ann" q)
    × IsDistinct (get_user_role_permissions tables manager "ann")
get_user_role_permissions_exact_example = get_user_role_permissions_exact tables manager "ann"
