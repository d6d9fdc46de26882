-- ===== src/Rbac/Types.antt =====
-- The definitions that rbac.go caches, and the manager itself. A *RoleDefinition that the cache
-- holds and a method mutates is put back into the cache.
use cargobay.Prelude.{String, Bool, List}
use cargobay.Prelude.GoMap.{GoMap}

pub record RoleDefinition : Type 0 where
  pub id : String
  pub name : String
  pub description : String
  pub permissions : List String
  pub is_system : Bool

pub record PermissionDefinition : Type 0 where
  pub id : String
  pub name : String
  pub description : String
  pub resource : String
  pub action : String
  pub is_system : Bool

pub record Rbac (Db : Type 0) : Type 0 where
  pub db : Db
  pub role_cache : GoMap RoleDefinition
  pub permission_cache : GoMap PermissionDefinition
