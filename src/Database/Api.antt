-- ===== src/Database/Api.antt =====
-- The operations of *database.Database that role-based access control calls. A query answers from
-- the state of the database, or fails; a statement may change the state also where it fails.
use cargobay.Prelude.{String, Bool, Option, List, Error, Result}
use cargobay.Database.Models.{RegistryAccess, Group, GroupRegistryAccess}

pub record DatabaseApi : Type 1 where
  pub Db : Type 0
  pub get_user_roles : Db → String → Result (List String)
  pub get_registry_access : Db → String → String → Result (Option RegistryAccess)
  pub list_groups_for_user : Db → String → Result (List Group)
  pub get_group_registry_access : Db → String → String → Result (Option GroupRegistryAccess)
  pub save_role : String → String → String → Bool → List String → Db → Db × Option Error
  pub delete_role : String → Db → Db × Option Error
  pub assign_role_to_user : String → String → Db → Db × Option Error
  pub revoke_role_from_user : String → String → Db → Db × Option Error
