-- ===== src/Database/Access.antt =====
-- The tables as the database that role-based access control calls.
use cargobay.Database.Api.{DatabaseApi}
use cargobay.Database.Tables.{Db}
use cargobay.Database.Roles.{
  get_user_roles, save_role, delete_role, assign_role_to_user, revoke_role_from_user,
}
use cargobay.Database.Grants.{get_registry_access, list_groups_for_user, get_group_registry_access}

abbrev pub tables : DatabaseApi
tables = record {
  Db = Db;
  get_user_roles = get_user_roles;
  get_registry_access = get_registry_access;
  list_groups_for_user = list_groups_for_user;
  get_group_registry_access = get_group_registry_access;
  save_role = save_role;
  delete_role = delete_role;
  assign_role_to_user = assign_role_to_user;
  revoke_role_from_user = revoke_role_from_user;
}
