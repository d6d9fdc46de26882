-- ===== src/Database/Grants.antt =====
-- The access tables of database.go: the grants of users and of groups on private registries, and
-- the members of groups.
use cargobay.Prelude.{
  String, Bool, ◌&&◌, Option, List, [], ◌∷◌, ◌++◌, Error, Result, ok, leb, keep, ◌==◌,
  if◌then◌else◌,
}
use cargobay.Database.Models.{RegistryAccess, Group, GroupRegistryAccess}
use cargobay.Database.Tables.{
  Db, query, exec, failing, find_where, upsert, insert_or_ignore, delete_where,
}
use cargobay.Database.Roles.{is_pair}

abbrev pub is_grant : String → String → RegistryAccess → Bool
is_grant registry_id user_id a = a.registry_id == registry_id && a.user_id == user_id

abbrev pub is_group_grant : String → String → GroupRegistryAccess → Bool
is_group_grant registry_id group_id a = a.registry_id == registry_id && a.group_id == group_id

unfoldable pub grant_registry_access : RegistryAccess → Db → Db × Option Error
unfolding failing
grant_registry_access access db = failing "failed to grant registry access" (
    exec
      (λ d. ok (record d {
        registry_access =
            upsert (is_grant access.registry_id access.user_id)
              (λ a. record a { can_read = access.can_read; can_publish = access.can_publish })
              (record access { granted_at = d.now }) d.registry_access;
      }))
      db)

unfoldable pub revoke_registry_access : String → String → Db → Db × Option Error
unfolding failing
revoke_registry_access registry_id user_id db = failing "failed to revoke registry access" (
    exec
      (λ d. ok (record d {
        registry_access = delete_where (is_grant registry_id user_id) d.registry_access;
      }))
      db)

unfoldable pub get_registry_access : Db → String → String → Result (Option RegistryAccess)
unfolding query
get_registry_access db registry_id user_id =
    query "failed to get registry access" db
      (find_where (is_grant registry_id user_id) db.registry_access)

unfoldable pub add_group_member : String → String → Db → Db × Option Error
unfolding failing
add_group_member group_id user_id db = failing "failed to add group member" (
    exec
      (λ d. ok (record d {
        group_members =
            insert_or_ignore (is_pair group_id user_id) (group_id, user_id) d.group_members;
      }))
      db)

unfoldable pub remove_group_member : String → String → Db → Db × Option Error
unfolding failing
remove_group_member group_id user_id db = failing "failed to remove group member" (
    exec
      (λ d.
        ok (record d { group_members = delete_where (is_pair group_id user_id) d.group_members }))
      db)

-- the rows of `groups` with the ID, at most one
unfoldable pub groups_with_id : String → List Group → List Group
groups_with_id id groups = keep (λ g. g.id == id) groups

-- group_members JOIN groups, for one user
unfoldable pub join_groups : String → List (String × String) → List Group → List Group
unfolding groups_with_id
join_groups user_id [] groups = []
join_groups user_id ((group_id, member) ∷ rest) groups =
    let others = join_groups user_id rest groups in
    if member == user_id then groups_with_id group_id groups ++ others else others

-- ORDER BY created_at ASC
unfoldable pub insert_by_creation : Group → List Group → List Group
insert_by_creation g [] = g ∷ []
insert_by_creation g (x ∷ xs) =
    let later = x ∷ insert_by_creation g xs in
    if leb g.created_at x.created_at then g ∷ x ∷ xs else later

unfoldable pub sort_by_creation : List Group → List Group
unfolding insert_by_creation
sort_by_creation [] = []
sort_by_creation (g ∷ gs) = insert_by_creation g (sort_by_creation gs)

unfoldable pub list_groups_for_user : Db → String → Result (List Group)
unfolding query join_groups sort_by_creation
list_groups_for_user db user_id =
    query "failed to list groups for user" db
      (sort_by_creation (join_groups user_id db.group_members db.groups))

unfoldable pub grant_group_registry_access : GroupRegistryAccess → Db → Db × Option Error
unfolding failing
grant_group_registry_access access db = failing "failed to grant group registry access" (
    exec
      (λ d. ok (record d {
        registry_group_access =
            upsert (is_group_grant access.registry_id access.group_id)
              (λ a. record a { can_read = access.can_read; can_publish = access.can_publish })
              (record access { granted_at = d.now }) d.registry_group_access;
      }))
      db)

unfoldable pub revoke_group_registry_access : String → String → Db → Db × Option Error
unfolding failing
revoke_group_registry_access registry_id group_id db =
    failing "failed to revoke group registry access" (
      exec
        (λ d. ok (record d {
          registry_group_access =
              delete_where (is_group_grant registry_id group_id) d.registry_group_access;
        }))
        db)

unfoldable pub get_group_registry_access :
    Db → String → String → Result (Option GroupRegistryAccess)
unfolding query
get_group_registry_access db registry_id group_id =
    query "failed to get group registry access" db
      (find_where (is_group_grant registry_id group_id) db.registry_group_access)
