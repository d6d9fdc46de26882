-- ===== src/Database/Groups.antt =====
-- The groups of database.go, and the lists of grants and members that the API shows. Deleting a
-- group deletes its members and its grants: the foreign keys of both tables cascade.
pub mod Deletion
use cargobay.Prelude.{
  ℕ, String, Bool, ◌||◌, Option, none, some, List, [], ◌∷◌, ◌++◌, Error, message, Result, ok, err,
  any, keep, map, leb, ltb, ◌==◌, if◌then◌else◌,
}
use cargobay.Database.Models.{UserRepository, RegistryAccess, Group, GroupRegistryAccess}
use cargobay.Database.Tables.{Db, query, exec, failing, find_where, delete_where}
use cargobay.Database.Users.{with_roles}
use cargobay.Database.Keys.{returning}

unfoldable pub insert_group : Group → Db → Result Db
insert_group g d =
    if any (λ x. x.id == g.id) d.groups
    then err (message "duplicate key value violates unique constraint")
    else ok (record d { groups = d.groups ++ g ∷ [] })

unfoldable pub create_group : String → String → String → Db → Db × Result Group
unfolding insert_group
create_group group_id name description db =
    let g : Group = record {
      id = group_id;
      name = name;
      description = description;
      created_at = db.now;
    } in
    returning "failed to create group" g (exec (insert_group g) db)

-- ORDER BY of a time, the earliest first or the latest first
module _ {A : Type 0} (at : A → ℕ) where
  unfoldable pub insert_early : A → List A → List A
  insert_early x [] = x ∷ []
  insert_early x (y ∷ ys) =
      let later = y ∷ insert_early x ys in if leb (at x) (at y) then x ∷ y ∷ ys else later

  unfoldable pub earliest_first : List A → List A
  unfolding insert_early
  earliest_first [] = []
  earliest_first (x ∷ xs) = insert_early x (earliest_first xs)

  unfoldable pub insert_late : A → List A → List A
  insert_late x [] = x ∷ []
  insert_late x (y ∷ ys) =
      let later = y ∷ insert_late x ys in if leb (at y) (at x) then x ∷ y ∷ ys else later

  unfoldable pub latest_first : List A → List A
  unfolding insert_late
  latest_first [] = []
  latest_first (x ∷ xs) = insert_late x (latest_first xs)

unfoldable pub list_groups : Db → Result (List Group)
unfolding query latest_first
list_groups db = query "failed to list groups" db (latest_first (λ g. g.created_at) db.groups)

unfoldable pub get_group : Db → String → Result (Option Group)
unfolding query
get_group db id = query "failed to get group" db (find_where (λ g. g.id == id) db.groups)

-- the row and what the foreign keys delete with it
unfoldable pub without_group : String → Db → Db
without_group id d = record d {
  groups = delete_where (λ g. g.id == id) d.groups;
  group_members = delete_where (λ m. m.0 == id) d.group_members;
  registry_group_access = delete_where (λ a. a.group_id == id) d.registry_group_access;
}

unfoldable pub delete_group : String → Db → Db × Option Error
unfolding failing without_group
delete_group id db = failing "failed to delete group" (exec (λ d. ok (without_group id d)) db)

-- group_members JOIN users, for one group; rows stand in the order in which they were added
unfoldable pub join_users : String → List (String × String) → Db → List UserRepository
join_users group_id [] db = []
join_users group_id ((g, user_id) ∷ rest) db =
    let others = join_users group_id rest db in
    if g == group_id
    then map (with_roles db) (keep (λ u. u.user_id == user_id) db.users) ++ others
    else others

unfoldable pub list_group_members : Db → String → Result (List UserRepository)
unfolding query join_users
list_group_members db group_id =
    query "failed to list group members" db (join_users group_id db.group_members db)

unfoldable pub list_registry_access_for_registry : Db → String → Result (List RegistryAccess)
unfolding query earliest_first
list_registry_access_for_registry db registry_id = query "failed to list registry access" db (
    earliest_first (λ a. a.granted_at)
      (keep (λ a. a.registry_id == registry_id) db.registry_access))

unfoldable pub list_group_registry_access_for_registry :
    Db → String → Result (List GroupRegistryAccess)
unfolding query earliest_first
list_group_registry_access_for_registry db registry_id =
    query "failed to list group registry access" db (
      earliest_first (λ a. a.granted_at)
        (keep (λ a. a.registry_id == registry_id) db.registry_group_access))
