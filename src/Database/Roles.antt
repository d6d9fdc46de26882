-- ===== src/Database/Roles.antt =====
-- The role tables of database.go: GetUserRoles, GetRole, SaveRole, DeleteRole, the assignment of
-- roles to users and the permissions of a role.
use cargobay.Prelude.{
  String, Bool, ◌&&◌, Option, none, some, List, [], ◌∷◌, ◌++◌, Error, message, Result, ok, err, any,
  keep, ◌==◌, if◌then◌else◌,
}
use cargobay.Database.Tables.{
  Db, Role, query, exec, failing, find_where, upsert, insert_or_ignore, delete_where,
}

-- the pair stands in the table
abbrev pub is_pair : String → String → String × String → Bool
is_pair a b (x, y) = x == a && y == b

-- the second parts of the pairs that begin with `a`
unfoldable pub seconds : String → List (String × String) → List String
seconds a [] = []
seconds a ((x, y) ∷ rest) = let others = seconds a rest in if x == a then y ∷ others else others

unfoldable pub get_user_roles : Db → String → Result (List String)
unfolding query
get_user_roles db user_id = query "failed to get user roles" db (seconds user_id db.user_roles)

unfoldable pub get_role : Db → String → Result (Option Role)
unfolding query
get_role db id = query "failed to get role" db (find_where (λ role. role.id == id) db.roles)

-- INSERT INTO role_permissions, which fails on a pair that is there
unfoldable pub insert_permission : String → String → Db → Result Db
insert_permission id perm db =
    if any (is_pair id perm) db.role_permissions
    then err (message "duplicate key value violates unique constraint")
    else ok (record db { role_permissions = db.role_permissions ++ (id, perm) ∷ [] })

-- the loop at the end of SaveRole: it stops at the first error
unfoldable pub insert_permissions : String → List String → Db → Db × Option Error
unfolding insert_permission
insert_permissions id [] db = (db, none)
insert_permissions id (perm ∷ rest) db =
    let (db', error) = exec (insert_permission id perm) db in
    elim error [
      | none ↦ insert_permissions id rest db'
      | some e ↦ (db', some (Error.wrap "failed to save role permission" e))
    ]

unfoldable pub save_role : String → String → String → Bool → List String → Db → Db × Option Error
unfolding insert_permissions
save_role id name description is_system permissions db =
    let row : Role = record {
      id = id;
      name = name;
      description = description;
      is_system = is_system;
    } in
    let (db1, error1) =
      exec
        (λ d. ok (record d {
          roles =
              upsert (λ role. role.id == id)
                (λ role. record role { name = name; description = description }) row d.roles;
        }))
        db in
    elim error1 [
      | some e ↦ (db1, some (Error.wrap "failed to save role" e))
      | none ↦
          let (db2, error2) =
            exec
              (λ d. ok (record d {
                role_permissions = delete_where (λ pair. pair.0 == id) d.role_permissions;
              }))
              db1 in
          elim error2 [
            | some e ↦ (db2, some (Error.wrap "failed to clear role permissions" e))
            | none ↦ insert_permissions id permissions db2
          ]
    ]

unfoldable pub delete_role : String → Db → Db × Option Error
unfolding failing
delete_role id db =
    failing "failed to delete role"
      (exec (λ d. ok (record d { roles = delete_where (λ role. role.id == id) d.roles })) db)

unfoldable pub assign_role_to_user : String → String → Db → Db × Option Error
assign_role_to_user user_id role_id db =
    exec
      (λ d. ok (record d {
        user_roles = insert_or_ignore (is_pair user_id role_id) (user_id, role_id) d.user_roles;
      }))
      db

unfoldable pub revoke_role_from_user : String → String → Db → Db × Option Error
revoke_role_from_user user_id role_id db =
    exec (λ d. ok (record d { user_roles = delete_where (is_pair user_id role_id) d.user_roles }))
      db

unfoldable pub add_role_permission : String → String → Db → Db × Option Error
add_role_permission role_id permission db =
    exec
      (λ d. ok (record d {
        role_permissions =
            insert_or_ignore (is_pair role_id permission) (role_id, permission) d.role_permissions;
      }))
      db

unfoldable pub remove_role_permission : String → String → Db → Db × Option Error
remove_role_permission role_id permission db =
    exec
      (λ d. ok (record d {
        role_permissions = delete_where (is_pair role_id permission) d.role_permissions;
      }))
      db

-- The join of user_roles and role_permissions: the permissions of each of the roles.
unfoldable pub permissions_of_roles : List String → List (String × String) → List (String × String)
permissions_of_roles [] table = []
permissions_of_roles (role_id ∷ rest) table =
    keep (λ pair. pair.0 == role_id) table ++ permissions_of_roles rest table

-- DISTINCT changes nothing, since both tables hold each of their pairs once.
unfoldable pub get_user_role_permissions : Db → String → Result (List (String × String))
unfolding query permissions_of_roles
get_user_role_permissions db user_id =
    query "failed to get user role permissions" db
      (permissions_of_roles (seconds user_id db.user_roles) db.role_permissions)
