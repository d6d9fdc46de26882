-- ===== src/Database/Users.antt =====
-- The users of database.go. The ID of a new user is an argument. Where the table would hold an ID, a
-- name or an address twice, the statement fails.
use mathlib.Core.Option
use cargobay.Prelude.{
  String, Bool, true, not, ◌&&◌, ◌||◌, Option, none, some, List, [], ◌∷◌, ◌++◌, Error, message,
  Result, ok, err, any, ◌==◌, if◌then◌else◌,
}
use cargobay.Database.Models.{UserRepository}
use cargobay.Database.Tables.{Db, query, exec, failing, find_where, update_where}
use cargobay.Database.Roles.{seconds, assign_role_to_user}

-- the row with its roles: the LEFT JOIN of user_roles
abbrev pub with_roles : Db → UserRepository → UserRepository
with_roles db u = record u { roles = seconds u.user_id db.user_roles }

unfoldable pub get_user_where : (UserRepository → Bool) → Db → Result (Option UserRepository)
unfolding query seconds
get_user_where test db =
    query "failed to get user" db (Option.map (with_roles db) (find_where test db.users))

unfoldable pub get_user_by_id : Db → String → Result (Option UserRepository)
unfolding get_user_where
get_user_by_id db user_id = get_user_where (λ u. u.user_id == user_id) db

unfoldable pub get_user_by_username : Db → String → Result (Option UserRepository)
unfolding get_user_where
get_user_by_username db username = get_user_where (λ u. u.username == username) db

unfoldable pub get_user_by_email : Db → String → Result (Option UserRepository)
unfolding get_user_where
get_user_by_email db email = get_user_where (λ u. u.email == email) db

unfoldable pub insert_user : UserRepository → Db → Result Db
insert_user user d =
    if any (λ u. u.user_id == user.user_id || u.username == user.username || u.email == user.email)
      d.users
    then err (message "duplicate key value violates unique constraint")
    else ok (record d { users = d.users ++ user ∷ [] })

-- the loop at the end of CreateUser: it stops at the first error
unfoldable pub assign_roles : UserRepository → List String → Db → Db × Result UserRepository
unfolding assign_role_to_user
assign_roles user [] db = (db, ok user)
assign_roles user (role_id ∷ rest) db =
    let (db', error) = assign_role_to_user user.user_id role_id db in
    elim error [
      | none ↦ assign_roles user rest db'
      | some e ↦ (db', err (Error.wrap "failed to assign role to user" e))
    ]

unfoldable pub create_user :
    String → String → String → String → List String → Db → Db × Result UserRepository
unfolding insert_user assign_roles
create_user user_id username email password_hash roles db =
    let user : UserRepository = record {
      user_id = user_id;
      username = username;
      email = email;
      password_hash = password_hash;
      roles = [];
      created_at = db.now;
      last_login = none;
      is_active = true;
      timezone = "";
    } in
    let (db', error) = exec (insert_user user) db in
    elim error [
      | some e ↦ (db', err (Error.wrap "failed to create user" e))
      | none ↦ assign_roles user roles db'
    ]

-- `UPDATE users SET ... WHERE user_id = ...`
unfoldable pub update_user :
    String → (Db → UserRepository → UserRepository) → String → Db → Db × Option Error
unfolding failing
update_user text change user_id db = failing text (
    exec
      (λ d. ok (record d { users = update_where (λ u. u.user_id == user_id) (change d) d.users }))
      db)

unfoldable pub update_user_last_login : String → Db → Db × Option Error
unfolding update_user
update_user_last_login user_id db =
    update_user "failed to update user last login" (λ d u. record u { last_login = some d.now })
      user_id db

unfoldable pub set_user_active : String → Bool → Db → Db × Option Error
unfolding update_user
set_user_active user_id is_active db =
    update_user "failed to update user active status" (λ d u. record u { is_active = is_active })
      user_id db

unfoldable pub update_user_password : String → String → Db → Db × Option Error
unfolding update_user
update_user_password user_id password_hash db =
    update_user "failed to update user password" (λ d u. record u { password_hash = password_hash })
      user_id db

unfoldable pub update_profile_statement : String → String → String → String → Db → Result Db
update_profile_statement user_id username email timezone d =
    if any (λ u. u.user_id == user_id) d.users
      && any (λ u. not (u.user_id == user_id) && (u.username == username || u.email == email))
          d.users
    then err (message "duplicate key value violates unique constraint")
    else ok (record d {
      users =
          update_where (λ u. u.user_id == user_id)
            (λ u. record u { username = username; email = email; timezone = timezone }) d.users;
    })

unfoldable pub update_user_profile : String → String → String → String → Db → Db × Option Error
unfolding failing update_profile_statement
update_user_profile user_id username email timezone db =
    failing "failed to update user profile"
      (exec (update_profile_statement user_id username email timezone) db)
