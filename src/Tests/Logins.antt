-- ===== src/Tests/Logins.antt =====
-- A login on a small database.
use cargobay.Prelude.{String, ◌≡◌, ◌+◌, refl, Bool, true, some, [], ◌∷◌, arith, ok}
use cargobay.Database.Models.{UserRepository, AccessKey}
use cargobay.Database.Tables.{Db, query, exec, exec_at, finish, failing, find_where, update_where}
use cargobay.Database.Roles.{
  seconds, get_user_roles, permissions_of_roles, get_user_role_permissions,
}
use cargobay.Database.Keys.{day, insert_key, create_access_key, validate_access_key}
use cargobay.Database.Users.{
  get_user_where, get_user_by_username, update_user, update_user_last_login,
}
use cargobay.Auth.{LoginOutput, verify_password, output, open_session, login}
use cargobay.Auth.Sessions.{login_opens}
use cargobay.Tests.Accounts.{desk, ann_row, session, token}

abbrev any_password : String → String → Bool
any_password hash password = true

abbrev same_text : String → String
same_text s = s

abbrev new_key : AccessKey
new_key = record session {
  id = "k3";
  key_hash = "key_3";
  created_at = 20;
  expires_at = some (20 + day);
}

abbrev desk_open : Db
desk_open = record desk {
  users = record ann_row { last_login = some 20 } ∷ [];
  access_keys = session ∷ token ∷ new_key ∷ [];
}

abbrev welcome : LoginOutput
welcome = record {
  access_token = "key_3";
  expires_at = some (20 + day);
  user_id = "ann";
  username = "ann";
  email = "ann@example.com";
  timezone = "";
  roles = [];
  permissions = [];
}

ann_logs_in : login any_password same_text "k3" "3" desk "ann" "secret" ≡ (desk_open, ok welcome)
unfolding login open_session output verify_password get_user_by_username get_user_where
    get_user_roles get_user_role_permissions permissions_of_roles query seconds create_access_key
    insert_key update_user_last_login update_user failing exec exec_at finish find_where
    update_where
ann_logs_in = refl

login_opens_example :
    (u : UserRepository) × (key : AccessKey) × (get_user_by_username desk "ann" ≡ ok (some u))
    × (any_password u.password_hash "secret" ≡ true)
    × (u.is_active ≡ true)
    × (◌≡◌ {A = String} "ann" u.user_id)
    × ((validate_access_key "key_3" (record desk_open { now = 1000 })).1 ≡ ok (some key))
    × (key.user_id ≡ u.user_id)
login_opens_example =
    login_opens any_password same_text "k3" "3" "ann" "secret" desk desk_open
      (record desk_open { now = 1000 }) welcome ann_logs_in refl refl (omega arith)
