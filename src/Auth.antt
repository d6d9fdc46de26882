-- ===== src/Auth.antt =====
-- backend/pkg/auth/auth.go: login and the hashes that it compares. `compare_hash` stands for
-- bcrypt.CompareHashAndPassword without an error, and `sha256_hex` for the text of sha256.Sum256 in
-- hexadecimal digits.
pub mod Sessions
use cargobay.Prelude.{
  ℕ, String, Bool, not, ◌+◌, Option, none, some, List, [], ◌∷◌, Error, message, Result, ok, err,
  map, if◌then◌else◌,
}
use cargobay.Database.Models.{UserRepository, AccessKey}
use cargobay.Database.Tables.{Db}
use cargobay.Database.Roles.{get_user_roles, get_user_role_permissions}
use cargobay.Database.Keys.{day, create_access_key, invalidate_access_key}
use cargobay.Database.Users.{get_user_by_username, update_user_last_login}

-- the answer to a login; the refresh token is always empty
pub record LoginOutput : Type 0 where
  pub access_token : String
  pub expires_at : Option ℕ
  pub user_id : String
  pub username : String
  pub email : String
  pub timezone : String
  pub roles : List String
  pub permissions : List String

-- `if err != nil { x = []... }`
abbrev pub or_empty {ℓ} : {A : Type ℓ} → Result (List A) → List A
or_empty (ok xs) = xs
or_empty (err e) = []

-- what Login answers once it has the key
unfoldable pub output : Db → UserRepository → List String → AccessKey → Db × LoginOutput
output db user roles key = (
  (update_user_last_login user.user_id db).0,
  record {
    access_token = key.key_hash;
    expires_at = key.expires_at;
    user_id = user.user_id;
    username = user.username;
    email = user.email;
    timezone = user.timezone;
    roles = roles;
    permissions = map (λ p. p.1) (or_empty (get_user_role_permissions db user.user_id));
  },
)

-- what Login does for a user whose password it is: the key, and the answer
unfoldable pub open_session : String → String → Db → UserRepository → Db × Result LoginOutput
unfolding output
open_session key_id secret db user =
    let roles = or_empty (get_user_roles db user.user_id) in
    let (db', created) =
      create_access_key key_id secret user.user_id "login_session" ("read" ∷ "write" ∷ [])
        (some (db.now + day)) db in
    elim created [
      | err e ↦ (db', err (Error.wrap "failed to create access key" e))
      | ok key ↦ let (db2, out) = output db' user roles key in (db2, ok out)
    ]

unfoldable pub logout : Db → String → Db × Option Error
logout db key_id = invalidate_access_key key_id db

module _ (compare_hash : String → String → Bool) (sha256_hex : String → String) where
  unfoldable pub verify_password : String → String → Bool
  verify_password hash password = compare_hash hash password

  unfoldable pub hash_token : String → String
  hash_token token = sha256_hex token

  -- Login, with the ID and the secret that the new key draws.
  unfoldable pub login : String → String → Db → String → String → Db × Result LoginOutput
  unfolding verify_password open_session
  login key_id secret db username password = elim (get_user_by_username db username) [
    | err e ↦ (db, err (Error.wrap "failed to lookup user" e))
    | ok none ↦ (db, err (message "invalid credentials"))
    | ok (some user) ↦
        if not (verify_password user.password_hash password)
        then (db, err (message "invalid credentials"))
        else if not user.is_active
        then (db, err (message "user account is deactivated"))
        else open_session key_id secret db user
  ]
