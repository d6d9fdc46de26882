-- ===== src/Middleware/Authentication.antt =====
-- backend/pkg/middleware/auth.go: who a request is from, and the middleware that asks for a user, a
-- role or a permission. `decode_base64` stands for base64.StdEncoding.DecodeString where it does not
-- fail.
pub mod Lookups
pub mod Evidence
pub mod Attested
pub mod Stored
use cargobay.Prelude.{
  String, Bool, not, ◌&&◌, ◌||◌, Option, none, some, List, [], ◌∷◌, Result, ok, err, contains, ◌==◌,
  if◌then◌else◌,
}
use cargobay.Prelude.Text.{cut, cut_prefix}
use cargobay.Http.{Verdict, next, reply, status_unauthorized, status_forbidden}
use cargobay.Database.Models.{UserRepository, AccessKey}
use cargobay.Database.Tables.{Db}
use cargobay.Database.Roles.{get_user_roles}
use cargobay.Database.Keys.{validate_access_key}
use cargobay.Database.Users.{get_user_by_id, get_user_by_username}
use cargobay.Database.Access.{tables}
use cargobay.Auth.{or_empty, verify_password, hash_token}
use cargobay.Middleware.User.{User}
use cargobay.Rbac.Types.{Rbac}
use cargobay.Rbac.Access.{get_user_role_permissions}

-- the headers that carry credentials, "" where there is none
pub record Credentials : Type 0 where
  pub authorization : String
  pub nuget_api_key : String

unfoldable pub access_key_scope : AccessKey → String
access_key_scope key = if contains key.permissions "write" then "full" else "read"

-- `loadUser`
unfoldable pub load_user : Rbac Db → UserRepository → String → User
load_user r db_user scope = record {
  user_id = db_user.user_id;
  username = db_user.username;
  email = db_user.email;
  roles = or_empty (get_user_roles r.db db_user.user_id);
  permissions = get_user_role_permissions tables r db_user.user_id;
  scope = scope;
}

-- `err != nil || x == nil`, or the value
abbrev pub present {ℓ} : {A : Type ℓ} → Result (Option A) → Option A
present (ok found) = found
present (err e) = none

-- `err != nil || dbUser == nil || !dbUser.IsActive`, or the user
unfoldable pub active_user : Result (Option UserRepository) → Option UserRepository
active_user found = elim (present found) [
  | none ↦ none
  | some u ↦ if u.is_active then some u else none
]

-- the user of a key that was found
unfoldable pub user_of_key : Rbac Db → AccessKey → Option User
unfolding active_user load_user access_key_scope
user_of_key r key = elim (active_user (get_user_by_id r.db key.user_id)) [
  | none ↦ none
  | some db_user ↦ some (load_user r db_user (access_key_scope key))
]

unfoldable pub with_db : Rbac Db → Db → Rbac Db
with_db r db = record r { db = db }

module _ (compare_hash : String → String → Bool) (sha256_hex : String → String)
    (decode_base64 : String → Option String) where
  -- The two lookups of resolveToken: by the hash of the token, and by the token itself.
  unfoldable pub find_key : String → Db → Db × Option AccessKey
  unfolding hash_token
  find_key token db =
      let (db1, found1) = validate_access_key (hash_token compare_hash sha256_hex token) db in
      elim (present found1) [
        | some key ↦ (db1, some key)
        | none ↦ let (db2, found2) = validate_access_key token db1 in (db2, present found2)
      ]

  unfoldable pub resolve_token : String → Rbac Db → Rbac Db × Option User
  unfolding find_key user_of_key with_db
  resolve_token token r =
      let (db', found) = find_key token r.db in
      let r' = with_db r db' in
      elim found [ none ↦ (r', none) | some key ↦ (r', user_of_key r' key) ]

  -- Basic credentials of an active user: the password of the account, or a token of the same user.
  unfoldable pub resolve_password : UserRepository → String → Rbac Db → Rbac Db × Option User
  unfolding verify_password hash_token load_user access_key_scope with_db
  resolve_password db_user password r =
      if verify_password compare_hash sha256_hex db_user.password_hash password
      then (r, some (load_user r db_user "full"))
      else (let (db', found) =
            validate_access_key (hash_token compare_hash sha256_hex password) r.db in
          let r' = with_db r db' in
          elim (present found) [
            | none ↦ (r', none)
            | some key ↦
                if not (key.user_id == db_user.user_id)
                then (r', none)
                else (r', some (load_user r' db_user (access_key_scope key)))
          ])

  unfoldable pub resolve_basic : String → Rbac Db → Rbac Db × Option User
  unfolding active_user resolve_password
  resolve_basic basic_creds r = elim (decode_base64 basic_creds) [
    | none ↦ (r, none)
    | some decoded ↦ elim (cut ":" decoded) [
      | none ↦ (r, none)
      | some (username, password) ↦ elim (active_user (get_user_by_username r.db username)) [
        | none ↦ (r, none)
        | some db_user ↦ resolve_password db_user password r
      ]
    ]
  ]

  -- NewAuthMiddleware: the user that it attaches to the request, if any. The request proceeds in
  -- every case.
  unfoldable pub authenticate : Credentials → Rbac Db → Rbac Db × Option User
  unfolding resolve_token resolve_basic
  authenticate credentials r =
      if credentials.authorization == ""
      then (if not (credentials.nuget_api_key == "")
          then resolve_token credentials.nuget_api_key r
          else (r, none))
      else elim (cut_prefix "Basic " credentials.authorization) [
        | some basic_creds ↦ resolve_basic basic_creds r
        | none ↦ elim (cut_prefix "Bearer " credentials.authorization) [
          | some token ↦ resolve_token token r
          | none ↦ (r, none)
        ]
      ]

unfoldable pub require_auth : Option User → Verdict
require_auth none = reply status_unauthorized "Unauthorized: authentication required"
require_auth (some user) = next

unfoldable pub require_role : String → Option User → Verdict
require_role role none = reply status_unauthorized "Unauthorized"
require_role role (some user) =
    if not (contains user.roles role) then reply status_forbidden "Forbidden" else next

unfoldable pub require_permission : String → Option User → Verdict
require_permission permission none = reply status_unauthorized "Unauthorized"
require_permission permission (some user) =
    if not (contains user.permissions permission) then reply status_forbidden "Forbidden" else next
