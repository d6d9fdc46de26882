-- ===== src/Tests/Accounts.antt =====
-- Keys and credentials on a small database.
use cargobay.Prelude.{
  String, ◌≡◌, ◌≢◌, ◌+◌, refl, Bool, true, false, Option, none, some, List, [], ◌∷◌, Memᴰ, arith,
  any, ok, ◌==◌,
}
use cargobay.Prelude.Text.{cut_prefix}
use cargobay.Database.Models.{UserRepository, AccessKey}
use cargobay.Database.Tables.{
  Db, empty, exec, exec_at, finish, failing, query, find_where, update_where,
}
use cargobay.Database.Roles.{get_user_roles, seconds}
use cargobay.Database.Keys.{
  day, is_valid, create_access_key, insert_key, used, unexpired, without_description,
  validate_access_key, invalidate_access_key,
}
use cargobay.Database.Keys.Validity.{validate_access_key_sound, session_slides}
use cargobay.Database.Keys.Revocation.{KeyOp, create_session, wait, step, run, revoked_for_good}
use cargobay.Database.Users.{get_user_where, get_user_by_id}
use cargobay.Rbac.Access.{get_user_role_permissions, collect}
use cargobay.Rbac.Static.{new}
use cargobay.Middleware.User.{User}
use cargobay.Auth.{hash_token}
use cargobay.Middleware.Authentication.{
  Credentials, access_key_scope, active_user, user_of_key, load_user, with_db, find_key,
  resolve_token, authenticate,
}
use cargobay.Middleware.Authentication.Attested.{authenticate-Attested}
use cargobay.Middleware.Authentication.Evidence.{Attested}

abbrev pub session : AccessKey
session = record {
  id = "k1";
  user_id = "ann";
  name = "login_session";
  key_hash = "key_1";
  permissions = "read" ∷ "write" ∷ [];
  created_at = 1;
  last_used = none;
  expires_at = some 50;
  is_active = true;
  key_type = "session";
  description = "";
}

abbrev pub token : AccessKey
token = record session {
  id = "k2";
  key_hash = "H(cbpat_2)";
  permissions = "read" ∷ [];
  key_type = "personal";
}

abbrev pub ann_row : UserRepository
ann_row = record {
  user_id = "ann";
  username = "ann";
  email = "ann@example.com";
  password_hash = "P(secret)";
  roles = [];
  created_at = 1;
  last_login = none;
  is_active = true;
  timezone = "";
}

abbrev pub desk : Db
desk = record empty { users = ann_row ∷ []; access_keys = session ∷ token ∷ []; now = 20 }

abbrev sha : String → String
sha s = "H"

abbrev bcrypt : String → String → Bool
bcrypt hash password = false

abbrev base64 : String → Option String
base64 s = none

-- the session after its use
abbrev desk_later : Db
desk_later = record desk { access_keys = used 20 session ∷ token ∷ [] }

session-used :
    validate_access_key "key_1" desk
    ≡ (desk_later, ok (some (without_description (used 20 session))))
unfolding validate_access_key exec exec_at finish find_where update_where
session-used = refl

validate_access_key_sound_example :
    (row : AccessKey) × Memᴰ row desk.access_keys
    × (row.key_hash ≡ "key_1")
    × (row.is_active ≡ true)
    × (unexpired desk.now row.expires_at ≡ true)
    × (without_description (used 20 session) ≡ without_description (used desk.now row))
validate_access_key_sound_example =
    validate_access_key_sound "key_1" desk desk_later (without_description (used 20 session))
      session-used

session_slides_example :
    (again : AccessKey) × ((validate_access_key "key_1" (record desk_later { now = 1000 })).1
      ≡ ok (some again))
    × (again.id ≡ "k1")
    × (again.expires_at ≡ some (1000 + day))
session_slides_example =
    session_slides "key_1" desk desk_later (record desk_later { now = 1000 })
      (without_description (used 20 session)) session-used refl refl refl (omega arith)
      (omega arith)

-- the desk without the session
abbrev desk_closed : Db
desk_closed = record desk { access_keys = record session { is_active = false } ∷ token ∷ [] }

session_revoked : invalidate_access_key "k1" desk ≡ (desk_closed, none)
unfolding invalidate_access_key failing exec exec_at finish update_where
session_revoked = refl

-- a new session with the same secret fails, and the token is used in the meantime
abbrev comings : List KeyOp
comings = create_session "k1" "1" "ann" "again" [] none ∷ wait 5 ∷ []

abbrev desk_end : Db
desk_end = record desk_closed {
  access_keys = record session { is_active = false } ∷ used 25 token ∷ [];
  now = 25;
}

session_there : any (λ k. k.id == "k1") desk.access_keys ≡ true
session_there = refl

token_still :
    validate_access_key "H(cbpat_2)" (run comings desk_closed)
    ≡ (desk_end, ok (some (without_description (used 25 token))))
unfolding run step create_access_key insert_key validate_access_key exec exec_at finish find_where
    update_where
token_still = refl

revoked_for_good_example : ◌≢◌ {A = String} "k2" "k1"
revoked_for_good_example =
    revoked_for_good "k1" desk desk_closed desk_end comings "H(cbpat_2)"
      (without_description (used 25 token)) session_there session_revoked token_still

no_hash : find_where (is_valid "H" 20) desk.access_keys ≡ none
unfolding find_where
no_hash = refl

token_stored : find_where (is_valid "H(cbpat_2)" 20) desk.access_keys ≡ some token
unfolding find_where
token_stored = refl

abbrev bearer_session : Credentials
bearer_session = record { authorization = "Bearer key_1"; nuget_api_key = "" }

abbrev ann_user : User
ann_user = record {
  user_id = "ann";
  username = "ann";
  email = "ann@example.com";
  roles = [];
  permissions = [];
  scope = "full";
}

ann_in : (authenticate bcrypt sha base64 bearer_session (new desk)).1 ≡ some ann_user
unfolding authenticate cut_prefix resolve_token find_key hash_token with_db user_of_key active_user
    load_user access_key_scope get_user_by_id get_user_where get_user_roles query seconds
    validate_access_key exec exec_at finish find_where update_where new get_user_role_permissions
    collect
ann_in = refl

authenticate-Attested_example : Attested bcrypt sha base64 bearer_session (new desk).db ann_user
authenticate-Attested_example =
    authenticate-Attested bcrypt sha base64 bearer_session (new desk) ann_user ann_in
