-- ===== src/Middleware/Authentication/Evidence.antt =====
-- What shows whose a request is.
use cargobay.Prelude.{String, ◌≡◌, ◌⊎◌, Bool, true, Option, none, some}
use cargobay.Prelude.Text.{cut, cut_prefix}
use cargobay.Database.Models.{UserRepository, AccessKey}
use cargobay.Database.Tables.{Db}
use cargobay.Middleware.User.{User}
use cargobay.Database.Keys.{validate_access_key}
use cargobay.Middleware.Authentication.{Credentials, access_key_scope, present}
use cargobay.Middleware.Authentication.Lookups.{IsActiveUser, IsLiveKey}

module _ (compare_hash : String → String → Bool) (sha256_hex : String → String)
    (decode_base64 : String → Option String) where
  -- the text that a request presents as a token
  abbrev pub IsPresented : Credentials → String → Type 0
  IsPresented c token =
      ((c.authorization ≡ "") × (c.nuget_api_key ≡ token))
      ⊎ (cut_prefix "Bearer " c.authorization ≡ some token)

  -- the name and the password of a request with Basic credentials
  abbrev pub IsLogin : Credentials → String → String → Type 0
  IsLogin c username password =
      (basic : String) × (decoded : String) × (cut_prefix "Basic " c.authorization ≡ some basic)
      × (decode_base64 basic ≡ some decoded)
      × (cut ":" decoded ≡ some (username, password))

  -- What shows that a request is a user's, with the scope that this gives him.
  pub data Attested (c : Credentials) (db : Db) (user : User) : Type 0 where
    by_password :
        (u : UserRepository) (password : String)
        → IsActiveUser db u
        → IsLogin c u.username password
        → compare_hash u.password_hash password ≡ true
        → user.user_id ≡ u.user_id
        → user.scope ≡ "full"
        → Attested c db user
    by_password_token :
        (u : UserRepository) (k : AccessKey) (password : String)
        → IsActiveUser db u
        → IsLogin c u.username password
        → IsLiveKey db k
        → k.key_hash ≡ sha256_hex password
        → k.user_id ≡ u.user_id
        → user.user_id ≡ u.user_id
        → user.scope ≡ access_key_scope k
        → Attested c db user
    by_token :
        (u : UserRepository) (k : AccessKey) (token : String)
        → IsActiveUser db u
        → IsPresented c token
        → IsLiveKey db k
        → k.key_hash ≡ sha256_hex token
        → k.user_id ≡ u.user_id
        → user.user_id ≡ u.user_id
        → user.scope ≡ access_key_scope k
        → Attested c db user
    -- The text presented is the hash that the table stores for a key, of any type, and the lookup
    -- of it as a token gives no key.
    by_stored_hash :
        (u : UserRepository) (k : AccessKey) (hash : String)
        → IsActiveUser db u
        → IsPresented c hash
        → present (validate_access_key (sha256_hex hash) db).1 ≡ none
        → IsLiveKey db k
        → k.key_hash ≡ hash
        → k.user_id ≡ u.user_id
        → user.user_id ≡ u.user_id
        → user.scope ≡ access_key_scope k
        → Attested c db user
