-- ===== src/Database/Keys.antt =====
-- The access keys of database.go: session keys, which login makes, and personal access tokens. What
-- the program draws at random (an ID, a session's secret) is an argument. A key's owner is there:
-- else the insertion fails, as `outcomes` has it.
pub mod Validity
pub mod Revocation
use Prim.Native.String
use mathlib.Core.Option
use cargobay.Prelude.{
  ℕ, String, Bool, true, false, ◌&&◌, ◌||◌, ◌+◌, Option, none, some, List, [], ◌∷◌, ◌++◌, Error,
  message, Result, ok, err, any, keep, ltb, ◌==◌, if◌then◌else◌,
}
use cargobay.Database.Models.{AccessKey}
use cargobay.Database.Tables.{Db, query, exec, failing, find_where, update_where}

-- 24 hours
abbrev pub day : ℕ
day = 86400000000000

-- what RETURNING gives back: the row, or the error of the statement
abbrev pub returning {ℓ} : {A : Type ℓ} → String → A → Db × Option Error → Db × Result A
returning text row (db, none) = (db, ok row)
returning text row (db, some e) = (db, err (Error.wrap text e))

unfoldable pub insert_key : AccessKey → Db → Result Db
insert_key key d =
    if any (λ k. k.id == key.id || k.key_hash == key.key_hash) d.access_keys
    then err (message "duplicate key value violates unique constraint")
    else ok (record d { access_keys = d.access_keys ++ key ∷ [] })

unfoldable pub create_access_key :
    String → String → String → String → List String → Option ℕ → Db → Db × Result AccessKey
unfolding insert_key
create_access_key key_id secret user_id name permissions expires_at db =
    let key : AccessKey = record {
      id = key_id;
      user_id = user_id;
      name = name;
      key_hash = String.◌++◌ "key_" secret;
      permissions = permissions;
      created_at = db.now;
      last_used = none;
      expires_at = expires_at;
      is_active = true;
      key_type = "session";
      description = "";
    } in
    returning "failed to create access key" key (exec (insert_key key) db)

unfoldable pub create_personal_access_token :
    String → String → String → String → List String → Option ℕ → String → Db → Db × Result AccessKey
unfolding insert_key
create_personal_access_token key_id user_id name token_hash scope expires_at description db =
    let key : AccessKey = record {
      id = key_id;
      user_id = user_id;
      name = name;
      key_hash = token_hash;
      permissions = scope;
      created_at = db.now;
      last_used = none;
      expires_at = expires_at;
      is_active = true;
      key_type = "personal";
      description = description;
    } in
    returning "failed to create personal access token" key (exec (insert_key key) db)

-- `expires_at IS NULL OR expires_at > now`
abbrev pub unexpired : ℕ → Option ℕ → Bool
unexpired now none = true
unexpired now (some t) = ltb now t

-- the WHERE clause of ValidateAccessKey
abbrev pub is_valid : String → ℕ → AccessKey → Bool
is_valid key_hash now k = k.key_hash == key_hash && k.is_active && unexpired now k.expires_at

-- its SET clause
abbrev pub used : ℕ → AccessKey → AccessKey
used now k = record k {
  last_used = some now;
  expires_at = if k.key_type == "session" then some (now + day) else k.expires_at;
}

-- its RETURNING clause, which leaves the description out
abbrev pub without_description : AccessKey → AccessKey
without_description k = record k { description = "" }

unfoldable pub validate_access_key : String → Db → Db × Result (Option AccessKey)
unfolding find_where update_where
validate_access_key key_hash db =
    let test = is_valid key_hash db.now in
    returning "failed to validate access key"
      (Option.map (λ k. without_description (used db.now k)) (find_where test db.access_keys))
      (exec (λ d. ok (record d { access_keys = update_where test (used db.now) d.access_keys })) db)

unfoldable pub invalidate_access_key : String → Db → Db × Option Error
unfolding failing update_where
invalidate_access_key id db = failing "failed to invalidate access key" (
    exec
      (λ d. ok (record d {
        access_keys =
            update_where (λ k. k.id == id) (λ k. record k { is_active = false }) d.access_keys;
      }))
      db)

-- ORDER BY created_at DESC
unfoldable pub insert_newest : AccessKey → List AccessKey → List AccessKey
insert_newest k [] = k ∷ []
insert_newest k (x ∷ xs) =
    let later = x ∷ insert_newest k xs in
    if ltb k.created_at x.created_at then later else k ∷ x ∷ xs

unfoldable pub newest_first : List AccessKey → List AccessKey
unfolding insert_newest
newest_first [] = []
newest_first (k ∷ ks) = insert_newest k (newest_first ks)

unfoldable pub list_keys_where : (AccessKey → Bool) → String → Db → Result (List AccessKey)
unfolding query newest_first
list_keys_where extra user_id db =
    query "failed to list access keys" db
      (newest_first (keep (λ k. k.user_id == user_id && extra k) db.access_keys))

unfoldable pub list_user_access_keys : String → Db → Result (List AccessKey)
unfolding list_keys_where
list_user_access_keys user_id db = list_keys_where (λ _. true) user_id db

unfoldable pub list_user_personal_access_tokens : String → Db → Result (List AccessKey)
unfolding list_keys_where
list_user_personal_access_tokens user_id db =
    list_keys_where (λ k. k.key_type == "personal") user_id db
