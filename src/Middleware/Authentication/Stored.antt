-- ===== src/Middleware/Authentication/Stored.antt =====
-- That what the table stores for a token is itself accepted as one.
use cargobay.Prelude.{String, ◌≡◌, refl, ◌∙◌, Bool, Option, none, some, List, [], ◌∷◌, Error, ok}
use cargobay.Database.Models.{AccessKey}
use cargobay.Database.Tables.{Db, exec, exec_at, finish, find_where, update_where}
use cargobay.Database.Keys.{is_valid, used, without_description, validate_access_key}
use cargobay.Database.Keys.Validity.{validating}
use cargobay.Database.Keys.Revocation.{returning_state}
use cargobay.Auth.{hash_token}
use cargobay.Middleware.Authentication.{present, find_key}
use cargobay.Middleware.Authentication.Lookups.{unchanged, missed}

kept_at :
    (os : List (Option Error)) (change : List AccessKey → List AccessKey) (db : Db)
    → os ≡ []
    → (exec_at os (λ d. ok (record d { access_keys = change d.access_keys })) db).0.outcomes
      ≡ db.outcomes
unfolding exec_at finish
kept_at [] change db e = refl
kept_at (o ∷ os) change db e = cc

runs_on :
    (key_hash : String) (db : Db)
    → db.outcomes ≡ []
    → (validate_access_key key_hash db).0.outcomes ≡ []
unfolding validate_access_key exec
runs_on key_hash db runs =
    let change = update_where (is_valid key_hash db.now) (used db.now) in
    rw returning_state (kept_at db.outcomes change db runs ∙ runs)

-- Where no statement fails, a token that is the stored hash of a valid key finds that key, personal
-- or not, unless the hash of this text is itself the stored hash of a valid key: whoever reads the
-- table of keys can present what it stores.
pub find_key-stored :
    (compare_hash : String → String → Bool) (sha256_hex : String → String)
    (decode_base64 : String → Option String) (stored : String) (db : Db) (k : AccessKey)
    → db.outcomes ≡ []
    → find_where (is_valid (sha256_hex stored) db.now) db.access_keys ≡ none
    → find_where (is_valid stored db.now) db.access_keys ≡ some k
    → (find_key compare_hash sha256_hex decode_base64 stored db).1
      ≡ some (without_description (used db.now k))
unfolding find_key hash_token
find_key-stored compare_hash sha256_hex decode_base64 stored db k runs unhashed found =
    let first = validate_access_key (sha256_hex stored) db in
    let none_found : present first.1 ≡ none =
      rw (validating (sha256_hex stored) db runs) (rw unhashed refl) in
    let keys = missed (sha256_hex stored) db none_found in
    let clock = (unchanged (sha256_hex stored) db).1 in
    let again : present (validate_access_key stored first.0).1
        ≡ some (without_description (used db.now k)) =
      rw (validating stored first.0 (runs_on (sha256_hex stored) db runs))
        (rw (keys, clock, found) refl) in
    rw (none_found, find_key, hash_token) again
