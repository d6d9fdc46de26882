-- ===== src/Auth/Sessions.antt =====
-- That a login opens a session.
use Prim.Native.String
use mathlib.Core.Option
use cargobay.Prelude.{
  ℕ, String, ◌≡◌, ◌<◌, ◌+◌, refl, sym, subst, ap, ◌∙◌, Bool, true, false, ◌||◌, Option, none, some,
  List, [], ◌∷◌, ◌++◌, arith, Result, ok, err, any, lt→ltb, Bool-cases, Option-cases, Result-cases,
  inl, inr, ◌==◌, eq_refl,
}
use cargobay.Database.Models.{UserRepository, AccessKey}
use cargobay.Database.Tables.{Db, exec, find_where}
use cargobay.Database.Tables.Runs.{exec_ran, exec_preserves, ok_injective, failing_state}
use cargobay.Database.Keys.{
  day, unexpired, insert_key, create_access_key, is_valid, used, without_description,
  validate_access_key,
}
use cargobay.Database.Keys.Validity.{returning_ok, validating}
use cargobay.Database.Users.{update_user, update_user_last_login, get_user_by_username}
use cargobay.Database.Roles.{get_user_roles}
use cargobay.Auth.{open_session, or_empty, LoginOutput, verify_password, output, login}

-- what an insertion of a key that ran leaves
inserted :
    (key : AccessKey) (d d' : Db)
    → insert_key key d ≡ ok d'
    → (any (λ k. k.id == key.id || k.key_hash == key.key_hash) d.access_keys ≡ false)
      × (d'.access_keys ≡ d.access_keys ++ key ∷ [])
unfolding insert_key
inserted key d d' h =
    elim (Bool-cases (any (λ k. k.id == key.id || k.key_hash == key.key_hash) d.access_keys)) [
      | inl e ↦ cc (rw (e, insert_key) at h)
      | inr e ↦
          let p = ok_injective (rw (e, insert_key) at h) in
          (e, ap (λ (x : Db). x.access_keys) (sym p))
    ]

-- a new key is found by its hash
found_last :
    (key : AccessKey) (now : ℕ) (ks : List AccessKey)
    → any (λ k. k.id == key.id || k.key_hash == key.key_hash) ks ≡ false
    → is_valid key.key_hash now key ≡ true
    → find_where (is_valid key.key_hash now) (ks ++ key ∷ []) ≡ some key
unfolding find_where
found_last key now [] h v = rw v refl
found_last key now (k ∷ ks) h v =
    let other : is_valid key.key_hash now k ≡ false = ground arith in
    rw other (found_last key now ks (ground arith) v)

-- the row of a session key that was created
session_created :
    (key_id secret user_id name : String) (permissions : List String) (expires_at : Option ℕ)
    (db db' : Db) (key : AccessKey)
    → create_access_key key_id secret user_id name permissions expires_at db ≡ (db', ok key)
    → (any (λ k. k.id == key.id || k.key_hash == key.key_hash) db.access_keys ≡ false)
      × (db'.access_keys ≡ db.access_keys ++ key ∷ [])
      × (key.user_id ≡ user_id)
      × (key.is_active ≡ true)
      × (key.expires_at ≡ expires_at)
      × (key.permissions ≡ permissions)
unfolding create_access_key
session_created key_id secret user_id name permissions expires_at db db' key h =
    let row : AccessKey = record {
      id = key_id;
      user_id = user_id;
      name = name;
      key_hash = String.◌++◌ "key_" secret;
      permissions = permissions;
      created_at = db.now;
      last_used = none;
      expires_at = expires_at;
      is_active = true;
      key_type = "session";
      description = "";
    } in
    let (ran, same) =
      returning_ok "failed to create access key" row (exec (insert_key row) db) db' key h in
    let (rest, e) = exec_ran (insert_key row) db db' ran in
    let (new, left) = inserted row (record db { outcomes = rest }) db' e in
    subst
      (λ (k : AccessKey).
        (any (λ j. j.id == k.id || j.key_hash == k.key_hash) db.access_keys ≡ false)
        × (db'.access_keys ≡ db.access_keys ++ k ∷ [])
        × (k.user_id ≡ user_id)
        × (k.is_active ≡ true)
        × (k.expires_at ≡ expires_at)
        × (k.permissions ≡ permissions))
      same (new, left, refl, refl, refl, refl)

-- what an answer to a login leaves of the keys
output-keys :
    (db : Db) (user : UserRepository) (roles : List String) (key : AccessKey)
    → ((output db user roles key).0.access_keys ≡ db.access_keys)
      × ((output db user roles key).1.access_token ≡ key.key_hash)
      × ((output db user roles key).1.user_id ≡ user.user_id)
unfolding output update_user_last_login update_user
output-keys db user roles key = (
  rw failing_state (
      exec_preserves (λ d. d.access_keys ≡ db.access_keys) _ db (λ d rest p. p)
        (λ d d' p e. subst (λ (x : Db). x.access_keys ≡ db.access_keys) (ok_injective e) p) refl),
  refl,
  refl,
)

abbrev answered : Db × LoginOutput → Db × Result LoginOutput
answered (db, out) = (db, ok out)

abbrev out_of : LoginOutput → Result LoginOutput → LoginOutput
out_of d (ok out) = out
out_of d (err e) = d

open_session_lem :
    (key_id secret : String) (db db' later : Db) (u : UserRepository) (out : LoginOutput)
    → open_session key_id secret db u ≡ (db', ok out)
    → later.access_keys ≡ db'.access_keys
    → later.outcomes ≡ []
    → later.now < db.now + day
    → (key : AccessKey) × (out.user_id ≡ u.user_id)
      × ((validate_access_key out.access_token later).1 ≡ ok (some key))
      × (key.user_id ≡ u.user_id)
unfolding open_session
open_session_lem key_id secret db db' later u out h kept runs before =
    let rights = "read" ∷ "write" ∷ [] in
    let made =
      create_access_key key_id secret u.user_id "login_session" rights (some (db.now + day)) db in
    let roles = or_empty (get_user_roles db u.user_id) in
    elim (Result-cases made.1) [
      | inr (x, e) ↦ cc (rw (e, open_session) at h)
      | inl (key, e) ↦
          let (new, left, owner, active, expiry, scope) =
            session_created key_id secret u.user_id "login_session" rights (some (db.now + day)) db
              made.0 key (ap (λ r. (made.0, r)) e) in
          let done : answered (output made.0 u roles key) ≡ (db', ok out) =
            rw (e, open_session) at h in
          let (same, token, id) = output-keys made.0 u roles key in
          let state = ap (λ (r : Db × Result LoginOutput). r.0.access_keys) done in
          let answer = ap (λ (r : Db × Result LoginOutput). out_of out r.1) done in
          let keys : later.access_keys ≡ db.access_keys ++ key ∷ [] =
            kept ∙ sym state ∙ same ∙ left in
          let fresh : unexpired later.now key.expires_at ≡ true =
            ap (unexpired later.now) expiry ∙ lt→ltb later.now (db.now + day) before in
          let valid : is_valid key.key_hash later.now key ≡ true =
            ground (arith, eq_refl key.key_hash) in
          let found : find_where (is_valid key.key_hash later.now) later.access_keys ≡ some key =
            ap (find_where (is_valid key.key_hash later.now)) keys
            ∙ found_last key later.now db.access_keys new valid in
          let hash : out.access_token ≡ key.key_hash =
            ap (λ (o : LoginOutput). o.access_token) (sym answer) ∙ token in
          (
            without_description (used later.now key),
            ap (λ (o : LoginOutput). o.user_id) (sym answer) ∙ id,
            ap (λ t. (validate_access_key t later).1) hash
                ∙ validating key.key_hash later runs
                ∙ ap (λ o. ok (Option.map (λ k. without_description (used later.now k)) o)) found,
            owner,
          )
    ]

module _ (compare_hash : String → String → Bool) (sha256_hex : String → String) where
  -- A login succeeds only for an active user of that name whose password it is. The token that it
  -- returns is then accepted as a key of this user for 24 hours, as long as nothing changes the keys
  -- and the statement that validates it does not fail.
  pub login_opens :
      (key_id secret username password : String) (db db' later : Db) (out : LoginOutput)
      → login compare_hash sha256_hex key_id secret db username password ≡ (db', ok out)
      → later.access_keys ≡ db'.access_keys
      → later.outcomes ≡ []
      → later.now < db.now + day
      → (u : UserRepository) × (key : AccessKey) × (get_user_by_username db username ≡ ok (some u))
        × (compare_hash u.password_hash password ≡ true)
        × (u.is_active ≡ true)
        × (out.user_id ≡ u.user_id)
        × ((validate_access_key out.access_token later).1 ≡ ok (some key))
        × (key.user_id ≡ u.user_id)
  unfolding login verify_password
  login_opens key_id secret username password db db' later out h kept runs before =
      elim (Result-cases (get_user_by_username db username)) [
        | inr (x, e) ↦ cc (rw (e, login) at h)
        | inl (found, e) ↦ elim (Option-cases found) [
          | inl n ↦ cc (rw (e ∙ ap ok n, login) at h)
          | inr (u, n) ↦ elim (Bool-cases (compare_hash u.password_hash password)) [
            | inr p ↦ cc (rw (e ∙ ap ok n, p, login, verify_password) at h)
            | inl p ↦ elim (Bool-cases u.is_active) [
              | inr a ↦ cc (rw (e ∙ ap ok n, p, a, login, verify_password) at h)
              | inl a ↦
                  let opened : open_session key_id secret db u ≡ (db', ok out) =
                    rw (e ∙ ap ok n, p, a, login, verify_password) at h in
                  let (key, own, valid, owner) =
                    open_session_lem key_id secret db db' later u out opened kept runs before in
                  (u, key, e ∙ ap ok n, p, a, own, valid, owner)
            ]
          ]
        ]
      ]
