-- ===== src/Middleware/Authentication/Lookups.antt =====
-- What the lookups of users and keys find, and what they leave as it was.
use mathlib.Core.Option
use cargobay.Prelude.{
  String, ◌≡◌, refl, sym, subst, ap, ◌∙◌, Bool, true, Option, none, some, List, [], ◌∷◌, Memᴰ,
  arith, Result, ok, err, map-some, Bool-cases, inl, inr, ◌==◌, eq_iff,
}
use cargobay.Database.Models.{UserRepository, AccessKey}
use cargobay.Database.Tables.{Db, exec, finish, find_where, update_where}
use cargobay.Database.Tables.Runs.{exec_cases, exec_preserves, ok_injective}
use cargobay.Database.Registries.Default.{find_where_sound, query_ok}
use cargobay.Database.Keys.{unexpired, is_valid, used, validate_access_key}
use cargobay.Database.Keys.Validity.{validate_access_key_sound}
use cargobay.Database.Keys.Revocation.{returning_state}
use cargobay.Database.Users.{with_roles, get_user_where, get_user_by_id, get_user_by_username}
use cargobay.Middleware.Authentication.{access_key_scope, present, active_user}

-- an active user of the table
abbrev pub IsActiveUser : Db → UserRepository → Type 0
IsActiveUser db u = Memᴰ u db.users × (u.is_active ≡ true)

-- a key of the table that may be used now
abbrev pub IsLiveKey : Db → AccessKey → Type 0
IsLiveKey db k =
    Memᴰ k db.access_keys × (k.is_active ≡ true) × (unexpired db.now k.expires_at ≡ true)

active_user_sound :
    (found : Result (Option UserRepository)) {u : UserRepository}
    → active_user found ≡ some u
    → (found ≡ ok (some u)) × (u.is_active ≡ true)
unfolding active_user
active_user_sound (ok (some x)) {u} h = elim (Bool-cases x.is_active) [
  | inl e ↦
      let p : x ≡ u = ground arith in
      (ap (λ y. ok (some y)) p, ap (λ (y : UserRepository). y.is_active) (sym p) ∙ e)
  | inr e ↦ cc (rw (e, active_user) at h)
]
active_user_sound (ok none) h = cc
active_user_sound (err e) h = cc

-- an active user that a query finds
pub active_where :
    (test : UserRepository → Bool) (db : Db) {u : UserRepository}
    → active_user (get_user_where test db) ≡ some u
    → (row : UserRepository) × IsActiveUser db row × (test row ≡ true) × (with_roles db row ≡ u)
unfolding get_user_where
active_where test db {u} h =
    let (found, active) = active_user_sound (get_user_where test db) h in
    let (row, e, same) =
      map-some (with_roles db) (find_where test db.users)
        (query_ok "failed to get user" db _ found) in
    let (m, t) = find_where_sound test db.users e in
    (row, (m, ap (λ (x : UserRepository). x.is_active) same ∙ active), t, same)

-- a name or an ID that finds an active user is his
pub active_by_name :
    (username : String) (db : Db) {u : UserRepository}
    → active_user (get_user_by_username db username) ≡ some u
    → (row : UserRepository) × IsActiveUser db row
      × (row.username ≡ username)
      × (with_roles db row ≡ u)
unfolding get_user_by_username
active_by_name username db h =
    let (row, m, t, same) = active_where (λ u. u.username == username) db h in
    (row, m, (eq_iff row.username username).0 t, same)

pub active_by_id :
    (user_id : String) (db : Db) {u : UserRepository}
    → active_user (get_user_by_id db user_id) ≡ some u
    → (row : UserRepository) × IsActiveUser db row
      × (row.user_id ≡ user_id)
      × (with_roles db row ≡ u)
unfolding get_user_by_id
active_by_id user_id db h =
    let (row, m, t, same) = active_where (λ u. u.user_id == user_id) db h in
    (row, m, (eq_iff row.user_id user_id).0 t, same)

-- what the validation of a key leaves as it was
pub unchanged :
    (key_hash : String) (db : Db)
    → let db' = (validate_access_key key_hash db).0 in (db'.users ≡ db.users) × (db'.now ≡ db.now)
unfolding validate_access_key
unchanged key_hash db = rw returning_state (
    exec_preserves (λ d. (d.users ≡ db.users) × (d.now ≡ db.now)) _ db (λ d rest p. p)
      (λ d d' p e. subst (λ (x : Db). (x.users ≡ db.users) × (x.now ≡ db.now)) (ok_injective e) p)
      (refl, refl))

update_where-none :
    {A : Type 0} (test : A → Bool) (update : A → A) (xs : List A)
    → find_where test xs ≡ none
    → update_where test update xs ≡ xs
unfolding find_where update_where
update_where-none test update [] h = refl
update_where-none test update (x ∷ xs) h = elim (Bool-cases (test x)) [
  | inl e ↦ cc (rw (e, find_where) at h)
  | inr e ↦ rw (e, update_where-none test update xs (rw (e, find_where) at h)) refl
]

map-none {ℓ κ} :
    {A : Type ℓ} {B : Type κ} (f : A → B) (o : Option A) → Option.map f o ≡ none → o ≡ none
map-none f none h = refl
map-none f (some x) h = cc

present-some {ℓ} :
    {A : Type ℓ} (found : Result (Option A)) {a : A} → present found ≡ some a → found ≡ ok (some a)
present-some (ok (some x)) h = ap ok h
present-some (ok none) h = cc
present-some (err e) h = cc

-- a validation that finds no key changes none
pub missed :
    (key_hash : String) (db : Db)
    → present (validate_access_key key_hash db).1 ≡ none
    → (validate_access_key key_hash db).0.access_keys ≡ db.access_keys
unfolding validate_access_key exec finish
missed key_hash db h =
    let test = is_valid key_hash db.now in
    let (rest, how) =
      exec_cases (λ d. record d { access_keys = update_where test (used db.now) d.access_keys })
        db in
    elim how [
      | inl q ↦
          rw (q, validate_access_key)
            (update_where-none test (used db.now) db.access_keys
              (map-none _ _ (rw (q, validate_access_key) at h)))
      | inr (e, q) ↦ rw (q, validate_access_key) refl
    ]

-- a key that a validation finds
pub live :
    (key_hash : String) (db : Db) {key : AccessKey}
    → present (validate_access_key key_hash db).1 ≡ some key
    → (k : AccessKey) × IsLiveKey db k
      × (k.key_hash ≡ key_hash)
      × (key.user_id ≡ k.user_id)
      × (access_key_scope key ≡ access_key_scope k)
unfolding access_key_scope
live key_hash db {key} h =
    let db' = (validate_access_key key_hash db).0 in
    let ran : validate_access_key key_hash db ≡ (db', ok (some key)) =
      ap (λ r. (db', r)) (present-some _ h) in
    let (row, m, hash, active, fresh, same) = validate_access_key_sound key_hash db db' key ran in
    (
      row,
      (m, active, fresh),
      hash,
      ap (λ (k : AccessKey). k.user_id) same,
      ap access_key_scope same,
    )
