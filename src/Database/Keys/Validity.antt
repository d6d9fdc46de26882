-- ===== src/Database/Keys/Validity.antt =====
-- Which keys are valid: the rows that ValidateAccessKey finds, how long a session lives, and that a
-- revoked key stays revoked.
use mathlib.Core.Option
use cargobay.Prelude.{
  ℕ, String, ◌≡◌, ◌≤◌, ◌<◌, ◌+◌, refl, sym, ap, ◌∙◌, Bool, true, Option, none, some, List, [], ◌∷◌,
  Memᴰ, arith, Error, Result, ok, lt→ltb, Bool-cases, inl, inr, eq_iff,
}
use cargobay.Database.Models.{AccessKey}
use cargobay.Database.Tables.Runs.{exec_ran}
use cargobay.Database.Tables.{Db, exec, exec_at, finish, find_where, update_where}
use cargobay.Database.Registries.Default.{find_where_sound}
use cargobay.Database.Keys.{
  day, returning, unexpired, is_valid, used, without_description, validate_access_key,
}

-- what a statement that returns a row did, where it returned one
pub returning_ok :
    {A : Type 0} (text : String) (row : A) (ran : Db × Option Error) (db' : Db) (a : A)
    → returning text row ran ≡ (db', ok a)
    → (ran ≡ (db', none)) × (row ≡ a)
returning_ok text row (db, none) db' a h = ground arith
returning_ok text row (db, some e) db' a h = cc

found_row :
    (now : ℕ) (row : Option AccessKey) {key : AccessKey}
    → Option.map (λ k. without_description (used now k)) row ≡ some key
    → (k : AccessKey) × (row ≡ some k) × (without_description (used now k) ≡ key)
found_row now none h = cc
found_row now (some k) h = (k, refl, Option.some-injective _ _ h)

unexpired_earlier : (a b : ℕ) (t : Option ℕ) → a ≤ b → unexpired b t ≡ true → unexpired a t ≡ true
unexpired_earlier a b none le h = refl
unexpired_earlier a b (some t) le h = ground arith

-- What a query finds after an update of the rows that another one finds: the updated row, where the
-- new query finds no row that the old one did not.
find_where-update_where :
    {A : Type 0} (old new : A → Bool) (update : A → A) (xs : List A) {x : A}
    → ((y : A) → new y ≡ true → old y ≡ true)
    → find_where old xs ≡ some x
    → new (update x) ≡ true
    → find_where new (update_where old update xs) ≡ some (update x)
unfolding find_where update_where
find_where-update_where old new update [] within h e = cc
find_where-update_where old new update (y ∷ ys) {x} within h e = elim (Bool-cases (old y)) [
  | inl o ↦
      let p : y ≡ x = Option.some-injective _ _ (rw (o, find_where) at h) in
      rw (o, ap update p, e) refl
  | inr o ↦ elim (Bool-cases (new y)) [
    | inl n ↦ cc (within y n, o)
    | inr n ↦
        rw (o, n) (find_where-update_where old new update ys within (rw (o, find_where) at h) e)
  ]
]

-- what ValidateAccessKey found and left, where it ran
validated :
    (key_hash : String) (db db' : Db) (found : Option AccessKey)
    → validate_access_key key_hash db ≡ (db', ok found)
    → let test = is_valid key_hash db.now in
      (Option.map (λ k. without_description (used db.now k)) (find_where test db.access_keys)
        ≡ found)
      × (db'.access_keys ≡ update_where test (used db.now) db.access_keys)
unfolding validate_access_key
validated key_hash db db' found h =
    let test = is_valid key_hash db.now in
    let statement : Db → Result Db =
      λ d. ok (record d { access_keys = update_where test (used db.now) d.access_keys }) in
    let row =
      Option.map (λ k. without_description (used db.now k)) (find_where test db.access_keys) in
    let (ran, same) =
      returning_ok "failed to validate access key" row (exec statement db) db' found h in
    let (rest, e) = exec_ran statement db db' ran in
    let q : record db {
      outcomes = rest;
      access_keys = update_where test (used db.now) db.access_keys;
    }
        ≡ db' =
      ground arith in
    (same, sym (ap (λ (d : Db). d.access_keys) q))

-- what ValidateAccessKey answers, where no statement fails
pub validating :
    (key_hash : String) (db : Db)
    → db.outcomes ≡ []
    → (validate_access_key key_hash db).1
      ≡ ok (
          Option.map
            (λ k. without_description (used db.now k))
            (find_where (is_valid key_hash db.now) db.access_keys))
unfolding validate_access_key exec exec_at finish
validating key_hash db runs = rw (runs, exec, returning) refl

-- ValidateAccessKey answers with a key only for a row of that hash that is active and not expired
-- now.
pub validate_access_key_sound :
    (key_hash : String) (db db' : Db) (key : AccessKey)
    → validate_access_key key_hash db ≡ (db', ok (some key))
    → (row : AccessKey) × Memᴰ row db.access_keys
      × (row.key_hash ≡ key_hash)
      × (row.is_active ≡ true)
      × (unexpired db.now row.expires_at ≡ true)
      × (key ≡ without_description (used db.now row))
unfolding validate_access_key
validate_access_key_sound key_hash db db' key h =
    let test = is_valid key_hash db.now in
    let found = (validated key_hash db db' (some key) h).0 in
    let (row, e, same) = found_row db.now (find_where test db.access_keys) found in
    let (m, t) = find_where_sound test db.access_keys e in
    (row, m, ground (arith, eq_iff row.key_hash key_hash), ground arith, ground arith, sym same)

-- A session that was validated is valid again at any time in the 24 hours after that, if the keys
-- were not changed in the meantime and the statement that validates it does not fail; it then
-- expires 24 hours later.
pub session_slides :
    (key_hash : String) (db db' later : Db) (key : AccessKey)
    → validate_access_key key_hash db ≡ (db', ok (some key))
    → key.key_type ≡ "session"
    → later.access_keys ≡ db'.access_keys
    → later.outcomes ≡ []
    → db.now ≤ later.now
    → later.now < db.now + day
    → (again : AccessKey) × ((validate_access_key key_hash later).1 ≡ ok (some again))
      × (again.id ≡ key.id)
      × (again.expires_at ≡ some (later.now + day))
unfolding validate_access_key
session_slides key_hash db db' later key h session same runs after before =
    let (found, left) = validated key_hash db db' (some key) h in
    let (row, e, k) =
      found_row db.now (find_where (is_valid key_hash db.now) db.access_keys) found in
    let again = used db.now row in
    let same_type : row.key_type ≡ key.key_type = ap (λ (x : AccessKey). x.key_type) k in
    let (m, valid) = find_where_sound (is_valid key_hash db.now) db.access_keys e in
    let test = is_valid key_hash db.now in
    let test' = is_valid key_hash later.now in
    let still : test' again ≡ true =
      ground (arith, eq_iff row.key_type "session", lt→ltb later.now (db.now + day) before) in
    let refound : find_where test' later.access_keys ≡ some again =
      rw (same, left)
        (find_where-update_where test test' (used db.now) db.access_keys
          (λ y n. ground (arith, unexpired_earlier db.now later.now y.expires_at after)) e still) in
    (
      without_description (used later.now again),
      validating key_hash later runs ∙ rw refound refl,
      ap (λ (x : AccessKey). x.id) k,
      ground (arith, eq_iff row.key_type "session"),
    )
