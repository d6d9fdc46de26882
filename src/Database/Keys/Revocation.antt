-- ===== src/Database/Keys/Revocation.antt =====
-- That a revoked key stays revoked, whatever is done with the keys afterwards.
use cargobay.Prelude.{
  any-append, ℕ, String, ◌≡◌, ◌≢◌, ◌+◌, refl, sym, subst, ap, ◌∙◌, Bool, true, false, ◌&&◌, ◌||◌,
  Option, none, some, List, [], ◌∷◌, arith, Error, ok, any, any_complete, Bool-cases, inl, inr,
  ◌==◌, eq_iff,
}
use cargobay.Database.Models.{AccessKey}
use cargobay.Database.Tables.{Db, update_where}
use cargobay.Database.Tables.Runs.{
  exec_ran, exec_preserves, ok_of, ok_injective, failing_state, failing-none,
}
use cargobay.Database.Keys.{
  returning, insert_key, create_access_key, create_personal_access_token, used, validate_access_key,
  invalidate_access_key,
}
use cargobay.Database.Keys.Validity.{validate_access_key_sound}

-- The operations on keys, with their arguments, and the passing of time.
pub data KeyOp : Type 0 where
  create_session : String → String → String → String → List String → Option ℕ → KeyOp
  create_token : String → String → String → String → List String → Option ℕ → String → KeyOp
  validate : String → KeyOp
  revoke : String → KeyOp
  wait : ℕ → KeyOp

unfoldable pub step : KeyOp → Db → Db
step (create_session key_id secret user_id name permissions expires_at) db =
    (create_access_key key_id secret user_id name permissions expires_at db).0
step (create_token key_id user_id name token_hash scope expires_at description) db =
    (create_personal_access_token key_id user_id name token_hash scope expires_at description db).0
step (validate key_hash) db = (validate_access_key key_hash db).0
step (revoke id) db = (invalidate_access_key id db).0
step (wait t) db = record db { now = db.now + t }

unfoldable pub run : List KeyOp → Db → Db
unfolding step
run [] db = db
run (op ∷ ops) db = run ops (step op db)

-- the key is in the table, and is not active
abbrev pub IsRevoked : String → Db → Type 0
IsRevoked id db =
    (any (λ k. k.id == id) db.access_keys ≡ true)
    × (any (λ k. k.id == id && k.is_active) db.access_keys ≡ false)

any_wider :
    {A : Type 0} (p q : A → Bool) (xs : List A)
    → ((x : A) → p x ≡ true → q x ≡ true)
    → any p xs ≡ true
    → any q xs ≡ true
any_wider p q [] h e = e
any_wider p q (x ∷ xs) h e = elim (Bool-cases (p x)) [
  | inl t ↦ rw (h x t) refl
  | inr t ↦ ground (arith, any_wider p q xs h (rw t at e))
]

-- an update under which nothing comes to hold, or nothing ceases to
update_gains :
    (p same : AccessKey → Bool) (update : AccessKey → AccessKey) (xs : List AccessKey)
    → ((x : AccessKey) → p (update x) ≡ true → p x ≡ true)
    → any p xs ≡ false
    → any p (update_where same update xs) ≡ false
unfolding update_where
update_gains p same update [] h e = e
update_gains p same update (x ∷ xs) h e =
    let rest = update_gains p same update xs h (ground arith) in
    elim (Bool-cases (same x)) [
      | inl s ↦ elim (Bool-cases (p (update x))) [
        | inl t ↦ ground (arith, h x t)
        | inr t ↦ rw (s, t) rest
      ]
      | inr s ↦ rw s (ground arith)
    ]

update_loses :
    (p same : AccessKey → Bool) (update : AccessKey → AccessKey) (xs : List AccessKey)
    → ((x : AccessKey) → p x ≡ true → p (update x) ≡ true)
    → any p xs ≡ true
    → any p (update_where same update xs) ≡ true
unfolding update_where
update_loses p same update [] h e = e
update_loses p same update (x ∷ xs) h e = elim (Bool-cases (p x)) [
  | inr t ↦ ground (arith, update_loses p same update xs h (rw t at e))
  | inl t ↦ elim (Bool-cases (same x)) [ inl s ↦ rw (s, h x t) refl | inr s ↦ rw (s, t) refl ]
]

pub returning_state :
    {A : Type 0} (text : String) (row : A) (ran : Db × Option Error)
    → (returning text row ran).0 ≡ ran.0
returning_state text row (db, none) = refl
returning_state text row (db, some e) = refl

module _ (id : String) where
  insert_keeps :
      (key : AccessKey) (d d' : Db) → IsRevoked id d → insert_key key d ≡ ok d' → IsRevoked id d'
  unfolding insert_key
  insert_keeps key d d' (there, dead) h =
      let taken = λ (k : AccessKey). k.id == key.id || k.key_hash == key.key_hash in
      elim (Bool-cases (any taken d.access_keys)) [
        | inl t ↦ cc (rw (t, insert_key) at h)
        | inr t ↦ elim (Bool-cases (key.id == id)) [
          | inl same ↦
              let clash =
                any_wider (λ k. k.id == id) taken d.access_keys
                  (λ k e. ground (arith, eq_iff k.id id, eq_iff key.id id, eq_iff k.id key.id))
                  there in
              cc (clash, t)
          | inr other ↦
              let left = ok_injective (rw (t, insert_key) at h) in
              subst (IsRevoked id) left (rw any-append (ground arith), rw any-append (ground arith))
        ]
      ]

  update_keeps :
      (same : AccessKey → Bool) (update : AccessKey → AccessKey) (d d' : Db)
      → ((x : AccessKey) → (update x).id ≡ x.id)
      → ((x : AccessKey) → (update x).is_active ≡ true → x.is_active ≡ true)
      → IsRevoked id d
      → ok_of (record d { access_keys = update_where same update d.access_keys }) ≡ ok d'
      → IsRevoked id d'
  update_keeps same update d d' ids actives (there, dead) h =
      subst (IsRevoked id) (ok_injective h) (
        update_loses (λ k. k.id == id) same update d.access_keys (λ x e. rw (ids x) e) there,
        update_gains (λ k. k.id == id && k.is_active) same update d.access_keys
            (λ x e. ground (arith, ids x, actives x)) dead,
      )

  step-IsRevoked : (op : KeyOp) (db : Db) → IsRevoked id db → IsRevoked id (step op db)
  unfolding step create_access_key create_personal_access_token validate_access_key
      invalidate_access_key
  step-IsRevoked (create_session key_id secret user_id name permissions expires_at) db h =
      rw returning_state (exec_preserves (IsRevoked id) _ db (λ d rest p. p) (insert_keeps _) h)
  step-IsRevoked (create_token key_id user_id name token_hash scope expires_at description) db h =
      rw returning_state (exec_preserves (IsRevoked id) _ db (λ d rest p. p) (insert_keeps _) h)
  step-IsRevoked (validate key_hash) db h = rw returning_state (
      exec_preserves (IsRevoked id) _ db (λ d rest p. p)
        (λ d d'. update_keeps _ (used db.now) d d' (λ x. refl) (λ x e. e)) h)
  step-IsRevoked (revoke other) db h = rw failing_state (
      exec_preserves (IsRevoked id) _ db (λ d rest p. p)
        (λ d d'. update_keeps _ (λ k. record k { is_active = false }) d d' (λ x. refl) (λ x e. cc))
        h)
  step-IsRevoked (wait t) db h = h

  run-IsRevoked : (ops : List KeyOp) (db : Db) → IsRevoked id db → IsRevoked id (run ops db)
  unfolding run
  run-IsRevoked [] db h = h
  run-IsRevoked (op ∷ ops) db h = run-IsRevoked ops (step op db) (step-IsRevoked op db h)

  deactivated :
      (xs : List AccessKey)
      → any
          (λ k. k.id == id && k.is_active)
          (update_where (λ k. k.id == id) (λ k. record k { is_active = false }) xs)
        ≡ false
  unfolding update_where
  deactivated [] = refl
  deactivated (x ∷ xs) = elim (Bool-cases (x.id == id)) [
    | inl e ↦ rw e (ground (arith, deactivated xs))
    | inr e ↦ rw e (ground (arith, deactivated xs))
  ]

  revoked :
      (db db' : Db)
      → invalidate_access_key id db ≡ (db', none)
      → any (λ k. k.id == id) db.access_keys ≡ true
      → IsRevoked id db'
  unfolding invalidate_access_key
  revoked db db' h there =
      let (rest, e) = exec_ran _ db db' (failing-none _ _ db' h) in
      subst (IsRevoked id) (ok_injective e) (
        update_loses (λ k. k.id == id) _ (λ k. record k { is_active = false }) db.access_keys
            (λ x p. p) there,
        deactivated db.access_keys,
      )

  -- Once the program has revoked a key, no sequence of operations makes it valid again: not the
  -- passing of time, the use of other keys, the creation of keys or further revocations. Whatever
  -- key is then presented, the answer is another key or none.
  pub revoked_for_good :
      (db db' last : Db) (ops : List KeyOp) (key_hash : String) (key : AccessKey)
      → any (λ k. k.id == id) db.access_keys ≡ true
      → invalidate_access_key id db ≡ (db', none)
      → validate_access_key key_hash (run ops db') ≡ (last, ok (some key))
      → key.id ≢ id
  revoked_for_good db db' last ops key_hash key there gone valid same =
      let (found, dead) = run-IsRevoked ops db' (revoked db db' gone there) in
      let (row, m, hash, active, fresh, k) =
        validate_access_key_sound key_hash (run ops db') last key valid in
      let id_of : row.id ≡ id = sym (ap (λ (x : AccessKey). x.id) k) ∙ same in
      cc (any_complete (λ k. k.id == id && k.is_active) m (ground (arith, eq_iff row.id id)), dead)
