-- ===== src/Middleware/Authentication/Attested.antt =====
-- That a request is attributed to a user only on his credentials.
use mathlib.Core.Option
use cargobay.Prelude.{
  String, ◌≡◌, ◌⊎◌, refl, sym, subst, ap, ◌∙◌, Bool, true, Option, none, some, Memᴰ, Bool-cases,
  Option-cases, inl, inr, ◌==◌, eq_iff,
}
use cargobay.Prelude.Text.{cut, cut_prefix}
use cargobay.Database.Models.{UserRepository, AccessKey}
use cargobay.Database.Tables.{Db}
use cargobay.Database.Keys.{unexpired, validate_access_key}
use cargobay.Database.Users.{with_roles, get_user_by_id, get_user_by_username}
use cargobay.Auth.{verify_password, hash_token}
use cargobay.Middleware.User.{User}
use cargobay.Middleware.Authentication.{
  Credentials, access_key_scope, load_user, present, active_user, user_of_key, with_db, find_key,
  resolve_token, resolve_password, resolve_basic, authenticate,
}
use cargobay.Middleware.Authentication.Lookups.{
  IsActiveUser, IsLiveKey, active_by_name, active_by_id, unchanged, missed, live,
}
use cargobay.Middleware.Authentication.Evidence.{IsPresented, IsLogin, Attested}
use cargobay.Rbac.Types.{Rbac}

module _ (compare_hash : String → String → Bool) (sha256_hex : String → String)
    (decode_base64 : String → Option String) where
  -- a key that a token finds
  KeyOf : (String → Type 0) → Db → AccessKey → Type 0
  KeyOf matches db key =
      (k : AccessKey) × IsLiveKey db k
      × matches k.key_hash
      × (key.user_id ≡ k.user_id)
      × (access_key_scope key ≡ access_key_scope k)

  find_key_sound :
      (token : String) (db : Db) {key : AccessKey}
      → (find_key compare_hash sha256_hex decode_base64 token db).1 ≡ some key
      → KeyOf
          (λ hash.
            (hash ≡ sha256_hex token)
            ⊎ ((present (validate_access_key (sha256_hex token) db).1 ≡ none) × (hash ≡ token)))
          db
          key
  unfolding find_key hash_token KeyOf
  find_key_sound token db {key} h =
      let first = validate_access_key (sha256_hex token) db in
      elim (Option-cases (present first.1)) [
        | inr (k0, e) ↦
            let p : k0 ≡ key = Option.some-injective _ _ (rw (e, find_key, hash_token) at h) in
            let (k, alive, hash, owner, scope) = live (sha256_hex token) db (e ∙ ap some p) in
            (k, alive, inl hash, owner, scope)
        | inl e ↦
            let h' : present (validate_access_key token first.0).1 ≡ some key =
              rw (e, find_key, hash_token) at h in
            let (k, (m, active, fresh), hash, owner, scope) = live token first.0 h' in
            let kept = missed (sha256_hex token) db e in
            let clock = (unchanged (sha256_hex token) db).1 in
            (
              k,
              (
                subst (λ ks. Memᴰ k ks) kept m,
                active,
                subst (λ t. unexpired t k.expires_at ≡ true) clock fresh,
              ),
              inr (e, hash),
              owner,
              scope,
            )
      ]

  find_key-users :
      (token : String) (db : Db)
      → (find_key compare_hash sha256_hex decode_base64 token db).0.users ≡ db.users
  unfolding find_key hash_token
  find_key-users token db =
      let first = validate_access_key (sha256_hex token) db in
      elim (Option-cases (present first.1)) [
        | inr (k0, e) ↦ rw (e, find_key, hash_token) ((unchanged (sha256_hex token) db).0)
        | inl e ↦
            rw (e, find_key, hash_token)
              ((unchanged token first.0).0 ∙ (unchanged (sha256_hex token) db).0)
      ]

user_of_key_sound :
    (r : Rbac Db) (key : AccessKey) {user : User}
    → user_of_key r key ≡ some user
    → (u : UserRepository) × IsActiveUser r.db u
      × (key.user_id ≡ u.user_id)
      × (user.user_id ≡ u.user_id)
      × (user.scope ≡ access_key_scope key)
unfolding user_of_key load_user
user_of_key_sound r key {user} h =
    elim (Option-cases (active_user (get_user_by_id r.db key.user_id))) [
      | inl e ↦ cc (rw (e, user_of_key) at h)
      | inr (x, e) ↦
          let (u, m, id, same) = active_by_id key.user_id r.db e in
          let p : load_user r x (access_key_scope key) ≡ user =
            Option.some-injective _ _ (rw (e, user_of_key) at h) in
          (
            u,
            m,
            sym id,
            sym (ap (λ (z : User). z.user_id) p)
                ∙ ap (λ (z : UserRepository). z.user_id) (sym same),
            sym (ap (λ (z : User). z.scope) p),
          )
    ]

module _ (compare_hash : String → String → Bool) (sha256_hex : String → String)
    (decode_base64 : String → Option String) where
  resolve_token_sound :
      (c : Credentials) (token : String) (r : Rbac Db) {user : User}
      → IsPresented compare_hash sha256_hex decode_base64 c token
      → (resolve_token compare_hash sha256_hex decode_base64 token r).1 ≡ some user
      → Attested compare_hash sha256_hex decode_base64 c r.db user
  unfolding resolve_token KeyOf with_db
  resolve_token_sound c token r {user} shown h =
      let found = find_key compare_hash sha256_hex decode_base64 token r.db in
      elim (Option-cases found.1) [
        | inl e ↦ cc (rw (e, resolve_token) at h)
        | inr (key, e) ↦
            let h' : user_of_key (with_db r found.0) key ≡ some user = rw (e, resolve_token) at h in
            let (u, (m, active), owned, id, scope) = user_of_key_sound (with_db r found.0) key h' in
            let (k, alive, hash, owner, same) =
              find_key_sound compare_hash sha256_hex decode_base64 token r.db e in
            let m' =
              subst (λ us. Memᴰ u us)
                (find_key-users compare_hash sha256_hex decode_base64 token r.db) m in
            elim hash [
              | inl own ↦
                  Attested.by_token u k token (m', active) shown alive own (sym owner ∙ owned) id
                    (scope ∙ same)
              | inr (missing, stored) ↦
                  Attested.by_stored_hash u k token (m', active) shown missing alive stored
                    (sym owner ∙ owned) id (scope ∙ same)
            ]
      ]

  resolve_password_sound :
      (c : Credentials) (x : UserRepository) (password : String) (r : Rbac Db) {user : User}
      → IsLogin compare_hash sha256_hex decode_base64 c x.username password
      → (u : UserRepository) × IsActiveUser r.db u × (with_roles r.db u ≡ x)
      → (resolve_password compare_hash sha256_hex decode_base64 x password r).1 ≡ some user
      → Attested compare_hash sha256_hex decode_base64 c r.db user
  unfolding resolve_password verify_password hash_token load_user with_db
  resolve_password_sound c x password r {user} shown (u, active, row) h =
      let named : IsLogin compare_hash sha256_hex decode_base64 c u.username password =
        subst (λ n. IsLogin compare_hash sha256_hex decode_base64 c n password)
          (ap (λ (z : UserRepository). z.username) (sym row)) shown in
      let ids : x.user_id ≡ u.user_id = ap (λ (z : UserRepository). z.user_id) (sym row) in
      elim (Bool-cases (compare_hash x.password_hash password)) [
        | inl e ↦
            let p : load_user r x "full" ≡ user =
              Option.some-injective _ _ (rw (e, resolve_password, verify_password) at h) in
            Attested.by_password u password active named
              (ap (λ (z : UserRepository). compare_hash z.password_hash password) row ∙ e)
              (sym (ap (λ (z : User). z.user_id) p) ∙ ids) (sym (ap (λ (z : User). z.scope) p))
        | inr e ↦
            let tried = validate_access_key (sha256_hex password) r.db in
            elim (Option-cases (present tried.1)) [
              | inl f ↦ cc (rw (e, f, resolve_password, verify_password, hash_token) at h)
              | inr (key, f) ↦ elim (Bool-cases (key.user_id == x.user_id)) [
                | inr g ↦ cc (rw (e, f, g, resolve_password, verify_password, hash_token) at h)
                | inl g ↦
                    let p : load_user (with_db r tried.0) x (access_key_scope key) ≡ user =
                      Option.some-injective _ _
                        (rw (e, f, g, resolve_password, verify_password, hash_token) at h) in
                    let (k, alive, hash, owner, same) = live (sha256_hex password) r.db f in
                    Attested.by_password_token u k password active named alive hash
                      (sym owner ∙ (eq_iff key.user_id x.user_id).0 g ∙ ids)
                      (sym (ap (λ (z : User). z.user_id) p) ∙ ids)
                      (sym (ap (λ (z : User). z.scope) p) ∙ same)
              ]
            ]
      ]

  resolve_basic_sound :
      (c : Credentials) (basic : String) (r : Rbac Db) {user : User}
      → cut_prefix "Basic " c.authorization ≡ some basic
      → (resolve_basic compare_hash sha256_hex decode_base64 basic r).1 ≡ some user
      → Attested compare_hash sha256_hex decode_base64 c r.db user
  unfolding resolve_basic
  resolve_basic_sound c basic r {user} header h = elim (Option-cases (decode_base64 basic)) [
    | inl e ↦ cc (rw (e, resolve_basic) at h)
    | inr (decoded, e) ↦ elim (Option-cases (cut ":" decoded)) [
      | inl f ↦ cc (rw (e, f, resolve_basic) at h)
      | inr ((username, password), f) ↦
          elim (Option-cases (active_user (get_user_by_username r.db username))) [
            | inl g ↦ cc (rw (e, f, g, resolve_basic) at h)
            | inr (x, g) ↦
                let (u, active, named, row) = active_by_name username r.db g in
                let own : username ≡ x.username =
                  sym named ∙ ap (λ (z : UserRepository). z.username) row in
                resolve_password_sound c x password r
                  (basic, decoded, header, e, f ∙ ap (λ n. some (n, password)) own) (u, active, row)
                  (rw (e, f, g, resolve_basic) at h)
          ]
    ]
  ]

  -- A request is attributed to a user only if it carries one of these: his name and password; his
  -- name, with a token of his as the password; a token of his; or, as a token, the very text that the
  -- table stores as the hash of a key of his, of whatever type, where the lookup of this text as a
  -- token gave no key. He must be active, and the key active and not expired. The request's scope is
  -- full with the password, and else what the key allows.
  pub authenticate-Attested :
      (c : Credentials) (r : Rbac Db) (user : User)
      → (authenticate compare_hash sha256_hex decode_base64 c r).1 ≡ some user
      → Attested compare_hash sha256_hex decode_base64 c r.db user
  unfolding authenticate
  authenticate-Attested c r user h = elim (Bool-cases (c.authorization == "")) [
    | inl e ↦ elim (Bool-cases (c.nuget_api_key == "")) [
      | inl f ↦ cc (rw (e, f, authenticate) at h)
      | inr f ↦
          resolve_token_sound c c.nuget_api_key r (inl ((eq_iff c.authorization "").0 e, refl))
            (rw (e, f, authenticate) at h)
    ]
    | inr e ↦ elim (Option-cases (cut_prefix "Basic " c.authorization)) [
      | inr (basic, f) ↦ resolve_basic_sound c basic r f (rw (e, f, authenticate) at h)
      | inl f ↦ elim (Option-cases (cut_prefix "Bearer " c.authorization)) [
        | inl g ↦ cc (rw (e, f, g, authenticate) at h)
        | inr (token, g) ↦ resolve_token_sound c token r (inr g) (rw (e, f, g, authenticate) at h)
      ]
    ]
  ]
