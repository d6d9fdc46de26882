-- ===== src/Proxy/Docker/Token/Issued.antt =====
-- What a token of the docker proxy may do.
use cargobay.Prelude.{
  ℕ, String, ◌||◌, ◌+◌, ◌≡◌, ◌≢◌, refl, sym, ap, subst, Option, none, some, List, [], ◌∷◌, ◌++◌,
  inl, inr, Bool-cases, Error, Result, ok, err, any, contains, ◌==◌,
}
use cargobay.Database.Models.{AccessKey}
use cargobay.Database.Tables.{Db}
use cargobay.Database.Tables.Runs.{exec_ran, ok_injective}
use cargobay.Database.Keys.{day, returning, insert_key, create_access_key}
use cargobay.Middleware.User.{User}
use cargobay.Middleware.Authentication.{access_key_scope}
use cargobay.Rbac.Types.{Rbac}
use cargobay.Proxy.Docker.Paths.{DockerScope, parse_docker_scope}
use cargobay.Proxy.Docker.Upstream.{Outside}
use cargobay.Proxy.Docker.Requests.{Request}
use cargobay.Proxy.Docker.Token.Permitted.{Writes, Permitted, read_only_kept, granted_lem}
use cargobay.Proxy.Docker.Token.{
  TokenReply, token, refusal, Grant, permitted, refused, minted, issue, grant_for, handle_token,
}

returned_row :
    {A : Type 0} (text : String) (row : A) (run : Db × Option Error) (db' : Db) (x : A)
    → returning text row run ≡ (db', ok x)
    → (row ≡ x) × (run ≡ (db', none))
returned_row text row (db, none) db' x h = (ap (λ r. value_or row r.1) h, ap (λ r. (r.0, none)) h)
  where
    value_or : {A : Type 0} → A → Result A → A
    value_or d (ok a) = a
    value_or d (err e) = d
returned_row text row (db, some e) db' x h = cc

-- What stands behind a token: for nobody nothing, and for a user a new key of his, with these
-- permissions, that ends after a day; the key of a read-only credential is read-only.
abbrev pub Minted : Rbac Db → Rbac Db → Option User → List String → String → Type 0
Minted r r' none permissions value = r' ≡ r
Minted r r' (some user) permissions value =
    (key : AccessKey) × (r'.db.access_keys ≡ r.db.access_keys ++ key ∷ [])
    × (key.key_hash ≡ value)
    × (key.user_id ≡ user.user_id)
    × (key.permissions ≡ permissions)
    × (key.expires_at ≡ some (r.db.now + day))
    × (user.scope ≡ "read" → access_key_scope key ≡ "read")

insert_key_rows :
    (key : AccessKey) (d d' : Db)
    → insert_key key d ≡ ok d'
    → d'.access_keys ≡ d.access_keys ++ key ∷ []
unfolding insert_key
insert_key_rows key d d' h =
    elim (Bool-cases (any (λ k. k.id == key.id || k.key_hash == key.key_hash) d.access_keys)) [
      | inl e ↦ cc (rw (e, insert_key) at h)
      | inr e ↦ ap (λ (x : Db). x.access_keys) (sym (ok_injective (rw (e, insert_key) at h)))
    ]

created_row :
    (key_id secret user_id name : String) (permissions : List String) (expires_at : Option ℕ)
    (db db' : Db) (key : AccessKey)
    → create_access_key key_id secret user_id name permissions expires_at db ≡ (db', ok key)
    → (db'.access_keys ≡ db.access_keys ++ key ∷ [])
      × (key.user_id ≡ user_id)
      × (key.permissions ≡ permissions)
      × (key.expires_at ≡ expires_at)
unfolding create_access_key
created_row key_id secret user_id name permissions expires_at db db' key h =
    let (same, ran) = returned_row "failed to create access key" _ _ db' key h in
    let (rest, inserted) = exec_ran _ db db' ran in
    let rows = insert_key_rows _ _ db' inserted in
    (
      subst (λ (k : AccessKey). db'.access_keys ≡ db.access_keys ++ k ∷ []) same rows,
      ap (λ (k : AccessKey). k.user_id) (sym same),
      ap (λ (k : AccessKey). k.permissions) (sym same),
      ap (λ (k : AccessKey). k.expires_at) (sym same),
    )

text_of : TokenReply → String
text_of (token t) = t
text_of (refusal status) = ""

minted_lem :
    (r r' : Rbac Db) (user : User) (key_id secret value : String) (permissions : List String)
    (run : Db × Result AccessKey)
    → create_access_key key_id secret user.user_id "docker-token" permissions
        (some (r.db.now + day))
        r.db
      ≡ run
    → (Writes permissions → user.scope ≢ "read")
    → minted r run ≡ (r', token value)
    → Minted r r' (some user) permissions value
unfolding minted access_key_scope text_of
minted_lem r r' user key_id secret value permissions (db', err e) made full h = cc
minted_lem r r' user key_id secret value permissions (db', ok key) made full h =
    let (rows, owner, same, ends) = created_row _ _ _ _ _ _ _ db' key made in
    (
      key,
      subst (λ (x : Rbac Db). x.db.access_keys ≡ r.db.access_keys ++ key ∷ []) (ap (λ x. x.0) h)
          rows,
      ap (λ (x : Rbac Db × TokenReply). text_of x.1) h,
      owner,
      same,
      ends,
      λ read. elim (Bool-cases (contains key.permissions "write")) [
        | inl w ↦ absurd (full (subst Writes same w) read)
        | inr w ↦ rw w refl
      ],
    )

issue_lem :
    (out : Outside) (key_id secret : String) (generated : Result String) (r r' : Rbac Db)
    (req : Request) (scope : Option DockerScope) (user : Option User) (g : Grant) (value : String)
    → req.user ≡ user
    → ((permissions : List String)
        → g ≡ permitted permissions
        → Permitted out r req permissions scope)
    → issue key_id secret generated r user g ≡ (r', token value)
    → (permissions : List String) × Permitted out r req permissions scope
      × Minted r r' user permissions value
unfolding issue
issue_lem out key_id secret generated r r' req scope user (refused status) value u may h = cc
issue_lem out key_id secret generated r r' req scope none (permitted permissions) value u may h =
    (permissions, may permissions refl, sym (ap (λ x. x.0) h))
issue_lem out key_id secret generated r r' req scope (some user) (permitted permissions) value u may
      h =
    let p = may permissions refl in
    (
      permissions,
      p,
      minted_lem r r' user key_id secret value permissions _ refl
          (read_only_kept out r req user permissions scope u p) h,
    )

-- Where the token endpoint of the docker proxy answers with a token: the request named a scope, and
-- whoever sent it may pull and asked to, or may push and asked to; or it named none and a user sent
-- it. A user's token is a new key of his that ends after a day. The key lets its bearer write only
-- where the user asked to push to a registry that he may publish to, or named no scope and his
-- credential is not read-only; a read-only credential never gets a key that writes. Nothing is
-- stored for nobody.
pub handle_token_sound :
    (out : Outside) (key_id secret : String) (generated : Result String) (r r' : Rbac Db)
    (req : Request) (value : String)
    → handle_token key_id secret generated out r req ≡ (r', token value)
    → (permissions : List String) × Permitted out r req permissions (parse_docker_scope req.scope)
      × Minted r r' req.user permissions value
unfolding handle_token
handle_token_sound out key_id secret generated r r' req value h =
    issue_lem out key_id secret generated r r' req (parse_docker_scope req.scope) req.user
      (grant_for key_id secret generated out r req) value refl
      (granted_lem out key_id secret generated r req) h
