-- ===== src/Proxy/Docker/Token.antt =====
-- The token endpoint of docker.go, and its ping. A minted token is a session key: its ID and its
-- secret are arguments, and so is what GenerateToken draws for nobody.
pub mod Permitted
pub mod Issued
use Prim.Native.String.{◌++◌}
use mathlib.Core.Option
use cargobay.Prelude.{
  ℕ, String, Bool, true, false, not, ◌&&◌, ◌||◌, ◌+◌, Option, none, some, List, [], ◌∷◌, Error,
  Result, ok, err, ◌==◌, if◌then◌else◌,
}
use cargobay.Http.{status_ok, status_unauthorized, status_forbidden, status_internal_error}
use cargobay.Database.Models.{RegistryConfig, AccessKey}
use cargobay.Database.Tables.{Db}
use cargobay.Database.Access.{tables}
use cargobay.Database.Keys.{day, create_access_key}
use cargobay.Middleware.User.{User}
use cargobay.Rbac.Types.{Rbac}
use cargobay.Rbac.Access.{can_read_registry, can_publish_registry}
use cargobay.Proxy.Docker.Paths.{DockerScope, parse_docker_scope, has}
use cargobay.Proxy.Docker.Upstream.{Outside}
use cargobay.Proxy.Docker.Requests.{Request, resolve_target_for_path}

-- What the endpoint answers: a token, or an error.
pub data TokenReply : Type 0 where
  token : String → TokenReply
  refusal : ℕ → TokenReply

abbrev pub read_only : List String
read_only = "read" ∷ []

abbrev pub read_write : List String
read_write = "read" ∷ "write" ∷ []

-- what a request may have: permissions for a key, or the status of a refusal
pub data Grant : Type 0 where
  permitted : List String → Grant
  refused : ℕ → Grant

unfoldable pub unscoped_grant : Option User → Grant
unscoped_grant none = refused status_unauthorized
unscoped_grant (some user) =
    permitted (if not (user.scope == "read") then read_write else read_only)

unfoldable pub scoped_grant : Rbac Db → Option User → Option RegistryConfig → DockerScope → Grant
unfolding has
scoped_grant r user reg scope =
    let want_pull = has scope "pull" && can_read_registry tables r user reg in
    let want_push = has scope "push" && can_publish_registry tables r user reg in
    if not want_pull && not want_push
    then refused (elim user [ none ↦ status_unauthorized | some u ↦ status_forbidden ])
    else permitted (if want_push then read_write else read_only)

-- the answer to a user, from the new key
unfoldable pub minted : Rbac Db → Db × Result AccessKey → Rbac Db × TokenReply
minted r (db, ok key) = (record r { db = db }, token key.key_hash)
minted r (db, err e) = (record r { db = db }, refusal status_internal_error)

-- the answer to nobody: a token that is not stored
unfoldable pub anonymous_token : Result String → TokenReply
anonymous_token (ok value) = token value
anonymous_token (err e) = refusal status_internal_error

module _ (key_id secret : String) (generated : Result String) where
  unfoldable pub issue : Rbac Db → Option User → Grant → Rbac Db × TokenReply
  unfolding minted anonymous_token
  issue r user (refused status) = (r, refusal status)
  issue r none (permitted permissions) = (r, anonymous_token generated)
  issue r (some user) (permitted permissions) = minted r (
      create_access_key key_id secret user.user_id "docker-token" permissions
        (some (r.db.now + day)) r.db)

  unfoldable pub grant_for : Outside → Rbac Db → Request → Grant
  unfolding unscoped_grant scoped_grant
  grant_for out r req = elim (parse_docker_scope req.scope) [
    | none ↦ unscoped_grant req.user
    | some scope ↦
        scoped_grant r req.user (resolve_target_for_path out r.db req.host scope.repository).0.reg
          scope
  ]

  unfoldable pub handle_token : Outside → Rbac Db → Request → Rbac Db × TokenReply
  unfolding issue grant_for
  handle_token out r req = issue r req.user (grant_for out r req)

-- handleHealth: a user is told that the registry is there, and anyone else to fetch a token
unfoldable pub handle_health : Request → ℕ
handle_health req = elim req.user [ some user ↦ status_ok | none ↦ status_unauthorized ]
