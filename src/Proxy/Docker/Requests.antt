-- ===== src/Proxy/Docker/Requests.antt =====
-- A request to the docker proxy, its state, and the registry that the request addresses.
use cargobay.Prelude.{ℕ, String, Bool, Option, none, some, []}
use cargobay.Prelude.GoMap.{GoMap}
use cargobay.Prelude.Text.{cut_prefix, cut_suffix, trim_prefix}
use cargobay.Cache.{RedisClient, Cache}
use cargobay.Storage.{Reader, StorageAdapter}
use cargobay.Database.Models.{RegistryConfig}
use cargobay.Database.Tables.{Db}
use cargobay.Middleware.User.{User}
use cargobay.Rbac.Types.{Rbac}
use cargobay.Proxy.Target.{
  Access, check_access, resolve_registry, resolve_registry_with_path_prefix,
}
use cargobay.Proxy.Docker.Upstream.{Outside}

pub record Request : Type 0 where
  pub host : String
  pub path : String
  pub user : Option User
  pub body : Reader
  -- of the query: digest, and scope
  pub digest : String
  pub scope : String

pub record Reply : Type 0 where
  pub status : ℕ
  pub headers : GoMap String
  pub body : String

-- http.Error
abbrev pub failure : ℕ → String → Reply
failure status text = record { status = status; headers = []; body = text }

module _ (adapter : StorageAdapter) (redis : RedisClient) where
  pub record State : Type 0 where
    pub rbac : Rbac Db
    pub store : adapter.Store
    pub cache : Cache redis

  unfoldable pub with_db : State → Db → State
  with_db st db = record st { rbac = record st.rbac { db = db } }

pub record DockerTarget : Type 0 where
  pub reg : Option RegistryConfig
  pub label : String
  pub prefix : String

abbrev pub label_of : Option RegistryConfig → String
label_of none = "docker"
label_of (some reg) = reg.id

-- path[:len(path)-len(trimmed)], where trimmed is the end of path
unfoldable pub dropped : String → String → String
dropped path trimmed = elim (cut_suffix trimmed path) [ none ↦ "" | some prefix ↦ prefix ]

module _ (out : Outside) where
  unfoldable pub resolve_target_for_path : Db → String → String → DockerTarget × String
  unfolding dropped
  resolve_target_for_path db host path = elim (cut_prefix "dkr/" path) [
    | some rest ↦
        let (reg, trimmed) =
          resolve_registry_with_path_prefix out.split_host out.url_host db host rest "docker" in
        (record { reg = reg; label = label_of reg; prefix = dropped path trimmed }, trimmed)
    | none ↦
        let reg = resolve_registry out.split_host out.url_host db host "docker" in
        (record { reg = reg; label = label_of reg; prefix = "" }, path)
  ]

  unfoldable pub resolve_target : Db → Request → DockerTarget × String
  unfolding resolve_target_for_path
  resolve_target db r = resolve_target_for_path db r.host (trim_prefix "/v2/" r.path)

  -- checkAccess: the target and the path, or the refusal
  unfoldable pub check_target : Rbac Db → Request → Bool → (DockerTarget × String) × Access
  unfolding resolve_target
  check_target rbac r require_publish =
      let (t, path) = resolve_target rbac.db r in
      ((t, path), check_access rbac r.user t.reg require_publish)
