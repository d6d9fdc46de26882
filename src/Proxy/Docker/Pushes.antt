-- ===== src/Proxy/Docker/Pushes.antt =====
-- The handlers of docker.go that store and delete a manifest.
pub mod Stored
use Prim.Native.String.{count}
use mathlib.Core.Option
use cargobay.Prelude.{
  ℕ, String, Bool, true, false, not, ◌+◌, Option, none, some, List, [], ◌∷◌, Error, Result, ok, err,
  ◌==◌, if◌then◌else◌,
}
use cargobay.Http.{status_created, status_accepted, status_bad_request, status_internal_error}
use cargobay.Cache.{RedisClient}
use cargobay.Storage.{Reader, StorageAdapter}
use cargobay.Database.Models.{text}
use cargobay.Database.Tables.{Db}
use cargobay.Database.Artifacts.{save_artifact, delete_artifact}
use cargobay.Proxy.Docker.Paths.{split_docker_repository}
use cargobay.Proxy.Docker.Upstream.{Outside, read_all}
use cargobay.Proxy.Docker.Requests.{Reply, failure, State, with_db, DockerTarget}
use cargobay.Proxy.Docker.Manifests.{sha256_digest, contents, manifest_row, manifest_key}

module _ (out : Outside) (adapter : StorageAdapter) (redis : RedisClient) where
  -- the reply after the row was saved
  unfoldable pub put_reply :
      String → State adapter redis → Db × Option Error → State adapter redis × Reply
  unfolding with_db
  put_reply digest st (db', some e) =
      (with_db adapter redis st db', failure status_internal_error "Failed to save artifact")
  put_reply digest st (db', none) = (
    with_db adapter redis st db',
    record { status = status_created; headers = ("Docker-Content-Digest", digest) ∷ []; body = "" },
  )

  -- the row, saved after the manifest was stored
  unfoldable pub put_row :
      DockerTarget → String → String → String → State adapter redis → State adapter redis × Reply
  unfolding contents manifest_row put_reply
  put_row t repository reference body st =
      let row =
        manifest_row out st.rbac.db t.label repository reference body
          (("manifest", text (out.json_text body)) ∷ []) (contents out t.reg repository body).1 in
      put_reply (sha256_digest out body) st (save_artifact "" row st.rbac.db)

  unfoldable pub put_stored :
      DockerTarget
      → String
      → String
      → String
      → State adapter redis
      → Result String
      → State adapter redis × Reply
  unfolding put_row
  put_stored t repository reference body st (err e) =
      (st, failure status_internal_error "Failed to save manifest")
  put_stored t repository reference body st (ok ref) = put_row t repository reference body st

  unfoldable pub put_body :
      DockerTarget
      → String
      → String
      → Result String
      → State adapter redis
      → State adapter redis × Reply
  unfolding put_stored manifest_key
  put_body t repository reference (err e) st =
      (st, failure status_bad_request "Failed to read manifest")
  put_body t repository reference (ok body) st =
      if not (out.is_object body)
      then (st, failure status_bad_request "Invalid manifest")
      else (let (store, saved) =
            adapter.save_artifact (manifest_key out t.label repository reference) body st.store in
          put_stored t repository reference body (record st { store = store }) saved)

  unfoldable pub handle_put_manifest :
      DockerTarget → String → String → Reader → State adapter redis → State adapter redis × Reply
  unfolding put_body read_all
  handle_put_manifest t repository reference reader st =
      put_body t repository reference (read_all reader) st

  unfoldable pub delete_row :
      DockerTarget → String → String → State adapter redis → State adapter redis × Reply
  unfolding split_docker_repository delete_artifact with_db
  delete_row t repository reference st =
      let (namespace, name) = split_docker_repository repository in
      let (db', deleted) = delete_artifact t.label namespace name reference st.rbac.db in
      elim deleted [
        | err e ↦ (
          with_db adapter redis st db',
          failure status_internal_error "Failed to delete artifact from database",
        )
        | ok found ↦ (
          with_db adapter redis st db',
          record { status = status_accepted; headers = []; body = "" },
        )
      ]

  unfoldable pub handle_delete_manifest :
      DockerTarget → String → String → State adapter redis → State adapter redis × Reply
  unfolding manifest_key delete_row
  handle_delete_manifest t repository reference st =
      let (store, error) =
        adapter.delete_artifact (manifest_key out t.label repository reference) st.store in
      let st' = record st { store = store } in
      elim error [
        | some e ↦ (st', failure status_internal_error "Failed to delete manifest")
        | none ↦ delete_row t repository reference st'
      ]
