-- ===== src/Proxy/Docker/Blobs.antt =====
-- The blobs of docker.go: pulled through from upstream into the storage, and uploaded in a session
-- whose chunks stand in the cache. `marshal` and `unmarshal` stand for encoding/json on bytes, and
-- `hex` for %x of a text. Log lines are left out.
pub mod Uploaded
use Prim.Native.String
use mathlib.Core.Option
use cargobay.Prelude.{
  ℕ, String, Bool, true, false, not, Option, none, some, List, [], ◌∷◌, Error, Result, ok, err,
  ◌==◌, if◌then◌else◌,
}
use cargobay.Http.{
  status_ok, status_created, status_accepted, status_bad_request, status_not_found,
  status_internal_error,
}
use cargobay.Cache
use cargobay.Cache.{RedisClient, Cache}
use cargobay.Storage.{Reader, Key, StorageAdapter}
use cargobay.Proxy.Docker.Upstream.{Outside, read_all, fetch_blob}
use cargobay.Proxy.Docker.Requests.{Reply, failure, State, DockerTarget}

-- Where a blob is stored: under "docker", whatever the registry.
unfoldable pub blob_key : String → String → Key
blob_key repository digest = record {
  registry_id = "docker";
  namespace = repository;
  artifact_name = "blob";
  version = digest;
}

-- "upload:%s:%s"
unfoldable pub upload_key : String → String → String
upload_key repository upload_id =
    String.◌++◌ "upload:" (String.◌++◌ repository (String.◌++◌ ":" upload_id))

-- `t.reg != nil && !t.reg.Proxy`
unfoldable pub is_unproxied : DockerTarget → Bool
is_unproxied t = elim t.reg [ none ↦ false | some reg ↦ not reg.proxy ]

unfoldable pub blob_reply : String → String → Reply
blob_reply digest body = record {
  status = status_ok;
  headers = ("Content-Type", "application/octet-stream") ∷ ("Docker-Content-Digest", digest) ∷ [];
  body = body;
}

unfoldable pub upload_reply : DockerTarget → String → String → Reply
upload_reply t repository upload_id = record {
  status = status_accepted;
  headers =
      (
        "Location",
        String.◌++◌ "/v2/" (
            String.◌++◌ t.prefix
              (String.◌++◌ repository (String.◌++◌ "/blobs/uploads/" upload_id))),
      )
      ∷ ("Docker-Upload-UUID", upload_id)
      ∷ [];
  body = "";
}

-- a POST: the ID holds the time of now, and nothing is stored
unfoldable pub handle_start_upload : DockerTarget → String → String → Reply
unfolding upload_reply
handle_start_upload t repository now = upload_reply t repository (String.◌++◌ "upload-" now)

-- `err == nil && rc != nil`
unfoldable pub opened : Result (Option String) → Option String
opened (ok (some body)) = some body
opened (ok none) = none
opened (err e) = none

abbrev pub blob_unknown : Reply
blob_unknown = failure status_not_found "blob unknown"

module _ (out : Outside) (adapter : StorageAdapter) (redis : RedisClient) where
  -- the store after the copy, and its error
  unfoldable pub stream_blob_from_upstream :
      DockerTarget → String → String → adapter.Store → adapter.Store × Option Error
  unfolding fetch_blob blob_key
  stream_blob_from_upstream t repository digest store =
      elim (fetch_blob out t.reg repository digest) [
        | err e ↦ (store, some e)
        | ok reader ↦
            let (store', saved) =
              adapter.save_artifact_stream (blob_key repository digest) reader store in
            (store', elim saved [ ok ref ↦ none | err e ↦ some e ])
      ]

  -- after the copy, the blob is read back
  unfoldable pub serve_streamed :
      String
      → String
      → State adapter redis
      → adapter.Store × Option Error
      → State adapter redis × Reply
  unfolding blob_key opened blob_reply
  serve_streamed repository digest st (store, some e) = (record st { store = store }, blob_unknown)
  serve_streamed repository digest st (store, none) = (
    record st { store = store },
    elim (opened (adapter.get_artifact_stream (blob_key repository digest) store)) [
      | none ↦ blob_unknown
      | some body ↦ blob_reply digest body
    ],
  )

  unfoldable pub handle_get_blob :
      DockerTarget → String → String → State adapter redis → State adapter redis × Reply
  unfolding is_unproxied blob_key opened blob_reply stream_blob_from_upstream serve_streamed
  handle_get_blob t repository digest st =
      if is_unproxied t
      then (st, failure status_not_found "upstream proxy disabled")
      else elim (opened (adapter.get_artifact_stream (blob_key repository digest) st.store)) [
        | some body ↦ (st, blob_reply digest body)
        | none ↦
            serve_streamed repository digest st
              (stream_blob_from_upstream t repository digest st.store)
      ]

  abbrev found_reply : String → Reply
  found_reply digest = record {
    status = status_ok;
    headers = ("Docker-Content-Digest", digest) ∷ [];
    body = "";
  }

  unfoldable pub head_streamed :
      String → State adapter redis → adapter.Store × Option Error → State adapter redis × Reply
  head_streamed digest st (store, some e) = (record st { store = store }, blob_unknown)
  head_streamed digest st (store, none) = (record st { store = store }, found_reply digest)

  unfoldable pub handle_head_blob :
      DockerTarget → String → String → State adapter redis → State adapter redis × Reply
  unfolding is_unproxied blob_key stream_blob_from_upstream head_streamed
  handle_head_blob t repository digest st =
      if is_unproxied t
      then (st, failure status_not_found "upstream proxy disabled")
      else elim (adapter.artifact_exists (blob_key repository digest) st.store) [
        | err e ↦ (st, failure status_internal_error "Failed to check blob")
        | ok present ↦
            if present
            then (st, found_reply digest)
            else head_streamed digest st (stream_blob_from_upstream t repository digest st.store)
      ]

  module _ (marshal : String → Result String) (unmarshal : String → Result String)
      (hex : String → String) where
    -- a PATCH: the chunk takes the place of what the session had; an error of the cache is not seen
    unfoldable pub patch_body :
        DockerTarget
        → String
        → String
        → Result String
        → State adapter redis
        → State adapter redis × Reply
    unfolding Cache.set upload_key upload_reply
    patch_body t repository upload_id (err e) st =
        (st, failure status_bad_request "Failed to read chunk")
    patch_body t repository upload_id (ok body) st = (
      record st {
        cache = (Cache.set redis (marshal body) (upload_key repository upload_id) st.cache).0;
      },
      upload_reply t repository upload_id,
    )

    unfoldable pub handle_patch_upload :
        DockerTarget → String → String → Reader → State adapter redis → State adapter redis × Reply
    unfolding patch_body read_all
    handle_patch_upload t repository upload_id reader st =
        patch_body t repository upload_id (read_all reader) st

    -- the body of a PUT, or where it is empty what the session has in the cache
    unfoldable pub finished_body :
        String → String → String → State adapter redis → State adapter redis × String
    unfolding Cache.get upload_key
    finished_body repository upload_id body st =
        if body == ""
        then (let (cache, cached) =
              Cache.get redis unmarshal (upload_key repository upload_id) st.cache in
            (record st { cache = cache }, elim cached [ ok chunk ↦ chunk | err e ↦ body ]))
        else (st, body)

    -- the reply after the blob was saved
    unfoldable pub finish_reply :
        String → State adapter redis → adapter.Store × Result String → State adapter redis × Reply
    finish_reply digest st (store, err e) =
        (record st { store = store }, failure status_internal_error "Failed to save blob")
    finish_reply digest st (store, ok ref) = (
      record st { store = store },
      record {
        status = status_created;
        headers = ("Docker-Content-Digest", digest) ∷ [];
        body = "";
      },
    )

    -- the digest of the query; without one, the body itself in hexadecimal digits
    unfoldable pub upload_digest : String → String → String
    upload_digest digest body = if digest == "" then String.◌++◌ "sha256:" (hex body) else digest

    unfoldable pub finish_body :
        String → String → String → Result String → State adapter redis → State adapter redis × Reply
    unfolding finished_body finish_reply upload_digest blob_key
    finish_body repository upload_id digest (err e) st =
        (st, failure status_bad_request "Failed to read blob")
    finish_body repository upload_id digest (ok sent) st =
        let (st', body) = finished_body repository upload_id sent st in
        let named = upload_digest digest body in
        finish_reply named st' (adapter.save_artifact (blob_key repository named) body st'.store)

    unfoldable pub handle_finish_upload :
        String → String → String → Reader → State adapter redis → State adapter redis × Reply
    unfolding finish_body read_all
    handle_finish_upload repository upload_id digest reader st =
        finish_body repository upload_id digest (read_all reader) st
