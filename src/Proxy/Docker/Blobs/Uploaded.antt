-- ===== src/Proxy/Docker/Blobs/Uploaded.antt =====
-- What is served after an upload.
use cargobay.Prelude.{
  String, false, ◌≡◌, ◌≢◌, ◌⊎◌, refl, ap, ◌∙◌, subst, arith, Option, none, some, Bool-cases, inl,
  inr, Error, Result, ok, err, ◌==◌, eq_iff,
}
use cargobay.Http.{status_created}
use cargobay.Cache
use cargobay.Cache.{RedisClient, Cache}
use cargobay.Cache.Kept.{RedisKeeps, get-set}
use cargobay.Storage.{Reader, StorageAdapter, StorageLaws, IsOr}
use cargobay.Proxy.Docker.Upstream.{Outside, read_all}
use cargobay.Proxy.Docker.Requests.{Reply, State, DockerTarget}
use cargobay.Proxy.Docker.Blobs.{
  blob_key, upload_key, is_unproxied, blob_reply, opened, handle_get_blob, patch_body,
  handle_patch_upload, finished_body, finish_reply, finish_body, handle_finish_upload,
  upload_digest,
}

-- a body that was read to its end
abbrev pub whole : String → Reader
whole payload = record { payload = payload; failure = none }

module _ (out : Outside) (adapter : StorageAdapter) (redis : RedisClient) where
  -- A blob that is served through a target, or cannot be read.
  abbrev pub IsServed : DockerTarget → String → String → String → State adapter redis → Type 0
  IsServed t repository digest body st =
      (handle_get_blob out adapter redis t repository digest st ≡ (st, blob_reply digest body))
      ⊎ ((e : Error) × (adapter.get_artifact_stream (blob_key repository digest) st.store ≡ err e))

  served :
      (t : DockerTarget) (repository digest body : String) (st : State adapter redis)
      (found : Result (Option String))
      → adapter.get_artifact_stream (blob_key repository digest) st.store ≡ found
      → IsOr (some body) found
      → is_unproxied t ≡ false
      → IsServed t repository digest body st
  unfolding handle_get_blob opened
  served t repository digest body st (err e) read h proxied = inr (e, read)
  served t repository digest body st (ok x) read h proxied =
      inl (rw (proxied, read, h, handle_get_blob, opened) refl)

  module _ (marshal : String → Result String) (unmarshal : String → Result String)
      (hex : String → String) where
    replied :
        (digest : String) (st st' : State adapter redis) (run : adapter.Store × Result String)
        → (finish_reply out adapter redis marshal unmarshal hex digest st run).0 ≡ st'
        → (finish_reply out adapter redis marshal unmarshal hex digest st run).1.status
          ≡ status_created
        → (ref : String) × (run ≡ (st'.store, ok ref))
    unfolding finish_reply
    replied digest st st' (store, err e) h s = absurd (omega (arith, s))
    replied digest st st' (store, ok ref) h s =
        (ref, ap (λ (x : State adapter redis). (x.store, ok ref)) h)

    saved-IsServed :
        (t : DockerTarget) (repository digest body : String) (st st' : State adapter redis)
        (answer : Reply)
        → StorageLaws adapter (blob_key repository digest)
        → finish_reply out adapter redis marshal unmarshal hex digest st
            (adapter.save_artifact (blob_key repository digest) body st.store)
          ≡ (st', answer)
        → answer.status ≡ status_created
        → is_unproxied t ≡ false
        → IsServed t repository digest body st'
    saved-IsServed t repository digest body st st' answer laws h s proxied =
        let (ref, saved) = replied digest st st' _ (ap (λ x. x.0) h) (ap (λ x. x.1.status) h ∙ s) in
        served t repository digest body st' _ refl (laws.saved body st.store st'.store ref saved)
          proxied

    named_digest :
        (digest body : String)
        → digest ≢ ""
        → upload_digest out adapter redis marshal unmarshal hex digest body ≡ digest
    unfolding upload_digest
    named_digest digest body named = elim (Bool-cases (digest == "")) [
      | inl e ↦ absurd (named ((eq_iff digest "").0 e))
      | inr e ↦ rw (e, upload_digest) refl
    ]

    -- whatever is finished is served
    finished-IsServed :
        (t : DockerTarget) (repository upload_id digest sent : String)
        (st st' : State adapter redis) (answer : Reply)
        → StorageLaws adapter (blob_key repository digest)
        → digest ≢ ""
        → handle_finish_upload out adapter redis marshal unmarshal hex repository upload_id digest
            (whole sent)
            st
          ≡ (st', answer)
        → answer.status ≡ status_created
        → is_unproxied t ≡ false
        → IsServed t repository digest
            (finished_body out adapter redis marshal unmarshal hex repository upload_id sent st).1
            st'
    unfolding handle_finish_upload finish_body read_all
    finished-IsServed t repository upload_id digest sent st st' answer laws named h s proxied =
        let run =
          finished_body out adapter redis marshal unmarshal hex repository upload_id sent st in
        let same = named_digest digest run.1 named in
        saved-IsServed t repository digest run.1 run.0 st' answer laws
          (subst
            (λ x.
              finish_reply out adapter redis marshal unmarshal hex x run.0
                (adapter.save_artifact (blob_key repository x) run.1 run.0.store)
              ≡ (st', answer))
            same h)
          s proxied

    -- the bytes that an upload without a body finishes with
    session_body :
        (repository upload_id : String) (chunk : String) (st : State adapter redis)
        → (Cache.get redis unmarshal (upload_key repository upload_id) st.cache).1 ≡ ok chunk
        → (finished_body out adapter redis marshal unmarshal hex repository upload_id "" st).1
          ≡ chunk
    unfolding finished_body
    session_body repository upload_id chunk st h = rw h refl

    -- A chunk that was sent by PATCH, and kept by the cache, is all that the upload holds when it is
    -- finished by a PUT without a body, whatever chunks came before: where that PUT is answered with
    -- 201, a GET of the digest that it named is answered with this chunk, through every target that
    -- is proxied or has no registry, unless the storage fails to read. Neither the registry that the
    -- blob was sent to nor the digest of the chunk matters. It is assumed that Redis gives back what
    -- it was set to, that the chunk is decoded as it was encoded, and that the storage keeps its laws
    -- for the key of the blob.
    pub last_chunk-IsServed :
        (sent t : DockerTarget) (repository upload_id digest chunk encoded : String)
        (st st' : State adapter redis) (answer : Reply)
        → RedisKeeps redis
        → StorageLaws adapter (blob_key repository digest)
        → marshal chunk ≡ ok encoded
        → unmarshal encoded ≡ ok chunk
        → (Cache.set redis (ok encoded) (upload_key repository upload_id) st.cache).1 ≡ none
        → digest ≢ ""
        → handle_finish_upload out adapter redis marshal unmarshal hex repository upload_id digest
            (whole "")
            (handle_patch_upload out adapter redis marshal unmarshal hex sent repository upload_id
              (whole chunk)
              st).0
          ≡ (st', answer)
        → answer.status ≡ status_created
        → is_unproxied t ≡ false
        → IsServed t repository digest chunk st'
    unfolding handle_finish_upload handle_patch_upload patch_body finish_body read_all
    last_chunk-IsServed sent t repository upload_id digest chunk encoded st st' answer keeps laws
          made back set named h s proxied =
        let st1 : State adapter redis =
          (handle_patch_upload out adapter redis marshal unmarshal hex sent repository upload_id
            (whole chunk) st).0 in
        let cached : (Cache.get redis unmarshal (upload_key repository upload_id) st1.cache).1
            ≡ ok chunk =
          rw made (get-set redis unmarshal _ encoded st.cache keeps set ∙ back) in
        subst (λ x. IsServed t repository digest x st')
          (session_body repository upload_id chunk st1 cached)
          (finished-IsServed t repository upload_id digest "" st1 st' answer laws named h s proxied)
