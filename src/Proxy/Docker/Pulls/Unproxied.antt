-- ===== src/Proxy/Docker/Pulls/Unproxied.antt =====
-- What a registry that does not proxy serves of its manifests and blobs.
use cargobay.Prelude.{
  String, false, ◌≡◌, ◌⊎◌, refl, ap, some, List, [], Bool-cases, Option-cases, Result-cases, inl,
  inr, Error, message, err,
}
use cargobay.Http.{status_not_found, status_bad_gateway}
use cargobay.Cache.{RedisClient}
use cargobay.Storage.{StorageAdapter}
use cargobay.Database.Models.{RegistryConfig, ArtifactMetadata}
use cargobay.Proxy.Docker.Paths.{is_digest_reference, split_docker_repository}
use cargobay.Proxy.Docker.Upstream.{Outside, upstream_base, fetch_manifest_from_upstream}
use cargobay.Proxy.Docker.Requests.{Reply, State, DockerTarget}
use cargobay.Proxy.Docker.Manifests.{Answer, get_reply, head_reply, stale_cached_tag}
use cargobay.Proxy.Docker.Pulls.{
  find_cached, cache_manifest_from_upstream, serve_cached, serve_fetched, serve_manifest,
  listed_rows, handle_manifest, handle_head_manifest,
}
use cargobay.Proxy.Docker.Blobs.{is_unproxied, handle_get_blob, handle_head_blob}

module _ (adapter : StorageAdapter) (redis : RedisClient) where
  -- not found, or the table cannot be read
  abbrev pub NotServed : State adapter redis → State adapter redis × Reply → Type 0
  NotServed st (st', answer) =
      (st' ≡ st) × ((answer.status ≡ status_not_found) ⊎ (answer.status ≡ status_bad_gateway))

module _ (out : Outside) (adapter : StorageAdapter) (redis : RedisClient) (t : DockerTarget)
    (reg : RegistryConfig) (found : t.reg ≡ some reg) (unproxied : reg.proxy ≡ false) where
  abbrev no_proxy : Error
  no_proxy = message "no upstream proxy configured for this registry"

  nothing_fetched :
      (repository reference : String)
      → fetch_manifest_from_upstream out t.reg repository reference ≡ err no_proxy
  unfolding fetch_manifest_from_upstream upstream_base
  nothing_fetched repository reference =
      rw (found, fetch_manifest_from_upstream, upstream_base, unproxied) refl

  nothing_cached :
      (repository reference : String) (st : State adapter redis)
      → cache_manifest_from_upstream out adapter redis t repository reference st
        ≡ (st, err no_proxy)
  unfolding cache_manifest_from_upstream
  nothing_cached repository reference st =
      rw (nothing_fetched repository reference, cache_manifest_from_upstream) refl

  never_stale :
      (repository reference digest : String)
      → stale_cached_tag out t repository reference digest ≡ false
  unfolding stale_cached_tag
  never_stale repository reference digest = elim (Bool-cases (is_digest_reference reference)) [
    | inl e ↦ rw (e, stale_cached_tag) refl
    | inr e ↦ rw (e, found, unproxied, stale_cached_tag) refl
  ]

  manifest_refused :
      (answer : Answer) (repository reference : String) (artifacts : List ArtifactMetadata)
      (st : State adapter redis)
      → NotServed adapter redis st
          (serve_manifest out adapter redis answer t repository reference artifacts st)
  unfolding serve_manifest serve_cached serve_fetched
  manifest_refused answer repository reference artifacts st =
      let name = (split_docker_repository repository).1 in
      elim (Option-cases (find_cached name reference artifacts)) [
        | inl e ↦
            rw (e, nothing_cached repository reference st, NotServed, serve_manifest, serve_fetched)
              (ap (λ x. x.0) (nothing_cached repository reference st), inl refl)
        | inr (a, e) ↦
            rw
              (
                e,
                never_stale repository reference a.digest,
                NotServed,
                serve_manifest,
                serve_cached,
                found,
                unproxied,
              )
              (refl, inl refl)
      ]

  get_refused :
      (repository reference : String) (st : State adapter redis)
      → NotServed adapter redis st (handle_manifest out adapter redis t repository reference st)
  unfolding handle_manifest
  get_refused repository reference st =
      elim (Result-cases (listed_rows out adapter redis t repository st)) [
        | inl (artifacts, e) ↦
            rw (e, NotServed, handle_manifest)
              (manifest_refused get_reply repository reference artifacts st)
        | inr (x, e) ↦ rw (e, NotServed, handle_manifest) (refl, inr refl)
      ]

  head_refused :
      (repository reference : String) (st : State adapter redis)
      → NotServed adapter redis st
          (handle_head_manifest out adapter redis t repository reference st)
  unfolding handle_head_manifest
  head_refused repository reference st =
      elim (Result-cases (listed_rows out adapter redis t repository st)) [
        | inl (artifacts, e) ↦
            rw (e, NotServed, handle_head_manifest)
              (manifest_refused head_reply repository reference artifacts st)
        | inr (x, e) ↦
            rw (e, NotServed, handle_head_manifest)
              (manifest_refused head_reply repository reference [] st)
      ]

  -- A docker registry that is not a proxy serves nothing: whatever was pushed to it, a GET or a HEAD
  -- of a manifest or of a blob is answered with 404, or with 502 where the table cannot be read, and
  -- changes nothing.
  pub unproxied_refused :
      (repository reference : String) (st : State adapter redis)
      → NotServed adapter redis st (handle_manifest out adapter redis t repository reference st)
        × NotServed adapter redis st
            (handle_head_manifest out adapter redis t repository reference st)
        × NotServed adapter redis st (handle_get_blob out adapter redis t repository reference st)
        × NotServed adapter redis st (handle_head_blob out adapter redis t repository reference st)
  unfolding handle_get_blob handle_head_blob is_unproxied
  unproxied_refused repository reference st = (
    get_refused repository reference st,
    head_refused repository reference st,
    rw (found, unproxied, NotServed, handle_get_blob, is_unproxied) (refl, inl refl),
    rw (found, unproxied, NotServed, handle_head_blob, is_unproxied) (refl, inl refl),
  )
