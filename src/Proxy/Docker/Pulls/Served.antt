-- ===== src/Proxy/Docker/Pulls/Served.antt =====
-- What a manifest that is served is.
use cargobay.Prelude.{
  String, true, false, not, ◌≡◌, ◌⊎◌, refl, ap, subst, arith, Option, none, some, List, Memᴰ,
  Bool-cases, Option-cases, Result-cases, inl, inr, Error, Result, ok, err, ◌==◌, eq_iff,
}
use cargobay.Prelude.GoMap
use cargobay.Prelude.GoMap.{GoMap}
use cargobay.Http.{status_ok, status_not_found, status_internal_error, status_bad_gateway}
use cargobay.Cache.{RedisClient}
use cargobay.Storage.{StorageAdapter}
use cargobay.Database.Models.{ArtifactMetadata}
use cargobay.Database.Tables.{Db}
use cargobay.Database.Registries.Default.{find_where_sound}
use cargobay.Database.Artifacts.{of_type}
use cargobay.Database.Artifacts.Listing.{Arranges, list_artifacts_sound}
use cargobay.Proxy.Docker.Paths.{split_docker_repository, is_digest_reference}
use cargobay.Proxy.Docker.Upstream.{Outside, fetch_manifest_from_upstream}
use cargobay.Proxy.Docker.Requests.{Reply, State, DockerTarget}
use cargobay.Proxy.Docker.Manifests.{
  matches, manifest_of, sha256_digest, get_reply, stale_cached_tag,
}
use cargobay.Proxy.Docker.Pulls.{
  Fetched, row_saved, find_cached, cache_row, cache_stored, cache_manifest_from_upstream,
  serve_cached, serve_fetched, serve_manifest, listed_rows, handle_manifest,
}

abbrev value_or : Fetched → Result Fetched → Fetched
value_or fetched (ok x) = x
value_or fetched (err e) = fetched

matched :
    (name reference : String) (a : ArtifactMetadata)
    → matches name reference a ≡ true
    → (a.artifact_name ≡ name) × ((a.version ≡ reference) ⊎ (a.digest ≡ reference))
unfolding matches
matched name reference a h = (
  ground (arith, eq_iff a.artifact_name name),
  elim (Bool-cases (a.version == reference)) [
    | inl e ↦ inl ((eq_iff a.version reference).0 e)
    | inr e ↦ inr (ground (arith, eq_iff a.digest reference))
  ],
)

abbrev digest_header : Reply → Option String
digest_header answer = GoMap.get "Docker-Content-Digest" answer.headers

module _ (out : Outside) (adapter : StorageAdapter) (redis : RedisClient) where
  -- an answer from a row of the table that fits the request
  abbrev pub FromRow :
      DockerTarget → String → String → State adapter redis → Reply → ArtifactMetadata → Type 0
  FromRow t repository reference st answer a =
      Memᴰ a st.rbac.db.artifacts
      × (a.registry_id ≡ t.label)
      × (((split_docker_repository repository).0 ≡ "")
          ⊎ (a.namespace ≡ (split_docker_repository repository).0))
      × (a.artifact_name ≡ (split_docker_repository repository).1)
      × ((a.version ≡ reference) ⊎ (a.digest ≡ reference))
      × (manifest_of a.metadata ≡ some answer.body)
      × (digest_header answer ≡ some a.digest)

  -- an answer that was fetched
  abbrev pub FromUpstream : DockerTarget → String → String → Reply → Type 0
  FromUpstream t repository reference answer =
      (content_type : String) × (fetch_manifest_from_upstream out t.reg repository reference
        ≡ ok (answer.body, content_type))
      × (digest_header answer ≡ some (sha256_digest out answer.body))

  abbrev Served : State adapter redis × Reply → Type 0
  Served run = run.1.status ≡ status_ok

  -- what the cache function returns is what was fetched
  abbrev IsFetch : DockerTarget → String → String → Fetched → Type 0
  IsFetch t repository reference (body, digest, content_type) =
      (from : String) × (fetch_manifest_from_upstream out t.reg repository reference
        ≡ ok (body, from))
      × (digest ≡ sha256_digest out body)

  saved_same :
      (fetched : Fetched) (st : State adapter redis) (run : Db × Option Error) (got : Fetched)
      → (row_saved out adapter redis fetched st run).1 ≡ ok got
      → fetched ≡ got
  unfolding row_saved
  saved_same fetched st (db', none) got h = ap (value_or fetched) h
  saved_same fetched st (db', some e) got h = cc

  stored_same :
      (t : DockerTarget) (repository reference : String) (fetched : Fetched)
      (st : State adapter redis) (saved : Result String) (got : Fetched)
      → (cache_stored out adapter redis t repository reference fetched st saved).1 ≡ ok got
      → fetched ≡ got
  unfolding cache_stored cache_row
  stored_same t repository reference fetched st (err e) got h = cc
  stored_same t repository reference fetched st (ok ref) got h =
      elim (Bool-cases (is_digest_reference reference)) [
        | inl e ↦ ap (value_or fetched) (rw (e, cache_stored) at h)
        | inr e ↦ saved_same fetched st _ got (rw (e, cache_stored) at h)
      ]

  cached-IsFetch :
      (t : DockerTarget) (repository reference : String) (st : State adapter redis) (got : Fetched)
      → (cache_manifest_from_upstream out adapter redis t repository reference st).1 ≡ ok got
      → IsFetch t repository reference got
  unfolding cache_manifest_from_upstream
  cached-IsFetch t repository reference st got h =
      elim (Result-cases (fetch_manifest_from_upstream out t.reg repository reference)) [
        | inr (x, e) ↦ cc (rw (e, cache_manifest_from_upstream) at h)
        | inl ((body, from), e) ↦
            subst (IsFetch t repository reference)
              (stored_same t repository reference _ _ _ got
                (rw (e, cache_manifest_from_upstream) at h))
              (from, e, refl)
      ]

  fetched-Served :
      (t : DockerTarget) (repository reference : String)
      (run : State adapter redis × Result Fetched)
      → ((got : Fetched) → run.1 ≡ ok got → IsFetch t repository reference got)
      → Served (serve_fetched out adapter redis get_reply t repository reference run)
      → FromUpstream t repository reference
          (serve_fetched out adapter redis get_reply t repository reference run).1
  unfolding serve_fetched get_reply GoMap.get
  fetched-Served t repository reference (st, err e) is_fetch h = absurd (omega (arith, h))
  fetched-Served t repository reference (st, ok (body, digest, content_type)) is_fetch h =
      let (from, e, d) = is_fetch (body, digest, content_type) refl in (from, e, ap some d)

  row-Served :
      (t : DockerTarget) (repository reference : String) (a : ArtifactMetadata)
      (st : State adapter redis)
      → Served (serve_cached out adapter redis get_reply t repository reference a st)
      → (manifest_of a.metadata
          ≡ some (serve_cached out adapter redis get_reply t repository reference a st).1.body)
        × (digest_header (serve_cached out adapter redis get_reply t repository reference a st).1
            ≡ some a.digest)
  unfolding serve_cached get_reply GoMap.get
  row-Served t repository reference a st h =
      elim (Bool-cases (elim t.reg [ none ↦ false | some reg ↦ not reg.proxy ])) [
        | inl e ↦
            let bad : status_not_found ≡ status_ok = rw (e, serve_cached) at h in
            absurd (omega (arith, bad))
        | inr e ↦ elim (Option-cases (manifest_of a.metadata)) [
          | inl n ↦
              let bad : status_internal_error ≡ status_ok = rw (e, n, serve_cached) at h in
              absurd (omega (arith, bad))
          | inr (body, n) ↦ rw (e, n, serve_cached, get_reply, GoMap.get) (refl, refl)
        ]
      ]

  -- how a manifest may come to be served
  abbrev pub IsServed : DockerTarget → String → String → State adapter redis → Reply → Type 0
  IsServed t repository reference st answer =
      ((a : ArtifactMetadata) × FromRow t repository reference st answer a)
      ⊎ FromUpstream t repository reference answer

  -- a row that was listed and matches, served
  listed-Served :
      (t : DockerTarget) (repository reference : String) (st : State adapter redis)
      (artifacts : List ArtifactMetadata)
      → ((a : ArtifactMetadata)
          → Memᴰ a artifacts
          → Memᴰ a st.rbac.db.artifacts
            × (a.registry_id ≡ t.label)
            × (((split_docker_repository repository).0 ≡ "")
                ⊎ (a.namespace ≡ (split_docker_repository repository).0)))
      → Served (serve_manifest out adapter redis get_reply t repository reference artifacts st)
      → IsServed t repository reference st
          (serve_manifest out adapter redis get_reply t repository reference artifacts st).1
  unfolding serve_manifest find_cached matches
  listed-Served t repository reference st artifacts rows h =
      let name = (split_docker_repository repository).1 in
      let cached = cache_manifest_from_upstream out adapter redis t repository reference st in
      let fetched = cached-IsFetch t repository reference st in
      elim (Option-cases (find_cached name reference artifacts)) [
        | inl e ↦
            rw (e, serve_manifest)
              (inr (
                fetched-Served t repository reference cached fetched (rw (e, serve_manifest) at h)))
        | inr (a, e) ↦ elim (Bool-cases (stale_cached_tag out t repository reference a.digest)) [
          | inl s ↦
              rw (e, s, serve_manifest)
                (inr (
                  fetched-Served t repository reference cached fetched
                    (rw (e, s, serve_manifest) at h)))
          | inr s ↦
              let (m, fits) = find_where_sound (matches name reference) artifacts e in
              let (body, digest) =
                row-Served t repository reference a st (rw (e, s, serve_manifest) at h) in
              let (n, r, ns) = rows a m in
              rw (e, s, serve_manifest)
                (inl (
                  a,
                  (
                    n,
                    r,
                    ns,
                    (matched name reference a fits).0,
                    (matched name reference a fits).1,
                    body,
                    digest,
                  ),
                ))
        ]
      ]

  -- Where the docker proxy serves a manifest, it is the manifest of a row of the table: of the
  -- registry, with the name and with the version or the digest that were asked for, and of the
  -- namespace, unless the repository is named without one, which admits a row of any namespace; or
  -- it was fetched from upstream, and the digest that is sent along is that of its body. It is
  -- assumed that ORDER BY returns no rows but the selected ones.
  pub handle_manifest-IsServed :
      (t : DockerTarget) (repository reference : String) (st : State adapter redis)
      → Arranges out.arrange
      → (handle_manifest out adapter redis t repository reference st).1.status ≡ status_ok
      → IsServed t repository reference st
          (handle_manifest out adapter redis t repository reference st).1
  unfolding handle_manifest listed_rows
  handle_manifest-IsServed t repository reference st arranges h =
      elim (Result-cases (listed_rows out adapter redis t repository st)) [
        | inr (x, e) ↦
            let bad : status_bad_gateway ≡ status_ok = rw (e, handle_manifest) at h in
            absurd (omega (arith, bad))
        | inl (artifacts, e) ↦
            rw (e, handle_manifest)
              (listed-Served t repository reference st artifacts
                (λ a m.
                  list_artifacts_sound out.arrange st.rbac.db t.label
                    (of_type "docker" (split_docker_repository repository).0) artifacts a arranges e
                    m)
                (rw (e, handle_manifest) at h))
      ]
