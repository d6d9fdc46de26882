-- ===== src/Proxy/Docker/Pulls.antt =====
-- The handlers of docker.go that answer with a manifest or a list. They pull through from upstream
-- what is not cached.
pub mod Served
pub mod Unproxied
use mathlib.Core.Option
use cargobay.Prelude.{
  ℕ, String, Bool, true, false, not, Option, none, some, List, [], ◌∷◌, ◌++◌, Error, Result, ok,
  err, contains, map, keep, ◌==◌, if◌then◌else◌,
}
use Prim.Native.String
use cargobay.Http.{status_ok, status_not_found, status_internal_error, status_bad_gateway}
use cargobay.Cache.{RedisClient}
use cargobay.Storage.{StorageAdapter}
use cargobay.Database.Models.{ArtifactMetadata, text, RegistryConfig}
use cargobay.Database.Tables.{Db, find_where}
use cargobay.Database.Artifacts.{of_type, list_artifacts, save_artifact}
use cargobay.Database.Counters.{increment_artifact_downloads}
use cargobay.Proxy.Docker.Paths.{is_digest_reference, split_docker_repository}
use cargobay.Proxy.Docker.Upstream.{Outside, fetch_manifest_from_upstream}
use cargobay.Proxy.Docker.Requests.{Reply, failure, State, with_db, DockerTarget}
use cargobay.Proxy.Docker.Manifests.{
  matches, content_type_of, manifest_of, default_content_type, sha256_digest, Answer, get_reply,
  head_reply, stale_cached_tag, contents, manifest_row, manifest_key,
}

-- a manifest from upstream: body, digest and type
abbrev pub Fetched : Type 0
Fetched = String × String × String

-- the first row for the reference
unfoldable pub find_cached : String → String → List ArtifactMetadata → Option ArtifactMetadata
unfolding matches
find_cached name reference artifacts = find_where (matches name reference) artifacts

-- "Namespace/ArtifactName", or the name alone
unfoldable pub repository_of : ArtifactMetadata → String
repository_of a =
    if a.namespace == ""
    then a.artifact_name
    else String.◌++◌ a.namespace (String.◌++◌ "/" a.artifact_name)

-- the loop of handleCatalog: each repository once
unfoldable pub catalog : List String → List ArtifactMetadata → List String
unfolding repository_of
catalog seen [] = seen
catalog seen (a ∷ rest) =
    let repo = repository_of a in
    catalog (if contains seen repo then seen else seen ++ repo ∷ []) rest

module _ (out : Outside) (adapter : StorageAdapter) (redis : RedisClient) where
  abbrev pub Docker : Type 0
  Docker = State adapter redis

  -- what is returned after the row was saved
  unfoldable pub row_saved : Fetched → Docker → Db × Option Error → Docker × Result Fetched
  unfolding with_db
  row_saved fetched st (db', some e) = (with_db adapter redis st db', err e)
  row_saved fetched st (db', none) = (with_db adapter redis st db', ok fetched)

  -- the row for a tag, saved after its manifest was stored
  unfoldable pub cache_row :
      DockerTarget → String → String → Fetched → Docker → Docker × Result Fetched
  unfolding contents manifest_row row_saved
  cache_row t repository reference (body, digest, content_type) st =
      let (more, total) = contents out t.reg repository body in
      let row =
        manifest_row out st.rbac.db t.label repository reference body
          (("manifest", text (out.json_text body))
            ∷ ("contentType", text (out.json_text content_type))
            ∷ more)
          total in
      row_saved (body, digest, content_type) st (save_artifact "" row st.rbac.db)

  -- what is done with a fetched manifest, after it was stored
  unfoldable pub cache_stored :
      DockerTarget → String → String → Fetched → Docker → Result String → Docker × Result Fetched
  unfolding is_digest_reference cache_row
  cache_stored t repository reference fetched st (err e) = (st, err e)
  cache_stored t repository reference fetched st (ok ref) =
      if is_digest_reference reference
      then (st, ok fetched)
      else cache_row t repository reference fetched st

  unfoldable pub cache_manifest_from_upstream :
      DockerTarget → String → String → Docker → Docker × Result Fetched
  unfolding fetch_manifest_from_upstream manifest_key cache_stored
  cache_manifest_from_upstream t repository reference st =
      elim (fetch_manifest_from_upstream out t.reg repository reference) [
        | err e ↦ (st, err e)
        | ok (body, content_type) ↦
            let (store, saved) =
              adapter.save_artifact (manifest_key out t.label repository reference) body st.store in
            cache_stored t repository reference
              (
                body,
                sha256_digest out body,
                if content_type == "" then default_content_type else content_type,
              )
              (record st { store = store }) saved
      ]

  -- IncrementArtifactDownloads for a tag; an error is logged
  unfoldable pub record_download : DockerTarget → String → String → String → Docker → Docker
  unfolding is_digest_reference split_docker_repository increment_artifact_downloads with_db
  record_download t repository reference version st =
      if not (is_digest_reference reference)
      then (let (namespace, name) = split_docker_repository repository in
          with_db adapter redis st
            (increment_artifact_downloads t.label namespace name version st.rbac.db).0)
      else st

  module _ (answer : Answer) where
    unfoldable pub serve_cached :
        DockerTarget → String → String → ArtifactMetadata → Docker → Docker × Reply
    unfolding content_type_of manifest_of record_download
    serve_cached t repository reference artifact st =
        if elim t.reg [ none ↦ false | some reg ↦ not reg.proxy ]
        then (st, failure status_not_found "upstream proxy disabled")
        else elim (manifest_of artifact.metadata) [
          | none ↦ (st, failure status_internal_error "internal error: invalid manifest type")
          | some body ↦ (
            record_download t repository reference artifact.version st,
            answer (content_type_of artifact.metadata) artifact.digest body,
          )
        ]

    unfoldable pub serve_fetched :
        DockerTarget → String → String → Docker × Result Fetched → Docker × Reply
    unfolding record_download
    serve_fetched t repository reference (st, err e) =
        (st, failure status_not_found "manifest unknown")
    serve_fetched t repository reference (st, ok (body, digest, content_type)) =
        (record_download t repository reference reference st, answer content_type digest body)

    -- what is done with the rows of the namespace
    unfoldable pub serve_manifest :
        DockerTarget → String → String → List ArtifactMetadata → Docker → Docker × Reply
    unfolding split_docker_repository find_cached stale_cached_tag serve_cached serve_fetched
        cache_manifest_from_upstream
    serve_manifest t repository reference artifacts st =
        let fetched =
          serve_fetched t repository reference
            (cache_manifest_from_upstream t repository reference st) in
        elim (find_cached (split_docker_repository repository).1 reference artifacts) [
          | none ↦ fetched
          | some artifact ↦
              if not (stale_cached_tag out t repository reference artifact.digest)
              then serve_cached t repository reference artifact st
              else fetched
        ]

  -- the rows of the namespace: a hundred at most
  unfoldable pub listed_rows : DockerTarget → String → Docker → Result (List ArtifactMetadata)
  unfolding split_docker_repository list_artifacts
  listed_rows t repository st =
      list_artifacts out.arrange st.rbac.db t.label
        (of_type "docker" (split_docker_repository repository).0)

  unfoldable pub handle_manifest : DockerTarget → String → String → Docker → Docker × Reply
  unfolding listed_rows serve_manifest get_reply
  handle_manifest t repository reference st = elim (listed_rows t repository st) [
    | err e ↦ (st, failure status_bad_gateway "Failed to get manifest")
    | ok artifacts ↦ serve_manifest get_reply t repository reference artifacts st
  ]

  -- where the rows cannot be listed, the manifest is pulled through
  unfoldable pub handle_head_manifest : DockerTarget → String → String → Docker → Docker × Reply
  unfolding listed_rows serve_manifest head_reply
  handle_head_manifest t repository reference st = elim (listed_rows t repository st) [
    | err e ↦ serve_manifest head_reply t repository reference [] st
    | ok artifacts ↦ serve_manifest head_reply t repository reference artifacts st
  ]

  unfoldable pub handle_tags : DockerTarget → String → Docker → Result (List String)
  unfolding listed_rows split_docker_repository
  handle_tags t repository st = elim (listed_rows t repository st) [
    | err e ↦ err e
    | ok artifacts ↦ ok (
        map (λ a. a.version)
          (keep (λ a. a.artifact_name == (split_docker_repository repository).1) artifacts))
  ]

  unfoldable pub handle_catalog : DockerTarget → Docker → List String
  unfolding list_artifacts catalog
  handle_catalog t st = elim (list_artifacts out.arrange st.rbac.db t.label (of_type "docker" "")) [
    | err e ↦ []
    | ok artifacts ↦ catalog [] artifacts
  ]
