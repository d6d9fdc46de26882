-- ===== src/Tests/Docker.antt =====
-- Requests to the docker proxy.
use cargobay.Prelude.{
  String, true, false, ◌≡◌, refl, ap, subst, Option, none, some, List, [], ◌∷◌, message, ok, err,
}
use cargobay.Prelude.GoMap
use cargobay.Prelude.GoMap.{GoMap}
use cargobay.Prelude.Text.{cut, cut_prefix}
use cargobay.Prelude.Parts.{split}
use cargobay.Storage.{StorageAdapter}
use cargobay.Storage.Local.{local_adapter, is_below, get_artifact_path, file_path}
use cargobay.Storage.Local.Laws.{local-StorageLaws}
use cargobay.Database.Models.{ArtifactMetadata, RegistryConfig, text}
use cargobay.Database.Tables.{Db, empty, query, exec, exec_at, finish, find_where}
use cargobay.Database.Keys.{create_access_key, insert_key}
use cargobay.Rbac.Types.{Rbac}
use cargobay.Rbac.Grants.{MayPublish}
use cargobay.Database.Access.{tables}
use cargobay.Rbac.Access.{can_read_registry, can_publish_registry}
use cargobay.Proxy.Target.{resolve_registry, bound_registry, default_registry, accepted, host_only}
use cargobay.Database.Registries.{
  get_registry_by_host, get_default_registry, first_by_priority, scan_registry,
}
use cargobay.Proxy.Docker.Paths.{
  manifest, upload, route_read, route_head, route_delete, route_patch, route_put,
  parse_docker_scope, has, split_at_last,
}
use cargobay.Proxy.Docker.Paths.Splitting.{manifest_or_upload, routes-joined}
use cargobay.Proxy.Docker.Upstream.{Outside}
use cargobay.Proxy.Docker.Requests.{
  Request, Reply, State, DockerTarget, resolve_target, resolve_target_for_path,
}
use cargobay.Proxy.Docker.Token.{
  token, handle_token, issue, grant_for, scoped_grant, minted, read_only,
}
use cargobay.Proxy.Docker.Token.Permitted.{Permitted}
use cargobay.Proxy.Docker.Token.Issued.{Minted, handle_token_sound}
use cargobay.Http.{status_ok, status_created}
use cargobay.Cache
use cargobay.Cache.Kept.{RedisKeeps}
use cargobay.Storage.Local
use cargobay.Storage.Local.{save_in, call, next_outcome, write, reference}
use cargobay.Database.Artifacts.{
  save_artifact, save_or_retry, save_artifact_statement, list_artifacts, list_page, listed, asked,
  default_text, default_limit,
}
use cargobay.Database.Artifacts.Listing.{Arranges}
use cargobay.Proxy.Docker.Paths.{split_docker_repository, is_digest_reference}
use cargobay.Proxy.Docker.Upstream.{read_all}
use cargobay.Proxy.Docker.Manifests.{
  manifest_key, matches, stale_cached_tag, get_reply, manifest_of,
}
use cargobay.Proxy.Docker.Pulls.{
  handle_manifest, handle_head_manifest, listed_rows, serve_manifest, find_cached, serve_cached,
}
use cargobay.Proxy.Docker.Pulls.Served.{IsServed, handle_manifest-IsServed}
use cargobay.Proxy.Docker.Pulls.Unproxied.{NotServed, unproxied_refused}
use cargobay.Proxy.Docker.Pushes.{handle_put_manifest, put_body, put_stored, put_row, put_reply}
use cargobay.Proxy.Docker.Pushes.Stored.{IsPushed, put_manifest-IsPushed}
use cargobay.Proxy.Docker.Blobs.{
  is_unproxied, blob_key, upload_key, handle_get_blob, handle_head_blob, handle_patch_upload,
  handle_finish_upload, patch_body, finish_body, finished_body, finish_reply, upload_digest,
}
use cargobay.Proxy.Docker.Blobs.Uploaded
use cargobay.Proxy.Docker.Blobs.Uploaded.{whole, last_chunk-IsServed}
use cargobay.Proxy.Docker.Serve.{put, serve}
use cargobay.Proxy.Docker.Serve.Guarded.{IsRefused, serve-IsRefused}
use cargobay.Tests.Rbac.{ann, tools}
use cargobay.Tests.Storage.{slash_join, files}
use cargobay.Tests.Artifacts.{map_client, cold, image, as_text}

latest_plain : cut "/" "latest" ≡ none
unfolding cut
latest_plain = refl

routes-joined_example :
    (route_read "library/nginx/manifests/latest" ≡ manifest "library/nginx" "latest")
    × (route_head "library/nginx/manifests/latest" ≡ manifest "library/nginx" "latest")
    × (route_delete "library/nginx/manifests/latest" ≡ manifest "library/nginx" "latest")
    × (route_patch "library/nginx/blobs/uploads/latest" ≡ upload "library/nginx" "latest")
    × (route_put "library/nginx/blobs/uploads/latest" ≡ upload "library/nginx" "latest")
    × (route_put "library/nginx/manifests/latest"
        ≡ manifest_or_upload "library/nginx" "latest"
            (split_at_last "/blobs/uploads/" "library/nginx/"))
routes-joined_example = routes-joined "library/nginx" "latest" latest_plain

-- a repository whose manifests are taken for uploads
upload_taken : route_put "a/blobs/uploads/b/manifests/latest" ≡ upload "a" "b/manifests/latest"
unfolding route_put split_at_last cut_prefix
upload_taken = refl

-- nothing answers upstream, and JSON is not looked into
abbrev world : Outside
world = record {
  split_host = λ s. none;
  url_host = λ url. "";
  send = λ method url headers credentials. err (message "connection refused");
  query_escape = λ s. s;
  decode_token = λ reader. err (message "invalid JSON");
  decode_list = λ body. none;
  decode_sizes = λ body. none;
  is_object = λ body. true;
  encode_tags = λ repository tags. "";
  json_text = λ body. body;
  sha256_hex = λ body. body;
  arrange = λ column direction xs. xs;
}

abbrev docker_rbac : Rbac Db
docker_rbac = record { db = empty; role_cache = []; permission_cache = [] }

abbrev request : Request
request = record {
  host = "localhost";
  path = "/v2/app/manifests/v1";
  user = some ann;
  body = record { payload = "{}"; failure = none };
  digest = "";
  scope = "repository:app:pull,push";
}

abbrev issued : Rbac Db
issued = record docker_rbac {
  db = record empty {
    access_keys =
        record {
          id = "id";
          user_id = "ann";
          name = "docker-token";
          key_hash = "key_s";
          permissions = read_only;
          created_at = 0;
          last_used = none;
          expires_at = some 86400000000000;
          is_active = true;
          key_type = "session";
          description = "";
        }
        ∷ [];
  };
}

token-issued : handle_token "id" "s" (ok "t") world docker_rbac request ≡ (issued, token "key_s")
unfolding handle_token issue grant_for scoped_grant minted parse_docker_scope has cut split
    resolve_target_for_path cut_prefix resolve_registry bound_registry default_registry accepted
    host_only get_registry_by_host get_default_registry first_by_priority query find_where
    scan_registry can_read_registry can_publish_registry create_access_key insert_key exec exec_at
    finish
token-issued = refl

handle_token_sound_example :
    (permissions : List String) × Permitted world docker_rbac request permissions
      (parse_docker_scope request.scope)
    × Minted docker_rbac issued (some ann) permissions "key_s"
handle_token_sound_example =
    handle_token_sound world "id" "s" (ok "t") docker_rbac issued request "key_s" token-issued

abbrev adapter : StorageAdapter
adapter = local_adapter slash_join "storage"

abbrev state : State adapter map_client
state = record { rbac = docker_rbac; store = files; cache = cold }

abbrev same_text : String → String
same_text s = s

-- nobody pushes
abbrev anonymous_push : Request
anonymous_push = record request { user = none }

nobody : (reg : Option RegistryConfig) → ¬ MayPublish tables docker_rbac none reg
nobody none h = h
nobody (some reg) h = h

serve-IsRefused_example :
    IsRefused none state
      (serve world adapter map_client as_text as_text same_text "1" put anonymous_push state)
serve-IsRefused_example =
    serve-IsRefused world adapter map_client as_text as_text same_text "1" put anonymous_push state
      (nobody (resolve_target world docker_rbac.db anonymous_push).0.reg)

abbrev hosted : RegistryConfig
hosted = record tools { id = "hosted"; type = "docker" }

abbrev hosted_target : DockerTarget
hosted_target = record { reg = some hosted; label = "hosted"; prefix = "" }

-- the target of a request that no registry is configured for
abbrev open_target : DockerTarget
open_target = record { reg = none; label = "docker"; prefix = "" }

unproxied_refused_example :
    NotServed adapter map_client state
      (handle_manifest world adapter map_client hosted_target "app" "v1" state)
    × NotServed adapter map_client state
        (handle_head_manifest world adapter map_client hosted_target "app" "v1" state)
    × NotServed adapter map_client state
        (handle_get_blob world adapter map_client hosted_target "app" "v1" state)
    × NotServed adapter map_client state
        (handle_head_blob world adapter map_client hosted_target "app" "v1" state)
unproxied_refused_example =
    unproxied_refused world adapter map_client hosted_target hosted refl refl "app" "v1" state

manifest_below :
    is_below
      (get_artifact_path slash_join "storage" (manifest_key world "hosted" "app" "v1"))
      (file_path slash_join "storage" (manifest_key world "hosted" "app" "v1"))
    ≡ true
unfolding is_below get_artifact_path file_path cut_prefix manifest_key split_docker_repository cut
manifest_below = refl

abbrev after_put : State adapter map_client × Reply
after_put = handle_put_manifest world adapter map_client hosted_target "app" "v1" request.body state

put_created : after_put.1.status ≡ status_created
unfolding handle_put_manifest read_all put_body put_stored put_row put_reply Local.save_artifact
    save_in call next_outcome write reference save_artifact save_or_retry save_artifact_statement
    exec exec_at finish
put_created = refl

put_manifest-IsPushed_example :
    (request.body.failure ≡ none)
    × IsPushed world adapter map_client hosted_target "app" "v1" "{}" state after_put.0
put_manifest-IsPushed_example =
    put_manifest-IsPushed world adapter map_client hosted_target "app" "v1" request.body state
      after_put.0 after_put.1
      (local-StorageLaws slash_join "storage" (manifest_key world "hosted" "app" "v1")
        manifest_below)
      refl put_created

-- a tag in the table
abbrev cached_image : ArtifactMetadata
cached_image = record image { metadata = ("manifest", text "{}") ∷ [] }

abbrev cached_state : State adapter map_client
cached_state = record state {
  rbac = record docker_rbac { db = record empty { artifacts = cached_image ∷ [] } };
}

tag_served :
    (handle_manifest world adapter map_client open_target "library/nginx" "latest"
      cached_state).1.status
    ≡ status_ok
unfolding handle_manifest listed_rows serve_manifest find_cached matches stale_cached_tag
    serve_cached get_reply manifest_of split_docker_repository is_digest_reference list_artifacts
    list_page query listed asked default_text default_limit find_where cut cut_prefix GoMap.get
tag_served = refl

same_rows_arranged : Arranges world.arrange
same_rows_arranged column direction xs x m = m

handle_manifest-IsServed_example :
    IsServed world adapter map_client open_target "library/nginx" "latest" cached_state
      (handle_manifest world adapter map_client open_target "library/nginx" "latest" cached_state).1
handle_manifest-IsServed_example =
    handle_manifest-IsServed world adapter map_client open_target "library/nginx" "latest"
      cached_state same_rows_arranged tag_served

blob_below :
    is_below
      (get_artifact_path slash_join "storage" (blob_key "app" "sha256:aa"))
      (file_path slash_join "storage" (blob_key "app" "sha256:aa"))
    ≡ true
unfolding is_below get_artifact_path file_path cut_prefix blob_key
blob_below = refl

map_keeps : RedisKeeps map_client
map_keeps key payload ttl s s' h = ap ok (
    subst (λ m. GoMap.get key m ≡ some payload) (ap (λ r. r.0) h)
      (GoMap.get-put_self key payload s))

-- PATCH of "xyz", then PUT without a body
abbrev after_upload : State adapter map_client × Reply
after_upload =
    handle_finish_upload world adapter map_client as_text as_text same_text "app" "u1" "sha256:aa"
      (whole "")
      (handle_patch_upload world adapter map_client as_text as_text same_text hosted_target "app"
        "u1" (whole "xyz") state).0

upload_created : after_upload.1.status ≡ status_created
unfolding handle_finish_upload handle_patch_upload patch_body finish_body finished_body finish_reply
    upload_digest read_all Local.save_artifact save_in call next_outcome write reference Cache.set
    Cache.get Cache.set_with_ttl Cache.got Cache.stored GoMap.get GoMap.put GoMap.delete
upload_created = refl

chunk_kept : (Cache.set map_client (ok "xyz") (upload_key "app" "u1") cold).1 ≡ none
unfolding Cache.set Cache.set_with_ttl Cache.stored
chunk_kept = refl

open_proxied : is_unproxied open_target ≡ false
unfolding is_unproxied
open_proxied = refl

last_chunk-IsServed_example :
    Uploaded.IsServed world adapter map_client open_target "app" "sha256:aa" "xyz" after_upload.0
last_chunk-IsServed_example =
    last_chunk-IsServed world adapter map_client as_text as_text same_text hosted_target open_target
      "app" "u1" "sha256:aa" "xyz" "xyz" state after_upload.0 after_upload.1 map_keeps
      (local-StorageLaws slash_join "storage" (blob_key "app" "sha256:aa") blob_below) refl refl
      chunk_kept (λ p. cc p) refl upload_created open_proxied
