-- ===== src/Proxy/Docker/Serve.antt =====
-- The routes of docker.go for a path below /v2/: the access check, and the handler for the shape of
-- the path. Writes take a user, whom the middleware RequireAuth asks for.
pub mod Guarded
use mathlib.Core.Option
use cargobay.Prelude.{
  ℕ, String, Bool, true, false, Option, none, some, List, [], ◌∷◌, Error, Result, ok, err,
}
use cargobay.Http.{Verdict, next, reply, status_ok, status_not_found, status_bad_gateway}
use cargobay.Cache.{RedisClient}
use cargobay.Storage.{StorageAdapter}
use cargobay.Middleware.Authentication.{require_auth}
use cargobay.Proxy.Target.{Access, granted, denied}
use cargobay.Proxy.Docker.Paths.{
  Route, manifest, tags, blob, upload, new_upload, not_found, route_read, route_head, route_put,
  route_post, route_patch, route_delete,
}
use cargobay.Proxy.Docker.Upstream.{Outside}
use cargobay.Proxy.Docker.Requests.{Request, Reply, failure, State, DockerTarget, check_target}
use cargobay.Proxy.Docker.Pulls.{handle_manifest, handle_head_manifest, handle_tags}
use cargobay.Proxy.Docker.Pushes.{handle_put_manifest, handle_delete_manifest}
use cargobay.Proxy.Docker.Blobs.{
  handle_get_blob, handle_head_blob, handle_start_upload, handle_patch_upload, handle_finish_upload,
}

pub data Method : Type 0 where
  get : Method
  head : Method
  put : Method
  post : Method
  patch : Method
  del : Method

abbrev pub page_not_found : Reply
page_not_found = failure status_not_found "404 page not found"

unfoldable pub tags_reply : (String → List String → String) → String → Result (List String) → Reply
tags_reply encode repository (err e) = failure status_bad_gateway "Failed to get tags"
tags_reply encode repository (ok found) = record {
  status = status_ok;
  headers = ("Content-Type", "application/json") ∷ [];
  body = encode repository found;
}

-- a handler behind the access check
unfoldable pub guarded {ℓ} :
    {S : Type ℓ}
    → (DockerTarget → String → S → S × Reply)
    → (DockerTarget × String) × Access
    → S
    → S × Reply
guarded handle ((t, path), granted) st = handle t path st
guarded handle ((t, path), denied status) st =
    (st, failure status "access denied for this registry")

module _ (out : Outside) (adapter : StorageAdapter) (redis : RedisClient)
    (marshal : String → Result String) (unmarshal : String → Result String)
    (hex : String → String) where
  abbrev pub Docker : Type 0
  Docker = State adapter redis

  unfoldable pub read_route : DockerTarget → Route → Docker → Docker × Reply
  unfolding handle_manifest handle_tags handle_get_blob tags_reply
  read_route t (manifest repo ref) st = handle_manifest out adapter redis t repo ref st
  read_route t (tags repo) st =
      (st, tags_reply out.encode_tags repo (handle_tags out adapter redis t repo st))
  read_route t (blob repo digest) st = handle_get_blob out adapter redis t repo digest st
  read_route t _ st = (st, page_not_found)

  unfoldable pub handle_v2_read : Request → Docker → Docker × Reply
  unfolding read_route route_read check_target guarded
  handle_v2_read req st =
      guarded (λ t path st. read_route t (route_read path) st) (check_target out st.rbac req false)
        st

  unfoldable pub head_route : DockerTarget → Route → Docker → Docker × Reply
  unfolding handle_head_manifest handle_head_blob
  head_route t (manifest repo ref) st = handle_head_manifest out adapter redis t repo ref st
  head_route t (blob repo digest) st = handle_head_blob out adapter redis t repo digest st
  head_route t _ st = (st, page_not_found)

  unfoldable pub handle_v2_head : Request → Docker → Docker × Reply
  unfolding head_route route_head check_target guarded
  handle_v2_head req st =
      guarded (λ t path st. head_route t (route_head path) st) (check_target out st.rbac req false)
        st

  unfoldable pub put_route : Request → DockerTarget → Route → Docker → Docker × Reply
  unfolding handle_finish_upload handle_put_manifest
  put_route req t (upload repo upload_id) st =
      handle_finish_upload out adapter redis marshal unmarshal hex repo upload_id req.digest
        req.body st
  put_route req t (manifest repo ref) st =
      handle_put_manifest out adapter redis t repo ref req.body st
  put_route req t _ st = (st, page_not_found)

  unfoldable pub handle_v2_put : Request → Docker → Docker × Reply
  unfolding put_route route_put check_target guarded
  handle_v2_put req st =
      guarded (λ t path st. put_route req t (route_put path) st) (check_target out st.rbac req true)
        st

  -- `now` is the time, in digits
  unfoldable pub post_route : String → DockerTarget → Route → Docker → Docker × Reply
  unfolding handle_start_upload
  post_route now t (new_upload repo) st = (st, handle_start_upload t repo now)
  post_route now t _ st = (st, page_not_found)

  unfoldable pub handle_v2_post : String → Request → Docker → Docker × Reply
  unfolding post_route route_post check_target guarded
  handle_v2_post now req st =
      guarded (λ t path st. post_route now t (route_post path) st)
        (check_target out st.rbac req true) st

  unfoldable pub patch_route : Request → DockerTarget → Route → Docker → Docker × Reply
  unfolding handle_patch_upload
  patch_route req t (upload repo upload_id) st =
      handle_patch_upload out adapter redis marshal unmarshal hex t repo upload_id req.body st
  patch_route req t _ st = (st, page_not_found)

  unfoldable pub handle_v2_patch : Request → Docker → Docker × Reply
  unfolding patch_route route_patch check_target guarded
  handle_v2_patch req st =
      guarded (λ t path st. patch_route req t (route_patch path) st)
        (check_target out st.rbac req true) st

  unfoldable pub delete_route : DockerTarget → Route → Docker → Docker × Reply
  unfolding handle_delete_manifest
  delete_route t (manifest repo ref) st = handle_delete_manifest out adapter redis t repo ref st
  delete_route t _ st = (st, page_not_found)

  unfoldable pub handle_v2_delete : Request → Docker → Docker × Reply
  unfolding delete_route route_delete check_target guarded
  handle_v2_delete req st =
      guarded (λ t path st. delete_route t (route_delete path) st)
        (check_target out st.rbac req true) st

  -- r.Use(middleware.RequireAuth)
  unfoldable pub behind_auth : Verdict → Docker × Reply → Docker → Docker × Reply
  behind_auth next answer st = answer
  behind_auth (reply status body) answer st = (st, failure status body)

  -- the routes of NewDockerProxy for a path other than "/", "/token" and "/_catalog"
  unfoldable pub serve : String → Method → Request → Docker → Docker × Reply
  unfolding handle_v2_read handle_v2_head handle_v2_put handle_v2_post handle_v2_patch
      handle_v2_delete behind_auth require_auth
  serve now get req st = handle_v2_read req st
  serve now head req st = handle_v2_head req st
  serve now put req st = behind_auth (require_auth req.user) (handle_v2_put req st) st
  serve now post req st = behind_auth (require_auth req.user) (handle_v2_post now req st) st
  serve now patch req st = behind_auth (require_auth req.user) (handle_v2_patch req st) st
  serve now del req st = behind_auth (require_auth req.user) (handle_v2_delete req st) st
