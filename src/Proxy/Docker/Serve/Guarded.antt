-- ===== src/Proxy/Docker/Serve/Guarded.antt =====
-- That the docker proxy does nothing for those who may not.
use cargobay.Prelude.{
  String, true, false, ◌≡◌, refl, Option, none, some, Bool-cases, inl, inr, Result,
}
use cargobay.Http.{status_unauthorized, status_forbidden}
use cargobay.Cache.{RedisClient}
use cargobay.Storage.{StorageAdapter}
use cargobay.Database.Models.{RegistryConfig}
use cargobay.Database.Tables.{Db}
use cargobay.Database.Access.{tables}
use cargobay.Middleware.User.{User}
use cargobay.Middleware.Authentication.{require_auth}
use cargobay.Rbac.Types.{Rbac}
use cargobay.Rbac.Access.{can_read_registry, can_publish_registry}
use cargobay.Rbac.Grants.{MayRead, MayPublish, can_read_registry_iff, can_publish_registry_iff}
use cargobay.Proxy.Target.{check_access}
use cargobay.Proxy.Target.Gate.{refusal_of}
use cargobay.Proxy.Docker.Upstream.{Outside}
use cargobay.Proxy.Docker.Requests.{
  Request, Reply, State, DockerTarget, resolve_target, check_target,
}
use cargobay.Proxy.Docker.Serve.{
  Method, get, head, put, post, patch, del, guarded, handle_v2_read, handle_v2_head, handle_v2_put,
  handle_v2_post, handle_v2_patch, handle_v2_delete, behind_auth, serve, read_route, head_route,
  put_route, post_route, patch_route, delete_route,
}
use cargobay.Proxy.Docker.Paths.{
  route_read, route_head, route_put, route_post, route_patch, route_delete,
}

-- the right that a method takes
abbrev pub Takes : Method → Rbac Db → Option User → Option RegistryConfig → Type 0
Takes get r user reg = MayRead tables r user reg
Takes head r user reg = MayRead tables r user reg
Takes put r user reg = MayPublish tables r user reg
Takes post r user reg = MayPublish tables r user reg
Takes patch r user reg = MayPublish tables r user reg
Takes del r user reg = MayPublish tables r user reg

-- a request that is refused: nothing changes, and the status says whether to log in
abbrev pub IsRefused : {S : Type 0} → Option User → S → S × Reply → Type 0
IsRefused user st (st', answer) = (st' ≡ st) × (answer.status ≡ refusal_of user)

status_refused :
    (user : Option User)
    → elim user [ none ↦ status_unauthorized | some u ↦ status_forbidden ] ≡ refusal_of user
status_refused none = refl
status_refused (some u) = refl

module _ {S : Type 0} (out : Outside) (handle : DockerTarget → String → S → S × Reply) (r : Rbac Db)
    (req : Request) (st : S) where
  reads-IsRefused :
      (¬ MayRead tables r req.user (resolve_target out r.db req).0.reg)
      → IsRefused req.user st (guarded handle (check_target out r req false) st)
  unfolding guarded check_target check_access
  reads-IsRefused no_right =
      let reg = (resolve_target out r.db req).0.reg in
      elim (Bool-cases (can_read_registry tables r req.user reg)) [
        | inl e ↦ absurd (no_right ((can_read_registry_iff tables r req.user reg).0 e))
        | inr e ↦
            rw (e, IsRefused, guarded, check_target, check_access) (refl, status_refused req.user)
      ]

  writes-IsRefused :
      (¬ MayPublish tables r req.user (resolve_target out r.db req).0.reg)
      → IsRefused req.user st (guarded handle (check_target out r req true) st)
  unfolding guarded check_target check_access
  writes-IsRefused no_right =
      let reg = (resolve_target out r.db req).0.reg in
      elim (Bool-cases (can_publish_registry tables r req.user reg)) [
        | inl e ↦ absurd (no_right ((can_publish_registry_iff tables r req.user reg).0 e))
        | inr e ↦
            rw (e, IsRefused, guarded, check_target, check_access) (refl, status_refused req.user)
      ]

module _ (out : Outside) (adapter : StorageAdapter) (redis : RedisClient)
    (marshal : String → Result String) (unmarshal : String → Result String)
    (hex : String → String) where
  auth-IsRefused :
      (user : Option User) (st : State adapter redis) (answer : State adapter redis × Reply)
      → IsRefused user st answer
      → IsRefused user st
          (behind_auth out adapter redis marshal unmarshal hex (require_auth user) answer st)
  unfolding behind_auth require_auth
  auth-IsRefused none st answer h = (refl, refl)
  auth-IsRefused (some u) st answer h = h

  -- The docker proxy refuses each request on a path whose registry the sender may not read from, or
  -- publish to where the request writes: it answers 401 to nobody and 403 to a user, and changes
  -- neither the database nor the storage nor the cache.
  pub serve-IsRefused :
      (now : String) (method : Method) (req : Request) (st : State adapter redis)
      → (¬ Takes method st.rbac req.user (resolve_target out st.rbac.db req).0.reg)
      → IsRefused req.user st (serve out adapter redis marshal unmarshal hex now method req st)
  unfolding serve handle_v2_read handle_v2_head handle_v2_put handle_v2_post handle_v2_patch
      handle_v2_delete
  serve-IsRefused now get req st h =
      reads-IsRefused out
        (λ t path st. read_route out adapter redis marshal unmarshal hex t (route_read path) st)
        st.rbac req st h
  serve-IsRefused now head req st h =
      reads-IsRefused out
        (λ t path st. head_route out adapter redis marshal unmarshal hex t (route_head path) st)
        st.rbac req st h
  serve-IsRefused now put req st h =
      auth-IsRefused req.user st (handle_v2_put out adapter redis marshal unmarshal hex req st) (
        writes-IsRefused out
          (λ t path st. put_route out adapter redis marshal unmarshal hex req t (route_put path) st)
          st.rbac req st h)
  serve-IsRefused now post req st h =
      auth-IsRefused req.user st (handle_v2_post out adapter redis marshal unmarshal hex now req st)
        (writes-IsRefused out
          (λ t path st.
            post_route out adapter redis marshal unmarshal hex now t (route_post path) st)
          st.rbac req st h)
  serve-IsRefused now patch req st h =
      auth-IsRefused req.user st (handle_v2_patch out adapter redis marshal unmarshal hex req st) (
        writes-IsRefused out
          (λ t path st.
            patch_route out adapter redis marshal unmarshal hex req t (route_patch path) st)
          st.rbac req st h)
  serve-IsRefused now del req st h =
      auth-IsRefused req.user st (handle_v2_delete out adapter redis marshal unmarshal hex req st) (
        writes-IsRefused out
          (λ t path st.
            delete_route out adapter redis marshal unmarshal hex t (route_delete path) st)
          st.rbac req st h)
