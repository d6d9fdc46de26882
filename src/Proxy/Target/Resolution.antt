-- ===== src/Proxy/Target/Resolution.antt =====
-- Which registries a request can reach: by the host that it names, by the prefix of its path, or by
-- default.
use cargobay.Prelude.{
  String, ◌≡◌, ◌≢◌, subst, ◌∙◌, ◌⊎◌, Bool, true, false, Option, none, some, arith, Result, ok, err,
  Bool-cases, Option-cases, inl, inr, ◌==◌, eq_iff,
}
use cargobay.Database.Models.{RegistryConfig}
use cargobay.Database.Tables.{Db, find_where}
use cargobay.Database.Registries.{
  scan_registry, is_bound, is_default, first_by_priority, get_registry_by_host,
  get_default_registry, virtual_type_for,
}
use cargobay.Database.Registries.Default.{
  query_ok, scanned, find_where_sound, first_by_priority-IsFirst, IsFirst,
}
use cargobay.Proxy.Target.{
  accepted, registry_type_matches, host_only, bound_registry, default_registry, resolve_registry,
}

accepted_sound {ℓ} :
    {A : Type ℓ} (test : A → Bool) (found : Result (Option A)) {x : A}
    → accepted test found ≡ some x
    → (found ≡ ok (some x)) × (test x ≡ true)
unfolding accepted
accepted_sound test (ok (some y)) h = ground arith
accepted_sound test (ok none) h = cc
accepted_sound test (err e) h = cc

-- a row that a query returns comes from a row of the table
by_host_sound :
    (db : Db) (host : String) {reg : RegistryConfig}
    → get_registry_by_host db host ≡ ok (some reg)
    → (host ≢ "") × (reg.host ≡ host) × (reg.enabled ≡ true)
unfolding get_registry_by_host
by_host_sound db host {reg} h = elim (Bool-cases (host == "")) [
  | inl e ↦ cc (rw (e, get_registry_by_host) at h)
  | inr e ↦
      let found = find_where (is_bound host) db.registries in
      let (r, f, same) = scanned found (query_ok _ db _ (rw (e, get_registry_by_host) at h)) in
      let (m, bound) = find_where_sound (is_bound host) db.registries f in
      let bound' : (host ≢ "") × (r.host ≡ host) × (r.enabled ≡ true) =
        (λ p. cc ((eq_iff host "").1 p, e), ground (arith, eq_iff r.host host), ground arith) in
      subst (λ (x : RegistryConfig). (host ≢ "") × (x.host ≡ host) × (x.enabled ≡ true)) same
        (unfold scan_registry in bound')
]

default_sound :
    (db : Db) (artifact_type : String) {reg : RegistryConfig}
    → get_default_registry db artifact_type ≡ ok (some reg)
    → is_default artifact_type reg ≡ true
unfolding get_default_registry scan_registry
default_sound db artifact_type h =
    let test = is_default artifact_type in
    let (r, f, same) = scanned (first_by_priority test db.registries) (query_ok _ db _ h) in
    let found : IsFirst test db.registries (some r) =
      subst (IsFirst test db.registries) f (first_by_priority-IsFirst test db.registries) in
    subst (λ (x : RegistryConfig). is_default artifact_type x ≡ true) same (found.1)

module _ (split_host : String → Option String) (url_host : String → String) where
  bound_registry_sound :
      (test : RegistryConfig → Bool) (db : Db) (request_host : String) {reg : RegistryConfig}
      → bound_registry split_host url_host test db request_host ≡ some reg
      → (test reg ≡ true)
        × (reg.enabled ≡ true)
        × (host_only split_host url_host request_host ≢ "")
        × (reg.host ≡ host_only split_host url_host request_host)
  unfolding bound_registry
  bound_registry_sound test db request_host h =
      let host = host_only split_host url_host request_host in
      elim (Bool-cases (host == "")) [
        | inl e ↦ cc (rw (e, bound_registry) at h)
        | inr e ↦
            let h' : accepted test (get_registry_by_host db host) ≡ some _ =
              rw (e, bound_registry) at h in
            let (found, fits) = accepted_sound test _ h' in
            let (named, bound, enabled) = by_host_sound db host found in
            (fits, enabled, named, bound)
      ]

  default_registry_sound :
      (db : Db) (artifact_type : String) {reg : RegistryConfig}
      → default_registry split_host url_host db artifact_type ≡ some reg
      → is_default artifact_type reg ≡ true
  unfolding default_registry
  default_registry_sound db artifact_type h =
      default_sound db artifact_type ((accepted_sound (λ _. true) _ h).0)

  -- The ways in which ResolveRegistry gives a registry for a request.
  abbrev pub Reaches : String → String → RegistryConfig → Type 0
  Reaches request_host artifact_type reg =
      (reg.enabled ≡ true)
      × (registry_type_matches reg.type artifact_type ≡ true)
      × (((host_only split_host url_host request_host ≢ "")
            × (reg.host ≡ host_only split_host url_host request_host))
          ⊎ ((reg.private ≡ false)
              × ((reg.proxy ≡ true) ⊎ (reg.type ≡ virtual_type_for artifact_type))))

  -- The registry that ResolveRegistry gives for a request is enabled and of the artifact type or its
  -- virtual type. It either is bound to the host that the request names, or it is public and proxies
  -- or is virtual. So ResolveRegistry gives a private registry for the registry's own host alone. Of
  -- the lookup by a prefix in the path, which reaches private registries too, nothing is said here.
  pub resolve_registry-Reaches :
      (db : Db) (request_host artifact_type : String) {reg : RegistryConfig}
      → resolve_registry split_host url_host db request_host artifact_type ≡ some reg
      → Reaches request_host artifact_type reg
  unfolding resolve_registry registry_type_matches
  resolve_registry-Reaches db request_host artifact_type {reg} h =
      let test = λ (r : RegistryConfig). registry_type_matches r.type artifact_type in
      elim (Option-cases (bound_registry split_host url_host test db request_host)) [
        | inl e ↦
            let d = default_registry_sound db artifact_type (rw (e, resolve_registry) at h) in
            (
              ground arith,
              ground arith,
              inr (ground arith, ground (arith, eq_iff reg.type (virtual_type_for artifact_type))),
            )
        | inr (r, e) ↦
            let p : some r ≡ some reg = rw (e, resolve_registry) at h in
            let (fits, enabled, named, bound) = bound_registry_sound test db request_host (e ∙ p) in
            (enabled, fits, inl (named, bound))
      ]
