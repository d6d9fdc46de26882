-- ===== src/Proxy/Virtual/Members.antt =====
-- Which members of a virtual registry a request may be served from.
use mathlib.Core.Option
use cargobay.Prelude.{
  String, ◌≡◌, ◌≢◌, ◌↔◌, refl, sym, subst, ap, true, Option, none, some, List, [], ◌∷◌, Memᴰ, arith,
  Result, ok, err, Bool-cases, Option-cases, inl, inr, ◌==◌, eq_iff,
}
use cargobay.Prelude.Text.{cut_suffix, cut_suffix_sound, cut_suffix-append}
use cargobay.Database.Models.{RegistryConfig}
use cargobay.Database.Tables.{Db}
use cargobay.Database.Access.{tables}
use cargobay.Database.Registries.{get_registry, virtual_type_for}
use cargobay.Middleware.User.{User}
use cargobay.Rbac.Types.{Rbac}
use cargobay.Rbac.Access.{can_read_registry}
use cargobay.Rbac.Grants.{MayRead, can_read_registry_iff}
use cargobay.Proxy.Virtual.{
  base_type_of_virtual, candidate, candidates, resolve_member_candidates, is_virtual_registry,
}

base_sound :
    (registry_type base : String)
    → base_type_of_virtual registry_type ≡ some base
    → (base ≢ "") × (registry_type ≡ virtual_type_for base)
unfolding base_type_of_virtual virtual_type_for
base_sound registry_type base h = elim (Option-cases (cut_suffix "-virtual" registry_type)) [
  | inl e ↦ cc (rw (e, base_type_of_virtual) at h)
  | inr (b, e) ↦ elim (Bool-cases (b == "")) [
    | inl t ↦ cc (rw (e, t, base_type_of_virtual) at h)
    | inr t ↦
        let p : b ≡ base = Option.some-injective _ _ (rw (e, t, base_type_of_virtual) at h) in
        subst (λ x. (x ≢ "") × (registry_type ≡ virtual_type_for x)) p
          ((λ q. cc ((eq_iff b "").1 q, t)), cut_suffix_sound "-virtual" registry_type e)
  ]
]

base_complete :
    (base : String) → base ≢ "" → base_type_of_virtual (virtual_type_for base) ≡ some base
unfolding base_type_of_virtual virtual_type_for
base_complete base named =
    rw (cut_suffix-append base "-virtual", base_type_of_virtual) (ground (arith, eq_iff base ""))

-- A registry's type is read as the virtual type of the nonempty type that it was built from, and
-- no other type is read as a virtual one.
pub base_type_of_virtual_iff :
    (registry_type base : String)
    → (base_type_of_virtual registry_type ≡ some base)
      ↔ ((base ≢ "") × (registry_type ≡ virtual_type_for base))
base_type_of_virtual_iff registry_type base =
    (base_sound registry_type base, λ w. rw (w.1) (base_complete base (w.0)))

row_of : Result (Option RegistryConfig) → RegistryConfig → RegistryConfig
row_of (ok (some m)) d = m
row_of (ok none) d = d
row_of (err e) d = d

row_injective :
    {a b : RegistryConfig}
    → ◌≡◌ {A = Result (Option RegistryConfig)} (ok (some a)) (ok (some b))
    → a ≡ b
unfolding row_of
row_injective {a} h = ap (λ x. row_of x a) h

module _ (r : Rbac Db) (user : Option User) (member_type : String) where
  -- a member that a request may be served from
  abbrev pub IsServing : RegistryConfig → Type 0
  IsServing member =
      (member.enabled ≡ true) × (member.type ≡ member_type) × MayRead tables r user (some member)

  candidate_iff :
      (found : Result (Option RegistryConfig)) (member : RegistryConfig)
      → (candidate r user member_type found ≡ some member)
        ↔ ((found ≡ ok (some member)) × IsServing member)
  unfolding candidate
  candidate_iff (err e) member = (λ h. cc, λ w. cc (w.0))
  candidate_iff (ok none) member = (λ h. cc, λ w. cc (w.0))
  candidate_iff (ok (some m)) member =
      let decided = can_read_registry_iff tables r user (some m) in
      (
        λ h. elim (Bool-cases (m.type == member_type)) [
          | inl t ↦ elim (Bool-cases (can_read_registry tables r user (some m))) [
            | inl c ↦
                let p : m ≡ member = ground arith in
                (
                  ap (λ x. ok (some x)) p,
                  subst IsServing p (ground arith, (eq_iff m.type member_type).0 t, decided.0 c),
                )
            | inr c ↦ ground arith
          ]
          | inr t ↦ ground arith
        ],
        λ w.
            let q : m ≡ member = row_injective (w.0) in
            let (enabled, fits, may) = subst IsServing (sym q) (w.1) in
            ground (arith, decided.1 may, eq_iff m.type member_type),
      )

  -- a member that a list of IDs names
  abbrev pub Listed : List String → RegistryConfig → Type 0
  Listed ids member =
      (id : String) × Memᴰ id ids × (get_registry r.db id ≡ ok (some member)) × IsServing member

  later :
      (id : String) {ids : List String} {member : RegistryConfig}
      → Listed ids member
      → Listed (id ∷ ids) member
  later id (i, m, found, serves) = (i, Memᴰ.tail m, found, serves)

  candidates_sound :
      (ids : List String) {member : RegistryConfig}
      → Memᴰ member (candidates r user member_type ids)
      → Listed ids member
  unfolding candidates
  candidates_sound [] m = elim m [ ]
  candidates_sound (id ∷ ids) {member} m =
      elim (Option-cases (candidate r user member_type (get_registry r.db id))) [
        | inl e ↦ later id (candidates_sound ids (rw (e, candidates) at m))
        | inr (c, e) ↦
            let m' : Memᴰ member (c ∷ candidates r user member_type ids) =
              rw (e, candidates) at m in
            elim m' [
              | Memᴰ.head q ↦
                  let (found, serves) = (candidate_iff _ c).0 e in
                  subst (Listed (id ∷ ids)) (sym q) (id, Memᴰ.head refl, found, serves)
              | Memᴰ.tail n ↦ later id (candidates_sound ids n)
            ]
      ]

  candidates_complete :
      (ids : List String) {member : RegistryConfig} (id : String)
      → Memᴰ id ids
      → get_registry r.db id ≡ ok (some member)
      → IsServing member
      → Memᴰ member (candidates r user member_type ids)
  unfolding candidates
  candidates_complete [] id m found serves = elim m [ ]
  candidates_complete (i ∷ ids) {member} id (Memᴰ.head q) found serves =
      let e = (candidate_iff _ member).1 (found, serves) in rw (← q, e, candidates) (Memᴰ.head refl)
  candidates_complete (i ∷ ids) {member} id (Memᴰ.tail m) found serves =
      let n = candidates_complete ids id m found serves in
      elim (Option-cases (candidate r user member_type (get_registry r.db i))) [
        | inl e ↦ rw (e, candidates) n
        | inr (c, e) ↦ rw (e, candidates) (Memᴰ.tail n)
      ]

  -- A registry may serve a request to a virtual registry of the request's type exactly when it is
  -- listed as a member, is there, is enabled, is of the type of the request, and may be read by the
  -- user himself: the virtual registry does not open the registries behind it.
  pub resolve_member_candidates_iff :
      (reg member : RegistryConfig)
      → reg.type ≡ virtual_type_for member_type
      → Memᴰ member (resolve_member_candidates r user (some reg) member_type)
        ↔ Listed reg.members member
  unfolding resolve_member_candidates is_virtual_registry
  resolve_member_candidates_iff reg member h =
      let e = (eq_iff reg.type (virtual_type_for member_type)).1 h in
      rw (e, resolve_member_candidates, is_virtual_registry)
        (candidates_sound reg.members, λ w. candidates_complete reg.members (w.0) (w.1) (w.2) (w.3))
