-- ===== src/Rbac/Effective.antt =====
-- The permissions that a user has: the list that the API shows against the test that the handlers
-- make, and what a read-only credential leaves of them.
use cargobay.Prelude.{
  String, ◌≡◌, refl, ◌∙◌, false, ◌||◌, List, [], ◌∷◌, ◌++◌, arith, any, contains, Bool-cases,
  Result-cases, inl, inr, ◌==◌, eq_iff, if◌then◌else◌,
}
use cargobay.Database.Api.{DatabaseApi}
use cargobay.Rbac.Types.{Rbac}
use cargobay.Rbac.Access.{
  get_role_permissions, has_permission_in_role, has_permission, add_unseen, collect,
  get_user_role_permissions,
}

-- no text stands twice
abbrev pub IsDistinct : List String → Type 0
IsDistinct [] = Unit
IsDistinct (x ∷ xs) = (contains xs x ≡ false) × IsDistinct xs

contains-append :
    (xs ys : List String) (a : String) → contains (xs ++ ys) a ≡ (contains xs a || contains ys a)
contains-append [] ys a = refl
contains-append (x ∷ xs) ys a = ground (arith, contains-append xs ys a)

IsDistinct-append :
    (xs : List String) (a : String)
    → IsDistinct xs
    → contains xs a ≡ false
    → IsDistinct (xs ++ a ∷ [])
IsDistinct-append [] a d h = (refl, tt)
IsDistinct-append (x ∷ xs) a d h = (
  ground (arith, contains-append xs (a ∷ []) x, eq_iff x a, eq_iff a x),
  IsDistinct-append xs a d.1 (ground arith),
)

-- one more permission, unless it is there
abbrev grown : List String → String → List String
grown acc p = if contains acc p then acc else acc ++ p ∷ []

contains-grown :
    (acc : List String) (p q : String) → contains (grown acc p) q ≡ (contains acc q || p == q)
contains-grown acc p q = elim (Bool-cases (contains acc p)) [
  | inl e ↦ rw e (elim (Bool-cases (p == q)) [
    | inl pq ↦ rw (pq, ← (eq_iff p q).0 pq, e)
    | inr pq ↦ rw pq (ground arith)
  ])
  | inr e ↦ rw e (contains-append acc (p ∷ []) q ∙ ground arith)
]

IsDistinct-grown : (acc : List String) (p : String) → IsDistinct acc → IsDistinct (grown acc p)
IsDistinct-grown acc p d = elim (Bool-cases (contains acc p)) [
  | inl e ↦ rw e d
  | inr e ↦ rw e (IsDistinct-append acc p d e)
]

contains-add_unseen :
    (acc ps : List String) (q : String)
    → contains (add_unseen acc ps) q ≡ (contains acc q || contains ps q)
unfolding add_unseen
contains-add_unseen acc [] q = ground arith
contains-add_unseen acc (p ∷ ps) q =
    contains-add_unseen (grown acc p) ps q ∙ ground (arith, contains-grown acc p q)

IsDistinct-add_unseen : (acc ps : List String) → IsDistinct acc → IsDistinct (add_unseen acc ps)
unfolding add_unseen
IsDistinct-add_unseen acc [] d = d
IsDistinct-add_unseen acc (p ∷ ps) d =
    IsDistinct-add_unseen (grown acc p) ps (IsDistinct-grown acc p d)

module _ (api : DatabaseApi) (r : Rbac api.Db) where
  role_contains :
      (k q : String) → contains (get_role_permissions api r k) q ≡ has_permission_in_role api r k q
  unfolding get_role_permissions has_permission_in_role
  role_contains k q = ground arith

  contains-collect :
      (acc roles : List String) (q : String)
      → contains (collect api r acc roles) q
        ≡ (contains acc q || any (λ k. has_permission_in_role api r k q) roles)
  unfolding collect
  contains-collect acc [] q = ground arith
  contains-collect acc (k ∷ roles) q =
      contains-collect (add_unseen acc (get_role_permissions api r k)) roles q
      ∙ ground (arith, contains-add_unseen acc (get_role_permissions api r k) q, role_contains k q)

  IsDistinct-collect :
      (acc roles : List String) → IsDistinct acc → IsDistinct (collect api r acc roles)
  unfolding collect
  IsDistinct-collect acc [] d = d
  IsDistinct-collect acc (k ∷ roles) d =
      IsDistinct-collect (add_unseen acc (get_role_permissions api r k)) roles
        (IsDistinct-add_unseen acc (get_role_permissions api r k) d)

  -- The list of a user's permissions holds exactly the permissions that the permission test grants
  -- the user, and each of them once.
  pub get_user_role_permissions_exact :
      (user_id : String)
      → ((q : String)
          → contains (get_user_role_permissions api r user_id) q ≡ has_permission api r user_id q)
        × IsDistinct (get_user_role_permissions api r user_id)
  unfolding get_user_role_permissions has_permission
  get_user_role_permissions_exact user_id = elim (Result-cases (api.get_user_roles r.db user_id)) [
    | inl (roles, e) ↦ (
      λ q. rw (e, get_user_role_permissions, has_permission) (contains-collect [] roles q),
      rw (e, get_user_role_permissions) (IsDistinct-collect [] roles tt),
    )
    | inr (x, e) ↦ (
      λ q. rw (e, get_user_role_permissions, has_permission),
      rw (e, get_user_role_permissions) tt,
    )
  ]
