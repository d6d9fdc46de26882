-- ===== src/Rbac/Changes.antt =====
-- What role management does to the cached roles, on the paths where the database fails too.
use cargobay.Prelude.{
  String, ◌≡◌, true, false, not, ◌&&◌, ◌||◌, Option, none, some, List, [], ◌∷◌, ◌++◌, arith, Result,
  ok, err, contains, keep, Option-cases, inl, inr, ◌==◌, eq_iff, if◌then◌else◌,
}
use cargobay.Prelude.GoMap
use cargobay.Prelude.GoMap.{get-put, get-delete}
use cargobay.Database.Api.{DatabaseApi}
use cargobay.Rbac.Types.{RoleDefinition, Rbac}
use cargobay.Rbac.Access.{get_role, has_permission_in_role}
use cargobay.Rbac.Roles.{
  role_id_of, new_role, changeable, create_role, update_role, remove_role, add_permission_to_role,
  remove_permission_from_role,
}

module _ (api : DatabaseApi) (r : Rbac api.Db) where
  -- what the database answers to the creation of a role, as the answer of CreateRole
  abbrev pub created : String → String → List String → Result RoleDefinition
  created name description permissions =
      elim (api.save_role (role_id_of name) name description false permissions r.db).1 [
        | none ↦ ok (new_role name description permissions)
        | some e ↦ err e
      ]

  -- the role that a creation leaves under its ID
  abbrev pub left : Result RoleDefinition → Option RoleDefinition
  left (ok role) = some role
  left (err e) = none

  -- A creation answers with the new role if the database saved it, and else with the database's
  -- error. It caches the role in the first case, and leaves nothing under that ID in the second:
  -- also not a role that stood there before. Every other role stays.
  pub create_role_effect :
      (name description : String) (permissions : List String) (j : String)
      → let (r', answer) = create_role api name description permissions r in
        (answer ≡ created name description permissions)
        × (get_role api r' j ≡ (if role_id_of name == j then left answer else get_role api r j))
  unfolding create_role get_role
  create_role_effect name description permissions j =
      let k = role_id_of name in
      let v = new_role name description permissions in
      elim (Option-cases (api.save_role k name description false permissions r.db).1) [
        | inl e ↦ (ground arith, ground (arith, get-put k j v r.role_cache))
        | inr (x, e) ↦ (
          ground arith,
          ground (arith, get-put k j v r.role_cache, get-delete k j (GoMap.put k v r.role_cache)),
        )
      ]

  -- An update of a role that is there and is no system role puts the new definition into the
  -- cache, also where the database refuses to save it, and leaves every other role.
  pub update_role_effect :
      (k name description : String) (permissions : List String) (role : RoleDefinition) (j : String)
      → changeable api "cannot modify system role" k r ≡ ok role
      → get_role api (update_role api k name description permissions r).0 j ≡ (
          if k == j
          then some
              (record role { name = name; description = description; permissions = permissions })
          else get_role api r j)
  unfolding update_role get_role
  update_role_effect k name description permissions role j h =
      let v = record role { name = name; description = description; permissions = permissions } in
      rw (h, update_role) (ground (arith, get-put k j v r.role_cache))

  -- Removing a role that is there and is no system role takes it out of the cache, whether or not
  -- the database then deletes it, and leaves every other role.
  pub remove_role_effect :
      (k : String) (role : RoleDefinition) (j : String)
      → changeable api "cannot delete system role" k r ≡ ok role
      → get_role api (remove_role api k r).0 j ≡ (if k == j then none else get_role api r j)
  unfolding remove_role get_role
  remove_role_effect k role j h = rw (h, remove_role) (get-delete k j r.role_cache)

  -- what the cached role of a changeable ID is
  changeable_cached :
      (refusal k : String) (role : RoleDefinition)
      → changeable api refusal k r ≡ ok role
      → GoMap.get k r.role_cache ≡ some role
  unfolding changeable
  changeable_cached refusal k role h = ground arith

  contains_congr :
      (ps : List String) (p q : String) → (p == q) ≡ true → contains ps q ≡ contains ps p
  contains_congr ps p q h = rw ((eq_iff p q).0 h)

  contains-add :
      (ps : List String) (p q : String) → contains (ps ++ p ∷ []) q ≡ (contains ps q || p == q)
  contains-add [] p q = ground arith
  contains-add (x ∷ ps) p q = ground (arith, contains-add ps p q)

  contains-remove :
      (ps : List String) (p q : String)
      → contains (keep (λ x. not (x == p)) ps) q ≡ (not (p == q) && contains ps q)
  contains-remove [] p q = ground arith
  contains-remove (x ∷ ps) p q =
      ground (arith, contains-remove ps p q, eq_iff x p, eq_iff x q, eq_iff p q)

  -- Adding a permission to a role that is there and is no system role gives that role the
  -- permission in the cache, whatever the database answers, and changes no other pair of a role
  -- and a permission.
  pub add_permission_effect :
      (k p : String) (role : RoleDefinition) (j q : String)
      → changeable api "cannot modify system role" k r ≡ ok role
      → has_permission_in_role api (add_permission_to_role api k p r).0 j q
        ≡ (if k == j && p == q then true else has_permission_in_role api r j q)
  unfolding add_permission_to_role has_permission_in_role
  add_permission_effect k p role j q h =
      let v = record role { permissions = role.permissions ++ p ∷ [] } in
      let cached = changeable_cached "cannot modify system role" k role h in
      rw (h, add_permission_to_role)
        (ground (
          arith,
          cached,
          eq_iff k j,
          contains_congr role.permissions p q,
          get-put k j v r.role_cache,
          contains-add role.permissions p q,
        ))

  -- Removing a permission from a role that is there and is no system role takes it from that role
  -- in the cache, whatever the database answers, and changes no other pair of a role and a
  -- permission.
  pub remove_permission_effect :
      (k p : String) (role : RoleDefinition) (j q : String)
      → changeable api "cannot modify system role" k r ≡ ok role
      → has_permission_in_role api (remove_permission_from_role api k p r).0 j q
        ≡ (if k == j && p == q then false else has_permission_in_role api r j q)
  unfolding remove_permission_from_role has_permission_in_role
  remove_permission_effect k p role j q h =
      let v = record role { permissions = keep (λ x. not (x == p)) role.permissions } in
      let cached = changeable_cached "cannot modify system role" k role h in
      rw (h, remove_permission_from_role)
        (ground (
          arith,
          cached,
          eq_iff k j,
          contains_congr role.permissions p q,
          get-put k j v r.role_cache,
          contains-remove role.permissions p q,
        ))
