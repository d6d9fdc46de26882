-- ===== src/Rbac/SystemRoles.antt =====
-- The system roles under role management: whatever is asked and whatever the database answers, the
-- cache keeps the definitions of the static table.
use Prim.Native.Char.{Char, code}
use Prim.Native.String.{String}
use text.Mathlib.TextLemmas.{cons-append, head-eq_of_cons-eq}
use cargobay.Prelude.{
  ◌≡◌, ◌≢◌, ap, true, false, none, some, List, [], ◌∷◌, ◌++◌, not, keep, arith, ok, ◌==◌, eq_iff,
  Result-cases, Option-cases, Bool-cases, inl, inr,
}
use cargobay.Prelude.GoMap
use cargobay.Prelude.GoMap.{GoMap, get-put, get-delete}
use cargobay.Database.Api.{DatabaseApi}
use cargobay.Rbac.Types.{RoleDefinition, Rbac}
use cargobay.Rbac.Static.{static_roles, new}
use cargobay.Rbac.Roles.{
  RoleOp, new_role, create, update, delete, assign, revoke, add_permission, remove_permission,
  role_id_of, changeable, save_updated, create_role, update_role, remove_role, assign_role,
  revoke_role, add_permission_to_role, remove_permission_from_role, run_op, run_ops,
}

-- every role of the static table is cached as the table has it
abbrev pub HasSystemRoles : {Db : Type 0} → Rbac Db → Type 0
HasSystemRoles r =
    (id : String) (role : RoleDefinition)
    → GoMap.get id static_roles ≡ some role
    → GoMap.get id r.role_cache ≡ some role

-- a created role has an ID of its own: it begins with an r, and no system role's does
role_id_of-cons : (name : String) → (s : String) × (role_id_of name ≡ String.◌∷◌ "r" s)
unfolding role_id_of
role_id_of-cons name = (_, cons-append "r" "ole_" _)

ne_r : (c : Char) (t s : String) → code c ≢ b'r' → (String.◌∷◌ c t == String.◌∷◌ "r" s) ≡ false
ne_r c t s h = elim (Bool-cases (String.◌∷◌ c t == String.◌∷◌ "r" s)) [
  | inl e ↦ absurd (h (ap code (head-eq_of_cons-eq ((eq_iff _ _).0 e))))
  | inr e ↦ e
]

static_roles-r : (s : String) → GoMap.get (String.◌∷◌ "r" s) static_roles ≡ none
unfolding static_roles GoMap.get
static_roles-r s = rw (
  ne_r "a" "dmin" s (omega arith),
  ne_r "v" "iewer" s (omega arith),
  ne_r "p" "ublisher" s (omega arith),
)

static_roles-role_id_of : (name : String) → GoMap.get (role_id_of name) static_roles ≡ none
static_roles-role_id_of name = let (s, e) = role_id_of-cons name in rw e (static_roles-r s)

static_role_system :
    (id : String) (role : RoleDefinition)
    → GoMap.get id static_roles ≡ some role
    → role.is_system ≡ true
unfolding static_roles GoMap.get
static_role_system id role h = ground arith

-- a write or a deletion elsewhere keeps the system roles
module _ (cache : GoMap RoleDefinition) (k : String) (free : GoMap.get k static_roles ≡ none) where
  put_keeps :
      (v : RoleDefinition) (id : String) (role : RoleDefinition)
      → GoMap.get id static_roles ≡ some role
      → GoMap.get id cache ≡ some role
      → GoMap.get id (GoMap.put k v cache) ≡ some role
  put_keeps v id role h c = ground (arith, get-put k id v cache, eq_iff k id)

  delete_keeps :
      (id : String) (role : RoleDefinition)
      → GoMap.get id static_roles ≡ some role
      → GoMap.get id cache ≡ some role
      → GoMap.get id (GoMap.delete k cache) ≡ some role
  delete_keeps id role h c = ground (arith, get-delete k id cache, eq_iff k id)

module _ (api : DatabaseApi) (r : Rbac api.Db) (safe : HasSystemRoles r) where
  -- what a method may change is no system role
  changeable_free :
      (refusal k : String) (role : RoleDefinition)
      → changeable api refusal k r ≡ ok role
      → GoMap.get k static_roles ≡ none
  unfolding changeable
  changeable_free refusal k role h = elim (Option-cases (GoMap.get k static_roles)) [
    | inl e ↦ e
    | inr (d, e) ↦ absurd (ground (arith, safe k d e, static_role_system k d e))
  ]

  create_keeps :
      (name description : String) (permissions : List String)
      → HasSystemRoles (create_role api name description permissions r).0
  unfolding create_role
  create_keeps name description permissions id role h =
      let k = role_id_of name in
      let free = static_roles-role_id_of name in
      let v = new_role name description permissions in
      let kept = put_keeps r.role_cache k free v id role h (safe id role h) in
      ground (arith, kept, delete_keeps (GoMap.put k v r.role_cache) k free id role h kept)

  save_keeps :
      (k : String) (v : RoleDefinition)
      → GoMap.get k static_roles ≡ none
      → HasSystemRoles (save_updated api k v r).0
  unfolding save_updated
  save_keeps k v free id role h = put_keeps r.role_cache k free v id role h (safe id role h)

  update_keeps :
      (k name description : String) (permissions : List String)
      → HasSystemRoles (update_role api k name description permissions r).0
  unfolding update_role
  update_keeps k name description permissions id role h =
      elim (Result-cases (changeable api "cannot modify system role" k r)) [
        | inl (old, e) ↦
            let v = record old {
              name = name;
              description = description;
              permissions = permissions;
            } in
            let kept = save_keeps k v (changeable_free _ k old e) id role h in
            rw (e, update_role) (ground (arith, kept))
        | inr (x, e) ↦ rw (e, update_role) (safe id role h)
      ]

  remove_keeps : (k : String) → HasSystemRoles (remove_role api k r).0
  unfolding remove_role
  remove_keeps k id role h = elim (Result-cases (changeable api "cannot delete system role" k r)) [
    | inl (old, e) ↦
        rw (e, remove_role)
          (delete_keeps r.role_cache k (changeable_free _ k old e) id role h (safe id role h))
    | inr (x, e) ↦ rw (e, remove_role) (safe id role h)
  ]

  add_keeps : (k p : String) → HasSystemRoles (add_permission_to_role api k p r).0
  unfolding add_permission_to_role
  add_keeps k p id role h = elim (Result-cases (changeable api "cannot modify system role" k r)) [
    | inl (old, e) ↦
        rw (e, add_permission_to_role)
          (ground (
            arith,
            safe id role h,
            save_keeps k (record old { permissions = old.permissions ++ p ∷ [] })
                (changeable_free _ k old e) id role h,
          ))
    | inr (x, e) ↦ rw (e, add_permission_to_role) (safe id role h)
  ]

  remove_permission_keeps :
      (k p : String) → HasSystemRoles (remove_permission_from_role api k p r).0
  unfolding remove_permission_from_role
  remove_permission_keeps k p id role h =
      elim (Result-cases (changeable api "cannot modify system role" k r)) [
        | inl (old, e) ↦
            let rest = keep (λ q. not (q == p)) old.permissions in
            rw (e, remove_permission_from_role)
              (ground (
                arith,
                safe id role h,
                save_keeps k (record old { permissions = rest }) (changeable_free _ k old e) id role
                    h,
              ))
        | inr (x, e) ↦ rw (e, remove_permission_from_role) (safe id role h)
      ]

  assign_keeps : (u k : String) → HasSystemRoles (assign_role api u k r).0
  unfolding assign_role
  assign_keeps u k id role h = ground (arith, safe id role h)

module _ (api : DatabaseApi) where
  run_op-HasSystemRoles :
      (op : RoleOp) (r : Rbac api.Db) → HasSystemRoles r → HasSystemRoles (run_op api op r)
  unfolding run_op
  run_op-HasSystemRoles (create n d ps) r safe = create_keeps api r safe n d ps
  run_op-HasSystemRoles (update k n d ps) r safe = update_keeps api r safe k n d ps
  run_op-HasSystemRoles (delete k) r safe = remove_keeps api r safe k
  run_op-HasSystemRoles (assign u k) r safe = assign_keeps api r safe u k
  run_op-HasSystemRoles (revoke u k) r safe = unfold revoke_role in safe
  run_op-HasSystemRoles (add_permission k p) r safe = add_keeps api r safe k p
  run_op-HasSystemRoles (remove_permission k p) r safe = remove_permission_keeps api r safe k p

  -- After any sequence of role operations, whatever each is asked to do and whatever the database
  -- answers to it, every system role that was cached as the static table defines it still is.
  pub run_ops-HasSystemRoles :
      (ops : List RoleOp) (r : Rbac api.Db) → HasSystemRoles r → HasSystemRoles (run_ops api ops r)
  unfolding run_ops
  run_ops-HasSystemRoles [] r safe = safe
  run_ops-HasSystemRoles (op ∷ ops) r safe =
      run_ops-HasSystemRoles ops (run_op api op r) (run_op-HasSystemRoles op r safe)

-- a new manager has them
pub new-HasSystemRoles : {Db : Type 0} (db : Db) → HasSystemRoles (new db)
unfolding new static_roles GoMap.get GoMap.put GoMap.delete
new-HasSystemRoles db id role h = ground (
  arith,
  eq_iff "admin" id,
  eq_iff "viewer" id,
  eq_iff "publisher" id,
  eq_iff "admin" "viewer",
  eq_iff "admin" "publisher",
  eq_iff "viewer" "publisher",
)
