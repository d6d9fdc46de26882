-- ===== src/Rbac/Roles.antt =====
-- Role management in rbac.go. A method runs under the manager's lock, so its calls are one step.
-- The cache is written before the database, and some methods undo that write on an error.
use Prim.Native.Char.{Char, code}
use Prim.Native.String
use cargobay.Prelude.{
  String, false, Option, none, some, List, [], ◌∷◌, ◌++◌, Error, message, Result, ok, err, contains,
  keep, not, eqb, ◌==◌, if◌then◌else◌,
}
use cargobay.Prelude.GoMap
use cargobay.Database.Api.{DatabaseApi}
use cargobay.Rbac.Types.{RoleDefinition, Rbac}

underscore_for_space : Char → Char
underscore_for_space c = if eqb (code c) 32 then "_" else c

-- strings.ReplaceAll(name, " ", "_")
underscores : String → String
underscores String.[] = String.[]
underscores (String.◌∷◌ c s) = String.◌∷◌ (underscore_for_space c) (underscores s)

-- fmt.Sprintf("role_%s", strings.ReplaceAll(name, " ", "_"))
unfoldable pub role_id_of : String → String
unfolding underscores underscore_for_space
role_id_of name = String.◌++◌ "role_" (underscores name)

-- The role that CreateRole makes.
abbrev pub new_role : String → String → List String → RoleDefinition
new_role name description permissions = record {
  id = role_id_of name;
  name = name;
  description = description;
  permissions = permissions;
  is_system = false;
}

-- The operations of role management, for sequences of them.
pub data RoleOp : Type 0 where
  create : String → String → List String → RoleOp
  update : String → String → String → List String → RoleOp
  delete : String → RoleOp
  assign : String → String → RoleOp
  revoke : String → String → RoleOp
  add_permission : String → String → RoleOp
  remove_permission : String → String → RoleOp

module _ (api : DatabaseApi) where
  open api use {Db, save_role, delete_role, assign_role_to_user, revoke_role_from_user}

  -- r.roleCache[roleID] = role, and also a write to the fields of the *RoleDefinition under roleID
  unfoldable pub cache_role : String → RoleDefinition → Rbac Db → Rbac Db
  cache_role role_id role r = record r { role_cache = GoMap.put role_id role r.role_cache }

  -- delete(r.roleCache, roleID)
  unfoldable pub uncache_role : String → Rbac Db → Rbac Db
  uncache_role role_id r = record r { role_cache = GoMap.delete role_id r.role_cache }

  -- r.db.SaveRole(role.ID, ...), with the error that it returns
  unfoldable pub store_role : RoleDefinition → Rbac Db → Rbac Db × Option Error
  store_role role r =
      let (db', error) =
        save_role role.id role.name role.description role.is_system role.permissions r.db in
      (record r { db = db' }, error)

  unfoldable pub create_role :
      String → String → List String → Rbac Db → Rbac Db × Result RoleDefinition
  unfolding cache_role uncache_role store_role
  create_role name description permissions r =
      let role = new_role name description permissions in
      let (r', error) = store_role role (cache_role role.id role r) in
      elim error [ none ↦ (r', ok role) | some e ↦ (uncache_role role.id r', err e) ]

  -- SaveRole at the end of an update: the cache keeps the new definition whatever it returns.
  unfoldable pub save_updated : String → RoleDefinition → Rbac Db → Rbac Db × Option Error
  unfolding cache_role store_role
  save_updated role_id role r = store_role role (cache_role role_id role r)

  -- The role that a method is about to change, or why it may not.
  unfoldable pub changeable : String → String → Rbac Db → Result RoleDefinition
  changeable refusal role_id r = elim (GoMap.get role_id r.role_cache) [
    | none ↦ err (message "role not found")
    | some role ↦ if role.is_system then err (message refusal) else ok role
  ]

  unfoldable pub update_role :
      String → String → String → List String → Rbac Db → Rbac Db × Result RoleDefinition
  unfolding changeable save_updated
  update_role role_id name description permissions r =
      elim (changeable "cannot modify system role" role_id r) [
        | err e ↦ (r, err e)
        | ok role ↦
            let role' = record role {
              name = name;
              description = description;
              permissions = permissions;
            } in
            let (r', error) = save_updated role_id role' r in
            elim error [ none ↦ (r', ok role') | some e ↦ (r', err e) ]
      ]

  unfoldable pub remove_role : String → Rbac Db → Rbac Db × Option Error
  unfolding changeable uncache_role
  remove_role role_id r = elim (changeable "cannot delete system role" role_id r) [
    | err e ↦ (r, some e)
    | ok role ↦
        let r' = uncache_role role_id r in
        let (db', error) = delete_role role_id r'.db in (record r' { db = db' }, error)
  ]

  unfoldable pub assign_role : String → String → Rbac Db → Rbac Db × Option Error
  assign_role user_id role_id r = elim (GoMap.get role_id r.role_cache) [
    | none ↦ (r, some (message "role not found"))
    | some role ↦
        let (db', error) = assign_role_to_user user_id role_id r.db in
        (record r { db = db' }, error)
  ]

  unfoldable pub revoke_role : String → String → Rbac Db → Rbac Db × Option Error
  revoke_role user_id role_id r =
      let (db', error) = revoke_role_from_user user_id role_id r.db in
      (record r { db = db' }, error)

  unfoldable pub add_permission_to_role : String → String → Rbac Db → Rbac Db × Option Error
  unfolding changeable save_updated
  add_permission_to_role role_id permission r =
      elim (changeable "cannot modify system role" role_id r) [
        | err e ↦ (r, some e)
        | ok role ↦
            if contains role.permissions permission
            then (r, none)
            else save_updated role_id
                (record role { permissions = role.permissions ++ permission ∷ [] }) r
      ]

  unfoldable pub remove_permission_from_role : String → String → Rbac Db → Rbac Db × Option Error
  unfolding changeable save_updated
  remove_permission_from_role role_id permission r =
      elim (changeable "cannot modify system role" role_id r) [
        | err e ↦ (r, some e)
        | ok role ↦
            if not (contains role.permissions permission)
            then (r, none)
            else save_updated role_id
                (record role { permissions = keep (λ p. not (p == permission)) role.permissions }) r
      ]

  unfoldable pub run_op : RoleOp → Rbac Db → Rbac Db
  run_op (create name description permissions) r = (create_role name description permissions r).0
  run_op (update role_id name description permissions) r =
      (update_role role_id name description permissions r).0
  run_op (delete role_id) r = (remove_role role_id r).0
  run_op (assign user_id role_id) r = (assign_role user_id role_id r).0
  run_op (revoke user_id role_id) r = (revoke_role user_id role_id r).0
  run_op (add_permission role_id permission) r = (add_permission_to_role role_id permission r).0
  run_op (remove_permission role_id permission) r =
      (remove_permission_from_role role_id permission r).0

  unfoldable pub run_ops : List RoleOp → Rbac Db → Rbac Db
  run_ops [] r = r
  run_ops (op ∷ ops) r = run_ops ops (run_op op r)
