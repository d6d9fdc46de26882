-- ===== src/Database/Groups/Deletion.antt =====
-- That nothing is granted by a deleted group, and that the other groups keep what they have.
use cargobay.Prelude.{
  String, not, ◌≡◌, ◌≢◌, ap, sym, ◌∙◌, subst, Option, none, List, [], ◌∷◌, ◌++◌, Memᴰ, arith, inl,
  inr, Bool-cases, Mem-keep, Mem-append, ok, Error, leb, ◌==◌, eq_iff, if◌then◌else◌,
}
use cargobay.Database.Models.{Group}
use cargobay.Database.Tables.{Db, query, find_where, delete_where}
use cargobay.Database.Tables.Rows.{find_where-delete_where, query-if}
use cargobay.Database.Tables.Runs.{exec_cases, failing-none}
use cargobay.Database.Registries.Default.{query_ok}
use cargobay.Database.Grants.{
  is_group_grant, groups_with_id, join_groups, insert_by_creation, sort_by_creation,
  list_groups_for_user, get_group_registry_access,
}
use cargobay.Database.Groups.{without_group, delete_group}

inserted_sound :
    (g : Group) (gs : List Group) {x : Group} → Memᴰ x (insert_by_creation g gs) → Memᴰ x (g ∷ gs)
unfolding insert_by_creation
inserted_sound g [] m = m
inserted_sound g (y ∷ ys) {x} m = elim (Bool-cases (leb g.created_at y.created_at)) [
  | inl e ↦ rw (e, insert_by_creation) at m
  | inr e ↦
      let m' : Memᴰ x (y ∷ insert_by_creation g ys) = rw (e, insert_by_creation) at m in
      elim m' [
        | Memᴰ.head q ↦ Memᴰ.tail (Memᴰ.head q)
        | Memᴰ.tail n ↦ elim (inserted_sound g ys n) [
          | Memᴰ.head q ↦ Memᴰ.head q
          | Memᴰ.tail n' ↦ Memᴰ.tail (Memᴰ.tail n')
        ]
      ]
]

sorted_sound : (gs : List Group) {x : Group} → Memᴰ x (sort_by_creation gs) → Memᴰ x gs
unfolding sort_by_creation
sorted_sound [] m = m
sorted_sound (g ∷ gs) m = elim (inserted_sound g (sort_by_creation gs) m) [
  | Memᴰ.head q ↦ Memᴰ.head q
  | Memᴰ.tail n ↦ Memᴰ.tail (sorted_sound gs n)
]

joined_sound :
    (user_id : String) (members : List (String × String)) (groups : List Group) {x : Group}
    → Memᴰ x (join_groups user_id members groups)
    → Memᴰ x groups
unfolding join_groups groups_with_id
joined_sound user_id [] groups m = elim m [ ]
joined_sound user_id ((g, u) ∷ rest) groups {x} m = elim (Bool-cases (u == user_id)) [
  | inl e ↦
      let m' : Memᴰ x (groups_with_id g groups ++ join_groups user_id rest groups) =
        rw (e, join_groups) at m in
      elim (Mem-append (groups_with_id g groups) _ m') [
        | inl n ↦ (Mem-keep (λ (y : Group). y.id == g) groups n).0
        | inr n ↦ joined_sound user_id rest groups n
      ]
  | inr e ↦ joined_sound user_id rest groups (rw (e, join_groups) at m)
]

-- What is left of a group: no grant, and no place in the groups of a user. The other groups keep
-- their grants.
abbrev pub IsGone : String → Db → Db → Type 0
IsGone id db db' =
    ((registry_id group_id : String)
      → get_group_registry_access db' registry_id group_id ≡ (
          if id == group_id
          then query "failed to get group registry access" db none
          else get_group_registry_access db registry_id group_id))
    × ((user_id : String) (gs : List Group)
        → list_groups_for_user db' user_id ≡ ok gs
        → (g : Group) → Memᴰ g gs
        → g.id ≢ id)

grants_left :
    (id registry_id group_id : String) (db : Db)
    → find_where
        (is_group_grant registry_id group_id)
        (delete_where (λ a. a.group_id == id) db.registry_group_access)
      ≡ (if id == group_id
          then none
          else find_where (is_group_grant registry_id group_id) db.registry_group_access)
grants_left id registry_id group_id db =
    find_where-delete_where (is_group_grant registry_id group_id) (λ a. a.group_id == id)
      (id == group_id) db.registry_group_access
      (λ a h. ground (arith, eq_iff a.group_id group_id, eq_iff a.group_id id, eq_iff id group_id))

gone :
    (id : String) (db : Db) (rest : List (Option Error))
    → IsGone id db (without_group id (record db { outcomes = rest }))
unfolding without_group get_group_registry_access list_groups_for_user query
gone id db rest =
    let text : String = "failed to get group registry access" in
    (
      λ registry_id group_id.
          ap (query text db) (grants_left id registry_id group_id db)
          ∙ query-if text db (id == group_id) none _,
      λ user_id gs h g m p.
          let same = query_ok _ (without_group id (record db { outcomes = rest })) _ h in
          let m' = sorted_sound _ (subst (λ x. Memᴰ g x) (sym same) m) in
          let spared =
            (Mem-keep (λ (x : Group). not (x.id == id)) db.groups
              (joined_sound user_id _ _ m')).1 in
          ground (arith, spared, p, eq_iff g.id id),
    )

-- After DeleteGroup without an error no grant of the group is found, whatever the registry, and no
-- user is in the group; the grants of the other groups are found as before.
pub delete_group_effect :
    (id : String) (db db' : Db) → delete_group id db ≡ (db', none) → IsGone id db db'
unfolding delete_group
delete_group_effect id db db' h =
    let ran = failing-none "failed to delete group" _ db' h in
    let (rest, cases) = exec_cases (without_group id) db in
    elim cases [
      | inl e ↦ subst (IsGone id db) (ap (λ r. r.0) (sym e ∙ ran)) (gone id db rest)
      | inr (x, e) ↦ cc (e, ran)
    ]
