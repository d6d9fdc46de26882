-- ===== src/Database/Tables.antt =====
-- The state of the database as far as access control, registries and access keys use it, and how a
-- statement runs. A query of the pool answers from the tables, or fails as `read_fault` has it. A
-- statement that writes consumes one entry of `outcomes`: an error there (a lost connection, a
-- violated foreign key) means that the statement did not run; where the list ends, statements run.
-- A violated primary key is found by the statement itself. Rows stand in the order of insertion.
pub mod Runs
pub mod Rows
use cargobay.Prelude.{
  ℕ, String, Bool, not, Option, none, some, List, [], ◌∷◌, ◌++◌, Error, Result, ok, err, any, keep,
  if◌then◌else◌,
}
use cargobay.Database.Models.{
  ArtifactMetadata, UserRepository, AccessKey, RegistryConfig, RegistryAccess, Group,
  GroupRegistryAccess,
}

-- a row of `roles`; nothing reads its creation time
pub record Role : Type 0 where
  pub id : String
  pub name : String
  pub description : String
  pub is_system : Bool

pub record Db : Type 0 where
  pub registries : List RegistryConfig
  pub registry_access : List RegistryAccess
  pub groups : List Group
  -- (group, user)
  pub group_members : List (String × String)
  pub registry_group_access : List GroupRegistryAccess
  pub roles : List Role
  -- (role, permission)
  pub role_permissions : List (String × String)
  -- (user, role)
  pub user_roles : List (String × String)
  pub users : List UserRepository
  pub access_keys : List AccessKey
  pub artifacts : List ArtifactMetadata
  -- the row of `stats`
  pub total_pulls : ℕ
  pub bandwidth_saved_bytes : ℕ
  pub now : ℕ
  -- how each kind of query, named by the text of its error, fails
  pub read_fault : String → Option Error
  pub outcomes : List (Option Error)

abbrev pub empty : Db
empty = record {
  registries = [];
  registry_access = [];
  groups = [];
  group_members = [];
  registry_group_access = [];
  roles = [];
  role_permissions = [];
  user_roles = [];
  users = [];
  access_keys = [];
  artifacts = [];
  total_pulls = 0;
  bandwidth_saved_bytes = 0;
  now = 0;
  read_fault = λ _. none;
  outcomes = [];
}

-- pool.Query and pool.QueryRow with the scan of what they return
unfoldable pub query {ℓ} : {A : Type ℓ} → String → Db → A → Result A
query failed db answer = elim (db.read_fault failed) [
  | none ↦ ok answer
  | some e ↦ err (Error.wrap failed e)
]

-- what a statement leaves where it runs: it may find a violated key
unfoldable pub finish : Db → Result Db → Db × Option Error
finish db (ok db') = (db', none)
finish db (err e) = (db, some e)

-- pool.Exec, from what is ahead
unfoldable pub exec_at : List (Option Error) → (Db → Result Db) → Db → Db × Option Error
unfolding finish
exec_at [] statement db = finish db (statement db)
exec_at (none ∷ rest) statement db =
    let db' = record db { outcomes = rest } in finish db' (statement db')
exec_at (some e ∷ rest) statement db = (record db { outcomes = rest }, some e)

unfoldable pub exec : (Db → Result Db) → Db → Db × Option Error
unfolding exec_at
exec statement db = exec_at db.outcomes statement db

-- `return fmt.Errorf("...: %w", err)` after a statement
unfoldable pub failing : String → Db × Option Error → Db × Option Error
failing text (db, none) = (db, none)
failing text (db, some e) = (db, some (Error.wrap text e))

-- the statements of a transaction, each with the text of its error, from what is ahead
unfoldable pub steps_at :
    List (Option Error) → List (String × (Db → Db)) → Db → List (Option Error) × Result Db
steps_at os [] d = (os, ok d)
steps_at [] ((text, change) ∷ rest) d = steps_at [] rest (change d)
steps_at (none ∷ os) ((text, change) ∷ rest) d = steps_at os rest (change d)
steps_at (some e ∷ os) ((text, change) ∷ rest) d = (os, err (Error.wrap text e))

-- the tables after a commit, or after the deferred rollback
unfoldable pub settle : Db → List (Option Error) × Result Db → Db × Option Error
settle db (os, ok d) = (record d { outcomes = os }, none)
settle db (os, err e) = (record db { outcomes = os }, some e)

unfoldable pub transaction : List (String × (Db → Db)) → Db → Db × Option Error
unfolding steps_at settle
transaction steps db = settle db (steps_at db.outcomes steps db)

module _ {ℓ} {A : Type ℓ} where
  -- `SELECT ... WHERE same` for at most one row
  unfoldable pub find_where : (A → Bool) → List A → Option A
  find_where same [] = none
  find_where same (x ∷ xs) = if same x then some x else find_where same xs

  unfoldable pub update_where : (A → Bool) → (A → A) → List A → List A
  update_where same update [] = []
  update_where same update (x ∷ xs) =
      let rest = update_where same update xs in (if same x then update x else x) ∷ rest

  -- `INSERT ... ON CONFLICT (key) DO UPDATE`
  unfoldable pub upsert : (A → Bool) → (A → A) → A → List A → List A
  upsert same update row xs = if any same xs then update_where same update xs else xs ++ row ∷ []

  -- `INSERT ... ON CONFLICT (key) DO NOTHING`
  unfoldable pub insert_or_ignore : (A → Bool) → A → List A → List A
  insert_or_ignore same row xs = if any same xs then xs else xs ++ row ∷ []

  -- `DELETE ... WHERE same`
  abbrev pub delete_where : (A → Bool) → List A → List A
  delete_where same xs = keep (λ x. not (same x)) xs
