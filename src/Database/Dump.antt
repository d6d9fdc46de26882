-- ===== src/Database/Dump.antt =====
-- The dump and the restore of database.go. `select` stands for `SELECT *` of a table, and `run_sql`
-- for the execution of a statement in a transaction; the other parameters are those of Literals.
-- Each call of the database consumes an entry of `faults`, as in the migrations.
pub mod Literals
pub mod Arrays
pub mod Quoting
pub mod Restored
use Prim.Native.String.{◌++◌}
use cargobay.Prelude.{
  ℕ, String, Option, none, some, List, [], ◌∷◌, Error, Result, ok, err, ◌>>=◌, wrapping, map,
}
use mathlib.Core.List
use cargobay.Migrate.{Faults, after}
use cargobay.Database.Dump.Literals.{ℤ, Value, join, sql_literal}

abbrev pub backup_tables : List String
backup_tables =
    "roles" ∷ "permissions" ∷ "role_permissions" ∷ "users" ∷ "user_roles" ∷ "access_keys"
    ∷ "registries" ∷ "registry_access" ∷ "artifacts" ∷ "vulnerability_scans" ∷ "audit_log"
    ∷ "vulnerability_db_settings" ∷ "search_index_settings" ∷ "vulnerability_scan_settings"
    ∷ "backup_settings" ∷ []

-- The first loop of DumpStatements, over the tables from the last to the first, put before what was
-- collected.
unfoldable pub truncations : List String → List String → List String
truncations [] later = later
truncations (table ∷ rest) later = truncations rest (("TRUNCATE TABLE " ++ table) ∷ later)

-- What a query of a table gives: the columns, its rows, each of which may fail to decode, and the
-- error behind them.
pub record Rows (V : Type 0) : Type 0 where
  pub columns : List String
  pub values : List (Result (List V))
  pub failure : Option Error

module _ (F A : Type 0) (format_int : ℤ → String) (format_float : ℕ → F → String)
    (format_time : ℕ → String) (marshal : A → Result String) where
  unfoldable pub insert_statement : String → List String → List (Value F A) → String
  unfolding join sql_literal
  insert_statement table columns values =
      let literals = map (sql_literal F A format_int format_float format_time marshal) values in
      "INSERT INTO "
      ++ (table ++ (" (" ++ (join ", " columns ++ (") VALUES (" ++ (join ", " literals ++ ")")))))

  -- the loop over the rows
  unfoldable pub insertions :
      String → List String → List (Result (List (Value F A))) → Result (List String)
  unfolding insert_statement
  insertions table columns [] = ok []
  insertions table columns (err e ∷ rest) = err (Error.wrap ("failed to read row from " ++ table) e)
  insertions table columns (ok values ∷ rest) = do
    later ← insertions table columns rest
    ok (insert_statement table columns values ∷ later)

  module _ (select : String → Result (Rows (Value F A))) where
    unfoldable pub dump_table : String → Result (List String)
    unfolding insertions
    dump_table table = elim (select table) [
      | err e ↦ err (Error.wrap ("failed to read table " ++ table) e)
      | ok rows ↦ do
        statements ← insertions table rows.columns rows.values
        elim rows.failure [
          | some e ↦ err (Error.wrap ("failed to read table " ++ table) e)
          | none ↦ ok statements
        ]
    ]

    unfoldable pub dump_tables : List String → Result (List String)
    unfolding dump_table
    dump_tables [] = ok []
    dump_tables (table ∷ rest) = do
      statements ← dump_table table
      later ← dump_tables rest
      ok (List.◌++◌ statements later)

    unfoldable pub dump_statements : Result (List String)
    unfolding truncations dump_tables
    dump_statements = do
      inserts ← dump_tables backup_tables
      ok (List.◌++◌ (truncations backup_tables []) inserts)

-- tx.Commit
unfoldable pub commit {ℓ} : {S : Type ℓ} → S → Faults → Faults × Result S
commit tables [] = ([], ok tables)
commit tables (none ∷ faults) = (faults, ok tables)
commit tables (some e ∷ faults) = (faults, err e)

-- the tables after a commit, or after the deferred rollback
unfoldable pub restored {ℓ} : {S : Type ℓ} → S → Faults × Result S → S × Faults × Option Error
restored tables (faults, ok changed) = (changed, faults, none)
restored tables (faults, err e) = (tables, faults, some e)

module _ (S : Type 0) (run_sql : String → S → Result S) where
  unfoldable pub run_statements : List String → S → Faults → Faults × Result S
  unfolding after commit
  run_statements [] tables faults = commit tables faults
  run_statements (stmt ∷ rest) tables faults = after "restore statement failed" faults (λ f.
      elim (run_sql stmt tables) [
        | err e ↦ (f, err (Error.wrap "restore statement failed" e))
        | ok changed ↦ run_statements rest changed f
      ])

  unfoldable pub restore_statements : List String → S → Faults → S × Faults × Option Error
  unfolding after run_statements restored
  restore_statements statements tables faults =
      restored tables (
        after "failed to begin restore transaction" faults
          (λ f. run_statements statements tables f))
