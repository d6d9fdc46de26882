-- ===== src/Tests/Migrations.antt =====
-- Migrations on a database that is a list of the texts that it ran.
use cargobay.Prelude.{String, ◌≡◌, refl, Bool, false, none, List, [], ◌∷◌, ◌++◌, Result, ok}
use cargobay.Prelude.Text.{cut_suffix}
use cargobay.Migrate.{
  after, insert_name, sort_names, sql_files, not_in, Store, committed, migration_files,
  applied_versions, pending, schema_transaction, apply_statements, record_version,
  migration_transaction, apply_migration, apply_all, apply,
}
use cargobay.Migrate.Atomic.{IsAtomic, apply_migration-IsAtomic, Ran}
use cargobay.Migrate.Complete.{apply_complete}

abbrev Tables : Type 0
Tables = List String

abbrev execute : String → Tables → Result Tables
execute sql tables = ok (tables ++ sql ∷ [])

abbrev directory : Result (List (String × Bool))
directory = ok (("002_b.sql", false) ∷ ("001_a.sql", false) ∷ ("notes.txt", false) ∷ [])

abbrev content : String → Result String
content name = ok name

abbrev before : Store Tables
before = record { tables = "old" ∷ []; versions = "001_a.sql" ∷ []; faults = [] }

abbrev upgraded : Store Tables
upgraded = record {
  tables = "old" ∷ "schema" ∷ "002_b.sql" ∷ [];
  versions = "001_a.sql" ∷ "002_b.sql" ∷ [];
  faults = [];
}

before-upgraded :
    apply Tables execute "schema" directory content before ≡ (upgraded, "002_b.sql" ∷ [], none)
unfolding apply apply_statements schema_transaction committed after pending applied_versions
    migration_files sql_files sort_names insert_name cut_suffix apply_all apply_migration
    migration_transaction record_version
before-upgraded = refl

apply_complete_example :
    (s1 : Tables) × (files : List String) × (execute "schema" before.tables ≡ ok s1)
    × (migration_files Tables execute "schema" directory content ≡ ok files)
    × (("002_b.sql" ∷ []) ≡ not_in before.versions files)
    × Ran Tables execute "schema" directory content ("002_b.sql" ∷ []) s1 upgraded.tables
    × (upgraded.versions ≡ before.versions ++ "002_b.sql" ∷ [])
    × (not_in upgraded.versions files ≡ [])
apply_complete_example =
    apply_complete Tables execute "schema" directory content before upgraded ("002_b.sql" ∷ [])
      before-upgraded

apply_migration-IsAtomic_example :
    IsAtomic Tables execute "schema" directory content "002_b.sql" "002_b.sql" before
      (apply_migration Tables execute "schema" directory content "002_b.sql" "002_b.sql" before)
apply_migration-IsAtomic_example =
    apply_migration-IsAtomic Tables execute "schema" directory content "002_b.sql" "002_b.sql"
      before
