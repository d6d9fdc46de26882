-- ===== src/Migrate.antt =====
-- backend/pkg/migrate/migrate.go: the baseline schema and the migration files. `S` stands for what
-- the database holds besides the table of applied migrations, and `run_sql` for the execution of a
-- text of SQL in a transaction; no file names that table. `entries` and `read_file` are the embedded
-- directory: a name, and whether it is a directory. A statement of a transaction that does not
-- commit leaves nothing.
pub mod Atomic
pub mod Complete
use Prim.Native.Nat
use Prim.Native.String.{compare}
use cargobay.Prelude.{
  String, Bool, true, false, not, ◌||◌, Option, none, some, List, [], ◌∷◌, ◌++◌, Error, message,
  Result, ok, err, keep, contains, wrapping, if◌then◌else◌,
}
use cargobay.Prelude.Text.{cut_suffix}

-- how the statements ahead fail
abbrev pub Faults : Type 0
Faults = List (Option Error)

-- A call of the database, and what follows it where it does not fail.
unfoldable pub after {ℓ} :
    {B : Type ℓ} → String → Faults → (Faults → Faults × Result B) → Faults × Result B
after text [] continue = continue []
after text (none ∷ faults) continue = continue faults
after text (some e ∷ faults) continue = (faults, err (Error.wrap text e))

-- sort.Strings
unfoldable pub insert_name : String → List String → List String
insert_name name [] = name ∷ []
insert_name name (x ∷ xs) =
    let later = x ∷ insert_name name xs in
    elim (compare name x) [ Nat.Ordering.gt ↦ later | _ ↦ name ∷ x ∷ xs ]

unfoldable pub sort_names : List String → List String
unfolding insert_name
sort_names [] = []
sort_names (x ∷ xs) = insert_name x (sort_names xs)

-- `strings.HasSuffix(name, ".sql")`
abbrev pub is_sql : String → Bool
is_sql name = elim (cut_suffix ".sql" name) [ none ↦ false | some stem ↦ true ]

-- the loop of migrationFiles
unfoldable pub sql_files : List (String × Bool) → List String
sql_files [] = []
sql_files ((name, is_dir) ∷ rest) =
    let others = sql_files rest in if is_dir || not (is_sql name) then others else name ∷ others

-- the loop of Pending
abbrev pub not_in : List String → List String → List String
not_in applied files = keep (λ f. not (contains applied f)) files

module _ (S : Type 0) where
  pub record Store : Type 0 where
    pub tables : S
    -- schema_migrations
    pub versions : List String
    pub faults : Faults

  -- what a transaction leaves
  unfoldable pub committed : Store → Faults × Result (S × List String) → Store × Option Error
  committed st (faults, ok (tables, versions)) =
      (record { tables = tables; versions = versions; faults = faults }, none)
  committed st (faults, err e) = (record st { faults = faults }, some e)

  module _ (run_sql : String → S → Result S) (schema_sql : String)
      (entries : Result (List (String × Bool))) (read_file : String → Result String) where
    unfoldable pub migration_files : Result (List String)
    unfolding sql_files sort_names
    migration_files = elim entries [
      | err e ↦ err (Error.wrap "failed to read embedded migrations" e)
      | ok found ↦ ok (sort_names (sql_files found))
    ]

    unfoldable pub applied_versions : Store → Faults × Result (List String)
    unfolding after
    applied_versions st =
        after "failed to create schema_migrations table" st.faults (λ faults.
          after "failed to read schema_migrations" faults (λ rest. (rest, ok st.versions)))

    unfoldable pub pending : Store → Faults × Result (List String)
    unfolding applied_versions migration_files
    pending st =
        let (faults, found) = applied_versions st in
        elim found [
          | err e ↦ (faults, err e)
          | ok applied ↦ elim migration_files [
            | err e ↦ (faults, err e)
            | ok files ↦ (faults, ok (not_in applied files))
          ]
        ]

    unfoldable pub schema_transaction : Store → Faults × Result (S × List String)
    unfolding after
    schema_transaction st = after "failed to begin transaction" st.faults (λ f1.
        after "failed to apply" f1 (λ f2. elim (run_sql schema_sql st.tables) [
          | err e ↦ (f2, err (Error.wrap "failed to apply" e))
          | ok tables ↦ after "failed to commit" f2 (λ f3. (f3, ok (tables, st.versions)))
        ]))

    unfoldable pub apply_statements : Store → Store × Option Error
    unfolding schema_transaction committed
    apply_statements st = committed st (schema_transaction st)

    -- the insertion into schema_migrations, and the end of the transaction
    unfoldable pub record_version : String → S → Store → Faults → Faults × Result (S × List String)
    unfolding after
    record_version name tables st faults =
        if contains st.versions name
        then (
          faults,
          err (
              Error.wrap "failed to record migration"
                (message "duplicate key value violates unique constraint")),
        )
        else after "failed to commit migration" faults
            (λ rest. (rest, ok (tables, st.versions ++ name ∷ [])))

    unfoldable pub migration_transaction :
        String → String → Store → Faults × Result (S × List String)
    unfolding after record_version
    migration_transaction name sql st =
        after "failed to begin transaction for migration" st.faults (λ f1.
          after "failed to apply migration" f1 (λ f2. elim (run_sql sql st.tables) [
            | err e ↦ (f2, err (Error.wrap "failed to apply migration" e))
            | ok tables ↦ after "failed to record migration" f2 (record_version name tables st)
          ]))

    unfoldable pub apply_migration : String → String → Store → Store × Option Error
    unfolding migration_transaction committed
    apply_migration name sql st = committed st (migration_transaction name sql st)

    -- the loop of Apply
    unfoldable pub apply_all :
        List String → List String → Store → Store × List String × Option Error
    unfolding apply_migration
    apply_all applied [] st = (st, applied, none)
    apply_all applied (name ∷ rest) st = elim (read_file name) [
      | err e ↦ (st, applied, some (Error.wrap "failed to read migration" e))
      | ok content ↦
          let (st', error) = apply_migration name content st in
          elim error [
            | some e ↦ (st', applied, some e)
            | none ↦ apply_all (applied ++ name ∷ []) rest st'
          ]
    ]

    -- Apply: the names that it applied, and an error if it stopped
    unfoldable pub apply : Store → Store × List String × Option Error
    unfolding apply_statements pending apply_all
    apply st =
        let (st1, error) = apply_statements st in
        elim error [
          | some e ↦ (st1, [], some e)
          | none ↦
              let (faults, found) = pending st1 in
              let st2 = record st1 { faults = faults } in
              elim found [ err e ↦ (st2, [], some e) | ok names ↦ apply_all [] names st2 ]
        ]
