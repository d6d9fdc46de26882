-- ===== src/Database/Dump/Restored.antt =====
-- That a restore runs all its statements or none, and that it runs them where no call fails.
use cargobay.Prelude.{
  String, ◌≡◌, refl, ap, none, some, List, [], ◌∷◌, Error, Result, ok, err, ◌⊎◌, inl, inr,
  Result-cases, wrapping,
}
use cargobay.Migrate.{Faults, after}
use cargobay.Migrate.Atomic.{after-ok}
use cargobay.Database.Dump.{commit, restored, run_statements, restore_statements}

module _ (S : Type 0) (run_sql : String → S → Result S) where
  -- the statements one after the other, without a transaction
  unfoldable pub in_order : List String → S → Result S
  in_order [] tables = ok tables
  in_order (stmt ∷ rest) tables = elim (run_sql stmt tables) [
    | err e ↦ err e
    | ok changed ↦ in_order rest changed
  ]

  ran :
      (statements : List String) (tables : S) (faults : Faults) {rest : Faults} {changed : S}
      → run_statements S run_sql statements tables faults ≡ (rest, ok changed)
      → in_order statements tables ≡ ok changed
  unfolding run_statements in_order commit
  ran [] tables [] h = ap (λ (p : Faults × Result S). p.1) h
  ran [] tables (none ∷ faults) h = ap (λ (p : Faults × Result S). p.1) h
  ran [] tables (some e ∷ faults) h = cc
  ran (stmt ∷ rest) tables faults h =
      let (f, q) = after-ok "restore statement failed" faults _ h in
      elim (Result-cases (run_sql stmt tables)) [
        | inr (e, failed) ↦ cc (rw failed at q)
        | inl (next, done) ↦ rw (done, in_order) (ran rest next f (rw done at q))
      ]

  outcome :
      (statements : List String) (tables : S) (run : Faults × Result S)
      → ((rest : Faults) (changed : S)
          → run ≡ (rest, ok changed)
          → in_order statements tables ≡ ok changed)
      → (((restored tables run).2 ≡ none)
          × (in_order statements tables ≡ ok (restored tables run).0))
        ⊎ ((e : Error) × ((restored tables run).2 ≡ some e) × ((restored tables run).0 ≡ tables))
  unfolding restored
  outcome statements tables (rest, ok changed) h = inl (refl, h rest changed refl)
  outcome statements tables (rest, err e) h = inr (e, refl, refl)

  unhindered :
      (statements : List String) (tables : S)
      → run_statements S run_sql statements tables []
        ≡ ([], wrapping "restore statement failed" (in_order statements tables))
  unfolding in_order run_statements commit after
  unhindered [] tables = refl
  unhindered (stmt ∷ rest) tables = elim (Result-cases (run_sql stmt tables)) [
    | inr (e, failed) ↦ rw (failed, in_order) refl
    | inl (next, done) ↦ rw (done, in_order) (unhindered rest next)
  ]

  -- A restore that reports no error leaves what its statements make of the tables, one after the
  -- other; one that reports an error leaves the tables as they were. Where no call of the database
  -- fails by itself, it reports an error just where one of the statements does.
  pub restore_statements_lem :
      (statements : List String) (tables : S) (faults : Faults)
      → ((((restore_statements S run_sql statements tables faults).2 ≡ none)
            × (in_order statements tables
                ≡ ok (restore_statements S run_sql statements tables faults).0))
          ⊎ ((e : Error) × ((restore_statements S run_sql statements tables faults).2 ≡ some e)
              × ((restore_statements S run_sql statements tables faults).0 ≡ tables)))
        × (restore_statements S run_sql statements tables []
            ≡ restored tables
                ([], wrapping "restore statement failed" (in_order statements tables)))
  unfolding restore_statements after
  restore_statements_lem statements tables faults = (
    outcome statements tables _ (λ rest changed h.
        let (f, q) = after-ok "failed to begin restore transaction" faults _ h in
        ran statements tables f q),
    ap (restored tables) (unhindered statements tables),
  )
