-- ===== src/Migrate/Atomic.antt =====
-- That a migration is applied and recorded, or neither, and what a run of Apply leaves.
use cargobay.Prelude.{
  append-nil, append_assoc, String, ◌≡◌, refl, sym, subst, ap, ◌∙◌, Bool, Option, none, some, List,
  [], ◌∷◌, ◌++◌, Error, Result, ok, err, contains, Bool-cases, Option-cases, Result-cases, inl, inr,
}
use cargobay.Migrate.{
  Faults, after, Store, committed, record_version, migration_transaction, apply_migration,
  apply_all,
}

-- where a call did not fail, what followed it was done
pub after-ok {ℓ} :
    {B : Type ℓ} (text : String) (faults : Faults) (continue : Faults → Faults × Result B)
    {rest : Faults} {b : B}
    → after text faults continue ≡ (rest, ok b)
    → (f : Faults) × (continue f ≡ (rest, ok b))
unfolding after
after-ok text [] continue h = ([], h)
after-ok text (none ∷ faults) continue h = (faults, h)
after-ok text (some e ∷ faults) continue h = cc

abbrev pub value_or {ℓ} : {B : Type ℓ} → B → Result B → B
value_or d (ok b) = b
value_or d (err e) = d

module _ (S : Type 0) (run_sql : String → S → Result S) (schema_sql : String)
    (entries : Result (List (String × Bool))) (read_file : String → Result String) where
  recorded :
      (name : String) (tables : S) (st : Store S) (faults : Faults) {rest : Faults} {t : S}
      {v : List String}
      → record_version S run_sql schema_sql entries read_file name tables st faults
        ≡ (rest, ok (t, v))
      → (t ≡ tables) × (v ≡ st.versions ++ name ∷ [])
  unfolding record_version
  recorded name tables st faults h = elim (Bool-cases (contains st.versions name)) [
    | inl e ↦ cc (rw (e, record_version) at h)
    | inr e ↦
        let (f, q) = after-ok "failed to commit migration" faults _ (rw (e, record_version) at h) in
        let d : S × List String = (tables, st.versions ++ name ∷ []) in
        (
          ap (λ (p : Faults × Result (S × List String)). (value_or d p.1).0) (sym q),
          ap (λ (p : Faults × Result (S × List String)). (value_or d p.1).1) (sym q),
        )
  ]

  transacted :
      (name sql : String) (st : Store S) {rest : Faults} {t : S} {v : List String}
      → migration_transaction S run_sql schema_sql entries read_file name sql st ≡ (rest, ok (t, v))
      → (run_sql sql st.tables ≡ ok t) × (v ≡ st.versions ++ name ∷ [])
  unfolding migration_transaction
  transacted name sql st h =
      let (f1, h1) = after-ok "failed to begin transaction for migration" st.faults _ h in
      let (f2, h2) = after-ok "failed to apply migration" f1 _ h1 in
      elim (Result-cases (run_sql sql st.tables)) [
        | inr (e, q) ↦ cc (rw q at h2)
        | inl (tables, q) ↦
            let (f3, h3) = after-ok "failed to record migration" f2 _ (rw q at h2) in
            let (same, v) = recorded name tables st f3 h3 in (q ∙ ap ok (sym same), v)
      ]

  -- What the transaction of a migration may leave: the migration applied and recorded, or an error
  -- with neither done.
  abbrev pub IsAtomic : String → String → Store S → Store S × Option Error → Type 0
  IsAtomic name sql st (st', none) =
      (run_sql sql st.tables ≡ ok st'.tables) × (st'.versions ≡ st.versions ++ name ∷ [])
  IsAtomic name sql st (st', some e) = (st'.tables ≡ st.tables) × (st'.versions ≡ st.versions)

  committed_lem :
      (name sql : String) (st : Store S) (ran : Faults × Result (S × List String))
      → ((rest : Faults) (t : S) (v : List String)
          → ran ≡ (rest, ok (t, v))
          → (run_sql sql st.tables ≡ ok t) × (v ≡ st.versions ++ name ∷ []))
      → IsAtomic name sql st (committed S st ran)
  unfolding committed
  committed_lem name sql st (faults, ok (t, v)) h = h faults t v refl
  committed_lem name sql st (faults, err e) h = (refl, refl)

  -- Whatever fails, a migration is applied and recorded, or it is neither: then an error tells so.
  pub apply_migration-IsAtomic :
      (name sql : String) (st : Store S)
      → IsAtomic name sql st (apply_migration S run_sql schema_sql entries read_file name sql st)
  unfolding apply_migration
  apply_migration-IsAtomic name sql st =
      committed_lem name sql st _ (λ rest t v h. transacted name sql st h)

  kept :
      (name sql : String) (st : Store S) (ran : Store S × Option Error) {e : Error}
      → ran.1 ≡ some e
      → IsAtomic name sql st ran
      → (ran.0.tables ≡ st.tables) × (ran.0.versions ≡ st.versions)
  kept name sql st (st', none) f atomic = cc
  kept name sql st (st', some x) f atomic = atomic

  done_one :
      (name sql : String) (st : Store S) (ran : Store S × Option Error)
      → ran.1 ≡ none
      → IsAtomic name sql st ran
      → (run_sql sql st.tables ≡ ok ran.0.tables) × (ran.0.versions ≡ st.versions ++ name ∷ [])
  done_one name sql st (st', none) f atomic = atomic
  done_one name sql st (st', some x) f atomic = cc

  -- the migrations that lead from one content to another
  pub data Ran : List String → S → S → Type 0 where
    nothing : {s : S} → Ran [] s s
    also :
        {s s1 s2 : S} {names : List String} (name content : String)
        → read_file name ≡ ok content
        → run_sql content s ≡ ok s1
        → Ran names s1 s2
        → Ran (name ∷ names) s s2

  -- An error leaves a migration undone, and no error leaves none.
  abbrev pub Stopped : Option Error → List String → Type 0
  Stopped none rest = rest ≡ []
  Stopped (some e) rest = (name : String) × (later : List String) × (rest ≡ name ∷ later)

  -- what is done of a list of names, and what is left
  abbrev pub IsDone :
      List String → List String → Store S → Store S × List String × Option Error → Type 0
  IsDone before names st (st', applied, error) =
      (done : List String) × (rest : List String) × (names ≡ done ++ rest)
      × (applied ≡ before ++ done)
      × (st'.versions ≡ st.versions ++ done)
      × Ran done st.tables st'.tables
      × Stopped error rest

  pub apply_all-IsDone :
      (before names : List String) (st : Store S)
      → IsDone before names st (apply_all S run_sql schema_sql entries read_file before names st)
  unfolding apply_all
  apply_all-IsDone before [] st =
      ([], [], refl, sym (append-nil before), sym (append-nil st.versions), nothing, refl)
  apply_all-IsDone before (name ∷ names) st = elim (Result-cases (read_file name)) [
    | inr (x, e) ↦
        rw (e, IsDone, apply_all)
          (
            [],
            name ∷ names,
            refl,
            sym (append-nil before),
            sym (append-nil st.versions),
            nothing,
            (name, names, refl),
          )
    | inl (content, e) ↦
        let ran = apply_migration S run_sql schema_sql entries read_file name content st in
        let atomic = apply_migration-IsAtomic name content st in
        elim (Option-cases ran.1) [
          | inr (x, f) ↦
              let (same, versions) = kept name content st ran f atomic in
              rw (e, f, IsDone, apply_all)
                (
                  [],
                  name ∷ names,
                  refl,
                  sym (append-nil before),
                  versions ∙ sym (append-nil st.versions),
                  subst (λ s. Ran [] st.tables s) (sym same) nothing,
                  (name, names, refl),
                )
          | inl f ↦
              let (moved, versions) = done_one name content st ran f atomic in
              let (done, rest, split, applied, more, all, stop) =
                apply_all-IsDone (before ++ name ∷ []) names ran.0 in
              rw (e, f, IsDone, apply_all)
                (
                  name ∷ done,
                  rest,
                  ap (λ xs. name ∷ xs) split,
                  applied ∙ append_assoc before (name ∷ []) done,
                  more ∙ ap (λ vs. vs ++ done) versions ∙ append_assoc st.versions (name ∷ []) done,
                  also name content e moved all,
                  stop,
                )
        ]
  ]
