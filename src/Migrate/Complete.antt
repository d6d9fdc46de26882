-- ===== src/Migrate/Complete.antt =====
-- What a whole run of Apply leaves, and that a run without an error leaves nothing pending.
use cargobay.Prelude.{
  append-nil, any-append, eq_iff, String, ◌≡◌, refl, sym, subst, ap, ◌∙◌, Bool, true, false, ◌||◌,
  Option, none, some, List, [], ◌∷◌, ◌++◌, Memᴰ, arith, Error, Result, ok, err, keep, contains,
  ◌==◌, Bool-cases, Option-cases, Result-cases, inl, inr,
}
use cargobay.Migrate.{
  Faults, not_in, Store, committed, migration_files, applied_versions, pending, schema_transaction,
  apply_statements, apply_all, apply,
}
use cargobay.Migrate.Atomic.{after-ok, value_or, Ran, IsDone, apply_all-IsDone}

abbrev ok_names : List String → Result (List String)
ok_names names = ok names

-- of files that are recorded, or among others that are recorded after them, none is left
none_of :
    (vs ws fs : List String)
    → ((f : String) → Memᴰ f fs → (contains vs f || contains ws f) ≡ true)
    → not_in (vs ++ ws) fs ≡ []
none_of vs ws [] h = refl
none_of vs ws (f ∷ fs) h =
    let here : contains (vs ++ ws) f ≡ true =
      any-append (λ x. x == f) vs ws ∙ h f (Memᴰ.head refl) in
    rw (here, keep) (none_of vs ws fs (λ g m. h g (Memᴰ.tail m)))

kept_if :
    (vs fs : List String) {f : String}
    → Memᴰ f fs
    → contains vs f ≡ false
    → contains (not_in vs fs) f ≡ true
kept_if vs [] m h = elim m [ ]
kept_if vs (x ∷ fs) {f} (Memᴰ.head e) h =
    let new : contains vs x ≡ false = ap (contains vs) (sym e) ∙ h in
    rw (new, keep) (rw ((eq_iff x f).1 (sym e)) refl)
kept_if vs (x ∷ fs) {f} (Memᴰ.tail m) h =
    let later = kept_if vs fs m h in
    elim (Bool-cases (contains vs x)) [
      | inl t ↦ rw (t, keep) later
      | inr t ↦ rw (t, keep) (ground (arith, later))
    ]

none_left : (vs fs : List String) → not_in (vs ++ not_in vs fs) fs ≡ []
none_left vs fs = none_of vs (not_in vs fs) fs (λ f m. elim (Bool-cases (contains vs f)) [
  | inl e ↦ rw e refl
  | inr e ↦ ground (arith, kept_if vs fs m e)
])

module _ (S : Type 0) (run_sql : String → S → Result S) (schema_sql : String)
    (entries : Result (List (String × Bool))) (read_file : String → Result String) where
  -- what the transaction of the schema leaves
  abbrev pub IsSchema : Store S → Store S × Option Error → Type 0
  IsSchema st (st', none) =
      (run_sql schema_sql st.tables ≡ ok st'.tables) × (st'.versions ≡ st.versions)
  IsSchema st (st', some e) = (st'.tables ≡ st.tables) × (st'.versions ≡ st.versions)

  schema_done :
      (st : Store S) {rest : Faults} {t : S} {v : List String}
      → schema_transaction S run_sql schema_sql entries read_file st ≡ (rest, ok (t, v))
      → (run_sql schema_sql st.tables ≡ ok t) × (v ≡ st.versions)
  unfolding schema_transaction
  schema_done st h =
      let (f1, h1) = after-ok "failed to begin transaction" st.faults _ h in
      let (f2, h2) = after-ok "failed to apply" f1 _ h1 in
      elim (Result-cases (run_sql schema_sql st.tables)) [
        | inr (e, q) ↦ cc (rw q at h2)
        | inl (tables, q) ↦
            let (f3, h3) = after-ok "failed to commit" f2 _ (rw q at h2) in
            let d : S × List String = (tables, st.versions) in
            (
              q ∙ ap (λ (p : Faults × Result (S × List String)). ok ((value_or d p.1).0)) h3,
              ap (λ (p : Faults × Result (S × List String)). (value_or d p.1).1) (sym h3),
            )
      ]

  committed-IsSchema :
      (st : Store S) (ran : Faults × Result (S × List String))
      → ((rest : Faults) (t : S) (v : List String)
          → ran ≡ (rest, ok (t, v))
          → (run_sql schema_sql st.tables ≡ ok t) × (v ≡ st.versions))
      → IsSchema st (committed S st ran)
  unfolding committed
  committed-IsSchema st (faults, ok (t, v)) h = h faults t v refl
  committed-IsSchema st (faults, err e) h = (refl, refl)

  apply_statements-IsSchema :
      (st : Store S) → IsSchema st (apply_statements S run_sql schema_sql entries read_file st)
  unfolding apply_statements
  apply_statements-IsSchema st = committed-IsSchema st _ (λ rest t v h. schema_done st h)

  schema_ran :
      (st : Store S) (ran : Store S × Option Error)
      → ran.1 ≡ none
      → IsSchema st ran
      → (run_sql schema_sql st.tables ≡ ok ran.0.tables) × (ran.0.versions ≡ st.versions)
  schema_ran st (st', none) f h = h
  schema_ran st (st', some e) f h = cc

  -- the migrations that are pending are the files that are not recorded, in the order of the files
  pending_sound :
      (st : Store S) {names : List String}
      → (pending S run_sql schema_sql entries read_file st).1 ≡ ok names
      → (files : List String) × (migration_files S run_sql schema_sql entries read_file ≡ ok files)
        × (names ≡ not_in st.versions files)
  unfolding pending applied_versions
  pending_sound st {names} h =
      let found = applied_versions S run_sql schema_sql entries read_file st in
      elim (Result-cases found.1) [
        | inr (x, e) ↦ cc (rw (e, pending) at h)
        | inl (applied, e) ↦
            let (f1, h1) =
              after-ok "failed to create schema_migrations table" st.faults _
                (ap (λ r. (found.0, r)) e) in
            let (f2, h2) = after-ok "failed to read schema_migrations" f1 _ h1 in
            let same : st.versions ≡ applied =
              ap (λ (p : Faults × Result (List String)). value_or [] p.1) h2 in
            elim (Result-cases (migration_files S run_sql schema_sql entries read_file)) [
              | inr (x, f) ↦ cc (rw (e, f, pending) at h)
              | inl (files, f) ↦
                  let q : ok_names (not_in applied files) ≡ ok names = rw (e, f, pending) at h in
                  (files, f, sym (ap (value_or []) q) ∙ ap (λ vs. not_in vs files) (sym same))
            ]
      ]

  left_of :
      (before names : List String) (st : Store S) (run : Store S × List String × Option Error)
      → run.2 ≡ none
      → IsDone S run_sql schema_sql entries read_file before names st run
      → (run.1 ≡ before ++ names)
        × (run.0.versions ≡ st.versions ++ names)
        × Ran S run_sql schema_sql entries read_file names st.tables run.0.tables
  left_of before names st (st', applied, some e) f done = cc
  left_of before names st (st', applied, none) f (done, rest, split, more, versions, ran, stop) =
      let whole : done ≡ names =
        sym (append-nil done) ∙ ap (λ r. done ++ r) (sym stop) ∙ sym split in
      (
        more ∙ ap (λ ns. before ++ ns) whole,
        versions ∙ ap (λ ns. st.versions ++ ns) whole,
        subst (λ ns. Ran S run_sql schema_sql entries read_file ns st.tables st'.tables) whole ran,
      )

  -- A run of Apply without an error has run the schema, and then, in the order of the files, just
  -- those migrations that were not recorded before. They are recorded now, so that no file is left
  -- pending, and it returns their names.
  pub apply_complete :
      (st st' : Store S) (applied : List String)
      → apply S run_sql schema_sql entries read_file st ≡ (st', applied, none)
      → (s1 : S) × (files : List String) × (run_sql schema_sql st.tables ≡ ok s1)
        × (migration_files S run_sql schema_sql entries read_file ≡ ok files)
        × (applied ≡ not_in st.versions files)
        × Ran S run_sql schema_sql entries read_file applied s1 st'.tables
        × (st'.versions ≡ st.versions ++ applied)
        × (not_in st'.versions files ≡ [])
  unfolding apply
  apply_complete st st' applied h =
      let schema = apply_statements S run_sql schema_sql entries read_file st in
      elim (Option-cases schema.1) [
        | inr (x, e) ↦ cc (rw (e, apply) at h)
        | inl e ↦
            let (moved, same) = schema_ran st schema e (apply_statements-IsSchema st) in
            let found = pending S run_sql schema_sql entries read_file schema.0 in
            elim (Result-cases found.1) [
              | inr (x, f) ↦ cc (rw (e, f, apply) at h)
              | inl (names, f) ↦
                  let st2 : Store S = record schema.0 { faults = found.0 } in
                  let run : apply_all S run_sql schema_sql entries read_file [] names st2
                      ≡ (st', applied, none) =
                    rw (e, f, apply) at h in
                  let (files, g, these) = pending_sound schema.0 f in
                  let done =
                    subst (IsDone S run_sql schema_sql entries read_file [] names st2) run
                      (apply_all-IsDone S run_sql schema_sql entries read_file [] names st2) in
                  let (all, versions, ran) = left_of [] names st2 (st', applied, none) refl done in
                  let exact : applied ≡ not_in st.versions files =
                    all ∙ these ∙ ap (λ vs. not_in vs files) same in
                  let recorded : st'.versions ≡ st.versions ++ applied =
                    versions
                    ∙ ap (λ vs. vs ++ names) same
                    ∙ ap (λ ns. st.versions ++ ns) (sym all) in
                  (
                    schema.0.tables,
                    files,
                    moved,
                    g,
                    exact,
                    subst
                        (λ ns.
                          Ran S run_sql schema_sql entries read_file ns schema.0.tables st'.tables)
                        (sym all) ran,
                    recorded,
                    ap (λ vs. not_in vs files) (recorded ∙ ap (λ ns. st.versions ++ ns) exact)
                        ∙ none_left st.versions files,
                  )
            ]
      ]
