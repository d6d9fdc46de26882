-- ===== src/Database/Tables/Runs.antt =====
-- What is true after a statement: of one that ran, and of any.
use cargobay.Prelude.{
  String, ap, ◌⊎◌, ◌≡◌, refl, sym, Option, none, some, List, [], ◌∷◌, arith, Error, Result, ok, err,
  Result-cases, inl, inr,
}
use cargobay.Database.Tables.{Db, exec, exec_at, finish, failing, steps_at, settle, transaction}

finish_ran :
    (db : Db) (answer : Result Db) (db' : Db) → finish db answer ≡ (db', none) → answer ≡ ok db'
unfolding finish
finish_ran db (ok d) db' h = ground arith
finish_ran db (err e) db' h = cc

ran_at :
    (os : List (Option Error)) (statement : Db → Result Db) (db db' : Db)
    → exec_at os statement db ≡ (db', none)
    → (rest : List (Option Error)) × (statement (record db { outcomes = rest }) ≡ ok db')
unfolding exec_at
ran_at [] statement db db' h = (db.outcomes, finish_ran db _ db' h)
ran_at (none ∷ rest) statement db db' h = (rest, finish_ran _ _ db' h)
ran_at (some x ∷ rest) statement db db' h = cc

-- a statement that ran without an error
pub exec_ran :
    (statement : Db → Result Db) (db db' : Db)
    → exec statement db ≡ (db', none)
    → (rest : List (Option Error)) × (statement (record db { outcomes = rest }) ≡ ok db')
unfolding exec
exec_ran statement db db' h = ran_at db.outcomes statement db db' h

-- a property of the tables that a statement keeps
pub exec_preserves :
    (P : Db → Type 0) (statement : Db → Result Db) (db : Db)
    → ((d : Db) (rest : List (Option Error)) → P d → P (record d { outcomes = rest }))
    → ((d d' : Db) → P d → statement d ≡ ok d' → P d')
    → P db
    → P (exec statement db).0
unfolding exec exec_at finish
exec_preserves P statement db blind keeps h = go db.outcomes
  where
    finished : (d : Db) → P d → P (finish d (statement d)).0
    finished d p = elim (Result-cases (statement d)) [
      | inl (d', e) ↦ rw (e, finish) (keeps d d' p e)
      | inr (x, e) ↦ rw (e, finish) p
    ]

    go : (os : List (Option Error)) → P (exec_at os statement db).0
    go [] = finished db h
    go (none ∷ rest) = finished _ (blind db rest h)
    go (some x ∷ rest) = blind db rest h

abbrev pub ok_of : Db → Result Db
ok_of d = ok d

db_of : Db → Result Db → Db
db_of d (ok d') = d'
db_of d (err e) = d

-- two databases that are the answers of one statement
pub ok_injective : {d d' : Db} → ok_of d ≡ ok d' → d ≡ d'
unfolding db_of
ok_injective {d} h = ap (db_of d) h

pub failing_state : (text : String) (ran : Db × Option Error) → (failing text ran).0 ≡ ran.0
unfolding failing
failing_state text (db, none) = refl
failing_state text (db, some e) = refl

pub failing-none :
    (text : String) (ran : Db × Option Error) (db' : Db)
    → failing text ran ≡ (db', none)
    → ran ≡ (db', none)
unfolding failing
failing-none text (db, none) db' h = h
failing-none text (db, some e) db' h = cc

cases_at :
    (os : List (Option Error)) (change : Db → Db) (db : Db)
    → (rest : List (Option Error)) × ((exec_at os (λ d. ok (change d)) db
          ≡ (change (record db { outcomes = rest }), none))
        ⊎ ((e : Error) × (exec_at os (λ d. ok (change d)) db
              ≡ (record db { outcomes = rest }, some e))))
unfolding exec_at finish
cases_at [] change db = (db.outcomes, inl refl)
cases_at (none ∷ rest) change db = (rest, inl refl)
cases_at (some x ∷ rest) change db = (rest, inr (x, refl))

-- a statement that violates nothing runs, or fails and leaves the tables
pub exec_cases :
    (change : Db → Db) (db : Db)
    → (rest : List (Option Error)) × ((exec (λ d. ok (change d)) db
          ≡ (change (record db { outcomes = rest }), none))
        ⊎ ((e : Error) × (exec (λ d. ok (change d)) db ≡ (record db { outcomes = rest }, some e))))
unfolding exec
exec_cases change db = cases_at db.outcomes change db

finish_failed :
    (db : Db) (answer : Result Db) (db' : Db) (e : Error)
    → finish db answer ≡ (db', some e)
    → db' ≡ db
unfolding finish
finish_failed db (ok d) db' e h = cc
finish_failed db (err x) db' e h = sym (ap (λ r. r.0) h)

failed_at :
    (os : List (Option Error)) (statement : Db → Result Db) (db db' : Db) (e : Error)
    → exec_at os statement db ≡ (db', some e)
    → (rest : List (Option Error)) × (db' ≡ record db { outcomes = rest })
unfolding exec_at
failed_at [] statement db db' e h = (db.outcomes, finish_failed db (statement db) db' e h)
failed_at (none ∷ rest) statement db db' e h = (
  rest,
  finish_failed (record db { outcomes = rest }) (statement (record db { outcomes = rest })) db' e h,
)
failed_at (some x ∷ rest) statement db db' e h = (rest, sym (ap (λ r. r.0) h))

-- a statement that failed leaves the tables
pub exec_failed :
    (statement : Db → Result Db) (db db' : Db) (e : Error)
    → exec statement db ≡ (db', some e)
    → (rest : List (Option Error)) × (db' ≡ record db { outcomes = rest })
unfolding exec
exec_failed statement db db' e h = failed_at db.outcomes statement db db' e h

-- the changes of a transaction, one after the other
unfoldable pub changes_of : List (String × (Db → Db)) → Db → Db
changes_of [] d = d
changes_of ((text, change) ∷ rest) d = changes_of rest (change d)

steps_cases :
    (os : List (Option Error)) (steps : List (String × (Db → Db))) (d : Db)
    → (rest : List (Option Error)) × ((steps_at os steps d ≡ (rest, ok (changes_of steps d)))
        ⊎ ((e : Error) × (steps_at os steps d ≡ (rest, err e))))
unfolding steps_at changes_of
steps_cases os [] d = (os, inl refl)
steps_cases [] ((text, change) ∷ steps) d = steps_cases [] steps (change d)
steps_cases (none ∷ os) ((text, change) ∷ steps) d = steps_cases os steps (change d)
steps_cases (some e ∷ os) ((text, change) ∷ steps) d = (os, inr (_, refl))

-- what a transaction leaves: all of its changes, or nothing but the outcomes that it used up
pub transaction_cases :
    (steps : List (String × (Db → Db))) (db : Db)
    → (rest : List (Option Error)) × ((transaction steps db
          ≡ (record (changes_of steps db) { outcomes = rest }, none))
        ⊎ ((e : Error) × (transaction steps db ≡ (record db { outcomes = rest }, some e))))
unfolding transaction settle
transaction_cases steps db =
    let (rest, cases) = steps_cases db.outcomes steps db in
    (rest, elim cases [ inl h ↦ inl (ap (settle db) h) | inr (e, h) ↦ inr (e, ap (settle db) h) ])
