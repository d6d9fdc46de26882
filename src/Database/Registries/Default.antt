-- ===== src/Database/Registries/Default.antt =====
-- What GetDefaultRegistry and the queries for one row find.
use cargobay.Prelude.{
  String, ◌≡◌, refl, sym, subst, ◌≤◌, leb, leb→le, Bool, true, false, Option, none, some, List, [],
  ◌∷◌, Memᴰ, arith, ok, Bool-cases, Option-cases, inl, inr,
}
use mathlib.Core.Option
use cargobay.Database.Models.{RegistryConfig}
use cargobay.Database.Tables.{Db, query, find_where}
use cargobay.Database.Registries.{
  scan_registry, sooner, is_default, first_by_priority, get_default_registry,
}

-- a row that a query for one row finds is in the table and matches
pub find_where_sound {ℓ} :
    {A : Type ℓ} (same : A → Bool) (xs : List A) {x : A}
    → find_where same xs ≡ some x
    → Memᴰ x xs × (same x ≡ true)
unfolding find_where
find_where_sound same [] h = cc
find_where_sound same (y ∷ ys) {x} h = elim (Bool-cases (same y)) [
  | inl e ↦ let p : y ≡ x = Option.some-injective _ _ (rw e at h) in (Memᴰ.head (sym p), rw (← p) e)
  | inr e ↦ let (m, t) = find_where_sound same ys (rw e at h) in (Memᴰ.tail m, t)
]

-- what a query that does not fail answers
pub query_ok {ℓ} :
    {A : Type ℓ} (failed : String) (db : Db) (answer : A) {x : A}
    → query failed db answer ≡ ok x
    → answer ≡ x
unfolding query
query_ok failed db answer h = elim (Option-cases (db.read_fault failed)) [
  | inl e ↦ cc (rw (e, query) at h)
  | inr (y, e) ↦ cc (rw (e, query) at h)
]

pub scanned :
    (row : Option RegistryConfig) {reg : RegistryConfig}
    → Option.map scan_registry row ≡ some reg
    → (r : RegistryConfig) × (row ≡ some r) × (scan_registry r ≡ reg)
scanned none h = cc
scanned (some r) h = (r, refl, Option.some-injective _ _ h)

-- every row that matches has a number at least as large
abbrev pub NoneBefore : (RegistryConfig → Bool) → RegistryConfig → List RegistryConfig → Type 0
NoneBefore test r [] = Unit
NoneBefore test r (x ∷ xs) = (test x ≡ true → r.priority ≤ x.priority) × NoneBefore test r xs

abbrev pub NoneMatches : (RegistryConfig → Bool) → List RegistryConfig → Type 0
NoneMatches test [] = Unit
NoneMatches test (x ∷ xs) = (test x ≡ false) × NoneMatches test xs

-- what the answer of a query for the first row says of the table
abbrev pub IsFirst : (RegistryConfig → Bool) → List RegistryConfig → Option RegistryConfig → Type 0
IsFirst test rs none = NoneMatches test rs
IsFirst test rs (some r) = Memᴰ r rs × (test r ≡ true) × NoneBefore test r rs

vacuous :
    (test : RegistryConfig → Bool) (r : RegistryConfig) (xs : List RegistryConfig)
    → NoneMatches test xs
    → NoneBefore test r xs
vacuous test r [] h = tt
vacuous test r (x ∷ xs) h = (λ e. ground arith, vacuous test r xs h.1)

weaker :
    (test : RegistryConfig → Bool) (r s : RegistryConfig) (xs : List RegistryConfig)
    → r.priority ≤ s.priority
    → NoneBefore test s xs
    → NoneBefore test r xs
weaker test r s [] le h = tt
weaker test r s (x ∷ xs) le h = (λ e. omega (arith, h.0 e), weaker test r s xs le h.1)

matching :
    (test : RegistryConfig → Bool) (r : RegistryConfig) (rs : List RegistryConfig)
    (best : Option RegistryConfig)
    → test r ≡ true
    → IsFirst test rs best
    → IsFirst test (r ∷ rs) (some (sooner r best))
unfolding sooner
matching test r rs none e h = (Memᴰ.head refl, e, (λ _. omega arith, vacuous test r rs h))
matching test r rs (some b) e (m, t, before) = elim (Bool-cases (leb r.priority b.priority)) [
  | inl le ↦
      let first : r ≡ sooner r (some b) = ground arith in
      subst (λ x. IsFirst test (r ∷ rs) (some x)) first
        (
          Memᴰ.head refl,
          e,
          (λ _. omega arith, weaker test r b rs (leb→le r.priority b.priority le) before),
        )
  | inr gt ↦
      let first : b ≡ sooner r (some b) = ground arith in
      subst (λ x. IsFirst test (r ∷ rs) (some x)) first
        (Memᴰ.tail m, t, (λ _. ground arith, before))
]

skipping :
    (test : RegistryConfig → Bool) (r : RegistryConfig) (rs : List RegistryConfig)
    (best : Option RegistryConfig)
    → test r ≡ false
    → IsFirst test rs best
    → IsFirst test (r ∷ rs) best
skipping test r rs none e h = (e, h)
skipping test r rs (some b) e (m, t, before) = (Memᴰ.tail m, t, (λ p. ground arith, before))

pub first_by_priority-IsFirst :
    (test : RegistryConfig → Bool) (rs : List RegistryConfig)
    → IsFirst test rs (first_by_priority test rs)
unfolding first_by_priority
first_by_priority-IsFirst test [] = tt
first_by_priority-IsFirst test (r ∷ rs) =
    let best = first_by_priority test rs in
    let found = first_by_priority-IsFirst test rs in
    elim (Bool-cases (test r)) [
      | inl e ↦ rw e (matching test r rs best e found)
      | inr e ↦ rw e (skipping test r rs best e found)
    ]

-- The query for the default registry of a type, where it does not fail, finds a row that the
-- table holds, that is enabled, public, of the type and proxying, or of its virtual type, and that
-- no other such row precedes; and it finds none only if the table holds none.
pub get_default_registry-IsFirst :
    (db : Db) (artifact_type : String) (found : Option RegistryConfig)
    → get_default_registry db artifact_type ≡ ok found
    → (row : Option RegistryConfig) × (found ≡ Option.map scan_registry row)
      × IsFirst (is_default artifact_type) db.registries row
unfolding get_default_registry query
get_default_registry-IsFirst db artifact_type found h = (
  first_by_priority (is_default artifact_type) db.registries,
  ground arith,
  first_by_priority-IsFirst (is_default artifact_type) db.registries,
)
