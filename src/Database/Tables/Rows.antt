-- ===== src/Database/Tables/Rows.antt =====
-- What a row looked up by a key is after rows were added, changed or deleted.
use mathlib.Core.Option
use cargobay.Prelude.{
  String, Bool, true, false, ◌≡◌, refl, Option, none, some, List, [], ◌∷◌, ◌++◌, arith, inl, inr,
  Bool-cases, any, if◌then◌else◌,
}
use cargobay.Database.Tables.{Db, query, find_where, update_where, delete_where}

-- the first of two
abbrev pub or_else {ℓ} : {A : Type ℓ} → Option A → Option A → Option A
or_else none y = y
or_else (some x) y = some x

module _ {A : Type 0} where
  -- a row that the deletion spares is found as before, and one that it takes is not found
  pub find_where-delete_where :
      (p q : A → Bool) (b : Bool) (xs : List A)
      → ((x : A) → p x ≡ true → q x ≡ b)
      → find_where p (delete_where q xs) ≡ (if b then none else find_where p xs)
  unfolding find_where
  find_where-delete_where p q b [] h = ground arith
  find_where-delete_where p q b (x ∷ xs) h =
      let ih = find_where-delete_where p q b xs h in
      elim (Bool-cases (p x)) [ inl e ↦ ground (arith, h x e) | inr e ↦ ground arith ]

  -- an update that leaves the key changes the row that is found
  pub find_where-update_where :
      (p q : A → Bool) (f : A → A) (b : Bool) (xs : List A)
      → ((x : A) → p x ≡ true → q x ≡ b)
      → ((x : A) → p (f x) ≡ p x)
      → find_where p (update_where q f xs)
        ≡ (if b then Option.map f (find_where p xs) else find_where p xs)
  unfolding find_where update_where
  find_where-update_where p q f b [] h k = ground arith
  find_where-update_where p q f b (x ∷ xs) h k =
      let ih = find_where-update_where p q f b xs h k in
      elim (Bool-cases (p x)) [ inl e ↦ ground (arith, h x e, k x) | inr e ↦ ground (arith, k x) ]

  pub find_where-append :
      (p : A → Bool) (xs ys : List A)
      → find_where p (xs ++ ys) ≡ or_else (find_where p xs) (find_where p ys)
  unfolding find_where
  find_where-append p [] ys = refl
  find_where-append p (x ∷ xs) ys = ground (arith, find_where-append p xs ys)

  -- no row is found where none passes
  pub find_where-any : (p : A → Bool) (xs : List A) → any p xs ≡ false → find_where p xs ≡ none
  unfolding find_where
  find_where-any p [] h = refl
  find_where-any p (x ∷ xs) h = ground (arith, find_where-any p xs)

  -- a row that passes is found
  pub any-find_where :
      (p : A → Bool) (xs : List A) → any p xs ≡ true → (x : A) × (find_where p xs ≡ some x)
  unfolding find_where
  any-find_where p [] h = cc
  any-find_where p (x ∷ xs) h = elim (Bool-cases (p x)) [
    | inl e ↦ (x, rw (e, find_where) refl)
    | inr e ↦ rw (e, find_where) (any-find_where p xs (rw e at h))
  ]

-- a query for one of two answers
pub query-if :
    {A : Type 0} (text : String) (db : Db) (b : Bool) (x y : A)
    → query text db (if b then x else y) ≡ (if b then query text db x else query text db y)
query-if text db true x y = refl
query-if text db false x y = refl
