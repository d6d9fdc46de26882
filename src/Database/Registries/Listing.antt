-- ===== src/Database/Registries/Listing.antt =====
-- What ListRegistries returns.
use cargobay.Prelude.{
  ◌≡◌, sym, subst, refl, true, List, [], ◌∷◌, Memᴰ, ok, Bool-cases, inl, inr, map, leb, Mem-keep,
}
use cargobay.Database.Models.{RegistryConfig}
use cargobay.Database.Tables.{Db}
use cargobay.Database.Registries.{
  scan_listed, list_registries, list_where, sort_by_priority, insert_by_priority,
}
use cargobay.Database.Registries.Default.{query_ok}

Mem-insert :
    (r : RegistryConfig) (xs : List RegistryConfig) {x : RegistryConfig}
    → Memᴰ x (insert_by_priority r xs)
    → Memᴰ x (r ∷ xs)
unfolding insert_by_priority
Mem-insert r [] m = m
Mem-insert r (y ∷ ys) {x} m = elim (Bool-cases (leb r.priority y.priority)) [
  | inl e ↦ rw (e, insert_by_priority) at m
  | inr e ↦
      let m' : Memᴰ x (y ∷ insert_by_priority r ys) = rw (e, insert_by_priority) at m in
      elim m' [
        | Memᴰ.head q ↦ Memᴰ.tail (Memᴰ.head q)
        | Memᴰ.tail n ↦ elim (Mem-insert r ys n) [
          | Memᴰ.head q ↦ Memᴰ.head q
          | Memᴰ.tail k ↦ Memᴰ.tail (Memᴰ.tail k)
        ]
      ]
]

Mem-sort :
    (xs : List RegistryConfig) {x : RegistryConfig} → Memᴰ x (sort_by_priority xs) → Memᴰ x xs
unfolding sort_by_priority
Mem-sort [] m = m
Mem-sort (r ∷ rs) m = elim (Mem-insert r (sort_by_priority rs) m) [
  | Memᴰ.head q ↦ Memᴰ.head q
  | Memᴰ.tail k ↦ Memᴰ.tail (Mem-sort rs k)
]

Mem-map {ℓ} :
    {A : Type ℓ} (f : A → A) (xs : List A) {y : A}
    → Memᴰ y (map f xs)
    → (x : A) × Memᴰ x xs × (y ≡ f x)
Mem-map f [] m = elim m [ ]
Mem-map f (x ∷ xs) (Memᴰ.head q) = (x, Memᴰ.head refl, q)
Mem-map f (x ∷ xs) (Memᴰ.tail m) = let (z, k, q) = Mem-map f xs m in (z, Memᴰ.tail k, q)

-- a listed registry is enabled, and its secret is not listed
pub list_registries_sound :
    (db : Db) (regs : List RegistryConfig) {reg : RegistryConfig}
    → list_registries db ≡ ok regs
    → Memᴰ reg regs
    → (reg.enabled ≡ true) × (reg.upstream_secret ≡ "")
unfolding list_registries list_where
list_registries_sound db regs {reg} h m =
    let same = query_ok _ db _ h in
    let (r, k, q) = Mem-map scan_listed _ (subst (λ x. Memᴰ reg x) (sym same) m) in
    let (n, enabled) = Mem-keep (λ (r : RegistryConfig). r.enabled) db.registries (Mem-sort _ k) in
    subst (λ (x : RegistryConfig). (x.enabled ≡ true) × (x.upstream_secret ≡ "")) (sym q)
      (unfold scan_listed in (enabled, refl))
