-- ===== src/Database/Artifacts/Listing.antt =====
-- Which artifacts a list holds.
use cargobay.Prelude.{
  String, true, ◌≡◌, ◌⊎◌, subst, sym, arith, List, Memᴰ, ok, inl, inr, Bool-cases, Mem-keep,
  Mem-take, Mem-drop, ◌==◌, eq_iff,
}
use cargobay.Database.Models.{ArtifactMetadata}
use cargobay.Database.Tables.{Db}
use cargobay.Database.Registries.Default.{query_ok}
use cargobay.Database.Artifacts.{ListOptions, asked, listed, list_page, list_artifacts}

-- what is assumed of ORDER BY: it returns no other rows
abbrev pub Arranges : (String → String → List ArtifactMetadata → List ArtifactMetadata) → Type 0
Arranges arrange =
    (column direction : String) (xs : List ArtifactMetadata) (x : ArtifactMetadata)
    → Memᴰ x (arrange column direction xs)
    → Memᴰ x xs

asked_sound :
    (option column : String) → asked option column ≡ true → (option ≡ "") ⊎ (column ≡ option)
unfolding asked
asked_sound option column h = elim (Bool-cases (option == "")) [
  | inl e ↦ inl ((eq_iff option "").0 e)
  | inr e ↦ inr ((eq_iff column option).0 (rw (e, asked) at h))
]

listed_sound :
    (registry_id : String) (opts : ListOptions) (a : ArtifactMetadata)
    → listed (λ id. id == registry_id) opts a ≡ true
    → (a.registry_id ≡ registry_id) × ((opts.namespace ≡ "") ⊎ (a.namespace ≡ opts.namespace))
unfolding listed
listed_sound registry_id opts a h = (
  ground (arith, eq_iff a.registry_id registry_id),
  asked_sound opts.namespace a.namespace (ground arith),
)

-- a listed artifact is of the registry, and of the namespace if one was asked for
pub list_artifacts_sound :
    (arrange : String → String → List ArtifactMetadata → List ArtifactMetadata) (db : Db)
    (registry_id : String) (opts : ListOptions) (found : List ArtifactMetadata)
    (a : ArtifactMetadata)
    → Arranges arrange
    → list_artifacts arrange db registry_id opts ≡ ok found
    → Memᴰ a found
    → Memᴰ a db.artifacts
      × (a.registry_id ≡ registry_id)
      × ((opts.namespace ≡ "") ⊎ (a.namespace ≡ opts.namespace))
unfolding list_artifacts list_page
list_artifacts_sound arrange db registry_id opts found a arranges h m =
    let same = query_ok _ db _ h in
    let m' =
      arranges _ _ _ a
        (Mem-drop opts.offset _ (Mem-take _ _ (subst (λ x. Memᴰ a x) (sym same) m))) in
    let (n, t) = Mem-keep (listed (λ id. id == registry_id) opts) db.artifacts m' in
    let (r, ns) = listed_sound registry_id opts a t in (n, r, ns)
