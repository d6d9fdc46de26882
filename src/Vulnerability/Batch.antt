-- ===== src/Vulnerability/Batch.antt =====
-- What a scheduled batch scans.
use cargobay.Prelude.{
  ℕ, ◌≡◌, ◌≤◌, ap, subst, sym, true, false, zero, suc, List, [], ◌∷◌, length, take, Memᴰ,
  Bool-cases, inl, inr, ◌⊎◌, arith, length-take, Mem-take,
}
use cargobay.Prelude.GoMap
use cargobay.Prelude.GoMap.{GoMap}
use cargobay.Database.Models.{ArtifactMetadata}
use cargobay.Vulnerability.Rescanner.{DueArtifact, artifact_due, due_of, batch, overdue}

-- nothing is more overdue than what stands before it
abbrev pub IsSorted : List DueArtifact → Type 0
IsSorted [] = Unit
IsSorted (d ∷ ds) = ((x : DueArtifact) → Memᴰ x ds → overdue x d ≡ false) × IsSorted ds

-- an artifact with its latest scan
abbrev pub due_artifact : GoMap ℕ → ArtifactMetadata → DueArtifact
due_artifact latest a = record { artifact = a; last_scan = GoMap.get a.id latest }

due_of_sound :
    (latest : GoMap ℕ) (hours now : ℕ) (artifacts : List ArtifactMetadata) {d : DueArtifact}
    → Memᴰ d (due_of latest hours now artifacts)
    → Memᴰ d.artifact artifacts × (artifact_due d.last_scan hours now ≡ true)
unfolding due_of
due_of_sound latest hours now [] m = elim m [ ]
due_of_sound latest hours now (a ∷ rest) {d} m =
    elim (Bool-cases (artifact_due (GoMap.get a.id latest) hours now)) [
      | inr e ↦
          let (k, t) = due_of_sound latest hours now rest (rw (e, due_of) at m) in (Memᴰ.tail k, t)
      | inl e ↦
          let m' : Memᴰ d (due_artifact latest a ∷ due_of latest hours now rest) =
            rw (e, due_of) at m in
          elim m' [
            | Memᴰ.head q ↦ (
              Memᴰ.head (ap (λ (x : DueArtifact). x.artifact) q),
              subst (λ (x : DueArtifact). artifact_due x.last_scan hours now ≡ true) (sym q) e,
            )
            | Memᴰ.tail n ↦ let (k, t) = due_of_sound latest hours now rest n in (Memᴰ.tail k, t)
          ]
    ]

due_of_complete :
    (latest : GoMap ℕ) (hours now : ℕ) (artifacts : List ArtifactMetadata) {a : ArtifactMetadata}
    → Memᴰ a artifacts
    → artifact_due (GoMap.get a.id latest) hours now ≡ true
    → Memᴰ (due_artifact latest a) (due_of latest hours now artifacts)
unfolding due_of
due_of_complete latest hours now [] m due = elim m [ ]
due_of_complete latest hours now (x ∷ rest) {a} (Memᴰ.head q) due =
    let e : artifact_due (GoMap.get x.id latest) hours now ≡ true =
      subst (λ (y : ArtifactMetadata). artifact_due (GoMap.get y.id latest) hours now ≡ true) q
        due in
    rw (e, due_of) (Memᴰ.head (ap (due_artifact latest) q))
due_of_complete latest hours now (x ∷ rest) (Memᴰ.tail m) due =
    let ih = due_of_complete latest hours now rest m due in
    elim (Bool-cases (artifact_due (GoMap.get x.id latest) hours now)) [
      | inl e ↦ rw (e, due_of) (Memᴰ.tail ih)
      | inr e ↦ rw (e, due_of) ih
    ]

-- what a prefix of a sorted list leaves out is not more overdue than what it holds
prefix_first :
    (n : ℕ) (ds : List DueArtifact) {x d : DueArtifact}
    → IsSorted ds
    → Memᴰ x ds
    → Memᴰ d (take n ds)
    → Memᴰ x (take n ds) ⊎ (overdue x d ≡ false)
prefix_first zero ds sorted m k = elim k [ ]
prefix_first (suc n) [] sorted m k = elim m [ ]
prefix_first (suc n) (y ∷ ds) sorted (Memᴰ.head p) k = inl (Memᴰ.head p)
prefix_first (suc n) (y ∷ ds) {x} sorted (Memᴰ.tail m) (Memᴰ.head q) =
    inr (subst (λ (z : DueArtifact). overdue x z ≡ false) (sym q) (sorted.0 x m))
prefix_first (suc n) (y ∷ ds) sorted (Memᴰ.tail m) (Memᴰ.tail k) =
    elim (prefix_first n ds sorted.1 m k) [ inl i ↦ inl (Memᴰ.tail i) | inr o ↦ inr o ]

-- A scheduled batch scans at most three artifacts, each of which was listed and is due, and no other
-- listed artifact that is due is more overdue than one of them. The sort is to put the artifacts that
-- are due in the order of overdueness, and to keep each of them and no other.
pub batch_lem :
    (sort_due : List DueArtifact → List DueArtifact) (latest : GoMap ℕ) (hours now : ℕ)
    (artifacts : List ArtifactMetadata)
    → IsSorted (sort_due (due_of latest hours now artifacts))
    → ((d : DueArtifact)
        → Memᴰ d (sort_due (due_of latest hours now artifacts))
        → Memᴰ d (due_of latest hours now artifacts))
    → ((d : DueArtifact)
        → Memᴰ d (due_of latest hours now artifacts)
        → Memᴰ d (sort_due (due_of latest hours now artifacts)))
    → (length (batch sort_due latest hours now artifacts) ≤ 3)
      × ((d : DueArtifact)
          → Memᴰ d (batch sort_due latest hours now artifacts)
          → Memᴰ d.artifact artifacts
            × (artifact_due d.last_scan hours now ≡ true)
            × ((a : ArtifactMetadata)
                → Memᴰ a artifacts
                → artifact_due (GoMap.get a.id latest) hours now ≡ true
                → Memᴰ (due_artifact latest a) (batch sort_due latest hours now artifacts)
                  ⊎ (overdue (due_artifact latest a) d ≡ false)))
unfolding batch
batch_lem sort_due latest hours now artifacts sorted sound complete =
    let ds : List DueArtifact = sort_due (due_of latest hours now artifacts) in
    (
      omega (arith, length-take 3 ds),
      λ d m.
          let (listed, due) = due_of_sound latest hours now artifacts (sound d (Mem-take 3 ds m)) in
          (
            listed,
            due,
            λ a k is_due.
                prefix_first 3 ds sorted
                  (complete (due_artifact latest a)
                    (due_of_complete latest hours now artifacts k is_due))
                  m,
          ),
    )
