-- ===== src/Tests/Vulnerability.antt =====
-- A batch of one image, and the night hours.
use cargobay.Prelude.{
  ◌≡◌, ◌≤◌, ◌+◌, ◌-◌, ◌%◌, ◌||◌, true, false, some, List, [], ◌∷◌, length, Memᴰ, ◌⊎◌, eqb, ltb,
  arith,
}
use cargobay.Prelude.GoMap
use cargobay.Prelude.GoMap.{GoMap}
use cargobay.Database.Models.{ArtifactMetadata}
use cargobay.Vulnerability.Rescanner.{
  DueArtifact, artifact_due, due_of, batch, overdue, within_off_hours,
}
use cargobay.Vulnerability.Batch.{IsSorted, due_artifact, batch_lem}
use cargobay.Vulnerability.Window.{within_off_hours_lem}
use cargobay.Tests.Artifacts.{image}

within_off_hours_lem_example :
    within_off_hours 3 (some 22) (some 6)
    ≡ (eqb 22 6 || ltb ((3 + 24 - 22) % 24) ((6 + 24 - 22) % 24))
within_off_hours_lem_example = within_off_hours_lem 3 22 6 (omega arith) (omega arith) (omega arith)

abbrev unsorted : List DueArtifact → List DueArtifact
unsorted ds = ds

one-IsSorted : IsSorted (due_of [] 24 100 (image ∷ []))
unfolding due_of artifact_due GoMap.get
one-IsSorted = (λ x m. elim m [ ], tt)

batch_lem_example :
    (length (batch unsorted [] 24 100 (image ∷ [])) ≤ 3)
    × ((d : DueArtifact)
        → Memᴰ d (batch unsorted [] 24 100 (image ∷ []))
        → Memᴰ d.artifact (image ∷ [])
          × (artifact_due d.last_scan 24 100 ≡ true)
          × ((a : ArtifactMetadata)
              → Memᴰ a (image ∷ [])
              → artifact_due (GoMap.get a.id []) 24 100 ≡ true
              → Memᴰ (due_artifact [] a) (batch unsorted [] 24 100 (image ∷ []))
                ⊎ (overdue (due_artifact [] a) d ≡ false)))
batch_lem_example = batch_lem unsorted [] 24 100 (image ∷ []) one-IsSorted (λ d m. m) (λ d m. m)
