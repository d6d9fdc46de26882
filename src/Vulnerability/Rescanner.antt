-- ===== src/Vulnerability/Rescanner.antt =====
-- backend/pkg/vulnerability/rescanner.go, over its store and the scanner, which are interfaces with
-- the state `W`; `R` is the result of a scan. `sort_due` stands for sort.Slice by `overdue`. Log
-- lines are left out, and so is what a call that is only logged answers.
use Prim.Native.String.{compare}
use Prim.Native.Nat
use cargobay.Prelude.{
  ℕ, String, Bool, true, false, not, ◌||◌, ◌&&◌, Option, none, some, List, [], ◌∷◌, ◌++◌, Error,
  Result, ok, err, ◌>>=◌, leb, ltb, eqb, ◌+◌, ◌*◌, map, take, if◌then◌else◌,
}
use cargobay.Prelude.GoMap
use cargobay.Prelude.GoMap.{GoMap}
use cargobay.Database.Models.{ArtifactMetadata, RegistryConfig}
use cargobay.Database.Artifacts.{ListOptions}
use cargobay.Backup.Runs.{hour}

pub record VulnScanSettings : Type 0 where
  pub auto_scan_enabled : Bool
  pub scan_interval_hours : ℕ
  pub off_hours_start_hour : Option ℕ
  pub off_hours_end_hour : Option ℕ

pub record RescanStore (W : Type 0) : Type 0 where
  pub get_vuln_scan_settings : W → Result VulnScanSettings
  pub record_vuln_scan_result : ℕ → Bool → Option Error → W → W × Option Error
  pub list_registries : W → Result (List RegistryConfig)
  pub list_artifacts : String → ListOptions → W → Result (List ArtifactMetadata)

pub record Scanner (W R : Type 0) : Type 0 where
  pub scan_artifact : ArtifactMetadata → W → W × Result R
  pub save_scan_result : R → W → W × Option Error
  -- the times of the latest scans, by the ID of the artifact
  pub get_latest_scan_results : List String → W → Result (GoMap ℕ)

abbrev pub rescan_artifact_types : List String
rescan_artifact_types = "docker" ∷ "oci" ∷ []

abbrev pub max_scans_per_tick : ℕ
max_scans_per_tick = 3

pub record DueArtifact : Type 0 where
  pub artifact : ArtifactMetadata
  pub last_scan : Option ℕ

unfoldable pub artifact_due : Option ℕ → ℕ → ℕ → Bool
artifact_due none interval_hours now = true
artifact_due (some last) interval_hours now = leb (last + interval_hours * hour) now

-- of an hour of the day
unfoldable pub within_off_hours : ℕ → Option ℕ → Option ℕ → Bool
within_off_hours h none end = true
within_off_hours h (some start) none = true
within_off_hours h (some start) (some end) =
    if eqb start end
    then true
    else (if ltb start end then leb start h && ltb h end else leb start h || ltb h end)

abbrev pub before : String → String → Bool
before a b = elim (compare a b) [ Nat.Ordering.lt ↦ true | _ ↦ false ]

abbrev pub earlier : DueArtifact → DueArtifact → Option ℕ → Option ℕ → Bool
earlier x y none none = before x.artifact.id y.artifact.id
earlier x y none (some t) = true
earlier x y (some s) none = false
earlier x y (some s) (some t) = ltb s t

-- the order that the batch is sorted by
abbrev pub overdue : DueArtifact → DueArtifact → Bool
overdue x y = earlier x y x.last_scan y.last_scan

-- the loop over the artifacts that keeps those that are due
unfoldable pub due_of : GoMap ℕ → ℕ → ℕ → List ArtifactMetadata → List DueArtifact
unfolding artifact_due
due_of latest interval_hours now [] = []
due_of latest interval_hours now (a ∷ rest) =
    let others = due_of latest interval_hours now rest in
    let last = GoMap.get a.id latest in
    if artifact_due last interval_hours now
    then record { artifact = a; last_scan = last } ∷ others
    else others

-- what is asked of a registry
abbrev pub images_of : String → ListOptions
images_of artifact_type = record {
  namespace = "";
  artifact_type = artifact_type;
  limit = 1000;
  offset = 0;
  order_by = "";
  order = "";
}

-- what a tick scans, of the artifacts with their latest scans
unfoldable pub batch :
    (List DueArtifact → List DueArtifact)
    → GoMap ℕ
    → ℕ
    → ℕ
    → List ArtifactMetadata
    → List DueArtifact
unfolding due_of
batch sort_due latest interval_hours now artifacts =
    take max_scans_per_tick (sort_due (due_of latest interval_hours now artifacts))

module _ (W R : Type 0) (db : RescanStore W) (scanner : Scanner W R)
    (sort_due : List DueArtifact → List DueArtifact) where
  -- a scan, and the saving of its result
  unfoldable pub scanned : ArtifactMetadata → W → W
  scanned a w =
      let (w', result) = scanner.scan_artifact a w in
      elim result [ err e ↦ w' | ok found ↦ (scanner.save_scan_result found w').0 ]

  unfoldable pub scan_each : List ArtifactMetadata → W → W
  unfolding scanned
  scan_each [] w = w
  scan_each (a ∷ rest) w = scan_each rest (scanned a w)

  -- a failure that is recorded and returned
  unfoldable pub rescan_failed : ℕ → Error → W → W × Option Error
  rescan_failed now e w = ((db.record_vuln_scan_result now false (some e) w).0, some e)

  unfoldable pub rescan_done : ℕ → W → W × Option Error
  rescan_done now w = ((db.record_vuln_scan_result now true none w).0, none)

  -- the loops of RunRescan, over pairs of a registry and a type
  unfoldable pub sweep : ℕ → List (String × String) → W → W × Option Error
  unfolding rescan_failed rescan_done scan_each
  sweep now [] w = rescan_done now w
  sweep now ((registry, artifact_type) ∷ rest) w =
      elim (db.list_artifacts registry (images_of artifact_type) w) [
        | err e ↦ rescan_failed now e w
        | ok artifacts ↦ sweep now rest (scan_each artifacts w)
      ]

  -- each registry with each type, in the order of the loops
  unfoldable pub pairs : List RegistryConfig → List (String × String)
  pairs [] = []
  pairs (reg ∷ rest) = map (λ t. (reg.id, t)) rescan_artifact_types ++ pairs rest

  unfoldable pub run_rescan : ℕ → W → W × Option Error
  unfolding sweep pairs
  run_rescan now w = elim (db.list_registries w) [
    | err e ↦ rescan_failed now e w
    | ok registries ↦ sweep now (pairs registries) w
  ]

  -- the loops of runScheduledBatch that list
  unfoldable pub listed_images : List (String × String) → W → Result (List ArtifactMetadata)
  listed_images [] w = ok []
  listed_images ((registry, artifact_type) ∷ rest) w = do
    artifacts ← db.list_artifacts registry (images_of artifact_type) w
    others ← listed_images rest w
    ok (artifacts ++ others)

  unfoldable pub scan_batch : VulnScanSettings → ℕ → List ArtifactMetadata → W → W × Option Error
  unfolding batch scan_each
  scan_batch settings now [] w = rescan_done now w
  scan_batch settings now (a ∷ rest) w =
      elim (scanner.get_latest_scan_results (map (λ (x : ArtifactMetadata). x.id) (a ∷ rest)) w) [
        | err e ↦ rescan_failed now e w
        | ok latest ↦
            let chosen = batch sort_due latest settings.scan_interval_hours now (a ∷ rest) in
            rescan_done now (scan_each (map (λ (d : DueArtifact). d.artifact) chosen) w)
      ]

  unfoldable pub run_scheduled_batch : VulnScanSettings → ℕ → W → W × Option Error
  unfolding listed_images scan_batch pairs
  run_scheduled_batch settings now w = elim (db.list_registries w) [
    | err e ↦ rescan_failed now e w
    | ok registries ↦ elim (listed_images (pairs registries) w) [
      | err e ↦ rescan_failed now e w
      | ok artifacts ↦ scan_batch settings now artifacts w
    ]
  ]

  -- a tick of the loop of StartScheduler; `hour_of` is the hour of the day of a time
  unfoldable pub scheduled : (ℕ → ℕ) → ℕ → W → W
  unfolding run_scheduled_batch within_off_hours
  scheduled hour_of now w = elim (db.get_vuln_scan_settings w) [
    | err e ↦ w
    | ok settings ↦
        let ran = (run_scheduled_batch settings now w).0 in
        if not settings.auto_scan_enabled
          || not (
              within_off_hours (hour_of now) settings.off_hours_start_hour
                settings.off_hours_end_hour)
        then w
        else ran
  ]
