-- ===== src/Database/Counters.antt =====
-- The counters of database.go: the pulls of an artifact and the bytes that it saved, and their sums
-- in the row of stats.
use cargobay.Prelude.{
  ℕ, String, ◌+◌, ◌≡◌, ◌⊎◌, Option, none, some, List, [], ◌∷◌, Error, Result, ok,
}
use cargobay.Database.Tables.{Db, query, exec, failing, update_where, transaction}
use cargobay.Database.Tables.Runs.{transaction_cases, changes_of}
use cargobay.Database.Artifacts.{is_version}

unfoldable pub download_steps : String → String → String → String → List (String × (Db → Db))
unfolding is_version update_where
download_steps registry_id namespace artifact_name version =
    ("failed to begin transaction", λ d. d)
    ∷ (
      "failed to increment artifact downloads",
      λ d. record d {
        artifacts =
            update_where (is_version registry_id namespace artifact_name version)
              (λ a. record a { downloads = a.downloads + 1 }) d.artifacts;
      },
    )
    ∷ ("failed to increment total pulls", λ d. record d { total_pulls = d.total_pulls + 1 })
    ∷ ("failed to commit download increment", λ d. d)
    ∷ []

unfoldable pub increment_artifact_downloads :
    String → String → String → String → Db → Db × Option Error
unfolding transaction download_steps
increment_artifact_downloads registry_id namespace artifact_name version db =
    transaction (download_steps registry_id namespace artifact_name version) db

unfoldable pub increment_artifact_bandwidth_saved :
    String → String → String → String → ℕ → Db → Db × Option Error
unfolding transaction is_version update_where
increment_artifact_bandwidth_saved registry_id namespace artifact_name version bytes db =
    transaction
      (("failed to begin transaction", λ d. d)
        ∷ (
          "failed to increment artifact bandwidth saved",
          λ d. record d {
            artifacts =
                update_where (is_version registry_id namespace artifact_name version)
                  (λ a. record a { bandwidth_saved = a.bandwidth_saved + bytes }) d.artifacts;
          },
        )
        ∷ (
          "failed to increment bandwidth saved",
          λ d. record d { bandwidth_saved_bytes = d.bandwidth_saved_bytes + bytes },
        )
        ∷ ("failed to commit bandwidth saved increment", λ d. d)
        ∷ [])
      db

unfoldable pub increment_bandwidth_saved : ℕ → Db → Db × Option Error
unfolding failing
increment_bandwidth_saved bytes db =
    failing "failed to record bandwidth saved"
      (exec (λ d. ok (record d { bandwidth_saved_bytes = d.bandwidth_saved_bytes + bytes })) db)

unfoldable pub total_downloads : Db → Result ℕ
unfolding query
total_downloads db = query "failed to get total pulls" db db.total_pulls

unfoldable pub get_bandwidth_saved : Db → Result ℕ
unfolding query
get_bandwidth_saved db = query "failed to get bandwidth saved" db db.bandwidth_saved_bytes

-- IncrementArtifactDownloads counts a pull of the artifact and a pull of the instance, or it returns
-- an error and counts neither; the tables are otherwise as before.
pub increment_downloads-IsAtomic :
    (registry_id namespace artifact_name version : String) (db : Db)
    → (rest : List (Option Error)) × ((increment_artifact_downloads registry_id namespace
            artifact_name version db
          ≡ (
            record db {
              artifacts =
                  update_where
                    (is_version registry_id namespace artifact_name version)
                    (λ a. record a { downloads = a.downloads + 1 })
                    db.artifacts;
              total_pulls = db.total_pulls + 1;
              outcomes = rest;
            },
            none,
          ))
        ⊎ ((e : Error) × (increment_artifact_downloads registry_id namespace artifact_name version
                db
              ≡ (record db { outcomes = rest }, some e))))
unfolding increment_artifact_downloads download_steps changes_of
increment_downloads-IsAtomic registry_id namespace artifact_name version db =
    transaction_cases (download_steps registry_id namespace artifact_name version) db
