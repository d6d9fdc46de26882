-- ===== src/Backup/Runs.antt =====
-- The runs of backup.go: Backup over its store, which is an interface, and over the adapters of
-- storage that settings name. The context `C` is what the adapters keep, and a statement is its
-- bytes. `new_storage` stands for storage.New, and `format_time` for time.Format with the layout of
-- the names. For the text of an error, the error is given itself; none is the empty text. The path of
-- a backup is left out of the texts of errors.
use Prim.Native.String.{◌++◌}
use cargobay.Prelude.{
  ℕ, String, Bool, true, false, not, ◌||◌, Option, none, some, List, Error, message, Result, ok,
  err, leb, ◌+◌, ◌*◌, ◌==◌, if◌then◌else◌,
}
use cargobay.Prelude.GoMap.{GoMap}
use cargobay.Backup.{
  Bytes, Decoded, decoded, failed, panicked, exhausted, encode_archive, decode_archive,
}

pub record BackupSettings : Type 0 where
  pub auto_backup_enabled : Bool
  pub backup_interval_hours : ℕ
  pub last_checked_at : Option ℕ
  pub last_backup_at : Option ℕ
  pub last_backup_path : String
  pub last_error : String
  pub storage_type : String
  pub storage_config : GoMap String

pub record BackupStore (S : Type 0) : Type 0 where
  pub get_backup_settings : S → Result BackupSettings
  pub record_backup_result : ℕ → Bool → String → Option Error → S → S × Option Error
  pub dump_statements : S → Result (List Bytes)
  pub restore_statements : List Bytes → S → S × Option Error

-- the operations of StorageAdapter on files that a backup calls
pub record FileStorage (C : Type 0) : Type 0 where
  pub upload : String → String → Bytes → String → C → C × Option Error
  pub download : String → String → C → Result Bytes

abbrev pub backup_bucket : String
backup_bucket = "backups"

-- How Restore ends: with its error, if any, or as decodeArchive does.
pub data Ended : Type 0 where
  answered : Option Error → Ended
  stopped : Decoded → Ended

-- an hour, in nanoseconds
abbrev pub hour : ℕ
hour = 3600000000000

unfoldable pub backup_due : Option ℕ → ℕ → ℕ → Bool
backup_due none interval_hours now = true
backup_due (some last) interval_hours now = leb (last + interval_hours * hour) now

module _ (S C : Type 0) (db : BackupStore S) (max_slice : ℕ) (gzip : Bytes → Result Bytes)
    (gunzip : Bytes → Result Bytes) (format_time : ℕ → String)
    (new_storage : String → GoMap String → Result (FileStorage C))
    (default_storage : FileStorage C) where
  unfoldable pub resolve_storage : BackupSettings → Result (FileStorage C)
  resolve_storage settings =
      if settings.storage_type == ""
      then ok default_storage
      else new_storage settings.storage_type settings.storage_config

  abbrev pub backup_key : ℕ → String
  backup_key checked_at = "cargobay-" ++ (format_time checked_at ++ ".sql.gz")

  -- recordFailure, and the return of the error
  unfoldable pub record_failure : ℕ → Error → S → C → S × C × Option Error
  record_failure checked_at e s c =
      ((db.record_backup_result checked_at false "" (some e) s).0, c, some e)

  -- what is left of Run after the upload
  unfoldable pub recorded : ℕ → S → C × Option Error → S × C × Option Error
  unfolding record_failure
  recorded checked_at s (c, none) =
      ((db.record_backup_result checked_at true (backup_key checked_at) none s).0, c, none)
  recorded checked_at s (c, some e) =
      record_failure checked_at (Error.wrap "failed to store backup" e) s c

  unfoldable pub run : ℕ → S → C → S × C × Option Error
  unfolding resolve_storage record_failure recorded
  run checked_at s c = elim (db.get_backup_settings s) [
    | err e ↦ record_failure checked_at e s c
    | ok settings ↦ elim (resolve_storage settings) [
      | err e ↦ record_failure checked_at (Error.wrap "failed to resolve backup storage" e) s c
      | ok dest ↦ elim (db.dump_statements s) [
        | err e ↦ record_failure checked_at e s c
        | ok statements ↦ elim (encode_archive max_slice gzip gunzip statements) [
          | err e ↦ record_failure checked_at e s c
          | ok archive ↦
              recorded checked_at s
                (dest.upload backup_bucket (backup_key checked_at) archive "application/gzip" c)
        ]
      ]
    ]
  ]

  -- RestoreStatements, and the error of Restore
  unfoldable pub replaced : S × Option Error → S × Ended
  replaced (s, none) = (s, answered none)
  replaced (s, some e) = (s, answered (some (Error.wrap "failed to restore backup" e)))

  unfoldable pub restore_decoded : S → Decoded → S × Ended
  unfolding replaced
  restore_decoded s (decoded statements) = replaced (db.restore_statements statements s)
  restore_decoded s (failed e) = (s, answered (some (Error.wrap "failed to parse backup" e)))
  restore_decoded s panicked = (s, stopped panicked)
  restore_decoded s exhausted = (s, stopped exhausted)

  unfoldable pub restore : String → S → C → S × Ended
  unfolding resolve_storage restore_decoded
  restore path s c =
      if path == ""
      then (s, answered (some (message "backup path is required")))
      else elim (db.get_backup_settings s) [
        | err e ↦ (s, answered (some (Error.wrap "failed to load backup settings" e)))
        | ok settings ↦ elim (resolve_storage settings) [
          | err e ↦ (s, answered (some (Error.wrap "failed to resolve backup storage" e)))
          | ok src ↦ elim (src.download backup_bucket path c) [
            | err e ↦ (s, answered (some (Error.wrap "failed to load backup" e)))
            | ok archive ↦ restore_decoded s (decode_archive max_slice gzip gunzip archive)
          ]
        ]
      ]

  -- a tick of the loop of StartScheduler
  unfoldable pub tick : ℕ → S → C → S × C
  unfolding backup_due run
  tick now s c = elim (db.get_backup_settings s) [
    | err e ↦ (s, c)
    | ok settings ↦
        let (s', c', answer) = run now s c in
        if not settings.auto_backup_enabled
          || not (backup_due settings.last_checked_at settings.backup_interval_hours now)
        then (s, c)
        else (s', c')
  ]
