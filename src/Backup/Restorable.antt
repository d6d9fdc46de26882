-- ===== src/Backup/Restorable.antt =====
-- That what a run of a backup stored is what a restore hands to the database.
use Prim.Native.String.{◌++◌, count}
use text.Mathlib.TextLemmas.{length-append}
use cargobay.Prelude.{
  ℕ, String, false, ◌≡◌, refl, sym, subst, ap, Option, none, List, Error, Result, ok, arith, ◌==◌,
  eq_iff, inl, inr, Bool-cases, Option-cases, Result-cases,
}
use cargobay.Prelude.GoMap.{GoMap}
use cargobay.Backup.{Bytes, encode_archive}
use cargobay.Backup.RoundTrip.{AllFit, decode-encode_archive}
use cargobay.Backup.Runs.{
  BackupSettings, BackupStore, FileStorage, backup_bucket, resolve_storage, backup_key,
  record_failure, recorded, run, replaced, restore_decoded, restore,
}

-- A file that was uploaded is downloaded as it was.
abbrev pub Keeps : {C : Type 0} → FileStorage C → Type 0
Keeps {C} storage =
    (key kind : String) (bytes : Bytes) (c c' : C)
    → storage.upload backup_bucket key bytes kind c ≡ (c', none)
    → storage.download backup_bucket key c' ≡ ok bytes

module _ (S C : Type 0) (db : BackupStore S) (max_slice : ℕ) (gzip : Bytes → Result Bytes)
    (gunzip : Bytes → Result Bytes) (format_time : ℕ → String)
    (new_storage : String → GoMap String → Result (FileStorage C))
    (default_storage : FileStorage C) where
  key_given :
      (checked_at : ℕ)
      → (backup_key S C db max_slice gzip gunzip format_time new_storage default_storage checked_at
          == "")
        ≡ false
  key_given checked_at =
      let rest : String = format_time checked_at ++ ".sql.gz" in
      elim (Bool-cases ("cargobay-" ++ rest == "")) [
        | inr e ↦ e
        | inl e ↦
            let empty : "cargobay-" ++ rest ≡ "" = (eq_iff ("cargobay-" ++ rest) "").0 e in
            absurd (omega (arith, ap count empty, length-append "cargobay-" rest))
      ]

  -- A run without an error leaves an archive under the name that Run chose, out of which Restore
  -- recovers just the statements that Run had dumped: from whatever the database has become by then,
  -- Restore of that name hands them to RestoreStatements, and ends as that does, with its error wrapped.
  -- Whether the database takes the statements is not said. The settings are to name the same storage
  -- both times, the storage is to keep what is uploaded, gunzip is to undo gzip, and the statements
  -- are to fit into memory.
  pub restore-run :
      (checked_at : ℕ) (s later : S) (c : C) (settings now_settings : BackupSettings)
      (dest : FileStorage C) (statements : List Bytes)
      → ((raw compressed : Bytes) → gzip raw ≡ ok compressed → gunzip compressed ≡ ok raw)
      → Keeps dest
      → AllFit max_slice statements
      → db.get_backup_settings s ≡ ok settings
      → resolve_storage S C db max_slice gzip gunzip format_time new_storage default_storage
          settings
        ≡ ok dest
      → db.dump_statements s ≡ ok statements
      → db.get_backup_settings later ≡ ok now_settings
      → resolve_storage S C db max_slice gzip gunzip format_time new_storage default_storage
          now_settings
        ≡ ok dest
      → (run S C db max_slice gzip gunzip format_time new_storage default_storage checked_at s c).2
        ≡ none
      → restore S C db max_slice gzip gunzip format_time new_storage default_storage
          (backup_key S C db max_slice gzip gunzip format_time new_storage default_storage
            checked_at)
          later
          (run S C db max_slice gzip gunzip format_time new_storage default_storage checked_at s
            c).1
        ≡ replaced S C db max_slice gzip gunzip format_time new_storage default_storage
            (db.restore_statements statements later)
  unfolding run restore restore_decoded recorded record_failure
  restore-run checked_at s later c settings now_settings dest statements undone keeps fit got
        resolved dumped got_now resolved_now done =
      let key : String = "cargobay-" ++ (format_time checked_at ++ ".sql.gz") in
      elim (Result-cases (encode_archive max_slice gzip gunzip statements)) [
        | inr (e, q) ↦ cc (rw (got, resolved, dumped, q, run) at done)
        | inl (archive, q) ↦
            let up : C × Option Error =
              dest.upload backup_bucket key archive "application/gzip" c in
            elim (Option-cases up.1) [
              | inr (e, n) ↦ cc (rw (got, resolved, dumped, q, n, run, recorded) at done)
              | inl n ↦
                  let stored : dest.download backup_bucket key up.0 ≡ ok archive =
                    keeps key "application/gzip" archive c up.0 (ap (λ o. (up.0, o)) n) in
                  let back =
                    decode-encode_archive max_slice gzip gunzip statements archive undone fit q in
                  let left : (run S C db max_slice gzip gunzip format_time new_storage
                        default_storage checked_at s c).1
                      ≡ up.0 =
                    rw (got, resolved, dumped, q, n, run, recorded) refl in
                  let answer =
                    replaced S C db max_slice gzip gunzip format_time new_storage default_storage
                      (db.restore_statements statements later) in
                  subst
                    (λ (x : C).
                      restore S C db max_slice gzip gunzip format_time new_storage default_storage
                        key later x
                      ≡ answer)
                    (sym left)
                    (rw
                      (
                        key_given checked_at,
                        got_now,
                        resolved_now,
                        stored,
                        back,
                        restore,
                        restore_decoded,
                      )
                      refl)
            ]
      ]
