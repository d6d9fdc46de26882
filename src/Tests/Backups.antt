-- ===== src/Tests/Backups.antt =====
-- A backup of two statements, with a compression that leaves bytes as they are.
use cargobay.Prelude.{
  ℕ, String, ◌≡◌, ◌≢◌, refl, sym, ap, ◌∙◌, true, Option, none, some, List, [], ◌∷◌, ◌++◌, arith,
  Error, message, Result, ok, err,
}
use cargobay.Prelude.GoMap
use cargobay.Prelude.GoMap.{GoMap, get-put_self}
use cargobay.Backup.Runs.{
  BackupSettings, BackupStore, FileStorage, resolve_storage, backup_key, record_failure, recorded,
  run, replaced, restore,
}
use cargobay.Backup.Restorable.{Keeps, restore-run}
use cargobay.Backup.{Bytes, dump_magic, frames, decoded, exhausted, encode_archive, decode_archive}
use cargobay.Backup.Total.{decode_archive_lem}
use cargobay.Backup.RoundTrip.{decode-encode_archive}

abbrev plain : Bytes → Result Bytes
plain raw = ok raw

plain_undone : (raw compressed : Bytes) → plain raw ≡ ok compressed → plain compressed ≡ ok raw
plain_undone raw compressed h = sym h

abbrev two : List Bytes
two = (73 ∷ 10 ∷ 59 ∷ []) ∷ [] ∷ []

two_encoded : encode_archive 1000 plain plain two ≡ ok (dump_magic ++ frames two)
unfolding encode_archive
two_encoded = refl

decode-encode_archive_example :
    decode_archive 1000 plain plain (dump_magic ++ frames two) ≡ decoded two
decode-encode_archive_example =
    decode-encode_archive 1000 plain plain two (dump_magic ++ frames two) plain_undone
      (omega arith, omega arith, (omega arith, omega arith, tt)) two_encoded

decode_archive_lem_example : decode_archive 1000 plain plain (67 ∷ 66 ∷ []) ≢ exhausted
decode_archive_lem_example = decode_archive_lem 1000 plain plain (67 ∷ 66 ∷ [])

abbrev settings : BackupSettings
settings = record {
  auto_backup_enabled = true;
  backup_interval_hours = 24;
  last_checked_at = none;
  last_backup_at = none;
  last_backup_path = "";
  last_error = "";
  storage_type = "";
  storage_config = [];
}

-- a database that is the statements of its dump
abbrev store : BackupStore (List Bytes)
store = record {
  get_backup_settings = λ s. ok settings;
  record_backup_result = λ at succeeded path e s. (s, none);
  dump_statements = λ s. ok s;
  restore_statements = λ statements s. (statements, none);
}

abbrev files : FileStorage (GoMap Bytes)
files = record {
  upload = λ bucket key bytes kind c. (GoMap.put key bytes c, none);
  download = λ bucket key c. elim (GoMap.get key c) [
    | none ↦ err (message "not found")
    | some bytes ↦ ok bytes
  ];
}

abbrev stamp : ℕ → String
stamp t = "20260101-000000"

abbrev no_other : String → GoMap String → Result (FileStorage (GoMap Bytes))
no_other kind config = err (message "unsupported storage type")

abbrev contents : Option Bytes → Result Bytes
contents none = err (message "not found")
contents (some bytes) = ok bytes

files-Keeps : Keeps files
files-Keeps key kind bytes c c' h =
    ap (λ (p : GoMap Bytes × Option Error). contents (GoMap.get key p.0)) (sym h)
    ∙ ap contents (get-put_self key bytes c)

default_resolved :
    resolve_storage (List Bytes) (GoMap Bytes) store 1000 plain plain stamp no_other files settings
    ≡ ok files
unfolding resolve_storage
default_resolved = refl

two-run :
    (run (List Bytes) (GoMap Bytes) store 1000 plain plain stamp no_other files 7 two []).2 ≡ none
unfolding run encode_archive recorded record_failure resolve_storage
two-run = refl

restore-run_example :
    restore
      (List Bytes)
      (GoMap Bytes)
      store
      1000
      plain
      plain
      stamp
      no_other
      files
      (backup_key (List Bytes) (GoMap Bytes) store 1000 plain plain stamp no_other files 7)
      []
      (run (List Bytes) (GoMap Bytes) store 1000 plain plain stamp no_other files 7 two []).1
    ≡ replaced (List Bytes) (GoMap Bytes) store 1000 plain plain stamp no_other files (two, none)
restore-run_example =
    restore-run (List Bytes) (GoMap Bytes) store 1000 plain plain stamp no_other files 7 two [] []
      settings settings files two plain_undone files-Keeps
      (omega arith, omega arith, (omega arith, omega arith, tt)) refl default_resolved refl refl
      default_resolved two-run
