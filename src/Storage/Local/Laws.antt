-- ===== src/Storage/Local/Laws.antt =====
-- That the adapter over files keeps the laws of storage.
use cargobay.Prelude.{
  String, true, false, ◌≡◌, refl, ap, subst, Option, none, some, List, [], ◌∷◌, Error, ok, inl, inr,
  Option-cases, Bool-cases, not, keep, ◌==◌, eq_iff,
}
use cargobay.Prelude.GoMap
use cargobay.Prelude.GoMap.{GoMap}
use cargobay.Storage.{Reader, Key, IsOr, StorageLaws}
use cargobay.Storage.Local.{
  Outcome, done, failed, FileSystem, call, write, read, is_below, remove_all, get_artifact_path,
  file_path, reference, save_in, save_artifact, copied, copy, create_in, stream_in,
  save_artifact_stream, get_artifact_stream, delete_artifact, artifact_exists, local_adapter,
}

-- that a file system holds this under the path
abbrev Holds : String → Option String → FileSystem → Type 0
Holds path found fs = GoMap.get path fs.files ≡ found

read-Holds :
    (path : String) (found : Option String) (fs : FileSystem)
    → Holds path found fs
    → IsOr found (read path fs)
unfolding read
read-Holds path found fs h = elim (Option-cases (fs.read_fault path)) [
  | inl e ↦ rw (e, read) h
  | inr (x, e) ↦ rw (e, read) tt
]

write-Holds :
    (path payload : String) (run : FileSystem × Outcome) (fs' : FileSystem)
    → write path payload run ≡ (fs', none)
    → Holds path (some payload) fs'
unfolding write
write-Holds path payload (fs, done) fs' h =
    subst (Holds path (some payload)) (ap (λ r. r.0) h) (GoMap.get-put_self path payload fs.files)
write-Holds path payload (fs, failed e left) fs' h = cc

reference_lem :
    (path : String) (run : FileSystem × Option Error) (fs' : FileSystem) (ref : String)
    → reference path run ≡ (fs', ok ref)
    → run ≡ (fs', none)
unfolding reference
reference_lem path (fs, none) fs' ref h = ap (λ r. (r.0, none)) h
reference_lem path (fs, some e) fs' ref h = cc

save_in-Holds :
    (path payload : String) (run : FileSystem × Outcome) (fs' : FileSystem) (ref : String)
    → save_in path payload run ≡ (fs', ok ref)
    → Holds path (some payload) fs'
unfolding save_in
save_in-Holds path payload (fs, failed e left) fs' ref h = cc
save_in-Holds path payload (fs, done) fs' ref h =
    write-Holds path payload (call fs) fs' (reference_lem path _ fs' ref h)

copied_lem :
    (path : String) (run : FileSystem × Option Error) (fs' : FileSystem) (ref : String)
    → copied path run ≡ (fs', ok ref)
    → run ≡ (fs', none)
unfolding copied
copied_lem path (fs, none) fs' ref h = ap (λ r. (r.0, none)) h
copied_lem path (fs, some e) fs' ref h = cc

copy-Holds :
    (path : String) (reader : Reader) (run : FileSystem × Outcome) (fs' : FileSystem)
    → copy path reader run ≡ (fs', none)
    → (reader.failure ≡ none) × Holds path (some reader.payload) fs'
unfolding copy write
copy-Holds path reader (fs, failed e left) fs' h = cc
copy-Holds path reader (fs, done) fs' h = (
  ap (λ r. r.1) h,
  subst (Holds path (some reader.payload)) (ap (λ r. r.0) h)
      (GoMap.get-put_self path reader.payload fs.files),
)

create_in-Holds :
    (path : String) (reader : Reader) (run : FileSystem × Outcome) (fs' : FileSystem) (ref : String)
    → create_in path reader run ≡ (fs', ok ref)
    → (reader.failure ≡ none) × Holds path (some reader.payload) fs'
unfolding create_in
create_in-Holds path reader (fs, failed e left) fs' ref h = cc
create_in-Holds path reader (fs, done) fs' ref h =
    copy-Holds path reader (call (write path "" (fs, done)).0) fs' (copied_lem path _ fs' ref h)

stream_in-Holds :
    (path : String) (reader : Reader) (run : FileSystem × Outcome) (fs' : FileSystem) (ref : String)
    → stream_in path reader run ≡ (fs', ok ref)
    → (reader.failure ≡ none) × Holds path (some reader.payload) fs'
unfolding stream_in
stream_in-Holds path reader (fs, failed e left) fs' ref h = cc
stream_in-Holds path reader (fs, done) fs' ref h = create_in-Holds path reader (call fs) fs' ref h

-- no file is left below the path
kept_none :
    (path p : String) (files : GoMap String)
    → is_below path p ≡ true
    → GoMap.get p (keep (λ f. not (is_below path f.0)) files) ≡ none
unfolding GoMap.get
kept_none path p [] h = refl
kept_none path p ((q, payload) ∷ files) h =
    let rest = kept_none path p files h in
    elim (Bool-cases (is_below path q)) [
      | inl e ↦ rw (e, keep) rest
      | inr e ↦ elim (Bool-cases (q == p)) [
        | inl i ↦ cc ((eq_iff q p).0 i, e, h)
        | inr i ↦ rw (e, keep, i, GoMap.get) rest
      ]
    ]

remove_all-Holds :
    (path p : String) (run : FileSystem × Outcome) (fs' : FileSystem)
    → remove_all path run ≡ (fs', none)
    → is_below path p ≡ true
    → Holds p none fs'
unfolding remove_all
remove_all-Holds path p (fs, done) fs' h below =
    subst (Holds p none) (ap (λ r. r.0) h) (kept_none path p fs.files below)
remove_all-Holds path p (fs, failed e left) fs' h below = cc

module _ (join : List String → String) (base_path : String) where
  exists-Holds :
      (k : Key) (fs : FileSystem)
      → Holds (file_path join base_path k) none fs
      → IsOr false (artifact_exists join base_path k fs)
  unfolding artifact_exists
  exists-Holds k fs h = elim (Option-cases (fs.read_fault (file_path join base_path k))) [
    | inl e ↦ rw (e, h, artifact_exists) refl
    | inr (x, e) ↦ rw (e, artifact_exists) tt
  ]

  -- The adapter over files reads back whole what it saved under a key, by SaveArtifact or from a
  -- stream, which then had no error; what it deleted is not read and does not exist. A read may fail
  -- instead. The last needs that the file of the key is below the directory of the key.
  pub local-StorageLaws :
      (k : Key)
      → is_below (get_artifact_path join base_path k) (file_path join base_path k) ≡ true
      → StorageLaws (local_adapter join base_path) k
  unfolding save_artifact save_artifact_stream get_artifact_stream delete_artifact
  local-StorageLaws k below =
      let path = file_path join base_path k in
      record {
        saved = λ payload fs fs' ref h.
            read-Holds path _ fs' (save_in-Holds path payload (call fs) fs' ref h);
        streamed = λ reader fs fs' ref h.
            let (whole, held) = stream_in-Holds path reader (call fs) fs' ref h in
            (whole, read-Holds path _ fs' held);
        deleted = λ fs fs' h.
            let held =
              remove_all-Holds (get_artifact_path join base_path k) path (call fs) fs' h below in
            (read-Holds path _ fs' held, exists-Holds k fs' held);
      }
