-- ===== src/Storage/Local.antt =====
-- backend/pkg/storage/local.go: LocalAdapter, over a file system. `join` stands for filepath.Join.
-- A read answers from the files, or fails as `read_fault` has it for the path; a call that writes
-- consumes an entry of `outcomes`, and succeeds where the list has ended. A write that fails leaves
-- in the file what the entry says, if it got as far as to open the file.
pub mod Laws
use Prim.Native.String
use cargobay.Prelude.{
  String, Bool, true, false, Option, none, some, List, [], ◌∷◌, Error, Result, ok, err, ◌||◌, ◌==◌,
  not, keep, if◌then◌else◌,
}
use cargobay.Prelude.Text.{cut_prefix}
use cargobay.Prelude.GoMap
use cargobay.Prelude.GoMap.{GoMap}
use cargobay.Storage.{Reader, Key, StorageAdapter}

pub data Outcome : Type 0 where
  done : Outcome
  failed : Error → Option String → Outcome

pub record FileSystem : Type 0 where
  pub files : GoMap String
  pub read_fault : String → Option Error
  pub outcomes : List Outcome

-- the next outcome, and the file system without it
unfoldable pub next_outcome : FileSystem → List Outcome → FileSystem × Outcome
next_outcome fs [] = (fs, done)
next_outcome fs (o ∷ rest) = (record fs { outcomes = rest }, o)

unfoldable pub call : FileSystem → FileSystem × Outcome
unfolding next_outcome
call fs = next_outcome fs fs.outcomes

-- what a failed write leaves
unfoldable pub leave : String → Option String → FileSystem → FileSystem
leave path none fs = fs
leave path (some payload) fs = record fs { files = GoMap.put path payload fs.files }

-- os.WriteFile: it truncates the file before it writes
unfoldable pub write : String → String → FileSystem × Outcome → FileSystem × Option Error
unfolding leave
write path payload (fs, done) = (record fs { files = GoMap.put path payload fs.files }, none)
write path payload (fs, failed e left) = (leave path left fs, some e)

-- os.ReadFile or os.Open with the read: nothing where the file does not exist
unfoldable pub read : String → FileSystem → Result (Option String)
read path fs = elim (fs.read_fault path) [ some e ↦ err e | none ↦ ok (GoMap.get path fs.files) ]

-- a path, or one below it
unfoldable pub is_below : String → String → Bool
is_below path p =
    p == path || elim (cut_prefix (String.◌++◌ path "/") p) [ none ↦ false | some q ↦ true ]

-- os.RemoveAll
unfoldable pub remove_all : String → FileSystem × Outcome → FileSystem × Option Error
unfolding is_below
remove_all path (fs, done) =
    (record fs { files = keep (λ f. not (is_below path f.0)) fs.files }, none)
remove_all path (fs, failed e left) = (fs, some e)

-- os.Remove, whose error is not looked at
unfoldable pub remove : String → FileSystem × Outcome → FileSystem
remove path (fs, done) = record fs { files = GoMap.delete path fs.files }
remove path (fs, failed e left) = fs

-- what a save returns: the path as the reference
unfoldable pub reference : String → FileSystem × Option Error → FileSystem × Result String
reference path (fs, none) = (fs, ok path)
reference path (fs, some e) = (fs, err e)

-- os.MkdirAll, then os.WriteFile
unfoldable pub save_in : String → String → FileSystem × Outcome → FileSystem × Result String
unfolding write call reference
save_in path payload (fs, failed e left) = (fs, err e)
save_in path payload (fs, done) = reference path (write path payload (call fs))

-- the end of io.Copy: an error removes the file
unfoldable pub copied : String → FileSystem × Option Error → FileSystem × Result String
unfolding remove call
copied path (fs, none) = (fs, ok path)
copied path (fs, some e) = (remove path (call fs), err e)

-- io.Copy from a reader: what the reader gave is written before its error is seen
unfoldable pub copy : String → Reader → FileSystem × Outcome → FileSystem × Option Error
unfolding write
copy path reader (fs, failed e left) = write path reader.payload (fs, failed e left)
copy path reader (fs, done) = ((write path reader.payload (fs, done)).0, reader.failure)

-- os.MkdirAll, os.Create, io.Copy
unfoldable pub create_in : String → Reader → FileSystem × Outcome → FileSystem × Result String
unfolding write copy copied call
create_in path reader (fs, failed e left) = (fs, err e)
create_in path reader (fs, done) =
    copied path (copy path reader (call (write path "" (fs, done)).0))

unfoldable pub stream_in : String → Reader → FileSystem × Outcome → FileSystem × Result String
unfolding create_in call
stream_in path reader (fs, failed e left) = (fs, err e)
stream_in path reader (fs, done) = create_in path reader (call fs)

module _ (join : List String → String) (base_path : String) where
  unfoldable pub get_artifact_path : Key → String
  get_artifact_path k =
      join (base_path ∷ k.registry_id ∷ k.namespace ∷ k.artifact_name ∷ k.version ∷ [])

  -- filepath.Join(path, "artifact.bin")
  unfoldable pub file_path : Key → String
  unfolding get_artifact_path
  file_path k = join (get_artifact_path k ∷ "artifact.bin" ∷ [])

  unfoldable pub save_artifact : Key → String → FileSystem → FileSystem × Result String
  unfolding save_in call file_path
  save_artifact k payload fs = save_in (file_path k) payload (call fs)

  unfoldable pub get_artifact : Key → FileSystem → Result (Option String)
  unfolding read file_path
  get_artifact k fs = read (file_path k) fs

  unfoldable pub save_artifact_stream : Key → Reader → FileSystem → FileSystem × Result String
  unfolding stream_in call file_path
  save_artifact_stream k reader fs = stream_in (file_path k) reader (call fs)

  unfoldable pub get_artifact_stream : Key → FileSystem → Result (Option String)
  unfolding read file_path
  get_artifact_stream k fs = read (file_path k) fs

  unfoldable pub delete_artifact : Key → FileSystem → FileSystem × Option Error
  unfolding remove_all call get_artifact_path
  delete_artifact k fs = remove_all (get_artifact_path k) (call fs)

  unfoldable pub artifact_exists : Key → FileSystem → Result Bool
  unfolding file_path
  artifact_exists k fs = elim (fs.read_fault (file_path k)) [
    | some e ↦ err e
    | none ↦ ok (elim (GoMap.get (file_path k) fs.files) [ none ↦ false | some payload ↦ true ])
  ]

  abbrev pub local_adapter : StorageAdapter
  local_adapter = record {
    Store = FileSystem;
    save_artifact = save_artifact;
    get_artifact = get_artifact;
    delete_artifact = delete_artifact;
    artifact_exists = artifact_exists;
    save_artifact_stream = save_artifact_stream;
    get_artifact_stream = get_artifact_stream;
  }
