-- ===== src/Tests/Storage.antt =====
-- The adapter over files, in a directory.
use Prim.Native.String
use cargobay.Prelude.{String, ◌≡◌, refl, true, List, [], ◌∷◌, none}
use cargobay.Prelude.Text.{cut_prefix}
use cargobay.Storage.{Key, StorageLaws}
use cargobay.Storage.Local.{FileSystem, is_below, get_artifact_path, file_path, local_adapter}
use cargobay.Storage.Local.Laws.{local-StorageLaws}

-- elements with a slash between them
abbrev pub slash_join : List String → String
slash_join [] = ""
slash_join (x ∷ []) = x
slash_join (x ∷ y ∷ rest) = String.◌++◌ x (String.◌++◌ "/" (slash_join (y ∷ rest)))

abbrev pub files : FileSystem
files = record { files = []; read_fault = λ path. none; outcomes = [] }

abbrev lib_key : Key
lib_key = record {
  registry_id = "npm";
  namespace = "";
  artifact_name = "left-pad";
  version = "1.0.0";
}

lib_below :
    is_below
      (get_artifact_path slash_join "storage" lib_key)
      (file_path slash_join "storage" lib_key)
    ≡ true
unfolding is_below get_artifact_path file_path cut_prefix
lib_below = refl

local-StorageLaws_example : StorageLaws (local_adapter slash_join "storage") lib_key
local-StorageLaws_example = local-StorageLaws slash_join "storage" lib_key lib_below
