-- ===== src/Storage.antt =====
-- backend/pkg/storage: what an adapter does (the interface StorageAdapter of local.go, of which the
-- proxies call these operations), and the adapter over files. A payload is a text, of which each
-- character is a byte. A reader gives a payload, and then its end or an error.
pub mod Local
use cargobay.Prelude.{
  String, Bool, ◌≡◌, ◌⊎◌, true, false, Option, none, some, Error, Result, ok, err,
}

pub record Reader : Type 0 where
  pub payload : String
  pub failure : Option Error

-- registryID, namespace, artifactName, version
pub record Key : Type 0 where
  pub registry_id : String
  pub namespace : String
  pub artifact_name : String
  pub version : String

pub record StorageAdapter : Type 1 where
  pub Store : Type 0
  pub save_artifact : Key → String → Store → Store × Result String
  pub get_artifact : Key → Store → Result (Option String)
  pub delete_artifact : Key → Store → Store × Option Error
  pub artifact_exists : Key → Store → Result Bool
  pub save_artifact_stream : Key → Reader → Store → Store × Result String
  pub get_artifact_stream : Key → Store → Result (Option String)

-- an answer that is x, unless the adapter fails
abbrev pub IsOr {ℓ} : {A : Type ℓ} → A → Result A → Type ℓ
IsOr x (ok y) = y ≡ x
IsOr x (err e) = Unit

-- What the proxies rely on, for a key: what was saved under it is read back, whole, and what was
-- deleted is not there.
module _ (adapter : StorageAdapter) (k : Key) where
  open adapter use {
    Store, save_artifact, delete_artifact, artifact_exists, save_artifact_stream,
    get_artifact_stream,
  }

  pub record StorageLaws : Type 0 where
    pub saved :
        (payload : String) (s s' : Store) (ref : String)
        → save_artifact k payload s ≡ (s', ok ref)
        → IsOr (some payload) (get_artifact_stream k s')
    pub streamed :
        (reader : Reader) (s s' : Store) (ref : String)
        → save_artifact_stream k reader s ≡ (s', ok ref)
        → (reader.failure ≡ none) × IsOr (some reader.payload) (get_artifact_stream k s')
    pub deleted :
        (s s' : Store)
        → delete_artifact k s ≡ (s', none)
        → IsOr none (get_artifact_stream k s') × IsOr false (artifact_exists k s')
