-- ===== src/Database/Artifacts.antt =====
-- The artifacts of database.go. `arrange` stands for what PostgreSQL does for the text of ORDER BY,
-- which is put together from a column and a direction.
pub mod Saved
pub mod Listing
use mathlib.Core.Option
use cargobay.Prelude.{
  ℕ, String, Bool, true, false, not, ◌&&◌, ◌||◌, ◌+◌, Option, none, some, List, [], ◌∷◌, ◌++◌,
  Error, message, Result, ok, err, any, keep, eqb, contains, length, take, drop, ◌==◌,
  if◌then◌else◌,
}
use cargobay.Database.Models.{ArtifactMetadata}
use cargobay.Database.Tables.{
  Db, query, exec, failing, find_where, update_where, delete_where, transaction,
}

-- registry_id, namespace, artifact_name and version: the unique key of the table
unfoldable pub is_version : String → String → String → String → ArtifactMetadata → Bool
is_version registry_id namespace artifact_name version a =
    a.registry_id == registry_id
    && a.namespace == namespace
    && a.artifact_name == artifact_name
    && a.version == version

unfoldable pub same_version : ArtifactMetadata → ArtifactMetadata → Bool
unfolding is_version
same_version m a = is_version m.registry_id m.namespace m.artifact_name m.version a

unfoldable pub get_artifact_by_params :
    Db → String → String → String → String → Result (Option ArtifactMetadata)
unfolding query is_version
get_artifact_by_params db registry_id namespace artifact_name version =
    query "failed to get artifact" db
      (find_where (is_version registry_id namespace artifact_name version) db.artifacts)

pub record ListOptions : Type 0 where
  pub namespace : String
  pub artifact_type : String
  pub limit : ℕ
  pub offset : ℕ
  pub order_by : String
  pub order : String

-- options that ask for a type and a namespace only
abbrev pub of_type : String → String → ListOptions
of_type artifact_type namespace = record {
  namespace = namespace;
  artifact_type = artifact_type;
  limit = 0;
  offset = 0;
  order_by = "";
  order = "";
}

-- `if s != "" { AND column = s }`
unfoldable pub asked : String → String → Bool
asked option column = if option == "" then true else column == option

-- the WHERE clause of ListArtifacts and its kin, for the registries that pass
unfoldable pub listed : (String → Bool) → ListOptions → ArtifactMetadata → Bool
unfolding asked
listed in_registry opts a =
    in_registry a.registry_id
    && asked opts.namespace a.namespace
    && asked opts.artifact_type a.artifact_type

unfoldable pub default_text : String → String → String
default_text fallback s = if s == "" then fallback else s

-- `if opts.Limit <= 0 { opts.Limit = 100 }`
unfoldable pub default_limit : ℕ → ℕ → ℕ
default_limit fallback limit = if eqb limit 0 then fallback else limit

module _ (arrange : String → String → List ArtifactMetadata → List ArtifactMetadata) where
  unfoldable pub list_page : (String → Bool) → ListOptions → Db → Result (List ArtifactMetadata)
  unfolding query listed default_text default_limit
  list_page in_registry opts db = query "failed to list artifacts" db (
      take (default_limit 100 opts.limit) (
        drop opts.offset (
          arrange (default_text "created" opts.order_by) (default_text "desc" opts.order)
            (keep (listed in_registry opts) db.artifacts))))

  unfoldable pub list_artifacts : Db → String → ListOptions → Result (List ArtifactMetadata)
  unfolding list_page
  list_artifacts db registry_id opts = list_page (λ id. id == registry_id) opts db

  unfoldable pub list_artifacts_multi :
      Db → List String → ListOptions → Result (List ArtifactMetadata)
  unfolding list_page
  list_artifacts_multi db [] opts = ok []
  list_artifacts_multi db (id ∷ ids) opts = list_page (contains (id ∷ ids)) opts db

  -- `WHERE digest = ... ORDER BY created DESC`, of which the first row is read
  unfoldable pub get_artifact_by_digest : Db → String → String → Result (Option ArtifactMetadata)
  unfolding query
  get_artifact_by_digest db registry_id digest = query "failed to get artifact by digest" db (
      find_where (λ _. true)
        (arrange "created" "desc"
          (keep (λ a. a.registry_id == registry_id && a.digest == digest) db.artifacts)))

  unfoldable pub top_artifacts_by_downloads : Db → ℕ → Result (List ArtifactMetadata)
  unfolding query default_limit
  top_artifacts_by_downloads db limit = query "failed to list top artifacts" db (
      take (default_limit 10 limit)
        (arrange "downloads" "desc" (keep (λ a. not (eqb a.downloads 0)) db.artifacts)))

unfoldable pub count_artifacts_multi : Db → List String → ListOptions → Result ℕ
unfolding query listed
count_artifacts_multi db [] opts = ok 0
count_artifacts_multi db (id ∷ ids) opts =
    query "failed to count artifacts" db
      (length (keep (listed (contains (id ∷ ids)) opts) db.artifacts))

-- the SET clause of SaveArtifact
unfoldable pub saved_over : ArtifactMetadata → ArtifactMetadata → ArtifactMetadata
saved_over m a = record a {
  digest = m.digest;
  digest_algorithm = m.digest_algorithm;
  size = m.size;
  total_size = m.total_size;
  updated = m.updated;
  metadata = m.metadata;
  tags = m.tags;
  signatures = m.signatures;
}

-- a new row: the columns that the statement leaves out have their defaults
abbrev pub inserted : ArtifactMetadata → ArtifactMetadata
inserted m = record m { downloads = 0; bandwidth_saved = 0 }

unfoldable pub save_artifact_statement : ArtifactMetadata → Db → Result Db
unfolding same_version saved_over update_where
save_artifact_statement m d =
    if any (same_version m) d.artifacts
    then ok (record d { artifacts = update_where (same_version m) (saved_over m) d.artifacts })
    else if any (λ a. a.id == m.id) d.artifacts
    then err (message "duplicate key value violates unique constraint")
    else ok (record d { artifacts = d.artifacts ++ inserted m ∷ [] })

-- the error of the first attempt is returned
unfoldable pub retried : Error → Db × Option Error → Db × Option Error
retried e (db, none) = (db, none)
retried e (db, some e') = (db, some (Error.wrap "failed to save artifact" e))

-- The statement, and where it fails the statement for a schema without the search vector.
unfoldable pub save_or_retry : Db × Option Error → ArtifactMetadata → Db × Option Error
unfolding save_artifact_statement retried
save_or_retry (db, none) m = (db, none)
save_or_retry (db, some e) m = retried e (exec (save_artifact_statement m) db)

unfoldable pub save_artifact : String → ArtifactMetadata → Db → Db × Option Error
unfolding save_or_retry save_artifact_statement
save_artifact uuid metadata db =
    let m = record metadata {
      id = if metadata.id == "" then uuid else metadata.id;
      updated = db.now;
    } in
    save_or_retry (exec (save_artifact_statement m) db) m

unfoldable pub delete_artifact : String → String → String → String → Db → Db × Result Bool
unfolding is_version
delete_artifact registry_id namespace artifact_name version db =
    let test = is_version registry_id namespace artifact_name version in
    let (db', error) = exec (λ d. ok (record d { artifacts = delete_where test d.artifacts })) db in
    elim error [
      | none ↦ (db', ok (any test db.artifacts))
      | some e ↦ (db', err (Error.wrap "failed to delete artifact" e))
    ]

unfoldable pub update_artifact_tags :
    String → String → String → String → List String → Db → Db × Option Error
unfolding failing is_version update_where
update_artifact_tags registry_id namespace artifact_name version tags db =
    failing "failed to update artifact tags" (
      exec
        (λ d. ok (record d {
          artifacts =
              update_where (is_version registry_id namespace artifact_name version)
                (λ a. record a { tags = tags; updated = d.now }) d.artifacts;
        }))
        db)
