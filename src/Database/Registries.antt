-- ===== src/Database/Registries.antt =====
-- The registries of database.go. A text that may be NULL in the table (a host, an upstream's user or
-- secret) is "" here, as COALESCE and NULLIF have it. Where ORDER BY priority leaves a choice, the
-- earlier row comes first.
pub mod Default
pub mod Listing
use cargobay.Prelude.{
  String, Bool, true, false, not, ◌&&◌, ◌||◌, Option, none, some, List, [], ◌∷◌, Error, message,
  Result, ok, err, any, keep, map, leb, ◌==◌, if◌then◌else◌,
}
use Prim.Native.String
use mathlib.Core.Option
use cargobay.Database.Models.{RegistryConfig}
use cargobay.Database.Tables.{Db, query, exec, failing, find_where, upsert, delete_where}

-- the columns that GetRegistry and its kin select; the flag is derived from the secret
unfoldable pub scan_registry : RegistryConfig → RegistryConfig
scan_registry r = record r { has_upstream_secret = not (r.upstream_secret == "") }

-- the columns that listRegistries selects: the flag, and not the secret
unfoldable pub scan_listed : RegistryConfig → RegistryConfig
scan_listed r = record r {
  upstream_secret = "";
  has_upstream_secret = not (r.upstream_secret == "");
}

-- ORDER BY priority ASC
unfoldable pub insert_by_priority : RegistryConfig → List RegistryConfig → List RegistryConfig
insert_by_priority r [] = r ∷ []
insert_by_priority r (x ∷ xs) =
    let later = x ∷ insert_by_priority r xs in
    if leb r.priority x.priority then r ∷ x ∷ xs else later

unfoldable pub sort_by_priority : List RegistryConfig → List RegistryConfig
unfolding insert_by_priority
sort_by_priority [] = []
sort_by_priority (r ∷ rs) = insert_by_priority r (sort_by_priority rs)

unfoldable pub list_where : (RegistryConfig → Bool) → Db → Result (List RegistryConfig)
unfolding query scan_listed sort_by_priority
list_where test db =
    query "failed to list registries" db
      (map scan_listed (sort_by_priority (keep test db.registries)))

unfoldable pub list_registries : Db → Result (List RegistryConfig)
unfolding list_where
list_registries db = list_where (λ r. r.enabled) db

unfoldable pub list_all_registries : Db → Result (List RegistryConfig)
unfolding list_where
list_all_registries db = list_where (λ r. true) db

unfoldable pub get_registry : Db → String → Result (Option RegistryConfig)
unfolding query scan_registry
get_registry db id =
    query "failed to get registry" db
      (Option.map scan_registry (find_where (λ r. r.id == id) db.registries))

abbrev pub is_bound : String → RegistryConfig → Bool
is_bound host r = r.host == host && r.enabled

unfoldable pub get_registry_by_host : Db → String → Result (Option RegistryConfig)
unfolding query scan_registry
get_registry_by_host db host =
    if host == ""
    then ok none
    else query "failed to get registry by host" db
        (Option.map scan_registry (find_where (is_bound host) db.registries))

-- "<artifactType>-virtual"
unfoldable pub virtual_type_for : String → String
virtual_type_for member_type = String.◌++◌ member_type "-virtual"

-- the WHERE clause of GetDefaultRegistry
abbrev pub is_default : String → RegistryConfig → Bool
is_default artifact_type r =
    (r.type == artifact_type || r.type == virtual_type_for artifact_type)
    && r.enabled
    && not r.private
    && (r.proxy || r.type == virtual_type_for artifact_type)

-- the earlier row, unless the later one has a smaller number
unfoldable pub sooner : RegistryConfig → Option RegistryConfig → RegistryConfig
sooner r none = r
sooner r (some b) = if leb r.priority b.priority then r else b

-- ORDER BY priority ASC LIMIT 1, over the rows that match
unfoldable pub first_by_priority :
    (RegistryConfig → Bool) → List RegistryConfig → Option RegistryConfig
unfolding sooner
first_by_priority test [] = none
first_by_priority test (r ∷ rs) =
    let best = first_by_priority test rs in if test r then some (sooner r best) else best

unfoldable pub get_default_registry : Db → String → Result (Option RegistryConfig)
unfolding query scan_registry first_by_priority
get_default_registry db artifact_type =
    query "failed to get default registry" db
      (Option.map scan_registry (first_by_priority (is_default artifact_type) db.registries))

-- `if config.UpstreamAuthType == "" { config.UpstreamAuthType = "none" }`
abbrev pub with_auth_type : RegistryConfig → RegistryConfig
with_auth_type config = record config {
  upstream_auth_type =
      if config.upstream_auth_type == "" then "none" else config.upstream_auth_type;
}

-- DO UPDATE SET: every column, but the secret only where a new one is given
abbrev pub overwrite : RegistryConfig → RegistryConfig → RegistryConfig
overwrite config old = record config {
  upstream_secret =
      if config.upstream_secret == "" then old.upstream_secret else config.upstream_secret;
}

-- idx_registries_host: another registry has the host
abbrev pub host_taken : RegistryConfig → List RegistryConfig → Bool
host_taken config registries =
    not (config.host == "")
    && any (λ r. not (r.id == config.id) && r.host == config.host) registries

unfoldable pub save_statement : RegistryConfig → Db → Result Db
save_statement config d =
    if host_taken config d.registries
    then err (message "duplicate key value violates unique constraint")
    else ok (record d {
      registries = upsert (λ r. r.id == config.id) (overwrite config) config d.registries;
    })

unfoldable pub save_registry : RegistryConfig → Db → Db × Option Error
unfolding failing save_statement
save_registry config db =
    failing "failed to save registry" (exec (save_statement (with_auth_type config)) db)

-- ON DELETE CASCADE takes the grants on the registry with it
unfoldable pub delete_registry : String → Db → Db × Option Error
unfolding failing
delete_registry id db = failing "failed to delete registry" (
    exec
      (λ d. ok (record d {
        registries = delete_where (λ r. r.id == id) d.registries;
        registry_access = delete_where (λ a. a.registry_id == id) d.registry_access;
        registry_group_access = delete_where (λ a. a.registry_id == id) d.registry_group_access;
      }))
      db)
