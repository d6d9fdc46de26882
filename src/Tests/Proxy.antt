-- ===== src/Tests/Proxy.antt =====
-- Requests to a small set of registries.
use mathlib.Core.Option
use cargobay.Prelude.{
  ◌≡◌, ◌⊎◌, ◌↔◌, String, ◌==◌, if◌then◌else◌, refl, true, false, Option, none, some, [], ◌∷◌, Memᴰ,
  message, Result, ok, err,
}
use cargobay.Database.Models.{RegistryConfig}
use cargobay.Database.Tables.{Db, query, find_where}
use cargobay.Database.Registries.{
  scan_registry, scan_listed, insert_by_priority, sort_by_priority, list_where, list_registries,
  get_registry_by_host, virtual_type_for, sooner, is_default, first_by_priority,
  get_default_registry,
}
use cargobay.Database.Registries.Default.{IsFirst, get_default_registry-IsFirst}
use cargobay.Rbac.Types.{Rbac}
use cargobay.Rbac.Static.{new, static_roles}
use cargobay.Rbac.Access.{
  can_read_registry, can_read_private, has_effective_permission, has_permission,
  has_permission_in_role, is_read_permission, allows,
}
use cargobay.Prelude.GoMap
use cargobay.Database.Roles.{get_user_roles, seconds}
use cargobay.Database.Grants.{get_registry_access}
use cargobay.Proxy.Target.{
  Credentials, accepted, registry_type_matches, host_only, bound_registry, resolve_registry,
  first_match, match_registry_by_prefix, check_access, admitted, require_read_access, upstream_auth,
}
use cargobay.Proxy.Target.Resolution.{Reaches, resolve_registry-Reaches}
use cargobay.Proxy.Target.Gate.{
  WithoutSecret, IsAnswer, require_read_access-IsAnswer, match_by_prefix_sound,
}
use cargobay.Proxy.Virtual.{resolve_member_candidates, Response, fetch_first_upstream_stream}
use cargobay.Proxy.Virtual.Members.{Listed, resolve_member_candidates_iff}
use cargobay.Proxy.Virtual.Fetch.{IsOutcome, fetch_first_upstream_stream-IsOutcome}
use cargobay.Tests.Rbac.{office, tools, ann}

-- the private registry, bound to a host
abbrev vault : RegistryConfig
vault = record tools { host = "vault.example.com" }

-- a public one that proxies an upstream with a token
abbrev mirror : RegistryConfig
mirror = record tools {
  id = "mirror";
  url = "https://npm.example.com";
  proxy = true;
  private = false;
  upstream_auth_type = "bearer";
  upstream_secret = "s3cret";
}

abbrev group : RegistryConfig
group = record tools {
  id = "group";
  type = "npm-virtual";
  private = false;
  members = "mirror" ∷ "tools" ∷ [];
}

abbrev store : Rbac Db
store = new (record office { registries = vault ∷ mirror ∷ [] })

-- addresses without a port
abbrev no_port : String → Option String
no_port s = none

abbrev host_of : String → String
host_of url = "npm.example.com"

abbrev shown : RegistryConfig
shown = record vault { has_upstream_secret = false }

vault_found : resolve_registry no_port host_of store.db "vault.example.com" "npm" ≡ some shown
unfolding new resolve_registry bound_registry accepted registry_type_matches virtual_type_for
    host_only get_registry_by_host query find_where scan_registry
vault_found = refl

resolve_registry-Reaches_example : Reaches no_port host_of "vault.example.com" "npm" shown
resolve_registry-Reaches_example =
    resolve_registry-Reaches no_port host_of store.db "vault.example.com" "npm" vault_found

require_read_access-IsAnswer_example :
    IsAnswer no_port host_of store
      (some ann)
      "vault.example.com"
      "npm"
      (require_read_access no_port host_of store (some ann) "vault.example.com" "npm")
require_read_access-IsAnswer_example =
    require_read_access-IsAnswer no_port host_of store (some ann) "vault.example.com" "npm"

default_found :
    get_default_registry store.db "npm" ≡ ok (some (record mirror { has_upstream_secret = true }))
unfolding new get_default_registry query first_by_priority sooner virtual_type_for scan_registry
default_found = refl

vault_admitted :
    require_read_access no_port host_of store (some ann) "vault.example.com" "npm"
    ≡ admitted (record { reg = some shown; label = "tools" })
unfolding new require_read_access check_access can_read_registry can_read_private
    has_effective_permission has_permission has_permission_in_role is_read_permission allows
    get_user_roles seconds get_registry_access static_roles GoMap.get GoMap.put GoMap.delete
    resolve_registry bound_registry accepted registry_type_matches virtual_type_for host_only
    get_registry_by_host query find_where scan_registry
vault_admitted = refl

get_default_registry-IsFirst_example :
    (row : Option RegistryConfig) × (some (record mirror { has_upstream_secret = true })
      ≡ Option.map scan_registry row)
    × IsFirst (is_default "npm") store.db.registries row
get_default_registry-IsFirst_example =
    get_default_registry-IsFirst store.db "npm"
      (some (record mirror { has_upstream_secret = true })) default_found

mirror_listed :
    match_registry_by_prefix no_port host_of store.db "mirror" "npm" ≡ some (scan_listed mirror)
unfolding new match_registry_by_prefix list_registries list_where query sort_by_priority
    insert_by_priority scan_listed first_match
mirror_listed = refl

match_by_prefix_sound_example :
    ((scan_listed mirror).enabled ≡ true)
    × ((scan_listed mirror).type ≡ "npm")
    × (((scan_listed mirror).id ≡ "mirror")
        ⊎ (((scan_listed mirror).proxy ≡ true) × (host_of (scan_listed mirror).url ≡ "mirror")))
    × WithoutSecret (upstream_auth (some (scan_listed mirror)))
match_by_prefix_sound_example =
    match_by_prefix_sound no_port host_of store.db "mirror" "npm" (scan_listed mirror) mirror_listed

group_virtual : group.type ≡ virtual_type_for "npm"
unfolding virtual_type_for
group_virtual = refl

resolve_member_candidates_iff_example :
    Memᴰ mirror (resolve_member_candidates store (some ann) (some group) "npm")
    ↔ Listed store (some ann) "npm" group.members mirror
resolve_member_candidates_iff_example =
    resolve_member_candidates_iff store (some ann) "npm" group mirror group_virtual

abbrev url_of : RegistryConfig → Result String
url_of reg = ok reg.url

abbrev answer : String → Credentials → Result Response
answer url credentials =
    if url == "" then err (message "no host") else ok (record { status = 200; body = url })

fetch_first_upstream_stream-IsOutcome_example :
    let (result, closed) = fetch_first_upstream_stream url_of answer (vault ∷ mirror ∷ []) in
    IsOutcome url_of answer (vault ∷ mirror ∷ []) result closed
fetch_first_upstream_stream-IsOutcome_example =
    fetch_first_upstream_stream-IsOutcome url_of answer (vault ∷ mirror ∷ [])
