-- ===== src/Proxy/Docker/Manifests.antt =====
-- The manifests of docker.go: looked up in the table of artifacts, pulled through from upstream,
-- pushed, deleted and listed. Scans for vulnerabilities run beside the handlers and are left out,
-- and so are log lines.
use Prim.Native.Char.{code}
use Prim.Native.String
use Prim.Native.String.{count}
use cargobay.Prelude.{
  ℕ, String, Bool, true, false, not, ◌&&◌, ◌||◌, ◌+◌, Option, none, some, List, [], ◌∷◌, ok, err,
  eqb, ◌==◌, if◌then◌else◌,
}
use cargobay.Prelude.GoMap
use cargobay.Prelude.GoMap.{GoMap}
use cargobay.Http.{status_ok}
use cargobay.Storage.{Key}
use cargobay.Database.Models.{ArtifactMetadata, MetadataValue, text, children, RegistryConfig}
use cargobay.Database.Tables.{Db}
use cargobay.Proxy.Docker.Paths.{is_digest_reference, split_docker_repository}
use cargobay.Proxy.Docker.Upstream.{
  Outside, Child, fetch_manifest_from_upstream, fetch_upstream_digest,
}
use cargobay.Proxy.Docker.Requests.{Reply, DockerTarget}

-- strings.ReplaceAll(s, "/", "_")
unfoldable pub underscored : String → String
underscored String.[] = ""
underscored (String.◌∷◌ c s) = String.◌∷◌ (if eqb (code c) 47 then "_" else c) (underscored s)

-- "docker:%s:%s:%s"
unfoldable pub artifact_id : String → String → String → String
unfolding underscored
artifact_id label repository reference = String.◌++◌ "docker:" (
    String.◌++◌ label
      (String.◌++◌ ":" (String.◌++◌ (underscored repository) (String.◌++◌ ":" reference))))

-- `a.ArtifactName == name && (a.Version == reference || a.Digest == reference)`
unfoldable pub matches : String → String → ArtifactMetadata → Bool
matches name reference a =
    a.artifact_name == name && (a.version == reference || a.digest == reference)

abbrev pub default_content_type : String
default_content_type = "application/vnd.docker.distribution.manifest.v2+json"

-- `ct, ok := metadata["contentType"].(string); ok && ct != ""`
unfoldable pub content_type_of : GoMap MetadataValue → String
content_type_of metadata = elim (GoMap.get "contentType" metadata) [
  | some (text ct) ↦ if ct == "" then default_content_type else ct
  | _ ↦ default_content_type
]

-- the switch over the type of metadata["manifest"]; a column of JSON holds no []byte
unfoldable pub manifest_of : GoMap MetadataValue → Option String
manifest_of metadata = elim (GoMap.get "manifest" metadata) [
  | some (text body) ↦ some body
  | _ ↦ none
]

unfoldable pub sum : List ℕ → ℕ
sum [] = 0
sum (n ∷ ns) = n + sum ns

-- "sha256:%x"
abbrev pub sha256_digest : Outside → String → String
sha256_digest out body = String.◌++◌ "sha256:" (out.sha256_hex body)

-- what a manifest is answered with: its type, its digest, and the body
abbrev pub Answer : Type 0
Answer = String → String → String → Reply

unfoldable pub get_reply : Answer
get_reply content_type digest body = record {
  status = status_ok;
  headers = ("Content-Type", content_type) ∷ ("Docker-Content-Digest", digest) ∷ [];
  body = body;
}

unfoldable pub head_reply : Answer
head_reply content_type digest body = record {
  status = status_ok;
  headers = ("Content-Type", content_type) ∷ ("Docker-Content-Digest", digest) ∷ [];
  body = "";
}

module _ (out : Outside) where
  unfoldable pub child_manifests_from_list : String → Option (List Child)
  child_manifests_from_list body = elim (out.decode_list body) [
    | some (c ∷ cs) ↦ some (c ∷ cs)
    | _ ↦ none
  ]

  unfoldable pub manifest_content_size : String → ℕ
  unfolding sum
  manifest_content_size body = elim (out.decode_sizes body) [
    | none ↦ 0
    | some (config, layers) ↦ config + sum layers
  ]

  unfoldable pub stale_cached_tag : DockerTarget → String → String → String → Bool
  unfolding is_digest_reference fetch_upstream_digest
  stale_cached_tag t repository reference cached_digest =
      if is_digest_reference reference || elim t.reg [ none ↦ true | some reg ↦ not reg.proxy ]
      then false
      else elim (fetch_upstream_digest out t.reg repository reference) [
        | err e ↦ false
        | ok upstream_digest ↦ not (upstream_digest == cached_digest)
      ]

  -- One round of the loop over the children: the size of what the child names, where it is fetched.
  unfoldable pub platform_size : Option RegistryConfig → String → String → Option ℕ
  unfolding fetch_manifest_from_upstream manifest_content_size
  platform_size reg repository digest =
      if digest == "" then none else elim (fetch_manifest_from_upstream out reg repository digest) [
        | err e ↦ none
        | ok (body, content_type) ↦ some (count body + manifest_content_size body)
      ]

  -- the children with their sizes corrected, and the sum of those that were
  unfoldable pub measured : Option RegistryConfig → String → List Child → List Child × ℕ
  unfolding platform_size
  measured reg repository [] = ([], 0)
  measured reg repository ((digest, size, os, arch) ∷ rest) =
      let (others, total) = measured reg repository rest in
      elim (platform_size reg repository digest) [
        | none ↦ ((digest, size, os, arch) ∷ others, total)
        | some n ↦ ((digest, n, os, arch) ∷ others, n + total)
      ]

  -- the entries that childManifests adds to the metadata, and what is added to the total size
  unfoldable pub contents : Option RegistryConfig → String → String → GoMap MetadataValue × ℕ
  unfolding child_manifests_from_list measured manifest_content_size
  contents reg repository body = elim (child_manifests_from_list body) [
    | none ↦ ([], manifest_content_size body)
    | some cs ↦
        let (corrected, total) = measured reg repository cs in
        (("childManifests", children corrected) ∷ [], total)
  ]

  -- the row for a manifest
  unfoldable pub manifest_row :
      Db → String → String → String → String → GoMap MetadataValue → ℕ → ArtifactMetadata
  unfolding split_docker_repository artifact_id
  manifest_row db label repository reference body metadata total =
      let (namespace, name) = split_docker_repository repository in
      record {
        id = artifact_id label repository reference;
        registry_id = label;
        artifact_type = "docker";
        namespace = namespace;
        artifact_name = name;
        version = reference;
        digest = sha256_digest out body;
        digest_algorithm = "sha256";
        size = count body;
        total_size = count body + total;
        created = db.now;
        updated = db.now;
        metadata = metadata;
        tags = reference ∷ [];
        signatures = [];
        downloads = 0;
        bandwidth_saved = 0;
      }

  -- where a manifest is stored
  unfoldable pub manifest_key : String → String → String → Key
  unfolding split_docker_repository
  manifest_key label repository reference =
      let (namespace, name) = split_docker_repository repository in
      record {
        registry_id = label;
        namespace = namespace;
        artifact_name = name;
        version = reference;
      }
