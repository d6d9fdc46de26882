-- ===== src/Proxy/Docker/Upstream.antt =====
-- What docker.go asks of an upstream registry. `Outside` holds what stands for code that is not in
-- the repository: the HTTP client, net and net/url, encoding/json, SHA-256 and PostgreSQL's ORDER BY.
use Prim.Native.String.{◌++◌}
use cargobay.Prelude.{
  ℕ, String, Bool, not, ◌||◌, Option, none, some, List, [], ◌∷◌, Error, message, Result, ok, err,
  ◌>>=◌, wrapping, eqb, ◌==◌, if◌then◌else◌,
}
use cargobay.Prelude.Text.{cut, cut_prefix, trim_suffix}
use cargobay.Prelude.Parts.{split, trim_space, trim_left, trim_right}
use cargobay.Prelude.GoMap.{GoMap}
use cargobay.Http.{status_ok, status_unauthorized}
use cargobay.Storage.{Reader}
use cargobay.Database.Models.{ArtifactMetadata, RegistryConfig}
use cargobay.Proxy.Target.{Credentials, bearer, upstream_auth}
use cargobay.Proxy.Docker.Paths.{normalize_repository}
use Prim.Native.Char.{code}

pub record HttpResponse : Type 0 where
  pub status : ℕ
  pub header : String → String
  pub body : Reader

-- digest, size, operating system and architecture
abbrev pub Child : Type 0
Child = String × ℕ × String × String

pub record Outside : Type 0 where
  pub split_host : String → Option String
  pub url_host : String → String
  -- method, URL, headers and credentials; the body is empty
  pub send : String → String → GoMap String → Credentials → Result HttpResponse
  pub query_escape : String → String
  -- the token and the access token of a JSON document
  pub decode_token : Reader → Result (String × String)
  -- the entries of a manifest list, where the text is JSON
  pub decode_list : String → Option (List Child)
  -- the size of the configuration and those of the layers
  pub decode_sizes : String → Option (ℕ × List ℕ)
  -- whether json.Unmarshal makes a map of it
  pub is_object : String → Bool
  -- the JSON document for the tags of a repository
  pub encode_tags : String → List String → String
  -- what a text of bytes is after json.Marshal and json.Unmarshal: U+FFFD stands for each byte that
  -- is not part of UTF-8
  pub json_text : String → String
  pub sha256_hex : String → String
  pub arrange : String → String → List ArtifactMetadata → List ArtifactMetadata

-- io.ReadAll
unfoldable pub read_all : Reader → Result String
read_all reader = elim reader.failure [ none ↦ ok reader.payload | some e ↦ err e ]

unfoldable pub upstream_base : Option RegistryConfig → Result String
upstream_base none = err (message "no upstream proxy configured for this registry")
upstream_base (some reg) =
    if not reg.proxy || reg.url == ""
    then err (message "no upstream proxy configured for this registry")
    else ok (trim_suffix "/" reg.url)

pub record DockerAuthChallenge : Type 0 where
  pub realm : String
  pub service : String
  pub scope : String

-- one `key="value"` of the header
unfoldable pub with_parameter : Option (String × String) → DockerAuthChallenge → DockerAuthChallenge
with_parameter none challenge = challenge
with_parameter (some (key, quoted)) challenge =
    let value = trim_right (λ c. eqb (code c) 34) (trim_left (λ c. eqb (code c) 34) quoted) in
    if key == "realm"
    then record challenge { realm = value }
    else if key == "service"
    then record challenge { service = value }
    else if key == "scope"
    then record challenge { scope = value }
    else challenge

unfoldable pub with_parameters : List String → DockerAuthChallenge → DockerAuthChallenge
unfolding with_parameter
with_parameters [] challenge = challenge
with_parameters (kv ∷ rest) challenge =
    with_parameters rest (with_parameter (cut "=" (trim_space kv)) challenge)

unfoldable pub parse_www_authenticate : String → Option DockerAuthChallenge
unfolding with_parameters
parse_www_authenticate header = elim (cut_prefix "Bearer " header) [
  | none ↦ none
  | some parameters ↦
      some
        (with_parameters (split "," parameters) (record { realm = ""; service = ""; scope = "" }))
]

-- the first of two texts that is not empty
unfoldable pub token_of : String × String → Result String
token_of (token, access_token) =
    if not (token == "")
    then ok token
    else if not (access_token == "")
    then ok access_token
    else err (message "upstream auth response contained no token")

-- `challenge == nil || challenge.realm == ""`
unfoldable pub usable : Option DockerAuthChallenge → Result DockerAuthChallenge
usable none = err (message "upstream returned 401 without a usable auth challenge")
usable (some challenge) =
    if challenge.realm == ""
    then err (message "upstream returned 401 without a usable auth challenge")
    else ok challenge

-- `if resp.StatusCode != http.StatusOK { return fmt.Errorf("upstream returned %d", ...) }`
unfoldable pub checked : HttpResponse → Result HttpResponse
checked resp =
    if not (eqb resp.status status_ok) then err (Error.upstream "upstream" resp.status) else ok resp

module _ (out : Outside) where
  -- doGet: a token in place of the stored credentials
  unfoldable pub do_get :
      Option RegistryConfig → String → String → GoMap String → String → Result HttpResponse
  do_get reg method url headers token =
      out.send method url headers (if not (token == "") then bearer token else upstream_auth reg)

  unfoldable pub fetch_token : Option RegistryConfig → DockerAuthChallenge → Result String
  unfolding token_of
  fetch_token reg challenge =
      let url =
        challenge.realm
        ++ ("?service="
            ++ (out.query_escape challenge.service
                ++ ("&scope=" ++ out.query_escape challenge.scope))) in
      wrapping "failed to fetch upstream auth token" (out.send "GET" url [] (upstream_auth reg))
      >>= (λ resp.
          wrapping "failed to decode upstream auth token" (out.decode_token resp.body) >>= token_of)

  unfoldable pub answer_challenge :
      Option RegistryConfig → String → String → GoMap String → HttpResponse → Result HttpResponse
  unfolding do_get fetch_token parse_www_authenticate usable
  answer_challenge reg method url headers resp =
      if not (eqb resp.status status_unauthorized)
      then ok resp
      else usable (parse_www_authenticate (resp.header "WWW-Authenticate"))
        >>= (λ challenge. fetch_token reg challenge >>= do_get reg method url headers)

  unfoldable pub upstream_request :
      Option RegistryConfig → String → String → GoMap String → Result HttpResponse
  unfolding do_get answer_challenge
  upstream_request reg method url headers =
      do_get reg method url headers "" >>= answer_challenge reg method url headers

  abbrev pub accept_manifests : GoMap String
  accept_manifests =
      (
        "Accept",
        "application/vnd.docker.distribution.manifest.v2+json, application/vnd.docker.distribution.manifest.list.v2+json, application/vnd.oci.image.manifest.v1+json, application/vnd.oci.image.index.v1+json",
      )
      ∷ []

  -- "%s/v2/%s/<kind>/%s"
  unfoldable pub upstream_url : String → String → String → String → String
  unfolding normalize_repository
  upstream_url base repository kind reference =
      base ++ ("/v2/" ++ (normalize_repository repository ++ (kind ++ reference)))

  unfoldable pub fetch_manifest_from_upstream :
      Option RegistryConfig → String → String → Result (String × String)
  unfolding upstream_base upstream_url upstream_request checked read_all
  fetch_manifest_from_upstream reg repository reference = upstream_base reg >>= (λ base.
      upstream_request reg "GET" (upstream_url base repository "/manifests/" reference)
        accept_manifests
      >>= checked
      >>= (λ resp. read_all resp.body >>= (λ body. ok (body, resp.header "Content-Type"))))

  unfoldable pub digest_of : HttpResponse → Result String
  digest_of resp =
      let digest = resp.header "Docker-Content-Digest" in
      if digest == ""
      then err (message "upstream HEAD response had no Docker-Content-Digest header")
      else ok digest

  unfoldable pub fetch_upstream_digest : Option RegistryConfig → String → String → Result String
  unfolding upstream_base upstream_url upstream_request checked digest_of
  fetch_upstream_digest reg repository reference = upstream_base reg >>= (λ base.
      upstream_request reg "HEAD" (upstream_url base repository "/manifests/" reference)
        accept_manifests
      >>= checked
      >>= digest_of)

  -- the body of a blob, which streamBlobFromUpstream copies into the storage
  unfoldable pub fetch_blob : Option RegistryConfig → String → String → Result Reader
  unfolding upstream_base upstream_url upstream_request checked
  fetch_blob reg repository digest = upstream_base reg >>= (λ base.
      upstream_request reg "GET" (upstream_url base repository "/blobs/" digest) []
      >>= checked
      >>= (λ resp. ok resp.body))
