-- ===== src/Lib.antt =====
-- A model of the core of cargobay, a registry of artifacts for many package managers: access control,
-- the tables of the database that it reads, the attribution of requests to users, the registry that a
-- request is served from, and the proxy of Docker with the storage and the cache that it stands on.
-- Paths are from the root of the repository.
--
-- How a request is handled, and which file models it:
-- * The middleware finds the user of the request by his credentials: Middleware/Authentication
--   (backend/pkg/middleware/auth.go), with the keys and users of Database/Keys and Database/Users
--   (backend/pkg/database/database.go) and the checks of secrets in Auth (backend/pkg/auth/auth.go).
--   `authenticate` is the function that NewAuthMiddleware returns: a database and a request with its
--   headers give the database after it and the user that is attached to the request, if any.
-- * Middleware/Limits models the rate limiter and the login throttle (ratelimit.go, security.go): a
--   step for each request, or for each call of Allow and RecordFailure, with the time as an argument.
-- * Proxy/Target (backend/pkg/proxy/access.go) finds the registry that the request addresses and checks
--   the access to it; Proxy/Virtual (virtual.go) finds the members of a virtual registry that may serve
--   the request, and tries them.
-- * Rbac (backend/pkg/rbac/rbac.go) decides. Rbac/Static has the built-in tables, Rbac/Access the
--   decisions, Rbac/Roles the operations on roles. It asks for the interface DatabaseApi of
--   Database/Api, as a parameter; Database/Access fills the interface by the tables.
-- * Proxy/Docker (backend/pkg/proxy/docker/docker.go) serves the request, where it is one of Docker's.
--   Docker/Serve has the routes behind the access check; Docker/Token the ping and the tokens; Docker/
--   Pulls the handlers that answer with a manifest or a list, Docker/Pushes those that store and delete
--   one; Docker/Blobs the blobs and the sessions in which they are uploaded. Below them stand
--   Docker/Upstream (what is asked of the upstream registry, with its challenges), Docker/Manifests
--   (what is cached and saved), Docker/Paths (paths, repositories and scopes) and Docker/Requests (the
--   request and the state: the database, the storage and the server of the cache).
-- * Storage has the interface StorageAdapter (backend/pkg/storage/local.go) as a record of operations,
--   and StorageLaws, what a caller may rely on; Storage/Local is the adapter over files, which keeps
--   these laws. Cache (backend/pkg/cache/redis.go) has the cache and its statistics.
-- * Database/Tables is the state of the tables and how a statement and a transaction run;
--   Database/Roles, Grants, Groups, Registries, Keys, Users, Artifacts and Counters are the methods of
--   Database, under their names.
--
-- Apart from requests, Migrate models the migrations of the database (backend/pkg/migrate/migrate.go),
-- which run at the start, over a database that is a parameter, Backup the backups
-- (backend/pkg/backup/backup.go), with Backup/Runs for making and restoring them, and Database/Dump the
-- statements that a backup consists of, with the literals of SQL in them (database.go).
-- Vulnerability/Rescanner models the sweeps that scan cached images for vulnerabilities
-- (backend/pkg/vulnerability/rescanner.go).
--
-- How the code is modelled:
-- * A method on a pointer takes the state and returns the state after it. An error is a value: Result
--   for a value or an error, Option for an error alone. Logging, headers that repeat the state, and the
--   texts of answers are left out where no caller reads them.
-- * A query of the database may fail, as `read_fault` in the state has it, and a statement that writes
--   may fail, as the list `outcomes` has it; nothing is assumed of either, so each theorem covers the
--   paths on which the database fails, unless it says otherwise. PostgreSQL runs a statement as a whole
--   or not at all, and a transaction as well. Primary keys and unique indexes are checked by the model;
--   a foreign key that is violated is one of the failures in `outcomes`. The files of the local storage
--   fail in the same way; a write that fails leaves in its file what its outcome says.
-- * RBAC holds a lock over each change of its caches and LoginThrottle and RateLimiter over each step,
--   so that a concurrent run is a sequence of steps.
-- * Texts are native strings. Payloads of the storage are texts in which each character is a byte. A
--   time is a number of nanoseconds. Counts, limits, sizes, windows and the priorities of registries are
--   natural numbers; negative ones are not modelled, and neither is an overflow.
-- * What an upstream registry answers is a function of the request.
-- * Every loop is over a list or a text and is recursion on it, except the loop that decodes a backup:
--   it takes fuel, one more than the bytes that are left, of which each round takes eight or more.
--
-- Parameters, for code that is not in the repository: `compare_hash` (bcrypt), `sha256_hex`,
-- `decode_base64`, `split_host` (net.SplitHostPort), `url_host` (url.Parse), `send` (the HTTP client),
-- `run_sql` (the execution of SQL), `gzip` and `gunzip`, `max_slice` (the longest slice that the run
-- time makes), the record Outside of Docker/Upstream (the HTTP client, encoding/json and the rest of
-- what docker.go calls), RedisClient in Cache, `marshal` and `unmarshal`, `hex`, `join` (filepath.Join),
-- `sort_due` (sort.Slice), `new_storage` (storage.New), the formats of numbers and times in a dump,
-- and `arrange` (PostgreSQL's ORDER BY). Nothing is assumed of them but what a theorem states among its
-- hypotheses, and that gunzip undoes gzip. What the program draws at random is an argument of the
-- operation that draws it.
--
-- Not modelled: the protocols of the other package managers and the documents that they exchange, the
-- adapters of storage in the cloud, search, the tables of settings, the list of stored backups,
-- replication, the scanner for vulnerabilities and its updates, the prefetching of manifests, the JSON
-- handlers of the API, commands and configuration.
pub mod Prelude
pub mod Http
pub mod Database
pub mod Auth
pub mod Middleware
pub mod Rbac
pub mod Proxy
pub mod Migrate
pub mod Backup
pub mod Storage
pub mod Cache
pub mod Vulnerability
mod Tests
