-- ===== src/Cache.antt =====
-- backend/pkg/cache/redis.go: the cache and its statistics. The client of Redis is a parameter: an
-- operation of it may change the server, and answers or fails. `marshal` and `unmarshal` stand for
-- encoding/json. Times to live are numbers of nanoseconds.
pub mod Statistics
pub mod Kept
use cargobay.Prelude.{
  ℕ, String, Bool, true, false, ◌+◌, Option, none, some, List, [], ◌∷◌, Error, message, Result, ok,
  err, ltb, if◌then◌else◌,
}
use Prim.Native.String.{count}

pub record RedisClient : Type 1 where
  pub Server : Type 0
  -- nothing is redis.Nil
  pub get : String → Server → Server × Result (Option String)
  pub set : String → String → ℕ → Server → Server × Option Error
  pub del : String → Server → Server × Option Error
  pub exists : String → Server → Server × Result ℕ
  pub incr : String → Server → Server × Result ℕ
  pub expire : String → ℕ → Server → Server

pub record CacheStats : Type 0 where
  pub hits : ℕ
  pub misses : ℕ
  pub errors : ℕ
  pub entries : ℕ
  pub bytes_stored : ℕ

abbrev pub no_stats : CacheStats
no_stats = record { hits = 0; misses = 0; errors = 0; entries = 0; bytes_stored = 0 }

abbrev pub err_cache_miss : Error
err_cache_miss = message "cache: key not found"

unfoldable pub count_miss : CacheStats → CacheStats
count_miss st = record st { misses = st.misses + 1 }

unfoldable pub count_error : CacheStats → CacheStats
count_error st = record st { errors = st.errors + 1 }

unfoldable pub count_hit : String → CacheStats → CacheStats
count_hit payload st = record st {
  hits = st.hits + 1;
  bytes_stored = st.bytes_stored + count payload;
}

unfoldable pub count_entry : String → CacheStats → CacheStats
count_entry payload st = record st {
  bytes_stored = st.bytes_stored + count payload;
  entries = st.entries + 1;
}

module _ (redis : RedisClient) where
  pub record Cache : Type 0 where
    pub client : redis.Server
    pub ttl : ℕ
    pub artifact_ttl : ℕ
    pub registry_ttl : ℕ
    pub search_ttl : ℕ
    pub stats : CacheStats

  -- what Get does with the answer of the client
  unfoldable pub got {ℓ} :
      {A : Type ℓ}
      → (String → Result A)
      → Cache
      → redis.Server × Result (Option String)
      → Cache × Result A
  unfolding count_error count_hit
  got unmarshal c (server, ok none) = (record c { client = server }, err err_cache_miss)
  got unmarshal c (server, err e) =
      (record c { client = server; stats = count_error c.stats }, err e)
  got unmarshal c (server, ok (some payload)) =
      (record c { client = server; stats = count_hit payload c.stats }, unmarshal payload)

  unfoldable pub get {ℓ} : {A : Type ℓ} → (String → Result A) → String → Cache → Cache × Result A
  unfolding got count_miss
  get unmarshal key c =
      got unmarshal (record c { stats = count_miss c.stats }) (redis.get key c.client)

  -- what SetWithTTL does with the answer of the client
  unfoldable pub stored : String → Cache → redis.Server × Option Error → Cache × Option Error
  unfolding count_error count_entry
  stored payload c (server, some e) =
      (record c { client = server; stats = count_error c.stats }, some e)
  stored payload c (server, none) =
      (record c { client = server; stats = count_entry payload c.stats }, none)

  unfoldable pub set_with_ttl : Result String → String → ℕ → Cache → Cache × Option Error
  unfolding stored
  set_with_ttl (err e) key ttl c = (c, some e)
  set_with_ttl (ok payload) key ttl c = stored payload c (redis.set key payload ttl c.client)

  unfoldable pub set : Result String → String → Cache → Cache × Option Error
  unfolding set_with_ttl
  set value key c = set_with_ttl value key c.ttl c

  unfoldable pub set_artifact : Result String → String → Cache → Cache × Option Error
  unfolding set_with_ttl
  set_artifact value key c = set_with_ttl value key c.artifact_ttl c

  unfoldable pub set_registry : Result String → String → Cache → Cache × Option Error
  unfolding set_with_ttl
  set_registry value key c = set_with_ttl value key c.registry_ttl c

  unfoldable pub set_search : Result String → String → Cache → Cache × Option Error
  unfolding set_with_ttl
  set_search value key c = set_with_ttl value key c.search_ttl c

  unfoldable pub delete : String → Cache → Cache × Option Error
  delete key c =
      let (server, error) = redis.del key c.client in (record c { client = server }, error)

  -- `result > 0, nil`
  abbrev pub is_positive : Result ℕ → Result Bool
  is_positive (ok n) = ok (ltb 0 n)
  is_positive (err e) = err e

  unfoldable pub exists : String → Cache → Cache × Result Bool
  exists key c =
      let (server, answer) = redis.exists key c.client in
      (record c { client = server }, is_positive answer)

  unfoldable pub increment : String → Cache → Cache × Result ℕ
  increment key c =
      let (server, answer) = redis.incr key c.client in (record c { client = server }, answer)

  -- the expiry is set only where the counter was incremented
  unfoldable pub expiring : String → ℕ → Cache → redis.Server × Result ℕ → Cache × Result ℕ
  expiring key ttl c (server, err e) = (record c { client = server }, err e)
  expiring key ttl c (server, ok n) = (record c { client = redis.expire key ttl server }, ok n)

  unfoldable pub increment_with_ttl : String → ℕ → Cache → Cache × Result ℕ
  unfolding expiring
  increment_with_ttl key ttl c = expiring key ttl c (redis.incr key c.client)

  -- HitRate: nothing where it returns 0 for want of calls, or the numerator and the denominator
  unfoldable pub hit_rate : Cache → Option (ℕ × ℕ)
  hit_rate c =
      let total = c.stats.hits + c.stats.misses in
      if ltb 0 total then some (c.stats.hits, total) else none
