-- ===== src/Cache/Kept.antt =====
-- What is read back from the cache after it was set.
use cargobay.Prelude.{ℕ, String, ◌≡◌, refl, ap, Option, none, some, Error, Result, ok, err}
use cargobay.Cache
use cargobay.Cache.{RedisClient, Cache, count_miss, count_entry, got, stored}

-- what the documentation of Redis promises for a value whose time has not passed
abbrev pub RedisKeeps : RedisClient → Type 0
RedisKeeps redis =
    (key payload : String) (ttl : ℕ) (s s' : redis.Server)
    → redis.set key payload ttl s ≡ (s', none)
    → (redis.get key s').1 ≡ ok (some payload)

got_found :
    (redis : RedisClient) (unmarshal : String → Result String) (payload : String) (c : Cache redis)
    (run : redis.Server × Result (Option String))
    → run.1 ≡ ok (some payload)
    → (got redis unmarshal c run).1 ≡ unmarshal payload
unfolding got
got_found redis unmarshal payload c (server, ok (some x)) h = ap (λ r. unmarshal (text_of r)) h
  where
    text_of : Result (Option String) → String
    text_of (ok (some y)) = y
    text_of (ok none) = ""
    text_of (err e) = ""
got_found redis unmarshal payload c (server, ok none) h = cc
got_found redis unmarshal payload c (server, err e) h = cc

stored_kept :
    (redis : RedisClient) (unmarshal : String → Result String) (key payload : String) (ttl : ℕ)
    (c : Cache redis) (run : redis.Server × Option Error)
    → RedisKeeps redis
    → redis.set key payload ttl c.client ≡ run
    → (stored redis payload c run).1 ≡ none
    → (Cache.get redis unmarshal key (stored redis payload c run).0).1 ≡ unmarshal payload
unfolding stored Cache.get
stored_kept redis unmarshal key payload ttl c (server, some e) keeps e' h = cc
stored_kept redis unmarshal key payload ttl c (server, none) keeps ran h =
    got_found redis unmarshal payload
      (record c { client = server; stats = count_miss (count_entry payload c.stats) })
      (redis.get key server) (keeps key payload ttl c.client server ran)

-- a value that was set without an error is read back
pub get-set :
    (redis : RedisClient) (unmarshal : String → Result String) (key payload : String)
    (c : Cache redis)
    → RedisKeeps redis
    → (Cache.set redis (ok payload) key c).1 ≡ none
    → (Cache.get redis unmarshal key (Cache.set redis (ok payload) key c).0).1 ≡ unmarshal payload
unfolding Cache.set Cache.set_with_ttl
get-set redis unmarshal key payload c keeps h =
    stored_kept redis unmarshal key payload c.ttl c (redis.set key payload c.ttl c.client) keeps
      refl h
