-- ===== src/Cache/Statistics.antt =====
-- What the statistics of a cache can be.
use cargobay.Prelude.{
  ℕ, String, ◌≡◌, sym, ap, subst, ◌≤◌, ◌*◌, ◌+◌, arith, Bool-cases, ltb, inl, inr, Option, none,
  some, List, [], ◌∷◌, Error, Result, ok, err,
}
use mathlib.Core.Option
use cargobay.Cache.{
  RedisClient, CacheStats, Cache, no_stats, count_miss, count_error, count_hit, count_entry, got,
  get, stored, set_with_ttl, delete, exists, increment, expiring, increment_with_ttl, hit_rate,
}

-- the calls of the cache, with what was encoded, or why it could not be
pub data Call : Type 0 where
  getting : String → Call
  setting : Result String → String → ℕ → Call
  deleting : String → Call
  checking : String → Call
  counting : String → Call
  counting_for : String → ℕ → Call

module _ (redis : RedisClient) where
  module _ {ℓ} {A : Type ℓ} (unmarshal : String → Result A) where
    unfoldable pub run : Call → Cache redis → Cache redis
    unfolding get set_with_ttl delete exists increment increment_with_ttl
    run (getting key) c = (get redis unmarshal key c).0
    run (setting value key ttl) c = (set_with_ttl redis value key ttl c).0
    run (deleting key) c = (delete redis key c).0
    run (checking key) c = (exists redis key c).0
    run (counting key) c = (increment redis key c).0
    run (counting_for key ttl) c = (increment_with_ttl redis key ttl c).0

    unfoldable pub run_all : List Call → Cache redis → Cache redis
    unfolding run
    run_all [] c = c
    run_all (x ∷ xs) c = run_all xs (run x c)

    abbrev pub Counted : Cache redis → Type 0
    Counted c = c.stats.hits ≤ c.stats.misses

    got-Counted :
        (c : Cache redis) (answer : redis.Server × Result (Option String))
        → c.stats.hits + 1 ≤ c.stats.misses
        → Counted (got redis unmarshal c answer).0
    unfolding got count_hit count_error
    got-Counted c (server, ok none) h = omega (arith, h)
    got-Counted c (server, err e) h = omega (arith, h)
    got-Counted c (server, ok (some payload)) h = h

    stored-Counted :
        (payload : String) (c : Cache redis) (answer : redis.Server × Option Error)
        → Counted c
        → Counted (stored redis payload c answer).0
    unfolding stored count_entry count_error
    stored-Counted payload c (server, none) h = h
    stored-Counted payload c (server, some e) h = h

    expiring-Counted :
        (key : String) (ttl : ℕ) (c : Cache redis) (answer : redis.Server × Result ℕ)
        → Counted c
        → Counted (expiring redis key ttl c answer).0
    unfolding expiring
    expiring-Counted key ttl c (server, ok n) h = h
    expiring-Counted key ttl c (server, err e) h = h

    run-Counted : (x : Call) (c : Cache redis) → Counted c → Counted (run x c)
    unfolding run get count_miss set_with_ttl delete exists increment increment_with_ttl
    run-Counted (getting key) c h =
        got-Counted (record c { stats = count_miss c.stats }) (redis.get key c.client)
          (omega (arith, h))
    run-Counted (setting (ok payload) key ttl) c h =
        stored-Counted payload c (redis.set key payload ttl c.client) h
    run-Counted (setting (err e) key ttl) c h = h
    run-Counted (deleting key) c h = h
    run-Counted (checking key) c h = h
    run-Counted (counting key) c h = h
    run-Counted (counting_for key ttl) c h = expiring-Counted key ttl c (redis.incr key c.client) h

    all-Counted : (xs : List Call) (c : Cache redis) → Counted c → Counted (run_all xs c)
    unfolding run_all
    all-Counted [] c h = h
    all-Counted (x ∷ xs) c h = all-Counted xs (run x c) (run-Counted x c h)

    rate_bound :
        (c : Cache redis) (hits total : ℕ)
        → Counted c
        → hit_rate redis c ≡ some (hits, total)
        → 2 * hits ≤ total
    unfolding hit_rate
    rate_bound c hits total h e = elim (Bool-cases (ltb 0 (c.stats.hits + c.stats.misses))) [
      | inl b ↦
          let p : (c.stats.hits, c.stats.hits + c.stats.misses) ≡ (hits, total) =
            Option.some-injective _ _ (rw (b, hit_rate) at e) in
          omega (arith, h, ap (λ x. x.0) p, ap (λ x. x.1) p)
      | inr b ↦ cc (rw (b, hit_rate) at e)
    ]

    fresh-Counted : (c : Cache redis) → c.stats ≡ no_stats → Counted c
    fresh-Counted c fresh =
        subst (λ (st : CacheStats). st.hits ≤ st.misses) (sym fresh) (omega arith)

    -- From a cache without calls on, whatever is called and whatever the server answers, the hit
    -- rate is at most one half.
    pub hit_rate_bound :
        (xs : List Call) (c : Cache redis) (hits total : ℕ)
        → c.stats ≡ no_stats
        → hit_rate redis (run_all xs c) ≡ some (hits, total)
        → 2 * hits ≤ total
    hit_rate_bound xs c hits total fresh e =
        rate_bound (run_all xs c) hits total (all-Counted xs c (fresh-Counted c fresh)) e
