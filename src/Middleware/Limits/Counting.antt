-- ===== src/Middleware/Limits/Counting.antt =====
-- How many requests the rate limiter lets through in a window.
use cargobay.Prelude.{
  ℕ, String, ◌≡◌, ◌≤◌, ◌<◌, ◌+◌, ◌-◌, min, refl, ap, ◌∙◌, true, false, none, some, List, [], ◌∷◌,
  arith, ltb, leb, leb→le, Bool-cases, ◌⊎◌, ◌/◌, Option-cases, inl, inr, ◌==◌, eq_refl, eq_iff,
  if◌then◌else◌,
}
use cargobay.Prelude.GoMap
use cargobay.Prelude.GoMap.{get-put}
use cargobay.Middleware.Limits.{
  RateInfo, RateLimiter, RateVerdict, passed, limited, open_window, count_in, rate_limit,
}

-- 1 for a request that went on
abbrev pub granted : RateVerdict → ℕ
granted (passed remaining) = 1
granted (limited seconds) = 0

-- The requests of a key that go on, of a sequence of requests with their times and keys.
unfoldable pub passes : String → List (ℕ × String) → RateLimiter → ℕ
passes key [] rl = 0
passes key ((now, k) ∷ rest) rl =
    let (rl', verdict) = rate_limit now k rl in
    let later = passes key rest rl' in if k == key then granted verdict + later else later

-- the requests of a key
abbrev pub own : String → List (ℕ × String) → ℕ
own key [] = 0
own key ((now, k) ∷ rest) = let later = own key rest in if k == key then 1 + later else later

-- no request is later than a time
abbrev pub AllWithin : ℕ → List (ℕ × String) → Type 0
AllWithin t [] = Unit
AllWithin t ((now, k) ∷ rest) = (now ≤ t) × AllWithin t rest

limit-rate_limit :
    (now : ℕ) (k : String) (rl : RateLimiter) → (rate_limit now k rl).0.limit ≡ rl.limit
unfolding rate_limit open_window count_in
limit-rate_limit now k rl = elim (Option-cases (GoMap.get k rl.requests)) [
  | inl e ↦ rw (e, rate_limit) refl
  | inr (info, e) ↦ rw (e, rate_limit) (ground arith)
]

other_key :
    (now : ℕ) (k key : String) (rl : RateLimiter)
    → (k == key) ≡ false
    → GoMap.get key (rate_limit now k rl).0.requests ≡ GoMap.get key rl.requests
unfolding rate_limit open_window count_in
other_key now k key rl other =
    let opened =
      get-put k key (record { count = 1; window_end = now + rl.window }) rl.requests
      ∙ rw other refl in
    elim (Option-cases (GoMap.get k rl.requests)) [
      | inl e ↦ rw (e, rate_limit) opened
      | inr (info, e) ↦
          let counted =
            get-put k key (record info { count = info.count + 1 }) rl.requests ∙ rw other refl in
          elim (Bool-cases (ltb info.window_end now)) [
            | inl f ↦ rw (e, f, rate_limit) opened
            | inr f ↦ elim (Bool-cases (leb rl.limit info.count)) [
              | inl g ↦ rw (e, f, rate_limit) (rw (g, count_in) refl)
              | inr g ↦ rw (e, f, rate_limit) (rw (g, count_in) counted)
            ]
          ]
    ]

in_window :
    (now : ℕ) (k : String) (rl : RateLimiter) (info : RateInfo)
    → GoMap.get k rl.requests ≡ some info
    → now ≤ info.window_end
    → rate_limit now k rl ≡ count_in now k info rl
unfolding rate_limit
in_window now k rl info h le =
    let f : ltb info.window_end now ≡ false = ground arith in rw (h, f, rate_limit) refl

out_of_window :
    (now : ℕ) (k : String) (rl : RateLimiter)
    → (GoMap.get k rl.requests ≡ none)
      ⊎ ((info : RateInfo) × (GoMap.get k rl.requests ≡ some info) × (info.window_end < now))
    → rate_limit now k rl ≡ open_window now k rl
unfolding rate_limit
out_of_window now k rl (inl h) = rw (h, rate_limit) refl
out_of_window now k rl (inr (info, h, lt)) =
    let f : ltb info.window_end now ≡ true = ground arith in rw (h, f, rate_limit) refl

passes_within :
    (key : String) (reqs : List (ℕ × String)) (rl : RateLimiter) (info : RateInfo)
    → GoMap.get key rl.requests ≡ some info
    → AllWithin info.window_end reqs
    → passes key reqs rl ≡ min (own key reqs) (rl.limit - info.count)
unfolding passes count_in
passes_within key [] rl info h within = omega arith
passes_within key ((now, k) ∷ rest) rl info h (le, within) = elim (Bool-cases (k == key)) [
  | inr other ↦
      let rl' = (rate_limit now k rl).0 in
      let later = passes_within key rest rl' info (other_key now k key rl other ∙ h) within in
      rw (other, passes) (later ∙ rw (limit-rate_limit now k rl) refl)
  | inl same ↦
      let at_k : GoMap.get k rl.requests ≡ some info =
        ap (λ x. GoMap.get x rl.requests) ((eq_iff k key).0 same) ∙ h in
      let step = in_window now k rl info at_k le in
      elim (Bool-cases (leb rl.limit info.count)) [
        | inl g ↦
            let later = passes_within key rest rl info h within in
            let spent = leb→le rl.limit info.count g in
            let counted : count_in now k info rl
                ≡ (rl, limited ((info.window_end - now) / 1000000000)) =
              rw (g, count_in) refl in
            rw (same, passes) (rw (step ∙ counted) (omega (arith, later, spent)))
        | inr g ↦
            let next : RateInfo = record info { count = info.count + 1 } in
            let rl' : RateLimiter = record rl { requests = GoMap.put k next rl.requests } in
            let counted : count_in now k info rl ≡ (rl', passed (rl.limit - (info.count + 1))) =
              rw (g, count_in) refl in
            let later =
              passes_within key rest rl' next (get-put k key next rl.requests ∙ rw same refl)
                within in
            let spare : info.count < rl.limit = ground arith in
            rw (same, passes) (rw (step ∙ counted) (omega (arith, later, spare)))
      ]
]

-- Where a key has no open window, the next request of the key opens one, and of that request and
-- those that follow until the window ends, as many go on as the limit allows, or all if they are
-- fewer. The requests of other keys in between count for nothing.
pub window_passes :
    (now : ℕ) (key : String) (reqs : List (ℕ × String)) (rl : RateLimiter)
    → 1 ≤ rl.limit
    → (GoMap.get key rl.requests ≡ none)
      ⊎ ((info : RateInfo) × (GoMap.get key rl.requests ≡ some info) × (info.window_end < now))
    → AllWithin (now + rl.window) reqs
    → passes key ((now, key) ∷ reqs) rl ≡ min (own key ((now, key) ∷ reqs)) rl.limit
unfolding passes
window_passes now key reqs rl some_limit closed within =
    let first : RateInfo = record { count = 1; window_end = now + rl.window } in
    let rl' : RateLimiter = record rl { requests = GoMap.put key first rl.requests } in
    let opened : rate_limit now key rl ≡ (rl', passed (rl.limit - 1)) =
      out_of_window now key rl closed ∙ (unfold open_window in refl) in
    let later =
      passes_within key reqs rl' first (get-put key key first rl.requests ∙ rw (eq_refl key) refl)
        within in
    rw (eq_refl key, passes) (rw opened (omega (arith, later)))
