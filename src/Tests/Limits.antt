-- ===== src/Tests/Limits.antt =====
-- The rate limiter and the login throttle on a few requests.
use cargobay.Prelude.{
  ℕ, String, ◌≡◌, min, refl, not, leb, length, Option, none, List, [], ◌∷◌, arith, inl,
}
use cargobay.Prelude.GoMap
use cargobay.Middleware.Limits.{RateLimiter, normalize_ip, new_login_throttle, allow}
use cargobay.Middleware.Limits.Counting.{passes, own, window_passes}
use cargobay.Middleware.Limits.Failures.{
  ThrottleOp, ask, fail, run_throttle, reported, recent, allow_iff,
}

abbrev whole : String → Option String
whole s = none

abbrev guesses : List (ThrottleOp whole)
guesses = fail 10 "1.2.3.4" ∷ ask 20 "1.2.3.4" ∷ fail 70 "1.2.3.4" ∷ fail 80 "5.6.7.8" ∷ []

allow_iff_example :
    (allow whole 90 "1.2.3.4" (run_throttle whole guesses (new_login_throttle 2 50))).1
    ≡ not (
        leb 2 (length (recent whole 90 50 (reported whole (normalize_ip whole "1.2.3.4") guesses))))
allow_iff_example =
    allow_iff whole 2 50 guesses 90 "1.2.3.4" (omega arith)
      (omega arith, (omega arith, (omega arith, (omega arith, tt))))

abbrev pair_limiter : RateLimiter
pair_limiter = record { requests = []; limit = 2; window = 60 }

no_window : GoMap.get "1.2.3.4" pair_limiter.requests ≡ none
unfolding GoMap.get
no_window = refl

abbrev burst : List (ℕ × String)
burst = (11, "1.2.3.4") ∷ (12, "5.6.7.8") ∷ (13, "1.2.3.4") ∷ []

window_passes_example :
    passes "1.2.3.4" ((10, "1.2.3.4") ∷ burst) pair_limiter
    ≡ min (own "1.2.3.4" ((10, "1.2.3.4") ∷ burst)) 2
window_passes_example =
    window_passes 10 "1.2.3.4" burst pair_limiter (omega arith) (inl no_window)
      (omega arith, (omega arith, (omega arith, tt)))
