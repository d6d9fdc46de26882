-- ===== src/Vulnerability/Window.antt =====
-- That the off-hours are an interval of the day, which may pass midnight.
use cargobay.Prelude.{ℕ, ◌≡◌, ◌<◌, ◌+◌, ◌-◌, ◌%◌, ◌||◌, some, eqb, ltb, arith}
use cargobay.Vulnerability.Rescanner.{within_off_hours}

-- An hour of the day is within the off-hours just where the bounds are the same, or it is reached
-- from the start sooner than the end is, going round the clock. All are below 24.
pub within_off_hours_lem :
    (h start end : ℕ)
    → h < 24
    → start < 24
    → end < 24
    → within_off_hours h (some start) (some end)
      ≡ (eqb start end || ltb ((h + 24 - start) % 24) ((end + 24 - start) % 24))
unfolding within_off_hours
within_off_hours_lem h start end a b c = ground arith
