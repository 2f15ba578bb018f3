-- ===== src/RateLimit/Tests.antt =====
-- Runs of the login limits.
use qq_guardian.Base.{◌≡◌, refl, [], ◌∷◌, arith}
use qq_guardian.RateLimit.{Limiter}
use qq_guardian.RateLimit.Windows.{current, allowed_in, allowed_in-burst}

abbrev quiet : Limiter
quiet = record {
  windows = record { bucket = 1; attempts = 3; reset_at = 50; updated_at = 20 } ∷ [];
  last_cleanup_at = 0;
}

allowed_in-burst_example : allowed_in quiet 2 2 10 (30 ∷ 31 ∷ 32 ∷ []) ≡ 2
unfolding current
allowed_in-burst_example =
    allowed_in-burst quiet 2 2 10 30 (31 ∷ 32 ∷ []) (tt, tt) (omega arith) (omega arith) refl
      ((omega arith), ((omega arith), tt))
