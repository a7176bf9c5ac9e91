-- ===== src/Jobs/Config/Backoff.antt =====
-- Bounds of the jittered exponential backoff (src/sutradhara/jobs/config.py).
use sutradhara.Prelude.{ℕ, ◌*◌, ◌≤◌, ◌<◌, ◌≡◌, min, ok, err, arith}
use sutradhara.Jobs.Config.{overflow, float_limit, IsUniform, jitter, jittered_backoff_seconds}

module _ (draw : ℕ → ℕ → ℕ) (uniform : IsUniform draw) where
  jitter-bounds :
      (base clamp : ℕ)
      → (min (base * 800000) (clamp * 1000000) ≤ jitter draw base clamp)
        × (jitter draw base clamp ≤ min (base * 1200000) (clamp * 1000000))
  unfolding jitter
  jitter-bounds base clamp =
      ground (arith, uniform.bounds (base * 800000) (min (base * 1200000) (clamp * 1000000)))

  -- Where random draws keep to their bounds, a positive base that fits a float, with a clamp that
  -- fits one, gives a delay of at least 80% of the base or the clamp, whichever is less, and of at
  -- most 120% of the base or the clamp, whichever is less.
  pub jittered_bounds :
      (base clamp : ℕ)
      → 0 < base
      → base < float_limit
      → clamp < float_limit
      → (delay : ℕ) × (jittered_backoff_seconds draw base clamp ≡ ok delay)
        × (min (base * 800000) (clamp * 1000000) ≤ delay)
        × (delay ≤ min (base * 1200000) (clamp * 1000000))
  unfolding jittered_backoff_seconds
  jittered_bounds base clamp positive fits fits' = (
    jitter draw base clamp,
    ground arith,
    (jitter-bounds base clamp).0,
    (jitter-bounds base clamp).1,
  )

-- A base that no float holds is not clamped: the conversion raises.
pub jittered_overflow :
    (draw : ℕ → ℕ → ℕ) (base clamp : ℕ)
    → float_limit ≤ base
    → jittered_backoff_seconds draw base clamp ≡ err overflow
unfolding jittered_backoff_seconds
jittered_overflow draw base clamp h = ground arith

-- A delay never passes the clamp.
pub jittered-le :
    (draw : ℕ → ℕ → ℕ) (uniform : IsUniform draw) (base clamp delay : ℕ)
    → jittered_backoff_seconds draw base clamp ≡ ok delay
    → delay ≤ clamp * 1000000
unfolding jittered_backoff_seconds
jittered-le draw uniform base clamp delay h = ground (arith, jitter-bounds draw uniform base clamp)
