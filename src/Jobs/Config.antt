-- ===== src/Jobs/Config.antt =====
-- Retry limits and backoff of the worker (src/sutradhara/jobs/config.py).
-- A delay is a number of microseconds, so that the 20% of jitter are whole; `random.uniform` is
-- a parameter, `draw`. A negative setting acts as zero, as the code's own tests make it.
pub mod Backoff
use sutradhara.Prelude.{
  ℕ, ◌+◌, ◌-◌, ◌*◌, ◌^◌, ◌≤◌, String, Option, none, some, ltb, leb, nat_beq, if◌then◌else◌, min,
  Result, ok, err, ◌>>=◌, string_eq,
}
use sutradhara.Prelude.Int.{ℤ, pos_part}
use sutradhara.Prelude.Dict.{Dict, lookup}

abbrev pub default_max_backoff_seconds : ℕ
default_max_backoff_seconds = 3600

-- Python's `OverflowError`
pub data Overflow : Type 0 where
  overflow : Overflow

-- `float(n)` raises from this number on: it would round to 2 ^ 1024.
abbrev pub float_limit : ℕ
float_limit = 2 ^ 1024 - 2 ^ 970

unfoldable pub to_float : ℕ → Result Overflow ℕ
to_float n = if ltb n float_limit then ok n else err overflow

-- What `random.uniform` documents of a draw.
pub record IsUniform (draw : ℕ → ℕ → ℕ) : Type 0 where
  pub bounds :
      (lower upper : ℕ) → lower ≤ upper → (lower ≤ draw lower upper) × (draw lower upper ≤ upper)

module _ (draw : ℕ → ℕ → ℕ) where
  -- the delay of a base that is positive and a clamp, both floats already
  pub jitter : ℕ → ℕ → ℕ
  jitter base clamp =
      let lower = base * 800000 in
      let upper = min (base * 1200000) (clamp * 1000000) in
      if ltb upper lower then clamp * 1000000 else draw lower upper

  unfoldable pub jittered_backoff_seconds : ℕ → ℕ → Result Overflow ℕ
  unfolding jitter to_float
  jittered_backoff_seconds base_seconds max_seconds = do
    base ← to_float base_seconds
    if nat_beq base 0 then ok 0 else (do clamp ← to_float max_seconds; ok (jitter base clamp))

pub record RetryPolicy : Type 0 where
  pub max_attempts : ℤ
  pub backoff_seconds : ℤ

unfoldable pub delay_seconds : (ℕ → ℕ → ℕ) → RetryPolicy → ℕ → ℤ → Result Overflow ℕ
delay_seconds draw retry attempts max_seconds =
    if nat_beq attempts 0
    then ok 0
    else jittered_backoff_seconds draw (pos_part retry.backoff_seconds * 2 ^ (attempts - 1))
        (pos_part max_seconds)

pub record WorkerConfig : Type 0 where
  pub capacities : Dict String ℤ
  pub retry : RetryPolicy
  pub per_kind_retry : Dict String RetryPolicy
  pub aging_threshold_scans : ℤ
  pub executor_workers : Option ℤ
  pub max_backoff_seconds : ℤ

unfoldable pub retry_for_kind : WorkerConfig → String → RetryPolicy
unfolding lookup
retry_for_kind config kind = elim (lookup kind config.per_kind_retry) [
  | some policy ↦ policy
  | none ↦ config.retry
]
