-- ===== src/Jobs/Conditions/Due.antt =====
-- When a condition is due again (src/sutradhara/jobs/reconcilers/conditions.py): what each phase says
-- of `next_eligible_at` and of the attempt count, the giving up, and the growth of the backoff.
use sutradhara.Prelude.{
  ℕ, ◌+◌, ◌-◌, ◌*◌, ◌^◌, ◌≤◌, ◌<◌, ◌≡◌, refl, ◌≢◌, ◌⊎◌, inl, inr, String, Bool, true, false, Option,
  none, some, arith, ok, err, min, Result-cases,
}
use native.Mathlib.Nat.{pow-le-pow_right, one-le-pow, le-pred_of_lt}
use sutradhara.Jobs.Config.{
  float_limit, IsUniform, jittered_backoff_seconds, default_max_backoff_seconds,
}
use sutradhara.Jobs.Config.Backoff.{jittered_bounds, jittered_overflow}
use sutradhara.Jobs.Model.{JobAttempt, backoff, blocked, satisfied}
use sutradhara.Jobs.Conditions.{
  Projection, observe, new_row, project, reopen, is_workable, default_backoff_due, float_overflow,
  default_backoff_seconds,
}
use sutradhara.Jobs.Conditions.Keys.{Row}

-- A row that may be worked on has a due time; a blocked or satisfied one has none, and a satisfied
-- one has no attempts counted.
pub record IsScheduled (row : Row) : Type 0 where
  pub workable : is_workable row.condition ≡ true → row.next_eligible_at ≢ none
  pub blocked_idle : row.condition ≡ blocked → row.next_eligible_at ≡ none
  pub satisfied_idle : row.condition ≡ satisfied → row.next_eligible_at ≡ none
  pub satisfied_fresh : row.condition ≡ satisfied → row.attempt_count ≡ 0

pub observe-IsScheduled :
    (now : ℕ) (desired : Bool) (observed_state : String) (reason message : Option String)
    (row : Row)
    → IsScheduled row
    → IsScheduled (observe now desired observed_state reason message row)
unfolding observe
observe-IsScheduled now desired observed_state reason message row h = ground arith

pub new_row-IsScheduled :
    (id now : ℕ) (domain target_key observed_state : String)
    → IsScheduled (new_row id now domain target_key observed_state)
unfolding new_row
new_row-IsScheduled id now domain target_key observed_state = ground arith

-- Where a workable row has a due time, a blocked or satisfied one has none, and a satisfied one
-- has no attempts counted, an attempt outcome that does not raise keeps it so.
pub project-IsScheduled :
    (draw : ℕ → ℕ → ℕ) (now : ℕ) (p : Projection) (attempt : Option JobAttempt) (row row' : Row)
    → IsScheduled row
    → project draw now p attempt row ≡ ok row'
    → IsScheduled row'
unfolding project
project-IsScheduled draw now p attempt row row' h e = ground arith

pub reopen-IsScheduled :
    (now : ℕ) (message : String) (row : Row) → IsScheduled (reopen now message row)
unfolding reopen
reopen-IsScheduled now message row = ground arith

-- A back-off that may give up and does not raise counts the attempt, and blocks the row exactly
-- from the third on; until then the row backs off with a due time.
project_gives_up :
    (draw : ℕ → ℕ → ℕ) (now : ℕ) (p : Projection) (attempt : Option JobAttempt) (row row' : Row)
    → p.condition ≡ some backoff
    → p.auto_block ≡ true
    → project draw now p attempt row ≡ ok row'
    → (row'.attempt_count ≡ row.attempt_count + 1)
      × ((2 ≤ row.attempt_count) × (row'.condition ≡ blocked)
          ⊎ (row.attempt_count < 2) × (row'.condition ≡ backoff) × (row'.next_eligible_at ≢ none))
unfolding project
project_gives_up draw now p attempt row row' c a e = ground arith

-- sixty seconds doubled so often fit no float, and up to 1018 times they do
backoff_overflows : (c : ℕ) → 1019 ≤ c → float_limit ≤ default_backoff_seconds * 2 ^ c
backoff_overflows c h = omega (arith, pow-le-pow_right {n = 2} (omega arith) h)

backoff_fits : (c : ℕ) → c < 1019 → default_backoff_seconds * 2 ^ c < float_limit
backoff_fits c h = omega (arith, pow-le-pow_right {n = 2} (omega arith) (le-pred_of_lt h))

backoff_positive : (c : ℕ) → 0 < default_backoff_seconds * 2 ^ c
backoff_positive c = omega (arith, one-le-pow c 2 (omega arith))

module _ (draw : ℕ → ℕ → ℕ) (now c : ℕ) where
  due_overflows : 1019 ≤ c → default_backoff_due draw now (c + 1) ≡ err float_overflow
  unfolding default_backoff_due
  due_overflows h =
      let e : c + 1 - 1 ≡ c = omega arith in
      rw
        (
          e,
          jittered_overflow draw (default_backoff_seconds * 2 ^ c) default_max_backoff_seconds
              (backoff_overflows c h),
        )
        refl

  due_of_delay :
      (delay : ℕ)
      → jittered_backoff_seconds draw (default_backoff_seconds * 2 ^ c) default_max_backoff_seconds
        ≡ ok delay
      → default_backoff_due draw now (c + 1) ≡ ok (now + delay)
  unfolding default_backoff_due
  due_of_delay delay h = let e : c + 1 - 1 ≡ c = omega arith in rw (e, h) refl

  due_bounds :
      IsUniform draw
      → c < 1019
      → (due : ℕ) × (default_backoff_due draw now (c + 1) ≡ ok due)
        × (now + min (48000000 * 2 ^ c) 3600000000 ≤ due)
        × (due ≤ now + 3600000000)
  due_bounds u h =
      let (delay, drawn, low, high) =
        jittered_bounds draw u (default_backoff_seconds * 2 ^ c) default_max_backoff_seconds
          (backoff_positive c) (backoff_fits c h) (omega arith) in
      (now + delay, due_of_delay delay drawn, omega (arith, low), omega (arith, high))

-- A back-off that does not give up and names no due time raises `OverflowError` once 1019 attempts are
-- counted: the doubled delay is turned into a float before the one-hour clamp is applied.
pub project_overflows :
    (draw : ℕ → ℕ → ℕ) (now : ℕ) (p : Projection) (attempt : Option JobAttempt) (row : Row)
    → p.condition ≡ some backoff
    → p.auto_block ≡ false
    → p.next_eligible_at ≡ none
    → 1019 ≤ row.attempt_count
    → project draw now p attempt row ≡ err float_overflow
unfolding project
project_overflows draw now p attempt row c a n h =
    ground (arith, due_overflows draw now row.attempt_count h)

-- A back-off that does not give up and names no due time, with fewer than 1019 attempts counted,
-- backs off and is due again within the hour: at least 80% of the doubled minute away, or the
-- whole hour where that is less. Random draws keep to their bounds.
pub project_due :
    (draw : ℕ → ℕ → ℕ) (now : ℕ) (p : Projection) (attempt : Option JobAttempt) (row : Row)
    → IsUniform draw
    → p.condition ≡ some backoff
    → p.auto_block ≡ false
    → p.next_eligible_at ≡ none
    → row.attempt_count < 1019
    → (row' : Row) × (due : ℕ) × (project draw now p attempt row ≡ ok row')
      × (row'.condition ≡ backoff)
      × (row'.next_eligible_at ≡ some due)
      × (now + min (48000000 * 2 ^ row.attempt_count) 3600000000 ≤ due)
      × (due ≤ now + 3600000000)
unfolding project
project_due draw now p attempt row u c a n h =
    let (due, e, low, high) = due_bounds draw now row.attempt_count u h in
    elim (Result-cases (project draw now p attempt row)) [
      | inl (row', made) ↦ (row', due, made, ground arith, ground arith, low, high)
      | inr (x, raised) ↦ absurd (ground arith)
    ]
