-- ===== src/Jobs/Worker/Heading.antt =====
-- The head of a drain (`JobWorker.drain`, `recover_orphans` of src/sutradhara/jobs/worker.py): pending
-- failure records are written first, and orphans are recovered only when none is left.
use sutradhara.Prelude.{ℕ, String, Bool, true, false, ◌&&◌, ◌||◌, [], ◌∷◌, if◌then◌else◌, ok, ◌>>=◌}
use sutradhara.Prelude.Dict.{Dict}
use sutradhara.Jobs.Store.{Db}
use sutradhara.Jobs.Engine.{Engine}
use sutradhara.Jobs.Run.{reset_orphaned_running_jobs}
use sutradhara.Jobs.Worker.{Surroundings, recover}
use sutradhara.Jobs.Worker.Execution.{Executor, WorkerJobOutcome, persist_lock_failure}

abbrev pub Failures : Type 0
Failures = Dict ℕ WorkerJobOutcome

abbrev pub keep_unless : Bool → ℕ × WorkerJobOutcome → Failures → Failures
keep_unless stored failure left = if stored then left else failure ∷ left

-- What a drain begins with, and the head leaves.
pub record Head (C : Type 0) : Type 0 where
  pub pending_failures : Failures
  pub recovery_pending : Bool
  pub db : Db C

module _ {C : Type 0} (env : Surroundings C) (x : Executor C) where
  -- the loop over the pending failures; each is keyed by the id of its job
  unfoldable pub persist_all : Failures → Db C → Engine (Db C × Failures)
  persist_all [] db = ok (db, [])
  persist_all ((id, o) ∷ rest) db = do
    (db₁, stored) ← persist_lock_failure env x id o.granted_leases o.result.detail db
    (db₂, left) ← persist_all rest db₁
    ok (db₂, keep_unless stored (id, o) left)

  -- `recover_orphans`, with the time and the text of the recovery
  unfoldable pub recover_orphans : ℕ → String → Head C → Head C
  recover_orphans now marker h =
      if env.contended recover then record h { recovery_pending = true } else record h {
        recovery_pending = false;
        db = (reset_orphaned_running_jobs now marker h.db).0;
      }

  abbrev pub is_nil : Failures → Bool
  is_nil [] = true
  is_nil _ = false

  abbrev pub recover_if_clear : Bool → ℕ → String → Head C → Head C
  recover_if_clear wanted now marker h =
      if (wanted || h.recovery_pending) && is_nil h.pending_failures
      then recover_orphans now marker h
      else h

  -- The head of a drain; the loop behind it runs unless the recovery is pending.
  unfoldable pub drain_head : Bool → ℕ → String → Head C → Engine (Head C)
  unfolding persist_all recover_orphans
  drain_head wanted now marker h = do
    (db, left) ← persist_all h.pending_failures h.db
    ok (recover_if_clear wanted now marker (record h { pending_failures = left; db = db }))
