-- ===== src/Jobs/Worker/Awaiting.antt =====
-- A job whose failure record is pending keeps its row through the head of a drain
-- (src/sutradhara/jobs/worker.py), so that the recovery of orphans does not run it again.
use sutradhara.Prelude.{
  ℕ, ◌≡◌, refl, ap, sym, ◌∙◌, ◌≢◌, ◌⊎◌, inl, inr, String, Bool, true, false, none, some, [], ◌∷◌,
  arith, Bool-cases, Option-cases, Result-cases, ok, ok-injective, ◌==◌, ◌&&◌, ◌||◌, nat_eq,
}
use sutradhara.Prelude.Dict.{lookup, NodupKeys, lookup-cons, lookup-nil}
use sutradhara.Jobs.Leases.{Resources}
use sutradhara.Jobs.Model.{Job}
use sutradhara.Jobs.Store.{Db, find_job, save_job, record_attempt}
use sutradhara.Jobs.Store.Rows.{find-save_ne, id_of_find}
use sutradhara.Jobs.Engine.{Engine}
use sutradhara.Jobs.Run.{failed_row, record_reconciler_condition}
use sutradhara.Jobs.Worker.{Surroundings, persist}
use sutradhara.Jobs.Worker.Execution.{
  Executor, WorkerJobOutcome, record_exhausted, persist_lock_failure,
}
use sutradhara.Jobs.Worker.Heading.{
  Failures, Head, keep_unless, persist_all, recover_orphans, recover_if_clear, is_nil, drain_head,
}

lookup-keep_unless :
    (id k : ℕ) (o : WorkerJobOutcome) (stored : Bool) (left : Failures)
    → (k == id) ≡ false
    → lookup id (keep_unless stored (k, o) left) ≡ lookup id left
lookup-keep_unless id k o true left apart = refl
lookup-keep_unless id k o false left apart = ground (arith, lookup-cons id k o left)

unstored :
    (id k : ℕ) (p o : WorkerJobOutcome) (stored : Bool) (left left' : Failures)
    → left ≡ keep_unless stored (k, p) left'
    → lookup id left' ≡ none
    → lookup id left ≡ some o
    → stored ≡ false
unstored id k p o false left left' l e h = refl
unstored id k p o true left left' l e h = absurd (ground (arith, ap (lookup id) l))

module _ {C : Type 0} (env : Surroundings C) (x : Executor C) where
  record_exhausted-jobs :
      (granted : Resources) (detail : String) (job : Job) (db db' : Db C) (b : Bool)
      → record_exhausted env x granted detail job db ≡ ok (db', b)
      → (b ≡ true) × (db'.jobs ≡ save_job (failed_row env.at.finished_at detail job) db.jobs)
  unfolding record_exhausted record_reconciler_condition record_attempt
  record_exhausted-jobs granted detail job db db' b h = ground arith

  -- A record that is written touches no other job, and one that is not touches none.
  persist-frame :
      (id other : ℕ) (granted : Resources) (detail : String) (db db' : Db C) (b : Bool)
      → (other ≢ id) ⊎ (b ≡ false)
      → persist_lock_failure env x id granted detail db ≡ ok (db', b)
      → find_job other db'.jobs ≡ find_job other db.jobs
  unfolding persist_lock_failure
  persist-frame id other granted detail db db' b c h =
      elim (Bool-cases (env.contended (persist id))) [
        | inl e ↦ let same : db' ≡ db = ground arith in ap (find_job other) (ap Db.jobs same)
        | inr e ↦ elim (Option-cases (find_job id db.jobs)) [
          | inl gone ↦ let same : db' ≡ db = ground arith in ap (find_job other) (ap Db.jobs same)
          | inr (job, found) ↦
              let (stored, jobs) =
                record_exhausted-jobs granted detail job db db' b (rw (e, found) at h) in
              elim c [
                | inr unstored ↦ absurd (ground arith)
                | inl ne ↦
                    ap (find_job other) jobs
                    ∙ find-save_ne other (failed_row env.at.finished_at detail job) db.jobs
                        (λ same. ne (same ∙ id_of_find id job db.jobs found))
              ]
        ]
      ]

  abbrev persisted : ℕ → WorkerJobOutcome → Db C → Engine (Db C × Bool)
  persisted id o db = persist_lock_failure env x id o.granted_leases o.result.detail db

  persist_all-nil :
      (left : Failures) (db db' : Db C)
      → persist_all env x [] db ≡ ok (db', left)
      → (db' ≡ db) × (left ≡ [])
  unfolding persist_all
  persist_all-nil left db db' h = ground arith

  -- The parts of a loop that returns.
  persist_all-cons :
      (k : ℕ) (o : WorkerJobOutcome) (rest left : Failures) (db db' : Db C)
      → persist_all env x ((k, o) ∷ rest) db ≡ ok (db', left)
      → (db₁ : Db C) × (stored : Bool) × (left' : Failures) × (persisted k o db ≡ ok (db₁, stored))
        × (persist_all env x rest db₁ ≡ ok (db', left'))
        × (left ≡ keep_unless stored (k, o) left')
  unfolding persist_all
  persist_all-cons k o rest left db db' h = elim (Result-cases (persisted k o db)) [
    | inr (e, f) ↦ absurd (ground arith)
    | inl ((db₁, stored), f) ↦ elim (Result-cases (persist_all env x rest db₁)) [
      | inr (e, g) ↦ absurd (ground arith)
      | inl ((db₂, left'), g) ↦
          let e =
            ok-injective (db₂, keep_unless stored (k, o) left') (db', left) (rw (f, g) at h) in
          (db₁, stored, left', f, g ∙ ap (λ p. ok (p.0, left')) e, sym (ap (λ p. p.1) e))
    ]
  ]

  -- A key that is not pending before is not pending after, and its row is kept.
  absent-kept :
      (id : ℕ) (pending left : Failures) (db db' : Db C)
      → lookup id pending ≡ none
      → persist_all env x pending db ≡ ok (db', left)
      → (lookup id left ≡ none) × (find_job id db'.jobs ≡ find_job id db.jobs)
  absent-kept id [] left db db' h e =
      let (same, none_left) = persist_all-nil left db db' e in
      (ap (lookup id) none_left ∙ lookup-nil id, ap (find_job id) (ap Db.jobs same))
  absent-kept id ((k, o) ∷ rest) left db db' h e =
      let (db₁, stored, left', f, g, l) = persist_all-cons k o rest left db db' e in
      let apart : (k == id) ≡ false = ground (arith, lookup-cons id k o rest) in
      let tail : lookup id rest ≡ none = ground (arith, lookup-cons id k o rest) in
      let (none', kept) = absent-kept id rest left' db₁ db' tail g in
      (
        ap (lookup id) l ∙ lookup-keep_unless id k o stored left' apart ∙ none',
        kept
            ∙ persist-frame k id o.granted_leases o.result.detail db db₁ stored
                (inl (λ same. ground (arith, nat_eq.same_iff k id))) f,
      )

  -- A key that is pending after the loop was not written, so its row is kept.
  left-kept :
      (id : ℕ) (o : WorkerJobOutcome) (pending left : Failures) (db db' : Db C)
      → NodupKeys pending
      → persist_all env x pending db ≡ ok (db', left)
      → lookup id left ≡ some o
      → find_job id db'.jobs ≡ find_job id db.jobs
  left-kept id o [] left db db' nodup e h =
      absurd (ground (arith, persist_all-nil left db db' e, lookup-nil {V = WorkerJobOutcome} id))
  left-kept id o ((k, p) ∷ rest) left db db' (fresh, nodup) e h =
      let (db₁, stored, left', f, g, l) = persist_all-cons k p rest left db db' e in
      elim (Bool-cases (k == id)) [
        | inr apart ↦
            let same = ap (lookup id) l ∙ lookup-keep_unless id k p stored left' apart in
            left-kept id o rest left' db₁ db' nodup g (sym same ∙ h)
            ∙ persist-frame k id p.granted_leases p.result.detail db db₁ stored
                (inl (λ here. ground (arith, nat_eq.same_iff k id))) f
        | inl here ↦
            let tail : lookup id rest ≡ none = ground (arith, nat_eq.same_iff k id) in
            let (none_left, kept) = absent-kept id rest left' db₁ db' tail g in
            kept
            ∙ persist-frame k id p.granted_leases p.result.detail db db₁ stored
                (inr (unstored id k p o stored left left' l none_left h)) f
      ]

  recover_orphans-pending :
      (now : ℕ) (marker : String) (h : Head C)
      → (recover_orphans env x now marker h).pending_failures ≡ h.pending_failures
  unfolding recover_orphans
  recover_orphans-pending now marker h = ground arith

  recover_if_clear-pending :
      (wanted : Bool) (now : ℕ) (marker : String) (h : Head C)
      → (recover_if_clear env x wanted now marker h).pending_failures ≡ h.pending_failures
  recover_if_clear-pending wanted now marker h =
      elim (Bool-cases ((wanted || h.recovery_pending) && is_nil env x h.pending_failures)) [
        | inl e ↦ rw e (recover_orphans-pending now marker h)
        | inr e ↦ rw e refl
      ]

  clear-empty : (b : Bool) (l : Failures) → b && is_nil env x l ≡ true → l ≡ []
  clear-empty b [] h = refl
  clear-empty b (y ∷ l) h = absurd (ground arith)

  -- Where a failure is pending, the recovery does not run.
  recover_if_clear-waits :
      (wanted : Bool) (now : ℕ) (marker : String) (h : Head C) (id : ℕ) (o : WorkerJobOutcome)
      → lookup id h.pending_failures ≡ some o
      → (recover_if_clear env x wanted now marker h).db ≡ h.db
  recover_if_clear-waits wanted now marker h id o p =
      elim (Bool-cases ((wanted || h.recovery_pending) && is_nil env x h.pending_failures)) [
        | inl e ↦ absurd (
            ground (
              arith,
              ap (lookup id) (clear-empty (wanted || h.recovery_pending) h.pending_failures e),
              lookup-nil {V = WorkerJobOutcome} id,
            ))
        | inr e ↦ rw e refl
      ]

  -- The head of a drain that returns, whether or not it recovers orphans, keeps the row of every
  -- job whose failure record is still pending after it, where the pending records are those of
  -- distinct jobs.
  pub drain_head-Awaiting :
      (wanted : Bool) (now : ℕ) (marker : String) (h h' : Head C) (id : ℕ) (o : WorkerJobOutcome)
      → NodupKeys h.pending_failures
      → drain_head env x wanted now marker h ≡ ok h'
      → lookup id h'.pending_failures ≡ some o
      → find_job id h'.db.jobs ≡ find_job id h.db.jobs
  unfolding drain_head
  drain_head-Awaiting wanted now marker h h' id o nodup e p =
      elim (Result-cases (persist_all env x h.pending_failures h.db)) [
        | inr (y, f) ↦ absurd (ground arith)
        | inl ((db, left), f) ↦
            let written : Head C = record h { pending_failures = left; db = db } in
            let same : recover_if_clear env x wanted now marker written ≡ h' =
              ok-injective (recover_if_clear env x wanted now marker written) h' (rw f at e) in
            let pending : lookup id left ≡ some o =
              ap (lookup id) (
                sym (recover_if_clear-pending wanted now marker written)
                ∙ ap Head.pending_failures same)
              ∙ p in
            ap (find_job id) (
              ap Db.jobs (
                sym (ap Head.db same)
                ∙ recover_if_clear-waits wanted now marker written id o pending))
            ∙ left-kept id o h.pending_failures left h.db db nodup f pending
      ]
