-- ===== src/Jobs/Worker/Recorded.antt =====
-- What an execution of a claimed job leaves (`_execute_job` of src/sutradhara/jobs/worker.py): however
-- often the database was locked, one attempt that agrees with the outcome, or a pending record.
use sutradhara.Prelude.{
  ℕ, zero, suc, ◌≡◌, refl, ap, sym, subst, ◌∙◌, ◌≢◌, ◌⊎◌, inl, inr, String, Bool, true, false,
  Option, none, some, List, [], ◌∷◌, ◌++◌, arith, Bool-cases, Option-cases, Result-cases,
  ok-injective, not, ok, err,
}
use sutradhara.Jobs.Leases.{Resources}
use sutradhara.Jobs.Model.{Job, JobAttempt}
use sutradhara.Jobs.Context.{job_context, attempt_detail}
use sutradhara.Jobs.Store.{Db, find_job, record_attempt, new_attempt}
use sutradhara.Jobs.Store.Rows.{id_of_find}
use sutradhara.Jobs.Engine.{Engine, EngineError, sqlite_locked}
use sutradhara.Jobs.Run.{
  JobResult, Handler, failure, failed_row, apply_retry_policy, record_reconciler_condition,
}
use sutradhara.Jobs.Run.Outcome.{Ended, outcome_of}
use sutradhara.Jobs.Run.Ended.{KeepsRow, run_one-Ended}
use sutradhara.Jobs.Worker.{Surroundings, persist, execution}
use sutradhara.Jobs.Worker.Execution.{
  Executor, WorkerJobOutcome, retry_if_plain, run, execute_job_once, record_exhausted,
  persist_lock_failure, outcome, tried, unless_locked, try_job, execute_job, lock_backoffs,
}

-- The last attempt of the database is the record of the result `r` of the job `id`.
pub record Attempted {C : Type 0} (id : ℕ) (granted : Resources) (r : JobResult) (db : Db C)
    : Type 0 where
  pub earlier : List JobAttempt
  pub attempt : JobAttempt
  pub appended : db.attempts ≡ earlier ++ attempt ∷ []
  pub job : attempt.job_id ≡ id
  pub outcome : attempt.outcome ≡ outcome_of r
  pub leases : attempt.granted_leases ≡ granted

-- What other sessions have committed by the end of the tries that are left.
abbrev pub others : {C : Type 0} → Executor C → ℕ → Db C → Db C
others x zero db = x.meanwhile zero db
others x (suc n) db = others x n (x.meanwhile (suc n) db)

-- An execution is recorded, or its failure is pending and the database is what others made of it.
pub data Settled {C : Type 0} (id : ℕ) (granted : Resources) (left db' : Db C)
    (o : WorkerJobOutcome) : Type 0 where
  recorded :
      o.failure_record_pending ≡ false
      → Attempted id granted o.result db'
      → Settled id granted left db' o
  pending :
      o.failure_record_pending ≡ true
      → o.result.succeeds ≡ false
      → db' ≡ left
      → Settled id granted left db' o

module _ {C : Type 0} (env : Surroundings C) (x : Executor C) (id : ℕ) (granted : Resources) where
  retry_if_plain-attempts :
      (db db' : Db C) (r r' : JobResult) (o : Option Job)
      → retry_if_plain env x db r o ≡ ok (db', r')
      → (r' ≡ r) × (db'.attempts ≡ db.attempts)
  unfolding retry_if_plain apply_retry_policy
  retry_if_plain-attempts db db' r r' none h = ground arith
  retry_if_plain-attempts db db' r r' (some job) h = ground arith

  abbrev exhausted_attempt : String → Job → Db C → JobAttempt
  exhausted_attempt detail job db =
      let row = failed_row env.at.finished_at detail job in
      new_attempt env.at.finished_at row granted
        (attempt_detail row (job_context env.hostname env.str_int granted row)) db.next_attempt_id

  record_exhausted-attempts :
      (detail : String) (job : Job) (db db' : Db C) (b : Bool)
      → record_exhausted env x granted detail job db ≡ ok (db', b)
      → (b ≡ true) × (db'.attempts ≡ db.attempts ++ exhausted_attempt detail job db ∷ [])
  unfolding record_exhausted record_reconciler_condition record_attempt
  record_exhausted-attempts detail job db db' b h = ground arith

  record_exhausted-Attempted :
      (detail : String) (job : Job) (db db' : Db C) (b : Bool)
      → job.id ≡ id
      → record_exhausted env x granted detail job db ≡ ok (db', b)
      → (b ≡ true) × Attempted id granted (failure detail) db'
  unfolding new_attempt
  record_exhausted-Attempted detail job db db' b e h =
      let (stored, appended) = record_exhausted-attempts detail job db db' b h in
      (
        stored,
        record {
          earlier = db.attempts;
          attempt = exhausted_attempt detail job db;
          appended = appended;
          job = e;
          outcome = refl;
          leases = refl;
        },
      )

  Attempted-Ended :
      (r : JobResult) (db db' : Db C)
      → Ended env.at granted id r db
      → db'.attempts ≡ db.attempts
      → Attempted id granted r db'
  Attempted-Ended r db db' e same = record {
    earlier = e.earlier;
    attempt = e.attempt;
    appended = same ∙ e.appended;
    job = e.job;
    outcome = e.outcome;
    leases = e.leases;
  }

  module _
      (keep : (kind : String) (handler : Handler C)
        → x.handlers kind ≡ some handler
        → KeepsRow handler) where
    execute_job_once-Attempted :
        (db db' : Db C) (r : JobResult)
        → execute_job_once env x id granted db ≡ ok (db', r)
        → Attempted id granted r db'
    unfolding execute_job_once
    execute_job_once-Attempted db db' r h = elim (Result-cases (run env x id granted db)) [
      | inr (e, f) ↦ absurd (ground arith)
      | inl ((db₁, r₁), f) ↦
          let (same, attempts) =
            retry_if_plain-attempts db₁ db' r₁ r (find_job id db₁.jobs) (rw f at h) in
          subst (λ s. Attempted id granted s db') (sym same)
            (Attempted-Ended r₁ db₁ db'
              (run_one-Ended env.at env.hostname env.str_int x.unregistered x.handlers db granted
                keep id db db₁ r₁ f)
              attempts)
    ]

  persist_lock_failure-cases :
      (detail : String) (db db' : Db C) (b : Bool)
      → find_job id db.jobs ≢ none
      → persist_lock_failure env x id granted detail db ≡ ok (db', b)
      → (b ≡ false) × (db' ≡ db) ⊎ (b ≡ true) × Attempted id granted (failure detail) db'
  unfolding persist_lock_failure
  persist_lock_failure-cases detail db db' b stored h =
      elim (Bool-cases (env.contended (persist id))) [
        | inl e ↦ inl (ground arith)
        | inr e ↦ elim (Option-cases (find_job id db.jobs)) [
          | inl gone ↦ absurd (stored gone)
          | inr (job, found) ↦ inr (
              record_exhausted-Attempted detail job db db' b (id_of_find id job db.jobs found)
                (rw (e, found) at h))
        ]
      ]

  module _
      (keep : (kind : String) (handler : Handler C)
        → x.handlers kind ≡ some handler
        → KeepsRow handler)
      (kept : (n : ℕ) (db : Db C)
        → find_job id db.jobs ≢ none
        → find_job id (x.meanwhile n db).jobs ≢ none) where
    returned-Settled :
        (left db₁ db' : Db C) (o₁ o : WorkerJobOutcome)
        → ◌≡◌ {A = Engine (Db C × WorkerJobOutcome)} (ok (db₁, o₁)) (ok (db', o))
        → Settled id granted left db₁ o₁
        → Settled id granted left db' o
    returned-Settled left db₁ db' o₁ o e =
        subst (λ p. Settled id granted left p.0 p.1) (ok-injective (db₁, o₁) (db', o) e)

    abbrev exhausted : Bool → WorkerJobOutcome
    exhausted = outcome env x id granted (failure x.lock_text)

    exhausted-Settled :
        (left db : Db C) (b : Bool)
        → (b ≡ false) × (db ≡ left) ⊎ (b ≡ true) × Attempted id granted (failure x.lock_text) db
        → Settled id granted left db (exhausted b)
    exhausted-Settled left db b (inl (e, same)) = pending (ap not e) refl same
    exhausted-Settled left db b (inr (e, attempted)) = recorded (ap not e) attempted

    last_try-Settled :
        (db db' : Db C) (o : WorkerJobOutcome)
        → find_job id db.jobs ≢ none
        → try_job env x zero id granted db ≡ ok (db', o)
        → Settled id granted (others x zero db) db' o
    unfolding try_job
    last_try-Settled db db' o stored h =
        let current = x.meanwhile zero db in
        elim (Result-cases (persist_lock_failure env x id granted x.lock_text current)) [
          | inr (e, f) ↦ absurd (ground arith)
          | inl ((db₁, b), f) ↦ returned-Settled current db₁ db' (exhausted b) o (rw f at h) (
              exhausted-Settled current db₁ b
                (persist_lock_failure-cases x.lock_text current db₁ b (kept zero db stored) f))
        ]

    abbrev tried_at : ℕ → Db C → Engine (Db C × JobResult)
    tried_at n db = tried env x (suc n) id granted (x.meanwhile (suc n) db)

    try_cases :
        (n : ℕ) (db : Db C)
        → ((db' : Db C) × (r : JobResult) × (tried_at n db ≡ ok (db', r))
            × (try_job env x (suc n) id granted db ≡ ok (db', outcome env x id granted r true)))
          ⊎ ((try_job env x (suc n) id granted db
                ≡ try_job env x n id granted (x.meanwhile (suc n) db))
              ⊎ ((e : EngineError) × (try_job env x (suc n) id granted db ≡ err e)))
    unfolding try_job
    try_cases n db = go (tried_at n db) refl
      where
        next : Engine (Db C × JobResult) → Engine (Db C × WorkerJobOutcome)
        next = unless_locked env x id granted (try_job env x n id granted (x.meanwhile (suc n) db))

        go :
            (m : Engine (Db C × JobResult))
            → tried_at n db ≡ m
            → ((db' : Db C) × (r : JobResult) × (tried_at n db ≡ ok (db', r))
                × (try_job env x (suc n) id granted db ≡ ok (db', outcome env x id granted r true)))
              ⊎ ((try_job env x (suc n) id granted db
                    ≡ try_job env x n id granted (x.meanwhile (suc n) db))
                  ⊎ ((e : EngineError) × (try_job env x (suc n) id granted db ≡ err e)))
        go (ok (db', r)) e = inl (db', r, e, ap next e)
        go (err sqlite_locked) e = inr (inl (ap next e))
        go (err other) e = inr (inr (other, ap next e))

    tried-Attempted :
        (n : ℕ) (db db' : Db C) (r : JobResult)
        → tried_at n db ≡ ok (db', r)
        → Attempted id granted r db'
    tried-Attempted n db db' r h = elim (Bool-cases (env.contended (execution id (suc n)))) [
      | inl e ↦ absurd (ground arith)
      | inr e ↦ execute_job_once-Attempted keep (x.meanwhile (suc n) db) db' r (rw e at h)
    ]

    try_job-Settled :
        (n : ℕ) (db db' : Db C) (o : WorkerJobOutcome)
        → find_job id db.jobs ≢ none
        → try_job env x n id granted db ≡ ok (db', o)
        → Settled id granted (others x n db) db' o
    try_job-Settled zero db db' o stored h = last_try-Settled db db' o stored h
    try_job-Settled (suc n) db db' o stored h = elim (try_cases n db) [
      | inl (db₁, r, made, e) ↦
          returned-Settled (others x (suc n) db) db₁ db' (outcome env x id granted r true) o
            (sym e ∙ h) (recorded refl (tried-Attempted n db db₁ r made))
      | inr (inl e) ↦
          try_job-Settled n (x.meanwhile (suc n) db) db' o (kept (suc n) db stored) (sym e ∙ h)
      | inr (inr (e, raised)) ↦ absurd (ground arith)
    ]

    -- Where the row of the job is there, and neither a handler nor another session deletes it,
    -- then however often the database is locked, an execution that returns has left one attempt
    -- with its outcome and its leases as the last of the database, or says that the record of its
    -- failure is pending; then the database is what the other sessions have made of it.
    pub execute_job-Settled :
        (db db' : Db C) (o : WorkerJobOutcome)
        → find_job id db.jobs ≢ none
        → execute_job env x id granted db ≡ ok (db', o)
        → Settled id granted (others x (suc lock_backoffs) db) db' o
    unfolding execute_job
    execute_job-Settled = try_job-Settled (suc lock_backoffs)
