-- ===== src/Jobs/Run/Sequence.antt =====
-- The sequential run of pending jobs (`run_pending` of src/sutradhara/jobs/engine.py). Nothing is
-- committed in between. `at n` is the clock of the n-th turn; a limit that is not positive is 0, and
-- then a handler that submits jobs may keep the loop going, so the loop runs on fuel.
use sutradhara.Prelude.{
  ℕ, zero, suc, ◌+◌, ◌≤◌, ◌<◌, ◌≡◌, refl, ◌⊎◌, inl, inr, Option, none, some, List, [], ◌∷◌, length,
  String, Bool, true, false, not, if◌then◌else◌, nat_eq, sym, subst, arith, ok, err, Result-cases,
}
use sutradhara.Prelude.Int.{ℤ}
use sutradhara.Jobs.Leases.{LeaseManager}
use sutradhara.Jobs.Store.{Db}
use sutradhara.Jobs.Engine.{Engine, Gates, claim_pending}
use sutradhara.Jobs.Run.{Instants, JobResult, Handler, run_one}
use sutradhara.Jobs.Run.Outcome.{Ended}
use sutradhara.Jobs.Run.Ended.{KeepsRow, run_one-Ended}

abbrev pub Ran : Type 0
Ran = List (ℕ × JobResult)

-- The job that was run first, before the others of the loop.
abbrev pub before_rest : {C : Type 0} → ℕ × JobResult → Engine (Db C × Ran) → Engine (Db C × Ran)
before_rest x (err e) = err e
before_rest x (ok (db, rest)) = ok (db, x ∷ rest)

abbrev pub before_rest_if :
    {C : Type 0} → ℕ × JobResult → Option (Engine (Db C × Ran)) → Option (Engine (Db C × Ran))
before_rest_if x none = none
before_rest_if x (some out) = some (before_rest x out)

-- `limit if limit > 0 else None`
abbrev pub remaining_of : ℕ → Option ℕ
remaining_of zero = none
remaining_of (suc n) = some (suc n)

abbrev pub one_less : Option ℕ → Option ℕ
one_less none = none
one_less (some zero) = some zero
one_less (some (suc n)) = some n

-- `remaining is None or remaining > 0`
abbrev pub goes_on : Option ℕ → Bool
goes_on none = true
goes_on (some zero) = false
goes_on (some (suc n)) = true

module _ {C : Type 0} (at : ℕ → Instants) (hostname : String) (str_int : ℤ → String)
    (unregistered : String → String) (handlers : String → Option (Handler C)) (committed : Db C)
    (gates : Gates C) (manager : LeaseManager) where
  unfoldable pub run_loop : ℕ → ℕ → Option ℕ → Db C → Option (Engine (Db C × Ran))
  run_loop zero turn remaining db = none
  run_loop (suc fuel) turn remaining db =
      if not (goes_on remaining)
      then some (ok (db, []))
      else elim (claim_pending gates manager (at turn).claimed_at db) [
        | err e ↦ some (err e)
        | ok none ↦ some (ok (db, []))
        | ok (some (claimed, job)) ↦
            elim (run_one (at turn) hostname str_int unregistered handlers committed [] job.id
              claimed) [
                | err e ↦ some (err e)
                | ok (db', r) ↦
                    before_rest_if (job.id, r) (run_loop fuel (suc turn) (one_less remaining) db')
              ]
      ]

  unfoldable pub run_pending : ℕ → ℕ → Db C → Option (Engine (Db C × Ran))
  unfolding run_loop
  run_pending fuel limit db = run_loop fuel 0 (remaining_of limit) db

  -- The last of the jobs that were run has ended, as its result says; with none the database is as at
  -- the start.
  abbrev pub LastEnded : ℕ → Db C → Ran → Db C → Type 0
  LastEnded turn start [] db = db ≡ start
  LastEnded turn start ((id, r) ∷ []) db = Ended (at turn) [] id r db
  LastEnded turn start (_ ∷ x ∷ rs) db = LastEnded (suc turn) start (x ∷ rs) db

  -- What a loop that may run `limit` more jobs ends with.
  abbrev pub Stopped : ℕ → ℕ → Db C → Engine (Db C × Ran) → Type 0
  Stopped turn limit start (err e) = Unit {0}
  Stopped turn limit start (ok (db, rs)) =
      (length rs ≤ limit)
      × LastEnded turn start rs db
      × ((length rs ≡ limit)
          ⊎ (claim_pending gates manager (at (turn + length rs)).claimed_at db ≡ ok none))

  LastEnded-later :
      (turn : ℕ) (start start' db : Db C) (x : ℕ × JobResult) (rs : Ran)
      → LastEnded turn start (x ∷ rs) db
      → LastEnded turn start' (x ∷ rs) db
  LastEnded-later turn start start' db x [] e = e
  LastEnded-later turn start start' db x (y ∷ rs) e =
      LastEnded-later (suc turn) start start' db y rs e

  Stopped-before :
      (turn limit id : ℕ) (r : JobResult) (start db : Db C) (out : Engine (Db C × Ran))
      → Ended (at turn) [] id r db
      → Stopped (suc turn) limit db out
      → Stopped turn (suc limit) start (before_rest (id, r) out)
  Stopped-before turn limit id r start db (err e) ended s = tt
  Stopped-before turn limit id r start db (ok (db', [])) ended (l, last, end) = (
    omega arith,
    subst (Ended (at turn) [] id r) (sym last) ended,
    elim end [
      | inl e ↦ inl (omega arith)
      | inr e ↦
          inr (
            subst (λ n. claim_pending gates manager (at n).claimed_at db' ≡ ok none) (omega arith)
              e)
    ],
  )
  Stopped-before turn limit id r start db (ok (db', x ∷ rs)) ended (l, last, end) = (
    omega arith,
    LastEnded-later (suc turn) db start db' x rs last,
    elim end [
      | inl e ↦ inl (omega arith)
      | inr e ↦
          inr (
            subst (λ n. claim_pending gates manager (at n).claimed_at db' ≡ ok none) (omega arith)
              e)
    ],
  )

  module _
      (keep : (kind : String) (handler : Handler C)
        → handlers kind ≡ some handler
        → KeepsRow handler) where
    run_loop-Stopped :
        (limit fuel turn : ℕ) (db : Db C)
        → limit < fuel
        → (out : Engine (Db C × Ran)) × (run_loop fuel turn (some limit) db ≡ some out)
          × Stopped turn limit db out
    unfolding run_loop
    run_loop-Stopped limit zero turn db l = absurd (omega arith)
    run_loop-Stopped zero (suc fuel) turn db l = (ok (db, []), refl, (omega arith, refl, inl refl))
    run_loop-Stopped (suc limit) (suc fuel) turn db l =
        elim (Result-cases (claim_pending gates manager (at turn).claimed_at db)) [
          | inr (e, failed) ↦ (err e, ground (arith, failed), tt)
          | inl (none, idle) ↦ (
            ok (db, []),
            ground (arith, idle),
            (
              omega arith,
              refl,
              inr (
                  subst (λ n. claim_pending gates manager (at n).claimed_at db ≡ ok none)
                    (omega arith) idle),
            ),
          )
          | inl (some (claimed, job), taken) ↦
              elim (Result-cases (
                run_one (at turn) hostname str_int unregistered handlers committed [] job.id
                  claimed)) [
                    | inr (e, failed) ↦ (err e, ground (arith, taken, failed), tt)
                    | inl ((db', r), done) ↦
                        let (out, eq, s) =
                          run_loop-Stopped limit fuel (suc turn) db' (omega arith) in
                        let ended =
                          run_one-Ended (at turn) hostname str_int unregistered handlers committed
                            [] keep job.id claimed db' r done in
                        (
                          before_rest (job.id, r) out,
                          ground (arith, taken, done, eq),
                          Stopped-before turn limit job.id r db db' out ended s,
                        )
                  ]
        ]

    -- Where the limit is positive and no handler deletes the row of its job, fuel for one turn
    -- more than the limit is enough for a run of pending jobs. If no turn raises, it has run at
    -- most as many jobs as the limit, the last of them has ended as its result says, and it
    -- stopped at the limit or since nothing could be claimed from the database that it leaves.
    pub run_pending-Stopped :
        (limit fuel : ℕ) (db : Db C)
        → 0 < limit
        → limit < fuel
        → (out : Engine (Db C × Ran)) × (run_pending fuel limit db ≡ some out)
          × Stopped 0 limit db out
    unfolding run_pending
    run_pending-Stopped zero fuel db positive enough = absurd (omega arith)
    run_pending-Stopped (suc n) fuel db positive enough = run_loop-Stopped (suc n) fuel 0 db enough
