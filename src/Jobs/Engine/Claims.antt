-- ===== src/Jobs/Engine/Claims.antt =====
-- The guarded claim of a job (`_claim_job_by_id` of src/sutradhara/jobs/engine.py).
use sutradhara.Prelude.{
  if◌then◌else◌, ◌==◌, nat_eq, ℕ, suc, ◌≡◌, refl, subst, inl, inr, true, false, none, some, List,
  arith, Bool-cases, Option-cases, ◌∙◌,
}
use sutradhara.Jobs.Model.{Job, is_pending, running}
use sutradhara.Jobs.Store.{Db, find_job, save_job, put_job}
use sutradhara.Jobs.Store.Rows.{find-save_self, find-save_ne, id_of_find}
use sutradhara.Jobs.Engine.{claimed_row, claim_job_by_id}

claimed_id : (now : ℕ) (j : Job) → (claimed_row now j).id ≡ j.id
unfolding claimed_row
claimed_id now j = refl

claimed_busy : (now : ℕ) (j : Job) → is_pending (claimed_row now j).status ≡ false
unfolding claimed_row
claimed_busy now j = refl

-- Reading a claimed row back.
find_claimed :
    (id now : ℕ) (j : Job) (jobs : List Job)
    → find_job id jobs ≡ some j
    → find_job id (save_job (claimed_row now j) jobs) ≡ some (claimed_row now j)
find_claimed id now j jobs found =
    subst (λ i. find_job i (save_job (claimed_row now j) jobs) ≡ some (claimed_row now j)) same
      (find-save_self (claimed_row now j) jobs (λ e. cc (same, found, e)))
  where
    same : (claimed_row now j).id ≡ id
    same = claimed_id now j ∙ id_of_find id j jobs found

claim_busy :
    {C : Type 0} (now : ℕ) (db : Db C) (id : ℕ) (j : Job)
    → find_job id db.jobs ≡ some j
    → is_pending j.status ≡ false
    → claim_job_by_id id now db ≡ none
unfolding claim_job_by_id
claim_busy now db id j found busy = ground arith

-- What a claim makes of the row of a pending job, column by column.
pub record Claimed (now : ℕ) (j row : Job) : Type 0 where
  pub status : row.status ≡ running
  pub attempts : row.attempts ≡ suc j.attempts
  pub started : row.started_at ≡ some now
  pub finished : row.finished_at ≡ none
  pub others :
      record row {
        status = j.status;
        attempts = j.attempts;
        started_at = j.started_at;
        finished_at = j.finished_at;
      }
      ≡ j

pub claimed_row-Claimed : (now : ℕ) (j : Job) → Claimed now j (claimed_row now j)
unfolding claimed_row
claimed_row-Claimed now j = record {
  status = refl;
  attempts = omega arith;
  started = refl;
  finished = refl;
  others = refl;
}

module _ {C : Type 0} (now : ℕ) (db : Db C) where
  claim_stores :
      (id : ℕ) (j : Job)
      → find_job id db.jobs ≡ some j
      → is_pending j.status ≡ true
      → (db' : Db C) × (claim_job_by_id id now db ≡ some (db', claimed_row now j))
        × ((other : ℕ)
            → find_job other db'.jobs
              ≡ (if id == other then some (claimed_row now j) else find_job other db.jobs))
        × (record db' { jobs = db.jobs } ≡ db)
        × ((later : ℕ) → claim_job_by_id id later db' ≡ none)
  unfolding claim_job_by_id
  claim_stores id j found idle = (
    put_job (claimed_row now j) db,
    ground arith,
    λ other. elim (Bool-cases (id == other)) [
      | inl e ↦ rw e (
          subst (λ k. find_job k (save_job (claimed_row now j) db.jobs) ≡ some (claimed_row now j))
            ((nat_eq.same_iff id other).0 e) (find_claimed id now j db.jobs found))
      | inr e ↦ rw e (
          find-save_ne other (claimed_row now j) db.jobs (λ same. ground (
            arith,
            nat_eq.same_iff id other,
            same,
            claimed_id now j,
            id_of_find id j db.jobs found,
          )))
    ],
    refl,
    λ later. again later,
  )
    where
      again : (later : ℕ) → claim_job_by_id id later (put_job (claimed_row now j) db) ≡ none
      again later =
          claim_busy later (put_job (claimed_row now j) db) id (claimed_row now j)
            (find_claimed id now j db.jobs found) (claimed_busy now j)

  -- A claim of a pending job succeeds: its row is running with one more attempt, started now and
  -- not finished, and is otherwise as before; the table has that row under its id, every other row
  -- and table is as before, and no second claim of the id succeeds.
  pub claim_once :
      (id : ℕ) (j : Job)
      → find_job id db.jobs ≡ some j
      → is_pending j.status ≡ true
      → (db' : Db C) × (row : Job) × (claim_job_by_id id now db ≡ some (db', row))
        × Claimed now j row
        × ((other : ℕ)
            → find_job other db'.jobs ≡ (if id == other then some row else find_job other db.jobs))
        × (record db' { jobs = db.jobs } ≡ db)
        × ((later : ℕ) → claim_job_by_id id later db' ≡ none)
  claim_once id j found idle =
      let (db', claimed, stored, tables, again) = claim_stores id j found idle in
      (db', claimed_row now j, claimed, claimed_row-Claimed now j, stored, tables, again)

-- Nothing but a pending row is claimed.
pub claim_refused :
    {C : Type 0} (id now : ℕ) (db db' : Db C) (row : Job)
    → claim_job_by_id id now db ≡ some (db', row)
    → (j : Job) × (find_job id db.jobs ≡ some j)
      × (is_pending j.status ≡ true)
      × (row ≡ claimed_row now j)
claim_refused id now db db' row h = elim (Option-cases (find_job id db.jobs)) [
  | inl none' ↦ absurd (unfold claim_job_by_id in ground arith)
  | inr (j, found) ↦ elim (Bool-cases (is_pending j.status)) [
    | inl idle ↦ (j, found, idle, unfold claim_job_by_id in ground arith)
    | inr busy ↦ absurd (ground (arith, claim_busy now db id j found busy))
  ]
]

-- The row of a claim is stored under its id.
pub claim-stored :
    {C : Type 0} (id now : ℕ) (db db' : Db C) (row : Job)
    → claim_job_by_id id now db ≡ some (db', row)
    → (find_job id db'.jobs ≡ some row) × (row.id ≡ id)
claim-stored id now db db' row h =
    let (j, found, idle, same) = claim_refused id now db db' row h in
    let (db₁, claimed, stored, _, _) = claim_stores now db id j found idle in
    let here : find_job id db'.jobs ≡ some row = ground (arith, nat_eq.same_iff id id, stored id) in
    (here, id_of_find id row db'.jobs here)
