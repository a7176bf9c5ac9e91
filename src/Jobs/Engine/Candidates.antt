-- ===== src/Jobs/Engine/Candidates.antt =====
-- Which jobs may be dispatched, and in which order they come (`_pending_candidates`,
-- `_dispatch_gate_allows`, `_prerequisites_succeeded` of src/sutradhara/jobs/engine.py).
use sutradhara.Prelude.{
  ℕ, refl, ◌≤◌, ◌<◌, Option, none, some, all, ltb, Option-cases, ◌≡◌, ◌↔◌, inl, inr, Bool, true,
  false, List, [], ◌∷◌, Memᴰ, All, arith, Bool-cases,
}
use sutradhara.Prelude.Int.{ltb_ℤ, leb_ℤ}
use sutradhara.Jobs.Model.{Job, pending, succeeded}
use sutradhara.Jobs.Store.{Db, find_job}
use sutradhara.Jobs.Engine.{
  Gates, dispatch_gate_allows, prerequisites_succeeded, has_succeeded, before, is_due, may_dispatch,
  pending_candidates,
}
use sutradhara.Jobs.Engine.Order.{NotBefore, IsOrdered, candidates-IsOrdered}

-- One job comes before another: by its priority, then by its age, then by its id.
pub data Precedes (a b : Job) : Type 0 where
  lower_priority : ltb_ℤ a.priority b.priority ≡ true → Precedes a b
  older : leb_ℤ a.priority b.priority ≡ true → a.created_at < b.created_at → Precedes a b
  smaller_id :
      leb_ℤ a.priority b.priority ≡ true → a.created_at ≤ b.created_at → a.id ≤ b.id → Precedes a b

before-Precedes : (a b : Job) → before b a ≡ false → Precedes a b
before-Precedes a b h = elim (Bool-cases (ltb_ℤ a.priority b.priority)) [
  | inl lower ↦ lower_priority lower
  | inr same ↦ elim (Bool-cases (ltb a.created_at b.created_at)) [
    | inl early ↦ older (ground arith) (ground arith)
    | inr late ↦ smaller_id (ground arith) (ground arith) (ground arith)
  ]
]

-- Every job precedes those behind it.
abbrev pub InOrder : List Job → Type 0
InOrder [] = Unit
InOrder (x ∷ xs) = All (Precedes x) xs × InOrder xs

NotBefore-Precedes : (x : Job) (xs : List Job) → NotBefore x xs → All (Precedes x) xs
NotBefore-Precedes x [] n = tt
NotBefore-Precedes x (y ∷ xs) (h, n) = (before-Precedes x y h, NotBefore-Precedes x xs n)

IsOrdered-InOrder : (xs : List Job) → IsOrdered xs → InOrder xs
IsOrdered-InOrder [] o = tt
IsOrdered-InOrder (x ∷ xs) (n, o) = (NotBefore-Precedes x xs n, IsOrdered-InOrder xs o)

-- The job of a prerequisite is there, and it succeeded.
abbrev pub Succeeded : List Job → ℕ → Type 0
Succeeded jobs id = (p : Job) × (find_job id jobs ≡ some p) × (p.status ≡ succeeded)

has_succeeded-Succeeded :
    (jobs : List Job) (id : ℕ) → has_succeeded (find_job id jobs) ≡ true → Succeeded jobs id
has_succeeded-Succeeded jobs id h = elim (Option-cases (find_job id jobs)) [
  | inl gone ↦ absurd (ground arith)
  | inr (p, found) ↦ (p, found, ground arith)
]

Succeeded-true :
    (jobs : List Job) (id : ℕ) → Succeeded jobs id → has_succeeded (find_job id jobs) ≡ true
Succeeded-true jobs id (p, found, status) = ground arith

prerequisites-Succeeded :
    (jobs : List Job) (ids : List ℕ)
    → all (λ id. has_succeeded (find_job id jobs)) ids ≡ true
    → All (Succeeded jobs) ids
prerequisites-Succeeded jobs [] h = tt
prerequisites-Succeeded jobs (id ∷ ids) h = (
  has_succeeded-Succeeded jobs id (ground arith),
  prerequisites-Succeeded jobs ids (ground arith),
)

All-Succeeded :
    (jobs : List Job) (ids : List ℕ)
    → All (Succeeded jobs) ids
    → all (λ id. has_succeeded (find_job id jobs)) ids ≡ true
All-Succeeded jobs [] a = refl
All-Succeeded jobs (id ∷ ids) (s, a) =
    ground (arith, Succeeded-true jobs id s, All-Succeeded jobs ids a)

module _ {C : Type 0} (gates : Gates C) (now : ℕ) (db : Db C) where
  -- The gate of the job's kind is not there, or raises, or lets the job pass.
  pub data GateAllows (j : Job) : Type 0 where
    no_gate : gates j.kind ≡ none → GateAllows j
    gate_raises :
        (gate : Db C → Job → Option Bool)
        → gates j.kind ≡ some gate
        → gate db j ≡ none
        → GateAllows j
    gate_passes :
        (gate : Db C → Job → Option Bool)
        → gates j.kind ≡ some gate
        → gate db j ≡ some true
        → GateAllows j

  -- What makes a job of the table a candidate.
  pub record Dispatchable (j : Job) : Type 0 where
    pub stored : Memᴰ j db.jobs
    pub waits : j.status ≡ pending
    pub due : j.not_before ≤ now
    pub prerequisites : All (Succeeded db.jobs) j.prerequisites
    pub gate : GateAllows j

  allowed-GateAllows : (j : Job) → dispatch_gate_allows gates db j ≡ true → GateAllows j
  unfolding dispatch_gate_allows
  allowed-GateAllows j h = elim (Option-cases (gates j.kind)) [
    | inl none' ↦ no_gate none'
    | inr (gate, there) ↦ elim (Option-cases (gate db j)) [
      | inl raised ↦ gate_raises gate there raised
      | inr (true, passed) ↦ gate_passes gate there passed
      | inr (false, refused) ↦ absurd (ground arith)
    ]
  ]

  GateAllows-allowed : (j : Job) → GateAllows j → dispatch_gate_allows gates db j ≡ true
  unfolding dispatch_gate_allows
  GateAllows-allowed j (no_gate e) = ground arith
  GateAllows-allowed j (gate_raises gate e r) = ground arith
  GateAllows-allowed j (gate_passes gate e r) = ground arith

  Dispatchable-of :
      (j : Job)
      → Memᴰ j db.jobs
      → is_due now j ≡ true
      → may_dispatch gates db j ≡ true
      → Dispatchable j
  unfolding prerequisites_succeeded
  Dispatchable-of j stored due_now may = record {
    stored = stored;
    waits = ground arith;
    due = ground arith;
    prerequisites = prerequisites-Succeeded db.jobs j.prerequisites (ground arith);
    gate = allowed-GateAllows j (ground arith);
  }

  is_due-of : (j : Job) → Dispatchable j → is_due now j ≡ true
  is_due-of j d = ground (arith, d.waits, d.due)

  may_dispatch-of : (j : Job) → Dispatchable j → may_dispatch gates db j ≡ true
  unfolding prerequisites_succeeded
  may_dispatch-of j d =
      ground
        (arith, All-Succeeded db.jobs j.prerequisites d.prerequisites, GateAllows-allowed j d.gate)

  -- The candidates are exactly the jobs of the table that are pending, not before their time,
  -- whose prerequisites are all there and succeeded, and whose kind has no gate, or one that
  -- raises or lets the job pass; and each of them precedes those behind it, by its priority, then
  -- its age, then its id.
  pub pending_candidates_exact :
      ((j : Job) → Memᴰ j (pending_candidates gates now db) ↔ Dispatchable j)
      × InOrder (pending_candidates gates now db)
  pending_candidates_exact =
      let (exact, ordered) = candidates-IsOrdered gates now db in
      (
        λ j. (
          λ m. let (stored, due_now, may) = (exact j).0 m in Dispatchable-of j stored due_now may,
          λ d. (exact j).1 (d.stored, is_due-of j d, may_dispatch-of j d),
        ),
        IsOrdered-InOrder (pending_candidates gates now db) ordered,
      )
