-- ===== src/Jobs/Engine/LiveKeys.antt =====
-- The unique index on the deduplication keys of live jobs (src/sutradhara/jobs/models.py).
use sutradhara.Prelude.{
  ℕ, suc, ◌+◌, ◌≤◌, ◌≡◌, refl, inl, inr, String, true, false, none, some, List, [], ◌∷◌, ◌++◌, Memᴰ,
  arith, if◌then◌else◌, ◌==◌, string_eq, Bool-cases, subst, sym,
}
use sutradhara.Jobs.Model.{Job}
use sutradhara.Jobs.Engine.{Request, new_job, holds_key, live_job_for_dedupe}

-- How many live jobs have a key.
abbrev pub live_count : String → List Job → ℕ
live_count key [] = 0
live_count key (j ∷ jobs) =
    let rest = live_count key jobs in if holds_key key j then suc rest else rest

-- The unique index `uq_job_dedupe_key_live`.
pub record IsUnique (jobs : List Job) : Type 0 where
  pub at_key : (key : String) → live_count key jobs ≤ 1

abbrev pub share : String → Job → ℕ
share key j = if holds_key key j then 1 else 0

pub live_count-append :
    (key : String) (jobs : List Job) (j : Job)
    → live_count key (jobs ++ j ∷ []) ≡ live_count key jobs + share key j
live_count-append key [] j = ground arith
live_count-append key (i ∷ jobs) j = ground (arith, live_count-append key jobs j)

pub live_count-none :
    (key : String) (jobs : List Job) → live_job_for_dedupe key jobs ≡ none → live_count key jobs ≡ 0
unfolding live_job_for_dedupe
live_count-none key [] h = refl
live_count-none key (i ∷ jobs) h = ground (arith, live_count-none key jobs)

pub live_job-holds :
    (key : String) (jobs : List Job) (j : Job)
    → live_job_for_dedupe key jobs ≡ some j
    → (holds_key key j ≡ true) × Memᴰ j jobs
unfolding live_job_for_dedupe
live_job-holds key [] j h = absurd (ground arith)
live_job-holds key (i ∷ jobs) j h = elim (Bool-cases (holds_key key i)) [
  | inl e ↦
      let same : i ≡ j = ground arith in
      (subst (λ k. holds_key key k ≡ true) same e, Memᴰ.head (sym same))
  | inr e ↦ let (a, m) = live_job-holds key jobs j (ground arith) in (a, Memᴰ.tail m)
]

pub new_job-holds :
    (id now : ℕ) (key other : String) (r : Request)
    → r.dedupe_key ≡ some key
    → holds_key other (new_job id now r) ≡ (key == other)
unfolding new_job holds_key
new_job-holds id now key other r h = ground arith

pub new_job-no_key :
    (id now : ℕ) (other : String) (r : Request)
    → r.dedupe_key ≡ none
    → holds_key other (new_job id now r) ≡ false
unfolding new_job holds_key
new_job-no_key id now other r h = ground arith
