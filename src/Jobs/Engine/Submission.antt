-- ===== src/Jobs/Engine/Submission.antt =====
-- Deduplication of submitted jobs (`submit` of src/sutradhara/jobs/engine.py): what a
-- submission leaves in the table, whatever other sessions commit meanwhile.
use sutradhara.Prelude.{
  ℕ, ◌≡◌, refl, inl, inr, String, true, none, some, List, [], ◌∷◌, ◌++◌, Memᴰ, arith, string_eq, ok,
  err, Option-cases, subst, sym, ◌∙◌,
}
use mathlib.Core.Option.{some-injective}
use sutradhara.Jobs.Model.{Job}
use sutradhara.Jobs.Store.{Db}
use sutradhara.Jobs.Engine.{
  Engine, Request, integrity, new_job, holds_key, live_job_for_dedupe, add_job, insert_unique,
  submit_keyed, submit,
}
use sutradhara.Jobs.Engine.LiveKeys.{
  IsUnique, share, live_count-append, live_count-none, live_job-holds, new_job-holds,
  new_job-no_key,
}

Mem-append_last : (jobs : List Job) (j : Job) → Memᴰ j (jobs ++ j ∷ [])
Mem-append_last [] j = Memᴰ.head refl
Mem-append_last (i ∷ jobs) j = Memᴰ.tail (Mem-append_last jobs j)

-- What a submission promises of the database and the job that it returns.
pub record Submitted {C : Type 0} (r : Request) (db : Db C) (job : Job) : Type 0 where
  pub unique : IsUnique db.jobs
  pub stored : Memᴰ job db.jobs
  pub holds : (key : String) → r.dedupe_key ≡ some key → holds_key key job ≡ true

module _ {C : Type 0} (now : ℕ) (r : Request) (db : Db C) (unique : IsUnique db.jobs) where
  add_job-Memᴰ : Memᴰ (add_job now r db).1 (add_job now r db).0.jobs
  unfolding add_job
  add_job-Memᴰ = Mem-append_last db.jobs (new_job db.next_job_id now r)

  add_job-unkeyed : r.dedupe_key ≡ none → Submitted r (add_job now r db).0 (add_job now r db).1
  unfolding add_job
  add_job-unkeyed h = record {
    unique = record {
      at_key = λ key. omega (
        arith,
        unique.at_key key,
        live_count-append key db.jobs (new_job db.next_job_id now r),
        no_share key,
      );
    };
    stored = add_job-Memᴰ;
    holds = λ key e. ground arith;
  }
    where
      no_share : (key : String) → share key (new_job db.next_job_id now r) ≡ 0
      no_share key = ground (arith, new_job-no_key db.next_job_id now key r h)

  add_job-keyed :
      (key : String)
      → r.dedupe_key ≡ some key
      → live_job_for_dedupe key db.jobs ≡ none
      → Submitted r (add_job now r db).0 (add_job now r db).1
  unfolding add_job
  add_job-keyed key h free = record {
    unique = record {
      at_key = λ other. ground (
        arith,
        unique.at_key other,
        string_eq.same_iff key other,
        live_count-none key db.jobs free,
        live_count-append other db.jobs (new_job db.next_job_id now r),
        new_job-holds db.next_job_id now key other r h,
      );
    };
    stored = add_job-Memᴰ;
    holds = λ other e.
        ground
          (arith, string_eq.same_iff key other, new_job-holds db.next_job_id now key other r h);
  }

-- What other sessions commit respects the unique index.
pub record KeepsUnique {C : Type 0} (f : Db C → Db C) : Type 0 where
  pub keeps : (db : Db C) → IsUnique db.jobs → IsUnique (f db).jobs

-- A postcondition of a call that may raise.
abbrev OnReturn : {C : Type 0} → Request → Engine (Db C × Job) → Type 0
OnReturn r (ok p) = Submitted r p.0 p.1
OnReturn r (err _) = Unit

module _ {C : Type 0} {r : Request} {m : Engine (Db C × Job)} where
  OnReturn-ok : {p : Db C × Job} → m ≡ ok p → Submitted r p.0 p.1 → OnReturn r m
  OnReturn-ok e s = subst (OnReturn r) (sym e) s

module _ {C : Type 0} (between late : Db C → Db C) (now : ℕ) (r : Request) where
  existing-Submitted :
      (key : String) (db : Db C) (job : Job)
      → IsUnique db.jobs
      → r.dedupe_key ≡ some key
      → live_job_for_dedupe key db.jobs ≡ some job
      → Submitted r db job
  existing-Submitted key db job unique h e =
      let (holds, stored) = live_job-holds key db.jobs job e in
      record {
        unique = unique;
        stored = stored;
        holds =
            λ other o. subst (λ k. holds_key k job ≡ true) (some-injective _ _ (sym h ∙ o)) holds;
      }

  insert_gone :
      (key : String) (db : Db C) (j : Job)
      → live_job_for_dedupe key db.jobs ≡ some j
      → live_job_for_dedupe key (late db).jobs ≡ none
      → insert_unique late now key r db ≡ err integrity
  unfolding insert_unique
  insert_gone key db j taken gone = ground arith

  insert_unique-OnReturn :
      (key : String) (db : Db C)
      → KeepsUnique late
      → IsUnique db.jobs
      → r.dedupe_key ≡ some key
      → OnReturn r (insert_unique late now key r db)
  unfolding insert_unique
  insert_unique-OnReturn key db l unique h = elim (Option-cases (live_job_for_dedupe key db.jobs)) [
    | inl free ↦ OnReturn-ok (ground arith) (add_job-keyed now r db unique key h free)
    | inr (j, taken) ↦ elim (Option-cases (live_job_for_dedupe key (late db).jobs)) [
      | inl gone ↦ subst (OnReturn r) (sym (insert_gone key db j taken gone)) tt
      | inr (k, found) ↦
          OnReturn-ok (ground arith)
            (existing-Submitted key (late db) k (l.keeps db unique) h found)
    ]
  ]

  submit_free :
      (key : String) (db : Db C)
      → r.dedupe_key ≡ some key
      → live_job_for_dedupe key db.jobs ≡ none
      → submit between late now r db ≡ insert_unique late now key r (between db)
  unfolding submit submit_keyed
  submit_free key db h free = ground arith

  submit-OnReturn :
      (db : Db C)
      → KeepsUnique between
      → KeepsUnique late
      → IsUnique db.jobs
      → OnReturn r (submit between late now r db)
  unfolding submit
  submit-OnReturn db b l unique = elim (Option-cases r.dedupe_key) [
    | inl unkeyed ↦ OnReturn-ok (ground arith) (add_job-unkeyed now r db unique unkeyed)
    | inr (key, h) ↦ elim (Option-cases (live_job_for_dedupe key db.jobs)) [
      | inl free ↦
          subst (OnReturn r) (sym (submit_free key db h free))
            (insert_unique-OnReturn key (between db) l (b.keeps db unique) h)
      | inr (j, found) ↦ OnReturn-ok (ground arith) (existing-Submitted key db j unique h found)
    ]
  ]

  -- Whatever other sessions commit meanwhile, as long as they respect the unique index, a submission
  -- that returns leaves at most one live job under each key, and its job is in the table and, if the
  -- request has a key, live under that key.
  pub submit-Submitted :
      (db db' : Db C) (job : Job)
      → KeepsUnique between
      → KeepsUnique late
      → IsUnique db.jobs
      → submit between late now r db ≡ ok (db', job)
      → Submitted r db' job
  submit-Submitted db db' job b l unique e = rw e at (submit-OnReturn db b l unique)

-- Where no other session commits between the refused flush and the second lookup, a submission
-- returns, whatever others committed before.
submission_returns :
    {C : Type 0} (between : Db C → Db C) (now : ℕ) (r : Request) (db : Db C)
    → (db' : Db C) × (job : Job) × (submit between (λ d. d) now r db ≡ ok (db', job))
submission_returns between now r db = elim (Option-cases r.dedupe_key) [
  | inl unkeyed ↦ ((add_job now r db).0, (add_job now r db).1, unfold submit in ground arith)
  | inr (key, h) ↦ elim (Option-cases (live_job_for_dedupe key db.jobs)) [
    | inr (j, found) ↦ (db, j, unfold submit submit_keyed in ground arith)
    | inl free ↦ elim (Option-cases (live_job_for_dedupe key (between db).jobs)) [
      | inl still ↦ (
        (add_job now r (between db)).0,
        (add_job now r (between db)).1,
        submit_free between (λ d. d) now r key db h free ∙ (unfold insert_unique in ground arith),
      )
      | inr (j, found) ↦ (
        between db,
        j,
        submit_free between (λ d. d) now r key db h free ∙ (unfold insert_unique in ground arith),
      )
    ]
  ]
]
