-- ===== src/Jobs/Store/Rows.antt =====
-- Reading and writing job rows by id (src/sutradhara/jobs/engine.py).
use sutradhara.Prelude.{ℕ, ◌≡◌, refl, ◌≢◌, none, some, List, [], ◌∷◌, arith, map}
use sutradhara.Jobs.Model.{Job}
use sutradhara.Jobs.Store.{find_job, save_job}

pub id_of_find : (id : ℕ) (job : Job) (jobs : List Job) → find_job id jobs ≡ some job → job.id ≡ id
unfolding find_job
id_of_find id job [] h = cc
id_of_find id job (j ∷ jobs) h = ground (arith, id_of_find id job jobs)

pub find-save_self :
    (job : Job) (jobs : List Job)
    → find_job job.id jobs ≢ none
    → find_job job.id (save_job job jobs) ≡ some job
unfolding find_job save_job
find-save_self job [] h = absurd (h refl)
find-save_self job (j ∷ jobs) h = ground (arith, find-save_self job jobs)

pub find-save_ne :
    (id : ℕ) (job : Job) (jobs : List Job)
    → id ≢ job.id
    → find_job id (save_job job jobs) ≡ find_job id jobs
unfolding find_job save_job
find-save_ne id job [] h = refl
find-save_ne id job (j ∷ jobs) h = ground (arith, find-save_ne id job jobs)

pub find-map :
    (f : Job → Job) (id : ℕ) (jobs : List Job)
    → ((j : Job) → (f j).id ≡ j.id)
    → find_job id (map f jobs) ≡ elim (find_job id jobs) [ none ↦ none | some j ↦ some (f j) ]
unfolding find_job
find-map f id [] h = refl
find-map f id (j ∷ jobs) h = ground (arith, h j, find-map f id jobs h)
