-- ===== src/Jobs/Engine/Order.antt =====
-- The order of the candidates for dispatch
-- (`_pending_candidates` of src/sutradhara/jobs/engine.py).
use sutradhara.Prelude.{
  ℕ, ◌≡◌, ◌↔◌, ◌⊎◌, inl, inr, Bool, true, false, List, [], ◌∷◌, Memᴰ, All, filter, arith,
  Bool-cases, Mem-cons, Mem-filter, Mem-filter_of, All-filter,
}
use sutradhara.Jobs.Model.{Job}
use sutradhara.Jobs.Store.{Db}
use sutradhara.Jobs.Engine.{
  Gates, before, insert_ordered, order_jobs, is_due, may_dispatch, pending_candidates,
}

before_asymmetric : (x y : Job) → before x y ≡ true → before y x ≡ false
before_asymmetric x y h = ground arith

-- what is not before `y`, which is not before `z`, is not before `z`
before_negative : (x y z : Job) → before x y ≡ false → before y z ≡ false → before x z ≡ false
before_negative x y z h k = ground arith

abbrev pub NotBefore : Job → List Job → Type 0
NotBefore x = All (λ y. before y x ≡ false)

-- No job of the list comes before an earlier one by priority, then age, then id.
abbrev pub IsOrdered : List Job → Type 0
IsOrdered [] = Unit
IsOrdered (x ∷ xs) = NotBefore x xs × IsOrdered xs

NotBefore-weaken :
    (x y : Job) (xs : List Job) → before x y ≡ false → NotBefore x xs → NotBefore y xs
NotBefore-weaken x y [] h n = tt
NotBefore-weaken x y (z ∷ xs) h (k, n) = (before_negative z x y k h, NotBefore-weaken x y xs h n)

NotBefore-insert :
    (x j : Job) (xs : List Job)
    → before j x ≡ false
    → NotBefore x xs
    → NotBefore x (insert_ordered j xs)
unfolding insert_ordered
NotBefore-insert x j [] h n = (h, tt)
NotBefore-insert x j (y ∷ xs) h (k, n) = elim (Bool-cases (before y j)) [
  | inl e ↦ rw e (k, NotBefore-insert x j xs h n)
  | inr e ↦ rw e (h, (k, n))
]

insert-IsOrdered : (j : Job) (xs : List Job) → IsOrdered xs → IsOrdered (insert_ordered j xs)
unfolding insert_ordered
insert-IsOrdered j [] o = (tt, tt)
insert-IsOrdered j (x ∷ xs) (n, o) = elim (Bool-cases (before x j)) [
  | inl e ↦ rw e (NotBefore-insert x j xs (before_asymmetric x j e) n, insert-IsOrdered j xs o)
  | inr e ↦ rw e ((e, NotBefore-weaken x j xs e n), (n, o))
]

order_jobs-IsOrdered : (xs : List Job) → IsOrdered (order_jobs xs)
unfolding order_jobs
order_jobs-IsOrdered [] = tt
order_jobs-IsOrdered (x ∷ xs) = insert-IsOrdered x (order_jobs xs) (order_jobs-IsOrdered xs)

filter-IsOrdered : (p : Job → Bool) (xs : List Job) → IsOrdered xs → IsOrdered (filter p xs)
filter-IsOrdered p [] o = tt
filter-IsOrdered p (x ∷ xs) (n, o) = elim (Bool-cases (p x)) [
  | inl e ↦ rw e (All-filter p (λ y. before y x ≡ false) xs n, filter-IsOrdered p xs o)
  | inr e ↦ rw e (filter-IsOrdered p xs o)
]

module _ (j : Job) {k : Job} where
  Mem-insert : (xs : List Job) → Memᴰ k (insert_ordered j xs) → (k ≡ j) ⊎ Memᴰ k xs
  unfolding insert_ordered
  Mem-insert [] m = Mem-cons m
  Mem-insert (x ∷ xs) m = elim (Bool-cases (before x j)) [
    | inl e ↦ elim (Mem-cons (rw e at m)) [
      | inl h ↦ inr (Memᴰ.head h)
      | inr r ↦ elim (Mem-insert xs r) [ inl h ↦ inl h | inr q ↦ inr (Memᴰ.tail q) ]
    ]
    | inr e ↦ Mem-cons (rw e at m)
  ]

  Mem-insert_of : (xs : List Job) → (k ≡ j) ⊎ Memᴰ k xs → Memᴰ k (insert_ordered j xs)
  unfolding insert_ordered
  Mem-insert_of [] (inl h) = Memᴰ.head h
  Mem-insert_of [] (inr m) = elim m [ ]
  Mem-insert_of (x ∷ xs) m = elim (Bool-cases (before x j)) [
    | inl e ↦ rw e (elim m [
      | inl h ↦ Memᴰ.tail (Mem-insert_of xs (inl h))
      | inr r ↦ elim (Mem-cons r) [
        | inl h ↦ Memᴰ.head h
        | inr q ↦ Memᴰ.tail (Mem-insert_of xs (inr q))
      ]
    ])
    | inr e ↦ rw e (elim m [ inl h ↦ Memᴰ.head h | inr r ↦ Memᴰ.tail r ])
  ]

module _ {k : Job} where
  Mem-order : (xs : List Job) → Memᴰ k (order_jobs xs) → Memᴰ k xs
  unfolding order_jobs
  Mem-order [] m = m
  Mem-order (x ∷ xs) m = elim (Mem-insert x (order_jobs xs) m) [
    | inl h ↦ Memᴰ.head h
    | inr r ↦ Memᴰ.tail (Mem-order xs r)
  ]

  Mem-order_of : (xs : List Job) → Memᴰ k xs → Memᴰ k (order_jobs xs)
  unfolding order_jobs
  Mem-order_of [] m = m
  Mem-order_of (x ∷ xs) m = elim (Mem-cons m) [
    | inl h ↦ Mem-insert_of x (order_jobs xs) (inl h)
    | inr r ↦ Mem-insert_of x (order_jobs xs) (inr (Mem-order_of xs r))
  ]

module _ {C : Type 0} (gates : Gates C) (now : ℕ) (db : Db C) where
  -- The candidates by the tests of the code.
  pub candidates-IsOrdered :
      ((j : Job)
        → Memᴰ j (pending_candidates gates now db)
          ↔ (Memᴰ j db.jobs × (is_due now j ≡ true) × (may_dispatch gates db j ≡ true)))
      × IsOrdered (pending_candidates gates now db)
  unfolding pending_candidates
  candidates-IsOrdered = (
    λ j. (from j, to j),
    filter-IsOrdered (may_dispatch gates db) (order_jobs due) (order_jobs-IsOrdered due),
  )
    where
      due : List Job
      due = filter (is_due now) db.jobs

      from :
          (j : Job)
          → Memᴰ j (filter (may_dispatch gates db) (order_jobs due))
          → Memᴰ j db.jobs × (is_due now j ≡ true) × (may_dispatch gates db j ≡ true)
      from j m =
          let (ordered, allowed) = Mem-filter (may_dispatch gates db) (order_jobs due) m in
          let (stored, due_now) = Mem-filter (is_due now) db.jobs (Mem-order due ordered) in
          (stored, due_now, allowed)

      to :
          (j : Job)
          → Memᴰ j db.jobs × (is_due now j ≡ true) × (may_dispatch gates db j ≡ true)
          → Memᴰ j (filter (may_dispatch gates db) (order_jobs due))
      to j (stored, due_now, allowed) =
          Mem-filter_of (may_dispatch gates db) (order_jobs due)
            (Mem-order_of due (Mem-filter_of (is_due now) db.jobs stored due_now)) allowed
