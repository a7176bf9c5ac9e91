-- ===== src/Jobs/Context/Checkpoints.antt =====
-- The batch obligations of a tape job (`record_batch_written`, `record_batch_checkpointed` of
-- src/sutradhara/jobs/registry.py): which objects would be requeued after a crash.
use sutradhara.Prelude.{
  ap, sym, if◌then◌else◌, ◌==◌, ℕ, ◌≡◌, refl, ◌≢◌, ◌↔◌, ◌⊎◌, inl, inr, String, Bool, true, false,
  not, List, [], ◌∷◌, ◌++◌, Memᴰ, filter, arith, Bool-cases, Option-cases, Mem-cons, Mem-filter,
  Mem-filter_of, string_eq,
}
use sutradhara.Prelude.Dict.{lookup, insert, erase, lookup-insert, lookup-erase}
use sutradhara.Jobs.Model.{StepState, BatchObject, Batches}
use sutradhara.Jobs.Context.{
  batch_before, insert_object, sort_objects, objects_of, other_than, committed,
  record_batch_written, record_batch_checkpointed, checkpoint_found, put_objects,
}

-- Membership, taken apart and put together at the head of a list.
Mem-cons_of {ℓ} : {A : Type ℓ} {a x : A} {xs : List A} → (a ≡ x) ⊎ Memᴰ a xs → Memᴰ a (x ∷ xs)
Mem-cons_of (inl e) = Memᴰ.head e
Mem-cons_of (inr r) = Memᴰ.tail r

module _ (text_lt : String → String → Bool) (k : BatchObject) where
  Mem-insert :
      (o : BatchObject) (xs : List BatchObject)
      → Memᴰ k (insert_object text_lt o xs)
      → (k ≡ o) ⊎ Memᴰ k xs
  unfolding insert_object
  Mem-insert o [] m = Mem-cons m
  Mem-insert o (x ∷ xs) m = elim (Bool-cases (batch_before text_lt o x)) [
    | inl e ↦ Mem-cons (rw e at m)
    | inr e ↦ elim (Mem-cons (rw e at m)) [
      | inl h ↦ inr (Memᴰ.head h)
      | inr r ↦ elim (Mem-insert o xs r) [ inl h ↦ inl h | inr q ↦ inr (Memᴰ.tail q) ]
    ]
  ]

  Mem-insert_of :
      (o : BatchObject) (xs : List BatchObject)
      → (k ≡ o) ⊎ Memᴰ k xs
      → Memᴰ k (insert_object text_lt o xs)
  unfolding insert_object
  Mem-insert_of o [] m = Mem-cons_of m
  Mem-insert_of o (x ∷ xs) m = elim (Bool-cases (batch_before text_lt o x)) [
    | inl e ↦ rw e (Mem-cons_of m)
    | inr e ↦ rw e (elim m [
      | inl h ↦ Memᴰ.tail (Mem-insert_of o xs (inl h))
      | inr r ↦ elim (Mem-cons r) [
        | inl h ↦ Memᴰ.head h
        | inr q ↦ Memᴰ.tail (Mem-insert_of o xs (inr q))
      ]
    ])
  ]

  Mem-sort :
      (xs ys : List BatchObject) → Memᴰ k (sort_objects text_lt xs ys) → Memᴰ k xs ⊎ Memᴰ k ys
  unfolding sort_objects
  Mem-sort [] ys m = inr m
  Mem-sort (x ∷ xs) ys m = elim (Mem-sort xs (insert_object text_lt x ys) m) [
    | inl r ↦ inl (Memᴰ.tail r)
    | inr r ↦ elim (Mem-insert x ys r) [ inl h ↦ inl (Memᴰ.head h) | inr q ↦ inr q ]
  ]

  Mem-sort_of :
      (xs ys : List BatchObject) → Memᴰ k xs ⊎ Memᴰ k ys → Memᴰ k (sort_objects text_lt xs ys)
  unfolding sort_objects
  Mem-sort_of [] ys (inl m) = elim m [ ]
  Mem-sort_of [] ys (inr m) = m
  Mem-sort_of (x ∷ xs) ys (inl m) = elim (Mem-cons m) [
    | inl h ↦ Mem-sort_of xs (insert_object text_lt x ys) (inr (Mem-insert_of x ys (inl h)))
    | inr r ↦ Mem-sort_of xs (insert_object text_lt x ys) (inl r)
  ]
  Mem-sort_of (x ∷ xs) ys (inr m) =
      Mem-sort_of xs (insert_object text_lt x ys) (inr (Mem-insert_of x ys (inr m)))

  Mem-append_one :
      (xs : List BatchObject) (o : BatchObject) → Memᴰ k (xs ++ o ∷ []) ↔ ((k ≡ o) ⊎ Memᴰ k xs)
  Mem-append_one [] o = (Mem-cons, Mem-cons_of)
  Mem-append_one (x ∷ xs) o = (
    λ m. elim (Mem-cons m) [
      | inl h ↦ inr (Memᴰ.head h)
      | inr r ↦ elim ((Mem-append_one xs o).0 r) [ inl h ↦ inl h | inr q ↦ inr (Memᴰ.tail q) ]
    ],
    λ m. elim m [
      | inl h ↦ Memᴰ.tail ((Mem-append_one xs o).1 (inl h))
      | inr r ↦ elim (Mem-cons r) [
        | inl h ↦ Memᴰ.head h
        | inr q ↦ Memᴰ.tail ((Mem-append_one xs o).1 (inr q))
      ]
    ],
  )

-- The open objects of a batch of a job's step state.
abbrev pub open_objects : String → StepState → List BatchObject
open_objects batch_id state = objects_of batch_id state.checkpoint_batches

abbrev pub written : String → ℕ → String → BatchObject
written caller_object_id provisional_ordinal source = record {
  caller_object_id = caller_object_id;
  provisional_ordinal = provisional_ordinal;
  source = source;
  restart_offset = 0;
}

objects_of-insert :
    (batch_id : String) (os : List BatchObject) (d : Batches)
    → objects_of batch_id (insert batch_id os d) ≡ os
objects_of-insert batch_id os d =
    ground (arith, string_eq.same_iff batch_id batch_id, lookup-insert batch_id batch_id os d)

insert-other :
    (batch_id other : String) (os : List BatchObject) (d : Batches)
    → other ≢ batch_id
    → lookup other (insert batch_id os d) ≡ lookup other d
insert-other batch_id other os d ne =
    ground (arith, string_eq.same_iff batch_id other, lookup-insert other batch_id os d)

objects_of-erase : (batch_id : String) (d : Batches) → objects_of batch_id (erase batch_id d) ≡ []
objects_of-erase batch_id d =
    ground (arith, string_eq.same_iff batch_id batch_id, lookup-erase batch_id batch_id d)

objects_of-put :
    (batch_id : String) (os : List BatchObject) (d : Batches)
    → objects_of batch_id (put_objects batch_id os d) ≡ os
objects_of-put batch_id [] d = objects_of-erase batch_id d
objects_of-put batch_id (o ∷ os) d = objects_of-insert batch_id (o ∷ os) d

put-other :
    (batch_id other : String) (os : List BatchObject) (d : Batches)
    → other ≢ batch_id
    → lookup other (put_objects batch_id os d) ≡ lookup other d
put-other batch_id other [] d ne =
    ground (arith, string_eq.same_iff batch_id other, lookup-erase other batch_id d)
put-other batch_id other (o ∷ os) d ne = insert-other batch_id other (o ∷ os) d ne

abbrev uncommitted : List String → BatchObject → Bool
uncommitted ids o = not (committed ids o)

found-objects :
    (batch_id : String) (ids : List String) (d : Batches)
    → objects_of batch_id (checkpoint_found batch_id ids (lookup batch_id d) d)
      ≡ filter (uncommitted ids) (objects_of batch_id d)
found-objects batch_id ids d = elim (Option-cases (lookup batch_id d)) [
  | inl e ↦ ground arith
  | inr (os, e) ↦ ground (arith, objects_of-put batch_id (filter (uncommitted ids) os) d)
]

found-other :
    (batch_id other : String) (ids : List String) (d : Batches)
    → other ≢ batch_id
    → lookup other (checkpoint_found batch_id ids (lookup batch_id d) d) ≡ lookup other d
found-other batch_id other ids d ne = elim (Option-cases (lookup batch_id d)) [
  | inl e ↦ rw e refl
  | inr (os, e) ↦ rw e (put-other batch_id other (filter (uncommitted ids) os) d ne)
]

-- One batch at most differs.
only_at :
    (batch_id : String) (before after : Batches)
    → ((other : String) → other ≢ batch_id → lookup other after ≡ lookup other before)
    → (other : String)
    → lookup other after
      ≡ (if batch_id == other then lookup batch_id after else lookup other before)
only_at batch_id before after h other = elim (Bool-cases (batch_id == other)) [
  | inl e ↦ rw e (ap (λ k. lookup k after) (sym ((string_eq.same_iff batch_id other).0 e)))
  | inr e ↦ rw e (h other (λ same. ground (arith, string_eq.same_iff batch_id other)))
]

module _ (text_lt : String → String → Bool) (batch_id : String) (state : StepState) where
  abbrev listed : ℕ → String → String → List BatchObject
  listed ordinal caller source =
      filter (other_than caller) (open_objects batch_id state) ++ written caller ordinal source ∷ []

  written-in :
      (ordinal : ℕ) (caller source : String) (o : BatchObject)
      → Memᴰ o (sort_objects text_lt (listed ordinal caller source) [])
      → (o ≡ written caller ordinal source)
        ⊎ Memᴰ o (open_objects batch_id state) × (other_than caller o ≡ true)
  written-in ordinal caller source o m =
      elim (Mem-sort text_lt o (listed ordinal caller source) [] m) [
        | inr q ↦ elim q [ ]
        | inl q ↦
            elim ((Mem-append_one text_lt o
                (filter (other_than caller) (open_objects batch_id state)) _).0
              q) [ inl e ↦ inl e | inr r ↦ inr (Mem-filter (other_than caller) _ r) ]
      ]

  written-of :
      (ordinal : ℕ) (caller source : String) (o : BatchObject)
      → (o ≡ written caller ordinal source)
        ⊎ Memᴰ o (open_objects batch_id state) × (other_than caller o ≡ true)
      → Memᴰ o (sort_objects text_lt (listed ordinal caller source) [])
  written-of ordinal caller source o h = Mem-sort_of text_lt o (listed ordinal caller source) [] (
      inl (
        (Mem-append_one text_lt o (filter (other_than caller) (open_objects batch_id state)) _).1
          (elim h [ inl e ↦ inl e | inr (q, t) ↦ inr (Mem-filter_of (other_than caller) _ q t) ])))

  -- A WRITTEN object becomes the one obligation under its id: the batch then holds it, restarting at byte
  -- zero, and what it held under other ids; every other batch is as before.
  pub written-exact :
      (ordinal : ℕ) (caller source : String)
      → let after = record_batch_written text_lt batch_id ordinal caller source state in
        ((o : BatchObject)
          → Memᴰ o (open_objects batch_id after) ↔ (
              (o ≡ written caller ordinal source)
              ⊎ Memᴰ o (open_objects batch_id state) × (other_than caller o ≡ true)))
        × ((other : String)
            → lookup other after.checkpoint_batches ≡ (
                if batch_id == other
                then lookup batch_id after.checkpoint_batches
                else lookup other state.checkpoint_batches))
  unfolding record_batch_written
  written-exact ordinal caller source = (
    λ o. (
      λ m.
          written-in ordinal caller source o
            (rw (objects_of-insert batch_id _ state.checkpoint_batches) at m),
      λ h.
          rw (objects_of-insert batch_id _ state.checkpoint_batches)
            (written-of ordinal caller source o h),
    ),
    only_at batch_id state.checkpoint_batches
        (record_batch_written text_lt batch_id ordinal caller source state).checkpoint_batches
        (λ other ne. insert-other batch_id other _ state.checkpoint_batches ne),
  )

-- A checkpoint clears exactly the objects that the committed copies name; every other batch is as before.
pub checkpointed-exact :
    (batch_id : String) (state : StepState) (ids : List String)
    → let after = record_batch_checkpointed batch_id ids state in
      ((o : BatchObject)
        → Memᴰ o (open_objects batch_id after)
          ↔ (Memᴰ o (open_objects batch_id state) × (committed ids o ≡ false)))
      × ((other : String)
          → lookup other after.checkpoint_batches ≡ (
              if batch_id == other
              then lookup batch_id after.checkpoint_batches
              else lookup other state.checkpoint_batches))
unfolding record_batch_checkpointed
checkpointed-exact batch_id state ids = (
  λ o. (
    λ m.
        let (q, t) =
          Mem-filter (uncommitted ids) _
            (rw (found-objects batch_id ids state.checkpoint_batches) at m) in
        (q, ground arith),
    λ (q, t).
        rw (found-objects batch_id ids state.checkpoint_batches)
          (Mem-filter_of (uncommitted ids) _ q (ground arith)),
  ),
  only_at batch_id state.checkpoint_batches
      (record_batch_checkpointed batch_id ids state).checkpoint_batches
      (λ other ne. found-other batch_id other ids state.checkpoint_batches ne),
)
