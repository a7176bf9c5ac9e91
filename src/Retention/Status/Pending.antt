-- ===== src/Retention/Status/Pending.antt =====
-- What the status counts and when it is stale (`journal_operational_status` of
-- src/sutradhara/retention_journal.py).
use sutradhara.Prelude.{
  ℕ, suc, ◌≡◌, refl, Bool, ◌&&◌, Option, none, some, List, [], ◌∷◌, map, filter, any, ◌||◌, ◌∙◌,
  sym, Bool-cases, inl, inr, length, length-append, min, ltb, arith,
}
use sutradhara.Prelude.Ordering.{order_by, insert_by, past}
use sutradhara.Retention.Journal.{JournalState}
use sutradhara.Retention.Export.{
  World, receipt_key, event_key, receipt_entry, event_entry, new_source_entries,
}
use sutradhara.Retention.Status.{earliest, earlier_of, age, is_some, status_of}

length-insert_by :
    {A : Type 0} (key : A → ℕ) (a : A) (xs : List A) → length (insert_by key a xs) ≡ suc (length xs)
unfolding insert_by
length-insert_by key a [] = refl
length-insert_by key a (x ∷ xs) = ground (arith, length-insert_by key a xs)

length-order_by : {A : Type 0} (key : A → ℕ) (xs : List A) → length (order_by key xs) ≡ length xs
unfolding order_by
length-order_by key [] = refl
length-order_by key (x ∷ xs) =
    omega (arith, length-insert_by key x (order_by key xs), length-order_by key xs)

length-map : {A B : Type 0} (f : A → B) (xs : List A) → length (map f xs) ≡ length xs
length-map f [] = refl
length-map f (x ∷ xs) = omega (arith, length-map f xs)

-- Older than the threshold, in whole seconds
abbrev pub overdue : ℕ → ℕ → ℕ → Bool
overdue threshold now t = ltb threshold (age (some t) now)

-- Whether the oldest of the times is overdue
abbrev is_overdue : ℕ → ℕ → Option ℕ → Bool
is_overdue threshold now oldest = is_some oldest && ltb threshold (age oldest now)

overdue-min :
    (threshold now a b : ℕ)
    → overdue threshold now (min a b) ≡ overdue threshold now a || overdue threshold now b
overdue-min threshold now a b = ground arith

overdue-earlier_of :
    (threshold now : ℕ) (a b : Option ℕ)
    → is_overdue threshold now (earlier_of a b)
      ≡ is_overdue threshold now a || is_overdue threshold now b
overdue-earlier_of threshold now none b = refl
overdue-earlier_of threshold now (some a) none = ground arith
overdue-earlier_of threshold now (some a) (some b) = overdue-min threshold now a b

overdue-oldest :
    (threshold now t : ℕ) (o : Option ℕ)
    → is_overdue threshold now (elim o [ none ↦ some t | some u ↦ some (min t u) ])
      ≡ overdue threshold now t || is_overdue threshold now o
overdue-oldest threshold now t none = ground arith
overdue-oldest threshold now t (some u) = overdue-min threshold now t u

-- The oldest row that passes a test is overdue just where some row passes it and is overdue.
overdue-earliest :
    {A : Type 0} (threshold now : ℕ) (time : A → ℕ) (p : A → Bool) (xs : List A)
    → is_overdue threshold now (earliest time (filter p xs))
      ≡ any (λ x. p x && overdue threshold now (time x)) xs
unfolding earliest
overdue-earliest threshold now time p [] = refl
overdue-earliest threshold now time p (x ∷ xs) = elim (Bool-cases (p x)) [
  | inl t ↦
      rw (t, sym (overdue-earliest threshold now time p xs))
        (overdue-oldest threshold now (time x) (earliest time (filter p xs)))
  | inr f ↦ rw f (overdue-earliest threshold now time p xs)
]

pub status_of-exact :
    (state : JournalState) (threshold now : ℕ) (w : World)
    → let status = status_of state threshold now w in
      (status.pending_entries ≡ length (new_source_entries w.receipts w.events state.cursors))
      × (status.stale
          ≡ any
              (λ r. past receipt_key state.cursors.receipts r && overdue threshold now r.at_time)
              w.receipts
            || any
                (λ e. past event_key state.cursors.events e && overdue threshold now e.at_time)
                w.events)
unfolding status_of new_source_entries
status_of-exact state threshold now w =
    let rs = filter (past receipt_key state.cursors.receipts) w.receipts in
    let es = filter (past event_key state.cursors.events) w.events in
    (
      omega (
        arith,
        length-append (map receipt_entry (order_by receipt_key rs))
            (map event_entry (order_by event_key es)),
        length-map receipt_entry (order_by receipt_key rs),
        length-map event_entry (order_by event_key es),
        length-order_by receipt_key rs,
        length-order_by event_key es,
      ),
      overdue-earlier_of threshold now (earliest (λ r. r.at_time) rs) (earliest (λ e. e.at_time) es)
          ∙ rw
              (
                overdue-earliest threshold now (λ r. r.at_time)
                    (past receipt_key state.cursors.receipts) w.receipts,
                overdue-earliest threshold now (λ e. e.at_time)
                    (past event_key state.cursors.events) w.events,
              )
              refl,
    )
