-- ===== src/Retention/Export/Cursor.antt =====
-- The cursor of a source (`_new_source_entries` of src/sutradhara/retention_journal.py): what was
-- journalled, and the rows past the cursor, are the rows of the table in the order of their ids.
use mathlib.Core.List.{append_assoc, append-nil}
use sutradhara.Prelude.{ℕ, ◌<◌, ◌≡◌, refl, ap, sym, subst, List, [], ◌∷◌, ◌++◌, filter, arith}
use sutradhara.Prelude.Ordering.{
  order_by, Ascending, Below, past, last_key, order_by-last, Below-order_by, Below-filter,
  Ascending-append, none_past_last, Ascending-split, last_key-append, last_key-lt,
}

module _ {A : Type 0} (key : A → ℕ) where
  -- The rows that a query for those past the cursor finds, in order.
  abbrev pub pending_rows : ℕ → List A → List A
  pending_rows cursor rows = order_by key (filter (past key cursor) rows)

  pub record Journalled (rows journal : List A) (cursor : ℕ) : Type 0 where
    pub ordered : Ascending key 0 (order_by key rows)
    pub at_last : cursor ≡ last_key key 0 journal
    pub complete : journal ++ pending_rows cursor rows ≡ order_by key rows

  pub Journalled-nil : Journalled [] [] 0
  unfolding order_by
  Journalled-nil = record { ordered = tt; at_last = refl; complete = refl }

  pub Journalled-insert :
      (a : A) (rows journal : List A) (cursor : ℕ)
      → 0 < key a
      → Below key (key a) rows
      → Journalled rows journal cursor
      → Journalled (a ∷ rows) journal cursor
  Journalled-insert a rows journal cursor positive below j =
      let last = order_by-last key a rows below in
      let under = Below-order_by key (key a) rows below in
      let new : cursor < key a =
        subst (λ c. c < key a) (sym j.at_last)
          (last_key-lt key 0 (key a) journal (pending_rows cursor rows) positive
            (subst (Below key (key a)) (sym j.complete) under)) in
      let kept : filter (past key cursor) (a ∷ rows) ≡ a ∷ filter (past key cursor) rows =
        ground arith in
      let more =
        order_by-last key a (filter (past key cursor) rows)
          (Below-filter key (key a) (past key cursor) rows below) in
      record {
        ordered =
            subst (Ascending key 0) (sym last)
              (Ascending-append key 0 (order_by key rows) a j.ordered positive under);
        at_last = j.at_last;
        complete = cc (
          kept,
          more,
          last,
          j.complete,
          append_assoc journal (pending_rows cursor rows) (a ∷ []),
        );
      }

  pub pending-Ascending :
      (rows journal : List A) (cursor : ℕ)
      → Journalled rows journal cursor
      → Ascending key cursor (pending_rows cursor rows)
  pending-Ascending rows journal cursor j =
      subst (λ c. Ascending key c (pending_rows cursor rows)) (sym j.at_last)
        (Ascending-split key 0 journal (pending_rows cursor rows)
          (subst (Ascending key 0) (sym j.complete) j.ordered))

  -- After an export nothing is pending, and the journal is the table.
  pub exported-none :
      (rows journal : List A) (cursor : ℕ)
      → Journalled rows journal cursor
      → pending_rows (last_key key cursor (pending_rows cursor rows)) rows ≡ []
  unfolding order_by
  exported-none rows journal cursor j =
      ap (order_by key) (none_past_last key cursor rows (pending-Ascending rows journal cursor j))

  pub Journalled-export :
      (rows journal : List A) (cursor : ℕ)
      → Journalled rows journal cursor
      → Journalled rows
          (journal ++ pending_rows cursor rows)
          (last_key key cursor (pending_rows cursor rows))
  Journalled-export rows journal cursor j = record {
    ordered = j.ordered;
    at_last = cc (j.at_last, last_key-append key 0 journal (pending_rows cursor rows));
    complete = cc (
      exported-none rows journal cursor j,
      append-nil (journal ++ pending_rows cursor rows),
      j.complete,
    );
  }
