-- ===== src/Retention/Walking/Lines.antt =====
-- The lines that the walk accepts (`_check_segment` of src/sutradhara/retention_journal.py): entries as a
-- publication writes them, and one footer at the end.
use sutradhara.Prelude.{
  ◌≡◌, refl, subst, inl, inr, Option, none, some, List, [], ◌∷◌, ◌++◌, ◌+◌, length, arith, ok,
  Result-cases,
}
use sutradhara.Retention.Journal.{
  HashJson, Footer, Line, blank, not_json, not_an_object, unknown_kind, entry, footer,
}
use sutradhara.Retention.Publishing.{SourceEntry, seal_all, final_head, final_cursors}
use sutradhara.Retention.Walking.{Walk, check_entry, check_line, check_lines}
use sutradhara.Retention.Walking.Checked.{Acceptable, advance, check_entry-seal, check_entry-inv}

module _ (hash_json : HashJson) where
  unfoldable pub advance_all : List SourceEntry → Walk → Walk
  unfolding advance
  advance_all [] w = w
  advance_all (x ∷ xs) w = advance_all xs (advance hash_json x w)

  -- Each entry is acceptable where the walk meets it.
  abbrev pub AllAcceptable : List SourceEntry → Walk → Type 0
  AllAcceptable [] w = Unit
  AllAcceptable (x ∷ xs) w = Acceptable x w × AllAcceptable xs (advance hash_json x w)

  pub check_lines-seal_all :
      (xs : List SourceEntry) (w : Walk) (f : Footer)
      → AllAcceptable xs w
      → check_lines hash_json
          (seal_all hash_json xs w.expected_sequence w.expected_hash ++ footer f ∷ [])
          w
          none
        ≡ ok (advance_all xs w, some f)
  unfolding check_lines check_line seal_all advance_all advance
  check_lines-seal_all [] w f a = refl
  check_lines-seal_all (x ∷ xs) w f (a, later) =
      rw (check_entry-seal hash_json x w a)
        (check_lines-seal_all xs (advance hash_json x w) f later)

  -- Nothing may follow a footer.
  nothing-after :
      (ls : List Line) (w w' : Walk) (f : Footer) (r : Option Footer)
      → check_lines hash_json ls w (some f) ≡ ok (w', r)
      → (ls ≡ []) × (w' ≡ w) × (r ≡ some f)
  unfolding check_lines check_line
  nothing-after [] w w' f r h = ground arith
  nothing-after (l ∷ ls) w w' f r h = absurd (ground arith)

  pub check_lines-inv :
      (ls : List Line) (w w' : Walk) (f : Footer)
      → check_lines hash_json ls w none ≡ ok (w', some f)
      → (xs : List SourceEntry) × (ls
          ≡ seal_all hash_json xs w.expected_sequence w.expected_hash ++ footer f ∷ [])
        × AllAcceptable xs w
        × (w' ≡ advance_all xs w)
  unfolding check_lines check_line seal_all advance_all advance
  check_lines-inv [] w w' f h = absurd (ground arith)
  check_lines-inv (footer g ∷ ls) w w' f h =
      let (a, b, c) = nothing-after ls w w' g (some f) (ground arith) in ([], ground arith, tt, b)
  check_lines-inv (entry e ∷ ls) w w' f h = elim (Result-cases (check_entry hash_json e w)) [
    | inr (r, bad) ↦ absurd (ground arith)
    | inl (v, checked) ↦
        let (x, same, fits, moved) = check_entry-inv hash_json e w v checked in
        let (xs, rest, all, end) =
          check_lines-inv ls (advance hash_json x w) w' f
            (subst (λ u. check_lines hash_json ls u none ≡ ok (w', some f)) moved (ground arith)) in
        (x ∷ xs, cc, (fits, all), end)
  ]
  check_lines-inv (blank ∷ ls) w w' f h = absurd (ground arith)
  check_lines-inv (not_json ∷ ls) w w' f h = absurd (ground arith)
  check_lines-inv (not_an_object ∷ ls) w w' f h = absurd (ground arith)
  check_lines-inv (unknown_kind ∷ ls) w w' f h = absurd (ground arith)

  pub sequence-advance_all :
      (xs : List SourceEntry) (w : Walk)
      → (advance_all xs w).expected_sequence ≡ w.expected_sequence + length xs
  unfolding advance_all advance
  sequence-advance_all [] w = omega arith
  sequence-advance_all (x ∷ xs) w = omega (arith, sequence-advance_all xs (advance hash_json x w))

  pub count-advance_all :
      (xs : List SourceEntry) (w : Walk)
      → (advance_all xs w).entry_count ≡ w.entry_count + length xs
  unfolding advance_all advance
  count-advance_all [] w = omega arith
  count-advance_all (x ∷ xs) w = omega (arith, count-advance_all xs (advance hash_json x w))

  pub hash-advance_all :
      (xs : List SourceEntry) (w : Walk)
      → (advance_all xs w).expected_hash
        ≡ final_head hash_json xs w.expected_sequence w.expected_hash
  unfolding advance_all advance final_head
  hash-advance_all [] w = refl
  hash-advance_all (x ∷ xs) w = hash-advance_all xs (advance hash_json x w)

  pub cursors-advance_all :
      (xs : List SourceEntry) (w : Walk)
      → (advance_all xs w).cursors ≡ final_cursors hash_json xs w.cursors
  unfolding advance_all advance final_cursors
  cursors-advance_all [] w = refl
  cursors-advance_all (x ∷ xs) w = cursors-advance_all xs (advance hash_json x w)
