-- ===== src/Retention/Export/Publication.antt =====
-- A published segment passes the walk (`_publish_segment` against `_check_segment` of
-- src/sutradhara/retention_journal.py).
use sutradhara.Prelude.{
  ℕ, suc, ◌+◌, ◌≡◌, refl, ap, sym, true, some, List, [], ◌∷◌, length, arith, String, string_eq,
  nat_eq, ok,
}
use sutradhara.Retention.Journal.{
  JournalState, HashJson, is_sha256, validate_footer, state_from_footer, footer_document,
}
use sutradhara.Retention.Publishing.{
  SourceEntry, entry_hash_of, final_head, final_cursors, footer_base, new_footer, new_segment,
}
use sutradhara.Retention.Walking.{check_segment, matches, start_walk}
use sutradhara.Retention.Walking.Lines.{
  AllAcceptable, advance_all, check_lines-seal_all, sequence-advance_all, count-advance_all,
  hash-advance_all, cursors-advance_all,
}
use sutradhara.Retention.Directory.Aligned.{matches-of}

module _ (hash_json : HashJson) where
  -- The state that a publication returns.
  unfoldable pub next_state : List SourceEntry → JournalState → ℕ → JournalState
  unfolding new_segment
  next_state xs previous now = record {
    global_sequence = previous.global_sequence + length xs;
    head_hash = final_head hash_json xs (previous.global_sequence + 1) previous.head_hash;
    cursors = final_cursors hash_json xs previous.cursors;
    published_filename = some (new_segment hash_json xs previous now).path;
    published_at = some now;
  }

  -- Where SHA-256 gives digests, a head of digests is one.
  pub final_head-is_sha256 :
      (xs : List SourceEntry) (n : ℕ) (h : String)
      → ((x : SourceEntry) (m : ℕ) (k : String) → is_sha256 (entry_hash_of hash_json x m k) ≡ true)
      → is_sha256 h ≡ true
      → is_sha256 (final_head hash_json xs n h) ≡ true
  unfolding final_head
  final_head-is_sha256 [] n h d i = i
  final_head-is_sha256 (x ∷ xs) n h d i =
      final_head-is_sha256 xs (suc n) (entry_hash_of hash_json x n h) d (d x n h)

  pub validate-new_footer :
      (x : SourceEntry) (xs : List SourceEntry) (previous : JournalState) (now : ℕ)
      → is_sha256 (final_head hash_json (x ∷ xs) (previous.global_sequence + 1) previous.head_hash)
        ≡ true
      → validate_footer hash_json (new_footer hash_json (x ∷ xs) previous now) ≡ ok tt
  unfolding validate_footer new_footer footer_base
  validate-new_footer x xs previous now d =
      let base = footer_base hash_json (x ∷ xs) previous now in
      let checksum = hash_json (footer_document base) in
      ground (arith, string_eq.same_iff checksum checksum)

  pub state-new_footer :
      (xs : List SourceEntry) (previous : JournalState) (now : ℕ)
      → validate_footer hash_json (new_footer hash_json xs previous now) ≡ ok tt
      → state_from_footer hash_json
          (new_footer hash_json xs previous now)
          (new_segment hash_json xs previous now).path
        ≡ ok (next_state xs previous now)
  unfolding state_from_footer next_state new_footer footer_base new_segment
  state-new_footer xs previous now v = ground arith

  -- The walk meets the segment where the one before ended.
  pub check-new_segment :
      (xs : List SourceEntry) (previous : JournalState) (now : ℕ)
      → AllAcceptable hash_json xs
          (start_walk hash_json (previous.global_sequence + 1) previous.head_hash previous.cursors)
      → validate_footer hash_json (new_footer hash_json xs previous now) ≡ ok tt
      → check_segment hash_json
          (new_segment hash_json xs previous now).lines
          (previous.global_sequence + 1)
          previous.head_hash
          previous.cursors
        ≡ ok (
          advance_all hash_json xs (
              start_walk hash_json
                (previous.global_sequence + 1)
                previous.head_hash
                previous.cursors),
          new_footer hash_json xs previous now,
        )
  unfolding check_segment new_segment
  check-new_segment xs previous now fits v =
      let from =
        start_walk hash_json (previous.global_sequence + 1) previous.head_hash previous.cursors in
      let f = new_footer hash_json xs previous now in
      let walked = check_lines-seal_all hash_json xs from f fits in
      let w = advance_all hash_json xs from in
      let described : matches hash_json f (previous.global_sequence + 1) w ≡ true =
        matches-of hash_json f (previous.global_sequence + 1) w (record {
          begins = refl;
          counts = ap some (omega (arith, count-advance_all hash_json xs from));
          ends = ap some (omega (arith, sequence-advance_all hash_json xs from));
          heads = ap some (sym (hash-advance_all hash_json xs from));
          covers =
              ap (λ c. some (some c.receipts, some c.events))
                (sym (cursors-advance_all hash_json xs from));
        }) in
      ground arith
