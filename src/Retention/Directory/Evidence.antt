-- ===== src/Retention/Directory/Evidence.antt =====
-- Tamper evidence of the journal (the hash chain of src/sutradhara/retention_journal.py): the head and
-- the global sequence, which the off-box anchor holds, fix every entry unless SHA-256 collides.
use native.Mathlib.Decide.{ℕ_discrete}
use sutradhara.Prelude.{
  ℕ, suc, ◌≡◌, ◌≢◌, refl, ap, ◌⊎◌, inl, inr, none, List, [], ◌∷◌, length, arith, String,
  string_discrete, ok,
}
use sutradhara.Retention.Rows.{Source, Payload, Payload-discrete}
use sutradhara.Retention.Journal.{Link, HashJson, payload_document, link_document, genesis_hash}
use sutradhara.Retention.Publishing.{SourceEntry, final_head, entry_hash_of, link_of}
use sutradhara.Retention.Directory.{Listed, Progress, start, walk_segments}
use sutradhara.Retention.Directory.Aligned.{Aligned, journal_entries}
use sutradhara.Retention.Directory.Reading.{walk_segments-Read}

Source-discrete : Discrete Source
Source-discrete = hlevel

Link-discrete : Discrete Link
Link-discrete = hlevel (ℕ_discrete, string_discrete, Source-discrete)

-- Two payloads, or two links, that differ and have one hash.
pub data Collision (hash_json : HashJson) : Type 0 where
  of_payloads :
      (p q : Payload)
      → p ≢ q
      → hash_json (payload_document p) ≡ hash_json (payload_document q)
      → Collision hash_json
  of_links :
      (l m : Link)
      → l ≢ m
      → hash_json (link_document l) ≡ hash_json (link_document m)
      → Collision hash_json

module _ (hash_json : HashJson) where
  -- The hash of an entry fixes the entry, its place and the hash before it.
  entry_hash_determines :
      (x y : SourceEntry) (n m : ℕ) (h k : String)
      → entry_hash_of hash_json x n h ≡ entry_hash_of hash_json y m k
      → ((x ≡ y) × (h ≡ k)) ⊎ Collision hash_json
  unfolding entry_hash_of link_of
  entry_hash_determines x y n m h k e =
      let l = link_of hash_json x n h in
      let l' = link_of hash_json y m k in
      elim (Link-discrete l l') [
        | no differ ↦ inr (of_links l l' differ e)
        | yes same ↦ elim (Payload-discrete x.payload y.payload) [
          | no differ ↦ inr (of_payloads x.payload y.payload differ (ap (λ z. z.checksum) same))
          | yes payloads ↦
              let sources : x.source ≡ y.source = ap (λ z. z.source) same in
              let ids : x.event_id ≡ y.event_id = ap (λ z. z.event_id) same in
              inl (cc, ap (λ z. z.prev_hash) same)
        ]
      ]

  -- The head after a run of entries fixes the run and the head before it.
  final_head_determines :
      (xs ys : List SourceEntry) (n m : ℕ) (h k : String)
      → length xs ≡ length ys
      → final_head hash_json xs n h ≡ final_head hash_json ys m k
      → ((xs ≡ ys) × (h ≡ k)) ⊎ Collision hash_json
  unfolding final_head
  final_head_determines [] [] n m h k l e = inl (refl, e)
  final_head_determines [] (y ∷ ys) n m h k l e = absurd (omega arith)
  final_head_determines (x ∷ xs) [] n m h k l e = absurd (omega arith)
  final_head_determines (x ∷ xs) (y ∷ ys) n m h k l e =
      let h' = entry_hash_of hash_json x n h in
      let k' = entry_hash_of hash_json y m k in
      elim (final_head_determines xs ys (suc n) (suc m) h' k' (omega arith) e) [
        | inr c ↦ inr c
        | inl (rest, heads) ↦ elim (entry_hash_determines x y n m h k heads) [
          | inr c ↦ inr c
          | inl (here, before) ↦ inl (cc, before)
        ]
      ]

  -- Two journals that the walk of a check accepts without an issue, and whose last footers name
  -- the same global sequence and the same head, hold the same entries in the same order, however
  -- they are cut into files; or two payloads or links that differ have one hash.
  pub heads_determine_entries :
      (ss ts : List Listed) (p q : Progress)
      → walk_segments hash_json ss start ≡ ok (p, none)
      → walk_segments hash_json ts start ≡ ok (q, none)
      → p.state.global_sequence ≡ q.state.global_sequence
      → p.state.head_hash ≡ q.state.head_hash
      → (journal_entries ss ≡ journal_entries ts) ⊎ Collision hash_json
  heads_determine_entries ss ts p q good good' sequences heads =
      let begin : Aligned start = record { sequence = refl; head = refl; cursor = refl } in
      let (xs, a, r) = walk_segments-Read hash_json ss start p begin good in
      let (ys, b, s) = walk_segments-Read hash_json ts start q begin good' in
      let lengths : length xs ≡ length ys =
        omega (arith, a.sequence, b.sequence, r.sequence_read, s.sequence_read) in
      elim (final_head_determines xs ys 1 1 genesis_hash genesis_hash lengths
        (cc (a.head, b.head, r.head_read, s.head_read))) [
          | inr c ↦ inr c
          | inl (same, _) ↦ inl (cc (r.entries_read, s.entries_read))
        ]
