-- ===== src/Retention/Inspection/Agreeing.antt =====
-- Copies that a check finds to agree with their receipts (`_projection_mismatches` of
-- src/sutradhara/retention_journal.py).
use sutradhara.Prelude.{
  ℕ, ◌<◌, ltb, Mem-filter, ◌≡◌, refl, ◌⊎◌, inl, inr, ap, Bool, true, false, not, ◌&&◌, Option, none,
  some, List, [], ◌∷◌, ◌++◌, map, filter, any, All, Memᴰ, arith, ◌==◌, String, string_eq, nat_eq,
  Option-cases, Bool-cases,
}
use sutradhara.Retention.Rows.{VerifyReceipt}
use sutradhara.Retention.Inspection.{
  Copy, Mismatch, backend_differs, expected_digest_differs, measured_digest_differs,
  measured_time_differs, unreceipted, same_text, same_datetime, latest, find_copy, report,
  expected_at, receipt_mismatches, is_measured, receipts_mismatches, unreceipted_copies,
  projection_mismatches,
}

pub append_empty : {A : Type 0} (xs ys : List A) → xs ++ ys ≡ [] → (xs ≡ []) × (ys ≡ [])
append_empty [] ys e = (refl, e)
append_empty (x ∷ xs) ys e = absurd (ground arith)

same_text_iff : (a b : Option String) → same_text a b ≡ true → a ≡ b
same_text_iff none none h = refl
same_text_iff none (some b) h = absurd (ground arith)
same_text_iff (some a) none h = absurd (ground arith)
same_text_iff (some a) (some b) h = ap some ((string_eq.same_iff a b).0 h)

same_datetime_iff : (a b : Option ℕ) → same_datetime a b ≡ true → a ≡ b
same_datetime_iff none none h = refl
same_datetime_iff none (some b) h = absurd (ground arith)
same_datetime_iff (some a) none h = absurd (ground arith)
same_datetime_iff (some a) (some b) h = ap some ((nat_eq.same_iff a b).0 h)

reports-empty :
    (a b c d : Bool) (w x y z : Mismatch)
    → report a w ++ report b x ++ report c y ++ report d z ≡ []
    → (a ≡ true) × (b ≡ true) × (c ≡ true) × (d ≡ true)
reports-empty true true true true w x y z e = (refl, refl, refl, refl)
reports-empty true true true false w x y z e = absurd (ground arith)
reports-empty true true false d w x y z e = absurd (ground arith)
reports-empty true false c d w x y z e = absurd (ground arith)
reports-empty false b c d w x y z e = absurd (ground arith)

-- The copy of a receipt is there and has what the receipt says.
pub record Agrees (copies : List Copy) (r : VerifyReceipt) : Type 0 where
  pub copy : Copy
  pub found : find_copy r.copy_id copies ≡ some copy
  pub backend : copy.backend_id ≡ r.backend_id
  pub expected : copy.integrity_hash ≡ r.expected_digest
  pub measured : copy.last_measured_digest ≡ r.measured_digest
  pub measured_at :
      copy.last_measured_at ≡ elim r.measured_digest [ none ↦ none | some d ↦ some r.at_time ]

no_mismatch-Agrees :
    (copies : List Copy) (r : VerifyReceipt) → receipt_mismatches copies r ≡ [] → Agrees copies r
unfolding receipt_mismatches
no_mismatch-Agrees copies r e = elim (Option-cases (find_copy r.copy_id copies)) [
  | inl gone ↦ absurd (ground arith)
  | inr (c, there) ↦
      let e' = rw (there, receipt_mismatches) at e in
      let (e₁, e₂, e₃, e₄) =
        reports-empty (c.backend_id == r.backend_id) (c.integrity_hash == r.expected_digest)
          (same_text c.last_measured_digest r.measured_digest)
          (same_datetime c.last_measured_at (expected_at r)) (backend_differs c.id)
          (expected_digest_differs c.id) (measured_digest_differs c.id) (measured_time_differs c.id)
          e' in
      record {
        copy = c;
        found = there;
        backend = (nat_eq.same_iff c.backend_id r.backend_id).0 e₁;
        expected = (string_eq.same_iff c.integrity_hash r.expected_digest).0 e₂;
        measured = same_text_iff c.last_measured_digest r.measured_digest e₃;
        measured_at = same_datetime_iff c.last_measured_at (expected_at r) e₄;
      }
]

no_mismatches-Agrees :
    (copies : List Copy) (rs : List VerifyReceipt)
    → receipts_mismatches copies rs ≡ []
    → All (Agrees copies) rs
unfolding receipts_mismatches
no_mismatches-Agrees copies [] e = tt
no_mismatches-Agrees copies (r ∷ rs) e =
    let (here, rest) = append_empty (receipt_mismatches copies r) _ e in
    (no_mismatch-Agrees copies r here, no_mismatches-Agrees copies rs rest)

-- A copy without measured evidence, or one that a receipt names.
pub Receipted : List VerifyReceipt → Copy → Type 0
Receipted rs c =
    ((c.last_measured_digest ≡ none) × (c.last_measured_at ≡ none))
    ⊎ ((r : VerifyReceipt) × Memᴰ r rs × (r.copy_id ≡ c.id))

named :
    (rs : List VerifyReceipt) (id : ℕ)
    → any (λ r. r.copy_id == id) rs ≡ true
    → (r : VerifyReceipt) × Memᴰ r rs × (r.copy_id ≡ id)
named [] id h = absurd (ground arith)
named (r ∷ rs) id h = elim (Bool-cases (r.copy_id == id)) [
  | inl t ↦ (r, Memᴰ.head refl, (nat_eq.same_iff r.copy_id id).0 t)
  | inr f ↦ let (q, m, e) = named rs id (ground arith) in (q, Memᴰ.tail m, e)
]

unmeasured :
    (c : Copy)
    → is_measured c ≡ false
    → (c.last_measured_digest ≡ none) × (c.last_measured_at ≡ none)
unmeasured c h = elim (Option-cases c.last_measured_digest) [
  | inr (d, there) ↦ absurd (ground arith)
  | inl gone ↦ elim (Option-cases c.last_measured_at) [
    | inr (t, there) ↦ absurd (ground arith)
    | inl none' ↦ (gone, none')
  ]
]

none_unreceipted :
    (rs : List VerifyReceipt) (cs : List Copy)
    → map (λ c. unreceipted c.id) (unreceipted_copies rs cs) ≡ []
    → All (Receipted rs) cs
unfolding unreceipted_copies Receipted
none_unreceipted rs [] e = tt
none_unreceipted rs (c ∷ cs) e = elim (Bool-cases (is_measured c)) [
  | inr f ↦ (inl (unmeasured c f), none_unreceipted rs cs (ground arith))
  | inl t ↦ elim (Bool-cases (any (λ r. r.copy_id == c.id) rs)) [
    | inl t' ↦ (inr (named rs c.id t'), none_unreceipted rs cs (ground arith))
    | inr f ↦ absurd (ground arith)
  ]
]

-- A later receipt of the same copy.
pub record Superseded (receipts : List VerifyReceipt) (r : VerifyReceipt) : Type 0 where
  pub later : VerifyReceipt
  pub stored : Memᴰ later receipts
  pub same_copy : later.copy_id ≡ r.copy_id
  pub greater : r.event_id < later.event_id

abbrev supersedes : VerifyReceipt → VerifyReceipt → Bool
supersedes r s = s.copy_id == r.copy_id && ltb r.event_id s.event_id

superseded :
    (r : VerifyReceipt) (all' rs : List VerifyReceipt)
    → any (supersedes r) rs ≡ true
    → ((s : VerifyReceipt) → Memᴰ s rs → Memᴰ s all')
    → Superseded all' r
superseded r all' [] h within = absurd (ground arith)
superseded r all' (s ∷ rs) h within = elim (Bool-cases (supersedes r s)) [
  | inl t ↦ record {
    later = s;
    stored = within s (Memᴰ.head refl);
    same_copy = (nat_eq.same_iff s.copy_id r.copy_id).0 (ground arith);
    greater = ground arith;
  }
  | inr f ↦ superseded r all' rs (ground arith) (λ x m. within x (Memᴰ.tail m))
]

-- Every receipt of a part of the table agrees, or is superseded.
each_receipt :
    (copies : List Copy) (receipts rs : List VerifyReceipt)
    → All (Agrees copies) (filter (λ r. not (any (supersedes r) receipts)) rs)
    → All (λ r. Agrees copies r ⊎ Superseded receipts r) rs
each_receipt copies receipts [] a = tt
each_receipt copies receipts (r ∷ rs) a = elim (Bool-cases (any (supersedes r) receipts)) [
  | inl t ↦ (
    inr (superseded r receipts receipts t (λ s m. m)),
    each_receipt copies receipts rs (rw t at a),
  )
  | inr f ↦ let (here, later) = rw f at a in (inl here, each_receipt copies receipts rs later)
]

each_copy :
    (receipts : List VerifyReceipt) (cs : List Copy)
    → All (Receipted (latest receipts)) cs
    → All (Receipted receipts) cs
unfolding Receipted latest
each_copy receipts [] a = tt
each_copy receipts (c ∷ cs) (inl bare, a) = (inl bare, each_copy receipts cs a)
each_copy receipts (c ∷ cs) (inr (r, m, e), a) =
    (inr (r, (Mem-filter _ receipts m).0, e), each_copy receipts cs a)

-- Without a mismatch, every receipt agrees with its copy or is superseded by a later one, and no copy has
-- measured evidence without a receipt.
pub projection_mismatches-empty :
    (receipts : List VerifyReceipt) (copies : List Copy)
    → projection_mismatches receipts copies ≡ []
    → All (λ r. Agrees copies r ⊎ Superseded receipts r) receipts × All (Receipted receipts) copies
unfolding projection_mismatches latest
projection_mismatches-empty receipts copies e =
    let (agree, rest) = append_empty (receipts_mismatches copies (latest receipts)) _ e in
    (
      each_receipt copies receipts receipts (no_mismatches-Agrees copies (latest receipts) agree),
      each_copy receipts copies (none_unreceipted (latest receipts) copies rest),
    )
