-- ===== src/Retention/Shipping/Anchors.antt =====
-- The search for the newest anchor, and a whole run (`_ship_segments` of
-- src/sutradhara/retention_journal.py).
use mathlib.Core.List.{append_assoc, append-nil}
use sutradhara.Prelude.{
  ℕ, suc, ◌+◌, ◌≤◌, ◌≡◌, refl, sym, subst, ◌⊎◌, inl, inr, true, false, List, [], ◌∷◌, ◌++◌, All,
  length, length-append, arith, ok, err,
}
use sutradhara.Retention.Journal.{HashJson, Journal, dr_unreachable}
use sutradhara.Retention.Directory.{Listed}
use sutradhara.Retention.Shipping.{
  key_eq, Content, Destination, content_same, Content-discrete, first_unshipped, drop, reversed,
}
use sutradhara.Retention.Shipping.Arriving.{Arrived, Waiting, calls_cases}

pub content_same_refl : (a : Content) → content_same a a ≡ true
unfolding content_same
content_same_refl a =
    elim (Content-discrete a a) as (λ x. (elim x [ yes _ ↦ true | no _ ↦ false ]) ≡ true) [
      | yes e ↦ refl
      | no n ↦ absurd (n refl)
    ]

pub reversed-append : (xs ys : List Listed) → reversed (xs ++ ys) ≡ reversed ys ++ reversed xs
unfolding reversed
reversed-append [] ys = sym (append-nil (reversed ys))
reversed-append (x ∷ xs) ys =
    cc (reversed-append xs ys, append_assoc (reversed ys) (reversed xs) (x ∷ []))

pub length-reversed : (xs : List Listed) → length (reversed xs) ≡ length xs
unfolding reversed
length-reversed [] = refl
length-reversed (x ∷ xs) = omega (arith, length-reversed xs, length-append (reversed xs) (x ∷ []))

module _ (P : Listed → Type 0) where
  All-snoc : (xs : List Listed) (x : Listed) → All P xs → P x → All P (xs ++ x ∷ [])
  All-snoc [] x a p = (p, tt)
  All-snoc (y ∷ ys) x (a, as') p = (a, All-snoc ys x as' p)

  pub All-reversed : (xs : List Listed) → All P xs → All P (reversed xs)
  unfolding reversed
  All-reversed [] a = tt
  All-reversed (x ∷ xs) (a, as') = All-snoc (reversed xs) x (All-reversed xs as') a

pub drop-append : (xs ys : List Listed) → drop (length xs) (xs ++ ys) ≡ ys
unfolding drop
drop-append [] ys = refl
drop-append (x ∷ xs) ys = drop-append xs ys

module _ (hash_json : HashJson) where
  -- What the search finds behind the segments that wait.
  pub record Scan (waiting arrived : List Listed) (d : Destination) (p : Destination × Journal ℕ)
      : Type 0 where
    pub untouched : p.0.objects ≡ d.objects
    pub end :
        ((p.1 ≡ err dr_unreachable) × (d.calls ≤ length waiting))
        ⊎ ((p.1 ≡ ok (length arrived)) × (d.calls ≤ p.0.calls + length waiting + 1))

  pub first_unshipped-Scan :
      (ws rs : List Listed) (d : Destination)
      → All (Waiting hash_json d.objects) ws
      → All (Arrived hash_json d.objects) rs
      → Scan ws rs d (first_unshipped hash_json (ws ++ rs) d)
  unfolding first_unshipped
  first_unshipped-Scan [] [] d w a = record { untouched = refl; end = inr (refl, omega arith) }
  first_unshipped-Scan [] ((s, f) ∷ rs) d w (a, _) = elim (calls_cases d.calls) [
    | inl none' ↦
        let eq : first_unshipped hash_json ((s, f) ∷ rs) d ≡ (d, err dr_unreachable) =
          ground (arith, a.is_anchor) in
        subst (Scan [] ((s, f) ∷ rs) d) (sym eq)
          (record { untouched = refl; end = inl (refl, omega arith) })
    | inr (n, more) ↦
        let eq : first_unshipped hash_json ((s, f) ∷ rs) d
            ≡ (record d { calls = n }, ok (suc (length rs))) =
          ground (arith, a.is_anchor, a.head, content_same_refl a.anchor) in
        subst (Scan [] ((s, f) ∷ rs) d) (sym eq)
          (record { untouched = refl; end = inr (refl, omega arith) })
  ]
  first_unshipped-Scan ((s, f) ∷ ws) rs d (w, ws') a = elim (calls_cases d.calls) [
    | inl none' ↦
        let eq : first_unshipped hash_json ((s, f) ∷ (ws ++ rs)) d ≡ (d, err dr_unreachable) =
          ground (arith, w.is_anchor) in
        subst (Scan ((s, f) ∷ ws) rs d) (sym eq)
          (record { untouched = refl; end = inl (refl, omega arith) })
    | inr (n, more) ↦
        let d' : Destination = record d { calls = n } in
        let rest = first_unshipped-Scan ws rs d' ws' a in
        let eq : first_unshipped hash_json ((s, f) ∷ (ws ++ rs)) d
            ≡ first_unshipped hash_json (ws ++ rs) d' =
          ground (arith, w.is_anchor, w.no_head) in
        subst (Scan ((s, f) ∷ ws) rs d) (sym eq) (record {
          untouched = rest.untouched;
          end = elim rest.end [
            | inl (e, b) ↦ inl (e, omega arith)
            | inr (e, b) ↦ inr (e, omega arith)
          ];
        })
  ]
