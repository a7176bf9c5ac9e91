-- ===== src/Retention/Shipping/Resuming.antt =====
-- Shipping that was cut off anywhere resumes (`_ship_segments` of
-- src/sutradhara/retention_journal.py).
use sutradhara.Prelude.{
  ℕ, suc, ◌+◌, ◌≤◌, ◌<◌, ◌≡◌, refl, ap, sym, subst, ◌∙◌, ◌⊎◌, inl, inr, List, [], ◌∷◌, All, length,
  arith, ok, err, ◌>>=◌,
}
use sutradhara.Prelude.Dict.{lookup}
use sutradhara.Prelude.Ordering.{Ascending}
use sutradhara.Retention.Journal.{SegmentPath, HashJson, Journal, JournalError, dr_unreachable}
use sutradhara.Retention.Directory.{Listed}
use sutradhara.Retention.Shipping.{
  Key, key_eq, segment_key, anchor_key, Destination, Compare, ship_one, ship_all,
}
use sutradhara.Retention.Shipping.Arriving.{Objects, Frame, Arrived, Waiting, ship_one-Turn}

abbrev pub begin_of : Listed → ℕ
begin_of l = l.0.path.first_sequence

module _ (hash_json : HashJson) where
  -- The first segments have arrived, and the rest wait.
  abbrev pub Cut : Objects → List Listed → Type 0
  Cut o [] = Unit
  Cut o (l ∷ ls) =
      (Arrived hash_json o l × Cut o ls) ⊎ (Waiting hash_json o l × All (Waiting hash_json o) ls)

  Arrived-kept :
      (p : SegmentPath) (o o' : Objects) (l : Listed)
      → Frame p o o'
      → (l.0.path ≡ p → ⊥)
      → Arrived hash_json o l
      → Arrived hash_json o' l
  Arrived-kept p o o' l f other a = record {
    anchor = a.anchor;
    is_anchor = a.is_anchor;
    bytes = f (segment_key l.0.path) other ∙ a.bytes;
    head = f (anchor_key l.0.path) other ∙ a.head;
  }

  Waiting-kept :
      (p : SegmentPath) (o o' : Objects) (l : Listed)
      → Frame p o o'
      → (l.0.path ≡ p → ⊥)
      → Waiting hash_json o l
      → Waiting hash_json o' l
  Waiting-kept p o o' l f other w = record {
    anchor = w.anchor;
    is_anchor = w.is_anchor;
    free = elim w.free [
      | inl none' ↦ inl (f (segment_key l.0.path) other ∙ none')
      | inr there ↦ inr (f (segment_key l.0.path) other ∙ there)
    ];
    no_head = f (anchor_key l.0.path) other ∙ w.no_head;
  }

  later-path : (p : SegmentPath) (l : Listed) → p.first_sequence < begin_of l → l.0.path ≡ p → ⊥
  later-path p l later e = omega (arith, ap (λ q. q.first_sequence) e)

  AllWaiting-kept :
      (p : SegmentPath) (n : ℕ) (o o' : Objects) (ls : List Listed)
      → Frame p o o'
      → p.first_sequence ≤ n
      → Ascending begin_of n ls
      → All (Waiting hash_json o) ls
      → All (Waiting hash_json o') ls
  AllWaiting-kept p n o o' [] f le a w = tt
  AllWaiting-kept p n o o' (l ∷ ls) f le (h, hs) (w, ws) = (
    Waiting-kept p o o' l f (later-path p l (omega arith)) w,
    AllWaiting-kept p (begin_of l) o o' ls f (omega arith) hs ws,
  )

  -- What the shipping loop leaves, for segments behind a sequence.
  pub record Shipped (n : ℕ) (ls : List Listed) (d d' : Destination) (r : Journal ℕ) : Type 0 where
    pub earlier : (k : Key) → k.path.first_sequence ≤ n → lookup k d'.objects ≡ lookup k d.objects
    pub cut : Cut d'.objects ls
    pub complete :
        length ls + length ls ≤ d.calls
        → All (Arrived hash_json d'.objects) ls × (r ≡ ok (length ls))

  pub Waiting-Cut : (o : Objects) (ls : List Listed) → All (Waiting hash_json o) ls → Cut o ls
  Waiting-Cut o [] w = tt
  Waiting-Cut o (l ∷ ls) w = inr w

  earlier-Frame :
      (p : SegmentPath) (o o' : Objects)
      → Frame p o o'
      → (k : Key) → k.path.first_sequence < p.first_sequence
      → lookup k o' ≡ lookup k o
  earlier-Frame p o o' f k l = f k (λ e. omega (arith, ap (λ q. q.first_sequence) e))

  ship_all-err :
      (c : Compare) (l : Listed) (ls : List Listed) (d : Destination) (e : JournalError)
      → (ship_one hash_json c l d).1 ≡ err e
      → ship_all hash_json c (l ∷ ls) d ≡ ((ship_one hash_json c l d).0, err e)
  unfolding ship_all
  ship_all-err c l ls d e h = ground arith

  ship_all-ok :
      (c : Compare) (l : Listed) (ls : List Listed) (d : Destination)
      → (ship_one hash_json c l d).1 ≡ ok tt
      → let onward = ship_all hash_json c ls (ship_one hash_json c l d).0 in
        ship_all hash_json c (l ∷ ls) d ≡ (onward.0, onward.1 >>= λ m. ok (suc m))
  unfolding ship_all
  ship_all-ok c l ls d h = ground arith

  pub Arrived-earlier :
      (n : ℕ) (o o' : Objects) (l : Listed)
      → begin_of l ≤ n
      → ((k : Key) → k.path.first_sequence ≤ n → lookup k o' ≡ lookup k o)
      → Arrived hash_json o l
      → Arrived hash_json o' l
  Arrived-earlier n o o' l le f a = record {
    anchor = a.anchor;
    is_anchor = a.is_anchor;
    bytes = f (segment_key l.0.path) le ∙ a.bytes;
    head = f (anchor_key l.0.path) le ∙ a.head;
  }

  pub ship_all-Shipped :
      (c : Compare) (n : ℕ) (ls : List Listed) (d : Destination)
      → Ascending begin_of n ls
      → All (Waiting hash_json d.objects) ls
      → Shipped n ls d (ship_all hash_json c ls d).0 (ship_all hash_json c ls d).1
  unfolding ship_all
  ship_all-Shipped c n [] d a w = record {
    earlier = λ k l. refl;
    cut = tt;
    complete = λ b. (tt, refl);
  }
  ship_all-Shipped c n (l ∷ ls) d (h, hs) (w, ws) =
      let turn = ship_one-Turn hash_json c l d w in
      let d' = (ship_one hash_json c l d).0 in
      let waiting =
        AllWaiting-kept l.0.path (begin_of l) d.objects d'.objects ls turn.frame (omega arith) hs
          ws in
      let before : (k : Key)
          → k.path.first_sequence ≤ n
          → lookup k d'.objects ≡ lookup k d.objects =
        λ k le. earlier-Frame l.0.path d.objects d'.objects turn.frame k (omega arith) in
      elim turn.end [
        | inr (w', failed, few) ↦
            let eq : ship_all hash_json c (l ∷ ls) d ≡ (d', err dr_unreachable) =
              ship_all-err c l ls d dr_unreachable failed in
            subst (λ p. Shipped n (l ∷ ls) d p.0 p.1) (sym eq)
              (record {
                earlier = before;
                cut = inr (w', waiting);
                complete = λ b. absurd (omega arith);
              })
        | inl (arrived, fine, spent) ↦
            let onward = ship_all hash_json c ls d' in
            let rest = ship_all-Shipped c (begin_of l) ls d' hs waiting in
            let eq : ship_all hash_json c (l ∷ ls) d ≡ (onward.0, onward.1 >>= λ m. ok (suc m)) =
              ship_all-ok c l ls d fine in
            let kept =
              Arrived-earlier (begin_of l) d'.objects onward.0.objects l (omega arith) rest.earlier
                arrived in
            subst (λ p. Shipped n (l ∷ ls) d p.0 p.1) (sym eq)
              (record {
                earlier = λ k le. rest.earlier k (omega arith) ∙ before k le;
                cut = inl (kept, rest.cut);
                complete = λ b.
                    let (all, r) = rest.complete (omega arith) in
                    ((kept, all), ap (λ r'. r' >>= λ m. ok (suc m)) r);
              })
      ]
