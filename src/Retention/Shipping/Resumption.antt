-- ===== src/Retention/Shipping/Resumption.antt =====
-- A whole run of the shipping (`_ship_segments` of src/sutradhara/retention_journal.py).
use sutradhara.Prelude.{
  ℕ, ◌+◌, ◌*◌, ◌≤◌, ◌≡◌, refl, ap, sym, subst, ◌∙◌, inl, inr, List, [], ◌∷◌, ◌++◌, All, length,
  length-append, arith, ok, err,
}
use sutradhara.Prelude.Dict.{lookup}
use sutradhara.Prelude.Ordering.{Ascending, AtMost, last_key, AtMost-last_key, Ascending-split}
use sutradhara.Retention.Journal.{HashJson, Journal, dr_unreachable}
use sutradhara.Retention.Directory.{Listed}
use sutradhara.Retention.Shipping.{
  Key, key_eq, Destination, Compare, first_unshipped, ship_all, drop, reversed, ship_segments,
}
use sutradhara.Retention.Shipping.Arriving.{Objects, Arrived, Waiting}
use sutradhara.Retention.Shipping.Resuming.{
  begin_of, Cut, Waiting-Cut, Arrived-earlier, ship_all-Shipped,
}
use sutradhara.Retention.Shipping.Anchors.{
  Scan, first_unshipped-Scan, reversed-append, length-reversed, All-reversed, drop-append,
}

module _ (hash_json : HashJson) where
  -- A cut, as its two parts.
  record Parts (o : Objects) (ss : List Listed) : Type 0 where
    pub arrived : List Listed
    pub waiting : List Listed
    pub whole : ss ≡ arrived ++ waiting
    pub all_arrived : All (Arrived hash_json o) arrived
    pub all_waiting : All (Waiting hash_json o) waiting

  Cut-Parts : (o : Objects) (ss : List Listed) → Cut hash_json o ss → Parts o ss
  Cut-Parts o [] c = record {
    arrived = [];
    waiting = [];
    whole = refl;
    all_arrived = tt;
    all_waiting = tt;
  }
  Cut-Parts o (l ∷ ls) (inr w) = record {
    arrived = [];
    waiting = l ∷ ls;
    whole = refl;
    all_arrived = tt;
    all_waiting = w;
  }
  Cut-Parts o (l ∷ ls) (inl (a, c)) =
      let rest = Cut-Parts o ls c in
      record {
        arrived = l ∷ rest.arrived;
        waiting = rest.waiting;
        whole = ap (λ r. l ∷ r) rest.whole;
        all_arrived = (a, rest.all_arrived);
        all_waiting = rest.all_waiting;
      }

  Cut-join :
      (o : Objects) (xs ys : List Listed)
      → All (Arrived hash_json o) xs
      → Cut hash_json o ys
      → Cut hash_json o (xs ++ ys)
  Cut-join o [] ys a c = c
  Cut-join o (x ∷ xs) ys (a, as') c = inl (a, Cut-join o xs ys as' c)

  All-join :
      (o : Objects) (xs ys : List Listed)
      → All (Arrived hash_json o) xs
      → All (Arrived hash_json o) ys
      → All (Arrived hash_json o) (xs ++ ys)
  All-join o [] ys a b = b
  All-join o (x ∷ xs) ys (a, as') b = (a, All-join o xs ys as' b)

  AllArrived-earlier :
      (n : ℕ) (o o' : Objects) (ls : List Listed)
      → AtMost begin_of n ls
      → ((k : Key) → k.path.first_sequence ≤ n → lookup k o' ≡ lookup k o)
      → All (Arrived hash_json o) ls
      → All (Arrived hash_json o') ls
  AllArrived-earlier n o o' [] m f a = tt
  AllArrived-earlier n o o' (l ∷ ls) (m, ms) f (a, as') =
      (Arrived-earlier hash_json n o o' l m f a, AllArrived-earlier n o o' ls ms f as')

  -- What a run leaves.
  pub record Run (ss : List Listed) (d : Destination) (p : Destination × Journal ℕ) : Type 0 where
    pub cut : Cut hash_json p.0.objects ss
    pub complete :
        3 * length ss + 1 ≤ d.calls
        → All (Arrived hash_json p.0.objects) ss × (n : ℕ) × (p.1 ≡ ok n)

  Ascending-prefix :
      (n : ℕ) (xs ys : List Listed) → Ascending begin_of n (xs ++ ys) → Ascending begin_of n xs
  Ascending-prefix n [] ys a = tt
  Ascending-prefix n (x ∷ xs) ys (h, hs) = (h, Ascending-prefix (begin_of x) xs ys hs)

  ship_parts :
      (c : Compare) (n : ℕ) (d : Destination) (xs ys : List Listed)
      → Ascending begin_of n (xs ++ ys)
      → All (Arrived hash_json d.objects) xs
      → All (Waiting hash_json d.objects) ys
      → Run (xs ++ ys) d (ship_segments hash_json c (xs ++ ys) d)
  unfolding ship_segments
  ship_parts c n d xs ys asc a w =
      let found = first_unshipped hash_json (reversed (xs ++ ys)) d in
      let scan : Scan hash_json (reversed ys) (reversed xs) d found =
        subst (λ rs. Scan hash_json (reversed ys) (reversed xs) d (first_unshipped hash_json rs d))
          (sym (reversed-append xs ys))
          (first_unshipped-Scan hash_json (reversed ys) (reversed xs) d
            (All-reversed (Waiting hash_json d.objects) ys w)
            (All-reversed (Arrived hash_json d.objects) xs a)) in
      let lengths = length-append xs ys in
      let length_ys = length-reversed ys in
      elim scan.end [
        | inl (e, few) ↦
            let eq : ship_segments hash_json c (xs ++ ys) d ≡ (found.0, err dr_unreachable) =
              ground (arith, e) in
            let before = Cut-join d.objects xs ys a (Waiting-Cut hash_json d.objects ys w) in
            subst (Run (xs ++ ys) d) (sym eq) (record {
              cut = subst (λ o. Cut hash_json o (xs ++ ys)) (sym scan.untouched) before;
              complete = λ many. absurd (omega arith);
            })
        | inr (e, many) ↦
            let eq : ship_segments hash_json c (xs ++ ys) d
                ≡ ship_all hash_json c (drop (length (reversed xs)) (xs ++ ys)) found.0 =
              ground (arith, e) in
            let tail : drop (length (reversed xs)) (xs ++ ys) ≡ ys =
              ap (λ n'. drop n' (xs ++ ys)) (length-reversed xs) ∙ drop-append xs ys in
            let m = last_key begin_of n xs in
            let a' = subst (λ o. All (Arrived hash_json o) xs) (sym scan.untouched) a in
            let w' = subst (λ o. All (Waiting hash_json o) ys) (sym scan.untouched) w in
            let shipped =
              ship_all-Shipped hash_json c m ys found.0 (Ascending-split begin_of n xs ys asc) w' in
            let most =
              AtMost-last_key begin_of n m xs (Ascending-prefix n xs ys asc) (omega arith) in
            let kept =
              AllArrived-earlier m found.0.objects (ship_all hash_json c ys found.0).0.objects xs
                most shipped.earlier a' in
            subst (Run (xs ++ ys) d) (sym (eq ∙ ap (λ ls. ship_all hash_json c ls found.0) tail))
              (record {
                cut = Cut-join _ xs ys kept shipped.cut;
                complete = λ enough.
                    let (all, r) = shipped.complete (omega arith) in
                    (All-join _ xs ys kept all, length ys, r);
              })
      ]

  -- Where the paths of the segments ascend, and a first part of them has arrived with their
  -- anchors and the others wait: after a run that the destination answers up to any call, the same
  -- holds again, and if it answers three calls for each segment and one more, the run returns and
  -- all have arrived.
  pub ship_segments-resumes :
      (c : Compare) (n : ℕ) (ss : List Listed) (d : Destination)
      → Ascending begin_of n ss
      → Cut hash_json d.objects ss
      → Run ss d (ship_segments hash_json c ss d)
  ship_segments-resumes c n ss d asc cut =
      let p = Cut-Parts d.objects ss cut in
      subst (λ ls. Run ls d (ship_segments hash_json c ls d)) (sym p.whole)
        (ship_parts c n d p.arrived p.waiting (subst (Ascending begin_of n) p.whole asc)
          p.all_arrived p.all_waiting)
