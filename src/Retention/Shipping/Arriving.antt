-- ===== src/Retention/Shipping/Arriving.antt =====
-- One file, one segment, and the loop that ships (`publish_file` and the second loop of `_ship_segments`
-- in src/sutradhara/retention_journal.py).
use sutradhara.Prelude.{
  ℕ, zero, suc, ◌+◌, ◌≤◌, ◌<◌, ◌≡◌, refl, ap, sym, subst, ◌∙◌, ◌⊎◌, inl, inr, Bool, true, false,
  none, some, arith, ◌==◌, if◌then◌else◌, nat_eq, string_eq, ok, err, Bool-cases,
}
use sutradhara.Prelude.Dict.{Dict, lookup, insert, lookup-insert}
use sutradhara.Retention.Journal.{SegmentPath, HashJson, Journal, dr_unreachable}
use sutradhara.Retention.Directory.{Listed}
use sutradhara.Retention.Shipping.{
  Key, key_eq, key_same_iff, segment_key, anchor_key, Content, segment_bytes, Destination, Compare,
  same_file, publish_file, anchor_of, ship_one,
}

abbrev pub Objects : Type 0
Objects = Dict Key Content

-- The objects under other paths are as they were.
abbrev pub Frame : SegmentPath → Objects → Objects → Type 0
Frame p o o' = (k : Key) → (k.path ≡ p → ⊥) → lookup k o' ≡ lookup k o

same_file_refl : (c : Compare) (a : Content) → same_file c a a ≡ true
unfolding same_file
same_file_refl c a = ground (
  arith,
  nat_eq.same_iff (c.size a) (c.size a),
  string_eq.same_iff (c.hash_file a) (c.hash_file a),
)

pub calls_cases : (n : ℕ) → (n ≡ 0) ⊎ ((m : ℕ) × (n ≡ suc m))
calls_cases zero = inl refl
calls_cases (suc n) = inr (n, refl)

publish_file-silent :
    (c : Compare) (content : Content) (k : Key) (d : Destination)
    → d.calls ≡ 0
    → publish_file c content k d ≡ (d, err dr_unreachable)
unfolding publish_file
publish_file-silent c content k d h = ground arith

-- Where the object is absent or the same, and the destination answers, the object is there.
publish_file-stores :
    (c : Compare) (content : Content) (k : Key) (d : Destination) (n : ℕ)
    → (lookup k d.objects ≡ none) ⊎ (lookup k d.objects ≡ some content)
    → d.calls ≡ suc n
    → (o : Objects) × (created : Bool) × (publish_file c content k d
        ≡ (record { objects = o; calls = n }, ok created))
      × ((j : Key) → lookup j o ≡ (if k == j then some content else lookup j d.objects))
unfolding publish_file same_file
publish_file-stores c content k d n (inl absent) h =
    (insert k content d.objects, true, ground arith, λ j. lookup-insert j k content d.objects)
publish_file-stores c content k d n (inr there) h =
    let same = same_file_refl c content in
    (d.objects, false, ground arith, λ j. ground (arith, key_same_iff k j))

-- The keys of a path, and those of other paths.
key_same_refl : (k : Key) → (k == k) ≡ true
key_same_refl k = (key_same_iff k k).1 refl

anchor-other : (p : SegmentPath) → (segment_key p == anchor_key p) ≡ false
anchor-other p = ground arith

segment-other : (p : SegmentPath) → (anchor_key p == segment_key p) ≡ false
segment-other p = ground arith

key-other :
    (k : Key) (p : SegmentPath) (b : Bool)
    → (k.path ≡ p → ⊥)
    → (record { path = p; anchor = b } == k) ≡ false
key-other k p b other = elim (Bool-cases (key_eq.same (record { path = p; anchor = b }) k)) [
  | inr e ↦ e
  | inl e ↦ absurd (other (sym (ap (λ j. j.path) ((key_same_iff _ k).0 e))))
]

if_true : {A : Type 0} {b : Bool} (x y : A) → b ≡ true → (if b then x else y) ≡ x
if_true x y e = rw e refl

if_false : {A : Type 0} {b : Bool} (x y : A) → b ≡ false → (if b then x else y) ≡ y
if_false x y e = rw e refl

module _ (hash_json : HashJson) where
  -- A segment that was shipped, with its anchor.
  pub record Arrived (o : Objects) (l : Listed) : Type 0 where
    pub anchor : Content
    pub is_anchor : anchor_of hash_json l ≡ ok anchor
    pub bytes : lookup (segment_key l.0.path) o ≡ some (segment_bytes l.0.lines)
    pub head : lookup (anchor_key l.0.path) o ≡ some anchor

  -- A segment without its anchor, which may be there itself.
  pub record Waiting (o : Objects) (l : Listed) : Type 0 where
    pub anchor : Content
    pub is_anchor : anchor_of hash_json l ≡ ok anchor
    pub free :
        (lookup (segment_key l.0.path) o ≡ none)
        ⊎ (lookup (segment_key l.0.path) o ≡ some (segment_bytes l.0.lines))
    pub no_head : lookup (anchor_key l.0.path) o ≡ none

  -- What one turn of the shipping loop leaves.
  pub record Turn (l : Listed) (d d' : Destination) (r : Journal (Unit {0})) : Type 0 where
    pub frame : Frame l.0.path d.objects d'.objects
    pub spent : d'.calls ≤ d.calls
    pub end :
        (Arrived d'.objects l × (r ≡ ok tt) × (d'.calls + 2 ≡ d.calls))
        ⊎ (Waiting d'.objects l × (r ≡ err dr_unreachable) × (d.calls < 2))

  pub ship_one-Turn :
      (c : Compare) (l : Listed) (d : Destination)
      → Waiting d.objects l
      → Turn l d (ship_one hash_json c l d).0 (ship_one hash_json c l d).1
  unfolding ship_one
  ship_one-Turn c (s, f) d w =
      let seg = segment_key s.path in
      let bytes = segment_bytes s.lines in
      let silent : Destination → Destination × Journal (Unit {0}) = λ x. (x, err dr_unreachable) in
      elim (calls_cases d.calls) [
        | inl none' ↦
            let eq : ship_one hash_json c (s, f) d ≡ silent d =
              ground (arith, publish_file-silent c bytes seg d none') in
            subst (λ p. Turn (s, f) d p.0 p.1) (sym eq)
              (record {
                frame = λ k other. refl;
                spent = omega arith;
                end = inr (w, refl, omega arith);
              })
        | inr (n, more) ↦
            let (o, created, sent, found) = publish_file-stores c bytes seg d n w.free more in
            let d' : Destination = record { objects = o; calls = n } in
            let here : lookup seg o ≡ some bytes = found seg ∙ if_true _ _ (key_same_refl seg) in
            let no_head : lookup (anchor_key s.path) o ≡ none =
              found (anchor_key s.path) ∙ if_false _ _ (anchor-other s.path) ∙ w.no_head in
            let frame : Frame s.path d.objects o =
              λ k other. found k ∙ if_false _ _ (key-other k s.path false other) in
            elim (calls_cases n) [
              | inl none' ↦
                  let eq : ship_one hash_json c (s, f) d ≡ silent d' = ground (
                    arith,
                    sent,
                    w.is_anchor,
                    publish_file-silent c w.anchor (anchor_key s.path) d' none',
                  ) in
                  subst (λ p. Turn (s, f) d p.0 p.1) (sym eq)
                    (record {
                      frame = frame;
                      spent = omega arith;
                      end = inr (
                        record {
                          anchor = w.anchor;
                          is_anchor = w.is_anchor;
                          free = inr here;
                          no_head = no_head;
                        },
                        refl,
                        omega arith,
                      );
                    })
              | inr (m, more') ↦
                  let (o', created', sent', found') =
                    publish_file-stores c w.anchor (anchor_key s.path) d' m (inl no_head) more' in
                  let d'' : Destination = record { objects = o'; calls = m } in
                  let eq : ship_one hash_json c (s, f) d ≡ (d'', ok tt) =
                    ground (arith, sent, w.is_anchor, sent') in
                  subst (λ p. Turn (s, f) d p.0 p.1) (sym eq)
                    (record {
                      frame = λ k other.
                          found' k ∙ if_false _ _ (key-other k s.path true other) ∙ frame k other;
                      spent = omega arith;
                      end = inl (
                        record {
                          anchor = w.anchor;
                          is_anchor = w.is_anchor;
                          bytes = found' seg ∙ if_false _ _ (segment-other s.path) ∙ here;
                          head =
                              found' (anchor_key s.path)
                              ∙ if_true _ _ (key_same_refl (anchor_key s.path));
                        },
                        refl,
                        omega arith,
                      );
                    })
            ]
      ]
