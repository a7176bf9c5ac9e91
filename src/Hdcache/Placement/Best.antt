-- ===== src/Hdcache/Placement/Best.antt =====
-- `min` over a list of disks (src/sutradhara/hdcache/placement.py): the least of the disks that pass a test.
use sutradhara.Prelude.{
  ◌≡◌, refl, sym, subst, inl, inr, Bool, true, false, List, [], ◌∷◌, Memᴰ, filter, arith,
  Bool-cases, Mem-cons, Mem-filter, Mem-filter_of,
}
use sutradhara.Hdcache.Placement.{DiskState, Key, key_lt, min_by}

key_lt_trans : (a b c : Key) → key_lt a b ≡ false → key_lt b c ≡ false → key_lt a c ≡ false
unfolding key_lt
key_lt_trans a b c h k = ground arith

key_lt_asym : (a b : Key) → key_lt a b ≡ true → key_lt b a ≡ false
unfolding key_lt
key_lt_asym a b h = ground arith

key_lt_irrefl : (a : Key) → key_lt a a ≡ false
unfolding key_lt
key_lt_irrefl a = ground arith

module _ (key : DiskState → Key) where
  abbrev Beats : DiskState → DiskState → Type 0
  Beats r d = key_lt (key d) (key r) ≡ false

  pub min_by-Memᴰ :
      (best : DiskState) (disks : List DiskState) → Memᴰ (min_by key best disks) (best ∷ disks)
  unfolding min_by
  min_by-Memᴰ best [] = Memᴰ.head refl
  min_by-Memᴰ best (d ∷ ds) = elim (Bool-cases (key_lt (key d) (key best))) [
    | inl e ↦ rw e (Memᴰ.tail (min_by-Memᴰ d ds))
    | inr e ↦ rw e (elim (Mem-cons (min_by-Memᴰ best ds)) [
      | inl h ↦ Memᴰ.head h
      | inr m ↦ Memᴰ.tail (Memᴰ.tail m)
    ])
  ]

  pub min_by-Beats :
      (best : DiskState) (disks : List DiskState) (x : DiskState)
      → Memᴰ x (best ∷ disks)
      → Beats (min_by key best disks) x
  unfolding min_by
  min_by-Beats best [] x m = elim (Mem-cons m) [
    | inl e ↦ subst (Beats best) (sym e) (key_lt_irrefl (key best))
    | inr m' ↦ elim m' [ ]
  ]
  min_by-Beats best (d ∷ ds) x m = elim (Bool-cases (key_lt (key d) (key best))) [
    | inl e ↦ rw e (elim (Mem-cons m) [
      | inl h ↦ subst (Beats (min_by key d ds)) (sym h) (
          key_lt_trans (key best) (key d) (key (min_by key d ds)) (key_lt_asym (key d) (key best) e)
            (min_by-Beats d ds d (Memᴰ.head refl)))
      | inr m' ↦ min_by-Beats d ds x m'
    ])
    | inr e ↦ rw e (elim (Mem-cons m) [
      | inl h ↦ min_by-Beats best ds x (Memᴰ.head h)
      | inr m' ↦ elim (Mem-cons m') [
        | inl h ↦ subst (Beats (min_by key best ds)) (sym h) (
            key_lt_trans (key d) (key best) (key (min_by key best ds)) e
              (min_by-Beats best ds best (Memᴰ.head refl)))
        | inr m'' ↦ min_by-Beats best ds x (Memᴰ.tail m'')
      ]
    ])
  ]

-- `d` is one of the disks that pass the test, and no other of them has a smaller key.
pub record Least (p : DiskState → Bool) (key : DiskState → Key) (disks : List DiskState)
    (d : DiskState) : Type 0 where
  pub among : Memᴰ d disks
  pub passes : p d ≡ true
  pub least : (x : DiskState) → Memᴰ x disks → p x ≡ true → key_lt (key x) (key d) ≡ false

module _ (p : DiskState → Bool) (key : DiskState → Key) (disks : List DiskState) where
  pub filter-Least :
      (d : DiskState) (ds : List DiskState)
      → filter p disks ≡ d ∷ ds
      → Least p key disks (min_by key d ds)
  filter-Least d ds e =
      let m = subst (Memᴰ (min_by key d ds)) (sym e) (min_by-Memᴰ key d ds) in
      let (among, passes) = Mem-filter p disks m in
      record {
        among = among;
        passes = passes;
        least = λ x mem h. min_by-Beats key d ds x (subst (Memᴰ x) e (Mem-filter_of p disks mem h));
      }

-- Where a comprehension is empty, nothing passes its test.
pub filter-none :
    (p : DiskState → Bool) (disks : List DiskState)
    → filter p disks ≡ []
    → (x : DiskState) → Memᴰ x disks
    → p x ≡ false
filter-none p disks e x m = elim (Bool-cases (p x)) [
  | inl h ↦ elim (subst (Memᴰ x) e (Mem-filter_of p disks m h)) [ ]
  | inr h ↦ h
]
