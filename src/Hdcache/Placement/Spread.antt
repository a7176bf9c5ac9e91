-- ===== src/Hdcache/Placement/Spread.antt =====
-- Where a large file goes, and when a placement succeeds (`choose` of src/sutradhara/hdcache/placement.py).
use sutradhara.Prelude.{
  ◌+◌, ◌≤◌, ◌<◌, ◌≡◌, refl, sym, subst, inl, inr, Bool, true, false, not, ◌&&◌, List, [], ◌∷◌, Memᴰ,
  filter, arith, ltb, Bool-cases, Mem-filter, Result, ok, err, ok-injective,
}
use sutradhara.Prelude.Int.{pos_part}
use sutradhara.Hdcache.Rows.{is_active, is_ok}
use sutradhara.Hdcache.Placement.{
  DiskState, Key, choose_small, PlacementConfig, PlacementContext, PlacementError, no_space,
  Numerics, is_viable, is_sibling, large_group_key, min_by, viable_candidates, choose,
  choose_viable, choose_large, choose_apart, choose_narrowed, narrowest, in_unused, any_used,
  is_empty, committed_bytes, reserve_bytes,
}
use sutradhara.Hdcache.Placement.Best.{Least, filter-Least, filter-none, min_by-Memᴰ, min_by-Beats}
use sutradhara.Hdcache.Placement.Choice.{choose_small-SmallChoice, SmallChoice-Memᴰ}

module _ (num : Numerics) (config : PlacementConfig) (ctx : PlacementContext)
    (disks : List DiskState) where
  abbrev is_apart : DiskState → Bool
  is_apart d = not (is_sibling ctx d)

  -- Whether enclosures are looked at.
  abbrev pub spreads : Bool
  spreads = config.enclosure_spread && not (is_empty ctx.sibling_disks) && any_used ctx disks

  abbrev key : DiskState → Key
  key = large_group_key num config ctx

  -- The choice from a pool of disks.
  pub data PoolChoice (pool : List DiskState) (d : DiskState) : Type 0 where
    unused : spreads ≡ true → Least (in_unused ctx disks) key pool d → PoolChoice pool d
    all_used :
        ((x : DiskState) → Memᴰ x pool → in_unused ctx disks x ≡ false)
        → Least (λ x. true) key pool d
        → PoolChoice pool d
    unspread : spreads ≡ false → Least (λ x. true) key pool d → PoolChoice pool d

  -- The choice of a disk for a large file among the viable disks.
  pub data LargeChoice (viable : List DiskState) (d : DiskState) : Type 0 where
    apart : PoolChoice (filter is_apart viable) d → LargeChoice viable d
    beside :
        ((x : DiskState) → Memᴰ x viable → is_apart x ≡ false)
        → PoolChoice viable d
        → LargeChoice viable d

  min_by-Least :
      (first : DiskState) (others : List DiskState)
      → Least (λ x. true) key (first ∷ others) (min_by key first others)
  min_by-Least first others = record {
    among = min_by-Memᴰ key first others;
    passes = refl;
    least = λ x m h. min_by-Beats key first others x m;
  }

  choose_narrowed-PoolChoice :
      (first : DiskState) (others : List DiskState)
      → PoolChoice (first ∷ others) (choose_narrowed num config ctx disks first others)
  unfolding choose_narrowed
  choose_narrowed-PoolChoice first others = elim (Bool-cases spreads) [
    | inr e ↦ rw e (unspread e (min_by-Least first others))
    | inl e ↦ rw e (by_enclosure e (filter (in_unused ctx disks) (first ∷ others)) refl)
  ]
    where
      by_enclosure :
          spreads ≡ true
          → (ds : List DiskState) → filter (in_unused ctx disks) (first ∷ others) ≡ ds
          → PoolChoice (first ∷ others) (narrowest num config ctx first others ds)
      by_enclosure s [] e =
          all_used (filter-none (in_unused ctx disks) (first ∷ others) e)
            (min_by-Least first others)
      by_enclosure s (d ∷ ds) e =
          unused s (filter-Least (in_unused ctx disks) key (first ∷ others) d ds e)

  choose_large-LargeChoice :
      (first : DiskState) (others : List DiskState)
      → LargeChoice (first ∷ others) (choose_large num config ctx disks first others)
  unfolding choose_large
  choose_large-LargeChoice first others = go (filter is_apart (first ∷ others)) refl
    where
      go :
          (ds : List DiskState)
          → filter is_apart (first ∷ others) ≡ ds
          → LargeChoice (first ∷ others) (choose_apart num config ctx disks first others ds)
      go [] e =
          beside (filter-none is_apart (first ∷ others) e) (choose_narrowed-PoolChoice first others)
      go (d ∷ ds) e = apart (
          subst (λ p. PoolChoice p (choose_narrowed num config ctx disks d ds)) (sym e)
            (choose_narrowed-PoolChoice d ds))

  -- A large file goes to a viable disk without a member of its bundle, where there is one; with enclosures
  -- spread, to one of them in an enclosure that the bundle does not use, where there is one; and among
  -- those to the one that holds least of the group, then the least filled one, then the one with
  -- the smallest digest.
  pub choose-LargeChoice :
      (d : DiskState)
      → ltb ctx.size_bytes config.spread_min_bytes ≡ false
      → choose num config ctx disks ≡ ok d
      → LargeChoice (viable_candidates num config ctx disks) d
  unfolding choose
  choose-LargeChoice d large h = go (viable_candidates num config ctx disks) h
    where
      go :
          (viable : List DiskState)
          → choose_viable num config ctx disks viable ≡ ok d
          → LargeChoice viable d
      go [] e = absurd (ground arith)
      go (first ∷ others) e =
          subst (LargeChoice (first ∷ others)) (ok-injective _ d (rw large at e))
            (choose_large-LargeChoice first others)

  PoolChoice-Memᴰ : (pool : List DiskState) (d : DiskState) → PoolChoice pool d → Memᴰ d pool
  PoolChoice-Memᴰ pool d (unused s l) = l.among
  PoolChoice-Memᴰ pool d (all_used h l) = l.among
  PoolChoice-Memᴰ pool d (unspread s l) = l.among

  LargeChoice-Memᴰ :
      (viable : List DiskState) (d : DiskState) → LargeChoice viable d → Memᴰ d viable
  LargeChoice-Memᴰ viable d (apart p) = (Mem-filter is_apart viable (PoolChoice-Memᴰ _ d p)).0
  LargeChoice-Memᴰ viable d (beside h p) = PoolChoice-Memᴰ viable d p

  -- The answer of a placement: a viable disk of the list, or the refusal where there is none.
  pub data Placed (r : Result PlacementError DiskState) : Type 0 where
    placed :
        (d : DiskState) → r ≡ ok d → Memᴰ d disks → is_viable num config ctx d ≡ true → Placed r
    refused :
        r ≡ err (no_space ctx.size_bytes)
        → ((x : DiskState) → Memᴰ x disks → is_viable num config ctx x ≡ false)
        → Placed r

  -- A placement succeeds exactly where some disk of the list is viable, and then with such a disk.
  pub choose-Placed : Placed (choose num config ctx disks)
  unfolding choose
  choose-Placed = go (viable_candidates num config ctx disks) refl
    where
      of_viable :
          (r : Result PlacementError DiskState) (d : DiskState)
          → r ≡ ok d
          → Memᴰ d (viable_candidates num config ctx disks)
          → Placed r
      of_viable r d e m =
          let (there, passes) = Mem-filter (is_viable num config ctx) disks m in
          placed d e there passes

      go :
          (viable : List DiskState)
          → viable_candidates num config ctx disks ≡ viable
          → Placed (choose_viable num config ctx disks viable)
      go [] e = refused refl (filter-none (is_viable num config ctx) disks e)
      go (first ∷ others) e = elim (Bool-cases (ltb ctx.size_bytes config.spread_min_bytes)) [
        | inl small ↦ of_viable _ (choose_small num config ctx first others) (rw small refl) (
            subst (Memᴰ (choose_small num config ctx first others)) (sym e) (
              SmallChoice-Memᴰ num config ctx (first ∷ others) _
                (choose_small-SmallChoice num config ctx first others)))
        | inr large ↦ of_viable _ (choose_large num config ctx disks first others) (rw large refl) (
            subst (Memᴰ (choose_large num config ctx disks first others)) (sym e)
              (LargeChoice-Memᴰ (first ∷ others) _ (choose_large-LargeChoice first others)))
      ]

-- For a file that is not empty, a viable disk is active and not over its reserve, and after the
-- fill its reserve is still free.
pub is_viable-fits :
    (num : Numerics) (config : PlacementConfig) (ctx : PlacementContext) (d : DiskState)
    → 0 < ctx.size_bytes
    → is_viable num config ctx d ≡ true
    → (is_active d.state ≡ true)
      × (is_ok d.capacity_state ≡ true)
      × (committed_bytes d + ctx.size_bytes + reserve_bytes config d ≤ pos_part d.capacity_bytes)
unfolding is_viable
is_viable-fits num config ctx d nonempty h = ground arith
