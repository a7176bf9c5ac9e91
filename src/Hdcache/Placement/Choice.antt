-- ===== src/Hdcache/Placement/Choice.antt =====
-- Which disk is chosen (`DefaultDiskPlacementPolicy.choose` of src/sutradhara/hdcache/placement.py).
use sutradhara.Prelude.{
  ◌≡◌, refl, subst, true, false, List, [], ◌∷◌, Memᴰ, filter, arith, ltb, ok, ok-injective,
}
use sutradhara.Hdcache.Placement.{
  DiskState, PlacementConfig, PlacementContext, Numerics, is_sibling, is_grouped, small_group_key,
  balance_key, viable_candidates, choose, choose_viable, choose_small, choose_bundled,
  choose_grouped,
}
use sutradhara.Hdcache.Placement.Best.{Least, filter-Least, filter-none, min_by-Memᴰ, min_by-Beats}

module _ (num : Numerics) (config : PlacementConfig) (ctx : PlacementContext) where
  -- The choice of a disk for a small file among the viable disks.
  pub data SmallChoice (viable : List DiskState) (d : DiskState) : Type 0 where
    bundled :
        Least (is_sibling ctx) (small_group_key num config ctx) viable d → SmallChoice viable d
    grouped :
        ((x : DiskState) → Memᴰ x viable → is_sibling ctx x ≡ false)
        → Least (is_grouped ctx) (small_group_key num config ctx) viable d
        → SmallChoice viable d
    balanced :
        ((x : DiskState) → Memᴰ x viable → is_sibling ctx x ≡ false)
        → ((x : DiskState) → Memᴰ x viable → is_grouped ctx x ≡ false)
        → Least (λ x. true) (balance_key num config ctx) viable d
        → SmallChoice viable d

  pub choose_small-SmallChoice :
      (first : DiskState) (others : List DiskState)
      → SmallChoice (first ∷ others) (choose_small num config ctx first others)
  unfolding choose_small
  choose_small-SmallChoice first others = by_bundle (filter (is_sibling ctx) (first ∷ others)) refl
    where
      by_group :
          ((x : DiskState) → Memᴰ x (first ∷ others) → is_sibling ctx x ≡ false)
          → (ds : List DiskState) → filter (is_grouped ctx) (first ∷ others) ≡ ds
          → SmallChoice (first ∷ others) (choose_grouped num config ctx first others ds)
      by_group apart [] e =
          balanced apart (filter-none (is_grouped ctx) (first ∷ others) e) (record {
            among = min_by-Memᴰ (balance_key num config ctx) first others;
            passes = refl;
            least = λ x m h. min_by-Beats (balance_key num config ctx) first others x m;
          })
      by_group apart (d ∷ ds) e =
          grouped apart
            (filter-Least (is_grouped ctx) (small_group_key num config ctx) (first ∷ others) d ds e)

      by_bundle :
          (ds : List DiskState)
          → filter (is_sibling ctx) (first ∷ others) ≡ ds
          → SmallChoice (first ∷ others) (choose_bundled num config ctx first others ds)
      by_bundle [] e =
          by_group (filter-none (is_sibling ctx) (first ∷ others) e)
            (filter (is_grouped ctx) (first ∷ others)) refl
      by_bundle (d ∷ ds) e =
          bundled
            (filter-Least (is_sibling ctx) (small_group_key num config ctx) (first ∷ others) d ds e)

  -- A small file goes to a viable disk that holds its bundle, where there is one, else to one that
  -- holds its group, else to any; among those to the one that holds most of the group, then to the
  -- least filled one, then to the one with the smallest digest.
  pub choose-SmallChoice :
      (disks : List DiskState) (d : DiskState)
      → ltb ctx.size_bytes config.spread_min_bytes ≡ true
      → choose num config ctx disks ≡ ok d
      → SmallChoice (viable_candidates num config ctx disks) d
  unfolding choose
  choose-SmallChoice disks d small h = go (viable_candidates num config ctx disks) h
    where
      go :
          (viable : List DiskState)
          → choose_viable num config ctx disks viable ≡ ok d
          → SmallChoice viable d
      go [] e = absurd (ground arith)
      go (first ∷ others) e =
          subst (SmallChoice (first ∷ others)) (ok-injective _ d (rw small at e))
            (choose_small-SmallChoice first others)

  pub SmallChoice-Memᴰ :
      (viable : List DiskState) (d : DiskState) → SmallChoice viable d → Memᴰ d viable
  SmallChoice-Memᴰ viable d (bundled l) = l.among
  SmallChoice-Memᴰ viable d (grouped h l) = l.among
  SmallChoice-Memᴰ viable d (balanced h k l) = l.among
