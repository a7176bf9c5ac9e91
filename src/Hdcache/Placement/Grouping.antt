-- ===== src/Hdcache/Placement/Grouping.antt =====
-- What a placement learns from the entries (`build_placement_context` of src/sutradhara/hdcache/placement.py).
use sutradhara.Prelude.{
  ℕ, suc, ◌≡◌, refl, String, Bool, Option, none, some, List, [], ◌∷◌, map, filter, any, length,
  arith, ◌==◌, string_eq,
}
use sutradhara.Prelude.Dict.{lookup, lookup-insert, lookup-nil}
use sutradhara.Hdcache.Rows.{CacheEntry}
use sutradhara.Hdcache.Placement.{DiskState, is_sibling, count_on}
use sutradhara.Hdcache.Placement.Catalog.{matches, count_disks, build_placement_context}

abbrev pub is_on : String → CacheEntry → Bool
is_on disk_id e = e.disk_id == disk_id

count_disks-length :
    (disk_id : String) (es : List CacheEntry)
    → (elim (lookup disk_id (count_disks es)) [ none ↦ 0 | some n ↦ n ])
      ≡ length (filter (is_on disk_id) es)
unfolding count_disks
count_disks-length disk_id [] = ground (arith, lookup-nil {V = ℕ} disk_id)
count_disks-length disk_id (e ∷ es) = ground (
  arith,
  string_eq.same_iff e.disk_id disk_id,
  lookup-insert disk_id e.disk_id
      (suc (elim (lookup e.disk_id (count_disks es)) [ none ↦ 0 | some n ↦ n ])) (count_disks es),
  count_disks-length disk_id es,
)

any-map :
    (disk_id : String) (es : List CacheEntry)
    → any (λ id. id == disk_id) (map (λ e. e.disk_id) es) ≡ any (is_on disk_id) es
any-map disk_id [] = refl
any-map disk_id (e ∷ es) = ground (arith, any-map disk_id es)

-- The live entries of a key that have another content.
abbrev pub others_of :
    (CacheEntry → Option String) → Option String → String → List CacheEntry → List CacheEntry
others_of key_of none content entries = []
others_of key_of (some key) content entries = filter (matches key_of key content) entries

-- The signals by the test of the code.
pub context_counts :
    (content : String) (size : ℕ) (bundle_key group_key : Option String) (entries : List CacheEntry)
    (disk : DiskState)
    → let ctx = build_placement_context content size bundle_key group_key entries in
      (is_sibling ctx disk
        ≡ any (is_on disk.disk_id) (others_of (λ e. e.bundle_key) bundle_key content entries))
      × (count_on ctx disk
          ≡ length (
              filter (is_on disk.disk_id) (others_of (λ e. e.group_key) group_key content entries)))
unfolding build_placement_context
context_counts content size bundle_key group_key entries disk =
    (siblings bundle_key, counts group_key)
  where
    siblings :
        (key : Option String)
        → any
            (λ id. id == disk.disk_id)
            (elim key [
              | none ↦ []
              | some k ↦
                  map (λ e. e.disk_id) (filter (matches (λ e. e.bundle_key) k content) entries)
            ])
          ≡ any (is_on disk.disk_id) (others_of (λ e. e.bundle_key) key content entries)
    siblings none = refl
    siblings (some k) =
        any-map disk.disk_id (filter (matches (λ e. e.bundle_key) k content) entries)

    counts :
        (key : Option String)
        → (elim (lookup {V = ℕ} disk.disk_id (elim key [
          | none ↦ []
          | some k ↦ count_disks (filter (matches (λ e. e.group_key) k content) entries)
        ])) [ none ↦ 0 | some n ↦ n ])
          ≡ length (filter (is_on disk.disk_id) (others_of (λ e. e.group_key) key content entries))
    counts none = ground (arith, lookup-nil {V = ℕ} disk.disk_id)
    counts (some k) =
        count_disks-length disk.disk_id (filter (matches (λ e. e.group_key) k content) entries)
