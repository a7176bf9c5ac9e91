-- ===== src/Hdcache/Lifecycle/Losses.antt =====
-- The losses of a dead disk (`mark_dead` of src/sutradhara/hdcache/lifecycle.py): the batches end, and together
-- they lose every entry of the disk and nothing else.
use sutradhara.Prelude.{
  ℕ, zero, suc, ◌+◌, ◌<◌, ◌≡◌, refl, ap, sym, subst, ◌∙◌, ◌≢◌, inl, inr, String, Bool, false, not,
  ◌&&◌, Option, none, some, List, [], ◌∷◌, map, filter, length, arith, if◌then◌else◌, ◌==◌,
  string_eq, nat_beq, Bool-cases, ok,
}
use sutradhara.Hdcache.Rows.{CacheDisk, CacheEntry, DiskStatus, dead}
use sutradhara.Hdcache.Lifecycle.{
  Drill, Tables, DeadDiskResult, lost_entry, is_losing, mark_lost_batch, mark_lost, sum, mark_dead,
  find_disk, save_disk, set_disk_state, disk_or_error, row_in_state, refuse_mounted, dead_result,
  after_losses,
}

-- How many entries of a disk are not lost yet.
abbrev pub losing : String → List CacheEntry → ℕ
losing id es = length (filter (is_losing id) es)

-- An entry after the loss of the disk.
abbrev pub marked : Drill → CacheEntry → CacheEntry
marked drill e = if is_losing drill.disk_id e then lost_entry drill e else e

module _ (drill : Drill) where
  lost-not_losing : (e : CacheEntry) → is_losing drill.disk_id (lost_entry drill e) ≡ false
  unfolding is_losing
  lost-not_losing e = ground arith

  -- A batch changes neither what is left of the loss, nor its final result; a batch of none has nothing
  -- left to do.
  batch-progress :
      (limit : ℕ) (es : List CacheEntry)
      → let (es', n) = mark_lost_batch drill limit es in
        losing drill.disk_id es' + n ≡ losing drill.disk_id es
  unfolding mark_lost_batch
  batch-progress limit [] = omega arith
  batch-progress zero (e ∷ es) = omega arith
  batch-progress (suc limit) (e ∷ es) =
      ground (arith, lost-not_losing e, batch-progress limit es, batch-progress (suc limit) es)

  batch-marked :
      (limit : ℕ) (es : List CacheEntry)
      → map (marked drill) (mark_lost_batch drill limit es).0 ≡ map (marked drill) es
  unfolding mark_lost_batch
  batch-marked limit [] = refl
  batch-marked zero (e ∷ es) = refl
  batch-marked (suc limit) (e ∷ es) =
      ground (arith, lost-not_losing e, batch-marked limit es, batch-marked (suc limit) es)

  batch-done :
      (limit : ℕ) (es : List CacheEntry)
      → 0 < limit
      → (mark_lost_batch drill limit es).1 ≡ 0
      → losing drill.disk_id es ≡ 0
  unfolding mark_lost_batch
  batch-done limit [] p h = refl
  batch-done zero (e ∷ es) p h = absurd (omega arith)
  batch-done (suc limit) (e ∷ es) p h = ground (arith, batch-done (suc limit) es)

  nothing-marked : (es : List CacheEntry) → losing drill.disk_id es ≡ 0 → map (marked drill) es ≡ es
  nothing-marked [] h = refl
  nothing-marked (e ∷ es) h = ground (arith, nothing-marked es)

  -- With fuel for each entry that is not lost, the loop ends; it has lost every entry of the disk,
  -- left every other as it was, and its batches count exactly the entries that it lost.
  pub mark_lost-Marked :
      (fuel batch_size : ℕ) (es : List CacheEntry)
      → 0 < batch_size
      → losing drill.disk_id es < fuel
      → (counts : List ℕ) × (mark_lost fuel drill batch_size es
          ≡ some (map (marked drill) es, counts))
        × (sum counts ≡ losing drill.disk_id es)
  unfolding mark_lost sum
  mark_lost-Marked zero batch_size es p h = absurd (omega arith)
  mark_lost-Marked (suc fuel) batch_size es p h =
      let (es', n) = mark_lost_batch drill batch_size es in
      let progress = batch-progress batch_size es in
      elim (Bool-cases (nat_beq n 0)) [
        | inl e ↦
            let done = batch-done batch_size es p (ground arith) in
            (
              [],
              rw e (
                  ap (λ x. some (x, []))
                    (sym (nothing-marked es' (omega (arith, progress)))
                      ∙ batch-marked batch_size es)),
              sym done,
            )
        | inr e ↦
            let (counts, runs, total) =
              mark_lost-Marked fuel batch_size es' p (ground (arith, progress)) in
            (
              n ∷ counts,
              rw (e, runs) (ap (λ x. some (x, n ∷ counts)) (batch-marked batch_size es)),
              omega (arith, total, progress),
            )
      ]

find_disk-save_self :
    (row : CacheDisk) (ds : List CacheDisk)
    → find_disk row.disk_id ds ≢ none
    → find_disk row.disk_id (save_disk row ds) ≡ some row
unfolding find_disk save_disk
find_disk-save_self row [] h = absurd (h refl)
find_disk-save_self row (d ∷ ds) h = ground (
  arith,
  string_eq.same_iff d.disk_id row.disk_id,
  string_eq.same_iff row.disk_id row.disk_id,
  find_disk-save_self row ds,
)

find_disk-save_ne :
    (id : String) (row : CacheDisk) (ds : List CacheDisk)
    → row.disk_id ≢ id
    → find_disk id (save_disk row ds) ≡ find_disk id ds
unfolding find_disk save_disk
find_disk-save_ne id row [] h = refl
find_disk-save_ne id row (d ∷ ds) h = ground (
  arith,
  string_eq.same_iff d.disk_id row.disk_id,
  string_eq.same_iff d.disk_id id,
  string_eq.same_iff row.disk_id id,
  find_disk-save_ne id row ds,
)

id_of_find_disk :
    (id : String) (d : CacheDisk) (ds : List CacheDisk) → find_disk id ds ≡ some d → d.disk_id ≡ id
unfolding find_disk
id_of_find_disk id d [] h = absurd (ground arith)
id_of_find_disk id d (x ∷ xs) h =
    ground (arith, string_eq.same_iff x.disk_id id, id_of_find_disk id d xs)

find_disk-save :
    (id other : String) (state : DiskStatus) (d : CacheDisk) (ds : List CacheDisk)
    → find_disk id ds ≡ some d
    → find_disk other (save_disk (row_in_state state d) ds)
      ≡ (if id == other then some (row_in_state state d) else find_disk other ds)
find_disk-save id other state d ds h =
    let row = row_in_state state d in
    let same = id_of_find_disk id d ds h in
    elim (Bool-cases (id == other)) [
      | inl e ↦ rw e (
          let this = (string_eq.same_iff id other).0 e in
          subst (λ k. find_disk k (save_disk row ds) ≡ some row) (same ∙ this)
            (find_disk-save_self row ds (λ gone. ground arith)))
      | inr e ↦
          rw e
            (find_disk-save_ne other row ds (λ this. ground (arith, string_eq.same_iff id other)))
    ]

-- What the death of a disk leaves: the disk is dead and empty, every entry that was on it and not lost
-- carries the loss, and every other row is as before.
pub record Died (drill : Drill) (d : CacheDisk) (t t' : Tables) (r : DeadDiskResult) : Type 0 where
  pub disks :
      (other : String)
      → find_disk other t'.disks
        ≡ (if drill.disk_id == other then some (row_in_state dead d) else find_disk other t.disks)
  pub entries : t'.entries ≡ map (marked drill) t.entries
  pub entries_lost : r.entries_lost ≡ losing drill.disk_id t.entries

probe_passes :
    (confirm is_mounted : Bool)
    → is_mounted && not confirm ≡ false
    → refuse_mounted confirm (some is_mounted) ≡ ok tt
probe_passes confirm is_mounted h = rw h refl

mark_dead-runs :
    (fuel : ℕ) (probe : Option Bool) (confirm : Bool) (batch_size : ℕ) (drill : Drill) (t : Tables)
    (d : CacheDisk)
    → find_disk drill.disk_id t.disks ≡ some d
    → refuse_mounted confirm probe ≡ ok tt
    → mark_dead fuel probe confirm batch_size drill t
      ≡ ok (
          after_losses
            (record t { disks = save_disk (row_in_state dead d) t.disks })
            drill
            (mark_lost fuel drill batch_size t.entries))
unfolding mark_dead disk_or_error set_disk_state
mark_dead-runs fuel probe confirm batch_size drill t d found passes = ground arith

-- The mark of an enrolled disk that is not mounted, or is confirmed, with a positive batch size
-- and while no other session writes, ends with fuel for each of its entries that is not lost, and
-- leaves the disk dead, these entries lost and counted, and everything else alone.
pub mark_dead-Died :
    (drill : Drill) (confirm is_mounted : Bool) (batch_size fuel : ℕ) (t : Tables) (d : CacheDisk)
    → find_disk drill.disk_id t.disks ≡ some d
    → is_mounted && not confirm ≡ false
    → 0 < batch_size
    → losing drill.disk_id t.entries < fuel
    → (t' : Tables) × (r : DeadDiskResult) × (mark_dead fuel
          (some is_mounted)
          confirm
          batch_size
          drill
          t
        ≡ ok (some (t', r)))
      × Died drill d t t' r
mark_dead-Died drill confirm is_mounted batch_size fuel t d found allowed p enough =
    let (counts, runs, total) = mark_lost-Marked drill fuel batch_size t.entries p enough in
    (
      record {
        disks = save_disk (row_in_state dead d) t.disks;
        entries = map (marked drill) t.entries;
      },
      dead_result drill counts,
      mark_dead-runs fuel (some is_mounted) confirm batch_size drill t d found
            (probe_passes confirm is_mounted allowed)
          ∙ ap
              (λ l. ok (
                after_losses (record t { disks = save_disk (row_in_state dead d) t.disks }) drill
                  l))
              runs,
      record {
        disks = λ other. find_disk-save drill.disk_id other dead d t.disks found;
        entries = refl;
        entries_lost = total;
      },
    )
