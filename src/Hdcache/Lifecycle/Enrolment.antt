-- ===== src/Hdcache/Lifecycle/Enrolment.antt =====
-- Enrolment of a disk (`_add_disk`, `_next_disk_id` of src/sutradhara/hdcache/lifecycle.py).
use sutradhara.Prelude.{
  ℕ, ◌+◌, ◌≤◌, ◌≡◌, inl, inr, String, false, Option, none, some, List, [], ◌∷◌, ◌++◌, arith,
  Option-cases, string_eq, ok,
}
use sutradhara.Prelude.Int.{pos}
use sutradhara.Hdcache.Rows.{CacheDisk, active}
use sutradhara.Hdcache.DiskIds.{number_of, number_of-id_of}
use sutradhara.Hdcache.Lifecycle.{
  Tables, Hardware, find_disk, max_number, next_disk_id, serial_exists, add_disk,
}

number-le :
    (id : String) (n : ℕ) (d : CacheDisk) (ds : List CacheDisk)
    → find_disk id ds ≡ some d
    → number_of id ≡ some n
    → n ≤ max_number ds
unfolding find_disk max_number
number-le id n d [] h e = absurd (ground arith)
number-le id n d (x ∷ xs) h e = ground (arith, string_eq.same_iff x.disk_id id, number-le id n d xs)

next_disk_id-fresh : (ds : List CacheDisk) → find_disk (next_disk_id ds) ds ≡ none
next_disk_id-fresh ds = elim (Option-cases (find_disk (next_disk_id ds) ds)) [
  | inl e ↦ e
  | inr (d, found) ↦ absurd (
      omega (
        arith,
        number-le (next_disk_id ds) (max_number ds + 1) d ds found
            (number_of-id_of (max_number ds + 1)),
      ))
]

-- A disk that was enrolled: its id and its serial are new, it is active and empty, and it is the one
-- change to the tables.
pub record Enrolled (t t' : Tables) (row : CacheDisk) : Type 0 where
  pub fresh_id : find_disk row.disk_id t.disks ≡ none
  pub fresh_serial : serial_exists row.serial t.disks ≡ false
  pub appended : t'.disks ≡ t.disks ++ row ∷ []
  pub entries : t'.entries ≡ t.entries
  pub in_use : row.state ≡ active
  pub empty : row.filled_bytes ≡ pos 0

-- An enrolment that succeeds adds one active, empty disk under an id and a serial that no disk
-- has, whatever device the provisioner answers with.
pub add_disk-Enrolled :
    (hw : Hardware) (candidate : Option String) (t t' : Tables) (row : CacheDisk)
    → add_disk hw candidate t ≡ ok (t', row)
    → Enrolled t t' row
unfolding add_disk
add_disk-Enrolled hw candidate t t' row h =
    let fresh = next_disk_id-fresh t.disks in
    elim (Option-cases (hw.provision (next_disk_id t.disks))) [
      | inl none' ↦ absurd (ground arith)
      | inr (p, provisioned) ↦ ground (arith, fresh)
    ]
