-- ===== src/Hdcache/Placement/Signals.antt =====
-- What a placement learns from the entries, in terms of their columns (`build_placement_context` of
-- src/sutradhara/hdcache/placement.py).
use sutradhara.Prelude.{
  ℕ, ◌≢◌, ◌⊎◌, inl, inr, ◌↔◌, Memᴰ, Mem-cons, Mem-filter, Mem-filter_of, true, false, Bool-cases,
  Option-cases, ap, sym, subst, ◌∙◌, suc, ◌≡◌, refl, String, Bool, Option, none, some, List, [],
  ◌∷◌, filter, any, length, arith, ◌==◌, string_eq,
}
use sutradhara.Hdcache.Rows.{CacheEntry, EntryState, filling, present, lost, is_live}
use sutradhara.Hdcache.Placement.{DiskState, is_sibling, count_on}
use sutradhara.Hdcache.Placement.Catalog.{matches, build_placement_context}
use sutradhara.Hdcache.Placement.Grouping.{is_on, others_of, context_counts}

-- A live entry of a key with another content.
pub record IsOther (key_of : CacheEntry → Option String) (key content : String) (e : CacheEntry)
    : Type 0 where
  pub live : (e.state ≡ present) ⊎ (e.state ≡ filling)
  pub other : e.content_sha256 ≢ content
  pub keyed : key_of e ≡ some key

matches-IsOther :
    (key_of : CacheEntry → Option String) (key content : String) (e : CacheEntry)
    → matches key_of key content e ≡ true
    → IsOther key_of key content e
unfolding matches
matches-IsOther key_of key content e h = record {
  live = go e.state (ground arith);
  other = λ same. ground (arith, string_eq.same_iff e.content_sha256 content);
  keyed = elim (Option-cases (key_of e)) [
    | inl gone ↦ absurd (ground arith)
    | inr (k, there) ↦ ground (arith, string_eq.same_iff k key)
  ];
}
  where
    go : (s : EntryState) → is_live s ≡ true → (s ≡ present) ⊎ (s ≡ filling)
    go present t = inl refl
    go filling t = inr refl
    go lost t = absurd (ground arith)

IsOther-matches :
    (key_of : CacheEntry → Option String) (key content : String) (e : CacheEntry)
    → IsOther key_of key content e
    → matches key_of key content e ≡ true
unfolding matches
IsOther-matches key_of key content e o =
    let live : is_live e.state ≡ true = elim o.live [
      | inl p ↦ ground arith
      | inr f ↦ ground arith
    ] in
    let other : (e.content_sha256 == content) ≡ false =
      elim (Bool-cases (e.content_sha256 == content)) [
        | inl same ↦ absurd (o.other ((string_eq.same_iff e.content_sha256 content).0 same))
        | inr differs ↦ differs
      ] in
    ground (arith, live, other, o.keyed, string_eq.same_iff key key)

-- Such an entry on a disk.
abbrev pub OtherOn : String → (CacheEntry → Option String) → String → String → CacheEntry → Type 0
OtherOn disk_id key_of key content e = (e.disk_id ≡ disk_id) × IsOther key_of key content e

-- `n` elements of the list have the property.
pub data Tally {A : Type 0} (P : A → Type 0) : List A → ℕ → Type 0 where
  none_left : Tally P [] 0
  counted : {x : A} {xs : List A} {n : ℕ} → P x → Tally P xs n → Tally P (x ∷ xs) (suc n)
  passed_over : {x : A} {xs : List A} {n : ℕ} → ¬ P x → Tally P xs n → Tally P (x ∷ xs) n

filter-Tally :
    {A : Type 0} (p q : A → Bool) (P : A → Type 0)
    → ((x : A) → p x ≡ true → q x ≡ true → P x)
    → ((x : A) → P x → (p x ≡ true) × (q x ≡ true))
    → (xs : List A) → Tally P xs (length (filter q (filter p xs)))
filter-Tally p q P to from [] = none_left
filter-Tally p q P to from (x ∷ xs) = elim (Bool-cases (p x)) [
  | inr f ↦
      rw f (passed_over (λ h. absurd (ground (arith, from x h))) (filter-Tally p q P to from xs))
  | inl t ↦ rw t (elim (Bool-cases (q x)) [
    | inl t' ↦ rw t' (counted (to x t t') (filter-Tally p q P to from xs))
    | inr f ↦
        rw f (passed_over (λ h. absurd (ground (arith, from x h))) (filter-Tally p q P to from xs))
  ])
]

any_iff :
    {A : Type 0} (q : A → Bool) (xs : List A) → any q xs ≡ true → (x : A) × Memᴰ x xs × (q x ≡ true)
any_iff q [] h = absurd (ground arith)
any_iff q (x ∷ xs) h = elim (Bool-cases (q x)) [
  | inl t ↦ (x, Memᴰ.head refl, t)
  | inr f ↦ let (y, m, t) = any_iff q xs (ground arith) in (y, Memᴰ.tail m, t)
]

any_of :
    {A : Type 0} (q : A → Bool) (x : A) (xs : List A) → Memᴰ x xs → q x ≡ true → any q xs ≡ true
any_of q x [] m t = elim m [ ]
any_of q x (y ∷ ys) m t = elim (Mem-cons m) [
  | inl e ↦ let there : q y ≡ true = ap q (sym e) ∙ t in ground (arith, there)
  | inr r ↦ ground (arith, any_of q x ys r t)
]

-- Some live entry of the bundle with another content is on the disk.
abbrev pub HasOther : String → Option String → String → List CacheEntry → Type 0
HasOther disk_id bundle_key content entries =
    (key : String) × (bundle_key ≡ some key)
    × (e : CacheEntry) × Memᴰ e entries
    × OtherOn disk_id (λ x. x.bundle_key) key content e

-- The number of live entries of the group with another content on the disk.
abbrev pub CountsOthers : String → Option String → String → List CacheEntry → ℕ → Type 0
CountsOthers disk_id none content entries n = n ≡ 0
CountsOthers disk_id (some key) content entries n =
    Tally (OtherOn disk_id (λ x. x.group_key) key content) entries n

-- A disk is a sibling exactly where an entry on it is present or filling, has another content, and
-- has the bundle key of the file; its count is the number of entries on it that are present or
-- filling, have another content, and have the group key of the file. Without a key there is no
-- sibling, and the count is 0.
pub build_placement_context-Counts :
    (content : String) (size : ℕ) (bundle_key group_key : Option String) (entries : List CacheEntry)
    (disk : DiskState)
    → let ctx = build_placement_context content size bundle_key group_key entries in
      ((is_sibling ctx disk ≡ true) ↔ HasOther disk.disk_id bundle_key content entries)
      × CountsOthers disk.disk_id group_key content entries (count_on ctx disk)
build_placement_context-Counts content size bundle_key group_key entries disk =
    let (sibling, count) = context_counts content size bundle_key group_key entries disk in
    (
      (λ h. found bundle_key (sym sibling ∙ h), λ o. sibling ∙ held bundle_key o),
      subst (CountsOthers disk.disk_id group_key content entries) (sym count) (tallied group_key),
    )
  where
    found :
        (key : Option String)
        → any (is_on disk.disk_id) (others_of (λ x. x.bundle_key) key content entries) ≡ true
        → HasOther disk.disk_id key content entries
    found none h = absurd (ground arith)
    found (some k) h =
        let (e, m, on) =
          any_iff (is_on disk.disk_id) (others_of (λ x. x.bundle_key) (some k) content entries) h in
        let (stored, t) = Mem-filter (matches (λ x. x.bundle_key) k content) entries m in
        (
          k,
          refl,
          e,
          stored,
          (
            (string_eq.same_iff e.disk_id disk.disk_id).0 on,
            matches-IsOther (λ x. x.bundle_key) k content e t,
          ),
        )

    held :
        (key : Option String)
        → HasOther disk.disk_id key content entries
        → any (is_on disk.disk_id) (others_of (λ x. x.bundle_key) key content entries) ≡ true
    held none (k, bad, e, stored, on) = absurd (ground arith)
    held (some k) (k', same, e, stored, (on, other)) =
        any_of (is_on disk.disk_id) e (others_of (λ x. x.bundle_key) (some k) content entries)
          (Mem-filter_of (matches (λ x. x.bundle_key) k content) entries stored (
            IsOther-matches (λ x. x.bundle_key) k content e
              (let named : k' ≡ k = ground arith in
                subst (λ v. IsOther (λ x. x.bundle_key) v content e) named other)))
          ((string_eq.same_iff e.disk_id disk.disk_id).1 on)

    tallied :
        (key : Option String)
        → CountsOthers disk.disk_id key content entries (
            length (filter (is_on disk.disk_id) (others_of (λ e. e.group_key) key content entries)))
    tallied none = refl
    tallied (some k) =
        filter-Tally (matches (λ x. x.group_key) k content) (is_on disk.disk_id)
          (OtherOn disk.disk_id (λ x. x.group_key) k content)
          (λ e t on. (
            (string_eq.same_iff e.disk_id disk.disk_id).0 on,
            matches-IsOther (λ x. x.group_key) k content e t,
          ))
          (λ e o. (
            IsOther-matches (λ x. x.group_key) k content e o.1,
            (string_eq.same_iff e.disk_id disk.disk_id).1 o.0,
          ))
          entries
