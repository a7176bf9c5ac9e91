-- ===== src/Prelude/Lists.antt =====
-- Lists measured by native numbers, Python's comprehensions, and predicates over lists.
use Prim.Native.Nat.{ℕ, suc, ◌+◌, ◌≤◌}
use mathlib.Core.Path.{◌≡◌, sym, subst, ap}
use mathlib.Core.Logic.{◌⊎◌, inl, inr}
use mathlib.Core.Bool.{Bool, true, false, ◌&&◌, ◌||◌}
use mathlib.Core.List.{List, [], ◌∷◌, ◌++◌, Memᴰ}
use mathlib.Core.Option.{Option, none, some}
use native.Mathlib.Omega.{arith}
use sutradhara.Prelude.Tests.{if◌then◌else◌, Bool-cases}

module _ {ℓ} {A : Type ℓ} where
  abbrev pub length : List A → ℕ
  length [] = 0
  length (x ∷ xs) = suc (length xs)

  pub length-append : (xs ys : List A) → length (xs ++ ys) ≡ length xs + length ys
  length-append [] ys = omega arith
  length-append (x ∷ xs) ys = omega (arith, length-append xs ys)

  -- `[x for x in xs if p(x)]`
  abbrev pub filter : (A → Bool) → List A → List A
  filter p [] = []
  filter p (x ∷ xs) = let rest = filter p xs in if p x then x ∷ rest else rest

  -- `all(p(x) for x in xs)` and `any(p(x) for x in xs)`
  abbrev pub all : (A → Bool) → List A → Bool
  all p [] = true
  all p (x ∷ xs) = p x && all p xs

  abbrev pub any : (A → Bool) → List A → Bool
  any p [] = false
  any p (x ∷ xs) = p x || any p xs

  -- `xs[0]` of a query with `limit(1)`
  abbrev pub head? : List A → Option A
  head? [] = none
  head? (x ∷ xs) = some x

  pub length-filter : (p : A → Bool) (xs : List A) → length (filter p xs) ≤ length xs
  length-filter p [] = omega arith
  length-filter p (x ∷ xs) = ground (arith, length-filter p xs)

-- A predicate by recursion computes to tuples, which the tactics read and build.
abbrev pub All {ℓ κ} : {A : Type ℓ} → (A → Type κ) → List A → Type κ
All P [] = Unit
All P (x ∷ xs) = P x × All P xs

module _ {ℓ} {A : Type ℓ} where
  pub Mem-cons : {a x : A} {xs : List A} → Memᴰ a (x ∷ xs) → (a ≡ x) ⊎ Memᴰ a xs
  Mem-cons (Memᴰ.head e) = inl e
  Mem-cons (Memᴰ.tail r) = inr r

  -- What a comprehension keeps was there, and passed its test.
  pub Mem-filter :
      (p : A → Bool) {a : A} (xs : List A) → Memᴰ a (filter p xs) → Memᴰ a xs × (p a ≡ true)
  Mem-filter p [] h = elim h [ ]
  Mem-filter p (x ∷ xs) h = elim (Bool-cases (p x)) [
    | inl keep ↦ elim (Mem-cons (rw keep at h)) [
      | inl e ↦ (Memᴰ.head e, subst (λ y. p y ≡ true) (sym e) keep)
      | inr r ↦ (Memᴰ.tail (Mem-filter p xs r).0, (Mem-filter p xs r).1)
    ]
    | inr skip ↦ let r = Mem-filter p xs (rw skip at h) in (Memᴰ.tail r.0, r.1)
  ]

  pub Mem-All {κ} : (P : A → Type κ) {a : A} (xs : List A) → All P xs → Memᴰ a xs → P a
  Mem-All P [] h m = elim m [ ]
  Mem-All P (x ∷ xs) h (Memᴰ.head e) = subst P (sym e) h.0
  Mem-All P (x ∷ xs) h (Memᴰ.tail r) = Mem-All P xs h.1 r

module _ {ℓ} {A : Type ℓ} (p : A → Bool) where
  pub Mem-filter_of : {a : A} (xs : List A) → Memᴰ a xs → p a ≡ true → Memᴰ a (filter p xs)
  Mem-filter_of [] m h = m
  Mem-filter_of {a} (x ∷ xs) m h = elim (Bool-cases (p x)) [
    | inl keep ↦
        rw keep
          (elim (Mem-cons m) [ inl e ↦ Memᴰ.head e | inr r ↦ Memᴰ.tail (Mem-filter_of xs r h) ])
    | inr skip ↦ rw skip (elim (Mem-cons m) [
      | inl e ↦ absurd (ground (arith, ap p e))
      | inr r ↦ Mem-filter_of xs r h
    ])
  ]

  pub All-filter {κ} : (P : A → Type κ) (xs : List A) → All P xs → All P (filter p xs)
  All-filter P [] h = h
  All-filter P (x ∷ xs) (h, hs) = elim (Bool-cases (p x)) [
    | inl keep ↦ rw keep (h, All-filter P xs hs)
    | inr skip ↦ rw skip (All-filter P xs hs)
  ]
