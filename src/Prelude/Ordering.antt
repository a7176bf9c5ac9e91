-- ===== src/Prelude/Ordering.antt =====
-- `ORDER BY` a numeric column.
use Prim.Native.Nat.{ℕ, ◌≤◌, ◌<◌}
use mathlib.Core.Path.{◌≡◌, refl}
use mathlib.Core.Bool.{Bool}
use mathlib.Core.List.{List, [], ◌∷◌, ◌++◌}
use native.Mathlib.Omega.{arith}
use sutradhara.Prelude.Tests.{leb, ltb, if◌then◌else◌}
use sutradhara.Prelude.Lists.{All, filter}

module _ {ℓ} {A : Type ℓ} (key : A → ℕ) where
  unfoldable pub insert_by : A → List A → List A
  insert_by a [] = a ∷ []
  insert_by a (x ∷ xs) =
      let rest = insert_by a xs in if leb (key a) (key x) then a ∷ x ∷ xs else x ∷ rest

  unfoldable pub order_by : List A → List A
  unfolding insert_by
  order_by [] = []
  order_by (x ∷ xs) = insert_by x (order_by xs)

  -- The keys grow strictly, from above a bound.
  abbrev pub Ascending : ℕ → List A → Type 0
  Ascending n [] = Unit
  Ascending n (x ∷ xs) = (n < key x) × Ascending (key x) xs

  -- Every key is below a bound.
  abbrev pub Below : ℕ → List A → Type 0
  Below n xs = All (λ x. key x < n) xs

  insert_by-last : (a : A) (xs : List A) → Below (key a) xs → insert_by a xs ≡ xs ++ a ∷ []
  unfolding insert_by
  insert_by-last a [] b = refl
  insert_by-last a (x ∷ xs) (b, bs) = ground (arith, insert_by-last a xs bs)

  Below-insert_by :
      (n : ℕ) (a : A) (xs : List A) → key a < n → Below n xs → Below n (insert_by a xs)
  unfolding insert_by
  Below-insert_by n a [] h b = (h, tt)
  Below-insert_by n a (x ∷ xs) h (b, bs) = ground (arith, Below-insert_by n a xs h bs)

  pub Below-order_by : (n : ℕ) (xs : List A) → Below n xs → Below n (order_by xs)
  unfolding order_by
  Below-order_by n [] b = tt
  Below-order_by n (x ∷ xs) (b, bs) = Below-insert_by n x (order_by xs) b (Below-order_by n xs bs)

  -- A row with the greatest key comes last.
  pub order_by-last :
      (a : A) (xs : List A) → Below (key a) xs → order_by (a ∷ xs) ≡ order_by xs ++ a ∷ []
  unfolding order_by
  order_by-last a xs b = insert_by-last a (order_by xs) (Below-order_by (key a) xs b)

  pub Below-filter : (n : ℕ) (p : A → Bool) (xs : List A) → Below n xs → Below n (filter p xs)
  Below-filter n p [] b = tt
  Below-filter n p (x ∷ xs) (b, bs) = ground (arith, Below-filter n p xs bs)

  pub Ascending-append :
      (n : ℕ) (xs : List A) (a : A)
      → Ascending n xs
      → n < key a
      → Below (key a) xs
      → Ascending n (xs ++ a ∷ [])
  Ascending-append n [] a h l b = (l, tt)
  Ascending-append n (x ∷ xs) a (h, hs) l (b, bs) = (h, Ascending-append (key x) xs a hs b bs)

  -- The last key of an ascending list.
  abbrev pub last_key : ℕ → List A → ℕ
  last_key n [] = n
  last_key n (x ∷ xs) = last_key (key x) xs

  pub last_key-le : (n : ℕ) (xs : List A) → Ascending n xs → n ≤ last_key n xs
  last_key-le n [] a = omega arith
  last_key-le n (x ∷ xs) (h, hs) = omega (arith, last_key-le (key x) xs hs)

  -- The rows past a bound, as a query for them finds them.
  abbrev pub past : ℕ → A → Bool
  past n x = ltb n (key x)

  -- Every key is at most a bound.
  abbrev pub AtMost : ℕ → List A → Type 0
  AtMost n xs = All (λ x. key x ≤ n) xs

  pub AtMost-last_key : (n m : ℕ) (xs : List A) → Ascending n xs → last_key n xs ≤ m → AtMost m xs
  AtMost-last_key n m [] a l = tt
  AtMost-last_key n m (x ∷ xs) (h, hs) l =
      let up = last_key-le (key x) xs hs in (omega arith, AtMost-last_key (key x) m xs hs l)

  AtMost-insert_by :
      (n : ℕ) (a : A) (xs : List A) → AtMost n (insert_by a xs) → (key a ≤ n) × AtMost n xs
  unfolding insert_by
  AtMost-insert_by n a [] (h, _) = (h, tt)
  AtMost-insert_by n a (x ∷ xs) h = ground (arith, AtMost-insert_by n a xs)

  AtMost-order_by : (n : ℕ) (xs : List A) → AtMost n (order_by xs) → AtMost n xs
  unfolding order_by
  AtMost-order_by n [] h = tt
  AtMost-order_by n (x ∷ xs) h =
      let (a, b) = AtMost-insert_by n x (order_by xs) h in (a, AtMost-order_by n xs b)

  AtMost-past : (c n : ℕ) (xs : List A) → c ≤ n → AtMost n (filter (past c) xs) → AtMost n xs
  AtMost-past c n [] l h = tt
  AtMost-past c n (x ∷ xs) l h = ground (arith, AtMost-past c n xs l)

  none_past : (n : ℕ) (xs : List A) → AtMost n xs → filter (past n) xs ≡ []
  none_past n [] h = refl
  none_past n (x ∷ xs) (h, hs) = ground (arith, none_past n xs hs)

  -- Past the last key of the ordered rows past a bound there is no row.
  pub none_past_last :
      (c : ℕ) (xs : List A)
      → Ascending c (order_by (filter (past c) xs))
      → filter (past (last_key c (order_by (filter (past c) xs)))) xs ≡ []
  none_past_last c xs a =
      let ys = order_by (filter (past c) xs) in
      let m = last_key c ys in
      let most = AtMost-order_by m (filter (past c) xs) (AtMost-last_key c m ys a (omega arith)) in
      none_past m xs (AtMost-past c m xs (last_key-le c ys a) most)

  -- Two runs, one after the other.
  pub Ascending-split :
      (n : ℕ) (xs ys : List A) → Ascending n (xs ++ ys) → Ascending (last_key n xs) ys
  Ascending-split n [] ys a = a
  Ascending-split n (x ∷ xs) ys (h, hs) = Ascending-split (key x) xs ys hs

  pub last_key-append :
      (n : ℕ) (xs ys : List A) → last_key n (xs ++ ys) ≡ last_key (last_key n xs) ys
  last_key-append n [] ys = refl
  last_key-append n (x ∷ xs) ys = last_key-append (key x) xs ys

  pub last_key-lt : (n m : ℕ) (xs ys : List A) → n < m → Below m (xs ++ ys) → last_key n xs < m
  last_key-lt n m [] ys l b = l
  last_key-lt n m (x ∷ xs) ys l (b, bs) = last_key-lt (key x) m xs ys b bs
