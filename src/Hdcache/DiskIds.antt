-- ===== src/Hdcache/DiskIds.antt =====
-- The ids of disks (`_next_disk_id` of src/sutradhara/hdcache/lifecycle.py): `f"d{n:03d}"`, and the number
-- that SQLite's `cast(substr(disk_id, 2) as integer)` reads back, which stops at the first character
-- that is no digit. An id with a sign or a blank behind its d, which is never printed, counts as 0.
use Prim.Native.Char.{Char, code}
use sutradhara.Prelude.{
  ℕ, zero, suc, ◌+◌, ◌*◌, ◌-◌, ◌/◌, ◌%◌, ◌<◌, ◌≡◌, refl, inl, inr, String, Bool, true, false, ◌&&◌,
  ◌||◌, Option, none, some, List, [], ◌∷◌, ltb, leb, if◌then◌else◌, ◌==◌, nat_eq, arith, ap, ◌∙◌,
  Bool-cases,
}

unfoldable pub codes : String → List ℕ
codes String.[] = []
codes (String.◌∷◌ c s) = code c ∷ codes s

unfoldable pub digit : ℕ → Char
digit zero = "0"
digit (suc zero) = "1"
digit (suc (suc zero)) = "2"
digit (suc (suc (suc zero))) = "3"
digit (suc (suc (suc (suc zero)))) = "4"
digit (suc (suc (suc (suc (suc zero))))) = "5"
digit (suc (suc (suc (suc (suc (suc zero)))))) = "6"
digit (suc (suc (suc (suc (suc (suc (suc zero))))))) = "7"
digit (suc (suc (suc (suc (suc (suc (suc (suc zero)))))))) = "8"
digit _ = "9"

-- The decimal digits of a number, in front of a text; the fuel is the number and one more.
unfoldable pub decimal : ℕ → ℕ → String → String
decimal zero n rest = rest
decimal (suc fuel) n rest =
    let onward = decimal fuel (n / 10) (String.◌∷◌ (digit (n % 10)) rest) in
    if ltb n 10 then String.◌∷◌ (digit n) rest else onward

abbrev pub is_digit : ℕ → Bool
is_digit c = leb b'0' c && leb c b'9'

unfoldable pub read_digits : ℕ → List ℕ → ℕ
read_digits n [] = n
read_digits n (c ∷ cs) =
    let onward = read_digits (n * 10 + (c - b'0')) cs in if is_digit c then onward else n

-- Zeros up to three digits: the tests say that the number is below 10, and below 100.
unfoldable pub pad : Bool → Bool → String → String
pad true b written = String.◌∷◌ "0" (String.◌∷◌ "0" written)
pad false true written = String.◌∷◌ "0" written
pad false false written = written

-- `f"d{n:03d}"`
unfoldable pub id_of : ℕ → String
id_of n = String.◌∷◌ "d" (pad (ltb n 10) (ltb n 100) (decimal (suc n) n ""))

-- `like("d%")`, which does not tell cases apart, and the cast of the rest
unfoldable pub number_behind : List ℕ → Option ℕ
unfolding read_digits
number_behind [] = none
number_behind (c ∷ cs) =
    let number = read_digits 0 cs in if c == b'd' || c == b'D' then some number else none

unfoldable pub number_of : String → Option ℕ
unfolding codes number_behind
number_of id = number_behind (codes id)

code-digit : (n : ℕ) → n < 10 → code (digit n) ≡ n + b'0'
unfolding digit
code-digit zero l = refl
code-digit (suc zero) l = refl
code-digit (suc (suc zero)) l = refl
code-digit (suc (suc (suc zero))) l = refl
code-digit (suc (suc (suc (suc zero)))) l = refl
code-digit (suc (suc (suc (suc (suc zero))))) l = refl
code-digit (suc (suc (suc (suc (suc (suc zero)))))) l = refl
code-digit (suc (suc (suc (suc (suc (suc (suc zero))))))) l = refl
code-digit (suc (suc (suc (suc (suc (suc (suc (suc zero)))))))) l = refl
code-digit (suc (suc (suc (suc (suc (suc (suc (suc (suc zero))))))))) l = refl
code-digit (suc (suc (suc (suc (suc (suc (suc (suc (suc (suc n)))))))))) l = absurd (omega arith)

read_digit :
    (n d : ℕ) (cs : List ℕ)
    → d < 10
    → read_digits n (code (digit d) ∷ cs) ≡ read_digits (n * 10 + d) cs
unfolding read_digits
read_digit n d cs l = ground (arith, code-digit d l)

read-decimal :
    (fuel n : ℕ) (rest : String)
    → n < fuel
    → read_digits 0 (codes (decimal fuel n rest)) ≡ read_digits n (codes rest)
unfolding decimal codes
read-decimal zero n rest l = absurd (omega arith)
read-decimal (suc fuel) n rest l = elim (Bool-cases (ltb n 10)) [
  | inl t ↦ rw t (
      read_digit 0 n (codes rest) (ground arith)
      ∙ ap (λ m. read_digits m (codes rest)) (omega arith))
  | inr f ↦ rw f (
      read-decimal fuel (n / 10) (String.◌∷◌ (digit (n % 10)) rest) (ground arith)
      ∙ read_digit (n / 10) (n % 10) (codes rest) (omega arith)
      ∙ ap (λ m. read_digits m (codes rest)) (omega arith))
]

read-pad : (a b : Bool) (s : String) → read_digits 0 (codes (pad a b s)) ≡ read_digits 0 (codes s)
unfolding pad codes read_digits
read-pad true b s = refl
read-pad false true s = refl
read-pad false false s = refl

read_all : (n : ℕ) → read_digits n (codes "") ≡ n
unfolding read_digits codes
read_all n = refl

-- The number of a printed id is read back.
pub number_of-id_of : (n : ℕ) → number_of (id_of n) ≡ some n
unfolding number_of id_of number_behind
number_of-id_of n = ap some (
    read-pad (ltb n 10) (ltb n 100) (decimal (suc n) n "")
    ∙ read-decimal (suc n) n "" (omega arith)
    ∙ read_all n)
