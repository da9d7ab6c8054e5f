-- ===== src/Common/Decimal.antt =====
-- Decimal numerals: `str(n)` and `int(s)` for ASCII digits.
use taxonomy_builder.Common.{
  length, ℕ, zero, suc, ◌+◌, ◌-◌, ◌*◌, ◌/◌, ◌%◌, ◌≤◌, ◌<◌, ◌≡◌, refl, sym, ◌∙◌, ap, inl, inr, Bool,
  true, ◌&&◌, Option, none, some, [], ◌∷◌, ◌++◌, Text, ltb, leb, all, if◌then◌else◌, Bool-cases,
  arith,
}
use mathlib.Core.Option.{some-injective}

unfoldable pub is_digit : ℕ → Bool
is_digit c = leb 48 c && leb c 57

-- the digits from the left, onto what was read before
pub read_digits : ℕ → Text → Option ℕ
unfolding is_digit
read_digits n [] = some n
read_digits n (c ∷ t) =
    let rest = read_digits (10 * n + (c - 48)) t in if is_digit c then rest else none

-- `int(s)`, where `none` is a ValueError
unfoldable pub int_of : Text → Option ℕ
unfolding read_digits
int_of [] = none
int_of (c ∷ t) = read_digits 0 (c ∷ t)

-- the last digit first, each put before those behind it
pub write_digits : ℕ → ℕ → Text → Text
write_digits zero n rest = rest
write_digits (suc fuel) n rest =
    let more = write_digits fuel (n / 10) ((48 + n % 10) ∷ rest) in
    if ltb n 10 then (48 + n) ∷ rest else more

-- `str(n)`
unfoldable pub decimal : ℕ → Text
unfolding write_digits
decimal n = write_digits (suc n) n []

-- reading one digit
read_digit :
    (n d m : ℕ) (rest : Text)
    → d < 10
    → 10 * n + d ≡ m
    → read_digits n ((48 + d) ∷ rest) ≡ read_digits m rest
unfolding read_digits is_digit
read_digit n d m rest h e = ground arith

int_of-write_digits :
    (fuel n : ℕ) (rest : Text)
    → n ≤ fuel
    → int_of (write_digits (suc fuel) n rest) ≡ read_digits n rest
unfolding write_digits int_of
int_of-write_digits zero n rest h =
    let small : ltb n 10 ≡ true = ground arith in
    rw small (read_digit 0 n n rest (ground arith) (omega arith))
int_of-write_digits (suc fuel) n rest h = elim (Bool-cases (ltb n 10)) [
  | inl small ↦ rw small (read_digit 0 n n rest (ground arith) (omega arith))
  | inr large ↦ rw large (
      int_of-write_digits fuel (n / 10) ((48 + n % 10) ∷ rest) (ground arith)
      ∙ read_digit (n / 10) (n % 10) n rest (omega arith) (omega arith))
]

pub int_of-decimal : (n : ℕ) → int_of (decimal n) ≡ some n
unfolding decimal read_digits
int_of-decimal n = int_of-write_digits n n [] (omega arith)

pub decimal_inj : (m n : ℕ) → decimal m ≡ decimal n → m ≡ n
decimal_inj m n h = some-injective m n (sym (int_of-decimal m) ∙ ap int_of h ∙ int_of-decimal n)

-- an accepted numeral, and one that is written, is made of digits
all-is_digit_write :
    (fuel n : ℕ) (rest : Text)
    → n ≤ fuel
    → all is_digit rest ≡ true
    → all is_digit (write_digits (suc fuel) n rest) ≡ true
unfolding write_digits is_digit
all-is_digit_write zero n rest h r = ground arith
all-is_digit_write (suc fuel) n rest h r = elim (Bool-cases (ltb n 10)) [
  | inl small ↦ rw small (ground arith)
  | inr large ↦
      rw large
        (all-is_digit_write fuel (n / 10) ((48 + n % 10) ∷ rest) (ground arith) (ground arith))
]

pub all-is_digit-decimal : (n : ℕ) → all is_digit (decimal n) ≡ true
unfolding decimal
all-is_digit-decimal n = all-is_digit_write n n [] (omega arith) refl

abbrev pub zeros : ℕ → Text
zeros zero = []
zeros (suc n) = 48 ∷ zeros n

-- leading zeros do not change a number
pub int_of-zeros : (k n : ℕ) (t : Text) → int_of t ≡ some n → int_of (zeros k ++ t) ≡ some n
unfolding int_of is_digit
int_of-zeros zero n t h = h
int_of-zeros (suc k) n t h = read_zeros k n t h
  where
    read_zeros : (k n : ℕ) (t : Text) → int_of t ≡ some n → read_digits 0 (zeros k ++ t) ≡ some n
    read_zeros zero n [] h = cc
    read_zeros zero n (c ∷ t) h = h
    read_zeros (suc k) n t h = read_zeros k n t h

abbrev pub tens : ℕ → ℕ
tens zero = 1
tens (suc k) = 10 * tens k

length-write_digits :
    (k fuel n : ℕ) (rest : Text)
    → n < tens (suc k)
    → n ≤ fuel
    → length (write_digits (suc fuel) n rest) ≤ suc k + length rest
unfolding write_digits
length-write_digits zero fuel n rest small enough =
    let one : ltb n 10 ≡ true = ground arith in rw one (omega arith)
length-write_digits (suc k) zero n rest small enough =
    let one : ltb n 10 ≡ true = ground arith in rw one (omega arith)
length-write_digits (suc k) (suc fuel) n rest small enough = elim (Bool-cases (ltb n 10)) [
  | inl e ↦ rw e (omega arith)
  | inr e ↦ rw e (
      omega (
        arith,
        length-write_digits k fuel (n / 10) ((48 + n % 10) ∷ rest) (omega arith) (ground arith),
      ))
]

-- a number below 10 ^ k has no more than k digits
pub length-decimal : (k n : ℕ) → n < tens (suc k) → length (decimal n) ≤ suc k
unfolding decimal
length-decimal k n small = omega (arith, length-write_digits k n n [] small (omega arith))

pub length-zeros : (k : ℕ) → length (zeros k) ≡ k
length-zeros zero = refl
length-zeros (suc k) = ap suc (length-zeros k)
