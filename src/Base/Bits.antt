-- ===== src/Base/Bits.antt =====
-- The binary digits of a number, and what `|` and `& 1` do to them.
use Prim.Native.Nat.{
  ℕ, zero, suc, ◌+◌, ◌*◌, ◌/◌, ◌%◌, ◌≤◌, min, max, digits, bit_and, bit_or, bit_and-bitwise,
  bit_or-bitwise,
}
use mathlib.Core.Path.{◌≡◌, refl, ◌∙◌, ap}
use native.Mathlib.Omega.{arith}

-- Digit `b` of `x`.
abbrev pub bit : ℕ → ℕ → ℕ
bit x zero = x % 2
bit x (suc b) = bit (x / 2) b

-- The native operations recur on digits with fuel; more fuel changes nothing.
digits_fuel :
    (z : ℕ → ℕ) (f : ℕ → ℕ → ℕ) (n m a b : ℕ) → a ≤ n → a ≤ m → digits z f n a b ≡ digits z f m a b
digits_fuel z f zero zero a b p q = refl
digits_fuel z f zero (suc m) zero b p q = refl
digits_fuel z f zero (suc m) (suc a) b p q = absurd (omega arith)
digits_fuel z f (suc n) zero zero b p q = refl
digits_fuel z f (suc n) zero (suc a) b p q = absurd (omega arith)
digits_fuel z f (suc n) (suc m) zero b p q = refl
digits_fuel z f (suc n) (suc m) (suc a) b p q =
    omega (arith, digits_fuel z f n m (suc a / 2) (b / 2) (omega arith) (omega arith))

bit_or_digits : (a b : ℕ) → bit_or a b ≡ bit_or (a / 2) (b / 2) * 2 + max (a % 2) (b % 2)
bit_or_digits zero b = simp bit_or-bitwise (omega arith)
bit_or_digits (suc a) b = simp bit_or-bitwise (
    omega (
      arith,
      digits_fuel (λ y. y) max a (suc a / 2) (suc a / 2) (b / 2) (omega arith) (omega arith),
    ))

bit_and_digits : (a b : ℕ) → bit_and a b ≡ bit_and (a / 2) (b / 2) * 2 + min (a % 2) (b % 2)
bit_and_digits zero b = simp bit_and-bitwise (omega arith)
bit_and_digits (suc a) b = simp bit_and-bitwise (
    omega (
      arith,
      digits_fuel (λ y. 0) min a (suc a / 2) (suc a / 2) (b / 2) (omega arith) (omega arith),
    ))

pub bit_or_mod : (a b : ℕ) → bit_or a b % 2 ≡ max (a % 2) (b % 2)
bit_or_mod a b = omega (arith, bit_or_digits a b)

pub bit_or_div : (a b : ℕ) → bit_or a b / 2 ≡ bit_or (a / 2) (b / 2)
bit_or_div a b = omega (arith, bit_or_digits a b)

bit_and-zero : (n a : ℕ) → a ≤ n → bit_and a 0 ≡ 0
bit_and-zero n zero h = refl
bit_and-zero zero (suc a) h = absurd (omega arith)
bit_and-zero (suc n) (suc a) h =
    omega (arith, bit_and_digits (suc a) 0, bit_and-zero n (suc a / 2) (omega arith))

pub bit_and-one : (a : ℕ) → bit_and a 1 ≡ a % 2
bit_and-one a = omega (arith, bit_and_digits a 1, bit_and-zero (a / 2) (a / 2) (omega arith))

pub bit-le : (x b : ℕ) → bit x b ≤ 1
bit-le x zero = omega arith
bit-le x (suc b) = bit-le (x / 2) b

pub bit-bit_or : (x y b : ℕ) → bit (bit_or x y) b ≡ max (bit x b) (bit y b)
bit-bit_or x y zero = bit_or_mod x y
bit-bit_or x y (suc b) = ap (λ z. bit z b) (bit_or_div x y) ∙ bit-bit_or (x / 2) (y / 2) b

pub bit-zero : (b : ℕ) → bit 0 b ≡ 0
bit-zero zero = refl
bit-zero (suc b) = bit-zero b

-- The sum of the lowest `n` digits.
abbrev pub sum_bits : ℕ → ℕ → ℕ
sum_bits zero x = 0
sum_bits (suc n) x = x % 2 + sum_bits n (x / 2)

pub sum_bits-le : (n x : ℕ) → sum_bits n x ≤ n
sum_bits-le zero x = omega arith
sum_bits-le (suc n) x = omega (arith, sum_bits-le n (x / 2))

-- Numbers with the same digits are equal.
pub bit_ext : (n x y : ℕ) → x ≤ n → y ≤ n → ((b : ℕ) → bit x b ≡ bit y b) → x ≡ y
bit_ext zero x y p q same = omega arith
bit_ext (suc n) x y p q same =
    omega (arith, same 0, bit_ext n (x / 2) (y / 2) (omega arith) (omega arith) (λ b. same (suc b)))

pub bit_or_right_comm : (x y z : ℕ) → bit_or (bit_or x y) z ≡ bit_or (bit_or x z) y
bit_or_right_comm x y z =
    bit_ext (bit_or (bit_or x y) z + bit_or (bit_or x z) y) _ _ (omega arith) (omega arith) (λ b.
      omega (
        arith,
        bit-bit_or (bit_or x y) z b,
        bit-bit_or (bit_or x z) y b,
        bit-bit_or x y b,
        bit-bit_or x z b,
      ))
