-- ===== src/Solver/Ints.antt =====
-- The type `int` of the row pointers and column indices: the values below 2 ^ 32 of its 32 bits, so
-- that a value below 2 ^ 31 is itself and every operation wraps around.
use kynema_fmb.Base.{ℕ, ◌+◌, ◌-◌, ◌%◌, ◌^◌, ◌<◌, ◌≡◌, arith}

abbrev pub to_int : ℕ → ℕ
to_int n = n % 2 ^ 32

pub to_int_lem : (n : ℕ) → n < 2 ^ 31 → to_int n ≡ n
to_int_lem n lt = omega arith

pub to_int_sum : (a b : ℕ) → to_int (to_int a + to_int b) ≡ to_int (a + b)
to_int_sum a b = omega arith

-- A difference whose result is not negative, added to a sum.
pub to_int_difference :
    (a b c : ℕ) → to_int (to_int a + to_int (to_int (b + c) + 2 ^ 32 - to_int c)) ≡ to_int (a + b)
to_int_difference a b c = omega arith
