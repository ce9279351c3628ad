-- ===== src/Base/Sums.antt =====
-- Prefix sums: the numbering schemes of the program are all of this form.
use Prim.Native.Nat.{ℕ, zero, suc, ◌+◌, ◌*◌, ◌≤◌, ◌<◌}
use mathlib.Core.Path.{◌≡◌, refl, subst}
use mathlib.Core.List.{List}
use mathlib.Core.Logic.{inl, inr}
use native.Mathlib.Omega.{arith}
use kynema_fmb.Base.Tests.{ltb, ◌==◌, ==_iff, Bool-cases}
use kynema_fmb.Base.Lists.{◌∈◌, collect, mem-append_left, mem-append_right, mem-append_cases}

-- `f 0 + … + f (n - 1)`
abbrev pub sum_below : ℕ → (ℕ → ℕ) → ℕ
sum_below zero f = 0
sum_below (suc n) f = sum_below n f + f n

pub sum_below_mono : (i j : ℕ) (f : ℕ → ℕ) → i ≤ j → sum_below i f ≤ sum_below j f
sum_below_mono zero zero f h = omega arith
sum_below_mono (suc i) zero f h = absurd (omega arith)
sum_below_mono i (suc j) f h = elim (Bool-cases (i == suc j)) [
  | inl e ↦ ground arith
  | inr e ↦ omega (arith, sum_below_mono i j f (ground arith))
]

-- The parts of a prefix sum follow one another.
pub sum_below_step : (i j : ℕ) (f : ℕ → ℕ) → i < j → sum_below i f + f i ≤ sum_below j f
sum_below_step i j f h = sum_below_mono (suc i) j f h

pub sum_below-le : (n bound : ℕ) (f : ℕ → ℕ) → ((k : ℕ) → f k ≤ bound) → sum_below n f ≤ bound * n
sum_below-le zero bound f h = omega arith
sum_below-le (suc n) bound f h = omega (arith, sum_below-le n bound f h, h n)

pub sum_below_congr :
    (n : ℕ) (f g : ℕ → ℕ) → ((k : ℕ) → k < n → f k ≡ g k) → sum_below n f ≡ sum_below n g
sum_below_congr zero f g h = refl
sum_below_congr (suc n) f g h =
    omega (arith, sum_below_congr n f g (λ k lt. h k (omega arith)), h n (omega arith))

-- Every number below the sum lies in one part.
pub sum_below_find :
    (n d : ℕ) (f : ℕ → ℕ)
    → d < sum_below n f
    → (i : ℕ) × (i < n) × (sum_below i f ≤ d) × (d < sum_below i f + f i)
sum_below_find zero d f h = absurd (omega arith)
sum_below_find (suc n) d f h = elim (Bool-cases (ltb d (sum_below n f))) [
  | inl e ↦ let (i, lt, lo, hi) = sum_below_find n d f (ground arith) in (i, omega arith, lo, hi)
  | inr e ↦ (n, omega arith, ground arith, h)
]

-- A number lies in one part only.
pub sum_below_unique :
    (i j d : ℕ) (f : ℕ → ℕ)
    → sum_below i f ≤ d
    → d < sum_below i f + f i
    → sum_below j f ≤ d
    → d < sum_below j f + f j
    → i ≡ j
sum_below_unique i j d f lo hi lo' hi' = elim (Bool-cases (i == j)) [
  | inl e ↦ ground arith
  | inr e ↦ elim (Bool-cases (ltb i j)) [
    | inl lt ↦ absurd (omega (arith, sum_below_step i j f (ground arith)))
    | inr ge ↦ absurd (omega (arith, sum_below_step j i f (ground arith)))
  ]
]

-- An element of part `k` is an element of the whole.
pub mem-collect :
    {A : Type 0} (a : A) (n k : ℕ) (f : ℕ → List A) → k < n → a ∈ f k → a ∈ collect n f
mem-collect a zero k f lt m = absurd (omega arith)
mem-collect a (suc n) k f lt m = elim (Bool-cases (k == n)) [
  | inl e ↦ mem-append_right a (collect n f) (f n) (subst (λ i. a ∈ f i) ((==_iff k n).0 e) m)
  | inr e ↦ mem-append_left a (collect n f) (f n) (mem-collect a n k f (ground arith) m)
]

-- An element of the whole is an element of a part.
pub mem-collect_cases :
    {A : Type 0} (a : A) (n : ℕ) (f : ℕ → List A) → a ∈ collect n f → (k : ℕ) × (k < n) × (a ∈ f k)
mem-collect_cases a zero f m = absurd m
mem-collect_cases a (suc n) f m = elim (mem-append_cases a (collect n f) (f n) m) [
  | inl before ↦ let (k, lt, here) = mem-collect_cases a n f before in (k, omega arith, here)
  | inr last ↦ (n, omega arith, last)
]
