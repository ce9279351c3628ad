-- ===== src/Base/Lists.antt =====
-- Lists measured and indexed by native numbers.
use Prim.Native.Nat.{ℕ, zero, suc, ◌+◌}
use mathlib.Core.Path.{◌≡◌, refl, ap}
use mathlib.Core.Logic.{◌⊎◌, inl, inr}
use mathlib.Core.List.{List, [], ◌∷◌, ◌++◌, map}
use mathlib.Core.Option.{Option, none, some}
use native.Mathlib.Omega.{arith}

module _ {ℓ} {A : Type ℓ} where
  abbrev pub length : List A → ℕ
  length [] = 0
  length (x ∷ xs) = suc (length xs)

  abbrev pub get_elem? : List A → ℕ → Option A
  get_elem? [] i = none
  get_elem? (x ∷ xs) zero = some x
  get_elem? (x ∷ xs) (suc i) = get_elem? xs i

  abbrev pub take : ℕ → List A → List A
  take zero xs = []
  take (suc n) [] = []
  take (suc n) (x ∷ xs) = x ∷ take n xs

  pub length-append : (xs ys : List A) → length (xs ++ ys) ≡ length xs + length ys
  length-append [] ys = omega arith
  length-append (x ∷ xs) ys = omega (arith, length-append xs ys)

  -- The first elements of a list that is longer are those of its head part.
  pub take-append : (xs ys : List A) → take (length xs) (xs ++ ys) ≡ xs
  take-append [] ys = refl
  take-append (x ∷ xs) ys = ap (◌∷◌ x) (take-append xs ys)

pub length-map {ℓ κ} :
    {A : Type ℓ} {B : Type κ} (f : A → B) (xs : List A) → length (map f xs) ≡ length xs
length-map f [] = refl
length-map f (x ∷ xs) = ap suc (length-map f xs)

-- Membership by recursion, which the tactics read.
infix 4 ◌∈◌
abbrev pub ◌∈◌ : {A : Type 0} → A → List A → Type 0
a ∈ [] = ⊥
a ∈ (x ∷ xs) = (a ≡ x) ⊎ (a ∈ xs)

abbrev pub All {ℓ κ} : {A : Type ℓ} → (A → Type κ) → List A → Type κ
All P [] = Unit
All P (x ∷ xs) = P x × All P xs

pub All-append {ℓ κ} :
    {A : Type ℓ} (P : A → Type κ) (xs ys : List A) → All P xs → All P ys → All P (xs ++ ys)
All-append P [] ys p q = q
All-append P (x ∷ xs) ys (p, ps) q = (p, All-append P xs ys ps q)

pub All-mem {κ} : {A : Type 0} (P : A → Type κ) (xs : List A) → ((a : A) → a ∈ xs → P a) → All P xs
All-mem P [] h = tt
All-mem P (x ∷ xs) h = (h x (inl refl), All-mem P xs (λ a m. h a (inr m)))

-- `f 0 ++ f 1 ++ …`, with `n` parts.
abbrev pub collect {ℓ} : {A : Type ℓ} → ℕ → (ℕ → List A) → List A
collect zero f = []
collect (suc n) f = collect n f ++ f n

pub mem-append_left : {A : Type 0} (a : A) (xs ys : List A) → a ∈ xs → a ∈ (xs ++ ys)
mem-append_left a [] ys m = absurd m
mem-append_left a (x ∷ xs) ys (inl e) = inl e
mem-append_left a (x ∷ xs) ys (inr m) = inr (mem-append_left a xs ys m)

pub mem-append_right : {A : Type 0} (a : A) (xs ys : List A) → a ∈ ys → a ∈ (xs ++ ys)
mem-append_right a [] ys m = m
mem-append_right a (x ∷ xs) ys m = inr (mem-append_right a xs ys m)

pub mem-append_cases : {A : Type 0} (a : A) (xs ys : List A) → a ∈ (xs ++ ys) → (a ∈ xs) ⊎ (a ∈ ys)
mem-append_cases a [] ys m = inr m
mem-append_cases a (x ∷ xs) ys (inl e) = inl (inl e)
mem-append_cases a (x ∷ xs) ys (inr m) = elim (mem-append_cases a xs ys m) [
  | inl left ↦ inl (inr left)
  | inr right ↦ inr right
]
