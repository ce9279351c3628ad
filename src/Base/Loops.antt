-- ===== src/Base/Loops.antt =====
-- The loops of the kernels. `parallel_for` runs its body for 0, 1, … in order, as Kokkos's serial
-- backend does, and `for (i = first; i < end; ++i)` is the same loop with an offset.
use Prim.Native.Nat.{ℕ, zero, suc, ◌+◌, ◌-◌, ◌<◌}
use mathlib.Core.Path.{◌≡◌, refl, sym, ap, ◌∙◌, subst}
use mathlib.Core.Logic.{◌≢◌, inl, inr}
use kynema_fmb.Base.Tests.{◌==◌, ==_iff, Bool-cases}
use native.Mathlib.Omega.{arith}

module _ {ℓ} {S : Type ℓ} where
  unfoldable pub parallel_for : ℕ → (ℕ → S → S) → S → S
  parallel_for zero body s = s
  parallel_for (suc n) body s = body n (parallel_for n body s)

  pub parallel_for_inv {κ} :
      (P : ℕ → S → Type κ) (n : ℕ) (body : ℕ → S → S) (s : S)
      → ((k : ℕ) (t : S) → k < n → P k t → P (suc k) (body k t))
      → P 0 s
      → P n (parallel_for n body s)
  unfolding parallel_for
  parallel_for_inv P zero body s keep h = h
  parallel_for_inv P (suc n) body s keep h =
      keep n (parallel_for n body s) (omega arith)
        (parallel_for_inv P n body s (λ k t lt. keep k t (omega arith)) h)

  -- Two bodies that agree on every index in range make the same loop.
  pub parallel_for_congr :
      (n : ℕ) (f g : ℕ → S → S) (s : S)
      → ((k : ℕ) (t : S) → k < n → f k t ≡ g k t)
      → parallel_for n f s ≡ parallel_for n g s
  unfolding parallel_for
  parallel_for_congr zero f g s same = refl
  parallel_for_congr (suc n) f g s same =
      same n (parallel_for n f s) (omega arith)
      ∙ ap (g n) (parallel_for_congr n f g s (λ k t lt. same k t (omega arith)))

  -- `for (auto i = first; i < end; ++i)`
  unfoldable pub for_range : ℕ → ℕ → (ℕ → S → S) → S → S
  unfolding parallel_for
  for_range first end body = parallel_for (end - first) (λ k. body (first + k))

  -- What one round establishes and the others keep holds after the loop.
  pub parallel_for_reach {κ} :
      (P : S → Type κ) (n i : ℕ) (body : ℕ → S → S) (s : S)
      → i < n
      → ((t : S) → P (body i t))
      → ((k : ℕ) (t : S) → k < n → k ≢ i → P t → P (body k t))
      → P (parallel_for n body s)
  unfolding parallel_for
  parallel_for_reach P zero i body s lt here keep = absurd (omega arith)
  parallel_for_reach P (suc n) i body s lt here keep = elim (Bool-cases (n == i)) [
    | inl e ↦
        subst (λ k. P (body k (parallel_for n body s))) (sym ((==_iff n i).0 e))
          (here (parallel_for n body s))
    | inr e ↦
        keep n (parallel_for n body s) (omega arith) (ground arith) (
          parallel_for_reach P n i body s (ground arith) here (λ k t below. keep k t (omega arith)))
  ]

  -- What every round keeps, the loop keeps.
  pub parallel_for_keep {κ} :
      (P : S → Type κ) (n : ℕ) (body : ℕ → S → S) (s : S)
      → ((k : ℕ) (t : S) → k < n → P t → P (body k t))
      → P s
      → P (parallel_for n body s)
  unfolding parallel_for
  parallel_for_keep P n body s keep p = parallel_for_inv (λ _. P) n body s keep p

-- What one round changes and the others leave is changed once.
pub parallel_for_once {ℓ κ} :
    {S : Type ℓ} {A : Type κ} (f : S → A) (g : A → A) (n i : ℕ) (body : ℕ → S → S) (s : S)
    → i < n
    → ((t : S) → f (body i t) ≡ g (f t))
    → ((k : ℕ) (t : S) → k < n → k ≢ i → f (body k t) ≡ f t)
    → f (parallel_for n body s) ≡ g (f s)
unfolding parallel_for
parallel_for_once f g zero i body s lt here other = absurd (omega arith)
parallel_for_once f g (suc n) i body s lt here other = elim (Bool-cases (n == i)) [
  | inl e ↦
      let same = (==_iff n i).0 e in
      subst (λ k. f (body k (parallel_for n body s)) ≡ g (f s)) (sym same)
        (here (parallel_for n body s)
          ∙ ap g (
              parallel_for_keep (λ t. f t ≡ f s) n body s
                (λ k t below p. other k t (omega arith) (omega arith) ∙ p) refl))
  | inr e ↦
      other n (parallel_for n body s) (omega arith) (ground arith)
      ∙ parallel_for_once f g n i body s (ground arith) here (λ k t below. other k t (omega arith))
]
