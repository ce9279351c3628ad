-- ===== src/Dof/Signature/Laws.antt =====
-- Counting the set bits of a signature, and how `|` acts on them.
use Prim.Native.Nat.{bit_or, bit_and}
use kynema_fmb.Base.{ℕ, zero, suc, ◌+◌, ◌/◌, ◌≤◌, ◌<◌, ◌≡◌, refl, arith, inl, inr, ◌⊎◌, sym, subst}
use kynema_fmb.Base.Bits.{sum_bits, bit_and-one, bit_or_mod, bit_or_div}
use kynema_fmb.Dof.Signature.{
  FreedomSignature, all_components, just_position, just_rotation, no_components, signature_or,
  count_loop, count_active_dofs,
}

sum_bits-zero : (n : ℕ) → sum_bits n 0 ≡ 0
sum_bits-zero zero = refl
sum_bits-zero (suc n) = omega (arith, sum_bits-zero n)

-- The loop adds the digits that are left.
pub count_loop-eq-sum_bits :
    (fuel value count : ℕ) → count_loop fuel value count ≡ count + sum_bits fuel value
unfolding count_loop
count_loop-eq-sum_bits zero value count = omega arith
count_loop-eq-sum_bits (suc fuel) zero count = omega (arith, sum_bits-zero fuel)
count_loop-eq-sum_bits (suc fuel) (suc value) count = ground (
  arith,
  bit_and-one (suc value),
  count_loop-eq-sum_bits fuel (suc value / 2) (count + bit_and (suc value) 1),
)

-- On a byte, the loop returns the number of the eight bits that are set, and more than eight
-- rounds return the same.
pub count_active_dofs-fuel :
    (x extra : ℕ)
    → x < 256
    → (count_active_dofs x ≡ sum_bits 8 x)
      × (count_loop (suc (suc (suc (suc (suc (suc (suc (suc extra)))))))) x 0 ≡ count_active_dofs x)
unfolding count_active_dofs
count_active_dofs-fuel x extra h =
    let none_left : x / 2 / 2 / 2 / 2 / 2 / 2 / 2 / 2 ≡ 0 = omega arith in
    let rest : sum_bits extra (x / 2 / 2 / 2 / 2 / 2 / 2 / 2 / 2) ≡ 0 =
      rw none_left (sum_bits-zero extra) in
    (
      omega (arith, count_loop-eq-sum_bits 8 x 0),
      omega (
        arith,
        count_loop-eq-sum_bits 8 x 0,
        count_loop-eq-sum_bits (suc (suc (suc (suc (suc (suc (suc (suc extra)))))))) x 0,
      ),
    )

pub count-eq-sum_bits : (x : ℕ) → count_active_dofs x ≡ sum_bits 8 x
unfolding count_active_dofs
count-eq-sum_bits x = omega (arith, count_loop-eq-sum_bits 8 x 0)

sum_bits-or_bounds :
    (n x y : ℕ)
    → (sum_bits n x ≤ sum_bits n (bit_or x y))
      × (sum_bits n y ≤ sum_bits n (bit_or x y))
      × (sum_bits n (bit_or x y) ≤ sum_bits n x + sum_bits n y)
sum_bits-or_bounds zero x y = omega arith
sum_bits-or_bounds (suc n) x y =
    rw (bit_or_div x y, bit_or_mod x y) (omega (arith, sum_bits-or_bounds n (x / 2) (y / 2)))

-- A combined signature has at least as many degrees of freedom as each part, and at most as many
-- as both together.
pub count-signature_or :
    (x y : FreedomSignature)
    → (count_active_dofs x ≤ count_active_dofs (signature_or x y))
      × (count_active_dofs y ≤ count_active_dofs (signature_or x y))
      × (count_active_dofs (signature_or x y) ≤ count_active_dofs x + count_active_dofs y)
unfolding signature_or
count-signature_or x y =
    rw (count-eq-sum_bits x, count-eq-sum_bits y, count-eq-sum_bits (bit_or x y))
      (sum_bits-or_bounds 8 x y)

-- The signatures that the enumeration names.
abbrev pub IsNamed : FreedomSignature → Type 0
IsNamed x = (x ≡ all_components) ⊎ (x ≡ just_position) ⊎ (x ≡ just_rotation) ⊎ (x ≡ no_components)

-- A statement about the four named signatures holds for every named one.
pub named_cases {ℓ} :
    (P : FreedomSignature → Type ℓ)
    → P all_components
    → P just_position
    → P just_rotation
    → P no_components
    → (x : FreedomSignature) → IsNamed x
    → P x
named_cases P a p r n x (inl e) = subst P (sym e) a
named_cases P a p r n x (inr (inl e)) = subst P (sym e) p
named_cases P a p r n x (inr (inr (inl e))) = subst P (sym e) r
named_cases P a p r n x (inr (inr (inr e))) = subst P (sym e) n

-- The named signatures are closed under `|`.
pub signature_or-IsNamed :
    (x y : FreedomSignature) → IsNamed x → IsNamed y → IsNamed (signature_or x y)
unfolding signature_or
signature_or-IsNamed x y h k =
    named_cases (λ a. IsNamed (bit_or a y))
      (named_cases (λ b. IsNamed (bit_or all_components b)) (inl refl) (inl refl) (inl refl)
        (inl refl) y k)
      (named_cases (λ b. IsNamed (bit_or just_position b)) (inl refl) (inr (inl refl)) (inl refl)
        (inr (inl refl)) y k)
      (named_cases (λ b. IsNamed (bit_or just_rotation b)) (inl refl) (inl refl)
        (inr (inr (inl refl))) (inr (inr (inl refl))) y k)
      (named_cases (λ b. IsNamed (bit_or no_components b)) (inl refl) (inr (inl refl))
        (inr (inr (inl refl))) (inr (inr (inr refl))) y k)
      x h

-- A named signature has at most six degrees of freedom.
pub count-IsNamed : (x : FreedomSignature) → IsNamed x → count_active_dofs x ≤ 6
unfolding count_active_dofs
count-IsNamed =
    named_cases (λ x. count_active_dofs x ≤ 6) (omega arith) (omega arith) (omega arith)
      (omega arith)
