-- ===== src/Dof/Allocation/Order.antt =====
-- The kernels may run their atomic operations in any order: the table comes out the same.
use mathlib.Core.Logic.{∥∥₁_elim}
use mathlib.Core.List.{Perm, Permᴰ}
use mathlib.Core.HLevel.{Π_set}
use native.Mathlib.Nat.{ℕ_set}
use kynema_fmb.Base.{ℕ, ◌≡◌, refl, sym, ap, ◌∙◌, fun_ext, arith, List, write}
use kynema_fmb.Base.Bits.{bit_or_right_comm}
use kynema_fmb.Elements.{Elements}
use kynema_fmb.Constraints.{Constraints}
use kynema_fmb.Dof.Signature.{FreedomSignature, no_components, signature_or}
use kynema_fmb.Dof.Allocation.{Table, atomic_or, allocation_table}
use kynema_fmb.Dof.Allocation.Union.{Request, requests, meet, allocation_table-meet}

-- Two atomic operations commute.
pub atomic_or_comm :
    (t : Table) (m n : ℕ) (x y : FreedomSignature)
    → atomic_or (atomic_or t m x) n y ≡ atomic_or (atomic_or t n y) m x
unfolding atomic_or signature_or write
atomic_or_comm t m n x y = fun_ext λ j. ground (arith, bit_or_right_comm (t j) x y)

-- Requests that are met in another order give the same table.
meet_permᴰ : {xs ys : List Request} → Permᴰ xs ys → (t : Table) → meet xs t ≡ meet ys t
unfolding meet
meet_permᴰ Permᴰ.nil t = refl
meet_permᴰ (Permᴰ.cons {a} {b} {l₁} {l₂} e p) t =
    ap (λ (r : Request). meet l₁ (atomic_or t r.0 r.1)) e ∙ meet_permᴰ p (atomic_or t b.0 b.1)
meet_permᴰ (Permᴰ.swap {a} {b} {a'} {b'} {l} e f) t =
    ap (λ (r : Request). meet l (atomic_or (atomic_or t r.0 r.1) b.0 b.1)) e
    ∙ ap (λ (r : Request). meet l (atomic_or (atomic_or t b'.0 b'.1) r.0 r.1)) f
    ∙ ap (meet l) (atomic_or_comm t b'.0 a'.0 b'.1 a'.1)
meet_permᴰ (Permᴰ.trans p q) t = meet_permᴰ p t ∙ meet_permᴰ q t

-- If the atomic operations of the four kernels run in any other order, they leave the table that
-- the loops leave.
pub allocation_table_order :
    (e : Elements) (c : Constraints) (schedule : List Request)
    → Perm (requests e c) schedule
    → meet schedule (λ _. no_components) ≡ allocation_table e c
allocation_table_order e c schedule p =
    ∥∥₁_elim p (Π_set (λ _. ℕ_set) _ _)
      (λ q. sym (meet_permᴰ q (λ _. no_components)) ∙ sym (allocation_table-meet e c))
