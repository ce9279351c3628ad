-- ===== src/Dof/Signature.antt =====
-- src/dof_management/freedom_signature.hpp: a set of degrees of freedom as the bits of a byte.
pub mod Laws
use Prim.Native.Nat.{bit_and, bit_or}
use kynema_fmb.Base.{ℕ, zero, suc, ◌+◌, ◌/◌, ltb, if◌then◌else◌}

-- `enum class FreedomSignature : std::uint8_t`, by the value that it is cast to.
abbrev pub FreedomSignature : Type 0
FreedomSignature = ℕ

abbrev pub all_components : FreedomSignature
all_components = 0b0011_1111

abbrev pub just_position : FreedomSignature
just_position = 0b0011_1000

abbrev pub just_rotation : FreedomSignature
just_rotation = 0b0000_0111

abbrev pub no_components : FreedomSignature
no_components = 0b0000_0000

unfoldable pub signature_or : FreedomSignature → FreedomSignature → FreedomSignature
signature_or x y = bit_or x y

-- `for (value = x; value > zero; value = value >> 1) count += value & one`, on fuel.
unfoldable pub count_loop : ℕ → ℕ → ℕ → ℕ
count_loop zero value count = count
count_loop (suc fuel) value count =
    let rest = count_loop fuel (value / 2) (count + bit_and value 1) in
    if ltb 0 value then rest else count

-- A value of `std::uint8_t` has no bit left after eight shifts.
unfoldable pub count_active_dofs : FreedomSignature → ℕ
unfolding count_loop
count_active_dofs x = count_loop 8 x 0
