-- ===== src/Base.antt =====
-- Names shared by every module: the libraries', passed on, Boolean tests, lists measured by native
-- numbers, Kokkos views as functions of an index, and the loops of the kernels.
mod Tests
mod Lists
mod Views
pub mod Loops
pub mod Bits
mod Sums
pub use Tests.*
pub use Sums.*
unfoldable pub use Lists.*
unfoldable pub use Views.*
unfoldable pub use Loops.*
pub use Prim.Native.Nat.{ℕ, zero, suc, ◌+◌, ◌-◌, ◌*◌, ◌/◌, ◌%◌, ◌^◌, ◌≤◌, ◌<◌, max, min}
pub use mathlib.Core.Path.{◌≡◌, refl, sym, ap, ◌∙◌, subst, fun_ext}
pub use mathlib.Core.Logic.{◌≢◌, ◌↔◌, ◌⊎◌, inl, inr}
pub use mathlib.Core.Bool.{Bool, true, false, not, ◌&&◌, ◌||◌}
pub use mathlib.Core.Option.{Option, none, some}
pub use mathlib.Core.List.{List, [], ◌∷◌, ◌++◌, map}
pub use native.Mathlib.Omega.{arith}
