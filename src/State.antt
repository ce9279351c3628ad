-- ===== src/State.antt =====
-- src/state/state.hpp: the state of the nodes. `D` is the type of the program's `double` numbers.
pub mod Snapshot
pub mod Restart
pub mod Prediction
pub mod NextState
use kynema_fmb.Base.{ℕ, View, View2, View3, Vector}
use kynema_fmb.Dof.Signature.{FreedomSignature}

pub record State (D : Type 0) : Type 0 where
  pub time_step : ℕ
  pub num_system_nodes : ℕ
  pub id : View ℕ
  pub node_freedom_allocation_table : View FreedomSignature
  pub active_dofs : View ℕ
  pub node_freedom_map_table : View ℕ
  pub x0 : View2 D
  pub x : View2 D
  pub q_delta : View2 D
  pub q_prev : View2 D
  pub q : View2 D
  pub v : View2 D
  pub vd : View2 D
  pub a : View2 D
  pub f : View2 D
  pub tangent : View3 D
