-- ===== src/Dof/Numbering.antt =====
-- src/dof_management/compute_node_freedom_map_table.hpp and src/solver/compute_num_system_dofs.hpp:
-- the first degree of freedom of each node, and how many there are.
pub mod Laws
use kynema_fmb.Base.{ℕ, suc, ◌+◌, ◌-◌, ◌%◌, ◌^◌, View, write, parallel_for}
use kynema_fmb.State.{State}
use kynema_fmb.Dof.Signature.{FreedomSignature, count_active_dofs}

-- `a - b` on `size_t`.
abbrev pub sub64 : ℕ → ℕ → ℕ
sub64 a b = (a + 2 ^ 64 - b) % 2 ^ 64

-- The scanning kernel, in its final pass: `update` is the sum so far.
unfoldable pub scan_node : View FreedomSignature → ℕ → ℕ × View ℕ → ℕ × View ℕ
scan_node allocation i (update, table) =
    let next = update + count_active_dofs (allocation i) in (next, write table (suc i) next)

unfoldable pub node_freedom_map : ℕ → View FreedomSignature → View ℕ
node_freedom_map num_system_nodes allocation =
    (parallel_for (sub64 num_system_nodes 1) (scan_node allocation) (0, λ _. 0)).1

unfoldable pub compute_node_freedom_map_table : {D : Type 0} → State D → State D
compute_node_freedom_map_table state = record state {
  node_freedom_map_table =
      node_freedom_map state.num_system_nodes state.node_freedom_allocation_table;
}

-- The reduction over the `extent` nodes of the view.
unfoldable pub compute_num_system_dofs : ℕ → View ℕ → ℕ
compute_num_system_dofs extent active_dofs = parallel_for extent (λ i sum. sum + active_dofs i) 0
