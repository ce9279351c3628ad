-- ===== src/Solver/Creation.antt =====
-- src/model/model.hpp, CreateSolver, and the initialisers of Solver in src/solver/solver.hpp: what
-- CreateFullMatrix is called with.
pub mod Numbered
pub mod Rows
pub mod Matrix
use kynema_fmb.Base.{ℕ, ◌+◌, View, View2}
use kynema_fmb.Elements.{
  number_of_nodes_per_element, all_node_state_indices, num_elements_in_system,
}
use kynema_fmb.Dof.Numbering.{compute_num_system_dofs}
use kynema_fmb.Dof.System.{System, assign_dofs}
use kynema_fmb.Solver.Connectivity.{Connectivity}

-- The two views are what the joined views of the elements hold before they are written.
unfoldable pub create_solver : {D : Type 0} → View ℕ → View2 ℕ → System D → Connectivity
create_solver fresh_counts fresh_nodes s =
    let after = assign_dofs s in
    let num_system_dofs =
      compute_num_system_dofs after.state.num_system_nodes after.state.active_dofs in
    record {
      num_system_dofs = num_system_dofs;
      num_dofs = num_system_dofs + after.constraints.num_dofs;
      num_nodes = after.state.num_system_nodes;
      num_elements = num_elements_in_system after.elements;
      num_constraints = after.constraints.num_constraints;
      active_dofs = after.state.active_dofs;
      node_freedom_map_table = after.state.node_freedom_map_table;
      num_nodes_per_element = number_of_nodes_per_element fresh_counts after.elements;
      node_state_indices = all_node_state_indices fresh_nodes after.elements;
      base_active_dofs = after.constraints.base_active_dofs;
      target_active_dofs = after.constraints.target_active_dofs;
      base_node_freedom_table = after.constraints.base_node_freedom_table;
      target_node_freedom_table = after.constraints.target_node_freedom_table;
      row_range = after.constraints.row_range;
    }
