-- ===== src/Solver/Connectivity.antt =====
-- The arguments of CreateFullMatrix::invoke (src/solver/create_full_matrix.hpp), and the tests that
-- ComputeSystemRowEntries and ComputeSystemColInds both make on them. An `extent` is a field.
use kynema_fmb.Base.{ℕ, Bool, false, not, ◌&&◌, ◌||◌, View, View2, parallel_for, ◌==◌}

pub record Connectivity : Type 0 where
  pub num_system_dofs : ℕ
  pub num_dofs : ℕ
  pub num_nodes : ℕ
  pub num_elements : ℕ
  pub num_constraints : ℕ
  pub active_dofs : View ℕ
  pub node_freedom_map_table : View ℕ
  pub num_nodes_per_element : View ℕ
  pub node_state_indices : View2 ℕ
  pub base_active_dofs : View ℕ
  pub target_active_dofs : View ℕ
  pub base_node_freedom_table : View2 ℕ
  pub target_node_freedom_table : View2 ℕ
  pub row_range : View (ℕ × ℕ)

module _ (g : Connectivity) where
  -- The loop returns `true` at the first match.
  unfoldable pub element_contains_node : ℕ → ℕ → Bool
  element_contains_node element node =
      parallel_for (g.num_nodes_per_element element)
        (λ i found. found || (g.node_state_indices element i == node)) false

  unfoldable pub base_contains_node : ℕ → ℕ → Bool
  base_contains_node constraint dof_index =
      (dof_index == g.base_node_freedom_table constraint 0)
      && not (g.base_active_dofs constraint == 0)

  unfoldable pub target_contains_node : ℕ → ℕ → Bool
  target_contains_node constraint dof_index =
      (dof_index == g.target_node_freedom_table constraint 0)
      && not (g.target_active_dofs constraint == 0)

  unfoldable pub constraint_contains_node : ℕ → ℕ → Bool
  constraint_contains_node constraint dof_index =
      base_contains_node constraint dof_index || target_contains_node constraint dof_index
