-- ===== src/Solver/Columns.antt =====
-- src/solver/compute_system_col_inds.hpp, compute_constraints_col_inds.hpp and compute_col_inds.hpp:
-- the column indices of the matrix.
pub mod Fill
pub mod Rows
pub mod Kernel
pub mod ConstraintKernel
pub mod Whole
use kynema_fmb.Base.{ℕ, suc, ◌+◌, ◌-◌, View, write, parallel_for, for_range, ◌==◌, if◌then◌else◌}
use kynema_fmb.Solver.Ints.{to_int}
use kynema_fmb.Solver.Connectivity.{Connectivity, element_contains_node, constraint_contains_node}

-- A place in the column indices, and the column indices.
abbrev pub Cursor : Type 0
Cursor = ℕ × View ℕ

-- `for (component = 0; component < count; ++component, ++index)`
-- `col_inds(index) = static_cast<int>(column(component))`
-- The place `index` runs between two row pointers, so it stays an `int` where these do.
unfoldable pub write_columns : ℕ → (ℕ → ℕ) → Cursor → Cursor
write_columns count column =
    parallel_for count
      (λ component (index, col_inds). (suc index, write col_inds index (to_int (column component))))

module _ (g : Connectivity) (row_ptrs : View ℕ) where
  unfoldable pub compute_col_inds_in_element : ℕ → ℕ → Cursor → Cursor
  compute_col_inds_in_element element node =
      parallel_for (g.num_nodes_per_element element) (λ node_index cursor.
        let node_state_index = g.node_state_indices element node_index in
        let dof_index = g.node_freedom_map_table node_state_index in
        let written =
          write_columns (g.active_dofs node_state_index) (λ component. dof_index + component)
            cursor in
        if node_state_index == node then cursor else written)

  unfoldable pub compute_col_inds_in_constraint : ℕ → Cursor → Cursor
  compute_col_inds_in_constraint constraint =
      let (first_row, end_row) = g.row_range constraint in
      write_columns (end_row - first_row) (λ k. g.num_system_dofs + (first_row + k))

  -- The columns of each row of the node that are written so far, and the column indices.
  abbrev pub Progress : Type 0
  Progress = View ℕ × View ℕ

  -- One round of the loops that extend row `dof_index + component` by what a call writes.
  unfoldable pub extend_row : ℕ → (Cursor → Cursor) → ℕ → Progress → Progress
  extend_row dof_index call component (current_col, col_inds) =
      let index = row_ptrs (dof_index + component) + current_col component in
      let (new_index, col_inds') = call (index, col_inds) in
      (write current_col component (current_col component + (new_index - index)), col_inds')

  -- One round of the first loop: the columns of the node itself.
  unfoldable pub start_row : ℕ → ℕ → Progress → Progress
  start_row node component (current_col, col_inds) =
      let dof_index = g.node_freedom_map_table node in
      let num_dof = g.active_dofs node in
      let written =
        write_columns num_dof (λ component_2. to_int dof_index + to_int component_2)
          (row_ptrs (dof_index + component), col_inds) in
      (write current_col component num_dof, written.1)

  -- ComputeSystemColInds::operator()
  unfoldable pub compute_system_col_inds : ℕ → View ℕ → View ℕ
  compute_system_col_inds node col_inds =
      let num_dof = g.active_dofs node in
      let dof_index = g.node_freedom_map_table node in
      let own = parallel_for num_dof (start_row node) ((λ _. 0), col_inds) in
      let elements =
        parallel_for g.num_elements
          (λ element p.
            let extended =
              parallel_for num_dof (extend_row dof_index (compute_col_inds_in_element element node))
                p in
            if element_contains_node g element node then extended else p)
          own in
      let constraints =
        parallel_for g.num_constraints
          (λ constraint p.
            let extended =
              parallel_for num_dof
                (extend_row dof_index (compute_col_inds_in_constraint constraint)) p in
            if constraint_contains_node g constraint dof_index then extended else p)
          elements in
      constraints.1

  unfoldable pub calculate_target_inds : ℕ → Cursor → Cursor
  calculate_target_inds constraint =
      write_columns (g.target_active_dofs constraint) (g.target_node_freedom_table constraint)

  unfoldable pub calculate_base_inds : ℕ → Cursor → Cursor
  calculate_base_inds constraint =
      write_columns (g.base_active_dofs constraint) (g.base_node_freedom_table constraint)

  -- ComputeConstraintsColInds::operator()
  unfoldable pub compute_constraints_col_inds : ℕ → View ℕ → View ℕ
  compute_constraints_col_inds constraint col_inds =
      let (first_row, end_row) = g.row_range constraint in
      for_range first_row end_row
        (λ row c.
          (calculate_base_inds constraint
            (calculate_target_inds constraint (row_ptrs (row + g.num_system_dofs), c))).1)
        col_inds

  -- ComputeColInds::invoke. The argument is what the new view holds at first.
  unfoldable pub compute_col_inds : View ℕ → View ℕ
  compute_col_inds fresh =
      let system = parallel_for g.num_nodes compute_system_col_inds fresh in
      parallel_for g.num_constraints compute_constraints_col_inds system
