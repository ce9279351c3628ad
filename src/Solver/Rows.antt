-- ===== src/Solver/Rows.antt =====
-- src/solver/compute_system_row_entries.hpp, compute_constraints_row_entries.hpp,
-- scan_row_entries.hpp and compute_row_ptrs.hpp: how many entries each row of the matrix has.
pub mod Count
pub mod Pointers
use kynema_fmb.Base.{ℕ, suc, ◌+◌, ◌-◌, ◌^◌, View, write, parallel_for, for_range, if◌then◌else◌}
use kynema_fmb.Solver.Ints.{to_int}
use kynema_fmb.Solver.Connectivity.{Connectivity, element_contains_node, constraint_contains_node}

module _ (g : Connectivity) where
  unfoldable pub compute_entries_in_constraint : ℕ → ℕ
  compute_entries_in_constraint constraint =
      to_int ((g.row_range constraint).1 - (g.row_range constraint).0)

  unfoldable pub compute_entries_in_element : ℕ → ℕ
  compute_entries_in_element element =
      parallel_for (g.num_nodes_per_element element)
        (λ node entries.
          to_int (entries + to_int (g.active_dofs (g.node_state_indices element node))))
        0

  -- `entries_in_row` after the loops over the elements and the constraints; a difference of two
  -- values of type `int` wraps around.
  unfoldable pub entries_in_row : ℕ → ℕ
  entries_in_row node =
      let num_dof = g.active_dofs node in
      let dof_index = g.node_freedom_map_table node in
      let from_elements =
        parallel_for g.num_elements
          (λ element entries.
            if element_contains_node g element node
            then to_int
                (entries + to_int (compute_entries_in_element element + 2 ^ 32 - to_int num_dof))
            else entries)
          (to_int num_dof) in
      parallel_for g.num_constraints
        (λ constraint entries.
          if constraint_contains_node g constraint dof_index
          then to_int (entries + compute_entries_in_constraint constraint)
          else entries)
        from_elements

  -- ComputeSystemRowEntries::operator()
  unfoldable pub compute_system_row_entries : ℕ → View ℕ → View ℕ
  compute_system_row_entries node row_entries =
      let entries = entries_in_row node in
      parallel_for (g.active_dofs node)
        (λ component r. write r (g.node_freedom_map_table node + component) entries) row_entries

  -- ComputeConstraintsRowEntries::operator()
  unfoldable pub compute_constraints_row_entries : ℕ → View ℕ → View ℕ
  compute_constraints_row_entries constraint row_entries =
      let (first_row, end_row) = g.row_range constraint in
      let num_base = to_int (g.base_active_dofs constraint) in
      let num_target = to_int (g.target_active_dofs constraint) in
      for_range first_row end_row
        (λ row r. write r (row + g.num_system_dofs) (to_int (num_base + num_target))) row_entries

  unfoldable pub all_row_entries : View ℕ → View ℕ
  all_row_entries fresh =
      let system = parallel_for g.num_nodes compute_system_row_entries fresh in
      parallel_for g.num_constraints compute_constraints_row_entries system

  -- ScanRowEntries::operator(), in its final pass.
  unfoldable pub scan_row_entries : View ℕ → ℕ → ℕ × View ℕ → ℕ × View ℕ
  scan_row_entries row_entries i (update, row_ptrs) =
      let next = to_int (update + row_entries i) in (next, write row_ptrs (suc i) next)

  -- ComputeRowPtrs::invoke. The arguments are what the two new views hold at first.
  unfoldable pub compute_row_ptrs : View ℕ → View ℕ → View ℕ
  compute_row_ptrs fresh_entries fresh_ptrs =
      let row_entries = all_row_entries fresh_entries in
      (parallel_for g.num_dofs (scan_row_entries row_entries) (0, write fresh_ptrs 0 0)).1
