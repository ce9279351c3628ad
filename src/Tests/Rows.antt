-- ===== src/Tests/Rows.antt =====
-- The rows of the small system, computed.
use kynema_fmb.Base.{
  subst, sym, ℕ, zero, suc, ◌<◌, ◌^◌, arith, ◌≡◌, refl, sum_below, parallel_for, write, write2,
  for_range, length,
}
use kynema_fmb.ConstraintType.{value, num_rows_for_constraint, get_number_of_nodes}
use kynema_fmb.Constraints.{reduce_num_dofs, node_dofs, construct_one, construct_constraints}
use kynema_fmb.Dof.Numbering.{
  node_freedom_map, scan_node, compute_num_system_dofs, compute_node_freedom_map_table,
}
use kynema_fmb.Dof.Allocation.{
  atomic_or, assemble_beam, assemble_mass, assemble_spring, assemble_constraint, allocation_table,
  assemble_node_freedom_allocation_table,
}
use kynema_fmb.Dof.System.{assign_dofs}
use kynema_fmb.Dof.Tables.{
  create_element_freedom_table, create_constraint_freedom_table, table_constraint,
}
use kynema_fmb.Dof.Signature.{signature_or, count_loop, count_active_dofs}
use kynema_fmb.Elements.{
  num_elements_in_system, number_of_nodes_per_element, all_node_state_indices,
}
use kynema_fmb.Solver.Connectivity.{
  Connectivity, element_contains_node, constraint_contains_node, base_contains_node,
  target_contains_node,
}
use kynema_fmb.Solver.Pattern.{system_row, constraint_row}
use kynema_fmb.Solver.Rows.{
  compute_entries_in_constraint, compute_entries_in_element, entries_in_row,
  compute_system_row_entries, compute_constraints_row_entries, all_row_entries,
}
use kynema_fmb.Solver.Columns.Whole.{FitsInt}
use kynema_fmb.Solver.Creation.{create_solver}
use kynema_fmb.Tests.Data.{small_system, fresh_views}

abbrev pub small_solver : Connectivity
small_solver = create_solver fresh_views.counts fresh_views.nodes small_system

pub small_total : sum_below 30 (all_row_entries small_solver fresh_views.entries) ≡ 468
unfolding create_solver assign_dofs assemble_node_freedom_allocation_table
    compute_node_freedom_map_table create_element_freedom_table num_elements_in_system
    create_constraint_freedom_table construct_constraints construct_one parallel_for write node_dofs
    value reduce_num_dofs num_rows_for_constraint all_row_entries atomic_or assemble_beam
    assemble_mass assemble_spring assemble_constraint allocation_table node_freedom_map scan_node
    compute_num_system_dofs signature_or count_loop count_active_dofs write2 for_range
    table_constraint number_of_nodes_per_element all_node_state_indices element_contains_node
    constraint_contains_node base_contains_node target_contains_node compute_entries_in_constraint
    compute_entries_in_element entries_in_row compute_system_row_entries
    compute_constraints_row_entries get_number_of_nodes
small_total = refl

pub small_rows :
    (length (system_row small_solver 0) ≡ 18)
    × (length (system_row small_solver 1) ≡ 24)
    × (length (system_row small_solver 2) ≡ 18)
    × (length (constraint_row small_solver 0) ≡ 6)
    × (length (constraint_row small_solver 1) ≡ 12)
unfolding create_solver assign_dofs assemble_node_freedom_allocation_table
    compute_node_freedom_map_table create_element_freedom_table num_elements_in_system
    create_constraint_freedom_table construct_constraints construct_one parallel_for write node_dofs
    value reduce_num_dofs num_rows_for_constraint atomic_or assemble_beam assemble_mass
    assemble_spring assemble_constraint allocation_table node_freedom_map scan_node
    compute_num_system_dofs signature_or count_loop count_active_dofs write2 table_constraint
    number_of_nodes_per_element all_node_state_indices element_contains_node
    constraint_contains_node base_contains_node target_contains_node get_number_of_nodes
small_rows = (refl, refl, refl, refl, refl)

small_node_rows :
    (node : ℕ) → node < small_solver.num_nodes → length (system_row small_solver node) < 2 ^ 31
unfolding create_solver assign_dofs assemble_node_freedom_allocation_table
    compute_node_freedom_map_table create_element_freedom_table num_elements_in_system
    create_constraint_freedom_table construct_constraints construct_one parallel_for write node_dofs
    value reduce_num_dofs num_rows_for_constraint atomic_or assemble_beam assemble_mass
    assemble_spring assemble_constraint allocation_table node_freedom_map scan_node
    compute_num_system_dofs signature_or count_loop count_active_dofs write2 table_constraint
    number_of_nodes_per_element all_node_state_indices element_contains_node
    constraint_contains_node base_contains_node target_contains_node get_number_of_nodes
small_node_rows zero lt = omega (arith, small_rows.0)
small_node_rows (suc zero) lt = omega (arith, small_rows.1)
small_node_rows (suc (suc zero)) lt = omega (arith, small_rows.2)
small_node_rows (suc (suc (suc node))) lt = absurd (omega arith)

small_constraint_rows :
    (k : ℕ) → k < small_solver.num_constraints → length (constraint_row small_solver k) < 2 ^ 31
unfolding create_solver assign_dofs assemble_node_freedom_allocation_table
    compute_node_freedom_map_table create_element_freedom_table num_elements_in_system
    create_constraint_freedom_table construct_constraints construct_one parallel_for write node_dofs
    value reduce_num_dofs num_rows_for_constraint atomic_or assemble_beam assemble_mass
    assemble_spring assemble_constraint allocation_table node_freedom_map scan_node
    compute_num_system_dofs signature_or count_loop count_active_dofs write2 table_constraint
    number_of_nodes_per_element all_node_state_indices element_contains_node
    constraint_contains_node base_contains_node target_contains_node get_number_of_nodes
small_constraint_rows zero lt = omega (arith, small_rows.3)
small_constraint_rows (suc zero) lt = omega (arith, small_rows.4)
small_constraint_rows (suc (suc k)) lt = absurd (omega arith)

small_dofs : small_solver.num_dofs ≡ 30
unfolding create_solver assign_dofs assemble_node_freedom_allocation_table
    compute_node_freedom_map_table create_element_freedom_table num_elements_in_system
    create_constraint_freedom_table construct_constraints construct_one parallel_for write node_dofs
    value reduce_num_dofs num_rows_for_constraint atomic_or assemble_beam assemble_mass
    assemble_spring assemble_constraint allocation_table node_freedom_map scan_node
    compute_num_system_dofs signature_or count_loop count_active_dofs write2 table_constraint
    number_of_nodes_per_element all_node_state_indices element_contains_node
    constraint_contains_node base_contains_node target_contains_node get_number_of_nodes
small_dofs = refl

pub small_solver-FitsInt : FitsInt small_solver fresh_views.entries
small_solver-FitsInt = record {
  dofs = omega (arith, small_dofs);
  node_rows = small_node_rows;
  constraint_rows = small_constraint_rows;
  all_rows =
      subst (λ n. sum_below n (all_row_entries small_solver fresh_views.entries) < 2 ^ 31)
        (sym small_dofs) (omega (arith, small_total));
}

-- The elements have nodes of the system.
pub small_inside :
    (element i : ℕ)
    → element < small_solver.num_elements
    → i < small_solver.num_nodes_per_element element
    → small_solver.node_state_indices element i < small_solver.num_nodes
unfolding create_solver assign_dofs assemble_node_freedom_allocation_table
    compute_node_freedom_map_table create_element_freedom_table num_elements_in_system
    create_constraint_freedom_table construct_constraints construct_one parallel_for write node_dofs
    value reduce_num_dofs num_rows_for_constraint atomic_or assemble_beam assemble_mass
    assemble_spring assemble_constraint allocation_table node_freedom_map scan_node
    compute_num_system_dofs signature_or count_loop count_active_dofs write2 table_constraint
    number_of_nodes_per_element all_node_state_indices element_contains_node
    constraint_contains_node base_contains_node target_contains_node get_number_of_nodes
small_inside zero zero lt below = omega arith
small_inside zero (suc zero) lt below = omega arith
small_inside zero (suc (suc i)) lt below = absurd (omega arith)
small_inside (suc zero) zero lt below = omega arith
small_inside (suc zero) (suc i) lt below = absurd (omega arith)
small_inside (suc (suc zero)) zero lt below = omega arith
small_inside (suc (suc zero)) (suc zero) lt below = omega arith
small_inside (suc (suc zero)) (suc (suc i)) lt below = absurd (omega arith)
small_inside (suc (suc (suc element))) i lt below = absurd (omega arith)
