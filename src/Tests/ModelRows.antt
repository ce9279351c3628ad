-- ===== src/Tests/ModelRows.antt =====
-- The rows of the matrix of a model that calls have built, computed.
use kynema_fmb.Base.{
  ℕ, zero, suc, ◌+◌, ◌<◌, ◌≡◌, ◌∈◌, refl, arith, [], ◌∷◌, push_back, write, write2, parallel_for,
  subst, sym, ◌^◌, sum_below, for_range, length,
}
use kynema_fmb.ConstraintType.{value, get_number_of_nodes, num_rows_for_constraint}
use kynema_fmb.Constraints.{reduce_num_dofs, node_dofs, construct_one, construct_constraints}
use kynema_fmb.Dof.Allocation.{
  atomic_or, assemble_beam, assemble_mass, assemble_spring, assemble_constraint, allocation_table,
  assemble_node_freedom_allocation_table,
}
use kynema_fmb.Dof.Numbering.{
  compute_node_freedom_map_table, node_freedom_map, scan_node, compute_num_system_dofs,
}
use kynema_fmb.Dof.Signature.{signature_or, count_loop, count_active_dofs}
use kynema_fmb.Dof.System.{assign_dofs}
use kynema_fmb.Solver.Connectivity.{
  element_contains_node, constraint_contains_node, base_contains_node, target_contains_node,
}
use kynema_fmb.Solver.Creation.{create_solver}
use kynema_fmb.Solver.Creation.Matrix.{matrix_row}
use kynema_fmb.State.Snapshot.{new_state}
use kynema_fmb.Model.Mesh.{beam_kind}
use kynema_fmb.Model.Building.{
  new_model, add_node, add_beam_element, add_mass_element, add_spring_element, add_constraint,
  add_fixed_bc, add_rigid_joint_constraint,
}
use kynema_fmb.Model.Calls.{perform}
use kynema_fmb.Model.State.{
  create_state, copy_nodes_to_state, copy_node, copy_positions, copy_rates,
}
use kynema_fmb.Model.Creation.{
  create_beam, create_beams, create_masses, create_springs, create_elements, create_system,
  create_system_with_solver,
}
use kynema_fmb.Model.Creation.Coupled.{mesh_coupled}
use kynema_fmb.Tests.Data.{fresh_views, small_system}
use kynema_fmb.Dof.Tables.{
  create_element_freedom_table, create_constraint_freedom_table, table_constraint,
}
use kynema_fmb.Elements.{
  num_elements_in_system, number_of_nodes_per_element, all_node_state_indices,
}
use kynema_fmb.Solver.Pattern.{system_row, constraint_row}
use kynema_fmb.Solver.Rows.{
  compute_entries_in_constraint, compute_entries_in_element, entries_in_row,
  compute_system_row_entries, compute_constraints_row_entries, all_row_entries,
}
use kynema_fmb.Solver.Columns.Whole.{FitsInt}
use kynema_fmb.Tests.Models.{
  perform_all, built, built_solver, numbers, built-Reachable, built_test, built-HasApartNodes,
  built_active,
}

built_dofs : built_solver.num_dofs ≡ 30
unfolding perform_all perform add_node add_beam_element add_mass_element add_spring_element
    add_constraint add_fixed_bc add_rigid_joint_constraint new_model push_back write
    create_system_with_solver create_solver create_system create_state create_elements create_beams
    create_beam create_masses create_springs copy_nodes_to_state copy_node copy_positions copy_rates
    new_state assign_dofs assemble_node_freedom_allocation_table allocation_table assemble_beam
    assemble_mass assemble_spring assemble_constraint atomic_or signature_or count_active_dofs
    count_loop parallel_for write2 construct_constraints construct_one node_dofs reduce_num_dofs
    num_rows_for_constraint get_number_of_nodes value compute_node_freedom_map_table
    create_element_freedom_table num_elements_in_system create_constraint_freedom_table
    all_row_entries node_freedom_map scan_node compute_num_system_dofs for_range table_constraint
    number_of_nodes_per_element all_node_state_indices element_contains_node
    constraint_contains_node base_contains_node target_contains_node compute_entries_in_constraint
    compute_entries_in_element entries_in_row compute_system_row_entries
    compute_constraints_row_entries
built_dofs = refl

built_total : sum_below 30 (all_row_entries built_solver fresh_views.entries) ≡ 468
unfolding perform_all perform add_node add_beam_element add_mass_element add_spring_element
    add_constraint add_fixed_bc add_rigid_joint_constraint new_model push_back write
    create_system_with_solver create_solver create_system create_state create_elements create_beams
    create_beam create_masses create_springs copy_nodes_to_state copy_node copy_positions copy_rates
    new_state assign_dofs assemble_node_freedom_allocation_table allocation_table assemble_beam
    assemble_mass assemble_spring assemble_constraint atomic_or signature_or count_active_dofs
    count_loop parallel_for write2 construct_constraints construct_one node_dofs reduce_num_dofs
    num_rows_for_constraint get_number_of_nodes value compute_node_freedom_map_table
    create_element_freedom_table num_elements_in_system create_constraint_freedom_table
    all_row_entries node_freedom_map scan_node compute_num_system_dofs for_range table_constraint
    number_of_nodes_per_element all_node_state_indices element_contains_node
    constraint_contains_node base_contains_node target_contains_node compute_entries_in_constraint
    compute_entries_in_element entries_in_row compute_system_row_entries
    compute_constraints_row_entries
built_total = refl

built_rows :
    (length (system_row built_solver 0) ≡ 18)
    × (length (system_row built_solver 1) ≡ 24)
    × (length (system_row built_solver 2) ≡ 18)
    × (length (constraint_row built_solver 0) ≡ 6)
    × (length (constraint_row built_solver 1) ≡ 12)
unfolding perform_all perform add_node add_beam_element add_mass_element add_spring_element
    add_constraint add_fixed_bc add_rigid_joint_constraint new_model push_back write
    create_system_with_solver create_solver create_system create_state create_elements create_beams
    create_beam create_masses create_springs copy_nodes_to_state copy_node copy_positions copy_rates
    new_state assign_dofs assemble_node_freedom_allocation_table allocation_table assemble_beam
    assemble_mass assemble_spring assemble_constraint atomic_or signature_or count_active_dofs
    count_loop parallel_for write2 construct_constraints construct_one node_dofs reduce_num_dofs
    num_rows_for_constraint get_number_of_nodes value compute_node_freedom_map_table
    create_element_freedom_table num_elements_in_system create_constraint_freedom_table
    all_row_entries node_freedom_map scan_node compute_num_system_dofs for_range table_constraint
    number_of_nodes_per_element all_node_state_indices element_contains_node
    constraint_contains_node base_contains_node target_contains_node compute_entries_in_constraint
    compute_entries_in_element entries_in_row compute_system_row_entries
    compute_constraints_row_entries
built_rows = (refl, refl, refl, refl, refl)

built_node_rows : (n : ℕ) → n < built_solver.num_nodes → length (system_row built_solver n) < 2 ^ 31
unfolding perform_all perform add_node add_beam_element add_mass_element add_spring_element
    add_constraint add_fixed_bc add_rigid_joint_constraint new_model push_back write
    create_system_with_solver create_solver create_system create_state create_elements create_beams
    create_beam create_masses create_springs copy_nodes_to_state copy_node copy_positions copy_rates
    new_state assign_dofs assemble_node_freedom_allocation_table allocation_table assemble_beam
    assemble_mass assemble_spring assemble_constraint atomic_or signature_or count_active_dofs
    count_loop parallel_for write2 construct_constraints construct_one node_dofs reduce_num_dofs
    num_rows_for_constraint get_number_of_nodes value compute_node_freedom_map_table
    create_element_freedom_table num_elements_in_system create_constraint_freedom_table
    all_row_entries node_freedom_map scan_node compute_num_system_dofs for_range table_constraint
    number_of_nodes_per_element all_node_state_indices element_contains_node
    constraint_contains_node base_contains_node target_contains_node compute_entries_in_constraint
    compute_entries_in_element entries_in_row compute_system_row_entries
    compute_constraints_row_entries
built_node_rows zero lt = omega (arith, built_rows.0)
built_node_rows (suc zero) lt = omega (arith, built_rows.1)
built_node_rows (suc (suc zero)) lt = omega (arith, built_rows.2)
built_node_rows (suc (suc (suc n))) lt = absurd (omega arith)

built_constraint_rows :
    (k : ℕ) → k < built_solver.num_constraints → length (constraint_row built_solver k) < 2 ^ 31
unfolding perform_all perform add_node add_beam_element add_mass_element add_spring_element
    add_constraint add_fixed_bc add_rigid_joint_constraint new_model push_back write
    create_system_with_solver create_solver create_system create_state create_elements create_beams
    create_beam create_masses create_springs copy_nodes_to_state copy_node copy_positions copy_rates
    new_state assign_dofs assemble_node_freedom_allocation_table allocation_table assemble_beam
    assemble_mass assemble_spring assemble_constraint atomic_or signature_or count_active_dofs
    count_loop parallel_for write2 construct_constraints construct_one node_dofs reduce_num_dofs
    num_rows_for_constraint get_number_of_nodes value compute_node_freedom_map_table
    create_element_freedom_table num_elements_in_system create_constraint_freedom_table
    all_row_entries node_freedom_map scan_node compute_num_system_dofs for_range table_constraint
    number_of_nodes_per_element all_node_state_indices element_contains_node
    constraint_contains_node base_contains_node target_contains_node compute_entries_in_constraint
    compute_entries_in_element entries_in_row compute_system_row_entries
    compute_constraints_row_entries
built_constraint_rows zero lt = omega (arith, built_rows.3)
built_constraint_rows (suc zero) lt = omega (arith, built_rows.4)
built_constraint_rows (suc (suc k)) lt = absurd (omega arith)

built_solver-FitsInt : FitsInt built_solver fresh_views.entries
built_solver-FitsInt = record {
  dofs = omega (arith, built_dofs);
  node_rows = built_node_rows;
  constraint_rows = built_constraint_rows;
  all_rows =
      subst (λ n. sum_below n (all_row_entries built_solver fresh_views.entries) < 2 ^ 31)
        (sym built_dofs) (omega (arith, built_total));
}

mesh_coupled_example :
    (built_solver.node_freedom_map_table 1 + 5)
    ∈ matrix_row fresh_views built_solver (built_solver.node_freedom_map_table 0 + 2)
unfolding perform_all perform add_node add_beam_element add_mass_element add_spring_element
    add_constraint add_fixed_bc add_rigid_joint_constraint new_model push_back
mesh_coupled_example =
    mesh_coupled numbers fresh_views small_system built beam_kind 0 (0 ∷ 1 ∷ []) 0 1 0 1 2 5
      built-Reachable built-HasApartNodes (omega arith) (omega arith) (λ h. cc) built_test.3 refl
      refl (omega arith) (omega arith) built_solver-FitsInt (omega (arith, built_active.0))
      (omega (arith, built_active.1))
