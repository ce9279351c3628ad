-- ===== src/Tests/Matrix.antt =====
-- The matrix of the small system.
use kynema_fmb.Base.{◌+◌, ◌≡◌, refl, ap, arith, parallel_for, write, sum_below}
use kynema_fmb.ConstraintType.{value, num_rows_for_constraint}
use kynema_fmb.Constraints.{reduce_num_dofs, node_dofs, construct_one, construct_constraints}
use kynema_fmb.Dof.Numbering.{compute_node_freedom_map_table}
use kynema_fmb.Dof.Allocation.{assemble_node_freedom_allocation_table}
use kynema_fmb.Dof.System.{assign_dofs}
use kynema_fmb.Dof.Tables.{create_element_freedom_table, create_constraint_freedom_table}
use kynema_fmb.Elements.{num_elements_in_system}
use kynema_fmb.Elements.Joined.{beam_nodes, beam_count}
use kynema_fmb.Solver.Rows.{all_row_entries, compute_row_ptrs}
use kynema_fmb.Solver.Rows.Pointers.{row_ptrs-eq}
use kynema_fmb.Solver.Creation.{create_solver}
use kynema_fmb.Solver.Creation.Matrix.{
  IsPrepared, matrix_row, created_system_row, created_constraint_row,
}
use kynema_fmb.Tests.Rows.{small_solver, small_solver-FitsInt, small_inside}
use kynema_fmb.Tests.Assembly.{small_constraints-IsPlaced}
use kynema_fmb.Solver.Creation.Rows.{coupled_row, multiplier_row}
use kynema_fmb.Tests.Data.{
  small_system, fresh_constraints, two_constraints, fresh_views, three_elements-IsConstructed,
  three_elements-HasDistinctNodes,
}
use kynema_fmb.Tests.Dofs.{active_dofs_test, small_num_dofs}

small_nodes :
    (small_solver.num_nodes ≡ 3)
    × (small_solver.active_dofs 1 ≡ 6)
    × (small_solver.num_elements ≡ 3)
    × (small_solver.num_dofs ≡ 30)
    × (small_solver.num_constraints ≡ 2)
    × ((small_solver.row_range 1).0 ≡ 6)
    × ((small_solver.row_range 1).1 ≡ 12)
unfolding create_solver assign_dofs assemble_node_freedom_allocation_table
    compute_node_freedom_map_table create_element_freedom_table num_elements_in_system
    create_constraint_freedom_table construct_constraints construct_one parallel_for write node_dofs
    value reduce_num_dofs num_rows_for_constraint
small_nodes = (refl, active_dofs_test.1, refl, ap (λ n. n + 12) small_num_dofs, refl, refl, refl)

active_0 : small_solver.active_dofs 0 ≡ 6
unfolding create_solver
active_0 = active_dofs_test.0

small_system-IsPrepared : IsPrepared fresh_views small_system two_constraints
small_system-IsPrepared = record {
  bound = omega arith;
  small = omega arith;
  before = fresh_constraints;
  constraints = refl;
  elements = three_elements-IsConstructed;
  distinct = three_elements-HasDistinctNodes;
  fits = small_solver-FitsInt;
}

created_system_row_example :
    matrix_row fresh_views small_solver (small_solver.node_freedom_map_table 1 + 2)
    ≡ coupled_row small_solver small_system.constraints 1
created_system_row_example =
    created_system_row fresh_views small_system two_constraints small_system-IsPrepared 1 2
      small_constraints-IsPlaced small_inside (omega (arith, small_nodes.0))
      (omega (arith, small_nodes.1))

created_constraint_row_example :
    matrix_row fresh_views small_solver (8 + small_solver.num_system_dofs)
    ≡ multiplier_row small_solver small_system.constraints 1
created_constraint_row_example =
    created_constraint_row fresh_views small_system two_constraints small_system-IsPrepared 1 8
      small_constraints-IsPlaced (omega (arith, small_nodes.4)) (omega (arith, small_nodes.5))
      (omega (arith, small_nodes.6))

row_ptrs-eq_example :
    compute_row_ptrs small_solver fresh_views.entries fresh_views.ptrs 20
    ≡ sum_below 20 (all_row_entries small_solver fresh_views.entries)
row_ptrs-eq_example =
    row_ptrs-eq small_solver fresh_views.entries fresh_views.ptrs 20 small_solver-FitsInt.all_rows
      (omega (arith, small_nodes.3))

-- The beam has two nodes, which are the nodes 0 and 1 of the system.
beam_of_solver :
    (small_solver.num_nodes_per_element 0 ≡ 2)
    × (small_solver.node_state_indices 0 0 ≡ 0)
    × (small_solver.node_state_indices 0 1 ≡ 1)
unfolding create_solver assign_dofs create_element_freedom_table
beam_of_solver = (
  beam_count fresh_views.counts (assign_dofs small_system).elements 0 (omega arith),
  beam_nodes fresh_views.nodes (assign_dofs small_system).elements 0 0 (omega arith) (omega arith),
  beam_nodes fresh_views.nodes (assign_dofs small_system).elements 0 1 (omega arith) (omega arith),
)
