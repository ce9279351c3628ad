-- ===== src/Tests/Dofs.antt =====
-- Degrees of freedom.
use kynema_fmb.Base.{
  true, ℕ, zero, suc, ◌+◌, ◌*◌, ◌-◌, ◌^◌, ◌≢◌, ◌↔◌, ◌++◌, ◌∈◌, ap, collect, ◌≤◌, ◌<◌, ◌≡◌, inl, inr,
  refl, arith, List, parallel_for, write, write2,
}
use mathlib.Core.List.{perm_append_comm}
use kynema_fmb.Base.Bits.{bit, sum_bits}
use kynema_fmb.ConstraintType.{
  fixed_bc, rigid_joint, none_type, value, get_number_of_nodes, num_rows_for_constraint,
}
use kynema_fmb.Constraints.{reduce_num_dofs, node_dofs, construct_one, construct_constraints}
use kynema_fmb.Constraints.Rows.{row_range_order, row_range_cover, stored_counts}
use kynema_fmb.Dof.Signature.Laws.{IsNamed, count_active_dofs-fuel}
use kynema_fmb.Dof.Signature.{
  FreedomSignature, no_components, signature_or, count_loop, count_active_dofs,
}
use kynema_fmb.Dof.System.{assign_dofs}
use kynema_fmb.Dof.System.Laws.{dof_owner, dof_injective, beam_entry, num_dofs}
use kynema_fmb.Dof.Allocation.{
  atomic_or, assemble_beam, assemble_mass, assemble_spring, assemble_constraint, allocation_table,
  assemble_node_freedom_allocation_table,
}
use kynema_fmb.Dof.Allocation.Union.{
  Request, requests, meet, allocation_table-bit, beam_requests, mass_requests, spring_requests,
  constraint_requests,
}
use kynema_fmb.Dof.Allocation.Order.{allocation_table_order}
use kynema_fmb.Dof.Allocation.Named.{HasNamedSignatures, allocation_table-IsNamed}
use kynema_fmb.Dof.Numbering.{
  scan_node, node_freedom_map, compute_node_freedom_map_table, compute_num_system_dofs,
}
use kynema_fmb.Dof.Tables.{create_constraint_freedom_table, table_constraint}
use kynema_fmb.Solver.ConstraintRows.{
  copy_constraints_residual_to_vector, update_constraint_prediction,
  copy_constraints_residual_to_vector_lem, update_constraint_prediction_lem,
}
use kynema_fmb.Tests.Data.{
  small_system, three_elements, fresh_constraints, two_constraints, three_elements-IsConstructed,
}

-- The nodes of the small system have six, six and three degrees of freedom, but the joint makes it
-- six.
pub active_dofs_test :
    ((assign_dofs small_system).state.active_dofs 0 ≡ 6)
    × ((assign_dofs small_system).state.active_dofs 1 ≡ 6)
    × ((assign_dofs small_system).state.active_dofs 2 ≡ 6)
unfolding assign_dofs assemble_node_freedom_allocation_table allocation_table assemble_beam
    assemble_mass assemble_spring assemble_constraint atomic_or signature_or count_active_dofs
    count_loop parallel_for write construct_constraints construct_one node_dofs reduce_num_dofs
    num_rows_for_constraint get_number_of_nodes value compute_node_freedom_map_table
active_dofs_test = (refl, refl, refl)

-- The small system has eighteen degrees of freedom.
pub small_num_dofs : num_dofs small_system ≡ 18
unfolding assign_dofs assemble_node_freedom_allocation_table allocation_table assemble_beam
    assemble_mass assemble_spring assemble_constraint atomic_or signature_or count_active_dofs
    count_loop parallel_for write construct_constraints construct_one node_dofs reduce_num_dofs
    num_rows_for_constraint get_number_of_nodes value compute_node_freedom_map_table
    compute_num_system_dofs
small_num_dofs = refl

-- The base node of the joint has the degrees of freedom 6, …, 11.
base_table_test :
    ((assign_dofs small_system).constraints.base_node_freedom_table 1 0 ≡ 6)
    × ((assign_dofs small_system).constraints.base_node_freedom_table 1 5 ≡ 11)
unfolding assign_dofs assemble_node_freedom_allocation_table allocation_table assemble_beam
    assemble_mass assemble_spring assemble_constraint atomic_or signature_or count_active_dofs
    count_loop parallel_for write write2 construct_constraints construct_one node_dofs
    reduce_num_dofs num_rows_for_constraint get_number_of_nodes value compute_node_freedom_map_table
    node_freedom_map scan_node create_constraint_freedom_table table_constraint
base_table_test = (refl, refl)

small_bound : small_system.state.num_system_nodes < 2 ^ 64
small_bound = omega arith

dof_owner_example :
    (i : ℕ) × (c : ℕ) × (i < small_system.state.num_system_nodes)
    × (c < (assign_dofs small_system).state.active_dofs i)
    × ((assign_dofs small_system).state.node_freedom_map_table i + c ≡ 7)
dof_owner_example = dof_owner small_system 7 small_bound (omega (arith, small_num_dofs))

dof_injective_example : ◌≡◌ {A = ℕ} 1 1 × ◌≡◌ {A = ℕ} 2 2
dof_injective_example =
    dof_injective small_system 1 1 2 2 small_bound (omega arith) (omega arith)
      (omega (arith, active_dofs_test.1)) (omega (arith, active_dofs_test.1)) refl

beam_entry_example :
    ((assign_dofs small_system).elements.beams.element_freedom_table 0 1 2
      ≡ (assign_dofs small_system).state.node_freedom_map_table 1 + 2)
    × ((assign_dofs small_system).elements.beams.element_freedom_table 0 1 2
        < num_dofs small_system)
beam_entry_example =
    beam_entry small_system 0 1 2 small_bound three_elements-IsConstructed (omega arith)
      (omega arith) (omega arith) (omega arith)

allocation_table-bit_example :
    (bit (allocation_table three_elements small_system.constraints 2) 4 ≡ 1) ↔ (
      (s : FreedomSignature) × ((2, s) ∈ requests three_elements small_system.constraints)
      × (bit s 4 ≡ 1))
allocation_table-bit_example = allocation_table-bit three_elements small_system.constraints 2 4

-- The beams' requests are met last.
abbrev beams_last : List Request
beams_last =
    (collect three_elements.masses.num_elems (mass_requests three_elements.masses)
      ++ (collect three_elements.springs.num_elems (spring_requests three_elements.springs)
          ++ collect small_system.constraints.num_constraints
              (constraint_requests small_system.constraints)))
    ++ collect three_elements.beams.num_elems (beam_requests three_elements.beams)

allocation_table_order_example :
    meet beams_last (λ _. no_components) ≡ allocation_table three_elements small_system.constraints
allocation_table_order_example =
    allocation_table_order three_elements small_system.constraints beams_last (
      perm_append_comm (collect three_elements.beams.num_elems (beam_requests three_elements.beams))
        (collect three_elements.masses.num_elems (mass_requests three_elements.masses)
          ++ (collect three_elements.springs.num_elems (spring_requests three_elements.springs)
              ++ collect small_system.constraints.num_constraints
                  (constraint_requests small_system.constraints))))

pub small_constraints-HasNamedSignatures : HasNamedSignatures small_system.constraints
unfolding construct_constraints construct_one parallel_for write node_dofs value reduce_num_dofs
    num_rows_for_constraint
small_constraints-HasNamedSignatures = record { base = base; target = target }
  where
    base :
        (i : ℕ)
        → i < small_system.constraints.num_constraints
        → IsNamed (small_system.constraints.base_node_freedom_signature i)
    base zero lt = inr (inr (inr refl))
    base (suc zero) lt = inl refl
    base (suc (suc i)) lt = absurd (omega arith)

    target :
        (i : ℕ)
        → i < small_system.constraints.num_constraints
        → IsNamed (small_system.constraints.target_node_freedom_signature i)
    target zero lt = inl refl
    target (suc zero) lt = inl refl
    target (suc (suc i)) lt = absurd (omega arith)

allocation_table-IsNamed_example :
    IsNamed (allocation_table three_elements small_system.constraints 2)
allocation_table-IsNamed_example =
    allocation_table-IsNamed three_elements small_system.constraints 2 three_elements-IsConstructed
      small_constraints-HasNamedSignatures

count_active_dofs-fuel_example :
    (count_active_dofs 200 ≡ sum_bits 8 200) × (count_loop 11 200 0 ≡ count_active_dofs 200)
count_active_dofs-fuel_example = count_active_dofs-fuel 200 3 (omega arith)

row_range_order_example :
    let c = construct_constraints fresh_constraints two_constraints in
    ((c.row_range 0).1 ≤ (c.row_range 1).0)
    × ((c.row_range 1).1 ≤ c.num_dofs)
    × ((c.row_range 0).0 + num_rows_for_constraint fixed_bc ≡ (c.row_range 0).1)
row_range_order_example =
    row_range_order fresh_constraints two_constraints 0 1 (omega arith) (omega arith) (omega arith)

row_range_cover_example :
    let c = construct_constraints fresh_constraints two_constraints in
    (i : ℕ) × (i < 2) × ((c.row_range i).0 ≤ 8) × (8 < (c.row_range i).1)
unfolding construct_constraints construct_one parallel_for write node_dofs value reduce_num_dofs
    num_rows_for_constraint
row_range_cover_example =
    row_range_cover fresh_constraints two_constraints 8 (omega arith) (omega arith)

stored_counts_example :
    let c = construct_constraints fresh_constraints two_constraints in
    (c.base_active_dofs 1 ≡ count_active_dofs (c.base_node_freedom_signature 1))
    × (c.target_active_dofs 1 ≡ count_active_dofs (c.target_node_freedom_signature 1))
    × ((c.row_range 1).1 ≤ (c.row_range 1).0 + c.target_active_dofs 1)
    × (c.base_active_dofs 1 ≡ 6 * (get_number_of_nodes (c.type 1) - 1))
unfolding value
stored_counts_example =
    stored_counts fresh_constraints two_constraints 1 (omega arith) rigid_joint-ne
  where
    rigid_joint-ne : rigid_joint ≢ none_type
    rigid_joint-ne e = absurd (omega (arith, ap value e))

copy_constraints_residual_to_vector_lem_example :
    let c = construct_constraints fresh_constraints two_constraints in
    copy_constraints_residual_to_vector
      (λ a b. a + b)
      true
      c
      18
      (λ k j. 10 * k + j)
      (λ i. i)
      ((c.row_range 1).0 + 18 + 2)
    ≡ (c.row_range 1).0 + 18 + 2 + (10 * 1 + 2)
unfolding construct_constraints construct_one parallel_for write node_dofs value reduce_num_dofs
    num_rows_for_constraint
copy_constraints_residual_to_vector_lem_example =
    copy_constraints_residual_to_vector_lem (λ a b. a + b) true fresh_constraints two_constraints 18
      (λ k j. 10 * k + j) (λ i. i) 1 2 (omega arith) (omega arith) (omega arith)

update_constraint_prediction_lem_example :
    let c = construct_constraints fresh_constraints two_constraints in
    update_constraint_prediction (λ a b. a + b) c 18 (λ i. i) (λ k j. 7) 1 2
    ≡ 7 + (18 + ((c.row_range 1).0 + 2))
unfolding construct_constraints construct_one parallel_for write node_dofs value reduce_num_dofs
    num_rows_for_constraint
update_constraint_prediction_lem_example =
    update_constraint_prediction_lem (λ a b. a + b)
      (construct_constraints fresh_constraints two_constraints) 18 (λ i. i) (λ k j. 7) 1 2
      (omega arith) (omega arith)
