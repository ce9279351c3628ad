-- ===== src/Tests/Assembly.antt =====
-- The right-hand side of the small system.
use kynema_fmb.Base.{ℕ, [], ◌∷◌, ◌-◌, ◌+◌, ◌<◌, ◌≡◌, refl, arith, parallel_for, write}
use kynema_fmb.ConstraintType.{none_type}
use kynema_fmb.Constraints.{construct_one, construct_constraints}
use kynema_fmb.Dof.System.{assign_dofs}
use kynema_fmb.Tests.Data.{
  three_elements, small_system, fresh_constraints, two_constraints, three_elements-IsConstructed,
}
use kynema_fmb.Tests.Dofs.{active_dofs_test, small_constraints-HasNamedSignatures}
use kynema_fmb.Base.{zero, suc, false, ◌≢◌}
use kynema_fmb.Dof.System.Laws.{num_dofs}
use kynema_fmb.Solver.Assembly.{
  ElementTerms, ConstraintTerms, assemble_system_residual, assemble_constraints_residual,
}
use kynema_fmb.Solver.Placed.{IsPlaced, construct_constraints-IsPlaced}
use kynema_fmb.Solver.Assembly.ConstraintLoads.{constraint_loads}
use kynema_fmb.Solver.Assembly.Multipliers.{assembled_multipliers}
use kynema_fmb.Solver.Assembly.Terms.{total}
use kynema_fmb.Solver.Assembly.Loads.{loads_at, element_loads}
use kynema_fmb.Solver.Assembly.Residual.{HasNodesBelow, assembled_residual}
use kynema_fmb.Solver.Forces.{load_of}

three_elements-HasNodesBelow : HasNodesBelow three_elements 3
three_elements-HasNodesBelow = record {
  beams = λ element j lt in_beam. omega arith;
  masses = λ element lt. omega arith;
  springs = λ element j lt in_spring. omega arith;
}

abbrev small_terms : ElementTerms ℕ
small_terms = record {
  beams = λ element node component. 1;
  masses = λ element component. 2;
  springs = λ element node component. 3;
}

assembled_residual_example :
    let after = assign_dofs small_system in
    let entry = after.state.node_freedom_map_table 1 + 2 in
    assemble_system_residual
      (λ a b. a + b)
      (λ a b. a - b)
      after.elements
      small_terms
      after.state
      (λ i. 100)
      entry
    ≡ total
        (λ a b. a + b)
        (100
          - after.state.f 1
              (load_of (λ a b. a - b) (after.state.node_freedom_allocation_table 1) 2))
        (loads_at 1 2 (element_loads small_system.elements small_terms))
assembled_residual_example =
    assembled_residual (λ a b. a + b) (λ a b. a - b) small_system small_terms (λ i. 100) 1 2
      (omega arith) three_elements-IsConstructed small_constraints-HasNamedSignatures
      three_elements-HasNodesBelow
      (record { beams = omega arith; masses = omega arith; springs = omega arith }) (omega arith)
      (omega (arith, active_dofs_test.1))

-- The third component of node 1 has a term of the beam, one of the mass and one of the spring.
loads_at_test : loads_at 1 2 (element_loads small_system.elements small_terms) ≡ 1 ∷ 2 ∷ 3 ∷ []
unfolding loads_at
loads_at_test = refl

small_types : (i : ℕ) → i < two_constraints.size → (two_constraints.at i).type ≢ none_type
small_types zero lt h = cc
small_types (suc i) lt h = cc

small_targets :
    (i : ℕ)
    → i < two_constraints.size
    → (construct_constraints fresh_constraints two_constraints).target_node_index i < 3
unfolding construct_constraints construct_one parallel_for write
small_targets zero lt = omega arith
small_targets (suc zero) lt = omega arith
small_targets (suc (suc i)) lt = absurd (omega arith)

small_bases :
    (i : ℕ)
    → i < two_constraints.size
    → (construct_constraints fresh_constraints two_constraints).base_node_index i < 3
unfolding construct_constraints construct_one parallel_for write
small_bases zero lt = omega arith
small_bases (suc zero) lt = omega arith
small_bases (suc (suc i)) lt = absurd (omega arith)

pub small_constraints-IsPlaced : IsPlaced small_system.constraints 3
small_constraints-IsPlaced =
    construct_constraints-IsPlaced fresh_constraints two_constraints 3 small_types small_targets
      small_bases

abbrev small_constraint_terms : ConstraintTerms ℕ
small_constraint_terms = record {
  system_residual_terms = λ constraint component. 1;
  base_lambda_residual_terms = λ constraint component. 2;
  target_lambda_residual_terms = λ constraint component. 3;
  residual_terms = λ constraint row. 4;
}

assembled_multipliers_example :
    let after = assign_dofs small_system in
    let entry = after.state.node_freedom_map_table 1 + 2 in
    assemble_constraints_residual
      (λ a b. a + b)
      false
      after.constraints
      small_constraint_terms
      (num_dofs small_system)
      (λ i. 100)
      entry
    ≡ total
        (λ a b. a + b)
        100
        (loads_at 1 2 (constraint_loads small_system.constraints small_constraint_terms))
assembled_multipliers_example =
    assembled_multipliers (λ a b. a + b) false small_system small_constraint_terms (λ i. 100) 1 2
      (omega arith) small_constraints-IsPlaced (omega arith) (omega (arith, active_dofs_test.1))
