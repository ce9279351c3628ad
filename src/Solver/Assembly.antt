-- ===== src/Solver/Assembly.antt =====
-- src/solver/contribute_beams_to_vector.hpp, contribute_masses_to_vector.hpp,
-- contribute_springs_to_vector.hpp, contribute_constraints_system_residual_to_vector.hpp and
-- contribute_lambda_to_vector.hpp, as src/step/assemble_system_residual.hpp and
-- assemble_constraints_residual.hpp call them. The terms of the elements and constraints, and the
-- addition of `double` numbers, are parameters.
pub mod Terms
pub mod Flat
pub mod Loads
pub mod Residual
pub mod ConstraintLoads
pub mod Multipliers
use kynema_fmb.Base.{
  ℕ, ◌+◌, ◌*◌, ◌/◌, ◌%◌, Bool, View, View2, View3, write, parallel_for, ◌==◌, if◌then◌else◌,
}
use kynema_fmb.Constraints.{Constraints}
use kynema_fmb.Dof.Signature.{count_active_dofs}
use kynema_fmb.Elements.{Beams, Masses, Springs, Elements}
use kynema_fmb.Solver.Ints.{to_int}
use kynema_fmb.Solver.ConstraintRows.{copy_constraints_residual_to_vector}
use kynema_fmb.Solver.Forces.{contribute_forces_to_vector}
use kynema_fmb.State.{State}

-- `residual_vector_terms` of the beams, masses and springs.
pub record ElementTerms (D : Type 0) : Type 0 where
  pub beams : View3 D
  pub masses : View2 D
  pub springs : View3 D

-- What the constraints contribute to the right-hand side.
pub record ConstraintTerms (D : Type 0) : Type 0 where
  pub system_residual_terms : View2 D
  pub base_lambda_residual_terms : View2 D
  pub target_lambda_residual_terms : View2 D
  pub residual_terms : View2 D

module _ {D : Type 0} (add : D → D → D) where
  -- `vector(entry, 0) += value`
  unfoldable pub accumulate : ℕ → D → View D → View D
  accumulate entry value vector = write vector entry (add (vector entry) value)

  -- ContributeBeamsToVector::operator(), with one index for node and component.
  unfoldable pub contribute_beam : Beams → View3 D → ℕ → View D → View D
  contribute_beam beams elements element =
      let num_nodes = beams.num_nodes_per_element element in
      parallel_for (num_nodes * 6) (λ node_component.
        let node = node_component % num_nodes in
        let component = node_component / num_nodes in
        accumulate (beams.element_freedom_table element node component)
          (elements element node component))

  unfoldable pub contribute_mass : Masses → View2 D → ℕ → View D → View D
  contribute_mass masses elements element = parallel_for 6 (λ component.
      accumulate (masses.element_freedom_table element component) (elements element component))

  unfoldable pub contribute_spring : Springs → View3 D → ℕ → View D → View D
  contribute_spring springs elements element = parallel_for 3 (λ component vector.
      accumulate (springs.element_freedom_table element 1 component) (elements element 1 component)
        (accumulate (springs.element_freedom_table element 0 component)
          (elements element 0 component) vector))

  -- The kernels over the given numbers of beams, masses and springs.
  unfoldable pub contribute_elements : ℕ → ℕ → ℕ → Elements → ElementTerms D → View D → View D
  contribute_elements num_beams num_masses num_springs e terms vector =
      parallel_for num_springs (contribute_spring e.springs terms.springs) (
        parallel_for num_masses (contribute_mass e.masses terms.masses)
          (parallel_for num_beams (contribute_beam e.beams terms.beams) vector))

  unfoldable pub assemble_system_residual :
      (D → D → D) → Elements → ElementTerms D → State D → View D → View D
  assemble_system_residual sub e terms state b =
      contribute_elements (to_int e.beams.num_elems) (to_int e.masses.num_elems)
        (to_int e.springs.num_elems) e terms (contribute_forces_to_vector sub state b)

  unfoldable pub contribute_system_residual : Constraints → ConstraintTerms D → ℕ → View D → View D
  contribute_system_residual c terms i_constraint =
      parallel_for (c.target_active_dofs i_constraint) (λ component.
        accumulate (c.target_node_freedom_table i_constraint component)
          (terms.system_residual_terms i_constraint component))

  -- ContributeLambdaToVector::operator(): the base node, then the target node.
  unfoldable pub contribute_lambda : Constraints → ConstraintTerms D → ℕ → View D → View D
  contribute_lambda c terms constraint vector =
      let first_base_dof = c.base_node_freedom_table constraint 0 in
      let first_target_dof = c.target_node_freedom_table constraint 0 in
      parallel_for (count_active_dofs (c.target_node_freedom_signature constraint))
        (λ component.
          accumulate (first_target_dof + component)
            (terms.target_lambda_residual_terms constraint component))
        (parallel_for (count_active_dofs (c.base_node_freedom_signature constraint))
          (λ component.
            accumulate (first_base_dof + component)
              (terms.base_lambda_residual_terms constraint component))
          vector)

  -- What is added is in every branch of the kernels; what is copied depends on `force_atomic`.
  unfoldable pub assemble_constraints_residual :
      Bool → Constraints → ConstraintTerms D → ℕ → View D → View D
  assemble_constraints_residual force_atomic c terms num_system_dofs b =
      let system = parallel_for c.num_constraints (contribute_system_residual c terms) b in
      let lambda = parallel_for c.num_constraints (contribute_lambda c terms) system in
      if c.num_constraints == 0
      then b
      else copy_constraints_residual_to_vector add force_atomic c num_system_dofs
          terms.residual_terms lambda
