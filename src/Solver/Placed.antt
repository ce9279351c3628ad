-- ===== src/Solver/Placed.antt =====
-- What src/constraints/constraints.hpp stores of the nodes of the constraints, and that the numbering
-- gives these nodes the components that the constraints ask for.
use kynema_fmb.Base.{
  ℕ, ◌≤◌, ◌<◌, ◌≡◌, ◌≢◌, ◌∈◌, refl, arith, Vector, collect, ==_iff, inl, inr, mem-append_right,
  mem-collect,
}
use kynema_fmb.ConstraintType.{
  ConstraintType, none_type, fixed_bc, prescribed_bc, rigid_joint, revolute_joint, rotation_control,
  fixed_bc_3dofs, prescribed_bc_3dofs, rigid_joint_6dofs_to_3dofs, get_number_of_nodes, value,
}
use kynema_fmb.Constraints.{Constraint, Constraints, construct_constraints}
use kynema_fmb.Constraints.Rows.{stored_counts, construct_constraints-num_constraints}
use kynema_fmb.Dof.Allocation.Union.{
  requests, beam_requests, mass_requests, spring_requests, constraint_requests,
}
use kynema_fmb.Dof.Signature.{count_active_dofs}
use kynema_fmb.Dof.System.{System, assign_dofs}
use kynema_fmb.Dof.System.Laws.{asked_active}

-- What the constructor stores, and nodes of the system in every constraint.
pub record IsPlaced (c : Constraints) (n : ℕ) : Type 0 where
  pub target_count :
      (i : ℕ)
      → i < c.num_constraints
      → c.target_active_dofs i ≡ count_active_dofs (c.target_node_freedom_signature i)
  pub base_stored :
      (i : ℕ)
      → i < c.num_constraints
      → c.base_active_dofs i ≡ count_active_dofs (c.base_node_freedom_signature i)
  pub base_count :
      (i k : ℕ)
      → i < c.num_constraints
      → k < count_active_dofs (c.base_node_freedom_signature i)
      → get_number_of_nodes (c.type i) ≡ 2
  pub target_node : (i : ℕ) → i < c.num_constraints → c.target_node_index i < n
  pub base_node :
      (i : ℕ) → i < c.num_constraints → get_number_of_nodes (c.type i) ≡ 2 → c.base_node_index i < n

at_most_two : (t : ConstraintType) → get_number_of_nodes t ≤ 2
unfolding get_number_of_nodes value
at_most_two none_type = omega arith
at_most_two fixed_bc = omega arith
at_most_two prescribed_bc = omega arith
at_most_two rigid_joint = omega arith
at_most_two revolute_joint = omega arith
at_most_two rotation_control = omega arith
at_most_two fixed_bc_3dofs = omega arith
at_most_two prescribed_bc_3dofs = omega arith
at_most_two rigid_joint_6dofs_to_3dofs = omega arith

-- Constraints of types other than `None`, as constructed, whose nodes are below a bound.
pub construct_constraints-IsPlaced :
    (before : Constraints) (cs : Vector Constraint) (n : ℕ)
    → ((i : ℕ) → i < cs.size → (cs.at i).type ≢ none_type)
    → ((i : ℕ) → i < cs.size → (construct_constraints before cs).target_node_index i < n)
    → ((i : ℕ) → i < cs.size → (construct_constraints before cs).base_node_index i < n)
    → IsPlaced (construct_constraints before cs) n
construct_constraints-IsPlaced before cs n typed target base =
    let c = construct_constraints before cs in
    let size = construct_constraints-num_constraints before cs in
    record {
      target_count = λ i lt.
          let in_cs : i < cs.size = omega (arith, size) in
          (stored_counts before cs i in_cs (typed i in_cs)).1;
      base_stored = λ i lt.
          let in_cs : i < cs.size = omega (arith, size) in
          (stored_counts before cs i in_cs (typed i in_cs)).0;
      base_count = λ i k lt some_dof.
          let in_cs : i < cs.size = omega (arith, size) in
          let stored = stored_counts before cs i in_cs (typed i in_cs) in
          omega (arith, stored.0, stored.3, at_most_two (c.type i));
      target_node = λ i lt. target i (omega (arith, size));
      base_node = λ i lt two. base i (omega (arith, size));
    }

module _ {D : Type 0} (s : System D)
    (placed : IsPlaced s.constraints s.state.num_system_nodes) where
  pub target_active :
      (i k : ℕ)
      → i < s.constraints.num_constraints
      → k < count_active_dofs (s.constraints.target_node_freedom_signature i)
      → k < (assign_dofs s).state.active_dofs (s.constraints.target_node_index i)
  target_active i k lt below =
      let node = s.constraints.target_node_index i in
      let signature = s.constraints.target_node_freedom_signature i in
      let asked : (node, signature) ∈ requests s.elements s.constraints =
        mem-append_right _ (collect s.elements.beams.num_elems (beam_requests s.elements.beams)) _ (
          mem-append_right _ (collect s.elements.masses.num_elems (mass_requests s.elements.masses))
            _
            (mem-append_right _
              (collect s.elements.springs.num_elems (spring_requests s.elements.springs)) _
              (mem-collect _ _ i (constraint_requests s.constraints) lt (inl refl)))) in
      asked_active s node k signature (placed.target_node i lt) asked below

  pub base_active :
      (i k : ℕ)
      → i < s.constraints.num_constraints
      → k < count_active_dofs (s.constraints.base_node_freedom_signature i)
      → k < (assign_dofs s).state.active_dofs (s.constraints.base_node_index i)
  base_active i k lt below =
      let node = s.constraints.base_node_index i in
      let signature = s.constraints.base_node_freedom_signature i in
      let two = placed.base_count i k lt below in
      let here : (node, signature) ∈ constraint_requests s.constraints i =
        rw ((==_iff (get_number_of_nodes (s.constraints.type i)) 2).1 two) (inr (inl refl)) in
      let asked : (node, signature) ∈ requests s.elements s.constraints =
        mem-append_right _ (collect s.elements.beams.num_elems (beam_requests s.elements.beams)) _ (
          mem-append_right _ (collect s.elements.masses.num_elems (mass_requests s.elements.masses))
            _
            (mem-append_right _
              (collect s.elements.springs.num_elems (spring_requests s.elements.springs)) _
              (mem-collect _ _ i (constraint_requests s.constraints) lt here))) in
      asked_active s node k signature (placed.base_node i lt two) asked below
