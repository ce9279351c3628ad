-- ===== src/Dof/Allocation.antt =====
-- src/dof_management/assemble_node_freedom_allocation_table.hpp: the union, for each node, of the
-- signatures that the elements and constraints ask for.
pub mod Union
pub mod Order
pub mod Named
use kynema_fmb.Base.{ℕ, View, View2, write, parallel_for, ◌==◌, if◌then◌else◌}
use kynema_fmb.Elements.{Elements, Beams, Masses, Springs}
use kynema_fmb.ConstraintType.{get_number_of_nodes}
use kynema_fmb.Constraints.{Constraints}
use kynema_fmb.State.{State}
use kynema_fmb.Dof.Signature.{FreedomSignature, no_components, signature_or, count_active_dofs}

abbrev pub Table : Type 0
Table = View FreedomSignature

-- `Kokkos::atomic_or(&table(node_index), signature)`
unfoldable pub atomic_or : Table → ℕ → FreedomSignature → Table
atomic_or table node_index signature =
    write table node_index (signature_or (table node_index) signature)

unfoldable pub assemble_beam : Beams → ℕ → Table → Table
assemble_beam beams element table =
    parallel_for (beams.num_nodes_per_element element)
      (λ node t.
        atomic_or t (beams.node_state_indices element node)
          (beams.element_freedom_signature element node))
      table

unfoldable pub assemble_mass : Masses → ℕ → Table → Table
assemble_mass masses element table =
    atomic_or table (masses.state_indices element) (masses.element_freedom_signature element)

unfoldable pub assemble_spring : Springs → ℕ → Table → Table
assemble_spring springs element table =
    parallel_for 2
      (λ node t.
        atomic_or t (springs.node_state_indices element node)
          (springs.element_freedom_signature element node))
      table

unfoldable pub assemble_constraint : Constraints → ℕ → Table → Table
assemble_constraint c node table =
    let with_target =
      atomic_or table (c.target_node_index node) (c.target_node_freedom_signature node) in
    let with_base =
      atomic_or with_target (c.base_node_index node) (c.base_node_freedom_signature node) in
    if get_number_of_nodes (c.type node) == 2 then with_base else with_target

-- The table after the four loops.
unfoldable pub allocation_table : Elements → Constraints → Table
allocation_table elements constraints =
    let beams =
      parallel_for elements.beams.num_elems (assemble_beam elements.beams) (λ _. no_components) in
    let masses = parallel_for elements.masses.num_elems (assemble_mass elements.masses) beams in
    let springs =
      parallel_for elements.springs.num_elems (assemble_spring elements.springs) masses in
    parallel_for constraints.num_constraints (assemble_constraint constraints) springs

unfoldable pub assemble_node_freedom_allocation_table :
    {D : Type 0} → State D → Elements → Constraints → State D
assemble_node_freedom_allocation_table state elements constraints =
    let table = allocation_table elements constraints in
    record state {
      node_freedom_allocation_table = table;
      active_dofs =
          parallel_for state.num_system_nodes
            (λ node dofs. write dofs node (count_active_dofs (table node))) state.active_dofs;
    }
