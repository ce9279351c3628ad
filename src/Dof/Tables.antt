-- ===== src/Dof/Tables.antt =====
-- src/dof_management/create_element_freedom_table.hpp and create_constraint_freedom_table.hpp: the
-- number of every degree of freedom of an element's and of a constraint's nodes.
pub mod Laws
use kynema_fmb.Base.{ℕ, ◌+◌, View, View2, View3, write2, write3, parallel_for, ◌==◌, if◌then◌else◌}
use kynema_fmb.Elements.{Elements, Beams, Masses, Springs}
use kynema_fmb.ConstraintType.{get_number_of_nodes}
use kynema_fmb.Constraints.{Constraints}
use kynema_fmb.State.{State}

unfoldable pub table_beam : Beams → View ℕ → ℕ → View3 ℕ → View3 ℕ
table_beam beams map element table =
    parallel_for (beams.num_nodes_per_element element)
      (λ node t.
        parallel_for 6
          (λ component u.
            write3 u element node component
              (map (beams.node_state_indices element node) + component))
          t)
      table

unfoldable pub table_mass : Masses → View ℕ → ℕ → View2 ℕ → View2 ℕ
table_mass masses map element table =
    parallel_for 6
      (λ component u. write2 u element component (map (masses.state_indices element) + component))
      table

unfoldable pub table_spring : Springs → View ℕ → ℕ → View3 ℕ → View3 ℕ
table_spring springs map element table =
    parallel_for 2
      (λ node t.
        parallel_for 3
          (λ component u.
            write3 u element node component
              (map (springs.node_state_indices element node) + component))
          t)
      table

unfoldable pub create_element_freedom_table : {D : Type 0} → Elements → State D → Elements
create_element_freedom_table e state =
    let map = state.node_freedom_map_table in
    record e {
      beams = record (e.beams) {
        element_freedom_table =
            parallel_for e.beams.num_elems (table_beam e.beams map) e.beams.element_freedom_table;
      };
      masses = record (e.masses) {
        element_freedom_table =
            parallel_for e.masses.num_elems (table_mass e.masses map)
              e.masses.element_freedom_table;
      };
      springs = record (e.springs) {
        element_freedom_table =
            parallel_for e.springs.num_elems (table_spring e.springs map)
              e.springs.element_freedom_table;
      };
    }

-- The row of one constraint for one of its nodes.
abbrev pub table_node : View ℕ → View ℕ → ℕ → ℕ → View2 ℕ → View2 ℕ
table_node active map constraint node_index table =
    parallel_for (active node_index)
      (λ component u. write2 u constraint component (map node_index + component)) table

unfoldable pub table_constraint :
    Constraints → View ℕ → View ℕ → ℕ → View2 ℕ × View2 ℕ → View2 ℕ × View2 ℕ
table_constraint c active map constraint (target, base) = (
  table_node active map constraint (c.target_node_index constraint) target,
  (if get_number_of_nodes (c.type constraint) == 2
      then table_node active map constraint (c.base_node_index constraint) base
      else parallel_for 6 (λ component u. write2 u constraint component 0) base),
)

unfoldable pub create_constraint_freedom_table : {D : Type 0} → Constraints → State D → Constraints
create_constraint_freedom_table c state =
    let tables =
      parallel_for c.num_constraints
        (table_constraint c state.active_dofs state.node_freedom_map_table)
        (c.target_node_freedom_table, c.base_node_freedom_table) in
    record c { target_node_freedom_table = tables.0; base_node_freedom_table = tables.1 }
