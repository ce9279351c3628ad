-- ===== src/Dof/System.antt =====
-- src/model/model.hpp, the first four calls of CreateSolver: from the elements and constraints of a
-- system to the numbers of all its degrees of freedom.
pub mod Laws
use kynema_fmb.Elements.{Elements}
use kynema_fmb.Constraints.{Constraints}
use kynema_fmb.State.{State}
use kynema_fmb.Dof.Allocation.{assemble_node_freedom_allocation_table}
use kynema_fmb.Dof.Numbering.{compute_node_freedom_map_table}
use kynema_fmb.Dof.Tables.{create_element_freedom_table, create_constraint_freedom_table}

pub record System (D : Type 0) : Type 0 where
  pub state : State D
  pub elements : Elements
  pub constraints : Constraints

unfoldable pub assign_dofs : {D : Type 0} → System D → System D
assign_dofs s =
    let allocated = assemble_node_freedom_allocation_table s.state s.elements s.constraints in
    let state = compute_node_freedom_map_table allocated in
    record {
      state = state;
      elements = create_element_freedom_table s.elements state;
      constraints = create_constraint_freedom_table s.constraints state;
    }
