-- ===== src/Tests/Data.antt =====
-- A system of three nodes: a beam between the nodes 0 and 1, a mass at node 1, a spring between the
-- nodes 1 and 2, a fixed boundary condition at node 0 and a rigid joint between the nodes 1 and 2.
use kynema_fmb.Base.{ℕ, zero, suc, ◌+◌, refl, arith, View, View2, View3, Vector, none}
use kynema_fmb.ConstraintType.{none_type, fixed_bc, rigid_joint}
use kynema_fmb.Constraints.{Constraint, Constraints, construct_constraints}
use kynema_fmb.Dof.Signature.{all_components, just_position}
use kynema_fmb.Dof.System.{System}
use kynema_fmb.Elements.{Elements, IsConstructed}
use kynema_fmb.State.{State}
use kynema_fmb.Solver.Creation.Numbered.{HasDistinctNodes}
use kynema_fmb.Solver.Creation.Matrix.{Fresh}

abbrev zeros : View ℕ
zeros i = 0

abbrev zeros_2 : View2 ℕ
zeros_2 i j = 0

abbrev zeros_3 : View3 ℕ
zeros_3 i j k = 0

abbrev pub fresh_views : Fresh
fresh_views = record {
  counts = zeros;
  nodes = zeros_2;
  entries = zeros;
  ptrs = zeros;
  col_inds = zeros;
}

abbrev pub two_constraints : Vector Constraint
two_constraints = record { size = 2; at = constraint_at }
  where
    constraint_at : ℕ → Constraint
    constraint_at zero = record {
      id = 0;
      type = fixed_bc;
      base_node_id = 0;
      target_node_id = 0;
      control = none;
    }
    constraint_at (suc i) = record {
      id = 1;
      type = rigid_joint;
      base_node_id = 1;
      target_node_id = 2;
      control = none;
    }

abbrev pub fresh_constraints : Constraints
fresh_constraints = record {
  num_constraints = 0;
  num_dofs = 0;
  type = λ _. none_type;
  control_signal = λ _. none;
  base_node_index = zeros;
  target_node_index = zeros;
  row_range = λ _. (0, 0);
  base_node_freedom_signature = zeros;
  target_node_freedom_signature = zeros;
  base_active_dofs = zeros;
  target_active_dofs = zeros;
  base_node_freedom_table = zeros_2;
  target_node_freedom_table = zeros_2;
}

abbrev pub three_elements : Elements
three_elements = record {
  beams = record {
    num_elems = 1;
    max_elem_nodes = 2;
    num_nodes_per_element = λ _. 2;
    node_state_indices = λ element node. node;
    element_freedom_signature = λ _ _. all_components;
    element_freedom_table = zeros_3;
  };
  masses = record {
    num_elems = 1;
    num_nodes_per_element = λ _. 1;
    state_indices = λ _. 1;
    element_freedom_signature = λ _. all_components;
    element_freedom_table = zeros_2;
  };
  springs = record {
    num_elems = 1;
    num_nodes_per_element = λ _. 2;
    node_state_indices = λ element node. node + 1;
    element_freedom_signature = λ _ _. just_position;
    element_freedom_table = zeros_3;
  };
}

abbrev pub three_nodes : State ℕ
three_nodes = record {
  time_step = 0;
  num_system_nodes = 3;
  id = λ i. i;
  node_freedom_allocation_table = zeros;
  active_dofs = zeros;
  node_freedom_map_table = zeros;
  x0 = zeros_2;
  x = zeros_2;
  q_delta = zeros_2;
  q_prev = zeros_2;
  q = zeros_2;
  v = zeros_2;
  vd = zeros_2;
  a = zeros_2;
  f = zeros_2;
  tangent = zeros_3;
}

abbrev pub small_system : System ℕ
small_system = record {
  state = three_nodes;
  elements = three_elements;
  constraints = construct_constraints fresh_constraints two_constraints;
}

pub three_elements-IsConstructed : IsConstructed three_elements
three_elements-IsConstructed = record {
  beam_signature = λ i j. refl;
  mass_signature = λ i. refl;
  spring_signature = λ i j. refl;
  mass_nodes = λ i. refl;
  spring_nodes = λ i. refl;
}

pub three_elements-HasDistinctNodes : HasDistinctNodes three_elements
three_elements-HasDistinctNodes = record {
  beams = λ element i j in_elements lt below. omega arith;
  springs = λ element lt. omega arith;
}
