-- ===== src/Tests/Models.antt =====
-- A model of three nodes that calls build: a beam between the nodes 0 and 1, a mass at node 1, a
-- spring between the nodes 1 and 2, a fixed node 0 and a rigid joint of the nodes 1 and 2.
use kynema_fmb.Base.{
  ℕ, zero, suc, ◌+◌, ◌-◌, ◌*◌, ◌<◌, ◌≡◌, ◌≢◌, refl, arith, List, [], ◌∷◌, none, some, segment,
  push_back, write, write2, parallel_for,
}
use kynema_fmb.ConstraintType.{none_type, value, get_number_of_nodes, num_rows_for_constraint}
use kynema_fmb.Constraints.{reduce_num_dofs, node_dofs, construct_one, construct_constraints}
use kynema_fmb.Dof.Allocation.{
  atomic_or, assemble_beam, assemble_mass, assemble_spring, assemble_constraint, allocation_table,
  assemble_node_freedom_allocation_table,
}
use kynema_fmb.Dof.Numbering.{compute_node_freedom_map_table}
use kynema_fmb.Dof.Signature.{signature_or, count_loop, count_active_dofs}
use kynema_fmb.Dof.System.{assign_dofs}
use kynema_fmb.Solver.Connectivity.{Connectivity}
use kynema_fmb.Solver.Creation.{create_solver}
use kynema_fmb.State.Snapshot.{new_state}
use kynema_fmb.Model.Maps.{lookup, insert}
use kynema_fmb.Model.Mesh.{
  beam_kind, no_connectivity, map_of, get_connectivity, add_beam_element_connectivity,
  add_mass_element_connectivity, add_spring_element_connectivity, add_constraint_connectivity,
}
use kynema_fmb.Model.Nodes.{Geometry, Node, set_position, translate, move}
use kynema_fmb.Model.Building.{
  Model, new_model, add_node, add_beam_element, add_mass_element, add_spring_element,
  add_constraint, add_fixed_bc, add_rigid_joint_constraint, move_beam,
}
use kynema_fmb.Model.Moved.{move_beam-once}
use kynema_fmb.Model.Calls.{
  Call, node, beam_element, mass_element, spring_element, fixed, rigid, perform, Reachable, start,
  added,
}
use kynema_fmb.Model.Calls.Consistent.{IsConsistent}
use kynema_fmb.Model.Calls.Invariant.{reachable-IsConsistent}
use kynema_fmb.Model.Calls.Kept.{Extends, perform-Extends}
use kynema_fmb.Model.State.{
  create_state, copy_nodes_to_state, copy_node, copy_positions, copy_rates,
}
use kynema_fmb.Model.State.Initial.{global_position, created_state}
use kynema_fmb.Model.Creation.{
  create_beam, create_beams, create_masses, create_springs, create_elements, create_system,
  create_system_with_solver,
}
use kynema_fmb.Model.Creation.Elements.{HasApartNodes}
use kynema_fmb.Tests.Data.{fresh_views, small_system, three_nodes}

abbrev pub numbers : Geometry ℕ
numbers = record {
  zero_value = 0;
  one = 1;
  add = λ a b. a + b;
  sub = λ a b. a - b;
  mul = λ a b. a * b;
  transform_vector = λ q v. v;
  multiply = λ p q i. p 0 * q i;
  cross = λ u v i. u i * v i;
}

abbrev blank : Node ℕ
blank = record { id = 0; x0 = λ _. 0; u = λ _. 0; v = λ _. 0; vd = λ _. 0; s = 0 }

abbrev fresh_model : Model ℕ ℕ
fresh_model = record {
  gravity = λ _. 0;
  nodes = record { size = 0; at = λ _. blank };
  beam_elements = record {
    size = 0;
    at = λ _. record { id = 0; node_ids = record { size = 0; at = λ _. 0 }; physical = 0 };
  };
  mass_elements = record { size = 0; at = λ _. record { id = 0; node_id = 0; m_star = λ _ _. 0 } };
  spring_elements = record {
    size = 0;
    at = λ _. record { id = 0; node_ids = (0, 0); stiffness = 0; undeformed_length = 0 };
  };
  constraints = record {
    size = 0;
    at = λ _. record {
      id = 0;
      type = none_type;
      base_node_id = 0;
      target_node_id = 0;
      control = none;
    };
  };
  mesh_connectivity = no_connectivity;
}

abbrev calls : List (Call ℕ ℕ)
calls =
    node (set_position (λ i. 7) ∷ [])
    ∷ node []
    ∷ node []
    ∷ beam_element (record { size = 2; at = λ i. i }) 9
    ∷ mass_element 1 (λ i j. 5)
    ∷ spring_element 1 2 3 4
    ∷ fixed 0
    ∷ rigid (1, 2)
    ∷ []

unfoldable pub perform_all : List (Call ℕ ℕ) → Model ℕ ℕ → Model ℕ ℕ
perform_all [] m = m
perform_all (call ∷ rest) m = perform_all rest (perform numbers call m).0

perform_all-Reachable :
    (l : List (Call ℕ ℕ)) (m : Model ℕ ℕ)
    → Reachable numbers m
    → Reachable numbers (perform_all l m)
unfolding perform_all
perform_all-Reachable [] m reached = reached
perform_all-Reachable (call ∷ rest) m reached =
    perform_all-Reachable rest (perform numbers call m).0 (added call reached)

abbrev pub built : Model ℕ ℕ
built = perform_all calls (new_model fresh_model (λ i. 9))

pub built-Reachable : Reachable numbers built
built-Reachable =
    perform_all-Reachable calls (new_model fresh_model (λ i. 9)) (start fresh_model (λ i. 9))

reachable-IsConsistent_example : IsConsistent built
reachable-IsConsistent_example = reachable-IsConsistent numbers built built-Reachable

perform-Extends_example : Extends built (perform numbers (fixed 2) built).0
perform-Extends_example = perform-Extends numbers (fixed 2) built built-Reachable

pub built_test :
    (built.nodes.size ≡ 3)
    × (built.beam_elements.size ≡ 1)
    × (built.constraints.size ≡ 2)
    × (get_connectivity beam_kind built.mesh_connectivity 0 ≡ some (0 ∷ 1 ∷ []))
unfolding perform_all perform add_node add_beam_element add_mass_element add_spring_element
    add_constraint add_fixed_bc add_rigid_joint_constraint new_model push_back
    add_beam_element_connectivity add_mass_element_connectivity add_spring_element_connectivity
    add_constraint_connectivity get_connectivity map_of lookup insert segment
built_test = (refl, refl, refl, refl)

built_beams :
    (element i j : ℕ)
    → element < built.beam_elements.size
    → i < j
    → j < (built.beam_elements.at element).node_ids.size
    → (built.beam_elements.at element).node_ids.at i
      ≢ (built.beam_elements.at element).node_ids.at j
unfolding perform_all perform add_node add_beam_element add_mass_element add_spring_element
    add_constraint add_fixed_bc add_rigid_joint_constraint new_model push_back write
built_beams zero i j lt before below = omega arith
built_beams (suc element) i j lt before below = absurd (omega arith)

built_springs :
    (element : ℕ)
    → element < built.spring_elements.size
    → (built.spring_elements.at element).node_ids.0 ≢ (built.spring_elements.at element).node_ids.1
unfolding perform_all perform add_node add_beam_element add_mass_element add_spring_element
    add_constraint add_fixed_bc add_rigid_joint_constraint new_model push_back write
built_springs zero lt = omega arith
built_springs (suc element) lt = absurd (omega arith)

pub built-HasApartNodes : HasApartNodes built
built-HasApartNodes = record { beams = built_beams; springs = built_springs }

abbrev pub built_solver : Connectivity
built_solver =
    create_system_with_solver numbers small_system fresh_views.counts fresh_views.nodes built

pub built_active : (built_solver.active_dofs 0 ≡ 6) × (built_solver.active_dofs 1 ≡ 6)
unfolding perform_all perform add_node add_beam_element add_mass_element add_spring_element
    add_constraint add_fixed_bc add_rigid_joint_constraint new_model push_back write
    create_system_with_solver create_solver create_system create_state create_elements create_beams
    create_beam create_masses create_springs copy_nodes_to_state copy_node copy_positions copy_rates
    new_state assign_dofs assemble_node_freedom_allocation_table allocation_table assemble_beam
    assemble_mass assemble_spring assemble_constraint atomic_or signature_or count_active_dofs
    count_loop parallel_for write2 construct_constraints construct_one node_dofs reduce_num_dofs
    num_rows_for_constraint get_number_of_nodes value compute_node_freedom_map_table
built_active = (refl, refl)

move_beam-once_example :
    let after = move_beam numbers (translate (λ i. 4)) 0 built in
    (after.nodes.at 0 ≡ move numbers (translate (λ i. 4)) (built.nodes.at 0))
    × (after.nodes.at 2 ≡ built.nodes.at 2)
    × (record after { nodes = record after.nodes { at = built.nodes.at } } ≡ built)
unfolding perform_all perform add_node add_beam_element add_mass_element add_spring_element
    add_constraint add_fixed_bc add_rigid_joint_constraint new_model push_back write
move_beam-once_example =
    move_beam-once numbers (translate (λ i. 4)) built 0 0 2 (λ j k in_j in_k apart. apart)
      (omega arith) (λ j lt. omega arith)

created_state_example :
    let node = built.nodes.at 0 in
    let s = create_state numbers three_nodes built.nodes in
    (s.num_system_nodes ≡ built.nodes.size)
    × (s.id 0 ≡ node.id)
    × (s.x0 0 4 ≡ node.x0 4)
    × (s.q 0 4 ≡ node.u 4)
    × (s.q_prev 0 4 ≡ node.u 4)
    × (s.v 0 5 ≡ node.v 5)
    × (s.vd 0 5 ≡ node.vd 5)
    × (s.a 0 5 ≡ node.vd 5)
    × (s.f 0 5 ≡ 0)
    × (s.x 0 4 ≡ global_position numbers node.u node.x0 4)
unfolding perform_all perform add_node add_beam_element add_mass_element add_spring_element
    add_constraint add_fixed_bc add_rigid_joint_constraint new_model push_back write
created_state_example =
    created_state numbers three_nodes built.nodes 0 4 5 (omega arith) (omega arith) (omega arith)
