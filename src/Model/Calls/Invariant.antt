-- ===== src/Model/Calls/Invariant.antt =====
-- src/model/model.hpp: the numbers and the mesh connectivity of every model that calls have built.
use kynema_fmb.Base.{
  ℕ, ◌≡◌, refl, ◌∙◌, ap, arith, List, [], ◌∷◌, Option, write, write_self, write_ne, push_back, ◌==◌,
  if◌then◌else◌, Bool-cases, inl, inr, ==_iff, subst, sym, View, parallel_for_keep,
}
use kynema_fmb.ConstraintType.{ConstraintType, get_number_of_nodes, value}
use kynema_fmb.Constraints.{Constraint}
use kynema_fmb.Model.Maps.{insert}
use kynema_fmb.Model.Mesh.{
  add_beam_element_connectivity, add_mass_element_connectivity, add_spring_element_connectivity,
  add_constraint_connectivity,
}
use kynema_fmb.Model.Nodes.{
  Geometry, Node, Setting, Motion, new_node, configure, configure_all, move,
}
use kynema_fmb.Model.Building.{
  BeamElement, MassElement, SpringElement, Model, new_model, add_node, add_beam_element,
  add_mass_element, add_spring_element, add_constraint, add_fixed_bc, add_prescribed_bc,
  add_rigid_joint_constraint, add_revolute_joint_constraint, add_rotation_control,
  add_fixed_bc_3dofs, add_prescribed_bc_3dofs, add_rigid_joint_6dofs_to_3dofs, move_beam,
}
use kynema_fmb.Model.Calls.{
  Call, node, beam_element, mass_element, spring_element, fixed, prescribed, fixed_3dofs,
  prescribed_3dofs, rigid, rigid_6dofs_to_3dofs, revolute, rotation, perform, Reachable, start,
  added, moved,
}
use kynema_fmb.Model.Calls.Consistent.{
  IsTracked, IsConsistent, beam_nodes_of, constraint_nodes_of, empty-IsTracked, push_back-IsTracked,
}

one_setting-id : {D : Type 0} (setting : Setting D) (n : Node D) → (configure setting n).id ≡ n.id
unfolding configure
one_setting-id (Setting.set_position p) n = refl
one_setting-id (Setting.set_displacement p) n = refl
one_setting-id (Setting.set_velocity p) n = refl
one_setting-id (Setting.set_acceleration p) n = refl
one_setting-id (Setting.set_elem_location location) n = refl

configure_all-id :
    {D : Type 0} (settings : List (Setting D)) (n : Node D) → (configure_all settings n).id ≡ n.id
unfolding configure_all
configure_all-id [] n = refl
configure_all-id (setting ∷ settings) n =
    configure_all-id settings (configure setting n) ∙ one_setting-id setting n

move-id :
    {D : Type 0} (g : Geometry D) (motion : Motion D) (n : Node D) → (move g motion n).id ≡ n.id
unfolding move
move-id g (Motion.translate d) n = refl
move-id g (Motion.rotate_about_point q p) n = refl
move-id g (Motion.set_velocity_about_point v p) n = refl
move-id g (Motion.set_acceleration_about_point a o p) n = refl

moved_node-id :
    {D : Type 0} (g : Geometry D) (motion : Motion D) (nodes : View (Node D)) (k i : ℕ)
    → (nodes i).id ≡ i
    → (write nodes k (move g motion (nodes k)) i).id ≡ i
moved_node-id g motion nodes k i same = elim (Bool-cases (k == i)) [
  | inl e ↦
      let here = (==_iff k i).0 e in
      subst (λ j. (write nodes k (move g motion (nodes k)) j).id ≡ j) here
        (ap (λ n. n.id) (write_self nodes k (move g motion (nodes k)))
          ∙ move-id g motion (nodes k)
          ∙ subst (λ j. (nodes j).id ≡ j) (sym here) same)
  | inr e ↦ ap (λ n. n.id) (write_ne nodes k i (move g motion (nodes k)) (ground arith)) ∙ same
]

module _ {D P : Type 0} (g : Geometry D) where
  -- A constraint added with the nodes that its type has.
  add_constraint-IsConsistent :
      (type : ConstraintType) (base target : ℕ) (control : Option ℕ) (connected : List ℕ)
      (m : Model D P)
      → (if get_number_of_nodes type == 2 then base ∷ target ∷ [] else target ∷ []) ≡ connected
      → IsConsistent m
      → IsConsistent (add_constraint type base target control connected m).0
  unfolding add_constraint constraint_nodes_of add_constraint_connectivity
  add_constraint-IsConsistent type base target control connected m same h = record {
    node_ids = h.node_ids;
    beams = h.beams;
    masses = h.masses;
    springs = h.springs;
    constraints =
        let added : Constraint = record {
          id = m.constraints.size;
          type = type;
          base_node_id = base;
          target_node_id = target;
          control = control;
        } in
        subst
          (λ nodes.
            IsTracked (λ (c : Constraint). c.id) constraint_nodes_of (push_back m.constraints added)
              (insert m.constraints.size nodes m.mesh_connectivity.constraints))
          same
          (push_back-IsTracked (λ (c : Constraint). c.id) constraint_nodes_of m.constraints
            m.mesh_connectivity.constraints added refl h.constraints);
  }

  perform-IsConsistent :
      (call : Call D P) (m : Model D P) → IsConsistent m → IsConsistent (perform g call m).0
  unfolding perform add_node add_beam_element add_mass_element add_spring_element
      add_beam_element_connectivity add_mass_element_connectivity add_spring_element_connectivity
      add_fixed_bc add_prescribed_bc add_rigid_joint_constraint add_revolute_joint_constraint
      add_rotation_control add_fixed_bc_3dofs add_prescribed_bc_3dofs add_rigid_joint_6dofs_to_3dofs
      push_back new_node get_number_of_nodes value beam_nodes_of
  perform-IsConsistent (node settings) m h = record {
    node_ids = λ i lt. elim (Bool-cases (m.nodes.size == i)) [
      | inl e ↦
          let new = configure_all settings (new_node g m.nodes.size) in
          subst (λ k. (write m.nodes.at m.nodes.size new k).id ≡ k) ((==_iff m.nodes.size i).0 e)
            (ap (λ (n : Node D). n.id) (write_self m.nodes.at m.nodes.size new)
              ∙ configure_all-id settings (new_node g m.nodes.size))
      | inr e ↦
          ap (λ (n : Node D). n.id)
            (write_ne m.nodes.at m.nodes.size i (configure_all settings (new_node g m.nodes.size))
              (ground arith))
          ∙ h.node_ids i (ground arith)
    ];
    beams = h.beams;
    masses = h.masses;
    springs = h.springs;
    constraints = h.constraints;
  }
  perform-IsConsistent (beam_element node_ids physical) m h = record {
    node_ids = h.node_ids;
    beams =
        push_back-IsTracked (λ (e : BeamElement P). e.id) beam_nodes_of m.beam_elements
          m.mesh_connectivity.beams
          (record { id = m.beam_elements.size; node_ids = node_ids; physical = physical }) refl
          h.beams;
    masses = h.masses;
    springs = h.springs;
    constraints = h.constraints;
  }
  perform-IsConsistent (mass_element node_id mass) m h = record {
    node_ids = h.node_ids;
    beams = h.beams;
    masses =
        push_back-IsTracked (λ (e : MassElement D). e.id) (λ (e : MassElement D). e.node_id ∷ [])
          m.mass_elements m.mesh_connectivity.masses
          (record { id = m.mass_elements.size; node_id = node_id; m_star = mass }) refl h.masses;
    springs = h.springs;
    constraints = h.constraints;
  }
  perform-IsConsistent (spring_element node1_id node2_id stiffness undeformed_length) m h = record {
    node_ids = h.node_ids;
    beams = h.beams;
    masses = h.masses;
    springs =
        push_back-IsTracked (λ (e : SpringElement D). e.id)
          (λ (e : SpringElement D). e.node_ids.0 ∷ e.node_ids.1 ∷ []) m.spring_elements
          m.mesh_connectivity.springs
          (record {
            id = m.spring_elements.size;
            node_ids = (node1_id, node2_id);
            stiffness = stiffness;
            undeformed_length = undeformed_length;
          })
          refl h.springs;
    constraints = h.constraints;
  }
  perform-IsConsistent (fixed n) m h = add_constraint-IsConsistent _ _ _ _ _ m refl h
  perform-IsConsistent (prescribed n) m h = add_constraint-IsConsistent _ _ _ _ _ m refl h
  perform-IsConsistent (fixed_3dofs n) m h = add_constraint-IsConsistent _ _ _ _ _ m refl h
  perform-IsConsistent (prescribed_3dofs n) m h = add_constraint-IsConsistent _ _ _ _ _ m refl h
  perform-IsConsistent (rigid ns) m h = add_constraint-IsConsistent _ _ _ _ _ m refl h
  perform-IsConsistent (rigid_6dofs_to_3dofs ns) m h =
      add_constraint-IsConsistent _ _ _ _ _ m refl h
  perform-IsConsistent (revolute ns control) m h = add_constraint-IsConsistent _ _ _ _ _ m refl h
  perform-IsConsistent (rotation ns control) m h = add_constraint-IsConsistent _ _ _ _ _ m refl h

  move_beam-IsConsistent :
      (motion : Motion D) (beam : ℕ) (m : Model D P)
      → IsConsistent m
      → IsConsistent (move_beam g motion beam m)
  unfolding move_beam
  move_beam-IsConsistent motion beam m h =
      let ids = (m.beam_elements.at beam).node_ids in
      record {
        node_ids = λ i lt.
            parallel_for_keep (λ (nodes : View (Node D)). (nodes i).id ≡ i) ids.size
              (λ k (nodes : View (Node D)).
                write nodes (ids.at k) (move g motion (nodes (ids.at k))))
              m.nodes.at (λ k t below same. moved_node-id g motion t (ids.at k) i same)
              (h.node_ids i lt);
        beams = h.beams;
        masses = h.masses;
        springs = h.springs;
        constraints = h.constraints;
      }

  -- In every model that the calls build: nodes, elements and constraints have their places as
  -- numbers, and the mesh connectivity has each element and each constraint with its nodes, as
  -- many for a constraint as its type says, and nothing else.
  pub reachable-IsConsistent : (m : Model D P) → Reachable g m → IsConsistent m
  unfolding new_model
  reachable-IsConsistent m (start fresh gravity) = record {
    node_ids = λ i lt. absurd (omega arith);
    beams = empty-IsTracked _ _ _ refl;
    masses = empty-IsTracked _ _ _ refl;
    springs = empty-IsTracked _ _ _ refl;
    constraints = empty-IsTracked _ _ _ refl;
  }
  reachable-IsConsistent m (added call before) =
      perform-IsConsistent call _ (reachable-IsConsistent _ before)
  reachable-IsConsistent m (moved motion beam before) =
      move_beam-IsConsistent motion beam _ (reachable-IsConsistent _ before)
