-- ===== src/Model/Building.antt =====
-- src/model/model.hpp: the class Model, the operations that add to it and those that move beams. The
-- sections, quadrature points and damping of a beam are one value of type `P`.
use kynema_fmb.Base.{
  ℕ, List, [], ◌∷◌, Option, none, View, View2, Vector, write, push_back, parallel_for,
}
use kynema_fmb.ConstraintType.{
  ConstraintType, fixed_bc, prescribed_bc, rigid_joint, revolute_joint, rotation_control,
  fixed_bc_3dofs, prescribed_bc_3dofs, rigid_joint_6dofs_to_3dofs,
}
use kynema_fmb.Constraints.{Constraint}
use kynema_fmb.Model.Nodes.{Geometry, Node, Setting, Motion, new_node, configure_all, move}
use kynema_fmb.Model.Mesh.{
  MeshConnectivity, no_connectivity, add_beam_element_connectivity, add_mass_element_connectivity,
  add_spring_element_connectivity, add_constraint_connectivity,
}

pub record BeamElement (P : Type 0) : Type 0 where
  pub id : ℕ
  pub node_ids : Vector ℕ
  pub physical : P

pub record MassElement (D : Type 0) : Type 0 where
  pub id : ℕ
  pub node_id : ℕ
  pub m_star : View2 D

pub record SpringElement (D : Type 0) : Type 0 where
  pub id : ℕ
  pub node_ids : ℕ × ℕ
  pub stiffness : D
  pub undeformed_length : D

pub record Model (D P : Type 0) : Type 0 where
  pub gravity : View D
  pub nodes : Vector (Node D)
  pub beam_elements : Vector (BeamElement P)
  pub mass_elements : Vector (MassElement D)
  pub spring_elements : Vector (SpringElement D)
  pub constraints : Vector Constraint
  pub mesh_connectivity : MeshConnectivity

unfoldable pub invalid_node_id : ℕ
invalid_node_id = 0

module _ {D P : Type 0} where
  unfoldable pub add_beam_element : Vector ℕ → P → Model D P → Model D P × ℕ
  add_beam_element node_ids physical m =
      let elem_id = m.beam_elements.size in
      (
        record m {
          beam_elements =
              push_back m.beam_elements
                (record { id = elem_id; node_ids = node_ids; physical = physical });
          mesh_connectivity = add_beam_element_connectivity elem_id node_ids m.mesh_connectivity;
        },
        elem_id,
      )

  unfoldable pub add_mass_element : ℕ → View2 D → Model D P → Model D P × ℕ
  add_mass_element node_id mass m =
      let elem_id = m.mass_elements.size in
      (
        record m {
          mass_elements =
              push_back m.mass_elements (record { id = elem_id; node_id = node_id; m_star = mass });
          mesh_connectivity = add_mass_element_connectivity elem_id node_id m.mesh_connectivity;
        },
        elem_id,
      )

  unfoldable pub add_spring_element : ℕ → ℕ → D → D → Model D P → Model D P × ℕ
  add_spring_element node1_id node2_id stiffness undeformed_length m =
      let elem_id = m.spring_elements.size in
      (
        record m {
          spring_elements = push_back m.spring_elements (record {
            id = elem_id;
            node_ids = (node1_id, node2_id);
            stiffness = stiffness;
            undeformed_length = undeformed_length;
          });
          mesh_connectivity =
              add_spring_element_connectivity elem_id (node1_id, node2_id) m.mesh_connectivity;
        },
        elem_id,
      )

  -- What the eight functions that add a constraint share.
  unfoldable pub add_constraint :
      ConstraintType → ℕ → ℕ → Option ℕ → List ℕ → Model D P → Model D P × ℕ
  add_constraint type base target control connected m =
      let id = m.constraints.size in
      (
        record m {
          constraints = push_back m.constraints (record {
            id = id;
            type = type;
            base_node_id = base;
            target_node_id = target;
            control = control;
          });
          mesh_connectivity = add_constraint_connectivity id connected m.mesh_connectivity;
        },
        id,
      )

  unfoldable pub add_fixed_bc : ℕ → Model D P → Model D P × ℕ
  add_fixed_bc node_id = add_constraint fixed_bc invalid_node_id node_id none (node_id ∷ [])

  unfoldable pub add_prescribed_bc : ℕ → Model D P → Model D P × ℕ
  add_prescribed_bc node_id =
      add_constraint prescribed_bc invalid_node_id node_id none (node_id ∷ [])

  unfoldable pub add_rigid_joint_constraint : ℕ × ℕ → Model D P → Model D P × ℕ
  add_rigid_joint_constraint (first, second) =
      add_constraint rigid_joint first second none (first ∷ second ∷ [])

  unfoldable pub add_revolute_joint_constraint : ℕ × ℕ → Option ℕ → Model D P → Model D P × ℕ
  add_revolute_joint_constraint (first, second) torque =
      add_constraint revolute_joint first second torque (first ∷ second ∷ [])

  unfoldable pub add_rotation_control : ℕ × ℕ → Option ℕ → Model D P → Model D P × ℕ
  add_rotation_control (first, second) control =
      add_constraint rotation_control first second control (first ∷ second ∷ [])

  unfoldable pub add_fixed_bc_3dofs : ℕ → Model D P → Model D P × ℕ
  add_fixed_bc_3dofs node_id =
      add_constraint fixed_bc_3dofs invalid_node_id node_id none (node_id ∷ [])

  unfoldable pub add_prescribed_bc_3dofs : ℕ → Model D P → Model D P × ℕ
  add_prescribed_bc_3dofs node_id =
      add_constraint prescribed_bc_3dofs invalid_node_id node_id none (node_id ∷ [])

  unfoldable pub add_rigid_joint_6dofs_to_3dofs : ℕ × ℕ → Model D P → Model D P × ℕ
  add_rigid_joint_6dofs_to_3dofs (first, second) =
      add_constraint rigid_joint_6dofs_to_3dofs first second none (first ∷ second ∷ [])

  -- The argument `fresh` says what the memory of the empty vectors held.
  unfoldable pub new_model : Model D P → View D → Model D P
  new_model fresh gravity = record {
    gravity = gravity;
    nodes = record fresh.nodes { size = 0 };
    beam_elements = record fresh.beam_elements { size = 0 };
    mass_elements = record fresh.mass_elements { size = 0 };
    spring_elements = record fresh.spring_elements { size = 0 };
    constraints = record fresh.constraints { size = 0 };
    mesh_connectivity = no_connectivity;
  }

module _ {D P : Type 0} (g : Geometry D) where
  -- `AddNode`, the setters of the builder that it returns, and `Build`.
  unfoldable pub add_node : List (Setting D) → Model D P → Model D P × ℕ
  add_node settings m =
      let node = configure_all settings (new_node g m.nodes.size) in
      (record m { nodes = push_back m.nodes node }, node.id)

  -- `TranslateBeam`, `RotateBeamAboutPoint` and the two like them.
  unfoldable pub move_beam : Motion D → ℕ → Model D P → Model D P
  move_beam motion beam_elem_id m =
      let node_ids = (m.beam_elements.at beam_elem_id).node_ids in
      record m {
        nodes = record m.nodes {
          at =
              parallel_for node_ids.size
                (λ i (nodes : View (Node D)).
                  write nodes (node_ids.at i) (move g motion (nodes (node_ids.at i))))
                m.nodes.at;
        };
      }
