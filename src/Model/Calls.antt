-- ===== src/Model/Calls.antt =====
-- src/model/model.hpp: the sequences of calls that build a model. `GetNode` and `GetMeshConnectivity`,
-- which hand out references through which anything can be written, are not among the calls.
pub mod Consistent
pub mod Invariant
pub mod Kept
use kynema_fmb.Base.{ℕ, List, Option, View, View2, Vector}
use kynema_fmb.Model.Nodes.{Geometry, Setting, Motion}
use kynema_fmb.Model.Building.{
  Model, new_model, add_node, add_beam_element, add_mass_element, add_spring_element, add_fixed_bc,
  add_prescribed_bc, add_rigid_joint_constraint, add_revolute_joint_constraint,
  add_rotation_control, add_fixed_bc_3dofs, add_prescribed_bc_3dofs, add_rigid_joint_6dofs_to_3dofs,
  move_beam,
}

-- The calls that return the number of what they added.
pub data Call (D P : Type 0) : Type 0 where
  node : (settings : List (Setting D)) → Call D P
  beam_element : (node_ids : Vector ℕ) (physical : P) → Call D P
  mass_element : (node_id : ℕ) (mass : View2 D) → Call D P
  spring_element : (node1_id node2_id : ℕ) (stiffness undeformed_length : D) → Call D P
  fixed prescribed fixed_3dofs prescribed_3dofs : (node_id : ℕ) → Call D P
  rigid rigid_6dofs_to_3dofs : (node_ids : ℕ × ℕ) → Call D P
  revolute rotation : (node_ids : ℕ × ℕ) (control : Option ℕ) → Call D P

module _ {D P : Type 0} (g : Geometry D) where
  unfoldable pub perform : Call D P → Model D P → Model D P × ℕ
  perform (node settings) = add_node g settings
  perform (beam_element node_ids physical) = add_beam_element node_ids physical
  perform (mass_element node_id mass) = add_mass_element node_id mass
  perform (spring_element node1_id node2_id stiffness undeformed_length) =
      add_spring_element node1_id node2_id stiffness undeformed_length
  perform (fixed node_id) = add_fixed_bc node_id
  perform (prescribed node_id) = add_prescribed_bc node_id
  perform (fixed_3dofs node_id) = add_fixed_bc_3dofs node_id
  perform (prescribed_3dofs node_id) = add_prescribed_bc_3dofs node_id
  perform (rigid node_ids) = add_rigid_joint_constraint node_ids
  perform (rigid_6dofs_to_3dofs node_ids) = add_rigid_joint_6dofs_to_3dofs node_ids
  perform (revolute node_ids control) = add_revolute_joint_constraint node_ids control
  perform (rotation node_ids control) = add_rotation_control node_ids control

  -- The models that a sequence of calls leaves.
  pub data Reachable : Model D P → Type 0 where
    start : (fresh : Model D P) (gravity : View D) → Reachable (new_model fresh gravity)
    added : {m : Model D P} (call : Call D P) → Reachable m → Reachable (perform call m).0
    moved :
        {m : Model D P} (motion : Motion D) (beam : ℕ)
        → Reachable m
        → Reachable (move_beam g motion beam m)
