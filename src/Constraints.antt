-- ===== src/Constraints.antt =====
-- src/constraints/constraint.hpp and constraints.hpp: the constraints of a system, their rows and the
-- degrees of freedom of their nodes. Axes, displacements, multipliers and residuals, which are
-- numbers of type double, are not part of it.
pub mod Rows
use kynema_fmb.Base.{
  ℕ, ◌+◌, ◌%◌, ◌^◌, ◌||◌, Option, View, View2, Vector, write, parallel_for, if◌then◌else◌,
}
use kynema_fmb.ConstraintType.{
  ConstraintType, value, is, fixed_bc, prescribed_bc, rigid_joint, revolute_joint, rotation_control,
  fixed_bc_3dofs, prescribed_bc_3dofs, rigid_joint_6dofs_to_3dofs, num_rows_for_constraint,
}
use kynema_fmb.Dof.Signature.{FreedomSignature, all_components, just_position, no_components}

-- `node_ids[0]` is the base node and `node_ids[1]` the target node; `control` is an address.
pub record Constraint : Type 0 where
  pub id : ℕ
  pub type : ConstraintType
  pub base_node_id : ℕ
  pub target_node_id : ℕ
  pub control : Option ℕ

pub record Constraints : Type 0 where
  pub num_constraints : ℕ
  pub num_dofs : ℕ
  pub type : View ConstraintType
  pub control_signal : View (Option ℕ)
  pub base_node_index : View ℕ
  pub target_node_index : View ℕ
  pub row_range : View (ℕ × ℕ)
  pub base_node_freedom_signature : View FreedomSignature
  pub target_node_freedom_signature : View FreedomSignature
  pub base_active_dofs : View ℕ
  pub target_active_dofs : View ℕ
  pub base_node_freedom_table : View2 ℕ
  pub target_node_freedom_table : View2 ℕ

-- `std::transform_reduce` from `0U`: the sum is kept in an `unsigned int`.
unfoldable pub reduce_num_dofs : Vector Constraint → ℕ
reduce_num_dofs cs =
    parallel_for cs.size (λ i sum. (sum + num_rows_for_constraint (cs.at i).type) % 2 ^ 32) 0

-- The signatures and the numbers of active degrees of freedom that a type gives to its two nodes:
-- base signature, target signature, base count, target count. A type with no branch leaves what the
-- views held.
abbrev pub NodeDofs : Type 0
NodeDofs = record {
  base : FreedomSignature;
  target : FreedomSignature;
  base_dofs : ℕ;
  target_dofs : ℕ;
}

unfoldable pub node_dofs : ConstraintType → NodeDofs → NodeDofs
unfolding value
node_dofs t fresh =
    if is t fixed_bc || is t prescribed_bc
    then record { base = no_components; target = all_components; base_dofs = 0; target_dofs = 6 }
    else (if is t rigid_joint || is t revolute_joint || is t rotation_control
        then record {
          base = all_components;
          target = all_components;
          base_dofs = 6;
          target_dofs = 6;
        }
        else (if is t fixed_bc_3dofs || is t prescribed_bc_3dofs
            then record {
              base = no_components;
              target = just_position;
              base_dofs = 0;
              target_dofs = 3;
            }
            else (if is t rigid_joint_6dofs_to_3dofs
                then record {
                  base = all_components;
                  target = just_position;
                  base_dofs = 6;
                  target_dofs = 3;
                }
                else fresh)))

-- One round of the constructor's loop, on the views so far and `start_row`.
unfoldable pub construct_one : Vector Constraint → ℕ → Constraints × ℕ → Constraints × ℕ
construct_one cs i (c, start_row) =
    let constraint = cs.at i in
    let d = node_dofs constraint.type (record {
      base = c.base_node_freedom_signature i;
      target = c.target_node_freedom_signature i;
      base_dofs = c.base_active_dofs i;
      target_dofs = c.target_active_dofs i;
    }) in
    let n_rows = num_rows_for_constraint constraint.type in
    (
      record c {
        type = write c.type i constraint.type;
        control_signal = write c.control_signal i constraint.control;
        base_node_index = write c.base_node_index i constraint.base_node_id;
        target_node_index = write c.target_node_index i constraint.target_node_id;
        row_range = write c.row_range i (start_row, start_row + n_rows);
        base_node_freedom_signature = write c.base_node_freedom_signature i d.base;
        target_node_freedom_signature = write c.target_node_freedom_signature i d.target;
        base_active_dofs = write c.base_active_dofs i d.base_dofs;
        target_active_dofs = write c.target_active_dofs i d.target_dofs;
      },
      start_row + n_rows,
    )

-- The first argument is what the views hold before the constructor writes them.
unfoldable pub construct_constraints : Constraints → Vector Constraint → Constraints
construct_constraints fresh cs =
    (parallel_for cs.size (construct_one cs)
      (record fresh { num_constraints = cs.size; num_dofs = reduce_num_dofs cs }, 0)).0
