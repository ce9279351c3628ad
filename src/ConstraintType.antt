-- ===== src/ConstraintType.antt =====
-- src/constraints/constraint_type.hpp.
use kynema_fmb.Base.{ℕ, ◌+◌, Bool, ◌||◌, ◌==◌, if◌then◌else◌}

pub data ConstraintType : Type 0 where
  none_type fixed_bc prescribed_bc rigid_joint revolute_joint rotation_control : ConstraintType
  fixed_bc_3dofs prescribed_bc_3dofs rigid_joint_6dofs_to_3dofs : ConstraintType

-- The value that the enumeration gives to each name.
unfoldable pub value : ConstraintType → ℕ
value none_type = 0
value fixed_bc = 1
value prescribed_bc = 2
value rigid_joint = 3
value revolute_joint = 4
value rotation_control = 5
value fixed_bc_3dofs = 6
value prescribed_bc_3dofs = 7
value rigid_joint_6dofs_to_3dofs = 8

-- `a == b` on the enumeration.
abbrev pub is : ConstraintType → ConstraintType → Bool
unfolding value
is a b = value a == value b

-- `1U + static_cast<size_t>(has_two_nodes)`
unfoldable pub get_number_of_nodes : ConstraintType → ℕ
unfolding value
get_number_of_nodes t =
    let has_two_nodes =
      is t rigid_joint
      || is t revolute_joint
      || is t rotation_control
      || is t rigid_joint_6dofs_to_3dofs in
    1 + (if has_two_nodes then 1 else 0)

unfoldable pub num_cols_for_constraint : ConstraintType → ℕ
unfolding value
num_cols_for_constraint t =
    if is t fixed_bc_3dofs || is t prescribed_bc_3dofs
    then 3
    else (if is t rigid_joint_6dofs_to_3dofs
        then 9
        else (if is t revolute_joint
              || is t none_type
              || is t fixed_bc
              || is t prescribed_bc
              || is t rigid_joint
              || is t rotation_control
            then 12
            else 0))

unfoldable pub num_rows_for_constraint : ConstraintType → ℕ
unfolding value
num_rows_for_constraint t =
    if is t fixed_bc_3dofs || is t prescribed_bc_3dofs || is t rigid_joint_6dofs_to_3dofs
    then 3
    else (if is t revolute_joint
        then 5
        else (if is t none_type
              || is t fixed_bc
              || is t prescribed_bc
              || is t rigid_joint
              || is t rotation_control
            then 6
            else 0))
