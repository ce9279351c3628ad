-- ===== src/Model/State.antt =====
-- src/model/copy_nodes_to_state.hpp, src/state/update_global_position.hpp and CreateState of
-- src/model/model.hpp: the state that the nodes of a model start with.
pub mod Rows
pub mod Initial
use kynema_fmb.Base.{ℕ, View, View2, Vector, ◌==◌, if◌then◌else◌, write, write2, parallel_for}
use kynema_fmb.State.{State}
use kynema_fmb.State.Snapshot.{new_state}
use kynema_fmb.Model.Nodes.{Geometry, Node, orientation}

-- One round of the loop over the nodes: the two loops over the components, then the number.
module _ {D : Type 0} where
  unfoldable pub copy_positions : Node D → ℕ → State D → State D
  copy_positions node node_index = parallel_for 7 (λ component (s : State D). record s {
    x0 = write2 s.x0 node_index component (node.x0 component);
    q = write2 s.q node_index component (node.u component);
  })

  unfoldable pub copy_rates : Node D → ℕ → State D → State D
  copy_rates node node_index = parallel_for 6 (λ component (s : State D). record s {
    v = write2 s.v node_index component (node.v component);
    vd = write2 s.vd node_index component (node.vd component);
  })

  unfoldable pub copy_node : Vector (Node D) → ℕ → State D → State D
  copy_node nodes node_index state =
      let node = nodes.at node_index in
      let copied = copy_rates node node_index (copy_positions node node_index state) in
      record copied { id = write copied.id node_index node.id }

module _ {D : Type 0} (g : Geometry D) where
  -- `QuaternionCompose` of src/math/quaternion_operations.hpp.
  unfoldable pub quaternion_compose : View D → View D → View D
  quaternion_compose q1 q2 i =
      if i == 0
      then g.sub (g.sub (g.sub (g.mul (q1 0) (q2 0)) (g.mul (q1 1) (q2 1))) (g.mul (q1 2) (q2 2)))
          (g.mul (q1 3) (q2 3))
      else (if i == 1
          then g.sub
              (g.add (g.add (g.mul (q1 0) (q2 1)) (g.mul (q1 1) (q2 0))) (g.mul (q1 2) (q2 3)))
              (g.mul (q1 3) (q2 2))
          else (if i == 2
              then g.add
                  (g.add (g.sub (g.mul (q1 0) (q2 2)) (g.mul (q1 1) (q2 3))) (g.mul (q1 2) (q2 0)))
                  (g.mul (q1 3) (q2 1))
              else g.add
                  (g.sub (g.add (g.mul (q1 0) (q2 3)) (g.mul (q1 1) (q2 2))) (g.mul (q1 2) (q2 1)))
                  (g.mul (q1 3) (q2 0))))

  -- The kernel for one node, on the view of the positions.
  unfoldable pub update_global_position : View2 D → View2 D → ℕ → View2 D → View2 D
  update_global_position q x0 node x =
      let node_x = quaternion_compose (orientation (q node)) (orientation (x0 node)) in
      let moved =
        write2
          (write2 (write2 x node 0 (g.add (x0 node 0) (q node 0))) node 1
            (g.add (x0 node 1) (q node 1)))
          node 2 (g.add (x0 node 2) (q node 2)) in
      write2 (write2 (write2 (write2 moved node 3 (node_x 0)) node 4 (node_x 1)) node 5 (node_x 2))
        node 6 (node_x 3)

  unfoldable pub copy_nodes_to_state : State D → Vector (Node D) → State D
  copy_nodes_to_state state nodes =
      let copied = parallel_for nodes.size (copy_node nodes) state in
      record copied {
        a = copied.vd;
        f = λ node component. g.zero_value;
        q_prev = copied.q;
        x =
            parallel_for copied.num_system_nodes (update_global_position copied.q copied.x0)
              copied.x;
      }

  unfoldable pub create_state : State D → Vector (Node D) → State D
  create_state fresh nodes = copy_nodes_to_state (new_state g.one fresh nodes.size) nodes
