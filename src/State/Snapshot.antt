-- ===== src/State/Snapshot.antt =====
-- src/state/state.hpp (the constructor), clone_state.hpp and copy_state_data.hpp: snapshots of the
-- state, and the way back to them.
use kynema_fmb.Base.{ℕ, ◌≡◌, refl, View2, ◌==◌, if◌then◌else◌}
use kynema_fmb.State.{State}

module _ {D : Type 0} (one : D) where
  -- Column 3 of a view of configurations, the scalar part of the rotation, set to one.
  abbrev identity_rotation : View2 D → View2 D
  identity_rotation q i j = if j == 3 then one else q i j

  -- The constructor. The first argument is what the new views hold before they are written.
  unfoldable pub new_state : State D → ℕ → State D
  new_state fresh num_system_nodes = record fresh {
    time_step = 0;
    num_system_nodes = num_system_nodes;
    q_prev = identity_rotation fresh.q_prev;
    q = identity_rotation fresh.q;
  }

  unfoldable pub clone_state : State D → State D → State D
  clone_state fresh old = record (new_state fresh old.num_system_nodes) {
    time_step = old.time_step;
    id = old.id;
    node_freedom_allocation_table = old.node_freedom_allocation_table;
    node_freedom_map_table = old.node_freedom_map_table;
    x0 = old.x0;
    x = old.x;
    q_delta = old.q_delta;
    q_prev = old.q_prev;
    q = old.q;
    v = old.v;
    vd = old.vd;
    a = old.a;
    f = old.f;
    tangent = old.tangent;
  }

unfoldable pub copy_state_data : {D : Type 0} → State D → State D → State D
copy_state_data copy old = record copy {
  time_step = old.time_step;
  x = old.x;
  q_delta = old.q_delta;
  q_prev = old.q_prev;
  q = old.q;
  v = old.v;
  vd = old.vd;
  a = old.a;
  f = old.f;
  tangent = old.tangent;
}

module _ {D : Type 0} (one : D) where
  -- If a state agrees with an old one in its nodes, their numbering and their initial positions,
  -- copying the data of a clone of the old one into it gives the old one.
  pub copy_state_data-clone_state :
      (fresh old changed : State D)
      → changed.num_system_nodes ≡ old.num_system_nodes
      → changed.id ≡ old.id
      → changed.node_freedom_allocation_table ≡ old.node_freedom_allocation_table
      → changed.active_dofs ≡ old.active_dofs
      → changed.node_freedom_map_table ≡ old.node_freedom_map_table
      → changed.x0 ≡ old.x0
      → copy_state_data changed (clone_state one fresh old) ≡ old
  unfolding copy_state_data clone_state
  copy_state_data-clone_state fresh old changed nodes ids table active map start = λ i. record old {
    num_system_nodes = nodes i;
    id = ids i;
    node_freedom_allocation_table = table i;
    active_dofs = active i;
    node_freedom_map_table = map i;
    x0 = start i;
  }

  -- A clone has the numbers of active degrees of freedom that its own view held before, and every
  -- other field of the original.
  pub clone_state-active_dofs :
      (fresh old : State D)
      → ((clone_state one fresh old).active_dofs ≡ fresh.active_dofs)
        × (record (clone_state one fresh old) { active_dofs = old.active_dofs } ≡ old)
  unfolding clone_state new_state
  clone_state-active_dofs fresh old = (refl, refl)
