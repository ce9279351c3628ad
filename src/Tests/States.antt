-- ===== src/Tests/States.antt =====
-- Snapshots and restart files of the state of three nodes.
use kynema_fmb.Base.{
  true, false, ◌+◌, ◌*◌, ◌/◌, ◌-◌, parallel_for, View2, ◌==◌, if◌then◌else◌, ℕ, ◌≡◌, inr, refl,
  arith,
}
use kynema_fmb.State.{State}
use kynema_fmb.State.Snapshot.{clone_state, copy_state_data, copy_state_data-clone_state}
use kynema_fmb.State.Restart.{write_state_to_file, read_state_from_file}
use kynema_fmb.State.Restart.RoundTrip.{restart_round_trip}
use kynema_fmb.Dof.Signature.{all_components, count_loop, count_active_dofs}
use kynema_fmb.State.Prediction.{
  Prediction, update_state_prediction, update_dynamic_prediction_lem, update_static_prediction_lem,
}
use kynema_fmb.State.NextState.{
  NextStateOps, predict_next_state, motion_of, predicted, predict_next_state_lem,
}
use kynema_fmb.Tests.Data.{three_nodes}

-- The state after a step.
abbrev stepped : State ℕ
stepped = record three_nodes { time_step = 1; x = λ i j. 5; v = λ i j. 7 }

copy_state_data-clone_state_example :
    copy_state_data stepped (clone_state 1 stepped three_nodes) ≡ three_nodes
copy_state_data-clone_state_example =
    copy_state_data-clone_state 1 stepped three_nodes stepped refl refl refl refl refl refl

restart_round_trip_example :
    (new : State ℕ) × (read_state_from_file
        (λ word. word)
        0
        three_nodes
        (write_state_to_file (λ n. n) stepped)
      ≡ inr new)
    × (new.x0 2 6 ≡ 0)
    × (new.x 2 6 ≡ 5)
    × (new.q_delta 2 3 ≡ 0)
    × (new.q_prev 2 6 ≡ 0)
    × (new.q 2 6 ≡ 0)
    × (new.v 2 3 ≡ 7)
    × (new.vd 2 3 ≡ 0)
    × (new.a 2 3 ≡ 0)
    × (new.f 2 3 ≡ 0)
    × (new.active_dofs ≡ three_nodes.active_dofs)
    × (new.node_freedom_map_table ≡ three_nodes.node_freedom_map_table)
restart_round_trip_example =
    restart_round_trip (λ n. n) (λ word. word) 0 stepped three_nodes 2 6 3 refl refl (omega arith)
      (omega arith) (omega arith)

abbrev natural_prediction : Prediction ℕ
natural_prediction = record {
  add = λ a b. a + b;
  mul = λ a b. a * b;
  div = λ a b. a / b;
  h = 2;
  beta_prime = 3;
  gamma_prime = 5;
}

-- Three nodes with six degrees of freedom each.
abbrev numbered : State ℕ
numbered = record three_nodes {
  node_freedom_allocation_table = λ i. all_components;
  node_freedom_map_table = λ i. 6 * i;
}

-- A kernel that adds the increments of a node to its displacements.
abbrev add_increments : ℕ → View2 ℕ → View2 ℕ → View2 ℕ → View2 ℕ
add_increments node delta prev q i j = if node == i then prev i j + delta i j else q i j

update_dynamic_prediction_lem_example :
    let after =
      update_state_prediction natural_prediction add_increments (λ i. i) true 3 numbered in
    (after.q_delta 2 4 ≡ 8) × (after.v 2 4 ≡ 80) × (after.vd 2 4 ≡ 48)
unfolding count_active_dofs count_loop
update_dynamic_prediction_lem_example =
    update_dynamic_prediction_lem natural_prediction add_increments (λ i. i) numbered 3 2 4
      (omega arith) (omega arith)

update_static_prediction_lem_example :
    let after =
      update_state_prediction natural_prediction add_increments (λ i. i) false 3 numbered in
    (after.q_delta 2 4 ≡ 8)
    × (after.q_delta 2 6 ≡ 0)
    × (after.q
        ≡ parallel_for 3 (λ k q. add_increments k after.q_delta numbered.q_prev q) numbered.q)
    × (record after { q_delta = numbered.q_delta; q = numbered.q } ≡ numbered)
unfolding count_active_dofs count_loop
update_static_prediction_lem_example =
    update_static_prediction_lem natural_prediction add_increments (λ i. i) numbered 3 2 4 6
      (omega arith) (omega arith) (omega arith)

abbrev natural_steps : NextStateOps ℕ
natural_steps = record {
  add = λ a b. a + b;
  sub = λ a b. a - b;
  mul = λ a b. a * b;
  div = λ a b. a / b;
  zero_ = 0;
  half = 1;
  one = 2;
  h = 2;
  alpha_f = 3;
  alpha_m = 1;
  beta = 1;
  gamma = 1;
}

predict_next_state_lem_example :
    let after = predict_next_state natural_steps add_increments 3 stepped in
    (motion_of natural_steps 2 4 after
      ≡ predicted natural_steps (motion_of natural_steps 2 4 stepped))
    × (after.q_prev ≡ stepped.q)
    × (after.q ≡ parallel_for 3 (λ k q. add_increments k after.q_delta stepped.q q) stepped.q)
    × (after.time_step ≡ 2)
predict_next_state_lem_example =
    predict_next_state_lem natural_steps add_increments 3 2 4 stepped (omega arith) (omega arith)
