-- ===== src/State/NextState.antt =====
-- src/state/calculate_next_state.hpp, as src/step/predict_next_state.hpp calls it: the first guess of
-- a time step. The operations on `double` are parameters, and so is the kernel CalculateDisplacement.
use kynema_fmb.Base.{
  ℕ, suc, ◌<◌, ◌≡◌, refl, ap, ◌∙◌, View2, write2, write2_row, write2_column, parallel_for,
  parallel_for_once, parallel_for_keep, ==_refl,
}
use kynema_fmb.State.{State}

-- The operations, and the parameters of the step.
pub record NextStateOps (D : Type 0) : Type 0 where
  pub add : D → D → D
  pub sub : D → D → D
  pub mul : D → D → D
  pub div : D → D → D
  pub zero_ : D
  pub half : D
  pub one : D
  pub h : D
  pub alpha_f : D
  pub alpha_m : D
  pub beta : D
  pub gamma : D

module _ {D : Type 0} (p : NextStateOps D) where
  -- One round of the loop over the components of a node, its writes in the order of the code.
  unfoldable pub calculate_component : ℕ → ℕ → State D → State D
  calculate_component node component state =
      let v_p = state.v node component in
      let vd_p = state.vd node component in
      let a_p = state.a node component in
      let a : View2 D =
        write2 state.a node component
          (p.div (p.sub (p.mul p.alpha_f vd_p) (p.mul p.alpha_m a_p)) (p.sub p.one p.alpha_m)) in
      record state {
        vd = write2 state.vd node component p.zero_;
        a = a;
        v = write2 state.v node component (
            p.add (p.add v_p (p.mul (p.mul p.h (p.sub p.one p.gamma)) a_p))
              (p.mul (p.mul p.gamma p.h) (a node component)));
        q_delta = write2 state.q_delta node component (
            p.add (p.add v_p (p.mul (p.mul (p.sub p.half p.beta) p.h) a_p))
              (p.mul (p.mul p.beta p.h) (a node component)));
      }

  unfoldable pub calculate_next_state : ℕ → State D → State D
  calculate_next_state node state = parallel_for 6 (calculate_component node) state

  -- `displace` is the kernel of a node: from the increments and the displacements before.
  unfoldable pub predict_next_state :
      (ℕ → View2 D → View2 D → View2 D → View2 D) → ℕ → State D → State D
  predict_next_state displace num_nodes state =
      let kept = record state { q_prev = state.q } in
      let next = parallel_for num_nodes calculate_next_state kept in
      record next {
        q = parallel_for num_nodes (λ node q. displace node next.q_delta next.q_prev q) next.q;
        time_step = suc next.time_step;
      }

  -- The values of one component of a node.
  pub record Motion : Type 0 where
    pub q_delta : D
    pub v : D
    pub vd : D
    pub a : D

  abbrev pub motion_of : ℕ → ℕ → State D → Motion
  motion_of node component s = record {
    q_delta = s.q_delta node component;
    v = s.v node component;
    vd = s.vd node component;
    a = s.a node component;
  }

  -- The formulas of the generalised alpha method.
  abbrev pub predicted : Motion → Motion
  predicted m =
      let a = p.div (p.sub (p.mul p.alpha_f m.vd) (p.mul p.alpha_m m.a)) (p.sub p.one p.alpha_m) in
      record {
        q_delta =
            p.add (p.add m.v (p.mul (p.mul (p.sub p.half p.beta) p.h) m.a))
              (p.mul (p.mul p.beta p.h) a);
        v =
            p.add (p.add m.v (p.mul (p.mul p.h (p.sub p.one p.gamma)) m.a))
              (p.mul (p.mul p.gamma p.h) a);
        vd = p.zero_;
        a = a;
      }

  motion_eq :
      {m m' : Motion} → m.q_delta ≡ m'.q_delta → m.v ≡ m'.v → m.vd ≡ m'.vd → m.a ≡ m'.a → m ≡ m'
  motion_eq e f g h = λ i. record { q_delta = e i; v = f i; vd = g i; a = h i }

  component_self :
      (node component : ℕ) (s : State D)
      → motion_of node component (calculate_component node component s)
        ≡ predicted (motion_of node component s)
  unfolding calculate_component write2
  component_self node component s = rw (==_refl node, ==_refl component)

  component_other :
      (k node c component : ℕ) (s : State D)
      → ((view : View2 D) (x : D) → write2 view k c x node component ≡ view node component)
      → motion_of node component (calculate_component k c s) ≡ motion_of node component s
  unfolding calculate_component
  component_other k node c component s keep =
      motion_eq (keep s.q_delta _) (keep s.v _) (keep s.vd _) (keep s.a _)

  -- What the kernels do not write.
  unchanged :
      {B : Type 0} (f : State D → B) (n : ℕ) (s : State D)
      → ((node c : ℕ) (t : State D) → f (calculate_component node c t) ≡ f t)
      → f (parallel_for n calculate_next_state s) ≡ f s
  unfolding calculate_next_state
  unchanged f n s same =
      parallel_for_keep (λ t. f t ≡ f s) n calculate_next_state s
        (λ k t below q.
          parallel_for_keep (λ u. f u ≡ f s) 6 (calculate_component k) t
            (λ c u under r. same k c u ∙ r) q)
        refl

  calculated :
      (n node component : ℕ) (s : State D)
      → node < n
      → component < 6
      → motion_of node component (parallel_for n calculate_next_state s)
        ≡ predicted (motion_of node component s)
  unfolding calculate_next_state
  calculated n node component s lt within =
      parallel_for_once (motion_of node component) predicted n node calculate_next_state s lt
        (λ t.
          parallel_for_once (motion_of node component) predicted 6 component
            (calculate_component node) t within (component_self node component)
            (λ c u below ne.
              component_other node node c component u
                (λ view x. write2_column view node c component x ne)))
        (λ k t below ne.
          parallel_for_keep (λ u. motion_of node component u ≡ motion_of node component t) 6
            (calculate_component k) t
            (λ c u under q.
              component_other k node c component u
                (λ view x. write2_row view k c node component x ne)
              ∙ q)
            refl)

  -- After PredictNextState over `n` nodes, every component below six of each of them has the
  -- acceleration, velocity and increment that the formulas of the generalised alpha method give
  -- from its values before the call, and zero in `vd`; `q_prev` is `q` from before, `q` is what
  -- the kernel of displacements makes of it with the new increments, and `time_step` is one more.
  pub predict_next_state_lem :
      (displace : ℕ → View2 D → View2 D → View2 D → View2 D) (n node component : ℕ) (s : State D)
      → node < n
      → component < 6
      → let after = predict_next_state displace n s in
        (motion_of node component after ≡ predicted (motion_of node component s))
        × (after.q_prev ≡ s.q)
        × (after.q ≡ parallel_for n (λ k q. displace k after.q_delta s.q q) s.q)
        × (after.time_step ≡ suc s.time_step)
  unfolding predict_next_state calculate_component
  predict_next_state_lem displace n node component s lt within =
      let kept = record s { q_prev = s.q } in
      let next = parallel_for n calculate_next_state kept in
      let prev : next.q_prev ≡ s.q = unchanged (λ t. t.q_prev) n kept (λ k c t. refl) in
      (
        calculated n node component kept lt within,
        prev,
        ap (λ (view : View2 D). parallel_for n (λ k q. displace k next.q_delta view q) next.q) prev
            ∙ ap (λ (view : View2 D). parallel_for n (λ k q. displace k next.q_delta s.q q) view)
                (unchanged (λ t. t.q) n kept (λ k c t. refl)),
        ap suc (unchanged (λ t. t.time_step) n kept (λ k c t. refl)),
      )
