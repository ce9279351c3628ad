-- ===== src/State/Prediction.antt =====
-- src/state/update_static_prediction.hpp and update_dynamic_prediction.hpp, as
-- src/step/update_state_prediction.hpp calls them: the solution is added to the state, node by node.
-- The operations on `double` are parameters.
use kynema_fmb.Base.{
  ℕ, ◌+◌, ◌≤◌, ◌<◌, ◌≡◌, ◌≢◌, refl, ap, ◌∙◌, arith, Bool, true, false, View, View2, write2,
  write2_self, write2_row, write2_column, parallel_for, parallel_for_once, parallel_for_keep,
  if◌then◌else◌, ◌⊎◌, inl, inr, subst, ◌==◌, ==_iff, Bool-cases,
}
use kynema_fmb.Dof.Signature.{FreedomSignature, count_active_dofs}
use kynema_fmb.State.{State}

-- The operations, and the parameters of the step.
pub record Prediction (D : Type 0) : Type 0 where
  pub add : D → D → D
  pub mul : D → D → D
  pub div : D → D → D
  pub h : D
  pub beta_prime : D
  pub gamma_prime : D

-- `view(node, component) += amount`
unfoldable pub add_to : {D : Type 0} → Prediction D → View2 D → ℕ → ℕ → D → View2 D
add_to p view node component amount =
    write2 view node component (p.add (view node component) amount)

-- The kernels, with the views that they only read.
module _ {D : Type 0} (p : Prediction D) (table : View FreedomSignature) (map : View ℕ)
    (x_delta : View D) where
  unfoldable pub update_static_prediction : ℕ → State D → State D
  update_static_prediction node state =
      let num_dof = count_active_dofs (table node) in
      let first_dof = map node in
      parallel_for num_dof
        (λ component s.
          let delta = x_delta (first_dof + component) in
          record s { q_delta = add_to p s.q_delta node component (p.div delta p.h) })
        state

  unfoldable pub update_dynamic_prediction : ℕ → State D → State D
  update_dynamic_prediction node state =
      let num_dof = count_active_dofs (table node) in
      let first_dof = map node in
      parallel_for num_dof
        (λ component s.
          let delta = x_delta (first_dof + component) in
          record s {
            q_delta = add_to p s.q_delta node component (p.div delta p.h);
            v = add_to p s.v node component (p.mul p.gamma_prime delta);
            vd = add_to p s.vd node component (p.mul p.beta_prime delta);
          })
        state

-- The kernels of the prediction, by the kind of the solve.
unfoldable pub update_prediction :
    {D : Type 0} → Prediction D → View D → Bool → ℕ → State D → State D
update_prediction p x is_dynamic_solve num_system_nodes state =
    let table = state.node_freedom_allocation_table in
    let map = state.node_freedom_map_table in
    if is_dynamic_solve
    then parallel_for num_system_nodes (update_dynamic_prediction p table map x) state
    else parallel_for num_system_nodes (update_static_prediction p table map x) state

-- `displace` is the kernel CalculateDisplacement of a node, which computes rotations: from the
-- increments and the displacements before.
unfoldable pub update_state_prediction :
    {D : Type 0}
    → Prediction D
    → (ℕ → View2 D → View2 D → View2 D → View2 D)
    → View D
    → Bool
    → ℕ
    → State D
    → State D
update_state_prediction p displace x is_dynamic_solve num_system_nodes state =
    let next = update_prediction p x is_dynamic_solve num_system_nodes state in
    record next {
      q = parallel_for num_system_nodes (λ node q. displace node next.q_delta next.q_prev q) next.q;
    }

==_apart : (a b : ℕ) → a == b ≡ false → a ≢ b
==_apart a b e = ground arith

-- A kernel for another node leaves an entry, and the kernel for the node adds to it.
module _ {D : Type 0} (p : Prediction D) where
  add_to_self :
      (view : View2 D) (node component : ℕ) (amount : D)
      → add_to p view node component amount node component ≡ p.add (view node component) amount
  unfolding add_to
  add_to_self view node component amount = write2_self view node component _

  add_to_other :
      (view : View2 D) (node other c component : ℕ) (amount : D)
      → ((node ≢ other) ⊎ (c ≢ component))
      → add_to p view node c amount other component ≡ view other component
  unfolding add_to
  add_to_other view node other c component amount (inl ne) =
      write2_row view node c other component _ ne
  add_to_other view node other c component amount (inr ne) = elim (Bool-cases (node == other)) [
    | inl e ↦
        subst (λ n. write2 view node c (p.add (view node c) amount) n component ≡ view n component)
          ((==_iff node other).0 e) (write2_column view node c component _ ne)
    | inr e ↦ write2_row view node c other component _ (==_apart node other e)
  ]

-- The views of the state that a prediction changes.
module _ {D : Type 0} (p : Prediction D) (displace : ℕ → View2 D → View2 D → View2 D → View2 D)
    (x : View D) (state : State D) (n node component : ℕ) where
  abbrev delta : D
  delta = x (state.node_freedom_map_table node + component)

  -- After UpdateStatePrediction of a dynamic solve over `n` nodes, every active component of each
  -- of them has in `q_delta`, `v` and `vd` its value from before plus the multiple of the one
  -- entry of the solution that has its number: divided by `h`, times `gamma_prime`, times
  -- `beta_prime`.
  pub update_dynamic_prediction_lem :
      node < n
      → component < count_active_dofs (state.node_freedom_allocation_table node)
      → let after = update_state_prediction p displace x true n state in
        (after.q_delta node component ≡ p.add (state.q_delta node component) (p.div delta p.h))
        × (after.v node component ≡ p.add (state.v node component) (p.mul p.gamma_prime delta))
        × (after.vd node component ≡ p.add (state.vd node component) (p.mul p.beta_prime delta))
  unfolding update_state_prediction update_prediction update_dynamic_prediction
  update_dynamic_prediction_lem lt within = (
    once (λ s. s.q_delta) (λ d. p.div d p.h) (λ s node c d. refl),
    once (λ s. s.v) (λ d. p.mul p.gamma_prime d) (λ s node c d. refl),
    once (λ s. s.vd) (λ d. p.mul p.beta_prime d) (λ s node c d. refl),
  )
    where
      round : ℕ → ℕ → State D → State D
      round k c s =
          let d = x (state.node_freedom_map_table k + c) in
          record s {
            q_delta = add_to p s.q_delta k c (p.div d p.h);
            v = add_to p s.v k c (p.mul p.gamma_prime d);
            vd = add_to p s.vd k c (p.mul p.beta_prime d);
          }

      once :
          (view : State D → View2 D) (amount : D → D)
          → ((s : State D) (k c : ℕ) (d : D)
              → view (record s {
                q_delta = add_to p s.q_delta k c (p.div d p.h);
                v = add_to p s.v k c (p.mul p.gamma_prime d);
                vd = add_to p s.vd k c (p.mul p.beta_prime d);
              })
                ≡ add_to p (view s) k c (amount d))
          → view
              (parallel_for n
                (λ k.
                  parallel_for
                    (count_active_dofs (state.node_freedom_allocation_table k))
                    (round k))
                state)
              node
              component
            ≡ p.add (view state node component) (amount delta)
      once view amount same =
          parallel_for_once (λ s. view s node component) (λ a. p.add a (amount delta)) n node _
            state lt
            (λ s.
              parallel_for_once (λ t. view t node component) (λ a. p.add a (amount delta))
                (count_active_dofs (state.node_freedom_allocation_table node)) component
                (round node) s within
                (λ t.
                  ap (λ (u : View2 D). u node component) (same t node component delta)
                  ∙ add_to_self p (view t) node component (amount delta))
                (λ c t below ne.
                  ap (λ (u : View2 D). u node component) (same t node c _)
                  ∙ add_to_other p (view t) node node c component _ (inr ne)))
            (λ k s below ne.
              parallel_for_keep (λ t. view t node component ≡ view s node component)
                (count_active_dofs (state.node_freedom_allocation_table k)) (round k) s
                (λ c t under q.
                  ap (λ (u : View2 D). u node component) (same t k c _)
                  ∙ add_to_other p (view t) k node c component _ (inl ne)
                  ∙ q)
                refl)

  static_kept :
      {B : Type 0} (f : State D → B)
      → ((t : State D) (view : View2 D) → f (record t { q_delta = view }) ≡ f t)
      → f (update_prediction p x false n state) ≡ f state
  unfolding update_prediction update_static_prediction
  static_kept f same =
      parallel_for_keep (λ (t : State D). f t ≡ f state) n _ state
        (λ k s below r.
          parallel_for_keep (λ (t : State D). f t ≡ f state)
            (count_active_dofs (state.node_freedom_allocation_table k)) _ s
            (λ c t under q. same t _ ∙ q) r)
        refl

  static_inactive :
      count_active_dofs (state.node_freedom_allocation_table node) ≤ component
      → (update_prediction p x false n state).q_delta node component ≡ state.q_delta node component
  unfolding update_prediction update_static_prediction
  static_inactive beyond =
      parallel_for_keep (λ (t : State D). t.q_delta node component ≡ state.q_delta node component) n
        _ state
        (λ k s below r.
          parallel_for_keep
            (λ (t : State D). t.q_delta node component ≡ state.q_delta node component)
            (count_active_dofs (state.node_freedom_allocation_table k)) _ s
            (λ c t under q. add_to_other p t.q_delta k node c component _ (apart k c under) ∙ q) r)
        refl
    where
      apart :
          (k c : ℕ)
          → c < count_active_dofs (state.node_freedom_allocation_table k)
          → (k ≢ node) ⊎ (c ≢ component)
      apart k c under = elim (Bool-cases (k == node)) [
        | inl e ↦
            let count =
              ap (λ i. count_active_dofs (state.node_freedom_allocation_table i))
                ((==_iff k node).0 e) in
            inr (ground arith)
        | inr e ↦ inl (==_apart k node e)
      ]

  static_active :
      node < n
      → component < count_active_dofs (state.node_freedom_allocation_table node)
      → (update_prediction p x false n state).q_delta node component
        ≡ p.add (state.q_delta node component) (p.div delta p.h)
  unfolding update_prediction update_static_prediction
  static_active lt within =
      parallel_for_once (λ (s : State D). s.q_delta node component) (λ a. p.add a (p.div delta p.h))
        n node _ state lt
        (λ s.
          parallel_for_once (λ (t : State D). t.q_delta node component)
            (λ a. p.add a (p.div delta p.h))
            (count_active_dofs (state.node_freedom_allocation_table node)) component _ s within
            (λ t. add_to_self p t.q_delta node component (p.div delta p.h))
            (λ c t below ne. add_to_other p t.q_delta node node c component _ (inr ne)))
        (λ k s below ne.
          parallel_for_keep (λ (t : State D). t.q_delta node component ≡ s.q_delta node component)
            (count_active_dofs (state.node_freedom_allocation_table k)) _ s
            (λ c t under q. add_to_other p t.q_delta k node c component _ (inl ne) ∙ q) refl)

-- After UpdateStatePrediction of a static solve over `n` nodes: an active component of each of
-- them has in `q_delta` its value from before plus the entry of the solution that has its number
-- divided by `h`, any other component has its value from before, `q` is what the kernel of
-- displacements makes of it with the new increments, and nothing else of the state is changed.
pub update_static_prediction_lem :
    {D : Type 0} (p : Prediction D) (displace : ℕ → View2 D → View2 D → View2 D → View2 D)
    (x : View D) (state : State D) (n node component other : ℕ)
    → node < n
    → component < count_active_dofs (state.node_freedom_allocation_table node)
    → count_active_dofs (state.node_freedom_allocation_table node) ≤ other
    → let after = update_state_prediction p displace x false n state in
      (after.q_delta node component
        ≡ p.add
            (state.q_delta node component)
            (p.div (x (state.node_freedom_map_table node + component)) p.h))
      × (after.q_delta node other ≡ state.q_delta node other)
      × (after.q ≡ parallel_for n (λ k q. displace k after.q_delta state.q_prev q) state.q)
      × (record after { q_delta = state.q_delta; q = state.q } ≡ state)
unfolding update_state_prediction
update_static_prediction_lem p displace x state n node component other lt within beyond =
    let next = update_prediction p x false n state in
    let prev = static_kept p displace x state n node component (λ t. t.q_prev) (λ t view. refl) in
    (
      static_active p displace x state n node component lt within,
      static_inactive p displace x state n node other beyond,
      ap (λ (view : View2 _). parallel_for n (λ k q. displace k next.q_delta view q) next.q) prev
          ∙ ap
              (λ (view : View2 _).
                parallel_for n (λ k q. displace k next.q_delta state.q_prev q) view)
              (static_kept p displace x state n node component (λ t. t.q) (λ t view. refl)),
      static_kept p displace x state n node component
          (λ t. record t { q_delta = state.q_delta; q = state.q }) (λ t view. refl),
    )
