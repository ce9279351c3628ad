-- ===== src/Model/State/Rows.antt =====
-- src/model/copy_nodes_to_state.hpp: the loop over the nodes writes one row for each.
use kynema_fmb.Base.{
  ℕ, ◌<◌, ◌≡◌, ◌≢◌, refl, ap, ◌∙◌, View, View2, Vector, write_self, write_ne, write2_self,
  write2_row, write2_column, parallel_for, parallel_for_keep, parallel_for_reach,
}
use kynema_fmb.State.{State}
use kynema_fmb.Model.Nodes.{Node}
use kynema_fmb.Model.State.{copy_positions, copy_rates, copy_node}

-- The loops over the components, seen at row `i`.
module _ {D : Type 0} (node : Node D) (s : State D) where
  positions_self :
      (i c : ℕ)
      → c < 7
      → ((copy_positions node i s).x0 i c ≡ node.x0 c)
        × ((copy_positions node i s).q i c ≡ node.u c)
  unfolding copy_positions
  positions_self i c lt = (
    parallel_for_reach (λ (t : State D). t.x0 i c ≡ node.x0 c) 7 c _ s lt
        (λ t. write2_self t.x0 i c (node.x0 c))
        (λ k t below apart h. write2_column t.x0 i k c (node.x0 k) apart ∙ h),
    parallel_for_reach (λ (t : State D). t.q i c ≡ node.u c) 7 c _ s lt
        (λ t. write2_self t.q i c (node.u c))
        (λ k t below apart h. write2_column t.q i k c (node.u k) apart ∙ h),
  )

  positions_other :
      (k i c : ℕ)
      → k ≢ i
      → ((copy_positions node k s).x0 i c ≡ s.x0 i c) × ((copy_positions node k s).q i c ≡ s.q i c)
  unfolding copy_positions
  positions_other k i c apart = (
    parallel_for_keep (λ (t : State D). t.x0 i c ≡ s.x0 i c) 7 _ s
        (λ j t below h. write2_row t.x0 k j i c (node.x0 j) apart ∙ h) refl,
    parallel_for_keep (λ (t : State D). t.q i c ≡ s.q i c) 7 _ s
        (λ j t below h. write2_row t.q k j i c (node.u j) apart ∙ h) refl,
  )

  positions_keep :
      (k : ℕ)
      → ((copy_positions node k s).id ≡ s.id)
        × ((copy_positions node k s).v ≡ s.v)
        × ((copy_positions node k s).vd ≡ s.vd)
        × ((copy_positions node k s).num_system_nodes ≡ s.num_system_nodes)
  unfolding copy_positions
  positions_keep k = (
    parallel_for_keep (λ (t : State D). t.id ≡ s.id) 7 _ s (λ j t below h. h) refl,
    parallel_for_keep (λ (t : State D). t.v ≡ s.v) 7 _ s (λ j t below h. h) refl,
    parallel_for_keep (λ (t : State D). t.vd ≡ s.vd) 7 _ s (λ j t below h. h) refl,
    parallel_for_keep (λ (t : State D). t.num_system_nodes ≡ s.num_system_nodes) 7 _ s
        (λ j t below h. h) refl,
  )

  rates_self :
      (i d : ℕ)
      → d < 6
      → ((copy_rates node i s).v i d ≡ node.v d) × ((copy_rates node i s).vd i d ≡ node.vd d)
  unfolding copy_rates
  rates_self i d lt = (
    parallel_for_reach (λ (t : State D). t.v i d ≡ node.v d) 6 d _ s lt
        (λ t. write2_self t.v i d (node.v d))
        (λ k t below apart h. write2_column t.v i k d (node.v k) apart ∙ h),
    parallel_for_reach (λ (t : State D). t.vd i d ≡ node.vd d) 6 d _ s lt
        (λ t. write2_self t.vd i d (node.vd d))
        (λ k t below apart h. write2_column t.vd i k d (node.vd k) apart ∙ h),
  )

  rates_other :
      (k i d : ℕ)
      → k ≢ i
      → ((copy_rates node k s).v i d ≡ s.v i d) × ((copy_rates node k s).vd i d ≡ s.vd i d)
  unfolding copy_rates
  rates_other k i d apart = (
    parallel_for_keep (λ (t : State D). t.v i d ≡ s.v i d) 6 _ s
        (λ j t below h. write2_row t.v k j i d (node.v j) apart ∙ h) refl,
    parallel_for_keep (λ (t : State D). t.vd i d ≡ s.vd i d) 6 _ s
        (λ j t below h. write2_row t.vd k j i d (node.vd j) apart ∙ h) refl,
  )

  rates_keep :
      (k : ℕ)
      → ((copy_rates node k s).id ≡ s.id)
        × ((copy_rates node k s).x0 ≡ s.x0)
        × ((copy_rates node k s).q ≡ s.q)
        × ((copy_rates node k s).num_system_nodes ≡ s.num_system_nodes)
  unfolding copy_rates
  rates_keep k = (
    parallel_for_keep (λ (t : State D). t.id ≡ s.id) 6 _ s (λ j t below h. h) refl,
    parallel_for_keep (λ (t : State D). t.x0 ≡ s.x0) 6 _ s (λ j t below h. h) refl,
    parallel_for_keep (λ (t : State D). t.q ≡ s.q) 6 _ s (λ j t below h. h) refl,
    parallel_for_keep (λ (t : State D). t.num_system_nodes ≡ s.num_system_nodes) 6 _ s
        (λ j t below h. h) refl,
  )

module _ {D : Type 0} (nodes : Vector (Node D)) (i c d : ℕ) where
  -- Row `i` of the state is that of the node, in the columns `c` and `d`.
  pub record IsCopied (s : State D) : Type 0 where
    pub id : s.id i ≡ (nodes.at i).id
    pub x0 : s.x0 i c ≡ (nodes.at i).x0 c
    pub q : s.q i c ≡ (nodes.at i).u c
    pub v : s.v i d ≡ (nodes.at i).v d
    pub vd : s.vd i d ≡ (nodes.at i).vd d

  copy_node_self : (s : State D) → c < 7 → d < 6 → IsCopied (copy_node nodes i s)
  unfolding copy_node
  copy_node_self s in_7 in_6 =
      let node = nodes.at i in
      let placed = copy_positions node i s in
      let kept = rates_keep node placed i in
      let positions = positions_self node s i c in_7 in
      let rates = rates_self node placed i d in_6 in
      record {
        id = write_self _ i node.id;
        x0 = ap (λ (w : View2 D). w i c) kept.1 ∙ positions.0;
        q = ap (λ (w : View2 D). w i c) kept.2 ∙ positions.1;
        v = rates.0;
        vd = rates.1;
      }

  copy_node_other : (k : ℕ) (s : State D) → k ≢ i → IsCopied s → IsCopied (copy_node nodes k s)
  unfolding copy_node
  copy_node_other k s apart h =
      let node = nodes.at k in
      let placed = copy_positions node k s in
      let kept = rates_keep node placed k in
      let placed_kept = positions_keep node s k in
      let positions = positions_other node s k i c apart in
      let rates = rates_other node placed k i d apart in
      record {
        id =
            write_ne _ k i node.id apart
            ∙ ap (λ (w : View ℕ). w i) kept.0
            ∙ ap (λ (w : View ℕ). w i) placed_kept.0
            ∙ h.id;
        x0 = ap (λ (w : View2 D). w i c) kept.1 ∙ positions.0 ∙ h.x0;
        q = ap (λ (w : View2 D). w i c) kept.2 ∙ positions.1 ∙ h.q;
        v = rates.0 ∙ ap (λ (w : View2 D). w i d) placed_kept.1 ∙ h.v;
        vd = rates.1 ∙ ap (λ (w : View2 D). w i d) placed_kept.2 ∙ h.vd;
      }

  pub copy_node-IsCopied :
      (s : State D)
      → i < nodes.size
      → c < 7
      → d < 6
      → IsCopied (parallel_for nodes.size (copy_node nodes) s)
  copy_node-IsCopied s lt in_7 in_6 =
      parallel_for_reach IsCopied nodes.size i (copy_node nodes) s lt
        (λ t. copy_node_self t in_7 in_6) (λ k t below apart h. copy_node_other k t apart h)

pub copied-num_system_nodes :
    {D : Type 0} (nodes : Vector (Node D)) (s : State D)
    → (parallel_for nodes.size (copy_node nodes) s).num_system_nodes ≡ s.num_system_nodes
unfolding copy_node
copied-num_system_nodes nodes s =
    parallel_for_keep (λ t. t.num_system_nodes ≡ s.num_system_nodes) nodes.size (copy_node nodes) s
      (λ k t below h.
        (rates_keep (nodes.at k) (copy_positions (nodes.at k) k t) k).3
        ∙ (positions_keep (nodes.at k) t k).3
        ∙ h)
      refl
