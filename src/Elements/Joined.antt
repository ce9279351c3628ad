-- ===== src/Elements/Joined.antt =====
-- NumberOfNodesPerElement and NodeStateIndices join the beams, the masses and the springs, in this
-- order.
use kynema_fmb.Base.{
  ℕ, zero, suc, ◌+◌, ◌<◌, ◌≡◌, ◌∙◌, arith, View, View2, write_self, write_ne, write2, write2_self,
  write2_row, write2_column, parallel_for_keep, parallel_for_reach,
}
use kynema_fmb.Elements.{Elements, number_of_nodes_per_element, all_node_state_indices}

module _ (fresh : View ℕ) (e : Elements) where
  pub beam_count :
      (element : ℕ)
      → element < e.beams.num_elems
      → number_of_nodes_per_element fresh e element ≡ e.beams.num_nodes_per_element element
  unfolding number_of_nodes_per_element
  beam_count element lt =
      let P = λ (v : View ℕ). v element ≡ e.beams.num_nodes_per_element element in
      parallel_for_keep P e.springs.num_elems _ _
        (λ k v below p.
          write_ne v (k + (e.beams.num_elems + e.masses.num_elems)) element _ (omega arith) ∙ p)
        (parallel_for_keep P e.masses.num_elems _ _
          (λ k v below p. write_ne v (k + e.beams.num_elems) element _ (omega arith) ∙ p)
          (parallel_for_reach P e.beams.num_elems element _ fresh lt (λ v. write_self v element _)
            (λ k v below ne p. write_ne v k element _ ne ∙ p)))

  pub mass_count :
      (element : ℕ)
      → element < e.masses.num_elems
      → number_of_nodes_per_element fresh e (element + e.beams.num_elems)
        ≡ e.masses.num_nodes_per_element element
  unfolding number_of_nodes_per_element
  mass_count element lt =
      let at = element + e.beams.num_elems in
      let P = λ (v : View ℕ). v at ≡ e.masses.num_nodes_per_element element in
      parallel_for_keep P e.springs.num_elems _ _
        (λ k v below p.
          write_ne v (k + (e.beams.num_elems + e.masses.num_elems)) at _ (omega arith) ∙ p)
        (parallel_for_reach P e.masses.num_elems element _ _ lt (λ v. write_self v at _)
          (λ k v below ne p. write_ne v (k + e.beams.num_elems) at _ (omega arith) ∙ p))

  pub spring_count :
      (element : ℕ)
      → element < e.springs.num_elems
      → number_of_nodes_per_element fresh e (element + (e.beams.num_elems + e.masses.num_elems))
        ≡ e.springs.num_nodes_per_element element
  unfolding number_of_nodes_per_element
  spring_count element lt =
      let at = element + (e.beams.num_elems + e.masses.num_elems) in
      parallel_for_reach (λ (v : View ℕ). v at ≡ e.springs.num_nodes_per_element element)
        e.springs.num_elems element _ _ lt (λ v. write_self v at _)
        (λ k v below ne p.
          write_ne v (k + (e.beams.num_elems + e.masses.num_elems)) at _ (omega arith) ∙ p)

-- The joined node indices.
module _ (fresh : View2 ℕ) (e : Elements) where
  -- The joined node indices of a beam, at its own place, are those of the beam, whatever the new
  -- view held.
  pub beam_nodes :
      (element node : ℕ)
      → element < e.beams.num_elems
      → node < e.beams.num_nodes_per_element element
      → all_node_state_indices fresh e element node ≡ e.beams.node_state_indices element node
  unfolding all_node_state_indices
  beam_nodes element node lt within =
      let P = λ (v : View2 ℕ). v element node ≡ e.beams.node_state_indices element node in
      let offset = e.beams.num_elems + e.masses.num_elems in
      parallel_for_keep P e.springs.num_elems _ _
        (λ k v below p.
          write2_row _ (k + offset) 1 element node _ (omega arith)
          ∙ write2_row v (k + offset) 0 element node _ (omega arith)
          ∙ p)
        (parallel_for_keep P e.masses.num_elems _ _
          (λ k v below p. write2_row v (k + e.beams.num_elems) 0 element node _ (omega arith) ∙ p)
          (parallel_for_reach P e.beams.num_elems element _ fresh lt
            (λ v.
              parallel_for_reach P (e.beams.num_nodes_per_element element) node _ v within
                (λ w. write2_self w element node _)
                (λ k w below ne p. write2_column w element k node _ ne ∙ p))
            (λ k v below ne p.
              parallel_for_keep P (e.beams.num_nodes_per_element k) _ v
                (λ j w inside q. write2_row w k j element node _ ne ∙ q) p)))

  -- The joined node index of a mass, at its place after the beams.
  pub mass_nodes :
      (element : ℕ)
      → element < e.masses.num_elems
      → all_node_state_indices fresh e (element + e.beams.num_elems) 0
        ≡ e.masses.state_indices element
  unfolding all_node_state_indices
  mass_nodes element lt =
      let at = element + e.beams.num_elems in
      let P = λ (v : View2 ℕ). v at 0 ≡ e.masses.state_indices element in
      let offset = e.beams.num_elems + e.masses.num_elems in
      parallel_for_keep P e.springs.num_elems _ _
        (λ k v below p.
          write2_row _ (k + offset) 1 at 0 _ (omega arith)
          ∙ write2_row v (k + offset) 0 at 0 _ (omega arith)
          ∙ p)
        (parallel_for_reach P e.masses.num_elems element _ _ lt (λ v. write2_self v at 0 _)
          (λ k v below ne p. write2_row v (k + e.beams.num_elems) 0 at 0 _ (omega arith) ∙ p))

  -- The joined node indices of a spring, at its place after the beams and the masses, are those of
  -- the spring, whatever the new view held.
  pub spring_nodes :
      (element node : ℕ)
      → element < e.springs.num_elems
      → node < 2
      → all_node_state_indices fresh e (element + (e.beams.num_elems + e.masses.num_elems)) node
        ≡ e.springs.node_state_indices element node
  unfolding all_node_state_indices
  spring_nodes element node lt within =
      let at = element + (e.beams.num_elems + e.masses.num_elems) in
      parallel_for_reach (λ (v : View2 ℕ). v at node ≡ e.springs.node_state_indices element node)
        e.springs.num_elems element _ _ lt
        (λ v. here v at node within (e.springs.node_state_indices element))
        (λ k v below ne p.
          write2_row _ (k + (e.beams.num_elems + e.masses.num_elems)) 1 at node _ (omega arith)
          ∙ write2_row v (k + (e.beams.num_elems + e.masses.num_elems)) 0 at node _ (omega arith)
          ∙ p)
    where
      here :
          (v : View2 ℕ) (at node : ℕ)
          → node < 2
          → (f : View ℕ) → write2 (write2 v at 0 (f 0)) at 1 (f 1) at node ≡ f node
      here v at zero h f =
          write2_column (write2 v at 0 (f 0)) at 1 0 (f 1) (omega arith) ∙ write2_self v at 0 (f 0)
      here v at (suc zero) h f = write2_self (write2 v at 0 (f 0)) at 1 (f 1)
      here v at (suc (suc n)) h f = absurd (omega arith)
