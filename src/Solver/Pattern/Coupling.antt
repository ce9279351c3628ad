-- ===== src/Solver/Pattern/Coupling.antt =====
-- The pattern has an entry for every pair of degrees of freedom that an element couples.
use kynema_fmb.Base.{
  ℕ, ◌+◌, ◌<◌, ◌≡◌, refl, subst, [], ◌∷◌, ◌∈◌, mem-append_left, mem-append_right, mem-collect,
  collect, Bool, true, false, ◌||◌, ◌==◌, ==_refl, ==_iff, parallel_for_reach, inl, inr, Bool-cases,
}
use kynema_fmb.Solver.Ints.{to_int}
use kynema_fmb.Solver.Connectivity.{Connectivity, element_contains_node}
use kynema_fmb.Solver.Pattern.{columns, node_columns, element_columns, system_row}

mem-columns : (n k : ℕ) (f : ℕ → ℕ) → k < n → to_int (f k) ∈ columns n f
mem-columns n k f lt = mem-collect (to_int (f k)) n k (λ c. to_int (f c) ∷ []) lt (inl refl)

module _ (g : Connectivity) where
  contains_own :
      (element i : ℕ)
      → i < g.num_nodes_per_element element
      → element_contains_node g element (g.node_state_indices element i) ≡ true
  unfolding element_contains_node
  contains_own element i lt =
      parallel_for_reach (λ found. found ≡ true) (g.num_nodes_per_element element) i _ false lt
        (λ t. rw (==_refl (g.node_state_indices element i)) (or_true t))
        (λ k t below ne p. rw p refl)
    where
      or_true : (t : Bool) → t || true ≡ true
      or_true true = refl
      or_true false = refl

  -- For two nodes of an element, the same or different, the row of the first has an entry for
  -- every degree of freedom of the second.
  pub element_coupled :
      (element i j c : ℕ)
      → element < g.num_elements
      → i < g.num_nodes_per_element element
      → j < g.num_nodes_per_element element
      → c < g.active_dofs (g.node_state_indices element j)
      → to_int (g.node_freedom_map_table (g.node_state_indices element j) + c)
        ∈ system_row g (g.node_state_indices element i)
  element_coupled element i j c in_elements in_i in_j in_components =
      let node = g.node_state_indices element i in
      let other = g.node_state_indices element j in
      let column = to_int (g.node_freedom_map_table other + c) in
      let own : column ∈ node_columns g other =
        mem-columns (g.active_dofs other) c (λ k. g.node_freedom_map_table other + k)
          in_components in
      elim (Bool-cases (other == node)) [
        | inl e ↦
            mem-append_left column (node_columns g node) _
              (subst (λ n. column ∈ node_columns g n) ((==_iff other node).0 e) own)
        | inr e ↦ mem-append_right column (node_columns g node) _ (
            mem-append_left column (collect g.num_elements (element_columns g node)) _ (
              mem-collect column g.num_elements element (element_columns g node) in_elements (
                rw (contains_own element i in_i)
                  (mem-collect column (g.num_nodes_per_element element) j _ in_j (rw e own)))))
      ]
