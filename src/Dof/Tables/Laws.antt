-- ===== src/Dof/Tables/Laws.antt =====
-- What the freedom tables hold, at every place that the kernels write.
use kynema_fmb.Base.{
  ℕ, ◌+◌, ◌<◌, ◌≡◌, ◌≢◌, refl, ◌∙◌, View, View2, write2_self, write2_row, write2_column,
  write3_self, write3_first, write3_second, write3_third, parallel_for_reach, parallel_for_keep,
  ◌==◌, ==_of_eq, ==_ne, Bool-cases, inl, inr,
}
use kynema_fmb.Elements.{Elements}
use kynema_fmb.ConstraintType.{get_number_of_nodes}
use kynema_fmb.Constraints.{Constraints}
use kynema_fmb.State.{State}
use kynema_fmb.Dof.Tables.{
  table_beam, table_mass, table_spring, create_element_freedom_table, table_node, table_constraint,
  create_constraint_freedom_table,
}

module _ {D : Type 0} (state : State D) where
  -- Component `c` of node `n` of a beam has the number of the node's component `c`.
  pub beam_table :
      (e : Elements) (element n c : ℕ)
      → element < e.beams.num_elems
      → n < e.beams.num_nodes_per_element element
      → c < 6
      → (create_element_freedom_table e state).beams.element_freedom_table element n c
        ≡ state.node_freedom_map_table (e.beams.node_state_indices element n) + c
  unfolding create_element_freedom_table table_beam
  beam_table e element n c in_elements in_nodes in_components =
      let want = state.node_freedom_map_table (e.beams.node_state_indices element n) + c in
      parallel_for_reach (λ t. t element n c ≡ want) e.beams.num_elems element _ _ in_elements
        (λ t.
          parallel_for_reach (λ u. u element n c ≡ want) (e.beams.num_nodes_per_element element) n _
            t in_nodes
            (λ u.
              parallel_for_reach (λ w. w element n c ≡ want) 6 c _ u in_components
                (λ w. write3_self w element n c want)
                (λ k w lt ne p. write3_third w element n k c _ ne ∙ p))
            (λ k u lt ne p.
              parallel_for_keep (λ w. w element n c ≡ want) 6 _ u
                (λ j w below q. write3_second w element k j n c _ ne ∙ q) p))
        (λ k t lt ne p.
          parallel_for_keep (λ u. u element n c ≡ want) (e.beams.num_nodes_per_element k) _ t
            (λ j u below q.
              parallel_for_keep (λ w. w element n c ≡ want) 6 _ u
                (λ i w under r. write3_first w k j i element n c _ ne ∙ r) q)
            p)

  pub mass_table :
      (e : Elements) (element c : ℕ)
      → element < e.masses.num_elems
      → c < 6
      → (create_element_freedom_table e state).masses.element_freedom_table element c
        ≡ state.node_freedom_map_table (e.masses.state_indices element) + c
  unfolding create_element_freedom_table table_mass
  mass_table e element c in_elements in_components =
      let want = state.node_freedom_map_table (e.masses.state_indices element) + c in
      parallel_for_reach (λ t. t element c ≡ want) e.masses.num_elems element _ _ in_elements
        (λ t.
          parallel_for_reach (λ u. u element c ≡ want) 6 c _ t in_components
            (λ u. write2_self u element c want)
            (λ k u lt ne p. write2_column u element k c _ ne ∙ p))
        (λ k t lt ne p.
          parallel_for_keep (λ u. u element c ≡ want) 6 _ t
            (λ j u below q. write2_row u k j element c _ ne ∙ q) p)

  pub spring_table :
      (e : Elements) (element n c : ℕ)
      → element < e.springs.num_elems
      → n < 2
      → c < 3
      → (create_element_freedom_table e state).springs.element_freedom_table element n c
        ≡ state.node_freedom_map_table (e.springs.node_state_indices element n) + c
  unfolding create_element_freedom_table table_spring
  spring_table e element n c in_elements in_nodes in_components =
      let want = state.node_freedom_map_table (e.springs.node_state_indices element n) + c in
      parallel_for_reach (λ t. t element n c ≡ want) e.springs.num_elems element _ _ in_elements
        (λ t.
          parallel_for_reach (λ u. u element n c ≡ want) 2 n _ t in_nodes
            (λ u.
              parallel_for_reach (λ w. w element n c ≡ want) 3 c _ u in_components
                (λ w. write3_self w element n c want)
                (λ k w lt ne p. write3_third w element n k c _ ne ∙ p))
            (λ k u lt ne p.
              parallel_for_keep (λ w. w element n c ≡ want) 3 _ u
                (λ j w below q. write3_second w element k j n c _ ne ∙ q) p))
        (λ k t lt ne p.
          parallel_for_keep (λ u. u element n c ≡ want) 2 _ t
            (λ j u below q.
              parallel_for_keep (λ w. w element n c ≡ want) 3 _ u
                (λ i w under r. write3_first w k j i element n c _ ne ∙ r) q)
            p)

module _ (active map : View ℕ) (node_index : ℕ) where
  table_node_self :
      (constraint c : ℕ) (t : View2 ℕ)
      → c < active node_index
      → table_node active map constraint node_index t constraint c ≡ map node_index + c
  table_node_self constraint c t lt =
      parallel_for_reach (λ u. u constraint c ≡ map node_index + c) (active node_index) c _ t lt
        (λ u. write2_self u constraint c _)
        (λ k u below ne p. write2_column u constraint k c _ ne ∙ p)

  table_node_other :
      (constraint other c : ℕ) (t : View2 ℕ)
      → constraint ≢ other
      → table_node active map constraint node_index t other c ≡ t other c
  table_node_other constraint other c t ne =
      parallel_for_keep (λ u. u other c ≡ t other c) (active node_index) _ t
        (λ k u below p. write2_row u constraint k other c _ ne ∙ p) refl

module _ (c : Constraints) (active map : View ℕ) where
  table_constraint-other :
      (k i j : ℕ) (t : View2 ℕ × View2 ℕ)
      → k ≢ i
      → ((table_constraint c active map k t).0 i j ≡ t.0 i j)
        × ((table_constraint c active map k t).1 i j ≡ t.1 i j)
  unfolding table_constraint
  table_constraint-other k i j (target, base) ne = (
    table_node_other active map (c.target_node_index k) k i j target ne,
    elim (Bool-cases (get_number_of_nodes (c.type k) == 2)) [
      | inl two ↦ rw two (table_node_other active map (c.base_node_index k) k i j base ne)
      | inr one ↦ rw one (
          parallel_for_keep (λ u. u i j ≡ base i j) 6 _ base
            (λ n u below p. write2_row u k n i j _ ne ∙ p) refl)
    ],
  )

  table_constraint-base :
      (i j : ℕ) (t : View2 ℕ × View2 ℕ)
      → get_number_of_nodes (c.type i) ≡ 2
      → j < active (c.base_node_index i)
      → (table_constraint c active map i t).1 i j ≡ map (c.base_node_index i) + j
  unfolding table_constraint
  table_constraint-base i j (target, base) two lt =
      rw (==_of_eq two) (table_node_self active map (c.base_node_index i) i j base lt)

  table_constraint-zero :
      (i j : ℕ) (t : View2 ℕ × View2 ℕ)
      → get_number_of_nodes (c.type i) ≢ 2
      → j < 6
      → (table_constraint c active map i t).1 i j ≡ 0
  unfolding table_constraint
  table_constraint-zero i j (target, base) one lt = rw (==_ne _ _ one) (
      parallel_for_reach (λ u. u i j ≡ 0) 6 j _ base lt (λ u. write2_self u i j 0)
        (λ k u below ne p. write2_column u i k j 0 ne ∙ p))

module _ {D : Type 0} (state : State D) where
  -- Component `j` of the target node in the table of a constraint of the system is the number of
  -- that component, if the node has it.
  pub target_table :
      (c : Constraints) (i j : ℕ)
      → i < c.num_constraints
      → j < state.active_dofs (c.target_node_index i)
      → (create_constraint_freedom_table c state).target_node_freedom_table i j
        ≡ state.node_freedom_map_table (c.target_node_index i) + j
  unfolding create_constraint_freedom_table table_constraint
  target_table c i j in_constraints in_components =
      let want = state.node_freedom_map_table (c.target_node_index i) + j in
      parallel_for_reach (λ (t : View2 ℕ × View2 ℕ). t.0 i j ≡ want) c.num_constraints i _ _
        in_constraints
        (λ t.
          table_node_self state.active_dofs state.node_freedom_map_table (c.target_node_index i) i j
            t.0 in_components)
        (λ k t lt ne p.
          table_node_other state.active_dofs state.node_freedom_map_table (c.target_node_index k) k
            i j t.0 ne
          ∙ p)

  -- Component `j` of the base node in the table of a constraint with two nodes is the number of
  -- that component, if the node has it.
  pub base_table :
      (c : Constraints) (i j : ℕ)
      → i < c.num_constraints
      → get_number_of_nodes (c.type i) ≡ 2
      → j < state.active_dofs (c.base_node_index i)
      → (create_constraint_freedom_table c state).base_node_freedom_table i j
        ≡ state.node_freedom_map_table (c.base_node_index i) + j
  unfolding create_constraint_freedom_table
  base_table c i j in_constraints two in_components =
      let want = state.node_freedom_map_table (c.base_node_index i) + j in
      parallel_for_reach (λ (t : View2 ℕ × View2 ℕ). t.1 i j ≡ want) c.num_constraints i _ _
        in_constraints
        (λ t.
          table_constraint-base c state.active_dofs state.node_freedom_map_table i j t two
            in_components)
        (λ k t lt ne p.
          (table_constraint-other c state.active_dofs state.node_freedom_map_table k i j t ne).1
          ∙ p)

  -- With one node, the base row is filled with zeros.
  pub base_table_one :
      (c : Constraints) (i j : ℕ)
      → i < c.num_constraints
      → get_number_of_nodes (c.type i) ≢ 2
      → j < 6
      → (create_constraint_freedom_table c state).base_node_freedom_table i j ≡ 0
  unfolding create_constraint_freedom_table
  base_table_one c i j in_constraints one in_components =
      parallel_for_reach (λ (t : View2 ℕ × View2 ℕ). t.1 i j ≡ 0) c.num_constraints i _ _
        in_constraints
        (λ t.
          table_constraint-zero c state.active_dofs state.node_freedom_map_table i j t one
            in_components)
        (λ k t lt ne p.
          (table_constraint-other c state.active_dofs state.node_freedom_map_table k i j t ne).1
          ∙ p)
