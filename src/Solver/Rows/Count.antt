-- ===== src/Solver/Rows/Count.antt =====
-- The number of entries of a row is the length of its pattern, as an `int`.
use mathlib.Core.Path.{ap₂}
use kynema_fmb.Base.{
  ℕ, zero, suc, ◌+◌, ◌-◌, ◌<◌, ◌≡◌, ◌≢◌, refl, sym, ap, ◌∙◌, ◌^◌, arith, List, [], ◌++◌, length,
  length-append, Bool, true, false, ◌||◌, ◌==◌, if◌then◌else◌, collect, parallel_for,
  parallel_for_inv, sum_below, Bool-cases, inl, inr, ==_iff,
}
use kynema_fmb.Solver.Ints.{to_int, to_int_sum, to_int_difference}
use kynema_fmb.Solver.Connectivity.{Connectivity, element_contains_node, constraint_contains_node}
use kynema_fmb.Solver.Pattern.{
  columns, length-columns, node_columns, other_columns, element_columns, constraint_columns,
  multiplier_columns, system_row, constraint_row, IsNumbered,
}
use kynema_fmb.Solver.Rows.{
  compute_entries_in_constraint, compute_entries_in_element, entries_in_row,
}

module _ (active : ℕ → ℕ) (node : ℕ) (index : ℕ → ℕ) where
  abbrev found : ℕ → Bool
  found n = parallel_for n (λ i seen. seen || (index i == node)) false

  abbrev others : ℕ → ℕ
  others n = sum_below n (λ i. if index i == node then 0 else active (index i))

  absent : (n : ℕ) → ((i : ℕ) → i < n → index i ≢ node) → found n ≡ false
  unfolding parallel_for
  absent zero h = refl
  absent (suc n) h = ground (arith, absent n (λ i lt. h i (omega arith)), h n)

  -- A node that the element has once splits the sum over the nodes in two.
  sum_split :
      (n : ℕ)
      → ((i j : ℕ) → i < j → j < n → index i ≢ index j)
      → sum_below n (λ i. active (index i)) ≡ others n + (if found n then active node else 0)
  unfolding parallel_for
  sum_split zero distinct = omega arith
  sum_split (suc n) distinct =
      let before = sum_split n (λ i j lt below. distinct i j lt (omega arith)) in
      elim (Bool-cases (index n == node)) [
        | inl e ↦
            let same : index n ≡ node = (==_iff _ _).0 e in
            let none = absent n (λ i lt eq. distinct i n lt (omega arith) (eq ∙ sym same)) in
            ground (arith, before, none, ap active same)
        | inr e ↦ ground (arith, before)
      ]

-- One element that holds the node, in the arithmetic of `int`.
added :
    (t before others_ in_element own : ℕ)
    → t ≡ to_int before
    → in_element ≡ to_int (others_ + own)
    → to_int (t + to_int (in_element + 2 ^ 32 - to_int own)) ≡ to_int (before + others_)
added t before others_ in_element own e f =
    ap₂ (λ a b. to_int (a + to_int (b + 2 ^ 32 - to_int own))) e f
    ∙ to_int_difference before others_ own

module _ (g : Connectivity) where
  entries_in_element-eq :
      (element : ℕ)
      → compute_entries_in_element g element
        ≡ to_int (
            sum_below
              (g.num_nodes_per_element element)
              (λ i. g.active_dofs (g.node_state_indices element i)))
  unfolding compute_entries_in_element
  entries_in_element-eq element =
      parallel_for_inv
        (λ n entries.
          entries ≡ to_int (sum_below n (λ i. g.active_dofs (g.node_state_indices element i))))
        (g.num_nodes_per_element element) _ 0
        (λ k t lt e.
          ap (λ s. to_int (s + to_int (g.active_dofs (g.node_state_indices element k)))) e
          ∙ to_int_sum _ (g.active_dofs (g.node_state_indices element k)))
        refl

  length-other_columns :
      (node element : ℕ)
      → length (other_columns g node element)
        ≡ others g.active_dofs node (g.node_state_indices element) (g.num_nodes_per_element element)
  length-other_columns node element = count (g.num_nodes_per_element element)
    where
      part : (i : ℕ) → List ℕ
      part i =
          if g.node_state_indices element i == node
          then []
          else node_columns g (g.node_state_indices element i)

      one :
          (i : ℕ)
          → length (part i) ≡ (
              if g.node_state_indices element i == node
              then 0
              else g.active_dofs (g.node_state_indices element i))
      one i = elim (Bool-cases (g.node_state_indices element i == node)) [
        | inl e ↦ rw e refl
        | inr e ↦ rw e (length-columns (g.active_dofs (g.node_state_indices element i)) _)
      ]

      count :
          (n : ℕ)
          → length (collect n part) ≡ others g.active_dofs node (g.node_state_indices element) n
      count zero = refl
      count (suc n) = omega (arith, length-append (collect n part) (part n), count n, one n)

  -- What an element that holds the node adds to its rows.
  element_adds :
      (node element : ℕ)
      → IsNumbered g
      → element < g.num_elements
      → element_contains_node g element node ≡ true
      → compute_entries_in_element g element
        ≡ to_int (length (other_columns g node element) + g.active_dofs node)
  unfolding element_contains_node
  element_adds node element numbered lt holds =
      let split =
        sum_split g.active_dofs node (g.node_state_indices element)
          (g.num_nodes_per_element element)
          (λ i j before below. numbered.distinct element i j lt before below) in
      entries_in_element-eq element
      ∙ ap to_int split
      ∙ rw (holds, length-other_columns node element) refl

  entries_after_elements :
      (node : ℕ)
      → IsNumbered g
      → parallel_for g.num_elements
          (λ element entries.
            if element_contains_node g element node
            then to_int (
                entries
                + to_int
                    (compute_entries_in_element g element + 2 ^ 32 - to_int (g.active_dofs node)))
            else entries)
          (to_int (g.active_dofs node))
        ≡ to_int (length (node_columns g node ++ collect g.num_elements (element_columns g node)))
  entries_after_elements node numbered =
      rw
        (
          length-append (node_columns g node) (collect g.num_elements (element_columns g node)),
          length-columns (g.active_dofs node)
              (λ component. g.node_freedom_map_table node + component),
        )
        (parallel_for_inv
          (λ n entries.
            entries ≡ to_int (g.active_dofs node + length (collect n (element_columns g node))))
          g.num_elements _ _
          (λ k t lt e.
            rw (length-append (collect k (element_columns g node)) (element_columns g node k))
              (elim (Bool-cases (element_contains_node g k node)) [
                | inl holds ↦ rw holds (
                    omega (
                      arith,
                      added t (g.active_dofs node + length (collect k (element_columns g node)))
                          (length (other_columns g node k)) (compute_entries_in_element g k)
                          (g.active_dofs node) e (element_adds node k numbered lt holds),
                    ))
                | inr apart ↦ rw apart (omega arith)
              ]))
          (omega arith))

  length-multiplier_columns :
      (k : ℕ) → compute_entries_in_constraint g k ≡ to_int (length (multiplier_columns g k))
  unfolding compute_entries_in_constraint
  length-multiplier_columns k =
      ap to_int (sym (length-columns ((g.row_range k).1 - (g.row_range k).0) _))

  -- If the nodes and constraints have disjoint consecutive rows and no element has a node twice,
  -- the number of entries that the kernel counts for the rows of a node is the length of the row
  -- of the pattern.
  pub entries_in_row-eq :
      (node : ℕ) → IsNumbered g → entries_in_row g node ≡ to_int (length (system_row g node))
  unfolding entries_in_row
  entries_in_row-eq node numbered =
      let elements = collect g.num_elements (element_columns g node) in
      rw
        (
          length-append (node_columns g node)
              (elements ++ collect g.num_constraints (constraint_columns g node)),
          length-append elements (collect g.num_constraints (constraint_columns g node)),
        )
        (parallel_for_inv
          (λ n entries.
            entries
            ≡ to_int (
                length (node_columns g node)
                + (length elements + length (collect n (constraint_columns g node)))))
          g.num_constraints _ _
          (λ k t lt e.
            rw (length-append (collect k (constraint_columns g node)) (constraint_columns g node k))
              (elim (Bool-cases (constraint_contains_node g k (g.node_freedom_map_table node))) [
                | inl holds ↦ rw holds (omega (arith, length-multiplier_columns k))
                | inr apart ↦ rw apart (omega arith)
              ]))
          (omega (
            arith,
            entries_after_elements node numbered,
            length-append (node_columns g node) elements,
          )))

  pub length-constraint_row :
      (k : ℕ) → length (constraint_row g k) ≡ g.base_active_dofs k + g.target_active_dofs k
  length-constraint_row k = omega (
    arith,
    length-append (columns (g.target_active_dofs k) (g.target_node_freedom_table k))
        (columns (g.base_active_dofs k) (g.base_node_freedom_table k)),
    length-columns (g.target_active_dofs k) (g.target_node_freedom_table k),
    length-columns (g.base_active_dofs k) (g.base_node_freedom_table k),
  )
