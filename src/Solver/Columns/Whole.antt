-- ===== src/Solver/Columns/Whole.antt =====
-- What ComputeColInds leaves in the matrix: row by row the columns of the pattern.
use kynema_fmb.Base.{
  ℕ, suc, ◌+◌, ◌-◌, ◌≤◌, ◌<◌, ◌≡◌, ◌≢◌, subst, arith, length, View, Holds, Holds_congr,
  parallel_for_keep, parallel_for_reach, inl, inr, ltb, Bool-cases, sum_below, ◌^◌, sum_below_mono,
  sum_below_step, segment, segment-Holds,
}
use kynema_fmb.Solver.Connectivity.{Connectivity}
use kynema_fmb.Solver.Pattern.{system_row, constraint_row, IsNumbered}
use kynema_fmb.Solver.Rows.{all_row_entries, compute_row_ptrs}
use kynema_fmb.Solver.Rows.Pointers.{row_ptrs-eq, row_entries_system, row_entries_constraint}
use kynema_fmb.Solver.Columns.{compute_system_col_inds, compute_col_inds}
use kynema_fmb.Solver.Columns.Kernel.{Follows, compute_system_col_inds-IsFilled}
use kynema_fmb.Solver.Columns.ConstraintKernel.{
  Apart, constraint_kernel-other, constraint_kernel-self,
}

-- A matrix whose entries can be counted in an `int`: neither a row nor all rows together have 2 ^ 31
-- entries or more.
pub record FitsInt (g : Connectivity) (fresh_entries : View ℕ) : Type 0 where
  pub dofs : g.num_dofs < 2 ^ 31
  pub node_rows : (node : ℕ) → node < g.num_nodes → length (system_row g node) < 2 ^ 31
  pub constraint_rows : (k : ℕ) → k < g.num_constraints → length (constraint_row g k) < 2 ^ 31
  pub all_rows : sum_below g.num_dofs (all_row_entries g fresh_entries) < 2 ^ 31

-- The matrix whose row pointers ComputeRowPtrs has computed.
module _ (g : Connectivity) (fresh_entries fresh_ptrs : View ℕ)
    (fit : FitsInt g fresh_entries) where
  abbrev ptrs : View ℕ
  ptrs = compute_row_ptrs g fresh_entries fresh_ptrs

  -- A row ends where another one begins, or before.
  row_order :
      (r s n : ℕ)
      → r < s
      → s ≤ g.num_dofs
      → all_row_entries g fresh_entries r ≡ n
      → ptrs r + n ≤ ptrs s
  row_order r s n lt le entries = omega (
    arith,
    row_ptrs-eq g fresh_entries fresh_ptrs r fit.all_rows (omega arith),
    row_ptrs-eq g fresh_entries fresh_ptrs s fit.all_rows le,
    sum_below_step r s (all_row_entries g fresh_entries) lt,
  )

  rows-Apart :
      (r s n m : ℕ)
      → r ≢ s
      → r < g.num_dofs
      → s < g.num_dofs
      → all_row_entries g fresh_entries r ≡ n
      → all_row_entries g fresh_entries s ≡ m
      → Apart (ptrs r) n (ptrs s) m
  rows-Apart r s n m ne in_r in_s entries_r entries_s = elim (Bool-cases (ltb r s)) [
    | inl lt ↦ inl (row_order r s n (ground arith) (omega arith) entries_r)
    | inr ge ↦ inr (row_order s r m (ground arith) (omega arith) entries_s)
  ]

  ptrs_mono : (r s : ℕ) → r ≤ s → s ≤ g.num_dofs → ptrs r ≤ ptrs s
  ptrs_mono r s le below = omega (
    arith,
    row_ptrs-eq g fresh_entries fresh_ptrs r fit.all_rows (omega arith),
    row_ptrs-eq g fresh_entries fresh_ptrs s fit.all_rows below,
    sum_below_mono r s (all_row_entries g fresh_entries) le,
  )

  ptrs_suc :
      (r n : ℕ) → r < g.num_dofs → all_row_entries g fresh_entries r ≡ n → ptrs (suc r) ≡ ptrs r + n
  ptrs_suc r n lt entries = omega (
    arith,
    row_ptrs-eq g fresh_entries fresh_ptrs r fit.all_rows (omega arith),
    row_ptrs-eq g fresh_entries fresh_ptrs (suc r) fit.all_rows lt,
  )

  module _ (numbered : IsNumbered g) where
    node_row_below :
        (node c : ℕ)
        → node < g.num_nodes
        → c < g.active_dofs node
        → g.node_freedom_map_table node + c < g.num_system_dofs
    node_row_below node c in_nodes lt = omega (arith, numbered.node_below node in_nodes)

    constraint_row_below :
        (k row : ℕ)
        → k < g.num_constraints
        → row < (g.row_range k).1
        → row + g.num_system_dofs < g.num_dofs
    constraint_row_below k row in_constraints hi =
        omega (arith, numbered.row_below k in_constraints)

    node_follows : (node : ℕ) → node < g.num_nodes → Follows g ptrs node
    node_follows node in_nodes c lt =
        let r = g.node_freedom_map_table node + c in
        let next : suc r ≡ g.node_freedom_map_table node + suc c = omega arith in
        subst (λ s. ptrs s ≡ ptrs r + length (system_row g node)) next
          (ptrs_suc r (length (system_row g node))
            (omega (arith, node_row_below node c in_nodes lt, numbered.dofs_below))
            (row_entries_system g fresh_entries node c numbered in_nodes lt
              (fit.node_rows node in_nodes)))

    -- The kernel of another node leaves a row of a node.
    other_node :
        (k node c : ℕ) (v : View ℕ)
        → k ≢ node
        → k < g.num_nodes
        → node < g.num_nodes
        → c < g.active_dofs node
        → Holds v (ptrs (g.node_freedom_map_table node + c)) (system_row g node)
        → Holds
            (compute_system_col_inds g ptrs k v)
            (ptrs (g.node_freedom_map_table node + c))
            (system_row g node)
    other_node k node c v ne in_k in_node lt h =
        let r = g.node_freedom_map_table node + c in
        let r_below = node_row_below node c in_node lt in
        let k_below = numbered.node_below k in_k in
        let frame = (compute_system_col_inds-IsFilled g ptrs k (node_follows k in_k) v).1 in
        let entries =
          row_entries_system g fresh_entries node c numbered in_node lt
            (fit.node_rows node in_node) in
        Holds_congr v _ (ptrs r) (system_row g node)
          (λ j lo hi. frame j (elim (Bool-cases (ltb k node)) [
            | inl before ↦ inr (
                omega (
                  arith,
                  ptrs_mono (g.node_freedom_map_table k + g.active_dofs k) r
                      (omega (arith, numbered.node_order k node (ground arith) in_node))
                      (omega (arith, numbered.dofs_below)),
                ))
            | inr after ↦ inl (
                omega (
                  arith,
                  row_order r (g.node_freedom_map_table k + 0) (length (system_row g node))
                      (omega (arith, numbered.node_order node k (ground arith) in_k))
                      (omega (arith, numbered.dofs_below)) entries,
                ))
          ]))
          h

    system_row-Holds :
        (fresh : View ℕ) (node c : ℕ)
        → node < g.num_nodes
        → c < g.active_dofs node
        → Holds
            (compute_col_inds g ptrs fresh)
            (ptrs (g.node_freedom_map_table node + c))
            (system_row g node)
    unfolding compute_col_inds
    system_row-Holds fresh node c in_nodes lt =
        let r = g.node_freedom_map_table node + c in
        let r_below = node_row_below node c in_nodes lt in
        let Done = λ (w : View ℕ). Holds w (ptrs r) (system_row g node) in
        parallel_for_keep Done g.num_constraints _ _
          (λ k w in_k p.
            constraint_kernel-other g ptrs k (ptrs r) (system_row g node) w
              (λ row lo hi.
                rows-Apart r (row + g.num_system_dofs) _ _ (omega arith)
                  (omega (arith, numbered.dofs_below)) (constraint_row_below k row in_k hi)
                  (row_entries_system g fresh_entries node c numbered in_nodes lt
                    (fit.node_rows node in_nodes))
                  (row_entries_constraint g fresh_entries k row numbered in_k lo hi
                    (fit.constraint_rows k in_k)))
              p)
          (parallel_for_reach Done g.num_nodes node _ fresh in_nodes
            (λ w.
              (compute_system_col_inds-IsFilled g ptrs node (node_follows node in_nodes) w).0 c lt)
            (λ k w in_k ne p. other_node k node c w ne in_k in_nodes lt p))

    constraint_row-Holds :
        (fresh : View ℕ) (k row : ℕ)
        → k < g.num_constraints
        → (g.row_range k).0 ≤ row
        → row < (g.row_range k).1
        → Holds
            (compute_col_inds g ptrs fresh)
            (ptrs (row + g.num_system_dofs))
            (constraint_row g k)
    unfolding compute_col_inds
    constraint_row-Holds fresh k row in_k lo hi =
        let entries =
          row_entries_constraint g fresh_entries k row numbered in_k lo hi
            (fit.constraint_rows k in_k) in
        parallel_for_reach
          (λ (w : View ℕ). Holds w (ptrs (row + g.num_system_dofs)) (constraint_row g k))
          g.num_constraints k _ _ in_k
          (λ w. constraint_kernel-self g ptrs k row w lo hi (λ other from to ne.
            rows-Apart (row + g.num_system_dofs) (other + g.num_system_dofs) _ _ (omega arith)
              (constraint_row_below k row in_k hi) (constraint_row_below k other in_k to) entries
              (row_entries_constraint g fresh_entries k other numbered in_k from to
                (fit.constraint_rows k in_k))))
          (λ l w in_l ne p.
            constraint_kernel-other g ptrs l (ptrs (row + g.num_system_dofs)) (constraint_row g k) w
              (λ other from to.
                rows-Apart (row + g.num_system_dofs) (other + g.num_system_dofs) _ _
                  (different l row other ne in_l in_k lo hi from to)
                  (constraint_row_below k row in_k hi) (constraint_row_below l other in_l to)
                  entries
                  (row_entries_constraint g fresh_entries l other numbered in_l from to
                    (fit.constraint_rows l in_l)))
              p)
      where
        different :
            (l row other : ℕ)
            → l ≢ k
            → l < g.num_constraints
            → k < g.num_constraints
            → (g.row_range k).0 ≤ row
            → row < (g.row_range k).1
            → (g.row_range l).0 ≤ other
            → other < (g.row_range l).1
            → row + g.num_system_dofs ≢ other + g.num_system_dofs
        different l row other ne in_l in_k lo hi from to = elim (Bool-cases (ltb l k)) [
          | inl lt ↦ let order = numbered.row_order l k (ground arith) in_k in omega arith
          | inr ge ↦ let order = numbered.row_order k l (ground arith) in_l in omega arith
        ]

    -- A row of a node, from its pointer to the next, is the row of the pattern, whatever the new
    -- views held.
    pub system_row_written :
        (fresh : View ℕ) (node c : ℕ)
        → node < g.num_nodes
        → c < g.active_dofs node
        → segment (compute_col_inds g ptrs fresh) (ptrs (g.node_freedom_map_table node + c)) (
            ptrs (suc (g.node_freedom_map_table node + c))
            - ptrs (g.node_freedom_map_table node + c))
          ≡ system_row g node
    system_row_written fresh node c in_nodes lt =
        let r = g.node_freedom_map_table node + c in
        let next =
          ptrs_suc r (length (system_row g node))
            (omega (arith, node_row_below node c in_nodes lt, numbered.dofs_below))
            (row_entries_system g fresh_entries node c numbered in_nodes lt
              (fit.node_rows node in_nodes)) in
        let size : ptrs (suc r) - ptrs r ≡ length (system_row g node) = omega arith in
        rw size
          (segment-Holds _ (ptrs r) (system_row g node) (system_row-Holds fresh node c in_nodes lt))

    -- So is a row of a constraint.
    pub constraint_row_written :
        (fresh : View ℕ) (k row : ℕ)
        → k < g.num_constraints
        → (g.row_range k).0 ≤ row
        → row < (g.row_range k).1
        → segment
            (compute_col_inds g ptrs fresh)
            (ptrs (row + g.num_system_dofs))
            (ptrs (suc (row + g.num_system_dofs)) - ptrs (row + g.num_system_dofs))
          ≡ constraint_row g k
    constraint_row_written fresh k row in_k lo hi =
        let r = row + g.num_system_dofs in
        let next = ptrs_suc r (length (constraint_row g k)) (constraint_row_below k row in_k hi) (
          row_entries_constraint g fresh_entries k row numbered in_k lo hi
            (fit.constraint_rows k in_k)) in
        let size : ptrs (suc r) - ptrs r ≡ length (constraint_row g k) = omega arith in
        rw size (
          segment-Holds (compute_col_inds g ptrs fresh) (ptrs r) (constraint_row g k)
            (constraint_row-Holds fresh k row in_k lo hi))
