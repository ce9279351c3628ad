-- ===== src/Solver/Columns/ConstraintKernel.antt =====
-- What ComputeConstraintsColInds leaves: the rows of its constraint, and whatever lies apart from
-- them.
use kynema_fmb.Base.{
  ℕ, ◌+◌, ◌-◌, ◌≤◌, ◌<◌, ◌≡◌, ◌≢◌, ◌⊎◌, sym, ap, subst, arith, List, length, View, Holds,
  Holds_congr, Holds-write_list, write_list, write_list_before, write_list_after, parallel_for_keep,
  parallel_for_reach, for_range, inl, inr,
}
use kynema_fmb.Solver.Connectivity.{Connectivity}
use kynema_fmb.Solver.Pattern.{columns, constraint_row}
use kynema_fmb.Solver.Columns.{
  calculate_target_inds, calculate_base_inds, compute_constraints_col_inds,
}
use kynema_fmb.Solver.Columns.Fill.{advance, advance-append, write_columns-advance}

-- A list that is written beside what a view holds leaves it.
abbrev pub Apart : ℕ → ℕ → ℕ → ℕ → Type 0
Apart start size start' size' = (start + size ≤ start') ⊎ (start' + size' ≤ start)

Holds-write_list_apart :
    (v : View ℕ) (start start' : ℕ) (xs ys : List ℕ)
    → Apart start (length xs) start' (length ys)
    → Holds v start xs
    → Holds (write_list v start' ys) start xs
Holds-write_list_apart v start start' xs ys (inl le) h =
    Holds_congr v _ start xs (λ j lo hi. write_list_before v start' j ys (omega arith)) h
Holds-write_list_apart v start start' xs ys (inr le) h =
    Holds_congr v _ start xs (λ j lo hi. write_list_after v start' j ys (omega arith)) h

-- The rows of a constraint, in a matrix whose rows begin at `row_ptrs`.
module _ (g : Connectivity) (row_ptrs : View ℕ) (k : ℕ) where
  abbrev pub place : ℕ → ℕ
  place row = row_ptrs (row + g.num_system_dofs)

  row_written :
      (index : ℕ) (v : View ℕ)
      → (calculate_base_inds g row_ptrs k (calculate_target_inds g row_ptrs k (index, v))).1
        ≡ write_list v index (constraint_row g k)
  unfolding calculate_base_inds calculate_target_inds
  row_written index v =
      let target = columns (g.target_active_dofs k) (g.target_node_freedom_table k) in
      let base = columns (g.base_active_dofs k) (g.base_node_freedom_table k) in
      rw
        (
          write_columns-advance (g.target_active_dofs k) (g.target_node_freedom_table k) (index, v),
          write_columns-advance (g.base_active_dofs k) (g.base_node_freedom_table k)
              (advance target (index, v)),
        )
        (ap (λ (c : ℕ × View ℕ). c.1) (advance-append target base (index, v)))

  -- What a view holds apart from the rows of the constraint stays.
  pub constraint_kernel-other :
      (start : ℕ) (xs : List ℕ) (v : View ℕ)
      → ((row : ℕ)
          → (g.row_range k).0 ≤ row
          → row < (g.row_range k).1
          → Apart start (length xs) (place row) (length (constraint_row g k)))
      → Holds v start xs
      → Holds (compute_constraints_col_inds g row_ptrs k v) start xs
  unfolding compute_constraints_col_inds for_range
  constraint_kernel-other start xs v apart h =
      parallel_for_keep (λ w. Holds w start xs) ((g.row_range k).1 - (g.row_range k).0) _ v
        (λ c w lt p.
          let row = (g.row_range k).0 + c in
          subst (λ u. Holds u start xs) (sym (row_written (place row) w))
            (Holds-write_list_apart w start (place row) xs (constraint_row g k)
              (apart row (omega arith) (omega arith)) p))
        h

  pub constraint_kernel-self :
      (row : ℕ) (v : View ℕ)
      → (g.row_range k).0 ≤ row
      → row < (g.row_range k).1
      → ((other : ℕ)
          → (g.row_range k).0 ≤ other
          → other < (g.row_range k).1
          → other ≢ row
          → Apart
              (place row)
              (length (constraint_row g k))
              (place other)
              (length (constraint_row g k)))
      → Holds (compute_constraints_col_inds g row_ptrs k v) (place row) (constraint_row g k)
  unfolding compute_constraints_col_inds for_range
  constraint_kernel-self row v lo hi apart =
      let first = (g.row_range k).0 in
      let here : first + (row - first) ≡ row = omega arith in
      let Done = λ (w : View ℕ). Holds w (place row) (constraint_row g k) in
      parallel_for_reach Done ((g.row_range k).1 - first) (row - first) _ v (omega arith)
        (λ w.
          subst
            (λ r.
              Holds
                (calculate_base_inds g row_ptrs k
                  (calculate_target_inds g row_ptrs k (place r, w))).1
                (place row) (constraint_row g k))
            (sym here)
            (subst Done (sym (row_written (place row) w))
              (Holds-write_list w (place row) (constraint_row g k))))
        (λ c w below ne p. subst Done (sym (row_written (place (first + c)) w)) (
          Holds-write_list_apart w (place row) (place (first + c)) (constraint_row g k)
            (constraint_row g k) (apart (first + c) (omega arith) (omega arith) (omega arith)) p))
