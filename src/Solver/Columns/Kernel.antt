-- ===== src/Solver/Columns/Kernel.antt =====
-- ComputeSystemColInds fills the rows of its node, and ComputeConstraintsColInds those of its
-- constraint, and neither writes anywhere else.
use kynema_fmb.Base.{
  ℕ, suc, ◌+◌, ◌-◌, ◌≤◌, ◌<◌, ◌≡◌, ◌⊎◌, refl, sym, ap, subst, arith, List, [], ◌∷◌, fun_ext, ◌∙◌,
  ◌++◌, Bool, true, false, length, length-append, View, write, Holds, write_list, collect,
  parallel_for, parallel_for_inv, if◌then◌else◌, sum_below_mono,
}
use mathlib.Core.List.{append-nil, append_assoc}
use kynema_fmb.Solver.Ints.{to_int, to_int_sum}
use kynema_fmb.Solver.Connectivity.{Connectivity, element_contains_node, constraint_contains_node}
use kynema_fmb.Solver.Pattern.{
  node_columns, other_columns, element_columns, multiplier_columns, constraint_columns, system_row,
  length-collect, length-columns,
}
use kynema_fmb.Solver.Columns.{
  Cursor, compute_col_inds_in_element, compute_col_inds_in_constraint, extend_row, start_row,
  compute_system_col_inds,
}
use kynema_fmb.Solver.Columns.Fill.{
  advance, write_columns-advance, in_element-advance, in_constraint-advance,
}
use kynema_fmb.Solver.Columns.Rows.{IsFilled, extend_all}

-- A part of a collected list is no longer than the whole.
length-collect_mono :
    (k n : ℕ) (f : ℕ → List ℕ) → k ≤ n → length (collect k f) ≤ length (collect n f)
length-collect_mono k n f le =
    omega (arith, length-collect k f, length-collect n f, sum_below_mono k n (λ i. length (f i)) le)

module _ (g : Connectivity) (row_ptrs : View ℕ) (node : ℕ) where
  abbrev start : ℕ → ℕ
  start c = row_ptrs (g.node_freedom_map_table node + c)

  start_row-eq :
      (c : ℕ) (p : View ℕ × View ℕ)
      → start_row g row_ptrs node c p ≡ (
        write p.0 c (length (node_columns g node)),
        write_list p.1 (start c + 0) (node_columns g node),
      )
  unfolding start_row
  start_row-eq c (current, col_inds) =
      let written =
        write_columns-advance (g.active_dofs node)
          (λ k. to_int (g.node_freedom_map_table node) + to_int k) (start c, col_inds)
        ∙ ap
            (λ (column : ℕ → ℕ).
              advance (collect (g.active_dofs node) (λ k. column k ∷ [])) (start c, col_inds))
            (fun_ext (λ k. to_int_sum (g.node_freedom_map_table node) k)) in
      rw written
        (λ i. (write current c (count i), write_list col_inds (place i) (node_columns g node)))
    where
      count : g.active_dofs node ≡ length (node_columns g node)
      count = sym (length-columns (g.active_dofs node) (λ k. g.node_freedom_map_table node + k))

      place : start c ≡ start c + 0
      place = omega arith

  extend_row-eq :
      (call : Cursor → Cursor) (xs ys : List ℕ)
      → ((cursor : Cursor) → call cursor ≡ advance ys cursor)
      → (c : ℕ) (p : View ℕ × View ℕ) → p.0 c ≡ length xs
      → extend_row g row_ptrs (g.node_freedom_map_table node) call c p
        ≡ (write p.0 c (length (xs ++ ys)), write_list p.1 (start c + length xs) ys)
  unfolding extend_row
  extend_row-eq call xs ys writes c (current, col_inds) e =
      rw (writes (start c + current c, col_inds))
        (λ i. (write current c (count i), write_list col_inds (place i) ys))
    where
      count :
          current c + (start c + current c + length ys - (start c + current c)) ≡ length (xs ++ ys)
      count = omega (arith, length-append xs ys)

      place : start c + current c ≡ start c + length xs
      place = omega arith

  -- The rows of the node follow one another.
  abbrev pub Follows : Type 0
  Follows = (c : ℕ) → c < g.active_dofs node → start (suc c) ≡ start c + length (system_row g node)

  module _ (follow : Follows) where
    abbrev Filled : View ℕ → List ℕ → View ℕ × View ℕ → Type 0
    Filled = IsFilled (g.active_dofs node) (length (system_row g node)) start follow

    -- A loop over elements or constraints appends the list of each to every row.
    fill_all :
        (base : View ℕ) (m : ℕ) (xs : List ℕ) (part : ℕ → List ℕ)
        (round : ℕ → View ℕ × View ℕ → View ℕ × View ℕ) (p : View ℕ × View ℕ)
        → length (xs ++ collect m part) ≤ length (system_row g node)
        → ((k : ℕ) (ys : List ℕ) (q : View ℕ × View ℕ)
            → length (ys ++ part k) ≤ length (system_row g node)
            → Filled base ys q
            → Filled base (ys ++ part k) (round k q))
        → Filled base xs p
        → Filled base (xs ++ collect m part) (parallel_for m round p)
    fill_all base m xs part round p fits one filled =
        parallel_for_inv (λ k q. Filled base (xs ++ collect k part) q) m round p
          (λ k q lt h.
            subst (λ ys. Filled base ys (round k q)) (append_assoc xs (collect k part) (part k))
              (one k (xs ++ collect k part) q (room k lt) h))
          (subst (λ ys. Filled base ys p) (sym (append-nil xs)) filled)
      where
        room :
            (k : ℕ) → k < m → length (xs ++ collect k part ++ part k) ≤ length (system_row g node)
        room k lt =
            let longer = length-collect_mono (suc k) m part lt in
            omega (
              arith,
              fits,
              longer,
              length-append xs (collect m part),
              length-append (xs ++ collect k part) (part k),
              length-append xs (collect k part),
              length-append (collect k part) (part k),
            )

    -- One element or constraint: its list is appended to every row, or none is.
    fill_one :
        (base : View ℕ) (call : Cursor → Cursor) (holds : Bool) (zs ys : List ℕ)
        (q : View ℕ × View ℕ)
        → ((cursor : Cursor) → call cursor ≡ advance zs cursor)
        → length (ys ++ (if holds then zs else [])) ≤ length (system_row g node)
        → Filled base ys q
        → Filled base (ys ++ (if holds then zs else [])) (
            if holds
            then parallel_for
                (g.active_dofs node)
                (extend_row g row_ptrs (g.node_freedom_map_table node) call)
                q
            else q)
    fill_one base call true zs ys q writes room h =
        extend_all (g.active_dofs node) (length (system_row g node)) start follow base ys zs _ q
          room (λ c p lt e. extend_row-eq call ys zs writes c p e) h
    fill_one base call false zs ys q writes room h =
        subst (λ xs. Filled base xs q) (sym (append-nil ys)) h

    fill_own :
        (base : View ℕ)
        → Filled base
            (node_columns g node)
            (parallel_for (g.active_dofs node) (start_row g row_ptrs node) ((λ _. 0), base))
    fill_own base =
        extend_all (g.active_dofs node) (length (system_row g node)) start follow base []
          (node_columns g node) _ ((λ _. 0), base) fits (λ c q lt e. start_row-eq c q)
          (record { lengths = λ c lt. refl; rows = λ c lt. tt; rest = λ j h. refl })
      where
        fits : length (node_columns g node) ≤ length (system_row g node)
        fits = omega (
          arith,
          length-append (node_columns g node) (
              collect g.num_elements (element_columns g node)
              ++ collect g.num_constraints (constraint_columns g node)),
        )

    -- The kernel fills every row of its node and writes nowhere else.
    pub compute_system_col_inds-IsFilled :
        (base : View ℕ)
        → ((c : ℕ)
            → c < g.active_dofs node
            → Holds (compute_system_col_inds g row_ptrs node base) (start c) (system_row g node))
          × ((j : ℕ)
              → (j < start 0) ⊎ (start (g.active_dofs node) ≤ j)
              → compute_system_col_inds g row_ptrs node base j ≡ base j)
    unfolding compute_system_col_inds
    compute_system_col_inds-IsFilled base =
        let elements = collect g.num_elements (element_columns g node) in
        let constraints = collect g.num_constraints (constraint_columns g node) in
        let assoc = append_assoc (node_columns g node) elements constraints in
        let whole = length-append (node_columns g node ++ elements) constraints in
        let filled =
          fill_all base g.num_constraints (node_columns g node ++ elements)
            (constraint_columns g node) _ _ (omega (arith, ap length assoc))
            (λ k ys q room h.
              fill_one base (compute_col_inds_in_constraint g row_ptrs k)
                (constraint_contains_node g k (g.node_freedom_map_table node))
                (multiplier_columns g k) ys q (in_constraint-advance g row_ptrs k) room h)
            (fill_all base g.num_elements (node_columns g node) (element_columns g node) _ _
              (omega (arith, whole, ap length assoc))
              (λ k ys q room h.
                fill_one base (compute_col_inds_in_element g row_ptrs k node)
                  (element_contains_node g k node) (other_columns g node k) ys q
                  (in_element-advance g row_ptrs k node) room h)
              (fill_own base)) in
        (
          λ c lt.
              subst (λ xs. Holds (compute_system_col_inds g row_ptrs node base) (start c) xs) assoc
                (filled.rows c lt),
          filled.rest,
        )
