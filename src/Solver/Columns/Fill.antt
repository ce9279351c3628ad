-- ===== src/Solver/Columns/Fill.antt =====
-- The loops over a cursor append lists, and the loops over the rows of a node extend all of them.
use kynema_fmb.Base.{
  ℕ, zero, suc, ◌+◌, ◌-◌, ◌≡◌, sym, ap, ◌∙◌, arith, List, [], ◌∷◌, ◌++◌, length, length-append,
  View, write, write_list, write_list-append, collect, parallel_for, ◌==◌, Bool-cases, inl, inr,
  if◌then◌else◌,
}
use kynema_fmb.Solver.Ints.{to_int}
use kynema_fmb.Solver.Connectivity.{Connectivity}
use kynema_fmb.Solver.Pattern.{columns, node_columns, other_columns, multiplier_columns}
use kynema_fmb.Solver.Columns.{
  Cursor, write_columns, compute_col_inds_in_element, compute_col_inds_in_constraint,
}

-- The cursor after a list has been written.
abbrev pub advance : List ℕ → Cursor → Cursor
advance xs (index, col_inds) = (index + length xs, write_list col_inds index xs)

pub advance-append :
    (xs ys : List ℕ) (cursor : Cursor) → advance ys (advance xs cursor) ≡ advance (xs ++ ys) cursor
advance-append xs ys (index, col_inds) =
    λ i. (sum i, sym (write_list-append col_inds index xs ys) i)
  where
    sum : index + length xs + length ys ≡ index + length (xs ++ ys)
    sum = omega (arith, length-append xs ys)

advance-nil : (cursor : Cursor) → cursor ≡ advance [] cursor
unfolding write_list
advance-nil (index, col_inds) = λ i. (index_plus_zero i, col_inds)
  where
    index_plus_zero : index ≡ index + 0
    index_plus_zero = omega arith

-- A loop whose rounds write lists writes the joined list.
loop-advance :
    (n : ℕ) (f : ℕ → List ℕ) (body : ℕ → Cursor → Cursor) (cursor : Cursor)
    → ((k : ℕ) (c : Cursor) → body k c ≡ advance (f k) c)
    → parallel_for n body cursor ≡ advance (collect n f) cursor
unfolding parallel_for
loop-advance zero f body cursor same = advance-nil cursor
loop-advance (suc n) f body cursor same =
    same n (parallel_for n body cursor)
    ∙ ap (advance (f n)) (loop-advance n f body cursor same)
    ∙ advance-append (collect n f) (f n) cursor

pub write_columns-advance :
    (count : ℕ) (column : ℕ → ℕ) (cursor : Cursor)
    → write_columns count column cursor ≡ advance (columns count column) cursor
unfolding write_columns write_list
write_columns-advance count column cursor =
    loop-advance count (λ k. to_int (column k) ∷ []) _ cursor
      (λ k c i. (plus_one c.0 i, write c.1 c.0 (to_int (column k))))
  where
    plus_one : (n : ℕ) → suc n ≡ n + 1
    plus_one n = omega arith

module _ (g : Connectivity) (row_ptrs : View ℕ) where
  pub in_element-advance :
      (element node : ℕ) (cursor : Cursor)
      → compute_col_inds_in_element g row_ptrs element node cursor
        ≡ advance (other_columns g node element) cursor
  unfolding compute_col_inds_in_element
  in_element-advance element node cursor =
      loop-advance (g.num_nodes_per_element element) _ _ cursor step
    where
      step :
          (i : ℕ) (c : Cursor)
          → (if g.node_state_indices element i == node
              then c
              else write_columns
                  (g.active_dofs (g.node_state_indices element i))
                  (λ component.
                    g.node_freedom_map_table (g.node_state_indices element i) + component)
                  c)
            ≡ advance
                (if g.node_state_indices element i == node
                  then []
                  else node_columns g (g.node_state_indices element i))
                c
      step i c = elim (Bool-cases (g.node_state_indices element i == node)) [
        | inl e ↦ rw e (advance-nil c)
        | inr e ↦ rw e (write_columns-advance (g.active_dofs (g.node_state_indices element i)) _ c)
      ]

  pub in_constraint-advance :
      (constraint : ℕ) (cursor : Cursor)
      → compute_col_inds_in_constraint g row_ptrs constraint cursor
        ≡ advance (multiplier_columns g constraint) cursor
  unfolding compute_col_inds_in_constraint
  in_constraint-advance constraint cursor =
      write_columns-advance ((g.row_range constraint).1 - (g.row_range constraint).0) _ cursor
