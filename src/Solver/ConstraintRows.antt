-- ===== src/Solver/ConstraintRows.antt =====
-- src/solver/copy_constraints_residual_to_vector.hpp and src/constraints/update_lambda_prediction.hpp:
-- the entries of the right-hand side that belong to the rows of the constraints, and the entries of the
-- solution that their multipliers take. The addition of `double` numbers is a parameter, and
-- `force_atomic` says whether the kernels run on another space than the serial one.
use kynema_fmb.Base.{
  ℕ, ◌+◌, ◌-◌, ◌*◌, ◌^◌, ◌<◌, ◌≡◌, ◌≢◌, refl, ◌∙◌, arith, Bool, View, View2, Vector, write,
  write_self, write_ne, write2, write2_self, write2_row, write2_column, parallel_for,
  parallel_for_once, parallel_for_keep, for_range, if◌then◌else◌, ltb, Bool-cases, inl, inr,
}
use kynema_fmb.Constraints.{Constraint, Constraints, construct_constraints}
use kynema_fmb.Constraints.Rows.{row_range_order, construct_constraints-num_constraints}

module _ {D : Type 0} (add : D → D → D) (force_atomic : Bool) where
  -- CopyConstraintsResidualToVector::operator()
  unfoldable pub copy_constraint_residual : Constraints → ℕ → View2 D → ℕ → View D → View D
  copy_constraint_residual c start_row terms constraint residual =
      let first_row = (c.row_range constraint).0 + start_row in
      let num_rows = (c.row_range constraint).1 - (c.row_range constraint).0 in
      parallel_for num_rows
        (λ component r.
          let term = terms constraint component in
          let index = first_row + component in
          write r index (if force_atomic then add (r index) term else term))
        residual

  -- The kernel over the constraints.
  unfoldable pub copy_constraints_residual_to_vector : Constraints → ℕ → View2 D → View D → View D
  copy_constraints_residual_to_vector c start_row terms residual =
      parallel_for c.num_constraints (copy_constraint_residual c start_row terms) residual

-- UpdateLambdaPrediction::operator(). Both branches add.
unfoldable pub update_lambda :
    {D : Type 0} → (D → D → D) → Constraints → ℕ → View D → ℕ → View2 D → View2 D
update_lambda add c num_system_dofs x constraint lambda =
    let (first_index, max_index) = c.row_range constraint in
    for_range first_index max_index
      (λ row l.
        write2 l constraint (row - first_index)
          (add (l constraint (row - first_index)) (x (num_system_dofs + row))))
      lambda

unfoldable pub update_constraint_prediction :
    {D : Type 0} → (D → D → D) → Constraints → ℕ → View D → View2 D → View2 D
update_constraint_prediction add c num_system_dofs x lambda =
    parallel_for c.num_constraints (update_lambda add c num_system_dofs x) lambda

-- For constraints as constructed, six rows for each of which fit an `unsigned int`: after the
-- kernel over all of them, the entry of every row of every constraint is the term of this row,
-- added to what the entry held if the kernel runs in parallel, and in place of it if not.
pub copy_constraints_residual_to_vector_lem :
    {D : Type 0} (add : D → D → D) (force_atomic : Bool) (fresh : Constraints)
    (cs : Vector Constraint) (start_row : ℕ) (terms : View2 D) (residual : View D) (k component : ℕ)
    → 6 * cs.size < 2 ^ 32
    → k < cs.size
    → ((construct_constraints fresh cs).row_range k).0 + component
      < ((construct_constraints fresh cs).row_range k).1
    → let c = construct_constraints fresh cs in
      let index = (c.row_range k).0 + start_row + component in
      copy_constraints_residual_to_vector add force_atomic c start_row terms residual index
      ≡ (if force_atomic then add (residual index) (terms k component) else terms k component)
unfolding copy_constraints_residual_to_vector copy_constraint_residual
copy_constraints_residual_to_vector_lem add force_atomic fresh cs start_row terms residual k
      component small in_k lt =
    let all = construct_constraints-num_constraints fresh cs in
    let c = construct_constraints fresh cs in
    let index = (c.row_range k).0 + start_row + component in
    let term = terms k component in
    let g = λ (a : _). if force_atomic then add a term else term in
    parallel_for_once (λ (v : View _). v index) g c.num_constraints k _ residual
      (omega (arith, all))
      (λ v.
        parallel_for_once (λ (u : View _). u index) g ((c.row_range k).1 - (c.row_range k).0)
          component _ v (omega arith) (λ u. write_self u index _)
          (λ j u below ne. write_ne u ((c.row_range k).0 + start_row + j) index _ (omega arith)))
      (λ i v below ne.
        parallel_for_keep (λ (u : View _). u index ≡ v index)
          ((c.row_range i).1 - (c.row_range i).0) _ v
          (λ j u under p.
            write_ne u ((c.row_range i).0 + start_row + j) index _
              (apart i j ne (omega (arith, all)) under)
            ∙ p)
          refl)
  where
    apart :
        (i j : ℕ)
        → i ≢ k
        → i < cs.size
        → j
          < ((construct_constraints fresh cs).row_range i).1
            - ((construct_constraints fresh cs).row_range i).0
        → ((construct_constraints fresh cs).row_range i).0 + start_row + j
          ≢ ((construct_constraints fresh cs).row_range k).0 + start_row + component
    apart i j ne in_i within = elim (Bool-cases (ltb i k)) [
      | inl before ↦
          let order = row_range_order fresh cs i k small (ground arith) (omega arith) in
          omega (arith, order.0)
      | inr after ↦
          let order = row_range_order fresh cs k i small (ground arith) in_i in
          omega (arith, order.0)
    ]

-- After the kernel over all constraints, the multiplier of every row of every constraint has been
-- increased by the one entry of the solution that belongs to the row, and only once.
pub update_constraint_prediction_lem :
    {D : Type 0} (add : D → D → D) (c : Constraints) (num_system_dofs : ℕ) (x : View D)
    (lambda : View2 D) (k component : ℕ)
    → k < c.num_constraints
    → (c.row_range k).0 + component < (c.row_range k).1
    → update_constraint_prediction add c num_system_dofs x lambda k component
      ≡ add (lambda k component) (x (num_system_dofs + ((c.row_range k).0 + component)))
unfolding update_constraint_prediction update_lambda for_range
update_constraint_prediction_lem add c num_system_dofs x lambda k component in_k lt =
    let first = (c.row_range k).0 in
    let amount = x (num_system_dofs + (first + component)) in
    let column : (j : ℕ) → first + j - first ≡ j = λ j. omega arith in
    parallel_for_once (λ (l : View2 _). l k component) (λ a. add a amount) c.num_constraints k _
      lambda in_k
      (λ l.
        parallel_for_once (λ (m : View2 _). m k component) (λ a. add a amount)
          ((c.row_range k).1 - first) component _ l (omega arith)
          (λ m. rw (column component) (write2_self m k component _))
          (λ j m below ne. rw (column j) (write2_column m k j component _ ne)))
      (λ i l below ne.
        parallel_for_keep (λ (m : View2 _). m k component ≡ l k component)
          ((c.row_range i).1 - (c.row_range i).0) _ l
          (λ j m under p. write2_row m i _ k component _ ne ∙ p) refl)
