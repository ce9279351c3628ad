-- ===== src/Solver/Assembly/ConstraintLoads.antt =====
-- The kernels of the constraints in AssembleConstraintsResidual, on a numbered system, as lists of
-- additions.
use kynema_fmb.Base.{
  ℕ, ◌+◌, ◌^◌, ◌<◌, ◌≡◌, refl, ap, ◌∙◌, sym, arith, List, [], ◌∷◌, ◌++◌, map, View, collect, All,
  All-append,
}
use kynema_fmb.Constraints.{Constraints}
use kynema_fmb.Dof.Signature.{count_active_dofs}
use kynema_fmb.Dof.System.{System, assign_dofs}
use kynema_fmb.Dof.Tables.{create_constraint_freedom_table}
use kynema_fmb.Dof.Tables.Laws.{target_table, base_table}
use kynema_fmb.Solver.Placed.{IsPlaced, target_active, base_active}
use kynema_fmb.Solver.Assembly.{ConstraintTerms, contribute_system_residual, contribute_lambda}
use kynema_fmb.Solver.Assembly.Loads.{Load, load, number, one_entry, scatter_loads-append}
use kynema_fmb.Solver.Assembly.Residual.{IsInSystem}
use kynema_fmb.Solver.Assembly.Terms.{
  scatter, parallel_for-scatter, collect_congr, map-collect, All-collect,
}

-- The terms of a constraint with the nodes and components that they are for.
module _ {D : Type 0} where
  abbrev pub system_loads : Constraints → ConstraintTerms D → ℕ → List (Load D)
  system_loads c terms i =
      collect (c.target_active_dofs i)
        (λ k. load (c.target_node_index i) k (terms.system_residual_terms i k) ∷ [])

  abbrev pub base_loads : Constraints → ConstraintTerms D → ℕ → List (Load D)
  base_loads c terms i =
      collect (count_active_dofs (c.base_node_freedom_signature i))
        (λ k. load (c.base_node_index i) k (terms.base_lambda_residual_terms i k) ∷ [])

  abbrev pub target_loads : Constraints → ConstraintTerms D → ℕ → List (Load D)
  target_loads c terms i =
      collect (count_active_dofs (c.target_node_freedom_signature i))
        (λ k. load (c.target_node_index i) k (terms.target_lambda_residual_terms i k) ∷ [])

  abbrev pub constraint_loads : Constraints → ConstraintTerms D → List (Load D)
  constraint_loads c terms =
      collect c.num_constraints (system_loads c terms)
      ++ collect c.num_constraints (λ i. base_loads c terms i ++ target_loads c terms i)

module _ {D : Type 0} (add : D → D → D) (s : System D) (terms : ConstraintTerms D)
    (placed : IsPlaced s.constraints s.state.num_system_nodes) where
  pub system_residual-scatter :
      (i : ℕ) (v : View D)
      → i < s.constraints.num_constraints
      → contribute_system_residual add (assign_dofs s).constraints terms i v
        ≡ scatter add
            (map
              (number (assign_dofs s).state.node_freedom_map_table)
              (system_loads s.constraints terms i))
            v
  unfolding contribute_system_residual assign_dofs create_constraint_freedom_table scatter
  system_residual-scatter i v lt =
      let state = (assign_dofs s).state in
      let at = number state.node_freedom_map_table in
      let c = s.constraints in
      let row = (create_constraint_freedom_table c state).target_node_freedom_table i in
      let one : ℕ → List (Load D) =
        λ k. load (c.target_node_index i) k (terms.system_residual_terms i k) ∷ [] in
      parallel_for-scatter add (c.target_active_dofs i)
        (λ k. (row k, terms.system_residual_terms i k) ∷ []) _ v (λ k w below. refl)
      ∙ ap (λ l. scatter add l v)
          (collect_congr (c.target_active_dofs i)
              (λ k. (row k, terms.system_residual_terms i k) ∷ []) (λ k. map at (one k))
              (λ k below. one_entry (terms.system_residual_terms i k) (
                target_table state c i k lt
                  (target_active s placed i k lt (omega (arith, placed.target_count i lt)))))
            ∙ sym (map-collect at (c.target_active_dofs i) one))

  pub lambda-scatter :
      (i : ℕ) (v : View D)
      → i < s.constraints.num_constraints
      → contribute_lambda add (assign_dofs s).constraints terms i v
        ≡ scatter add
            (map
              (number (assign_dofs s).state.node_freedom_map_table)
              (base_loads s.constraints terms i ++ target_loads s.constraints terms i))
            v
  unfolding contribute_lambda assign_dofs create_constraint_freedom_table scatter
  lambda-scatter i v lt =
      let state = (assign_dofs s).state in
      let at = number state.node_freedom_map_table in
      let c = s.constraints in
      let numbered = create_constraint_freedom_table c state in
      let first_base = numbered.base_node_freedom_table i 0 in
      let first_target = numbered.target_node_freedom_table i 0 in
      let n_base = count_active_dofs (c.base_node_freedom_signature i) in
      let n_target = count_active_dofs (c.target_node_freedom_signature i) in
      let base_one : ℕ → List (Load D) =
        λ k. load (c.base_node_index i) k (terms.base_lambda_residual_terms i k) ∷ [] in
      let target_one : ℕ → List (Load D) =
        λ k. load (c.target_node_index i) k (terms.target_lambda_residual_terms i k) ∷ [] in
      let base_part : ℕ → List (ℕ × D) =
        λ k. (first_base + k, terms.base_lambda_residual_terms i k) ∷ [] in
      let target_part : ℕ → List (ℕ × D) =
        λ k. (first_target + k, terms.target_lambda_residual_terms i k) ∷ [] in
      parallel_for-scatter add n_target target_part _ _ (λ k w below. refl)
      ∙ ap (scatter add (collect n_target target_part))
          (parallel_for-scatter add n_base base_part _ v (λ k w below. refl))
      ∙ ap (λ l. scatter add l (scatter add (collect n_base base_part) v))
          (collect_congr n_target target_part (λ k. map at (target_one k))
              (λ k below. one_entry (terms.target_lambda_residual_terms i k) (
                omega (
                  arith,
                  target_table state c i 0 lt (target_active s placed i 0 lt (omega arith)),
                )))
            ∙ sym (map-collect at n_target target_one))
      ∙ ap (λ l. scatter add (map at (collect n_target target_one)) (scatter add l v))
          (collect_congr n_base base_part (λ k. map at (base_one k))
              (λ k below. one_entry (terms.base_lambda_residual_terms i k) (
                omega (
                  arith,
                  base_table state c i 0 lt (placed.base_count i k lt below)
                      (base_active s placed i 0 lt (omega arith)),
                )))
            ∙ sym (map-collect at n_base base_one))
      ∙ sym (
          scatter_loads-append add state.node_freedom_map_table (collect n_base base_one)
            (collect n_target target_one) v)

  pub constraint_loads-IsInSystem :
      (bound : s.state.num_system_nodes < 2 ^ 64)
      → All (IsInSystem s bound) (constraint_loads s.constraints terms)
  constraint_loads-IsInSystem bound =
      let c = s.constraints in
      let In = IsInSystem s bound in
      All-append In (collect c.num_constraints (system_loads c terms)) _
        (All-collect In c.num_constraints (system_loads c terms) (λ i lt.
          All-collect In (c.target_active_dofs i)
            (λ k. load (c.target_node_index i) k (terms.system_residual_terms i k) ∷ [])
            (λ k below. (
              (
                placed.target_node i lt,
                target_active s placed i k lt (omega (arith, placed.target_count i lt)),
              ),
              tt,
            ))))
        (All-collect In c.num_constraints (λ i. base_loads c terms i ++ target_loads c terms i)
          (λ i lt.
            All-append In (base_loads c terms i) (target_loads c terms i)
              (All-collect In (count_active_dofs (c.base_node_freedom_signature i))
                (λ k. load (c.base_node_index i) k (terms.base_lambda_residual_terms i k) ∷ [])
                (λ k below. (
                  (
                    placed.base_node i lt (placed.base_count i k lt below),
                    base_active s placed i k lt below,
                  ),
                  tt,
                )))
              (All-collect In (count_active_dofs (c.target_node_freedom_signature i))
                (λ k. load (c.target_node_index i) k (terms.target_lambda_residual_terms i k) ∷ [])
                (λ k below. ((placed.target_node i lt, target_active s placed i k lt below), tt)))))
