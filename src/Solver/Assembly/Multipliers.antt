-- ===== src/Solver/Assembly/Multipliers.antt =====
-- AssembleConstraintsResidual on a numbered system: which terms of the constraints an entry of a degree
-- of freedom gets.
use kynema_fmb.Base.{
  ℕ, ◌+◌, ◌-◌, ◌^◌, ◌<◌, ◌≡◌, Bool, refl, ap, ◌∙◌, sym, arith, ◌++◌, map, View, write_ne,
  parallel_for, parallel_for_keep, collect, ◌==◌, ==_iff, Bool-cases, inl, inr,
}
use kynema_fmb.Constraints.{Constraints}
use kynema_fmb.Dof.System.{System, assign_dofs}
use kynema_fmb.Dof.System.Laws.{dof_below, num_dofs}
use kynema_fmb.Dof.Tables.{create_constraint_freedom_table}
use kynema_fmb.Solver.Assembly.{
  ConstraintTerms, contribute_system_residual, contribute_lambda, assemble_constraints_residual,
}
use kynema_fmb.Solver.Assembly.Loads.{loads_at, number, loop-scatter, scatter_loads-append}
use kynema_fmb.Solver.Assembly.Residual.{values_at-loads_at}
use kynema_fmb.Solver.Assembly.Terms.{scatter, scatter_entry, total}
use kynema_fmb.Solver.ConstraintRows.{copy_constraints_residual_to_vector, copy_constraint_residual}
use kynema_fmb.Solver.Placed.{IsPlaced}
use kynema_fmb.Solver.Assembly.ConstraintLoads.{
  system_loads, base_loads, target_loads, constraint_loads, system_residual-scatter, lambda-scatter,
  constraint_loads-IsInSystem,
}

-- The rows of the constraints lie behind the degrees of freedom of the nodes.
copy_before :
    {D : Type 0} (add : D → D → D) (force_atomic : Bool) (c : Constraints)
    (terms : ConstraintTerms D) (start e : ℕ) (v : View D)
    → e < start
    → copy_constraints_residual_to_vector add force_atomic c start terms.residual_terms v e ≡ v e
unfolding copy_constraints_residual_to_vector copy_constraint_residual
copy_before add force_atomic c terms start e v lt =
    parallel_for_keep (λ (w : View _). w e ≡ v e) c.num_constraints _ v
      (λ i w below h.
        parallel_for_keep (λ (u : View _). u e ≡ w e) ((c.row_range i).1 - (c.row_range i).0) _ w
          (λ k u under same. write_ne u ((c.row_range i).0 + start + k) e _ (omega arith) ∙ same)
          refl
        ∙ h)
      refl

no_rounds : {A : Type 0} (n : ℕ) (body : ℕ → A → A) (a : A) → n ≡ 0 → parallel_for n body a ≡ a
unfolding parallel_for
no_rounds n body a e = ap (λ k. parallel_for k body a) e

-- The two kernels that add, at the number of a degree of freedom.
contributed :
    {D : Type 0} (add : D → D → D) (s : System D) (terms : ConstraintTerms D) (b : View D)
    (node c : ℕ)
    → s.state.num_system_nodes < 2 ^ 64
    → IsPlaced s.constraints s.state.num_system_nodes
    → node < s.state.num_system_nodes
    → c < (assign_dofs s).state.active_dofs node
    → parallel_for s.constraints.num_constraints
        (contribute_lambda add (assign_dofs s).constraints terms)
        (parallel_for s.constraints.num_constraints
          (contribute_system_residual add (assign_dofs s).constraints terms)
          b)
        ((assign_dofs s).state.node_freedom_map_table node + c)
      ≡ total add
          (b ((assign_dofs s).state.node_freedom_map_table node + c))
          (loads_at node c (constraint_loads s.constraints terms))
contributed add s terms b node c bound placed in_node below =
    let table = (assign_dofs s).state.node_freedom_map_table in
    let n = s.constraints.num_constraints in
    let entry = table node + c in
    let system = collect n (system_loads s.constraints terms) in
    let lambda =
      collect n (λ i. base_loads s.constraints terms i ++ target_loads s.constraints terms i) in
    ap (λ (v : View _). v entry)
      (loop-scatter add table n
          (λ i. base_loads s.constraints terms i ++ target_loads s.constraints terms i) _ _
          (λ k w lt. lambda-scatter add s terms placed k w lt)
        ∙ ap (scatter add (map (number table) lambda)) (
            loop-scatter add table n (system_loads s.constraints terms) _ b
              (λ k w lt. system_residual-scatter add s terms placed k w lt))
        ∙ sym (scatter_loads-append add table system lambda b))
    ∙ scatter_entry add (map (number table) (system ++ lambda)) b entry
    ∙ ap (total add (b entry)) (
        values_at-loads_at s bound (system ++ lambda) node c
          (constraint_loads-IsInSystem add s terms placed bound) in_node below)

-- In a numbered system of fewer than 2 ^ 64 nodes, whose constraints have the counts that the
-- constructor stores and nodes of the system: after AssembleConstraintsResidual, the entry of
-- every degree of freedom of every node is what it was plus the terms of the constraints for this
-- component of this node, each once, in the order of the kernels.
pub assembled_multipliers :
    {D : Type 0} (add : D → D → D) (force_atomic : Bool) (s : System D) (terms : ConstraintTerms D)
    (b : View D) (node c : ℕ)
    → s.state.num_system_nodes < 2 ^ 64
    → IsPlaced s.constraints s.state.num_system_nodes
    → node < s.state.num_system_nodes
    → c < (assign_dofs s).state.active_dofs node
    → let after = assign_dofs s in
      let entry = after.state.node_freedom_map_table node + c in
      assemble_constraints_residual add force_atomic after.constraints terms (num_dofs s) b entry
      ≡ total add (b entry) (loads_at node c (constraint_loads s.constraints terms))
unfolding assemble_constraints_residual assign_dofs create_constraint_freedom_table
assembled_multipliers add force_atomic s terms b node c bound placed in_node below =
    let after = assign_dofs s in
    let n = s.constraints.num_constraints in
    let entry = after.state.node_freedom_map_table node + c in
    let system = contribute_system_residual add after.constraints terms in
    let lambda = contribute_lambda add after.constraints terms in
    let all = contributed add s terms b node c bound placed in_node below in
    elim (Bool-cases (n == 0)) [
      | inl e ↦
          let none_there : n ≡ 0 = (==_iff n 0).0 e in
          rw e (
            sym (
              ap (λ (v : View _). v entry)
                (no_rounds n lambda (parallel_for n system b) none_there
                  ∙ no_rounds n system b none_there))
            ∙ all)
      | inr e ↦ rw e (
          copy_before add force_atomic after.constraints terms (num_dofs s) entry _
            (dof_below s node c bound in_node below)
          ∙ all)
    ]
