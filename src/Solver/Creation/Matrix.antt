-- ===== src/Solver/Creation/Matrix.antt =====
-- CreateFullMatrix on the system that CreateSolver has numbered: the matrix has the rows of the
-- pattern.
use kynema_fmb.Base.{
  ℕ, suc, ◌+◌, ◌-◌, ◌*◌, ◌^◌, ◌≤◌, ◌<◌, ◌≡◌, ◌∙◌, arith, sym, subst, ◌∈◌, List, View, View2, Vector,
  segment,
}
use kynema_fmb.Elements.{IsConstructed}
use kynema_fmb.Constraints.{Constraint, Constraints, construct_constraints}
use kynema_fmb.Dof.System.{System}
use kynema_fmb.Solver.Connectivity.{Connectivity}
use kynema_fmb.Solver.Pattern.{system_row, IsNumbered}
use kynema_fmb.Solver.Pattern.Coupling.{element_coupled}
use kynema_fmb.Solver.Rows.{compute_row_ptrs}
use kynema_fmb.Solver.Ints.{to_int, to_int_lem}
use kynema_fmb.Solver.Placed.{IsPlaced}
use kynema_fmb.Solver.Creation.Rows.{
  coupled_row, multiplier_row, system_row-coupled, constraint_row-multiplier,
}
use kynema_fmb.Solver.Columns.{compute_col_inds}
use kynema_fmb.Solver.Columns.Whole.{FitsInt, system_row_written, constraint_row_written}
use kynema_fmb.Solver.Creation.{create_solver}
use kynema_fmb.Solver.Creation.Numbered.{HasDistinctNodes, create_solver-IsNumbered}

-- The columns of one row of the matrix, before the library sorts it: the column indices from the
-- row's pointer to the next one. The views are what the new views hold before they are written.
pub record Fresh : Type 0 where
  pub counts : View ℕ
  pub nodes : View2 ℕ
  pub entries : View ℕ
  pub ptrs : View ℕ
  pub col_inds : View ℕ

unfoldable pub matrix_row : Fresh → Connectivity → ℕ → List ℕ
matrix_row fresh g r =
    let row_ptrs = compute_row_ptrs g fresh.entries fresh.ptrs in
    segment (compute_col_inds g row_ptrs fresh.col_inds) (row_ptrs r)
      (row_ptrs (suc r) - row_ptrs r)

-- What the numbering of a system and its matrix need: constraints as constructed from fewer than
-- 2 ^ 32 / 6 of them, elements as constructed with no node twice, and a matrix that `int` can index.
pub record IsPrepared {D : Type 0} (fresh : Fresh) (s : System D) (cs : Vector Constraint)
    : Type 0 where
  pub bound : s.state.num_system_nodes < 2 ^ 64
  pub small : 6 * cs.size < 2 ^ 32
  pub before : Constraints
  pub constraints : s.constraints ≡ construct_constraints before cs
  pub elements : IsConstructed s.elements
  pub distinct : HasDistinctNodes s.elements
  pub fits : FitsInt (create_solver fresh.counts fresh.nodes s) fresh.entries

module _ {D : Type 0} (fresh : Fresh) (s : System D) (cs : Vector Constraint)
    (ready : IsPrepared fresh s cs) where
  abbrev solver : Connectivity
  solver = create_solver fresh.counts fresh.nodes s

  numbered : IsNumbered solver
  numbered =
      create_solver-IsNumbered fresh.counts fresh.nodes s ready.before cs ready.bound ready.small
        ready.constraints ready.elements ready.distinct

  pub written_row :
      (node c : ℕ)
      → node < solver.num_nodes
      → c < solver.active_dofs node
      → matrix_row fresh solver (solver.node_freedom_map_table node + c) ≡ system_row solver node
  unfolding matrix_row
  written_row node c in_nodes lt =
      system_row_written solver fresh.entries fresh.ptrs ready.fits numbered fresh.col_inds node c
        in_nodes lt

  -- For a system with fewer than 2 ^ 64 nodes, constraints as constructed from fewer than 2 ^ 32 /
  -- 6 of them and with the stored counts and nodes of the system, elements with nodes of the
  -- system, as constructed and no node twice in one, and a matrix of fewer than 2 ^ 31 rows and
  -- entries: the column indices between the row pointer of component `c` of a node and the next
  -- pointer, after the kernels of CreateFullMatrix in their `int` arithmetic and before the
  -- library sorts them, are the numbers of the node, then those of the other nodes of every
  -- element that has the node, then the rows of every constraint whose base or target it is,
  -- whatever the memory of the new views held.
  pub created_system_row :
      (node c : ℕ)
      → IsPlaced s.constraints s.state.num_system_nodes
      → ((element i : ℕ)
          → element < solver.num_elements
          → i < solver.num_nodes_per_element element
          → solver.node_state_indices element i < solver.num_nodes)
      → node < solver.num_nodes
      → c < solver.active_dofs node
      → matrix_row fresh solver (solver.node_freedom_map_table node + c)
        ≡ coupled_row solver s.constraints node
  created_system_row node c placed inside in_nodes lt =
      written_row node c in_nodes lt
      ∙ system_row-coupled fresh.counts fresh.nodes s placed ready.bound numbered ready.fits.dofs
          node c in_nodes lt inside

  -- For a system with fewer than 2 ^ 64 nodes, constraints as constructed from fewer than 2 ^ 32 /
  -- 6 of them and with the stored counts and nodes of the system, elements as constructed and no
  -- node twice in one, and a matrix of fewer than 2 ^ 31 rows and entries: the column indices of a
  -- row of constraint `k` are the numbers of the components of its target node and then those of
  -- its base node, as many as the constraint has of each.
  pub created_constraint_row :
      (k row : ℕ)
      → IsPlaced s.constraints s.state.num_system_nodes
      → k < solver.num_constraints
      → (solver.row_range k).0 ≤ row
      → row < (solver.row_range k).1
      → matrix_row fresh solver (row + solver.num_system_dofs)
        ≡ multiplier_row solver s.constraints k
  unfolding matrix_row
  created_constraint_row k row placed in_k lo hi =
      constraint_row_written solver fresh.entries fresh.ptrs ready.fits numbered fresh.col_inds k
        row in_k lo hi
      ∙ constraint_row-multiplier fresh.counts fresh.nodes s placed ready.bound numbered
          ready.fits.dofs k in_k

  -- The row of every degree of freedom of a node of an element has an entry for every degree of
  -- freedom of every node of the element, if the nodes are nodes of the system.
  pub matrix_coupled :
      (element i j c d : ℕ)
      → element < solver.num_elements
      → i < solver.num_nodes_per_element element
      → j < solver.num_nodes_per_element element
      → solver.node_state_indices element i < solver.num_nodes
      → solver.node_state_indices element j < solver.num_nodes
      → c < solver.active_dofs (solver.node_state_indices element i)
      → d < solver.active_dofs (solver.node_state_indices element j)
      → (solver.node_freedom_map_table (solver.node_state_indices element j) + d)
        ∈ matrix_row fresh solver
            (solver.node_freedom_map_table (solver.node_state_indices element i) + c)
  matrix_coupled element i j c d in_elements in_i in_j node_i node_j has_c has_d =
      let column = solver.node_freedom_map_table (solver.node_state_indices element j) + d in
      let below : column < 2 ^ 31 = omega (
        arith,
        numbered.node_below (solver.node_state_indices element j) node_j,
        numbered.dofs_below,
        ready.fits.dofs,
      ) in
      subst
        (λ entry.
          entry
          ∈ matrix_row fresh solver
              (solver.node_freedom_map_table (solver.node_state_indices element i) + c))
        (to_int_lem column below)
        (subst (λ row. to_int column ∈ row)
          (sym (written_row (solver.node_state_indices element i) c node_i has_c))
          (element_coupled solver element i j d in_elements in_i in_j has_d))
