-- ===== src/Solver/Pattern.antt =====
-- What the kernels write into the rows of the matrix, as lists of columns: those of a node, then those of the
-- other nodes of its elements, then the rows of its constraints; for a row of a constraint, those of
-- its target node and then those of its base node.
pub mod Coupling
use kynema_fmb.Base.{
  ℕ, zero, suc, ◌+◌, ◌-◌, ◌≤◌, ◌<◌, ◌≡◌, ◌≢◌, refl, ap, ◌∙◌, arith, List, [], ◌∷◌, ◌++◌, length,
  length-append, View, Bool, true, false, ◌||◌, ◌==◌, if◌then◌else◌, collect, parallel_for,
  parallel_for_inv, sum_below, Bool-cases, inl, inr, ==_iff,
}
use kynema_fmb.Solver.Ints.{to_int}
use kynema_fmb.Solver.Connectivity.{Connectivity, element_contains_node, constraint_contains_node}

-- `column 0`, …, `column (count - 1)`, each in an `int`
abbrev pub columns : ℕ → (ℕ → ℕ) → List ℕ
columns count column = collect count (λ component. to_int (column component) ∷ [])

pub length-collect :
    (n : ℕ) (f : ℕ → List ℕ) → length (collect n f) ≡ sum_below n (λ k. length (f k))
length-collect zero f = refl
length-collect (suc n) f = omega (arith, length-append (collect n f) (f n), length-collect n f)

pub length-columns : (n : ℕ) (f : ℕ → ℕ) → length (columns n f) ≡ n
length-columns zero f = refl
length-columns (suc n) f =
    omega (arith, length-append (columns n f) (to_int (f n) ∷ []), length-columns n f)

module _ (g : Connectivity) where
  abbrev pub node_columns : ℕ → List ℕ
  node_columns node =
      columns (g.active_dofs node) (λ component. g.node_freedom_map_table node + component)

  -- The columns of the nodes of an element other than `node`.
  abbrev pub other_columns : ℕ → ℕ → List ℕ
  other_columns node element = collect (g.num_nodes_per_element element) (λ i.
      let other = g.node_state_indices element i in
      if other == node then [] else node_columns other)

  abbrev pub element_columns : ℕ → ℕ → List ℕ
  element_columns node element =
      if element_contains_node g element node then other_columns node element else []

  abbrev pub multiplier_columns : ℕ → List ℕ
  multiplier_columns constraint =
      let first_row = (g.row_range constraint).0 in
      columns ((g.row_range constraint).1 - first_row) (λ k. g.num_system_dofs + (first_row + k))

  abbrev pub constraint_columns : ℕ → ℕ → List ℕ
  constraint_columns node constraint =
      if constraint_contains_node g constraint (g.node_freedom_map_table node)
      then multiplier_columns constraint
      else []

  -- Every row of a node.
  abbrev pub system_row : ℕ → List ℕ
  system_row node =
      node_columns node
      ++ (collect g.num_elements (element_columns node)
          ++ collect g.num_constraints (constraint_columns node))

  -- Every row of a constraint.
  abbrev pub constraint_row : ℕ → List ℕ
  constraint_row constraint =
      columns (g.target_active_dofs constraint) (g.target_node_freedom_table constraint)
      ++ columns (g.base_active_dofs constraint) (g.base_node_freedom_table constraint)

  -- What the numbering of the degrees of freedom and the input give: the nodes and the constraints
  -- have disjoint consecutive rows, and no element has a node twice.
  pub record IsNumbered : Type 0 where
    pub node_order :
        (i j : ℕ)
        → i < j
        → j < g.num_nodes
        → g.node_freedom_map_table i + g.active_dofs i ≤ g.node_freedom_map_table j
    pub node_below :
        (i : ℕ) → i < g.num_nodes → g.node_freedom_map_table i + g.active_dofs i ≤ g.num_system_dofs
    pub dofs_below : g.num_system_dofs ≤ g.num_dofs
    pub row_width : (k : ℕ) → k < g.num_constraints → (g.row_range k).0 ≤ (g.row_range k).1
    pub row_order :
        (k l : ℕ) → k < l → l < g.num_constraints → (g.row_range k).1 ≤ (g.row_range l).0
    pub row_below :
        (k : ℕ) → k < g.num_constraints → g.num_system_dofs + (g.row_range k).1 ≤ g.num_dofs
    pub distinct :
        (element i j : ℕ)
        → element < g.num_elements
        → i < j
        → j < g.num_nodes_per_element element
        → g.node_state_indices element i ≢ g.node_state_indices element j
