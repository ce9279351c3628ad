-- ===== src/Solver/Creation/Rows.antt =====
-- What a row of the matrix should hold, said of the elements and constraints of the system and not of
-- the tests and tables of the kernels, and that the pattern of the kernels is this.
use mathlib.Core.Path.{ap₂}
use kynema_fmb.Base.{
  ℕ, zero, suc, ◌+◌, ◌-◌, ◌%◌, ◌^◌, ◌<◌, ◌≡◌, refl, sym, ap, ◌∙◌, subst, arith, List, [], ◌∷◌, ◌++◌,
  Bool, true, false, not, ◌&&◌, ◌||◌, ◌==◌, ==_iff, ==_ne, if◌then◌else◌, collect, View, View2,
  Bool-cases, inl, inr, parallel_for,
}
use kynema_fmb.Constraints.{Constraints}
use kynema_fmb.Dof.Signature.{count_active_dofs}
use kynema_fmb.Dof.Numbering.{compute_num_system_dofs}
use kynema_fmb.Dof.System.{System, assign_dofs}
use kynema_fmb.Dof.System.Laws.{dof_injective, dofs_end, num_dofs}
use kynema_fmb.Dof.Tables.{create_constraint_freedom_table}
use kynema_fmb.Dof.Tables.Laws.{target_table, base_table}
use kynema_fmb.Solver.Placed.{IsPlaced, target_active, base_active}
use kynema_fmb.Solver.Connectivity.{
  Connectivity, element_contains_node, base_contains_node, target_contains_node,
  constraint_contains_node,
}
use kynema_fmb.Solver.Pattern.{
  columns, node_columns, other_columns, element_columns, constraint_columns, multiplier_columns,
  system_row, constraint_row, IsNumbered,
}
use kynema_fmb.Solver.Assembly.Terms.{collect_congr}
use kynema_fmb.Solver.Creation.{create_solver}
use kynema_fmb.Solver.Creation.Numbered.{nodes_kept}

abbrev pub contains : ℕ → List ℕ → Bool
contains node [] = false
contains node (other ∷ others) = (other == node) || contains node others

contains-append :
    (node : ℕ) (xs ys : List ℕ) → contains node (xs ++ ys) ≡ contains node xs || contains node ys
contains-append node [] ys = refl
contains-append node (x ∷ xs) ys = elim (Bool-cases (x == node)) [
  | inl e ↦ rw e refl
  | inr e ↦ rw e (contains-append node xs ys)
]

module _ (g : Connectivity) where
  abbrev pub element_nodes : ℕ → List ℕ
  element_nodes element =
      collect (g.num_nodes_per_element element) (λ i. g.node_state_indices element i ∷ [])

  -- The numbers of the degrees of freedom of a node.
  abbrev pub dofs_of : ℕ → List ℕ
  dofs_of node = collect (g.active_dofs node) (λ c. (g.node_freedom_map_table node + c) ∷ [])

  abbrev pub dofs_of_others : ℕ → ℕ → List ℕ
  dofs_of_others node element = collect (g.num_nodes_per_element element) (λ i.
      if g.node_state_indices element i == node
      then []
      else dofs_of (g.node_state_indices element i))

  abbrev pub rows_of : ℕ → List ℕ
  rows_of k =
      collect ((g.row_range k).1 - (g.row_range k).0)
        (λ j. (g.num_system_dofs + ((g.row_range k).0 + j)) ∷ [])

-- A constraint with components of a node.
abbrev pub is_end : Constraints → ℕ → ℕ → Bool
is_end c k node =
    ((node == c.base_node_index k) && not (c.base_active_dofs k == 0))
    || ((node == c.target_node_index k) && not (c.target_active_dofs k == 0))

-- The row of a node: its own degrees of freedom, those of the other nodes of every element that has
-- the node, and the rows of every constraint that has the node.
abbrev pub coupled_row : Connectivity → Constraints → ℕ → List ℕ
coupled_row g c node =
    dofs_of g node
    ++ (collect g.num_elements (λ element.
          if contains node (element_nodes g element) then dofs_of_others g node element else [])
        ++ collect g.num_constraints (λ k. if is_end c k node then rows_of g k else []))

-- The row of a constraint: the degrees of freedom of its target node and of its base node.
abbrev pub multiplier_row : Connectivity → Constraints → ℕ → List ℕ
multiplier_row g c k =
    collect (c.target_active_dofs k)
      (λ j. (g.node_freedom_map_table (c.target_node_index k) + j) ∷ [])
    ++ collect (c.base_active_dofs k)
        (λ j. (g.node_freedom_map_table (c.base_node_index k) + j) ∷ [])

columns_exact :
    (n : ℕ) (f h : ℕ → ℕ)
    → ((k : ℕ) → k < n → (f k ≡ h k) × (h k < 2 ^ 31))
    → columns n f ≡ collect n (λ k. h k ∷ [])
columns_exact n f h same =
    collect_congr n _ _
      (λ k lt. let (e, small) = same k lt in ap (λ x. x ∷ []) (cast (f k) (h k) e small))
  where
    cast : (a b : ℕ) → a ≡ b → b < 2 ^ 31 → a % 2 ^ 32 ≡ b
    cast a b e small = omega arith

module _ (g : Connectivity) where
  element_contains-nodes :
      (element node : ℕ)
      → element_contains_node g element node ≡ contains node (element_nodes g element)
  unfolding element_contains_node parallel_for
  element_contains-nodes element node = seen (g.num_nodes_per_element element)
    where
      or_false : (b : Bool) → b || false ≡ b
      or_false true = refl
      or_false false = refl

      seen :
          (n : ℕ)
          → parallel_for n (λ i found. found || (g.node_state_indices element i == node)) false
            ≡ contains node (collect n (λ i. g.node_state_indices element i ∷ []))
      seen zero = refl
      seen (suc n) =
          ap₂ (◌||◌) (seen n) (sym (or_false (g.node_state_indices element n == node)))
          ∙ sym (
              contains-append node (collect n (λ i. g.node_state_indices element i ∷ []))
                (g.node_state_indices element n ∷ []))

  module _ (numbered : IsNumbered g) (small : g.num_dofs < 2 ^ 31) where
    node_columns-exact : (node : ℕ) → node < g.num_nodes → node_columns g node ≡ dofs_of g node
    node_columns-exact node lt =
        columns_exact (g.active_dofs node) _ (λ c. g.node_freedom_map_table node + c)
          (λ c below. (refl, omega (arith, numbered.node_below node lt, numbered.dofs_below)))

    others-exact :
        (node element : ℕ)
        → ((i : ℕ)
            → i < g.num_nodes_per_element element
            → g.node_state_indices element i < g.num_nodes)
        → other_columns g node element ≡ dofs_of_others g node element
    others-exact node element inside = collect_congr (g.num_nodes_per_element element) _ _ (λ i lt.
        elim (Bool-cases (g.node_state_indices element i == node)) [
          | inl e ↦ rw e refl
          | inr e ↦ rw e (node_columns-exact (g.node_state_indices element i) (inside i lt))
        ])

    rows-exact : (k : ℕ) → k < g.num_constraints → multiplier_columns g k ≡ rows_of g k
    rows-exact k lt =
        columns_exact ((g.row_range k).1 - (g.row_range k).0) _ _
          (λ j below. (refl, omega (arith, numbered.row_below k lt)))

-- Two tests that agree where a count is not zero.
guarded : (a b : Bool) (n : ℕ) → (0 < n → a ≡ b) → a && not (n == 0) ≡ b && not (n == 0)
guarded a b n same = elim (Bool-cases (n == 0)) [
  | inl e ↦ rw e (never a ∙ sym (never b))
  | inr e ↦ ap (λ c. c && not (n == 0)) (same (ground arith))
]
  where
    never : (c : Bool) → c && false ≡ false
    never true = refl
    never false = refl

-- The kernels' test of a constraint, on a numbered system.
module _ {D : Type 0} (s : System D) (placed : IsPlaced s.constraints s.state.num_system_nodes)
    (bound : s.state.num_system_nodes < 2 ^ 64) (node : ℕ)
    (in_nodes : node < s.state.num_system_nodes)
    (has : 0 < (assign_dofs s).state.active_dofs node) where
  abbrev map : View ℕ
  map = (assign_dofs s).state.node_freedom_map_table

  -- Among nodes with degrees of freedom, a node is known by its first number.
  same_node :
      (other entry : ℕ)
      → other < s.state.num_system_nodes
      → 0 < (assign_dofs s).state.active_dofs other
      → entry ≡ map other + 0
      → (map node == entry) ≡ (node == other)
  same_node other entry lt active at = elim (Bool-cases (node == other)) [
    | inl e ↦ let first = ap map ((==_iff node other).0 e) in ((==_iff _ _).1 (omega arith)) ∙ sym e
    | inr e ↦
        ==_ne (map node) entry (λ same.
          let (equal, _) =
            dof_injective s node other 0 0 bound in_nodes lt has active (omega arith) in
          ground arith)
        ∙ sym e
  ]

  constraint_contains-end :
      (fresh_counts : View ℕ) (fresh_nodes : View2 ℕ) (k : ℕ)
      → k < s.constraints.num_constraints
      → constraint_contains_node
          (create_solver fresh_counts fresh_nodes s)
          k
          ((create_solver fresh_counts fresh_nodes s).node_freedom_map_table node)
        ≡ is_end s.constraints k node
  unfolding constraint_contains_node base_contains_node target_contains_node create_solver
      assign_dofs create_constraint_freedom_table
  constraint_contains-end fresh_counts fresh_nodes k lt =
      let c = s.constraints in
      let state = (assign_dofs s).state in
      let numbered = create_constraint_freedom_table c state in
      ap₂ (◌||◌)
        (guarded (map node == numbered.base_node_freedom_table k 0) (node == c.base_node_index k)
          (c.base_active_dofs k)
          (λ some_dof.
            let stored = placed.base_stored k lt in
            let below : 0 < count_active_dofs (c.base_node_freedom_signature k) = omega arith in
            let two = placed.base_count k 0 lt below in
            let active = base_active s placed k 0 lt below in
            same_node (c.base_node_index k) (numbered.base_node_freedom_table k 0)
              (placed.base_node k lt two) active (base_table state c k 0 lt two active)))
        (guarded (map node == numbered.target_node_freedom_table k 0)
          (node == c.target_node_index k) (c.target_active_dofs k)
          (λ some_dof.
            let active = target_active s placed k 0 lt (omega (arith, placed.target_count k lt)) in
            same_node (c.target_node_index k) (numbered.target_node_freedom_table k 0)
              (placed.target_node k lt) active (target_table state c k 0 lt active)))

-- The rows of the pattern are the rows that the matrix should have.
module _ {D : Type 0} (fresh_counts : View ℕ) (fresh_nodes : View2 ℕ) (s : System D)
    (placed : IsPlaced s.constraints s.state.num_system_nodes)
    (bound : s.state.num_system_nodes < 2 ^ 64)
    (numbered : IsNumbered (create_solver fresh_counts fresh_nodes s))
    (small : (create_solver fresh_counts fresh_nodes s).num_dofs < 2 ^ 31) where
  abbrev g : Connectivity
  g = create_solver fresh_counts fresh_nodes s

  counted :
      (g.num_constraints ≡ s.constraints.num_constraints)
      × (g.num_nodes ≡ s.state.num_system_nodes)
      × ((node : ℕ) → g.active_dofs node ≡ (assign_dofs s).state.active_dofs node)
  unfolding create_solver assign_dofs create_constraint_freedom_table
  counted = (refl, nodes_kept s, λ node. refl)

  pub system_row-coupled :
      (node c : ℕ)
      → node < g.num_nodes
      → c < g.active_dofs node
      → ((element i : ℕ)
          → element < g.num_elements
          → i < g.num_nodes_per_element element
          → g.node_state_indices element i < g.num_nodes)
      → system_row g node ≡ coupled_row g s.constraints node
  system_row-coupled node c in_nodes has inside =
      ap₂ (λ own rest. own ++ rest) (node_columns-exact g numbered small node in_nodes)
        (ap₂ (◌++◌)
          (collect_congr g.num_elements (element_columns g node) _ (λ element lt.
            rw (sym (element_contains-nodes g element node)) (
              ap (λ xs. if element_contains_node g element node then xs else [])
                (others-exact g numbered small node element
                  (λ i below. inside element i lt below)))))
          (collect_congr g.num_constraints (constraint_columns g node) _ (λ k lt.
            ap₂ (λ b xs. if b then xs else []) (contains k (omega (arith, counted.0)))
              (rows-exact g numbered small k lt))))
    where
      contains :
          (k : ℕ)
          → k < s.constraints.num_constraints
          → constraint_contains_node g k (g.node_freedom_map_table node)
            ≡ is_end s.constraints k node
      contains k lt =
          constraint_contains-end s placed bound node (omega (arith, counted.1))
            (omega (arith, counted.2 node)) fresh_counts fresh_nodes k lt

  within : num_dofs s < 2 ^ 31
  unfolding create_solver assign_dofs
  within =
      let after = assign_dofs s in
      let all : num_dofs s + after.constraints.num_dofs < 2 ^ 31 =
        subst
          (λ n.
            compute_num_system_dofs n after.state.active_dofs + after.constraints.num_dofs < 2 ^ 31)
          (nodes_kept s) small in
      omega arith

  pub constraint_row-multiplier :
      (k : ℕ) → k < g.num_constraints → constraint_row g k ≡ multiplier_row g s.constraints k
  unfolding create_solver assign_dofs create_constraint_freedom_table
  constraint_row-multiplier k in_k =
      let c = s.constraints in
      let state = (assign_dofs s).state in
      let in_c : k < c.num_constraints = omega (arith, counted.0) in
      let target_node = placed.target_node k in_c in
      ap₂ (◌++◌)
        (columns_exact (c.target_active_dofs k) _
          (λ j. state.node_freedom_map_table (c.target_node_index k) + j)
          (λ j below.
            let active =
              target_active s placed k j in_c (omega (arith, placed.target_count k in_c)) in
            (
              target_table state c k j in_c active,
              omega (arith, dofs_end s (c.target_node_index k) bound target_node, within),
            )))
        (columns_exact (c.base_active_dofs k) _
          (λ j. state.node_freedom_map_table (c.base_node_index k) + j)
          (λ j below.
            let stored = placed.base_stored k in_c in
            let asked : j < count_active_dofs (c.base_node_freedom_signature k) = omega arith in
            let two = placed.base_count k j in_c asked in
            let active = base_active s placed k j in_c asked in
            (
              base_table state c k j in_c two active,
              omega (
                arith,
                dofs_end s (c.base_node_index k) bound (placed.base_node k in_c two),
                within,
              ),
            )))
