-- ===== src/Solver/Rows/Pointers.antt =====
-- The row pointers are the sums of the lengths of the rows before.
use kynema_fmb.Base.{
  ℕ, suc, ◌+◌, ◌-◌, ◌≤◌, ◌<◌, ◌≡◌, ◌≢◌, refl, sym, ap, ◌∙◌, subst, arith, length, View, write,
  write_self, write_ne, parallel_for_inv, parallel_for_reach, parallel_for_keep, for_range,
  sum_below, sum_below_mono, ◌^◌, ◌==◌, ==_iff, Bool-cases, inl, inr, ltb,
}
use kynema_fmb.Solver.Ints.{to_int, to_int_lem}
use kynema_fmb.Solver.Connectivity.{Connectivity}
use kynema_fmb.Solver.Pattern.{system_row, constraint_row, IsNumbered}
use kynema_fmb.Solver.Rows.{
  entries_in_row, compute_system_row_entries, compute_constraints_row_entries, all_row_entries,
  scan_row_entries, compute_row_ptrs,
}
use kynema_fmb.Solver.Rows.Count.{entries_in_row-eq, length-constraint_row}

module _ (g : Connectivity) where
  -- A kernel writes the rows of its own node only.
  system_row_entries_other :
      (node r : ℕ) (v : View ℕ)
      → ((c : ℕ) → c < g.active_dofs node → g.node_freedom_map_table node + c ≢ r)
      → compute_system_row_entries g node v r ≡ v r
  unfolding compute_system_row_entries
  system_row_entries_other node r v apart =
      parallel_for_keep (λ w. w r ≡ v r) (g.active_dofs node) _ v
        (λ c w lt p. write_ne w (g.node_freedom_map_table node + c) r _ (apart c lt) ∙ p) refl

  system_row_entries_self :
      (node c : ℕ) (v : View ℕ)
      → c < g.active_dofs node
      → compute_system_row_entries g node v (g.node_freedom_map_table node + c)
        ≡ entries_in_row g node
  unfolding compute_system_row_entries
  system_row_entries_self node c v lt =
      let r = g.node_freedom_map_table node + c in
      parallel_for_reach (λ w. w r ≡ entries_in_row g node) (g.active_dofs node) c _ v lt
        (λ w. write_self w r _)
        (λ k w below ne p. write_ne w (g.node_freedom_map_table node + k) r _ (omega arith) ∙ p)

  constraint_row_entries_other :
      (k r : ℕ) (v : View ℕ)
      → ((row : ℕ)
          → (g.row_range k).0 ≤ row
          → row < (g.row_range k).1
          → row + g.num_system_dofs ≢ r)
      → compute_constraints_row_entries g k v r ≡ v r
  unfolding compute_constraints_row_entries for_range
  constraint_row_entries_other k r v apart =
      parallel_for_keep (λ w. w r ≡ v r) ((g.row_range k).1 - (g.row_range k).0) _ v
        (λ c w lt p.
          write_ne w ((g.row_range k).0 + c + g.num_system_dofs) r _
            (apart ((g.row_range k).0 + c) (omega arith) (omega arith))
          ∙ p)
        refl

  constraint_row_entries_self :
      (k row : ℕ) (v : View ℕ)
      → (g.row_range k).0 ≤ row
      → row < (g.row_range k).1
      → compute_constraints_row_entries g k v (row + g.num_system_dofs)
        ≡ to_int (to_int (g.base_active_dofs k) + to_int (g.target_active_dofs k))
  unfolding compute_constraints_row_entries for_range
  constraint_row_entries_self k row v lo hi =
      let first = (g.row_range k).0 in
      let want = to_int (to_int (g.base_active_dofs k) + to_int (g.target_active_dofs k)) in
      let place : first + (row - first) + g.num_system_dofs ≡ row + g.num_system_dofs =
        omega arith in
      parallel_for_reach (λ w. w (row + g.num_system_dofs) ≡ want) ((g.row_range k).1 - first)
        (row - first) _ v (omega arith)
        (λ w.
          ap (write w (first + (row - first) + g.num_system_dofs) want) (sym place)
          ∙ write_self w (first + (row - first) + g.num_system_dofs) want)
        (λ c w below ne p.
          write_ne w (first + c + g.num_system_dofs) (row + g.num_system_dofs) _ (omega arith) ∙ p)

  -- The count of a row of a node survives the kernels of the other nodes and of the constraints.
  pub row_entries_system :
      (fresh : View ℕ) (node c : ℕ)
      → IsNumbered g
      → node < g.num_nodes
      → c < g.active_dofs node
      → length (system_row g node) < 2 ^ 31
      → all_row_entries g fresh (g.node_freedom_map_table node + c) ≡ length (system_row g node)
  unfolding all_row_entries
  row_entries_system fresh node c numbered in_nodes within fits =
      let r = g.node_freedom_map_table node + c in
      let P = λ (w : View ℕ). w r ≡ length (system_row g node) in
      let below = numbered.node_below node in_nodes in
      parallel_for_keep P g.num_constraints _ _
        (λ k w lt p. constraint_row_entries_other k r w (λ row lo hi. omega arith) ∙ p)
        (parallel_for_reach P g.num_nodes node _ fresh in_nodes
          (λ w.
            system_row_entries_self node c w within
            ∙ entries_in_row-eq g node numbered
            ∙ to_int_lem _ fits)
          (λ k w lt ne p.
            system_row_entries_other k r w
              (λ d inside. separate k node c d numbered ne lt in_nodes within inside)
            ∙ p))
    where
      separate :
          (k node c d : ℕ)
          → IsNumbered g
          → k ≢ node
          → k < g.num_nodes
          → node < g.num_nodes
          → c < g.active_dofs node
          → d < g.active_dofs k
          → g.node_freedom_map_table k + d ≢ g.node_freedom_map_table node + c
      separate k node c d numbered ne in_k in_node within inside = elim (Bool-cases (ltb k node)) [
        | inl lt ↦ let order = numbered.node_order k node (ground arith) in_node in omega arith
        | inr ge ↦ let order = numbered.node_order node k (ground arith) in_k in omega arith
      ]

  pub row_entries_constraint :
      (fresh : View ℕ) (k row : ℕ)
      → IsNumbered g
      → k < g.num_constraints
      → (g.row_range k).0 ≤ row
      → row < (g.row_range k).1
      → length (constraint_row g k) < 2 ^ 31
      → all_row_entries g fresh (row + g.num_system_dofs) ≡ length (constraint_row g k)
  unfolding all_row_entries
  row_entries_constraint fresh k row numbered in_constraints lo hi fits =
      let r = row + g.num_system_dofs in
      parallel_for_reach (λ w. w r ≡ length (constraint_row g k)) g.num_constraints k _ _
        in_constraints
        (λ w. constraint_row_entries_self k row w lo hi ∙ omega (arith, length-constraint_row g k))
        (λ l w lt ne p.
          constraint_row_entries_other l r w
            (λ other from to. separate l k row other numbered ne lt in_constraints lo hi from to)
          ∙ p)
    where
      separate :
          (l k row other : ℕ)
          → IsNumbered g
          → l ≢ k
          → l < g.num_constraints
          → k < g.num_constraints
          → (g.row_range k).0 ≤ row
          → row < (g.row_range k).1
          → (g.row_range l).0 ≤ other
          → other < (g.row_range l).1
          → other + g.num_system_dofs ≢ row + g.num_system_dofs
      separate l k row other numbered ne in_l in_k lo hi from to = elim (Bool-cases (ltb l k)) [
        | inl lt ↦ let order = numbered.row_order l k (ground arith) in_k in omega arith
        | inr ge ↦ let order = numbered.row_order k l (ground arith) in_l in omega arith
      ]

record IsScanned (entries : View ℕ) (k : ℕ) (s : ℕ × View ℕ) : Type 0 where
  update : s.0 ≡ sum_below k entries
  pointers : (i : ℕ) → i ≤ k → s.1 i ≡ sum_below i entries

scan_row_entries-IsScanned :
    (g : Connectivity) (entries : View ℕ) (k : ℕ) (s : ℕ × View ℕ)
    → sum_below (suc k) entries < 2 ^ 31
    → IsScanned entries k s
    → IsScanned entries (suc k) (scan_row_entries g entries k s)
unfolding scan_row_entries
scan_row_entries-IsScanned g entries k (update, ptrs) fits p =
    let next : to_int (update + entries k) ≡ sum_below (suc k) entries = omega (arith, p.update) in
    record {
      update = next;
      pointers = λ i le. elim (Bool-cases (suc k == i)) [
        | inl e ↦
            subst (λ j. write ptrs (suc k) (to_int (update + entries k)) j ≡ sum_below j entries)
              ((==_iff (suc k) i).0 e) (write_self ptrs (suc k) _ ∙ next)
        | inr e ↦ write_ne ptrs (suc k) i _ (ground arith) ∙ p.pointers i (ground arith)
      ];
    }

-- If the numbers of entries of all rows add up to fewer than 2 ^ 31, the pointer to a row, or to
-- the end, is the sum of the numbers of entries of the rows before, whatever the memory of the new
-- views held.
pub row_ptrs-eq :
    (g : Connectivity) (fresh_entries fresh_ptrs : View ℕ) (r : ℕ)
    → sum_below g.num_dofs (all_row_entries g fresh_entries) < 2 ^ 31
    → r ≤ g.num_dofs
    → compute_row_ptrs g fresh_entries fresh_ptrs r ≡ sum_below r (all_row_entries g fresh_entries)
unfolding compute_row_ptrs
row_ptrs-eq g fresh_entries fresh_ptrs r fits le =
    (parallel_for_inv (IsScanned (all_row_entries g fresh_entries)) g.num_dofs _ _
        (λ k s lt p.
          scan_row_entries-IsScanned g (all_row_entries g fresh_entries) k s
            (omega (arith, sum_below_mono (suc k) g.num_dofs (all_row_entries g fresh_entries) lt))
            p)
        (record {
          update = refl;
          pointers = λ i below. rw (only_zero i below) (write_self fresh_ptrs 0 0);
        })).pointers
      r le
  where
    only_zero : (i : ℕ) → i ≤ 0 → i ≡ 0
    only_zero i below = omega arith
