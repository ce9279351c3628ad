-- ===== src/Solver/Creation/Numbered.antt =====
-- The numbering of the degrees of freedom gives the solver the disjoint rows that its kernels need.
use kynema_fmb.Base.{
  ℕ, zero, suc, ◌-◌, ◌*◌, ◌+◌, ◌^◌, ◌≤◌, ◌<◌, ◌≡◌, ◌≢◌, refl, sym, ap, ◌∙◌, subst, arith, View,
  View2, Vector, Bool-cases, inl, inr, ltb,
}
use kynema_fmb.Elements.{
  Elements, IsConstructed, num_elements_in_system, number_of_nodes_per_element,
  all_node_state_indices,
}
use kynema_fmb.Elements.Joined.{beam_count, mass_count, spring_count, beam_nodes, spring_nodes}
use kynema_fmb.Constraints.{Constraint, Constraints, construct_constraints}
use kynema_fmb.Constraints.Rows.{
  row_range_order, row_range_end, construct_constraints-num_constraints,
}
use kynema_fmb.Dof.Tables.{create_element_freedom_table, create_constraint_freedom_table}
use kynema_fmb.Dof.Allocation.{assemble_node_freedom_allocation_table}
use kynema_fmb.Dof.Numbering.{compute_num_system_dofs, compute_node_freedom_map_table}
use kynema_fmb.Dof.System.{System, assign_dofs}
use kynema_fmb.Dof.System.Laws.{dof_order, dofs_end}
use kynema_fmb.Solver.Pattern.{IsNumbered}
use kynema_fmb.Solver.Creation.{create_solver}

-- No beam has a node twice, and no spring connects a node with itself.
pub record HasDistinctNodes (e : Elements) : Type 0 where
  pub beams :
      (element i j : ℕ)
      → element < e.beams.num_elems
      → i < j
      → j < e.beams.num_nodes_per_element element
      → e.beams.node_state_indices element i ≢ e.beams.node_state_indices element j
  pub springs :
      (element : ℕ)
      → element < e.springs.num_elems
      → e.springs.node_state_indices element 0 ≢ e.springs.node_state_indices element 1

-- The numbering writes the tables of the elements and nothing else of them.
kept :
    {D : Type 0} (s : System D)
    → IsConstructed s.elements
    → HasDistinctNodes s.elements
    → IsConstructed (assign_dofs s).elements × HasDistinctNodes (assign_dofs s).elements
unfolding assign_dofs create_element_freedom_table
kept s built distinct = (
  record {
    beam_signature = built.beam_signature;
    mass_signature = built.mass_signature;
    spring_signature = built.spring_signature;
    mass_nodes = built.mass_nodes;
    spring_nodes = built.spring_nodes;
  },
  record { beams = distinct.beams; springs = distinct.springs },
)

-- The joined views have no node twice in an element.
joined_distinct :
    (fresh_counts : View ℕ) (fresh_nodes : View2 ℕ) (e : Elements) (element i j : ℕ)
    → IsConstructed e
    → HasDistinctNodes e
    → element < num_elements_in_system e
    → i < j
    → j < number_of_nodes_per_element fresh_counts e element
    → all_node_state_indices fresh_nodes e element i
      ≢ all_node_state_indices fresh_nodes e element j
unfolding num_elements_in_system
joined_distinct fresh_counts fresh_nodes e element i j built distinct in_elements lt below =
    let masses = e.beams.num_elems in
    let springs = e.beams.num_elems + e.masses.num_elems in
    elim (Bool-cases (ltb element masses)) [
      | inl beam ↦
          let in_beams : element < e.beams.num_elems = ground arith in
          let within : j < e.beams.num_nodes_per_element element =
            omega (arith, beam_count fresh_counts e element in_beams) in
          rw
            (
              beam_nodes fresh_nodes e element i in_beams (omega arith),
              beam_nodes fresh_nodes e element j in_beams within,
            )
            (distinct.beams element i j in_beams lt within)
      | inr later ↦ elim (Bool-cases (ltb element springs)) [
        | inl mass ↦
            let m = element - masses in
            let here : m + masses ≡ element = ground arith in
            let in_masses : m < e.masses.num_elems = ground arith in
            absurd (
              omega (
                arith,
                ap (number_of_nodes_per_element fresh_counts e) here,
                mass_count fresh_counts e m in_masses,
                built.mass_nodes m,
              ))
        | inr spring ↦
            let n = element - springs in
            let here : n + springs ≡ element = ground arith in
            let in_springs : n < e.springs.num_elems = ground arith in
            let two : j < 2 = omega (
              arith,
              ap (number_of_nodes_per_element fresh_counts e) here,
              spring_count fresh_counts e n in_springs,
              built.spring_nodes n,
            ) in
            subst
              (λ k.
                all_node_state_indices fresh_nodes e k i ≢ all_node_state_indices fresh_nodes e k j)
              here (apart n i j in_springs lt two)
      ]
    ]
  where
    apart :
        (n i j : ℕ)
        → n < e.springs.num_elems
        → i < j
        → j < 2
        → all_node_state_indices fresh_nodes e (n + (e.beams.num_elems + e.masses.num_elems)) i
          ≢ all_node_state_indices fresh_nodes e (n + (e.beams.num_elems + e.masses.num_elems)) j
    apart n zero (suc zero) in_springs lt two =
        rw
          (
            spring_nodes fresh_nodes e n 0 in_springs (omega arith),
            spring_nodes fresh_nodes e n 1 in_springs (omega arith),
          )
          (distinct.springs n in_springs)
    apart n zero (suc (suc j)) in_springs lt two = absurd (omega arith)
    apart n zero zero in_springs lt two = absurd (omega arith)
    apart n (suc i) j in_springs lt two = absurd (omega arith)

-- The rows of the constraints, before the numbering and after it.
module _ {D : Type 0} (s : System D) (fresh : Constraints) (cs : Vector Constraint)
    (small : 6 * cs.size < 2 ^ 32) (built : s.constraints ≡ construct_constraints fresh cs) where
  after_constraints :
      ((assign_dofs s).constraints.row_range ≡ (construct_constraints fresh cs).row_range)
      × ((assign_dofs s).constraints.num_dofs ≡ (construct_constraints fresh cs).num_dofs)
      × ((assign_dofs s).constraints.num_constraints ≡ cs.size)
  unfolding assign_dofs create_constraint_freedom_table
  after_constraints = (
    λ i. (built i).row_range,
    λ i. (built i).num_dofs,
    (λ i. (built i).num_constraints) ∙ construct_constraints-num_constraints fresh cs,
  )

  row_end :
      (k : ℕ)
      → k < (assign_dofs s).constraints.num_constraints
      → (((assign_dofs s).constraints.row_range k).0 ≤ ((assign_dofs s).constraints.row_range k).1)
        × (((assign_dofs s).constraints.row_range k).1 ≤ (assign_dofs s).constraints.num_dofs)
  row_end k lt =
      let rows = row_range_end fresh cs k small (omega (arith, after_constraints.2)) in
      rw (after_constraints.0, after_constraints.1) (omega (arith, rows.0), rows.1)

  row_order :
      (k l : ℕ)
      → k < l
      → l < (assign_dofs s).constraints.num_constraints
      → ((assign_dofs s).constraints.row_range k).1 ≤ ((assign_dofs s).constraints.row_range l).0
  row_order k l lt below =
      rw after_constraints.0
        (row_range_order fresh cs k l small lt (omega (arith, after_constraints.2))).0

pub nodes_kept :
    {D : Type 0} (s : System D) → (assign_dofs s).state.num_system_nodes ≡ s.state.num_system_nodes
unfolding assign_dofs assemble_node_freedom_allocation_table compute_node_freedom_map_table
nodes_kept s = refl

-- A system whose constraints have just been constructed, with fewer than 2 ^ 64 nodes and constraint
-- rows that fit an `unsigned int`, gives the solver disjoint rows and distinct nodes.
pub create_solver-IsNumbered :
    {D : Type 0} (fresh_counts : View ℕ) (fresh_nodes : View2 ℕ) (s : System D)
    (fresh : Constraints) (cs : Vector Constraint)
    → s.state.num_system_nodes < 2 ^ 64
    → 6 * cs.size < 2 ^ 32
    → s.constraints ≡ construct_constraints fresh cs
    → IsConstructed s.elements
    → HasDistinctNodes s.elements
    → IsNumbered (create_solver fresh_counts fresh_nodes s)
unfolding create_solver
create_solver-IsNumbered fresh_counts fresh_nodes s fresh cs bound small built_c built distinct =
    let after = assign_dofs s in
    record {
      node_order = λ i j lt below. dof_order s i j bound lt (omega (arith, nodes_kept s));
      node_below = λ i lt.
          subst
            (λ n.
              after.state.node_freedom_map_table i + after.state.active_dofs i
              ≤ compute_num_system_dofs n after.state.active_dofs)
            (sym (nodes_kept s)) (dofs_end s i bound (omega (arith, nodes_kept s)));
      dofs_below = omega arith;
      row_width = λ k lt. (row_end s fresh cs small built_c k lt).0;
      row_order = λ k l lt below. row_order s fresh cs small built_c k l lt below;
      row_below = λ k lt. omega (arith, (row_end s fresh cs small built_c k lt).1);
      distinct = λ element i j lt before below.
          let (b, d) = kept s built distinct in
          joined_distinct fresh_counts fresh_nodes (assign_dofs s).elements element i j b d lt
            before below;
    }
