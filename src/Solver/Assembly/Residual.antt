-- ===== src/Solver/Assembly/Residual.antt =====
-- AssembleSystemResidual on a numbered system: which terms of the elements an entry of the right-hand
-- side gets.
use kynema_fmb.Base.{
  ℕ, ◌+◌, ◌^◌, ◌<◌, ◌≡◌, ◌∈◌, refl, ap, ◌∙◌, sym, arith, List, [], ◌∷◌, map, View, collect, All,
  All-append, ◌==◌, ◌&&◌, ==_iff, ==_of_eq, Bool-cases, inl, inr, mem-append_left, mem-append_right,
  mem-collect,
}
use kynema_fmb.Dof.Allocation.Named.{HasNamedSignatures}
use kynema_fmb.Dof.Allocation.Union.{requests, beam_requests, mass_requests, spring_requests}
use kynema_fmb.Dof.Tables.{create_element_freedom_table}
use kynema_fmb.Dof.System.{System, assign_dofs}
use kynema_fmb.Dof.System.Laws.{dof_injective, asked_active}
use kynema_fmb.Dof.Signature.{all_components, just_position, count_active_dofs, count_loop}
use kynema_fmb.Elements.{Elements, IsConstructed}
use kynema_fmb.Solver.Assembly.{ElementTerms, assemble_system_residual}
use kynema_fmb.Solver.Assembly.Terms.{scatter_entry, total, values_at, All-collect}
use kynema_fmb.Solver.Assembly.Loads.{
  Load, load, beam_loads, mass_loads, spring_loads, element_loads, loads_at, number,
  contribute_elements-scatter,
}
use kynema_fmb.Solver.Ints.{to_int, to_int_lem}
use kynema_fmb.Solver.Assembly.{contribute_elements}
use kynema_fmb.Solver.Forces.{contribute_forces_to_vector, contribute_forces_lem, load_of}

-- Every node of an element is a node of the system.
pub record HasNodesBelow (e : Elements) (n : ℕ) : Type 0 where
  pub beams :
      (element j : ℕ)
      → element < e.beams.num_elems
      → j < e.beams.num_nodes_per_element element
      → e.beams.node_state_indices element j < n
  pub masses : (element : ℕ) → element < e.masses.num_elems → e.masses.state_indices element < n
  pub springs :
      (element j : ℕ)
      → element < e.springs.num_elems
      → j < 2
      → e.springs.node_state_indices element j < n

module _ {D : Type 0} (s : System D) (bound : s.state.num_system_nodes < 2 ^ 64) where
  -- A load for a degree of freedom that the system has.
  abbrev pub IsInSystem : Load D → Type 0
  IsInSystem l =
      (l.node < s.state.num_system_nodes) × (l.component < (assign_dofs s).state.active_dofs l.node)

  number_test :
      (l : Load D) (node c : ℕ)
      → IsInSystem l
      → node < s.state.num_system_nodes
      → c < (assign_dofs s).state.active_dofs node
      → ((number (assign_dofs s).state.node_freedom_map_table l).0
          == ((assign_dofs s).state.node_freedom_map_table node + c))
        ≡ (l.node == node && l.component == c)
  number_test l node c (in_l, below_l) in_node below =
      let map_table = (assign_dofs s).state.node_freedom_map_table in
      elim (Bool-cases ((map_table l.node + l.component) == (map_table node + c))) [
        | inl e ↦
            let (same_node, same_component) =
              dof_injective s l.node node l.component c bound in_l in_node below_l below
                ((==_iff (map_table l.node + l.component) (map_table node + c)).0 e) in
            rw (e, ==_of_eq same_node, ==_of_eq same_component) refl
        | inr e ↦ elim (Bool-cases (l.node == node && l.component == c)) [
          | inl h ↦
              let same : l.node ≡ node = ground arith in
              let moved = ap map_table same in absurd (ground arith)
          | inr h ↦ e ∙ sym h
        ]
      ]

  -- What comes to the number of a degree of freedom is what is meant for it.
  pub values_at-loads_at :
      (l : List (Load D)) (node c : ℕ)
      → All IsInSystem l
      → node < s.state.num_system_nodes
      → c < (assign_dofs s).state.active_dofs node
      → values_at
          ((assign_dofs s).state.node_freedom_map_table node + c)
          (map (number (assign_dofs s).state.node_freedom_map_table) l)
        ≡ loads_at node c l
  unfolding values_at loads_at
  values_at-loads_at [] node c h in_node below = refl
  values_at-loads_at (l ∷ ls) node c (here, h) in_node below =
      rw (number_test l node c here in_node below, values_at-loads_at ls node c h in_node below)
        refl

-- The nodes of the elements have the components that the elements have terms for.
module _ {D : Type 0} (s : System D) (bound : s.state.num_system_nodes < 2 ^ 64)
    (range : HasNodesBelow s.elements s.state.num_system_nodes) (built : IsConstructed s.elements)
    (terms : ElementTerms D) where
  beam-IsInSystem :
      (k j c : ℕ)
      → k < s.elements.beams.num_elems
      → j < s.elements.beams.num_nodes_per_element k
      → c < 6
      → IsInSystem s bound (load (s.elements.beams.node_state_indices k j) c (terms.beams k j c))
  unfolding count_active_dofs count_loop
  beam-IsInSystem k j c lt in_beam in_6 =
      let node = s.elements.beams.node_state_indices k j in
      let here = range.beams k j lt in_beam in
      let asked : (node, all_components) ∈ requests s.elements s.constraints =
        mem-append_left _ (collect s.elements.beams.num_elems (beam_requests s.elements.beams)) _ (
          mem-collect _ _ k _ lt (
            mem-collect _ _ j _ in_beam
              (inl (ap (λ g. (node, g)) (sym (built.beam_signature k j)))))) in
      (here, asked_active s node c all_components here asked in_6)

  mass-IsInSystem :
      (k c : ℕ)
      → k < s.elements.masses.num_elems
      → c < 6
      → IsInSystem s bound (load (s.elements.masses.state_indices k) c (terms.masses k c))
  unfolding count_active_dofs count_loop
  mass-IsInSystem k c lt in_6 =
      let node = s.elements.masses.state_indices k in
      let here = range.masses k lt in
      let asked : (node, all_components) ∈ requests s.elements s.constraints =
        mem-append_right _ (collect s.elements.beams.num_elems (beam_requests s.elements.beams)) _ (
          mem-append_left _ (collect s.elements.masses.num_elems (mass_requests s.elements.masses))
            _
            (mem-collect _ _ k _ lt (inl (ap (λ g. (node, g)) (sym (built.mass_signature k)))))) in
      (here, asked_active s node c all_components here asked in_6)

  spring-IsInSystem :
      (k j c : ℕ)
      → k < s.elements.springs.num_elems
      → j < 2
      → c < 3
      → IsInSystem s bound
          (load (s.elements.springs.node_state_indices k j) c (terms.springs k j c))
  unfolding count_active_dofs count_loop
  spring-IsInSystem k j c lt in_2 in_3 =
      let node = s.elements.springs.node_state_indices k j in
      let here = range.springs k j lt in_2 in
      let asked : (node, just_position) ∈ requests s.elements s.constraints =
        mem-append_right _ (collect s.elements.beams.num_elems (beam_requests s.elements.beams)) _ (
          mem-append_right _ (collect s.elements.masses.num_elems (mass_requests s.elements.masses))
            _
            (mem-append_left _
              (collect s.elements.springs.num_elems (spring_requests s.elements.springs)) _
              (mem-collect _ _ k _ lt (
                mem-collect _ 2 j
                  (λ n.
                    (
                      s.elements.springs.node_state_indices k n,
                      s.elements.springs.element_freedom_signature k n,
                    )
                    ∷ [])
                  in_2 (inl (ap (λ g. (node, g)) (sym (built.spring_signature k j)))))))) in
      (here, asked_active s node c just_position here asked in_3)

  element_loads-IsInSystem : All (IsInSystem s bound) (element_loads s.elements terms)
  element_loads-IsInSystem =
      let In = IsInSystem s bound in
      let e = s.elements in
      All-append In (collect e.beams.num_elems (beam_loads e.beams terms)) _
        (All-collect In e.beams.num_elems (beam_loads e.beams terms) (λ k lt.
          All-collect In 6
            (λ c.
              collect (e.beams.num_nodes_per_element k)
                (λ j. load (e.beams.node_state_indices k j) c (terms.beams k j c) ∷ []))
            (λ c in_6.
              All-collect In (e.beams.num_nodes_per_element k)
                (λ j. load (e.beams.node_state_indices k j) c (terms.beams k j c) ∷ [])
                (λ j in_beam. (beam-IsInSystem k j c lt in_beam in_6, tt)))))
        (All-append In (collect e.masses.num_elems (mass_loads e.masses terms)) _
          (All-collect In e.masses.num_elems (mass_loads e.masses terms) (λ k lt.
            All-collect In 6 (λ c. load (e.masses.state_indices k) c (terms.masses k c) ∷ [])
              (λ c in_6. (mass-IsInSystem k c lt in_6, tt))))
          (All-collect In e.springs.num_elems (spring_loads e.springs terms) (λ k lt.
            All-collect In 3
              (λ c.
                load (e.springs.node_state_indices k 0) c (terms.springs k 0 c)
                ∷ load (e.springs.node_state_indices k 1) c (terms.springs k 1 c)
                ∷ [])
              (λ c in_3. (
                spring-IsInSystem k 0 c lt (omega arith) in_3,
                (spring-IsInSystem k 1 c lt (omega arith) in_3, tt),
              )))))

-- The numbers of elements of each type fit an `int`.
pub record HasIntCounts (e : Elements) : Type 0 where
  pub beams : e.beams.num_elems < 2 ^ 31
  pub masses : e.masses.num_elems < 2 ^ 31
  pub springs : e.springs.num_elems < 2 ^ 31

counts_kept :
    {D : Type 0} (add : D → D → D) (e built : Elements) (terms : ElementTerms D) (v : View D)
    → HasIntCounts e
    → contribute_elements add
        (to_int e.beams.num_elems)
        (to_int e.masses.num_elems)
        (to_int e.springs.num_elems)
        built
        terms
        v
      ≡ contribute_elements add e.beams.num_elems e.masses.num_elems e.springs.num_elems built terms
          v
counts_kept add e built terms v counts =
    let with = λ (b m s : ℕ). contribute_elements add b m s built terms v in
    let beams = to_int_lem e.beams.num_elems counts.beams in
    let masses = to_int_lem e.masses.num_elems counts.masses in
    let springs = to_int_lem e.springs.num_elems counts.springs in
    λ i. with (beams i) (masses i) (springs i)

-- In a numbered system of fewer than 2 ^ 31 nodes and elements of each type, whose elements are as
-- constructed and have nodes of the system, and whose constraints have signatures that the
-- enumeration names: after AssembleSystemResidual, the entry of every degree of freedom of every
-- node is what it was, less the load of the node for it, plus the terms of the beams, masses and
-- springs for this component of this node, each once, in the order of the kernels.
pub assembled_residual :
    {D : Type 0} (add sub : D → D → D) (s : System D) (terms : ElementTerms D) (b : View D)
    (node c : ℕ)
    → s.state.num_system_nodes < 2 ^ 31
    → IsConstructed s.elements
    → HasNamedSignatures s.constraints
    → HasNodesBelow s.elements s.state.num_system_nodes
    → HasIntCounts s.elements
    → node < s.state.num_system_nodes
    → c < (assign_dofs s).state.active_dofs node
    → let after = assign_dofs s in
      let entry = after.state.node_freedom_map_table node + c in
      assemble_system_residual add sub after.elements terms after.state b entry
      ≡ total add
          (sub
            (b entry)
            (after.state.f node (load_of sub (after.state.node_freedom_allocation_table node) c)))
          (loads_at node c (element_loads s.elements terms))
unfolding assemble_system_residual assign_dofs create_element_freedom_table
assembled_residual {D} add sub s terms b node c bound built named range counts in_node below =
    let after = assign_dofs s in
    let entry = after.state.node_freedom_map_table node + c in
    let forced = contribute_forces_to_vector sub after.state b in
    let big : s.state.num_system_nodes < 2 ^ 64 = omega arith in
    ap (λ (v : View D). v entry)
      (counts_kept add s.elements after.elements terms forced counts
        ∙ contribute_elements-scatter add after.state s.elements terms forced)
    ∙ scatter_entry add
        (map (number after.state.node_freedom_map_table) (element_loads s.elements terms)) forced
        entry
    ∙ ap (total add (forced entry)) (
        values_at-loads_at s big (element_loads s.elements terms) node c
          (element_loads-IsInSystem s big range built terms) in_node below)
    ∙ ap (λ x. total add x (loads_at node c (element_loads s.elements terms)))
        (contribute_forces_lem sub s b node c bound built named in_node below)
