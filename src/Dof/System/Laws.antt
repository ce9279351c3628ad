-- ===== src/Dof/System/Laws.antt =====
-- The degrees of freedom of a system: every number below the total belongs to one component of one
-- node, and whatever an element refers to lies below the total.
use kynema_fmb.Base.{
  ℕ, ◌+◌, ◌-◌, ◌^◌, ◌≤◌, ◌<◌, ◌≡◌, sym, ap, ◌∙◌, arith, ◌∈◌, collect, mem-append_left, mem-collect,
  View, write_self, write_ne, parallel_for_reach, sum_below, sum_below_step, sum_below_find,
  sum_below_unique, sum_below_congr, inl,
}
use kynema_fmb.Elements.{IsConstructed}
use kynema_fmb.Dof.Signature.{FreedomSignature, all_components, count_active_dofs}
use kynema_fmb.Dof.Allocation.{allocation_table, assemble_node_freedom_allocation_table}
use kynema_fmb.Dof.Allocation.Union.{requests, beam_requests}
use kynema_fmb.Dof.Allocation.Named.{allocation_table-count}
use kynema_fmb.Dof.Numbering.{compute_node_freedom_map_table, compute_num_system_dofs}
use kynema_fmb.Dof.Numbering.Laws.{node_freedom_map-eq, compute_num_system_dofs-eq}
use kynema_fmb.Dof.Tables.Laws.{beam_table}
use kynema_fmb.Dof.System.{System, assign_dofs}

module _ {D : Type 0} (s : System D) where
  abbrev table : View FreedomSignature
  table = allocation_table s.elements s.constraints

  abbrev after : System D
  after = assign_dofs s

  pub active_dofs-eq :
      (i : ℕ)
      → i < s.state.num_system_nodes
      → (assign_dofs s).state.active_dofs i ≡ count_active_dofs (table i)
  unfolding assign_dofs assemble_node_freedom_allocation_table compute_node_freedom_map_table
  active_dofs-eq i lt =
      parallel_for_reach (λ dofs. dofs i ≡ count_active_dofs (table i)) s.state.num_system_nodes i _
        _ lt (λ dofs. write_self dofs i _) (λ k dofs below ne p. write_ne dofs k i _ ne ∙ p)

  pub map-eq :
      (i : ℕ)
      → s.state.num_system_nodes < 2 ^ 64
      → i < s.state.num_system_nodes
      → (assign_dofs s).state.node_freedom_map_table i
        ≡ sum_below i (λ k. count_active_dofs (table k))
  unfolding assign_dofs assemble_node_freedom_allocation_table compute_node_freedom_map_table
  map-eq i bound lt = node_freedom_map-eq s.state.num_system_nodes table i bound lt

  abbrev pub num_dofs : ℕ
  num_dofs = compute_num_system_dofs s.state.num_system_nodes (assign_dofs s).state.active_dofs

  -- The degrees of freedom of a node lie before those of every later node.
  pub dof_order :
      (i j : ℕ)
      → s.state.num_system_nodes < 2 ^ 64
      → i < j
      → j < s.state.num_system_nodes
      → (assign_dofs s).state.node_freedom_map_table i + (assign_dofs s).state.active_dofs i
        ≤ (assign_dofs s).state.node_freedom_map_table j
  dof_order i j bound lt in_nodes = omega (
    arith,
    map-eq i bound (omega arith),
    map-eq j bound in_nodes,
    active_dofs-eq i (omega arith),
    sum_below_step i j (λ k. count_active_dofs (table k)) lt,
  )

  num_dofs-eq : num_dofs ≡ sum_below s.state.num_system_nodes (λ k. count_active_dofs (table k))
  num_dofs-eq =
      compute_num_system_dofs-eq s.state.num_system_nodes _
      ∙ sum_below_congr s.state.num_system_nodes _ _ active_dofs-eq

  -- The degrees of freedom of a node end at or below the total.
  pub dofs_end :
      (i : ℕ)
      → s.state.num_system_nodes < 2 ^ 64
      → i < s.state.num_system_nodes
      → (assign_dofs s).state.node_freedom_map_table i + (assign_dofs s).state.active_dofs i
        ≤ num_dofs
  dofs_end i bound lt = omega (
    arith,
    map-eq i bound lt,
    active_dofs-eq i lt,
    num_dofs-eq,
    sum_below_step i s.state.num_system_nodes (λ k. count_active_dofs (table k)) lt,
  )

  -- A degree of freedom of a node has a number below the total.
  pub dof_below :
      (i c : ℕ)
      → s.state.num_system_nodes < 2 ^ 64
      → i < s.state.num_system_nodes
      → c < (assign_dofs s).state.active_dofs i
      → (assign_dofs s).state.node_freedom_map_table i + c < num_dofs
  dof_below i c bound lt within = omega (
    arith,
    map-eq i bound lt,
    active_dofs-eq i lt,
    num_dofs-eq,
    sum_below_step i s.state.num_system_nodes (λ k. count_active_dofs (table k)) lt,
  )

  -- In a system of fewer than 2 ^ 64 nodes, two degrees of freedom of nodes of the system with the
  -- same number are the same component of the same node.
  pub dof_injective :
      (i j c d : ℕ)
      → s.state.num_system_nodes < 2 ^ 64
      → i < s.state.num_system_nodes
      → j < s.state.num_system_nodes
      → c < (assign_dofs s).state.active_dofs i
      → d < (assign_dofs s).state.active_dofs j
      → (assign_dofs s).state.node_freedom_map_table i + c
        ≡ (assign_dofs s).state.node_freedom_map_table j + d
      → (i ≡ j) × (c ≡ d)
  dof_injective i j c d bound in_i in_j within_i within_j e =
      let f = λ (k : ℕ). count_active_dofs (table k) in
      let number = (assign_dofs s).state.node_freedom_map_table i + c in
      let map_i = map-eq i bound in_i in
      let map_j = map-eq j bound in_j in
      let same : i ≡ j =
        sum_below_unique i j number f (omega arith) (omega (arith, active_dofs-eq i in_i))
          (omega arith) (omega (arith, active_dofs-eq j in_j)) in
      let maps = ap (assign_dofs s).state.node_freedom_map_table same in (same, omega arith)

  -- In a system of fewer than 2 ^ 64 nodes, every number below the total is the number of some
  -- component of some node.
  pub dof_owner :
      (number : ℕ)
      → s.state.num_system_nodes < 2 ^ 64
      → number < num_dofs
      → (i : ℕ) × (c : ℕ) × (i < s.state.num_system_nodes)
        × (c < (assign_dofs s).state.active_dofs i)
        × ((assign_dofs s).state.node_freedom_map_table i + c ≡ number)
  dof_owner number bound lt =
      let f = λ (k : ℕ). count_active_dofs (table k) in
      let (i, in_nodes, lo, hi) =
        sum_below_find s.state.num_system_nodes number f (omega (arith, num_dofs-eq)) in
      let start = map-eq i bound in_nodes in
      let width = active_dofs-eq i in_nodes in
      (i, number - sum_below i f, in_nodes, omega arith, omega arith)

  -- A node has the components that are asked for.
  pub asked_active :
      (i c : ℕ) (signature : FreedomSignature)
      → i < s.state.num_system_nodes
      → (i, signature) ∈ requests s.elements s.constraints
      → c < count_active_dofs signature
      → c < (assign_dofs s).state.active_dofs i
  asked_active i c signature lt asked within = omega (
    arith,
    active_dofs-eq i lt,
    allocation_table-count s.elements s.constraints i signature asked,
  )

  request_below :
      (i c : ℕ) (signature : FreedomSignature)
      → s.state.num_system_nodes < 2 ^ 64
      → i < s.state.num_system_nodes
      → (i, signature) ∈ requests s.elements s.constraints
      → c < count_active_dofs signature
      → (assign_dofs s).state.node_freedom_map_table i + c < num_dofs
  request_below i c signature bound lt asked within = dof_below i c bound lt (
      omega (
        arith,
        active_dofs-eq i lt,
        allocation_table-count s.elements s.constraints i signature asked,
      ))

  -- In a system of fewer than 2 ^ 64 nodes whose elements are as constructed, the entry of the
  -- freedom table for component `c` of a node of a beam is the number of that component of the
  -- node, and lies below the total, if the node is one of the system.
  pub beam_entry :
      (element n c : ℕ)
      → s.state.num_system_nodes < 2 ^ 64
      → IsConstructed s.elements
      → element < s.elements.beams.num_elems
      → n < s.elements.beams.num_nodes_per_element element
      → c < 6
      → s.elements.beams.node_state_indices element n < s.state.num_system_nodes
      → ((assign_dofs s).elements.beams.element_freedom_table element n c
          ≡ (assign_dofs s).state.node_freedom_map_table
              (s.elements.beams.node_state_indices element n)
            + c)
        × ((assign_dofs s).elements.beams.element_freedom_table element n c < num_dofs)
  unfolding assign_dofs count_active_dofs
  beam_entry element n c bound built in_elements in_nodes in_components in_state =
      let entry =
        beam_table (assign_dofs s).state s.elements element n c in_elements in_nodes
          in_components in
      let node = s.elements.beams.node_state_indices element n in
      let asked : (node, all_components) ∈ requests s.elements s.constraints =
        mem-append_left _ (collect s.elements.beams.num_elems (beam_requests s.elements.beams)) _ (
          mem-collect _ _ element _ in_elements (
            mem-collect _ _ n _ in_nodes
              (inl (ap (λ g. (node, g)) (sym (built.beam_signature element n)))))) in
      (entry, rw entry (request_below node c all_components bound in_state asked in_components))
