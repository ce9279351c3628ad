-- ===== src/Solver/Forces.antt =====
-- src/solver/contribute_forces_to_vector.hpp, as src/step/assemble_system_residual.hpp calls it: the
-- external forces of the nodes are subtracted from the right-hand side. The subtraction of `double`
-- numbers is a parameter.
use kynema_fmb.Base.{
  ℕ, ◌+◌, ◌^◌, ◌<◌, ◌≡◌, ◌≢◌, refl, sym, ap, ◌∙◌, subst, arith, View, write, write_self, write_ne,
  parallel_for, parallel_for_once, parallel_for_keep, ◌==◌, if◌then◌else◌, ltb, Bool-cases, inl,
  inr,
}
use kynema_fmb.Elements.{IsConstructed}
use kynema_fmb.State.{State}
use kynema_fmb.Dof.Signature.{
  FreedomSignature, all_components, just_position, just_rotation, no_components, count_active_dofs,
  count_loop,
}
use kynema_fmb.Dof.Signature.Laws.{IsNamed, named_cases}
use kynema_fmb.Dof.Allocation.{allocation_table, assemble_node_freedom_allocation_table}
use kynema_fmb.Dof.Allocation.Named.{HasNamedSignatures, allocation_table-IsNamed}
use kynema_fmb.Dof.Numbering.{compute_node_freedom_map_table}
use kynema_fmb.Dof.System.{System, assign_dofs}
use kynema_fmb.Dof.System.Laws.{active_dofs-eq, dof_order}

module _ {D : Type 0} (sub : D → D → D) where
  -- `vector(dof_index + k, 0) -= load`
  unfoldable pub subtract : ℕ → D → View D → View D
  subtract index load vector = write vector index (sub (vector index) load)

  -- ContributeForcesToVector::operator(), on the signature, the first number and the loads of the node.
  unfoldable pub contribute_forces : FreedomSignature → ℕ → View D → View D → View D
  contribute_forces signature dof_index load vector =
      let position =
        subtract (dof_index + 2) (load 2)
          (subtract (dof_index + 1) (load 1) (subtract (dof_index + 0) (load 0) vector)) in
      let all =
        subtract (dof_index + 5) (load 5)
          (subtract (dof_index + 4) (load 4) (subtract (dof_index + 3) (load 3) position)) in
      let rotation =
        subtract (dof_index + 2) (load 5)
          (subtract (dof_index + 1) (load 4) (subtract (dof_index + 0) (load 3) vector)) in
      if signature == no_components
      then vector
      else (if signature == all_components
          then all
          else (if signature == just_position
              then position
              else (if signature == just_rotation then rotation else vector)))

  -- The kernel over the nodes of a state.
  unfoldable pub contribute_forces_to_vector : State D → View D → View D
  contribute_forces_to_vector state vector =
      parallel_for state.num_system_nodes
        (λ node.
          contribute_forces (state.node_freedom_allocation_table node)
            (state.node_freedom_map_table node) (state.f node))
        vector

  -- Which of the six loads a degree of freedom of a node takes.
  abbrev pub load_of : FreedomSignature → ℕ → ℕ
  load_of signature k = if signature == just_rotation then k + 3 else k

  -- For the named signatures the branches are one loop.
  contribute_forces-loop :
      (signature : FreedomSignature)
      → IsNamed signature
      → (dof_index : ℕ) (load vector : View D)
      → contribute_forces signature dof_index load vector
        ≡ parallel_for
            (count_active_dofs signature)
            (λ k. subtract (dof_index + k) (load (load_of signature k)))
            vector
  unfolding contribute_forces count_active_dofs count_loop parallel_for
  contribute_forces-loop signature named dof_index load vector =
      named_cases
        (λ s.
          contribute_forces s dof_index load vector
          ≡ parallel_for (count_active_dofs s) (λ k. subtract (dof_index + k) (load (load_of s k)))
              vector)
        refl refl refl refl signature named

  contribute_self :
      (signature : FreedomSignature) (dof_index k : ℕ) (load vector : View D)
      → IsNamed signature
      → k < count_active_dofs signature
      → contribute_forces signature dof_index load vector (dof_index + k)
        ≡ sub (vector (dof_index + k)) (load (load_of signature k))
  unfolding subtract
  contribute_self signature dof_index k load vector named lt =
      ap (λ (v : View D). v (dof_index + k))
        (contribute_forces-loop signature named dof_index load vector)
      ∙ parallel_for_once (λ (v : View D). v (dof_index + k))
          (λ a. sub a (load (load_of signature k))) (count_active_dofs signature) k _ vector lt
          (λ v. write_self v (dof_index + k) _)
          (λ j v below ne. write_ne v (dof_index + j) (dof_index + k) _ (omega arith))

  contribute_other :
      (signature : FreedomSignature) (dof_index index : ℕ) (load vector : View D)
      → IsNamed signature
      → ((k : ℕ) → k < count_active_dofs signature → dof_index + k ≢ index)
      → contribute_forces signature dof_index load vector index ≡ vector index
  unfolding subtract
  contribute_other signature dof_index index load vector named apart =
      ap (λ (v : View D). v index) (contribute_forces-loop signature named dof_index load vector)
      ∙ parallel_for_keep (λ v. v index ≡ vector index) (count_active_dofs signature) _ vector
          (λ k v below p. write_ne v (dof_index + k) index _ (apart k below) ∙ p) refl

  after_table :
      (s : System D)
      → ((assign_dofs s).state.node_freedom_allocation_table
          ≡ allocation_table s.elements s.constraints)
        × ((assign_dofs s).state.num_system_nodes ≡ s.state.num_system_nodes)
  unfolding assign_dofs assemble_node_freedom_allocation_table compute_node_freedom_map_table
  after_table s = (refl, refl)

  -- In a numbered system of fewer than 2 ^ 31 nodes whose elements are as constructed and whose
  -- constraints have signatures that the enumeration names, the kernel over all nodes subtracts
  -- from the entry of every degree of freedom of every node one load of this node, and only once:
  -- load `k` for component `k`, or `k + 3` if the node has rotations only.
  pub contribute_forces_lem :
      (s : System D) (vector : View D) (node k : ℕ)
      → s.state.num_system_nodes < 2 ^ 31
      → IsConstructed s.elements
      → HasNamedSignatures s.constraints
      → node < s.state.num_system_nodes
      → k < (assign_dofs s).state.active_dofs node
      → let state = (assign_dofs s).state in
        contribute_forces_to_vector state vector (state.node_freedom_map_table node + k)
        ≡ sub
            (vector (state.node_freedom_map_table node + k))
            (state.f node (load_of (state.node_freedom_allocation_table node) k))
  unfolding contribute_forces_to_vector
  contribute_forces_lem s vector node k bound built named in_nodes lt =
      let state = (assign_dofs s).state in
      let start = state.node_freedom_map_table in
      let load = load_of (state.node_freedom_allocation_table node) k in
      parallel_for_once (λ (v : View D). v (start node + k)) (λ a. sub a (state.f node load))
        state.num_system_nodes node _ vector (omega (arith, (after_table s).1))
        (λ v.
          contribute_self (state.node_freedom_allocation_table node) (start node) k (state.f node) v
            (is_named node) (omega (arith, width node in_nodes)))
        (λ i v below ne.
          let in_i : i < s.state.num_system_nodes = omega (arith, (after_table s).1) in
          contribute_other (state.node_freedom_allocation_table i) (start i) (start node + k)
            (state.f i) v (is_named i)
            (λ j within. apart i j ne in_i (omega (arith, width i in_i))))
    where
      is_named : (i : ℕ) → IsNamed ((assign_dofs s).state.node_freedom_allocation_table i)
      is_named i =
          subst (λ (t : View FreedomSignature). IsNamed (t i)) (sym (after_table s).0)
            (allocation_table-IsNamed s.elements s.constraints i built named)

      width :
          (i : ℕ)
          → i < s.state.num_system_nodes
          → (assign_dofs s).state.active_dofs i
            ≡ count_active_dofs ((assign_dofs s).state.node_freedom_allocation_table i)
      width i in_i =
          active_dofs-eq s i in_i
          ∙ ap (λ (t : View FreedomSignature). count_active_dofs (t i)) (sym (after_table s).0)

      apart :
          (i j : ℕ)
          → i ≢ node
          → i < s.state.num_system_nodes
          → j < (assign_dofs s).state.active_dofs i
          → (assign_dofs s).state.node_freedom_map_table i + j
            ≢ (assign_dofs s).state.node_freedom_map_table node + k
      apart i j ne in_i within = elim (Bool-cases (ltb i node)) [
        | inl before ↦
            let order = dof_order s i node (omega arith) (ground arith) in_nodes in omega arith
        | inr after ↦
            let order = dof_order s node i (omega arith) (ground arith) in_i in omega arith
      ]
