-- ===== src/Model/Creation/Coupled.antt =====
-- src/model/model.hpp, from the calls that build a model to the matrix of its solver: the mesh
-- connectivity of a model, seen in the rows of the matrix.
use kynema_fmb.Base.{
  ℕ, zero, suc, ◌+◌, ◌*◌, ◌^◌, ◌≤◌, ◌<◌, ◌≡◌, ◌≢◌, ◌∈◌, refl, ap, ◌∙◌, subst, arith, List, [], ◌∷◌,
  some, View, Vector, segment, get_elem?, Bool-cases, ltb, inl, inr,
}
use kynema_fmb.Dof.System.{System, assign_dofs}
use kynema_fmb.Dof.Tables.{create_element_freedom_table}
use kynema_fmb.Elements as Parts
use kynema_fmb.Elements.{num_elements_in_system, all_node_state_indices}
use kynema_fmb.Elements.Joined.{
  beam_count, mass_count, spring_count, beam_nodes, mass_nodes, spring_nodes,
}
use kynema_fmb.Solver.Connectivity.{Connectivity}
use kynema_fmb.Solver.Creation.{create_solver}
use kynema_fmb.Solver.Creation.Matrix.{Fresh, matrix_row, matrix_coupled}
use kynema_fmb.Solver.Columns.Whole.{FitsInt}
use kynema_fmb.Solver.Creation.Numbered.{nodes_kept}
use kynema_fmb.Model.State.Initial.{create_state-num_system_nodes}
use kynema_fmb.Model.Nodes.{Geometry}
use kynema_fmb.Model.Building.{Model}
use kynema_fmb.Model.Mesh.{
  Kind, beam_kind, mass_kind, spring_kind, constraint_kind, get_connectivity, map_of,
}
use kynema_fmb.Model.Maps.{lookup, Dict}
use kynema_fmb.Model.Calls.{Reachable}
use kynema_fmb.Model.Calls.Consistent.{IsTracked, IsConsistent, beam_nodes_of}
use kynema_fmb.Model.Calls.Invariant.{reachable-IsConsistent}
use kynema_fmb.Model.Creation.{
  create_masses, create_springs, create_elements, create_system, create_system_with_solver,
}
use kynema_fmb.Model.Creation.Elements.{
  HasApartNodes, created_beam, created_mass, created_spring, create_beams-kept,
  create_elements-IsConstructed, create_elements-HasDistinctNodes,
}

-- Where the solver has an element with the given nodes.
pub record IsLocated (s : Connectivity) (ids : List ℕ) : Type 0 where
  pub place : ℕ
  pub in_elements : place < s.num_elements
  pub nodes :
      (k v : ℕ)
      → get_elem? ids k ≡ some v
      → (k < s.num_nodes_per_element place) × (s.node_state_indices place k ≡ v)

segment_get :
    (at : View ℕ) (start n k v : ℕ)
    → get_elem? (segment at start n) k ≡ some v
    → (k < n) × (at (start + k) ≡ v)
unfolding segment
segment_get at start zero k v h = absurd (cc)
segment_get at start (suc n) zero v h = (omega arith, ground arith)
segment_get at start (suc n) (suc k) v h =
    let (lt, e) = segment_get at (suc start) n k v h in
    (omega arith, subst (λ p. at p ≡ v) (omega arith) e)

segment_get_first :
    (at : View ℕ) (n k v : ℕ) → get_elem? (segment at 0 n) k ≡ some v → (k < n) × (at k ≡ v)
segment_get_first at n k v h =
    let (lt, e) = segment_get at 0 n k v h in (lt, subst (λ p. at p ≡ v) (omega arith) e)

-- What a map has at a key is what the vector has there.
tracked_at :
    {A : Type 0} (id : A → ℕ) (nodes : A → List ℕ) (v : Vector A) (d : Dict (List ℕ)) (element : ℕ)
    (ids : List ℕ)
    → IsTracked id nodes v d
    → lookup element d ≡ some ids
    → (element < v.size) × (nodes (v.at element) ≡ ids)
tracked_at id nodes v d element ids h found = elim (Bool-cases (ltb element v.size)) [
  | inl e ↦ let lt : element < v.size = ground arith in (lt, cc (h.found element lt, found))
  | inr e ↦ let le : v.size ≤ element = ground arith in absurd (cc (h.beyond element le, found))
]

module _ {D P : Type 0} (g : Geometry D) (fresh : Fresh) (views : System D) (m : Model D P)
    (h : IsConsistent m) where
  abbrev solver : Connectivity
  solver = create_system_with_solver g views fresh.counts fresh.nodes m

  abbrev joined : Parts.Elements
  joined = (assign_dofs (create_system g views m)).elements

  find_beam :
      (element : ℕ) (ids : List ℕ)
      → get_connectivity beam_kind m.mesh_connectivity element ≡ some ids
      → IsLocated solver ids
  unfolding get_connectivity map_of create_system_with_solver create_solver assign_dofs
      create_element_freedom_table create_system create_elements num_elements_in_system
      beam_nodes_of
  find_beam element ids found =
      let (lt, same) = tracked_at _ _ _ _ element ids h.beams found in
      let kept = create_beams-kept m.beam_elements views.elements.beams in
      let row = created_beam m.beam_elements views.elements.beams element lt in
      let within : element < joined.beams.num_elems = omega (arith, kept.0) in
      record {
        place = element;
        in_elements = omega arith;
        nodes = λ k v get.
            let (below, at) =
              segment_get_first (m.beam_elements.at element).node_ids.at
                (m.beam_elements.at element).node_ids.size k v
                (ap (λ l. get_elem? l k) same ∙ get) in
            (
              omega (arith, beam_count fresh.counts joined element within, row.0),
              beam_nodes fresh.nodes joined element k within (omega (arith, row.0))
                  ∙ row.1 k below
                  ∙ at,
            );
      }

  find_mass :
      (element : ℕ) (ids : List ℕ)
      → get_connectivity mass_kind m.mesh_connectivity element ≡ some ids
      → IsLocated solver ids
  unfolding get_connectivity map_of create_system_with_solver create_solver assign_dofs
      create_element_freedom_table create_system create_elements num_elements_in_system
      create_masses
  find_mass element ids found =
      let (lt, same) = tracked_at _ _ _ _ element ids h.masses found in
      let kept = create_beams-kept m.beam_elements views.elements.beams in
      record {
        place = element + joined.beams.num_elems;
        in_elements = omega arith;
        nodes = λ k v get.
            let (first, at) =
              single (m.mass_elements.at element).node_id k v
                (ap (λ l. get_elem? l k) same ∙ get) in
            (
              omega (arith, mass_count fresh.counts joined element lt),
              ap (all_node_state_indices fresh.nodes joined (element + joined.beams.num_elems))
                    first
                  ∙ mass_nodes fresh.nodes joined element lt
                  ∙ created_mass views.elements.masses m.mass_elements element lt
                  ∙ at,
            );
      }
    where
      single : (n k v : ℕ) → get_elem? (n ∷ []) k ≡ some v → (k ≡ 0) × (n ≡ v)
      single n zero v h = (refl, cc)
      single n (suc k) v h = absurd (cc)

  find_spring :
      (element : ℕ) (ids : List ℕ)
      → get_connectivity spring_kind m.mesh_connectivity element ≡ some ids
      → IsLocated solver ids
  unfolding get_connectivity map_of create_system_with_solver create_solver assign_dofs
      create_element_freedom_table create_system create_elements num_elements_in_system
      create_springs create_masses
  find_spring element ids found =
      let (lt, same) = tracked_at _ _ _ _ element ids h.springs found in
      let ends = (m.spring_elements.at element).node_ids in
      let row = created_spring views.elements.springs m.spring_elements element lt in
      let place = element + (joined.beams.num_elems + joined.masses.num_elems) in
      let count = spring_count fresh.counts joined element lt in
      record {
        place = place;
        in_elements = omega arith;
        nodes = λ k v get.
            let (below, at) =
              double (joined.springs.node_state_indices element) ends.0 ends.1 k v row.0 row.1
                (ap (λ l. get_elem? l k) same ∙ get) in
            (omega (arith, count), spring_nodes fresh.nodes joined element k lt below ∙ at);
      }
    where
      double :
          (row : View ℕ) (a b k v : ℕ)
          → row 0 ≡ a
          → row 1 ≡ b
          → get_elem? (a ∷ b ∷ []) k ≡ some v
          → (k < 2) × (row k ≡ v)
      double row a b zero v e f h = (omega arith, cc)
      double row a b (suc zero) v e f h = (omega arith, cc)
      double row a b (suc (suc k)) v e f h = absurd (cc)

  located :
      (kind : Kind) (element : ℕ) (ids : List ℕ)
      → kind ≢ constraint_kind
      → get_connectivity kind m.mesh_connectivity element ≡ some ids
      → IsLocated solver ids
  located beam_kind element ids apart = find_beam element ids
  located mass_kind element ids apart = find_mass element ids
  located spring_kind element ids apart = find_spring element ids
  located constraint_kind element ids apart = absurd (apart refl)

-- In every model that calls have built, of fewer than 2 ^ 64 nodes and fewer than 2 ^ 32 / 6
-- constraints, with no node twice in an element and a matrix of fewer than 2 ^ 31 rows and
-- entries: for two nodes of the model that the mesh connectivity gives to one beam, mass or
-- spring, the row of the matrix of the created solver for each degree of freedom of the first has
-- an entry for each of the second.
pub mesh_coupled :
    {D P : Type 0} (g : Geometry D) (fresh : Fresh) (views : System D) (m : Model D P) (kind : Kind)
    (element : ℕ) (ids : List ℕ) (i j a b c d : ℕ)
    → Reachable g m
    → HasApartNodes m
    → m.nodes.size < 2 ^ 64
    → 6 * m.constraints.size < 2 ^ 32
    → kind ≢ constraint_kind
    → get_connectivity kind m.mesh_connectivity element ≡ some ids
    → get_elem? ids i ≡ some a
    → get_elem? ids j ≡ some b
    → a < m.nodes.size
    → b < m.nodes.size
    → FitsInt (create_system_with_solver g views fresh.counts fresh.nodes m) fresh.entries
    → c < (create_system_with_solver g views fresh.counts fresh.nodes m).active_dofs a
    → d < (create_system_with_solver g views fresh.counts fresh.nodes m).active_dofs b
    → let s = create_system_with_solver g views fresh.counts fresh.nodes m in
      (s.node_freedom_map_table b + d) ∈ matrix_row fresh s (s.node_freedom_map_table a + c)
unfolding create_system_with_solver create_system create_solver
mesh_coupled g fresh views m kind element ids i j a b c d reached apart bound small structural found
      at_i at_j in_nodes in_nodes_b fits has_c has_d =
    let s = create_system_with_solver g views fresh.counts fresh.nodes m in
    let here =
      located g fresh views m (reachable-IsConsistent g m reached) kind element ids structural
        found in
    let (in_i, same_i) = here.nodes i a at_i in
    let (in_j, same_j) = here.nodes j b at_j in
    let system = create_system g views m in
    let size = create_state-num_system_nodes g views.state m.nodes in
    let Coupled = λ (x y : ℕ).
      x < s.num_nodes
      → y < s.num_nodes
      → c < s.active_dofs x
      → d < s.active_dofs y
      → (s.node_freedom_map_table y + d) ∈ matrix_row fresh s (s.node_freedom_map_table x + c) in
    let at_place : Coupled (s.node_state_indices here.place i) (s.node_state_indices here.place j) =
      matrix_coupled fresh system m.constraints
        (record {
          bound = omega (arith, size);
          small = small;
          before = views.constraints;
          constraints = refl;
          elements = create_elements-IsConstructed views.elements m;
          distinct = create_elements-HasDistinctNodes views.elements m apart;
          fits = fits;
        })
        here.place i j c d here.in_elements in_i in_j in
    subst (λ x. Coupled x b) same_i
      (subst (λ y. Coupled (s.node_state_indices here.place i) y) same_j at_place)
      (omega (arith, size, nodes_kept system)) (omega (arith, size, nodes_kept system)) has_c has_d
