-- ===== src/Solver/Assembly/Loads.antt =====
-- The kernels of the elements in AssembleSystemResidual are one list of additions.
use kynema_fmb.Base.{
  ℕ, ◌+◌, ◌*◌, ◌/◌, ◌%◌, ◌<◌, ◌≡◌, refl, ap, ◌∙◌, sym, arith, List, [], ◌∷◌, ◌++◌, map, View,
  parallel_for, collect, ◌==◌, ◌&&◌, if◌then◌else◌,
}
use kynema_fmb.Dof.Tables.{create_element_freedom_table}
use kynema_fmb.Dof.Tables.Laws.{beam_table, mass_table, spring_table}
use kynema_fmb.Elements.{Beams, Masses, Springs, Elements}
use kynema_fmb.Solver.Assembly.{
  ElementTerms, contribute_beam, contribute_mass, contribute_spring, contribute_elements,
}
use kynema_fmb.Solver.Assembly.Flat.{collect_blocks}
use kynema_fmb.Solver.Assembly.Terms.{
  scatter, scatter-append, parallel_for-scatter, collect_congr, map-append, map-collect,
}
use kynema_fmb.State.{State}

-- A value for a component of a node.
pub record Load (D : Type 0) : Type 0 where
  pub node : ℕ
  pub component : ℕ
  pub value : D

module _ {D : Type 0} where
  abbrev pub load : ℕ → ℕ → D → Load D
  load node component value = record { node = node; component = component; value = value }

  -- The terms of an element with the nodes and components that they are for.
  abbrev pub beam_loads : Beams → ElementTerms D → ℕ → List (Load D)
  beam_loads b terms element = collect 6 (λ c.
      collect (b.num_nodes_per_element element)
        (λ j. load (b.node_state_indices element j) c (terms.beams element j c) ∷ []))

  abbrev pub mass_loads : Masses → ElementTerms D → ℕ → List (Load D)
  mass_loads m terms element =
      collect 6 (λ c. load (m.state_indices element) c (terms.masses element c) ∷ [])

  abbrev pub spring_loads : Springs → ElementTerms D → ℕ → List (Load D)
  spring_loads s terms element = collect 3 (λ c.
      load (s.node_state_indices element 0) c (terms.springs element 0 c)
      ∷ load (s.node_state_indices element 1) c (terms.springs element 1 c)
      ∷ [])

  abbrev pub element_loads : Elements → ElementTerms D → List (Load D)
  element_loads e terms =
      collect e.beams.num_elems (beam_loads e.beams terms)
      ++ (collect e.masses.num_elems (mass_loads e.masses terms)
          ++ collect e.springs.num_elems (spring_loads e.springs terms))

  -- The values for one component of one node.
  unfoldable pub loads_at : ℕ → ℕ → List (Load D) → List D
  loads_at node component [] = []
  loads_at node component (l ∷ ls) =
      if l.node == node && l.component == component
      then l.value ∷ loads_at node component ls
      else loads_at node component ls

-- A load, at the number of its component.
abbrev pub number : {D : Type 0} → View ℕ → Load D → ℕ × D
number table l = (table l.node + l.component, l.value)

pub one_entry :
    {D : Type 0} {a b : ℕ} (value : D)
    → a ≡ b
    → ◌≡◌ {A = List (ℕ × D)} ((a, value) ∷ []) ((b, value) ∷ [])
one_entry value same = λ i. (same i, value) ∷ []

two_entries :
    {D : Type 0} {a b c d : ℕ} (first second : D)
    → a ≡ b
    → c ≡ d
    → ◌≡◌ {A = List (ℕ × D)} ((a, first) ∷ (c, second) ∷ []) ((b, first) ∷ (d, second) ∷ [])
two_entries first second same same' = λ i. (same i, first) ∷ (same' i, second) ∷ []

-- A loop whose rounds add the loads of a list adds all of them.
pub loop-scatter :
    {D : Type 0} (add : D → D → D) (table : View ℕ) (n : ℕ) (f : ℕ → List (Load D))
    (body : ℕ → View D → View D) (v : View D)
    → ((k : ℕ) (w : View D) → k < n → body k w ≡ scatter add (map (number table) (f k)) w)
    → parallel_for n body v ≡ scatter add (map (number table) (collect n f)) v
loop-scatter add table n f body v same =
    parallel_for-scatter add n (λ k. map (number table) (f k)) body v same
    ∙ ap (λ l. scatter add l v) (sym (map-collect (number table) n f))

-- One list of loads after another.
pub scatter_loads-append :
    {D : Type 0} (add : D → D → D) (table : View ℕ) (xs ys : List (Load D)) (v : View D)
    → scatter add (map (number table) (xs ++ ys)) v
      ≡ scatter add (map (number table) ys) (scatter add (map (number table) xs) v)
scatter_loads-append add table xs ys v =
    ap (λ l. scatter add l v) (map-append (number table) xs ys)
    ∙ scatter-append add (map (number table) xs) (map (number table) ys) v

-- The kernels, on the tables that the numbering writes.
module _ {D : Type 0} (add : D → D → D) (state : State D) (e : Elements)
    (terms : ElementTerms D) where
  contribute_beam-scatter :
      (k : ℕ) (v : View D)
      → k < e.beams.num_elems
      → contribute_beam add (create_element_freedom_table e state).beams terms.beams k v
        ≡ scatter add (map (number state.node_freedom_map_table) (beam_loads e.beams terms k)) v
  unfolding contribute_beam create_element_freedom_table scatter
  contribute_beam-scatter k v lt =
      let n = e.beams.num_nodes_per_element k in
      let table = (create_element_freedom_table e state).beams.element_freedom_table in
      let F : ℕ → ℕ → List (ℕ × D) = λ j c. (table k j c, terms.beams k j c) ∷ [] in
      let one : ℕ → ℕ → List (Load D) =
        λ c j. load (e.beams.node_state_indices k j) c (terms.beams k j c) ∷ [] in
      let at = number state.node_freedom_map_table in
      parallel_for-scatter add (n * 6) (λ q. F (q % n) (q / n)) _ v (λ q w below. refl)
      ∙ ap (λ l. scatter add l v)
          (collect_blocks n 6 F
            ∙ collect_congr 6 (λ c. collect n (λ j. F j c)) (λ c. map at (collect n (one c)))
                (λ c in_6.
                  collect_congr n (λ j. F j c) (λ j. map at (one c j))
                    (λ j in_n.
                      one_entry (terms.beams k j c) (beam_table state e k j c lt in_n in_6))
                  ∙ sym (map-collect at n (one c)))
            ∙ sym (map-collect at 6 (λ c. collect n (one c))))

  contribute_mass-scatter :
      (k : ℕ) (v : View D)
      → k < e.masses.num_elems
      → contribute_mass add (create_element_freedom_table e state).masses terms.masses k v
        ≡ scatter add (map (number state.node_freedom_map_table) (mass_loads e.masses terms k)) v
  unfolding contribute_mass create_element_freedom_table scatter
  contribute_mass-scatter k v lt =
      let table = (create_element_freedom_table e state).masses.element_freedom_table in
      let at = number state.node_freedom_map_table in
      let one : ℕ → List (Load D) =
        λ c. load (e.masses.state_indices k) c (terms.masses k c) ∷ [] in
      parallel_for-scatter add 6 (λ c. (table k c, terms.masses k c) ∷ []) _ v (λ c w below. refl)
      ∙ ap (λ l. scatter add l v)
          (collect_congr 6 (λ c. (table k c, terms.masses k c) ∷ []) (λ c. map at (one c))
              (λ c in_6. one_entry (terms.masses k c) (mass_table state e k c lt in_6))
            ∙ sym (map-collect at 6 one))

  contribute_spring-scatter :
      (k : ℕ) (v : View D)
      → k < e.springs.num_elems
      → contribute_spring add (create_element_freedom_table e state).springs terms.springs k v
        ≡ scatter add (map (number state.node_freedom_map_table) (spring_loads e.springs terms k)) v
  unfolding contribute_spring create_element_freedom_table scatter
  contribute_spring-scatter k v lt =
      let table = (create_element_freedom_table e state).springs.element_freedom_table in
      let at = number state.node_freedom_map_table in
      let one : ℕ → List (Load D) = λ c.
        load (e.springs.node_state_indices k 0) c (terms.springs k 0 c)
        ∷ load (e.springs.node_state_indices k 1) c (terms.springs k 1 c)
        ∷ [] in
      let pair : ℕ → List (ℕ × D) =
        λ c. (table k 0 c, terms.springs k 0 c) ∷ (table k 1 c, terms.springs k 1 c) ∷ [] in
      parallel_for-scatter add 3 pair _ v (λ c w below. refl)
      ∙ ap (λ l. scatter add l v)
          (collect_congr 3 pair (λ c. map at (one c))
              (λ c in_3.
                two_entries (terms.springs k 0 c) (terms.springs k 1 c)
                  (spring_table state e k 0 c lt (omega arith) in_3)
                  (spring_table state e k 1 c lt (omega arith) in_3))
            ∙ sym (map-collect at 3 one))

  pub contribute_elements-scatter :
      (v : View D)
      → contribute_elements add e.beams.num_elems e.masses.num_elems e.springs.num_elems
          (create_element_freedom_table e state)
          terms
          v
        ≡ scatter add (map (number state.node_freedom_map_table) (element_loads e terms)) v
  unfolding contribute_elements create_element_freedom_table
  contribute_elements-scatter v =
      let at = number state.node_freedom_map_table in
      let beams = collect e.beams.num_elems (beam_loads e.beams terms) in
      let masses = collect e.masses.num_elems (mass_loads e.masses terms) in
      let springs = collect e.springs.num_elems (spring_loads e.springs terms) in
      loop-scatter add state.node_freedom_map_table e.springs.num_elems
        (spring_loads e.springs terms) _ _ (λ k w lt. contribute_spring-scatter k w lt)
      ∙ ap (scatter add (map at springs)) (
          loop-scatter add state.node_freedom_map_table e.masses.num_elems
            (mass_loads e.masses terms) _ _ (λ k w lt. contribute_mass-scatter k w lt)
          ∙ ap (scatter add (map at masses)) (
              loop-scatter add state.node_freedom_map_table e.beams.num_elems
                (beam_loads e.beams terms) _ v (λ k w lt. contribute_beam-scatter k w lt)))
      ∙ sym (
          scatter_loads-append add state.node_freedom_map_table masses springs
            (scatter add (map at beams) v))
      ∙ sym (scatter_loads-append add state.node_freedom_map_table beams (masses ++ springs) v)
