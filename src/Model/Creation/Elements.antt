-- ===== src/Model/Creation/Elements.antt =====
-- src/elements: what CreateBeams, CreateMasses and CreateSprings take from the elements of a model.
use kynema_fmb.Base.{
  ℕ, ◌<◌, ◌≡◌, ◌≢◌, refl, ◌∙◌, arith, View, View2, Vector, write_self, write_ne, write2,
  write2_self, write2_row, write2_column, parallel_for_keep, parallel_for_reach,
}
use kynema_fmb.Dof.Signature.{all_components}
use kynema_fmb.Elements as Parts
use kynema_fmb.Elements.{Beams, Masses, Springs, IsConstructed}
use kynema_fmb.Solver.Creation.Numbered.{HasDistinctNodes}
use kynema_fmb.Model.Building.{Model, BeamElement, MassElement, SpringElement}
use kynema_fmb.Model.Creation.{
  create_beam, create_beams, create_masses, create_springs, create_elements,
}

module _ {P : Type 0} (elements : Vector (BeamElement P)) where
  -- The row of a beam in the two views.
  record IsCopied (i : ℕ) (b : Beams) : Type 0 where
    count : b.num_nodes_per_element i ≡ (elements.at i).node_ids.size
    indices :
        (j : ℕ)
        → j < (elements.at i).node_ids.size
        → b.node_state_indices i j ≡ (elements.at i).node_ids.at j

  create_beam_self : (i : ℕ) (b : Beams) → IsCopied i (create_beam elements i b)
  unfolding create_beam
  create_beam_self i b =
      let ids = (elements.at i).node_ids in
      record {
        count = write_self b.num_nodes_per_element i ids.size;
        indices = λ j lt.
            parallel_for_reach (λ (w : View2 ℕ). w i j ≡ ids.at j) ids.size j _ b.node_state_indices
              lt (λ w. write2_self w i j (ids.at j))
              (λ k w below apart h. write2_column w i k j (ids.at k) apart ∙ h);
      }

  create_beam_other :
      (k i : ℕ) (b : Beams) → k ≢ i → IsCopied i b → IsCopied i (create_beam elements k b)
  unfolding create_beam
  create_beam_other k i b apart h =
      let ids = (elements.at k).node_ids in
      record {
        count = write_ne b.num_nodes_per_element k i ids.size apart ∙ h.count;
        indices = λ j lt.
            parallel_for_keep (λ (w : View2 ℕ). w i j ≡ b.node_state_indices i j) ids.size _
              b.node_state_indices (λ n w below same. write2_row w k n i j (ids.at n) apart ∙ same)
              refl
            ∙ h.indices j lt;
      }

  -- What the loop leaves as the constructor made it.
  pub create_beams-kept :
      (fresh : Beams)
      → ((create_beams fresh elements).num_elems ≡ elements.size)
        × ((create_beams fresh elements).element_freedom_signature ≡ (λ i j. all_components))
  unfolding create_beams create_beam
  create_beams-kept fresh = (
    parallel_for_keep (λ (b : Beams). b.num_elems ≡ elements.size) elements.size _ _
        (λ k b below h. h) refl,
    parallel_for_keep (λ (b : Beams). b.element_freedom_signature ≡ (λ i j. all_components))
        elements.size _ _ (λ k b below h. h) refl,
  )

  pub created_beam :
      (fresh : Beams) (i : ℕ)
      → i < elements.size
      → ((create_beams fresh elements).num_nodes_per_element i ≡ (elements.at i).node_ids.size)
        × ((j : ℕ)
            → j < (elements.at i).node_ids.size
            → (create_beams fresh elements).node_state_indices i j ≡ (elements.at i).node_ids.at j)
  unfolding create_beams
  created_beam fresh i lt =
      let row =
        parallel_for_reach (IsCopied i) elements.size i (create_beam elements) _ lt
          (λ b. create_beam_self i b) (λ k b below apart h. create_beam_other k i b apart h) in
      (row.count, row.indices)

module _ {D : Type 0} where
  pub created_mass :
      (fresh : Masses) (elements : Vector (MassElement D)) (i : ℕ)
      → i < elements.size
      → (create_masses fresh elements).state_indices i ≡ (elements.at i).node_id
  unfolding create_masses
  created_mass fresh elements i lt =
      parallel_for_reach (λ (w : View ℕ). w i ≡ (elements.at i).node_id) elements.size i _ _ lt
        (λ w. write_self w i (elements.at i).node_id)
        (λ k w below apart h. write_ne w k i (elements.at k).node_id apart ∙ h)

  pub created_spring :
      (fresh : Springs) (elements : Vector (SpringElement D)) (i : ℕ)
      → i < elements.size
      → ((create_springs fresh elements).node_state_indices i 0 ≡ (elements.at i).node_ids.0)
        × ((create_springs fresh elements).node_state_indices i 1 ≡ (elements.at i).node_ids.1)
  unfolding create_springs
  created_spring fresh elements i lt = (
    parallel_for_reach (λ (w : View2 ℕ). w i 0 ≡ (elements.at i).node_ids.0) elements.size i _ _ lt
        (λ w.
          write2_column (write2 w i 0 (elements.at i).node_ids.0) i 1 0 (elements.at i).node_ids.1
            (omega arith)
          ∙ write2_self w i 0 (elements.at i).node_ids.0)
        (λ k w below apart h. row_kept w k i 0 apart ∙ h),
    parallel_for_reach (λ (w : View2 ℕ). w i 1 ≡ (elements.at i).node_ids.1) elements.size i _ _ lt
        (λ w. write2_self (write2 w i 0 (elements.at i).node_ids.0) i 1 (elements.at i).node_ids.1)
        (λ k w below apart h. row_kept w k i 1 apart ∙ h),
  )
    where
      row_kept :
          (w : View2 ℕ) (k i j : ℕ)
          → k ≢ i
          → write2 (write2 w k 0 (elements.at k).node_ids.0) k 1 (elements.at k).node_ids.1 i j
            ≡ w i j
      row_kept w k i j apart =
          write2_row (write2 w k 0 (elements.at k).node_ids.0) k 1 i j (elements.at k).node_ids.1
            apart
          ∙ write2_row w k 0 i j (elements.at k).node_ids.0 apart

-- No beam of the model has a node twice, and no spring joins a node with itself.
pub record HasApartNodes {D P : Type 0} (m : Model D P) : Type 0 where
  pub beams :
      (element i j : ℕ)
      → element < m.beam_elements.size
      → i < j
      → j < (m.beam_elements.at element).node_ids.size
      → (m.beam_elements.at element).node_ids.at i ≢ (m.beam_elements.at element).node_ids.at j
  pub springs :
      (element : ℕ)
      → element < m.spring_elements.size
      → (m.spring_elements.at element).node_ids.0 ≢ (m.spring_elements.at element).node_ids.1

module _ {D P : Type 0} (fresh : Parts.Elements) (m : Model D P) where
  pub create_elements-IsConstructed : IsConstructed (create_elements fresh m)
  unfolding create_elements create_masses create_springs
  create_elements-IsConstructed = record {
    beam_signature = λ i j k. (create_beams-kept m.beam_elements fresh.beams).1 k i j;
    mass_signature = λ i. refl;
    spring_signature = λ i j. refl;
    mass_nodes = λ i. refl;
    spring_nodes = λ i. refl;
  }

  pub create_elements-HasDistinctNodes :
      HasApartNodes m → HasDistinctNodes (create_elements fresh m)
  unfolding create_elements create_springs
  create_elements-HasDistinctNodes apart = record {
    beams = λ element i j lt before below.
        let in_beams : element < m.beam_elements.size =
          omega (arith, (create_beams-kept m.beam_elements fresh.beams).0) in
        let row = created_beam m.beam_elements fresh.beams element in_beams in
        let within : j < (m.beam_elements.at element).node_ids.size = omega (arith, row.0) in
        rw (row.1 i (omega arith), row.1 j within) (apart.beams element i j in_beams before within);
    springs = λ element lt.
        let row = created_spring fresh.springs m.spring_elements element lt in
        rw (row.0, row.1) (apart.springs element lt);
  }
