-- ===== src/Elements.antt =====
-- src/elements: what the beams, masses and springs of a model say about nodes and degrees of freedom.
-- Shape functions, sections, mass matrices and the terms that they give are not part of it.
pub mod Joined
use kynema_fmb.Base.{
  ℕ, ◌+◌, ◌≡◌, max, View, View2, View3, write, write2, parallel_for, ltb, if◌then◌else◌,
}
use kynema_fmb.Dof.Signature.{FreedomSignature, all_components, just_position}

pub record Beams : Type 0 where
  pub num_elems : ℕ
  pub max_elem_nodes : ℕ
  pub num_nodes_per_element : View ℕ
  pub node_state_indices : View2 ℕ
  pub element_freedom_signature : View2 FreedomSignature
  pub element_freedom_table : View3 ℕ

pub record Masses : Type 0 where
  pub num_elems : ℕ
  pub num_nodes_per_element : View ℕ
  pub state_indices : View ℕ
  pub element_freedom_signature : View FreedomSignature
  pub element_freedom_table : View2 ℕ

pub record Springs : Type 0 where
  pub num_elems : ℕ
  pub num_nodes_per_element : View ℕ
  pub node_state_indices : View2 ℕ
  pub element_freedom_signature : View2 FreedomSignature
  pub element_freedom_table : View3 ℕ

pub record Elements : Type 0 where
  pub beams : Beams
  pub masses : Masses
  pub springs : Springs

-- What the constructors of the three structures put into every signature and node count.
pub record IsConstructed (e : Elements) : Type 0 where
  pub beam_signature : (i j : ℕ) → e.beams.element_freedom_signature i j ≡ all_components
  pub mass_signature : (i : ℕ) → e.masses.element_freedom_signature i ≡ all_components
  pub spring_signature : (i j : ℕ) → e.springs.element_freedom_signature i j ≡ just_position
  pub mass_nodes : (i : ℕ) → e.masses.num_nodes_per_element i ≡ 1
  pub spring_nodes : (i : ℕ) → e.springs.num_nodes_per_element i ≡ 2

unfoldable pub num_elements_in_system : Elements → ℕ
num_elements_in_system e = e.beams.num_elems + e.masses.num_elems + e.springs.num_elems

-- The first argument is what the new view holds before it is written.
unfoldable pub number_of_nodes_per_element : View ℕ → Elements → View ℕ
number_of_nodes_per_element fresh e =
    let beams_offset = e.beams.num_elems in
    let beams_and_masses_offset = beams_offset + e.masses.num_elems in
    let beams =
      parallel_for e.beams.num_elems
        (λ element result. write result element (e.beams.num_nodes_per_element element)) fresh in
    let masses =
      parallel_for e.masses.num_elems
        (λ element result.
          write result (element + beams_offset) (e.masses.num_nodes_per_element element))
        beams in
    parallel_for e.springs.num_elems
      (λ element result.
        write result (element + beams_and_masses_offset) (e.springs.num_nodes_per_element element))
      masses

unfoldable pub max_nodes : Elements → ℕ
max_nodes e = max e.beams.max_elem_nodes (if ltb 0 e.springs.num_elems then 2 else 1)

unfoldable pub all_node_state_indices : View2 ℕ → Elements → View2 ℕ
all_node_state_indices fresh e =
    let beams_offset = e.beams.num_elems in
    let beams_and_masses_offset = beams_offset + e.masses.num_elems in
    let beams =
      parallel_for e.beams.num_elems
        (λ element result.
          parallel_for (e.beams.num_nodes_per_element element)
            (λ node r. write2 r element node (e.beams.node_state_indices element node)) result)
        fresh in
    let masses =
      parallel_for e.masses.num_elems
        (λ element result.
          write2 result (element + beams_offset) 0 (e.masses.state_indices element))
        beams in
    parallel_for e.springs.num_elems
      (λ element result.
        write2
          (write2 result (element + beams_and_masses_offset) 0
            (e.springs.node_state_indices element 0))
          (element + beams_and_masses_offset) 1 (e.springs.node_state_indices element 1))
      masses
