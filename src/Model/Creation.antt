-- ===== src/Model/Creation.antt =====
-- src/model/model.hpp, CreateElements, CreateConstraints, CreateSystem and CreateSystemWithSolver, with
-- src/elements/beams/create_beams.hpp, masses/create_masses.hpp, springs/create_springs.hpp and the
-- constructors that they call. Of the elements it is the part that says what nodes they have.
pub mod Elements
pub mod Coupled
use kynema_fmb.Base.{ℕ, max, View, View2, Vector, write, write2, parallel_for}
use kynema_fmb.Constraints.{Constraints, construct_constraints}
use kynema_fmb.Dof.Signature.{all_components, just_position}
use kynema_fmb.Dof.System.{System}
use kynema_fmb.Elements as Parts
use kynema_fmb.Elements.{Beams, Masses, Springs}
use kynema_fmb.Model.Nodes.{Geometry}
use kynema_fmb.Model.Building.{Model, BeamElement, MassElement, SpringElement}
use kynema_fmb.Model.State.{create_state}
use kynema_fmb.State.{State}
use kynema_fmb.Solver.Connectivity.{Connectivity}
use kynema_fmb.Solver.Creation.{create_solver}

-- `BeamsInput::MaxElemNodes`
unfoldable pub max_elem_nodes : {P : Type 0} → Vector (BeamElement P) → ℕ
max_elem_nodes elements =
    parallel_for elements.size (λ i most. max most (elements.at i).node_ids.size) 0

-- One round of the loop of CreateBeams.
unfoldable pub create_beam : {P : Type 0} → Vector (BeamElement P) → ℕ → Beams → Beams
create_beam elements element beams =
    let node_ids = (elements.at element).node_ids in
    record beams {
      num_nodes_per_element = write beams.num_nodes_per_element element node_ids.size;
      node_state_indices =
          parallel_for node_ids.size
            (λ node (indices : View2 ℕ). write2 indices element node (node_ids.at node))
            beams.node_state_indices;
    }

-- The first argument is what the views hold before they are written.
unfoldable pub create_beams : {P : Type 0} → Beams → Vector (BeamElement P) → Beams
create_beams fresh elements = parallel_for elements.size (create_beam elements) (record fresh {
  num_elems = elements.size;
  max_elem_nodes = max_elem_nodes elements;
  element_freedom_signature = λ element node. all_components;
})

unfoldable pub create_masses : {D : Type 0} → Masses → Vector (MassElement D) → Masses
create_masses fresh elements = record fresh {
  num_elems = elements.size;
  num_nodes_per_element = λ element. 1;
  element_freedom_signature = λ element. all_components;
  state_indices =
      parallel_for elements.size
        (λ element (indices : View ℕ). write indices element (elements.at element).node_id)
        fresh.state_indices;
}

unfoldable pub create_springs : {D : Type 0} → Springs → Vector (SpringElement D) → Springs
create_springs fresh elements = record fresh {
  num_elems = elements.size;
  num_nodes_per_element = λ element. 2;
  element_freedom_signature = λ element node. just_position;
  node_state_indices =
      parallel_for elements.size
        (λ element (indices : View2 ℕ).
          write2 (write2 indices element 0 (elements.at element).node_ids.0) element 1
            (elements.at element).node_ids.1)
        fresh.node_state_indices;
}

module _ {D P : Type 0} where
  unfoldable pub create_elements : Parts.Elements → Model D P → Parts.Elements
  create_elements fresh m = record {
    beams = create_beams fresh.beams m.beam_elements;
    masses = create_masses fresh.masses m.mass_elements;
    springs = create_springs fresh.springs m.spring_elements;
  }

  -- The system `fresh` is what the views of the new objects hold before they are written.
  unfoldable pub create_system : Geometry D → System D → Model D P → System D
  create_system g fresh m = record {
    state = create_state g fresh.state m.nodes;
    elements = create_elements fresh.elements m;
    constraints = construct_constraints fresh.constraints m.constraints;
  }

  unfoldable pub create_system_with_solver :
      Geometry D → System D → View ℕ → View2 ℕ → Model D P → Connectivity
  create_system_with_solver g fresh fresh_counts fresh_nodes m =
      create_solver fresh_counts fresh_nodes (create_system g fresh m)
