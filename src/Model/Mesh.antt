-- ===== src/Model/Mesh.antt =====
-- src/model/mesh_connectivity.hpp: which nodes each element and constraint of a model has.
pub mod Order
pub mod Yaml
pub mod Written
pub mod Sections
pub mod RoundTrip
pub mod Errors
pub mod Canonical
use kynema_fmb.Base.{ℕ, List, [], ◌∷◌, Option, Vector, segment}
use kynema_fmb.Model.Maps.{Dict, lookup, insert}

pub record MeshConnectivity : Type 0 where
  pub beams : Dict (List ℕ)
  pub masses : Dict (List ℕ)
  pub springs : Dict (List ℕ)
  pub constraints : Dict (List ℕ)

-- The four maps, and the reads and writes of each.
pub data Kind : Type 0 where
  beam_kind mass_kind spring_kind constraint_kind : Kind

unfoldable pub map_of : Kind → MeshConnectivity → Dict (List ℕ)
map_of beam_kind m = m.beams
map_of mass_kind m = m.masses
map_of spring_kind m = m.springs
map_of constraint_kind m = m.constraints

abbrev pub no_connectivity : MeshConnectivity
no_connectivity = record { beams = []; masses = []; springs = []; constraints = [] }

unfoldable pub add_beam_element_connectivity : ℕ → Vector ℕ → MeshConnectivity → MeshConnectivity
add_beam_element_connectivity elem_id node_ids m = record m {
  beams = insert elem_id (segment node_ids.at 0 node_ids.size) m.beams;
}

unfoldable pub add_mass_element_connectivity : ℕ → ℕ → MeshConnectivity → MeshConnectivity
add_mass_element_connectivity elem_id node_id m = record m {
  masses = insert elem_id (node_id ∷ []) m.masses;
}

unfoldable pub add_spring_element_connectivity : ℕ → ℕ × ℕ → MeshConnectivity → MeshConnectivity
add_spring_element_connectivity elem_id (node1, node2) m = record m {
  springs = insert elem_id (node1 ∷ node2 ∷ []) m.springs;
}

unfoldable pub add_constraint_connectivity : ℕ → List ℕ → MeshConnectivity → MeshConnectivity
add_constraint_connectivity constraint_id node_ids m = record m {
  constraints = insert constraint_id node_ids m.constraints;
}

-- `GetBeamElementConnectivity` and the three like it: `none` is the exception that `at` throws.
unfoldable pub get_connectivity : Kind → MeshConnectivity → ℕ → Option (List ℕ)
unfolding map_of
get_connectivity kind m id = lookup id (map_of kind m)
