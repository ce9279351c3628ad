-- ===== src/Model/Mesh/Yaml.antt =====
-- src/model/mesh_connectivity.hpp: ExportToYAML and ImportFromYAML, up to the text of the file. The
-- documents, and the texts of numbers, are those of yaml-cpp and of the standard library.
use Prim.Native.String.{String}
use kynema_fmb.Base.{
  ℕ, ◌≡◌, ◌≢◌, List, [], ◌∷◌, ◌++◌, Option, none, some, Bool, true, false, if◌then◌else◌, All,
}
use kynema_fmb.Model.Maps.{Dict, lookup, insert, keys}
use kynema_fmb.Model.Mesh.{
  MeshConnectivity, Kind, beam_kind, mass_kind, spring_kind, constraint_kind, map_of,
  no_connectivity,
}
use kynema_fmb.Model.Mesh.Order.{sort}

-- What the code uses of a `YAML::Node`, and of `std::to_string` and `std::stoul`.
pub record Yaml (Y : Type 0) : Type 0 where
  -- `YAML::Node()`
  pub new_node : Y
  -- a new node and one `push_back` for each number
  pub sequence : List ℕ → Y
  -- `node[key] = value`
  pub set : Y → String → Y → Y
  -- `node[key]`, `none` if that is false
  pub get : Y → String → Option Y
  -- `node.IsScalar()`, for which `node[key]` throws
  pub is_scalar : Y → Bool
  -- the keys and values of a node, in the order of the loop over it: the key is
  -- `entry.first.as<std::string>()`, `none` if that throws
  pub entries : Y → List (Option String × Y)
  -- `node.as<std::vector<size_t>>()`, `none` if that throws
  pub as_ids : Y → Option (List ℕ)
  pub to_string : ℕ → String
  -- `none` if it throws
  pub stoul : String → Option ℕ

-- What yaml-cpp and the standard library document of these. A node without an element is no
-- sequence, so that nothing is said of an empty list. An element of a sequence has no key.
pub record IsYaml {Y : Type 0} (y : Yaml Y) : Type 0 where
  pub get_new : (key : String) → y.get y.new_node key ≡ none
  pub get_set : (node value : Y) (key : String) → y.get (y.set node key value) key ≡ some value
  pub get_set_other :
      (node value : Y) (key other : String)
      → key ≢ other
      → y.get (y.set node key value) other ≡ y.get node other
  pub entries_new : y.entries y.new_node ≡ []
  pub entries_set :
      (node value : Y) (key : String)
      → All
          (λ (entry : Option String × Y). (entry.0 ≢ none) × (entry.0 ≢ some key))
          (y.entries node)
      → y.entries (y.set node key value) ≡ y.entries node ++ ((some key, value) ∷ [])
  pub scalar_new : y.is_scalar y.new_node ≡ false
  pub scalar_set :
      (node value : Y) (key : String)
      → y.is_scalar node ≡ false
      → y.is_scalar (y.set node key value) ≡ false
  pub as_sequence : (id : ℕ) (ids : List ℕ) → y.as_ids (y.sequence (id ∷ ids)) ≡ some (id ∷ ids)
  pub stoul_to_string : (n : ℕ) → y.stoul (y.to_string n) ≡ some n

unfoldable pub section_name : Kind → String
section_name beam_kind = "beams"
section_name mass_kind = "masses"
section_name spring_kind = "springs"
section_name constraint_kind = "constraints"

unfoldable pub set_map : Kind → Dict (List ℕ) → MeshConnectivity → MeshConnectivity
set_map beam_kind d m = record m { beams = d }
set_map mass_kind d m = record m { masses = d }
set_map spring_kind d m = record m { springs = d }
set_map constraint_kind d m = record m { constraints = d }

unfoldable pub is_empty : {V : Type 0} → Dict V → Bool
is_empty [] = true
is_empty (entry ∷ d) = false

pub data ImportError : Type 0 where
  bad_root bad_key bad_ids : ImportError

module _ {Y : Type 0} (y : Yaml Y) where
  -- The loop over the sorted keys; `none` if `map.at(id)` throws.
  unfoldable pub export_ids : Dict (List ℕ) → List ℕ → Y → Option Y
  export_ids d [] element_node = some element_node
  export_ids d (id ∷ ids) element_node = elim (lookup id d) [
    | none ↦ none
    | some nodes ↦ export_ids d ids (y.set element_node (y.to_string id) (y.sequence nodes))
  ]

  unfoldable pub export_element_type : Kind → MeshConnectivity → Y → Option Y
  unfolding section_name map_of
  export_element_type kind m root =
      if is_empty (map_of kind m)
      then some root
      else elim (export_ids (map_of kind m) (sort (keys (map_of kind m))) y.new_node) [
        | none ↦ none
        | some element_node ↦ some (y.set root (section_name kind) element_node)
      ]

  -- One element type after another.
  unfoldable pub export_element_types : List Kind → MeshConnectivity → Y → Option Y
  export_element_types [] m root = some root
  export_element_types (kind ∷ kinds) m root = elim (export_element_type kind m root) [
    | none ↦ none
    | some next ↦ export_element_types kinds m next
  ]

  unfoldable pub export_to_yaml : MeshConnectivity → Option Y
  export_to_yaml m =
      export_element_types (beam_kind ∷ mass_kind ∷ spring_kind ∷ constraint_kind ∷ []) m y.new_node

  -- The loop over the entries of a section: what is thrown, if anything, and the map at that time.
  unfoldable pub import_entries :
      List (Option String × Y) → Dict (List ℕ) → Option ImportError × Dict (List ℕ)
  import_entries [] d = (none, d)
  import_entries ((none, value) ∷ rest) d = (some bad_key, d)
  import_entries ((some key, value) ∷ rest) d = elim (y.stoul key) [
    | none ↦ (some bad_key, d)
    | some id ↦ elim (y.as_ids value) [
      | none ↦ (some bad_ids, d)
      | some ids ↦ import_entries rest (insert id ids d)
    ]
  ]

  unfoldable pub import_section : String → Y → Dict (List ℕ) → Option ImportError × Dict (List ℕ)
  import_section name root d = elim (y.get root name) [
    | none ↦ (none, d)
    | some node ↦ import_entries (y.entries node) d
  ]

  -- One section after another. What follows an exception does not run.
  unfoldable pub import_sections :
      List Kind → Y → MeshConnectivity → Option ImportError × MeshConnectivity
  unfolding section_name set_map map_of
  import_sections [] root m = (none, m)
  import_sections (kind ∷ kinds) root m =
      let read = import_section (section_name kind) root (map_of kind m) in
      elim read.0 [
        | some thrown ↦ (some thrown, set_map kind read.1 m)
        | none ↦ import_sections kinds root (set_map kind read.1 m)
      ]

  -- The four maps are cleared first, whatever they held. The first section is asked of the document,
  -- which throws if that is a scalar.
  unfoldable pub import_from_yaml : Y → MeshConnectivity → Option ImportError × MeshConnectivity
  import_from_yaml root m =
      if y.is_scalar root
      then (some bad_root, no_connectivity)
      else import_sections (mass_kind ∷ spring_kind ∷ beam_kind ∷ constraint_kind ∷ []) root
          no_connectivity
