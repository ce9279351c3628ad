-- ===== src/Tests/Documents.antt =====
-- A document type with the documented behaviour of YAML nodes, in which a number is written as so many
-- strokes, and a mesh connectivity that goes through it.
use Prim.Native.String.{String}
use text.Mathlib.Text.{◌==◌ as str_eq}
use text.Mathlib.TextEquality.{eq_iff}
use kynema_fmb.Base.{
  ℕ, zero, suc, ◌≡◌, ◌≢◌, ◌↔◌, refl, ap, arith, List, [], ◌∷◌, ◌++◌, Option, none, some, All,
  if◌then◌else◌, false, Bool-cases, inl, inr,
}
use kynema_fmb.Model.Maps.{lookup, NodupKeys}
use kynema_fmb.Model.Mesh.{
  MeshConnectivity, Kind, beam_kind, mass_kind, spring_kind, constraint_kind, map_of,
  get_connectivity,
}
use kynema_fmb.Model.Mesh.Yaml.{Yaml, IsYaml, export_to_yaml, import_from_yaml}
use kynema_fmb.Model.Mesh.Written.{HasNodes}
use kynema_fmb.Model.Mesh.RoundTrip.{mesh_round_trip}
use kynema_fmb.Model.Mesh.Canonical.{export_to_yaml_order}
use kynema_fmb.Model.Mesh.Errors.{IsReadable, import_from_yaml-thrown}

data Document : Type 0 where
  null : Document
  ids : ℕ → List ℕ → Document
  entry : String → Document → Document → Document

set : Document → String → Document → Document
set null k v = entry k v null
set (ids n ns) k v = entry k v null
set (entry j w rest) k v = if str_eq j k then entry j v rest else entry j w (set rest k v)

get : Document → String → Option Document
get null k = none
get (ids n ns) k = none
get (entry j w rest) k = if str_eq j k then some w else get rest k

entries_of : Document → List (Option String × Document)
entries_of null = []
entries_of (ids n ns) = []
entries_of (entry k v rest) = (some k, v) ∷ entries_of rest

as_ids : Document → Option (List ℕ)
as_ids null = none
as_ids (ids n ns) = some (n ∷ ns)
as_ids (entry k v rest) = none

sequence : List ℕ → Document
sequence [] = null
sequence (n ∷ ns) = ids n ns

strokes : ℕ → String
strokes zero = String.[]
strokes (suc n) = String.◌∷◌ "i" (strokes n)

count : String → ℕ
count String.[] = 0
count (String.◌∷◌ c s) = suc (count s)

count-strokes : (n : ℕ) → some (count (strokes n)) ≡ some n
unfolding count strokes
count-strokes zero = refl
count-strokes (suc n) =
    ap (λ (o : Option ℕ). elim o [ none ↦ none | some k ↦ some (suc k) ]) (count-strokes n)

abbrev documents : Yaml Document
documents = record {
  new_node = null;
  sequence = sequence;
  set = set;
  get = get;
  is_scalar = λ node. false;
  entries = entries_of;
  as_ids = as_ids;
  to_string = strokes;
  stoul = λ text. some (count text);
}

get_set : (node value : Document) (key : String) → get (set node key value) key ≡ some value
unfolding get set
get_set null value key = ground (arith, eq_iff key key)
get_set (ids n ns) value key = ground (arith, eq_iff key key)
get_set (entry j w rest) value key = ground (arith, eq_iff j key, get_set rest value key)

get_set_other :
    (node value : Document) (key other : String)
    → key ≢ other
    → get (set node key value) other ≡ get node other
unfolding get set
get_set_other null value key other apart = ground (arith, eq_iff key other)
get_set_other (ids n ns) value key other apart = ground (arith, eq_iff key other)
get_set_other (entry j w rest) value key other apart = ground (
  arith,
  eq_iff j key,
  eq_iff j other,
  eq_iff key other,
  get_set_other rest value key other apart,
)

entries_set :
    (node value : Document) (key : String)
    → All (λ (e : Option String × Document). (e.0 ≢ none) × (e.0 ≢ some key)) (entries_of node)
    → entries_of (set node key value) ≡ entries_of node ++ ((some key, value) ∷ [])
unfolding entries_of set
entries_set null value key fresh = refl
entries_set (ids n ns) value key fresh = refl
entries_set (entry j w rest) value key ((text, apart), fresh) = elim (Bool-cases (str_eq j key)) [
  | inl e ↦ absurd (apart (ap some ((eq_iff j key).0 e)))
  | inr e ↦ rw e (ap (◌∷◌ (some j, w)) (entries_set rest value key fresh))
]

documents-IsYaml : IsYaml documents
unfolding get entries_of as_ids sequence
documents-IsYaml = record {
  get_new = λ key. refl;
  get_set = get_set;
  get_set_other = get_set_other;
  entries_new = refl;
  entries_set = entries_set;
  scalar_new = refl;
  scalar_set = λ node value key h. refl;
  as_sequence = λ n ns. refl;
  stoul_to_string = count-strokes;
}

abbrev mesh : MeshConnectivity
mesh = record {
  beams = (0, (0 ∷ 1 ∷ [])) ∷ [];
  masses = (1, (1 ∷ [])) ∷ (0, (2 ∷ [])) ∷ [];
  springs = [];
  constraints = (0, (0 ∷ [])) ∷ [];
}

mesh-NodupKeys : (kind : Kind) → NodupKeys (map_of kind mesh)
unfolding map_of lookup
mesh-NodupKeys beam_kind = (refl, tt)
mesh-NodupKeys mass_kind = (refl, (refl, tt))
mesh-NodupKeys spring_kind = tt
mesh-NodupKeys constraint_kind = (refl, tt)

mesh-HasNodes : (kind : Kind) → HasNodes (map_of kind mesh)
unfolding map_of lookup
mesh-HasNodes beam_kind id nodes found empty = ground arith
mesh-HasNodes mass_kind id nodes found empty = ground arith
mesh-HasNodes spring_kind id nodes found empty = ground arith
mesh-HasNodes constraint_kind id nodes found empty = ground arith

mesh_round_trip_example :
    (root : Document) × (result : MeshConnectivity) × (export_to_yaml documents mesh ≡ some root)
    × (import_from_yaml documents root mesh ≡ (none, result))
    × ((kind : Kind) (id : ℕ) → get_connectivity kind result id ≡ get_connectivity kind mesh id)
mesh_round_trip_example =
    mesh_round_trip documents documents-IsYaml mesh mesh mesh-NodupKeys mesh-HasNodes

-- The same masses in the other order.
abbrev other_mesh : MeshConnectivity
other_mesh = record mesh { masses = (0, (2 ∷ [])) ∷ (1, (1 ∷ [])) ∷ [] }

other_mesh-NodupKeys : (kind : Kind) → NodupKeys (map_of kind other_mesh)
unfolding map_of lookup
other_mesh-NodupKeys beam_kind = (refl, tt)
other_mesh-NodupKeys mass_kind = (refl, (refl, tt))
other_mesh-NodupKeys spring_kind = tt
other_mesh-NodupKeys constraint_kind = (refl, tt)

same_nodes :
    (kind : Kind) (id : ℕ) → get_connectivity kind mesh id ≡ get_connectivity kind other_mesh id
unfolding get_connectivity map_of lookup
same_nodes beam_kind id = refl
same_nodes mass_kind id = ground arith
same_nodes spring_kind id = refl
same_nodes constraint_kind id = refl

export_to_yaml_order_example : export_to_yaml documents mesh ≡ export_to_yaml documents other_mesh
export_to_yaml_order_example =
    export_to_yaml_order documents mesh other_mesh mesh-NodupKeys other_mesh-NodupKeys same_nodes

-- A document with a mass that has no list of nodes.
abbrev bad_document : Document
bad_document = entry "masses" (entry (strokes 3) null null) null

import_from_yaml-thrown_example : ((import_from_yaml documents bad_document mesh).0 ≡ none) ↔ (
    (documents.is_scalar bad_document ≡ false)
    × ((kind : Kind) → IsReadable documents bad_document kind))
import_from_yaml-thrown_example = import_from_yaml-thrown documents bad_document mesh
