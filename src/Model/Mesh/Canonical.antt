-- ===== src/Model/Mesh/Canonical.antt =====
-- src/model/mesh_connectivity.hpp: the export does not depend on the order in which the maps are walked.
use kynema_fmb.Base.{ℕ, ◌≡◌, refl, ◌∙◌, arith, List, [], ◌∷◌, Option-cases, inl, inr}
use kynema_fmb.Model.Maps.{Dict, NodupKeys, lookup, keys}
use kynema_fmb.Model.Mesh.{
  MeshConnectivity, Kind, beam_kind, mass_kind, spring_kind, constraint_kind, map_of,
  get_connectivity,
}
use kynema_fmb.Model.Mesh.Order.{sort, sort-keys_congr}
use kynema_fmb.Model.Mesh.Yaml.{
  Yaml, is_empty, export_ids, export_element_type, export_element_types, export_to_yaml,
}

is_empty_congr :
    {V : Type 0} (d e : Dict V) → ((k : ℕ) → lookup k d ≡ lookup k e) → is_empty d ≡ is_empty e
unfolding is_empty lookup
is_empty_congr [] [] same = refl
is_empty_congr [] ((k, v) ∷ e) same = absurd (ground (arith, same k))
is_empty_congr ((k, v) ∷ d) [] same = absurd (ground (arith, same k))
is_empty_congr (a ∷ d) (b ∷ e) same = refl

module _ {Y : Type 0} (y : Yaml Y) where
  export_ids_congr :
      (d e : Dict (List ℕ)) (ids : List ℕ) (node : Y)
      → ((k : ℕ) → lookup k d ≡ lookup k e)
      → export_ids y d ids node ≡ export_ids y e ids node
  unfolding export_ids
  export_ids_congr d e [] node same = refl
  export_ids_congr d e (id ∷ ids) node same = elim (Option-cases (lookup id e)) [
    | inl absent ↦ rw (export_ids, same id ∙ absent, absent) refl
    | inr (nodes, found) ↦
        rw (export_ids, same id ∙ found, found)
          (export_ids_congr d e ids (y.set node (y.to_string id) (y.sequence nodes)) same)
  ]

  export_element_type_congr :
      (kind : Kind) (m n : MeshConnectivity) (root : Y)
      → NodupKeys (map_of kind m)
      → NodupKeys (map_of kind n)
      → ((id : ℕ) → lookup id (map_of kind m) ≡ lookup id (map_of kind n))
      → export_element_type y kind m root ≡ export_element_type y kind n root
  unfolding export_element_type
  export_element_type_congr kind m n root u w same =
      rw
        (
          is_empty_congr (map_of kind m) (map_of kind n) same,
          sort-keys_congr (map_of kind m) (map_of kind n) u w same,
          export_ids_congr (map_of kind m) (map_of kind n) (sort (keys (map_of kind n))) y.new_node
              same,
        )
        refl

  export_element_types_congr :
      (kinds : List Kind) (m n : MeshConnectivity) (root : Y)
      → ((kind : Kind) (r : Y) → export_element_type y kind m r ≡ export_element_type y kind n r)
      → export_element_types y kinds m root ≡ export_element_types y kinds n root
  unfolding export_element_types
  export_element_types_congr [] m n root same = refl
  export_element_types_congr (kind ∷ kinds) m n root same =
      elim (Option-cases (export_element_type y kind n root)) [
        | inl e ↦ rw (export_element_types, same kind root, e) refl
        | inr (next, e) ↦
            rw (export_element_types, same kind root, e)
              (export_element_types_congr kinds m n next same)
      ]

  -- Two mesh connectivities with no key twice in a map that give every element and constraint the
  -- same nodes export the same document, whatever the order of the entries of their maps.
  pub export_to_yaml_order :
      (m n : MeshConnectivity)
      → ((kind : Kind) → NodupKeys (map_of kind m))
      → ((kind : Kind) → NodupKeys (map_of kind n))
      → ((kind : Kind) (id : ℕ) → get_connectivity kind m id ≡ get_connectivity kind n id)
      → export_to_yaml y m ≡ export_to_yaml y n
  unfolding export_to_yaml get_connectivity
  export_to_yaml_order m n u w same =
      export_element_types_congr (beam_kind ∷ mass_kind ∷ spring_kind ∷ constraint_kind ∷ []) m n
        y.new_node (λ kind r. export_element_type_congr kind m n r (u kind) (w kind) (same kind))
