-- ===== src/Model/Mesh/RoundTrip.antt =====
-- src/model/mesh_connectivity.hpp: what is exported from a mesh connectivity, imported again.
use kynema_fmb.Base.{ℕ, ◌≡◌, refl, ◌∙◌, ap, List, [], ◌∷◌, Option, none, some, false}
use kynema_fmb.Model.Maps.{Dict, NodupKeys}
use kynema_fmb.Model.Mesh.{
  MeshConnectivity, Kind, beam_kind, mass_kind, spring_kind, constraint_kind, map_of,
  no_connectivity, get_connectivity,
}
use kynema_fmb.Model.Mesh.Written.{HasNodes}
use kynema_fmb.Model.Mesh.Sections.{Reads, Exported, export_kind}
use kynema_fmb.Model.Mesh.Yaml.{
  Yaml, IsYaml, section_name, set_map, ImportError, export_element_type, export_element_types,
  export_to_yaml, import_section, import_sections, import_from_yaml,
}

module _ {Y : Type 0} (y : Yaml Y) (laws : IsYaml y) where
  -- What is set later leaves a section as it is read.
  Reads-later :
      (kind : Kind) (m : MeshConnectivity) (root later : Y)
      → y.get later (section_name kind) ≡ y.get root (section_name kind)
      → Reads y laws kind m root
      → Reads y laws kind m later
  unfolding Reads import_section section_name
  Reads-later kind m root later same (result, read, entries) =
      (result, rw (import_section, same) read, entries)

  next_section :
      (kind : Kind) (kinds : List Kind) (m : MeshConnectivity) (root : Y) (result : Dict (List ℕ))
      → import_section y (section_name kind) root (map_of kind m) ≡ (none, result)
      → import_sections y (kind ∷ kinds) root m
        ≡ import_sections y kinds root (set_map kind result m)
  unfolding import_sections
  next_section kind kinds m root result read =
      ap
        (λ (r : Option ImportError × Dict (List ℕ)).
          let outcome : Option ImportError × MeshConnectivity = elim r.0 [
            | some thrown ↦ (some thrown, set_map kind r.1 m)
            | none ↦ import_sections y kinds root (set_map kind r.1 m)
          ] in
          outcome)
        read

  -- The import of a document in which every section reads back.
  import-Reads :
      (m before : MeshConnectivity) (root : Y)
      → y.is_scalar root ≡ false
      → ((kind : Kind) → Reads y laws kind m root)
      → (result : MeshConnectivity) × (import_from_yaml y root before ≡ (none, result))
        × ((kind : Kind) (id : ℕ) → get_connectivity kind result id ≡ get_connectivity kind m id)
  unfolding import_from_yaml import_sections Reads set_map map_of get_connectivity
  import-Reads m before root map reads =
      let (beams, read_beams, same_beams) = reads beam_kind in
      let (masses, read_masses, same_masses) = reads mass_kind in
      let (springs, read_springs, same_springs) = reads spring_kind in
      let (constraints, read_constraints, same_constraints) = reads constraint_kind in
      (
        record { beams = beams; masses = masses; springs = springs; constraints = constraints },
        rw map (
            next_section mass_kind (spring_kind ∷ beam_kind ∷ constraint_kind ∷ []) no_connectivity
              root masses read_masses
            ∙ next_section spring_kind (beam_kind ∷ constraint_kind ∷ [])
                (record no_connectivity { masses = masses }) root springs read_springs
            ∙ next_section beam_kind (constraint_kind ∷ [])
                (record no_connectivity { masses = masses; springs = springs }) root beams
                read_beams
            ∙ next_section constraint_kind []
                (record { beams = beams; masses = masses; springs = springs; constraints = [] })
                root constraints read_constraints),
        λ kind id.
            elim kind
              as (λ k.
                get_connectivity k
                  (record {
                    beams = beams;
                    masses = masses;
                    springs = springs;
                    constraints = constraints;
                  })
                  id
                ≡ get_connectivity k m id) [
                  | beam_kind ↦ same_beams id
                  | mass_kind ↦ same_masses id
                  | spring_kind ↦ same_springs id
                  | constraint_kind ↦ same_constraints id
                ],
      )

  -- Four sections written one after another all read back.
  all_read :
      (m : MeshConnectivity) (root : Y) (a : Exported y laws beam_kind m root)
      (b : Exported y laws mass_kind m a.result) (c : Exported y laws spring_kind m b.result)
      (d : Exported y laws constraint_kind m c.result) (kind : Kind)
      → Reads y laws kind m d.result
  all_read m root a b c d beam_kind =
      Reads-later beam_kind m a.result d.result
        (d.others beam_kind (λ h. cc) ∙ c.others beam_kind (λ h. cc) ∙ b.others beam_kind (λ h. cc))
        a.reads
  all_read m root a b c d mass_kind =
      Reads-later mass_kind m b.result d.result
        (d.others mass_kind (λ h. cc) ∙ c.others mass_kind (λ h. cc)) b.reads
  all_read m root a b c d spring_kind =
      Reads-later spring_kind m c.result d.result (d.others spring_kind (λ h. cc)) c.reads
  all_read m root a b c d constraint_kind = d.reads

  next_type :
      (kind : Kind) (kinds : List Kind) (m : MeshConnectivity) (root next : Y)
      → export_element_type y kind m root ≡ some next
      → export_element_types y (kind ∷ kinds) m root ≡ export_element_types y kinds m next
  unfolding export_element_types
  next_type kind kinds m root next e = rw (export_element_types, e) refl

  all-Exported :
      (m : MeshConnectivity) (a : Exported y laws beam_kind m y.new_node)
      (b : Exported y laws mass_kind m a.result) (c : Exported y laws spring_kind m b.result)
      (d : Exported y laws constraint_kind m c.result)
      → export_to_yaml y m ≡ some d.result
  unfolding export_to_yaml export_element_types
  all-Exported m a b c d =
      next_type beam_kind (mass_kind ∷ spring_kind ∷ constraint_kind ∷ []) m y.new_node a.result
        a.exported
      ∙ next_type mass_kind (spring_kind ∷ constraint_kind ∷ []) m a.result b.result b.exported
      ∙ next_type spring_kind (constraint_kind ∷ []) m b.result c.result c.exported
      ∙ next_type constraint_kind [] m c.result d.result d.exported

  -- If the YAML library does what it documents, no key of a map has two entries and no list of
  -- nodes is empty: the export does not throw, and the import of what it wrote, into any mesh
  -- connectivity, does not throw and gives every element and constraint the nodes that it had, and
  -- no others.
  pub mesh_round_trip :
      (m before : MeshConnectivity)
      → ((kind : Kind) → NodupKeys (map_of kind m))
      → ((kind : Kind) → HasNodes (map_of kind m))
      → (root : Y) × (result : MeshConnectivity) × (export_to_yaml y m ≡ some root)
        × (import_from_yaml y root before ≡ (none, result))
        × ((kind : Kind) (id : ℕ) → get_connectivity kind result id ≡ get_connectivity kind m id)
  mesh_round_trip m before unique full =
      let new = λ (kind : Kind). laws.get_new (section_name kind) in
      let a =
        export_kind y laws beam_kind m y.new_node (unique beam_kind) (full beam_kind)
          (new beam_kind) in
      let b =
        export_kind y laws mass_kind m a.result (unique mass_kind) (full mass_kind)
          (a.others mass_kind (λ h. cc) ∙ new mass_kind) in
      let c =
        export_kind y laws spring_kind m b.result (unique spring_kind) (full spring_kind)
          (b.others spring_kind (λ h. cc) ∙ a.others spring_kind (λ h. cc) ∙ new spring_kind) in
      let d =
        export_kind y laws constraint_kind m c.result (unique constraint_kind)
          (full constraint_kind)
          (c.others constraint_kind (λ h. cc)
            ∙ b.others constraint_kind (λ h. cc)
            ∙ a.others constraint_kind (λ h. cc)
            ∙ new constraint_kind) in
      let (result, imported, same) =
        import-Reads m before d.result (d.scalar (c.scalar (b.scalar (a.scalar laws.scalar_new))))
          (all_read m y.new_node a b c d) in
      (d.result, result, all-Exported m a b c d, imported, same)
