-- ===== src/Model/Mesh/Sections.antt =====
-- src/model/mesh_connectivity.hpp: one section of an
-- exported document, and what is read from it.
use Prim.Native.String.{String}
use kynema_fmb.Base.{
  ℕ, ◌≡◌, ◌≢◌, inl, inr, refl, sym, ap, ◌∙◌, subst, List, [], ◌∷◌, none, some, true, false, All,
  All-mem, Option, Option-cases, Bool-cases,
}
use kynema_fmb.Model.Maps.{Dict, lookup, keys, NodupKeys, mem-keys}
use kynema_fmb.Model.Mesh.{
  MeshConnectivity, Kind, beam_kind, mass_kind, spring_kind, constraint_kind, map_of,
}
use kynema_fmb.Model.Mesh.Order.{sort, mem-sort, sort-keys-Ascending}
use kynema_fmb.Model.Mesh.Written.{HasNodes, NoEntry, Written, write_ids}
use kynema_fmb.Model.Mesh.Yaml.{
  Yaml, IsYaml, section_name, is_empty, export_element_type, import_section,
}

module _ {Y : Type 0} (y : Yaml Y) (laws : IsYaml y) where
  -- A section of a document is read as the map that it was written from.
  unfoldable pub Reads : Kind → MeshConnectivity → Y → Type 0
  Reads kind m root =
      (result : Dict (List ℕ)) × (import_section y (section_name kind) root [] ≡ (none, result))
      × ((id : ℕ) → lookup id result ≡ lookup id (map_of kind m))

  section_names_apart : (a b : Kind) → a ≢ b → section_name a ≢ section_name b
  unfolding section_name
  section_names_apart beam_kind beam_kind h = absurd (h refl)
  section_names_apart beam_kind mass_kind h = cc
  section_names_apart beam_kind spring_kind h = cc
  section_names_apart beam_kind constraint_kind h = cc
  section_names_apart mass_kind beam_kind h = cc
  section_names_apart mass_kind mass_kind h = absurd (h refl)
  section_names_apart mass_kind spring_kind h = cc
  section_names_apart mass_kind constraint_kind h = cc
  section_names_apart spring_kind beam_kind h = cc
  section_names_apart spring_kind mass_kind h = cc
  section_names_apart spring_kind spring_kind h = absurd (h refl)
  section_names_apart spring_kind constraint_kind h = cc
  section_names_apart constraint_kind beam_kind h = cc
  section_names_apart constraint_kind mass_kind h = cc
  section_names_apart constraint_kind spring_kind h = cc
  section_names_apart constraint_kind constraint_kind h = absurd (h refl)

  -- One section written: it reads back, and the others are as they were.
  pub record Exported (kind : Kind) (m : MeshConnectivity) (root : Y) : Type 0 where
    pub result : Y
    pub exported : export_element_type y kind m root ≡ some result
    pub reads : Reads kind m result
    pub scalar : y.is_scalar root ≡ false → y.is_scalar result ≡ false
    pub others :
        (other : Kind)
        → kind ≢ other
        → y.get result (section_name other) ≡ y.get root (section_name other)

  empty_map : (d : Dict (List ℕ)) → is_empty d ≡ true → d ≡ []
  unfolding is_empty
  empty_map [] e = refl
  empty_map (entry ∷ d) e = absurd (cc)

  export_empty :
      (kind : Kind) (m : MeshConnectivity) (root : Y)
      → is_empty (map_of kind m) ≡ true
      → y.get root (section_name kind) ≡ none
      → Exported kind m root
  unfolding export_element_type Reads import_section
  export_empty kind m root empty absent = record {
    result = root;
    exported = rw (export_element_type, empty) refl;
    reads = (
      [],
      rw (import_section, absent) refl,
      λ id. ap (lookup id) (sym (empty_map (map_of kind m) empty)),
    );
    scalar = λ h. h;
    others = λ other apart. refl;
  }

  export_full :
      (kind : Kind) (m : MeshConnectivity) (root : Y)
      → is_empty (map_of kind m) ≡ false
      → Written y laws (map_of kind m) (sort (keys (map_of kind m))) y.new_node
      → Exported kind m root
  unfolding export_element_type Reads import_section section_name lookup
  export_full kind m root full w =
      let name = section_name kind in
      let d = map_of kind m in
      let back = w.read_back [] in
      record {
        result = y.set root name w.result;
        exported = rw (export_element_type, full, w.written) refl;
        reads = (
          back.result,
          rw (import_section, laws.get_set root w.result name, w.entries, laws.entries_new)
              back.read,
          λ id. elim (Option-cases (lookup id d)) [
            | inl e ↦
                back.outside id (λ m. (mem-keys id d).0 ((mem-sort id (keys d)).0 m) e) ∙ sym e
            | inr (ids, e) ↦ back.inside id ((mem-sort id (keys d)).1 ((mem-keys id d).1 (λ n. cc)))
          ],
        );
        scalar = laws.scalar_set root w.result name;
        others = λ other apart.
            laws.get_set_other root w.result name (section_name other)
              (section_names_apart kind other apart);
      }

  pub export_kind :
      (kind : Kind) (m : MeshConnectivity) (root : Y)
      → NodupKeys (map_of kind m)
      → HasNodes (map_of kind m)
      → y.get root (section_name kind) ≡ none
      → Exported kind m root
  export_kind kind m root unique full absent =
      let d = map_of kind m in
      elim (Bool-cases (is_empty d)) [
        | inl e ↦ export_empty kind m root e absent
        | inr e ↦ export_full kind m root e (
            write_ids y laws d (sort (keys d)) y.new_node full (sort-keys-Ascending d unique)
              (All-mem (λ id. lookup id d ≢ none) (sort (keys d))
                (λ id m. (mem-keys id d).0 ((mem-sort id (keys d)).0 m)))
              (All-mem (NoEntry y laws y.new_node) (sort (keys d)) (λ id m.
                subst
                  (All (λ (entry : Option String × Y).
                    (entry.0 ≢ none) × (entry.0 ≢ some (y.to_string id))))
                  (sym laws.entries_new) tt)))
      ]
