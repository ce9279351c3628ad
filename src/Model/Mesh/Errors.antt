-- ===== src/Model/Mesh/Errors.antt =====
-- src/model/mesh_connectivity.hpp: when ImportFromYAML throws.
use Prim.Native.String.{String}
use kynema_fmb.Base.{
  ℕ, ◌≡◌, ◌≢◌, ◌↔◌, refl, sym, ◌∙◌, subst, List, [], ◌∷◌, none, some, All, Option, Option-cases,
  Bool-cases, inl, inr, false,
}
use kynema_fmb.Model.Maps.{Dict, insert}
use kynema_fmb.Model.Mesh.{
  MeshConnectivity, Kind, beam_kind, mass_kind, spring_kind, constraint_kind, map_of,
  no_connectivity,
}
use kynema_fmb.Model.Mesh.Yaml.{
  Yaml, section_name, set_map, ImportError, import_entries, import_section, import_sections,
  import_from_yaml,
}

module _ {Y : Type 0} (y : Yaml Y) where
  -- The key is a text that `std::stoul` accepts and the value a sequence of numbers.
  abbrev pub IsReadableEntry : Option String × Y → Type 0
  IsReadableEntry (none, value) = ⊥
  IsReadableEntry (some key, value) = (y.stoul key ≢ none) × (y.as_ids value ≢ none)

  -- The section of a kind is missing, or all its entries are readable.
  abbrev pub IsReadable : Y → Kind → Type 0
  unfolding section_name
  IsReadable root kind =
      (node : Y) → y.get root (section_name kind) ≡ some node → All IsReadableEntry (y.entries node)

  import_entries-thrown :
      (entries : List (Option String × Y)) (d : Dict (List ℕ))
      → ((import_entries y entries d).0 ≡ none) ↔ All IsReadableEntry entries
  unfolding import_entries
  import_entries-thrown [] d = (λ h. tt, λ h. refl)
  import_entries-thrown ((none, value) ∷ rest) d = (λ h. absurd (cc), λ h. absurd h.0)
  import_entries-thrown ((some key, value) ∷ rest) d = elim (Option-cases (y.stoul key)) [
    | inl bad ↦ rw (import_entries, bad) (λ h. cc, λ h. absurd (h.0.0 refl))
    | inr (id, good) ↦ elim (Option-cases (y.as_ids value)) [
      | inl bad ↦ rw (import_entries, good, bad) (λ h. cc, λ h. absurd (h.0.1 refl))
      | inr (ids, read) ↦
          let next = import_entries-thrown rest (insert id ids d) in
          rw (import_entries, good, read) (λ h. (((λ e. cc), (λ e. cc)), next.0 h), λ h. next.1 h.1)
    ]
  ]

  import_section-thrown :
      (kind : Kind) (root : Y) (d : Dict (List ℕ))
      → ((import_section y (section_name kind) root d).0 ≡ none) ↔ IsReadable root kind
  unfolding import_section section_name
  import_section-thrown kind root d = elim (Option-cases (y.get root (section_name kind))) [
    | inl e ↦ rw (import_section, e) (λ h node found. absurd (cc), λ h. refl)
    | inr (node, e) ↦
        let entries = import_entries-thrown (y.entries node) d in
        rw (import_section, e)
          (
            λ h other found. subst (λ n. All IsReadableEntry (y.entries n)) (cc) (entries.0 h),
            λ h. entries.1 (h node refl),
          )
  ]

  import_sections-thrown :
      (kinds : List Kind) (root : Y) (m : MeshConnectivity)
      → ((import_sections y kinds root m).0 ≡ none) ↔ All (IsReadable root) kinds
  unfolding import_sections
  import_sections-thrown [] root m = (λ h. tt, λ h. refl)
  import_sections-thrown (kind ∷ kinds) root m =
      let read = import_section y (section_name kind) root (map_of kind m) in
      let here = import_section-thrown kind root (map_of kind m) in
      elim (Option-cases read.0) [
        | inl e ↦
            let later = import_sections-thrown kinds root (set_map kind read.1 m) in
            rw (import_sections, e) (λ h. (here.0 e, later.0 h), λ h. later.1 h.1)
        | inr (thrown, e) ↦
            rw (import_sections, e)
              (λ h. absurd (cc), λ h. absurd (some_none thrown (sym e ∙ here.1 h.0)))
      ]
    where
      some_none : (thrown : ImportError) → some thrown ≢ none
      some_none thrown h = cc

  -- The import throws nothing exactly if the document is no scalar and each of the four sections
  -- is missing or has only entries whose key is a text that `std::stoul` accepts and whose value
  -- is read as a list of numbers.
  pub import_from_yaml-thrown :
      (root : Y) (before : MeshConnectivity)
      → ((import_from_yaml y root before).0 ≡ none)
        ↔ ((y.is_scalar root ≡ false) × ((kind : Kind) → IsReadable root kind))
  unfolding import_from_yaml
  import_from_yaml-thrown root before =
      let whole =
        import_sections-thrown (mass_kind ∷ spring_kind ∷ beam_kind ∷ constraint_kind ∷ []) root
          no_connectivity in
      elim (Bool-cases (y.is_scalar root)) [
        | inl e ↦ rw e (λ h. absurd (cc), λ h. absurd (cc))
        | inr e ↦ rw e (
          λ h. (refl, λ kind. each (whole.0 h) kind),
          λ h.
              whole.1
                (h.1 mass_kind, (h.1 spring_kind, (h.1 beam_kind, (h.1 constraint_kind, tt)))),
        )
      ]
    where
      each :
          All (IsReadable root) (mass_kind ∷ spring_kind ∷ beam_kind ∷ constraint_kind ∷ [])
          → (kind : Kind) → IsReadable root kind
      each h mass_kind = h.0
      each h spring_kind = h.1.0
      each h beam_kind = h.1.1.0
      each h constraint_kind = h.1.1.1.0
