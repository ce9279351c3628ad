-- ===== src/Model/Calls/Consistent.antt =====
-- src/model/model.hpp: a vector of a model and the map of the nodes of its elements.
use kynema_fmb.Base.{
  ℕ, ◌≤◌, ◌<◌, ◌≡◌, refl, ◌∙◌, ap, arith, List, [], ◌∷◌, none, some, Vector, write, write_self,
  write_ne, push_back, segment, ◌==◌, if◌then◌else◌, Bool-cases, inl, inr, ==_iff, subst, sym,
}
use kynema_fmb.ConstraintType.{get_number_of_nodes}
use kynema_fmb.Constraints.{Constraint}
use kynema_fmb.Model.Maps.{
  Dict, lookup, insert, NodupKeys, lookup-insert_self, lookup-insert_other, insert-NodupKeys,
}
use kynema_fmb.Model.Building.{BeamElement, MassElement, SpringElement, Model}

-- The elements of a vector are numbered by their places, and a map has exactly their nodes.
pub record IsTracked {A : Type 0} (id : A → ℕ) (nodes : A → List ℕ) (v : Vector A)
    (d : Dict (List ℕ)) : Type 0 where
  pub numbered : (i : ℕ) → i < v.size → id (v.at i) ≡ i
  pub found : (i : ℕ) → i < v.size → lookup i d ≡ some (nodes (v.at i))
  pub beyond : (i : ℕ) → v.size ≤ i → lookup i d ≡ none
  pub unique : NodupKeys d

module _ {A : Type 0} (id : A → ℕ) (nodes : A → List ℕ) where
  pub empty-IsTracked : (v : Vector A) → v.size ≡ 0 → IsTracked id nodes v []
  unfolding lookup
  empty-IsTracked v e = record {
    numbered = λ i lt. absurd (omega arith);
    found = λ i lt. absurd (omega arith);
    beyond = λ i le. refl;
    unique = tt;
  }

  pub push_back-IsTracked :
      (v : Vector A) (d : Dict (List ℕ)) (a : A)
      → id a ≡ v.size
      → IsTracked id nodes v d
      → IsTracked id nodes (push_back v a) (insert v.size (nodes a) d)
  unfolding push_back
  push_back-IsTracked v d a number h = record {
    numbered = λ i lt. elim (Bool-cases (v.size == i)) [
      | inl e ↦
          let here = (==_iff v.size i).0 e in
          subst (λ k. id (write v.at v.size a k) ≡ k) here
            (ap id (write_self v.at v.size a) ∙ number)
      | inr e ↦ ap id (write_ne v.at v.size i a (ground arith)) ∙ h.numbered i (ground arith)
    ];
    found = λ i lt. elim (Bool-cases (v.size == i)) [
      | inl e ↦
          let here = (==_iff v.size i).0 e in
          subst (λ k. lookup k (insert v.size (nodes a) d) ≡ some (nodes (write v.at v.size a k)))
            here
            (lookup-insert_self v.size (nodes a) d
              ∙ ap (λ x. some (nodes x)) (sym (write_self v.at v.size a)))
      | inr e ↦
          lookup-insert_other i v.size (nodes a) d (ground arith)
          ∙ h.found i (ground arith)
          ∙ ap (λ x. some (nodes x)) (sym (write_ne v.at v.size i a (ground arith)))
    ];
    beyond =
        λ i le. lookup-insert_other i v.size (nodes a) d (omega arith) ∙ h.beyond i (omega arith);
    unique = insert-NodupKeys v.size (nodes a) d h.unique;
  }

unfoldable pub beam_nodes_of : {P : Type 0} → BeamElement P → List ℕ
beam_nodes_of e = segment e.node_ids.at 0 e.node_ids.size

-- A constraint with one node is on its target node.
unfoldable pub constraint_nodes_of : Constraint → List ℕ
constraint_nodes_of c =
    if get_number_of_nodes c.type == 2
    then c.base_node_id ∷ c.target_node_id ∷ []
    else c.target_node_id ∷ []

pub record IsConsistent {D P : Type 0} (m : Model D P) : Type 0 where
  pub node_ids : (i : ℕ) → i < m.nodes.size → (m.nodes.at i).id ≡ i
  pub beams :
      IsTracked
        (λ (e : BeamElement P). e.id)
        beam_nodes_of
        m.beam_elements
        m.mesh_connectivity.beams
  pub masses :
      IsTracked
        (λ (e : MassElement D). e.id)
        (λ (e : MassElement D). e.node_id ∷ [])
        m.mass_elements
        m.mesh_connectivity.masses
  pub springs :
      IsTracked
        (λ (e : SpringElement D). e.id)
        (λ (e : SpringElement D). e.node_ids.0 ∷ e.node_ids.1 ∷ [])
        m.spring_elements
        m.mesh_connectivity.springs
  pub constraints :
      IsTracked
        (λ (c : Constraint). c.id)
        constraint_nodes_of
        m.constraints
        m.mesh_connectivity.constraints
