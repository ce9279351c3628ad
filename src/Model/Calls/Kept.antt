-- ===== src/Model/Calls/Kept.antt =====
-- src/model/model.hpp: a call that adds leaves all that was there as it was.
use kynema_fmb.Base.{
  ℕ, ◌≤◌, ◌<◌, ◌≡◌, ◌≢◌, refl, ◌∙◌, ap, arith, List, [], ◌∷◌, Option, none, some, Vector, write_ne,
  push_back, segment, sym,
}
use kynema_fmb.ConstraintType.{ConstraintType}
use kynema_fmb.Model.Maps.{Dict, lookup, insert, lookup-insert_other}
use kynema_fmb.Model.Mesh.{
  map_of, add_beam_element_connectivity, add_mass_element_connectivity,
  add_spring_element_connectivity, add_constraint_connectivity,
}
use kynema_fmb.Model.Nodes.{Geometry}
use kynema_fmb.Model.Building.{
  Model, add_node, add_beam_element, add_mass_element, add_spring_element, add_constraint,
  add_fixed_bc, add_prescribed_bc, add_rigid_joint_constraint, add_revolute_joint_constraint,
  add_rotation_control, add_fixed_bc_3dofs, add_prescribed_bc_3dofs, add_rigid_joint_6dofs_to_3dofs,
}
use kynema_fmb.Model.Calls.{
  Call, node, beam_element, mass_element, spring_element, fixed, prescribed, fixed_3dofs,
  prescribed_3dofs, rigid, rigid_6dofs_to_3dofs, revolute, rotation, perform, Reachable,
}
use kynema_fmb.Model.Calls.Consistent.{IsConsistent}
use kynema_fmb.Model.Mesh.{
  Kind, beam_kind, mass_kind, spring_kind, constraint_kind, get_connectivity,
}
use kynema_fmb.Model.Calls.Invariant.{reachable-IsConsistent}

-- The first elements of the longer vector are those of the shorter one.
pub record Grows {A : Type 0} (v w : Vector A) : Type 0 where
  pub size : v.size ≤ w.size
  pub same : (i : ℕ) → i < v.size → w.at i ≡ v.at i

-- Each vector of `n` starts with that of `m`, and what `m` has in its mesh connectivity, `n` has.
pub record Extends {D P : Type 0} (m n : Model D P) : Type 0 where
  pub nodes : Grows m.nodes n.nodes
  pub beams : Grows m.beam_elements n.beam_elements
  pub masses : Grows m.mass_elements n.mass_elements
  pub springs : Grows m.spring_elements n.spring_elements
  pub constraints : Grows m.constraints n.constraints
  pub connectivity :
      (kind : Kind) (id : ℕ) (nodes : List ℕ)
      → get_connectivity kind m.mesh_connectivity id ≡ some nodes
      → get_connectivity kind n.mesh_connectivity id ≡ some nodes

Grows-refl : {A : Type 0} (v : Vector A) → Grows v v
Grows-refl v = record { size = omega arith; same = λ i lt. refl }

push_back-Grows : {A : Type 0} (v : Vector A) (a : A) → Grows v (push_back v a)
unfolding push_back
push_back-Grows v a = record {
  size = omega arith;
  same = λ i lt. write_ne v.at v.size i a (omega arith);
}

-- An insertion at a key that was free keeps what was found.
insert_keeps :
    (k id : ℕ) (new nodes : List ℕ) (d : Dict (List ℕ))
    → lookup k d ≡ none
    → lookup id d ≡ some nodes
    → lookup id (insert k new d) ≡ some nodes
insert_keeps k id new nodes d free found =
    lookup-insert_other id k new d (λ same. clash (sym found ∙ ap (λ j. lookup j d) same ∙ free))
    ∙ found
  where
    clash : some nodes ≢ none
    clash h = cc

module _ {D P : Type 0} (g : Geometry D) where
  add_constraint-Extends :
      (type : ConstraintType) (base target : ℕ) (control : Option ℕ) (connected : List ℕ)
      (m : Model D P)
      → IsConsistent m
      → Extends m (add_constraint type base target control connected m).0
  unfolding add_constraint add_constraint_connectivity get_connectivity map_of
  add_constraint-Extends type base target control connected m h = record {
    nodes = Grows-refl m.nodes;
    beams = Grows-refl m.beam_elements;
    masses = Grows-refl m.mass_elements;
    springs = Grows-refl m.spring_elements;
    constraints = push_back-Grows m.constraints _;
    connectivity = λ kind id nodes.
        elim kind
          as (λ k.
            get_connectivity k m.mesh_connectivity id ≡ some nodes
            → get_connectivity k
                (add_constraint_connectivity m.constraints.size connected m.mesh_connectivity) id
              ≡ some nodes) [
                | beam_kind ↦ λ e. e
                | mass_kind ↦ λ e. e
                | spring_kind ↦ λ e. e
                | constraint_kind ↦
                    insert_keeps m.constraints.size id connected nodes
                      m.mesh_connectivity.constraints
                      (h.constraints.beyond m.constraints.size (omega arith))
              ];
  }

  call-Extends : (call : Call D P) (m : Model D P) → IsConsistent m → Extends m (perform g call m).0
  unfolding perform add_node add_beam_element add_mass_element add_spring_element
      add_beam_element_connectivity add_mass_element_connectivity add_spring_element_connectivity
      add_fixed_bc add_prescribed_bc add_rigid_joint_constraint add_revolute_joint_constraint
      add_rotation_control add_fixed_bc_3dofs add_prescribed_bc_3dofs add_rigid_joint_6dofs_to_3dofs
      get_connectivity map_of
  call-Extends (node settings) m h = record {
    nodes = push_back-Grows m.nodes _;
    beams = Grows-refl m.beam_elements;
    masses = Grows-refl m.mass_elements;
    springs = Grows-refl m.spring_elements;
    constraints = Grows-refl m.constraints;
    connectivity = λ kind id nodes e. e;
  }
  call-Extends (beam_element node_ids physical) m h = record {
    nodes = Grows-refl m.nodes;
    beams = push_back-Grows m.beam_elements _;
    masses = Grows-refl m.mass_elements;
    springs = Grows-refl m.spring_elements;
    constraints = Grows-refl m.constraints;
    connectivity = λ kind id nodes.
        elim kind
          as (λ k.
            get_connectivity k m.mesh_connectivity id ≡ some nodes
            → get_connectivity k
                (add_beam_element_connectivity m.beam_elements.size node_ids m.mesh_connectivity) id
              ≡ some nodes) [
                | beam_kind ↦
                    insert_keeps m.beam_elements.size id (segment node_ids.at 0 node_ids.size) nodes
                      m.mesh_connectivity.beams (h.beams.beyond m.beam_elements.size (omega arith))
                | mass_kind ↦ λ e. e
                | spring_kind ↦ λ e. e
                | constraint_kind ↦ λ e. e
              ];
  }
  call-Extends (mass_element node_id mass) m h = record {
    nodes = Grows-refl m.nodes;
    beams = Grows-refl m.beam_elements;
    masses = push_back-Grows m.mass_elements _;
    springs = Grows-refl m.spring_elements;
    constraints = Grows-refl m.constraints;
    connectivity = λ kind id nodes.
        elim kind
          as (λ k.
            get_connectivity k m.mesh_connectivity id ≡ some nodes
            → get_connectivity k
                (add_mass_element_connectivity m.mass_elements.size node_id m.mesh_connectivity) id
              ≡ some nodes) [
                | beam_kind ↦ λ e. e
                | mass_kind ↦
                    insert_keeps m.mass_elements.size id (node_id ∷ []) nodes
                      m.mesh_connectivity.masses
                      (h.masses.beyond m.mass_elements.size (omega arith))
                | spring_kind ↦ λ e. e
                | constraint_kind ↦ λ e. e
              ];
  }
  call-Extends (spring_element node1_id node2_id stiffness undeformed_length) m h = record {
    nodes = Grows-refl m.nodes;
    beams = Grows-refl m.beam_elements;
    masses = Grows-refl m.mass_elements;
    springs = push_back-Grows m.spring_elements _;
    constraints = Grows-refl m.constraints;
    connectivity = λ kind id nodes.
        elim kind
          as (λ k.
            get_connectivity k m.mesh_connectivity id ≡ some nodes
            → get_connectivity k
                (add_spring_element_connectivity m.spring_elements.size (node1_id, node2_id)
                  m.mesh_connectivity)
                id
              ≡ some nodes) [
                | beam_kind ↦ λ e. e
                | mass_kind ↦ λ e. e
                | spring_kind ↦
                    insert_keeps m.spring_elements.size id (node1_id ∷ node2_id ∷ []) nodes
                      m.mesh_connectivity.springs
                      (h.springs.beyond m.spring_elements.size (omega arith))
                | constraint_kind ↦ λ e. e
              ];
  }
  call-Extends (fixed n) m h = add_constraint-Extends _ _ _ _ _ m h
  call-Extends (prescribed n) m h = add_constraint-Extends _ _ _ _ _ m h
  call-Extends (fixed_3dofs n) m h = add_constraint-Extends _ _ _ _ _ m h
  call-Extends (prescribed_3dofs n) m h = add_constraint-Extends _ _ _ _ _ m h
  call-Extends (rigid ns) m h = add_constraint-Extends _ _ _ _ _ m h
  call-Extends (rigid_6dofs_to_3dofs ns) m h = add_constraint-Extends _ _ _ _ _ m h
  call-Extends (revolute ns control) m h = add_constraint-Extends _ _ _ _ _ m h
  call-Extends (rotation ns control) m h = add_constraint-Extends _ _ _ _ _ m h

  -- In a model that calls have built, a further call that adds leaves every node, element and
  -- constraint where it was and as it was, and the mesh connectivity of what was there.
  pub perform-Extends :
      (call : Call D P) (m : Model D P) → Reachable g m → Extends m (perform g call m).0
  perform-Extends call m reached = call-Extends call m (reachable-IsConsistent g m reached)
