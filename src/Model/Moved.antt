-- ===== src/Model/Moved.antt =====
-- src/model/model.hpp: what the functions that move a beam do to the nodes.
use kynema_fmb.Base.{
  ℕ, ◌<◌, ◌≡◌, ◌≢◌, refl, ◌∙◌, View, write, write_self, write_ne, parallel_for_once,
  parallel_for_keep,
}
use kynema_fmb.Model.Nodes.{Geometry, Node, Motion, move}
use kynema_fmb.Model.Building.{Model, move_beam}

module _ {D P : Type 0} (g : Geometry D) (motion : Motion D) (m : Model D P) (beam : ℕ) where
  -- For a beam without a node twice: each of its nodes is moved once, and all else of the model,
  -- the other nodes included, is as it was.
  pub move_beam-once :
      (i other : ℕ)
      → ((j k : ℕ)
          → j < (m.beam_elements.at beam).node_ids.size
          → k < (m.beam_elements.at beam).node_ids.size
          → j ≢ k
          → (m.beam_elements.at beam).node_ids.at j ≢ (m.beam_elements.at beam).node_ids.at k)
      → i < (m.beam_elements.at beam).node_ids.size
      → ((j : ℕ)
          → j < (m.beam_elements.at beam).node_ids.size
          → (m.beam_elements.at beam).node_ids.at j ≢ other)
      → let ids = (m.beam_elements.at beam).node_ids in
        let after = move_beam g motion beam m in
        (after.nodes.at (ids.at i) ≡ move g motion (m.nodes.at (ids.at i)))
        × (after.nodes.at other ≡ m.nodes.at other)
        × (record after { nodes = record after.nodes { at = m.nodes.at } } ≡ m)
  unfolding move_beam
  move_beam-once i other distinct lt outside =
      let ids = (m.beam_elements.at beam).node_ids in
      let body = λ (k : ℕ) (nodes : View (Node D)).
        write nodes (ids.at k) (move g motion (nodes (ids.at k))) in
      (
        parallel_for_once (λ (nodes : View (Node D)). nodes (ids.at i)) (move g motion) ids.size i
            body m.nodes.at lt (λ t. write_self t (ids.at i) (move g motion (t (ids.at i))))
            (λ k t below apart.
              write_ne t (ids.at k) (ids.at i) (move g motion (t (ids.at k)))
                (distinct k i below lt apart)),
        parallel_for_keep (λ (nodes : View (Node D)). nodes other ≡ m.nodes.at other) ids.size body
            m.nodes.at
            (λ k t below h.
              write_ne t (ids.at k) other (move g motion (t (ids.at k))) (outside k below) ∙ h)
            refl,
        refl,
      )
