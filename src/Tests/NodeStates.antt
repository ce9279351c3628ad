-- ===== src/Tests/NodeStates.antt =====
-- A writer of two nodes that gets a position, a velocity and another position.
use kynema_fmb.Base.{ℕ, List, [], ◌∷◌}
use kynema_fmb.Output.NodeStates.{StateTimestepData}

-- The position or velocity of two nodes, the same along each axis.
abbrev position : ℕ → List ℕ → StateTimestepData ℕ
position t values = record {
  timestep = t;
  component_prefix = "x";
  x = values;
  y = values;
  z = values;
  i = values;
  j = values;
  k = values;
  w = values;
}

abbrev velocity : ℕ → List ℕ → StateTimestepData ℕ
velocity t values = record (position t values) { component_prefix = "v"; w = [] }

abbrev records : List (StateTimestepData ℕ)
records = position 0 (1 ∷ (2 ∷ [])) ∷ (velocity 0 (5 ∷ (6 ∷ [])) ∷ (position 1 (3 ∷ (4 ∷ [])) ∷ []))
