-- ===== src/Model/Nodes.antt =====
-- src/model/node.hpp: nodes, how a builder sets them and how they are moved. An array of `double` is a
-- view of which the first entries count; the arithmetic of `double` and what the code calls of Eigen
-- are parameters.
use kynema_fmb.Base.{ℕ, ◌+◌, ◌-◌, ltb, ◌==◌, if◌then◌else◌, List, [], ◌∷◌, View}

pub record Geometry (D : Type 0) : Type 0 where
  pub zero_value : D
  pub one : D
  pub add : D → D → D
  pub sub : D → D → D
  pub mul : D → D → D
  -- `Eigen::Quaternion::_transformVector`
  pub transform_vector : View D → View D → View D
  -- the product of two quaternions
  pub multiply : View D → View D → View D
  -- `Eigen::Matrix::cross`
  pub cross : View D → View D → View D

pub record Node (D : Type 0) : Type 0 where
  pub id : ℕ
  pub x0 : View D
  pub u : View D
  pub v : View D
  pub vd : View D
  pub s : D

-- The setters of `NodeBuilder`.
pub data Setting (D : Type 0) : Type 0 where
  set_position set_displacement set_velocity set_acceleration : View D → Setting D
  set_elem_location : D → Setting D

unfoldable pub configure : {D : Type 0} → Setting D → Node D → Node D
configure (set_position p) n = record n { x0 = p }
configure (set_displacement p) n = record n { u = p }
configure (set_velocity p) n = record n { v = p }
configure (set_acceleration p) n = record n { vd = p }
configure (set_elem_location location) n = record n { s = location }

unfoldable pub configure_all : {D : Type 0} → List (Setting D) → Node D → Node D
configure_all [] n = n
configure_all (setting ∷ settings) n = configure_all settings (configure setting n)

-- The motions that a model makes of the nodes of a beam.
pub data Motion (D : Type 0) : Type 0 where
  translate : (displacement : View D) → Motion D
  rotate_about_point : (q point : View D) → Motion D
  set_velocity_about_point : (velocity point : View D) → Motion D
  set_acceleration_about_point : (acceleration omega_vec point : View D) → Motion D

-- The four entries of an array from the fourth on.
unfoldable pub orientation : {D : Type 0} → View D → View D
orientation a i = a (i + 3)

module _ {D : Type 0} (g : Geometry D) where
  -- `{0., 0., 0., 1., 0., 0., 0.}`
  unfoldable pub no_displacement : View D
  no_displacement i = if i == 3 then g.one else g.zero_value

  unfoldable pub new_node : ℕ → Node D
  new_node node_id = record {
    id = node_id;
    x0 = no_displacement;
    u = no_displacement;
    v = λ i. g.zero_value;
    vd = λ i. g.zero_value;
    s = g.zero_value;
  }

  unfoldable pub displaced_position : Node D → View D
  displaced_position n i =
      if ltb i 3
      then g.add (n.x0 i) (n.u i)
      else g.multiply (orientation n.x0) (orientation n.u) (i - 3)

  unfoldable pub rotated_position : View D → View D → Node D → View D
  rotated_position q point n i =
      let rotated_r = g.transform_vector q (λ k. g.sub (n.x0 k) (point k)) in
      if ltb i 3 then g.add (rotated_r i) (point i) else g.multiply q (orientation n.x0) (i - 3)

  unfoldable pub velocity_about_point : View D → View D → Node D → View D
  velocity_about_point velocity point n i =
      let r = λ (k : ℕ). g.sub (displaced_position n k) (point k) in
      let omega_cross_r = g.cross (orientation velocity) r in
      if ltb i 3 then g.add (velocity i) (omega_cross_r i) else velocity i

  unfoldable pub acceleration_about_point : View D → View D → View D → Node D → View D
  acceleration_about_point acceleration omega_vec point n i =
      let r = λ (k : ℕ). g.sub (displaced_position n k) (point k) in
      let alpha_cross_r = g.cross (orientation acceleration) r in
      let omega_cross_omega_cross_r = g.cross omega_vec (g.cross omega_vec r) in
      if ltb i 3
      then g.add (acceleration i) (g.add (alpha_cross_r i) (omega_cross_omega_cross_r i))
      else acceleration i

  unfoldable pub move : Motion D → Node D → Node D
  move (translate displacement) n = record n {
    x0 = λ i. if ltb i 3 then g.add (n.x0 i) (displacement i) else n.x0 i;
  }
  move (rotate_about_point q point) n = record n { x0 = rotated_position q point n }
  move (set_velocity_about_point velocity point) n = record n {
    v = velocity_about_point velocity point n;
  }
  move (set_acceleration_about_point acceleration omega_vec point) n = record n {
    vd = acceleration_about_point acceleration omega_vec point n;
  }
