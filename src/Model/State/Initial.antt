-- ===== src/Model/State/Initial.antt =====
-- src/model/copy_nodes_to_state.hpp and src/state/update_global_position.hpp: the state of every node
-- is that of the node of the model.
use kynema_fmb.Base.{
  ℕ, zero, suc, ◌+◌, ◌-◌, ◌<◌, ◌≡◌, ◌≢◌, refl, ◌∙◌, arith, View, View2, Vector, ltb, ==_refl, ==_ne,
  Bool-cases, inl, inr, if◌then◌else◌, write, write2, parallel_for, parallel_for_reach,
}
use kynema_fmb.State.{State}
use kynema_fmb.State.Snapshot.{new_state}
use kynema_fmb.Model.Nodes.{Geometry, Node, orientation}
use kynema_fmb.Model.State.{
  quaternion_compose, update_global_position, copy_node, copy_nodes_to_state, create_state,
}
use kynema_fmb.Model.State.Rows.{copy_node-IsCopied, copied-num_system_nodes}

-- The position and the orientation that the kernel gives a node.
unfoldable pub global_position : {D : Type 0} → Geometry D → View D → View D → View D
global_position g q x0 component =
    if ltb component 3
    then g.add (x0 component) (q component)
    else quaternion_compose g (orientation q) (orientation x0) (component - 3)

module _ {D : Type 0} (g : Geometry D) (q x0 : View2 D) where
  update_global_position_self :
      (x : View2 D) (i c : ℕ)
      → c < 7
      → update_global_position g q x0 i x i c ≡ global_position g (q i) (x0 i) c
  unfolding update_global_position global_position write2 write
  update_global_position_self x i zero lt = rw (==_refl i) refl
  update_global_position_self x i (suc zero) lt = rw (==_refl i) refl
  update_global_position_self x i (suc (suc zero)) lt = rw (==_refl i) refl
  update_global_position_self x i (suc (suc (suc zero))) lt = rw (==_refl i) refl
  update_global_position_self x i (suc (suc (suc (suc zero)))) lt = rw (==_refl i) refl
  update_global_position_self x i (suc (suc (suc (suc (suc zero))))) lt = rw (==_refl i) refl
  update_global_position_self x i (suc (suc (suc (suc (suc (suc zero)))))) lt = rw (==_refl i) refl
  update_global_position_self x i (suc (suc (suc (suc (suc (suc (suc c))))))) lt =
      absurd (omega arith)

  update_global_position_other :
      (x : View2 D) (i k c : ℕ) → k ≢ i → update_global_position g q x0 k x i c ≡ x i c
  unfolding update_global_position write2 write
  update_global_position_other x i k c apart = rw (==_ne k i apart) refl

  all_positions :
      (x : View2 D) (n i c : ℕ)
      → i < n
      → c < 7
      → parallel_for n (update_global_position g q x0) x i c ≡ global_position g (q i) (x0 i) c
  all_positions x n i c lt in_7 =
      parallel_for_reach (λ (x : View2 D). x i c ≡ global_position g (q i) (x0 i) c) n i
        (update_global_position g q x0) x lt (λ t. update_global_position_self t i c in_7)
        (λ k t below apart h. update_global_position_other t i k c apart ∙ h)

quaternion_compose_congr :
    {D : Type 0} (g : Geometry D) (a a' b b' : View D) (i : ℕ)
    → ((k : ℕ) → k < 4 → a k ≡ a' k)
    → ((k : ℕ) → k < 4 → b k ≡ b' k)
    → quaternion_compose g a b i ≡ quaternion_compose g a' b' i
unfolding quaternion_compose
quaternion_compose_congr g a a' b b' i same_a same_b =
    rw
      (
        same_a 0 (omega arith),
        same_a 1 (omega arith),
        same_a 2 (omega arith),
        same_a 3 (omega arith),
        same_b 0 (omega arith),
        same_b 1 (omega arith),
        same_b 2 (omega arith),
        same_b 3 (omega arith),
      )
      refl

global_position_congr :
    {D : Type 0} (g : Geometry D) (q q' x0 x0' : View D) (c : ℕ)
    → c < 7
    → ((k : ℕ) → k < 7 → q k ≡ q' k)
    → ((k : ℕ) → k < 7 → x0 k ≡ x0' k)
    → global_position g q x0 c ≡ global_position g q' x0' c
unfolding global_position orientation
global_position_congr g q q' x0 x0' c lt same_q same_x0 = elim (Bool-cases (ltb c 3)) [
  | inl e ↦ rw (e, same_q c lt, same_x0 c lt) refl
  | inr e ↦ rw e (
      quaternion_compose_congr g (orientation q) (orientation q') (orientation x0) (orientation x0')
        (c - 3) (λ k below. same_q (k + 3) (omega arith))
        (λ k below. same_x0 (k + 3) (omega arith)))
]

pub create_state-num_system_nodes :
    {D : Type 0} (g : Geometry D) (fresh : State D) (nodes : Vector (Node D))
    → (create_state g fresh nodes).num_system_nodes ≡ nodes.size
unfolding create_state copy_nodes_to_state new_state
create_state-num_system_nodes g fresh nodes =
    copied-num_system_nodes nodes (new_state g.one fresh nodes.size)

-- The state that is created from the nodes of a model, whatever its views held, has a row for each
-- node: its number, initial position, displacement (also as the previous one), velocity and
-- acceleration (also as the algorithmic one), no force, and the position that the displacement
-- gives, where the rotation of the displacement is composed with the initial orientation.
pub created_state :
    {D : Type 0} (g : Geometry D) (fresh : State D) (nodes : Vector (Node D)) (i c d : ℕ)
    → i < nodes.size
    → c < 7
    → d < 6
    → let node = nodes.at i in
      let s = create_state g fresh nodes in
      (s.num_system_nodes ≡ nodes.size)
      × (s.id i ≡ node.id)
      × (s.x0 i c ≡ node.x0 c)
      × (s.q i c ≡ node.u c)
      × (s.q_prev i c ≡ node.u c)
      × (s.v i d ≡ node.v d)
      × (s.vd i d ≡ node.vd d)
      × (s.a i d ≡ node.vd d)
      × (s.f i d ≡ g.zero_value)
      × (s.x i c ≡ global_position g node.u node.x0 c)
unfolding create_state copy_nodes_to_state new_state
created_state g fresh nodes i c d lt in_7 in_6 =
    let started = new_state g.one fresh nodes.size in
    let copied = parallel_for nodes.size (copy_node nodes) started in
    let count = copied-num_system_nodes nodes started in
    let row = copy_node-IsCopied nodes i c d started lt in_7 in_6 in
    (
      count,
      row.id,
      row.x0,
      row.q,
      row.q,
      row.v,
      row.vd,
      row.vd,
      refl,
      all_positions g copied.q copied.x0 copied.x copied.num_system_nodes i c (omega (arith, count))
            in_7
          ∙ global_position_congr g (copied.q i) (nodes.at i).u (copied.x0 i) (nodes.at i).x0 c in_7
              (λ k below. (copy_node-IsCopied nodes i k d started lt below in_6).q)
              (λ k below. (copy_node-IsCopied nodes i k d started lt below in_6).x0),
    )
