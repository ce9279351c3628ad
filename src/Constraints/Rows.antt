-- ===== src/Constraints/Rows.antt =====
-- The rows that the constructor gives to each constraint, and the degrees of freedom of its nodes.
use native.Mathlib.Nat.{mod-eq_of_lt}
use kynema_fmb.Base.{
  ℕ, suc, ◌+◌, ◌-◌, ◌*◌, ◌^◌, ◌≤◌, ◌<◌, ◌≡◌, ◌≢◌, refl, ap, ◌∙◌, subst, arith, sum_below,
  sum_below-le, sum_below_step, sum_below_find, Vector, write_self, write_ne, parallel_for_inv,
  ◌==◌, Bool-cases, inl, inr, ==_iff,
}
use kynema_fmb.ConstraintType.{
  ConstraintType, none_type, fixed_bc, prescribed_bc, num_rows_for_constraint, get_number_of_nodes,
}
use kynema_fmb.Constraints.{
  Constraint, Constraints, reduce_num_dofs, NodeDofs, node_dofs, construct_one,
  construct_constraints,
}
use kynema_fmb.Dof.Signature.{count_active_dofs}

-- The rows of the first `k` constraints.
abbrev pub rows_before : Vector Constraint → ℕ → ℕ
rows_before cs k = sum_below k (λ i. num_rows_for_constraint (cs.at i).type)

pub num_rows-le : (t : ConstraintType) → num_rows_for_constraint t ≤ 6
unfolding num_rows_for_constraint
num_rows-le none_type = omega arith
num_rows-le t = omega arith

pub rows_before-le : (cs : Vector Constraint) (k : ℕ) → rows_before cs k ≤ 6 * k
rows_before-le cs k = sum_below-le k 6 _ (λ i. num_rows-le (cs.at i).type)

-- While six rows for each constraint fit an `unsigned int`, the reduction does not wrap.
pub reduce_num_dofs-eq :
    (cs : Vector Constraint) → 6 * cs.size < 2 ^ 32 → reduce_num_dofs cs ≡ rows_before cs cs.size
unfolding reduce_num_dofs
reduce_num_dofs-eq cs h =
    parallel_for_inv (λ k sum. sum ≡ rows_before cs k) cs.size _ 0
      (λ k sum lt e.
        rw e (mod-eq_of_lt (omega (arith, rows_before-le cs k, num_rows-le (cs.at k).type))))
      refl

-- Constraint `i` as the constructor stores it.
pub record IsStored (cs : Vector Constraint) (c : Constraints) (i : ℕ) : Type 0 where
  pub type : c.type i ≡ (cs.at i).type
  pub control : c.control_signal i ≡ (cs.at i).control
  pub base_index : c.base_node_index i ≡ (cs.at i).base_node_id
  pub target_index : c.target_node_index i ≡ (cs.at i).target_node_id
  pub rows : c.row_range i ≡ (rows_before cs i, rows_before cs (suc i))
  pub dofs :
      (cs.at i).type ≢ none_type
      → (fresh : NodeDofs)
      → (c.base_node_freedom_signature i ≡ (node_dofs (cs.at i).type fresh).base)
        × (c.target_node_freedom_signature i ≡ (node_dofs (cs.at i).type fresh).target)
        × (c.base_active_dofs i ≡ (node_dofs (cs.at i).type fresh).base_dofs)
        × (c.target_active_dofs i ≡ (node_dofs (cs.at i).type fresh).target_dofs)

-- Only for the type `None` does what the views held before matter.
pub node_dofs-fresh :
    (t : ConstraintType) (f g : NodeDofs) → t ≢ none_type → node_dofs t f ≡ node_dofs t g
unfolding node_dofs
node_dofs-fresh none_type f g h = absurd (h refl)
node_dofs-fresh fixed_bc f g h = refl
node_dofs-fresh prescribed_bc f g h = refl
node_dofs-fresh t f g h = refl

record IsBuilt (cs : Vector Constraint) (k : ℕ) (s : Constraints × ℕ) : Type 0 where
  start : s.1 ≡ rows_before cs k
  stored : (i : ℕ) → i < k → IsStored cs s.0 i

construct_one_self :
    (cs : Vector Constraint) (k : ℕ) (c : Constraints) (start : ℕ)
    → start ≡ rows_before cs k
    → IsStored cs (construct_one cs k (c, start)).0 k
unfolding construct_one
construct_one_self cs k c start e = record {
  type = write_self c.type k _;
  control = write_self c.control_signal k _;
  base_index = write_self c.base_node_index k _;
  target_index = write_self c.target_node_index k _;
  rows = write_self c.row_range k _ ∙ rw e refl;
  dofs = λ h fresh. (
    write_self c.base_node_freedom_signature k _
        ∙ ap (λ (d : NodeDofs). d.base) (node_dofs-fresh (cs.at k).type _ fresh h),
    write_self c.target_node_freedom_signature k _
        ∙ ap (λ (d : NodeDofs). d.target) (node_dofs-fresh (cs.at k).type _ fresh h),
    write_self c.base_active_dofs k _
        ∙ ap (λ (d : NodeDofs). d.base_dofs) (node_dofs-fresh (cs.at k).type _ fresh h),
    write_self c.target_active_dofs k _
        ∙ ap (λ (d : NodeDofs). d.target_dofs) (node_dofs-fresh (cs.at k).type _ fresh h),
  );
}

construct_one-ne :
    (cs : Vector Constraint) (k i : ℕ) (c : Constraints) (start : ℕ)
    → k ≢ i
    → IsStored cs c i
    → IsStored cs (construct_one cs k (c, start)).0 i
unfolding construct_one
construct_one-ne cs k i c start ne p = record {
  type = write_ne c.type k i _ ne ∙ p.type;
  control = write_ne c.control_signal k i _ ne ∙ p.control;
  base_index = write_ne c.base_node_index k i _ ne ∙ p.base_index;
  target_index = write_ne c.target_node_index k i _ ne ∙ p.target_index;
  rows = write_ne c.row_range k i _ ne ∙ p.rows;
  dofs = λ h fresh. (
    write_ne c.base_node_freedom_signature k i _ ne ∙ (p.dofs h fresh).0,
    write_ne c.target_node_freedom_signature k i _ ne ∙ (p.dofs h fresh).1,
    write_ne c.base_active_dofs k i _ ne ∙ (p.dofs h fresh).2,
    write_ne c.target_active_dofs k i _ ne ∙ (p.dofs h fresh).3,
  );
}

construct_one-start :
    (cs : Vector Constraint) (k : ℕ) (c : Constraints) (start : ℕ)
    → start ≡ rows_before cs k
    → (construct_one cs k (c, start)).1 ≡ rows_before cs (suc k)
unfolding construct_one
construct_one-start cs k c start e = ap (λ s. s + num_rows_for_constraint (cs.at k).type) e

construct_one-IsBuilt :
    (cs : Vector Constraint) (k : ℕ) (s : Constraints × ℕ)
    → IsBuilt cs k s
    → IsBuilt cs (suc k) (construct_one cs k s)
construct_one-IsBuilt cs k (c, start) b = record {
  start = construct_one-start cs k c start b.start;
  stored = λ i lt. elim (Bool-cases (k == i)) [
    | inl e ↦
        subst (IsStored cs (construct_one cs k (c, start)).0) ((==_iff k i).0 e)
          (construct_one_self cs k c start b.start)
    | inr e ↦ construct_one-ne cs k i c start (ground arith) (b.stored i (ground arith))
  ];
}

-- Every constraint is stored as it was given, with the rows that follow those of its predecessors,
-- and with the signatures and numbers of degrees of freedom of its type.
pub construct_constraints-IsStored :
    (fresh : Constraints) (cs : Vector Constraint) (i : ℕ)
    → i < cs.size
    → IsStored cs (construct_constraints fresh cs) i
unfolding construct_constraints
construct_constraints-IsStored fresh cs i lt =
    (parallel_for_inv (IsBuilt cs) cs.size (construct_one cs) _
        (λ k s below b. construct_one-IsBuilt cs k s b)
        (record { start = refl; stored = λ j h. absurd (omega arith) })).stored
      i lt

pub construct_constraints-num_dofs :
    (fresh : Constraints) (cs : Vector Constraint)
    → 6 * cs.size < 2 ^ 32
    → (construct_constraints fresh cs).num_dofs ≡ rows_before cs cs.size
unfolding construct_constraints construct_one
construct_constraints-num_dofs fresh cs h =
    parallel_for_inv (λ k (s : Constraints × ℕ). s.0.num_dofs ≡ rows_before cs cs.size) cs.size
      (construct_one cs) _ (λ k s lt e. keep k s e) (reduce_num_dofs-eq cs h)
  where
    keep :
        (k : ℕ) (s : Constraints × ℕ)
        → s.0.num_dofs ≡ rows_before cs cs.size
        → (construct_one cs k s).0.num_dofs ≡ rows_before cs cs.size
    keep k (c, start) e = e

pub construct_constraints-num_constraints :
    (fresh : Constraints) (cs : Vector Constraint)
    → (construct_constraints fresh cs).num_constraints ≡ cs.size
unfolding construct_constraints construct_one
construct_constraints-num_constraints fresh cs =
    parallel_for_inv (λ k (s : Constraints × ℕ). s.0.num_constraints ≡ cs.size) cs.size
      (construct_one cs) _ (λ k s lt e. keep k s e) refl
  where
    keep :
        (k : ℕ) (s : Constraints × ℕ)
        → s.0.num_constraints ≡ cs.size
        → (construct_one cs k s).0.num_constraints ≡ cs.size
    keep k (c, start) e = e

-- A constraint has as many rows as its type, and they end at or below the total.
pub row_range_end :
    (fresh : Constraints) (cs : Vector Constraint) (i : ℕ)
    → 6 * cs.size < 2 ^ 32
    → i < cs.size
    → let c = construct_constraints fresh cs in
      ((c.row_range i).0 + num_rows_for_constraint (cs.at i).type ≡ (c.row_range i).1)
      × ((c.row_range i).1 ≤ c.num_dofs)
row_range_end fresh cs i h lt =
    let stored = construct_constraints-IsStored fresh cs i lt in
    rw (stored.rows, construct_constraints-num_dofs fresh cs h)
      (refl, sum_below_step i cs.size _ lt)

-- If six rows for each constraint fit an `unsigned int`: the rows of a constraint end where those
-- of a later one begin or before, those of the later one end at or below the total, and the first
-- has as many rows as its type.
pub row_range_order :
    (fresh : Constraints) (cs : Vector Constraint) (i j : ℕ)
    → 6 * cs.size < 2 ^ 32
    → i < j
    → j < cs.size
    → let c = construct_constraints fresh cs in
      ((c.row_range i).1 ≤ (c.row_range j).0)
      × ((c.row_range j).1 ≤ c.num_dofs)
      × ((c.row_range i).0 + num_rows_for_constraint (cs.at i).type ≡ (c.row_range i).1)
row_range_order fresh cs i j h lt below =
    let stored_i = construct_constraints-IsStored fresh cs i (omega arith) in
    let stored_j = construct_constraints-IsStored fresh cs j below in
    rw (stored_i.rows, stored_j.rows, construct_constraints-num_dofs fresh cs h)
      (sum_below_step i j _ lt, sum_below_step j cs.size _ below, refl)

-- If six rows for each constraint fit an `unsigned int`, every row below the total belongs to a
-- constraint.
pub row_range_cover :
    (fresh : Constraints) (cs : Vector Constraint) (d : ℕ)
    → 6 * cs.size < 2 ^ 32
    → d < (construct_constraints fresh cs).num_dofs
    → let c = construct_constraints fresh cs in
      (i : ℕ) × (i < cs.size) × ((c.row_range i).0 ≤ d) × (d < (c.row_range i).1)
row_range_cover fresh cs d h lt =
    let (i, below, lo, hi) =
      sum_below_find cs.size d _
        (subst (λ n. d < n) (construct_constraints-num_dofs fresh cs h) lt) in
    let rows = (construct_constraints-IsStored fresh cs i below).rows in
    (i, below, rw rows lo, rw rows hi)

node_dofs_counts :
    (t : ConstraintType) (fresh : NodeDofs)
    → t ≢ none_type
    → let d = node_dofs t fresh in
      (d.base_dofs ≡ count_active_dofs d.base)
      × (d.target_dofs ≡ count_active_dofs d.target)
      × (num_rows_for_constraint t ≤ d.target_dofs)
      × (d.base_dofs ≡ 6 * (get_number_of_nodes t - 1))
unfolding node_dofs count_active_dofs num_rows_for_constraint get_number_of_nodes
node_dofs_counts none_type fresh h = absurd (h refl)
node_dofs_counts fixed_bc fresh h = omega arith
node_dofs_counts t fresh h = omega arith

-- For every constraint of a type other than `None`: the two counts that the constructor stores are
-- the numbers of set bits of the two signatures that it stores, it has at most as many rows as the
-- count of its target node, and the count of its base node is six if the type has two nodes and
-- zero if not.
pub stored_counts :
    (fresh : Constraints) (cs : Vector Constraint) (i : ℕ)
    → i < cs.size
    → (cs.at i).type ≢ none_type
    → let c = construct_constraints fresh cs in
      (c.base_active_dofs i ≡ count_active_dofs (c.base_node_freedom_signature i))
      × (c.target_active_dofs i ≡ count_active_dofs (c.target_node_freedom_signature i))
      × ((c.row_range i).1 ≤ (c.row_range i).0 + c.target_active_dofs i)
      × (c.base_active_dofs i ≡ 6 * (get_number_of_nodes (c.type i) - 1))
stored_counts fresh cs i lt named =
    let s = construct_constraints-IsStored fresh cs i lt in
    let any : NodeDofs = record { base = 0; target = 0; base_dofs = 0; target_dofs = 0 } in
    let d = s.dofs named any in
    let e = node_dofs_counts (cs.at i).type any named in
    rw (d.0, d.1, d.2, d.3, s.rows, s.type) (e.0, e.1, omega arith, e.3)
