-- ===== src/Dof/Allocation/Union.antt =====
-- What the allocation table holds: the union of what was asked for, in whatever order it came.
use Prim.Native.Nat.{bit_or}
use kynema_fmb.Base.{
  ℕ, zero, suc, ◌≡◌, ◌↔◌, ◌⊎◌, inl, inr, refl, sym, ap, subst, ◌∙◌, arith, List, [], ◌∷◌, ◌++◌, ◌∈◌,
  collect, write, write_self, write_ne, parallel_for, ◌==◌, ==_iff, Bool-cases, if◌then◌else◌,
}
use kynema_fmb.Base.Bits.{bit, bit-bit_or, bit-zero, bit-le}
use kynema_fmb.Elements.{Elements, Beams, Masses, Springs}
use kynema_fmb.ConstraintType.{get_number_of_nodes}
use kynema_fmb.Constraints.{Constraints}
use kynema_fmb.Dof.Signature.{FreedomSignature, no_components, signature_or}
use kynema_fmb.Dof.Allocation.{
  Table, atomic_or, assemble_beam, assemble_mass, assemble_spring, assemble_constraint,
  allocation_table,
}

-- A request: a node and the signature that is asked of it.
abbrev pub Request : Type 0
Request = ℕ × FreedomSignature

abbrev pub beam_requests : Beams → ℕ → List Request
beam_requests b element =
    collect (b.num_nodes_per_element element)
      (λ node. (b.node_state_indices element node, b.element_freedom_signature element node) ∷ [])

abbrev pub mass_requests : Masses → ℕ → List Request
mass_requests m element = (m.state_indices element, m.element_freedom_signature element) ∷ []

abbrev pub spring_requests : Springs → ℕ → List Request
spring_requests s element =
    collect 2
      (λ node. (s.node_state_indices element node, s.element_freedom_signature element node) ∷ [])

abbrev pub constraint_requests : Constraints → ℕ → List Request
constraint_requests c i =
    (c.target_node_index i, c.target_node_freedom_signature i)
    ∷ (if get_number_of_nodes (c.type i) == 2
        then (c.base_node_index i, c.base_node_freedom_signature i) ∷ []
        else [])

-- Every request that the elements and the constraints of a system make.
abbrev pub requests : Elements → Constraints → List Request
requests e c =
    collect e.beams.num_elems (beam_requests e.beams)
    ++ (collect e.masses.num_elems (mass_requests e.masses)
        ++ (collect e.springs.num_elems (spring_requests e.springs)
            ++ collect c.num_constraints (constraint_requests c)))

-- The requests of a list, met in turn.
unfoldable pub meet : List Request → Table → Table
meet [] table = table
meet ((node, signature) ∷ rs) table = meet rs (atomic_or table node signature)

meet-append : (xs ys : List Request) (t : Table) → meet (xs ++ ys) t ≡ meet ys (meet xs t)
unfolding meet
meet-append [] ys t = refl
meet-append ((n, s) ∷ xs) ys t = meet-append xs ys (atomic_or t n s)

-- A loop whose rounds meet lists of requests meets the joined list.
parallel_for-meet :
    (n : ℕ) (f : ℕ → List Request) (body : ℕ → Table → Table) (t : Table)
    → ((k : ℕ) (t : Table) → body k t ≡ meet (f k) t)
    → parallel_for n body t ≡ meet (collect n f) t
unfolding parallel_for meet
parallel_for-meet zero f body t same = refl
parallel_for-meet (suc n) f body t same =
    same n (parallel_for n body t)
    ∙ ap (meet (f n)) (parallel_for-meet n f body t same)
    ∙ sym (meet-append (collect n f) (f n) t)

assemble_beam-meet :
    (b : Beams) (k : ℕ) (t : Table) → assemble_beam b k t ≡ meet (beam_requests b k) t
unfolding assemble_beam meet
assemble_beam-meet b k t = parallel_for-meet (b.num_nodes_per_element k) _ _ t (λ j t. refl)

assemble_spring-meet :
    (s : Springs) (k : ℕ) (t : Table) → assemble_spring s k t ≡ meet (spring_requests s k) t
unfolding assemble_spring meet
assemble_spring-meet s k t =
    parallel_for-meet 2
      (λ node. (s.node_state_indices k node, s.element_freedom_signature k node) ∷ []) _ t
      (λ j t. refl)

assemble_mass-meet :
    (m : Masses) (k : ℕ) (t : Table) → assemble_mass m k t ≡ meet (mass_requests m k) t
unfolding assemble_mass meet
assemble_mass-meet m k t = refl

assemble_constraint-meet :
    (c : Constraints) (k : ℕ) (t : Table)
    → assemble_constraint c k t ≡ meet (constraint_requests c k) t
unfolding assemble_constraint meet
assemble_constraint-meet c k t = elim (Bool-cases (get_number_of_nodes (c.type k) == 2)) [
  | inl e ↦ rw e refl
  | inr e ↦ rw e refl
]

pub allocation_table-meet :
    (e : Elements) (c : Constraints)
    → allocation_table e c ≡ meet (requests e c) (λ _. no_components)
unfolding allocation_table
allocation_table-meet e c =
    let none : Table = λ _. no_components in
    let beams = collect e.beams.num_elems (beam_requests e.beams) in
    let masses = collect e.masses.num_elems (mass_requests e.masses) in
    let springs = collect e.springs.num_elems (spring_requests e.springs) in
    let constraints = collect c.num_constraints (constraint_requests c) in
    parallel_for-meet c.num_constraints _ _ _ (assemble_constraint-meet c)
    ∙ ap (meet constraints) (
        parallel_for-meet e.springs.num_elems _ _ _ (assemble_spring-meet e.springs)
        ∙ ap (meet springs) (
            parallel_for-meet e.masses.num_elems _ _ _ (assemble_mass-meet e.masses)
            ∙ ap (meet masses)
                (parallel_for-meet e.beams.num_elems _ _ none (assemble_beam-meet e.beams))))
    ∙ sym (meet-append springs constraints (meet masses (meet beams none)))
    ∙ sym (meet-append masses (springs ++ constraints) (meet beams none))
    ∙ sym (meet-append beams (masses ++ (springs ++ constraints)) none)

atomic_or-bit :
    (t : Table) (n : ℕ) (s : FreedomSignature) (node b : ℕ)
    → (bit (atomic_or t n s node) b ≡ 1) ↔ ((bit (t node) b ≡ 1) ⊎ ((node ≡ n) × (bit s b ≡ 1)))
unfolding atomic_or signature_or
atomic_or-bit t n s node b = elim (Bool-cases (n == node)) [
  | inl e ↦
      let same : node ≡ n = sym ((==_iff n node).0 e) in
      subst
        (λ m.
          (bit (write t n (bit_or (t n) s) m) b ≡ 1)
          ↔ ((bit (t m) b ≡ 1) ⊎ ((m ≡ n) × (bit s b ≡ 1))))
        (sym same)
        (rw (write_self t n (bit_or (t n) s), bit-bit_or (t n) s b)
          (grind (arith, bit-le (t n) b, bit-le s b)))
  | inr e ↦ rw (write_ne t n node (bit_or (t n) s) (ground arith)) (grind arith)
]

-- Bit `b` of `node` is set after a list of requests exactly if it was set before, or a request for
-- the node has it.
meet-bit :
    (rs : List Request) (t : Table) (node b : ℕ)
    → (bit (meet rs t node) b ≡ 1)
      ↔ ((bit (t node) b ≡ 1) ⊎ ((s : FreedomSignature) × ((node, s) ∈ rs) × (bit s b ≡ 1)))
unfolding meet
meet-bit [] t node b = (λ h. inl h, λ h. ground arith)
meet-bit ((n, s) ∷ rs) t node b =
    let here = atomic_or-bit t n s node b in
    let later = meet-bit rs (atomic_or t n s) node b in (forward here later, backward here later)
  where
    forward :
        (bit (atomic_or t n s node) b ≡ 1) ↔ ((bit (t node) b ≡ 1) ⊎ ((node ≡ n) × (bit s b ≡ 1)))
        → (bit (meet rs (atomic_or t n s) node) b ≡ 1) ↔ (
            (bit (atomic_or t n s node) b ≡ 1)
            ⊎ ((s : FreedomSignature) × ((node, s) ∈ rs) × (bit s b ≡ 1)))
        → bit (meet rs (atomic_or t n s) node) b ≡ 1
        → (bit (t node) b ≡ 1)
          ⊎ ((s' : FreedomSignature) × ((node, s') ∈ ((n, s) ∷ rs)) × (bit s' b ≡ 1))
    forward here later h = elim (later.0 h) [
      | inl first ↦ elim (here.0 first) [
        | inl old ↦ inl old
        | inr (e, set) ↦ inr (s, inl (ground arith), set)
      ]
      | inr (s', m, set) ↦ inr (s', inr m, set)
    ]

    backward :
        (bit (atomic_or t n s node) b ≡ 1) ↔ ((bit (t node) b ≡ 1) ⊎ ((node ≡ n) × (bit s b ≡ 1)))
        → (bit (meet rs (atomic_or t n s) node) b ≡ 1) ↔ (
            (bit (atomic_or t n s node) b ≡ 1)
            ⊎ ((s : FreedomSignature) × ((node, s) ∈ rs) × (bit s b ≡ 1)))
        → (bit (t node) b ≡ 1)
          ⊎ ((s' : FreedomSignature) × ((node, s') ∈ ((n, s) ∷ rs)) × (bit s' b ≡ 1))
        → bit (meet rs (atomic_or t n s) node) b ≡ 1
    backward here later (inl old) = later.1 (inl (here.1 (inl old)))
    backward here later (inr (s', inl e, set)) = later.1 (inl (here.1 (inr (ground arith))))
    backward here later (inr (s', inr m, set)) = later.1 (inr (s', m, set))

-- Bit `b` of the entry of a node in the allocation table is set exactly if some element or
-- constraint asks for a signature with that bit at the node.
pub allocation_table-bit :
    (e : Elements) (c : Constraints) (node b : ℕ)
    → (bit (allocation_table e c node) b ≡ 1)
      ↔ ((s : FreedomSignature) × ((node, s) ∈ requests e c) × (bit s b ≡ 1))
allocation_table-bit e c node b =
    let all = meet-bit (requests e c) (λ _. no_components) node b in
    rw (allocation_table-meet e c) (
      λ h. elim (all.0 h) [ inl old ↦ absurd (omega (arith, bit-zero b)) | inr asked ↦ asked ],
      λ h. all.1 (inr h),
    )
