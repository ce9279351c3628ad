-- ===== src/Dof/Allocation/Named.antt =====
-- The signatures of the table are those that the enumeration names, so a node has six, three or no
-- degrees of freedom, and a node of a beam or a mass has six.
use kynema_fmb.Base.{
  ℕ, zero, suc, ◌≤◌, ◌<◌, ◌≡◌, refl, sym, subst, arith, List, [], ◌∷◌, ◌∈◌, All, All-append,
  collect, write, write_self, write_ne, ◌==◌, ==_iff, Bool-cases, inl, inr,
}
use kynema_fmb.Elements.{Elements, IsConstructed}
use kynema_fmb.Constraints.{Constraints}
use kynema_fmb.ConstraintType.{get_number_of_nodes}
use kynema_fmb.Dof.Signature.{FreedomSignature, no_components, signature_or, count_active_dofs}
use kynema_fmb.Dof.Signature.Laws.{IsNamed, signature_or-IsNamed, count-signature_or}
use kynema_fmb.Dof.Allocation.{Table, atomic_or, allocation_table}
use kynema_fmb.Dof.Allocation.Union.{Request, requests, meet, allocation_table-meet}

abbrev IsNamedRequest : Request → Type 0
IsNamedRequest r = IsNamed r.1

atomic_or-IsNamed :
    (t : Table) (n : ℕ) (s : FreedomSignature)
    → ((j : ℕ) → IsNamed (t j))
    → IsNamed s
    → (j : ℕ) → IsNamed (atomic_or t n s j)
unfolding atomic_or
atomic_or-IsNamed t n s h k j = elim (Bool-cases (n == j)) [
  | inl e ↦
      subst (λ i. IsNamed (write t n (signature_or (t n) s) i)) ((==_iff n j).0 e)
        (subst IsNamed (sym (write_self t n _)) (signature_or-IsNamed (t n) s (h n) k))
  | inr e ↦ subst IsNamed (sym (write_ne t n j _ (ground arith))) (h j)
]

meet-IsNamed :
    (rs : List Request) (t : Table)
    → ((j : ℕ) → IsNamed (t j))
    → All IsNamedRequest rs
    → (j : ℕ) → IsNamed (meet rs t j)
unfolding meet
meet-IsNamed [] t h a = h
meet-IsNamed ((n, s) ∷ rs) t h (a, rest) =
    meet-IsNamed rs (atomic_or t n s) (atomic_or-IsNamed t n s h a) rest

-- A request that is met counts.
atomic_or-count :
    (t : Table) (n : ℕ) (s : FreedomSignature) (j : ℕ)
    → count_active_dofs (t j) ≤ count_active_dofs (atomic_or t n s j)
unfolding atomic_or
atomic_or-count t n s j = elim (Bool-cases (n == j)) [
  | inl e ↦
      subst (λ i. count_active_dofs (t i) ≤ count_active_dofs (write t n (signature_or (t n) s) i))
        ((==_iff n j).0 e)
        (rw (write_self t n (signature_or (t n) s)) (count-signature_or (t n) s).0)
  | inr e ↦ rw (write_ne t n j (signature_or (t n) s) (ground arith)) (omega arith)
]

meet-count_mono :
    (rs : List Request) (t : Table) (j : ℕ)
    → count_active_dofs (t j) ≤ count_active_dofs (meet rs t j)
unfolding meet
meet-count_mono [] t j = omega arith
meet-count_mono ((n, s) ∷ rs) t j =
    omega (arith, atomic_or-count t n s j, meet-count_mono rs (atomic_or t n s) j)

meet-count :
    (rs : List Request) (t : Table) (j : ℕ) (s : FreedomSignature)
    → (j, s) ∈ rs
    → count_active_dofs s ≤ count_active_dofs (meet rs t j)
unfolding meet atomic_or
meet-count [] t j s m = absurd m
meet-count ((n, x) ∷ rs) t j s (inl e) =
    let same : n ≡ j = ground arith in
    let first : count_active_dofs s ≤ count_active_dofs (atomic_or t n x n) =
      rw (write_self t n (signature_or (t n) x)) (
        subst (λ y. count_active_dofs s ≤ count_active_dofs (signature_or (t n) y)) (ground arith)
          (count-signature_or (t n) s).1) in
    omega (
      arith,
      subst (λ i. count_active_dofs s ≤ count_active_dofs (atomic_or t n x i)) same first,
      meet-count_mono rs (atomic_or t n x) j,
    )
meet-count ((n, x) ∷ rs) t j s (inr m) = meet-count rs (atomic_or t n x) j s m

-- What is asked of the table is at least met.
pub allocation_table-count :
    (e : Elements) (c : Constraints) (j : ℕ) (s : FreedomSignature)
    → (j, s) ∈ requests e c
    → count_active_dofs s ≤ count_active_dofs (allocation_table e c j)
allocation_table-count e c j s m =
    rw (allocation_table-meet e c) (meet-count (requests e c) _ j s m)

All-collect :
    (n : ℕ) (f : ℕ → List Request)
    → ((k : ℕ) → k < n → All IsNamedRequest (f k))
    → All IsNamedRequest (collect n f)
All-collect zero f h = tt
All-collect (suc n) f h =
    All-append IsNamedRequest (collect n f) (f n) (All-collect n f (λ k lt. h k (omega arith)))
      (h n (omega arith))

-- The signatures that the constraints ask for are named.
pub record HasNamedSignatures (c : Constraints) : Type 0 where
  pub base : (i : ℕ) → i < c.num_constraints → IsNamed (c.base_node_freedom_signature i)
  pub target : (i : ℕ) → i < c.num_constraints → IsNamed (c.target_node_freedom_signature i)

requests-IsNamed :
    (e : Elements) (c : Constraints)
    → IsConstructed e
    → HasNamedSignatures c
    → All IsNamedRequest (requests e c)
requests-IsNamed e c built named =
    All-append IsNamedRequest _ _
      (All-collect e.beams.num_elems _ λ k lt.
        All-collect (e.beams.num_nodes_per_element k) _
          λ j below. (inl (built.beam_signature k j), tt))
      (All-append IsNamedRequest _ _
        (All-collect e.masses.num_elems _ λ k lt. (inl (built.mass_signature k), tt))
        (All-append IsNamedRequest _ _
          (All-collect e.springs.num_elems _ λ k lt.
            (inr (inl (built.spring_signature k 0)), (inr (inl (built.spring_signature k 1)), tt)))
          (All-collect c.num_constraints _ λ k lt. (
            named.target k lt,
            elim (Bool-cases (get_number_of_nodes (c.type k) == 2)) [
              | inl two ↦ rw two (named.base k lt, tt)
              | inr one ↦ rw one tt
            ],
          ))))

-- If the elements are as constructed and the constraints have signatures that the enumeration
-- names, every entry of the allocation table is one of the four signatures that the enumeration
-- names.
pub allocation_table-IsNamed :
    (e : Elements) (c : Constraints) (node : ℕ)
    → IsConstructed e
    → HasNamedSignatures c
    → IsNamed (allocation_table e c node)
allocation_table-IsNamed e c node built named = rw (allocation_table-meet e c) (
    meet-IsNamed (requests e c) (λ _. no_components) (λ j. inr (inr (inr refl)))
      (requests-IsNamed e c built named) node)
