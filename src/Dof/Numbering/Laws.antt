-- ===== src/Dof/Numbering/Laws.antt =====
-- The numbering of the degrees of freedom: the nodes take consecutive blocks, which make up all the
-- numbers below the number of system degrees of freedom.
use kynema_fmb.Base.{
  ℕ, suc, ◌+◌, ◌-◌, ◌^◌, ◌≤◌, ◌<◌, ◌≡◌, refl, ap, ◌∙◌, subst, arith, View, write, write_self,
  write_ne, parallel_for_inv, sum_below, ◌==◌, ==_iff, Bool-cases, inl, inr,
}
use kynema_fmb.Dof.Signature.{FreedomSignature, count_active_dofs}
use kynema_fmb.Dof.Numbering.{sub64, scan_node, node_freedom_map, compute_num_system_dofs}

abbrev counts : View FreedomSignature → ℕ → ℕ
counts allocation k = count_active_dofs (allocation k)

record IsScanned (allocation : View FreedomSignature) (k : ℕ) (s : ℕ × View ℕ) : Type 0 where
  update : s.0 ≡ sum_below k (counts allocation)
  entries : (i : ℕ) → i ≤ k → s.1 i ≡ sum_below i (counts allocation)

scan_node-IsScanned :
    (allocation : View FreedomSignature) (k : ℕ) (s : ℕ × View ℕ)
    → IsScanned allocation k s
    → IsScanned allocation (suc k) (scan_node allocation k s)
unfolding scan_node
scan_node-IsScanned allocation k (update, table) p =
    let next : update + counts allocation k ≡ sum_below (suc k) (counts allocation) =
      ap (λ u. u + counts allocation k) p.update in
    record {
      update = next;
      entries = λ i le. elim (Bool-cases (suc k == i)) [
        | inl e ↦
            subst
              (λ j.
                write table (suc k) (update + counts allocation k) j
                ≡ sum_below j (counts allocation))
              ((==_iff (suc k) i).0 e) (write_self table (suc k) _ ∙ next)
        | inr e ↦ write_ne table (suc k) i _ (ground arith) ∙ p.entries i (ground arith)
      ];
    }

only_zero : (j : ℕ) → j ≤ 0 → j ≡ 0
only_zero j le = omega arith

-- The first degree of freedom of a node comes after those of the nodes before it.
pub node_freedom_map-eq :
    (n : ℕ) (allocation : View FreedomSignature) (i : ℕ)
    → n < 2 ^ 64
    → i < n
    → node_freedom_map n allocation i ≡ sum_below i (counts allocation)
unfolding node_freedom_map
node_freedom_map-eq n allocation i bound lt =
    let rounds : sub64 n 1 ≡ n - 1 = omega arith in
    (parallel_for_inv (IsScanned allocation) (sub64 n 1) (scan_node allocation) (0, λ _. 0)
        (λ k s below p. scan_node-IsScanned allocation k s p)
        (record { update = refl; entries = λ j le. rw (only_zero j le) refl })).entries
      i (omega arith)

pub compute_num_system_dofs-eq :
    (n : ℕ) (active : View ℕ) → compute_num_system_dofs n active ≡ sum_below n active
unfolding compute_num_system_dofs
compute_num_system_dofs-eq n active =
    parallel_for_inv (λ k sum. sum ≡ sum_below k active) n _ 0
      (λ k sum lt e. ap (λ s. s + active k) e) refl
