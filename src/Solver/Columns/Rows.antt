-- ===== src/Solver/Columns/Rows.antt =====
-- Extending the rows of one node: `n` rows of `width` places each, the first at `start 0`.
use kynema_fmb.Base.{
  ℕ, zero, suc, ◌+◌, ◌≤◌, ◌<◌, ◌≡◌, ◌⊎◌, sym, ◌∙◌, subst, arith, List, ◌++◌, length, length-append,
  View, write, write_self, write_ne, Holds, Holds-append, Holds_congr, Holds-write_list, write_list,
  write_list_before, write_list_after, parallel_for, parallel_for_inv, ◌==◌, ==_iff, Bool-cases,
  inl, inr,
}

module _ (n width : ℕ) (start : ℕ → ℕ)
    (step : (c : ℕ) → c < n → start (suc c) ≡ start c + width) where
  start_mono : (c d : ℕ) → c ≤ d → d ≤ n → start c ≤ start d
  start_mono c zero le below = subst (λ k. start k ≤ start 0) (zero_of c le) (omega arith)
    where
      zero_of : (k : ℕ) → k ≤ 0 → 0 ≡ k
      zero_of k h = omega arith
  start_mono c (suc d) le below = elim (Bool-cases (c == suc d)) [
    | inl e ↦ subst (λ k. start c ≤ start k) ((==_iff c (suc d)).0 e) (omega arith)
    | inr e ↦ omega (arith, step d (omega arith), start_mono c d (ground arith) (omega arith))
  ]

  pub start_order : (c d : ℕ) → c < d → d ≤ n → start c + width ≤ start d
  start_order c d lt below = omega (arith, step c (omega arith), start_mono (suc c) d lt below)

  -- Every row holds `xs`, and nothing else has changed.
  pub record IsFilled (base : View ℕ) (xs : List ℕ) (p : View ℕ × View ℕ) : Type 0 where
    pub lengths : (c : ℕ) → c < n → p.0 c ≡ length xs
    pub rows : (c : ℕ) → c < n → Holds p.1 (start c) xs
    pub rest : (j : ℕ) → (j < start 0) ⊎ (start n ≤ j) → p.1 j ≡ base j

  -- The first `k` rows hold `ys` more.
  record IsExtending (base : View ℕ) (xs ys : List ℕ) (k : ℕ) (p : View ℕ × View ℕ) : Type 0 where
    done_lengths : (c : ℕ) → c < k → p.0 c ≡ length (xs ++ ys)
    done_rows : (c : ℕ) → c < k → Holds p.1 (start c) (xs ++ ys)
    todo_lengths : (c : ℕ) → k ≤ c → c < n → p.0 c ≡ length xs
    todo_rows : (c : ℕ) → k ≤ c → c < n → Holds p.1 (start c) xs
    rest : (j : ℕ) → (j < start 0) ⊎ (start n ≤ j) → p.1 j ≡ base j

  abbrev pub extended : List ℕ → List ℕ → ℕ → View ℕ × View ℕ → View ℕ × View ℕ
  extended xs ys c (current, col_inds) =
      (write current c (length (xs ++ ys)), write_list col_inds (start c + length xs) ys)

  extended-IsExtending :
      (base : View ℕ) (xs ys : List ℕ) (k : ℕ) (p : View ℕ × View ℕ)
      → k < n
      → length (xs ++ ys) ≤ width
      → IsExtending base xs ys k p
      → IsExtending base xs ys (suc k) (extended xs ys k p)
  extended-IsExtending base xs ys k (current, col_inds) lt fits p =
      let size = length-append xs ys in
      let place = start k + length xs in
      let first = start_mono 0 k (omega arith) (omega arith) in
      let last = start_order k n lt (omega arith) in
      let outside = λ (j : ℕ) (h : (j < start k) ⊎ (start k + width ≤ j)).
        outside_of col_inds k j xs ys fits h in
      record {
        done_lengths = λ c below. elim (Bool-cases (k == c)) [
          | inl e ↦
              subst (λ d. write current k (length (xs ++ ys)) d ≡ length (xs ++ ys))
                ((==_iff k c).0 e) (write_self current k _)
          | inr e ↦ write_ne current k c _ (ground arith) ∙ p.done_lengths c (ground arith)
        ];
        done_rows = λ c below. elim (Bool-cases (k == c)) [
          | inl e ↦
              subst (λ d. Holds (write_list col_inds place ys) (start d) (xs ++ ys))
                ((==_iff k c).0 e) (row_here col_inds k xs ys (p.todo_rows k (omega arith) lt))
          | inr e ↦
              let before = start_order c k (ground arith) (omega arith) in
              Holds_congr col_inds _ (start c) (xs ++ ys) (λ j lo hi. outside j (inl (omega arith)))
                (p.done_rows c (ground arith))
        ];
        todo_lengths = λ c le below.
            write_ne current k c _ (omega arith) ∙ p.todo_lengths c (omega arith) below;
        todo_rows = λ c le below.
            let after = start_order k c le (omega arith) in
            Holds_congr col_inds _ (start c) xs (λ j lo hi. outside j (inr (omega arith)))
              (p.todo_rows c (omega arith) below);
        rest = λ j h. outside j (beyond j k h first last) ∙ p.rest j h;
      }
    where
      outside_of :
          (v : View ℕ) (k j : ℕ) (xs ys : List ℕ)
          → length (xs ++ ys) ≤ width
          → (j < start k) ⊎ (start k + width ≤ j)
          → write_list v (start k + length xs) ys j ≡ v j
      outside_of v k j xs ys fits (inl lt) =
          write_list_before v (start k + length xs) j ys (omega arith)
      outside_of v k j xs ys fits (inr ge) =
          write_list_after v (start k + length xs) j ys (omega (arith, length-append xs ys))

      row_here :
          (v : View ℕ) (k : ℕ) (xs ys : List ℕ)
          → Holds v (start k) xs
          → Holds (write_list v (start k + length xs) ys) (start k) (xs ++ ys)
      row_here v k xs ys h =
          Holds-append _ (start k) xs ys
            (Holds_congr v _ (start k) xs
              (λ j lo hi. write_list_before v (start k + length xs) j ys hi) h)
            (Holds-write_list v (start k + length xs) ys)

      beyond :
          (j k : ℕ)
          → (j < start 0) ⊎ (start n ≤ j)
          → start 0 ≤ start k
          → start k + width ≤ start n
          → (j < start k) ⊎ (start k + width ≤ j)
      beyond j k (inl lt) lo hi = inl (omega arith)
      beyond j k (inr ge) lo hi = inr (omega arith)

  -- A loop over the rows that appends `ys` to each of them.
  pub extend_all :
      (base : View ℕ) (xs ys : List ℕ) (body : ℕ → View ℕ × View ℕ → View ℕ × View ℕ)
      (p : View ℕ × View ℕ)
      → length (xs ++ ys) ≤ width
      → ((c : ℕ) (q : View ℕ × View ℕ) → c < n → q.0 c ≡ length xs → body c q ≡ extended xs ys c q)
      → IsFilled base xs p
      → IsFilled base (xs ++ ys) (parallel_for n body p)
  extend_all base xs ys body p fits same filled =
      let final : IsExtending base xs ys n (parallel_for n body p) =
        parallel_for_inv (IsExtending base xs ys) n body p
          (λ k q lt h.
            subst (IsExtending base xs ys (suc k))
              (sym (same k q lt (h.todo_lengths k (omega arith) lt)))
              (extended-IsExtending base xs ys k q lt fits h))
          (record {
            done_lengths = λ c lt. absurd (omega arith);
            done_rows = λ c lt. absurd (omega arith);
            todo_lengths = λ c le lt. filled.lengths c lt;
            todo_rows = λ c le lt. filled.rows c lt;
            rest = filled.rest;
          }) in
      record { lengths = final.done_lengths; rows = final.done_rows; rest = final.rest }
