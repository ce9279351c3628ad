-- ===== src/Step/Bracket.antt =====
-- The load reduction of a static step: the factors stay within the interval from none to full load,
-- and success means a converged solve at full load.
use kynema_fmb.Base.{ℕ, zero, suc, ◌≡◌, ◌⊎◌, inl, inr, refl, true, false, View2, Bool-cases}
use kynema_fmb.State.{State}
use kynema_fmb.Step.{
  World, Double, Phases, Search, solve_step, scale_loads, converged_search, failed_search,
  reduce_load, start_search, step,
}

module _ {D X : Type 0} (ops : Double D) (phases : Phases D X) where
  -- The bounds of the interval and the factor between them.
  pub record IsBracket (le : D → D → Type 0) (s : Search ops phases) : Type 0 where
    pub low : le ops.zero_double s.load_factor_low
    pub between : le s.load_factor_low s.load_factor_current
    pub full : le s.load_factor_current ops.one

  -- If the order of numbers is reflexive and transitive and the middle of two ordered numbers lies
  -- between them, then after any number of retries the current load factor lies between the lower
  -- bound, which is at least zero, and one, if it did before.
  pub reduce_load-IsBracket :
      (le : D → D → Type 0) (max_iter retries : ℕ) (baseline : View2 D) (s : Search ops phases)
      → ((a : D) → le a a)
      → ((a b c : D) → le a b → le b c → le a c)
      → ((a b : D) → le a b → le a (ops.middle a b) × le (ops.middle a b) b)
      → IsBracket le s
      → IsBracket le (reduce_load ops phases max_iter retries baseline s).1
  unfolding reduce_load converged_search failed_search
  reduce_load-IsBracket le max_iter zero baseline s le_refl le_trans le_middle h = h
  reduce_load-IsBracket le max_iter (suc retries) baseline s le_refl le_trans le_middle h =
      let solved =
        solve_step ops phases max_iter
          (scale_loads ops phases baseline s.load_factor_current s.world) in
      let again = λ (next : Search ops phases) (k : IsBracket le next).
        reduce_load-IsBracket le max_iter retries baseline next le_refl le_trans le_middle k in
      elim (Bool-cases solved.0) [
        | inl converged ↦ rw converged (elim (Bool-cases (ops.is_full_load s.load_factor_current)) [
          | inl full ↦ rw full (record { low = h.low; between = h.between; full = h.full })
          | inr part ↦ rw part (
              again _ (record {
                low = le_trans _ _ _ h.low h.between;
                between = h.full;
                full = le_refl ops.one;
              }))
        ])
        | inr failed ↦
            let mid = le_middle s.load_factor_low s.load_factor_current h.between in
            rw failed (
              again _ (record { low = h.low; between = mid.0; full = le_trans _ _ _ mid.1 h.full }))
      ]

  -- The last solve of a search that has succeeded: converged, at full load.
  abbrev IsSolved : ℕ → View2 D → World D X → Type 0
  IsSolved max_iter baseline after =
      (before : World D X) × (factor : D) × (ops.is_full_load factor ≡ true)
      × (solve_step ops phases max_iter (scale_loads ops phases baseline factor before)
          ≡ (true, after))

  reduce_load-IsSolved :
      (max_iter retries : ℕ) (baseline : View2 D) (s : Search ops phases)
      → let r = reduce_load ops phases max_iter retries baseline s in
        ((r.0 ≡ true) × IsSolved max_iter baseline r.1.world) ⊎ (r.0 ≡ false)
  unfolding reduce_load
  reduce_load-IsSolved max_iter zero baseline s = inr refl
  reduce_load-IsSolved max_iter (suc retries) baseline s =
      let start = scale_loads ops phases baseline s.load_factor_current s.world in
      let solved = solve_step ops phases max_iter start in
      elim (Bool-cases solved.0) [
        | inl converged ↦ rw converged (elim (Bool-cases (ops.is_full_load s.load_factor_current)) [
          | inl full ↦
              rw full
                (inl (refl, (s.world, s.load_factor_current, full, λ i. (converged i, solved.1))))
          | inr part ↦ rw part (reduce_load-IsSolved max_iter retries baseline _)
        ])
        | inr failed ↦ rw failed (reduce_load-IsSolved max_iter retries baseline _)
      ]

  -- A static step returns false, or returns true and what it leaves is the result of a converged
  -- solve with the loads that the step began with, scaled by a factor that passes the test for
  -- full load. A dynamic step is one solve.
  pub step_solved :
      (max_iter retries : ℕ) (fresh : State D) (w : World D X)
      → let r = step ops phases false max_iter retries fresh w in
        ((r.0 ≡ false)
          ⊎ ((r.0 ≡ true)
              × (before : World D X) × (factor : D) × (ops.is_full_load factor ≡ true)
              × (solve_step ops phases max_iter (scale_loads ops phases w.state.f factor before)
                  ≡ (true, r.1))))
        × (step ops phases true max_iter retries fresh w ≡ solve_step ops phases max_iter w)
  unfolding step
  step_solved max_iter retries fresh w = (
    elim (reduce_load-IsSolved max_iter retries w.state.f (start_search ops phases fresh w)) [
      | inl (solved, (before, factor, full, solve)) ↦ inr (solved, before, factor, full, solve)
      | inr open_end ↦ inl open_end
    ],
    refl,
  )
