-- ===== src/Step.antt =====
-- src/step/step.hpp: the nonlinear iteration of a step, and the load reduction of a static step. The
-- arithmetic on `double` and the calls of the iteration, which compute with it, are parameters.
pub mod Iterations
pub mod Bracket
use kynema_fmb.Base.{
  ℕ, zero, suc, Bool, true, false, not, ◌&&◌, List, [], ◌∷◌, ◌++◌, View2, if◌then◌else◌,
}
use kynema_fmb.State.{State}
use kynema_fmb.State.Snapshot.{clone_state, copy_state_data}

-- What a step works on. `X` stands for the elements, the constraints and the solver without its
-- convergence history.
pub record World (D X : Type 0) : Type 0 where
  pub state : State D
  pub rest : X
  pub convergence_err : List D

-- The operations and tests on `double` that the two functions use themselves.
pub record Double (D : Type 0) : Type 0 where
  pub zero_double : D
  pub one : D
  pub thousand : D
  pub mul : D → D → D
  -- `0.5 * (a + b)`
  pub middle : D → D → D
  -- `a > 1.`
  pub exceeds_one : D → Bool
  pub is_nan : D → Bool
  -- `std::abs(a - 1.) < 1e-10`
  pub is_full_load : D → Bool

-- The calls of SolveStep: PredictNextState and ResetConstraints; from ResetSolver to SolveSystem;
-- CalculateConvergenceError; UpdateStatePrediction and UpdateConstraintPrediction; and what follows
-- the loop.
pub record Phases (D X : Type 0) : Type 0 where
  pub predict : State D × X → State D × X
  pub solve_system : State D × X → State D × X
  pub convergence_error : State D × X → D
  pub update : State D × X → State D × X
  pub finish : State D × X → State D × X

module _ {D X : Type 0} (ops : Double D) (phases : Phases D X) where
  unfoldable pub run : (State D × X → State D × X) → World D X → World D X
  run phase w = let after = phase (w.state, w.rest) in record w { state = after.0; rest = after.1 }

  -- One round of the loop: the error, and the world after it.
  unfoldable pub iterate : World D X → D × World D X
  iterate w =
      let solved = run phases.solve_system w in
      let err = phases.convergence_error (solved.state, solved.rest) in
      let recorded = record solved { convergence_err = solved.convergence_err ++ (err ∷ []) } in
      (err, run phases.update recorded)

  -- `for (iter = 0U; err > 1.; ++iter)` with `max_iter - iter` rounds left. The Boolean says whether
  -- the loop ended by its own condition.
  unfoldable pub iterations : ℕ → D → World D X → Bool × D × World D X
  iterations zero err w = if ops.exceeds_one err then (false, err, w) else (true, err, w)
  iterations (suc left) err w =
      let next = iterate w in
      let rest = iterations left next.0 next.1 in
      if ops.exceeds_one err then rest else (true, err, w)

  unfoldable pub solve_step : ℕ → World D X → Bool × World D X
  solve_step max_iter w =
      let start = record (run phases.predict w) { convergence_err = [] } in
      let (ended, err, after) = iterations max_iter ops.thousand start in
      if ended then (not (ops.is_nan err), run phases.finish after) else (false, after)

  unfoldable pub scale_loads : View2 D → D → World D X → World D X
  scale_loads baseline factor w = record w {
    state = record (w.state) { f = λ i k. ops.mul (baseline i k) factor };
  }

  -- The variables of the load reduction.
  pub record Search : Type 0 where
    pub world : World D X
    pub last_converged : State D
    pub load_factor_low : D
    pub load_factor_current : D
    pub load_factor_high : D

  unfoldable pub converged_search : Search → World D X → Search
  converged_search s w = record s {
    world = w;
    last_converged = copy_state_data s.last_converged w.state;
    load_factor_low = s.load_factor_current;
    load_factor_current = ops.one;
  }

  unfoldable pub failed_search : Search → World D X → Search
  failed_search s w = record s {
    world = record w { state = copy_state_data w.state s.last_converged };
    load_factor_high = s.load_factor_current;
    load_factor_current = ops.middle s.load_factor_low s.load_factor_current;
  }

  -- The loop over the retries. The result says whether the full load was solved.
  unfoldable pub reduce_load : ℕ → ℕ → View2 D → Search → Bool × Search
  reduce_load max_iter zero baseline s = (false, s)
  reduce_load max_iter (suc retries) baseline s =
      let (converged, w) =
        solve_step max_iter (scale_loads baseline s.load_factor_current s.world) in
      let next = if converged then converged_search s w else failed_search s w in
      let rest = reduce_load max_iter retries baseline next in
      let done = record s {
        world = w;
        last_converged = copy_state_data s.last_converged w.state;
      } in
      if converged && ops.is_full_load s.load_factor_current then (true, done) else rest

  -- The variables before the first attempt. `fresh` is what the clone of the state holds before it is
  -- written.
  unfoldable pub start_search : State D → World D X → Search
  start_search fresh w = record {
    world = w;
    last_converged = clone_state ops.one fresh w.state;
    load_factor_low = ops.zero_double;
    load_factor_current = ops.one;
    load_factor_high = ops.one;
  }

  -- Step
  unfoldable pub step : Bool → ℕ → ℕ → State D → World D X → Bool × World D X
  step is_dynamic_solve max_iter static_load_retries fresh w =
      let (solved, s) = reduce_load max_iter static_load_retries w.state.f (start_search fresh w) in
      if is_dynamic_solve then solve_step max_iter w else (solved, s.world)
