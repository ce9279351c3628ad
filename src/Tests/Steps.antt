-- ===== src/Tests/Steps.antt =====
-- Steps whose numbers are natural numbers: every round of the iteration makes the error one smaller.
use kynema_fmb.Base.{ℕ, suc, ◌+◌, ◌-◌, ◌*◌, ◌/◌, ◌≤◌, ◌≡◌, ◌⊎◌, arith, true, false, [], ltb, ◌==◌}
use kynema_fmb.Step.{
  World, Double, Phases, solve_step, scale_loads, start_search, reduce_load, step,
}
use kynema_fmb.Step.Bracket.{IsBracket, reduce_load-IsBracket, step_solved}
use kynema_fmb.Tests.Data.{three_nodes}

abbrev naturals : Double ℕ
naturals = record {
  zero_double = 0;
  one = 1;
  thousand = 1000;
  mul = λ a b. a * b;
  middle = λ a b. (a + b) / 2;
  exceeds_one = λ a. ltb 1 a;
  is_nan = λ a. false;
  is_full_load = λ a. a == 1;
}

abbrev countdown : Phases ℕ ℕ
countdown = record {
  predict = λ p. p;
  solve_system = λ p. (p.0, suc p.1);
  convergence_error = λ p. 4 - p.1;
  update = λ p. p;
  finish = λ p. p;
}

abbrev begun : World ℕ ℕ
begun = record { state = three_nodes; rest = 0; convergence_err = [] }

reduce_load-IsBracket_example :
    IsBracket naturals countdown
      (λ a b. a ≤ b)
      (reduce_load naturals countdown 5 4 three_nodes.f
        (start_search naturals countdown three_nodes begun)).1
unfolding start_search
reduce_load-IsBracket_example =
    reduce_load-IsBracket naturals countdown (λ a b. a ≤ b) 5 4 three_nodes.f
      (start_search naturals countdown three_nodes begun) (λ a. omega arith)
      (λ a b c le le'. omega arith) (λ a b le. (omega arith, omega arith))
      (record { low = omega arith; between = omega arith; full = omega arith })

step_solved_example :
    let r = step naturals countdown false 5 4 three_nodes begun in
    ((r.0 ≡ false)
      ⊎ ((r.0 ≡ true)
          × (before : World ℕ ℕ) × (factor : ℕ) × (naturals.is_full_load factor ≡ true)
          × (solve_step naturals countdown 5
                (scale_loads naturals countdown three_nodes.f factor before)
              ≡ (true, r.1))))
    × (step naturals countdown true 5 4 three_nodes begun ≡ solve_step naturals countdown 5 begun)
step_solved_example = step_solved naturals countdown 5 4 three_nodes begun
