-- ===== src/Step/Iterations.antt =====
-- How SolveStep ends: within its limit on iterations, and with success exactly if the last error is
-- small and a number.
use kynema_fmb.Base.{ℕ, suc, ◌≤◌, ◌≡◌, true, false, List, [], ◌∷◌, ◌++◌, All, length}
use kynema_fmb.Step.{Double, Phases}

module _ {D X : Type 0} (ops : Double D) (phases : Phases D X) where
  -- The rounds of a loop with `left` of them: some errors above one, then a last one that is not; or
  -- all rounds used, with every error above one.
  abbrev pub EndedSmall : List D → ℕ → D → List D → Type 0
  EndedSmall history left last old =
      (before : List D) × (history ≡ old ++ (before ++ (last ∷ [])))
      × All (λ err. ops.exceeds_one err ≡ true) before
      × (ops.exceeds_one last ≡ false)
      × (suc (length before) ≤ left)

  abbrev pub UsedUp : List D → ℕ → List D → Type 0
  UsedUp history left old =
      (errors : List D) × (history ≡ old ++ errors)
      × All (λ err. ops.exceeds_one err ≡ true) errors
      × (length errors ≡ left)
