-- ===== src/Solver/Assembly/Flat.antt =====
-- A loop over one index for node and component visits all nodes for each component in turn.
use native.Mathlib.Nat.{mul-add-div, add-mod_left, mod-eq_of_lt, div-eq_of_lt}
use kynema_fmb.Base.{
  ℕ, zero, suc, ◌+◌, ◌*◌, ◌/◌, ◌%◌, ◌<◌, ◌≡◌, refl, ap, ◌∙◌, sym, arith, List, [], ◌∷◌, ◌++◌,
  collect,
}
use kynema_fmb.Solver.Assembly.Terms.{collect_congr}

append_assoc : {A : Type 0} (xs ys zs : List A) → (xs ++ ys) ++ zs ≡ xs ++ (ys ++ zs)
append_assoc [] ys zs = refl
append_assoc (x ∷ xs) ys zs = ap (◌∷◌ x) (append_assoc xs ys zs)

append_nil : {A : Type 0} (xs : List A) → xs ++ [] ≡ xs
append_nil [] = refl
append_nil (x ∷ xs) = ap (◌∷◌ x) (append_nil xs)

collect_split :
    {A : Type 0} (a b : ℕ) (f : ℕ → List A)
    → collect (a + b) f ≡ collect a f ++ collect b (λ j. f (a + j))
collect_split a zero f =
    let e : a + 0 ≡ a = omega arith in ap (λ k. collect k f) e ∙ sym (append_nil (collect a f))
collect_split a (suc b) f =
    let e : a + suc b ≡ suc (a + b) = omega arith in
    ap (λ k. collect k f) e
    ∙ ap (λ xs. xs ++ f (a + b)) (collect_split a b f)
    ∙ append_assoc (collect a f) (collect b (λ j. f (a + j))) (f (a + b))

mod_block : (n m j : ℕ) → j < n → (n * m + j) % n ≡ j
mod_block n zero j lt = let e : n * 0 + j ≡ j = omega arith in ap (λ k. k % n) e ∙ mod-eq_of_lt lt
mod_block n (suc m) j lt =
    let e : n * suc m + j ≡ n + (n * m + j) = omega arith in
    ap (λ k. k % n) e ∙ add-mod_left n (n * m + j) ∙ mod_block n m j lt

div_block : (n m j : ℕ) → j < n → (n * m + j) / n ≡ m
div_block n m j lt =
    let positive : 0 < n = omega arith in omega (arith, mul-add-div positive m j, div-eq_of_lt lt)

pub collect_blocks :
    {A : Type 0} (n m : ℕ) (f : ℕ → ℕ → List A)
    → collect (n * m) (λ k. f (k % n) (k / n)) ≡ collect m (λ c. collect n (λ j. f j c))
collect_blocks n zero f =
    let e : n * 0 ≡ 0 = omega arith in ap (λ k. collect k (λ k. f (k % n) (k / n))) e
collect_blocks n (suc m) f =
    let e : n * suc m ≡ n * m + n = omega arith in
    ap (λ k. collect k (λ k. f (k % n) (k / n))) e
    ∙ collect_split (n * m) n (λ k. f (k % n) (k / n))
    ∙ ap (λ xs. xs ++ collect n (λ j. f ((n * m + j) % n) ((n * m + j) / n))) (collect_blocks n m f)
    ∙ ap (λ xs. collect m (λ c. collect n (λ j. f j c)) ++ xs)
        (collect_congr n _ _ (λ j lt. rw (mod_block n m j lt, div_block n m j lt) refl))
