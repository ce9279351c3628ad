-- ===== src/Solver/Assembly/Terms.antt =====
-- Additions into a vector as a list of pairs of an entry and a value, in their order.
use kynema_fmb.Base.{
  ℕ, zero, suc, ◌<◌, ◌≡◌, refl, ap, ◌∙◌, sym, arith, List, [], ◌∷◌, ◌++◌, map, View, write,
  write_self, write_ne, parallel_for, collect, All, All-append, ◌==◌, ==_iff, if◌then◌else◌,
  Bool-cases, inl, inr, subst,
}
use kynema_fmb.Solver.Assembly.{accumulate}

pub collect_congr :
    {A : Type 0} (n : ℕ) (f g : ℕ → List A)
    → ((k : ℕ) → k < n → f k ≡ g k)
    → collect n f ≡ collect n g
collect_congr zero f g same = refl
collect_congr (suc n) f g same =
    rw (collect_congr n f g (λ k lt. same k (omega arith)), same n (omega arith)) refl

pub map-append :
    {A B : Type 0} (g : A → B) (xs ys : List A) → map g (xs ++ ys) ≡ map g xs ++ map g ys
map-append g [] ys = refl
map-append g (x ∷ xs) ys = ap (◌∷◌ (g x)) (map-append g xs ys)

pub map-collect :
    {A B : Type 0} (g : A → B) (n : ℕ) (f : ℕ → List A)
    → map g (collect n f) ≡ collect n (λ k. map g (f k))
map-collect g zero f = refl
map-collect g (suc n) f =
    map-append g (collect n f) (f n) ∙ ap (λ xs. xs ++ map g (f n)) (map-collect g n f)

pub All-collect :
    {A : Type 0} (P : A → Type 0) (n : ℕ) (f : ℕ → List A)
    → ((k : ℕ) → k < n → All P (f k))
    → All P (collect n f)
All-collect P zero f h = tt
All-collect P (suc n) f h =
    All-append P (collect n f) (f n) (All-collect P n f (λ k lt. h k (omega arith)))
      (h n (omega arith))

module _ {D : Type 0} where
  -- The values that a list of additions brings to an entry.
  unfoldable pub values_at : ℕ → List (ℕ × D) → List D
  values_at e [] = []
  values_at e ((entry, value) ∷ l) = if entry == e then value ∷ values_at e l else values_at e l

module _ {D : Type 0} (add : D → D → D) where
  unfoldable pub scatter : List (ℕ × D) → View D → View D
  scatter [] v = v
  scatter ((entry, value) ∷ l) v = scatter l (accumulate add entry value v)

  -- A value and then those of a list, added in turn.
  unfoldable pub total : D → List D → D
  total x [] = x
  total x (a ∷ l) = total (add x a) l

  pub scatter-append :
      (xs ys : List (ℕ × D)) (v : View D) → scatter (xs ++ ys) v ≡ scatter ys (scatter xs v)
  unfolding scatter
  scatter-append [] ys v = refl
  scatter-append ((entry, value) ∷ xs) ys v = scatter-append xs ys (accumulate add entry value v)

  -- An entry has what it had and the values that are brought to it, added in their order.
  pub scatter_entry :
      (l : List (ℕ × D)) (v : View D) (e : ℕ) → scatter l v e ≡ total (v e) (values_at e l)
  unfolding scatter total values_at accumulate
  scatter_entry [] v e = refl
  scatter_entry ((entry, value) ∷ l) v e = elim (Bool-cases (entry == e)) [
    | inl h ↦
        let same = (==_iff entry e).0 h in
        let here : accumulate add entry value v e ≡ add (v e) value =
          subst (λ k. write v entry (add (v entry) value) k ≡ add (v k) value) same
            (write_self v entry (add (v entry) value)) in
        rw h (
          scatter_entry l (accumulate add entry value v) e ∙ ap (λ x. total x (values_at e l)) here)
    | inr h ↦ rw h (
        scatter_entry l (accumulate add entry value v) e
        ∙ ap (λ x. total x (values_at e l))
            (write_ne v entry e (add (v entry) value) (ground arith)))
  ]

  -- A loop of rounds that add is one list of additions.
  pub parallel_for-scatter :
      (n : ℕ) (f : ℕ → List (ℕ × D)) (body : ℕ → View D → View D) (v : View D)
      → ((k : ℕ) (w : View D) → k < n → body k w ≡ scatter (f k) w)
      → parallel_for n body v ≡ scatter (collect n f) v
  unfolding parallel_for scatter
  parallel_for-scatter zero f body v same = refl
  parallel_for-scatter (suc n) f body v same =
      same n (parallel_for n body v) (omega arith)
      ∙ ap (scatter (f n)) (parallel_for-scatter n f body v (λ k w lt. same k w (omega arith)))
      ∙ sym (scatter-append (collect n f) (f n) v)
