-- ===== src/Base/Views.antt =====
-- A Kokkos view is a function of its index: a read is a call, and a write makes a new function.
-- What a view holds before its first write is whatever function it is given.
use Prim.Native.Nat.{ℕ, zero, suc, ◌+◌, ◌<◌, ◌≤◌}
use mathlib.Core.Path.{◌≡◌, refl, ap, ap₂, ◌∙◌, subst}
use mathlib.Core.Logic.{◌≢◌}
use mathlib.Core.List.{List, [], ◌∷◌, ◌++◌}
use native.Mathlib.Omega.{arith}
use native.Mathlib.Nat.{add-zero}
use kynema_fmb.Base.Tests.{◌==◌, ==_refl, ==_ne, if◌then◌else◌}
use kynema_fmb.Base.Lists.{length}

abbrev pub View {ℓ} : Type ℓ → Type ℓ
View A = ℕ → A

module _ {ℓ} {A : Type ℓ} where
  unfoldable pub write : View A → ℕ → A → View A
  write v i a j = if i == j then a else v j

  pub write_self : (v : View A) (i : ℕ) (a : A) → write v i a i ≡ a
  unfolding write
  write_self v i a = rw (==_refl i)

  pub write_ne : (v : View A) (i j : ℕ) (a : A) → i ≢ j → write v i a j ≡ v j
  unfolding write
  write_ne v i j a h = rw (==_ne i j h)

  -- Consecutive writes, the first at index `start`.
  unfoldable pub write_list : View A → ℕ → List A → View A
  write_list v start [] = v
  write_list v start (x ∷ xs) = write_list (write v start x) (suc start) xs

  -- From index `start` on the view holds the elements of the list.
  abbrev pub Holds : View A → ℕ → List A → Type ℓ
  Holds v start [] = Unit
  Holds v start (x ∷ xs) = (v start ≡ x) × Holds v (suc start) xs

  pub write_list_before :
      (v : View A) (start j : ℕ) (xs : List A) → j < start → write_list v start xs j ≡ v j
  unfolding write_list
  write_list_before v start j [] h = refl
  write_list_before v start j (x ∷ xs) h =
      write_list_before (write v start x) (suc start) j xs (omega arith)
      ∙ write_ne v start j x (omega arith)

  pub write_list_after :
      (v : View A) (start j : ℕ) (xs : List A)
      → start + length xs ≤ j
      → write_list v start xs j ≡ v j
  unfolding write_list
  write_list_after v start j [] h = refl
  write_list_after v start j (x ∷ xs) h =
      write_list_after (write v start x) (suc start) j xs (omega arith)
      ∙ write_ne v start j x (omega arith)

  pub Holds-write_list :
      (v : View A) (start : ℕ) (xs : List A) → Holds (write_list v start xs) start xs
  unfolding write_list
  Holds-write_list v start [] = tt
  Holds-write_list v start (x ∷ xs) = (
    write_list_before (write v start x) (suc start) start xs (omega arith) ∙ write_self v start x,
    Holds-write_list (write v start x) (suc start) xs,
  )

  -- What is held depends only on the indices that the list takes up.
  pub Holds_congr :
      (v w : View A) (start : ℕ) (xs : List A)
      → ((j : ℕ) → start ≤ j → j < start + length xs → w j ≡ v j)
      → Holds v start xs
      → Holds w start xs
  Holds_congr v w start [] same h = tt
  Holds_congr v w start (x ∷ xs) same (h, hs) = (
    same start (omega arith) (omega arith) ∙ h,
    Holds_congr v w (suc start) xs (λ j lo hi. same j (omega arith) (omega arith)) hs,
  )

  pub Holds-append :
      (v : View A) (start : ℕ) (xs ys : List A)
      → Holds v start xs
      → Holds v (start + length xs) ys
      → Holds v start (xs ++ ys)
  Holds-append v start [] ys h k = subst (λ s. Holds v s ys) (add-zero start) k
  Holds-append v start (x ∷ xs) ys (h, hs) k =
      (h, Holds-append v (suc start) xs ys hs (subst (λ s. Holds v s ys) (omega arith) k))

  pub write_list-append :
      (v : View A) (start : ℕ) (xs ys : List A)
      → write_list v start (xs ++ ys) ≡ write_list (write_list v start xs) (start + length xs) ys
  unfolding write_list
  write_list-append v start [] ys = rw (add-zero start)
  write_list-append v start (x ∷ xs) ys =
      write_list-append (write v start x) (suc start) xs ys
      ∙ ap (λ s. write_list (write_list (write v start x) (suc start) xs) s ys) (omega arith)

  -- A view that holds a list, read back.
  unfoldable pub segment : View A → ℕ → ℕ → List A
  segment v start zero = []
  segment v start (suc n) = v start ∷ segment v (suc start) n

  pub segment-Holds :
      (v : View A) (start : ℕ) (xs : List A) → Holds v start xs → segment v start (length xs) ≡ xs
  unfolding segment
  segment-Holds v start [] h = refl
  segment-Holds v start (x ∷ xs) (h, hs) = ap₂ ◌∷◌ h (segment-Holds v (suc start) xs hs)

-- Views of two and three indices.
abbrev pub View2 {ℓ} : Type ℓ → Type ℓ
View2 A = ℕ → ℕ → A

abbrev pub View3 {ℓ} : Type ℓ → Type ℓ
View3 A = ℕ → ℕ → ℕ → A

unfoldable pub write2 {ℓ} : {A : Type ℓ} → View2 A → ℕ → ℕ → A → View2 A
unfolding write
write2 v i j a = write v i (write (v i) j a)

unfoldable pub write3 {ℓ} : {A : Type ℓ} → View3 A → ℕ → ℕ → ℕ → A → View3 A
unfolding write
write3 v i j k a = write v i (write2 (v i) j k a)

-- A `std::vector` or `std::span`: how many elements it has, and what they are.
pub record Vector {ℓ} (A : Type ℓ) : Type ℓ where
  pub size : ℕ
  pub at : View A

unfoldable pub push_back {ℓ} : {A : Type ℓ} → Vector A → A → Vector A
unfolding write
push_back v a = record { size = suc v.size; at = write v.at v.size a }

module _ {ℓ} {A : Type ℓ} where
  pub write2_self : (v : View2 A) (i j : ℕ) (a : A) → write2 v i j a i j ≡ a
  unfolding write2
  write2_self v i j a = rw (==_refl i, ==_refl j)

  -- A write to another row or another column changes nothing.
  pub write2_row : (v : View2 A) (i j i' j' : ℕ) (a : A) → i ≢ i' → write2 v i j a i' j' ≡ v i' j'
  unfolding write2
  write2_row v i j i' j' a h = rw (==_ne i i' h)

  pub write2_column : (v : View2 A) (i j j' : ℕ) (a : A) → j ≢ j' → write2 v i j a i j' ≡ v i j'
  unfolding write2
  write2_column v i j j' a h = rw (==_refl i, ==_ne j j' h)

  pub write3_self : (v : View3 A) (i j k : ℕ) (a : A) → write3 v i j k a i j k ≡ a
  unfolding write3 write2
  write3_self v i j k a = rw (==_refl i, ==_refl j, ==_refl k)

  pub write3_first :
      (v : View3 A) (i j k i' j' k' : ℕ) (a : A) → i ≢ i' → write3 v i j k a i' j' k' ≡ v i' j' k'
  unfolding write3 write2
  write3_first v i j k i' j' k' a h = rw (==_ne i i' h)

  pub write3_second :
      (v : View3 A) (i j k j' k' : ℕ) (a : A) → j ≢ j' → write3 v i j k a i j' k' ≡ v i j' k'
  unfolding write3 write2
  write3_second v i j k j' k' a h = rw (==_refl i, ==_ne j j' h)

  pub write3_third :
      (v : View3 A) (i j k k' : ℕ) (a : A) → k ≢ k' → write3 v i j k a i j k' ≡ v i j k'
  unfolding write3 write2
  write3_third v i j k k' a h = rw (==_refl i, ==_refl j, ==_ne k k' h)
