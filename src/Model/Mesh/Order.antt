-- ===== src/Model/Mesh/Order.antt =====
-- Sorted keys: what `std::ranges::sort` leaves of the keys of a map does not depend on the order in
-- which the map is walked.
use kynema_fmb.Base.{
  ℕ, ◌≡◌, ◌≢◌, ◌<◌, refl, sym, subst, arith, List, [], ◌∷◌, none, leb, if◌then◌else◌, ◌∈◌, inl, inr,
  Bool-cases, ◌↔◌, ◌⊎◌, All, All-mem,
}
use mathlib.Core.Path.{ap₂}
use kynema_fmb.Model.Maps.{Dict, lookup, keys, NodupKeys, mem-keys}

unfoldable pub insert_sorted : ℕ → List ℕ → List ℕ
insert_sorted a [] = a ∷ []
insert_sorted a (x ∷ xs) = if leb a x then a ∷ (x ∷ xs) else x ∷ insert_sorted a xs

unfoldable pub sort : List ℕ → List ℕ
sort [] = []
sort (x ∷ xs) = insert_sorted x (sort xs)

-- Every element is below all that follow.
abbrev pub Ascending : List ℕ → Type 0
Ascending [] = Unit
Ascending (x ∷ xs) = All (λ y. x < y) xs × Ascending xs

pub mem-insert_sorted : (a b : ℕ) (xs : List ℕ) → (a ∈ insert_sorted b xs) ↔ ((a ≡ b) ⊎ (a ∈ xs))
unfolding insert_sorted
mem-insert_sorted a b [] = ground arith
mem-insert_sorted a b (x ∷ xs) = ground (arith, mem-insert_sorted a b xs)

pub mem-sort : (a : ℕ) (xs : List ℕ) → (a ∈ sort xs) ↔ (a ∈ xs)
unfolding sort
mem-sort a [] = (λ h. h, λ h. h)
mem-sort a (x ∷ xs) = ground (arith, mem-insert_sorted a x (sort xs), mem-sort a xs)

All-lookup : (P : ℕ → Type 0) (xs : List ℕ) → All P xs → (a : ℕ) → a ∈ xs → P a
All-lookup P [] h a m = absurd m
All-lookup P (x ∷ xs) (p, h) a (inl e) = subst P (sym e) p
All-lookup P (x ∷ xs) (p, h) a (inr m) = All-lookup P xs h a m

insert_sorted-Ascending :
    (a : ℕ) (xs : List ℕ)
    → ((b : ℕ) → b ∈ xs → a ≢ b)
    → Ascending xs
    → Ascending (insert_sorted a xs)
unfolding insert_sorted
insert_sorted-Ascending a [] new h = (tt, tt)
insert_sorted-Ascending a (x ∷ xs) new (below, h) = elim (Bool-cases (leb a x)) [
  | inl e ↦
      let lt : a < x = ground (arith, new x (inl refl)) in
      rw e (
        (lt, All-mem (λ y. a < y) xs (λ b m. omega (arith, All-lookup (λ y. x < y) xs below b m))),
        (below, h),
      )
  | inr e ↦ rw e (
    All-mem (λ y. x < y) (insert_sorted a xs)
        (λ b m. elim ((mem-insert_sorted b a xs).0 m) [
          | inl same ↦ ground arith
          | inr old ↦ All-lookup (λ y. x < y) xs below b old
        ]),
    insert_sorted-Ascending a xs (λ b m. new b (inr m)) h,
  )
]

pub sort-keys-Ascending : {V : Type 0} (d : Dict V) → NodupKeys d → Ascending (sort (keys d))
unfolding sort keys
sort-keys-Ascending [] u = tt
sort-keys-Ascending ((k, v) ∷ d) (fresh, u) =
    insert_sorted-Ascending k (sort (keys d))
      (λ b m e.
        (mem-keys b d).0 ((mem-sort b (keys d)).0 m) (subst (λ j. lookup j d ≡ none) e fresh))
      (sort-keys-Ascending d u)

-- Two ascending lists with the same elements are one list.
pub Ascending-ext :
    (xs ys : List ℕ) → Ascending xs → Ascending ys → ((a : ℕ) → (a ∈ xs) ↔ (a ∈ ys)) → xs ≡ ys
Ascending-ext [] [] p q same = refl
Ascending-ext [] (y ∷ ys) p q same = absurd ((same y).1 (inl refl))
Ascending-ext (x ∷ xs) [] p q same = absurd ((same x).0 (inl refl))
Ascending-ext (x ∷ xs) (y ∷ ys) (px, p) (py, q) same =
    let heads : x ≡ y = first ((same x).0 (inl refl)) ((same y).1 (inl refl)) in
    ap₂ ◌∷◌ heads (
      Ascending-ext xs ys p q (λ a. (
        λ m. later_right a heads m ((same a).0 (inr m)),
        λ m. later_left a heads m ((same a).1 (inr m)),
      )))
  where
    first : (x ≡ y) ⊎ (x ∈ ys) → (y ≡ x) ⊎ (y ∈ xs) → x ≡ y
    first (inl e) r = e
    first (inr m) (inl e) = sym e
    first (inr m) (inr n) =
        absurd (omega (arith, All-lookup (λ b. y < b) ys py x m, All-lookup (λ b. x < b) xs px y n))

    later_right : (a : ℕ) → x ≡ y → a ∈ xs → (a ≡ y) ⊎ (a ∈ ys) → a ∈ ys
    later_right a h m (inl e) = absurd (omega (arith, All-lookup (λ b. x < b) xs px a m))
    later_right a h m (inr n) = n

    later_left : (a : ℕ) → x ≡ y → a ∈ ys → (a ≡ x) ⊎ (a ∈ xs) → a ∈ xs
    later_left a h m (inl e) = absurd (omega (arith, All-lookup (λ b. y < b) ys py a m))
    later_left a h m (inr n) = n

-- Two maps with the same entries have the same sorted keys.
pub sort-keys_congr :
    {V : Type 0} (d e : Dict V)
    → NodupKeys d
    → NodupKeys e
    → ((k : ℕ) → lookup k d ≡ lookup k e)
    → sort (keys d) ≡ sort (keys e)
sort-keys_congr d e u w same =
    Ascending-ext (sort (keys d)) (sort (keys e)) (sort-keys-Ascending d u)
      (sort-keys-Ascending e w)
      (λ k.
        ground
          (arith, mem-sort k (keys d), mem-sort k (keys e), mem-keys k d, mem-keys k e, same k))
