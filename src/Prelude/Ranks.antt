-- ===== src/Prelude/Ranks.antt =====
-- A stable sort by a rank: the classes of the ranks one after another, each in its order.
use Prim.Native.Nat.{ℕ, zero, suc, ◌<◌}
use mathlib.Core.Path.{◌≡◌, refl, sym, ap, ◌∙◌}
use mathlib.Core.Bool.{Bool, true, false, not}
use mathlib.Core.List.{List, [], ◌∷◌, ◌++◌}
use mathlib.Core.Logic.{inl, inr}
use native.Mathlib.Omega.{arith}
use dsh_podman.Prelude.Tests.{Bool-cases, leb, ltb, ◌==◌, leb_total}
use dsh_podman.Prelude.Lists.{All, All-imp, All-of_forall, filter, filter_of_All}
use dsh_podman.Prelude.Sort.{sort, IsSorted, sort-IsSorted, sort-All, filter-sort}

module _ {ℓ} {A : Type ℓ} where
  pub filter-none : (t : A → Bool) (xs : List A) → All (λ x. t x ≡ false) xs → filter t xs ≡ []
  filter-none t [] h = refl
  filter-none t (x ∷ xs) (p, h) = rw p (filter-none t xs h)

  -- A sorted list is split by a test that goes with the order.
  pub IsSorted-filter_split :
      (le : A → A → Bool) (t : A → Bool)
      → ((a b : A) → le a b ≡ true → t b ≡ true → t a ≡ true)
      → (xs : List A) → IsSorted le xs
      → xs ≡ filter t xs ++ filter (λ x. not (t x)) xs
  IsSorted-filter_split le t down [] h = refl
  IsSorted-filter_split le t down (x ∷ xs) (h, hs) = elim (Bool-cases (t x)) [
    | inl e ↦ rw e (ap (λ ys. x ∷ ys) (IsSorted-filter_split le t down xs hs))
    | inr e ↦
        let none_above : All (λ y. t y ≡ false) xs = All-imp (λ y p. above y p e) xs h in
        rw e (
          rw (filter-none t xs none_above) (
            ap (λ ys. x ∷ ys)
              (sym (filter_of_All (λ y. not (t y)) xs (All-imp (λ y p. rw p) xs none_above)))))
  ]
    where
      above : (y : A) → le x y ≡ true → t x ≡ false → t y ≡ false
      above y p e = elim (Bool-cases (t y)) [
        | inl f ↦ absurd (ground (arith, down x y p f))
        | inr f ↦ f
      ]

module _ {ℓ} {A : Type ℓ} (rank : A → ℕ) where
  abbrev pub rank_le : A → A → Bool
  rank_le a b = leb (rank a) (rank b)

  -- The members of ranks below a bound, class by class.
  abbrev pub classes : ℕ → List A → List A
  classes zero xs = []
  classes (suc n) xs = classes n xs ++ filter (λ x. rank x == n) xs

  filter-below_suc :
      (n : ℕ) (xs : List A)
      → IsSorted rank_le xs
      → filter (λ x. ltb (rank x) (suc n)) xs
        ≡ filter (λ x. ltb (rank x) n) xs ++ filter (λ x. rank x == n) xs
  filter-below_suc n [] h = refl
  filter-below_suc n (x ∷ xs) (h, hs) = elim (Bool-cases (ltb (rank x) n)) [
    | inl e ↦ ground (arith, filter-below_suc n xs hs)
    | inr e ↦ ground (
      arith,
      filter-below_suc n xs hs,
      filter-none (λ y. ltb (rank y) n) xs (All-imp (λ y p. ground arith) xs h),
    )
  ]

  classes-below :
      (n : ℕ) (xs : List A) → IsSorted rank_le xs → classes n xs ≡ filter (λ x. ltb (rank x) n) xs
  classes-below zero xs h = sym (
      filter-none (λ x. ltb (rank x) 0) xs
        (All-of_forall (λ x. ltb (rank x) 0 ≡ false) (λ x. ground arith) xs))
  classes-below (suc n) xs h =
      ap (λ ys. ys ++ filter (λ x. rank x == n) xs) (classes-below n xs h)
      ∙ sym (filter-below_suc n xs h)

  classes-sort : (n : ℕ) (xs : List A) → classes n (sort rank_le xs) ≡ classes n xs
  classes-sort zero xs = refl
  classes-sort (suc n) xs =
      rw (classes-sort n xs)
        (rw (filter-sort rank_le (λ x. rank x == n) (λ a b p q. ground arith) xs))

  -- Sorting by rank lists the classes in order, and keeps the order inside each class.
  pub sort-classes :
      (n : ℕ) (xs : List A) → All (λ x. rank x < n) xs → sort rank_le xs ≡ classes n xs
  sort-classes n xs h =
      sym (
        filter_of_All (λ x. ltb (rank x) n) (sort rank_le xs)
          (sort-All rank_le (λ x. ltb (rank x) n ≡ true) xs (All-imp (λ x p. ground arith) xs h)))
      ∙ sym (
          classes-below n (sort rank_le xs) (
            sort-IsSorted rank_le (λ a b. leb_total (rank a) (rank b)) (λ a b c p q. ground arith)
              xs))
      ∙ classes-sort n xs
