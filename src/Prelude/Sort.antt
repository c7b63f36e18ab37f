-- ===== src/Prelude/Sort.antt =====
-- `Array.prototype.sort` with a comparator: a stable sort, here by insertion from the right.
-- `le x y` says that the comparator does not put `y` before `x`.
use mathlib.Core.Path.{◌≡◌, refl, ◌∙◌}
use mathlib.Core.Bool.{Bool, true, false, ◌||◌}
use mathlib.Core.List.{List, [], ◌∷◌, Perm}
use mathlib.Core.List.Perm
use mathlib.Core.Logic.{inl, inr}
use native.Mathlib.Omega.{arith}
use dsh_podman.Prelude.Tests.{if◌then◌else◌, Bool-cases}
use dsh_podman.Prelude.Lists.{All, All-imp, filter}

module _ {ℓ} {A : Type ℓ} (le : A → A → Bool) where
  unfoldable pub insert : A → List A → List A
  insert x [] = x ∷ []
  insert x (y ∷ ys) = if le x y then x ∷ y ∷ ys else y ∷ insert x ys

  unfoldable pub sort : List A → List A
  unfolding insert
  sort [] = []
  sort (x ∷ xs) = insert x (sort xs)

  -- Each item stands at or below all that follow it.
  abbrev pub IsSorted : List A → Type 0
  IsSorted [] = Unit
  IsSorted (x ∷ xs) = All (λ y. le x y ≡ true) xs × IsSorted xs

  insert-perm : (x : A) (xs : List A) → Perm (insert x xs) (x ∷ xs)
  unfolding insert
  insert-perm x [] = Perm.refl _
  insert-perm x (y ∷ ys) = elim (Bool-cases (le x y)) [
    | inl e ↦ rw e (Perm.refl _)
    | inr e ↦ rw e (Perm.trans (Perm.cons y (insert-perm x ys)) (Perm.swap x y ys))
  ]

  pub sort-perm : (xs : List A) → Perm (sort xs) xs
  unfolding sort
  sort-perm [] = Perm.refl _
  sort-perm (x ∷ xs) = Perm.trans (insert-perm x (sort xs)) (Perm.cons x (sort-perm xs))

  insert-All {κ} : (P : A → Type κ) (x : A) (xs : List A) → P x → All P xs → All P (insert x xs)
  unfolding insert
  insert-All P x [] p h = (p, tt)
  insert-All P x (y ∷ ys) p (q, h) = elim (Bool-cases (le x y)) [
    | inl e ↦ rw e (p, (q, h))
    | inr e ↦ rw e (q, insert-All P x ys p h)
  ]

  pub sort-All {κ} : (P : A → Type κ) (xs : List A) → All P xs → All P (sort xs)
  unfolding sort
  sort-All P [] h = tt
  sort-All P (x ∷ xs) (p, h) = insert-All P x (sort xs) p (sort-All P xs h)

  -- A sorted list is left as it is.
  pub sort_of_IsSorted : (xs : List A) → IsSorted xs → sort xs ≡ xs
  unfolding sort
  sort_of_IsSorted [] h = refl
  sort_of_IsSorted (x ∷ []) h = refl
  sort_of_IsSorted (x ∷ y ∷ ys) ((p, _), h) = rw (sort_of_IsSorted (y ∷ ys) h) (rw (p, insert))

  module _ (total : (a b : A) → (le a b || le b a) ≡ true)
      (le_trans : (a b c : A) → le a b ≡ true → le b c ≡ true → le a c ≡ true) where
    insert-IsSorted : (x : A) (xs : List A) → IsSorted xs → IsSorted (insert x xs)
    unfolding insert
    insert-IsSorted x [] h = (tt, tt)
    insert-IsSorted x (y ∷ ys) (h, hs) = elim (Bool-cases (le x y)) [
      | inl e ↦ rw e ((e, All-imp (λ z p. le_trans x y z e p) ys h), (h, hs))
      | inr e ↦ rw e (
        insert-All (λ z. le y z ≡ true) x ys (ground (arith, total x y)) h,
        insert-IsSorted x ys hs,
      )
    ]

    pub sort-IsSorted : (xs : List A) → IsSorted (sort xs)
    unfolding sort
    sort-IsSorted [] = tt
    sort-IsSorted (x ∷ xs) = insert-IsSorted x (sort xs) (sort-IsSorted xs)

    pub sort_idem : (xs : List A) → sort (sort xs) ≡ sort xs
    sort_idem xs = sort_of_IsSorted (sort xs) (sort-IsSorted xs)

  -- Stability: a class whose members do not pass one another keeps its order.
  module _ (t : A → Bool) (tied : (a b : A) → t a ≡ true → t b ≡ true → le a b ≡ true) where
    filter-insert_in : (x : A) (xs : List A) → t x ≡ true → filter t (insert x xs) ≡ x ∷ filter t xs
    unfolding insert
    filter-insert_in x [] e = rw e
    filter-insert_in x (y ∷ ys) e = elim (Bool-cases (le x y)) [
      | inl h ↦ ground arith
      | inr h ↦ ground (arith, tied x y e, filter-insert_in x ys e)
    ]

    filter-insert_out : (x : A) (xs : List A) → t x ≡ false → filter t (insert x xs) ≡ filter t xs
    unfolding insert
    filter-insert_out x [] e = rw e
    filter-insert_out x (y ∷ ys) e = ground (arith, filter-insert_out x ys e)

    pub filter-sort : (xs : List A) → filter t (sort xs) ≡ filter t xs
    unfolding sort
    filter-sort [] = refl
    filter-sort (x ∷ xs) = elim (Bool-cases (t x)) [
      | inl e ↦ filter-insert_in x (sort xs) e ∙ ground (arith, filter-sort xs)
      | inr e ↦ filter-insert_out x (sort xs) e ∙ ground (arith, filter-sort xs)
    ]
