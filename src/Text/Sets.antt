-- ===== src/Text/Sets.antt =====
-- Lists of strings as sets: membership, distinct items, and the sorted list of a set.
use dsh_podman.Prelude.{
  ◌≡◌, refl, sym, ap, ◌∙◌, inl, inr, true, false, List, [], ◌∷◌, ◌++◌, arith, All, Bool-cases, ◌||◌,
  subst,
}
use dsh_podman.Prelude.Sort.{insert, sort, IsSorted}
use dsh_podman.Text.{Text, ◌===◌, includes, text_le}
use dsh_podman.Text.Laws.{===_iff, ===_refl}
use dsh_podman.Text.Order.{text_le_total, text_le_antisymm}

-- No string stands twice.
abbrev pub Distinct : List Text → Type 0
Distinct [] = Unit
Distinct (x ∷ xs) = (includes x xs ≡ false) × Distinct xs

pub includes-nil : (a : Text) → includes a [] ≡ false
unfolding includes
includes-nil a = refl

pub includes-cons : (a x : Text) (xs : List Text) → includes a (x ∷ xs) ≡ (a === x || includes a xs)
unfolding includes
includes-cons a x xs = refl

pub includes-append :
    (a : Text) (xs ys : List Text) → includes a (xs ++ ys) ≡ (includes a xs || includes a ys)
unfolding includes
includes-append a [] ys = refl
includes-append a (x ∷ xs) ys = ground (arith, includes-append a xs ys)

pub All-includes :
    (P : Text → Type 0) (a : Text) (xs : List Text) → All P xs → includes a xs ≡ true → P a
All-includes P a [] h e = absurd (unfold includes in ground arith)
All-includes P a (x ∷ xs) (p, h) e = elim (Bool-cases (a === x)) [
  | inl same ↦ subst P (sym ((===_iff a x).0 same)) p
  | inr other ↦ All-includes P a xs h (rw other at (sym (includes-cons a x xs) ∙ e))
]

pub All-of_includes :
    (P : Text → Type 0) (xs : List Text) → ((a : Text) → includes a xs ≡ true → P a) → All P xs
All-of_includes P [] h = tt
All-of_includes P (x ∷ xs) h = (
  h x (includes-cons x x xs ∙ rw (===_refl x)),
  All-of_includes P xs (λ a e. h a (includes-cons a x xs ∙ ground (arith, e))),
)

===_symm : (a b : Text) → (a === b) ≡ (b === a)
===_symm a b = ground (arith, ===_iff a b, ===_iff b a)

includes-insert :
    (a x : Text) (xs : List Text) → includes a (insert text_le x xs) ≡ (a === x || includes a xs)
unfolding insert includes
includes-insert a x [] = refl
includes-insert a x (y ∷ ys) = ground (arith, includes-insert a x ys)

pub includes-sort : (a : Text) (xs : List Text) → includes a (sort text_le xs) ≡ includes a xs
unfolding sort includes
includes-sort a [] = refl
includes-sort a (x ∷ xs) =
    includes-insert a x (sort text_le xs) ∙ ap (λ b. a === x || b) (includes-sort a xs)

insert-Distinct :
    (x : Text) (xs : List Text)
    → includes x xs ≡ false
    → Distinct xs
    → Distinct (insert text_le x xs)
unfolding insert
insert-Distinct x [] h d = (h, d)
insert-Distinct x (y ∷ ys) h (new, d) = elim (Bool-cases (text_le x y)) [
  | inl e ↦ rw e (h, (new, d))
  | inr e ↦ rw e (
    includes-insert y x ys ∙ ground (arith, includes-cons x y ys, ===_symm x y),
    insert-Distinct x ys (ground (arith, includes-cons x y ys)) d,
  )
]

pub sort-Distinct : (xs : List Text) → Distinct xs → Distinct (sort text_le xs)
unfolding sort
sort-Distinct [] d = tt
sort-Distinct (x ∷ xs) (new, d) =
    insert-Distinct x (sort text_le xs) (includes-sort x xs ∙ new) (sort-Distinct xs d)

pub append-Distinct :
    (xs : List Text) (a : Text) → Distinct xs → includes a xs ≡ false → Distinct (xs ++ a ∷ [])
append-Distinct [] a d new = (includes-nil a, tt)
append-Distinct (x ∷ xs) a (first, d) new = (
  includes-append x xs (a ∷ [])
      ∙ ground (arith, includes-cons a x xs, includes-cons x a [], includes-nil x, ===_symm x a),
  append-Distinct xs a d (ground (arith, includes-cons a x xs)),
)

head-le :
    (x y : Text) (xs ys : List Text)
    → All (λ z. text_le y z ≡ true) ys
    → includes x (y ∷ ys) ≡ true
    → text_le y x ≡ true
head-le x y xs ys h e =
    All-includes (λ z. text_le y z ≡ true) x (y ∷ ys) (ground (arith, text_le_total y y), h) e

-- A set has one sorted list.
pub IsSorted-eq_of_includes :
    (xs ys : List Text)
    → IsSorted text_le xs
    → IsSorted text_le ys
    → Distinct xs
    → Distinct ys
    → ((a : Text) → includes a xs ≡ includes a ys)
    → xs ≡ ys
IsSorted-eq_of_includes [] [] s t d e same = refl
IsSorted-eq_of_includes [] (y ∷ ys) s t d e same =
    absurd (ground (arith, same y, includes-nil y, includes-cons y y ys, ===_refl y))
IsSorted-eq_of_includes (x ∷ xs) [] s t d e same =
    absurd (ground (arith, same x, includes-nil x, includes-cons x x xs, ===_refl x))
IsSorted-eq_of_includes (x ∷ xs) (y ∷ ys) (sx, s) (ty, t) (dx, d) (ey, e) same =
    let heads : x ≡ y =
      text_le_antisymm x y (head-le y x xs xs sx (same y ∙ includes-cons y y ys ∙ rw (===_refl y)))
        (head-le x y xs ys ty (sym (same x) ∙ includes-cons x x xs ∙ rw (===_refl x))) in
    cc (heads, IsSorted-eq_of_includes xs ys s t d e (tails heads))
  where
    tails : x ≡ y → (a : Text) → includes a xs ≡ includes a ys
    tails h a = elim (Bool-cases (a === x)) [
      | inl k ↦ rw ((===_iff a x).0 k) (dx ∙ sym (rw (← h) at ey))
      | inr k ↦
          ground (arith, same a, includes-cons a x xs, includes-cons a y ys, ap (λ z. a === z) h)
    ]

-- What is outside a list and differs from an item is outside the list with that item.
pub not-includes-append :
    (seen : List Text) (p : Text) (rest : List Text)
    → All (λ q. includes q seen ≡ false) rest
    → includes p rest ≡ false
    → All (λ q. includes q (seen ++ p ∷ []) ≡ false) rest
not-includes-append seen p [] h n = tt
not-includes-append seen p (q ∷ rest) (k, h) n = (
  includes-append q seen (p ∷ [])
      ∙ ground (arith, includes-cons q p [], includes-nil q, includes-cons p q rest, ===_symm p q),
  not-includes-append seen p rest h (ground (arith, includes-cons p q rest)),
)
