-- ===== src/Prelude/Lists.antt =====
-- Lists under Boolean tests and native numbers, and predicates that hold of every item.
use Prim.Native.Nat.{ℕ, zero, suc, ◌+◌, min}
use mathlib.Core.Path.{◌≡◌, refl, ap, subst}
use mathlib.Core.Option.{some-injective}
use mathlib.Core.Logic.{inl, inr}
use mathlib.Core.Bool.{Bool, true, false, ◌&&◌, ◌||◌}
use mathlib.Core.Option.{Option, none, some}
use mathlib.Core.List.{List, [], ◌∷◌, ◌++◌, map}
use native.Mathlib.Omega.{arith}
use dsh_podman.Prelude.Tests.{if◌then◌else◌, Bool-cases, ◌==◌}

module _ {ℓ} {A : Type ℓ} where
  abbrev pub length : List A → ℕ
  length [] = 0
  length (x ∷ xs) = suc (length xs)

  abbrev pub take : ℕ → List A → List A
  take zero xs = []
  take (suc n) [] = []
  take (suc n) (x ∷ xs) = x ∷ take n xs

  abbrev pub drop : ℕ → List A → List A
  drop zero xs = xs
  drop (suc n) [] = []
  drop (suc n) (x ∷ xs) = drop n xs

  abbrev pub replicate : ℕ → A → List A
  replicate zero a = []
  replicate (suc n) a = a ∷ replicate n a

  abbrev pub all : (A → Bool) → List A → Bool
  all p [] = true
  all p (x ∷ xs) = p x && all p xs

  abbrev pub any : (A → Bool) → List A → Bool
  any p [] = false
  any p (x ∷ xs) = p x || any p xs

  -- `xs.filter(p)`
  abbrev pub filter : (A → Bool) → List A → List A
  filter p [] = []
  filter p (x ∷ xs) = if p x then x ∷ filter p xs else filter p xs

  -- `xs.find(p)`
  abbrev pub find? : (A → Bool) → List A → Option A
  find? p [] = none
  find? p (x ∷ xs) = if p x then some x else find? p xs

  pub length-append : (xs ys : List A) → length (xs ++ ys) ≡ length xs + length ys
  length-append [] ys = omega arith
  length-append (x ∷ xs) ys = omega (arith, length-append xs ys)

  pub length-take : (n : ℕ) (xs : List A) → length (take n xs) ≡ min n (length xs)
  length-take zero xs = omega arith
  length-take (suc n) [] = omega arith
  length-take (suc n) (x ∷ xs) = omega (arith, length-take n xs)

module _ {ℓ κ} {A : Type ℓ} (P : A → Type κ) where
  abbrev pub All : List A → Type κ
  All [] = Unit
  All (x ∷ xs) = P x × All xs

  pub All-append : (xs ys : List A) → All xs → All ys → All (xs ++ ys)
  All-append [] ys h k = k
  All-append (x ∷ xs) ys (p, h) k = (p, All-append xs ys h k)

  pub All-append_left : (xs ys : List A) → All (xs ++ ys) → All xs
  All-append_left [] ys h = tt
  All-append_left (x ∷ xs) ys (p, h) = (p, All-append_left xs ys h)

  pub All-append_right : (xs ys : List A) → All (xs ++ ys) → All ys
  All-append_right [] ys h = h
  All-append_right (x ∷ xs) ys (p, h) = All-append_right xs ys h

  pub All-take : (n : ℕ) (xs : List A) → All xs → All (take n xs)
  All-take zero xs h = tt
  All-take (suc n) [] h = tt
  All-take (suc n) (x ∷ xs) (p, h) = (p, All-take n xs h)

  pub All-drop : (n : ℕ) (xs : List A) → All xs → All (drop n xs)
  All-drop zero xs h = h
  All-drop (suc n) [] h = tt
  All-drop (suc n) (x ∷ xs) (p, h) = All-drop n xs h

  pub All-of_forall : ((x : A) → P x) → (xs : List A) → All xs
  All-of_forall f [] = tt
  All-of_forall f (x ∷ xs) = (f x, All-of_forall f xs)

  pub All-filter : (t : A → Bool) (xs : List A) → All xs → All (filter t xs)
  All-filter t [] h = tt
  All-filter t (x ∷ xs) (p, h) = elim (Bool-cases (t x)) [
    | inl e ↦ rw e (p, All-filter t xs h)
    | inr e ↦ rw e (All-filter t xs h)
  ]

pub All-imp {ℓ κ μ} :
    {A : Type ℓ} {P : A → Type κ} {Q : A → Type μ} (f : (x : A) → P x → Q x) (xs : List A)
    → All P xs
    → All Q xs
All-imp f [] h = tt
All-imp f (x ∷ xs) (p, h) = (f x p, All-imp f xs h)

pub All-map {ℓ κ μ} :
    {A : Type ℓ} {B : Type κ} (P : B → Type μ) (f : A → B) (xs : List A)
    → All (λ x. P (f x)) xs
    → All P (map f xs)
All-map P f [] h = tt
All-map P f (x ∷ xs) (p, h) = (p, All-map P f xs h)

pub All-all {ℓ} :
    {A : Type ℓ} (p : A → Bool) (xs : List A) → all p xs ≡ true → All (λ x. p x ≡ true) xs
All-all p [] h = tt
All-all p (x ∷ xs) h = elim (Bool-cases (p x)) [
  | inl e ↦ (e, All-all p xs (ground arith))
  | inr e ↦ absurd (ground arith)
]

pub all-All {ℓ} :
    {A : Type ℓ} (p : A → Bool) (xs : List A) → All (λ x. p x ≡ true) xs → all p xs ≡ true
all-All p [] h = refl
all-All p (x ∷ xs) (e, h) = rw e (all-All p xs h)

-- What a filter keeps satisfies its test.
pub All-filter_self {ℓ} :
    {A : Type ℓ} (t : A → Bool) (xs : List A) → All (λ x. t x ≡ true) (filter t xs)
All-filter_self t [] = tt
All-filter_self t (x ∷ xs) = elim (Bool-cases (t x)) [
  | inl e ↦ rw e (e, All-filter_self t xs)
  | inr e ↦ rw e (All-filter_self t xs)
]

module _ {ℓ} {A : Type ℓ} where
  -- A filter that every item passes keeps the list.
  pub filter_of_All : (t : A → Bool) (xs : List A) → All (λ x. t x ≡ true) xs → filter t xs ≡ xs
  filter_of_All t [] h = refl
  filter_of_All t (x ∷ xs) (e, h) = rw e (ap (◌∷◌ x) (filter_of_All t xs h))

  pub find?-none : (t : A → Bool) (xs : List A) → find? t xs ≡ none → All (λ x. t x ≡ false) xs
  find?-none t [] h = tt
  find?-none t (x ∷ xs) h = elim (Bool-cases (t x)) [
    | inl e ↦ absurd (ground arith)
    | inr e ↦ (e, find?-none t xs (ground arith))
  ]

  pub find?-none_of : (t : A → Bool) (xs : List A) → All (λ x. t x ≡ false) xs → find? t xs ≡ none
  find?-none_of t [] h = refl
  find?-none_of t (x ∷ xs) (e, h) = rw e (find?-none_of t xs h)

  pub find?-some : (t : A → Bool) (xs : List A) {x : A} → find? t xs ≡ some x → t x ≡ true
  find?-some t [] h = cc
  find?-some t (y ∷ xs) h = elim (Bool-cases (t y)) [
    | inl e ↦ ground arith
    | inr e ↦ find?-some t xs (ground arith)
  ]

  pub filter-append :
      (t : A → Bool) (xs ys : List A) → filter t (xs ++ ys) ≡ filter t xs ++ filter t ys
  filter-append t [] ys = refl
  filter-append t (x ∷ xs) ys = ground (arith, filter-append t xs ys)

-- `numbers.includes(c)`
abbrev pub includes_ℕ : ℕ → List ℕ → Bool
includes_ℕ c [] = false
includes_ℕ c (x ∷ xs) = x == c || includes_ℕ c xs

pub find?-All {ℓ κ} :
    {A : Type ℓ} (P : A → Type κ) (t : A → Bool) (xs : List A) {x : A}
    → All P xs
    → find? t xs ≡ some x
    → P x
find?-All P t [] h e = cc
find?-All P t (y ∷ ys) {x} (p, h) e = elim (Bool-cases (t y)) [
  | inl k ↦ subst P (some-injective _ _ (rw k at e)) p
  | inr k ↦ find?-All P t ys h (rw k at e)
]
