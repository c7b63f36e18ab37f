-- ===== src/Prelude/Tests.antt =====
-- Boolean tests on the native numbers, the conditional, and splits that keep their equation.
use Prim.Native.Nat.{ℕ, compare, Ordering}
use mathlib.Core.Path.{◌≡◌, refl, ap}
use mathlib.Core.Logic.{◌↔◌, ◌⊎◌, inl, inr}
use mathlib.Core.Bool.{Bool, true, false, ◌&&◌, ◌||◌}
use mathlib.Core.Option.{Option, none, some}
use native.Mathlib.Omega.{arith}

abbrev pub ltb : ℕ → ℕ → Bool
ltb a b = elim (compare a b) [ Ordering.lt ↦ true | _ ↦ false ]

abbrev pub leb : ℕ → ℕ → Bool
leb a b = elim (compare a b) [ Ordering.gt ↦ false | _ ↦ true ]

infix 50 ◌==◌
abbrev pub ◌==◌ : ℕ → ℕ → Bool
a == b = elim (compare a b) [ Ordering.eq ↦ true | _ ↦ false ]

infix 1 if◌then◌else◌
abbrev pub if◌then◌else◌ {ℓ} : {A : Type ℓ} → Bool → A → A → A
if true then x else y = x
if false then x else y = y

pub ==_iff : (a b : ℕ) → ((a == b) ≡ true) ↔ (a ≡ b)
==_iff a b = ground arith

pub leb_total : (a b : ℕ) → (leb a b || leb b a) ≡ true
leb_total a b = ground arith

pub Bool-cases : (b : Bool) → (b ≡ true) ⊎ (b ≡ false)
Bool-cases true = inl refl
Bool-cases false = inr refl

pub Option-cases {ℓ} : {A : Type ℓ} (o : Option A) → (o ≡ none) ⊎ ((a : A) × (o ≡ some a))
Option-cases none = inl refl
Option-cases (some a) = inr (a, refl)

pub &&_parts : (a b : Bool) → (a && b) ≡ true → (a ≡ true) × (b ≡ true)
&&_parts true b h = (refl, h)
&&_parts false b h = ground arith

-- Two tests that hold in the same cases are one.
pub Bool_ext : (a b : Bool) → ((a ≡ true) ↔ (b ≡ true)) → a ≡ b
Bool_ext true b h = ground (arith, h.0 refl)
Bool_ext false true h = ground (arith, h.1 refl)
Bool_ext false false h = refl

-- A change of state under a condition.
abbrev pub when {ℓ} : {A : Type ℓ} → Bool → (A → A) → A → A
when true f s = f s
when false f s = s

pub when-true {ℓ} : {A : Type ℓ} (b : Bool) (f : A → A) (s : A) → b ≡ true → when b f s ≡ f s
when-true b f s e = ap (λ c. when c f s) e

pub when-false {ℓ} : {A : Type ℓ} (b : Bool) (f : A → A) (s : A) → b ≡ false → when b f s ≡ s
when-false b f s e = ap (λ c. when c f s) e

-- A view of the state through a change under a condition.
pub view-when {ℓ κ} :
    {A : Type ℓ} {B : Type κ} (v : A → B) (f : A → A) (g : B → B) (b : Bool) (s : A)
    → v (f s) ≡ g (v s)
    → v (when b f s) ≡ when b g (v s)
view-when v f g true s h = h
view-when v f g false s h = refl

-- A property that the change keeps.
pub when-keeps {ℓ κ} :
    {A : Type ℓ} (P : A → Type κ) (f : A → A) (b : Bool) (s : A)
    → (b ≡ true → P s → P (f s))
    → P s
    → P (when b f s)
when-keeps P f true s h k = h refl k
when-keeps P f false s h k = k

pub when_same {ℓ} : {A : Type ℓ} (b : Bool) (s : A) → when b (λ t. t) s ≡ s
when_same true s = refl
when_same false s = refl
