-- ===== src/Template/Packages/Laws.antt =====
-- Canonical package lists.
use dsh_podman.Prelude.{
  ◌≡◌, ◌⊎◌, ap, ◌∙◌, inl, inr, true, false, List, [], ◌∷◌, arith, All, Bool-cases, ◌||◌, subst, not,
  ◌&&◌, if◌then◌else◌, ok, All-append,
}
use dsh_podman.Prelude.Sort.{IsSorted}
use dsh_podman.Text.{Text, ◌===◌, includes, text_le}
use dsh_podman.Text.Laws.{===_iff}
use dsh_podman.Text.Sets.{Distinct, includes-nil, includes-cons, includes-append, append-Distinct}
use dsh_podman.Value.{Value, str}
use dsh_podman.Template.{BaseImage}
use dsh_podman.Template.Names.{valid_package_name}
use dsh_podman.Template.Packages.{base_image_packages, add, collect}

-- Valid names, none of them built in to the base, sorted, each once.
pub record IsCanonical (base : BaseImage) (packages : List Text) : Type 0 where
  pub valid : All (λ p. valid_package_name p ≡ true) packages
  pub extra : All (λ p. includes p (base_image_packages base) ≡ false) packages
  pub sorted : IsSorted text_le packages
  pub distinct : Distinct packages

-- The strings of a list of values.
unfoldable pub texts : List Value → List Text
texts [] = []
texts (str s ∷ vs) = s ∷ texts vs
texts (v ∷ vs) = texts vs

includes-same :
    (a x : Text) (set : List Text) → includes x set ≡ true → a ≡ x → includes a set ≡ true
includes-same a x set h e = rw e h

includes-add : (a x : Text) (set : List Text) → includes a (add x set) ≡ (a === x || includes a set)
unfolding add
includes-add a x set = ground (
  arith,
  includes-append a set (x ∷ []),
  includes-cons a x [],
  includes-nil a,
  ===_iff a x,
  includes-same a x set,
)

add-Distinct : (x : Text) (set : List Text) → Distinct set → Distinct (add x set)
unfolding add
add-Distinct x set d = elim (Bool-cases (includes x set)) [
  | inl e ↦ rw e d
  | inr e ↦ rw e (append-Distinct set x d e)
]

add-All : (P : Text → Type 0) (x : Text) (set : List Text) → P x → All P set → All P (add x set)
unfolding add
add-All P x set p h = elim (Bool-cases (includes x set)) [
  | inl e ↦ rw e h
  | inr e ↦ rw e (All-append P set (x ∷ []) h (p, tt))
]

-- One round of `collect`, for a valid name.
grown : List Text → List Text → Text → List Text
grown builtins result s = if includes s builtins then result else add s result

collect-str :
    (builtins result : List Text) (s : Text) (rest : List Value) {out : List Text}
    → collect builtins result (str s ∷ rest) ≡ ok out
    → (valid_package_name s ≡ true) × (collect builtins (grown builtins result s) rest ≡ ok out)
unfolding collect grown
collect-str builtins result s rest e = elim (Bool-cases (valid_package_name s)) [
  | inl valid ↦ (valid, rw valid at e)
  | inr invalid ↦ absurd (ground arith)
]

module _ (P : Text → Type 0) (builtins : List Text)
    (fits : (s : Text) → valid_package_name s ≡ true → includes s builtins ≡ false → P s) where
  pub collect-All :
      (result : List Text) (vs : List Value) {out : List Text}
      → All P result
      → collect builtins result vs ≡ ok out
      → All P out
  unfolding collect
  collect-All result [] h e = subst (All P) (ground arith) h
  collect-All result (str s ∷ rest) h e =
      let (valid, next) = collect-str builtins result s rest e in
      collect-All (grown builtins result s) rest
        (grown-All valid (Bool-cases (includes s builtins))) next
    where
      grown-All :
          valid_package_name s ≡ true
          → (includes s builtins ≡ true) ⊎ (includes s builtins ≡ false)
          → All P (grown builtins result s)
      grown-All v (inl e) = unfold grown in (rw e h)
      grown-All v (inr e) = unfold grown in (rw e (add-All P s result (fits s v e) h))
  collect-All result (v ∷ rest) h e = cc

pub collect-Distinct :
    (builtins result : List Text) (vs : List Value) {out : List Text}
    → Distinct result
    → collect builtins result vs ≡ ok out
    → Distinct out
unfolding collect
collect-Distinct builtins result [] h e = subst Distinct (ground arith) h
collect-Distinct builtins result (str s ∷ rest) h e =
    collect-Distinct builtins (grown builtins result s) rest
      (unfold grown in
        (elim (Bool-cases (includes s builtins)) [
          | inl k ↦ rw k h
          | inr k ↦ rw k (add-Distinct s result h)
        ]))
      (collect-str builtins result s rest e).1
collect-Distinct builtins result (v ∷ rest) h e = cc

includes-grown :
    (a s : Text) (builtins result : List Text)
    → includes a (grown builtins result s)
      ≡ (includes a result || (a === s && not (includes a builtins)))
unfolding grown
includes-grown a s builtins result = ground (
  arith,
  includes-add a s result,
  ===_iff a s,
  ap (λ z. includes z builtins) {x = a} {y = s},
  includes-same a s builtins,
  includes-same s a builtins,
)

pub collect-includes :
    (a : Text) (builtins result : List Text) (vs : List Value) {out : List Text}
    → collect builtins result vs ≡ ok out
    → includes a out ≡ (includes a result || (includes a (texts vs) && not (includes a builtins)))
unfolding collect texts
collect-includes a builtins result [] e = ground (arith, includes-nil a)
collect-includes a builtins result (str s ∷ rest) e =
    collect-includes a builtins (grown builtins result s) rest
      (collect-str builtins result s rest e).1
    ∙ ground (arith, includes-grown a s builtins result, includes-cons a s (texts rest))
collect-includes a builtins result (v ∷ rest) e = cc
