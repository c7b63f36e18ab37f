-- ===== src/Dict/Laws.antt =====
-- Reading a map after its changes.
use mathlib.Core.Option.{some-injective}
use dsh_podman.Prelude.{
  ◌≡◌, refl, ◌∙◌, ap, inl, inr, false, [], ◌∷◌, Option, none, some, arith, Bool-cases,
  if◌then◌else◌, ◌||◌, subst, All,
}
use dsh_podman.Text.{Text, ◌===◌, includes}
use dsh_podman.Text.Laws.{===_iff, ===_refl}
use dsh_podman.Text.Sets.{Distinct, includes-cons}
use dsh_podman.Dict.{Entries, lookup, put, remove, keys, put_all}

-- A map holds each key once.
abbrev pub IsMap : Entries → Type 0
IsMap es = Distinct (keys es)

-- `a ?? b`
abbrev pub or_else : Option Text → Option Text → Option Text
or_else none b = b
or_else (some a) b = some a

pub lookup-put :
    (k j v : Text) (es : Entries)
    → lookup k (put j v es) ≡ (if j === k then some v else lookup k es)
unfolding lookup put
lookup-put k j v [] = refl
lookup-put k j v ((i, w) ∷ es) = elim (Bool-cases (i === j)) [
  | inl e ↦ ground (arith, (===_iff i j).0 e)
  | inr e ↦ rw e (elim (Bool-cases (i === k)) [
    | inl f ↦ rw f (elim (Bool-cases (j === k)) [
      | inl g ↦ absurd (ground (arith, ===_iff i k, ===_iff j k, ===_refl k))
      | inr g ↦ rw g refl
    ])
    | inr f ↦ rw f (lookup-put k j v es)
  ])
]

pub lookup-remove :
    (k j : Text) (es : Entries) → lookup k (remove j es) ≡ (if j === k then none else lookup k es)
unfolding lookup remove
lookup-remove k j [] = ground arith
lookup-remove k j ((i, w) ∷ es) =
    ground (arith, lookup-remove k j es, ===_iff i j, ===_iff i k, ===_iff j k)

pub lookup-none : (k : Text) (es : Entries) → includes k (keys es) ≡ false → lookup k es ≡ none
unfolding lookup
lookup-none k [] h = refl
lookup-none k ((i, w) ∷ es) h =
    ground (arith, includes-cons k i (keys es), lookup-none k es, ===_iff i k, ===_iff k i)

pub lookup-put_all :
    (k : Text) (es more : Entries)
    → IsMap more
    → lookup k (put_all es more) ≡ or_else (lookup k more) (lookup k es)
unfolding put_all lookup
lookup-put_all k es [] m = refl
lookup-put_all k es ((j, v) ∷ more) (new, m) =
    lookup-put_all k (put j v es) more m ∙ elim (Bool-cases (j === k)) [
      | inl e ↦ rw e (
          rw
            (lookup-none k more
              (subst (λ x. includes x (keys more) ≡ false) ((===_iff j k).0 e) new))
            (lookup-put k j v es ∙ rw e))
      | inr e ↦ rw e (ap (or_else (lookup k more)) (lookup-put k j v es ∙ rw e))
    ]

includes-keys-put :
    (a j v : Text) (es : Entries)
    → includes a (keys (put j v es)) ≡ (a === j || includes a (keys es))
unfolding put
includes-keys-put a j v [] = includes-cons a j []
includes-keys-put a j v ((i, w) ∷ es) = elim (Bool-cases (i === j)) [
  | inl e ↦ rw e (
      includes-cons a i (keys es)
      ∙ ground (arith, includes-cons a i (keys es), ===_iff i j, ===_iff a i, ===_iff a j))
  | inr e ↦ rw e (
      includes-cons a i (keys (put j v es))
      ∙ ground (arith, includes-cons a i (keys es), includes-keys-put a j v es))
]

pub put-IsMap : (j v : Text) (es : Entries) → IsMap es → IsMap (put j v es)
unfolding put
put-IsMap j v [] m = (unfold includes in refl, tt)
put-IsMap j v ((i, w) ∷ es) (new, m) = elim (Bool-cases (i === j)) [
  | inl e ↦ rw e (new, m)
  | inr e ↦ rw e (includes-keys-put i j v es ∙ ground arith, put-IsMap j v es m)
]

pub put_all-IsMap : (es more : Entries) → IsMap es → IsMap (put_all es more)
unfolding put_all
put_all-IsMap es [] m = m
put_all-IsMap es ((j, v) ∷ more) m = put_all-IsMap (put j v es) more (put-IsMap j v es m)

not-includes-keys-remove :
    (a j : Text) (es : Entries)
    → includes a (keys es) ≡ false
    → includes a (keys (remove j es)) ≡ false
unfolding remove
not-includes-keys-remove a j [] h = h
not-includes-keys-remove a j ((i, w) ∷ es) h = ground (
  arith,
  includes-cons a i (keys es),
  includes-cons a i (keys (remove j es)),
  not-includes-keys-remove a j es,
)

pub remove-IsMap : (j : Text) (es : Entries) → IsMap es → IsMap (remove j es)
unfolding remove
remove-IsMap j [] m = m
remove-IsMap j ((i, w) ∷ es) (new, m) = elim (Bool-cases (i === j)) [
  | inl e ↦ rw e (remove-IsMap j es m)
  | inr e ↦ rw e (not-includes-keys-remove i j es new, remove-IsMap j es m)
]

-- What holds of all entries holds of the one that is found.
pub lookup-All :
    (P : Text → Text → Type 0) (key : Text) (es : Entries) {v : Text}
    → All (λ e. P e.0 e.1) es
    → lookup key es ≡ some v
    → P key v
unfolding lookup
lookup-All P key [] h e = cc
lookup-All P key ((j, w) ∷ es) {v} (p, h) e = elim (Bool-cases (j === key)) [
  | inl same ↦
      subst (λ x. P x v) ((===_iff j key).0 same)
        (subst (P j) (some-injective _ _ (rw same at e)) p)
  | inr other ↦ lookup-All P key es h (rw other at e)
]
