-- ===== src/Segments/Climbs.antt =====
-- When the resolution refuses a path, told by counting names and ".." segments.
use dsh_podman.Prelude.{
  ℕ, ◌+◌, ◌<◌, ◌≡◌, ◌↔◌, refl, ap, inl, inr, List, [], ◌∷◌, ◌++◌, none, some, arith, ◌||◌,
  Option-cases, if◌then◌else◌, length,
}
use dsh_podman.Text.{Text, ◌===◌, split}
use dsh_podman.Text.Laws.{===_iff}
use dsh_podman.Segments.{dot_dot, is_skipped, resolve, resolve_from, resolve_path}

-- How many segments name an entry, and how many go up.
pub names : List Text → ℕ
names [] = 0
names (s ∷ rest) = (if is_skipped s || s === dot_dot then 0 else 1) + names rest

pub ups : List Text → ℕ
ups [] = 0
ups (s ∷ rest) = (if s === dot_dot then 1 else 0) + ups rest

resolve-none :
    (stack : List Text) (s : Text)
    → resolve stack s ≡ none
    → length stack + names (s ∷ []) < ups (s ∷ [])
unfolding resolve names ups
resolve-none [] s e = ground arith
resolve-none (t ∷ stack) s e = absurd (ground arith)

resolve-some :
    (stack : List Text) (s : Text) {out : List Text}
    → resolve stack s ≡ some out
    → length out + ups (s ∷ []) ≡ length stack + names (s ∷ [])
unfolding resolve names ups ◌===◌
resolve-some [] s e = ground (arith, ===_iff s dot_dot)
resolve-some (t ∷ stack) s e = ground (arith, ===_iff s dot_dot)

names-cons : (s : Text) (rest : List Text) → names (s ∷ rest) ≡ names (s ∷ []) + names rest
unfolding names
names-cons s rest = omega arith

ups-cons : (s : Text) (rest : List Text) → ups (s ∷ rest) ≡ ups (s ∷ []) + ups rest
unfolding ups
ups-cons s rest = omega arith

resolve_from-none_of :
    (stack before after : List Text)
    → length stack + names before < ups before
    → resolve_from stack (before ++ after) ≡ none
unfolding resolve_from
resolve_from-none_of stack [] after h = absurd (unfold names ups in omega arith)
resolve_from-none_of stack (s ∷ before) after h = elim (Option-cases (resolve stack s)) [
  | inl e ↦ rw (e, resolve_from)
  | inr (out, e) ↦
      rw (e, resolve_from)
        (resolve_from-none_of out before after
          (omega (arith, resolve-some stack s e, names-cons s before, ups-cons s before)))
]

resolve_from-none :
    (stack segments : List Text)
    → resolve_from stack segments ≡ none
    → (before after : List Text) × (segments ≡ before ++ after)
      × (length stack + names before < ups before)
unfolding resolve_from
resolve_from-none stack [] h = absurd (ground arith)
resolve_from-none stack (s ∷ rest) h = elim (Option-cases (resolve stack s)) [
  | inl e ↦ (s ∷ [], rest, refl, resolve-none stack s e)
  | inr (out, e) ↦
      let (before, after, split_at, over) =
        resolve_from-none out rest (rw (e, resolve_from) at h) in
      (
        s ∷ before,
        after,
        ap (◌∷◌ s) split_at,
        omega (arith, resolve-some stack s e, names-cons s before, ups-cons s before),
      )
]

-- A path is refused exactly when some start of it goes up more often than it goes down.
pub resolve_path-none_iff :
    (path : Text)
    → (resolve_path path ≡ none) ↔ (
        (before after : List Text) × (split b'/' path ≡ before ++ after)
        × (names before < ups before))
unfolding resolve_path
resolve_path-none_iff path = (
  λ h.
      let (before, after, e, over) = resolve_from-none [] (split b'/' path) h in
      (before, after, e, omega arith),
  λ (before, after, e, over). rw e (resolve_from-none_of [] before after (omega arith)),
)
