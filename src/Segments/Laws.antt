-- ===== src/Segments/Laws.antt =====
-- What the resolution returns: plain names, and every list of plain names as it is.
use mathlib.Core.Option.{some-injective}
use mathlib.Core.List.{reverse_aux, reverse-cons}
use dsh_podman.Prelude.{
  ◌≡◌, ◌≢◌, refl, sym, ap, ◌∙◌, inl, inr, false, List, [], ◌∷◌, ◌++◌, some, arith, All,
  Option-cases, reverse, append_assoc, append-nil, subst,
}
use dsh_podman.Text.{Text, ◌===◌, is_empty, split, join}
use dsh_podman.Text.Laws.{===_iff, Without, split-Without, split-join}
use dsh_podman.Segments.{dot, dot_dot, is_skipped, resolve, resolve_from, resolve_path}

-- A segment that names an entry of a directory.
abbrev pub IsName : Text → Type 0
IsName s = (s ≢ []) × (s ≢ dot) × (s ≢ dot_dot) × Without b'/' s

All-reverse_aux {ℓ κ} :
    {A : Type ℓ} (P : A → Type κ) (xs ys : List A) → All P xs → All P ys → All P (reverse_aux xs ys)
All-reverse_aux P [] ys h k = k
All-reverse_aux P (x ∷ xs) ys (p, h) k = All-reverse_aux P xs (x ∷ ys) h (p, k)

is_empty-of_nil : (s : Text) → is_empty s ≡ false → s ≢ []
is_empty-of_nil [] h e = cc
is_empty-of_nil (x ∷ s) h e = cc

pub push-IsName :
    (s : Text) → is_skipped s ≡ false → (s === dot_dot) ≡ false → Without b'/' s → IsName s
push-IsName [] h k w = absurd (ground arith)
push-IsName (x ∷ s) h k w = (
  λ e. cc,
  λ e. ground (arith, ===_iff (x ∷ s) dot),
  λ e. ground (arith, ===_iff (x ∷ s) dot_dot),
  w,
)

resolve-IsName :
    (stack : List Text) (s : Text) {out : List Text}
    → All IsName stack
    → Without b'/' s
    → resolve stack s ≡ some out
    → All IsName out
unfolding resolve
resolve-IsName [] s h w e = ground (arith, push-IsName s)
resolve-IsName (t ∷ stack) s h w e = ground (arith, push-IsName s)

resolve_from-IsName :
    (stack segments : List Text) {out : List Text}
    → All IsName stack
    → All (Without b'/') segments
    → resolve_from stack segments ≡ some out
    → All IsName out
unfolding resolve_from
resolve_from-IsName stack [] h w e =
    subst (All IsName) (some-injective _ _ e) (All-reverse_aux IsName stack [] h tt)
resolve_from-IsName stack (s ∷ rest) h (w, ws) e = elim (Option-cases (resolve stack s)) [
  | inl refused ↦ absurd (ground arith)
  | inr (stack', step) ↦
      resolve_from-IsName stack' rest (resolve-IsName stack s h w step) ws
        (rw (step, resolve_from) at e)
]

-- Whatever the path, the segments that it resolves to are plain names.
pub resolve_path-IsName :
    (path : Text) {out : List Text} → resolve_path path ≡ some out → All IsName out
unfolding resolve_path
resolve_path-IsName path e = resolve_from-IsName [] (split b'/' path) tt (split-Without b'/' path) e

resolve_of_IsName : (stack : List Text) (s : Text) → IsName s → resolve stack s ≡ some (s ∷ stack)
unfolding resolve
resolve_of_IsName stack [] n = absurd (n.0 refl)
resolve_of_IsName [] (x ∷ s) n = ground (arith, ===_iff (x ∷ s) dot, ===_iff (x ∷ s) dot_dot)
resolve_of_IsName (t ∷ stack) (x ∷ s) n =
    ground (arith, ===_iff (x ∷ s) dot, ===_iff (x ∷ s) dot_dot)

resolve_from_of_IsName :
    (stack segments : List Text)
    → All IsName segments
    → resolve_from stack segments ≡ some (reverse stack ++ segments)
unfolding resolve_from
resolve_from_of_IsName stack [] h = ap some (sym (append-nil _))
resolve_from_of_IsName stack (s ∷ rest) (n, h) =
    rw (resolve_of_IsName stack s n, resolve_from)
      (resolve_from_of_IsName (s ∷ stack) rest h ∙ ap some (simp (reverse-cons, append_assoc)))

pub IsName-Without : (names : List Text) → All IsName names → All (Without b'/') names
IsName-Without [] h = tt
IsName-Without (s ∷ rest) (n, h) = (n.3, IsName-Without rest h)

-- A path of plain names resolves to them.
pub resolve_path-join :
    (s : Text) (rest : List Text)
    → All IsName (s ∷ rest)
    → resolve_path (join b'/' (s ∷ rest)) ≡ some (s ∷ rest)
unfolding resolve_path
resolve_path-join s rest h =
    rw (split-join b'/' s rest (IsName-Without (s ∷ rest) h))
      (resolve_from_of_IsName [] (s ∷ rest) h)

resolve-All :
    (P : Text → Type 0) (stack : List Text) (s : Text) {out : List Text}
    → All P stack
    → P s
    → resolve stack s ≡ some out
    → All P out
unfolding resolve
resolve-All P [] s h p e = ground arith
resolve-All P (t ∷ stack) s h p e = ground arith

resolve_from-All :
    (P : Text → Type 0) (stack segments : List Text) {out : List Text}
    → All P stack
    → All P segments
    → resolve_from stack segments ≡ some out
    → All P out
unfolding resolve_from
resolve_from-All P stack [] h p e =
    subst (All P) (some-injective _ _ e) (All-reverse_aux P stack [] h tt)
resolve_from-All P stack (s ∷ rest) h (p, ps) e = elim (Option-cases (resolve stack s)) [
  | inl refused ↦ absurd (ground arith)
  | inr (stack', step) ↦
      resolve_from-All P stack' rest (resolve-All P stack s h p step) ps
        (rw (step, resolve_from) at e)
]

-- The resolution only drops segments.
pub resolve_path-All :
    (P : Text → Type 0) (path : Text) {out : List Text}
    → All P (split b'/' path)
    → resolve_path path ≡ some out
    → All P out
unfolding resolve_path
resolve_path-All P path h e = resolve_from-All P [] (split b'/' path) tt h e
