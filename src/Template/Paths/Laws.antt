-- ===== src/Template/Paths/Laws.antt =====
-- Destinations and project paths (src/container-template.ts): what is accepted, and that what is
-- accepted is accepted again.
use mathlib.Core.Option.{some-injective}
use dsh_podman.Prelude.{
  ◌≡◌, ◌↔◌, refl, sym, ap, ◌∙◌, inl, inr, true, false, List, [], ◌∷◌, Option, none, some, arith,
  All, Bool-cases, Option-cases, subst, if◌then◌else◌,
}
use dsh_podman.Text.{Text, ◌===◌, starts_with, split, join}
use dsh_podman.Text.Laws.{===_iff, Without, split-Without, split-join}
use dsh_podman.Segments.{is_skipped, dot, dot_dot}
use dsh_podman.Segments.Laws.{IsName, push-IsName, IsName-Without}
use dsh_podman.Template.Paths.{
  has_control, clean_segments, clean_if, clean_absolute_text, project_of,
}

-- A clean absolute path: a slash and plain names with a slash between two of them, and no NUL or
-- line end.
abbrev pub IsClean : Text → Type 0
IsClean path =
    (has_control path ≡ false)
    × ((name : Text) × (rest : List Text) × All IsName (name ∷ rest)
        × (path ≡ b'/' ∷ join b'/' (name ∷ rest)))

-- A relative path of plain names, with no NUL or line end.
abbrev pub IsProject : Text → Type 0
IsProject path =
    (has_control path ≡ false)
    × ((name : Text) × (rest : List Text) × All IsName (name ∷ rest)
        × (path ≡ join b'/' (name ∷ rest)))

clean_segments-IsName :
    (segments : List Text) {names : List Text}
    → All (Without b'/') segments
    → clean_segments segments ≡ some names
    → All IsName names
unfolding clean_segments
clean_segments-IsName [] w e = subst (All IsName) (some-injective _ _ e) tt
clean_segments-IsName (s ∷ rest) {names} (w, ws) e = elim (Option-cases (clean_segments rest)) [
  | inl refused ↦ absurd (ground arith)
  | inr (found, k) ↦ step found (clean_segments-IsName rest ws k) (rw (k, clean_segments) at e)
]
  where
    step :
        (found : List Text)
        → All IsName found
        → (if is_skipped s then some found else if s === dot_dot then none else some (s ∷ found))
          ≡ some names
        → All IsName names
    step found h k = ground (arith, push-IsName s)

clean_segments_of_IsName :
    (names : List Text) → All IsName names → clean_segments names ≡ some names
unfolding clean_segments
clean_segments_of_IsName [] h = refl
clean_segments_of_IsName (s ∷ rest) (n, h) =
    rw (clean_segments_of_IsName rest h, clean_segments) (plain s n)
  where
    plain :
        (s : Text)
        → IsName s
        → (if is_skipped s then some rest else if s === dot_dot then none else some (s ∷ rest))
          ≡ some (s ∷ rest)
    plain [] k = absurd (k.0 refl)
    plain (x ∷ t) k = ground (arith, ===_iff (x ∷ t) dot, ===_iff (x ∷ t) dot_dot)

clean_if-some :
    (value : Text) (o : Option (List Text)) {out : Text}
    → clean_if value o ≡ some out
    → (name : Text) × (rest : List Text) × (o ≡ some (name ∷ rest))
      × (value ≡ b'/' ∷ join b'/' (name ∷ rest))
      × (out ≡ value)
unfolding clean_if
clean_if-some value none e = cc
clean_if-some value (some []) e = cc
clean_if-some value (some (name ∷ rest)) e =
    let cleaned : Text = b'/' ∷ join b'/' (name ∷ rest) in
    (name, rest, refl, ground (arith, ===_iff cleaned value), ground (arith, ===_iff cleaned value))

clean_absolute_text-IsClean :
    (value : Text) {out : Text}
    → clean_absolute_text value ≡ some out
    → IsClean value × (out ≡ value)
unfolding clean_absolute_text
clean_absolute_text-IsClean value {out} e = elim (Bool-cases (has_control value)) [
  | inl c ↦ absurd (ground arith)
  | inr c ↦ inner c (clean_if-some value (clean_segments (split b'/' value)) (ground arith))
]
  where
    inner :
        has_control value ≡ false
        → (name : Text) × (rest : List Text) × (clean_segments (split b'/' value)
            ≡ some (name ∷ rest))
          × (value ≡ b'/' ∷ join b'/' (name ∷ rest))
          × (out ≡ value)
        → IsClean value × (out ≡ value)
    inner c (name, rest, found, shape, same) =
        ((c, (name, rest, clean_segments-IsName _ (split-Without b'/' value) found, shape)), same)

clean_segments-split :
    (name : Text) (rest : List Text)
    → All IsName (name ∷ rest)
    → clean_segments (split b'/' (b'/' ∷ join b'/' (name ∷ rest))) ≡ some (name ∷ rest)
unfolding split
clean_segments-split name rest h =
    rw (split-join b'/' name rest (IsName-Without (name ∷ rest) h))
      (unfold clean_segments in (rw (clean_segments_of_IsName (name ∷ rest) h)))

clean_absolute_text_of_parts :
    (value name : Text) (rest : List Text)
    → starts_with value (b'/' ∷ []) ≡ true
    → has_control value ≡ false
    → clean_segments (split b'/' value) ≡ some (name ∷ rest)
    → (b'/' ∷ join b'/' (name ∷ rest) === value) ≡ true
    → clean_absolute_text value ≡ some value
unfolding clean_absolute_text
clean_absolute_text_of_parts value name rest slash c found same =
    rw slash (rw c (rw found (rw same (ap some ((===_iff _ value).0 same)))))

clean_absolute_text_of_IsClean :
    (value : Text) → IsClean value → clean_absolute_text value ≡ some value
clean_absolute_text_of_IsClean value (c, (name, rest, h, shape)) =
    let path : Text = b'/' ∷ join b'/' (name ∷ rest) in
    clean_absolute_text_of_parts value name rest (rw shape (unfold starts_with in refl)) c
      (ap (λ v. clean_segments (split b'/' v)) shape ∙ clean_segments-split name rest h)
      ((===_iff path value).1 (sym shape))

-- Exactly the clean absolute paths are accepted, and they are returned as they are.
pub clean_absolute_text_iff :
    (value out : Text) → (clean_absolute_text value ≡ some out) ↔ (IsClean value × (out ≡ value))
clean_absolute_text_iff value out = (
  clean_absolute_text-IsClean value,
  λ (clean, same). clean_absolute_text_of_IsClean value clean ∙ ap some (sym same),
)

pub project_of-some :
    (o : Option (List Text)) {out : Text}
    → project_of o ≡ some out
    → (name : Text) × (rest : List Text) × (o ≡ some (name ∷ rest))
      × (out ≡ join b'/' (name ∷ rest))
unfolding project_of
project_of-some none e = cc
project_of-some (some []) e = cc
project_of-some (some (name ∷ rest)) e = (name, rest, refl, sym (some-injective _ _ e))
