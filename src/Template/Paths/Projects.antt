-- ===== src/Template/Paths/Projects.antt =====
-- Project paths of a template (src/container-template.ts).
use dsh_podman.Prelude.{
  ℕ, ◌≡◌, ◌≢◌, refl, sym, ap, ◌∙◌, inl, inr, false, List, [], ◌∷◌, some, arith, Bool-cases, ◌||◌,
}
use dsh_podman.Text.{Text, has_unit, starts_with, join}
use dsh_podman.Text.Laws.{
  Without, has_unit-Without, has_unit_of_Without, split-Without_of, join-Without,
}
use dsh_podman.Segments.{resolve_path}
use dsh_podman.Segments.Laws.{resolve_path-IsName, resolve_path-join, resolve_path-All}
use dsh_podman.Template.Paths.{has_control, project_of, normalize_project_text}
use dsh_podman.Template.Paths.Laws.{IsProject, project_of-some}

join-without_control :
    (d : ℕ) (value : Text) (names : List Text)
    → b'/' ≢ d
    → has_unit d value ≡ false
    → resolve_path value ≡ some names
    → has_unit d (join b'/' names) ≡ false
join-without_control d value names n h e = has_unit_of_Without d _ (
    join-Without b'/' d names n (
      resolve_path-All (Without d) value
        (split-Without_of b'/' d value (has_unit-Without d value h)) e))

-- A project path that is accepted is a relative path of plain names: no "." or "..", no empty
-- segment, no NUL or line end, so it names a directory below the projects root.
pub normalize_project_text-IsProject :
    (value : Text) {out : Text} → normalize_project_text value ≡ some out → IsProject out
unfolding normalize_project_text
normalize_project_text-IsProject value {out} e =
    elim (Bool-cases (has_control value || starts_with value (b'/' ∷ []))) [
      | inl bad ↦ absurd (ground arith)
      | inr good ↦
          let (name, rest, found, shape) = project_of-some (resolve_path value) (ground arith) in
          (
            rw shape (clean (name ∷ rest) found good),
            (name, rest, resolve_path-IsName value found, shape),
          )
    ]
  where
    clean :
        (names : List Text)
        → resolve_path value ≡ some names
        → (has_control value || starts_with value (b'/' ∷ [])) ≡ false
        → has_control (join b'/' names) ≡ false
    clean names found good =
        unfold has_control in
        ground (
          arith,
          join-without_control 0 value names (omega arith),
          join-without_control 10 value names (omega arith),
          join-without_control 13 value names (omega arith),
        )

IsProject-relative : (value : Text) → IsProject value → starts_with value (b'/' ∷ []) ≡ false
IsProject-relative value (c, ([], rest, (n, h), shape)) = absurd (n.0 refl)
IsProject-relative value (c, (x ∷ name, [], (n, h), shape)) =
    rw shape (unfold starts_with join in ground (arith, n.3.0))
IsProject-relative value (c, (x ∷ name, m ∷ rest, (n, h), shape)) =
    rw shape (unfold starts_with join in ground (arith, n.3.0))

-- A normal project path is left as it is.
pub normalize_project_text_of_IsProject :
    (value : Text) → IsProject value → normalize_project_text value ≡ some value
unfolding normalize_project_text
normalize_project_text_of_IsProject value (c, (name, rest, h, shape)) = rw c (
    rw (IsProject-relative value (c, (name, rest, h, shape)))
      (ap project_of (ap resolve_path shape ∙ resolve_path-join name rest h) ∙ ap some (sym shape)))

-- Normalising twice is normalising once.
pub normalize_project_text_idem :
    (value out : Text)
    → normalize_project_text value ≡ some out
    → normalize_project_text out ≡ some out
normalize_project_text_idem value out e =
    normalize_project_text_of_IsProject out (normalize_project_text-IsProject value e)
