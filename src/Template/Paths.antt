-- ===== src/Template/Paths.antt =====
-- src/container-template.ts: absolute destinations and project paths.
pub mod Laws
pub mod Projects
use dsh_podman.Prelude.{
  Bool, true, false, List, [], ◌∷◌, Option, none, some, ◌||◌, if◌then◌else◌, not, ◌==◌,
}
use dsh_podman.Text.{Text, ◌===◌, is_empty, has_unit, starts_with, split, join}
use dsh_podman.Segments.{resolve_path, is_skipped, dot_dot}
use dsh_podman.Value.{Value, str}

-- /[\0\n\r]/.test(value)
unfoldable pub has_control : Text → Bool
has_control value = has_unit 0 value || has_unit 10 value || has_unit 13 value

-- The loop of `cleanAbsolutePath`: `none` where a segment is "..".
clean_segments : List Text → Option (List Text)
clean_segments [] = some []
clean_segments (segment ∷ rest) = elim (clean_segments rest) [
  | none ↦ none
  | some names ↦
      if is_skipped segment
      then some names
      else if segment === dot_dot
      then none
      else some (segment ∷ names)
]

clean_if : Text → Option (List Text) → Option Text
clean_if value none = none
clean_if value (some []) = none
clean_if value (some (name ∷ names)) =
    let cleaned = b'/' ∷ join b'/' (name ∷ names) in
    if cleaned === value then some cleaned else none

unfoldable pub clean_absolute_text : Text → Option Text
unfolding clean_if clean_segments has_control split
clean_absolute_text value =
    if not (starts_with value (b'/' ∷ []))
    then none
    else if has_control value
    then none
    else clean_if value (clean_segments (split b'/' value))

unfoldable pub clean_absolute_path : Value → Option Text
unfolding clean_absolute_text
clean_absolute_path (str value) = clean_absolute_text value
clean_absolute_path _ = none

pub project_of : Option (List Text) → Option Text
project_of none = none
project_of (some []) = none
project_of (some (name ∷ names)) = some (join b'/' (name ∷ names))

unfoldable pub normalize_project_text : Text → Option Text
unfolding project_of
normalize_project_text value =
    if has_control value || starts_with value (b'/' ∷ [])
    then none
    else project_of (resolve_path value)

unfoldable pub normalize_project_path : Value → Option Text
unfolding normalize_project_text
normalize_project_path (str value) = normalize_project_text value
normalize_project_path _ = none
