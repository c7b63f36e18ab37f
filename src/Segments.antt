-- ===== src/Segments.antt =====
-- The lexical resolution of a path that src/project-path.ts, src/container-template.ts and
-- src/fs-key.ts each write out as a loop over `path.split("/")`.
pub mod Laws
pub mod Climbs
use dsh_podman.Prelude.{Bool, List, [], ◌∷◌, Option, none, some, ◌||◌, reverse, if◌then◌else◌, map}
use dsh_podman.Text.{Text, ◌===◌, is_empty, split}

abbrev pub dot : Text
dot = b'.' ∷ []

abbrev pub dot_dot : Text
dot_dot = b'.' ∷ b'.' ∷ []

-- `segment === "" || segment === "."`
abbrev pub is_skipped : Text → Bool
is_skipped segment = is_empty segment || segment === dot

-- One round; the segments read so far have the last one at the head. `none` is the early return
-- where a ".." would climb above the start.
unfoldable pub resolve : List Text → Text → Option (List Text)
unfolding ◌===◌
resolve [] segment =
    if is_skipped segment
    then some []
    else if segment === dot_dot
    then none
    else some (segment ∷ [])
resolve (top ∷ stack) segment =
    if is_skipped segment
    then some (top ∷ stack)
    else if segment === dot_dot
    then some stack
    else some (segment ∷ top ∷ stack)

unfoldable pub resolve_from : List Text → List Text → Option (List Text)
unfolding resolve
resolve_from stack [] = some (reverse stack)
resolve_from stack (segment ∷ rest) = elim (resolve stack segment) [
  | none ↦ none
  | some stack' ↦ resolve_from stack' rest
]

-- The loop over the segments of a path.
unfoldable pub resolve_path : Text → Option (List Text)
unfolding resolve_from split
resolve_path path = resolve_from [] (split b'/' path)
