-- ===== src/Binding/Paths.antt =====
-- src/workspace-binding.ts: the names and paths that a binding is found by.
pub mod Laws
pub mod Slugs
use dsh_podman.Prelude.{
  ℕ, ◌+◌, Bool, true, false, List, [], ◌∷◌, ◌++◌, Option, none, some, if◌then◌else◌, not, ◌&&◌,
  ◌||◌, ◌==◌, leb, ltb, length, drop, any, all, map, Outcome, ok, throw,
}
use dsh_podman.Text.{Text, text, ◌===◌, is_empty, starts_with, strip_end, to_lower_case, split}
use dsh_podman.Binding.{
  Failure, invalid_workspace_id, outside_projects, BoundMount, RegisteredWorkspace,
}

-- `/[0-9a-f]/i` on one code unit
abbrev pub is_hex : ℕ → Bool
is_hex c = (leb 48 c && leb c 57) || (leb 97 c && leb c 102) || (leb 65 c && leb c 70)

-- One group of a UUID: so many hexadecimal digits.
abbrev pub is_group : ℕ → Text → Bool
is_group n part = length part == n && all is_hex part

abbrev pub are_groups : List ℕ → List Text → Bool
are_groups [] [] = true
are_groups [] (part ∷ parts) = false
are_groups (n ∷ sizes) [] = false
are_groups (n ∷ sizes) (part ∷ parts) = is_group n part && are_groups sizes parts

abbrev pub uuid_sizes : List ℕ
uuid_sizes = 8 ∷ 4 ∷ 4 ∷ 4 ∷ 12 ∷ []

-- UUID_PATTERN: five groups between dashes.
unfoldable pub matches_uuid : Text → Bool
matches_uuid value = are_groups uuid_sizes (split 45 value)

-- `workspaceSlug`; an id that is absent is the empty text.
unfoldable pub workspace_slug : Text → Outcome Failure Text
workspace_slug id =
    if matches_uuid id then ok (to_lower_case id) else throw (invalid_workspace_id id)

-- `path === root || path.startsWith(`${root}/`)`
abbrev pub is_at_or_below : Text → Text → Bool
is_at_or_below root path = path === root || starts_with path (root ++ 47 ∷ [])

abbrev pub longer : RegisteredWorkspace → Option RegisteredWorkspace → Option RegisteredWorkspace
longer w none = some w
longer w (some m) = if ltb (length m.path) (length w.path) then some w else some m

-- The loop of `containingWorkspace`, with the match so far; a path that is no string is empty.
unfoldable pub containing_from :
    Text → Option RegisteredWorkspace → List RegisteredWorkspace → Option RegisteredWorkspace
containing_from path match_so_far [] = match_so_far
containing_from path match_so_far (w ∷ entries) =
    containing_from path
      (if not (is_empty w.path) && is_at_or_below w.path path
        then longer w match_so_far
        else match_so_far)
      entries

unfoldable pub containing_workspace : Text → List RegisteredWorkspace → Option RegisteredWorkspace
containing_workspace path entries = containing_from path none entries

unfoldable pub project_name_for_path : Text → Text → Outcome Failure Text
project_name_for_path projects_root path =
    let root = strip_end 47 projects_root in
    let value = strip_end 47 path in
    if is_empty root || value === root
    then ok []
    else if starts_with value (root ++ 47 ∷ [])
    then ok (drop (length root + 1) value)
    else throw (outside_projects value)

-- `isProjectMount`; an unset kind is the empty text.
abbrev pub is_project_mount : BoundMount → Bool
is_project_mount m = is_empty m.kind || m.kind === text "MOUNT_KIND_PROJECT"

unfoldable pub project_mount_covers : Text → List BoundMount → Text → Bool
project_mount_covers projects_root mounts path =
    any (λ m. is_project_mount m && is_at_or_below (projects_root ++ 47 ∷ m.project_name) path)
      mounts

unfoldable pub default_cwd_of : Text → Option Text
default_cwd_of cwd = if is_empty cwd then none else some cwd
