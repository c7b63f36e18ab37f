-- ===== src/ProjectPath.antt =====
-- src/project-path.ts: project paths against the projects root.
pub mod Laws
pub mod Browsing
use mathlib.Core.Option
use dsh_podman.Prelude.{
  ℕ, zero, suc, ◌+◌, Bool, true, false, List, [], ◌∷◌, ◌++◌, Option, none, some, ◌||◌, not, all,
  length, drop, take, if◌then◌else◌, ◌==◌, leb, ltb, ◌&&◌, includes_ℕ,
}
use dsh_podman.Text.{Text, text, ◌===◌, is_empty, starts_with, split, join, strip_end}
use dsh_podman.Segments.{resolve_path}

pub data ProjectPathOrigin : Type 0 where
  typed browsed : ProjectPathOrigin

pub data ProjectPathRejection : Type 0 where
  empty absolute escapes_root missing : ProjectPathRejection

pub data ProjectPathDecision : Type 0 where
  accept : Text → ProjectPathDecision
  reject : ProjectPathRejection → ProjectPathDecision

unfoldable pub strip_trailing_slash : Text → Text
strip_trailing_slash value = strip_end b'/' value

-- `${root}/${name}`
abbrev pub below : Text → Text → Text
below root name = root ++ b'/' ∷ name

unfoldable pub normalize_project_path : Text → Option Text
normalize_project_path project = Option.map (join b'/') (resolve_path project)

unfoldable pub project_name_from_host_path : Text → Text → Option Text
unfolding strip_trailing_slash
project_name_from_host_path projects_root path =
    let root = strip_trailing_slash projects_root in
    let target = strip_trailing_slash path in
    if is_empty root || is_empty target || target === root
    then none
    else if not (starts_with target (root ++ b'/' ∷ []))
    then none
    else some (drop (length root + 1) target)

-- The white space and line ends that `trim` removes.
abbrev white_space : List ℕ
white_space =
    9 ∷ 10 ∷ 11 ∷ 12 ∷ 13 ∷ 32 ∷ 0xa0 ∷ 0x1680 ∷ 0x2028 ∷ 0x2029 ∷ 0x202f ∷ 0x205f ∷ 0x3000 ∷ 0xfeff
    ∷ []

unfoldable pub is_space : ℕ → Bool
is_space c = includes_ℕ c white_space || (leb 0x2000 c && leb c 0x200a)

-- `project.trim() === ""`
unfoldable pub is_blank : Text → Bool
unfolding is_space
is_blank s = all is_space s

decide_name : Option Text → Bool → ProjectPathDecision
decide_name none directory_exists = reject escapes_root
decide_name (some name) directory_exists =
    if is_empty name
    then reject empty
    else if not directory_exists
    then reject missing
    else accept name

unfoldable pub decide_project_path : ProjectPathOrigin → Text → Bool → ProjectPathDecision
unfolding decide_name is_blank
decide_project_path browsed project directory_exists = accept project
decide_project_path typed project directory_exists =
    if is_blank project
    then reject empty
    else if starts_with project (b'/' ∷ [])
    then reject absolute
    else decide_name (normalize_project_path project) directory_exists

host_path_of : Text → Option Text → Text
host_path_of root none = root
host_path_of root (some name) = if is_empty root || is_empty name then root else below root name

unfoldable pub host_path_for_project_name : Text → Text → Text
unfolding host_path_of strip_trailing_slash
host_path_for_project_name projects_root project =
    host_path_of (strip_trailing_slash projects_root) (normalize_project_path project)

confined : Text → Option Text → Text
confined root none = root
confined root (some name) = if is_empty name then root else below root name

unfoldable pub confine_to_root : Text → Text → Text
unfolding confined strip_trailing_slash
confine_to_root root path =
    let normalized_root = strip_trailing_slash root in
    let normalized_path = strip_trailing_slash path in
    if is_empty normalized_root || normalized_path === normalized_root
    then normalized_root
    else if not (starts_with normalized_path (normalized_root ++ b'/' ∷ []))
    then normalized_root
    else confined normalized_root
        (normalize_project_path (drop (length normalized_root + 1) normalized_path))

-- `path.lastIndexOf("/")`, `none` for -1
unfoldable pub last_slash : Text → Option ℕ
last_slash [] = none
last_slash (x ∷ s) = elim (last_slash s) [
  | none ↦ if x == b'/' then some 0 else none
  | some i ↦ some (suc i)
]

parent_at : Text → Text → Option ℕ → Text
parent_at root path none = root
parent_at root path (some zero) = root
parent_at root path (some (suc i)) =
    let parent = strip_trailing_slash (take (suc i) path) in
    if ltb (length parent) (length root) then root else parent

unfoldable pub parent_directory : Text → Text → Text
unfolding parent_at strip_trailing_slash last_slash
parent_directory root path = parent_at (strip_trailing_slash root) path (last_slash path)

crumbs_from : Text → List Text → List Text
crumbs_from accumulated [] = []
crumbs_from accumulated (segment ∷ rest) =
    let deeper = below accumulated segment in
    let skipped = crumbs_from accumulated rest in
    let shown = deeper ∷ crumbs_from deeper rest in if is_empty segment then skipped else shown

unfoldable pub root_crumbs : Text → Text → List Text
unfolding crumbs_from strip_trailing_slash
root_crumbs root path =
    let normalized_root = strip_trailing_slash root in
    let prefix = normalized_root ++ b'/' ∷ [] in
    if is_empty normalized_root || not (starts_with path prefix)
    then []
    else crumbs_from normalized_root (split b'/' (drop (length prefix) path))

-- `s.slice(s.lastIndexOf("/") + 1)`
after_last_slash : Text → Text
after_last_slash s = elim (last_slash s) [ none ↦ s | some i ↦ drop (i + 1) s ]

unfoldable pub crumb_label : Text → Text
unfolding after_last_slash strip_trailing_slash last_slash
crumb_label path =
    let trimmed = strip_trailing_slash path in
    let name = after_last_slash trimmed in if is_empty name then trimmed else name
