-- ===== src/Mount/Order.antt =====
-- src/mount-order.ts: the order in which the mounts of a container are listed.
pub mod Laws
use dsh_podman.Prelude.{
  ℕ, suc, ◌+◌, ◌*◌, Bool, true, false, List, [], ◌∷◌, Option, none, some, if◌then◌else◌, not, ◌&&◌,
  ◌||◌, ◌==◌, ltb,
}
use dsh_podman.Prelude.Sort.{sort}
use dsh_podman.Text.{Text, text, ◌===◌, is_empty, text_le}
use dsh_podman.Mount.Enums.{mount_kind_rank}

-- `a === b` where `a` may be undefined
abbrev names : Option Text → Text → Bool
names none main_project = false
names (some path) main_project = path === main_project

unfoldable pub is_primary_project_mount : Text → Option Text → Text → Bool
is_primary_project_mount kind path main_project =
    kind === text "project" && (not (is_empty main_project) && names path main_project)

pub record OrderedMount : Type 0 where
  pub kind : Text
  pub project : Text
  pub destination : Text
  pub mode : Text

unfoldable pub mode_rank : OrderedMount → ℕ
mode_rank mount =
    if mount.kind === text "project" || mount.kind === text "volume"
    then (if mount.mode === text "read_write" then 0 else 1)
    else 0

unfoldable pub mount_rank : Text → OrderedMount → ℕ
unfolding mode_rank is_primary_project_mount
mount_rank main_project mount =
    if is_primary_project_mount mount.kind (some mount.project) main_project
    then 0
    else 1 + mount_kind_rank mount.kind * 2 + mode_rank mount

-- The comparator does not put the right mount before the left one.
unfoldable pub mount_le : Text → OrderedMount → OrderedMount → Bool
unfolding mount_rank
mount_le main_project left right =
    let a = mount_rank main_project left in
    let b = mount_rank main_project right in
    if a == b then text_le left.destination right.destination else ltb a b

-- Any type of mounts that has the fields of an ordered mount.
module _ {A : Type 0} (fields : A → OrderedMount) where
  pub indexed : ℕ → List A → List (A × ℕ)
  indexed index [] = []
  indexed index (mount ∷ mounts) = (mount, index) ∷ indexed (suc index) mounts

  abbrev pub entry_le : Text → A × ℕ → A × ℕ → Bool
  entry_le main_project left right = mount_le main_project (fields left.0) (fields right.0)

  unfoldable pub ordered_mounts : List A → Text → List (A × ℕ)
  unfolding indexed
  ordered_mounts mounts main_project = sort (entry_le main_project) (indexed 0 mounts)
