-- ===== src/Tests/Paths.antt =====
-- Paths below a projects root.
use dsh_podman.Prelude.{◌≡◌, ◌≢◌, refl, true, [], some}
use dsh_podman.Text.{Text, text, ◌===◌, split, join, strip_end, starts_with, has_unit}
use dsh_podman.Segments.{resolve, resolve_from, resolve_path}
use dsh_podman.ProjectPath.{
  typed, accept, strip_trailing_slash, normalize_project_path, project_name_from_host_path,
  decide_project_path, host_path_for_project_name, confine_to_root, is_blank, is_space,
}
use dsh_podman.ProjectPath.Laws.{IsWithin, confine_to_root-IsWithin}
use dsh_podman.ProjectPath.Browsing.{project_name_from_host_path-host_path_for_project_name}
use dsh_podman.Template.Paths.{has_control, normalize_project_text}

abbrev root : Text
root = text "/srv/projects/"

confine_to_root-IsWithin_example :
    IsWithin (strip_trailing_slash root) (confine_to_root root (text "/srv/projects/../../etc"))
confine_to_root-IsWithin_example = confine_to_root-IsWithin root (text "/srv/projects/../../etc")

root_is_not_empty : strip_trailing_slash root ≢ []
unfolding strip_trailing_slash strip_end text
root_is_not_empty e = cc

name_is_not_empty : text "b/c" ≢ []
unfolding text
name_is_not_empty e = cc

normalized : normalize_project_path (text "a/../b//c") ≡ some (text "b/c")
unfolding text ◌===◌ split join resolve resolve_from resolve_path normalize_project_path
normalized = refl

project_name_from_host_path-host_path_for_project_name_example :
    project_name_from_host_path root (host_path_for_project_name root (text "a/../b//c"))
    ≡ some (text "b/c")
project_name_from_host_path-host_path_for_project_name_example =
    project_name_from_host_path-host_path_for_project_name root (text "a/../b//c") (text "b/c")
      root_is_not_empty normalized name_is_not_empty

decided : decide_project_path typed (text "a/../b//c") true ≡ accept (text "b/c")
unfolding text ◌===◌ split join starts_with resolve resolve_from resolve_path normalize_project_path
    decide_project_path is_blank is_space
decided = refl

project_normalized : normalize_project_text (text "a/../b//c") ≡ some (text "b/c")
unfolding text ◌===◌ split join starts_with resolve resolve_from resolve_path normalize_project_text
    has_control has_unit
project_normalized = refl
