-- ===== src/Template/MountInputs.antt =====
-- src/container-template.ts: the mounts of a template in the shape that the editor and the
-- orchestrator request share.
pub mod Laws
use dsh_podman.Prelude.{
  ℕ, Bool, true, false, List, [], ◌∷◌, Option, none, some, ok, if◌then◌else◌, not, ◌&&◌, find?,
  filter, map,
}
use dsh_podman.Text.{Text, text, ◌===◌}
use dsh_podman.Value.{str}
use dsh_podman.Mount.Enums.{normalize_mount_mode}
use dsh_podman.Template.{
  Checked, fail, TemplateMount, project, volume, secret, tmpfs, MountMode, read_only, read_write,
  ContainerTemplate, invalid_workspace_project,
}
use dsh_podman.Template.Paths.{normalize_project_text}

pub record TemplateMountInput : Type 0 where
  pub kind : Text
  pub project : Text
  pub destination : Text
  pub mode : Text
  pub volume : Text
  pub secret : Text

abbrev pub mode_name : MountMode → Text
mode_name read_only = text "read_only"
mode_name read_write = text "read_write"

unfoldable pub mount_input : Text → Text → Text → Text → TemplateMountInput
mount_input kind path destination mode = record {
  kind = kind;
  project = path;
  destination = destination;
  mode = mode;
  volume = [];
  secret = [];
}

-- A secret mount counts as read-only and a tmpfs mount as read-write.
unfoldable pub template_mount_input : TemplateMount → TemplateMountInput
unfolding mount_input
template_mount_input (project path mode) = mount_input (text "project") path [] (mode_name mode)
template_mount_input (volume name destination mode) =
    record (mount_input (text "volume") [] destination (mode_name mode)) { volume = name }
template_mount_input (secret name destination) =
    record (mount_input (text "secret") [] destination (text "read_only")) { secret = name }
template_mount_input (tmpfs destination) =
    mount_input (text "tmpfs") [] destination (text "read_write")

-- Whether a mount is the project mount of a path.
abbrev pub mounts_project : Text → TemplateMountInput → Bool
mounts_project path mount = mount.kind === text "project" && mount.project === path

module _ (number : Text → Option ℕ) where
  forced_mode : Option TemplateMountInput → Text
  forced_mode none = text "read_write"
  forced_mode (some declared) = normalize_mount_mode number (str declared.mode)

  forced : List TemplateMountInput → Text → Option Text → Checked (List TemplateMountInput)
  forced mounts workspace_project none = fail (invalid_workspace_project workspace_project) []
  forced mounts workspace_project (some path) =
      let mode = forced_mode (find? (mounts_project path) mounts) in
      ok (
        mount_input (text "project") path [] mode
        ∷ filter (λ mount. not (mounts_project path mount)) mounts)

  unfoldable pub with_forced_project_mount :
      List TemplateMountInput → Text → Checked (List TemplateMountInput)
  unfolding forced forced_mode mount_input
  with_forced_project_mount mounts workspace_project =
      forced mounts workspace_project (normalize_project_text workspace_project)

  -- `none` is a call without a workspace project.
  unfoldable pub template_mount_inputs :
      ContainerTemplate → Option Text → Checked (List TemplateMountInput)
  unfolding with_forced_project_mount template_mount_input
  template_mount_inputs template none = ok (map template_mount_input template.spec.mounts)
  template_mount_inputs template (some workspace_project) =
      with_forced_project_mount (map template_mount_input template.spec.mounts) workspace_project
