-- ===== src/Template.antt =====
-- src/container-template.ts: the data of a container template and the errors of the format.
pub mod Names
pub mod Packages
pub mod Paths
pub mod Fields
pub mod Items
pub mod Validate
pub mod Image
pub mod Files
pub mod Naming
pub mod Requirements
pub mod MountInputs
pub mod Export
use dsh_podman.Prelude.{ℕ, List, Option, none, some, Outcome, throw, if◌then◌else◌}
use dsh_podman.Text.{Text, text, ◌===◌}
use dsh_podman.Value.{Value}
use dsh_podman.Dict.{Dict}

-- The base images that a template may name.
pub data BaseImage : Type 0 where
  archlinux ubuntu alpine : BaseImage

abbrev pub base_name : BaseImage → Text
base_name archlinux = text "archlinux"
base_name ubuntu = text "ubuntu"
base_name alpine = text "alpine"

-- `isBaseImage` on a string: the base image that it names, if any.
unfoldable pub base_image : Text → Option BaseImage
base_image value =
    if value === text "archlinux"
    then some archlinux
    else if value === text "ubuntu"
    then some ubuntu
    else if value === text "alpine"
    then some alpine
    else none

pub data MountMode : Type 0 where
  read_only read_write : MountMode

-- A secret mount is read-only and a tmpfs mount read-write: neither has a mode.
pub data TemplateMount : Type 0 where
  project : Text → MountMode → TemplateMount
  volume : Text → Text → MountMode → TemplateMount
  secret : Text → Text → TemplateMount
  tmpfs : Text → TemplateMount

-- The protocol is always tcp.
pub record TemplatePort : Type 0 where
  pub container : ℕ
  pub host : Option ℕ

pub record TemplateImage : Type 0 where
  pub base : BaseImage
  pub packages : List Text

pub record ContainerTemplateSpec : Type 0 where
  pub image : Option BaseImage
  pub image_template : Option TemplateImage
  pub env : Dict
  pub secret_env : Dict
  pub mounts : List TemplateMount
  pub paths : List Text
  pub ports : List TemplatePort

-- The version is always 1 and the kind always dsh-podman/container-template.
pub record ContainerTemplate : Type 0 where
  pub spec : ContainerTemplateSpec

pub data EffectiveImage : Type 0 where
  base_only : BaseImage → EffectiveImage
  with_packages : BaseImage → List Text → EffectiveImage

-- What a message says, with the value that it quotes.
pub data Reason : Type 0 where
  invalid_package_name : Value → Reason
  unknown_key : Text → Reason
  expected_string expected_non_empty_string expected_mapping expected_list : Reason
  document_is_no_mapping expected_mount expected_port : Reason
  env_key_empty : Reason
  env_key_equals env_key_nul env_key_reserved : Text → Reason
  env_value_nul : Reason
  invalid_secret_name invalid_volume_name unknown_mount_kind : Text → Reason
  mount_does_not_take : Text → Text → Reason
  expected_project_path expected_destination : Reason
  invalid_mount_mode : Value → Reason
  invalid_container_port protocol_required invalid_host_port : Reason
  unsupported_protocol unsupported_version unsupported_kind unsupported_base : Value → Reason
  image_and_template image_or_template : Reason
  env_and_secret_env : Text → Reason
  path_units expected_directory : Reason
  names_no_image : Reason
  cyclic_parents not_listed no_parent : Text → Reason
  no_image_id : Text → Reason
  no_destination no_volume no_secret invalid_project : Text → Reason
  unsupported_mount_kind : Text → Text → Reason
  container_protocol : Text → Option Text → Reason
  invalid_workspace_project : Text → Reason

-- A `TemplateError` with its path, or the `TypeError` of a call on what is no function.
pub data TemplateError : Type 0 where
  template_error : Reason → Text → TemplateError
  type_error : TemplateError

abbrev pub Checked : Type 0 → Type 0
Checked A = Outcome TemplateError A

abbrev pub fail : {A : Type 0} → Reason → Text → Checked A
fail reason path = throw (template_error reason path)
