-- ===== src/Approval/Reasons.antt =====
-- src/approval-reasons.ts: what a prompt or a denial says, as data, before it is put in words.
use dsh_podman.Prelude.{ℕ, Bool, List, Option}
use dsh_podman.Text.{Text}
use dsh_podman.Value.{Value}
use dsh_podman.Mount.Input.{DestinationReason}

pub record MountFact : Type 0 where
  pub kind : Text
  pub source : Text
  pub destination : Option Text
  pub read_only : Option Bool

pub record TemplateImageFact : Type 0 where
  pub base : Text
  pub packages : Option (List Text)

pub record TemplateLoadRemovals : Type 0 where
  pub mounts : ℕ
  pub env : ℕ
  pub secret_env : ℕ
  pub paths : ℕ

-- `secret_env` pairs a variable with its secret, `ports` a container's port with the host's.
pub record TemplateLoadSummary : Type 0 where
  pub image : TemplateImageFact
  pub mounts : List MountFact
  pub secret_env : List (Text × Text)
  pub ports : List (ℕ × Option ℕ)
  pub env_count : ℕ
  pub path_count : ℕ
  pub removals : TemplateLoadRemovals

pub record ContainerFact : Type 0 where
  pub container : Text
  pub image : Option Text
  pub mounts : Option (List MountFact)
  pub env : Option (List Text)
  pub secret_env : Option (List Text)
  pub paths : Option (List Text)

-- Numbers are kept as the values that the call carries.
pub record IdentityFact : Type 0 where
  pub uid : Option Value
  pub gid : Option Value
  pub groups : Option (List Value)

pub data ReasonFact : Type 0 where
  image_build : Text → Option Text → Option (List Text) → ReasonFact
  image_rebuild image_remove container_remove volume_remove secret_remove : Text → ReasonFact
  image_rebuild_all : ReasonFact
  container_start container_recreate : ContainerFact → ReasonFact
  container_template_load : Text → Option Text → Option TemplateLoadSummary → ReasonFact
  container_template_save : Text → Text → Text → ReasonFact
  container_mount_add container_mount_remove container_mount_update : Text → MountFact → ReasonFact
  container_publish_port : Text → Value → Text → Option Value → ReasonFact
  container_unpublish_port : Text → Value → Text → ReasonFact
  container_path_set : Text → List Text → ReasonFact
  container_path_add container_path_remove container_write container_edit : Text → Text → ReasonFact
  container_secret_add : Text → Text → Text → ReasonFact
  container_secret_remove : Text → Text → ReasonFact
  container_bash : Text → Text → Option Text → IdentityFact → ReasonFact
  container_exec : Text → List Text → Option Text → IdentityFact → ReasonFact
  daemon_start : Text → List Text → Option Text → IdentityFact → ReasonFact

pub data DenialFact : Type 0 where
  read_only read_only_builtin read_only_remount_declined : Text → DenialFact
  project_destination : DestinationReason → DenialFact
