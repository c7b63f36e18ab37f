-- ===== src/Binding.antt =====
-- src/workspace-binding.ts: how a workspace, a container or the shared PTC container is bound to
-- its guest agent.
pub mod Paths
pub mod Cache
pub mod Task
pub mod Resolver
use dsh_podman.Prelude.{ℕ, Bool, List, Option, Outcome}
use dsh_podman.Text.{Text}
use dsh_podman.Dict.{Dict}

-- The errors: a gRPC status that the code reads, any other error of a call, and its own.
pub data Failure : Type 0 where
  not_found : Failure
  unauthenticated : Failure
  failed : Text → Failure
  container_not_found : Text → Option Text → Failure
  no_working_directory : Failure
  no_owner : Text → Failure
  invalid_workspace_id : Text → Failure
  outside_projects : Text → Failure
  no_workspace_contains : Text → Failure
  unresolved_path : Text → Failure

pub record BoundMount : Type 0 where
  pub kind : Text
  pub project_name : Text

-- What the orchestrator tells of a container.
pub record Row : Type 0 where
  pub agent_socket_path : Text
  pub agent_token : Text
  pub mounts : List BoundMount

-- What the closure `refresh` of a binding does.
pub data Refresh : Type 0 where
  of_container : Text → Text → Text → Refresh
  of_workspace : Text → Text → Refresh

pub record WorkspaceBinding : Type 0 where
  pub socket : Text
  pub token : Text
  pub default_cwd : Option Text
  pub refresh : Refresh

pub record ContainerEntry : Type 0 where
  pub binding : WorkspaceBinding
  pub mounts : List BoundMount

pub record RegisteredWorkspace : Type 0 where
  pub id : Text
  pub path : Text

pub record BindingConfig : Type 0 where
  pub projects_root : Text
  pub default_image : Text
  pub container_env : Option Dict
  pub dsh_version : Text
