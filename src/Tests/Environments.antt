-- ===== src/Tests/Environments.antt =====
-- Default environments, identities, and the spellings of kinds, modes and protocols.
use dsh_podman.Prelude.{
  ◌≡◌, refl, Bool, true, false, List, [], ◌∷◌, Option, none, some, Outcome, ok, throw, ◌||◌,
  if◌then◌else◌,
}
use dsh_podman.Text.{Text, text, ◌===◌, is_empty, includes}
use dsh_podman.Value.{undef, str}
use dsh_podman.Dict.{Dict, get}
use dsh_podman.Dict.Laws.{IsMap, or_else}
use dsh_podman.Env.Defaults.{merge_default_env, read_git_identity, set_git_identity}
use dsh_podman.Env.Defaults.Laws.{default_of, merge_default_env-get}
use dsh_podman.Env.Defaults.Identity.{read_git_identity-set_git_identity}
use dsh_podman.Mount.Enums.{default_mount_mode, mount_kind_to_proto, mount_mode_to_proto}
use dsh_podman.Mount.ReadOnly.{StoredMount, ContainerRow, MountRequest}
use dsh_podman.Mount.Input.{MountArgs, MountMessage, given, infer_mount_kind, mount_input_to_proto}
use dsh_podman.Mount.Input.Laws.{mount_input_to_proto-eq-ok}
use dsh_podman.Version.{core}

abbrev defaults : Dict
defaults = record {
  inherits = true;
  entries =
      (text "EDITOR", text "vi")
      ∷ (text "DSH_PODMAN_X", text "1")
      ∷ (text "PAGER", text "less")
      ∷ [];
}

abbrev env : Dict
env = record { inherits = true; entries = (text "EDITOR", text "nano") ∷ [] }

defaults-IsMap : IsMap defaults.entries
unfolding includes text ◌===◌
defaults-IsMap = (refl, (refl, (refl, tt)))

env-IsMap : IsMap env.entries
unfolding includes text ◌===◌
env-IsMap = (refl, tt)

merge_default_env-get_example :
    get (text "PAGER") (merge_default_env (some defaults) (some env))
    ≡ or_else (get (text "PAGER") env) (default_of (text "PAGER") defaults.entries)
merge_default_env-get_example =
    merge_default_env-get (text "PAGER") defaults env defaults-IsMap env-IsMap

no_identity_variable :
    includes (text "EDITOR") (
      text "GIT_AUTHOR_NAME"
      ∷ text "GIT_AUTHOR_EMAIL"
      ∷ text "GIT_COMMITTER_NAME"
      ∷ text "GIT_COMMITTER_EMAIL"
      ∷ [])
    ≡ false
unfolding includes text ◌===◌
no_identity_variable = refl

read_git_identity-set_git_identity_example :
    read_git_identity (some (set_git_identity env (text "Ada") (text "ada@b.c"))) ≡ (
      if is_empty (text "Ada") || is_empty (text "ada@b.c")
      then record { name = []; email = [] }
      else record { name = text "Ada"; email = text "ada@b.c" })
read_git_identity-set_git_identity_example =
    read_git_identity-set_git_identity env (text "Ada") (text "ada@b.c") env-IsMap

abbrev stored : StoredMount
stored = record {
  project_name = str (text "app");
  kind = str (text "MOUNT_KIND_PROJECT");
  mode = str (text "MOUNT_MODE_READ_WRITE");
  destination = undef;
  volume = undef;
  secret = undef;
}

abbrev rows : Option (List ContainerRow)
rows = some (
    record { workspace_slug = text "w"; container_name = text "default"; mounts = stored ∷ [] }
    ∷ [])

abbrev always : Text → List StoredMount → List StoredMount → Outcome Text Bool
always tool remount keep = ok true

-- An orchestrator that is down once the user has approved.
abbrev down : Text → Text → List MountRequest → Outcome Text (Unit {0})
down slug container mounts = throw (text "unavailable")

abbrev secret_args : MountArgs
secret_args = record {
  kind = none;
  project = none;
  destination = some (text "/run/key");
  mode = some [];
  volume = none;
  secret = some (text "deploy");
}

abbrev secret_message : MountMessage
secret_message = record {
  project_name = [];
  kind = text "MOUNT_KIND_SECRET";
  mode = text "MOUNT_MODE_READ_ONLY";
  destination = some (text "/run/key");
  volume = none;
  secret = some (text "deploy");
}

secret_encoded : mount_input_to_proto secret_args none ≡ ok secret_message
unfolding mount_input_to_proto infer_mount_kind default_mount_mode mount_kind_to_proto
    mount_mode_to_proto text ◌===◌
secret_encoded = refl

mount_input_to_proto-eq-ok_example :
    (mount_kind_to_proto (some (infer_mount_kind secret_args)) ≡ ok secret_message.kind)
    × ((infer_mount_kind secret_args === text "project") ≡ true
        → (secret_message.destination ≡ none) × (given secret_args.destination ≡ none))
    × ((infer_mount_kind secret_args === text "secret") ≡ true
        → secret_message.mode ≡ text "MOUNT_MODE_READ_ONLY")
mount_input_to_proto-eq-ok_example =
    mount_input_to_proto-eq-ok secret_args none secret_message secret_encoded

same_core : core (text "1.2.3-4-gabc") ≡ text "1.2.3"
unfolding core text
same_core = refl
