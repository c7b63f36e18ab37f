-- ===== src/Mount/Input.antt =====
-- src/mount-input.ts: a mount as the tools and the settings card give it, for the control plane.
-- Each field is a string or absent, as the schemas of the callers say.
pub mod Laws
use dsh_podman.Prelude.{
  Bool, true, false, List, [], ◌∷◌, Option, none, some, Outcome, ok, throw, if◌then◌else◌, not,
  ◌&&◌, ◌>>=◌, ◌>>◌, throw_if, filter,
}
use dsh_podman.Text.{Text, text, ◌===◌, is_empty, join}
use dsh_podman.Mount.Enums.{
  MountError, project_destination, secret_not_read_only, default_mount_mode, mount_kind_to_proto,
  mount_mode_to_proto,
}

pub record MountArgs : Type 0 where
  pub kind : Option Text
  pub project : Option Text
  pub destination : Option Text
  pub mode : Option Text
  pub volume : Option Text
  pub secret : Option Text

-- A field that is there and is not empty.
abbrev pub given : Option Text → Option Text
given none = none
given (some s) = if is_empty s then none else some s

abbrev pub or_default : Text → Option Text → Text
or_default fallback none = fallback
or_default fallback (some s) = s

by_source : Option Text → Option Text → Text
by_source (some secret) volume = text "secret"
by_source none (some volume) = text "volume"
by_source none none = text "project"

unfoldable pub infer_mount_kind : MountArgs → Text
unfolding by_source
infer_mount_kind args =
    or_default (by_source (given args.secret) (given args.volume)) (given args.kind)

unfoldable pub project_mount_mirror : Text → Text → Text
project_mount_mirror projects_root project =
    join b'/' (filter (λ part. not (is_empty part)) (projects_root ∷ project ∷ []))

-- What the message about a destination names: the project and the path that it lands at.
pub record DestinationReason : Type 0 where
  pub source : Option Text
  pub mirror : Option Text

mirror_of : Option Text → Text → Text
mirror_of none project = []
mirror_of (some projects_root) project = project_mount_mirror projects_root project

reason_for : Option Text → MountArgs → Option Text → Option DestinationReason
unfolding mirror_of
reason_for projects_root args none = none
reason_for projects_root args (some destination) = some (record {
  source = given (some (or_default [] args.project));
  mirror = given (some (mirror_of projects_root (or_default [] args.project)));
})

unfoldable pub project_mount_destination_reason : Option Text → MountArgs → Option DestinationReason
unfolding reason_for project_mount_mirror infer_mount_kind
project_mount_destination_reason projects_root args =
    if not (infer_mount_kind args === text "project")
    then none
    else reason_for projects_root args (given args.destination)

abbrev is_some : Option DestinationReason → Bool
is_some none = false
is_some (some reason) = true

abbrev is_read_write : Option Text → Bool
is_read_write none = false
is_read_write (some mode) = mode === text "read_write"

unfoldable pub validate_mount_input : MountArgs → Option Text → Outcome MountError (Unit {0})
unfolding project_mount_destination_reason
validate_mount_input mount projects_root = do
  throw_if (is_some (project_mount_destination_reason projects_root mount)) project_destination
  throw_if (infer_mount_kind mount === text "secret" && is_read_write mount.mode)
      secret_not_read_only
  ok tt

pub record MountMessage : Type 0 where
  pub project_name : Text
  pub kind : Text
  pub mode : Text
  pub destination : Option Text
  pub volume : Option Text
  pub secret : Option Text

unfoldable pub mount_input_to_proto : MountArgs → Option Text → Outcome MountError MountMessage
unfolding validate_mount_input
mount_input_to_proto mount projects_root = do
  validate_mount_input mount projects_root
  let inferred_kind = infer_mount_kind mount
  kind ← mount_kind_to_proto (some inferred_kind)
  mode ←
      mount_mode_to_proto (some (or_default (default_mount_mode inferred_kind) (given mount.mode)))
  ok (record {
    project_name = or_default [] mount.project;
    kind = kind;
    mode = mode;
    destination = if inferred_kind === text "project" then none else given mount.destination;
    volume = given mount.volume;
    secret = given mount.secret;
  })

pub messages : List MountArgs → Option Text → Outcome MountError (List MountMessage)
unfolding mount_input_to_proto
messages [] projects_root = ok []
messages (mount ∷ mounts) projects_root = do
  message ← mount_input_to_proto mount projects_root
  others ← messages mounts projects_root
  ok (message ∷ others)

-- `none` is undefined: no list, or an empty one.
unfoldable pub mounts_from_input :
    Option (List MountArgs) → Option Text → Outcome MountError (Option (List MountMessage))
unfolding messages
mounts_from_input none projects_root = ok none
mounts_from_input (some []) projects_root = ok none
mounts_from_input (some (mount ∷ mounts)) projects_root = do
  encoded ← messages (mount ∷ mounts) projects_root
  ok (some encoded)
