-- ===== src/Mount/ReadOnly.antt =====
-- src/read-only-shell.ts: the gate that lets a tool run once the mounts are read-only.
-- The control plane and the user stand outside: what the list of containers is and what the user
-- answers are arguments, and the request that recreates a container is part of the result.
pub mod Laws
use dsh_podman.Prelude.{
  Bool, true, false, List, [], ◌∷◌, Option, none, some, Outcome, ok, throw, if◌then◌else◌, not,
  ◌&&◌, ◌||◌, ◌>>=◌, filter, find?, map,
}
use dsh_podman.Text.{Text, text, ◌===◌, is_empty, includes}
use dsh_podman.Value.{Value, undef, null, bool, num, other_num, str, arr, obj}
use dsh_podman.Mount.Enums.{MountError, mount_kind_from_proto, mount_kind_to_proto}

abbrev pub read_only_gated_tools : List Text
read_only_gated_tools =
    text "bash"
    ∷ text "pwsh"
    ∷ text "write"
    ∷ text "edit"
    ∷ text "container_bash"
    ∷ text "container_exec"
    ∷ text "container_write"
    ∷ text "container_edit"
    ∷ text "daemon_start"
    ∷ []

-- A mount as the container list gives it; `undef` is a field that is not there.
pub record StoredMount : Type 0 where
  pub project_name : Value
  pub kind : Value
  pub mode : Value
  pub destination : Value
  pub volume : Value
  pub secret : Value

pub record ContainerRow : Type 0 where
  pub workspace_slug : Text
  pub container_name : Text
  pub mounts : List StoredMount

-- `value === s`
abbrev pub equals : Value → Text → Bool
equals (str t) s = t === s
equals value s = false

-- `typeof value === "string" ? value : undefined`
abbrev pub as_string : Value → Option Text
as_string (str s) = some s
as_string value = none

unfoldable pub container_of : Value → Text
container_of (str container) = if is_empty container then text "default" else container
container_of value = text "default"

unfoldable pub carries_mode : Value → Bool
carries_mode undef = true
carries_mode (str kind) =
    is_empty kind || (kind === text "MOUNT_KIND_PROJECT" || kind === text "MOUNT_KIND_VOLUME")
carries_mode kind = false

-- The mounts of a container of a workspace; `none` where the call failed or lists no such container.
unfoldable pub read_container_mounts :
    Option (List ContainerRow) → Text → Text → Option (List StoredMount)
read_container_mounts none slug container = none
read_container_mounts (some rows) slug container =
    elim (find? (λ row. row.workspace_slug === slug && row.container_name === container) rows) [
      | none ↦ none
      | some row ↦ some row.mounts
    ]

-- A mount of the request that recreates a container; `none` is a field that is not sent.
pub record MountRequest : Type 0 where
  pub project_name : Text
  pub kind : Text
  pub mode : Option Text
  pub destination : Option Text
  pub volume : Option Text
  pub secret : Option Text

abbrev or_blank : Option Text → Text
or_blank none = []
or_blank (some s) = s

-- A string that is there and is not empty.
abbrev non_empty : Option Text → Option Text
non_empty none = none
non_empty (some s) = if is_empty s then none else some s

abbrev is_tmpfs : Option Text → Bool
is_tmpfs none = false
is_tmpfs (some kind) = kind === text "tmpfs"

unfoldable pub requested_mode : StoredMount → Option Text
requested_mode mount =
    if carries_mode mount.kind
    then some (text "MOUNT_MODE_READ_ONLY")
    else if is_tmpfs (mount_kind_from_proto (as_string mount.kind))
    then some (text "MOUNT_MODE_READ_WRITE")
    else none

unfoldable pub read_only_mount_request : StoredMount → Outcome MountError MountRequest
unfolding requested_mode
read_only_mount_request mount = do
  kind ← mount_kind_to_proto (mount_kind_from_proto (as_string mount.kind))
  ok (record {
    project_name = or_blank (as_string mount.project_name);
    kind = kind;
    mode = requested_mode mount;
    destination = non_empty (as_string mount.destination);
    volume = non_empty (as_string mount.volume);
    secret = non_empty (as_string mount.secret);
  })

pub read_only_mount_requests : List StoredMount → Outcome MountError (List MountRequest)
unfolding read_only_mount_request
read_only_mount_requests [] = ok []
read_only_mount_requests (mount ∷ mounts) = do
  request ← read_only_mount_request mount
  requests ← read_only_mount_requests mounts
  ok (request ∷ requests)

-- A mount that would have to be remounted.
unfoldable pub is_writable : StoredMount → Bool
is_writable mount = carries_mode mount.kind && not (equals mount.mode (text "MOUNT_MODE_READ_ONLY"))

pub data ReadOnlyShellDecision : Type 0 where
  undecided allow deny : ReadOnlyShellDecision

-- What the gate returns, and the mounts of the request that it sends, if it sends one.
pub record GateResult : Type 0 where
  pub decision : ReadOnlyShellDecision
  pub recreated : Option (List MountRequest)

abbrev pub decided : ReadOnlyShellDecision → GateResult
decided decision = record { decision = decision; recreated = none }

-- What the gate may reject with: the error of a call that it awaits, or of a mount's kind.
pub data GateFailure (E : Type 0) : Type 0 where
  call_failed : E → GateFailure E
  mount_failed : MountError → GateFailure E

-- `approve` is the user's answer to the mounts to remount and those to keep, `slug_later` is the
-- answer of `sessionWorkspaceSlug` once the user approved, and `recreate_container` is the
-- orchestrator's answer to a workspace, a container and mounts. Each of them may fail.
module _ {E : Type 0} (approve : Text → List StoredMount → List StoredMount → Outcome E Bool)
    (slug_later : Outcome E Text)
    (recreate_container : Text → Text → List MountRequest → Outcome E (Unit {0})) where
  abbrev recreated_by :
      List MountRequest → Outcome E (Unit {0}) → Outcome (GateFailure E) GateResult
  recreated_by requests (ok done) = ok (record { decision = allow; recreated = some requests })
  recreated_by requests (throw e) = throw (call_failed e)

  abbrev requested_by :
      Text → Text → Outcome MountError (List MountRequest) → Outcome (GateFailure E) GateResult
  requested_by slug container (ok requests) =
      recreated_by requests (recreate_container slug container requests)
  requested_by slug container (throw e) = throw (mount_failed e)

  -- `remountReadOnly`
  remounted : Text → List StoredMount → Outcome E Text → Outcome (GateFailure E) GateResult
  unfolding read_only_mount_requests
  remounted container mounts (ok slug) =
      requested_by slug container (read_only_mount_requests mounts)
  remounted container mounts (throw e) = throw (call_failed e)

  abbrev answered : Text → List StoredMount → Outcome E Bool → Outcome (GateFailure E) GateResult
  answered container mounts (ok true) = remounted container mounts slug_later
  answered container mounts (ok false) = ok (decided deny)
  answered container mounts (throw e) = throw (call_failed e)

  asked : Text → Text → List StoredMount → List StoredMount → Outcome (GateFailure E) GateResult
  unfolding remounted
  asked name container mounts [] = ok (decided allow)
  asked name container mounts (writable ∷ others) =
      answered container mounts
        (approve name (writable ∷ others) (filter (λ mount. not (is_writable mount)) mounts))

  gated : Text → Text → Option (List StoredMount) → Outcome (GateFailure E) GateResult
  unfolding asked is_writable
  gated name container none = ok (decided undecided)
  gated name container (some mounts) = asked name container mounts (filter is_writable mounts)

  unfoldable pub read_only_shell_gate :
      Text → Value → Text → Option (List ContainerRow) → Outcome (GateFailure E) GateResult
  unfolding gated read_container_mounts container_of
  read_only_shell_gate name container slug rows =
      if not (includes name read_only_gated_tools)
      then ok (decided undecided)
      else gated name (container_of container)
          (read_container_mounts rows slug (container_of container))
