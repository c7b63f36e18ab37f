-- ===== src/Template/Items.antt =====
-- src/container-template.ts: the mounts, PATH additions and ports of a document.
pub mod Laws
pub mod Inherited
use dsh_podman.Prelude.{
  ℕ, Bool, true, false, List, [], ◌∷◌, Option, none, some, ok, throw, if◌then◌else◌, not, ◌>>=◌,
  ◌>>◌, throw_if, ◌||◌, leb, ◌&&◌,
}
use dsh_podman.Text.{Text, text, ◌===◌, includes, has_unit}
use dsh_podman.Value.{
  Value, undef, str, num, obj, Fields, get, own_entries, has_key, prototype_names, null, bool,
  other_num, arr,
}
use dsh_podman.Mount.Enums.{default_mount_mode}
use dsh_podman.Template.{
  Checked, fail, TemplateError, template_error, type_error, TemplateMount, project, volume, secret,
  tmpfs, MountMode, read_only, read_write, TemplatePort, expected_mount, expected_port,
  unknown_mount_kind, mount_does_not_take, expected_project_path, expected_destination,
  invalid_mount_mode, invalid_volume_name, invalid_container_port, protocol_required,
  unsupported_protocol, invalid_host_port, path_units, expected_directory,
}
use dsh_podman.Template.Names.{matches_secret}
use dsh_podman.Template.Paths.{
  clean_absolute_path, clean_absolute_text, normalize_project_path, has_control,
}
use dsh_podman.Template.Fields.{dotted, reject_unknown, string_value, non_empty_string, secret_name}

-- `MOUNT_KEYS[kind]`: the table is a plain object, so a name of `Object.prototype` finds what is no
-- set of keys.
pub data MountKeys : Type 0 where
  keys : List Text → MountKeys
  inherited absent : MountKeys

unfoldable pub mount_keys : Text → MountKeys
mount_keys kind =
    if kind === text "project"
    then keys (text "kind" ∷ text "project" ∷ text "mode" ∷ [])
    else if kind === text "volume"
    then keys (text "kind" ∷ text "volume" ∷ text "destination" ∷ text "mode" ∷ [])
    else if kind === text "secret"
    then keys (text "kind" ∷ text "secret" ∷ text "destination" ∷ [])
    else if kind === text "tmpfs"
    then keys (text "kind" ∷ text "destination" ∷ [])
    else if includes kind prototype_names
    then inherited
    else absent

-- The keys of other kinds, which a message names as such.
unfoldable pub forbidden_keys : Text → List Text
forbidden_keys kind =
    if kind === text "project"
    then text "destination" ∷ text "volume" ∷ text "secret" ∷ []
    else if kind === text "tmpfs"
    then text "project" ∷ text "volume" ∷ text "secret" ∷ text "size" ∷ text "mode" ∷ []
    else if kind === text "secret"
    then text "mode" ∷ []
    else []

reject_forbidden : Text → List Text → Fields → Text → Checked (Unit {0})
reject_forbidden kind [] value path = ok tt
reject_forbidden kind (key ∷ rest) value path =
    let others = reject_forbidden kind rest value path in
    if has_key key value then fail (mount_does_not_take kind key) (dotted path key) else others

-- A mode of the two that the type allows, from its spelling.
unfoldable pub mount_mode_of : Text → MountMode
mount_mode_of mode = if mode === text "read_write" then read_write else read_only

unfoldable pub parse_mount_mode : Value → Text → Text → Checked MountMode
parse_mount_mode undef path kind = ok (mount_mode_of (default_mount_mode kind))
parse_mount_mode (str mode) path kind =
    if mode === text "read_only"
    then ok read_only
    else if mode === text "read_write"
    then ok read_write
    else fail (invalid_mount_mode (str mode)) path
parse_mount_mode value path kind = fail (invalid_mount_mode value) path

-- `if (x === undefined) throw e`
abbrev pub require : {A : Type 0} → Option A → TemplateError → Checked A
require none e = throw e
require (some x) e = ok x

destination_of : Fields → Text → Checked Text
destination_of value path =
    require (clean_absolute_path (get (text "destination") value))
      (template_error expected_destination (dotted path (text "destination")))

project_of : Fields → Text → Checked TemplateMount
project_of value path = do
  found ←
      require (normalize_project_path (get (text "project") value))
        (template_error expected_project_path (dotted path (text "project")))
  mode ← parse_mount_mode (get (text "mode") value) (dotted path (text "mode")) (text "project")
  ok (project found mode)

tmpfs_of : Fields → Text → Checked TemplateMount
tmpfs_of value path = do destination ← destination_of value path; ok (tmpfs destination)

secret_of : Fields → Text → Checked TemplateMount
secret_of value path = do
  destination ← destination_of value path
  name ← secret_name (get (text "secret") value) (dotted path (text "secret"))
  ok (secret name destination)

volume_of : Fields → Text → Checked TemplateMount
volume_of value path = do
  destination ← destination_of value path
  name ← non_empty_string (get (text "volume") value) (dotted path (text "volume"))
  throw_if (not (matches_secret name))
      (template_error (invalid_volume_name name) (dotted path (text "volume")))
  mode ← parse_mount_mode (get (text "mode") value) (dotted path (text "mode")) (text "volume")
  ok (volume name destination mode)

by_kind : {A : Type 0} → Text → A → A → A → A → A
by_kind kind for_project for_tmpfs for_secret for_volume =
    if kind === text "project"
    then for_project
    else if kind === text "tmpfs"
    then for_tmpfs
    else if kind === text "secret"
    then for_secret
    else for_volume

mount_of : Text → Fields → Text → Checked TemplateMount
unfolding by_kind project_of tmpfs_of secret_of volume_of destination_of
mount_of kind value path =
    by_kind kind (project_of value path) (tmpfs_of value path) (secret_of value path)
      (volume_of value path)

-- `rejectUnknown` on what `MOUNT_KEYS[kind]` found: an object that is no set has no `has` to call, so
-- that the first own entry of the mount ends in a type error.
reject_entries_of : Option (List Text) → Fields → List (Text × Value) → Text → Checked (Unit {0})
reject_entries_of (some allowed) value entries path = reject_unknown value allowed path
reject_entries_of none value [] path = ok tt
reject_entries_of none value (entry ∷ entries) path = throw type_error

mount_with : Option (List Text) → Text → Fields → Text → Checked TemplateMount
unfolding mount_of reject_forbidden reject_entries_of
mount_with allowed kind value path = do
  reject_forbidden kind (forbidden_keys kind) value path
  reject_entries_of allowed value (own_entries value) path
  mount_of kind value path

mount_allowed : MountKeys → Text → Fields → Text → Checked TemplateMount
unfolding mount_with
mount_allowed absent kind value path = fail (unknown_mount_kind kind) (dotted path (text "kind"))
mount_allowed inherited kind value path = mount_with none kind value path
mount_allowed (keys allowed) kind value path = mount_with (some allowed) kind value path

unfoldable pub parse_mount : Value → Text → Checked TemplateMount
unfolding mount_allowed
parse_mount (obj value) path = do
  kind ← non_empty_string (get (text "kind") value) (dotted path (text "kind"))
  mount_allowed (mount_keys kind) kind value path
parse_mount _ path = fail expected_mount path

-- A number that is an integer between two bounds.
abbrev port_in : ℕ → Value → Option ℕ
port_in least (num n) = if leb least n && leb n 65535 then some n else none
port_in least _ = none

check_protocol : Value → Text → Checked (Unit {0})
check_protocol undef path = fail protocol_required (dotted path (text "protocol"))
check_protocol (str protocol) path =
    if protocol === text "tcp"
    then ok tt
    else fail (unsupported_protocol (str protocol)) (dotted path (text "protocol"))
check_protocol value path = fail (unsupported_protocol value) (dotted path (text "protocol"))

host_of : Value → Text → Checked (Option ℕ)
host_of undef path = ok none
host_of value path = do
  port ← require (port_in 1024 value) (template_error invalid_host_port (dotted path (text "host")))
  ok (some port)

unfoldable pub parse_port : Value → Text → Checked TemplatePort
unfolding check_protocol host_of
parse_port (obj value) path = do
  reject_unknown value (text "container" ∷ text "host" ∷ text "protocol" ∷ []) path
  container ←
      require (port_in 1 (get (text "container") value))
        (template_error invalid_container_port (dotted path (text "container")))
  check_protocol (get (text "protocol") value) path
  host ← host_of (get (text "host") value) path
  ok (record { container = container; host = host })
parse_port _ path = fail expected_port path

unfoldable pub parse_path : Value → Text → Checked Text
parse_path value path = do
  s ← string_value value path
  throw_if (has_unit b':' s || has_control s) (template_error path_units path)
  require (clean_absolute_text s) (template_error expected_directory path)
