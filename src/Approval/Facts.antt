-- ===== src/Approval/Facts.antt =====
-- src/approval.ts: `reasonFact`, what a prompt says of a call. The keys of a call's arguments are its own, in their order, each once.
pub mod Laws
use dsh_podman.Prelude.{
  ℕ, Bool, true, false, List, [], ◌∷◌, ◌++◌, Option, none, some, Outcome, ok, throw, if◌then◌else◌,
  not, map,
}
use dsh_podman.Text.{Text, text, ◌===◌, is_empty}
use dsh_podman.Value.{
  Value, undef, null, bool, num, other_num, str, arr, obj, Items, nil, cons, Fields, end, field,
  get, items,
}
use dsh_podman.Mount.Enums.{default_mount_mode}
use dsh_podman.Mount.Input.{MountArgs, given, or_default, infer_mount_kind}
use dsh_podman.Mount.ReadOnly.{as_string}
use dsh_podman.Template.Files.{template_directory_name, template_file_name, TemplateFileError}
use dsh_podman.GuestPath.{approval_path}
use dsh_podman.Approval.Reasons.{
  MountFact, ContainerFact, IdentityFact, ReasonFact, image_build, image_rebuild, image_remove,
  container_remove, volume_remove, secret_remove, image_rebuild_all, container_start,
  container_recreate, container_template_load, container_template_save, container_mount_add,
  container_mount_remove, container_mount_update, container_publish_port, container_unpublish_port,
  container_path_set, container_path_add, container_path_remove, container_write, container_edit,
  container_secret_add, container_secret_remove, container_bash, container_exec, daemon_start,
}
use dsh_podman.Approval.Mounts.{◌>>=◌, mount_fact, asks_read_only, mount_items}

-- What the code calls of JavaScript, `String` and `Number`, and of node:path, `resolve`.
pub record Builtins : Type 0 where
  pub resolve_path : Text → Text → Text
  pub string_of : Value → Text
  pub number_of : Value → Value

-- `typeof value === "number" ? value : undefined`
abbrev as_number : Value → Option Value
as_number (num n) = some (num n)
as_number (other_num s) = some (other_num s)
as_number value = none

abbrev non_empty_items : Value → Option (List Value)
non_empty_items (arr (cons value values)) = some (value ∷ items values)
non_empty_items value = none

-- `Object.keys(value)`
pub object_keys : Fields → List Text
object_keys end = []
object_keys (field key value fields) = key ∷ object_keys fields

abbrev non_empty_keys : Value → Option (List Text)
non_empty_keys (obj (field key value fields)) = some (object_keys (field key value fields))
non_empty_keys value = none

abbrev non_empty_facts : List MountFact → Option (List MountFact)
non_empty_facts [] = none
non_empty_facts (fact ∷ facts) = some (fact ∷ facts)

or_requested : Text → Outcome TemplateFileError Text → Text
or_requested name (ok file) = file
or_requested name (throw e) = name

unfoldable pub template_file_for_approval : Text → Text
unfolding or_requested
template_file_for_approval name = or_requested name (template_file_name (str name))

-- The case of a `switch` for a name.
unfoldable pub switch {ℓ} : {A : Type ℓ} → Text → List (Text × Option A) → Option A
switch name [] = none
switch name ((label, result) ∷ cases) = if name === label then result else switch name cases

module _ (js : Builtins) where
  module _ (args : Fields) where
    string_at : Text → Option Text
    string_at key = given (as_string (get key args))

    list_at : Text → Option (List Text)
    list_at key = do values ← non_empty_items (get key args); some (map js.string_of values)

    numbers_at : Text → Option (List Value)
    numbers_at key = do values ← non_empty_items (get key args); some (map js.number_of values)

    identity_fact : IdentityFact
    unfolding numbers_at
    identity_fact = record {
      uid = as_number (get (text "uid") args);
      gid = as_number (get (text "gid") args);
      groups = numbers_at (text "groups");
    }

    mounts_at : Option (List MountFact)
    mounts_at = do
      values ← non_empty_items (get (text "mounts") args)
      non_empty_facts (mount_items values)

    -- The facts that name one, two or three strings, or a container with its mounts.
    unfoldable pub one : Text → (Text → ReasonFact) → Option ReasonFact
    unfolding string_at
    one key fact = do value ← string_at key; some (fact value)

    pub two : Text → Text → (Text → Text → ReasonFact) → Option ReasonFact
    unfolding string_at
    two key other fact = do
      value ← string_at key
      second ← string_at other
      some (fact value second)

    pub three : Text → Text → Text → (Text → Text → Text → ReasonFact) → Option ReasonFact
    unfolding string_at
    three key other last fact = do
      value ← string_at key
      second ← string_at other
      third ← string_at last
      some (fact value second third)

    pub replaced : (ContainerFact → ReasonFact) → Option ReasonFact
    unfolding string_at mounts_at list_at
    replaced fact = do
      container ← string_at (text "container")
      some (
          fact (record {
            container = container;
            image = string_at (text "image");
            mounts = mounts_at;
            env = non_empty_keys (get (text "env") args);
            secret_env = non_empty_keys (get (text "secretEnv") args);
            paths = list_at (text "paths");
          }))

    pub changed_mount : Option Bool → (Text → MountFact → ReasonFact) → Option ReasonFact
    unfolding string_at
    changed_mount read_only fact = do
      container ← string_at (text "container")
      mount ← mount_fact args read_only
      some (fact container mount)

    pub port_fact : (Text → Value → Text → ReasonFact) → Option ReasonFact
    unfolding string_at
    port_fact fact = do
      container ← string_at (text "container")
      port ← as_number (get (text "port") args)
      some (fact container port (or_default (text "tcp") (string_at (text "protocol"))))

    path_items : Value → List Text
    path_items (arr values) = map js.string_of (items values)
    path_items value = []

    pub saved_template : Value → Option ReasonFact
    unfolding string_at template_file_for_approval
    saved_template session_cwd = do
      name ← string_at (text "name")
      container ← string_at (text "container")
      let file = template_file_for_approval name
      some (
          container_template_save file container
            (approval_path js.resolve_path (template_directory_name ++ b'/' ∷ file) session_cwd))

    pub run_fact : (Text → List Text → ReasonFact) → Option ReasonFact
    unfolding string_at list_at
    run_fact fact = do
      container ← string_at (text "container")
      argv ← list_at (text "argv")
      some (fact container argv)

    unfoldable pub reason_cases : Value → List (Text × Option ReasonFact)
    unfolding string_at list_at path_items identity_fact
    reason_cases session_cwd =
        (
          text "image_build",
          one (text "imageId")
              (λ image. image_build image (string_at (text "parent")) (list_at (text "packages"))),
        )
        ∷ (text "image_rebuild", one (text "imageId") image_rebuild)
        ∷ (text "image_rebuild_all", some image_rebuild_all)
        ∷ (text "image_remove", one (text "imageId") image_remove)
        ∷ (text "container_recreate", replaced container_recreate)
        ∷ (text "container_start", replaced container_start)
        ∷ (text "container_remove", one (text "container") container_remove)
        ∷ (
          text "container_publish_port",
          port_fact (λ container port protocol.
              container_publish_port container port protocol
                (as_number (get (text "suggestedHostPort") args))),
        )
        ∷ (text "container_unpublish_port", port_fact container_unpublish_port)
        ∷ (text "volume_remove", one (text "name") volume_remove)
        ∷ (text "secret_remove", one (text "name") secret_remove)
        ∷ (
          text "container_secret_add",
          three (text "container") (text "secret") (text "env") container_secret_add,
        )
        ∷ (
          text "container_secret_remove",
          two (text "container") (text "env") container_secret_remove,
        )
        ∷ (
          text "container_mount_add",
          changed_mount (some (asks_read_only args)) container_mount_add,
        )
        ∷ (text "container_mount_remove", changed_mount none container_mount_remove)
        ∷ (
          text "container_mount_update",
          changed_mount (some (asks_read_only args)) container_mount_update,
        )
        ∷ (
          text "container_path_set",
          one (text "container")
              (λ container. container_path_set container (path_items (get (text "paths") args))),
        )
        ∷ (text "container_path_add", two (text "container") (text "path") container_path_add)
        ∷ (text "container_path_remove", two (text "container") (text "path") container_path_remove)
        ∷ (
          text "container_template_load",
          one (text "template")
              (λ template. container_template_load template (string_at (text "container")) none),
        )
        ∷ (text "container_template_save", saved_template session_cwd)
        ∷ (
          text "container_bash",
          two (text "container") (text "command") (λ container command.
              container_bash container command (string_at (text "workdir")) identity_fact),
        )
        ∷ (
          text "container_exec",
          run_fact (λ container argv.
              container_exec container argv (string_at (text "workdir")) identity_fact),
        )
        ∷ (
          text "container_write",
          two (text "container") (text "file_path") (λ container path.
              container_write container (approval_path js.resolve_path path session_cwd)),
        )
        ∷ (
          text "container_edit",
          two (text "container") (text "file_path") (λ container path.
              container_edit container (approval_path js.resolve_path path session_cwd)),
        )
        ∷ (
          text "daemon_start",
          run_fact (λ container argv.
              daemon_start container argv (string_at (text "name")) identity_fact),
        )
        ∷ []

  unfoldable pub reason_fact : Text → Fields → Value → Option ReasonFact
  unfolding reason_cases switch
  reason_fact name args session_cwd = switch name (reason_cases args session_cwd)
