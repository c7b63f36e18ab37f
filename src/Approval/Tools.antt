-- ===== src/Approval/Tools.antt =====
-- src/tool-defs.ts: which tools there are and which of them ask; the sets of tools of src/approval.ts.
use dsh_podman.Prelude.{
  Bool, true, false, List, [], ◌∷◌, Option, none, some, if◌then◌else◌, ◌||◌, map, find?,
}
use dsh_podman.Text.{Text, text, ◌===◌}
use dsh_podman.Value.{Value, arr, obj, cons, Fields, field, get}

-- Of a tool's definition: its name, and what decides on approval.
pub record ToolDefinition : Type 0 where
  pub name : Text
  pub approval : Bool
  pub approval_when : Option (Fields → Bool)

abbrev plain : Text → ToolDefinition
plain name = record { name = name; approval = false; approval_when = none }

abbrev asking : Text → ToolDefinition
asking name = record { name = name; approval = true; approval_when = none }

abbrev asking_when : Text → (Fields → Bool) → ToolDefinition
asking_when name test = record { name = name; approval = false; approval_when = some test }

abbrev is_filled_object : Value → Bool
is_filled_object (obj (field key value fields)) = true
is_filled_object value = false

abbrev pub is_filled_array : Value → Bool
is_filled_array (arr (cons value values)) = true
is_filled_array value = false

unfoldable pub has_secret_env : Fields → Bool
has_secret_env args = is_filled_object (get (text "secretEnv") args)

unfoldable pub has_mounts : Fields → Bool
has_mounts args = is_filled_array (get (text "mounts") args)

unfoldable pub tools : List ToolDefinition
unfolding has_mounts has_secret_env
tools =
    plain (text "image_list")
    ∷ plain (text "image_get")
    ∷ asking (text "image_build")
    ∷ asking (text "image_rebuild")
    ∷ asking (text "image_rebuild_all")
    ∷ asking (text "image_remove")
    ∷ plain (text "container_list")
    ∷ asking (text "container_template_load")
    ∷ plain (text "container_template_export")
    ∷ asking (text "container_template_save")
    ∷ asking_when (text "container_start") (λ args. has_mounts args || has_secret_env args)
    ∷ asking (text "container_recreate")
    ∷ asking (text "container_remove")
    ∷ plain (text "container_bash")
    ∷ plain (text "container_exec")
    ∷ plain (text "container_read")
    ∷ plain (text "container_write")
    ∷ plain (text "container_edit")
    ∷ plain (text "container_glob")
    ∷ plain (text "container_grep")
    ∷ plain (text "container_mount_list")
    ∷ asking (text "container_mount_add")
    ∷ asking (text "container_mount_remove")
    ∷ asking (text "container_mount_update")
    ∷ asking (text "container_publish_port")
    ∷ asking (text "container_unpublish_port")
    ∷ asking (text "container_path_set")
    ∷ asking (text "container_path_add")
    ∷ asking (text "container_path_remove")
    ∷ plain (text "volume_list")
    ∷ plain (text "volume_create")
    ∷ asking (text "volume_remove")
    ∷ plain (text "secret_list")
    ∷ plain (text "secret_create")
    ∷ asking (text "secret_remove")
    ∷ asking (text "container_secret_add")
    ∷ asking (text "container_secret_remove")
    ∷ plain (text "daemon_start")
    ∷ plain (text "daemon_list")
    ∷ plain (text "daemon_stop")
    ∷ plain (text "daemon_restart")
    ∷ plain (text "daemon_logs")
    ∷ []

unfoldable pub our_tool_names : List Text
unfolding tools
our_tool_names = map (λ tool. tool.name) tools

abbrev pub read_only_tools : List Text
read_only_tools =
    text "image_list"
    ∷ text "image_get"
    ∷ text "container_list"
    ∷ text "container_read"
    ∷ text "container_glob"
    ∷ text "container_grep"
    ∷ text "container_mount_list"
    ∷ text "volume_list"
    ∷ text "secret_list"
    ∷ text "daemon_list"
    ∷ text "daemon_logs"
    ∷ text "container_template_export"
    ∷ []

abbrev pub podman_ops_approval_tools : List Text
podman_ops_approval_tools =
    text "container_bash"
    ∷ text "container_exec"
    ∷ text "container_write"
    ∷ text "container_edit"
    ∷ text "daemon_start"
    ∷ []

abbrev pub builtin_file_tools : List Text
builtin_file_tools = text "write" ∷ text "edit" ∷ text "bash" ∷ text "pwsh" ∷ []

abbrev or_never : Option (Fields → Bool) → Fields → Bool
or_never none args = false
or_never (some test) args = test args

abbrev asks_of : Option ToolDefinition → Fields → Bool
asks_of none args = false
asks_of (some tool) args = if tool.approval then true else or_never tool.approval_when args

-- Whether `approvalDecision` asks, of the tool that the name finds.
unfoldable pub asks : Text → Fields → Bool
unfolding tools
asks name args = asks_of (find? (λ tool. tool.name === name) tools) args
