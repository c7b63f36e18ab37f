-- ===== src/Approval/Mounts.antt =====
-- src/approval.ts: the mounts that a call carries: the facts that a prompt gives of them, and the
-- destinations that are refused.
pub mod Laws
use dsh_podman.Prelude.{Bool, true, false, List, [], ◌∷◌, Option, none, some, if◌then◌else◌, not}
use dsh_podman.Text.{Text, text, ◌===◌, is_empty, includes}
use dsh_podman.Value.{Value, undef, str, arr, obj, Fields, end, get, items}
use dsh_podman.Mount.Enums.{default_mount_mode}
use dsh_podman.Mount.Input.{
  MountArgs, DestinationReason, given, or_default, infer_mount_kind, project_mount_mirror,
}
use dsh_podman.Mount.ReadOnly.{as_string}
use dsh_podman.Approval.Reasons.{MountFact}

infixl 5 ◌>>=◌
unfoldable pub ◌>>=◌ {ℓ κ} : {A : Type ℓ} {B : Type κ} → Option A → (A → Option B) → Option B
none >>= f = none
some a >>= f = f a

-- `typeof value === "object" && value !== null`; an array has none of the keys that are read.
abbrev pub object_of : Value → Option Fields
object_of (obj fields) = some fields
object_of (arr values) = some end
object_of value = none

-- The fields of a mount that are strings.
abbrev pub mount_args : Fields → MountArgs
mount_args mount = record {
  kind = as_string (get (text "kind") mount);
  project = as_string (get (text "project") mount);
  destination = as_string (get (text "destination") mount);
  mode = as_string (get (text "mode") mount);
  volume = as_string (get (text "volume") mount);
  secret = as_string (get (text "secret") mount);
}

abbrev fact_kind_of : Text → Text
fact_kind_of inferred =
    if inferred === text "volume"
    then inferred
    else if inferred === text "secret"
    then inferred
    else if inferred === text "tmpfs"
    then inferred
    else text "project"

abbrev source_of : Text → MountArgs → Text
source_of kind args =
    if kind === text "tmpfs"
    then []
    else if kind === text "volume"
    then or_default [] args.volume
    else if kind === text "secret"
    then or_default [] args.secret
    else or_default [] args.project

unfoldable pub mount_fact : Fields → Option Bool → Option MountFact
mount_fact mount read_only =
    let kind = fact_kind_of (infer_mount_kind (mount_args mount)) in
    let source = source_of kind (mount_args mount) in
    if kind === text "tmpfs"
    then some (record {
      kind = kind;
      source = source;
      destination = given (mount_args mount).destination;
      read_only = read_only;
    })
    else if is_empty source
    then none
    else some (record {
      kind = kind;
      source = source;
      destination = given (mount_args mount).destination;
      read_only = read_only;
    })

-- Whether the mode that a mount asks for, or has by default, is another than read-write.
unfoldable pub asks_read_only : Fields → Bool
asks_read_only mount = not (
    or_default (default_mount_mode (infer_mount_kind (mount_args mount)))
      (given (mount_args mount).mode)
    === text "read_write")

unfoldable pub mount_item : Value → Option MountFact
unfolding mount_fact asks_read_only
mount_item item = do mount ← object_of item; mount_fact mount (some (asks_read_only mount))

abbrev collect : Option MountFact → List MountFact → List MountFact
collect none facts = facts
collect (some fact) facts = fact ∷ facts

unfoldable pub mount_items : List Value → List MountFact
unfolding mount_item
mount_items [] = []
mount_items (item ∷ rest) = collect (mount_item item) (mount_items rest)

abbrev pub is_unset : Value → Bool
is_unset undef = true
is_unset (str s) = is_empty s
is_unset value = false

abbrev mirror_of : Option Text → Text → Text
mirror_of none project = []
mirror_of (some projects_root) project = project_mount_mirror projects_root project

-- `projectMountDestinationReason` of arguments of any type: any value but "" is a destination.
unfoldable pub item_reason : Option Text → Fields → Option DestinationReason
item_reason projects_root mount =
    if not (infer_mount_kind (mount_args mount) === text "project")
    then none
    else if is_unset (get (text "destination") mount)
    then none
    else some (record {
      source = given (some (or_default [] (mount_args mount).project));
      mirror = given (some (mirror_of projects_root (or_default [] (mount_args mount).project)));
    })

abbrev or_later : Option DestinationReason → Option DestinationReason → Option DestinationReason
or_later none later = later
or_later (some reason) later = some reason

pub value_reason : Option Text → Option Fields → Option DestinationReason
value_reason projects_root none = none
value_reason projects_root (some mount) = item_reason projects_root mount

unfoldable pub items_reason : Option Text → List Value → Option DestinationReason
unfolding value_reason
items_reason projects_root [] = none
items_reason projects_root (item ∷ rest) =
    or_later (value_reason projects_root (object_of item)) (items_reason projects_root rest)

abbrev pub array_of : Value → List Value
array_of (arr values) = items values
array_of value = []

-- The tools that carry one mount, and those that carry a list of them.
abbrev pub single_mount_tools : List Text
single_mount_tools =
    text "container_mount_add" ∷ text "container_mount_remove" ∷ text "container_mount_update" ∷ []

abbrev pub mount_list_tools : List Text
mount_list_tools = text "container_start" ∷ text "container_recreate" ∷ []

unfoldable pub mount_destinations_reason :
    Text → Option Fields → Option Text → Option DestinationReason
mount_destinations_reason name none projects_root = none
mount_destinations_reason name (some args) projects_root =
    if includes name single_mount_tools
    then item_reason projects_root args
    else if includes name mount_list_tools
    then items_reason projects_root (array_of (get (text "mounts") args))
    else none
