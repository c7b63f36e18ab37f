-- ===== src/Approval/Mounts/Laws.antt =====
-- A list of mounts that holds a refused one is refused (src/approval.ts).
use dsh_podman.Prelude.{
  arith, none, ◌≡◌, refl, ◌⊎◌, inl, inr, true, false, List, [], ◌∷◌, ◌++◌, Option, some,
  Option-cases,
}
use dsh_podman.Text.{Text, text, ◌===◌, includes}
use dsh_podman.Value.{Value, undef, str, arr, Items, Fields, get, items}
use dsh_podman.Mount.Input.{DestinationReason, infer_mount_kind, project_mount_destination_reason}
use dsh_podman.Approval.Mounts.{
  mount_args, object_of, is_unset, item_reason, items_reason, value_reason, single_mount_tools,
  mount_list_tools, mount_destinations_reason,
}

-- The mounts' arguments that the policy refuses: no source but a project, and a destination.
abbrev pub IsRefused : Value → Type 0
IsRefused item =
    (mount : Fields) × (object_of item ≡ some mount)
    × ((infer_mount_kind (mount_args mount) === text "project") ≡ true)
    × (is_unset (get (text "destination") mount) ≡ false)

items_reason-IsRefused :
    (projects_root : Option Text) (before later : List Value) (item : Value)
    → IsRefused item
    → (r : DestinationReason) × (items_reason projects_root (before ++ item ∷ later) ≡ some r)
unfolding items_reason item_reason value_reason
items_reason-IsRefused root [] later item (mount, e, k, d) = rw (e, k, d) (_, refl)
items_reason-IsRefused root (other ∷ before) later item h =
    elim (Option-cases (value_reason root (object_of other))) [
      | inr (r, e) ↦ rw e (r, refl)
      | inl e ↦ rw e (items_reason-IsRefused root before later item h)
    ]

pub carried_reason :
    (name : Text) (arguments : Value) (projects_root : Option Text) {args : Fields} {mounts : Items}
    (before later : List Value) (item : Value)
    → includes name mount_list_tools ≡ true
    → includes name single_mount_tools ≡ false
    → object_of arguments ≡ some args
    → get (text "mounts") args ≡ arr mounts
    → items mounts ≡ before ++ item ∷ later
    → IsRefused item
    → (r : DestinationReason) × (mount_destinations_reason name (object_of arguments) projects_root
        ≡ some r)
unfolding mount_destinations_reason
carried_reason name arguments projects_root before later item l s e g i refused =
    rw (e, s, l, g, i) (items_reason-IsRefused projects_root before later item refused)

-- Where the destination is a string or not there, the rule is that of the callers with strings.
pub item_reason-project_mount_destination_reason :
    (projects_root : Option Text) (mount : Fields)
    → ((get (text "destination") mount ≡ undef)
        ⊎ ((s : Text) × (get (text "destination") mount ≡ str s)))
    → item_reason projects_root mount
      ≡ project_mount_destination_reason projects_root (mount_args mount)
unfolding item_reason project_mount_destination_reason
item_reason-project_mount_destination_reason none mount (inl e) = rw e (ground arith)
item_reason-project_mount_destination_reason none mount (inr (s, e)) = rw e (ground arith)
item_reason-project_mount_destination_reason (some root) mount (inl e) = rw e (ground arith)
item_reason-project_mount_destination_reason (some root) mount (inr (s, e)) = rw e (ground arith)
