-- ===== src/Approval/Policy/Operator.antt =====
-- The tools of the operator preset as docs/usage.md splits them, and what src/approval.ts does with each.
use dsh_podman.Prelude.{
  ◌≡◌, ◌≢◌, ◌↔◌, refl, sym, ap, ◌∙◌, subst, inr, Bool, true, false, List, [], ◌∷◌, Option, none,
  some, Outcome, ok, arith, All, All-all, not, ◌&&◌, ◌||◌,
}
use dsh_podman.Text.{Text, text, ◌===◌, includes}
use dsh_podman.Text.Laws.{===_iff}
use dsh_podman.Text.Sets.{All-includes}
use dsh_podman.Value.{
  Value, undef, null, bool, num, other_num, str, arr, obj, nil, cons, Fields, get,
}
use dsh_podman.Mount.ReadOnly.{GateResult}
use dsh_podman.Approval.Reasons.{TemplateLoadSummary}
use dsh_podman.Approval.Mounts.{
  object_of, array_of, items_reason, single_mount_tools, mount_list_tools,
  mount_destinations_reason,
}
use dsh_podman.Approval.Facts.{Builtins}
use dsh_podman.Approval.Tools.{
  our_tool_names, podman_ops_approval_tools, asks, has_mounts, has_secret_env, is_filled_array,
}
use dsh_podman.Approval.Policy.{
  Verdict, next, ToolCall, SessionFacts, SummaryRequest, is, or_empty, ungated, pre_execute_policy,
}
use dsh_podman.Approval.Policy.Rule.{undecided_run, ungated-next_iff}
use dsh_podman.Approval.Policy.ReadOnly.{no_mount_reason}
use dsh_podman.Approval.Policy.Asks.{undecided_answer}

-- "Approval-gated" and "Approval-gated only in this preset".
abbrev pub documented_gated : List Text
documented_gated =
    text "image_build"
    ∷ text "image_rebuild"
    ∷ text "image_rebuild_all"
    ∷ text "image_remove"
    ∷ text "container_recreate"
    ∷ text "container_remove"
    ∷ text "container_mount_add"
    ∷ text "container_mount_remove"
    ∷ text "container_mount_update"
    ∷ text "container_path_set"
    ∷ text "container_path_add"
    ∷ text "container_path_remove"
    ∷ text "volume_remove"
    ∷ text "secret_remove"
    ∷ text "container_secret_add"
    ∷ text "container_secret_remove"
    ∷ text "container_template_load"
    ∷ text "container_template_save"
    ∷ text "container_bash"
    ∷ text "container_exec"
    ∷ text "container_write"
    ∷ text "container_edit"
    ∷ text "daemon_start"
    ∷ []

-- "Direct", but for container_start, which asks when mounts or secrets are passed.
abbrev pub documented_direct : List Text
documented_direct =
    text "image_list"
    ∷ text "image_get"
    ∷ text "container_list"
    ∷ text "container_read"
    ∷ text "container_glob"
    ∷ text "container_grep"
    ∷ text "container_mount_list"
    ∷ text "volume_list"
    ∷ text "secret_list"
    ∷ text "secret_create"
    ∷ text "daemon_list"
    ∷ text "daemon_logs"
    ∷ text "daemon_stop"
    ∷ text "daemon_restart"
    ∷ text "container_template_export"
    ∷ []

abbrev is_gated : Fields → Text → Bool
is_gated args name =
    includes name our_tool_names && (includes name podman_ops_approval_tools || asks name args)

abbrev is_direct : Fields → Text → Bool
is_direct args name =
    includes name our_tool_names
    && (not (includes name single_mount_tools)
        && (not (includes name mount_list_tools)
            && (not (includes name podman_ops_approval_tools) && not (asks name args))))

gated_all : (args : Fields) → All (λ name. is_gated args name ≡ true) documented_gated
unfolding includes text ◌===◌ our_tool_names asks
gated_all args = All-all (is_gated args) documented_gated refl

direct_all : (args : Fields) → All (λ name. is_direct args name ≡ true) documented_direct
unfolding includes text ◌===◌ our_tool_names asks
direct_all args = All-all (is_direct args) documented_direct refl

-- What the other tests say of container_start.
start_asks :
    (args : Fields) → asks (text "container_start") args ≡ (has_mounts args || has_secret_env args)
unfolding text ◌===◌ asks
start_asks args = refl

start_listed :
    (includes (text "container_start") our_tool_names ≡ true)
    × (includes (text "container_start") podman_ops_approval_tools ≡ false)
unfolding includes text ◌===◌ our_tool_names
start_listed = (refl, refl)

no_items_reason :
    (projects_root : Option Text) (v : Value)
    → is_filled_array v ≡ false
    → items_reason projects_root (array_of v) ≡ none
unfolding items_reason
no_items_reason root (arr nil) h = refl
no_items_reason root (arr (cons v vs)) h = cc
no_items_reason root undef h = refl
no_items_reason root null h = refl
no_items_reason root (bool b) h = refl
no_items_reason root (num n) h = refl
no_items_reason root (other_num t) h = refl
no_items_reason root (str t) h = refl
no_items_reason root (obj fields) h = refl

start_reason :
    (projects_root : Option Text) (args : Option Fields)
    → has_mounts (or_empty args) ≡ false
    → mount_destinations_reason (text "container_start") args projects_root ≡ none
unfolding mount_destinations_reason includes text ◌===◌ has_mounts
start_reason root none h = refl
start_reason root (some args) h = no_items_reason root (get (text "mounts") args) h

module _ {ℓ} {E : Type ℓ} {G : Type 0} (js : Builtins)
    (read_summary : Option (SummaryRequest → Outcome E (Option TemplateLoadSummary)))
    (call : ToolCall) (facts : SessionFacts) (projects_root : Option Text)
    (gate : Option (ToolCall → Outcome G GateResult)) where
  abbrev args : Fields
  args = or_empty (object_of call.arguments)

  start_iff :
      is facts.mode (text "read-only") ≡ false
      → is facts.policy (text "never") ≡ false
      → call.name ≡ text "container_start"
      → (ungated js read_summary call facts projects_root ≡ next)
        ↔ ((has_mounts args || has_secret_env args) ≡ false)
  start_iff m n same =
      let (ours, ops) = start_listed in
      let known = subst (λ name. includes name our_tool_names ≡ true) (sym same) ours in
      let off = subst (λ name. includes name podman_ops_approval_tools ≡ false) (sym same) ops in
      let a = ap (λ name. asks name args) same ∙ start_asks args in
      let iff = ungated-next_iff js read_summary call facts projects_root m known in
      (
        λ e. let runs = iff.0 e in ground arith,
        λ h. iff.1 (
          ap (λ name. mount_destinations_reason name (object_of call.arguments) projects_root) same
              ∙ start_reason projects_root (object_of call.arguments) (ground arith),
          inr (ground arith),
        ),
      )

  -- Outside the read-only mode, in a session of the operator preset whose approval policy is not
  -- "never", the policy always decides. It lets no tool through that the documentation lists as
  -- gated, whatever its arguments are; it lets each through that the documentation lists as direct,
  -- and container_start exactly when neither mounts nor secrets are passed.
  pub pre_execute_policy-documented :
      is facts.mode (text "read-only") ≡ false
      → is facts.policy (text "never") ≡ false
      → is facts.preset (text "podman-ops") ≡ true
      → (verdict : Verdict) × (pre_execute_policy js read_summary call facts projects_root gate
          ≡ ok (record { verdict = verdict; recreated = none }))
        × (includes call.name documented_gated ≡ true → verdict ≢ next)
        × (includes call.name documented_direct ≡ true → verdict ≡ next)
        × ((call.name === text "container_start") ≡ true
            → (verdict ≡ next) ↔ ((has_mounts args || has_secret_env args) ≡ false))
  pre_execute_policy-documented m n p = (
    ungated js read_summary call facts projects_root,
    undecided_run js read_summary call facts projects_root gate (undecided_answer call facts gate m)
        refl,
    λ l e.
        let known =
          All-includes (λ name. is_gated args name ≡ true) call.name documented_gated
            (gated_all args) l in
        let runs =
          (ungated-next_iff js read_summary call facts projects_root m (ground arith)).0 e in
        ground arith,
    λ l.
        let known =
          All-includes (λ name. is_direct args name ≡ true) call.name documented_direct
            (direct_all args) l in
        (ungated-next_iff js read_summary call facts projects_root m (ground arith)).1 (
          no_mount_reason call.name (object_of call.arguments) projects_root (ground arith)
              (ground arith),
          inr (ground arith),
        ),
    λ l. start_iff m n ((===_iff call.name (text "container_start")).0 l),
  )
