-- ===== src/Tests/Approvals.antt =====
-- Concrete tool calls and template names, and what the approval policy makes of them.
use dsh_podman.Prelude.{
  ◌≡◌, ◌≢◌, ◌↔◌, ◌⊎◌, ◌||◌, ◌≤◌, refl, inl, Bool, true, false, List, [], ◌∷◌, ◌++◌, length, Option,
  none, some, Outcome, ok, throw, All,
}
use dsh_podman.Prelude.Sort.{sort}
use dsh_podman.Text.{has_unit, to_lower_case, Text, text, ◌===◌, includes, starts_with}
use dsh_podman.Value.{Value, undef, str, arr, obj, nil, cons, Fields, end, field, get}
use dsh_podman.Mount.Input.{DestinationReason, infer_mount_kind}
use dsh_podman.Mount.ReadOnly.{
  StoredMount, ContainerRow, MountRequest, GateResult, GateFailure, call_failed, container_of,
  read_container_mounts, read_only_shell_gate,
}
use dsh_podman.Mount.ReadOnly.Laws.{Gates}
use dsh_podman.Template.Files.{
  has_separator, has_yaml_suffix, ProjectTemplateFile, FsError, missing, FileInfo, DirEntry,
  template_file_name, list_project_templates,
}
use dsh_podman.Template.Files.Laws.{
  IsTemplateName, IsReadBack, template_file_name-IsTemplateName, list_project_templates-IsReadBack,
}
use dsh_podman.Approval.Reasons.{
  ReasonFact, container_template_load, TemplateLoadSummary, project_destination,
}
use dsh_podman.Approval.Mounts.{object_of, ◌>>=◌, mount_destinations_reason}
use dsh_podman.Approval.Mounts.Laws.{IsRefused}
use dsh_podman.Approval.Facts.{Builtins, reason_fact, reason_cases, one, switch}
use dsh_podman.Approval.Policy.{
  Verdict, next, denied, ask, PolicyResult, ToolCall, SessionFacts, SummaryRequest, or_empty,
  preset_asks, ask_reason, with_summary, approval_decision, ungated, gate_answer,
  template_load_summary_request, pre_execute_policy,
}
use dsh_podman.Approval.Facts.Laws.{fact_kind}
use dsh_podman.Approval.Tools.{has_mounts, has_secret_env, our_tool_names, tools, asks}
use dsh_podman.Approval.Policy.ReadOnly.{
  Reads, Protects, pre_execute_policy-Protects, pre_execute_policy-Reads,
}
use dsh_podman.Approval.Policy.Rule.{forget_summary}
use dsh_podman.Approval.Policy.Prompts.{pre_execute_policy-fact_kind}
use dsh_podman.Text.Laws.{===_refl}
use dsh_podman.Approval.Policy.Operator.{
  documented_gated, documented_direct, pre_execute_policy-documented,
}
use dsh_podman.Approval.Policy.Asks.{
  pre_execute_policy-next_iff, pre_execute_policy-forget_summary, pre_execute_policy-IsRefused,
}

abbrev joined : Text → Text → Text
joined base path = base ++ b'/' ∷ path

abbrev shown : Value → Text
shown (str s) = s
shown value = text "other"

abbrev same : Value → Value
same value = value

abbrev js : Builtins
js = record { resolve_path = joined; string_of = shown; number_of = same }

abbrev Reader : Type 0
Reader = Option (SummaryRequest → Outcome (Unit {0}) (Option TemplateLoadSummary))

abbrev failing : Reader
failing = some (λ request. throw tt)

abbrev absent : Reader
absent = none

abbrev session : Text → Text → SessionFacts
session mode policy = record { mode = some mode; policy = some policy; preset = none }

abbrev call_of : Text → Fields → ToolCall
call_of name fields = record { name = name; arguments = obj fields; session_cwd = undef }

abbrev removal : ToolCall
removal = call_of (text "container_remove") (field (text "container") (str (text "web")) end)

abbrev always : Text → List StoredMount → List StoredMount → Outcome Text Bool
always tool remount keep = ok true

abbrev up : Text → Text → List MountRequest → Outcome Text (Unit {0})
up slug container mounts = ok tt

abbrev policy :
    Reader
    → ToolCall
    → SessionFacts
    → Option (ToolCall → Outcome (GateFailure Text) GateResult)
    → Outcome (GateFailure Text) PolicyResult
policy reader call facts gate = pre_execute_policy js reader call facts none gate

abbrev writable : StoredMount
writable = record {
  project_name = str (text "app");
  kind = str (text "MOUNT_KIND_PROJECT");
  mode = str (text "MOUNT_MODE_READ_WRITE");
  destination = undef;
  volume = undef;
  secret = undef;
}

abbrev rows : Option (List ContainerRow)
rows = some (
    record { workspace_slug = text "w"; container_name = text "default"; mounts = writable ∷ [] }
    ∷ [])

abbrev shell : ToolCall
shell = call_of (text "container_bash") (field (text "command") (str (text "ls")) end)

abbrev gate : ToolCall → Outcome (GateFailure Text) GateResult
gate call = read_only_shell_gate always (ok (text "w")) up call.name undef (text "w") rows

abbrev found : Option (List StoredMount)
found = read_container_mounts rows (text "w") (container_of undef)

pre_execute_policy-Protects_example :
    ((result : PolicyResult) × (policy absent shell
          (session (text "read-only") (text "ask"))
          (some gate)
        ≡ ok result)
      × (result.verdict ≡ next
          → Reads (text "container_bash") ⊎ Protects up (container_of undef) found result.recreated)
      × ((reason : Option ReasonFact) → result.verdict ≢ ask reason))
    ⊎ ((e : Text) × (policy absent shell (session (text "read-only") (text "ask")) (some gate)
          ≡ throw (call_failed e))
        × Gates always
            (ok (text "w"))
            up
            (text "container_bash")
            (container_of undef)
            found
            (throw (call_failed e)))
pre_execute_policy-Protects_example =
    pre_execute_policy-Protects js absent shell (session (text "read-only") (text "ask")) none
      always (ok (text "w")) up (text "w") undef rows (unfold text ◌===◌ in refl)

Reads-list : Reads (text "volume_list")
unfolding includes text ◌===◌
Reads-list = inl refl

abbrev listing : ToolCall
listing = call_of (text "volume_list") end

pre_execute_policy-Reads_example :
    policy absent listing (session (text "read-only") (text "ask")) (some gate)
    ≡ ok (record { verdict = next; recreated = none })
pre_execute_policy-Reads_example =
    pre_execute_policy-Reads js absent listing (session (text "read-only") (text "ask")) none always
      (ok (text "w")) up (text "w") undef rows Reads-list

writable_mode : (text "workspace-write" === text "read-only") ≡ false
unfolding text ◌===◌
writable_mode = refl

removal_ours : includes (text "container_remove") our_tool_names ≡ true
unfolding includes text ◌===◌ our_tool_names
removal_ours = refl

abbrev writes : SessionFacts
writes = session (text "workspace-write") (text "ask")

pre_execute_policy-next_iff_example :
    (verdict : Verdict) × (policy absent removal writes none
      ≡ ok (record { verdict = verdict; recreated = none }))
    × ((verdict ≡ next) ↔ (
        (mount_destinations_reason removal.name (object_of removal.arguments) none ≡ none)
        × (((text "ask" === text "never") ≡ true)
            ⊎ ((preset_asks removal.name writes
                  || asks removal.name (or_empty (object_of removal.arguments)))
                ≡ false))))
pre_execute_policy-next_iff_example =
    pre_execute_policy-next_iff js removal writes none none absent writable_mode removal_ours

abbrev full : SessionFacts
full = session (text "danger-full-access") (text "never")

full_runs : policy absent removal full none ≡ ok (record { verdict = next; recreated = none })
unfolding pre_execute_policy gate_answer ungated mount_destinations_reason includes text ◌===◌
    our_tool_names
full_runs = refl

abbrev load : ToolCall
load = call_of (text "container_template_load") (field (text "template") (str (text "dev")) end)

abbrev load_asked : PolicyResult
load_asked = record {
  verdict = ask (some (container_template_load (text "dev") none none));
  recreated = none;
}

load_asks : policy absent load writes none ≡ ok load_asked
unfolding pre_execute_policy gate_answer ungated mount_destinations_reason approval_decision
    ask_reason reason_fact reason_cases one switch ◌>>=◌ with_summary template_load_summary_request
    get asks tools includes text ◌===◌ our_tool_names
load_asks = refl

pre_execute_policy-forget_summary_example :
    (other : PolicyResult) × (policy failing load writes none ≡ ok other)
    × (forget_summary other.verdict ≡ forget_summary load_asked.verdict)
    × (other.recreated ≡ none)
pre_execute_policy-forget_summary_example =
    pre_execute_policy-forget_summary js load writes none none absent failing load_asks

pre_execute_policy-fact_kind_example :
    fact_kind (container_template_load (text "dev") none none) ≡ text "container_template_load"
pre_execute_policy-fact_kind_example =
    pre_execute_policy-fact_kind js absent load writes none none load_asks refl

abbrev placed : Fields
placed =
    field (text "project") (str (text "app")) (field (text "destination") (str (text "/x")) end)

abbrev started : Fields
started = field (text "mounts") (arr (cons (obj placed) nil)) end

placed-IsRefused : IsRefused (obj placed)
unfolding get infer_mount_kind text ◌===◌
placed-IsRefused = (placed, refl, refl, refl)

started_mounts : get (text "mounts") started ≡ arr (cons (obj placed) nil)
unfolding get text ◌===◌
started_mounts = refl

pre_execute_policy-IsRefused_example :
    (r : DestinationReason) × (policy absent (call_of (text "container_start") started) full none
      ≡ ok (record { verdict = denied (project_destination r); recreated = none }))
pre_execute_policy-IsRefused_example =
    pre_execute_policy-IsRefused js (call_of (text "container_start") started) full none none absent
      [] [] (obj placed) (unfold text ◌===◌ in refl) (unfold text ◌===◌ includes in refl) refl
      started_mounts refl placed-IsRefused

dev_named : template_file_name (str (text "dev")) ≡ ok (text "dev.yml")
unfolding template_file_name text has_separator has_unit starts_with has_yaml_suffix to_lower_case
dev_named = refl

template_file_name-IsTemplateName_example :
    IsTemplateName (text "dev.yml")
    × ((template_file_name (str (text "dev.yml")) ≡ ok (text "dev.yml"))
        ↔ (length (text "dev.yml") ≤ 200))
template_file_name-IsTemplateName_example =
    template_file_name-IsTemplateName (text "dev") (text "dev.yml") dev_named

abbrev entries : Outcome FsError (List DirEntry)
entries = ok (record { name = text "dev.yml"; is_file = true } ∷ [])

abbrev stat_any : Text → Outcome FsError FileInfo
stat_any path = ok (record { is_file = true; size = 9 })

abbrev read_any : Text → Outcome FsError Text
read_any path = ok (text "kind: x")

abbrev in_order : Text → Text → Bool
in_order a b = true

abbrev dev_file : ProjectTemplateFile
dev_file = record {
  name = text "dev.yml";
  path = text "/p/.dsh-podman/dev.yml";
  yaml = text "kind: x";
}

dev_listed :
    list_project_templates joined stat_any read_any in_order (text "/p") entries
    ≡ ok (dev_file ∷ [])
unfolding list_project_templates text sort starts_with has_yaml_suffix to_lower_case
dev_listed = refl

list_project_templates-IsReadBack_example :
    All (IsReadBack joined stat_any read_any (text "/p")) (dev_file ∷ [])
    × (entries ≡ throw missing → ◌≡◌ {A = List ProjectTemplateFile} (dev_file ∷ []) [])
list_project_templates-IsReadBack_example =
    list_project_templates-IsReadBack joined stat_any read_any (text "/p") in_order entries
      dev_listed

abbrev operator : SessionFacts
operator = record {
  mode = some (text "workspace-write");
  policy = some (text "ask");
  preset = some (text "podman-ops");
}

asks_first : (text "ask" === text "never") ≡ false
unfolding text ◌===◌
asks_first = refl

abbrev start_args : Fields
start_args = or_empty (object_of (obj started))

pre_execute_policy-documented_example :
    (verdict : Verdict) × (policy absent (call_of (text "container_start") started) operator none
      ≡ ok (record { verdict = verdict; recreated = none }))
    × (includes (text "container_start") documented_gated ≡ true → verdict ≢ next)
    × (includes (text "container_start") documented_direct ≡ true → verdict ≡ next)
    × ((text "container_start" === text "container_start") ≡ true
        → (verdict ≡ next) ↔ ((has_mounts start_args || has_secret_env start_args) ≡ false))
pre_execute_policy-documented_example =
    pre_execute_policy-documented js absent (call_of (text "container_start") started) operator none
      none writable_mode asks_first (===_refl (text "podman-ops"))
