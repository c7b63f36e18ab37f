-- ===== src/Approval/Policy.antt =====
-- src/approval.ts: the policy that runs before each tool call.
-- A reason is kept as the fact that its text is rendered from, in the session's language. The
-- gate of src/read-only-shell.ts and the reader of a template's summary are arguments, as there.
pub mod ReadOnly
pub mod Rule
pub mod Prompts
pub mod Asks
pub mod Operator
use dsh_podman.Prelude.{
  Bool, true, false, List, [], ◌∷◌, Option, none, some, Outcome, ok, throw, if◌then◌else◌, not,
  ◌&&◌, ◌||◌, ◌>>=◌,
}
use dsh_podman.Text.{Text, text, ◌===◌, is_empty, includes, starts_with}
use dsh_podman.Value.{Value, undef, str, arr, Fields, end, get, items}
use dsh_podman.Mount.Input.{
  MountArgs, DestinationReason, given, or_default, infer_mount_kind, project_mount_mirror,
}
use dsh_podman.Mount.ReadOnly.{
  MountRequest, GateResult, ReadOnlyShellDecision, undecided, allow, deny, as_string, decided,
}
use dsh_podman.Approval.Reasons.{
  ReasonFact, container_template_load, TemplateLoadSummary, DenialFact, read_only,
  read_only_builtin, read_only_remount_declined, project_destination,
}
use dsh_podman.Approval.Mounts.{mount_args, object_of, mount_destinations_reason}
use dsh_podman.Approval.Facts.{reason_fact, Builtins}
use dsh_podman.Approval.Tools.{
  our_tool_names, read_only_tools, podman_ops_approval_tools, builtin_file_tools, asks,
}

-- What the policy returns: the next policy's answer, a denial, or a question with its reason.
pub data Verdict : Type 0 where
  next : Verdict
  denied : DenialFact → Verdict
  ask : Option ReasonFact → Verdict

-- The verdict, and the mounts of the request that the gate sent, if it sent one.
pub record PolicyResult : Type 0 where
  pub verdict : Verdict
  pub recreated : Option (List MountRequest)

-- `none` is a fact that is not there.
pub record SessionFacts : Type 0 where
  pub mode : Option Text
  pub policy : Option Text
  pub preset : Option Text

pub record ToolCall : Type 0 where
  pub name : Text
  pub arguments : Value
  pub session_cwd : Value

pub record SummaryRequest : Type 0 where
  pub template : Text
  pub container : Text
  pub cwd : Option Text

-- `fact === "literal"`
abbrev pub is : Option Text → Text → Bool
is none literal = false
is (some value) literal = value === literal

abbrev pub or_empty : Option Fields → Fields
or_empty none = end
or_empty (some args) = args

abbrev request_for : Value → Text → Option Text → SummaryRequest
request_for session_cwd template container = record {
  template = template;
  container = or_default (text "default") container;
  cwd = given (as_string session_cwd);
}

abbrev requested : Value → Option Text → Option Text → Option SummaryRequest
requested session_cwd none container = none
requested session_cwd (some template) container = some (request_for session_cwd template container)

unfoldable pub template_load_summary_request : Option Fields → Value → Option SummaryRequest
template_load_summary_request args session_cwd =
    requested session_cwd (given (as_string (get (text "template") (or_empty args))))
      (given (as_string (get (text "container") (or_empty args))))

abbrev pub sandbox_escalation_reason_prefix : Text
sandbox_escalation_reason_prefix = text "escalate sandbox to "

-- `reason` is the request's reason.
unfoldable pub is_sandbox_escalation : Value → Bool
is_sandbox_escalation (str reason) = starts_with reason sandbox_escalation_reason_prefix
is_sandbox_escalation reason = false

unfoldable pub with_summary : Option TemplateLoadSummary → ReasonFact → ReasonFact
with_summary (some summary) (container_template_load template container old) =
    container_template_load template container (some summary)
with_summary summary fact = fact

-- Whether the operator preset asks for a tool.
abbrev pub preset_asks : Text → SessionFacts → Bool
preset_asks name facts =
    is facts.preset (text "podman-ops") && includes name podman_ops_approval_tools

abbrev pub verdict_after : ToolCall → Verdict → ReadOnlyShellDecision → Verdict
verdict_after call rest allow = next
verdict_after call rest deny = denied (read_only_remount_declined call.name)
verdict_after call rest undecided = rest

-- What the gate decides; outside the read-only mode it is not run.
unfoldable pub gate_answer :
    {G : Type 0}
    → ToolCall
    → SessionFacts
    → Option (ToolCall → Outcome G GateResult)
    → Outcome G GateResult
gate_answer call facts none = ok (decided undecided)
gate_answer call facts (some gate) =
    if is facts.mode (text "read-only") then gate call else ok (decided undecided)

module _ (js : Builtins) where
  summarized : Option TemplateLoadSummary → Option ReasonFact → Option ReasonFact
  summarized summary none = none
  summarized summary (some fact) = some (with_summary summary fact)

  unfoldable pub ask_reason :
      Text → Option Fields → Value → Option TemplateLoadSummary → Option ReasonFact
  unfolding summarized
  ask_reason name args session_cwd summary =
      summarized summary (reason_fact js name (or_empty args) session_cwd)

  -- `none` where no approval is asked.
  unfoldable pub approval_decision :
      Text → Option Fields → Value → Option TemplateLoadSummary → Option Verdict
  unfolding ask_reason
  approval_decision name args session_cwd summary =
      if asks name (or_empty args)
      then some (ask (ask_reason name args session_cwd summary))
      else none

  or_decision : Verdict → Option Verdict → Verdict
  or_decision decision none = decision
  or_decision decision (some verdict) = verdict

  module _ {ℓ} {E : Type ℓ}
      (read_summary : Option (SummaryRequest → Outcome E (Option TemplateLoadSummary))) where
    -- A summary that cannot be read leaves the decision as it is.
    resumed :
        Text → Option Fields → Value → Verdict → Outcome E (Option TemplateLoadSummary) → Verdict
    unfolding approval_decision or_decision
    resumed name args session_cwd decision (throw e) = decision
    resumed name args session_cwd decision (ok none) = decision
    resumed name args session_cwd decision (ok (some summary)) =
        or_decision decision (approval_decision name args session_cwd (some summary))

    summary_for :
        Option SummaryRequest
        → Option (SummaryRequest → Outcome E (Option TemplateLoadSummary))
        → Outcome E (Option TemplateLoadSummary)
    summary_for none reader = ok none
    summary_for (some request) none = ok none
    summary_for (some request) (some reader) = reader request

    decided_ask : Text → Option Fields → Value → Option Verdict → Verdict
    unfolding resumed summary_for
    decided_ask name args session_cwd none = next
    decided_ask name args session_cwd (some decision) =
        if name === text "container_template_load"
        then resumed name args session_cwd decision
            (summary_for (template_load_summary_request args session_cwd) read_summary)
        else decision

    allowed : ToolCall → SessionFacts → Option Fields → Verdict
    unfolding decided_ask
    allowed call facts args =
        if is facts.policy (text "never")
        then next
        else if preset_asks call.name facts
        then ask (ask_reason call.name args call.session_cwd none)
        else decided_ask call.name args call.session_cwd
            (approval_decision call.name args call.session_cwd none)

    checked : ToolCall → SessionFacts → Option DestinationReason → Verdict
    unfolding allowed
    checked call facts (some reason) = denied (project_destination reason)
    checked call facts none = allowed call facts (object_of call.arguments)

    -- The policy after the gate.
    unfoldable pub ungated : ToolCall → SessionFacts → Option Text → Verdict
    unfolding checked
    ungated call facts projects_root =
        if is facts.mode (text "read-only") && includes call.name builtin_file_tools
        then denied (read_only_builtin call.name)
        else if not (includes call.name our_tool_names)
        then next
        else if is facts.mode (text "read-only")
        then if includes call.name read_only_tools then next else denied (read_only call.name)
        else checked call facts
            (mount_destinations_reason call.name (object_of call.arguments) projects_root)

    after_gate : ToolCall → SessionFacts → Option Text → GateResult → PolicyResult
    unfolding ungated
    after_gate call facts projects_root result = record {
      verdict = verdict_after call (ungated call facts projects_root) result.decision;
      recreated = result.recreated;
    }

    unfoldable pub pre_execute_policy :
        {G : Type 0}
        → ToolCall
        → SessionFacts
        → Option Text
        → Option (ToolCall → Outcome G GateResult)
        → Outcome G PolicyResult
    unfolding after_gate gate_answer
    pre_execute_policy call facts projects_root gate = do
      result ← gate_answer call facts gate
      ok (after_gate call facts projects_root result)
