-- ===== src/Approval/Policy/Asks.antt =====
-- src/approval.ts: what is asked, what is refused, and what runs.
use dsh_podman.Prelude.{
  ◌≡◌, ◌≢◌, ◌↔◌, refl, sym, ap, ◌∙◌, ◌⊎◌, true, false, List, ◌∷◌, ◌++◌, Option, none, some, Outcome,
  ok, ok-injective, >>=-eq-ok, arith, All, All-all, not, ◌&&◌, ◌||◌,
}
use dsh_podman.Text.{Text, text, ◌===◌, includes}
use dsh_podman.Text.Sets.{All-includes}
use dsh_podman.Value.{Value, arr, Items, Fields, get, items}
use dsh_podman.Mount.Input.{DestinationReason}
use dsh_podman.Mount.ReadOnly.{GateResult, ReadOnlyShellDecision, allow, deny, undecided, decided}
use dsh_podman.Approval.Reasons.{ReasonFact, TemplateLoadSummary, project_destination}
use dsh_podman.Approval.Mounts.{
  object_of, single_mount_tools, mount_list_tools, mount_destinations_reason,
}
use dsh_podman.Approval.Mounts.Laws.{IsRefused, carried_reason}
use dsh_podman.Approval.Facts.{Builtins}
use dsh_podman.Approval.Policy.{
  Verdict, next, denied, ask, PolicyResult, ToolCall, SessionFacts, SummaryRequest, is, or_empty,
  preset_asks, checked, ungated, after_gate, gate_answer, verdict_after, pre_execute_policy,
}
use dsh_podman.Approval.Tools.{our_tool_names, asks}
use dsh_podman.Approval.Policy.Rule.{
  forget_summary, ungated-rule, undecided_run, ungated-next_iff, ungated-never,
}

pub undecided_answer :
    {G : Type 0} (call : ToolCall) (facts : SessionFacts)
    (gate : Option (ToolCall → Outcome G GateResult))
    → is facts.mode (text "read-only") ≡ false
    → gate_answer call facts gate ≡ ok (decided undecided)
unfolding gate_answer
undecided_answer call facts none m = refl
undecided_answer call facts (some gate) m = rw m refl

mount_list_tools_ours :
    All
      (λ name. (includes name our_tool_names && not (includes name single_mount_tools)) ≡ true)
      mount_list_tools
unfolding includes text ◌===◌ our_tool_names
mount_list_tools_ours =
    All-all (λ name. includes name our_tool_names && not (includes name single_mount_tools))
      mount_list_tools refl

module _ (call : ToolCall) where
  verdict_after-never :
      {rest : Verdict} (d : ReadOnlyShellDecision) (r : Option ReasonFact)
      → rest ≢ ask r
      → verdict_after call rest d ≢ ask r
  verdict_after-never allow r h = cc
  verdict_after-never deny r h = cc
  verdict_after-never undecided r h = h

  verdict_after-forget :
      (left right : Verdict) (d : ReadOnlyShellDecision)
      → forget_summary left ≡ forget_summary right
      → forget_summary (verdict_after call left d) ≡ forget_summary (verdict_after call right d)
  verdict_after-forget left right allow h = refl
  verdict_after-forget left right deny h = refl
  verdict_after-forget left right undecided h = h

module _ {ℓ} {E : Type ℓ} {G : Type 0} (js : Builtins) (call : ToolCall) (facts : SessionFacts)
    (projects_root : Option Text) (gate : Option (ToolCall → Outcome G GateResult)) where
  module _ (read_summary : Option (SummaryRequest → Outcome E (Option TemplateLoadSummary))) where
    abbrev run : Outcome G PolicyResult
    run = pre_execute_policy js read_summary call facts projects_root gate

    abbrev result_of : GateResult → PolicyResult
    result_of = after_gate js read_summary call facts projects_root

    run-eq-ok :
        {result : PolicyResult}
        → run ≡ ok result
        → (g : GateResult) × (gate_answer call facts gate ≡ ok g) × (result_of g ≡ result)
    unfolding pre_execute_policy
    run-eq-ok e =
        let (g, a, h) = >>=-eq-ok (gate_answer call facts gate) _ e in (g, a, ok-injective h)

    -- Outside the read-only mode the policy always decides, and no container is recreated. A tool of
    -- the plugin then runs without a question exactly when its mounts name no destination for a
    -- project and either the approval policy is "never", or neither the operator preset nor the
    -- tool's own definition asks.
    pub pre_execute_policy-next_iff :
        is facts.mode (text "read-only") ≡ false
        → includes call.name our_tool_names ≡ true
        → (verdict : Verdict) × (run ≡ ok (record { verdict = verdict; recreated = none }))
          × ((verdict ≡ next) ↔ (
              (mount_destinations_reason call.name (object_of call.arguments) projects_root ≡ none)
              × ((is facts.policy (text "never") ≡ true)
                  ⊎ ((preset_asks call.name facts
                        || asks call.name (or_empty (object_of call.arguments)))
                      ≡ false))))
    pre_execute_policy-next_iff m o = (
      ungated js read_summary call facts projects_root,
      undecided_run js read_summary call facts projects_root gate
          (undecided_answer call facts gate m) refl,
      ungated-next_iff js read_summary call facts projects_root m o,
    )

    -- Under the approval policy "never" the policy's own verdict is no question, in any mode.
    pre_execute_policy-never :
        {result : PolicyResult} (r : Option ReasonFact)
        → is facts.policy (text "never") ≡ true
        → run ≡ ok result
        → result.verdict ≢ ask r
    unfolding after_gate
    pre_execute_policy-never r n e a =
        let (g, _, same) = run-eq-ok e in
        verdict_after-never call g.decision r
          (ungated-never js read_summary call facts projects_root r n)
          (ap (λ (t : PolicyResult). t.verdict) same ∙ a)

  -- The reader of template summaries changes no decision, and neither what the gate does: with two
  -- readers, failing or absent ones among them, a call gets the same verdict but for the summary
  -- of a template that a prompt carries, and the same containers are recreated.
  pub pre_execute_policy-forget_summary :
      (left right : Option (SummaryRequest → Outcome E (Option TemplateLoadSummary)))
      {result : PolicyResult}
      → run left ≡ ok result
      → (other : PolicyResult) × (run right ≡ ok other)
        × (forget_summary other.verdict ≡ forget_summary result.verdict)
        × (other.recreated ≡ result.recreated)
  unfolding pre_execute_policy after_gate
  pre_execute_policy-forget_summary left right e =
      let (g, a, same) = run-eq-ok left e in
      (
        result_of right g,
        rw a refl,
        verdict_after-forget call _ _ g.decision (
              ungated-rule js right call facts projects_root
              ∙ sym (ungated-rule js left call facts projects_root))
            ∙ ap (λ (t : PolicyResult). forget_summary t.verdict) same,
        ap (λ (t : PolicyResult). t.recreated) same,
      )

  refused_mount :
      (read_summary : Option (SummaryRequest → Outcome E (Option TemplateLoadSummary)))
      {r : DestinationReason}
      → is facts.mode (text "read-only") ≡ false
      → includes call.name our_tool_names ≡ true
      → mount_destinations_reason call.name (object_of call.arguments) projects_root ≡ some r
      → ungated js read_summary call facts projects_root ≡ denied (project_destination r)
  unfolding ungated checked
  refused_mount read_summary m o h = ground arith

  -- Outside the read-only mode, a call of the plugin that carries a list of mounts is denied, whatever
  -- the approval policy, as soon as one of them puts a destination on a project mount.
  pub pre_execute_policy-IsRefused :
      (read_summary : Option (SummaryRequest → Outcome E (Option TemplateLoadSummary)))
      {args : Fields} {mounts : Items} (before later : List Value) (item : Value)
      → is facts.mode (text "read-only") ≡ false
      → includes call.name mount_list_tools ≡ true
      → object_of call.arguments ≡ some args
      → get (text "mounts") args ≡ arr mounts
      → items mounts ≡ before ++ item ∷ later
      → IsRefused item
      → (r : DestinationReason) × (run read_summary
          ≡ ok (record { verdict = denied (project_destination r); recreated = none }))
  pre_execute_policy-IsRefused read_summary before later item m l e g i refused =
      let known =
        All-includes
          (λ name. (includes name our_tool_names && not (includes name single_mount_tools)) ≡ true)
          call.name mount_list_tools mount_list_tools_ours l in
      let (r, h) =
        carried_reason call.name call.arguments projects_root before later item l (ground arith) e g
          i refused in
      (
        r,
        undecided_run js read_summary call facts projects_root gate
            (undecided_answer call facts gate m) (refused_mount read_summary m (ground arith) h),
      )
