-- ===== src/Approval/Policy/Rule.antt =====
-- src/approval.ts: the policy after the gate as one rule, which knows nothing of template summaries.
use dsh_podman.Prelude.{
  ◌≡◌, ◌≢◌, ◌↔◌, refl, sym, ap, ◌∙◌, ◌⊎◌, inl, inr, Bool, true, false, Option, none, some, Outcome,
  ok, throw, arith, Bool-cases, Option-cases, if◌then◌else◌, not, ◌&&◌, ◌||◌, ◌>>=◌,
}
use dsh_podman.Text.{Text, text, ◌===◌, includes}
use dsh_podman.Value.{Fields}
use dsh_podman.Mount.Input.{DestinationReason}
use dsh_podman.Mount.ReadOnly.{GateResult, undecided, decided}
use dsh_podman.Approval.Reasons.{
  ReasonFact, container_template_load, TemplateLoadSummary, project_destination, read_only,
  read_only_builtin,
}
use dsh_podman.Approval.Mounts.{object_of, mount_destinations_reason}
use dsh_podman.Approval.Facts.{reason_fact, Builtins}
use dsh_podman.Approval.Policy.{
  Verdict, next, denied, ask, ToolCall, SessionFacts, SummaryRequest, is, or_empty, with_summary,
  summarized, ask_reason, approval_decision, or_decision, resumed, decided_ask, preset_asks,
  allowed, checked, ungated, after_gate, pre_execute_policy, gate_answer,
}
use dsh_podman.Approval.Tools.{our_tool_names, read_only_tools, builtin_file_tools, asks}

-- A verdict without the summary that the prompt of a template carries.
unfoldable pub forget_fact : ReasonFact → ReasonFact
forget_fact (container_template_load template container summary) =
    container_template_load template container none
forget_fact fact = fact

abbrev pub forget_reason : Option ReasonFact → Option ReasonFact
forget_reason none = none
forget_reason (some fact) = some (forget_fact fact)

unfoldable pub forget_summary : Verdict → Verdict
forget_summary (ask reason) = ask (forget_reason reason)
forget_summary verdict = verdict

with_summary-forget_fact :
    (summary : Option TemplateLoadSummary) (fact : ReasonFact)
    → forget_fact (with_summary summary fact) ≡ forget_fact fact
unfolding with_summary forget_fact
with_summary-forget_fact none fact = refl
with_summary-forget_fact (some summary) fact = ground arith

pub forget_summary-next : (v : Verdict) → forget_summary v ≡ next → v ≡ next
unfolding forget_summary
forget_summary-next next e = refl
forget_summary-next (denied fact) e = cc
forget_summary-next (ask reason) e = cc

module _ {ℓ} {E : Type ℓ} (js : Builtins)
    (read_summary : Option (SummaryRequest → Outcome E (Option TemplateLoadSummary)))
    (call : ToolCall) (facts : SessionFacts) (projects_root : Option Text) where
  abbrev pub args : Option Fields
  args = object_of call.arguments

  abbrev pub reason : Option DestinationReason
  reason = mount_destinations_reason call.name args projects_root

  abbrev pub base : Option ReasonFact
  base = ask_reason js call.name args call.session_cwd none

  abbrev pub asking : Bool
  asking = preset_asks call.name facts || asks call.name (or_empty args)

  -- What is decided where no mount is refused, but for the summary.
  abbrev pub settled : Verdict
  settled = if is facts.policy (text "never") then next else if asking then ask base else next

  ask_reason-forget :
      (summary : Option TemplateLoadSummary)
      → forget_reason (ask_reason js call.name args call.session_cwd summary) ≡ forget_reason base
  unfolding ask_reason summarized
  ask_reason-forget summary =
      elim (Option-cases (reason_fact js call.name (or_empty args) call.session_cwd)) [
        | inl e ↦ rw e refl
        | inr (fact, e) ↦ rw e (
            ap some
              (with_summary-forget_fact summary fact ∙ sym (with_summary-forget_fact none fact)))
      ]

  resumed-forget :
      (o : Outcome E (Option TemplateLoadSummary))
      → asks call.name (or_empty args) ≡ true
      → forget_summary (resumed js read_summary call.name args call.session_cwd (ask base) o)
        ≡ forget_summary (ask base)
  unfolding resumed or_decision approval_decision forget_summary
  resumed-forget (throw e) a = refl
  resumed-forget (ok none) a = refl
  resumed-forget (ok (some summary)) a = rw a (ap ask (ask_reason-forget (some summary)))

  decided_ask-forget :
      forget_summary (
        decided_ask js read_summary call.name args call.session_cwd
          (approval_decision js call.name args call.session_cwd none))
      ≡ forget_summary (if asks call.name (or_empty args) then ask base else next)
  unfolding decided_ask approval_decision
  decided_ask-forget = elim (Bool-cases (asks call.name (or_empty args))) [
    | inr a ↦ rw a refl
    | inl a ↦ rw a (elim (Bool-cases (call.name === text "container_template_load")) [
      | inl t ↦ rw t (resumed-forget _ a)
      | inr t ↦ rw t refl
    ])
  ]

  allowed-settled :
      forget_summary (allowed js read_summary call facts args) ≡ forget_summary settled
  unfolding allowed
  allowed-settled = elim (Bool-cases (is facts.policy (text "never"))) [
    | inl n ↦ rw n refl
    | inr n ↦ rw n (elim (Bool-cases (preset_asks call.name facts)) [
      | inl p ↦ rw p refl
      | inr p ↦ rw p decided_ask-forget
    ])
  ]

  abbrev pub after : Verdict
  after = ungated js read_summary call facts projects_root

  -- Up to the summary, what follows the gate does not depend on the reader.
  abbrev pub rule : Verdict
  rule =
      if is facts.mode (text "read-only") && includes call.name builtin_file_tools
      then denied (read_only_builtin call.name)
      else if not (includes call.name our_tool_names)
      then next
      else if is facts.mode (text "read-only")
      then if includes call.name read_only_tools then next else denied (read_only call.name)
      else elim reason [ some r ↦ denied (project_destination r) | none ↦ settled ]

  checked-rule :
      (o : Option DestinationReason)
      → forget_summary (checked js read_summary call facts o)
        ≡ forget_summary (elim o [ some r ↦ denied (project_destination r) | none ↦ settled ])
  unfolding checked
  checked-rule (some r) = refl
  checked-rule none = allowed-settled

  pub ungated-rule : forget_summary after ≡ forget_summary rule
  unfolding ungated
  ungated-rule = ground (arith, checked-rule reason)

  rule-next_iff :
      is facts.mode (text "read-only") ≡ false
      → includes call.name our_tool_names ≡ true
      → (rule ≡ next)
        ↔ ((reason ≡ none) × ((is facts.policy (text "never") ≡ true) ⊎ (asking ≡ false)))
  rule-next_iff m o = elim (Option-cases reason) [
    | inr (r, e) ↦ rw (m, o, e) (λ h. ground arith, λ h. ground arith)
    | inl e ↦
        rw (m, o, e)
          (
            λ h. (
              refl,
              elim (Bool-cases (is facts.policy (text "never"))) [
                | inl n ↦ inl n
                | inr n ↦ inr (ground arith)
              ],
            ),
            λ h. ground arith,
          )
  ]

  pub ungated-next_iff :
      is facts.mode (text "read-only") ≡ false
      → includes call.name our_tool_names ≡ true
      → (after ≡ next)
        ↔ ((reason ≡ none) × ((is facts.policy (text "never") ≡ true) ⊎ (asking ≡ false)))
  unfolding forget_summary
  ungated-next_iff m o = (
    λ e. (rule-next_iff m o).0 (forget_summary-next rule (sym ungated-rule ∙ ap forget_summary e)),
    λ h. forget_summary-next after (ungated-rule ∙ ap forget_summary ((rule-next_iff m o).1 h)),
  )

  rule-never :
      (r : Option ReasonFact) → is facts.policy (text "never") ≡ true → forget_summary rule ≢ ask r
  unfolding forget_summary
  rule-never r n = elim (Option-cases reason) [
    | inl e ↦ rw e (λ h. ground arith)
    | inr (d, e) ↦ rw e (λ h. ground arith)
  ]

  pub ungated-never :
      (r : Option ReasonFact) → is facts.policy (text "never") ≡ true → after ≢ ask r
  unfolding forget_summary
  ungated-never r n e = rule-never (forget_reason r) n (sym ungated-rule ∙ ap forget_summary e)

  -- Where the gate leaves the call undecided, the rules after it decide.
  pub undecided_run :
      {G : Type 0} (gate : Option (ToolCall → Outcome G GateResult)) {verdict : Verdict}
      → gate_answer call facts gate ≡ ok (decided undecided)
      → after ≡ verdict
      → pre_execute_policy js read_summary call facts projects_root gate
        ≡ ok (record { verdict = verdict; recreated = none })
  unfolding pre_execute_policy after_gate
  undecided_run gate g e =
      ap (λ o. o >>= λ result. ok (after_gate js read_summary call facts projects_root result)) g
      ∙ ap (λ (v : Verdict). ok (record { verdict = v; recreated = none })) e
