-- ===== src/Approval/Policy/Prompts.antt =====
-- src/approval.ts: the prompt that the policy shows is about the call that it holds back.
use dsh_podman.Prelude.{
  ◌≡◌, refl, sym, ap, ◌∙◌, inl, inr, Option, none, some, Outcome, ok, Option-cases, arith,
  ok-injective, >>=-eq-ok,
}
use mathlib.Core.Option.{some-injective}
use dsh_podman.Text.{Text}
use dsh_podman.Mount.ReadOnly.{GateResult, ReadOnlyShellDecision, allow, deny, undecided}
use dsh_podman.Approval.Reasons.{ReasonFact, TemplateLoadSummary}
use dsh_podman.Approval.Mounts.{object_of}
use dsh_podman.Approval.Facts.{reason_fact, Builtins}
use dsh_podman.Approval.Policy.{
  Verdict, next, denied, ask, PolicyResult, ToolCall, SessionFacts, SummaryRequest, or_empty,
  ask_reason, summarized, with_summary, ungated, verdict_after, after_gate, gate_answer,
  pre_execute_policy,
}
use dsh_podman.Approval.Facts.Laws.{fact_kind, reason_fact-fact_kind}
use dsh_podman.Approval.Policy.Rule.{
  forget_fact, forget_reason, forget_summary, base, reason, rule, ungated-rule,
}

forget_fact-fact_kind : (fact : ReasonFact) → fact_kind (forget_fact fact) ≡ fact_kind fact
unfolding forget_fact fact_kind
forget_fact-fact_kind fact = ground arith

with_summary-fact_kind :
    (summary : Option TemplateLoadSummary) (fact : ReasonFact)
    → fact_kind (with_summary summary fact) ≡ fact_kind fact
unfolding with_summary fact_kind
with_summary-fact_kind summary fact = ground arith

ask-injective : {r o : Option ReasonFact} → ask r ≡ ask o → r ≡ o
ask-injective e = cc

ask_of_forget :
    (v : Verdict) (o : Option ReasonFact)
    → forget_summary v ≡ ask o
    → (r : Option ReasonFact) × (v ≡ ask r) × (forget_reason r ≡ o)
unfolding forget_summary
ask_of_forget next o e = cc
ask_of_forget (denied d) o e = cc
ask_of_forget (ask r) o e = (r, refl, ask-injective e)

some_of_forget :
    (r : Option ReasonFact) {fact : ReasonFact}
    → forget_reason r ≡ some fact
    → (asked : ReasonFact) × (r ≡ some asked) × (forget_fact asked ≡ fact)
some_of_forget none e = cc
some_of_forget (some asked) e = (asked, refl, some-injective _ _ e)

module _ {ℓ} {E : Type ℓ} (js : Builtins)
    (read_summary : Option (SummaryRequest → Outcome E (Option TemplateLoadSummary)))
    (call : ToolCall) (facts : SessionFacts) (projects_root : Option Text) where
  base-fact_kind :
      {fact : ReasonFact}
      → base js read_summary call facts projects_root ≡ some fact
      → fact_kind fact ≡ call.name
  unfolding ask_reason summarized
  base-fact_kind {fact} e =
      elim (Option-cases
        (reason_fact js call.name (or_empty (object_of call.arguments)) call.session_cwd)) [
          | inl n ↦ absurd (ground arith)
          | inr (described, s) ↦
              ap fact_kind (sym (some-injective _ _ (rw s at e)))
              ∙ with_summary-fact_kind none described
              ∙ reason_fact-fact_kind js (or_empty (object_of call.arguments)) call.session_cwd
                  call.name s
        ]

  rule-asks :
      (r : Option ReasonFact)
      → rule js read_summary call facts projects_root ≡ ask r
      → base js read_summary call facts projects_root ≡ r
  rule-asks r = elim (Option-cases (reason js read_summary call facts projects_root)) [
    | inl e ↦ rw e (λ h. ground arith)
    | inr (d, e) ↦ rw e (λ h. ground arith)
  ]

  -- What follows the gate asks about the tool that is called.
  ungated-fact_kind :
      {fact : ReasonFact}
      → ungated js read_summary call facts projects_root ≡ ask (some fact)
      → fact_kind fact ≡ call.name
  unfolding forget_summary
  ungated-fact_kind {fact} e =
      let (r, a, k) =
        ask_of_forget (rule js read_summary call facts projects_root) (some (forget_fact fact))
          (sym (ungated-rule js read_summary call facts projects_root) ∙ ap forget_summary e) in
      let (asked, s, same) = some_of_forget r k in
      sym (forget_fact-fact_kind fact)
      ∙ ap fact_kind (sym same)
      ∙ forget_fact-fact_kind asked
      ∙ base-fact_kind (rule-asks r a ∙ s)

  verdict_after-fact_kind :
      (d : ReadOnlyShellDecision) {rest : Verdict} {fact : ReasonFact}
      → (rest ≡ ask (some fact) → fact_kind fact ≡ call.name)
      → verdict_after call rest d ≡ ask (some fact)
      → fact_kind fact ≡ call.name
  verdict_after-fact_kind allow h e = cc
  verdict_after-fact_kind deny h e = cc
  verdict_after-fact_kind undecided h e = h e

  -- Where the policy asks with a reason, the reason is of the kind of the tool that is called: no
  -- prompt describes another operation, in any mode and with any gate and reader of summaries.
  pub pre_execute_policy-fact_kind :
      {G : Type 0} (gate : Option (ToolCall → Outcome G GateResult)) {result : PolicyResult}
      {fact : ReasonFact}
      → pre_execute_policy js read_summary call facts projects_root gate ≡ ok result
      → result.verdict ≡ ask (some fact)
      → fact_kind fact ≡ call.name
  unfolding pre_execute_policy after_gate
  pre_execute_policy-fact_kind gate e asked =
      let (g, _, same) = >>=-eq-ok (gate_answer call facts gate) _ e in
      verdict_after-fact_kind g.decision ungated-fact_kind
        (ap (λ (t : PolicyResult). t.verdict) (ok-injective same) ∙ asked)
