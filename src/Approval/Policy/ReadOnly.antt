-- ===== src/Approval/Policy/ReadOnly.antt =====
-- src/approval.ts under a read-only permission, with the gate of src/read-only-shell.ts in place.
use dsh_podman.Prelude.{
  ◌≡◌, ◌≢◌, refl, ◌⊎◌, inl, inr, Bool, true, false, List, Option, none, some, Outcome, ok, throw,
  arith, All, All-all, Bool-cases, not, ◌&&◌, ◌||◌,
}
use dsh_podman.Text.{Text, text, ◌===◌, includes}
use dsh_podman.Text.Sets.{All-includes}
use dsh_podman.Value.{Value, Fields, end}
use dsh_podman.Mount.ReadOnly.{
  read_only_gated_tools, StoredMount, ContainerRow, MountRequest, GateResult, GateFailure,
  call_failed, mount_failed, undecided, decided, container_of, read_container_mounts, is_writable,
  read_only_shell_gate,
}
use dsh_podman.Mount.ReadOnly.Laws.{
  Remounts, Gates, not_covered, unreadable, all_read_only, approved, declined, not_answered,
  not_resolved, not_recreated, read_only_shell_gate-Gates,
}
use dsh_podman.Approval.Reasons.{ReasonFact, TemplateLoadSummary}
use dsh_podman.Approval.Mounts.{
  object_of, single_mount_tools, mount_list_tools, mount_destinations_reason,
}
use dsh_podman.Approval.Facts.{Builtins}
use dsh_podman.Approval.Policy.{
  Verdict, next, ask, PolicyResult, ToolCall, SessionFacts, SummaryRequest, is, approval_decision,
  decided_ask, or_empty, ungated, checked, allowed, after_gate, pre_execute_policy, gate_answer,
}
use dsh_podman.Approval.Tools.{
  our_tool_names, read_only_tools, podman_ops_approval_tools, builtin_file_tools, asks,
}
use dsh_podman.Approval.Policy.Rule.{undecided_run}

-- A tool that the read-only mode leaves alone: one of the list of those that read, or one that is
-- neither the plugin's nor a file tool of the harness.
abbrev pub Reads : Text → Type 0
Reads name =
    (includes name read_only_tools ≡ true)
    ⊎ ((includes name our_tool_names ≡ false) × (includes name builtin_file_tools ≡ false))

-- The mounts of the call's container were read, and none is writable while the call runs: none was,
-- or the orchestrator has recreated the container with none.
abbrev pub Protects :
    {E : Type 0}
    → (Text → Text → List MountRequest → Outcome E (Unit {0}))
    → Text
    → Option (List StoredMount)
    → Option (List MountRequest)
    → Type 0
Protects recreate_container container found recreated =
    (mounts : List StoredMount) × (found ≡ some mounts)
    × (((recreated ≡ none) × All (λ mount. is_writable mount ≡ false) mounts)
        ⊎ ((requests : List MountRequest) × (slug : Text) × (recreated ≡ some requests)
            × Remounts mounts requests
            × (recreate_container slug container requests ≡ ok tt)))

-- A tool that no rule but the read-only one concerns.
abbrev is_quiet : Text → Fields → Bool
is_quiet name args =
    includes name our_tool_names
    && (not (includes name builtin_file_tools)
        && (not (includes name read_only_gated_tools)
            && (not (includes name single_mount_tools)
                && (not (includes name mount_list_tools)
                    && (not (includes name podman_ops_approval_tools) && not (asks name args))))))

read_only_tools_quiet : (args : Fields) → All (λ name. is_quiet name args ≡ true) read_only_tools
unfolding includes text ◌===◌ our_tool_names asks
read_only_tools_quiet args = All-all (λ name. is_quiet name args) read_only_tools refl

gated_tools_known :
    All
      (λ name. (includes name our_tool_names || includes name builtin_file_tools) ≡ true)
      read_only_gated_tools
unfolding includes text ◌===◌ our_tool_names
gated_tools_known =
    All-all (λ name. includes name our_tool_names || includes name builtin_file_tools)
      read_only_gated_tools refl

-- The gate leaves such a tool undecided.
Reads-not_gated : (name : Text) → Reads name → includes name read_only_gated_tools ≡ false
Reads-not_gated name (inl e) =
    let quiet =
      All-includes (λ n. is_quiet n end ≡ true) name read_only_tools (read_only_tools_quiet end)
        e in
    ground arith
Reads-not_gated name (inr (foreign, other)) =
    elim (Bool-cases (includes name read_only_gated_tools)) [
      | inr e ↦ e
      | inl e ↦
          let known =
            All-includes (λ n. (includes n our_tool_names || includes n builtin_file_tools) ≡ true)
              name read_only_gated_tools gated_tools_known e in
          absurd (ground arith)
    ]

pub no_mount_reason :
    (name : Text) (args : Option Fields) (projects_root : Option Text)
    → includes name single_mount_tools ≡ false
    → includes name mount_list_tools ≡ false
    → mount_destinations_reason name args projects_root ≡ none
unfolding mount_destinations_reason
no_mount_reason name none projects_root s l = refl
no_mount_reason name (some args) projects_root s l = rw s (rw l refl)

module _ {ℓ} {E : Type ℓ} (js : Builtins)
    (read_summary : Option (SummaryRequest → Outcome E (Option TemplateLoadSummary)))
    (call : ToolCall) (facts : SessionFacts) (projects_root : Option Text) where
  abbrev after : Verdict
  after = ungated js read_summary call facts projects_root

  -- In the read-only mode the rules after the gate let only such tools pass, and never ask.
  ungated-Reads_of :
      is facts.mode (text "read-only") ≡ true
      → (after ≡ next → Reads call.name) × ((reason : Option ReasonFact) → after ≢ ask reason)
  unfolding ungated
  ungated-Reads_of m = (
    λ e. elim (Bool-cases (includes call.name read_only_tools)) [
      | inl r ↦ inl r
      | inr w ↦ inr (ground arith)
    ],
    λ reason e. ground arith,
  )

  ungated-Reads : Reads call.name → after ≡ next
  unfolding ungated checked allowed decided_ask approval_decision
  ungated-Reads (inr (foreign, other)) = ground arith
  ungated-Reads (inl e) =
      let quiet =
        All-includes (λ n. is_quiet n (or_empty (object_of call.arguments)) ≡ true) call.name
          read_only_tools (read_only_tools_quiet (or_empty (object_of call.arguments))) e in
      ground (arith, no_mount_reason call.name (object_of call.arguments) projects_root)

  module _ {F : Type 0} (approve : Text → List StoredMount → List StoredMount → Outcome F Bool)
      (slug_later : Outcome F Text)
      (recreate_container : Text → Text → List MountRequest → Outcome F (Unit {0})) (slug : Text)
      (container : Value) (rows : Option (List ContainerRow)) where
    abbrev gate : ToolCall → Outcome (GateFailure F) GateResult
    gate given =
        read_only_shell_gate approve slug_later recreate_container given.name container slug rows

    abbrev run : Outcome (GateFailure F) PolicyResult
    run = pre_execute_policy js read_summary call facts projects_root (some gate)

    abbrev found : Option (List StoredMount)
    found = read_container_mounts rows slug (container_of container)

    abbrev Comes : Outcome (GateFailure F) GateResult → Type 0
    Comes = Gates approve slug_later recreate_container call.name (container_of container) found

    abbrev Allows : PolicyResult → Type 0
    Allows result =
        (result.verdict ≡ next
          → Reads call.name
            ⊎ Protects recreate_container (container_of container) found result.recreated)
        × ((reason : Option ReasonFact) → result.verdict ≢ ask reason)

    abbrev AllowsAfter : Outcome (GateFailure F) GateResult → Type 0
    AllowsAfter (ok result) = Allows (after_gate js read_summary call facts projects_root result)
    AllowsAfter (throw (call_failed e)) = Unit
    AllowsAfter (throw (mount_failed e)) = ⊥

    after-Allows :
        (o : Outcome (GateFailure F) GateResult)
        → is facts.mode (text "read-only") ≡ true
        → Comes o
        → AllowsAfter o
    unfolding after_gate
    after-Allows _ m (not_covered u) = (λ e. inl ((ungated-Reads_of m).0 e), (ungated-Reads_of m).1)
    after-Allows _ m (unreadable f) = (λ e. inl ((ungated-Reads_of m).0 e), (ungated-Reads_of m).1)
    after-Allows _ m (all_read_only mounts f h) =
        (λ e. inr (mounts, f, inl (refl, h)), λ reason. cc)
    after-Allows _ m (approved mounts requests again f a s h done) =
        (λ e. inr (mounts, f, inr (requests, again, refl, h, done)), λ reason. cc)
    after-Allows _ m (declined mounts f a) = (λ e. cc, λ reason. cc)
    after-Allows _ m (not_answered mounts e f a) = tt
    after-Allows _ m (not_resolved mounts e f a s) = tt
    after-Allows _ m (not_recreated mounts requests again e f a s h failed) = tt

    -- Under a read-only permission, with the gate in place, the policy's own verdict is never a
    -- question; it is the gate that may ask the user. Where the policy lets a call through, the tool
    -- is one of the list of those that read, or neither the plugin's nor a file tool of the harness,
    -- or else the mounts of its container are known and none is writable: each that carries a mode
    -- was read-only already, or the orchestrator has recreated the container with it read-only.
    -- Where the policy fails instead, it is with the error of a call of the gate that failed: the
    -- question to the user, the workspace's resolution after it, or the recreation.
    pub pre_execute_policy-Protects :
        is facts.mode (text "read-only") ≡ true
        → ((result : PolicyResult) × (run ≡ ok result)
            × (result.verdict ≡ next
                → Reads call.name
                  ⊎ Protects recreate_container (container_of container) found result.recreated)
            × ((reason : Option ReasonFact) → result.verdict ≢ ask reason))
          ⊎ ((e : F) × (run ≡ throw (call_failed e))
              × Gates approve slug_later recreate_container call.name
                  (container_of container)
                  found
                  (throw (call_failed e)))
    unfolding pre_execute_policy gate_answer
    pre_execute_policy-Protects m = by_answer (gate call) refl (
        read_only_shell_gate-Gates approve slug_later recreate_container call.name slug container
          rows)
      where
        by_answer :
            (o : Outcome (GateFailure F) GateResult)
            → gate call ≡ o
            → Comes o
            → ((result : PolicyResult) × (run ≡ ok result)
                × (result.verdict ≡ next
                    → Reads call.name
                      ⊎ Protects recreate_container (container_of container) found result.recreated)
                × ((reason : Option ReasonFact) → result.verdict ≢ ask reason))
              ⊎ ((e : F) × (run ≡ throw (call_failed e)) × Comes (throw (call_failed e)))
        by_answer (ok result) e gates =
            let (safe, quiet) = after-Allows (ok result) m gates in
            inl (
              after_gate js read_summary call facts projects_root result,
              rw m (rw e refl),
              safe,
              quiet,
            )
        by_answer (throw (call_failed f)) e gates = inr (f, rw m (rw e refl), gates)
        by_answer (throw (mount_failed f)) e gates =
            absurd (after-Allows (throw (mount_failed f)) m gates)

    undecided_of_Reads : Reads call.name → gate call ≡ ok (decided undecided)
    unfolding read_only_shell_gate
    undecided_of_Reads r = rw (Reads-not_gated call.name r) refl

    answer_of_Reads : Reads call.name → gate_answer call facts (some gate) ≡ ok (decided undecided)
    unfolding gate_answer
    answer_of_Reads r = elim (Bool-cases (is facts.mode (text "read-only"))) [
      | inl m ↦ rw m (undecided_of_Reads r)
      | inr m ↦ rw m refl
    ]

    -- A tool of the list of those that read, or one that is neither the plugin's nor a file tool of
    -- the harness, runs in every session, whatever its mode, its approval policy and its preset,
    -- with the gate in place: no question is asked and no container is recreated.
    pub pre_execute_policy-Reads :
        Reads call.name → run ≡ ok (record { verdict = next; recreated = none })
    pre_execute_policy-Reads r =
        undecided_run js read_summary call facts projects_root (some gate) (answer_of_Reads r)
          (ungated-Reads r)
