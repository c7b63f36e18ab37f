-- ===== src/Process/Exec/Settles.antt =====
-- The one outcome of an exec (src/subprocess.ts).
use dsh_podman.Prelude.{
  ℕ, ◌≤◌, ◌≡◌, refl, sym, ap, ◌∙◌, subst, inl, inr, Bool-cases, not, when, when-true, when-false,
  view-when, when-keeps, when_same, Bool, true, false, List, [], ◌∷◌, Option, none, some,
  if◌then◌else◌, arith, length,
}
use dsh_podman.Text.{Text, text}
use dsh_podman.Output.{Bytes, OutputReader}
use dsh_podman.Process.Exec.{
  Phase, resolving, started, unstarted, ExecSpec, ExecOutput, ExitMessage, Settlement, rejected,
  resolved, Exec, Event, bound, binding_failed, output, stream_error, stream_end, termination,
  grace_over, drained, spawned, is_started, is_resolving, fail_binding, exit_of, terminate, kill,
  take_stdout, take_stderr, take_pid, open_control, finish, take_exit, close_exec, on_data, on_end,
  bind, step, run,
}

-- The part of a state that says whether and how the exec is over.
pub record Core : Type 0 where
  pub phase : Phase
  pub settled : Bool
  pub exited : Bool
  pub outcomes : List Settlement

abbrev pub core : Exec → Core
core s = record { phase = s.phase; settled = s.settled; exited = s.exited; outcomes = s.outcomes }

abbrev pub closing : Settlement → Core → Core
closing o c = record c { settled = true; exited = true; outcomes = o ∷ c.outcomes }

abbrev pub close : Settlement → Core → Core
close o c = when (not c.settled) (closing o) c

pub core-terminate : (s : Exec) → core (terminate s) ≡ core s
unfolding terminate
core-terminate s = refl

pub core-kill : (s : Exec) → core (kill s) ≡ core s
unfolding kill
core-kill s = refl

pub core-take_stdout :
    (spec : ExecSpec) (chunk : Option Bytes) (full : Bool) (s : Exec)
    → core (take_stdout spec chunk full s) ≡ core s
unfolding take_stdout
core-take_stdout spec none full s = refl
core-take_stdout spec (some chunk) full s = refl

pub core-take_stderr :
    (spec : ExecSpec) (chunk : Option Bytes) (full : Bool) (s : Exec)
    → core (take_stderr spec chunk full s) ≡ core s
unfolding take_stderr
core-take_stderr spec none full s = refl
core-take_stderr spec (some chunk) full s = refl

pub core-take_pid : (pid : Option ℕ) (s : Exec) → core (take_pid pid s) ≡ core s
unfolding take_pid open_control terminate
core-take_pid none s = refl
core-take_pid (some pid) s =
    view-when core terminate (λ c. c) s.terminated (open_control pid (record s { pid = some pid }))
      refl
    ∙ when_same s.terminated (core s)

core-finish :
    (spec : ExecSpec) (o : Settlement) (s : Exec) → core (finish spec o s) ≡ close o (core s)
unfolding finish close_exec
core-finish spec o s = view-when core (close_exec spec o) (closing o) (not s.settled) s refl

abbrev pub exit_outcome : Option ExitMessage → Option Settlement
exit_outcome none = none
exit_outcome (some m) = some (resolved (exit_of m))

abbrev pub close_with : Option Settlement → Core → Core
close_with none c = c
close_with (some o) c = close o c

core-take_exit :
    (spec : ExecSpec) (m : Option ExitMessage) (s : Exec)
    → core (take_exit spec m s) ≡ close_with (exit_outcome m) (core s)
unfolding take_exit
core-take_exit spec none s = refl
core-take_exit spec (some m) s = core-finish spec (resolved (exit_of m)) _

core-on_data :
    (spec : ExecSpec) (message : ExecOutput) (stdout_full stderr_full : Bool) (s : Exec)
    → core (on_data spec message stdout_full stderr_full s)
      ≡ close_with (exit_outcome message.exit) (core s)
unfolding on_data
core-on_data spec message stdout_full stderr_full s =
    core-take_exit spec message.exit _
    ∙ ap (close_with (exit_outcome message.exit)) (
        core-take_stderr spec message.stderr_chunk stderr_full _
        ∙ core-take_pid message.process_id _
        ∙ core-take_stdout spec message.stdout_chunk stdout_full s)

close_twice :
    (o : Settlement) (b : Bool) (c : Core) → b ≡ not c.settled → when b (close o) c ≡ close o c
close_twice o true c e = refl
close_twice o false c e = sym (when-false (not c.settled) (closing o) c (sym e))

abbrev pub stream_ended : Settlement
stream_ended = rejected (text "exec stream ended before the process exited")

core-on_end : (spec : ExecSpec) (s : Exec) → core (on_end spec s) ≡ close stream_ended (core s)
unfolding on_end
core-on_end spec s =
    view-when core (λ t. finish spec stream_ended (terminate t)) (close stream_ended)
      (not s.settled) s
      (core-finish spec stream_ended (terminate s) ∙ ap (close stream_ended) (core-terminate s))
    ∙ close_twice stream_ended (not s.settled) (core s) refl

-- How many outcomes a state has had.
abbrev pub expected : Phase → Bool → ℕ
expected resolving settled = 0
expected (started w) settled = if settled then 1 else 0
expected unstarted settled = 1

pub record Sound (c : Core) : Type 0 where
  pub counted : length c.outcomes ≡ expected c.phase c.settled
  pub opened : is_started c.phase ≡ false → c.settled ≡ false
  pub exits : c.exited ≡ c.settled

expected-started :
    (p : Phase) (settled : Bool)
    → is_started p ≡ true
    → expected p settled ≡ (if settled then 1 else 0)
expected-started resolving settled h = ground arith
expected-started (started w) settled h = refl
expected-started unstarted settled h = ground arith

close-Sound : (o : Settlement) (c : Core) → is_started c.phase ≡ true → Sound c → Sound (close o c)
close-Sound o c p h = when-keeps Sound (closing o) (not c.settled) c grows h
  where
    grows : not c.settled ≡ true → Sound c → Sound (closing o c)
    grows e k =
        let open_yet : c.settled ≡ false = ground arith in
        let none_yet =
          k.counted
          ∙ expected-started c.phase c.settled p
          ∙ ap (λ b. if b then 1 else 0) open_yet in
        record {
          counted = omega (arith, none_yet, expected-started c.phase true p);
          opened = λ f. ground arith;
          exits = refl;
        }

pub closed : (o : Settlement) (c : Core) → (close o c).settled ≡ true
closed o c = by_cases c.settled refl
  where
    by_cases : (b : Bool) → c.settled ≡ b → (close o c).settled ≡ true
    by_cases true e = ap Core.settled (when-false (not c.settled) (closing o) c (ap not e)) ∙ e
    by_cases false e = ap Core.settled (when-true (not c.settled) (closing o) c (ap not e))

abbrev pub outcome_of : Event → Option Settlement
outcome_of (stream_error error) = some (rejected error)
outcome_of stream_end = some stream_ended
outcome_of (output message stdout_full stderr_full) = exit_outcome message.exit
outcome_of (bound supported) = none
outcome_of (binding_failed error) = none
outcome_of termination = none
outcome_of grace_over = none
outcome_of (drained pipe) = none

pub not_resolving : (p : Phase) → is_started p ≡ true → is_resolving p ≡ false
not_resolving resolving h = ground arith
not_resolving (started w) h = refl
not_resolving unstarted h = refl

-- An event on an open stream settles the exec if it ends it, and else changes nothing here.
pub core-step_started :
    (spec : ExecSpec) (s : Exec) (e : Event)
    → is_started s.phase ≡ true
    → core (step spec s e) ≡ close_with (outcome_of e) (core s)
unfolding step
core-step_started spec s (output message stdout_full stderr_full) h =
    ap core (when-true (is_started s.phase) (on_data spec message stdout_full stderr_full) s h)
    ∙ core-on_data spec message stdout_full stderr_full s
core-step_started spec s (stream_error error) h =
    ap core (when-true (is_started s.phase) (λ t. finish spec (rejected error) (terminate t)) s h)
    ∙ core-finish spec (rejected error) (terminate s)
    ∙ ap (close (rejected error)) (core-terminate s)
core-step_started spec s stream_end h =
    ap core (when-true (is_started s.phase) (on_end spec) s h) ∙ core-on_end spec s
core-step_started spec s (bound supported) h =
    ap core (when-false (is_resolving s.phase) (bind spec supported) s (not_resolving s.phase h))
core-step_started spec s (binding_failed error) h =
    ap core (when-false (is_resolving s.phase) (fail_binding error) s (not_resolving s.phase h))
core-step_started spec s termination h = core-terminate s
core-step_started spec s grace_over h = core-kill s
core-step_started spec s (drained pipe) h = refl

close_with-Sound :
    (o : Option Settlement) (c : Core)
    → is_started c.phase ≡ true
    → Sound c
    → Sound (close_with o c)
close_with-Sound none c p h = h
close_with-Sound (some o) c p h = close-Sound o c p h

resolving_not_started : (p : Phase) → is_resolving p ≡ true → is_started p ≡ false
resolving_not_started resolving h = refl
resolving_not_started (started w) h = ground arith
resolving_not_started unstarted h = refl

expected-resolving : (p : Phase) (settled : Bool) → is_resolving p ≡ true → expected p settled ≡ 0
expected-resolving resolving settled h = refl
expected-resolving (started w) settled h = ground arith
expected-resolving unstarted settled h = ground arith

bind-Sound :
    (spec : ExecSpec) (supported : Bool) (s : Exec)
    → is_resolving s.phase ≡ true
    → Sound (core s)
    → Sound (core (bind spec supported s))
unfolding bind
bind-Sound spec supported s r h =
    let open_yet = h.opened (resolving_not_started s.phase r) in
    let none_yet = h.counted ∙ expected-resolving s.phase s.settled r in
    record {
      counted = none_yet ∙ sym (ap (λ b. if b then 1 else 0) open_yet);
      opened = λ f. ground arith;
      exits = h.exits;
    }

fail_binding-Sound :
    (error : Text) (s : Exec)
    → is_resolving s.phase ≡ true
    → Sound (core s)
    → Sound (core (fail_binding error s))
unfolding fail_binding
fail_binding-Sound error s r h = record {
  counted = omega (arith, h.counted, expected-resolving s.phase s.settled r);
  opened = λ f. h.opened (resolving_not_started s.phase r);
  exits = h.exits;
}

-- With no open stream, an event but the binding's changes nothing here.
step-Sound_unopened :
    (spec : ExecSpec) (s : Exec) (e : Event)
    → is_started s.phase ≡ false
    → Sound (core s)
    → Sound (core (step spec s e))
unfolding step
step-Sound_unopened spec s (bound supported) p h =
    when-keeps (λ t. Sound (core t)) (bind spec supported) (is_resolving s.phase) s
      (bind-Sound spec supported s) h
step-Sound_unopened spec s (binding_failed error) p h =
    when-keeps (λ t. Sound (core t)) (fail_binding error) (is_resolving s.phase) s
      (fail_binding-Sound error s) h
step-Sound_unopened spec s (output message stdout_full stderr_full) p h =
    subst Sound (sym (ap core (when-false _ (on_data spec message stdout_full stderr_full) s p))) h
step-Sound_unopened spec s (stream_error error) p h =
    subst Sound (sym (ap core (when-false _ (λ t. finish spec (rejected error) (terminate t)) s p)))
      h
step-Sound_unopened spec s stream_end p h =
    subst Sound (sym (ap core (when-false _ (on_end spec) s p))) h
step-Sound_unopened spec s termination p h = subst Sound (sym (core-terminate s)) h
step-Sound_unopened spec s grace_over p h = subst Sound (sym (core-kill s)) h
step-Sound_unopened spec s (drained pipe) p h = h

pub step-Sound :
    (spec : ExecSpec) (s : Exec) (e : Event) → Sound (core s) → Sound (core (step spec s e))
step-Sound spec s e h = elim (Bool-cases (is_started s.phase)) [
  | inl p ↦
      subst Sound (sym (core-step_started spec s e p))
        (close_with-Sound (outcome_of e) (core s) p h)
  | inr p ↦ step-Sound_unopened spec s e p h
]

pub run-Sound :
    (spec : ExecSpec) (s : Exec) (events : List Event)
    → Sound (core s)
    → Sound (core (run spec s events))
unfolding run
run-Sound spec s [] h = h
run-Sound spec s (e ∷ events) h = run-Sound spec (step spec s e) events (step-Sound spec s e h)

pub spawned-Sound : (spec : ExecSpec) (a b : Option OutputReader) → Sound (core (spawned spec a b))
unfolding spawned
spawned-Sound spec a b = record { counted = refl; opened = λ f. refl; exits = refl }

-- After any events, an exec has had no outcome while its binding resolves, one if the binding
-- failed, and, with its stream open, one exactly if it is settled; and `exited` is `settled`.
pub run-outcomes_once :
    (spec : ExecSpec) (stdout_reader stderr_reader : Option OutputReader) (events : List Event)
    → let s = run spec (spawned spec stdout_reader stderr_reader) events in
      (length s.outcomes ≡ expected s.phase s.settled)
      × (s.exited ≡ s.settled)
      × (length s.outcomes ≤ 1)
run-outcomes_once spec stdout_reader stderr_reader events =
    let h = run-Sound spec _ events (spawned-Sound spec stdout_reader stderr_reader) in
    (h.counted, h.exits, omega (arith, h.counted, at_most _ _))
  where
    at_most : (p : Phase) (settled : Bool) → expected p settled ≤ 1
    at_most resolving settled = omega arith
    at_most (started w) true = omega arith
    at_most (started w) false = omega arith
    at_most unstarted settled = omega arith
