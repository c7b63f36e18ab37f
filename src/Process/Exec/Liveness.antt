-- ===== src/Process/Exec/Liveness.antt =====
-- An exec comes to its end (src/subprocess.ts).
use dsh_podman.Prelude.{
  ◌≡◌, refl, sym, ap, ◌∙◌, subst, inl, inr, Bool-cases, not, when, when-true, when-false, Bool,
  true, false, List, [], ◌∷◌, ◌++◌, Option, none, some, if◌then◌else◌, arith, length,
}
use dsh_podman.Output.{is_some, OutputReader}
use dsh_podman.Process.Exec.{
  Phase, resolving, started, unstarted, ExecSpec, ExitMessage, Settlement, rejected, Exec, Event,
  bound, binding_failed, output, stream_error, stream_end, termination, grace_over, drained,
  spawned, is_started, is_resolving, fail_binding, terminate, finish, on_data, on_end, bind, step,
  run,
}
use dsh_podman.Process.Exec.Settles.{
  Core, core, closing, closed, close_with, outcome_of, exit_outcome, core-terminate, core-kill,
  core-step_started, Sound, expected, spawned-Sound, run-Sound,
}

-- The events that end an exec whose stream is open.
unfoldable pub ends : Event → Bool
ends (output message stdout_full stderr_full) = is_some message.exit
ends (stream_error error) = true
ends stream_end = true
ends (bound supported) = false
ends (binding_failed error) = false
ends termination = false
ends grace_over = false
ends (drained pipe) = false

-- An exec that has had its outcome.
record Over (c : Core) : Type 0 where
  known : is_resolving c.phase ≡ false
  done : is_started c.phase ≡ true → c.settled ≡ true

close_with-phase : (o : Option Settlement) (c : Core) → (close_with o c).phase ≡ c.phase
close_with-phase none c = refl
close_with-phase (some o) c = go (not c.settled)
  where
    go : (b : Bool) → (when b (closing o) c).phase ≡ c.phase
    go true = refl
    go false = refl

pub step_started :
    (spec : ExecSpec) (s : Exec) (e : Event)
    → is_started s.phase ≡ true
    → is_started (step spec s e).phase ≡ true
step_started spec s e p =
    ap (λ c. is_started (Core.phase c)) (core-step_started spec s e p)
    ∙ ap is_started (close_with-phase (outcome_of e) (core s))
    ∙ p

core-step_unstarted :
    (spec : ExecSpec) (s : Exec) (e : Event)
    → is_started s.phase ≡ false
    → is_resolving s.phase ≡ false
    → core (step spec s e) ≡ core s
unfolding step
core-step_unstarted spec s (bound supported) p r = ap core (when-false _ (bind spec supported) s r)
core-step_unstarted spec s (binding_failed error) p r =
    ap core (when-false _ (fail_binding error) s r)
core-step_unstarted spec s (output message stdout_full stderr_full) p r =
    ap core (when-false _ (on_data spec message stdout_full stderr_full) s p)
core-step_unstarted spec s (stream_error error) p r =
    ap core (when-false _ (λ t. finish spec (rejected error) (terminate t)) s p)
core-step_unstarted spec s stream_end p r = ap core (when-false _ (on_end spec) s p)
core-step_unstarted spec s termination p r = core-terminate s
core-step_unstarted spec s grace_over p r = core-kill s
core-step_unstarted spec s (drained pipe) p r = refl

close_with-settled : (o : Option Settlement) (c : Core) → c.settled ≡ true → close_with o c ≡ c
close_with-settled none c e = refl
close_with-settled (some o) c e = when-false (not c.settled) (closing o) c (ap not e)

-- Nothing changes an exec that is over.
core-step_finished :
    (spec : ExecSpec) (s : Exec) (e : Event) → Over (core s) → core (step spec s e) ≡ core s
core-step_finished spec s e h = elim (Bool-cases (is_started s.phase)) [
  | inl p ↦ core-step_started spec s e p ∙ close_with-settled (outcome_of e) (core s) (h.done p)
  | inr p ↦ core-step_unstarted spec s e p h.known
]

core-run_finished :
    (spec : ExecSpec) (s : Exec) (events : List Event)
    → Over (core s)
    → core (run spec s events) ≡ core s
unfolding run
core-run_finished spec s [] h = refl
core-run_finished spec s (e ∷ events) h =
    let same = core-step_finished spec s e h in
    core-run_finished spec (step spec s e) events (subst Over (sym same) h) ∙ same

-- A settled exec stays settled.
pub step_settled :
    (spec : ExecSpec) (s : Exec) (e : Event)
    → Sound (core s)
    → s.settled ≡ true
    → (step spec s e).settled ≡ true
step_settled spec s e h done = elim (Bool-cases (is_started s.phase)) [
  | inl p ↦
      ap Core.settled
        (core-step_started spec s e p ∙ close_with-settled (outcome_of e) (core s) done)
      ∙ done
  | inr p ↦ absurd (ground (arith, sym (h.opened p) ∙ done))
]

step_known :
    (spec : ExecSpec) (s : Exec) (e : Event)
    → is_resolving s.phase ≡ false
    → is_resolving (step spec s e).phase ≡ false
step_known spec s e r = elim (Bool-cases (is_started s.phase)) [
  | inl p ↦
      ap (λ c. is_resolving (Core.phase c)) (core-step_started spec s e p)
      ∙ ap is_resolving (close_with-phase (outcome_of e) (core s))
      ∙ r
  | inr p ↦ ap (λ c. is_resolving (Core.phase c)) (core-step_unstarted spec s e p r) ∙ r
]

run_known :
    (spec : ExecSpec) (s : Exec) (events : List Event)
    → is_resolving s.phase ≡ false
    → is_resolving (run spec s events).phase ≡ false
unfolding run
run_known spec s [] r = r
run_known spec s (e ∷ events) r = run_known spec (step spec s e) events (step_known spec s e r)

has_outcome : (e : Event) → ends e ≡ true → (o : Settlement) × (outcome_of e ≡ some o)
unfolding ends
has_outcome (output message stdout_full stderr_full) h = by_exit message.exit h
  where
    by_exit :
        (m : Option ExitMessage) → is_some m ≡ true → (o : Settlement) × (exit_outcome m ≡ some o)
    by_exit none h = ground arith
    by_exit (some m) h = (_, refl)
has_outcome (stream_error error) h = (_, refl)
has_outcome stream_end h = (_, refl)
has_outcome (bound supported) h = ground arith
has_outcome (binding_failed error) h = ground arith
has_outcome termination h = ground arith
has_outcome grace_over h = ground arith
has_outcome (drained pipe) h = ground arith

step-Over :
    (spec : ExecSpec) (s : Exec) (e : Event)
    → is_resolving s.phase ≡ false
    → ends e ≡ true
    → Over (core (step spec s e))
step-Over spec s e r h = elim (Bool-cases (is_started s.phase)) [
  | inl p ↦
      let (o, q) = has_outcome e h in
      let same = core-step_started spec s e p ∙ ap (λ m. close_with m (core s)) q in
      record { known = step_known spec s e r; done = λ f. ap Core.settled same ∙ closed o (core s) }
  | inr p ↦
      subst Over (sym (core-step_unstarted spec s e p r))
        (record { known = r; done = λ f. absurd (ground arith) })
]

run-append :
    (spec : ExecSpec) (s : Exec) (xs ys : List Event)
    → run spec s (xs ++ ys) ≡ run spec (run spec s xs) ys
unfolding run
run-append spec s [] ys = refl
run-append spec s (e ∷ xs) ys = run-append spec (step spec s e) xs ys

one_outcome : (c : Core) → Sound c → Over c → length c.outcomes ≡ 1
one_outcome c h o = h.counted ∙ go c.phase c.settled o.known o.done
  where
    go :
        (p : Phase) (settled : Bool)
        → is_resolving p ≡ false
        → (is_started p ≡ true → settled ≡ true)
        → expected p settled ≡ 1
    go resolving settled r d = ground arith
    go (started w) settled r d = ap (λ b. if b then 1 else 0) (d refl)
    go unstarted settled r d = refl

Over-of_one : (c : Core) → Sound c → length c.outcomes ≡ 1 → Over c
Over-of_one c h one = go c.phase c.settled (sym h.counted ∙ one) c refl refl
  where
    go :
        (p : Phase) (settled : Bool)
        → expected p settled ≡ 1
        → (d : Core) → d.phase ≡ p
        → d.settled ≡ settled
        → Over d
    go resolving settled e d p q = absurd (omega (arith, e))
    go (started w) true e d p q = record { known = ap is_resolving p; done = λ f. q }
    go (started w) false e d p q = absurd (omega (arith, e))
    go unstarted settled e d p q = record {
      known = ap is_resolving p;
      done = λ f. absurd (ground (arith, sym f ∙ ap is_started p));
    }

step_bound_known :
    (spec : ExecSpec) (s : Exec) (supported : Bool)
    → is_resolving (step spec s (bound supported)).phase ≡ false
unfolding step
step_bound_known spec s supported = elim (Bool-cases (is_resolving s.phase)) [
  | inl e ↦
      ap (λ t. is_resolving (Exec.phase t)) (when-true _ (bind spec supported) s e)
      ∙ unfold bind in refl
  | inr e ↦ ap (λ t. is_resolving (Exec.phase t)) (when-false _ (bind spec supported) s e) ∙ e
]

-- An exec whose binding resolves, and whose stream later carries an exit message, fails or ends,
-- is settled once, whatever else happens before, between and after.
pub run-settles :
    (spec : ExecSpec) (stdout_reader stderr_reader : Option OutputReader)
    (before between after : List Event) (supported : Bool) (last : Event)
    → ends last ≡ true
    → length
        (run spec
          (spawned spec stdout_reader stderr_reader)
          (before ++ bound supported ∷ (between ++ last ∷ after))).outcomes
      ≡ 1
run-settles spec stdout_reader stderr_reader before between after supported last h =
    one_outcome (core s) (run-Sound spec _ _ (spawned-Sound spec stdout_reader stderr_reader)) (
      subst (λ t. Over (core t)) (sym at_last)
        (subst Over (sym (core-run_finished spec _ after over)) over))
  where
    s : Exec
    s =
        run spec (spawned spec stdout_reader stderr_reader)
          (before ++ bound supported ∷ (between ++ last ∷ after))

    opened : Exec
    opened =
        step spec (run spec (spawned spec stdout_reader stderr_reader) before) (bound supported)

    at_last : s ≡ run spec (step spec (run spec opened between) last) after
    at_last =
        run-append spec _ before _ ∙ unfold run in run-append spec opened between (last ∷ after)

    over : Over (core (step spec (run spec opened between) last))
    over =
        step-Over spec (run spec opened between) last
          (run_known spec opened between (step_bound_known spec _ supported)) h

-- Once an exec has had its outcome, no event changes it or adds another.
pub run-outcomes_stay :
    (spec : ExecSpec) (stdout_reader stderr_reader : Option OutputReader)
    (before after : List Event)
    → length (run spec (spawned spec stdout_reader stderr_reader) before).outcomes ≡ 1
    → (run spec (spawned spec stdout_reader stderr_reader) (before ++ after)).outcomes
      ≡ (run spec (spawned spec stdout_reader stderr_reader) before).outcomes
run-outcomes_stay spec stdout_reader stderr_reader before after one =
    ap Exec.outcomes (run-append spec _ before after)
    ∙ ap Core.outcomes (
        core-run_finished spec _ after (
          Over-of_one _ (run-Sound spec _ before (spawned-Sound spec stdout_reader stderr_reader))
            one))
