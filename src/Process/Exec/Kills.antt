-- ===== src/Process/Exec/Kills.antt =====
-- The signals that an exec sends (src/subprocess.ts).
pub mod Timer
use dsh_podman.Prelude.{
  ℕ, ◌+◌, ◌≤◌, ◌≡◌, refl, ap, not, ◌&&◌, ltb, when-keeps, Bool, true, false, List, [], ◌∷◌, ◌++◌,
  Option, none, some, if◌then◌else◌, arith,
}
use dsh_podman.Text.{Text}
use dsh_podman.Output.{Bytes, OutputReader, discard_unneeded_spill}
use dsh_podman.Process.Exec.{
  Pipe, stdout, stderr, Stdio, piped, inherited, collected, Effect, signalled, wrote, echoed, ended,
  opened_control, cancelled_control, destroyed_control, deleted, sigterm, sigkill, KillTimer, unset,
  armed, fired, arm, fire, is_armed, chunk_effects, end_pipe, deletion, on_rejection, teardown,
  Phase, ExecSpec, ExitMessage, Settlement, rejected, resolved, Exec, Event, bound, binding_failed,
  output, stream_error, stream_end, signal_process, termination, grace_over, drained, spawned,
  is_started, is_resolving, fail_binding, terminate, kill, finish, close_exec, open_control,
  take_stdout, take_stderr, take_pid, take_exit, on_data, on_end, bind, step, run,
}

abbrev is_kill : Effect → Bool
is_kill (signalled pid sigkill) = true
is_kill (signalled pid sigterm) = false
is_kill (wrote pipe chunk) = false
is_kill (echoed pipe chunk) = false
is_kill (ended pipe) = false
is_kill (opened_control pid) = false
is_kill cancelled_control = false
is_kill destroyed_control = false
is_kill (deleted path) = false

-- How many times the process was sent SIGKILL.
unfoldable pub kills : List Effect → ℕ
kills [] = 0
kills (e ∷ effects) = (if is_kill e then 1 else 0) + kills effects

kills-append : (xs ys : List Effect) → kills (xs ++ ys) ≡ kills xs + kills ys
unfolding kills
kills-append [] ys = omega arith
kills-append (x ∷ xs) ys = ground (arith, kills-append xs ys)

kills-sigterm : (phase : Phase) (pid : Option ℕ) → kills (signal_process phase pid sigterm) ≡ 0
unfolding kills signal_process
kills-sigterm phase none = refl
kills-sigterm phase (some pid) = go (is_started phase && ltb 0 pid)
  where
    go : (b : Bool) → kills (if b then signalled pid sigterm ∷ [] else []) ≡ 0
    go true = refl
    go false = refl

kills-sigkill : (phase : Phase) (pid : Option ℕ) → kills (signal_process phase pid sigkill) ≤ 1
unfolding kills signal_process
kills-sigkill phase none = omega arith
kills-sigkill phase (some pid) = go (is_started phase && ltb 0 pid)
  where
    go : (b : Bool) → kills (if b then signalled pid sigkill ∷ [] else []) ≤ 1
    go true = omega arith
    go false = omega arith

kills-chunk :
    (mode : Stdio) (pipe : Pipe) (chunk : Bytes) → kills (chunk_effects mode pipe chunk) ≡ 0
unfolding kills chunk_effects
kills-chunk piped pipe chunk = refl
kills-chunk inherited pipe chunk = refl
kills-chunk collected pipe chunk = refl

kills-end_pipe : (mode : Stdio) (pipe : Pipe) → kills (end_pipe mode pipe) ≡ 0
unfolding kills
kills-end_pipe piped pipe = refl
kills-end_pipe inherited pipe = refl
kills-end_pipe collected pipe = refl

kills-deletion : (path : Option Text) → kills (deletion path) ≡ 0
unfolding kills
kills-deletion none = refl
kills-deletion (some path) = refl

kills-rejection : (outcome : Settlement) (control : Bool) → kills (on_rejection outcome control) ≡ 0
unfolding kills
kills-rejection (resolved exit) control = refl
kills-rejection (rejected error) true = refl
kills-rejection (rejected error) false = refl

kills_if : (b : Bool) (e : Effect) → is_kill e ≡ false → kills (if b then e ∷ [] else []) ≡ 0
unfolding kills
kills_if true e h = rw h refl
kills_if false e h = refl

kills-teardown : (spec : ExecSpec) (s : Exec) → kills (teardown spec s) ≡ 0
unfolding teardown
kills-teardown spec s =
    parts (deletion (discard_unneeded_spill s.stderr_reader)) _ (kills-deletion _) (
      parts (deletion (discard_unneeded_spill s.stdout_reader)) _ (kills-deletion _) (
        parts (end_pipe spec.stderr_mode stderr) _ (kills-end_pipe spec.stderr_mode stderr) (
          parts (end_pipe spec.stdout_mode stdout) _ (kills-end_pipe spec.stdout_mode stdout) (
            parts (if not s.control_closed && s.control_call then cancelled_control ∷ [] else []) _
              (kills_if _ cancelled_control refl) (kills_if s.control destroyed_control refl)))))
  where
    parts : (xs ys : List Effect) → kills xs ≡ 0 → kills ys ≡ 0 → kills (xs ++ ys) ≡ 0
    parts xs ys h k = omega (arith, kills-append xs ys, h, k)

-- At most one SIGKILL is sent, and only by the timer, before the exec is settled.
abbrev pub budget : KillTimer → Bool → ℕ
budget unset true = 1
budget unset false = 0
budget armed true = 1
budget armed false = 0
budget fired settled = 1

record Bounded (s : Exec) : Type 0 where
  few : kills s.effects ≤ (if s.terminated then budget s.kill_timer s.exited else 0)
  idle : s.terminated ≡ false → s.kill_timer ≡ unset

quiet : (xs ys : List Effect) (n : ℕ) → kills xs ≡ 0 → kills ys ≤ n → kills (xs ++ ys) ≤ n
quiet xs ys n h k = omega (arith, kills-append xs ys, h, k)

terminate-Bounded : (s : Exec) → Bounded s → Bounded (terminate s)
unfolding terminate
terminate-Bounded s h = record {
  few =
      quiet (signal_process s.phase s.pid sigterm) s.effects (budget (arm s.kill_timer) s.exited)
        (kills-sigterm s.phase s.pid) (by_timer s.terminated s.kill_timer s.exited h.few);
  idle = λ e. absurd (ground arith);
}
  where
    by_timer :
        (b : Bool) (t : KillTimer) (exited : Bool)
        → kills s.effects ≤ (if b then budget t exited else 0)
        → kills s.effects ≤ budget (arm t) exited
    by_timer true unset true k = k
    by_timer true unset false k = k
    by_timer true armed exited k = k
    by_timer true fired exited k = k
    by_timer false t exited k = omega (arith, k)

kill-Bounded : (s : Exec) → Bounded s → Bounded (kill s)
unfolding kill
kill-Bounded s h = record {
  few = by_cases s.terminated s.kill_timer s.exited h.idle h.few;
  idle = λ e. ap fire (h.idle e);
}
  where
    by_cases :
        (b : Bool) (t : KillTimer) (exited : Bool)
        → (b ≡ false → t ≡ unset)
        → kills s.effects ≤ (if b then budget t exited else 0)
        → kills (
            (if is_armed t && not exited then signal_process s.phase s.pid sigkill else [])
            ++ s.effects)
          ≤ (if b then budget (fire t) exited else 0)
    by_cases true unset exited i k = k
    by_cases true armed true i k = k
    by_cases true armed false i k = omega (
      arith,
      k,
      kills-append (signal_process s.phase s.pid sigkill) s.effects,
      kills-sigkill s.phase s.pid,
    )
    by_cases true fired exited i k = k
    by_cases false unset exited i k = k
    by_cases false armed true i k = k
    by_cases false armed false i k = absurd (ground (arith, ap is_armed (i refl)))
    by_cases false fired exited i k = k

take_stdout-Bounded :
    (spec : ExecSpec) (chunk : Option Bytes) (full : Bool) (s : Exec)
    → Bounded s
    → Bounded (take_stdout spec chunk full s)
unfolding take_stdout
take_stdout-Bounded spec none full s h = h
take_stdout-Bounded spec (some chunk) full s h = record {
  few = quiet _ s.effects _ (kills-chunk spec.stdout_mode stdout chunk) h.few;
  idle = h.idle;
}

take_stderr-Bounded :
    (spec : ExecSpec) (chunk : Option Bytes) (full : Bool) (s : Exec)
    → Bounded s
    → Bounded (take_stderr spec chunk full s)
unfolding take_stderr
take_stderr-Bounded spec none full s h = h
take_stderr-Bounded spec (some chunk) full s h = record {
  few = quiet _ s.effects _ (kills-chunk spec.stderr_mode stderr chunk) h.few;
  idle = h.idle;
}

take_pid-Bounded : (pid : Option ℕ) (s : Exec) → Bounded s → Bounded (take_pid pid s)
unfolding take_pid open_control
take_pid-Bounded none s h = h
take_pid-Bounded (some pid) s h =
    when-keeps Bounded terminate s.terminated (open_control pid (record s { pid = some pid }))
      (λ e. terminate-Bounded _)
      (record {
        few = quiet _ s.effects _ (kills_if _ (opened_control pid) refl) h.few;
        idle = h.idle;
      })

finish-Bounded :
    (spec : ExecSpec) (outcome : Settlement) (s : Exec)
    → Bounded s
    → Bounded (finish spec outcome s)
unfolding finish
finish-Bounded spec outcome s h =
    when-keeps Bounded (close_exec spec outcome) (not s.settled) s closes h
  where
    by_timer :
        (b : Bool) (t : KillTimer) (exited : Bool)
        → kills s.effects ≤ (if b then budget t exited else 0)
        → kills s.effects ≤ (if b then 1 else 0)
    by_timer true unset true k = k
    by_timer true unset false k = omega (arith, k)
    by_timer true armed true k = k
    by_timer true armed false k = omega (arith, k)
    by_timer true fired exited k = k
    by_timer false t exited k = k

    closes : not s.settled ≡ true → Bounded s → Bounded (close_exec spec outcome s)
    closes e k =
        unfold close_exec in
        record {
          few = quiet (on_rejection outcome s.control) _ _ (kills-rejection outcome s.control) (
              quiet (teardown spec s) s.effects _ (kills-teardown spec s)
                (by_timer s.terminated s.kill_timer s.exited k.few));
          idle = λ f. refl;
        }

take_exit-Bounded :
    (spec : ExecSpec) (m : Option ExitMessage) (s : Exec) → Bounded s → Bounded (take_exit spec m s)
unfolding take_exit
take_exit-Bounded spec none s h = h
take_exit-Bounded spec (some m) s h =
    finish-Bounded spec _ _ (record { few = h.few; idle = h.idle })

step-Bounded : (spec : ExecSpec) (s : Exec) (e : Event) → Bounded s → Bounded (step spec s e)
unfolding step on_data on_end bind fail_binding
step-Bounded spec s (bound supported) h =
    when-keeps Bounded (bind spec supported) (is_resolving s.phase) s
      (λ e k. record {
        few = quiet _ s.effects _ (kills_if _ destroyed_control refl) k.few;
        idle = k.idle;
      })
      h
step-Bounded spec s (binding_failed error) h =
    when-keeps Bounded (fail_binding error) (is_resolving s.phase) s
      (λ e k. record {
        few = quiet _ s.effects _ (kills-rejection (rejected error) s.control) k.few;
        idle = k.idle;
      })
      h
step-Bounded spec s (output message stdout_full stderr_full) h =
    when-keeps Bounded (on_data spec message stdout_full stderr_full) (is_started s.phase) s
      (λ e k. take_exit-Bounded spec message.exit _ (
        take_stderr-Bounded spec message.stderr_chunk stderr_full _ (
          take_pid-Bounded message.process_id _
            (take_stdout-Bounded spec message.stdout_chunk stdout_full s k))))
      h
step-Bounded spec s (stream_error error) h =
    when-keeps Bounded (λ t. finish spec (rejected error) (terminate t)) (is_started s.phase) s
      (λ e k. finish-Bounded spec _ _ (terminate-Bounded s k)) h
step-Bounded spec s stream_end h =
    when-keeps Bounded (on_end spec) (is_started s.phase) s
      (λ e k.
        when-keeps Bounded (λ t. finish spec _ (terminate t)) (not s.settled) s
          (λ f l. finish-Bounded spec _ _ (terminate-Bounded s l)) k)
      h
step-Bounded spec s termination h = terminate-Bounded s h
step-Bounded spec s grace_over h = kill-Bounded s h
step-Bounded spec s (drained pipe) h = record { few = h.few; idle = h.idle }

run-Bounded :
    (spec : ExecSpec) (s : Exec) (events : List Event) → Bounded s → Bounded (run spec s events)
unfolding run
run-Bounded spec s [] h = h
run-Bounded spec s (e ∷ events) h =
    run-Bounded spec (step spec s e) events (step-Bounded spec s e h)

spawned-Bounded :
    (spec : ExecSpec) (stdout_reader stderr_reader : Option OutputReader)
    → Bounded (spawned spec stdout_reader stderr_reader)
spawned-Bounded spec stdout_reader stderr_reader =
    unfold spawned kills in record { few = omega arith; idle = λ e. refl }
