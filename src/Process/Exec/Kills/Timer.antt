-- ===== src/Process/Exec/Kills/Timer.antt =====
-- SIGKILL is the timer's, before the exit (src/subprocess.ts).
use dsh_podman.Prelude.{
  ℕ, ◌+◌, ◌≤◌, ◌≡◌, refl, not, ◌&&◌, ltb, when-keeps, Bool, true, false, List, [], ◌∷◌, ◌++◌,
  Option, none, some, if◌then◌else◌, arith,
}
use dsh_podman.Output.{Bytes, OutputReader}
use dsh_podman.Process.Exec.{
  stdout, stderr, Effect, signalled, opened_control, destroyed_control, sigterm, sigkill, is_armed,
  on_rejection, teardown, Phase, ExecSpec, ExitMessage, Settlement, rejected, Exec, Event, bound,
  binding_failed, output, stream_error, stream_end, signal_process, termination, grace_over,
  drained, spawned, is_started, is_resolving, fail_binding, terminate, kill, finish, close_exec,
  open_control, take_stdout, take_stderr, take_pid, take_exit, on_data, on_end, bind, step, run,
}
use dsh_podman.Process.Exec.Kills.{
  kills, kills-append, kills-sigterm, kills-chunk, kills-rejection, kills_if, kills-teardown,
  budget, run-Bounded, spawned-Bounded,
}

abbrev is_known : Option ℕ → Bool
is_known none = false
is_known (some pid) = ltb 0 pid

abbrev is_timer : Event → Bool
is_timer (bound supported) = false
is_timer (binding_failed error) = false
is_timer (output message stdout_full stderr_full) = false
is_timer (stream_error error) = false
is_timer stream_end = false
is_timer termination = false
is_timer grace_over = true
is_timer (drained pipe) = false

-- How many times the process is sent SIGKILL by one event: once by the timer, while it is set, before
-- the process has exited, over a stream that is open and a process id that is known.
abbrev pub kills_by : Event → Exec → ℕ
kills_by e s =
    if is_timer e
      && (is_armed s.kill_timer && (not s.exited && (is_started s.phase && is_known s.pid)))
    then 1
    else 0

-- A number of SIGKILLs sent so far.
abbrev Sent : ℕ → Exec → Type 0
Sent n s = kills s.effects ≡ n

silent : (xs ys : List Effect) (n : ℕ) → kills xs ≡ 0 → kills ys ≡ n → kills (xs ++ ys) ≡ n
silent xs ys n h k = omega (arith, kills-append xs ys, h, k)

terminate-Sent : (n : ℕ) (s : Exec) → Sent n s → Sent n (terminate s)
unfolding terminate
terminate-Sent n s h =
    silent (signal_process s.phase s.pid sigterm) s.effects n (kills-sigterm s.phase s.pid) h

take_stdout-Sent :
    (n : ℕ) (spec : ExecSpec) (chunk : Option Bytes) (full : Bool) (s : Exec)
    → Sent n s
    → Sent n (take_stdout spec chunk full s)
unfolding take_stdout
take_stdout-Sent n spec none full s h = h
take_stdout-Sent n spec (some chunk) full s h =
    silent _ s.effects n (kills-chunk spec.stdout_mode stdout chunk) h

take_stderr-Sent :
    (n : ℕ) (spec : ExecSpec) (chunk : Option Bytes) (full : Bool) (s : Exec)
    → Sent n s
    → Sent n (take_stderr spec chunk full s)
unfolding take_stderr
take_stderr-Sent n spec none full s h = h
take_stderr-Sent n spec (some chunk) full s h =
    silent _ s.effects n (kills-chunk spec.stderr_mode stderr chunk) h

take_pid-Sent : (n : ℕ) (pid : Option ℕ) (s : Exec) → Sent n s → Sent n (take_pid pid s)
unfolding take_pid open_control
take_pid-Sent n none s h = h
take_pid-Sent n (some pid) s h =
    when-keeps (Sent n) terminate s.terminated (open_control pid (record s { pid = some pid }))
      (λ e. terminate-Sent n _) (silent _ s.effects n (kills_if _ (opened_control pid) refl) h)

finish-Sent :
    (n : ℕ) (spec : ExecSpec) (outcome : Settlement) (s : Exec)
    → Sent n s
    → Sent n (finish spec outcome s)
unfolding finish
finish-Sent n spec outcome s h =
    when-keeps (Sent n) (close_exec spec outcome) (not s.settled) s
      (λ e k.
        unfold close_exec in
        silent (on_rejection outcome s.control) _ n (kills-rejection outcome s.control)
          (silent (teardown spec s) s.effects n (kills-teardown spec s) k))
      h

take_exit-Sent :
    (n : ℕ) (spec : ExecSpec) (m : Option ExitMessage) (s : Exec)
    → Sent n s
    → Sent n (take_exit spec m s)
unfolding take_exit
take_exit-Sent n spec none s h = h
take_exit-Sent n spec (some m) s h = finish-Sent n spec _ _ h

kills-sigkill_eq :
    (phase : Phase) (pid : Option ℕ)
    → kills (signal_process phase pid sigkill) ≡ (if is_started phase && is_known pid then 1 else 0)
unfolding kills signal_process
kills-sigkill_eq phase none = ground arith
kills-sigkill_eq phase (some pid) = go (is_started phase && ltb 0 pid)
  where
    go : (b : Bool) → kills (if b then signalled pid sigkill ∷ [] else []) ≡ (if b then 1 else 0)
    go true = refl
    go false = refl

kill-Sent : (s : Exec) → kills (kill s).effects ≡ kills s.effects + kills_by grace_over s
unfolding kill
kill-Sent s = by_guard (is_armed s.kill_timer) s.exited
  where
    by_guard :
        (set exited : Bool)
        → kills
            ((if set && not exited then signal_process s.phase s.pid sigkill else []) ++ s.effects)
          ≡ kills s.effects
            + (if set && (not exited && (is_started s.phase && is_known s.pid)) then 1 else 0)
    by_guard false exited = omega arith
    by_guard true true = omega arith
    by_guard true false = omega (
      arith,
      kills-append (signal_process s.phase s.pid sigkill) s.effects,
      kills-sigkill_eq s.phase s.pid,
    )

step-Sent :
    (spec : ExecSpec) (s : Exec) (e : Event)
    → kills (step spec s e).effects ≡ kills s.effects + kills_by e s
unfolding step on_data on_end bind fail_binding
step-Sent spec s (bound supported) =
    when-keeps (Sent _) (bind spec supported) (is_resolving s.phase) s
      (λ e k. silent _ s.effects _ (kills_if _ destroyed_control refl) k) (omega arith)
step-Sent spec s (binding_failed error) =
    when-keeps (Sent _) (fail_binding error) (is_resolving s.phase) s
      (λ e k. silent _ s.effects _ (kills-rejection (rejected error) s.control) k) (omega arith)
step-Sent spec s (output message stdout_full stderr_full) =
    when-keeps (Sent _) (on_data spec message stdout_full stderr_full) (is_started s.phase) s
      (λ e k. take_exit-Sent _ spec message.exit _ (
        take_stderr-Sent _ spec message.stderr_chunk stderr_full _ (
          take_pid-Sent _ message.process_id _
            (take_stdout-Sent _ spec message.stdout_chunk stdout_full s k))))
      (omega arith)
step-Sent spec s (stream_error error) =
    when-keeps (Sent _) (λ t. finish spec (rejected error) (terminate t)) (is_started s.phase) s
      (λ e k. finish-Sent _ spec _ _ (terminate-Sent _ s k)) (omega arith)
step-Sent spec s stream_end =
    when-keeps (Sent _) (on_end spec) (is_started s.phase) s
      (λ e k.
        when-keeps (Sent _) (λ t. finish spec _ (terminate t)) (not s.settled) s
          (λ f l. finish-Sent _ spec _ _ (terminate-Sent _ s l)) k)
      (omega arith)
step-Sent spec s termination = terminate-Sent _ s (omega arith)
step-Sent spec s grace_over = kill-Sent s
step-Sent spec s (drained pipe) = omega arith

-- After any events in any order, the process has been sent SIGKILL at most once, and not at all if its
-- termination was not asked for. And the next event, whichever it is, sends it SIGKILL exactly if it
-- is the callback of the timer, the timer is set, the process has not exited, the stream is open and
-- the process id is known.
pub run-kills :
    (spec : ExecSpec) (stdout_reader stderr_reader : Option OutputReader) (events : List Event)
    (e : Event)
    → let s = run spec (spawned spec stdout_reader stderr_reader) events in
      (kills s.effects ≤ (if s.terminated then budget s.kill_timer s.exited else 0))
      × (kills (step spec s e).effects ≡ kills s.effects + kills_by e s)
run-kills spec stdout_reader stderr_reader events e = (
  (run-Bounded spec _ events (spawned-Bounded spec stdout_reader stderr_reader)).few,
  step-Sent spec _ e,
)
