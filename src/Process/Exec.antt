-- ===== src/Process/Exec.antt =====
-- src/subprocess.ts: one exec in a guest, as a state and the events that reach it.
-- A spawn's closures share the variables of `Exec`; `effects` lists what they did outside, the
-- newest first.
mod State
pub mod Settles
pub mod Liveness
pub mod Backpressure
pub mod Kills
pub mod Readers
pub use State.*
use dsh_podman.Prelude.{
  ℕ, zero, suc, ◌+◌, ◌-◌, ◌≡◌, Bool, true, false, List, [], ◌∷◌, ◌++◌, Option, none, some,
  if◌then◌else◌, when, not, ◌==◌, ◌&&◌, ltb, filter, length,
}
use dsh_podman.Text.{Text, text}
use dsh_podman.Output.{Bytes, OutputReader, append, set_spill_valid, discard_unneeded_spill}

-- The state when `spawn` has checked its spec.
unfoldable pub spawned : ExecSpec → Option OutputReader → Option OutputReader → Exec
spawned spec stdout_reader stderr_reader = record {
  phase = resolving;
  settled = false;
  exited = false;
  terminated = false;
  kill_timer = unset;
  pid = none;
  flow = record { pending_drains = pos 0; waiting = []; paused = false };
  control = spec.wants_control;
  control_call = false;
  control_closed = false;
  stdout_reader = stdout_reader;
  stderr_reader = stderr_reader;
  outcomes = [];
  effects = [];
}

abbrev pub is_started : Phase → Bool
is_started resolving = false
is_started (started with_control) = true
is_started unstarted = false

abbrev pub is_resolving : Phase → Bool
is_resolving resolving = true
is_resolving (started with_control) = false
is_resolving unstarted = false

abbrev pub same_pipe : Pipe → Pipe → Bool
same_pipe stdout stdout = true
same_pipe stderr stderr = true
same_pipe stdout stderr = false
same_pipe stderr stdout = false

-- `signalProcess`: the signals that go out.
unfoldable pub signal_process : Phase → Option ℕ → Signal → List Effect
signal_process phase none signal = []
signal_process phase (some pid) signal =
    if is_started phase && ltb 0 pid then signalled pid signal ∷ [] else []

abbrev pub arm : KillTimer → KillTimer
arm unset = armed
arm armed = armed
arm fired = fired

unfoldable pub terminate : Exec → Exec
terminate s = record s {
  terminated = true;
  kill_timer = arm s.kill_timer;
  effects = signal_process s.phase s.pid sigterm ++ s.effects;
}

-- The callback of the timer, which runs once and only while the timer is set.
abbrev pub fire : KillTimer → KillTimer
fire unset = unset
fire armed = fired
fire fired = fired

abbrev pub is_armed : KillTimer → Bool
is_armed unset = false
is_armed armed = true
is_armed fired = false

unfoldable pub kill : Exec → Exec
kill s = record s {
  kill_timer = fire s.kill_timer;
  effects =
      (if is_armed s.kill_timer && not s.exited then signal_process s.phase s.pid sigkill else [])
      ++ s.effects;
}

unfoldable pub apply_backpressure : Pipe → Flow → Flow
apply_backpressure pipe f = record {
  pending_drains = suc_int f.pending_drains;
  waiting = f.waiting ++ pipe ∷ [];
  paused = true;
}

-- What one listener's `release` does to the count and to the stream.
unfoldable pub release_one : Flow → Flow
release_one f =
    let left = pred_int f.pending_drains in
    record f { pending_drains = left; paused = if is_zero left then false else f.paused }

-- The listeners of one pipe, each with its own `release`.
unfoldable pub release_each : List Pipe → Flow → Flow
release_each [] f = f
release_each (pipe ∷ pipes) f = release_each pipes (release_one f)

-- A pipe drains or closes: the listeners on it run and are gone.
unfoldable pub drain : Pipe → Flow → Flow
drain pipe f =
    release_each (filter (same_pipe pipe) f.waiting)
      (record f { waiting = filter (λ other. not (same_pipe pipe other)) f.waiting })

-- `writeChunk` to a piped stream; `full` is that the write returned false.
unfoldable pub write_chunk : Stdio → Pipe → Bool → Flow → Flow
write_chunk piped pipe full f = if full then apply_backpressure pipe f else f
write_chunk inherited pipe full f = f
write_chunk collected pipe full f = f

unfoldable pub chunk_effects : Stdio → Pipe → Bytes → List Effect
chunk_effects piped pipe chunk = wrote pipe chunk ∷ []
chunk_effects inherited pipe chunk = echoed pipe chunk ∷ []
chunk_effects collected pipe chunk = []

abbrev pub append_to : Option OutputReader → Bytes → Option OutputReader
append_to none chunk = none
append_to (some reader) chunk = some (append reader chunk)

abbrev pub judge : Option OutputReader → Bool → Option OutputReader
judge none valid = none
judge (some reader) valid = some (set_spill_valid reader valid)

unfoldable pub take_stdout : ExecSpec → Option Bytes → Bool → Exec → Exec
take_stdout spec none full s = s
take_stdout spec (some chunk) full s = record s {
  stdout_reader = append_to s.stdout_reader chunk;
  flow = write_chunk spec.stdout_mode stdout full s.flow;
  effects = chunk_effects spec.stdout_mode stdout chunk ++ s.effects;
}

unfoldable pub take_stderr : ExecSpec → Option Bytes → Bool → Exec → Exec
take_stderr spec none full s = s
take_stderr spec (some chunk) full s = record s {
  stderr_reader = append_to s.stderr_reader chunk;
  flow = write_chunk spec.stderr_mode stderr full s.flow;
  effects = chunk_effects spec.stderr_mode stderr chunk ++ s.effects;
}

abbrev pub with_control : Phase → Bool
with_control resolving = false
with_control (started w) = w
with_control unstarted = false

-- `openControl`: at most one call, and only where the guest has the transport.
unfoldable pub open_control : ℕ → Exec → Exec
open_control pid s =
    let opens = with_control s.phase && not s.control_call in
    record s {
      control_call = if opens then true else s.control_call;
      effects = (if opens then opened_control pid ∷ [] else []) ++ s.effects;
    }

unfoldable pub take_pid : Option ℕ → Exec → Exec
take_pid none s = s
take_pid (some pid) s =
    let opened = open_control pid (record s { pid = some pid }) in
    when s.terminated terminate opened

abbrev pub end_pipe : Stdio → Pipe → List Effect
end_pipe piped pipe = ended pipe ∷ []
end_pipe inherited pipe = []
end_pipe collected pipe = []

abbrev pub deletion : Option Text → List Effect
deletion none = []
deletion (some path) = deleted path ∷ []

-- `control?.destroy()` and `closeControl()`
abbrev pub control_end : Exec → List Effect
control_end s =
    (if not s.control_closed && s.control_call then cancelled_control ∷ [] else [])
    ++ (if s.control then destroyed_control ∷ [] else [])

-- What `finish` does outside, the newest first.
unfoldable pub teardown : ExecSpec → Exec → List Effect
teardown spec s =
    deletion (discard_unneeded_spill s.stderr_reader)
    ++ (deletion (discard_unneeded_spill s.stdout_reader)
        ++ (end_pipe spec.stderr_mode stderr
            ++ (end_pipe spec.stdout_mode stdout ++ control_end s)))

-- The handler that `done` has for its rejection.
abbrev pub on_rejection : Settlement → Bool → List Effect
on_rejection (resolved exit) control = []
on_rejection (rejected error) control = if control then destroyed_control ∷ [] else []

unfoldable pub close_exec : ExecSpec → Settlement → Exec → Exec
close_exec spec outcome s = record s {
  settled = true;
  exited = true;
  kill_timer = unset;
  flow =
      if is_positive s.flow.pending_drains
      then record { pending_drains = pos 0; waiting = s.flow.waiting; paused = false }
      else s.flow;
  control_closed = true;
  outcomes = outcome ∷ s.outcomes;
  effects = on_rejection outcome s.control ++ (teardown spec s ++ s.effects);
}

unfoldable pub finish : ExecSpec → Settlement → Exec → Exec
finish spec outcome s = when (not s.settled) (close_exec spec outcome) s

abbrev pub exit_of : ExitMessage → Exit
exit_of m = record { exit_code = m.exit_code; signal = if m.signaled then some m.signal else none }

unfoldable pub take_exit : ExecSpec → Option ExitMessage → Exec → Exec
take_exit spec none s = s
take_exit spec (some m) s = finish spec (resolved (exit_of m)) (record s {
  stdout_reader = judge s.stdout_reader m.stdout_spill_valid;
  stderr_reader = judge s.stderr_reader m.stderr_spill_valid;
})

unfoldable pub on_data : ExecSpec → ExecOutput → Bool → Bool → Exec → Exec
on_data spec message stdout_full stderr_full s = take_exit spec message.exit (
    take_stderr spec message.stderr_chunk stderr_full
      (take_pid message.process_id (take_stdout spec message.stdout_chunk stdout_full s)))

unfoldable pub on_end : ExecSpec → Exec → Exec
on_end spec s =
    when (not s.settled)
      (λ t.
        finish spec (rejected (text "exec stream ended before the process exited")) (terminate t))
      s

-- The promise of the binding resolves; a guest without the transport loses the channel.
unfoldable pub bind : ExecSpec → Bool → Exec → Exec
bind spec supported s =
    let w = spec.wants_control && supported in
    let drops = spec.wants_control && not w in
    record s {
      phase = started w;
      control = if drops then false else s.control;
      effects = (if drops then destroyed_control ∷ [] else []) ++ s.effects;
    }

unfoldable pub fail_binding : Text → Exec → Exec
fail_binding error s = record s {
  phase = unstarted;
  outcomes = rejected error ∷ s.outcomes;
  effects = on_rejection (rejected error) s.control ++ s.effects;
}

-- The events of a stream come only once it is open, and the binding is settled only once.
unfoldable pub step : ExecSpec → Exec → Event → Exec
step spec s (bound supported) = when (is_resolving s.phase) (bind spec supported) s
step spec s (binding_failed error) = when (is_resolving s.phase) (fail_binding error) s
step spec s (output message stdout_full stderr_full) =
    when (is_started s.phase) (on_data spec message stdout_full stderr_full) s
step spec s (stream_error error) =
    when (is_started s.phase) (λ t. finish spec (rejected error) (terminate t)) s
step spec s stream_end = when (is_started s.phase) (on_end spec) s
step spec s termination = terminate s
step spec s grace_over = kill s
step spec s (drained pipe) = record s { flow = drain pipe s.flow }

unfoldable pub run : ExecSpec → Exec → List Event → Exec
run spec s [] = s
run spec s (e ∷ events) = run spec (step spec s e) events
