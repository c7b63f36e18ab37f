-- ===== src/Process/Exec/Backpressure.antt =====
-- The pauses of an exec's stream (src/subprocess.ts).
use dsh_podman.Prelude.{
  ℕ, zero, suc, ◌+◌, ◌≡◌, refl, sym, ap, ◌∙◌, subst, inl, inr, Bool-cases, not, ltb, filter,
  when-true, when-keeps, Bool, true, false, List, [], ◌∷◌, ◌++◌, Option, none, some, if◌then◌else◌,
  arith, length, length-append,
}
use dsh_podman.Output.{Bytes, OutputReader}
use dsh_podman.Process.Exec.{
  pos, suc_int, pred_int, is_zero, is_positive, Pipe, same_pipe, Stdio, piped, inherited, collected,
  Flow, apply_backpressure, release_one, release_each, drain, write_chunk, ExecSpec, ExitMessage,
  Settlement, rejected, Exec, Event, bound, binding_failed, output, stream_error, stream_end,
  termination, grace_over, drained, spawned, is_started, is_resolving, fail_binding, terminate,
  kill, finish, close_exec, open_control, take_stdout, take_stderr, take_pid, take_exit, on_data,
  on_end, bind, step, run,
}
use dsh_podman.Process.Exec.Settles.{core, Sound, spawned-Sound, step-Sound}
use dsh_podman.Process.Exec.Liveness.{step_settled}

-- Every write that found its pipe full is waited for, and the stream is paused while one is.
pub record IsHeld (f : Flow) : Type 0 where
  pub counted : f.pending_drains ≡ pos (length f.waiting)
  pub held : f.paused ≡ ltb 0 (length f.waiting)

apply_backpressure-IsHeld : (pipe : Pipe) (f : Flow) → IsHeld f → IsHeld (apply_backpressure pipe f)
unfolding apply_backpressure
apply_backpressure-IsHeld pipe f h =
    let longer : suc (length f.waiting) ≡ length (f.waiting ++ pipe ∷ []) =
      omega (arith, length-append f.waiting (pipe ∷ [])) in
    record {
      counted = ap suc_int h.counted ∙ ap pos longer;
      held = subst (λ n. true ≡ ltb 0 n) longer (ground arith);
    }

write_chunk-IsHeld :
    (mode : Stdio) (pipe : Pipe) (full : Bool) (f : Flow)
    → IsHeld f
    → IsHeld (write_chunk mode pipe full f)
unfolding write_chunk
write_chunk-IsHeld piped pipe true f h = apply_backpressure-IsHeld pipe f h
write_chunk-IsHeld piped pipe false f h = h
write_chunk-IsHeld inherited pipe full f h = h
write_chunk-IsHeld collected pipe full f h = h

-- A count of drains and the pause that goes with it.
record Counts (n : ℕ) (waiting : List Pipe) (f : Flow) : Type 0 where
  counted : f.pending_drains ≡ pos n
  held : f.paused ≡ ltb 0 n
  still : f.waiting ≡ waiting

release_one-Counts :
    (n : ℕ) (waiting : List Pipe) (f : Flow)
    → Counts (suc n) waiting f
    → Counts n waiting (release_one f)
unfolding release_one
release_one-Counts n waiting f h =
    let left : pred_int f.pending_drains ≡ pos n = ap pred_int h.counted in
    record {
      counted = left;
      held = ap (λ z. if is_zero z then false else f.paused) left ∙ by_count n h.held;
      still = h.still;
    }
  where
    by_count :
        (n : ℕ) → f.paused ≡ ltb 0 (suc n) → (if is_zero (pos n) then false else f.paused) ≡ ltb 0 n
    by_count zero e = ground arith
    by_count (suc n) e = ground (arith, e)

release_each-Counts :
    (pipes : List Pipe) (n : ℕ) (waiting : List Pipe) (f : Flow)
    → Counts (length pipes + n) waiting f
    → Counts n waiting (release_each pipes f)
unfolding release_each
release_each-Counts [] n waiting f h = subst (λ k. Counts k waiting f) (omega arith) h
release_each-Counts (pipe ∷ pipes) n waiting f h =
    release_each-Counts pipes n waiting (release_one f) (
      release_one-Counts (length pipes + n) waiting f
        (subst (λ k. Counts k waiting f) (omega arith) h))

length-filter_parts :
    (pipe : Pipe) (waiting : List Pipe)
    → length (filter (same_pipe pipe) waiting)
        + length (filter (λ other. not (same_pipe pipe other)) waiting)
      ≡ length waiting
length-filter_parts pipe [] = omega arith
length-filter_parts pipe (p ∷ waiting) = ground (arith, length-filter_parts pipe waiting)

drain-IsHeld : (pipe : Pipe) (f : Flow) → IsHeld f → IsHeld (drain pipe f)
unfolding drain
drain-IsHeld pipe f h =
    let left = filter (λ other. not (same_pipe pipe other)) f.waiting in
    let c =
      release_each-Counts (filter (same_pipe pipe) f.waiting) (length left) left
        (record f { waiting = left })
        (record {
          counted = h.counted ∙ ap pos (sym (length-filter_parts pipe f.waiting));
          held = h.held ∙ ap (ltb 0) (sym (length-filter_parts pipe f.waiting));
          still = refl;
        }) in
    record {
      counted = c.counted ∙ ap (λ w. pos (length w)) (sym c.still);
      held = c.held ∙ ap (λ w. ltb 0 (length w)) (sym c.still);
    }

-- An exec that is not settled, and what the step that settles it leaves.
record IsOpen (s : Exec) : Type 0 where
  open_yet : s.settled ≡ false
  flow_held : IsHeld s.flow

pub record IsCalm (s : Exec) : Type 0 where
  pub while_open : s.settled ≡ false → IsHeld s.flow
  pub once_settled : s.settled ≡ true → s.flow.paused ≡ false

open-IsCalm : (s : Exec) → IsOpen s → IsCalm s
open-IsCalm s h = record {
  while_open = λ e. h.flow_held;
  once_settled = λ e. absurd (ground (arith, sym e ∙ h.open_yet));
}

take_stdout-IsOpen :
    (spec : ExecSpec) (chunk : Option Bytes) (full : Bool) (s : Exec)
    → IsOpen s
    → IsOpen (take_stdout spec chunk full s)
unfolding take_stdout
take_stdout-IsOpen spec none full s h = h
take_stdout-IsOpen spec (some chunk) full s h = record {
  open_yet = h.open_yet;
  flow_held = write_chunk-IsHeld _ _ full s.flow h.flow_held;
}

take_stderr-IsOpen :
    (spec : ExecSpec) (chunk : Option Bytes) (full : Bool) (s : Exec)
    → IsOpen s
    → IsOpen (take_stderr spec chunk full s)
unfolding take_stderr
take_stderr-IsOpen spec none full s h = h
take_stderr-IsOpen spec (some chunk) full s h = record {
  open_yet = h.open_yet;
  flow_held = write_chunk-IsHeld _ _ full s.flow h.flow_held;
}

terminate-IsOpen : (s : Exec) → IsOpen s → IsOpen (terminate s)
unfolding terminate
terminate-IsOpen s h = record { open_yet = h.open_yet; flow_held = h.flow_held }

take_pid-IsOpen : (pid : Option ℕ) (s : Exec) → IsOpen s → IsOpen (take_pid pid s)
unfolding take_pid open_control
take_pid-IsOpen none s h = h
take_pid-IsOpen (some pid) s h =
    when-keeps IsOpen terminate s.terminated (open_control pid (record s { pid = some pid }))
      (λ e. terminate-IsOpen _) (record { open_yet = h.open_yet; flow_held = h.flow_held })

finish-IsCalm :
    (spec : ExecSpec) (outcome : Settlement) (s : Exec) → IsOpen s → IsCalm (finish spec outcome s)
unfolding finish close_exec
finish-IsCalm spec outcome s h =
    subst IsCalm (sym (when-true (not s.settled) (close_exec spec outcome) s (ap not h.open_yet)))
      (record { while_open = λ e. absurd (ground arith); once_settled = λ e. freed })
  where
    freed :
        (if is_positive s.flow.pending_drains
          then record { pending_drains = pos 0; waiting = s.flow.waiting; paused = false }
          else s.flow).paused
        ≡ false
    freed = elim (Bool-cases (is_positive s.flow.pending_drains)) [
      | inl e ↦ rw e refl
      | inr e ↦
          let idle : ltb 0 (length s.flow.waiting) ≡ false =
            sym (ap is_positive h.flow_held.counted) ∙ e in
          rw e (h.flow_held.held ∙ idle)
    ]

finish_open-IsCalm :
    (spec : ExecSpec) (outcome : Settlement) (s : Exec)
    → IsOpen s
    → IsCalm (finish spec outcome (terminate s))
finish_open-IsCalm spec outcome s h =
    finish-IsCalm spec outcome (terminate s) (terminate-IsOpen s h)

take_exit-IsCalm :
    (spec : ExecSpec) (m : Option ExitMessage) (s : Exec) → IsOpen s → IsCalm (take_exit spec m s)
unfolding take_exit
take_exit-IsCalm spec none s h = open-IsCalm s h
take_exit-IsCalm spec (some m) s h =
    finish-IsCalm spec _ _ (record { open_yet = h.open_yet; flow_held = h.flow_held })

step-IsCalm : (spec : ExecSpec) (s : Exec) (e : Event) → IsOpen s → IsCalm (step spec s e)
unfolding step on_data on_end bind fail_binding kill
step-IsCalm spec s (bound supported) h =
    when-keeps IsCalm (bind spec supported) (is_resolving s.phase) s
      (λ e c. record { while_open = c.while_open; once_settled = c.once_settled }) (open-IsCalm s h)
step-IsCalm spec s (binding_failed error) h =
    when-keeps IsCalm (fail_binding error) (is_resolving s.phase) s
      (λ e c. record { while_open = c.while_open; once_settled = c.once_settled }) (open-IsCalm s h)
step-IsCalm spec s (output message stdout_full stderr_full) h =
    when-keeps IsCalm (on_data spec message stdout_full stderr_full) (is_started s.phase) s
      (λ e c. take_exit-IsCalm spec message.exit _ (
        take_stderr-IsOpen spec message.stderr_chunk stderr_full _ (
          take_pid-IsOpen message.process_id _
            (take_stdout-IsOpen spec message.stdout_chunk stdout_full s h))))
      (open-IsCalm s h)
step-IsCalm spec s (stream_error error) h =
    when-keeps IsCalm (λ t. finish spec (rejected error) (terminate t)) (is_started s.phase) s
      (λ e c. finish_open-IsCalm spec (rejected error) s h) (open-IsCalm s h)
step-IsCalm spec s stream_end h =
    when-keeps IsCalm (on_end spec) (is_started s.phase) s
      (λ e c.
        when-keeps IsCalm (λ t. finish spec _ (terminate t)) (not s.settled) s
          (λ f d. finish_open-IsCalm spec _ s h) c)
      (open-IsCalm s h)
step-IsCalm spec s termination h = open-IsCalm _ (terminate-IsOpen s h)
step-IsCalm spec s grace_over h =
    open-IsCalm _ (record { open_yet = h.open_yet; flow_held = h.flow_held })
step-IsCalm spec s (drained pipe) h =
    open-IsCalm _
      (record { open_yet = h.open_yet; flow_held = drain-IsHeld pipe s.flow h.flow_held })

run-IsHeld :
    (spec : ExecSpec) (s : Exec) (events : List Event)
    → Sound (core s)
    → (s.settled ≡ false → IsHeld s.flow)
    → (run spec s events).settled ≡ false
    → IsHeld (run spec s events).flow
unfolding run
run-IsHeld spec s [] h held e = held e
run-IsHeld spec s (event ∷ events) h held e =
    run-IsHeld spec (step spec s event) events (step-Sound spec s event h) next e
  where
    next : (step spec s event).settled ≡ false → IsHeld (step spec s event).flow
    next f = elim (Bool-cases s.settled) [
      | inl done ↦ absurd (ground (arith, sym (step_settled spec s event h done) ∙ f))
      | inr open_yet ↦
          (step-IsCalm spec s event
              (record { open_yet = open_yet; flow_held = held open_yet })).while_open
            f
    ]

-- As long as an exec is not settled, after any events, the count of pending drains is the number
-- of writes that found their pipe full and have not been released, and the stream is paused
-- exactly while there is one; and the event that settles it leaves the stream running.
pub run-IsCalm :
    (spec : ExecSpec) (stdout_reader stderr_reader : Option OutputReader) (events : List Event)
    (event : Event)
    → (run spec (spawned spec stdout_reader stderr_reader) events).settled ≡ false
    → IsHeld (run spec (spawned spec stdout_reader stderr_reader) events).flow
      × IsCalm (step spec (run spec (spawned spec stdout_reader stderr_reader) events) event)
run-IsCalm spec stdout_reader stderr_reader events event e =
    let held =
      run-IsHeld spec _ events (spawned-Sound spec stdout_reader stderr_reader) (λ f. at_first) e in
    (held, step-IsCalm spec _ event (record { open_yet = e; flow_held = held }))
  where
    at_first : IsHeld (spawned spec stdout_reader stderr_reader).flow
    at_first = unfold spawned in record { counted = refl; held = ground arith }
