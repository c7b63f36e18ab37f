-- ===== src/Process/Exec/Readers.antt =====
-- What an exec collects of its output (src/subprocess.ts and src/output-reader.ts).
use dsh_podman.Prelude.{
  ℕ, ◌≡◌, refl, sym, ap, ◌∙◌, not, when-true, view-when, when_same, Bool, true, List, [], ◌∷◌, ◌++◌,
  append-nil, Option, none, some,
}
use dsh_podman.Output.{Bytes, OutputReader, SpillSpec, output_reader, read_from, is_some}
use dsh_podman.Output.Runs.{
  Arrival, arrive, arrived, judged, arrive_all, read_of_stream, stream_of, valid_after,
  read_from-arrive_all,
}
use dsh_podman.Process.Exec.Liveness.{step_started}
use dsh_podman.Process.Exec.{
  ExecSpec, ExecOutput, ExitMessage, Settlement, rejected, Exec, Event, bound, binding_failed,
  output, append_to, judge, stream_error, stream_end, termination, grace_over, drained, spawned,
  is_started, is_resolving, fail_binding, terminate, kill, finish, close_exec, open_control,
  take_stdout, take_stderr, take_pid, take_exit, on_data, on_end, bind, step, run,
}

-- What the events of an open stream carry for the reader of each pipe, in order.
abbrev chunk_arrival : Option Bytes → List Arrival
chunk_arrival none = []
chunk_arrival (some chunk) = arrived chunk ∷ []

abbrev verdict : (ExitMessage → Bool) → Option ExitMessage → List Arrival
verdict valid none = []
verdict valid (some m) = judged (valid m) ∷ []

abbrev pub stdout_of : Event → List Arrival
stdout_of (output message stdout_full stderr_full) =
    chunk_arrival message.stdout_chunk ++ verdict (λ m. m.stdout_spill_valid) message.exit
stdout_of (bound supported) = []
stdout_of (binding_failed error) = []
stdout_of (stream_error error) = []
stdout_of stream_end = []
stdout_of termination = []
stdout_of grace_over = []
stdout_of (drained pipe) = []

abbrev pub stderr_of : Event → List Arrival
stderr_of (output message stdout_full stderr_full) =
    chunk_arrival message.stderr_chunk ++ verdict (λ m. m.stderr_spill_valid) message.exit
stderr_of (bound supported) = []
stderr_of (binding_failed error) = []
stderr_of (stream_error error) = []
stderr_of stream_end = []
stderr_of termination = []
stderr_of grace_over = []
stderr_of (drained pipe) = []

pub arrivals_of : (Event → List Arrival) → List Event → List Arrival
arrivals_of of [] = []
arrivals_of of (e ∷ events) = of e ++ arrivals_of of events

abbrev feed : Option OutputReader → List Arrival → Option OutputReader
feed none arrivals = none
feed (some r) arrivals = some (arrive_all r arrivals)

arrive_all-append :
    (r : OutputReader) (xs ys : List Arrival)
    → arrive_all r (xs ++ ys) ≡ arrive_all (arrive_all r xs) ys
unfolding arrive_all
arrive_all-append r [] ys = refl
arrive_all-append r (x ∷ xs) ys = arrive_all-append (arrive r x) xs ys

feed-append :
    (o : Option OutputReader) (xs ys : List Arrival) → feed (feed o xs) ys ≡ feed o (xs ++ ys)
feed-append none xs ys = refl
feed-append (some r) xs ys = ap some (sym (arrive_all-append r xs ys))

feed-nil : (o : Option OutputReader) → feed o [] ≡ o
unfolding arrive_all
feed-nil none = refl
feed-nil (some r) = refl

-- The readers of a state, and what each is fed.
record Readers : Type 0 where
  out : Option OutputReader
  err : Option OutputReader

abbrev readers_of : Option OutputReader → Option OutputReader → Readers
readers_of out err = record { out = out; err = err }

abbrev readers : Exec → Readers
readers s = record { out = s.stdout_reader; err = s.stderr_reader }

abbrev feeds : List Arrival → List Arrival → Readers → Readers
feeds xs ys r = record { out = feed r.out xs; err = feed r.err ys }

both : {a b c d : Option OutputReader} → a ≡ b → c ≡ d → readers_of a c ≡ readers_of b d
both {b = b} {c = c} p q = ap (λ o. readers_of o c) p ∙ ap (λ o. readers_of b o) q

feeds-nil : (r : Readers) → feeds [] [] r ≡ r
feeds-nil r = both (feed-nil r.out) (feed-nil r.err)

feeds-append :
    (r : Readers) (xs ys zs ws : List Arrival)
    → feeds zs ws (feeds xs ys r) ≡ feeds (xs ++ zs) (ys ++ ws) r
feeds-append r xs ys zs ws = both (feed-append r.out xs zs) (feed-append r.err ys ws)

append_to_lem :
    (o : Option OutputReader) (chunk : Bytes) → append_to o chunk ≡ feed o (arrived chunk ∷ [])
unfolding arrive_all
append_to_lem none chunk = refl
append_to_lem (some r) chunk = refl

judge_lem : (o : Option OutputReader) (valid : Bool) → judge o valid ≡ feed o (judged valid ∷ [])
unfolding arrive_all
judge_lem none valid = refl
judge_lem (some r) valid = refl

readers-finish :
    (spec : ExecSpec) (outcome : Settlement) (s : Exec)
    → readers (finish spec outcome s) ≡ readers s
unfolding finish close_exec
readers-finish spec outcome s =
    view-when readers (close_exec spec outcome) (λ r. r) (not s.settled) s refl
    ∙ when_same (not s.settled) (readers s)

readers-take_stdout :
    (spec : ExecSpec) (chunk : Option Bytes) (full : Bool) (s : Exec)
    → readers (take_stdout spec chunk full s) ≡ feeds (chunk_arrival chunk) [] (readers s)
unfolding take_stdout
readers-take_stdout spec none full s = sym (feeds-nil (readers s))
readers-take_stdout spec (some chunk) full s =
    both (append_to_lem s.stdout_reader chunk) (sym (feed-nil s.stderr_reader))

readers-take_stderr :
    (spec : ExecSpec) (chunk : Option Bytes) (full : Bool) (s : Exec)
    → readers (take_stderr spec chunk full s) ≡ feeds [] (chunk_arrival chunk) (readers s)
unfolding take_stderr
readers-take_stderr spec none full s = sym (feeds-nil (readers s))
readers-take_stderr spec (some chunk) full s =
    both (sym (feed-nil s.stdout_reader)) (append_to_lem s.stderr_reader chunk)

readers-take_pid : (pid : Option ℕ) (s : Exec) → readers (take_pid pid s) ≡ readers s
unfolding take_pid open_control terminate
readers-take_pid none s = refl
readers-take_pid (some pid) s =
    view-when readers terminate (λ r. r) s.terminated
      (open_control pid (record s { pid = some pid })) refl
    ∙ when_same s.terminated (readers s)

readers-take_exit :
    (spec : ExecSpec) (m : Option ExitMessage) (s : Exec)
    → readers (take_exit spec m s)
      ≡ feeds
          (verdict (λ m. m.stdout_spill_valid) m)
          (verdict (λ m. m.stderr_spill_valid) m)
          (readers s)
unfolding take_exit
readers-take_exit spec none s = sym (feeds-nil (readers s))
readers-take_exit spec (some m) s =
    readers-finish spec _ _
    ∙ both (judge_lem s.stdout_reader m.stdout_spill_valid)
        (judge_lem s.stderr_reader m.stderr_spill_valid)

readers-on_data :
    (spec : ExecSpec) (message : ExecOutput) (stdout_full stderr_full : Bool) (s : Exec)
    → readers (on_data spec message stdout_full stderr_full s)
      ≡ feeds
          (stdout_of (output message stdout_full stderr_full))
          (stderr_of (output message stdout_full stderr_full))
          (readers s)
unfolding on_data
readers-on_data spec message stdout_full stderr_full s =
    readers-take_exit spec message.exit _
    ∙ ap
        (feeds (verdict (λ m. m.stdout_spill_valid) message.exit)
          (verdict (λ m. m.stderr_spill_valid) message.exit))
        (readers-take_stderr spec message.stderr_chunk stderr_full _
          ∙ ap (feeds [] (chunk_arrival message.stderr_chunk)) (
              readers-take_pid message.process_id _
              ∙ readers-take_stdout spec message.stdout_chunk stdout_full s)
          ∙ feeds-append (readers s) (chunk_arrival message.stdout_chunk) [] []
              (chunk_arrival message.stderr_chunk)
          ∙ ap (λ xs. feeds xs (chunk_arrival message.stderr_chunk) (readers s))
              (append-nil (chunk_arrival message.stdout_chunk)))
    ∙ feeds-append (readers s) (chunk_arrival message.stdout_chunk)
        (chunk_arrival message.stderr_chunk) (verdict (λ m. m.stdout_spill_valid) message.exit)
        (verdict (λ m. m.stderr_spill_valid) message.exit)

readers-finish_now :
    (spec : ExecSpec) (outcome : Settlement) (s : Exec)
    → readers (finish spec outcome (terminate s)) ≡ readers s
readers-finish_now spec outcome s =
    readers-finish spec outcome (terminate s) ∙ unfold terminate in refl

-- An event on an open stream.
readers-step :
    (spec : ExecSpec) (s : Exec) (e : Event)
    → is_started s.phase ≡ true
    → readers (step spec s e) ≡ feeds (stdout_of e) (stderr_of e) (readers s)
unfolding step on_end bind fail_binding kill terminate
readers-step spec s (bound supported) p =
    view-when readers (bind spec supported) (λ r. r) (is_resolving s.phase) s refl
    ∙ when_same (is_resolving s.phase) (readers s)
    ∙ sym (feeds-nil (readers s))
readers-step spec s (binding_failed error) p =
    view-when readers (fail_binding error) (λ r. r) (is_resolving s.phase) s refl
    ∙ when_same (is_resolving s.phase) (readers s)
    ∙ sym (feeds-nil (readers s))
readers-step spec s (output message stdout_full stderr_full) p =
    ap readers (when-true _ (on_data spec message stdout_full stderr_full) s p)
    ∙ readers-on_data spec message stdout_full stderr_full s
readers-step spec s (stream_error error) p =
    ap readers (when-true _ (λ t. finish spec (rejected error) (terminate t)) s p)
    ∙ readers-finish_now spec (rejected error) s
    ∙ sym (feeds-nil (readers s))
readers-step spec s stream_end p =
    ap readers (when-true _ (on_end spec) s p)
    ∙ view-when readers (λ t. finish spec _ (terminate t)) (λ r. r) (not s.settled) s
        (readers-finish_now spec _ s)
    ∙ when_same (not s.settled) (readers s)
    ∙ sym (feeds-nil (readers s))
readers-step spec s termination p = sym (feeds-nil (readers s))
readers-step spec s grace_over p = sym (feeds-nil (readers s))
readers-step spec s (drained pipe) p = sym (feeds-nil (readers s))

readers-run :
    (spec : ExecSpec) (s : Exec) (events : List Event)
    → is_started s.phase ≡ true
    → readers (run spec s events)
      ≡ feeds (arrivals_of stdout_of events) (arrivals_of stderr_of events) (readers s)
unfolding run arrivals_of
readers-run spec s [] p = sym (feeds-nil (readers s))
readers-run spec s (e ∷ events) p =
    readers-run spec (step spec s e) events (step_started spec s e p)
    ∙ ap (feeds (arrivals_of stdout_of events) (arrivals_of stderr_of events))
        (readers-step spec s e p)
    ∙ feeds-append (readers s) (stdout_of e) (stderr_of e) (arrivals_of stdout_of events)
        (arrivals_of stderr_of events)

-- An exec whose binding has resolved, after any events on its stream: a read of its collected
-- output, of either pipe and at any offset, gives what the bytes of that pipe in the messages, in
-- their order, and the last verdict of an exit message alone determine.
pub run-read_from :
    (spec : ExecSpec) (out_max err_max : ℕ) (out_spill err_spill : Option SpillSpec)
    (supported : Bool) (events : List Event) (offset : ℕ)
    → let s =
        run spec
          (spawned spec
            (some (output_reader out_max out_spill))
            (some (output_reader err_max err_spill)))
          (bound supported ∷ events) in
      let outs = arrivals_of stdout_of events in
      let errs = arrivals_of stderr_of events in
      ((out : OutputReader) × (s.stdout_reader ≡ some out)
        × (read_from out offset
            ≡ read_of_stream out_max out_spill
                (valid_after (is_some out_spill) outs)
                (stream_of outs)
                offset))
      × ((err : OutputReader) × (s.stderr_reader ≡ some err)
          × (read_from err offset
              ≡ read_of_stream err_max err_spill
                  (valid_after (is_some err_spill) errs)
                  (stream_of errs)
                  offset))
unfolding run step spawned bind
run-read_from spec out_max err_max out_spill err_spill supported events offset =
    let same = readers-run spec _ events refl in
    (
      (
        _,
        ap Readers.out same,
        read_from-arrive_all out_max out_spill (arrivals_of stdout_of events) offset,
      ),
      (
        _,
        ap Readers.err same,
        read_from-arrive_all err_max err_spill (arrivals_of stderr_of events) offset,
      ),
    )
