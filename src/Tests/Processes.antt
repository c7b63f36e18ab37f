-- ===== src/Tests/Processes.antt =====
-- Readers, execs and identities of processes.
use dsh_podman.Prelude.{
  ℕ, ◌+◌, ◌≡◌, ◌≤◌, refl, true, false, List, [], ◌∷◌, ◌++◌, Option, none, some, if◌then◌else◌,
  length, drop,
}
use dsh_podman.Text.{Text, text}
use dsh_podman.Output.{
  Bytes, SpillSpec, OutputReader, output_reader, is_some, append, trim, compact, read_from,
  advertised, set_spill_valid, discard_unneeded_spill, spill_path, spill_needed,
}
use dsh_podman.Output.Runs.{
  Arrival, arrived, judged, arrive_all, stream_of, valid_after, read_of_stream,
  read_from-arrive_all, discard_unneeded_spill-read_from,
}
use dsh_podman.Process.Uids.{first_free, allocate}
use dsh_podman.Process.Uids.Children.{
  Children, spawned, Reach, at_first, moved, IsPrivate, Reach-IsPrivate,
}
use dsh_podman.Process.Exec
use dsh_podman.Process.Exec.{
  Exec, ExecSpec, ExecOutput, ExitMessage, Event, bound, output, stream_error, stream_end,
  termination, grace_over, drained, piped, collected, stdout, pos, step, run,
}
use dsh_podman.Process.Exec.Settles.{expected, run-outcomes_once}
use dsh_podman.Process.Exec.Liveness.{ends, run-settles}
use dsh_podman.Process.Exec.Backpressure.{IsHeld, IsCalm, run-IsCalm}
use dsh_podman.Process.Exec.Kills.{kills, budget}
use dsh_podman.Process.Exec.Kills.Timer.{kills_by, run-kills}
use dsh_podman.Process.Exec.Readers.{stdout_of, stderr_of, arrivals_of, run-read_from}
use dsh_podman.Process.Spawn.{rewrite, remote_argv}
use dsh_podman.Process.Spawn.Laws.{returns, remote_argv_total}

abbrev spill : SpillSpec
spill = record { path = text "/tmp/dsh-podman/1.stdout"; max_bytes = 6 }

abbrev arrivals : List Arrival
arrivals = arrived (1 ∷ 2 ∷ 3 ∷ []) ∷ arrived (4 ∷ 5 ∷ []) ∷ judged true ∷ []

read_from-arrive_all_example :
    read_from (arrive_all (output_reader 3 (some spill)) arrivals) 1
    ≡ read_of_stream 3
        (some spill)
        (valid_after (is_some (some spill)) arrivals)
        (stream_of arrivals)
        1
read_from-arrive_all_example = read_from-arrive_all 3 (some spill) arrivals 1

reads_tail :
    read_from (arrive_all (output_reader 3 (some spill)) arrivals) 1
    ≡ record { bytes = 3 ∷ 4 ∷ 5 ∷ []; next_offset = 5; lossy = true; spill_path = some spill.path }
unfolding read_from arrive_all output_reader append trim compact set_spill_valid advertised
reads_tail = refl

deleted_by_cap :
    discard_unneeded_spill (some (arrive_all (output_reader 9 (some spill)) arrivals))
    ≡ some spill.path
unfolding discard_unneeded_spill spill_path spill_needed arrive_all output_reader append trim
    compact set_spill_valid
deleted_by_cap = refl

discard_unneeded_spill-read_from_example :
    (spill.path ≡ spill.path)
    × (read_from (arrive_all (output_reader 9 (some spill)) arrivals) 1 ≡ record {
      bytes = drop 1 (stream_of arrivals);
      next_offset = length (stream_of arrivals);
      lossy = false;
      spill_path = none;
    })
discard_unneeded_spill-read_from_example =
    discard_unneeded_spill-read_from 9 spill arrivals spill.path 1 deleted_by_cap

abbrev control_spec : ExecSpec
control_spec = record { wants_control = true; stdout_mode = piped; stderr_mode = collected }

abbrev message : Option Bytes → Option ℕ → Option ExitMessage → ExecOutput
message chunk pid exit = record {
  stdout_chunk = chunk;
  process_id = pid;
  stderr_chunk = none;
  exit = exit;
}

abbrev exit_message : ExitMessage
exit_message = record {
  exit_code = pos 0;
  signaled = false;
  signal = [];
  stdout_spill_valid = true;
  stderr_spill_valid = false;
}

-- A process that is terminated, writes to a full pipe and exits.
abbrev early : List Event
early = termination ∷ []

abbrev between : List Event
between = output (message (some (7 ∷ [])) (some 12) none) true false ∷ grace_over ∷ []

abbrev last : Event
last = output (message none none (some exit_message)) false false

abbrev reader : Option OutputReader
reader = some (output_reader 3 none)

ends-last : ends last ≡ true
unfolding ends
ends-last = refl

run-settles_example :
    length
      (run control_spec
        (Exec.spawned control_spec reader reader)
        (early ++ bound true ∷ (between ++ last ∷ (stream_end ∷ [])))).outcomes
    ≡ 1
run-settles_example =
    run-settles control_spec reader reader early between (stream_end ∷ []) true last ends-last

run-outcomes_once_example :
    let s =
      run control_spec (Exec.spawned control_spec reader reader) (early ++ bound true ∷ between) in
    (length s.outcomes ≡ expected s.phase s.settled)
    × (s.exited ≡ s.settled)
    × (length s.outcomes ≤ 1)
run-outcomes_once_example =
    run-outcomes_once control_spec reader reader (early ++ bound true ∷ between)

abbrev ended_early : List Event
ended_early = bound false ∷ stream_error (text "gone") ∷ []

ended_once :
    length (run control_spec (Exec.spawned control_spec reader reader) ended_early).outcomes ≡ 1
unfolding run step Exec.spawned Exec.bind Exec.terminate Exec.finish Exec.close_exec
ended_once = refl

abbrev held_up : List Event
held_up = bound true ∷ between

open_yet : (run control_spec (Exec.spawned control_spec reader reader) held_up).settled ≡ false
unfolding run step Exec.spawned Exec.bind Exec.on_data Exec.take_stdout Exec.take_stderr
    Exec.take_pid Exec.take_exit Exec.open_control Exec.kill
open_yet = refl

run-IsCalm_example :
    IsHeld (run control_spec (Exec.spawned control_spec reader reader) held_up).flow
    × IsCalm (
        step control_spec (run control_spec (Exec.spawned control_spec reader reader) held_up) last)
run-IsCalm_example = run-IsCalm control_spec reader reader held_up last open_yet

run-kills_example :
    let s =
      run control_spec
        (Exec.spawned control_spec reader reader)
        (bound true ∷ (early ++ between)) in
    (kills s.effects ≤ (if s.terminated then budget s.kill_timer s.exited else 0))
    × (kills (step control_spec s grace_over).effects ≡ kills s.effects + kills_by grace_over s)
run-kills_example =
    run-kills control_spec reader reader (bound true ∷ (early ++ between)) grace_over

-- A termination before the process id is known, and the timer: no SIGKILL is ever sent.
never_killed :
    kills
      (run control_spec
        (Exec.spawned control_spec reader reader)
        (termination ∷ grace_over ∷ bound true ∷ (between ++ grace_over ∷ []))).effects
    ≡ 0
unfolding run step Exec.spawned Exec.bind Exec.on_data Exec.take_stdout Exec.take_stderr
    Exec.take_pid Exec.take_exit Exec.open_control Exec.kill Exec.terminate Exec.signal_process
    Exec.chunk_effects kills
never_killed = refl

run-read_from_example :
    let events = between ++ last ∷ [] in
    let s =
      run control_spec
        (Exec.spawned control_spec
          (some (output_reader 3 (some spill)))
          (some (output_reader 3 none)))
        (bound true ∷ events) in
    let outs = arrivals_of stdout_of events in
    let errs = arrivals_of stderr_of events in
    ((out : OutputReader) × (s.stdout_reader ≡ some out)
      × (read_from out 0
          ≡ read_of_stream 3 (some spill) (valid_after true outs) (stream_of outs) 0))
    × ((err : OutputReader) × (s.stderr_reader ≡ some err)
        × (read_from err 0 ≡ read_of_stream 3 none (valid_after false errs) (stream_of errs) 0))
run-read_from_example =
    run-read_from control_spec 3 3 (some spill) none true (between ++ last ∷ []) 0

abbrev two_children : Children
two_children = record { pool = 1002 ∷ 1001 ∷ []; running = 1002 ∷ 1001 ∷ [] }

one_more : allocate [] ≡ some (1001, 1001 ∷ [])
unfolding allocate first_free
one_more = refl

two_more : allocate (1001 ∷ []) ≡ some (1002, 1002 ∷ 1001 ∷ [])
unfolding allocate first_free
two_more = refl

two_children-Reach : Reach two_children
two_children-Reach = moved (moved at_first (spawned one_more)) (spawned two_more)

Reach-IsPrivate_example : IsPrivate two_children
Reach-IsPrivate_example = Reach-IsPrivate two_children-Reach

abbrev wrapped : List Text
wrapped = text "/opt/landlock-run" ∷ text "--" ∷ text "rg" ∷ text "x" ∷ []

remote_argv_total_example :
    (remote_argv wrapped ≡ returns (rewrite wrapped))
    × (remote_argv (remote_argv wrapped) ≡ remote_argv wrapped)
remote_argv_total_example = remote_argv_total wrapped
