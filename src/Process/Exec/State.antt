-- ===== src/Process/Exec/State.antt =====
-- src/subprocess.ts: the state of one exec, and the events that reach it.
use dsh_podman.Prelude.{ℕ, zero, suc, Bool, false, List, Option, ◌==◌, ltb}
use dsh_podman.Text.{Text}
use dsh_podman.Output.{Bytes, OutputReader}

-- An integer: `pos n` is n, and `negsuc n` is -(n + 1).
pub data ℤ : Type 0 where
  pos : ℕ → ℤ
  negsuc : ℕ → ℤ

abbrev pub suc_int : ℤ → ℤ
suc_int (pos n) = pos (suc n)
suc_int (negsuc zero) = pos zero
suc_int (negsuc (suc n)) = negsuc n

abbrev pub pred_int : ℤ → ℤ
pred_int (pos zero) = negsuc zero
pred_int (pos (suc n)) = pos n
pred_int (negsuc n) = negsuc (suc n)

abbrev pub is_zero : ℤ → Bool
is_zero (pos n) = n == 0
is_zero (negsuc n) = false

abbrev pub is_positive : ℤ → Bool
is_positive (pos n) = ltb 0 n
is_positive (negsuc n) = false

pub data Pipe : Type 0 where
  stdout : Pipe
  stderr : Pipe

pub data Stdio : Type 0 where
  piped : Stdio
  inherited : Stdio
  collected : Stdio

pub data Signal : Type 0 where
  sigterm : Signal
  sigkill : Signal

-- What the exec of a spec is fixed to.
pub record ExecSpec : Type 0 where
  pub wants_control : Bool
  pub stdout_mode : Stdio
  pub stderr_mode : Stdio

pub record Exit : Type 0 where
  pub exit_code : ℤ
  pub signal : Option Text

pub record ExitMessage : Type 0 where
  pub exit_code : ℤ
  pub signaled : Bool
  pub signal : Text
  pub stdout_spill_valid : Bool
  pub stderr_spill_valid : Bool

pub record ExecOutput : Type 0 where
  pub stdout_chunk : Option Bytes
  pub process_id : Option ℕ
  pub stderr_chunk : Option Bytes
  pub exit : Option ExitMessage

pub data Settlement : Type 0 where
  resolved : Exit → Settlement
  rejected : Text → Settlement

pub data Effect : Type 0 where
  signalled : ℕ → Signal → Effect
  wrote : Pipe → Bytes → Effect
  echoed : Pipe → Bytes → Effect
  ended : Pipe → Effect
  opened_control : ℕ → Effect
  cancelled_control : Effect
  destroyed_control : Effect
  deleted : Text → Effect

-- Before the binding resolves, with the exec's stream open, or with no exec at all.
pub data Phase : Type 0 where
  resolving : Phase
  started : Bool → Phase
  unstarted : Phase

pub data KillTimer : Type 0 where
  unset : KillTimer
  armed : KillTimer
  fired : KillTimer

-- The drains that are waited for, one for each write that found its pipe full.
pub record Flow : Type 0 where
  pub pending_drains : ℤ
  pub waiting : List Pipe
  pub paused : Bool

pub record Exec : Type 0 where
  pub phase : Phase
  pub settled : Bool
  pub exited : Bool
  pub terminated : Bool
  pub kill_timer : KillTimer
  pub pid : Option ℕ
  pub flow : Flow
  pub control : Bool
  pub control_call : Bool
  pub control_closed : Bool
  pub stdout_reader : Option OutputReader
  pub stderr_reader : Option OutputReader
  pub outcomes : List Settlement
  pub effects : List Effect

pub data Event : Type 0 where
  bound : Bool → Event
  binding_failed : Text → Event
  output : ExecOutput → Bool → Bool → Event
  stream_error : Text → Event
  stream_end : Event
  termination : Event
  grace_over : Event
  drained : Pipe → Event
