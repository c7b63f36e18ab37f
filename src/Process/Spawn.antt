-- ===== src/Process/Spawn.antt =====
-- src/subprocess.ts and src/guest-rpc.ts: what `spawn` checks and asks of the guest.
-- An argument vector is a list of texts, and an absent stdio mode is one that is not `pipe`.
pub mod Laws
use dsh_podman.Prelude.{
  ℕ, zero, suc, ◌+◌, Bool, true, false, List, [], ◌∷◌, Option, none, some, if◌then◌else◌, not, ◌||◌,
  ◌&&◌, ◌==◌, length, any, Outcome, ok, throw, throw_if, ◌>>=◌, ◌>>◌,
}
use dsh_podman.Text.{Text, text, ◌===◌, is_empty, includes, starts_with, split}
use dsh_podman.Dict.{Entries, put}
use dsh_podman.Output.{split_env}
use dsh_podman.Process.Uids.{PtcUidPool, allocate}

abbrev pub last_of : List Text → Text
last_of [] = []
last_of (x ∷ []) = x
last_of (x ∷ y ∷ rest) = last_of (y ∷ rest)

-- `/(?:^|\/)rg(?:\.exe)?$/`: the part behind the last slash is `rg` or `rg.exe`.
unfoldable pub is_ripgrep : Text → Bool
is_ripgrep runner =
    let name = last_of (split 47 runner) in name === text "rg" || name === text "rg.exe"

-- `/(?:^|\/)landlock-run(?:$|\/)/`: one of the parts between slashes is `landlock-run`.
unfoldable pub is_landlock : Text → Bool
is_landlock runner = any (λ part. part === text "landlock-run") (split 47 runner)

-- `argv.slice(argv.indexOf("--") + 1)`, or nothing when there is no `--`.
unfoldable pub after_separator : List Text → Option (List Text)
after_separator [] = none
after_separator (arg ∷ args) = if arg === text "--" then some args else after_separator args

-- One call of `remoteArgv`: its result, or the arguments of the call that it makes.
pub data Rewrite : Type 0 where
  done : List Text → Rewrite
  again : List Text → Rewrite

abbrev pub unwrapped : List Text → Option (List Text) → Rewrite
unwrapped argv none = done argv
unwrapped argv (some inner) = again inner

unfoldable pub rewrite : List Text → Rewrite
rewrite [] = done []
rewrite (runner ∷ args) =
    if is_ripgrep runner
    then done (text "/usr/bin/rg" ∷ args)
    else if is_landlock runner
    then unwrapped (runner ∷ args) (after_separator (runner ∷ args))
    else done (runner ∷ args)

unfoldable pub unwrap : ℕ → List Text → List Text
unwrap zero argv = argv
unwrap (suc fuel) argv = elim (rewrite argv) [
  | done result ↦ result
  | again inner ↦ unwrap fuel inner
]

-- `remoteArgv`; the arguments of each call are fewer than those of the call before.
unfoldable pub remote_argv : List Text → List Text
remote_argv argv = unwrap (suc (length argv)) argv

abbrev only : List Text → Option Text
only [] = none
only (root ∷ []) = some root
only (root ∷ other ∷ rest) = none

abbrev is_absolute : Text → Bool
is_absolute path = starts_with path (text "/")

abbrev absolute_only : Option Text → Option Text
absolute_only none = none
absolute_only (some root) = if is_absolute root then some root else none

abbrev root_of : Option (List Text) → Option Text
root_of none = none
root_of (some roots) = absolute_only (only roots)

-- `globCwd`; an absent cwd is the empty text, which the source treats alike.
unfoldable pub glob_cwd : List Text → Text → Option Text
glob_cwd [] cwd = none
glob_cwd (runner ∷ args) cwd =
    if is_ripgrep runner && includes (text "--files") (runner ∷ args) && not (is_empty cwd)
    then root_of (after_separator (runner ∷ args))
    else none

pub data SpawnError : Type 0 where
  aborted : SpawnError
  no_program : SpawnError
  no_free_uid : SpawnError

pub record SpawnSpec : Type 0 where
  pub argv : List Text
  pub cwd : Text
  pub env : List (Text × Option Text)
  pub stdin_pipe : Bool
  pub wants_control : Bool
  pub is_aborted : Bool

abbrev has_program : List Text → Bool
has_program [] = false
has_program (program ∷ args) = not (is_empty program)

abbrev with_uid : Option (ℕ × PtcUidPool) → Outcome SpawnError (Option ℕ × PtcUidPool)
with_uid none = throw no_free_uid
with_uid (some (id, pool)) = ok (some id, pool)

-- The checks of `spawn`, and the identity of a control spawn.
unfoldable pub spawn : SpawnSpec → PtcUidPool → Outcome SpawnError (Option ℕ × PtcUidPool)
spawn spec pool =
    throw_if spec.is_aborted aborted
    >> throw_if (not (has_program spec.argv)) no_program
    >> (if spec.wants_control then with_uid (allocate pool) else ok (none, pool))

pub record StartRequest : Type 0 where
  pub argv : List Text
  pub cwd : Text
  pub env : Entries
  pub unset_env : List Text
  pub stdin_pipe : Bool
  pub control : Bool
  pub uid : Option ℕ

abbrev or_text : Option Text → Text → Text
or_text none other = other
or_text (some t) other = t

unfoldable pub run_cwd : SpawnSpec → Text
run_cwd spec =
    if spec.wants_control then text "/tmp" else or_text (glob_cwd spec.argv spec.cwd) spec.cwd

-- The first message of the exec.
unfoldable pub start_request : SpawnSpec → Option ℕ → Bool → StartRequest
start_request spec uid with_control =
    let (set, unset) = split_env spec.env in
    record {
      argv = remote_argv spec.argv;
      cwd = run_cwd spec;
      env = if with_control then put (text "DSH_SUBPROCESS_CONTROL") (text "pipe") set else set;
      unset_env = unset;
      stdin_pipe = spec.stdin_pipe;
      control = with_control;
      uid = uid;
    }
