-- ===== src/GuestPath.antt =====
-- src/guest-rpc.ts: the paths that a tool call names, resolved against the session's directory.
-- `resolve_path base path` is `resolve` of node:path.
use dsh_podman.Prelude.{Option, none, some, Outcome, ok, throw, if◌then◌else◌}
use dsh_podman.Text.{Text, text, is_empty, includes, starts_with, split}
use dsh_podman.Value.{Value, str}

pub data PathError : Type 0 where
  escapes_workspace no_session_directory : PathError

module _ (resolve_path : Text → Text → Text) where
  resolve_in : Text → Value → Outcome PathError Text
  resolve_in path (str base) =
      if is_empty base then throw no_session_directory else ok (resolve_path base path)
  resolve_in path session_cwd = throw no_session_directory

  unfoldable pub resolve_against_session : Text → Value → Outcome PathError Text
  unfolding resolve_in
  resolve_against_session path session_cwd =
      if starts_with path (text "/") then ok path else resolve_in path session_cwd

  unfoldable pub resolve_guest_path : Text → Value → Outcome PathError Text
  unfolding resolve_against_session
  resolve_guest_path path session_cwd =
      if includes (text "..") (split b'/' path)
      then throw escapes_workspace
      else resolve_against_session path session_cwd

  or_given : Text → Outcome PathError Text → Text
  or_given path (ok resolved) = resolved
  or_given path (throw e) = path

  unfoldable pub approval_path : Text → Value → Text
  unfolding resolve_guest_path or_given
  approval_path path session_cwd = or_given path (resolve_guest_path path session_cwd)

  some_path : Outcome PathError Text → Outcome PathError (Option Text)
  some_path (ok path) = ok (some path)
  some_path (throw e) = throw e

  unfoldable pub resolve_guest_cwd : Value → Value → Outcome PathError (Option Text)
  unfolding resolve_against_session some_path
  resolve_guest_cwd (str cwd) session_cwd =
      if is_empty cwd then ok none else some_path (resolve_against_session cwd session_cwd)
  resolve_guest_cwd cwd session_cwd = ok none

  or_default_cwd : Option Text → Outcome PathError (Option Text) → Outcome PathError (Option Text)
  or_default_cwd default_cwd (ok none) = ok default_cwd
  or_default_cwd default_cwd resolved = resolved

  unfoldable pub guest_cwd : Value → Value → Option Text → Outcome PathError (Option Text)
  unfolding resolve_guest_cwd or_default_cwd
  guest_cwd requested session_cwd default_cwd =
      or_default_cwd default_cwd (resolve_guest_cwd requested session_cwd)
