-- ===== src/Tests/Terminals.antt =====
-- Terminals of a session's tabs, and keys of guest paths.
use dsh_podman.Prelude.{
  ◌≡◌, ◌↔◌, refl, Bool, true, false, ◌||◌, List, [], ◌∷◌, none, some, any, arith,
}
use dsh_podman.Text.{text, ◌===◌, starts_with, split, join}
use dsh_podman.Output.{is_some}
use dsh_podman.Binding.Cache.{cached}
use dsh_podman.Terminals.{
  TerminalOpenOptions, Opening, starts, close, key_of, no_terminals, terminal_key, prepare_start,
  prepare_finish, publish, dispose, control, controlled, drop_terminal, terminate, listen,
}
use dsh_podman.Terminals.Runs.{
  is_terminated, Action, begins, finishes, controls, listens, act, act_all, is_apart, all_apart,
}
use dsh_podman.Terminals.Lost.{Without}
use dsh_podman.Terminals.Overlaps.{prepare_finish-is_terminated}
use dsh_podman.Terminals.Reopened.{prepare_start-is_terminated}
use dsh_podman.Terminals.Kept.{reopens, act_all-key_of}
use dsh_podman.Fs.{normalize_fs_key, collapse}

abbrev tab : Bool → TerminalOpenOptions
tab reopen = record {
  session_id = text "s";
  tab_id = text "1";
  workspace = text "w";
  container = text "dev";
  reopen = reopen;
}

abbrev bash : Opening
bash = starts (text "/bin/bash") (text "bash")

abbrev opened_twice : List Action
opened_twice =
    begins (tab false) 1
    ∷ finishes (tab false) bash 1
    ∷ listens 0 7 false 2
    ∷ controls 0 close false 3
    ∷ begins (tab false) 4
    ∷ finishes (tab false) bash 4
    ∷ []

no_reopen : any reopens opened_twice ≡ false
unfolding reopens
no_reopen = refl

apart : all_apart no_terminals opened_twice ≡ true
unfolding all_apart is_apart act prepare_start prepare_finish publish listen control controlled
    drop_terminal terminate text ◌===◌
apart = refl

counted : (act_all no_terminals opened_twice).next ≡ 2
unfolding act_all act prepare_start prepare_finish publish listen control controlled drop_terminal
    terminate text ◌===◌
counted = refl

act_all-key_of_example :
    let s = act_all no_terminals opened_twice in
    ((is_some (key_of 0 s.by_id) || is_terminated 0 s.guest) ≡ true)
    × ((key_of 0 s.by_id ≡ some (text "k")) ↔ (cached (text "k") s.entries ≡ some 0))
act_all-key_of_example =
    act_all-key_of opened_twice 0 (text "k") no_reopen apart (omega (arith, counted))

abbrev opened_once : List Action
opened_once = begins (tab false) 1 ∷ finishes (tab false) bash 1 ∷ []

once_apart : all_apart no_terminals opened_once ≡ true
unfolding all_apart is_apart act prepare_start text ◌===◌
once_apart = refl

held_first : key_of 0 (act_all no_terminals opened_once).by_id ≡ some (terminal_key (tab true))
unfolding act_all act prepare_start prepare_finish publish text ◌===◌
held_first = refl

-- A call of `prepare` that was begun before the tab had its terminal, and that is finished after.
prepare_finish-is_terminated_example :
    let s = act_all no_terminals opened_once in
    let u = prepare_finish bash (tab false) 3 s in
    let t = act_all (control 0 close false 4 u) (begins (tab false) 5 ∷ []) in
    (key_of s.next t.by_id ≡ none)
    × Without s.next t.entries
    × (is_terminated s.next t.guest ≡ is_terminated s.next s.guest)
    × (is_terminated s.next (dispose t).guest ≡ is_terminated s.next s.guest)
prepare_finish-is_terminated_example =
    prepare_finish-is_terminated opened_once (begins (tab false) 5 ∷ []) (tab false)
      (text "/bin/bash") (text "bash") 3 4 0 false once_apart held_first

prepare_start-is_terminated_example :
    let s = act_all no_terminals opened_once in
    let t = act_all (prepare_start (tab true) 2 s).1 (finishes (tab true) bash 3 ∷ []) in
    (key_of 0 t.by_id ≡ none)
    × Without 0 t.entries
    × (is_terminated 0 t.guest ≡ is_terminated 0 s.guest)
    × (is_terminated 0 (dispose t).guest ≡ is_terminated 0 s.guest)
prepare_start-is_terminated_example =
    prepare_start-is_terminated opened_once (finishes (tab true) bash 3 ∷ []) (tab true) 2 0 refl
      once_apart held_first

collapsed : normalize_fs_key (text "/a//b/../c/.") ≡ text "/a/c"
unfolding normalize_fs_key text starts_with split join collapse ◌===◌
collapsed = refl
