-- ===== src/Terminals/Reopened.antt =====
-- The terminal that a reopened tab leaves behind (src/terminal-sessions.ts).
use dsh_podman.Prelude.{
  ℕ, ◌≡◌, refl, sym, ap, ◌∙◌, subst, true, ◌==◌, List, none, some, when-true, All-imp, arith,
}
use dsh_podman.Text.{Text}
use dsh_podman.Terminals.{
  TerminalOpenOptions, key_of, drop_id, TerminalSessions, no_terminals, dropped, drop_terminal,
  terminal_key, prepare_start, dispose,
}
use dsh_podman.Terminals.Indexes.{Indexed, drop_terminal-Indexed, key_of-drop_id}
use dsh_podman.Terminals.Runs.{
  is_terminated, Action, act_all, all_apart, act_all-Indexed, none-Indexed,
}
use dsh_podman.Terminals.Lost.{
  Without, Lost, attached-Lost, other_id, act_all-Lost, dispose_each-is_terminated,
}

-- Reopening a tab takes its terminal out of both maps.
reopened-Lost :
    (options : TerminalOpenOptions) (now id : ℕ) (s : TerminalSessions)
    → Indexed s
    → options.reopen ≡ true
    → key_of id s.by_id ≡ some (terminal_key options)
    → Lost id (is_terminated id s.guest) (prepare_start options now s).1
unfolding prepare_start
reopened-Lost options now id s h again held = attached-Lost id (is_terminated id s.guest) _ now _ (
    subst (Lost id (is_terminated id s.guest))
      (sym (when-true options.reopen (drop_terminal key) s again)) dropped_lost)
  where
    key : Text
    key = terminal_key options

    out : drop_terminal key s ≡ dropped (some id) key s
    out = unfold drop_terminal in ap (λ o. dropped o key s) (h.back id key held)

    gone : key_of id (drop_id id s.by_id) ≡ none
    gone =
        let same : (id == id) ≡ true = ground arith in key_of-drop_id id id s.by_id ∙ rw same refl

    kept : Indexed (dropped (some id) key s)
    kept = subst Indexed out (drop_terminal-Indexed key s h)

    dropped_lost : Lost id (is_terminated id s.guest) (drop_terminal key s)
    dropped_lost = subst (Lost id (is_terminated id s.guest)) (sym out) (record {
      gone = gone;
      unlisted =
          All-imp (λ e p. other_id id e.1 e.0 (dropped (some id) key s) gone (kept.there e.0 e.1 p))
            _ kept.current;
      older = h.fresh id key held;
      same = refl;
    })

-- After any calls in any order, where no `prepare` publishes a terminal for a tab that has got one by
-- then: when a tab is prepared again with `reopen`, the terminal that it had leaves both maps and
-- comes back to neither, and its guest is not told to end it, neither then nor by any later calls,
-- the retention sweep included, nor when the sessions are disposed of after them.
pub prepare_start-is_terminated :
    (actions later : List Action) (options : TerminalOpenOptions) (now id : ℕ)
    → options.reopen ≡ true
    → all_apart no_terminals actions ≡ true
    → key_of id (act_all no_terminals actions).by_id ≡ some (terminal_key options)
    → let s = act_all no_terminals actions in
      let t = act_all (prepare_start options now s).1 later in
      (key_of id t.by_id ≡ none)
      × Without id t.entries
      × (is_terminated id t.guest ≡ is_terminated id s.guest)
      × (is_terminated id (dispose t).guest ≡ is_terminated id s.guest)
unfolding dispose
prepare_start-is_terminated actions later options now id again p held =
    let s = act_all no_terminals actions in
    let t = act_all (prepare_start options now s).1 later in
    let h = act_all-Lost id (is_terminated id s.guest) (prepare_start options now s).1 later (
      reopened-Lost options now id s (act_all-Indexed no_terminals actions p none-Indexed) again
        held) in
    (h.gone, h.unlisted, h.same, dispose_each-is_terminated id t.entries t h.unlisted ∙ h.same)
