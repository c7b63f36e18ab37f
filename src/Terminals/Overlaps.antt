-- ===== src/Terminals/Overlaps.antt =====
-- Two calls of prepare for one tab that overlap (src/terminal-sessions.ts).
use dsh_podman.Prelude.{
  ℕ, ◌≡◌, refl, sym, ap, ◌∙◌, inl, inr, subst, Bool-cases, Bool, true, false, ◌==◌, List, [], ◌∷◌,
  none, some, All-imp, All-filter, arith,
}
use dsh_podman.Text.{Text, ◌===◌}
use dsh_podman.Text.Laws.{===_refl}
use dsh_podman.Binding.Cache.{Cache, cached, drop_key}
use dsh_podman.Terminals.{
  TerminalOpenOptions, key_of, TerminalSessions, no_terminals, starts, close, drop_terminal,
  set_entry, publish, terminal_key, prepare_finish, controlled, control, dispose,
}
use dsh_podman.Terminals.Indexes.{Indexed, cached-set_entry, key_of-drop_id}
use dsh_podman.Terminals.Runs.{
  is_terminated, Action, act_all, all_apart, act_all-Indexed, none-Indexed,
}
use dsh_podman.Terminals.Lost.{
  Without, Lost, terminate-Lost, act_all-Lost, dispose_each-is_terminated,
}

drop_key-set_entry :
    (key : Text) (id : ℕ) (entries : Cache ℕ)
    → drop_key key (set_entry key id entries) ≡ drop_key key entries
drop_key-set_entry key id [] = rw (===_refl key) refl
drop_key-set_entry key id ((k, i) ∷ entries) = elim (Bool-cases (k === key)) [
  | inl e ↦ rw (e, e) refl
  | inr e ↦ rw (e, e) (ap (λ es. (k, i) ∷ es) (drop_key-set_entry key id entries))
]

-- The listed terminals are older than the next one.
older-Without : (s : TerminalSessions) → Indexed s → Without s.next s.entries
older-Without s h =
    All-imp (λ e p. ground (arith, h.fresh e.1 e.0 (h.there e.0 e.1 p))) s.entries h.current

module _ (options : TerminalOpenOptions) (shell title : Text) (now later_now old : ℕ)
    (has_exited : Bool) (s : TerminalSessions) where
  abbrev published : TerminalSessions
  published = prepare_finish (starts shell title) options now s

  cached_new :
      cached (terminal_key options) (set_entry (terminal_key options) s.next s.entries)
      ≡ some s.next
  cached_new =
      cached-set_entry (terminal_key options) (terminal_key options) s.next s.entries
      ∙ rw (===_refl (terminal_key options)) refl

  closed-Lost :
      Indexed s
      → key_of old s.by_id ≡ some (terminal_key options)
      → Lost s.next
          (is_terminated s.next s.guest)
          (control old close has_exited later_now published)
  unfolding prepare_finish publish control controlled drop_terminal
  closed-Lost h held =
      let older = h.fresh old (terminal_key options) held in
      let other : (s.next == old) ≡ false = ground (arith, older) in
      let apart : (old == s.next) ≡ false = ground (arith, older) in
      let same : (s.next == s.next) ≡ true = ground arith in
      rw (other, held)
        (rw cached_new (
          terminate-Lost s.next old (is_terminated s.next s.guest) _ apart (record {
            gone = key_of-drop_id s.next s.next published.by_id ∙ rw same refl;
            unlisted =
                subst (Without s.next)
                  (sym (drop_key-set_entry (terminal_key options) s.next s.entries))
                  (All-filter _ _ s.entries (older-Without s h));
            older = omega arith;
            same = refl;
          })))

-- After any calls in any order, where no `prepare` publishes a terminal for a tab that has got one by
-- then: when a `prepare` that had found no terminal publishes one for a tab that has got another
-- in the meantime, and that other is closed, then the new terminal is in neither map and comes back
-- to neither, and its guest is not told to end it, neither then nor by any later calls, the retention
-- sweep included, nor when the sessions are disposed of after them.
pub prepare_finish-is_terminated :
    (actions later : List Action) (options : TerminalOpenOptions) (shell title : Text)
    (now later_now old : ℕ) (has_exited : Bool)
    → all_apart no_terminals actions ≡ true
    → key_of old (act_all no_terminals actions).by_id ≡ some (terminal_key options)
    → let s = act_all no_terminals actions in
      let u = prepare_finish (starts shell title) options now s in
      let t = act_all (control old close has_exited later_now u) later in
      (key_of s.next t.by_id ≡ none)
      × Without s.next t.entries
      × (is_terminated s.next t.guest ≡ is_terminated s.next s.guest)
      × (is_terminated s.next (dispose t).guest ≡ is_terminated s.next s.guest)
unfolding dispose
prepare_finish-is_terminated actions later options shell title now later_now old has_exited p held =
    let s = act_all no_terminals actions in
    let u = prepare_finish (starts shell title) options now s in
    let v = control old close has_exited later_now u in
    let t = act_all v later in
    let h = act_all-Lost s.next (is_terminated s.next s.guest) v later (
      closed-Lost options shell title now later_now old has_exited s
        (act_all-Indexed no_terminals actions p none-Indexed) held) in
    (h.gone, h.unlisted, h.same, dispose_each-is_terminated s.next t.entries t h.unlisted ∙ h.same)
