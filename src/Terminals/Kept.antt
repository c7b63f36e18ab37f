-- ===== src/Terminals/Kept.antt =====
-- No terminal is lost over a run of calls without reopened tabs (src/terminal-sessions.ts).
use mathlib.Core.Option.{some-injective, none-ne-some}
use dsh_podman.Prelude.{
  ℕ, ◌<◌, ◌≡◌, refl, sym, ◌∙◌, subst, inl, inr, ◌⊎◌, Bool-cases, Bool, true, false, ◌||◌, ◌==◌,
  List, [], ◌∷◌, Option, none, some, when, when-keeps, when-false, All, All-imp, ◌↔◌, any, arith,
}
use dsh_podman.Text.{Text, ◌===◌}
use dsh_podman.Output.{is_some}
use dsh_podman.Binding.Cache.{Cache, cached}
use dsh_podman.Terminals.{
  TerminalOpenOptions, TerminalEntry, key_of, drop_id, TerminalSessions, no_terminals, object,
  Opening, refused, fails_to_start, starts, Kind, input, resize, rename, close, dropped,
  drop_terminal, terminate, publish, terminal_key, attached, prepare_start, prepare_finish,
  listened, listen, detach, controlled, controlled_if, control, on_done, on_output, is_idle,
  reap_each, reap,
}
use dsh_podman.Terminals.Indexes.{Indexed, key_of-drop_id, cached-drop_key}
use dsh_podman.Terminals.Runs.{
  is_terminated, Action, begins, finishes, all_apart, listens, detaches, controls, reaps, ends,
  writes, act, act_all, act-Indexed, none-Indexed,
}

-- A terminal that was opened is in the map, or its guest was told to end it.
abbrev Kept : TerminalSessions → Type 0
Kept s = (id : ℕ) → id < s.next → (is_some (key_of id s.by_id) || is_terminated id s.guest) ≡ true

unfoldable pub reopens : Action → Bool
reopens (begins options now) = options.reopen
reopens (finishes options opening now) = false
reopens (listens id browser has_snapshot now) = false
reopens (detaches id browser) = false
reopens (controls id kind has_exited now) = false
reopens (reaps retention now) = false
reopens (ends id e) = false
reopens (writes id chunk) = false

Bool_or_true : (b : Bool) → (b || true) ≡ true
Bool_or_true true = refl
Bool_or_true false = refl

-- Closing the terminal of a key loses no other.
close-Kept :
    (key : Text) (id : ℕ) (s : TerminalSessions) (o : Option ℕ)
    → (o ≡ some id) ⊎ (o ≡ none)
    → Kept s
    → Kept (terminate id (dropped o key s))
unfolding terminate is_terminated
close-Kept key id s none either h = λ other older. ground (arith, h other older)
close-Kept key id s (some held) (inr e) h = absurd (none-ne-some held (sym e))
close-Kept key id s (some held) (inl e) h = λ other older.
    let same : held ≡ id = some-injective _ _ e in
    elim (Bool-cases (other == held)) [
      | inl k ↦
          let told : (id == other) ≡ true = ground (arith, k, same) in
          rw (told, Bool_or_true (is_some (key_of other (drop_id held s.by_id)))) refl
      | inr k ↦ rw (key_of-drop_id held other s.by_id, k) (ground (arith, h other older))
    ]

-- What a listed entry still is: the entry of its key, or that key has none.
abbrev Still : TerminalSessions → Text × ℕ → Type 0
Still s e = (cached e.0 s.entries ≡ some e.1) ⊎ (cached e.0 s.entries ≡ none)

dropped-Still :
    (key : Text) (o : Option ℕ) (s : TerminalSessions) (e : Text × ℕ)
    → Still s e
    → Still (dropped o key s) e
dropped-Still key none s e h = h
dropped-Still key (some id) s (k, i) h = elim (Bool-cases (k === key)) [
  | inl same ↦ inr (cached-drop_key key k s.entries ∙ rw same refl)
  | inr other ↦ elim h [
    | inl p ↦ inl (cached-drop_key key k s.entries ∙ rw other p)
    | inr p ↦ inr (cached-drop_key key k s.entries ∙ rw other p)
  ]
]

reap_each-Kept :
    (retention now : ℕ) (listed : Cache ℕ) (s : TerminalSessions)
    → All (Still s) listed
    → Kept s
    → Kept (reap_each retention now listed s)
unfolding reap_each drop_terminal
reap_each-Kept retention now [] s still h = h
reap_each-Kept retention now ((key, id) ∷ listed) s (p, still) h =
    reap_each-Kept retention now listed
      (when idle (λ t. terminate id (dropped (cached key t.entries) key t)) s)
      (when-keeps (λ t. All (Still t) listed)
        (λ t. terminate id (dropped (cached key t.entries) key t)) idle s
        (λ e k. unfold terminate in All-imp (dropped-Still key (cached key s.entries) s) listed k)
        still)
      (when-keeps Kept (λ t. terminate id (dropped (cached key t.entries) key t)) idle s
        (λ e k. close-Kept key id s (cached key s.entries) p k) h)
  where
    idle : Bool
    idle = is_idle retention now (object id s.objects)

attached-Kept : (o : Option ℕ) (now : ℕ) (s : TerminalSessions) → Kept s → Kept (attached o now s).1
attached-Kept none now s h = h
attached-Kept (some id) now s h = h

prepare_finish-Kept :
    (opening : Opening) (options : TerminalOpenOptions) (now : ℕ) (s : TerminalSessions)
    → Kept s
    → Kept (prepare_finish opening options now s)
unfolding prepare_finish terminate publish is_terminated
prepare_finish-Kept refused options now s h = h
prepare_finish-Kept fails_to_start options now s h = λ id older. elim (Bool-cases (s.next == id)) [
  | inl e ↦ rw (e, Bool_or_true (is_some (key_of id s.by_id))) refl
  | inr e ↦ rw e (h id (ground arith))
]
prepare_finish-Kept (starts shell title) options now s h = λ id older.
    elim (Bool-cases (s.next == id)) [ inl e ↦ rw e refl | inr e ↦ rw e (h id (ground arith)) ]

controlled-Kept :
    (o : Option Text) (kind : Kind) (id : ℕ) (has_exited : Bool) (now : ℕ) (s : TerminalSessions)
    → key_of id s.by_id ≡ o
    → Indexed s
    → Kept s
    → Kept (controlled_if o kind id has_exited now s)
unfolding controlled is_terminated
controlled-Kept none kind id has_exited now s e i h = h
controlled-Kept (some key) (input bytes) id true now s e i h = h
controlled-Kept (some key) (input bytes) id false now s e i h = h
controlled-Kept (some key) (resize cols rows) id true now s e i h = h
controlled-Kept (some key) (resize cols rows) id false now s e i h = h
controlled-Kept (some key) (rename title) id has_exited now s e i h = h
controlled-Kept (some key) close id has_exited now s e i h =
    unfold drop_terminal in close-Kept key id _ (cached key s.entries) (inl (i.back id key e)) h

listened-Kept :
    (o : Option TerminalEntry) (browser : ℕ) (has_snapshot : Bool) (now : ℕ) (s : TerminalSessions)
    → Kept s
    → Kept (listened o browser has_snapshot now s)
listened-Kept none browser has_snapshot now s h = h
listened-Kept (some t) browser has_snapshot now s h = h

act-Kept :
    (s : TerminalSessions) (a : Action) → reopens a ≡ false → Indexed s → Kept s → Kept (act s a)
unfolding act prepare_start listen detach control reap on_done on_output reopens
act-Kept s (begins options now) r i h =
    subst (λ t. Kept (attached (cached (terminal_key options) t.entries) now t).1)
      (sym (when-false options.reopen (drop_terminal (terminal_key options)) s r))
      (attached-Kept (cached (terminal_key options) s.entries) now s h)
act-Kept s (finishes options opening now) r i h = prepare_finish-Kept opening options now s h
act-Kept s (listens id browser has_snapshot now) r i h =
    when-keeps Kept (λ t. listened (object id t.objects) browser has_snapshot now t)
      (is_some (key_of id s.by_id)) s
      (λ e k. listened-Kept (object id s.objects) browser has_snapshot now s k) h
act-Kept s (detaches id browser) r i h = h
act-Kept s (controls id kind has_exited now) r i h =
    controlled-Kept (key_of id s.by_id) kind id has_exited now s refl i h
act-Kept s (reaps retention now) r i h =
    reap_each-Kept retention now s.entries s (All-imp (λ e p. inl p) s.entries i.current) h
act-Kept s (ends id e) r i h = h
act-Kept s (writes id chunk) r i h = h

act_all-Kept :
    (s : TerminalSessions) (actions : List Action)
    → any reopens actions ≡ false
    → all_apart s actions ≡ true
    → Indexed s
    → Kept s
    → Indexed (act_all s actions) × Kept (act_all s actions)
unfolding act_all all_apart
act_all-Kept s [] r p i h = (i, h)
act_all-Kept s (a ∷ actions) r p i h = elim (Bool-cases (reopens a)) [
  | inl e ↦ absurd (ground (arith, r, e))
  | inr e ↦
      act_all-Kept (act s a) actions (rw e at r) (ground arith) (act-Indexed s a (ground arith) i)
        (act-Kept s a e i h)
]

-- After any calls in any order, the two steps of each `prepare` with whatever calls between them,
-- that reopen no tab, and where no `prepare` publishes a terminal for a tab that has got one by
-- then: every terminal that was ever opened is still in the map of ids, so that it can be controlled,
-- or its guest was told to end it; and an id stands for a key in that map exactly if the key stands
-- for the id in the other, which the retention sweep goes through.
pub act_all-key_of :
    (actions : List Action) (id : ℕ) (key : Text)
    → any reopens actions ≡ false
    → all_apart no_terminals actions ≡ true
    → id < (act_all no_terminals actions).next
    → let s = act_all no_terminals actions in
      ((is_some (key_of id s.by_id) || is_terminated id s.guest) ≡ true)
      × ((key_of id s.by_id ≡ some key) ↔ (cached key s.entries ≡ some id))
act_all-key_of actions id key r p older =
    let (i, h) =
      act_all-Kept no_terminals actions r p none-Indexed (λ n k. absurd (omega (arith, k))) in
    (h id older, (i.back id key, i.there key id))
