-- ===== src/Terminals/Lost.antt =====
-- A terminal in neither map stays out of both (src/terminal-sessions.ts).
use mathlib.Core.Option.{none-ne-some}
use dsh_podman.Prelude.{
  ℕ, suc, ◌<◌, ◌≡◌, refl, sym, ap, ◌∙◌, inl, inr, Bool-cases, Bool, true, false, ◌==◌, ==_iff, List,
  [], ◌∷◌, Option, none, some, when, when-keeps, All, All-filter, arith,
}
use dsh_podman.Text.{Text, ◌===◌}
use dsh_podman.Output.{is_some}
use dsh_podman.Binding.Cache.{Cache, cached}
use dsh_podman.Terminals.{
  TerminalOpenOptions, TerminalEntry, key_of, TerminalSessions, object, Opening, refused,
  fails_to_start, starts, Kind, input, resize, rename, close, dropped, drop_terminal, terminate,
  set_entry, publish, terminal_key, attached, prepare_start, prepare_finish, listened, listen,
  detach, controlled, controlled_if, control, on_done, on_output, is_idle, reap_each, reap,
  dispose_each,
}
use dsh_podman.Terminals.Indexes.{key_of-drop_id}
use dsh_podman.Terminals.Runs.{
  is_terminated, Action, begins, finishes, listens, detaches, controls, reaps, ends, writes, act,
  act_all,
}

-- No entry of a list is a terminal.
abbrev pub Without : ℕ → Cache ℕ → Type 0
Without id entries = All (λ e. (e.1 == id) ≡ false) entries

-- A terminal in neither map, whose guest was told to end it or not.
pub record Lost (id : ℕ) (told : Bool) (s : TerminalSessions) : Type 0 where
  pub gone : key_of id s.by_id ≡ none
  pub unlisted : Without id s.entries
  pub older : id < s.next
  pub same : is_terminated id s.guest ≡ told

dropped-Lost :
    (id : ℕ) (told : Bool) (o : Option ℕ) (key : Text) (s : TerminalSessions)
    → Lost id told s
    → Lost id told (dropped o key s)
dropped-Lost id told none key s h = h
dropped-Lost id told (some i) key s h = record {
  gone =
      key_of-drop_id i id s.by_id
      ∙ elim (Bool-cases (id == i)) [ inl e ↦ rw e refl | inr e ↦ rw e h.gone ];
  unlisted = All-filter _ _ s.entries h.unlisted;
  older = h.older;
  same = h.same;
}

drop_terminal-Lost :
    (id : ℕ) (told : Bool) (key : Text) (s : TerminalSessions)
    → Lost id told s
    → Lost id told (drop_terminal key s)
unfolding drop_terminal
drop_terminal-Lost id told key s h = dropped-Lost id told (cached key s.entries) key s h

pub terminate-Lost :
    (id i : ℕ) (told : Bool) (s : TerminalSessions)
    → (i == id) ≡ false
    → Lost id told s
    → Lost id told (terminate i s)
unfolding terminate is_terminated
terminate-Lost id i told s other h = record {
  gone = h.gone;
  unlisted = h.unlisted;
  older = h.older;
  same = rw other h.same;
}

set_entry-Without :
    (id new : ℕ) (key : Text) (entries : Cache ℕ)
    → (new == id) ≡ false
    → Without id entries
    → Without id (set_entry key new entries)
set_entry-Without id new key [] e h = (e, tt)
set_entry-Without id new key ((k, i) ∷ entries) e (p, h) = elim (Bool-cases (k === key)) [
  | inl f ↦ rw f (e, h)
  | inr f ↦ rw f (p, set_entry-Without id new key entries e h)
]

pub attached-Lost :
    (id : ℕ) (told : Bool) (o : Option ℕ) (now : ℕ) (s : TerminalSessions)
    → Lost id told s
    → Lost id told (attached o now s).1
attached-Lost id told none now s h = h
attached-Lost id told (some i) now s h = record {
  gone = h.gone;
  unlisted = h.unlisted;
  older = h.older;
  same = h.same;
}

prepare_finish-Lost :
    (id : ℕ) (told : Bool) (opening : Opening) (options : TerminalOpenOptions) (now : ℕ)
    (s : TerminalSessions)
    → Lost id told s
    → Lost id told (prepare_finish opening options now s)
unfolding prepare_finish publish
prepare_finish-Lost id told refused options now s h = h
prepare_finish-Lost id told fails_to_start options now s h =
    terminate-Lost id s.next told (record s { next = suc s.next }) (ground (arith, h.older))
      (record {
        gone = h.gone;
        unlisted = h.unlisted;
        older = omega (arith, h.older);
        same = h.same;
      })
prepare_finish-Lost id told (starts shell title) options now s h =
    let other : (s.next == id) ≡ false = ground (arith, h.older) in
    record {
      gone = rw other h.gone;
      unlisted = set_entry-Without id s.next (terminal_key options) s.entries other h.unlisted;
      older = omega (arith, h.older);
      same = h.same;
    }

listened-Lost :
    (id : ℕ) (told : Bool) (o : Option TerminalEntry) (browser : ℕ) (has_snapshot : Bool) (now : ℕ)
    (s : TerminalSessions)
    → Lost id told s
    → Lost id told (listened o browser has_snapshot now s)
listened-Lost id told none browser has_snapshot now s h = h
listened-Lost id told (some t) browser has_snapshot now s h = record {
  gone = h.gone;
  unlisted = h.unlisted;
  older = h.older;
  same = h.same;
}

-- A guest is only told something over an id that is in the map.
pub other_id :
    (id i : ℕ) (key : Text) (s : TerminalSessions)
    → key_of id s.by_id ≡ none
    → key_of i s.by_id ≡ some key
    → (i == id) ≡ false
other_id id i key s gone held = elim (Bool-cases (i == id)) [
  | inl e ↦
      absurd
        (none-ne-some key (sym gone ∙ ap (λ n. key_of n s.by_id) (sym ((==_iff i id).0 e)) ∙ held))
  | inr e ↦ e
]

controlled-Lost :
    (id : ℕ) (told : Bool) (o : Option Text) (kind : Kind) (i : ℕ) (has_exited : Bool) (now : ℕ)
    (s : TerminalSessions)
    → key_of i s.by_id ≡ o
    → Lost id told s
    → Lost id told (controlled_if o kind i has_exited now s)
unfolding controlled is_terminated
controlled-Lost id told none kind i has_exited now s e h = h
controlled-Lost id told (some key) (input bytes) i true now s e h = record {
  gone = h.gone;
  unlisted = h.unlisted;
  older = h.older;
  same = h.same;
}
controlled-Lost id told (some key) (input bytes) i false now s e h = record {
  gone = h.gone;
  unlisted = h.unlisted;
  older = h.older;
  same = h.same;
}
controlled-Lost id told (some key) (resize cols rows) i true now s e h = record {
  gone = h.gone;
  unlisted = h.unlisted;
  older = h.older;
  same = h.same;
}
controlled-Lost id told (some key) (resize cols rows) i false now s e h = record {
  gone = h.gone;
  unlisted = h.unlisted;
  older = h.older;
  same = h.same;
}
controlled-Lost id told (some key) (rename title) i has_exited now s e h = record {
  gone = h.gone;
  unlisted = h.unlisted;
  older = h.older;
  same = h.same;
}
controlled-Lost id told (some key) close i has_exited now s e h =
    terminate-Lost id i told _ (other_id id i key s h.gone e) (
      drop_terminal-Lost id told key _
        (record { gone = h.gone; unlisted = h.unlisted; older = h.older; same = h.same }))

reap_each-Lost :
    (id : ℕ) (told : Bool) (retention now : ℕ) (listed : Cache ℕ) (s : TerminalSessions)
    → Without id listed
    → Lost id told s
    → Lost id told (reap_each retention now listed s)
unfolding reap_each
reap_each-Lost id told retention now [] s w h = h
reap_each-Lost id told retention now ((key, i) ∷ listed) s (p, w) h =
    reap_each-Lost id told retention now listed
      (when (is_idle retention now (object i s.objects)) (λ t. terminate i (drop_terminal key t)) s)
      w
      (when-keeps (Lost id told) (λ t. terminate i (drop_terminal key t))
        (is_idle retention now (object i s.objects)) s
        (λ e k. terminate-Lost id i told _ p (drop_terminal-Lost id told key s k)) h)

act-Lost :
    (id : ℕ) (told : Bool) (s : TerminalSessions) (a : Action)
    → Lost id told s
    → Lost id told (act s a)
unfolding act prepare_start listen detach control reap on_done on_output
act-Lost id told s (begins options now) h = attached-Lost id told _ now _ (
    when-keeps (Lost id told) (drop_terminal (terminal_key options)) options.reopen s
      (λ e k. drop_terminal-Lost id told (terminal_key options) s k) h)
act-Lost id told s (finishes options opening now) h =
    prepare_finish-Lost id told opening options now s h
act-Lost id told s (listens i browser has_snapshot now) h =
    when-keeps (Lost id told) (λ t. listened (object i t.objects) browser has_snapshot now t)
      (is_some (key_of i s.by_id)) s
      (λ e k. listened-Lost id told (object i s.objects) browser has_snapshot now s k) h
act-Lost id told s (detaches i browser) h = record {
  gone = h.gone;
  unlisted = h.unlisted;
  older = h.older;
  same = h.same;
}
act-Lost id told s (controls i kind has_exited now) h =
    controlled-Lost id told (key_of i s.by_id) kind i has_exited now s refl h
act-Lost id told s (reaps retention now) h =
    reap_each-Lost id told retention now s.entries s h.unlisted h
act-Lost id told s (ends i e) h = record {
  gone = h.gone;
  unlisted = h.unlisted;
  older = h.older;
  same = h.same;
}
act-Lost id told s (writes i chunk) h = record {
  gone = h.gone;
  unlisted = h.unlisted;
  older = h.older;
  same = h.same;
}

pub act_all-Lost :
    (id : ℕ) (told : Bool) (s : TerminalSessions) (actions : List Action)
    → Lost id told s
    → Lost id told (act_all s actions)
unfolding act_all
act_all-Lost id told s [] h = h
act_all-Lost id told s (a ∷ actions) h =
    act_all-Lost id told (act s a) actions (act-Lost id told s a h)

pub dispose_each-is_terminated :
    (id : ℕ) (listed : Cache ℕ) (s : TerminalSessions)
    → Without id listed
    → is_terminated id (dispose_each listed s).guest ≡ is_terminated id s.guest
unfolding dispose_each
dispose_each-is_terminated id [] s w = refl
dispose_each-is_terminated id ((key, i) ∷ listed) s (p, w) =
    dispose_each-is_terminated id listed _ w ∙ unfold terminate is_terminated in rw p refl
