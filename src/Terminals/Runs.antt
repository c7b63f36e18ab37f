-- ===== src/Terminals/Runs.antt =====
-- The terminals over a whole run of calls (src/terminal-sessions.ts).
use mathlib.Core.Option.{none-ne-some}
use dsh_podman.Prelude.{
  ℕ, suc, ◌≡◌, refl, Bool, true, false, not, ◌&&◌, ◌||◌, ◌==◌, List, [], ◌∷◌, Option, none, some,
  when, when-keeps, arith,
}
use dsh_podman.Text.{Text}
use dsh_podman.Output.{Bytes, is_some}
use dsh_podman.Binding.Cache.{Cache, cached}
use dsh_podman.Terminals.{
  TerminalOpenOptions, TerminalEntry, Ending, GuestCall, terminated, wrote, resized, key_of,
  TerminalSessions, no_terminals, object, Opening, refused, fails_to_start, starts, Kind, input,
  resize, rename, close, drop_terminal, terminate, terminal_key, attached, prepare_start,
  prepare_finish, listened, listen, detach, controlled, controlled_if, control, on_done, on_output,
  is_idle, reap_each, reap,
}
use dsh_podman.Terminals.Indexes.{Indexed, drop_terminal-Indexed, publish-Indexed}

-- Whether the guest of a terminal was told to end it.
unfoldable pub is_terminated : ℕ → List GuestCall → Bool
is_terminated id [] = false
is_terminated id (terminated i ∷ calls) = i == id || is_terminated id calls
is_terminated id (wrote i bytes ∷ calls) = is_terminated id calls
is_terminated id (resized i cols rows ∷ calls) = is_terminated id calls

-- A call of the sessions, of `prepare` either step, or a callback of a guest terminal.
pub data Action : Type 0 where
  begins : TerminalOpenOptions → ℕ → Action
  finishes : TerminalOpenOptions → Opening → ℕ → Action
  listens : ℕ → ℕ → Bool → ℕ → Action
  detaches : ℕ → ℕ → Action
  controls : ℕ → Kind → Bool → ℕ → Action
  reaps : ℕ → ℕ → Action
  ends : ℕ → Ending → Action
  writes : ℕ → Bytes → Action

unfoldable pub act : TerminalSessions → Action → TerminalSessions
act s (begins options now) = (prepare_start options now s).1
act s (finishes options opening now) = prepare_finish opening options now s
act s (listens id browser has_snapshot now) = listen id browser has_snapshot now s
act s (detaches id browser) = detach id browser s
act s (controls id kind has_exited now) = control id kind has_exited now s
act s (reaps retention now) = reap retention now s
act s (ends id e) = on_done id e s
act s (writes id chunk) = on_output id chunk s

unfoldable pub act_all : TerminalSessions → List Action → TerminalSessions
act_all s [] = s
act_all s (a ∷ actions) = act_all (act s a) actions

abbrev publishes : Opening → Bool
publishes refused = false
publishes fails_to_start = false
publishes (starts shell title) = true

-- No terminal is published for a tab that has one by then.
unfoldable pub is_apart : TerminalSessions → Action → Bool
is_apart s (begins options now) = true
is_apart s (finishes options opening now) =
    not (publishes opening && is_some (cached (terminal_key options) s.entries))
is_apart s (listens id browser has_snapshot now) = true
is_apart s (detaches id browser) = true
is_apart s (controls id kind has_exited now) = true
is_apart s (reaps retention now) = true
is_apart s (ends id e) = true
is_apart s (writes id chunk) = true

unfoldable pub all_apart : TerminalSessions → List Action → Bool
all_apart s [] = true
all_apart s (a ∷ actions) = is_apart s a && all_apart (act s a) actions

terminate-Indexed : (id : ℕ) (s : TerminalSessions) → Indexed s → Indexed (terminate id s)
unfolding terminate
terminate-Indexed id s h = record {
  there = h.there;
  back = h.back;
  current = h.current;
  fresh = h.fresh;
}

next-Indexed : (s : TerminalSessions) → Indexed s → Indexed (record s { next = suc s.next })
next-Indexed s h = record {
  there = h.there;
  back = h.back;
  current = h.current;
  fresh = λ i k e. omega (arith, h.fresh i k e);
}

attached-Indexed :
    (o : Option ℕ) (now : ℕ) (s : TerminalSessions) → Indexed s → Indexed (attached o now s).1
attached-Indexed none now s h = h
attached-Indexed (some id) now s h = record {
  there = h.there;
  back = h.back;
  current = h.current;
  fresh = h.fresh;
}

prepare_start-Indexed :
    (options : TerminalOpenOptions) (now : ℕ) (s : TerminalSessions)
    → Indexed s
    → Indexed (prepare_start options now s).1
unfolding prepare_start
prepare_start-Indexed options now s h = attached-Indexed _ now _ (
    when-keeps Indexed (drop_terminal (terminal_key options)) options.reopen s
      (λ e. drop_terminal-Indexed (terminal_key options) s) h)

none_of_not_some : (o : Option ℕ) → not (is_some o) ≡ true → o ≡ none
none_of_not_some none e = refl
none_of_not_some (some id) e = cc

prepare_finish-Indexed :
    (options : TerminalOpenOptions) (opening : Opening) (now : ℕ) (s : TerminalSessions)
    → not (publishes opening && is_some (cached (terminal_key options) s.entries)) ≡ true
    → Indexed s
    → Indexed (prepare_finish opening options now s)
unfolding prepare_finish
prepare_finish-Indexed options refused now s e h = h
prepare_finish-Indexed options fails_to_start now s e h =
    terminate-Indexed s.next _ (next-Indexed s h)
prepare_finish-Indexed options (starts shell title) now s e h =
    publish-Indexed options shell title now s (none_of_not_some _ e) h

listened-Indexed :
    (o : Option TerminalEntry) (browser : ℕ) (has_snapshot : Bool) (now : ℕ) (s : TerminalSessions)
    → Indexed s
    → Indexed (listened o browser has_snapshot now s)
listened-Indexed none browser has_snapshot now s h = h
listened-Indexed (some t) browser has_snapshot now s h = record {
  there = h.there;
  back = h.back;
  current = h.current;
  fresh = h.fresh;
}

controlled-Indexed :
    (o : Option Text) (kind : Kind) (id : ℕ) (has_exited : Bool) (now : ℕ) (s : TerminalSessions)
    → Indexed s
    → Indexed (controlled_if o kind id has_exited now s)
unfolding controlled
controlled-Indexed none kind id has_exited now s h = h
controlled-Indexed (some key) (input bytes) id has_exited now s h = record {
  there = h.there;
  back = h.back;
  current = h.current;
  fresh = h.fresh;
}
controlled-Indexed (some key) (resize cols rows) id has_exited now s h = record {
  there = h.there;
  back = h.back;
  current = h.current;
  fresh = h.fresh;
}
controlled-Indexed (some key) (rename title) id has_exited now s h = record {
  there = h.there;
  back = h.back;
  current = h.current;
  fresh = h.fresh;
}
controlled-Indexed (some key) close id has_exited now s h = terminate-Indexed id _ (
    drop_terminal-Indexed key _
      (record { there = h.there; back = h.back; current = h.current; fresh = h.fresh }))

reap_each-Indexed :
    (retention now : ℕ) (listed : Cache ℕ) (s : TerminalSessions)
    → Indexed s
    → Indexed (reap_each retention now listed s)
unfolding reap_each
reap_each-Indexed retention now [] s h = h
reap_each-Indexed retention now ((key, id) ∷ listed) s h =
    reap_each-Indexed retention now listed
      (when (is_idle retention now (object id s.objects)) (λ t. terminate id (drop_terminal key t))
        s)
      (when-keeps Indexed (λ t. terminate id (drop_terminal key t))
        (is_idle retention now (object id s.objects)) s
        (λ e k. terminate-Indexed id _ (drop_terminal-Indexed key s k)) h)

pub act-Indexed :
    (s : TerminalSessions) (a : Action) → is_apart s a ≡ true → Indexed s → Indexed (act s a)
unfolding act listen detach control reap on_done on_output is_apart
act-Indexed s (begins options now) p h = prepare_start-Indexed options now s h
act-Indexed s (finishes options opening now) p h = prepare_finish-Indexed options opening now s p h
act-Indexed s (listens id browser has_snapshot now) p h =
    when-keeps Indexed (λ t. listened (object id t.objects) browser has_snapshot now t)
      (is_some (key_of id s.by_id)) s
      (λ e k. listened-Indexed (object id s.objects) browser has_snapshot now s k) h
act-Indexed s (detaches id browser) p h = record {
  there = h.there;
  back = h.back;
  current = h.current;
  fresh = h.fresh;
}
act-Indexed s (controls id kind has_exited now) p h =
    controlled-Indexed (key_of id s.by_id) kind id has_exited now s h
act-Indexed s (reaps retention now) p h = reap_each-Indexed retention now s.entries s h
act-Indexed s (ends id e) p h = record {
  there = h.there;
  back = h.back;
  current = h.current;
  fresh = h.fresh;
}
act-Indexed s (writes id chunk) p h = record {
  there = h.there;
  back = h.back;
  current = h.current;
  fresh = h.fresh;
}

pub act_all-Indexed :
    (s : TerminalSessions) (actions : List Action)
    → all_apart s actions ≡ true
    → Indexed s
    → Indexed (act_all s actions)
unfolding act_all all_apart
act_all-Indexed s [] p h = h
act_all-Indexed s (a ∷ actions) p h =
    act_all-Indexed (act s a) actions (ground arith) (act-Indexed s a (ground arith) h)

pub none-Indexed : Indexed no_terminals
none-Indexed = record {
  there = λ k i e. absurd (none-ne-some i e);
  back = λ i k e. absurd (none-ne-some k e);
  current = tt;
  fresh = λ i k e. absurd (none-ne-some k e);
}
