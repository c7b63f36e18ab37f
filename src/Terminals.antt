-- ===== src/Terminals.antt =====
-- src/terminal-sessions.ts: the terminals that are kept while the browser is away.
-- An entry is an object that both maps share: it stands in `objects`, by its number, which is the
-- model's terminal id. A call of `prepare` awaits the binding, the shell and the start of the guest
-- terminal after it has looked for the tab, so that it is two steps, and other calls may come between.
pub mod Indexes
pub mod Runs
pub mod Kept
pub mod Lost
pub mod Reopened
pub mod Overlaps
use dsh_podman.Prelude.{
  ℕ, suc, ◌+◌, Bool, true, false, List, [], ◌∷◌, ◌++◌, Option, none, some, if◌then◌else◌, when, not,
  ◌&&◌, ◌||◌, ◌==◌, ltb, filter, map, find?, any,
}
use dsh_podman.Text.{Text, text, ◌===◌}
use dsh_podman.Output.{Bytes, is_some}
use dsh_podman.Binding.Cache.{Cache, cached, drop_key}

pub record TerminalOpenOptions : Type 0 where
  pub session_id : Text
  pub tab_id : Text
  pub workspace : Text
  pub container : Text
  pub reopen : Bool

pub data Ending : Type 0 where
  exit : Option ℕ → Option Text → Ending
  failure : Text → Ending

pub record TerminalEntry : Type 0 where
  pub terminal_id : ℕ
  pub session_id : Text
  pub tab_id : Text
  pub workspace : Text
  pub container : Text
  pub shell : Text
  pub title : Text
  pub last_used : ℕ
  pub listener : Option ℕ
  pub ending : Option Ending

pub data TerminalFrame : Type 0 where
  ready : ℕ → Bool → TerminalFrame
  snapshot : TerminalFrame
  output_data : Bytes → TerminalFrame
  ended : Ending → TerminalFrame
  titled : Text → TerminalFrame
  detached : TerminalFrame

pub data GuestCall : Type 0 where
  wrote : ℕ → Bytes → GuestCall
  resized : ℕ → ℕ → ℕ → GuestCall
  terminated : ℕ → GuestCall

-- The map from terminal ids to the keys of their entries.
abbrev pub Ids : Type 0
Ids = List (ℕ × Text)

abbrev pub key_of : ℕ → Ids → Option Text
key_of id [] = none
key_of id ((i, key) ∷ ids) = if i == id then some key else key_of id ids

abbrev pub drop_id : ℕ → Ids → Ids
drop_id id ids = filter (λ e. not (e.0 == id)) ids

-- The two maps, the entries, and what the guests and the browsers were sent, the newest first.
pub record TerminalSessions : Type 0 where
  pub entries : Cache ℕ
  pub by_id : Ids
  pub objects : List TerminalEntry
  pub next : ℕ
  pub guest : List GuestCall
  pub frames : List (ℕ × TerminalFrame)

abbrev pub no_terminals : TerminalSessions
no_terminals = record { entries = []; by_id = []; objects = []; next = 0; guest = []; frames = [] }

-- A change of the entry with an id.
abbrev pub update : ℕ → (TerminalEntry → TerminalEntry) → List TerminalEntry → List TerminalEntry
update id f objects = map (λ t. if t.terminal_id == id then f t else t) objects

abbrev pub object : ℕ → List TerminalEntry → Option TerminalEntry
object id objects = find? (λ t. t.terminal_id == id) objects

abbrev pub dropped : Option ℕ → Text → TerminalSessions → TerminalSessions
dropped none key s = s
dropped (some id) key s = record s { entries = drop_key key s.entries; by_id = drop_id id s.by_id }

-- `drop`: out of both maps, with no word to the guest.
unfoldable pub drop_terminal : Text → TerminalSessions → TerminalSessions
drop_terminal key s = dropped (cached key s.entries) key s

unfoldable pub terminate : ℕ → TerminalSessions → TerminalSessions
terminate id s = record s { guest = terminated id ∷ s.guest }

-- How the opening of a guest terminal goes: it is refused before one is made, its start fails, or
-- it starts, with the path and the name of the shell that `requireShell` found.
pub data Opening : Type 0 where
  refused : Opening
  fails_to_start : Opening
  starts : Text → Text → Opening

abbrev pub terminal_key : TerminalOpenOptions → Text
terminal_key options = options.session_id ++ 10 ∷ options.tab_id

-- `entries.set(key, entry)`: an entry that is replaced keeps its place.
abbrev pub set_entry : Text → ℕ → Cache ℕ → Cache ℕ
set_entry key id [] = (key, id) ∷ []
set_entry key id ((k, i) ∷ entries) =
    let rest = set_entry key id entries in if k === key then (k, id) ∷ entries else (k, i) ∷ rest

unfoldable pub publish : TerminalOpenOptions → Text → Text → ℕ → TerminalSessions → TerminalSessions
publish options shell title now s = record s {
  entries = set_entry (terminal_key options) s.next s.entries;
  by_id = (s.next, terminal_key options) ∷ s.by_id;
  objects =
      record {
        terminal_id = s.next;
        session_id = options.session_id;
        tab_id = options.tab_id;
        workspace = options.workspace;
        container = options.container;
        shell = shell;
        title = title;
        last_used = now;
        listener = none;
        ending = none;
      }
      ∷ s.objects;
  next = suc s.next;
}

abbrev pub attached : Option ℕ → ℕ → TerminalSessions → Option ℕ × TerminalSessions
attached none now s = (none, s)
attached (some id) now s =
    (some id, record s { objects = update id (λ t. record t { last_used = now }) s.objects })

-- `prepare` up to its first await: the terminal that it attaches to, if there is one.
unfoldable pub prepare_start :
    TerminalOpenOptions → ℕ → TerminalSessions → Option ℕ × TerminalSessions
prepare_start options now s =
    let kept = when options.reopen (drop_terminal (terminal_key options)) s in
    attached (cached (terminal_key options) kept.entries) now kept

-- `prepare` where it found no terminal, once all that it awaits is there.
unfoldable pub prepare_finish :
    Opening → TerminalOpenOptions → ℕ → TerminalSessions → TerminalSessions
prepare_finish refused options now s = s
prepare_finish fails_to_start options now s = terminate s.next (record s { next = suc s.next })
prepare_finish (starts shell title) options now s = publish options shell title now s

abbrev pub tell : Option ℕ → TerminalFrame → List (ℕ × TerminalFrame)
tell none frame = []
tell (some browser) frame = (browser, frame) ∷ []

abbrev pub ending_frames : ℕ → Option Ending → List (ℕ × TerminalFrame)
ending_frames browser none = []
ending_frames browser (some e) = (browser, ended e) ∷ []

-- What a new listener and the one before it are sent, the newest first.
abbrev pub listen_frames : ℕ → Bool → TerminalEntry → List (ℕ × TerminalFrame)
listen_frames browser has_snapshot t =
    ending_frames browser t.ending
    ++ ((if has_snapshot then (browser, snapshot) ∷ [] else [])
        ++ ((browser, ready t.terminal_id has_snapshot) ∷ tell t.listener detached))

abbrev pub listened : Option TerminalEntry → ℕ → Bool → ℕ → TerminalSessions → TerminalSessions
listened none browser has_snapshot now s = s
listened (some t) browser has_snapshot now s = record s {
  objects =
      update t.terminal_id (λ u. record u { listener = some browser; last_used = now }) s.objects;
  frames = listen_frames browser has_snapshot t ++ s.frames;
}

unfoldable pub listen : ℕ → ℕ → Bool → ℕ → TerminalSessions → TerminalSessions
listen id browser has_snapshot now s =
    when (is_some (key_of id s.by_id))
      (λ t. listened (object id t.objects) browser has_snapshot now t) s

abbrev pub without_listener : ℕ → TerminalEntry → TerminalEntry
without_listener browser t = elim t.listener [
  | none ↦ t
  | some current ↦ if current == browser then record t { listener = none } else t
]

-- The detach function that `listen` returns, on the entry that it closed over.
unfoldable pub detach : ℕ → ℕ → TerminalSessions → TerminalSessions
detach id browser s = record s { objects = update id (without_listener browser) s.objects }

pub data Kind : Type 0 where
  input : Bytes → Kind
  resize : ℕ → ℕ → Kind
  rename : Text → Kind
  close : Kind

abbrev pub listener_of : Option TerminalEntry → Option ℕ
listener_of none = none
listener_of (some t) = t.listener

-- One control request, for a terminal of a key that is still listed.
unfoldable pub controlled : Kind → ℕ → Text → Bool → TerminalSessions → TerminalSessions
controlled (input bytes) id key has_exited s = record s {
  guest = if has_exited then s.guest else wrote id bytes ∷ s.guest;
}
controlled (resize cols rows) id key has_exited s = record s {
  guest = if has_exited then s.guest else resized id cols rows ∷ s.guest;
}
controlled (rename title) id key has_exited s = record s {
  objects = update id (λ t. record t { title = title }) s.objects;
  frames = tell (listener_of (object id s.objects)) (titled title) ++ s.frames;
}
controlled close id key has_exited s = terminate id (drop_terminal key s)

abbrev pub controlled_if : Option Text → Kind → ℕ → Bool → ℕ → TerminalSessions → TerminalSessions
controlled_if none kind id has_exited now s = s
controlled_if (some key) kind id has_exited now s =
    controlled kind id key has_exited
      (record s { objects = update id (λ t. record t { last_used = now }) s.objects })

unfoldable pub control : ℕ → Kind → Bool → ℕ → TerminalSessions → TerminalSessions
control id kind has_exited now s = controlled_if (key_of id s.by_id) kind id has_exited now s

-- `done` and `onOutput` of the guest terminal, on the entry.
unfoldable pub on_done : ℕ → Ending → TerminalSessions → TerminalSessions
on_done id e s = record s {
  objects = update id (λ t. record t { ending = some e }) s.objects;
  frames = tell (listener_of (object id s.objects)) (ended e) ++ s.frames;
}

unfoldable pub on_output : ℕ → Bytes → TerminalSessions → TerminalSessions
on_output id chunk s = record s {
  frames = tell (listener_of (object id s.objects)) (output_data chunk) ++ s.frames;
}

-- No browser listens, and the last use is before the retention window.
abbrev pub is_idle : ℕ → ℕ → Option TerminalEntry → Bool
is_idle retention now none = false
is_idle retention now (some t) = not (is_some t.listener) && ltb (t.last_used + retention) now

unfoldable pub reap_each : ℕ → ℕ → Cache ℕ → TerminalSessions → TerminalSessions
reap_each retention now [] s = s
reap_each retention now ((key, id) ∷ rest) s =
    reap_each retention now rest (
      when (is_idle retention now (object id s.objects)) (λ t. terminate id (drop_terminal key t))
        s)

unfoldable pub reap : ℕ → ℕ → TerminalSessions → TerminalSessions
reap retention now s = reap_each retention now s.entries s

unfoldable pub dispose_each : Cache ℕ → TerminalSessions → TerminalSessions
dispose_each [] s = s
dispose_each ((key, id) ∷ rest) s =
    dispose_each rest
      (terminate id (record s { entries = drop_key key s.entries; by_id = drop_id id s.by_id }))

unfoldable pub dispose : TerminalSessions → TerminalSessions
dispose s = dispose_each s.entries s

unfoldable pub retained : Text → TerminalSessions → List (Option TerminalEntry)
retained session_id s =
    filter (λ o. elim o [ none ↦ false | some t ↦ t.session_id === session_id ])
      (map (λ e. object e.1 s.objects) s.entries)
