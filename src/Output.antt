-- ===== src/Output.antt =====
-- src/output-reader.ts: the bounded tail of a process's output, and its spill file.
-- A buffer is the list of its bytes. The array `chunks` is `dead` followed by `live`, and the index
-- `head` is the length of `dead`.
pub mod Laws
pub mod Runs
use dsh_podman.Prelude.{
  ℕ, ◌+◌, ◌-◌, ◌*◌, Bool, true, false, List, [], ◌∷◌, ◌++◌, Option, none, some, if◌then◌else◌, not,
  ◌&&◌, ◌||◌, ◌==◌, leb, ltb, length, drop,
}
use dsh_podman.Text.{Text}
use dsh_podman.Dict.{Entries}

abbrev pub Bytes : Type 0
Bytes = List ℕ

pub record SpillSpec : Type 0 where
  pub path : Text
  pub max_bytes : ℕ

pub record OutputReader : Type 0 where
  pub max_bytes : ℕ
  pub spill : Option SpillSpec
  pub total : ℕ
  pub dead : List Bytes
  pub live : List Bytes
  pub retained : ℕ
  pub spill_valid : Bool

abbrev pub is_some {ℓ} : {A : Type ℓ} → Option A → Bool
is_some none = false
is_some (some a) = true

-- The reader of a collect mode whose cap is a number at or above 0.
unfoldable pub output_reader : ℕ → Option SpillSpec → OutputReader
output_reader max_bytes spill = record {
  max_bytes = max_bytes;
  spill = spill;
  total = 0;
  dead = [];
  live = [];
  retained = 0;
  spill_valid = is_some spill;
}

-- `Buffer.concat`
abbrev pub concat : List Bytes → Bytes
concat [] = []
concat (chunk ∷ chunks) = chunk ++ concat chunks

-- The chunks and the count of bytes between two rounds of the loop that trims.
pub record Window : Type 0 where
  pub dead : List Bytes
  pub live : List Bytes
  pub retained : ℕ

unfoldable pub trim : ℕ → List Bytes → ℕ → List Bytes → Window
trim excess dead retained [] = record { dead = dead; live = []; retained = retained }
trim excess dead retained (first ∷ rest) =
    let dropped =
      trim (excess - length first) (dead ++ first ∷ []) (retained - length first) rest in
    if excess == 0
    then record { dead = dead; live = first ∷ rest; retained = retained }
    else if leb (length first) excess
    then dropped
    else record { dead = dead; live = drop excess first ∷ rest; retained = retained - excess }

-- The prefix of dropped buffers goes when it is long.
unfoldable pub compact : Window → Window
compact w =
    if ltb 32 (length w.dead) && leb (length w.dead + length w.live) (length w.dead * 2)
    then record w { dead = [] }
    else w

with_window : OutputReader → Window → OutputReader
with_window r w = record r { dead = w.dead; live = w.live; retained = w.retained }

unfoldable pub append : OutputReader → Bytes → OutputReader
unfolding with_window
append r chunk =
    let counted = record r { total = r.total + length chunk } in
    let retained = r.retained + length chunk in
    if r.max_bytes == 0 || length chunk == 0
    then counted
    else with_window counted
        (compact (trim (retained - r.max_bytes) r.dead retained (r.live ++ chunk ∷ [])))

unfoldable pub set_spill_valid : OutputReader → Bool → OutputReader
set_spill_valid r valid = record r { spill_valid = valid }

pub record Reading : Type 0 where
  pub bytes : Bytes
  pub next_offset : ℕ
  pub lossy : Bool
  pub spill_path : Option Text

-- The file that holds the whole stream, where it can still hold it.
unfoldable pub advertised : Option SpillSpec → Bool → ℕ → Option Text
advertised none valid total = none
advertised (some spill) valid total =
    if valid && leb total spill.max_bytes then some spill.path else none

-- `readFrom` at an offset that is a number at or above 0 (any other reads as 0). The bytes are
-- those that the text of the result is decoded from.
unfoldable pub read_from : OutputReader → ℕ → Reading
read_from r requested =
    let start = r.total - r.retained in
    let lossy = ltb requested start in
    record {
      bytes = drop (requested - start) (concat r.live);
      next_offset = r.total;
      lossy = lossy;
      spill_path = if lossy then advertised r.spill r.spill_valid r.total else none;
    }

unfoldable pub spill_needed : OutputReader → Bool
spill_needed r = ltb r.max_bytes r.total

path_of : Option SpillSpec → Option Text
path_of none = none
path_of (some spill) = some spill.path

unfoldable pub spill_path : OutputReader → Option Text
unfolding path_of
spill_path r = path_of r.spill

-- The file that is deleted, if one is.
unfoldable pub discard_unneeded_spill : Option OutputReader → Option Text
discard_unneeded_spill none = none
discard_unneeded_spill (some r) = let path = spill_path r in if spill_needed r then none else path

-- `splitEnv` of an object: the entries that are set, and the names whose value is undefined.
unfoldable pub split_env : List (Text × Option Text) → Entries × List Text
split_env [] = ([], [])
split_env ((key, value) ∷ rest) =
    let (set, unset) = split_env rest in
    elim value [ none ↦ (set, key ∷ unset) | some s ↦ ((key, s) ∷ set, unset) ]
