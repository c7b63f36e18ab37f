-- ===== src/Mount/Enums.antt =====
-- src/mount-enums.ts: the spellings of mount kinds and modes.
pub mod Laws
use dsh_podman.Prelude.{
  ℕ, suc, List, [], ◌∷◌, Option, none, some, Outcome, ok, throw, if◌then◌else◌, ◌==◌, drop, length,
}
use dsh_podman.Text.{Text, text, ◌===◌, is_empty, starts_with, to_lower_case}
use dsh_podman.Value.{Value, num, str}
use dsh_podman.Dict.{Entries, lookup}

abbrev mount_kinds : Entries
mount_kinds =
    (text "project", text "MOUNT_KIND_PROJECT")
    ∷ (text "tmpfs", text "MOUNT_KIND_TMPFS")
    ∷ (text "volume", text "MOUNT_KIND_VOLUME")
    ∷ (text "secret", text "MOUNT_KIND_SECRET")
    ∷ []

abbrev mount_modes : Entries
mount_modes =
    (text "read_only", text "MOUNT_MODE_READ_ONLY")
    ∷ (text "read_write", text "MOUNT_MODE_READ_WRITE")
    ∷ []

abbrev kind_from_proto : Entries
kind_from_proto =
    (text "MOUNT_KIND_PROJECT", text "project")
    ∷ (text "MOUNT_KIND_TMPFS", text "tmpfs")
    ∷ (text "MOUNT_KIND_VOLUME", text "volume")
    ∷ (text "MOUNT_KIND_SECRET", text "secret")
    ∷ []

abbrev pub mount_kind_order : List Text
mount_kind_order = text "project" ∷ text "volume" ∷ text "secret" ∷ text "tmpfs" ∷ []

-- `list.indexOf(x)`, and the list's length for -1
index_or_length : Text → List Text → ℕ
index_or_length x [] = 0
index_or_length x (y ∷ ys) = if y === x then 0 else suc (index_or_length x ys)

unfoldable pub mount_kind_rank : Text → ℕ
unfolding index_or_length text
mount_kind_rank kind = index_or_length kind mount_kind_order

abbrev mount_kind_names : Entries
mount_kind_names =
    (text "project", text "project")
    ∷ (text "tmpfs", text "tmpfs")
    ∷ (text "volume", text "volume")
    ∷ (text "secret", text "secret")
    ∷ []

abbrev pub Numbers : Type 0
Numbers = List (ℕ × Text)

lookup_number : ℕ → Numbers → Option Text
lookup_number n [] = none
lookup_number n ((m, name) ∷ rest) = if m == n then some name else lookup_number n rest

abbrev mount_kind_numbers : Numbers
mount_kind_numbers =
    (1, text "project") ∷ (2, text "tmpfs") ∷ (3, text "volume") ∷ (4, text "secret") ∷ []

abbrev mount_mode_names : Entries
mount_mode_names =
    (text "read_only", text "read_only") ∷ (text "read_write", text "read_write") ∷ []

abbrev mount_mode_numbers : Numbers
mount_mode_numbers = (1, text "read_only") ∷ (2, text "read_write") ∷ []

abbrev mode_from_proto : Entries
mode_from_proto =
    (text "MOUNT_MODE_READ_ONLY", text "read_only")
    ∷ (text "MOUNT_MODE_READ_WRITE", text "read_write")
    ∷ []

-- The errors that the encoders throw, with the value that each message quotes.
pub data MountError : Type 0 where
  unknown_kind : Text → MountError
  unknown_mode : Option Text → MountError
  project_destination secret_not_read_only : MountError

or_throw : MountError → Option Text → Outcome MountError Text
or_throw e none = throw e
or_throw e (some proto) = ok proto

unfoldable pub mount_kind_to_proto : Option Text → Outcome MountError Text
unfolding or_throw lookup text
mount_kind_to_proto none = ok (text "MOUNT_KIND_PROJECT")
mount_kind_to_proto (some kind) = or_throw (unknown_kind kind) (lookup kind mount_kinds)

unfoldable pub default_mount_mode : Text → Text
default_mount_mode kind = if kind === text "tmpfs" then text "read_write" else text "read_only"

unfoldable pub forced_mount_mode : Text → Option Text
forced_mount_mode kind =
    if kind === text "tmpfs"
    then some (text "read_write")
    else if kind === text "secret"
    then some (text "read_only")
    else none

unfoldable pub mount_mode_to_proto : Option Text → Outcome MountError Text
unfolding or_throw lookup text
mount_mode_to_proto none = throw (unknown_mode none)
mount_mode_to_proto (some mode) = or_throw (unknown_mode (some mode)) (lookup mode mount_modes)

unfoldable pub mount_kind_from_proto : Option Text → Option Text
unfolding lookup text
mount_kind_from_proto none = none
mount_kind_from_proto (some proto) = lookup proto kind_from_proto

unfoldable pub mount_mode_from_proto : Option Text → Option Text
unfolding lookup text
mount_mode_from_proto none = none
mount_mode_from_proto (some proto) = lookup proto mode_from_proto

abbrev or_else : Text → Option Text → Text
or_else fallback none = fallback
or_else fallback (some s) = s

-- `number s` is the value of `Number(s)` where this is an integer at or above 0.
module _ (number : Text → Option ℕ) where
  by_number : Numbers → Text → Option ℕ → Text
  by_number numbers fallback none = fallback
  by_number numbers fallback (some n) = or_else fallback (lookup_number n numbers)

  by_name : Text → Option Text → Numbers → Text → Text
  by_name value none numbers fallback =
      if is_empty value then fallback else by_number numbers fallback (number value)
  by_name value (some name) numbers fallback = name

  -- `to_lower_case` lowers ASCII letters only: no other code unit lowers to a text of the tables.
  unfoldable pub lookup_normalized : Value → Entries → Numbers → Text → Text → Text
  unfolding by_name by_number lookup_number lookup
  lookup_normalized (num n) names numbers prefix fallback =
      or_else fallback (lookup_number n numbers)
  lookup_normalized (str value) names numbers prefix fallback =
      let short =
        if starts_with value prefix
        then to_lower_case (drop (length prefix) value)
        else to_lower_case value in
      by_name value (lookup short names) numbers fallback
  lookup_normalized _ names numbers prefix fallback = fallback

  unfoldable pub normalize_mount_kind : Value → Text
  unfolding lookup_normalized text
  normalize_mount_kind kind =
      lookup_normalized kind mount_kind_names mount_kind_numbers (text "MOUNT_KIND_")
        (text "project")

  unfoldable pub normalize_mount_mode : Value → Text
  unfolding lookup_normalized text
  normalize_mount_mode mode =
      lookup_normalized mode mount_mode_names mount_mode_numbers (text "MOUNT_MODE_")
        (text "read_write")
