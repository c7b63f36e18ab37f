-- ===== src/Fs.antt =====
-- src/fs-key.ts and src/fs-guard.ts: the key of a guest path, and the guard on stale versions.
pub mod Laws
use dsh_podman.Prelude.{
  Bool, true, false, List, [], ◌∷◌, ◌++◌, Option, none, some, if◌then◌else◌, ◌||◌,
}
use dsh_podman.Text.{Text, text, ◌===◌, is_empty, starts_with, split, join}

-- `segments.pop()`
abbrev pub pop : List Text → List Text
pop [] = []
pop (segment ∷ []) = []
pop (segment ∷ next ∷ segments) = segment ∷ pop (next ∷ segments)

abbrev pub is_void : Text → Bool
is_void segment = is_empty segment || segment === text "."

-- One round of the loop, on the segments pushed so far.
abbrev pub push : List Text → Text → List Text
push segments segment =
    if is_void segment
    then segments
    else if segment === text ".."
    then pop segments
    else segments ++ segment ∷ []

unfoldable pub collapse : List Text → List Text → List Text
collapse segments [] = segments
collapse segments (segment ∷ rest) = collapse (push segments segment) rest

abbrev pub keyed : Bool → Text → Text
keyed true joined = 47 ∷ joined
keyed false joined = if is_empty joined then text "." else joined

unfoldable pub normalize_fs_key : Text → Text
normalize_fs_key path = keyed (starts_with path (text "/")) (join 47 (collapse [] (split 47 path)))

pub data FsGuardDecision : Type 0 where
  unchanged : FsGuardDecision
  stale : FsGuardDecision
  missing : FsGuardDecision

unfoldable pub guard_decision : Option Text → Option Text → FsGuardDecision
guard_decision expected none = missing
guard_decision none (some current) = unchanged
guard_decision (some expected) (some current) = if expected === current then unchanged else stale
