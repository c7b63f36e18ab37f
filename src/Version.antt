-- ===== src/Version.antt =====
-- src/version-compat.ts: how the version of the plugin compares with that of the orchestrator.
pub mod Laws
use dsh_podman.Prelude.{
  ℕ, Bool, true, false, List, [], ◌∷◌, ◌++◌, Option, none, some, if◌then◌else◌, not, ◌&&◌, ◌==◌,
  leb,
}
use dsh_podman.Text.{Text, ◌===◌, is_empty}

pub data VersionState : Type 0 where
  compatible minor_mismatch major_mismatch : VersionState

abbrev pub is_digit : ℕ → Bool
is_digit c = leb b'0' c && leb c b'9'

-- The digits at the start of a text, and the rest of it.
unfoldable pub digits : Text → Text × Text
digits [] = ([], [])
digits (c ∷ s) = let (ds, rest) = digits s in if is_digit c then (c ∷ ds, rest) else ([], c ∷ s)

-- `/^(\d+)\.(\d+)\.(\d+)/`: the three parts.
third_part : Text → Text → Text × Text → Option (Text × Text × Text)
third_part a b (c, rest) = if is_empty c then none else some (a, b, c)

second_part : Text → Text × Text → Option (Text × Text × Text)
unfolding third_part digits
second_part a (b, []) = none
second_part a (b, c ∷ rest) =
    if not (is_empty b) && c == b'.' then third_part a b (digits rest) else none

first_part : Text × Text → Option (Text × Text × Text)
unfolding second_part
first_part (a, []) = none
first_part (a, c ∷ rest) =
    if not (is_empty a) && c == b'.' then second_part a (digits rest) else none

unfoldable pub version_parts : Text → Option (Text × Text × Text)
unfolding first_part digits
version_parts value = first_part (digits value)

joined : Option (Text × Text × Text) → Text
joined none = []
joined (some (a, b, c)) = a ++ b'.' ∷ (b ++ b'.' ∷ c)

unfoldable pub core : Text → Text
unfolding joined version_parts
core value = joined (version_parts value)

-- `s.slice(0, s.indexOf("."))` of a text that has a dot.
unfoldable pub before_dot : Text → Text
before_dot [] = []
before_dot (c ∷ s) = let rest = before_dot s in if c == b'.' then [] else c ∷ rest

same_major : Option ℕ → Option ℕ → Bool
same_major none none = true
same_major (some a) (some b) = a == b
same_major (some a) none = false
same_major none (some b) = false

-- `number` is the JavaScript function Number on digits.
module _ (number : Text → ℕ) where
  -- `none` stands for -1, which no digits give.
  unfoldable pub major : Text → Option ℕ
  unfolding core before_dot
  major value =
      let parsed = core value in if is_empty parsed then none else some (number (before_dot parsed))

  unfoldable pub version_state : Text → Text → VersionState
  unfolding major same_major
  version_state plugin orchestrator =
      let orchestrator_core = core orchestrator in
      let plugin_core = core plugin in
      if is_empty orchestrator_core
      then compatible
      else if is_empty plugin_core
      then major_mismatch
      else if not (same_major (major plugin) (major orchestrator))
      then major_mismatch
      else if plugin_core === orchestrator_core
      then compatible
      else minor_mismatch
