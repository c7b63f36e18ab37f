-- ===== src/Env/Rows.antt =====
-- src/env-rows.ts: the rows of the environment editors.
use dsh_podman.Prelude.{
  ℕ, ◌+◌, Bool, true, List, [], ◌∷◌, Option, none, some, if◌then◌else◌, not, map, filter,
}
use dsh_podman.Prelude.Sort.{sort}
use dsh_podman.Text.{Text, ◌===◌, is_empty, includes, text_le}
use dsh_podman.Dict.{Dict, Entries, put, put_all}

-- `to_lower_case` is the method toLowerCase of strings, on any code unit.
module _ (to_lower_case : Text → Text) where
  -- The comparator of `orderedEnvEntries`.
  unfoldable pub env_le : Text × Text → Text × Text → Bool
  env_le (left, v) (right, w) =
      let a = to_lower_case left in
      let b = to_lower_case right in if a === b then text_le left right else text_le a b

  unfoldable pub ordered_env_entries : Dict → Entries
  unfolding env_le sort
  ordered_env_entries env = sort env_le env.entries

pub record EnvEditRow : Type 0 where
  pub id : ℕ
  pub key : Text
  pub value : Text

-- `nextEnvRowId` is the state: the rows, and the next id.
rows_from : ℕ → Entries → List EnvEditRow × ℕ
rows_from next [] = ([], next)
rows_from next ((key, value) ∷ rest) =
    let (rows, after) = rows_from (next + 1) rest in
    (record { id = next; key = key; value = value } ∷ rows, after)

unfoldable pub env_edit_rows : (Text → Text) → Dict → ℕ → List EnvEditRow × ℕ
unfolding rows_from ordered_env_entries
env_edit_rows to_lower_case env next = rows_from next (ordered_env_entries to_lower_case env)

unfoldable pub empty_env_row : ℕ → EnvEditRow × ℕ
empty_env_row next = (record { id = next; key = []; value = [] }, next + 1)

-- `Object.fromEntries`, which defines each key, `__proto__` too
from_entries : Entries → Dict
from_entries es = record { inherits = true; entries = put_all [] es }

unfoldable pub ordered_env_record : (Text → Text) → Dict → Dict
unfolding from_entries put_all put
ordered_env_record to_lower_case env = from_entries (ordered_env_entries to_lower_case env)

unfoldable pub env_record_from_rows : List EnvEditRow → Dict
unfolding from_entries put_all put
env_record_from_rows rows =
    from_entries (map (λ r. (r.key, r.value)) (filter (λ r. not (is_empty r.key)) rows))

conflicts_from : List Text → List Text → List Text
conflicts_from seen [] = []
conflicts_from seen (name ∷ rest) =
    let conflicts = name ∷ conflicts_from seen rest in
    let others = conflicts_from (name ∷ seen) rest in
    if is_empty name then conflicts else if includes name seen then conflicts else others

-- The set of the conflicting names, as the list in which a name may stand more than once.
unfoldable pub conflicting_env_names : List Text → List Text
unfolding conflicts_from
conflicting_env_names names = conflicts_from [] names

duplicate_from : List Text → List Text → Option Text
duplicate_from seen [] = none
duplicate_from seen (name ∷ rest) =
    let skipped = duplicate_from seen rest in
    let others = duplicate_from (name ∷ seen) rest in
    if is_empty name then skipped else if includes name seen then some name else others

unfoldable pub first_duplicate_env_name : List Text → Option Text
unfolding duplicate_from
first_duplicate_env_name names = duplicate_from [] names
