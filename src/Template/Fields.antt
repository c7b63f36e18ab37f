-- ===== src/Template/Fields.antt =====
-- src/container-template.ts: reading the fields of a parsed document.
pub mod Laws
use dsh_podman.Prelude.{
  ℕ, zero, suc, ◌+◌, Bool, true, false, List, [], ◌∷◌, ◌++◌, ok, throw, if◌then◌else◌, not, ◌>>=◌,
  ◌>>◌, throw_if,
}
use dsh_podman.Text.{Text, text, ◌===◌, is_empty, includes, has_unit, starts_with, decimal}
use dsh_podman.Value.{Value, undef, str, arr, obj, Fields, items, own_entries}
use dsh_podman.Dict.{Dict, empty, bare, assign}
use dsh_podman.Template.{
  Checked, fail, template_error, unknown_key, expected_string, expected_non_empty_string,
  expected_mapping, expected_list, env_key_empty, env_key_equals, env_key_nul, env_key_reserved,
  env_value_nul, invalid_secret_name,
}
use dsh_podman.Template.Names.{matches_secret}

-- `${path}.${key}`
abbrev pub dotted : Text → Text → Text
dotted path key = path ++ b'.' ∷ key

-- `${path}[${index}]`
abbrev pub indexed : Text → ℕ → Text
indexed path index = path ++ b'[' ∷ (decimal index ++ b']' ∷ [])

pub reject_entries : List (Text × Value) → List Text → Text → Checked (Unit {0})
reject_entries [] allowed path = ok tt
reject_entries ((key, v) ∷ rest) allowed path =
    let others = reject_entries rest allowed path in
    if includes key allowed
    then others
    else fail (unknown_key key) (if is_empty path then key else dotted path key)

unfoldable pub reject_unknown : Fields → List Text → Text → Checked (Unit {0})
unfolding reject_entries
reject_unknown value allowed path = reject_entries (own_entries value) allowed path

unfoldable pub string_value : Value → Text → Checked Text
string_value (str s) path = ok s
string_value _ path = fail expected_string path

unfoldable pub non_empty_string : Value → Text → Checked Text
unfolding string_value
non_empty_string value path = do
  s ← string_value value path
  throw_if (is_empty s) (template_error expected_non_empty_string path)
  ok s

-- The message about "=" names no path.
unfoldable pub env_key : Text → Text → Checked Text
env_key value path = do
  throw_if (is_empty value) (template_error env_key_empty path)
  throw_if (has_unit b'=' value) (template_error (env_key_equals value) [])
  throw_if (has_unit 0 value) (template_error (env_key_nul value) path)
  throw_if (starts_with value (text "DSH_PODMAN")) (template_error (env_key_reserved value) path)
  ok value

-- The check on the value of an environment variable.
unfoldable pub env_value : Value → Text → Checked Text
unfolding string_value
env_value value path = do
  s ← string_value value path
  throw_if (has_unit 0 s) (template_error env_value_nul path)
  ok s

unfoldable pub secret_name : Value → Text → Checked Text
unfolding non_empty_string
secret_name value path = do
  name ← non_empty_string value path
  throw_if (not (matches_secret name)) (template_error (invalid_secret_name name) path)
  ok name

module _ (key_check : Text → Text → Checked Text) (value_check : Value → Text → Checked Text) where
  pub string_map_from : Dict → List (Text × Value) → Text → Checked Dict
  string_map_from result [] path = ok result
  string_map_from result ((key, item) ∷ rest) path = do
    checked_key ← key_check key (dotted path key)
    checked_item ← value_check item (dotted path key)
    string_map_from (assign checked_key checked_item result) rest path

  unfoldable pub string_map : Value → Text → Checked Dict
  unfolding string_map_from
  string_map undef path = ok empty
  string_map (obj value) path = string_map_from bare (own_entries value) path
  string_map _ path = fail expected_mapping path

module _ {T : Type 0} (parse_item : Value → Text → Checked T) where
  pub parse_from : ℕ → List Value → Text → Checked (List T)
  parse_from index [] path = ok []
  parse_from index (v ∷ vs) path = do
    item ← parse_item v (indexed path index)
    others ← parse_from (index + 1) vs path
    ok (item ∷ others)

  unfoldable pub parse_list : Value → Text → Checked (List T)
  unfolding parse_from
  parse_list undef path = ok []
  parse_list (arr vs) path = parse_from 0 (items vs) path
  parse_list _ path = fail expected_list path
