-- ===== src/Template/Naming.antt =====
-- src/container-template.ts: the deterministic image id of a template.
pub mod Laws
use dsh_podman.Prelude.{
  ℕ, ◌+◌, ◌-◌, ◌/◌, ◌%◌, Bool, true, false, List, [], ◌∷◌, ◌++◌, ok, if◌then◌else◌, not, ◌||◌, ◌&&◌,
  ◌==◌, ltb, take,
}
use dsh_podman.Text.{Text, text, ◌===◌, is_empty, to_lower_case}
use dsh_podman.Template.{Checked, fail, no_image_id}
use dsh_podman.Template.Names.{is_alphanumeric, is_name_unit, matches_image_id}

-- `name.replace(/\.(ya?ml)$/i, "")`
strip_extension : Text → Text
strip_extension [] = []
strip_extension (x ∷ s) =
    let rest = strip_extension s in
    if to_lower_case (x ∷ s) === text ".yml" || to_lower_case (x ∷ s) === text ".yaml"
    then []
    else x ∷ rest

-- `.replace(/[^A-Za-z0-9_.-]+/g, "-")`; the flag tells that the last unit was replaced too.
dash_runs : Bool → Text → Text
dash_runs in_run [] = []
dash_runs in_run (x ∷ s) =
    let kept = x ∷ dash_runs false s in
    let rest = dash_runs true s in
    if is_name_unit x then kept else if in_run then rest else b'-' ∷ rest

abbrev pub is_id_head : ℕ → Bool
is_id_head c = is_alphanumeric c || c == b'_'

-- `.replace(/^[^A-Za-z0-9_]+/, "")`
strip_start : Text → Text
strip_start [] = []
strip_start (x ∷ s) = let rest = strip_start s in if is_id_head x then x ∷ s else rest

-- `.replace(/[.-]+$/g, "")`
strip_dashes : Text → Text
strip_dashes [] = []
strip_dashes (x ∷ s) =
    let rest = strip_dashes s in if is_empty rest && (x == b'.' || x == b'-') then [] else x ∷ rest

unfoldable pub sanitized_template_name : Text → Text
unfolding strip_extension dash_runs strip_start strip_dashes to_lower_case
sanitized_template_name name =
    let sanitized = strip_dashes (strip_start (dash_runs false (strip_extension name))) in
    take 40 (if is_empty sanitized then text "template" else sanitized)

unfoldable pub template_image_id_from_digest : Text → Text → Checked Text
template_image_id_from_digest name digest =
    let id =
      text "template-" ++ sanitized_template_name name ++ b'-' ∷ to_lower_case (take 8 digest) in
    if not (matches_image_id id) then fail (no_image_id name) [] else ok id

hex_digit : ℕ → ℕ
hex_digit n = if ltb n 10 then b'0' + n else b'a' + n - 10

-- `byte.toString(16).padStart(2, "0")` for each byte, joined
unfoldable pub hex : List ℕ → Text
unfolding hex_digit
hex [] = []
hex (byte ∷ bytes) = hex_digit (byte / 16) ∷ hex_digit (byte % 16) ∷ hex bytes

-- `sha256` is the Web Crypto digest of the UTF-8 bytes of a text.
unfoldable pub template_image_id : (sha256 : Text → List ℕ) → Text → Text → Checked Text
template_image_id sha256 name absolute_path =
    template_image_id_from_digest name (hex (sha256 absolute_path))
