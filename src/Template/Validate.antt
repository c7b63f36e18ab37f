-- ===== src/Template/Validate.antt =====
-- src/container-template.ts: `validateTemplate`, on the value that the YAML document holds.
pub mod Laws
use dsh_podman.Prelude.{
  ℕ, Bool, true, false, List, [], ◌∷◌, Option, none, some, ok, throw, if◌then◌else◌, not, ◌>>=◌,
  ◌>>◌, throw_if, ◌||◌, ◌&&◌, ◌==◌, any, filter,
}
use dsh_podman.Text.{Text, text, ◌===◌, includes}
use dsh_podman.Value.{Value, undef, null, str, num, arr, obj, Fields, get, items}
use dsh_podman.Dict.{Dict, has_in, keys}
use dsh_podman.Env.Defaults.{git_identity_keys}
use dsh_podman.Template.{
  Checked, fail, template_error, BaseImage, base_image, TemplateImage, ContainerTemplateSpec,
  ContainerTemplate, expected_mapping, document_is_no_mapping, expected_list, unsupported_version,
  unsupported_kind, unsupported_base, image_and_template, image_or_template, env_and_secret_env,
}
use dsh_podman.Template.Packages.{canonical_packages}
use dsh_podman.Template.Fields.{
  reject_unknown, env_key, env_value, secret_name, string_map, parse_list,
}
use dsh_podman.Template.Items.{require, parse_mount, parse_port, parse_path}

-- The Git identity variables are dropped; a map without them is returned as it is.
unfoldable pub without_git_identity : Dict → Dict
without_git_identity d =
    if any (λ key. includes key git_identity_keys) (keys d.entries)
    then record {
      inherits = false;
      entries = filter (λ e. not (includes e.0 git_identity_keys)) d.entries;
    }
    else d

mapping : Value → Text → Checked Fields
mapping (obj fields) path = ok fields
mapping _ path = fail expected_mapping path

document_of : Value → Checked Fields
document_of (obj fields) = ok fields
document_of _ = fail document_is_no_mapping []

check_version : Value → Checked (Unit {0})
check_version (num n) =
    if n == 1 then ok tt else fail (unsupported_version (num n)) (text "version")
check_version value = fail (unsupported_version value) (text "version")

check_kind : Value → Checked (Unit {0})
check_kind (str kind) =
    if kind === text "dsh-podman/container-template"
    then ok tt
    else fail (unsupported_kind (str kind)) (text "kind")
check_kind value = fail (unsupported_kind value) (text "kind")

-- `value !== undefined && value !== null`
abbrev is_present : Value → Bool
is_present undef = false
is_present null = false
is_present _ = true

named_base : Value → Option BaseImage
named_base (str name) = base_image name
named_base _ = none

base_of : Value → Text → Checked BaseImage
base_of value path = require (named_base value) (template_error (unsupported_base value) path)

list_of : Value → Text → Checked (List Value)
list_of (arr vs) path = ok (items vs)
list_of _ path = fail expected_list path

-- A list that only repeats the built-in packages refers to the base image.
image_with : BaseImage → List Text → Option BaseImage × Option TemplateImage
image_with base [] = (some base, none)
image_with base (p ∷ ps) = (none, some (record { base = base; packages = p ∷ ps }))

from_image : Fields → Checked (Option BaseImage × Option TemplateImage)
from_image spec = do
  base ← base_of (get (text "image") spec) (text "spec.image")
  ok (some base, none)

from_template : Fields → Checked (Option BaseImage × Option TemplateImage)
from_template spec = do
  value ← mapping (get (text "imageTemplate") spec) (text "spec.imageTemplate")
  reject_unknown value (text "base" ∷ text "packages" ∷ []) (text "spec.imageTemplate")
  base ← base_of (get (text "base") value) (text "spec.imageTemplate.base")
  given ← list_of (get (text "packages") value) (text "spec.imageTemplate.packages")
  packages ← canonical_packages base given
  ok (image_with base packages)

-- `image` and `imageTemplate` of the result: one of the two.
image_of : Fields → Checked (Option BaseImage × Option TemplateImage)
image_of spec = do
  let has_image = is_present (get (text "image") spec)
  let has_template = is_present (get (text "imageTemplate") spec)
  throw_if (has_image && has_template) (template_error image_and_template (text "spec"))
  throw_if (not has_image && not has_template) (template_error image_or_template (text "spec"))
  if has_image then from_image spec else from_template spec

-- A variable is not both an env and a secret env variable. `in` also finds what the map inherits.
check_disjoint : Dict → List Text → Checked (Unit {0})
check_disjoint env [] = ok tt
check_disjoint env (key ∷ rest) =
    let others = check_disjoint env rest in
    if has_in key env then fail (env_and_secret_env key) (text "spec") else others

spec_of : Fields → Checked ContainerTemplate
spec_of spec = do
  images ← image_of spec
  given_env ← string_map env_key env_value (get (text "env") spec) (text "spec.env")
  let env = without_git_identity given_env
  given_secret_env ←
      string_map env_key secret_name (get (text "secretEnv") spec) (text "spec.secretEnv")
  let secret_env = without_git_identity given_secret_env
  check_disjoint env (keys secret_env.entries)
  mounts ← parse_list parse_mount (get (text "mounts") spec) (text "spec.mounts")
  paths ← parse_list parse_path (get (text "paths") spec) (text "spec.paths")
  ports ← parse_list parse_port (get (text "ports") spec) (text "spec.ports")
  ok (record {
    spec = record {
      image = images.0;
      image_template = images.1;
      env = env;
      secret_env = secret_env;
      mounts = mounts;
      paths = paths;
      ports = ports;
    };
  })

unfoldable pub validate_template : Value → Checked ContainerTemplate
unfolding document_of mapping check_version check_kind spec_of image_of from_image from_template
    base_of named_base list_of image_with check_disjoint
validate_template raw = do
  document ← document_of raw
  reject_unknown document (text "version" ∷ text "kind" ∷ text "spec" ∷ []) []
  check_version (get (text "version") document)
  check_kind (get (text "kind") document)
  spec ← mapping (get (text "spec") document) (text "spec")
  reject_unknown spec
      (text "image"
        ∷ text "imageTemplate"
        ∷ text "env"
        ∷ text "secretEnv"
        ∷ text "mounts"
        ∷ text "paths"
        ∷ text "ports"
        ∷ [])
      (text "spec")
  spec_of spec
