-- ===== src/Tests/Templates.antt =====
-- A document is read, and the requirements and mounts of the template that it holds.
use dsh_podman.Prelude.{
  arith, ◌≡◌, ◌⊎◌, refl, true, false, if◌then◌else◌, ℕ, [], ◌∷◌, List, Option, none, some, ok,
  throw,
}
use dsh_podman.Prelude.Sort.{insert, sort}
use dsh_podman.Text.{
  Text, to_lower_case, lower_unit, text, ◌===◌, includes, has_unit, starts_with, join, split,
  text_le,
}
use dsh_podman.Value.{str, obj, end, field, prototype_names, get, has_key, own_entries}
use dsh_podman.Dict.{lookup, assign, has_in, put}
use dsh_podman.Mount.Enums.{normalize_mount_mode, lookup_normalized, default_mount_mode}
use dsh_podman.Segments.{resolve, resolve_from, resolve_path}
use dsh_podman.Template.{base_image}
use dsh_podman.Template.Names.{valid_package_name, matches_package, matches_secret}
use dsh_podman.Template.Packages.{canonical_packages, base_image_packages}
use dsh_podman.Template.Paths.{
  clean_absolute_path, clean_absolute_text, has_control, normalize_project_path,
  normalize_project_text,
}
use dsh_podman.Template.Fields.{
  reject_unknown, string_map, env_key, env_value, secret_name, non_empty_string, parse_list,
  string_value,
}
use dsh_podman.Template.Items.{
  forbidden_keys, mount_keys, mount_mode_of, parse_mount, parse_mount_mode, parse_path, parse_port,
}
use dsh_podman.Template.Validate.{validate_template, without_git_identity}
use dsh_podman.Template.{ubuntu, invalid_workspace_project, template_error, secret, type_error}
use dsh_podman.Template.Items.Inherited.{parse_mount-type_error}
use dsh_podman.Template.Packages.Laws.{texts}
use dsh_podman.Template.MountInputs.{
  TemplateMountInput, mount_input, template_mount_input, template_mount_inputs,
  with_forced_project_mount,
}
use dsh_podman.Template.MountInputs.Laws.{ModeOf, Others, with_forced_project_mount-IsForced}
use dsh_podman.Template.Validate.Laws.{IsCanonicalSpec, validate_template-IsCanonicalSpec}
use dsh_podman.Tests.Documents.{document, template, given_packages}

document_accepted : validate_template document ≡ ok template
unfolding insert sort text ◌===◌ includes has_unit starts_with join split text_le get has_key
    own_entries assign has_in put default_mount_mode resolve resolve_from resolve_path base_image
    valid_package_name matches_package matches_secret canonical_packages base_image_packages
    clean_absolute_path clean_absolute_text has_control normalize_project_path
    normalize_project_text reject_unknown string_map env_key env_value secret_name non_empty_string
    parse_list string_value forbidden_keys mount_keys mount_mode_of parse_mount parse_mount_mode
    parse_path parse_port validate_template without_git_identity
document_accepted = refl

validate_template-IsCanonicalSpec_example : IsCanonicalSpec template.spec
validate_template-IsCanonicalSpec_example =
    validate_template-IsCanonicalSpec document template document_accepted

packages_accepted : canonical_packages ubuntu given_packages ≡ ok (text "htop" ∷ text "nano" ∷ [])
unfolding insert sort text ◌===◌ includes text_le canonical_packages valid_package_name
    matches_package base_image_packages
packages_accepted = refl

git_only_builtin :
    (a : Text)
    → includes a (base_image_packages ubuntu) ≡ false
    → includes a (texts given_packages)
      ≡ includes a (texts (str (text "htop") ∷ str (text "nano") ∷ []))
unfolding texts includes base_image_packages
git_only_builtin a h = ground (arith, a)

abbrev spelled : Text → Option ℕ
spelled value = if value === text "2" then some 2 else none

forced_once :
    template_mount_inputs spelled template (some (text "work/app/"))
    ≡ ok (
        mount_input (text "project") (text "work/app") [] (text "read_only")
        ∷ template_mount_input (secret (text "deploy") (text "/run/key"))
        ∷ [])
unfolding template_mount_inputs text ◌===◌ mount_input template_mount_input split join resolve
    resolve_from resolve_path normalize_project_text has_control has_unit starts_with
    normalize_mount_mode lookup_normalized lookup to_lower_case lower_unit
forced_once = refl

abbrev app_mount : TemplateMountInput
app_mount = record {
  kind = text "project";
  project = text "work/app";
  destination = [];
  mode = text "ro";
  volume = [];
  secret = [];
}

with_forced_project_mount-IsForced_example :
    ((path : Text) × (mode : Text) × (rest : List TemplateMountInput) × (normalize_project_text
          (text "work/./app")
        ≡ some path)
      × (with_forced_project_mount spelled (app_mount ∷ []) (text "work/./app")
          ≡ ok (
              record {
                kind = text "project";
                project = path;
                destination = [];
                mode = mode;
                volume = [];
                secret = [];
              }
              ∷ rest))
      × ModeOf spelled path (app_mount ∷ []) mode
      × Others path (app_mount ∷ []) rest)
    ⊎ ((normalize_project_text (text "work/./app") ≡ none)
        × (with_forced_project_mount spelled (app_mount ∷ []) (text "work/./app")
            ≡ throw (template_error (invalid_workspace_project (text "work/./app")) [])))
with_forced_project_mount-IsForced_example =
    with_forced_project_mount-IsForced spelled (app_mount ∷ []) (text "work/./app")

constructor_inherited : includes (text "constructor") prototype_names ≡ true
unfolding includes text ◌===◌
constructor_inherited = refl

kind_read :
    get (text "kind") (field (text "kind") (str (text "constructor")) end)
    ≡ str (text "constructor")
unfolding get text ◌===◌
kind_read = refl

constructor_mount :
    parse_mount (obj (field (text "kind") (str (text "constructor")) end)) (text "spec.mounts[0]")
    ≡ throw type_error
constructor_mount =
    parse_mount-type_error (field (text "kind") (str (text "constructor")) end) (text "constructor")
      (text "spec.mounts[0]") kind_read constructor_inherited
