-- ===== src/Tests/Exports.antt =====
-- A container and its export, and the order of its mounts.
use dsh_podman.Prelude.{◌≡◌, refl, true, false, List, [], ◌∷◌, Option, none, some, ℕ, ok}
use dsh_podman.Prelude.Sort.{insert, sort}
use dsh_podman.Text.{
  Text, text, ◌===◌, includes, has_unit, starts_with, split, join, text_le, to_lower_case,
  lower_unit,
}
use dsh_podman.Segments.{resolve, resolve_from, resolve_path}
use dsh_podman.Dict.{lookup, put, put_all}
use dsh_podman.Mount.Enums.{
  mount_kind_rank, normalize_mount_kind, normalize_mount_mode, lookup_normalized,
}
use dsh_podman.Mount.Order.{is_primary_project_mount}
use dsh_podman.PublishPort.{port_protocol_from_proto}
use dsh_podman.Template.{
  ubuntu, base_image, TemplateMount, project, volume, tmpfs, read_only, read_write,
}
use dsh_podman.Template.Paths.{clean_absolute_text, normalize_project_text, has_control}
use dsh_podman.Template.Validate.{without_git_identity}
use dsh_podman.Template.Image.{template_export_image}
use dsh_podman.Template.Naming.{sanitized_template_name}
use dsh_podman.Template.Export.{
  Container, ExportedTemplate, export_mount_mode, ordered_string_map, template_mount_rank,
  ordered_template_mounts, export_container_template,
}
use dsh_podman.Template.Export.Laws.{IsExported, export_container_template-IsExported}

abbrev no_number : Text → Option ℕ
no_number value = none

abbrev container : Container
container = record {
  container_name = text "My App";
  image_id = text "ubuntu";
  env = some (record {
    inherits = true;
    entries =
        (text "GIT_AUTHOR_NAME", text "Ada") ∷ (text "B", text "2") ∷ (text "A", text "1") ∷ [];
  });
  secret_env = none;
  mounts = some (
      record {
        kind = text "MOUNT_KIND_TMPFS";
        project_name = none;
        destination = some (text "/tmp");
        mode = none;
        volume = none;
        secret = none;
      }
      ∷ record {
        kind = text "MOUNT_KIND_PROJECT";
        project_name = some (text "work/app/");
        destination = none;
        mode = some (text "MOUNT_MODE_READ_WRITE");
        volume = none;
        secret = none;
      }
      ∷ []);
  paths = none;
  published_ports =
      some
        (record { port = 80; host_port = some 8080; protocol = some (text "PROTOCOL_TCP") } ∷ []);
}

abbrev exported : ExportedTemplate
exported = record {
  filename = text "My-App.yml";
  template = record {
    spec = record {
      image = some ubuntu;
      image_template = none;
      env = record { inherits = false; entries = (text "A", text "1") ∷ (text "B", text "2") ∷ [] };
      secret_env = record { inherits = false; entries = [] };
      mounts = project (text "work/app") read_write ∷ tmpfs (text "/tmp") ∷ [];
      paths = [];
      ports = record { container = 80; host = some 8080 } ∷ [];
    };
  };
}

container_exported :
    export_container_template no_number container [] (text "work/app") ≡ some (ok exported)
unfolding insert sort text ◌===◌ includes has_unit starts_with split join text_le to_lower_case
    lower_unit resolve resolve_from resolve_path lookup put put_all mount_kind_rank
    normalize_mount_kind normalize_mount_mode lookup_normalized is_primary_project_mount
    port_protocol_from_proto base_image clean_absolute_text normalize_project_text has_control
    without_git_identity template_export_image sanitized_template_name export_mount_mode
    ordered_string_map template_mount_rank ordered_template_mounts export_container_template
container_exported = refl

export_container_template-IsExported_example : IsExported exported.template.spec
export_container_template-IsExported_example =
    export_container_template-IsExported no_number container [] (text "work/app") exported
      container_exported

abbrev mounts : List TemplateMount
mounts =
    tmpfs (text "/tmp")
    ∷ project (text "lib") read_only
    ∷ volume (text "data") (text "/data") read_write
    ∷ project (text "app") read_write
    ∷ []
