-- ===== src/Template/Export.antt =====
-- src/container-template.ts: `exportContainerTemplate`, a container as a template.
pub mod Mounts
pub mod Laws
pub mod Order
use dsh_podman.Prelude.{
  ℕ, ◌+◌, Bool, true, false, List, [], ◌∷◌, ◌++◌, Option, none, some, ok, throw, if◌then◌else◌, not,
  ◌&&◌, ◌>>=◌, leb, map,
}
use dsh_podman.Prelude.Sort.{sort}
use dsh_podman.Prelude.Ranks.{rank_le}
use dsh_podman.Text.{Text, text, ◌===◌, is_empty, text_le}
use dsh_podman.Value.{str}
use dsh_podman.Dict.{Dict, Entries, empty, keys, lookup, put_all}
use dsh_podman.Mount.Enums.{mount_kind_rank, normalize_mount_kind, normalize_mount_mode}
use dsh_podman.Mount.Order.{is_primary_project_mount}
use dsh_podman.PublishPort.{port_protocol_from_proto, default_port_protocol}
use dsh_podman.Template.{
  Checked, fail, template_error, BaseImage, TemplateMount, project, volume, secret, tmpfs,
  MountMode, read_only, read_write, TemplatePort, TemplateImage, ContainerTemplateSpec,
  ContainerTemplate, EffectiveImage, base_only, with_packages, no_destination, no_volume, no_secret,
  invalid_project, unsupported_mount_kind, container_protocol,
}
use dsh_podman.Template.Paths.{clean_absolute_text, normalize_project_text}
use dsh_podman.Template.Items.{require}
use dsh_podman.Template.Validate.{without_git_identity}
use dsh_podman.Template.Image.{ImageRow, template_export_image}
use dsh_podman.Template.Naming.{sanitized_template_name}

-- A mount of a container, as the container list gives it.
pub record ContainerMount : Type 0 where
  pub kind : Text
  pub project_name : Option Text
  pub destination : Option Text
  pub mode : Option Text
  pub volume : Option Text
  pub secret : Option Text

pub record PublishedPort : Type 0 where
  pub port : ℕ
  pub host_port : Option ℕ
  pub protocol : Option Text

pub record Container : Type 0 where
  pub container_name : Text
  pub image_id : Text
  pub env : Option Dict
  pub secret_env : Option Dict
  pub mounts : Option (List ContainerMount)
  pub paths : Option (List Text)
  pub published_ports : Option (List PublishedPort)

abbrev or_nil {ℓ} : {A : Type ℓ} → Option (List A) → List A
or_nil none = []
or_nil (some xs) = xs

abbrev or_empty : Option Dict → Dict
or_empty none = empty
or_empty (some d) = d

-- The clean path of a destination that is there.
cleaned : Option Text → Option Text
cleaned none = none
cleaned (some value) = clean_absolute_text value

export_mount_destination : Text → Option Text → Checked Text
unfolding cleaned
export_mount_destination container_name value =
    require (cleaned value) (template_error (no_destination container_name) [])

normalized_project : Option Text → Option Text
normalized_project none = none
normalized_project (some value) = normalize_project_text value

-- A name that is there and is not empty.
named : Option Text → Option Text
named none = none
named (some name) = if is_empty name then none else some name

module _ (number : Text → Option ℕ) where
  unfoldable pub export_mount_mode : Option Text → MountMode
  export_mount_mode none = read_only
  export_mount_mode (some mode) =
      if is_empty mode
      then read_only
      else if normalize_mount_mode number (str mode) === text "read_write"
      then read_write
      else read_only

  export_project : Text → ContainerMount → Checked TemplateMount
  unfolding normalized_project
  export_project name mount = do
    path ←
        require (normalized_project mount.project_name) (template_error (invalid_project name) [])
    ok (project path (export_mount_mode mount.mode))

  export_volume : Text → ContainerMount → Checked TemplateMount
  unfolding named
  export_volume name mount = do
    destination ← export_mount_destination name mount.destination
    source ← require (named mount.volume) (template_error (no_volume name) [])
    ok (volume source destination (export_mount_mode mount.mode))

  export_secret : Text → ContainerMount → Checked TemplateMount
  unfolding named
  export_secret name mount = do
    destination ← export_mount_destination name mount.destination
    source ← require (named mount.secret) (template_error (no_secret name) [])
    ok (secret source destination)

  export_tmpfs : Text → ContainerMount → Checked TemplateMount
  export_tmpfs name mount = do
    destination ← export_mount_destination name mount.destination
    ok (tmpfs destination)

  export_by_kind : Text → ContainerMount → Text → Checked TemplateMount
  unfolding export_project export_volume export_secret export_tmpfs export_mount_destination
  export_by_kind name mount kind =
      if kind === text "project"
      then export_project name mount
      else if kind === text "volume"
      then export_volume name mount
      else if kind === text "secret"
      then export_secret name mount
      else if kind === text "tmpfs"
      then export_tmpfs name mount
      else fail (unsupported_mount_kind name kind) []

  export_mount : Text → ContainerMount → Checked TemplateMount
  unfolding export_by_kind
  export_mount name mount = export_by_kind name mount (normalize_mount_kind number (str mount.kind))

  pub export_mounts : Text → List ContainerMount → Checked (List TemplateMount)
  export_mounts name [] = ok []
  export_mounts name (mount ∷ mounts) = do
    exported ← export_mount name mount
    others ← export_mounts name mounts
    ok (exported ∷ others)

-- `portProtocolFromProto(protocol) ?? protocol ?? "tcp"`
first_given : Option Text → Option Text → Text
first_given (some protocol) given = protocol
first_given none (some given) = given
first_given none none = default_port_protocol

-- `Number(hostPort ?? 0)`, kept where it is a host port.
host_in_range : Option ℕ → Option ℕ
host_in_range none = none
host_in_range (some host) = if leb 1024 host && leb host 65535 then some host else none

export_port : Text → PublishedPort → Checked TemplatePort
unfolding first_given host_in_range
export_port name port =
    if not (first_given (port_protocol_from_proto port.protocol) port.protocol === text "tcp")
    then fail (container_protocol name port.protocol) []
    else ok (record { container = port.port; host = host_in_range port.host_port })

export_ports : Text → List PublishedPort → Checked (List TemplatePort)
unfolding export_port
export_ports name [] = ok []
export_ports name (port ∷ ports) = do
  exported ← export_port name port
  others ← export_ports name ports
  ok (exported ∷ others)

-- `value[key]` for a key of the map
value_of : Entries → Text → Text
value_of es key = elim (lookup key es) [ none ↦ [] | some v ↦ v ]

unfoldable pub ordered_string_map : Dict → Dict
unfolding value_of put_all
ordered_string_map value = record {
  inherits = false;
  entries =
      put_all []
        (map (λ key. (key, value_of value.entries key)) (sort text_le (keys value.entries)));
}

abbrev pub kind_of : TemplateMount → Text
kind_of (project path mode) = text "project"
kind_of (volume name destination mode) = text "volume"
kind_of (secret name destination) = text "secret"
kind_of (tmpfs destination) = text "tmpfs"

abbrev pub project_of : TemplateMount → Option Text
project_of (project path mode) = some path
project_of mount = none

unfoldable pub template_mount_rank : Text → TemplateMount → ℕ
template_mount_rank main_project mount =
    if is_primary_project_mount (kind_of mount) (project_of mount) main_project
    then 0
    else 1 + mount_kind_rank (kind_of mount)

unfoldable pub ordered_template_mounts : List TemplateMount → Text → List TemplateMount
unfolding template_mount_rank
ordered_template_mounts mounts main_project =
    sort (rank_le (template_mount_rank main_project)) mounts

pub record ExportedTemplate : Type 0 where
  pub filename : Text
  pub template : ContainerTemplate

abbrev image_fields : EffectiveImage → Option BaseImage × Option TemplateImage
image_fields (base_only base) = (some base, none)
image_fields (with_packages base packages) =
    (none, some (record { base = base; packages = packages }))

module _ (number : Text → Option ℕ) where
  exported_with : Container → Text → Checked EffectiveImage → Checked ExportedTemplate
  exported_with container main_project found = do
    effective ← found
    mounts ← export_mounts number container.container_name (or_nil container.mounts)
    ports ← export_ports container.container_name (or_nil container.published_ports)
    ok (record {
      filename = sanitized_template_name container.container_name ++ text ".yml";
      template = record {
        spec = record {
          image = (image_fields effective).0;
          image_template = (image_fields effective).1;
          env = ordered_string_map (without_git_identity (or_empty container.env));
          secret_env = ordered_string_map (without_git_identity (or_empty container.secret_env));
          mounts = ordered_template_mounts mounts main_project;
          paths = or_nil container.paths;
          ports = ports;
        };
      };
    })

  -- `none` where the walk up the parents would run out of fuel. The YAML text is not part of it.
  unfoldable pub export_container_template :
      Container → List ImageRow → Text → Option (Checked ExportedTemplate)
  unfolding exported_with export_mounts export_mount export_ports ordered_template_mounts
      ordered_string_map
  export_container_template container images main_project =
      elim (template_export_image container.image_id images) [
        | none ↦ none
        | some found ↦ some (exported_with container main_project found)
      ]
