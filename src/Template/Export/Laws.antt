-- ===== src/Template/Export/Laws.antt =====
-- What an exported template satisfies (src/container-template.ts).
use mathlib.Core.Option.{some-injective}
use dsh_podman.Prelude.{
  ℕ, ◌≡◌, sym, ap, ◌∙◌, subst, inl, inr, false, List, [], ◌∷◌, Option, none, some, arith, All,
  All-map, Bool-cases, ok, not, ◌&&◌, >>=-eq-ok, ok-injective, leb, map,
}
use dsh_podman.Prelude.Sort.{sort, sort-All}
use dsh_podman.Prelude.Ranks.{rank_le}
use dsh_podman.Text.{Text, text, ◌===◌, includes, text_le}
use dsh_podman.Value.{str}
use dsh_podman.Dict.{Dict, Entries, keys, put, put_all}
use dsh_podman.Env.Defaults.{git_identity_keys}
use dsh_podman.PublishPort.{port_protocol_from_proto}
use dsh_podman.Template.{Checked, BaseImage, TemplatePort, ContainerTemplateSpec, EffectiveImage}
use dsh_podman.Template.Fields.Laws.{put-All}
use dsh_podman.Template.Items.Laws.{HostIsValid}
use dsh_podman.Template.Packages.Canonical.{canonical_packages-IsCanonical}
use dsh_podman.Template.Packages.Laws.{IsCanonical}
use dsh_podman.Template.Validate.Laws.{ImageIsValid, without_git_identity-none}
use dsh_podman.Template.Image.{ImageRow, image_with, template_export_image}
use dsh_podman.Template.Image.Chains.{template_export_image_total, template_export_image-ExportsAs}
use dsh_podman.Template.Export.Mounts.{MountIsExported, export_mounts-IsExported}
use dsh_podman.Template.Export.{
  PublishedPort, Container, or_nil, or_empty, export_mounts, first_given, host_in_range,
  export_port, export_ports, value_of, ordered_string_map, ordered_template_mounts,
  template_mount_rank, ExportedTemplate, image_fields, exported_with, export_container_template,
}

-- What holds of the spec of every exported template.
pub record IsExported (spec : ContainerTemplateSpec) : Type 0 where
  pub one_image : ImageIsValid spec.image spec.image_template
  pub env_keys : All (λ e. includes e.0 git_identity_keys ≡ false) spec.env.entries
  pub secret_env_keys : All (λ e. includes e.0 git_identity_keys ≡ false) spec.secret_env.entries
  pub mounts_valid : All MountIsExported spec.mounts
  pub hosts_valid : All (λ p. HostIsValid p.host) spec.ports

host_in_range-HostIsValid : (o : Option ℕ) → HostIsValid (host_in_range o)
unfolding host_in_range
host_in_range-HostIsValid none = tt
host_in_range-HostIsValid (some host) = elim (Bool-cases (leb 1024 host && leb host 65535)) [
  | inl e ↦ rw e (ground arith)
  | inr e ↦ rw e tt
]

export_port-HostIsValid :
    (name : Text) (port : PublishedPort) {p : TemplatePort}
    → export_port name port ≡ ok p
    → HostIsValid p.host
unfolding export_port
export_port-HostIsValid name port e =
    elim (Bool-cases
      (not (first_given (port_protocol_from_proto port.protocol) port.protocol === text "tcp"))) [
        | inl bad ↦ absurd (cc (rw bad at e))
        | inr fine ↦
            subst (λ (p : TemplatePort). HostIsValid p.host) (ok-injective (rw fine at e))
              (host_in_range-HostIsValid port.host_port)
      ]

export_ports-HostIsValid :
    (name : Text) (ports : List PublishedPort) {out : List TemplatePort}
    → export_ports name ports ≡ ok out
    → All (λ (p : TemplatePort). HostIsValid p.host) out
unfolding export_ports
export_ports-HostIsValid name [] e = subst (All _) (ok-injective e) tt
export_ports-HostIsValid name (port ∷ ports) e =
    let (p, a, e₁) = >>=-eq-ok (export_port name port) _ e in
    let (ps, b, e₂) = >>=-eq-ok (export_ports name ports) _ e₁ in
    subst (All (λ (p : TemplatePort). HostIsValid p.host)) (ok-injective e₂)
      (export_port-HostIsValid name port a, export_ports-HostIsValid name ports b)

put_all-All :
    (P : Text × Text → Type 0) (es more : Entries) → All P es → All P more → All P (put_all es more)
unfolding put_all
put_all-All P es [] h k = h
put_all-All P es ((key, v) ∷ more) h (p, k) =
    put_all-All P (put key v es) more (put-All P key v es p h) k

ordered_string_map-keys :
    (P : Text → Type 0) (d : Dict)
    → All (λ e. P e.0) d.entries
    → All (λ e. P e.0) (ordered_string_map d).entries
unfolding ordered_string_map
ordered_string_map-keys P d h =
    put_all-All (λ e. P e.0) [] _ tt
      (All-map (λ e. P e.0) (λ key. (key, value_of d.entries key)) (sort text_le (keys d.entries))
        (sort-All text_le P (keys d.entries) (All-map P (λ e. e.0) d.entries h)))

image_fields-ImageIsValid :
    (base : BaseImage) (packages : List Text)
    → IsCanonical base packages
    → ImageIsValid
        (image_fields (image_with base packages)).0
        (image_fields (image_with base packages)).1
image_fields-ImageIsValid base [] c = tt
image_fields-ImageIsValid base (p ∷ ps) c = (c, λ e. cc)

export_image-ImageIsValid :
    (image_id : Text) (images : List ImageRow) (image : EffectiveImage)
    → template_export_image image_id images ≡ some (ok image)
    → ImageIsValid (image_fields image).0 (image_fields image).1
export_image-ImageIsValid image_id images image e =
    let (base, all_packages, kept, chain, canonical, shape) =
      template_export_image-ExportsAs image_id images image e in
    subst (λ i. ImageIsValid (image_fields i).0 (image_fields i).1) (sym shape)
      (image_fields-ImageIsValid base kept
        (canonical_packages-IsCanonical base (map str all_packages) canonical))

module _ (number : Text → Option ℕ) where
  exported_with-IsExported :
      (container : Container) (images : List ImageRow) (main_project : Text)
      (found : Checked EffectiveImage) (out : ExportedTemplate)
      → template_export_image container.image_id images ≡ some found
      → exported_with number container main_project found ≡ ok out
      → IsExported out.template.spec
  unfolding exported_with ordered_template_mounts
  exported_with-IsExported container images main_project found out f e =
      let (image, a, e₁) = >>=-eq-ok found _ e in
      let (mounts, b, e₂) =
        >>=-eq-ok (export_mounts number container.container_name (or_nil container.mounts)) _ e₁ in
      let (ports, c, e₃) =
        >>=-eq-ok (export_ports container.container_name (or_nil container.published_ports)) _ e₂ in
      subst (λ (o : ExportedTemplate). IsExported o.template.spec) (ok-injective e₃)
        (record {
          one_image = export_image-ImageIsValid container.image_id images image (f ∙ ap some a);
          env_keys =
              ordered_string_map-keys (λ k. includes k git_identity_keys ≡ false) _
                (without_git_identity-none (or_empty container.env));
          secret_env_keys =
              ordered_string_map-keys (λ k. includes k git_identity_keys ≡ false) _
                (without_git_identity-none (or_empty container.secret_env));
          mounts_valid =
              sort-All (rank_le (template_mount_rank main_project)) MountIsExported mounts (
                export_mounts-IsExported number container.container_name (or_nil container.mounts)
                  b);
          hosts_valid =
              export_ports-HostIsValid container.container_name (or_nil container.published_ports)
                c;
        })

  -- An export that succeeds gives a template with exactly one of image and imageTemplate, the package
  -- list canonical and not empty, no Git identity variable, project paths normal, destinations
  -- clean, volumes and secrets named, and host ports from 1024 to 65535 or absent.
  pub export_container_template-IsExported :
      (container : Container) (images : List ImageRow) (main_project : Text)
      (out : ExportedTemplate)
      → export_container_template number container images main_project ≡ some (ok out)
      → IsExported out.template.spec
  unfolding export_container_template
  export_container_template-IsExported container images main_project out e =
      let (found, f) = template_export_image_total container.image_id images in
      exported_with-IsExported container images main_project found out f
        (some-injective _ _ (rw (f, export_container_template) at e))

  -- Every export comes to an end: whatever the image list, the template or an error is returned.
  export_container_template_total :
      (container : Container) (images : List ImageRow) (main_project : Text)
      → (r : Checked ExportedTemplate) × (export_container_template number container images
            main_project
          ≡ some r)
  unfolding export_container_template
  export_container_template_total container images main_project =
      let (found, f) = template_export_image_total container.image_id images in
      (exported_with number container main_project found, rw (f, export_container_template))
