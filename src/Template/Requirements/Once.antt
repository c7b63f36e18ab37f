-- ===== src/Template/Requirements/Once.antt =====
-- `templateRequirements` reports each missing volume and mounted secret once.
use dsh_podman.Prelude.{
  ◌+◌, ◌≡◌, refl, ◌∙◌, List, [], ◌++◌, Option, none, some, arith, if◌then◌else◌, not, ◌&&◌,
}
use dsh_podman.Text.{Text, includes}
use dsh_podman.Text.Sets.{includes-nil}
use dsh_podman.Dict.{Entries}
use dsh_podman.Template.{ContainerTemplate, TemplateMount}
use dsh_podman.Template.Requirements.{
  TemplateWarning, env_warnings, secret_warnings, Workspace, check_projects, check_secrets,
  check_volumes, template_requirements,
}
use dsh_podman.Template.Requirements.Laws.{
  count, is_volume, is_secret, mounts_volume, mounts_secret, env_names_secret, count-append,
  count-volume_warnings, count-secret_warnings, volume_in_projects, secret_in_projects,
  volume_in_env, secret_in_env, volume_in_secrets, secret_in_volumes, env_reported,
}

volume_in_check_secrets :
    (name : Text) (o : Option (List Text)) (es : Entries) (ms : List TemplateMount)
    → count (is_volume name) (check_secrets o es ms) ≡ 0
unfolding check_secrets
volume_in_check_secrets name none es ms = unfold count in refl
volume_in_check_secrets name (some known) es ms = omega (
  arith,
  count-append (is_volume name) (env_warnings known es).0
      (secret_warnings known (env_warnings known es).1 ms),
  volume_in_env name known es,
  volume_in_secrets name known (env_warnings known es).1 ms,
)

secret_in_check_volumes :
    (name : Text) (o : Option (List Text)) (ms : List TemplateMount)
    → count (is_secret name) (check_volumes o ms) ≡ 0
unfolding check_volumes
secret_in_check_volumes name none ms = unfold count in refl
secret_in_check_volumes name (some known) ms = secret_in_volumes name known [] ms

count_groups :
    (name : Text) (xs ys zs : List TemplateWarning)
    → (count (is_volume name) (xs ++ (ys ++ zs))
        ≡ count (is_volume name) xs + count (is_volume name) ys + count (is_volume name) zs)
      × (count (is_secret name) (xs ++ (ys ++ zs))
          ≡ count (is_secret name) xs + count (is_secret name) ys + count (is_secret name) zs)
count_groups name xs ys zs = (
  omega (arith, count-append (is_volume name) xs (ys ++ zs), count-append (is_volume name) ys zs),
  omega (arith, count-append (is_secret name) xs (ys ++ zs), count-append (is_secret name) ys zs),
)

count-check_volumes :
    (name : Text) (o : Option (List Text)) (known : List Text) (ms : List TemplateMount)
    → o ≡ some known
    → count (is_volume name) (check_volumes o ms)
      ≡ (if mounts_volume name ms && not (includes name known) then 1 else 0)
unfolding check_volumes
count-check_volumes name o known ms e =
    rw (e, check_volumes)
      (count-volume_warnings name known [] ms ∙ ground (arith, includes-nil name))

count-check_secrets :
    (name : Text) (o : Option (List Text)) (known : List Text) (es : Entries)
    (ms : List TemplateMount)
    → o ≡ some known
    → count (is_secret name) (check_secrets o es ms) ≡ (
        if mounts_secret name ms && (not (includes name known) && not (env_names_secret name es))
        then 1
        else 0)
unfolding check_secrets
count-check_secrets name o known es ms e =
    rw (e, check_secrets)
      (ground (
        arith,
        count-append (is_secret name) (env_warnings known es).0
            (secret_warnings known (env_warnings known es).1 ms),
        secret_in_env name known es,
        count-secret_warnings name known (env_warnings known es).1 ms,
        env_reported name known es,
      ))

-- With the workspace's volumes known, a volume is reported missing once if a mount is of it and the
-- workspace does not have it, and not at all otherwise, however many mounts are of it.
pub template_requirements-volumes :
    (name : Text) (template : ContainerTemplate) (options : Workspace) (known : List Text)
    → options.volumes ≡ some known
    → count (is_volume name) (template_requirements template options)
      ≡ (if mounts_volume name template.spec.mounts && not (includes name known) then 1 else 0)
unfolding template_requirements
template_requirements-volumes name template options known e =
    let ms = template.spec.mounts in
    let es = template.spec.secret_env.entries in
    (count_groups name (check_projects options.project_exists ms)
      (check_secrets options.secrets es ms) (check_volumes options.volumes ms)).0
    ∙ ground (
      arith,
      volume_in_projects name options.project_exists ms,
      volume_in_check_secrets name options.secrets es ms,
      count-check_volumes name options.volumes known ms e,
    )

-- With the workspace's secrets known, a secret that the workspace does not have is reported once for
-- all mounts if some mount is of it and no variable takes its value from it, and not at all as a
-- mounted secret otherwise.
pub template_requirements-secrets :
    (name : Text) (template : ContainerTemplate) (options : Workspace) (known : List Text)
    → options.secrets ≡ some known
    → count (is_secret name) (template_requirements template options) ≡ (
        if mounts_secret name template.spec.mounts
          && (not (includes name known)
              && not (env_names_secret name template.spec.secret_env.entries))
        then 1
        else 0)
unfolding template_requirements
template_requirements-secrets name template options known e =
    let ms = template.spec.mounts in
    let es = template.spec.secret_env.entries in
    (count_groups name (check_projects options.project_exists ms)
      (check_secrets options.secrets es ms) (check_volumes options.volumes ms)).1
    ∙ ground (
      arith,
      secret_in_projects name options.project_exists ms,
      secret_in_check_volumes name options.volumes ms,
      count-check_secrets name options.secrets known es ms e,
    )
