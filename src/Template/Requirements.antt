-- ===== src/Template/Requirements.antt =====
-- src/container-template.ts: `templateRequirements`, what a template expects of its workspace.
pub mod Laws
pub mod Once
use dsh_podman.Prelude.{
  Bool, true, false, List, [], ◌∷◌, ◌++◌, Option, none, some, if◌then◌else◌, ◌||◌,
}
use dsh_podman.Text.{Text, ◌===◌, includes}
use dsh_podman.Dict.{Entries}
use dsh_podman.Template.{ContainerTemplate, TemplateMount, project, volume, secret, tmpfs}

pub data TemplateWarning : Type 0 where
  project_missing secret_missing volume_missing : Text → TemplateWarning
  secret_env_missing : Text → Text → TemplateWarning

pub project_warnings : (Text → Bool) → List TemplateMount → List TemplateWarning
project_warnings exists [] = []
project_warnings exists (project path mode ∷ mounts) =
    let rest = project_warnings exists mounts in
    if exists path then rest else project_missing path ∷ rest
project_warnings exists (mount ∷ mounts) = project_warnings exists mounts

-- The warnings of the secret variables, and the names that they report.
pub env_warnings : List Text → Entries → List TemplateWarning × List Text
env_warnings known [] = ([], [])
env_warnings known ((env, name) ∷ rest) =
    let (warnings, reported) = env_warnings known rest in
    if includes name known
    then (warnings, reported)
    else (secret_env_missing env name ∷ warnings, name ∷ reported)

pub secret_warnings : List Text → List Text → List TemplateMount → List TemplateWarning
secret_warnings known reported [] = []
secret_warnings known reported (secret name destination ∷ mounts) =
    let skipped = secret_warnings known reported mounts in
    let warned = secret_missing name ∷ secret_warnings known (name ∷ reported) mounts in
    if includes name known || includes name reported then skipped else warned
secret_warnings known reported (mount ∷ mounts) = secret_warnings known reported mounts

pub volume_warnings : List Text → List Text → List TemplateMount → List TemplateWarning
volume_warnings known reported [] = []
volume_warnings known reported (volume name destination mode ∷ mounts) =
    let skipped = volume_warnings known reported mounts in
    let warned = volume_missing name ∷ volume_warnings known (name ∷ reported) mounts in
    if includes name known || includes name reported then skipped else warned
volume_warnings known reported (mount ∷ mounts) = volume_warnings known reported mounts

-- What the workspace has; `none` where the caller does not tell.
pub record Workspace : Type 0 where
  pub project_exists : Option (Text → Bool)
  pub secrets : Option (List Text)
  pub volumes : Option (List Text)

pub check_projects : Option (Text → Bool) → List TemplateMount → List TemplateWarning
check_projects none mounts = []
check_projects (some exists) mounts = project_warnings exists mounts

pub check_secrets : Option (List Text) → Entries → List TemplateMount → List TemplateWarning
check_secrets none env mounts = []
check_secrets (some known) env mounts =
    let (warnings, reported) = env_warnings known env in
    warnings ++ secret_warnings known reported mounts

pub check_volumes : Option (List Text) → List TemplateMount → List TemplateWarning
check_volumes none mounts = []
check_volumes (some known) mounts = volume_warnings known [] mounts

unfoldable pub template_requirements : ContainerTemplate → Workspace → List TemplateWarning
unfolding check_projects check_secrets check_volumes
template_requirements template options =
    check_projects options.project_exists template.spec.mounts
    ++ (check_secrets options.secrets template.spec.secret_env.entries template.spec.mounts
        ++ check_volumes options.volumes template.spec.mounts)
