-- ===== src/Template/Requirements/Laws.antt =====
-- Each missing thing is reported once (src/container-template.ts).
use dsh_podman.Prelude.{
  ℕ, ◌+◌, ◌≡◌, refl, Bool, false, List, [], ◌∷◌, ◌++◌, Option, none, some, arith, if◌then◌else◌,
  not, ◌&&◌, ◌||◌,
}
use dsh_podman.Text.{Text, ◌===◌, includes}
use dsh_podman.Text.Laws.{===_iff}
use dsh_podman.Text.Sets.{includes-cons, includes-nil}
use dsh_podman.Dict.{Entries}
use dsh_podman.Template.{TemplateMount, project, volume, secret}
use dsh_podman.Template.Requirements.{
  TemplateWarning, secret_missing, volume_missing, project_warnings, env_warnings, secret_warnings,
  volume_warnings, check_projects,
}

-- How many warnings of a list pass a test.
unfoldable pub count : (TemplateWarning → Bool) → List TemplateWarning → ℕ
count p [] = 0
count p (w ∷ ws) = (if p w then 1 else 0) + count p ws

abbrev pub is_volume : Text → TemplateWarning → Bool
is_volume name (volume_missing v) = v === name
is_volume name _ = false

abbrev pub is_secret : Text → TemplateWarning → Bool
is_secret name (secret_missing s) = s === name
is_secret name _ = false

-- Whether a mount of the list is of the volume.
pub mounts_volume : Text → List TemplateMount → Bool
mounts_volume name [] = false
mounts_volume name (volume v destination mode ∷ ms) = v === name || mounts_volume name ms
mounts_volume name (m ∷ ms) = mounts_volume name ms

-- Whether a mount of the list is of the secret.
pub mounts_secret : Text → List TemplateMount → Bool
mounts_secret name [] = false
mounts_secret name (secret s destination ∷ ms) = s === name || mounts_secret name ms
mounts_secret name (m ∷ ms) = mounts_secret name ms

-- Whether a variable takes its value from the secret.
pub env_names_secret : Text → Entries → Bool
env_names_secret name [] = false
env_names_secret name ((env, s) ∷ es) = s === name || env_names_secret name es

pub count-append :
    (p : TemplateWarning → Bool) (xs ys : List TemplateWarning)
    → count p (xs ++ ys) ≡ count p xs + count p ys
unfolding count
count-append p [] ys = omega arith
count-append p (x ∷ xs) ys = omega (arith, count-append p xs ys)

pub count-volume_warnings :
    (name : Text) (known reported : List Text) (ms : List TemplateMount)
    → count (is_volume name) (volume_warnings known reported ms) ≡ (
        if mounts_volume name ms && not (includes name known || includes name reported)
        then 1
        else 0)
unfolding count volume_warnings mounts_volume
count-volume_warnings name known reported [] = refl
count-volume_warnings name known reported (volume v d m ∷ ms) = ground (
  arith,
  ===_iff v name,
  ===_iff name v,
  includes-cons name v reported,
  count-volume_warnings name known reported ms,
  count-volume_warnings name known (v ∷ reported) ms,
)
count-volume_warnings name known reported (m ∷ ms) = count-volume_warnings name known reported ms

pub count-secret_warnings :
    (name : Text) (known reported : List Text) (ms : List TemplateMount)
    → count (is_secret name) (secret_warnings known reported ms) ≡ (
        if mounts_secret name ms && not (includes name known || includes name reported)
        then 1
        else 0)
unfolding count secret_warnings mounts_secret
count-secret_warnings name known reported [] = refl
count-secret_warnings name known reported (secret s d ∷ ms) = ground (
  arith,
  ===_iff s name,
  ===_iff name s,
  includes-cons name s reported,
  count-secret_warnings name known reported ms,
  count-secret_warnings name known (s ∷ reported) ms,
)
count-secret_warnings name known reported (m ∷ ms) = count-secret_warnings name known reported ms

-- The other groups hold no warning of the kind.
pub volume_in_projects :
    (name : Text) (o : Option (Text → Bool)) (ms : List TemplateMount)
    → count (is_volume name) (check_projects o ms) ≡ 0
unfolding count check_projects project_warnings
volume_in_projects name none ms = refl
volume_in_projects name (some exists) [] = refl
volume_in_projects name (some exists) (project p m ∷ ms) =
    ground (arith, volume_in_projects name (some exists) ms)
volume_in_projects name (some exists) (m ∷ ms) = volume_in_projects name (some exists) ms

pub secret_in_projects :
    (name : Text) (o : Option (Text → Bool)) (ms : List TemplateMount)
    → count (is_secret name) (check_projects o ms) ≡ 0
unfolding count check_projects project_warnings
secret_in_projects name none ms = refl
secret_in_projects name (some exists) [] = refl
secret_in_projects name (some exists) (project p m ∷ ms) =
    ground (arith, secret_in_projects name (some exists) ms)
secret_in_projects name (some exists) (m ∷ ms) = secret_in_projects name (some exists) ms

pub volume_in_env :
    (name : Text) (known : List Text) (es : Entries)
    → count (is_volume name) (env_warnings known es).0 ≡ 0
unfolding count env_warnings
volume_in_env name known [] = refl
volume_in_env name known ((e, s) ∷ es) = ground (arith, volume_in_env name known es)

pub secret_in_env :
    (name : Text) (known : List Text) (es : Entries)
    → count (is_secret name) (env_warnings known es).0 ≡ 0
unfolding count env_warnings
secret_in_env name known [] = refl
secret_in_env name known ((e, s) ∷ es) = ground (arith, secret_in_env name known es)

pub volume_in_secrets :
    (name : Text) (known reported : List Text) (ms : List TemplateMount)
    → count (is_volume name) (secret_warnings known reported ms) ≡ 0
unfolding count secret_warnings
volume_in_secrets name known reported [] = refl
volume_in_secrets name known reported (secret s d ∷ ms) = ground (
  arith,
  volume_in_secrets name known reported ms,
  volume_in_secrets name known (s ∷ reported) ms,
)
volume_in_secrets name known reported (m ∷ ms) = volume_in_secrets name known reported ms

pub secret_in_volumes :
    (name : Text) (known reported : List Text) (ms : List TemplateMount)
    → count (is_secret name) (volume_warnings known reported ms) ≡ 0
unfolding count volume_warnings
secret_in_volumes name known reported [] = refl
secret_in_volumes name known reported (volume v d m ∷ ms) = ground (
  arith,
  secret_in_volumes name known reported ms,
  secret_in_volumes name known (v ∷ reported) ms,
)
secret_in_volumes name known reported (m ∷ ms) = secret_in_volumes name known reported ms

pub env_reported :
    (name : Text) (known : List Text) (es : Entries)
    → includes name (env_warnings known es).1
      ≡ (env_names_secret name es && not (includes name known))
unfolding env_warnings env_names_secret
env_reported name known [] = includes-nil name
env_reported name known ((e, s) ∷ es) = ground (
  arith,
  env_reported name known es,
  ===_iff s name,
  ===_iff name s,
  includes-cons name s (env_warnings known es).1,
)
