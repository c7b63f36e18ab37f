-- ===== src/Template/Validate/Laws.antt =====
-- What an accepted template satisfies (src/container-template.ts).
use dsh_podman.Prelude.{
  ◌≡◌, ◌≢◌, inl, inr, true, false, List, [], ◌∷◌, Option, none, some, arith, All, Bool-cases, ok,
  subst, >>=-eq-ok, throw_if, ok-injective, not, ◌&&◌, any, All-filter, All-filter_self, All-imp,
}
use dsh_podman.Text.{Text, text, includes}
use dsh_podman.Text.Laws.{Without}
use dsh_podman.Value.{Value, obj, Fields, get}
use dsh_podman.Dict.{Dict, Entries, has_in, has_own, keys}
use dsh_podman.Env.Defaults.{git_identity_keys}
use dsh_podman.Template.{BaseImage, TemplateImage, ContainerTemplate, ContainerTemplateSpec}
use dsh_podman.Template.Names.{matches_secret}
use dsh_podman.Template.Packages.{canonical_packages}
use dsh_podman.Template.Packages.Laws.{IsCanonical}
use dsh_podman.Template.Packages.Canonical.{canonical_packages-IsCanonical}
use dsh_podman.Template.Fields.{
  reject_unknown, env_key, env_value, secret_name, string_map, parse_list,
}
use dsh_podman.Template.Fields.Laws.{
  IsEnvKey, env_key-IsEnvKey, env_value-Without, secret_name-matches, string_map-All,
  parse_list-All,
}
use dsh_podman.Template.Items.{parse_mount, parse_port, parse_path}
use dsh_podman.Template.Items.Laws.{
  MountIsValid, PortIsValid, PathIsValid, parse_mount-MountIsValid, parse_port-PortIsValid,
  parse_path-PathIsValid,
}
use dsh_podman.Template.Validate.{
  without_git_identity, mapping, check_version, check_kind, is_present, base_of, list_of,
  image_with, from_image, from_template, image_of, check_disjoint, spec_of, validate_template,
}

-- An accepted variable is named so, and it is no Git identity variable.
abbrev pub KeyIsValid : Text → Type 0
KeyIsValid key = IsEnvKey key × (includes key git_identity_keys ≡ false)

-- Exactly one of image and imageTemplate, and an image template that installs at least one package.
abbrev pub ImageIsValid : Option BaseImage → Option TemplateImage → Type 0
ImageIsValid none none = ⊥
ImageIsValid (some base) none = Unit
ImageIsValid none (some t) = IsCanonical t.base t.packages × (t.packages ≢ [])
ImageIsValid (some base) (some t) = ⊥

-- The canonical form of a template.
pub record IsCanonicalSpec (spec : ContainerTemplateSpec) : Type 0 where
  pub one_image : ImageIsValid spec.image spec.image_template
  pub env_keys : All (λ e. KeyIsValid e.0) spec.env.entries
  pub env_values : All (λ e. Without 0 e.1) spec.env.entries
  pub secret_env_keys : All (λ e. KeyIsValid e.0) spec.secret_env.entries
  pub secret_env_names : All (λ e. matches_secret e.1 ≡ true) spec.secret_env.entries
  pub disjoint : All (λ key. has_own key spec.env ≡ false) (keys spec.secret_env.entries)
  pub mounts_valid : All MountIsValid spec.mounts
  pub paths_valid : All PathIsValid spec.paths
  pub ports_valid : All PortIsValid spec.ports

without_git_identity-All :
    (P : Text × Text → Type 0) (d : Dict) → All P d.entries → All P (without_git_identity d).entries
unfolding without_git_identity
without_git_identity-All P d h =
    elim (Bool-cases (any (λ key. includes key git_identity_keys) (keys d.entries))) [
      | inl e ↦ rw e (All-filter P _ d.entries h)
      | inr e ↦ rw e h
    ]

-- No Git identity variable is left.
pub without_git_identity-none :
    (d : Dict) → All (λ e. includes e.0 git_identity_keys ≡ false) (without_git_identity d).entries
unfolding without_git_identity
without_git_identity-none d =
    elim (Bool-cases (any (λ key. includes key git_identity_keys) (keys d.entries))) [
      | inl e ↦ rw e (All-imp (λ x h. ground arith) _ (All-filter_self _ d.entries))
      | inr e ↦ rw e (no_key d.entries e)
    ]
  where
    no_key :
        (es : Entries)
        → any (λ key. includes key git_identity_keys) (keys es) ≡ false
        → All (λ e. includes e.0 git_identity_keys ≡ false) es
    no_key [] h = tt
    no_key ((k, v) ∷ es) h = (ground arith, no_key es (ground arith))

image_with-ImageIsValid :
    (base : BaseImage) (packages : List Text)
    → IsCanonical base packages
    → ImageIsValid (image_with base packages).0 (image_with base packages).1
unfolding image_with
image_with-ImageIsValid base [] c = tt
image_with-ImageIsValid base (p ∷ ps) c = (c, λ e. cc)

from_image-ImageIsValid :
    (spec : Fields) {images : Option BaseImage × Option TemplateImage}
    → from_image spec ≡ ok images
    → ImageIsValid images.0 images.1
unfolding from_image
from_image-ImageIsValid spec e =
    let (base, a, e₁) = >>=-eq-ok (base_of (get (text "image") spec) (text "spec.image")) _ e in
    subst (λ i. ImageIsValid i.0 i.1) (ok-injective e₁) tt

from_template-ImageIsValid :
    (spec : Fields) {images : Option BaseImage × Option TemplateImage}
    → from_template spec ≡ ok images
    → ImageIsValid images.0 images.1
unfolding from_template
from_template-ImageIsValid spec e =
    let (value, a, e₁) = >>=-eq-ok (mapping _ _) _ e in
    let (u, b, e₂) = >>=-eq-ok (reject_unknown value _ _) _ e₁ in
    let (base, c, e₃) = >>=-eq-ok (base_of _ _) _ e₂ in
    let (given, d, e₄) = >>=-eq-ok (list_of _ _) _ e₃ in
    let (packages, f, e₅) = >>=-eq-ok (canonical_packages base given) _ e₄ in
    subst (λ i. ImageIsValid i.0 i.1) (ok-injective e₅)
      (image_with-ImageIsValid base packages (canonical_packages-IsCanonical base given f))

image_of-ImageIsValid :
    (spec : Fields) {images : Option BaseImage × Option TemplateImage}
    → image_of spec ≡ ok images
    → ImageIsValid images.0 images.1
unfolding image_of
image_of-ImageIsValid spec e =
    let (u, a, e₁) =
      >>=-eq-ok
        (throw_if
          (is_present (get (text "image") spec) && is_present (get (text "imageTemplate") spec)) _)
        _ e in
    let (v, b, e₂) =
      >>=-eq-ok
        (throw_if
          (not (is_present (get (text "image") spec))
            && not (is_present (get (text "imageTemplate") spec)))
          _)
        _ e₁ in
    elim (Bool-cases (is_present (get (text "image") spec))) [
      | inl c ↦ from_image-ImageIsValid spec (rw c at e₂)
      | inr c ↦ from_template-ImageIsValid spec (rw c at e₂)
    ]

check_disjoint-All :
    (env : Dict) (ks : List Text) {u : Unit}
    → check_disjoint env ks ≡ ok u
    → All (λ key. has_own key env ≡ false) ks
unfolding check_disjoint
check_disjoint-All env [] e = tt
check_disjoint-All env (key ∷ rest) e = elim (Bool-cases (has_in key env)) [
  | inl bad ↦ absurd (ground arith)
  | inr fine ↦ (unfold has_in has_own in ground arith, check_disjoint-All env rest (ground arith))
]

keyed :
    (es : Entries)
    → All (λ e. IsEnvKey e.0) es
    → All (λ e. includes e.0 git_identity_keys ≡ false) es
    → All (λ e. KeyIsValid e.0) es
keyed [] h k = tt
keyed (e ∷ es) (p, h) (q, k) = ((p, q), keyed es h k)

spec_of-IsCanonicalSpec :
    (spec : Fields) {t : ContainerTemplate} → spec_of spec ≡ ok t → IsCanonicalSpec t.spec
unfolding spec_of
spec_of-IsCanonicalSpec spec e =
    let (images, a, e₁) = >>=-eq-ok (image_of spec) _ e in
    let (given, b, e₂) = >>=-eq-ok (string_map env_key env_value _ _) _ e₁ in
    let (secrets, c, e₃) = >>=-eq-ok (string_map env_key secret_name _ _) _ e₂ in
    let env = without_git_identity given in
    let secret_env = without_git_identity secrets in
    let (u, d, e₄) = >>=-eq-ok (check_disjoint env (keys secret_env.entries)) _ e₃ in
    let (mounts, f, e₅) = >>=-eq-ok (parse_list parse_mount _ _) _ e₄ in
    let (paths, g, e₆) = >>=-eq-ok (parse_list parse_path _ _) _ e₅ in
    let (ports, h, e₇) = >>=-eq-ok (parse_list parse_port _ _) _ e₆ in
    subst (λ (t : ContainerTemplate). IsCanonicalSpec t.spec) (ok-injective e₇)
      (record {
        one_image = image_of-ImageIsValid spec a;
        env_keys =
            keyed env.entries
              (without_git_identity-All _ given (
                string_map-All (λ x. IsEnvKey x.0) env_key env_value
                  (λ key v path k t p q. env_key-IsEnvKey key path p) _ _ b))
              (without_git_identity-none given);
        env_values = without_git_identity-All _ given (
            string_map-All (λ x. Without 0 x.1) env_key env_value
              (λ key v path k t p q. env_value-Without v path q) _ _ b);
        secret_env_keys =
            keyed secret_env.entries
              (without_git_identity-All _ secrets (
                string_map-All (λ x. IsEnvKey x.0) env_key secret_name
                  (λ key v path k t p q. env_key-IsEnvKey key path p) _ _ c))
              (without_git_identity-none secrets);
        secret_env_names = without_git_identity-All _ secrets (
            string_map-All (λ x. matches_secret x.1 ≡ true) env_key secret_name
              (λ key v path k t p q. secret_name-matches v path q) _ _ c);
        disjoint = check_disjoint-All env (keys secret_env.entries) d;
        mounts_valid = parse_list-All MountIsValid parse_mount parse_mount-MountIsValid _ _ f;
        paths_valid = parse_list-All PathIsValid parse_path parse_path-PathIsValid _ _ g;
        ports_valid = parse_list-All PortIsValid parse_port parse_port-PortIsValid _ _ h;
      })

-- A document that is accepted gives a template in canonical form: exactly one of image and
-- imageTemplate, the package list canonical and not empty; every variable named validly, none of them
-- reserved or of the Git identity, and none both plain and secret; every secret and volume named
-- validly; every project path normal and every destination and PATH addition clean; every port in
-- its range.
pub validate_template-IsCanonicalSpec :
    (raw : Value) (t : ContainerTemplate) → validate_template raw ≡ ok t → IsCanonicalSpec t.spec
unfolding validate_template
validate_template-IsCanonicalSpec (obj raw) t e =
    let (u, a, e₁) = >>=-eq-ok (reject_unknown raw _ _) _ e in
    let (v, b, e₂) = >>=-eq-ok (check_version (get (text "version") raw)) _ e₁ in
    let (w, c, e₃) = >>=-eq-ok (check_kind (get (text "kind") raw)) _ e₂ in
    let (spec, d, e₄) = >>=-eq-ok (mapping (get (text "spec") raw) (text "spec")) _ e₃ in
    let (x, f, e₅) = >>=-eq-ok (reject_unknown spec _ _) _ e₄ in spec_of-IsCanonicalSpec spec e₅
validate_template-IsCanonicalSpec v t e = cc
