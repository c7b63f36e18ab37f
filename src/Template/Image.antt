-- ===== src/Template/Image.antt =====
-- src/container-template.ts: the image that a template refers to, that a container exports as, and
-- whether it has to be built.
pub mod Laws
pub mod Chains
use dsh_podman.Prelude.{
  ℕ, zero, suc, ◌+◌, Bool, true, false, List, [], ◌∷◌, ◌++◌, Option, none, some, ok, throw,
  if◌then◌else◌, not, ◌>>=◌, ◌||◌, ◌&&◌, ◌==◌, length, find?, map,
}
use dsh_podman.Prelude.Sort.{sort}
use dsh_podman.Text.{Text, text, ◌===◌, is_empty, includes, text_le}
use dsh_podman.Value.{str}
use dsh_podman.Template.{
  Checked, fail, TemplateError, template_error, BaseImage, base_name, base_image, TemplateImage,
  ContainerTemplate, EffectiveImage, base_only, with_packages, names_no_image, cyclic_parents,
  not_listed, no_parent,
}
use dsh_podman.Template.Packages.{canonical_packages}

effective_of : Option BaseImage → Option TemplateImage → Checked EffectiveImage
effective_of image (some t) = do
  packages ← canonical_packages t.base (map str t.packages)
  ok (with_packages t.base packages)
effective_of none none = fail names_no_image []
effective_of (some base) none = ok (base_only base)

unfoldable pub effective_image : ContainerTemplate → Checked EffectiveImage
unfolding effective_of
effective_image template = effective_of template.spec.image template.spec.image_template

-- A row of the image list. `status` and `built_at` are absent where the list does not know them.
pub record ImageRow : Type 0 where
  pub image_id : Text
  pub parent : Text
  pub packages : List Text
  pub status : Option Text
  pub built_at : Option Text

-- `byId.get(id)`: of two rows with one id the map keeps the last.
unfoldable pub row_by_id : Text → List ImageRow → Option ImageRow
row_by_id id [] = none
row_by_id id (row ∷ rows) = elim (row_by_id id rows) [
  | some later ↦ some later
  | none ↦ if row.image_id === id then some row else none
]

-- One round of the walk up the parents: it throws, it has come to a base, or it goes on.
pub data Visit : Type 0 where
  stopped : TemplateError → Visit
  arrived : BaseImage → Visit
  onward : ImageRow → Visit

module _ (image_id : Text) (images : List ImageRow) where
  visit_row : Text → Option ImageRow → Visit
  visit_row current none = stopped (template_error (not_listed current) [])
  visit_row current (some row) =
      if is_empty row.parent then stopped (template_error (no_parent current) []) else onward row

  visit : List Text → Text → Visit
  unfolding visit_row
  visit seen current =
      if includes current seen
      then stopped (template_error (cyclic_parents image_id) [])
      else elim (base_image current) [
        | some base ↦ arrived base
        | none ↦ visit_row current (row_by_id current images)
      ]

  -- The loop with fuel; `none` means that the fuel ran out.
  pub walk : ℕ → List Text → Text → List Text → Option (Checked (BaseImage × List Text))
  walk zero seen current packages = none
  walk (suc fuel) seen current packages = elim (visit seen current) [
    | stopped e ↦ some (throw e)
    | arrived base ↦ some (ok (base, packages))
    | onward row ↦ walk fuel (current ∷ seen) row.parent (packages ++ row.packages)
  ]

-- A base with no packages of its own is the base image.
abbrev pub image_with : BaseImage → List Text → EffectiveImage
image_with base [] = base_only base
image_with base (p ∷ ps) = with_packages base (p ∷ ps)

exported : BaseImage × List Text → Checked EffectiveImage
exported (base, packages) = do
  canonical ← canonical_packages base (map str packages)
  ok (image_with base canonical)

exported_walk : Option (Checked (BaseImage × List Text)) → Option (Checked EffectiveImage)
exported_walk none = none
exported_walk (some found) = some (found >>= exported)

-- One round for each listed image, and one for what is not listed.
unfoldable pub template_export_image : Text → List ImageRow → Option (Checked EffectiveImage)
unfolding walk visit visit_row exported exported_walk row_by_id
template_export_image image_id images = elim (base_image image_id) [
  | some base ↦ some (ok (base_only base))
  | none ↦ exported_walk (walk image_id images (length images + 2) [] image_id [])
]

pub data PlanReason : Type 0 where
  ready missing packages parent : PlanReason

pub record TemplateImagePlan : Type 0 where
  pub effective : EffectiveImage
  pub image_id : Text
  pub built_at : Text
  pub present : Bool
  pub rebuild : Bool
  pub needs_build : Bool
  pub reason : PlanReason

-- `status === s`
abbrev pub status_is : Text → Option Text → Bool
status_is s none = false
status_is s (some t) = t === s

abbrev or_blank : Option Text → Text
or_blank none = []
or_blank (some s) = s

-- `listed.some((pkg, index) => pkg !== expected[index])`
pub differs : List Text → List Text → Bool
differs [] expected = false
differs (p ∷ ps) [] = true
differs (p ∷ ps) (q ∷ qs) = not (p === q) || differs ps qs

absent_plan : EffectiveImage → Text → TemplateImagePlan
absent_plan effective image_id = record {
  effective = effective;
  image_id = image_id;
  built_at = [];
  present = false;
  rebuild = false;
  needs_build = true;
  reason = missing;
}

listed_plan : EffectiveImage → Text → Text → PlanReason → TemplateImagePlan
listed_plan effective image_id built_at ready = record {
  effective = effective;
  image_id = image_id;
  built_at = built_at;
  present = true;
  rebuild = false;
  needs_build = false;
  reason = ready;
}
listed_plan effective image_id built_at reason = record {
  effective = effective;
  image_id = image_id;
  built_at = built_at;
  present = true;
  rebuild = true;
  needs_build = true;
  reason = reason;
}

base_plan : BaseImage → Option ImageRow → TemplateImagePlan
base_plan base none = absent_plan (base_only base) (base_name base)
base_plan base (some row) =
    if not (status_is (text "built") row.status) && not (status_is (text "pulled") row.status)
    then absent_plan (base_only base) (base_name base)
    else listed_plan (base_only base) (base_name base) (or_blank row.built_at) ready

-- Why a listed template image is rebuilt, if it is.
recipe_reason : BaseImage → List Text → ImageRow → PlanReason
recipe_reason base wanted row =
    let listed = sort text_le row.packages in
    if not (row.parent === base_name base)
    then parent
    else if not (length listed == length wanted) || differs listed wanted
    then packages
    else ready

template_plan : BaseImage → List Text → Text → Option ImageRow → TemplateImagePlan
template_plan base wanted image_id none = absent_plan (with_packages base wanted) image_id
template_plan base wanted image_id (some row) =
    if status_is (text "missing") row.status
    then absent_plan (with_packages base wanted) image_id
    else listed_plan (with_packages base wanted) image_id (or_blank row.built_at)
        (recipe_reason base wanted row)

unfoldable pub template_image_plan : EffectiveImage → Text → List ImageRow → TemplateImagePlan
unfolding base_plan template_plan recipe_reason absent_plan listed_plan differs
template_image_plan (base_only base) image_id images =
    base_plan base (find? (λ row. row.image_id === base_name base) images)
template_image_plan (with_packages base wanted) image_id images =
    template_plan base wanted image_id (find? (λ row. row.image_id === image_id) images)
