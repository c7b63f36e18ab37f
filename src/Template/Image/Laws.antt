-- ===== src/Template/Image/Laws.antt =====
-- When a template image is built, and what it is (src/container-template.ts).
use mathlib.Core.Option.{some-injective}
use dsh_podman.Prelude.{
  ◌≡◌, ◌≢◌, ◌↔◌, refl, sym, inl, inr, true, false, List, [], ◌∷◌, Option, none, some, arith,
  Bool-cases, ok, subst, not, ◌&&◌, ◌||◌, length, find?,
}
use dsh_podman.Prelude.Sort.{sort}
use dsh_podman.Text.{Text, text, ◌===◌, text_le}
use dsh_podman.Text.Laws.{===_iff, ===_refl}
use dsh_podman.Template.{
  BaseImage, base_name, TemplateImage, ContainerTemplate, EffectiveImage, base_only, with_packages,
}
use dsh_podman.Template.Packages.Canonical.{canonical_packages_of_IsCanonical}
use dsh_podman.Template.Validate.Laws.{ImageIsValid, IsCanonicalSpec}
use dsh_podman.Template.Image.{
  effective_of, effective_image, ImageRow, PlanReason, ready, missing, packages, parent,
  TemplateImagePlan, status_is, or_blank, differs, absent_plan, listed_plan, base_plan,
  recipe_reason, template_plan, template_image_plan,
}

-- The image that a canonical spec names, read off its fields.
pub named_image : Option BaseImage → Option TemplateImage → Option EffectiveImage
named_image image (some t) = some (with_packages t.base t.packages)
named_image (some base) none = some (base_only base)
named_image none none = none

effective_of_valid :
    (image : Option BaseImage) (t : Option TemplateImage)
    → ImageIsValid image t
    → (e : EffectiveImage) × (effective_of image t ≡ ok e) × (named_image image t ≡ some e)
unfolding effective_of named_image
effective_of_valid none none h = absurd h
effective_of_valid (some base) none h = (base_only base, refl, refl)
effective_of_valid none (some t) (c, n) = (
  with_packages t.base t.packages,
  rw (canonical_packages_of_IsCanonical t.base t.packages c),
  refl,
)
effective_of_valid (some base) (some t) h = absurd h

-- An accepted template always has an image, and it is the one that the template states: working it
-- out again changes no package list.
pub effective_image_of_IsCanonicalSpec :
    (template : ContainerTemplate)
    → IsCanonicalSpec template.spec
    → (e : EffectiveImage) × (effective_image template ≡ ok e)
      × (named_image template.spec.image template.spec.image_template ≡ some e)
unfolding effective_image
effective_image_of_IsCanonicalSpec template c =
    effective_of_valid template.spec.image template.spec.image_template c.one_image

differs-false : (xs ys : List Text) → length xs ≡ length ys → differs xs ys ≡ false → xs ≡ ys
unfolding differs
differs-false [] [] l h = refl
differs-false [] (y ∷ ys) l h = absurd (omega arith)
differs-false (x ∷ xs) [] l h = absurd (omega arith)
differs-false (x ∷ xs) (y ∷ ys) l h = ground (arith, ===_iff x y, differs-false xs ys)

differs_refl : (xs : List Text) → differs xs xs ≡ false
unfolding differs
differs_refl [] = refl
differs_refl (x ∷ xs) = ground (arith, ===_refl x, differs_refl xs)

-- A record of podman that its image is gone.
abbrev pub IsStale : ImageRow → Type 0
IsStale row = status_is (text "missing") row.status ≡ true

-- The recipe of a listed image is the wanted one.
abbrev pub HasRecipe : BaseImage → List Text → ImageRow → Type 0
HasRecipe base wanted row = (row.parent ≡ base_name base) × (sort text_le row.packages ≡ wanted)

recipe_reason-ready_iff :
    (base : BaseImage) (wanted : List Text) (row : ImageRow)
    → (recipe_reason base wanted row ≡ ready) ↔ HasRecipe base wanted row
unfolding recipe_reason
recipe_reason-ready_iff base wanted row = (
  λ h. ground (
    arith,
    ===_iff row.parent (base_name base),
    differs-false (sort text_le row.packages) wanted,
  ),
  λ (p, q). ground (arith, ===_iff row.parent (base_name base), differs_refl wanted),
)

listed_plan-needs_build :
    (e : EffectiveImage) (id built_at : Text) (r : PlanReason)
    → ((listed_plan e id built_at r).needs_build ≡ false) ↔ (r ≡ ready)
unfolding listed_plan
listed_plan-needs_build e id built_at ready = (λ h. refl, λ h. refl)
listed_plan-needs_build e id built_at missing = (λ h. cc, λ h. cc)
listed_plan-needs_build e id built_at packages = (λ h. cc, λ h. cc)
listed_plan-needs_build e id built_at parent = (λ h. cc, λ h. cc)

template_plan-reuse_iff :
    (base : BaseImage) (wanted : List Text) (image_id : Text) (o : Option ImageRow)
    → ((template_plan base wanted image_id o).needs_build ≡ false)
      ↔ ((row : ImageRow) × (o ≡ some row) × ¬ (IsStale row) × HasRecipe base wanted row)
unfolding template_plan
template_plan-reuse_iff base wanted image_id none = (λ h. unfold absent_plan in cc, λ r. cc (r.1))
template_plan-reuse_iff base wanted image_id (some row) =
    let recipe = recipe_reason-ready_iff base wanted row in
    let plan =
      listed_plan-needs_build (with_packages base wanted) image_id (or_blank row.built_at)
        (recipe_reason base wanted row) in
    elim (Bool-cases (status_is (text "missing") row.status)) [
      | inl stale ↦ (
        λ h. unfold absent_plan in cc (rw stale at h),
        λ r. absurd (r.2 (subst IsStale (some-injective _ _ r.1) stale)),
      )
      | inr fresh ↦ (
        λ h. (row, refl, (λ stale. cc), recipe.0 (plan.0 (rw fresh at h))),
        λ r.
            rw fresh (
              plan.1 (recipe.1 (subst (HasRecipe base wanted) (sym (some-injective _ _ r.1)) r.3))),
      )
    ]

-- A template image is reused exactly when the first listed row of its id is not stale and was built
-- from the same base with the same packages, in whatever order the row lists them.
pub template_image_plan-reuse_iff :
    (base : BaseImage) (wanted : List Text) (image_id : Text) (images : List ImageRow)
    → ((template_image_plan (with_packages base wanted) image_id images).needs_build ≡ false) ↔ (
        (row : ImageRow) × (find? (λ r. r.image_id === image_id) images ≡ some row)
        × ¬ (IsStale row)
        × HasRecipe base wanted row)
template_image_plan-reuse_iff base wanted image_id images =
    unfold template_image_plan in
    template_plan-reuse_iff base wanted image_id (find? (λ r. r.image_id === image_id) images)

-- The flags of a plan tell one story.
pub record IsConsistent (plan : TemplateImagePlan) : Type 0 where
  pub build : plan.needs_build ≡ (not plan.present || plan.rebuild)
  pub reason_ready : (plan.reason ≡ ready) ↔ (plan.needs_build ≡ false)
  pub reason_missing : (plan.reason ≡ missing) ↔ (plan.present ≡ false)

listed_plan-IsConsistent :
    (e : EffectiveImage) (id built_at : Text) (r : PlanReason)
    → r ≢ missing
    → IsConsistent (listed_plan e id built_at r)
unfolding listed_plan
listed_plan-IsConsistent e id built_at ready n = record {
  build = refl;
  reason_ready = ground arith;
  reason_missing = ground arith;
}
listed_plan-IsConsistent e id built_at missing n = absurd (n refl)
listed_plan-IsConsistent e id built_at packages n = record {
  build = refl;
  reason_ready = ground arith;
  reason_missing = ground arith;
}
listed_plan-IsConsistent e id built_at parent n = record {
  build = refl;
  reason_ready = ground arith;
  reason_missing = ground arith;
}

absent_plan-IsConsistent : (e : EffectiveImage) (id : Text) → IsConsistent (absent_plan e id)
unfolding absent_plan
absent_plan-IsConsistent e id = record {
  build = refl;
  reason_ready = ground arith;
  reason_missing = ground arith;
}

recipe_reason-ne-missing :
    (base : BaseImage) (wanted : List Text) (row : ImageRow)
    → recipe_reason base wanted row ≢ missing
unfolding recipe_reason
recipe_reason-ne-missing base wanted row h = ground arith

base_plan-IsConsistent : (base : BaseImage) (o : Option ImageRow) → IsConsistent (base_plan base o)
unfolding base_plan
base_plan-IsConsistent base none = absent_plan-IsConsistent _ _
base_plan-IsConsistent base (some row) =
    elim (Bool-cases
      (not (status_is (text "built") row.status) && not (status_is (text "pulled") row.status))) [
        | inl e ↦ rw e (absent_plan-IsConsistent _ _)
        | inr e ↦ rw e (listed_plan-IsConsistent _ _ _ ready (λ h. cc))
      ]

template_plan-IsConsistent :
    (base : BaseImage) (wanted : List Text) (id : Text) (o : Option ImageRow)
    → IsConsistent (template_plan base wanted id o)
unfolding template_plan
template_plan-IsConsistent base wanted id none = absent_plan-IsConsistent _ _
template_plan-IsConsistent base wanted id (some row) =
    elim (Bool-cases (status_is (text "missing") row.status)) [
      | inl e ↦ rw e (absent_plan-IsConsistent _ _)
      | inr e ↦ rw e (listed_plan-IsConsistent _ _ _ _ (recipe_reason-ne-missing base wanted row))
    ]

-- In every plan a build is due exactly when the image is absent or its recipe differs, the reason is
-- "ready" exactly when no build is due, and "missing" exactly when the image is absent.
pub template_image_plan-IsConsistent :
    (e : EffectiveImage) (id : Text) (images : List ImageRow)
    → IsConsistent (template_image_plan e id images)
unfolding template_image_plan
template_image_plan-IsConsistent (base_only base) id images = base_plan-IsConsistent base _
template_image_plan-IsConsistent (with_packages base wanted) id images =
    template_plan-IsConsistent base wanted id _
