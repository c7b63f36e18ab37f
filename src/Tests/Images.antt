-- ===== src/Tests/Images.antt =====
-- Image lists and the walk up the parents of an image.
use dsh_podman.Prelude.{◌≡◌, ◌↔◌, refl, false, List, [], ◌∷◌, none, some, ok, find?}
use dsh_podman.Prelude.Sort.{insert, sort}
use dsh_podman.Text.{Text, text, ◌===◌, includes, text_le}
use dsh_podman.Template.{Checked, ubuntu, EffectiveImage, with_packages, base_image}
use dsh_podman.Template.Names.{valid_package_name, matches_package}
use dsh_podman.Template.Packages.{base_image_packages, canonical_packages}
use dsh_podman.Template.Image.{ImageRow, row_by_id, template_export_image, template_image_plan}
use dsh_podman.Template.Image.Laws.{IsStale, HasRecipe, template_image_plan-reuse_iff}
use dsh_podman.Template.Image.Chains.{
  ExportsAs, template_export_image_total, template_export_image-ExportsAs,
}

abbrev images : List ImageRow
images =
    record {
      image_id = text "tools";
      parent = text "ubuntu";
      packages = text "nano" ∷ text "git" ∷ [];
      status = some (text "built");
      built_at = none;
    }
    ∷ record {
      image_id = text "extra";
      parent = text "tools";
      packages = text "htop" ∷ [];
      status = none;
      built_at = none;
    }
    ∷ []

abbrev kept : List Text
kept = text "htop" ∷ text "nano" ∷ []

exported : template_export_image (text "extra") images ≡ some (ok (with_packages ubuntu kept))
unfolding text ◌===◌ includes text_le insert sort base_image valid_package_name matches_package
    base_image_packages canonical_packages template_export_image row_by_id
exported = refl

template_export_image-ExportsAs_example :
    ExportsAs (text "extra") images (with_packages ubuntu kept)
template_export_image-ExportsAs_example =
    template_export_image-ExportsAs (text "extra") images (with_packages ubuntu kept) exported

template_export_image_total_example :
    (r : Checked EffectiveImage) × (template_export_image (text "extra") images ≡ some r)
template_export_image_total_example = template_export_image_total (text "extra") images

template_image_plan-reuse_iff_example :
    ((template_image_plan (with_packages ubuntu kept) (text "tools") images).needs_build ≡ false)
    ↔ ((row : ImageRow) × (find? (λ r. r.image_id === text "tools") images ≡ some row)
        × ¬ (IsStale row)
        × HasRecipe ubuntu kept row)
template_image_plan-reuse_iff_example =
    template_image_plan-reuse_iff ubuntu kept (text "tools") images
