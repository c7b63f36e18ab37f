-- ===== src/Template/Image/Chains.antt =====
-- The parent chain of an exported image (src/container-template.ts, `templateExportImage`).
use mathlib.Core.Option.{some-injective}
use dsh_podman.Prelude.{
  ℕ, zero, suc, ◌+◌, ◌≤◌, ◌<◌, ◌≡◌, ◌⊎◌, refl, sym, ap, ◌∙◌, inl, inr, false, List, [], ◌∷◌, ◌++◌,
  Option, none, some, arith, Option-cases, ok, throw, ◌>>=◌, >>=-eq-ok, if◌then◌else◌, length, map,
  append_assoc, append-nil, ok-injective,
}
use dsh_podman.Text.{Text, includes}
use dsh_podman.Text.Laws.{===_iff}
use dsh_podman.Text.Sets.{includes-cons}
use dsh_podman.Value.{str}
use dsh_podman.Template.{Checked, TemplateError, BaseImage, base_image, EffectiveImage, base_only}
use dsh_podman.Template.Packages.{canonical_packages}
use dsh_podman.Template.Image.{
  ImageRow, row_by_id, Visit, stopped, arrived, onward, visit, walk, image_with, exported,
  exported_walk, template_export_image,
}

-- The image's parents lead to a base image; the packages are those of the images on the way.
pub data Chain (images : List ImageRow) : Text → BaseImage → List Text → Type 0 where
  at_base : (id : Text) (base : BaseImage) → base_image id ≡ some base → Chain images id base []
  step :
      (id : Text) (row : ImageRow) {base : BaseImage} {packages : List Text}
      → base_image id ≡ none
      → row_by_id id images ≡ some row
      → Chain images row.parent base packages
      → Chain images id base (row.packages ++ packages)

-- The listed images that the walk has not come by.
pub unseen : List Text → List ImageRow → ℕ
unseen seen [] = 0
unseen seen (row ∷ rows) = (if includes row.image_id seen then 0 else 1) + unseen seen rows

unseen-le-length : (seen : List Text) (rows : List ImageRow) → unseen seen rows ≤ length rows
unfolding unseen
unseen-le-length seen [] = omega arith
unseen-le-length seen (row ∷ rows) = ground (arith, unseen-le-length seen rows)

unseen-cons-le :
    (id : Text) (seen : List Text) (rows : List ImageRow)
    → unseen (id ∷ seen) rows ≤ unseen seen rows
unfolding unseen
unseen-cons-le id seen [] = omega arith
unseen-cons-le id seen (row ∷ rows) =
    ground (arith, unseen-cons-le id seen rows, includes-cons row.image_id id seen)

-- A listed image that is come by for the first time is one less.
unseen-cons-lt :
    (id : Text) (seen : List Text) (rows : List ImageRow) {row : ImageRow}
    → row_by_id id rows ≡ some row
    → includes id seen ≡ false
    → unseen (id ∷ seen) rows < unseen seen rows
unfolding unseen row_by_id
unseen-cons-lt id seen [] e n = cc
unseen-cons-lt id seen (r ∷ rows) e n = elim (Option-cases (row_by_id id rows)) [
  | inr (later, k) ↦
      ground (arith, unseen-cons-lt id seen rows k n, includes-cons r.image_id id seen)
  | inl k ↦
      ground (
        arith,
        ===_iff r.image_id id,
        unseen-cons-le id seen rows,
        includes-cons r.image_id id seen,
      )
]

Visit-cases :
    (v : Visit)
    → ((e : TemplateError) × (v ≡ stopped e))
      ⊎ ((base : BaseImage) × (v ≡ arrived base))
      ⊎ ((row : ImageRow) × (v ≡ onward row))
Visit-cases (stopped e) = inl (e, refl)
Visit-cases (arrived base) = inr (inl (base, refl))
Visit-cases (onward row) = inr (inr (row, refl))

visit-arrived :
    (start : Text) (images : List ImageRow) (seen : List Text) (current : Text) {base : BaseImage}
    → visit start images seen current ≡ arrived base
    → base_image current ≡ some base
unfolding visit
visit-arrived start images seen current e = ground arith

visit-onward :
    (start : Text) (images : List ImageRow) (seen : List Text) (current : Text) {row : ImageRow}
    → visit start images seen current ≡ onward row
    → (includes current seen ≡ false)
      × (base_image current ≡ none)
      × (row_by_id current images ≡ some row)
unfolding visit
visit-onward start images seen current e = ground arith

module _ (start : Text) (images : List ImageRow) where
  -- The walk ends: with fuel above the number of images that it has not come by, it has a result.
  walk_total :
      (fuel : ℕ) (seen : List Text) (current : Text) (packages : List Text)
      → unseen seen images < fuel
      → (r : Checked (BaseImage × List Text)) × (walk start images fuel seen current packages
          ≡ some r)
  unfolding walk
  walk_total zero seen current packages h = elim h [ ]
  walk_total (suc fuel) seen current packages h =
      elim (Visit-cases (visit start images seen current)) [
        | inl (err, v) ↦ (throw err, rw (v, walk))
        | inr (inl (base, v)) ↦ (ok (base, packages), rw (v, walk))
        | inr (inr (row, v)) ↦
            let (fresh, b, listed) = visit-onward start images seen current v in
            let (r, found) =
              walk_total fuel (current ∷ seen) row.parent (packages ++ row.packages)
                (omega (arith, unseen-cons-lt current seen images listed fresh)) in
            (r, rw (v, walk) found)
      ]

  -- A walk that succeeds followed the parent chain, and gathered its packages in order.
  walk-Chain :
      (fuel : ℕ) (seen : List Text) (current : Text) (packages : List Text) {base : BaseImage}
      {found : List Text}
      → walk start images fuel seen current packages ≡ some (ok (base, found))
      → (more : List Text) × Chain images current base more × (found ≡ packages ++ more)
  unfolding walk
  walk-Chain zero seen current packages e = cc
  walk-Chain (suc fuel) seen current packages {base} {found} e =
      elim (Visit-cases (visit start images seen current)) [
        | inl (err, v) ↦ absurd (cc (rw (v, walk) at e))
        | inr (inl (b, v)) ↦ there b (visit-arrived start images seen current v) (rw (v, walk) at e)
        | inr (inr (row, v)) ↦
            let (fresh, b, listed) = visit-onward start images seen current v in
            let (more, chain, shape) =
              walk-Chain fuel (current ∷ seen) row.parent (packages ++ row.packages)
                (rw (v, walk) at e) in
            (
              row.packages ++ more,
              step current row b listed chain,
              shape ∙ append_assoc packages row.packages more,
            )
      ]
    where
      there :
          (b : BaseImage)
          → base_image current ≡ some b
          → ◌≡◌ {A = Option (Checked (BaseImage × List Text))}
              (some (ok (b, packages)))
              (some (ok (base, found)))
          → (more : List Text) × Chain images current base more × (found ≡ packages ++ more)
      there b k h =
          let pair : (b, packages) ≡ (base, found) = ok-injective (some-injective _ _ h) in
          (
            [],
            at_base current base (k ∙ ap some (ap (λ x. x.0) pair)),
            sym (ap (λ x. x.1) pair) ∙ sym (append-nil packages),
          )

exported_walk_total :
    (o : Option (Checked (BaseImage × List Text))) {w : Checked (BaseImage × List Text)}
    → o ≡ some w
    → (r : Checked EffectiveImage) × (exported_walk o ≡ some r)
unfolding exported_walk
exported_walk_total none e = cc
exported_walk_total (some found) e = (found >>= exported, refl)

-- The loop over the parents always ends: a round for each listed image and two more are enough,
-- whatever the parents are, cycles included.
pub template_export_image_total :
    (image_id : Text) (images : List ImageRow)
    → (r : Checked EffectiveImage) × (template_export_image image_id images ≡ some r)
unfolding template_export_image
template_export_image_total image_id images = elim (Option-cases (base_image image_id)) [
  | inr (base, e) ↦ (ok (base_only base), rw (e, template_export_image))
  | inl e ↦
      let (w, found) =
        walk_total image_id images (length images + 2) [] image_id []
          (omega (arith, unseen-le-length [] images)) in
      let (r, k) =
        exported_walk_total (walk image_id images (length images + 2) [] image_id []) found in
      (r, rw (e, template_export_image) k)
]

-- What an image exports as, stated by its parent chain.
abbrev pub ExportsAs : Text → List ImageRow → EffectiveImage → Type 0
ExportsAs image_id images image =
    (base : BaseImage) × (all_packages : List Text) × (kept : List Text) × Chain images image_id
      base all_packages
    × (canonical_packages base (map str all_packages) ≡ ok kept)
    × (image ≡ image_with base kept)

exported_walk-ExportsAs :
    (image_id : Text) (images : List ImageRow) (fuel : ℕ) {image : EffectiveImage}
    (o : Option (Checked (BaseImage × List Text)))
    → walk image_id images fuel [] image_id [] ≡ o
    → exported_walk o ≡ some (ok image)
    → ExportsAs image_id images image
unfolding exported_walk exported
exported_walk-ExportsAs image_id images fuel none w e = cc
exported_walk-ExportsAs image_id images fuel (some (throw err)) w e = cc
exported_walk-ExportsAs image_id images fuel (some (ok (base, packages))) w e =
    let (more, chain, shape) = walk-Chain image_id images fuel [] image_id [] w in
    let (kept, canonical, made) =
      >>=-eq-ok (canonical_packages base (map str packages)) _ (some-injective _ _ e) in
    (
      base,
      more,
      kept,
      chain,
      ap (λ ps. canonical_packages base (map str ps)) (sym shape) ∙ canonical,
      sym (ok-injective made),
    )

-- An export that succeeds names the base at the end of the image's parent chain, with the packages of
-- the whole chain in canonical form; without packages it is the base image itself.
pub template_export_image-ExportsAs :
    (image_id : Text) (images : List ImageRow) (image : EffectiveImage)
    → template_export_image image_id images ≡ some (ok image)
    → ExportsAs image_id images image
unfolding template_export_image
template_export_image-ExportsAs image_id images image e =
    elim (Option-cases (base_image image_id)) [
      | inr (base, k) ↦ (
        base,
        [],
        [],
        at_base image_id base k,
        unfold canonical_packages in refl,
        sym (ok-injective (some-injective _ _ (rw (k, template_export_image) at e))),
      )
      | inl k ↦
          exported_walk-ExportsAs image_id images (length images + 2) _ refl
            (rw (k, template_export_image) at e)
    ]
