-- ===== src/Template/Packages/Canonical.antt =====
-- `canonicalPackages` gives each package set one list.
use dsh_podman.Prelude.{
  ◌≡◌, sym, ap, ◌∙◌, inl, inr, true, false, List, [], ◌∷◌, ◌++◌, arith, All, Bool-cases, subst, not,
  ◌&&◌, map, ok, >>=-eq-ok, append-nil, append_assoc, All-of_forall,
}
use dsh_podman.Prelude.Sort.{sort, IsSorted, sort-All, sort-IsSorted, sort_of_IsSorted}
use dsh_podman.Text.{Text, includes, text_le}
use dsh_podman.Text.Order.{text_le_total, text_le_trans}
use dsh_podman.Text.Sets.{
  Distinct, includes-nil, includes-sort, sort-Distinct, not-includes-append,
  IsSorted-eq_of_includes,
}
use dsh_podman.Value.{Value, str}
use dsh_podman.Template.{BaseImage}
use dsh_podman.Template.Names.{valid_package_name}
use dsh_podman.Template.Packages.{base_image_packages, add, collect, canonical_packages}
use dsh_podman.Template.Packages.Laws.{
  IsCanonical, texts, collect-All, collect-Distinct, collect-includes,
}

-- The set that the loop collected is the one that the sorted list comes from.
canonical-collected :
    (base : BaseImage) (vs : List Value) {out : List Text}
    → canonical_packages base vs ≡ ok out
    → (set : List Text) × (collect (base_image_packages base) [] vs ≡ ok set)
      × (sort text_le set ≡ out)
unfolding canonical_packages
canonical-collected base vs e =
    let (set, collected, sorted) = >>=-eq-ok (collect (base_image_packages base) [] vs) _ e in
    (set, collected, ground arith)

-- A list that is accepted has valid names only, none of them built in to its base image, in
-- ascending order, each once.
pub canonical_packages-IsCanonical :
    (base : BaseImage) (vs : List Value) {out : List Text}
    → canonical_packages base vs ≡ ok out
    → IsCanonical base out
canonical_packages-IsCanonical base vs e =
    let builtins = base_image_packages base in
    let (set, collected, sorted) = canonical-collected base vs e in
    record {
      valid =
          subst (All _) sorted
            (sort-All text_le _ set (collect-All _ builtins (λ s v b. v) [] vs tt collected));
      extra =
          subst (All _) sorted
            (sort-All text_le _ set (collect-All _ builtins (λ s v b. b) [] vs tt collected));
      sorted =
          subst (IsSorted text_le) sorted (sort-IsSorted text_le text_le_total text_le_trans set);
      distinct =
          subst Distinct sorted (sort-Distinct set (collect-Distinct builtins [] vs tt collected));
    }

-- What a canonical list holds: the names that were given, less the built-in ones.
pub canonical_packages-includes :
    (a : Text) (base : BaseImage) (vs : List Value) {out : List Text}
    → canonical_packages base vs ≡ ok out
    → includes a out ≡ (includes a (texts vs) && not (includes a (base_image_packages base)))
canonical_packages-includes a base vs e =
    let (set, collected, sorted) = canonical-collected base vs e in
    ap (includes a) (sym sorted)
    ∙ includes-sort a set
    ∙ collect-includes a (base_image_packages base) [] vs collected
    ∙ rw (includes-nil a)

-- Two spellings of one package set give one list: order, repetition and built-in packages play no
-- part.
pub canonical_packages-eq_of_includes :
    (base : BaseImage) (vs ws : List Value) {xs ys : List Text}
    → canonical_packages base vs ≡ ok xs
    → canonical_packages base ws ≡ ok ys
    → ((a : Text)
        → includes a (base_image_packages base) ≡ false
        → includes a (texts vs) ≡ includes a (texts ws))
    → xs ≡ ys
canonical_packages-eq_of_includes base vs ws {xs} {ys} e d same =
    let c = canonical_packages-IsCanonical base vs e in
    let k = canonical_packages-IsCanonical base ws d in
    IsSorted-eq_of_includes xs ys c.sorted k.sorted c.distinct k.distinct members
  where
    members : (a : Text) → includes a xs ≡ includes a ys
    members a = elim (Bool-cases (includes a (base_image_packages base))) [
      | inl b ↦
          canonical_packages-includes a base vs e
          ∙ ground arith
          ∙ sym (canonical_packages-includes a base ws d)
      | inr b ↦
          canonical_packages-includes a base vs e
          ∙ ap (λ t. t && not (includes a (base_image_packages base))) (same a b)
          ∙ sym (canonical_packages-includes a base ws d)
    ]

collect_of_canonical :
    (base : BaseImage) (seen rest : List Text)
    → All (λ p. valid_package_name p ≡ true) rest
    → All (λ p. includes p (base_image_packages base) ≡ false) rest
    → Distinct rest
    → All (λ p. includes p seen ≡ false) rest
    → collect (base_image_packages base) seen (map str rest) ≡ ok (seen ++ rest)
unfolding collect add
collect_of_canonical base seen [] v b d n = ap ok (sym (append-nil seen))
collect_of_canonical base seen (p ∷ rest) (v, vs) (b, bs) (new, d) (n, ns) = rw v (
    rw b (
      rw n (
        collect_of_canonical base (seen ++ p ∷ []) rest vs bs d
          (not-includes-append seen p rest ns new)
        ∙ ap ok (append_assoc seen (p ∷ []) rest))))

-- A canonical list is its own canonical form, so reading back what was written changes nothing.
pub canonical_packages_of_IsCanonical :
    (base : BaseImage) (packages : List Text)
    → IsCanonical base packages
    → canonical_packages base (map str packages) ≡ ok packages
unfolding canonical_packages
canonical_packages_of_IsCanonical base packages c =
    rw
      (collect_of_canonical base [] packages c.valid c.extra c.distinct
        (All-of_forall _ (λ q. includes-nil q) packages))
      (ap ok (sort_of_IsSorted text_le packages c.sorted))
