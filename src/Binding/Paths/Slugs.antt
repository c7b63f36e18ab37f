-- ===== src/Binding/Paths/Slugs.antt =====
-- The slugs of workspaces (src/workspace-binding.ts).
use dsh_podman.Prelude.{
  ℕ, suc, ◌≡◌, ◌≢◌, refl, ap, ◌∙◌, subst, inl, inr, Bool-cases, true, ◌==◌, List, [], ◌∷◌, length,
  all, map, All, arith, &&_parts, ok, ok-injective,
}
use dsh_podman.Text.{Text, split, push_head, lower_unit, to_lower_case}
use dsh_podman.Text.Laws.{Without, join-split, join-Without}
use dsh_podman.Binding.Paths.{
  is_hex, is_group, are_groups, uuid_sizes, matches_uuid, workspace_slug,
}

lower_unit-hex : (c : ℕ) → is_hex c ≡ true → (is_hex (lower_unit c) ≡ true) × (lower_unit c ≢ 58)
unfolding lower_unit
lower_unit-hex c h = (ground (arith, h), λ e. ground (arith, h, e))

lower_unit-dash : (c : ℕ) → (lower_unit c == 45) ≡ (c == 45)
unfolding lower_unit
lower_unit-dash c = ground arith

lower_unit_idem : (c : ℕ) → lower_unit (lower_unit c) ≡ lower_unit c
unfolding lower_unit
lower_unit_idem c = ground arith

split-lower : (s : Text) → split 45 (map lower_unit s) ≡ map (map lower_unit) (split 45 s)
unfolding split
split-lower [] = refl
split-lower (x ∷ s) = elim (Bool-cases (x == 45)) [
  | inl e ↦ rw (lower_unit-dash x, e) (ap (λ parts. [] ∷ parts) (split-lower s))
  | inr e ↦
      rw (lower_unit-dash x, e) (pushed (split 45 s) (split 45 (map lower_unit s)) (split-lower s))
]
  where
    pushed :
        (parts lowered : List Text)
        → lowered ≡ map (map lower_unit) parts
        → push_head (lower_unit x) lowered ≡ map (map lower_unit) (push_head x parts)
    pushed [] lowered e = rw e refl
    pushed (p ∷ parts) lowered e = rw e refl

length-map : (f : ℕ → ℕ) (s : Text) → length (map f s) ≡ length s
length-map f [] = refl
length-map f (x ∷ s) = ap suc (length-map f s)

all-lower : (s : Text) → all is_hex s ≡ true → all is_hex (map lower_unit s) ≡ true
all-lower [] h = refl
all-lower (x ∷ s) h =
    let (p, q) = &&_parts (is_hex x) (all is_hex s) h in
    let (r, n) = lower_unit-hex x p in rw (r, all-lower s q) refl

are_groups-lower :
    (sizes : List ℕ) (parts : List Text)
    → are_groups sizes parts ≡ true
    → are_groups sizes (map (map lower_unit) parts) ≡ true
are_groups-lower [] [] h = refl
are_groups-lower [] (p ∷ parts) h = ground (arith, h)
are_groups-lower (n ∷ sizes) [] h = ground (arith, h)
are_groups-lower (n ∷ sizes) (p ∷ parts) h =
    let (a, b) = &&_parts (is_group n p) (are_groups sizes parts) h in
    let (c, d) = &&_parts (length p == n) (all is_hex p) a in
    rw (length-map lower_unit p, c, all-lower p d, are_groups-lower sizes parts b) refl

hex-Without : (s : Text) → all is_hex s ≡ true → Without 58 s
hex-Without [] h = tt
hex-Without (x ∷ s) h =
    let (p, q) = &&_parts (is_hex x) (all is_hex s) h in
    (λ e. ground (arith, p, e), hex-Without s q)

are_groups-Without :
    (sizes : List ℕ) (parts : List Text) → are_groups sizes parts ≡ true → All (Without 58) parts
are_groups-Without [] [] h = tt
are_groups-Without [] (p ∷ parts) h = ground (arith, h)
are_groups-Without (n ∷ sizes) [] h = ground (arith, h)
are_groups-Without (n ∷ sizes) (p ∷ parts) h =
    let (a, b) = &&_parts (is_group n p) (are_groups sizes parts) h in
    (hex-Without p (&&_parts (length p == n) (all is_hex p) a).1, are_groups-Without sizes parts b)

map-lower_idem : (s : Text) → map lower_unit (map lower_unit s) ≡ map lower_unit s
map-lower_idem [] = refl
map-lower_idem (x ∷ s) = rw (lower_unit_idem x, map-lower_idem s) refl

-- What `workspaceSlug` returns holds no colon, which separates it from the name of a container in
-- a cache key, and `workspaceSlug` returns it unchanged when it is given again.
pub workspace_slug-Without :
    (id slug : Text)
    → workspace_slug id ≡ ok slug
    → Without 58 slug × (workspace_slug slug ≡ ok slug)
unfolding workspace_slug to_lower_case matches_uuid
workspace_slug-Without id slug e = elim (Bool-cases (matches_uuid id)) [
  | inl h ↦
      let same : map lower_unit id ≡ slug = ok-injective (rw h at e) in
      let groups : are_groups uuid_sizes (split 45 (map lower_unit id)) ≡ true =
        ap (are_groups uuid_sizes) (split-lower id) ∙ are_groups-lower uuid_sizes (split 45 id) h in
      (
        subst (Without 58) same (
            subst (Without 58) (join-split 45 (map lower_unit id)) (
              join-Without 45 58 (split 45 (map lower_unit id)) (λ f. omega (arith, f))
                (are_groups-Without uuid_sizes _ groups))),
        subst (λ t. workspace_slug t ≡ ok t) same (rw (groups, map-lower_idem id) refl),
      )
  | inr h ↦ absurd (cc (rw h at e))
]
