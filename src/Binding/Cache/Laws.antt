-- ===== src/Binding/Cache/Laws.antt =====
-- What a mutation leaves in the cache of containers (src/workspace-binding.ts).
use dsh_podman.Prelude.{
  ◌≡◌, refl, sym, ap, ◌∙◌, inl, inr, Bool-cases, Bool, false, not, ◌&&◌, [], ◌∷◌, ◌++◌, Option,
  none, some, if◌then◌else◌, filter, arith,
}
use dsh_podman.Text.{Text, text, ◌===◌, is_empty, starts_with}
use dsh_podman.Text.Laws.{===_iff, Without}
use dsh_podman.Binding.Cache.{
  Cache, cached, drop_key, container_key, forget_container, forget_workspace, Scope, of_one, of_all,
  container_mutation, forget, invalidate_after, ptc_container, ptc_binding_key,
}

starts_with-key :
    (a b c : Text)
    → Without 58 a
    → Without 58 b
    → starts_with (container_key b c) (a ++ 58 ∷ []) ≡ (b === a)
unfolding starts_with ◌===◌
starts_with-key [] [] c h k = refl
starts_with-key [] (x ∷ b) c h k = ground arith
starts_with-key (y ∷ a) [] c h k = ground arith
starts_with-key (y ∷ a) (x ∷ b) c h k = ground (arith, starts_with-key a b c h.1 k.1)

===-key :
    (a b c d : Text)
    → Without 58 a
    → Without 58 b
    → (container_key b c === container_key a d) ≡ (b === a && c === d)
unfolding ◌===◌
===-key [] [] c d h k = refl
===-key [] (x ∷ b) c d h k = ground arith
===-key (y ∷ a) [] c d h k = ground arith
===-key (y ∷ a) (x ∷ b) c d h k = ground (arith, ===-key a b c d h.1 k.1)

module _ {ℓ} {A : Type ℓ} where
  pub cached-filter :
      (q : Text → Bool) (key : Text) (entries : Cache A)
      → cached key (filter (λ e. not (q e.0)) entries)
        ≡ (if q key then none else cached key entries)
  cached-filter q key [] = elim (Bool-cases (q key)) [ inl e ↦ rw e refl | inr e ↦ rw e refl ]
  cached-filter q key ((k, a) ∷ entries) = elim (Bool-cases (k === key)) [
    | inl e ↦
        let same : q k ≡ q key = ap q ((===_iff k key).0 e) in
        elim (Bool-cases (q k)) [
          | inl f ↦ rw f (cached-filter q key entries ∙ rw (sym same ∙ f) refl)
          | inr f ↦ rw (f, e, sym same ∙ f) refl
        ]
    | inr e ↦ elim (Bool-cases (q k)) [
      | inl f ↦ rw (f, e) (cached-filter q key entries)
      | inr f ↦ rw (f, e) (cached-filter q key entries)
    ]
  ]

-- Whether a mutation of one container drops the entry of another.
abbrev reaches : Scope → Text → Text → Text → Text → Bool
reaches of_all slug container other named = other === slug
reaches of_one slug container other named =
    not (is_empty container) && (other === slug && named === container)

abbrev pub drops : Option Scope → Text → Text → Text → Text → Bool
drops none slug container other named = false
drops (some scope) slug container other named = reaches scope slug container other named

-- After a successful call of the control plane that names a workspace, the cache answers for every
-- container of every workspace as before, but for those that the call reaches, of which it holds
-- none: all containers of a workspace that is removed, whatever container the call names, if it
-- names one; and the named container of another mutation, if it names one. The names of workspaces
-- are slugs, which hold no colon.
pub invalidate_after-cached {ℓ} :
    {A : Type ℓ} (entries : Cache A) (method slug container other named : Text)
    → Without 58 slug
    → Without 58 other
    → is_empty slug ≡ false
    → cached (container_key other named) (invalidate_after method slug container entries) ≡ (
        if drops (container_mutation method) slug container other named
        then none
        else cached (container_key other named) entries)
unfolding invalidate_after
invalidate_after-cached {A} entries method slug container other named h k some_slug =
    by_scope (container_mutation method)
  where
    forgotten :
        (scope : Scope)
        → cached (container_key other named) (forget scope slug container entries) ≡ (
            if reaches scope slug container other named
            then none
            else cached (container_key other named) entries)
    forgotten of_all =
        unfold forget forget_workspace in
        (cached-filter (λ key. starts_with key (slug ++ 58 ∷ [])) (container_key other named)
            entries
          ∙ ap (λ b. if b then none else cached (container_key other named) entries)
              (starts_with-key slug other named h k))
    forgotten of_one =
        unfold forget forget_container in
        elim (Bool-cases (is_empty container)) [
          | inl no_container ↦ rw no_container refl
          | inr some_container ↦ rw some_container (
              cached-filter (λ key. key === container_key slug container)
                (container_key other named) entries
              ∙ ap (λ b. if b then none else cached (container_key other named) entries)
                  (===-key slug other named container h k))
        ]

    by_scope :
        (o : Option Scope)
        → cached (container_key other named) (elim o [
          | none ↦ entries
          | some scope ↦
              if is_empty slug
              then if method === text "removeContainer" && container === ptc_container
                then drop_key ptc_binding_key entries
                else entries
              else forget scope slug container entries
        ])
          ≡ (if drops o slug container other named
              then none
              else cached (container_key other named) entries)
    by_scope none = refl
    by_scope (some scope) = rw some_slug (forgotten scope)
