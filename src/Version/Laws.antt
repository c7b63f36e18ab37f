-- ===== src/Version/Laws.antt =====
-- When two versions work together (src/version-compat.ts).
use dsh_podman.Prelude.{
  ℕ, ◌≡◌, ◌↔◌, ◌⊎◌, refl, subst, inl, inr, true, [], ◌∷◌, Option, none, some, arith, ==_iff,
}
use dsh_podman.Text.{Text, is_empty}
use dsh_podman.Text.Laws.{===_iff}
use dsh_podman.Version.{compatible, core, major, same_major, version_state}

is_empty_iff : (s : Text) → (is_empty s ≡ true) ↔ (s ≡ [])
is_empty_iff [] = (λ h. refl, λ h. refl)
is_empty_iff (c ∷ s) = (λ h. cc, λ h. cc)

same_major_refl : (o : Option ℕ) → same_major o o ≡ true
unfolding same_major
same_major_refl none = refl
same_major_refl (some a) = (==_iff a a).1 refl

module _ (number : Text → ℕ) where
  same_major_of_core :
      (p o : Text) → core p ≡ core o → same_major (major number p) (major number o) ≡ true
  same_major_of_core p o h =
      let majors : major number p ≡ major number o = unfold major in (rw h refl) in
      subst (λ m. same_major (major number p) m ≡ true) majors (same_major_refl (major number p))

  -- The two halves are compatible exactly where the orchestrator has no comparable version or both
  -- have the same core, whatever stands after it.
  pub version_state-compatible_iff :
      (plugin orchestrator : Text)
      → (version_state number plugin orchestrator ≡ compatible)
        ↔ ((core orchestrator ≡ []) ⊎ (core plugin ≡ core orchestrator))
  unfolding version_state
  version_state-compatible_iff plugin orchestrator = (
    λ h. forward h,
    λ h. elim h [ inl e ↦ rw ((is_empty_iff (core orchestrator)).1 e) refl | inr e ↦ equal e ],
  )
    where
      forward :
          version_state number plugin orchestrator ≡ compatible
          → (core orchestrator ≡ []) ⊎ (core plugin ≡ core orchestrator)
      forward h =
          ground
            (arith, is_empty_iff (core orchestrator), ===_iff (core plugin) (core orchestrator))

      equal :
          core plugin ≡ core orchestrator → version_state number plugin orchestrator ≡ compatible
      equal e = ground (
        arith,
        same_major_of_core plugin orchestrator e,
        ===_iff (core plugin) (core orchestrator),
      )
