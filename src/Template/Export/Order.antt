-- ===== src/Template/Export/Order.antt =====
-- The order of the mounts of an exported template (src/container-template.ts).
use dsh_podman.Prelude.{
  ℕ, ◌<◌, ◌≡◌, refl, ap, ◌∙◌, inl, inr, Bool, true, false, List, [], ◌∷◌, ◌++◌, arith, Bool-cases,
  if◌then◌else◌, not, ◌&&◌, ◌==◌, filter, append_assoc, All-of_forall,
}
use dsh_podman.Prelude.Ranks.{sort-classes}
use dsh_podman.Text.{Text, text, ◌===◌, is_empty}
use dsh_podman.Mount.Enums.{mount_kind_rank}
use dsh_podman.Mount.Order.{is_primary_project_mount}
use dsh_podman.Template.{TemplateMount, project, volume, secret, tmpfs}
use dsh_podman.Template.Export.{template_mount_rank, ordered_template_mounts}

-- The project mount of the workspace's own project.
abbrev pub is_main : Text → TemplateMount → Bool
is_main main_project (project path mode) = not (is_empty main_project) && path === main_project
is_main main_project mount = false

abbrev pub is_other_project : Text → TemplateMount → Bool
is_other_project main_project (project path mode) = not (is_main main_project (project path mode))
is_other_project main_project mount = false

abbrev pub is_volume : TemplateMount → Bool
is_volume (volume name destination mode) = true
is_volume mount = false

abbrev pub is_secret : TemplateMount → Bool
is_secret (secret name destination) = true
is_secret mount = false

abbrev pub is_tmpfs : TemplateMount → Bool
is_tmpfs (tmpfs destination) = true
is_tmpfs mount = false

-- The rank read off the mount.
rank_of : Text → TemplateMount → ℕ
rank_of main (project path mode) = if is_main main (project path mode) then 0 else 1
rank_of main (volume name destination mode) = 2
rank_of main (secret name destination) = 3
rank_of main (tmpfs destination) = 4

template_mount_rank-rank_of :
    (main : Text) (m : TemplateMount) → template_mount_rank main m ≡ rank_of main m
unfolding template_mount_rank rank_of is_primary_project_mount mount_kind_rank text ◌===◌
template_mount_rank-rank_of main (project path mode) = refl
template_mount_rank-rank_of main (volume name destination mode) = refl
template_mount_rank-rank_of main (secret name destination) = refl
template_mount_rank-rank_of main (tmpfs destination) = refl

filter_ext :
    (s t : TemplateMount → Bool)
    → ((m : TemplateMount) → s m ≡ t m)
    → (ms : List TemplateMount) → filter s ms ≡ filter t ms
filter_ext s t h [] = refl
filter_ext s t h (m ∷ ms) = ground (arith, h m, filter_ext s t h ms)

rank_of-classes :
    (main : Text) (m : TemplateMount)
    → ((rank_of main m == 0) ≡ is_main main m)
      × ((rank_of main m == 1) ≡ is_other_project main m)
      × ((rank_of main m == 2) ≡ is_volume m)
      × ((rank_of main m == 3) ≡ is_secret m)
      × ((rank_of main m == 4) ≡ is_tmpfs m)
      × (rank_of main m < 5)
unfolding rank_of
rank_of-classes main (project path mode) =
    elim (Bool-cases (not (is_empty main) && path === main)) [
      | inl e ↦ rw e (refl, refl, refl, refl, refl, omega arith)
      | inr e ↦ rw e (refl, refl, refl, refl, refl, omega arith)
    ]
rank_of-classes main (volume name destination mode) = (refl, refl, refl, refl, refl, omega arith)
rank_of-classes main (secret name destination) = (refl, refl, refl, refl, refl, omega arith)
rank_of-classes main (tmpfs destination) = (refl, refl, refl, refl, refl, omega arith)

-- The mounts of an exported template stand in five groups, each in the order of the container: the
-- workspace's own project, the other projects, the volumes, the secrets and the tmpfs mounts.
pub ordered_template_mounts-groups :
    (mounts : List TemplateMount) (main : Text)
    → ordered_template_mounts mounts main
      ≡ filter (is_main main) mounts
        ++ (filter (is_other_project main) mounts
            ++ (filter is_volume mounts ++ (filter is_secret mounts ++ filter is_tmpfs mounts)))
unfolding ordered_template_mounts
ordered_template_mounts-groups mounts main =
    sort-classes (template_mount_rank main) 5 mounts
      (All-of_forall (λ m. template_mount_rank main m < 5) below mounts)
    ∙ rw (same 0 (is_main main) (λ m. (rank_of-classes main m).0)) (
        rw (same 1 (is_other_project main) (λ m. (rank_of-classes main m).1)) (
          rw (same 2 is_volume (λ m. (rank_of-classes main m).2)) (
            rw (same 3 is_secret (λ m. (rank_of-classes main m).3))
              (rw (same 4 is_tmpfs (λ m. (rank_of-classes main m).4)) regroup))))
  where
    below : (m : TemplateMount) → template_mount_rank main m < 5
    below m = rw (template_mount_rank-rank_of main m) (rank_of-classes main m).5

    same :
        (rank : ℕ) (t : TemplateMount → Bool)
        → ((m : TemplateMount) → (rank_of main m == rank) ≡ t m)
        → filter (λ m. template_mount_rank main m == rank) mounts ≡ filter t mounts
    same rank t h =
        filter_ext _ t (λ m. ap (λ r. r == rank) (template_mount_rank-rank_of main m) ∙ h m) mounts

    regroup :
        (((filter (is_main main) mounts ++ filter (is_other_project main) mounts)
              ++ filter is_volume mounts)
            ++ filter is_secret mounts)
          ++ filter is_tmpfs mounts
        ≡ filter (is_main main) mounts
          ++ (filter (is_other_project main) mounts
              ++ (filter is_volume mounts ++ (filter is_secret mounts ++ filter is_tmpfs mounts)))
    regroup = simp (append_assoc)
