-- ===== src/Mount/Order/Laws.antt =====
-- The order of the listed mounts (src/mount-order.ts).
use mathlib.Core.List.{Perm}
use dsh_podman.Prelude.{ℕ, ◌≡◌, Bool, true, List, ◌++◌, some, arith, not, ◌||◌, ◌==◌, filter}
use dsh_podman.Prelude.Sort.{sort, IsSorted, sort-IsSorted, sort-perm}
use dsh_podman.Prelude.Ranks.{IsSorted-filter_split}
use dsh_podman.Text.{Text}
use dsh_podman.Text.Order.{text_le_total, text_le_trans}
use dsh_podman.Mount.Order.{
  is_primary_project_mount, OrderedMount, mount_rank, mount_le, indexed, entry_le, ordered_mounts,
}

mount_le_total :
    (main : Text) (a b : OrderedMount) → (mount_le main a b || mount_le main b a) ≡ true
unfolding mount_le
mount_le_total main a b = ground (arith, text_le_total a.destination b.destination)

mount_le_trans :
    (main : Text) (a b c : OrderedMount)
    → mount_le main a b ≡ true
    → mount_le main b c ≡ true
    → mount_le main a c ≡ true
unfolding mount_le
mount_le_trans main a b c h k =
    ground (arith, text_le_trans a.destination b.destination c.destination)

-- The primary mounts are those of rank 0.
mount_rank-primary_iff :
    (main : Text) (m : OrderedMount)
    → is_primary_project_mount m.kind (some m.project) main ≡ (mount_rank main m == 0)
unfolding mount_rank
mount_rank-primary_iff main m = ground arith

primary_down :
    (main : Text) (a b : OrderedMount)
    → mount_le main a b ≡ true
    → is_primary_project_mount b.kind (some b.project) main ≡ true
    → is_primary_project_mount a.kind (some a.project) main ≡ true
unfolding mount_le
primary_down main a b h k =
    ground (arith, mount_rank-primary_iff main a, mount_rank-primary_iff main b)

module _ {A : Type 0} (fields : A → OrderedMount) where
  -- The primary project mount of a workspace.
  abbrev pub is_primary : Text → A × ℕ → Bool
  is_primary main entry =
      is_primary_project_mount (fields entry.0).kind (some (fields entry.0).project) main

  -- The list holds each mount once with the index that it has in the draft, in ascending order by
  -- rank and then destination, and the primary project mounts come before all others.
  pub ordered_mounts-IsOrdered :
      (mounts : List A) (main : Text)
      → Perm (ordered_mounts fields mounts main) (indexed fields 0 mounts)
        × IsSorted (entry_le fields main) (ordered_mounts fields mounts main)
        × (ordered_mounts fields mounts main
            ≡ filter (is_primary main) (ordered_mounts fields mounts main)
              ++ filter (λ e. not (is_primary main e)) (ordered_mounts fields mounts main))
  unfolding ordered_mounts
  ordered_mounts-IsOrdered mounts main =
      let sorted =
        sort-IsSorted (entry_le fields main) (λ a b. mount_le_total main (fields a.0) (fields b.0))
          (λ a b c. mount_le_trans main (fields a.0) (fields b.0) (fields c.0))
          (indexed fields 0 mounts) in
      (
        sort-perm (entry_le fields main) (indexed fields 0 mounts),
        sorted,
        IsSorted-filter_split (entry_le fields main) (is_primary main)
            (λ a b. primary_down main (fields a.0) (fields b.0))
            (sort (entry_le fields main) (indexed fields 0 mounts)) sorted,
      )
