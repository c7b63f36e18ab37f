-- ===== src/Mount/Enums/Laws.antt =====
-- The spellings of kinds and modes (src/mount-enums.ts).
use dsh_podman.Prelude.{
  ℕ, false, ◌<◌, ◌≡◌, ◌↔◌, ◌⊎◌, refl, ap, inl, inr, [], ◌∷◌, Option, none, some, arith, All,
  Bool-cases, Option-cases, ok, ok-injective, ◌==◌,
}
use dsh_podman.Text.{Text, text, ◌===◌, is_empty}
use dsh_podman.Value.{Value, num, str}
use dsh_podman.Dict.{Entries, lookup}
use dsh_podman.Dict.Laws.{lookup-All}
use dsh_podman.Mount.Enums.{
  MountError, Numbers, mount_kinds, mount_modes, kind_from_proto, mode_from_proto, or_throw,
  mount_kind_to_proto, mount_kind_from_proto, mount_mode_to_proto, mount_mode_from_proto, or_else,
  lookup_number, by_number, by_name, lookup_normalized, normalize_mount_kind, normalize_mount_mode,
  mount_kind_rank, unknown_kind, unknown_mode,
}

or_throw-eq-ok : (e : MountError) (o : Option Text) {s : Text} → or_throw e o ≡ ok s → o ≡ some s
unfolding or_throw
or_throw-eq-ok e none h = cc
or_throw-eq-ok e (some t) h = ap some (ok-injective h)

-- A kind is written as a wire name exactly where that wire name is read as the kind.
pub mount_kind_to_proto-mount_kind_from_proto :
    (kind proto : Text)
    → (mount_kind_to_proto (some kind) ≡ ok proto)
      ↔ (mount_kind_from_proto (some proto) ≡ some kind)
unfolding mount_kind_to_proto mount_kind_from_proto lookup or_throw text ◌===◌
mount_kind_to_proto-mount_kind_from_proto kind proto = (
  λ h.
      lookup-All (λ k p. mount_kind_from_proto (some p) ≡ some k) kind mount_kinds
        (refl, (refl, (refl, (refl, tt))))
        (or_throw-eq-ok (unknown_kind kind) (lookup kind mount_kinds) h),
  λ h.
      lookup-All (λ p k. mount_kind_to_proto (some k) ≡ ok p) proto kind_from_proto
        (refl, (refl, (refl, (refl, tt)))) h,
)

-- A mode is written as a wire name exactly where that wire name is read as the mode.
pub mount_mode_to_proto-mount_mode_from_proto :
    (mode proto : Text)
    → (mount_mode_to_proto (some mode) ≡ ok proto)
      ↔ (mount_mode_from_proto (some proto) ≡ some mode)
unfolding mount_mode_to_proto mount_mode_from_proto lookup or_throw text ◌===◌
mount_mode_to_proto-mount_mode_from_proto mode proto = (
  λ h.
      lookup-All (λ k p. mount_mode_from_proto (some p) ≡ some k) mode mount_modes
        (refl, (refl, tt)) (or_throw-eq-ok (unknown_mode (some mode)) (lookup mode mount_modes) h),
  λ h.
      lookup-All (λ p k. mount_mode_to_proto (some k) ≡ ok p) proto mode_from_proto
        (refl, (refl, tt)) h,
)

-- A mode other than read_write that can be written is written as read-only.
pub mount_mode_to_proto-read_only :
    (mode proto : Text)
    → (mode === text "read_write") ≡ false
    → mount_mode_to_proto (some mode) ≡ ok proto
    → proto ≡ text "MOUNT_MODE_READ_ONLY"
unfolding mount_mode_to_proto text ◌===◌
mount_mode_to_proto-read_only mode proto n h =
    lookup-All (λ k p. (k === text "read_write") ≡ false → p ≡ text "MOUNT_MODE_READ_ONLY") mode
      mount_modes (λ e. refl, (λ e. cc, tt))
      (or_throw-eq-ok (unknown_mode (some mode)) (lookup mode mount_modes) h) n

lookup_number-All :
    (P : Text → Type 0) (n : ℕ) (ns : Numbers) (fallback : Text)
    → P fallback
    → All (λ e. P e.1) ns
    → P (or_else fallback (lookup_number n ns))
unfolding lookup_number
lookup_number-All P n [] fallback f h = f
lookup_number-All P n ((m, w) ∷ ns) fallback f (p, h) = elim (Bool-cases (m == n)) [
  | inl e ↦ rw e p
  | inr e ↦ rw e (lookup_number-All P n ns fallback f h)
]

known_ranks :
    (mount_kind_rank (text "project") < 4)
    × (mount_kind_rank (text "volume") < 4)
    × (mount_kind_rank (text "secret") < 4)
    × (mount_kind_rank (text "tmpfs") < 4)
unfolding mount_kind_rank text ◌===◌
known_ranks = (omega arith, omega arith, omega arith, omega arith)

module _ (number : Text → Option ℕ) where
  by_name-All :
      (P : Text → Type 0) (value short : Text) (names : Entries) (numbers : Numbers)
      (fallback : Text)
      → P fallback
      → All (λ e. P e.1) names
      → All (λ e. P e.1) numbers
      → P (by_name number value (lookup short names) numbers fallback)
  unfolding by_name by_number
  by_name-All P value short names numbers fallback f h k =
      elim (Option-cases (lookup short names)) [
        | inr (name, e) ↦ rw e (lookup-All (λ _ v. P v) short names h e)
        | inl e ↦ rw e (elim (Bool-cases (is_empty value)) [
          | inl b ↦ rw b f
          | inr b ↦ rw b (elim (Option-cases (number value)) [
            | inl n ↦ rw n f
            | inr (n, m) ↦ rw m (lookup_number-All P n numbers fallback f k)
          ])
        ])
      ]

  lookup_normalized-All :
      (P : Text → Type 0) (value : Value) (names : Entries) (numbers : Numbers)
      (prefix fallback : Text)
      → P fallback
      → All (λ e. P e.1) names
      → All (λ e. P e.1) numbers
      → P (lookup_normalized number value names numbers prefix fallback)
  unfolding lookup_normalized
  lookup_normalized-All P (num n) names numbers prefix fallback f h k =
      lookup_number-All P n numbers fallback f k
  lookup_normalized-All P (str value) names numbers prefix fallback f h k =
      by_name-All P value _ names numbers fallback f h k
  lookup_normalized-All P v names numbers prefix fallback f h k = f

  -- Every spelling of a kind reads as one of the four kinds, which all have a place in the order of
  -- kinds, and every spelling of a mode as one of the two modes.
  pub normalize_mount-known :
      (value : Value)
      → (mount_kind_rank (normalize_mount_kind number value) < 4)
        × ((normalize_mount_mode number value ≡ text "read_only")
            ⊎ (normalize_mount_mode number value ≡ text "read_write"))
  unfolding normalize_mount_kind normalize_mount_mode
  normalize_mount-known value =
      let (project_rank, volume_rank, secret_rank, tmpfs_rank) = known_ranks in
      (
        lookup_normalized-All (λ k. mount_kind_rank k < 4) value _ _ _ _ project_rank
            (project_rank, (tmpfs_rank, (volume_rank, (secret_rank, tt))))
            (project_rank, (tmpfs_rank, (volume_rank, (secret_rank, tt)))),
        lookup_normalized-All (λ m. (m ≡ text "read_only") ⊎ (m ≡ text "read_write")) value _ _ _ _
            (inr refl) (inl refl, (inr refl, tt)) (inl refl, (inr refl, tt)),
      )
