-- ===== src/Mount/Input/Laws.antt =====
-- What reaches the control plane (src/mount-input.ts).
use dsh_podman.Prelude.{
  ◌≡◌, refl, subst, true, false, [], ◌∷◌, Option, none, some, ok, ok-injective, >>=-eq-ok, throw_if,
  throw_if-eq-ok, ◌&&◌,
}
use dsh_podman.Text.{Text, text, ◌===◌}
use dsh_podman.Text.Laws.{===_iff}
use dsh_podman.Mount.Enums.{default_mount_mode, mount_kind_to_proto, mount_mode_to_proto}
use dsh_podman.Mount.Enums.Laws.{mount_mode_to_proto-read_only}
use dsh_podman.Mount.Input.{
  MountArgs, MountMessage, given, or_default, infer_mount_kind, reason_for,
  project_mount_destination_reason, is_some, is_read_write, validate_mount_input,
  mount_input_to_proto,
}

default_fixed : (default_mount_mode (text "secret") === text "read_write") ≡ false
unfolding default_mount_mode text ◌===◌
default_fixed = refl

reason_for-none :
    (projects_root : Option Text) (mount : MountArgs) (o : Option Text)
    → is_some (reason_for projects_root mount o) ≡ false
    → o ≡ none
unfolding reason_for
reason_for-none projects_root mount none h = refl
reason_for-none projects_root mount (some d) h = cc

validated :
    (mount : MountArgs) (projects_root : Option Text) {u : Unit}
    → validate_mount_input mount projects_root ≡ ok u
    → ((infer_mount_kind mount === text "project") ≡ true → given mount.destination ≡ none)
      × ((infer_mount_kind mount === text "secret") ≡ true → is_read_write mount.mode ≡ false)
unfolding validate_mount_input
validated mount projects_root e =
    let (u, a, e₁) =
      >>=-eq-ok (throw_if (is_some (project_mount_destination_reason projects_root mount)) _) _ e in
    let (v, b, e₂) =
      >>=-eq-ok (throw_if (infer_mount_kind mount === text "secret" && is_read_write mount.mode) _)
        _ e₁ in
    let no_reason = throw_if-eq-ok _ _ a in
    let fine = throw_if-eq-ok _ _ b in (λ h. destination h no_reason, λ h. rw h at fine)
  where
    destination :
        (infer_mount_kind mount === text "project") ≡ true
        → is_some (project_mount_destination_reason projects_root mount) ≡ false
        → given mount.destination ≡ none
    destination h n =
        reason_for-none projects_root mount (given mount.destination)
          (rw (h, project_mount_destination_reason) at n)

secret_mode :
    (mode : Option Text) (proto : Text)
    → is_read_write mode ≡ false
    → mount_mode_to_proto (some (or_default (default_mount_mode (text "secret")) (given mode)))
      ≡ ok proto
    → proto ≡ text "MOUNT_MODE_READ_ONLY"
secret_mode none proto h e =
    mount_mode_to_proto-read_only (default_mount_mode (text "secret")) proto default_fixed e
secret_mode (some []) proto h e =
    mount_mode_to_proto-read_only (default_mount_mode (text "secret")) proto default_fixed e
secret_mode (some (x ∷ s)) proto h e = mount_mode_to_proto-read_only (x ∷ s) proto h e

-- A mount that is encoded is of a known kind; a project mount is sent without a destination and was
-- given none, and a secret mount is sent read-only.
pub mount_input_to_proto-eq-ok :
    (mount : MountArgs) (projects_root : Option Text) (message : MountMessage)
    → mount_input_to_proto mount projects_root ≡ ok message
    → (mount_kind_to_proto (some (infer_mount_kind mount)) ≡ ok message.kind)
      × ((infer_mount_kind mount === text "project") ≡ true
          → (message.destination ≡ none) × (given mount.destination ≡ none))
      × ((infer_mount_kind mount === text "secret") ≡ true
          → message.mode ≡ text "MOUNT_MODE_READ_ONLY")
unfolding mount_input_to_proto
mount_input_to_proto-eq-ok mount projects_root message e =
    let (u, a, e₁) = >>=-eq-ok (validate_mount_input mount projects_root) _ e in
    let (kind, b, e₂) = >>=-eq-ok (mount_kind_to_proto (some (infer_mount_kind mount))) _ e₁ in
    let (mode, c, e₃) = >>=-eq-ok (mount_mode_to_proto _) _ e₂ in
    let (no_destination, not_writable) = validated mount projects_root a in
    subst
      (λ (m : MountMessage).
        (mount_kind_to_proto (some (infer_mount_kind mount)) ≡ ok m.kind)
        × ((infer_mount_kind mount === text "project") ≡ true
            → (m.destination ≡ none) × (given mount.destination ≡ none))
        × ((infer_mount_kind mount === text "secret") ≡ true
            → m.mode ≡ text "MOUNT_MODE_READ_ONLY"))
      (ok-injective e₃)
      (
        b,
        λ h. (rw h refl, no_destination h),
        λ h. secret_mode mount.mode mode (not_writable h) (
            subst
              (λ k.
                mount_mode_to_proto (some (or_default (default_mount_mode k) (given mount.mode)))
                ≡ ok mode)
              ((===_iff (infer_mount_kind mount) (text "secret")).0 h) c),
      )
