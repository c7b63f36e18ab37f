-- ===== src/Template/Export/Mounts.antt =====
-- What an exported mount satisfies (src/container-template.ts).
use dsh_podman.Prelude.{
  ℕ, ◌≡◌, ◌≢◌, sym, subst, inl, inr, List, [], ◌∷◌, Option, none, some, All, Bool-cases, ok,
  >>=-eq-ok, ok-injective,
}
use dsh_podman.Text.{Text, text, ◌===◌}
use dsh_podman.Value.{str}
use dsh_podman.Mount.Enums.{normalize_mount_kind}
use dsh_podman.Template.{TemplateMount, project, volume, secret, tmpfs}
use dsh_podman.Template.Paths.Laws.{IsClean, IsProject, clean_absolute_text_iff}
use dsh_podman.Template.Paths.Projects.{normalize_project_text-IsProject}
use dsh_podman.Template.Items.{require}
use dsh_podman.Template.Items.Laws.{require-eq-ok}
use dsh_podman.Template.Export.{
  ContainerMount, cleaned, export_mount_destination, normalized_project, named, export_project,
  export_volume, export_secret, export_tmpfs, export_by_kind, export_mount, export_mounts,
}

-- An exported mount: its paths are in normal form and its source has a name.
abbrev pub MountIsExported : TemplateMount → Type 0
MountIsExported (project path mode) = IsProject path
MountIsExported (volume name destination mode) = (name ≢ []) × IsClean destination
MountIsExported (secret name destination) = (name ≢ []) × IsClean destination
MountIsExported (tmpfs destination) = IsClean destination

export_mount_destination-IsClean :
    (name : Text) (value : Option Text) {d : Text}
    → export_mount_destination name value ≡ ok d
    → IsClean d
unfolding export_mount_destination
export_mount_destination-IsClean name none e = cc
export_mount_destination-IsClean name (some value) {d} e =
    let (clean, same) =
      (clean_absolute_text_iff value d).0 (require-eq-ok _ _ (unfold cleaned in e)) in
    subst IsClean (sym same) clean

named-eq-some : (o : Option Text) {name : Text} → named o ≡ some name → name ≢ []
unfolding named
named-eq-some none e = cc
named-eq-some (some []) e = cc
named-eq-some (some (x ∷ s)) e = λ n. cc

normalized_project-IsProject :
    (o : Option Text) {path : Text} → normalized_project o ≡ some path → IsProject path
unfolding normalized_project
normalized_project-IsProject none h = cc
normalized_project-IsProject (some value) h = normalize_project_text-IsProject value h

module _ (number : Text → Option ℕ) where
  export_project-IsExported :
      (name : Text) (mount : ContainerMount) {m : TemplateMount}
      → export_project number name mount ≡ ok m
      → MountIsExported m
  unfolding export_project
  export_project-IsExported name mount e =
      let (path, a, e₁) = >>=-eq-ok (require (normalized_project mount.project_name) _) _ e in
      subst MountIsExported (ok-injective e₁)
        (normalized_project-IsProject mount.project_name (require-eq-ok _ _ a))

  export_volume-IsExported :
      (name : Text) (mount : ContainerMount) {m : TemplateMount}
      → export_volume number name mount ≡ ok m
      → MountIsExported m
  unfolding export_volume
  export_volume-IsExported name mount e =
      let (d, a, e₁) = >>=-eq-ok (export_mount_destination name mount.destination) _ e in
      let (source, b, e₂) = >>=-eq-ok (require (named mount.volume) _) _ e₁ in
      subst MountIsExported (ok-injective e₂) (
        named-eq-some mount.volume (require-eq-ok _ _ b),
        export_mount_destination-IsClean name mount.destination a,
      )

  export_secret-IsExported :
      (name : Text) (mount : ContainerMount) {m : TemplateMount}
      → export_secret number name mount ≡ ok m
      → MountIsExported m
  unfolding export_secret
  export_secret-IsExported name mount e =
      let (d, a, e₁) = >>=-eq-ok (export_mount_destination name mount.destination) _ e in
      let (source, b, e₂) = >>=-eq-ok (require (named mount.secret) _) _ e₁ in
      subst MountIsExported (ok-injective e₂) (
        named-eq-some mount.secret (require-eq-ok _ _ b),
        export_mount_destination-IsClean name mount.destination a,
      )

  export_tmpfs-IsExported :
      (name : Text) (mount : ContainerMount) {m : TemplateMount}
      → export_tmpfs number name mount ≡ ok m
      → MountIsExported m
  unfolding export_tmpfs
  export_tmpfs-IsExported name mount e =
      let (d, a, e₁) = >>=-eq-ok (export_mount_destination name mount.destination) _ e in
      subst MountIsExported (ok-injective e₁)
        (export_mount_destination-IsClean name mount.destination a)

  export_by_kind-IsExported :
      (name kind : Text) (mount : ContainerMount) {m : TemplateMount}
      → export_by_kind number name mount kind ≡ ok m
      → MountIsExported m
  unfolding export_by_kind
  export_by_kind-IsExported name kind mount {m} e = elim (Bool-cases (kind === text "project")) [
    | inl p ↦ export_project-IsExported name mount (rw p at e)
    | inr p ↦ elim (Bool-cases (kind === text "volume")) [
      | inl q ↦ export_volume-IsExported name mount (rw (p, q) at e)
      | inr q ↦ elim (Bool-cases (kind === text "secret")) [
        | inl r ↦ export_secret-IsExported name mount (rw (p, q, r) at e)
        | inr r ↦ elim (Bool-cases (kind === text "tmpfs")) [
          | inl s ↦ export_tmpfs-IsExported name mount (rw (p, q, r, s) at e)
          | inr s ↦ absurd (cc (rw (p, q, r, s) at e))
        ]
      ]
    ]
  ]

  pub export_mounts-IsExported :
      (name : Text) (mounts : List ContainerMount) {out : List TemplateMount}
      → export_mounts number name mounts ≡ ok out
      → All MountIsExported out
  unfolding export_mounts
  export_mounts-IsExported name [] e = subst (All MountIsExported) (ok-injective e) tt
  export_mounts-IsExported name (mount ∷ mounts) e =
      let (m, a, e₁) = >>=-eq-ok (export_mount number name mount) _ e in
      let (ms, b, e₂) = >>=-eq-ok (export_mounts number name mounts) _ e₁ in
      subst (All MountIsExported) (ok-injective e₂) (
        export_by_kind-IsExported name (normalize_mount_kind number (str mount.kind)) mount
            (unfold export_mount in a),
        export_mounts-IsExported name mounts b,
      )
