-- ===== src/Template/Items/Laws.antt =====
-- What an accepted mount, PATH addition or port satisfies (src/container-template.ts).
use dsh_podman.Prelude.{
  ℕ, ◌≤◌, ◌≡◌, sym, ap, inl, inr, true, false, Option, none, some, arith, List, Bool-cases, ok,
  subst, >>=-eq-ok, throw_if-eq-ok, throw_if, ok-injective, not, ◌||◌,
}
use dsh_podman.Text.{Text, text, ◌===◌, has_unit}
use dsh_podman.Text.Laws.{Without, has_unit-Without}
use dsh_podman.Value.{Value, undef, num, str, obj, Fields, get, own_entries}
use dsh_podman.Template.{
  Checked, TemplateError, TemplateMount, project, volume, secret, tmpfs, TemplatePort,
}
use dsh_podman.Template.Names.{matches_secret}
use dsh_podman.Template.Paths.{clean_absolute_path, normalize_project_path, has_control}
use dsh_podman.Template.Paths.Laws.{IsClean, IsProject, clean_absolute_text_iff}
use dsh_podman.Template.Paths.Projects.{normalize_project_text-IsProject}
use dsh_podman.Template.Fields.{reject_unknown, string_value, non_empty_string, secret_name}
use dsh_podman.Template.Fields.Laws.{secret_name-matches, not-false}
use dsh_podman.Template.Items.{
  MountKeys, keys, inherited, absent, mount_keys, forbidden_keys, reject_forbidden, by_kind,
  parse_mount_mode, require, destination_of, project_of, tmpfs_of, secret_of, volume_of, mount_of,
  reject_entries_of, mount_with, mount_allowed, parse_mount, port_in, check_protocol, host_of,
  parse_port, parse_path,
}

-- A mount that a template may have.
abbrev pub MountIsValid : TemplateMount → Type 0
MountIsValid (project path mode) = IsProject path
MountIsValid (volume name destination mode) = (matches_secret name ≡ true) × IsClean destination
MountIsValid (secret name destination) = (matches_secret name ≡ true) × IsClean destination
MountIsValid (tmpfs destination) = IsClean destination

abbrev pub HostIsValid : Option ℕ → Type 0
HostIsValid none = Unit
HostIsValid (some port) = (1024 ≤ port) × (port ≤ 65535)

abbrev pub PortIsValid : TemplatePort → Type 0
PortIsValid port = (1 ≤ port.container) × (port.container ≤ 65535) × HostIsValid port.host

abbrev pub PathIsValid : Text → Type 0
PathIsValid path = Without b':' path × IsClean path

pub require-eq-ok :
    {A : Type 0} (o : Option A) (e : TemplateError) {a : A} → require o e ≡ ok a → o ≡ some a
require-eq-ok none e h = cc
require-eq-ok (some x) e h = ap some (ok-injective h)

clean_absolute_path-IsClean :
    (value : Value) {out : Text} → clean_absolute_path value ≡ some out → IsClean out
unfolding clean_absolute_path
clean_absolute_path-IsClean (str s) {out} e =
    let (clean, same) = (clean_absolute_text_iff s out).0 e in subst IsClean (sym same) clean
clean_absolute_path-IsClean v e = cc

normalize_project_path-IsProject :
    (value : Value) {out : Text} → normalize_project_path value ≡ some out → IsProject out
unfolding normalize_project_path
normalize_project_path-IsProject (str s) e = normalize_project_text-IsProject s e
normalize_project_path-IsProject v e = cc

destination_of-IsClean :
    (value : Fields) (path : Text) {d : Text} → destination_of value path ≡ ok d → IsClean d
unfolding destination_of
destination_of-IsClean value path e =
    clean_absolute_path-IsClean (get (text "destination") value) (require-eq-ok _ _ e)

project_of-MountIsValid :
    (value : Fields) (path : Text) {m : TemplateMount}
    → project_of value path ≡ ok m
    → MountIsValid m
unfolding project_of
project_of-MountIsValid value path e =
    let (found, a, e₁) =
      >>=-eq-ok (require (normalize_project_path (get (text "project") value)) _) _ e in
    let (mode, b, e₂) = >>=-eq-ok (parse_mount_mode _ _ _) _ e₁ in
    subst MountIsValid (ok-injective e₂)
      (normalize_project_path-IsProject (get (text "project") value) (require-eq-ok _ _ a))

tmpfs_of-MountIsValid :
    (value : Fields) (path : Text) {m : TemplateMount} → tmpfs_of value path ≡ ok m → MountIsValid m
unfolding tmpfs_of
tmpfs_of-MountIsValid value path e =
    let (d, a, e₁) = >>=-eq-ok (destination_of value path) _ e in
    subst MountIsValid (ok-injective e₁) (destination_of-IsClean value path a)

secret_of-MountIsValid :
    (value : Fields) (path : Text) {m : TemplateMount}
    → secret_of value path ≡ ok m
    → MountIsValid m
unfolding secret_of
secret_of-MountIsValid value path e =
    let (d, a, e₁) = >>=-eq-ok (destination_of value path) _ e in
    let (name, b, e₂) = >>=-eq-ok (secret_name _ _) _ e₁ in
    subst MountIsValid (ok-injective e₂)
      (secret_name-matches _ _ b, destination_of-IsClean value path a)

volume_of-MountIsValid :
    (value : Fields) (path : Text) {m : TemplateMount}
    → volume_of value path ≡ ok m
    → MountIsValid m
unfolding volume_of
volume_of-MountIsValid value path e =
    let (d, a, e₁) = >>=-eq-ok (destination_of value path) _ e in
    let (name, b, e₂) = >>=-eq-ok (non_empty_string _ _) _ e₁ in
    let (u, c, e₃) = >>=-eq-ok (throw_if (not (matches_secret name)) _) _ e₂ in
    let (mode, f, e₄) = >>=-eq-ok (parse_mount_mode _ _ _) _ e₃ in
    subst MountIsValid (ok-injective e₄)
      (not-false _ (throw_if-eq-ok _ _ c), destination_of-IsClean value path a)

by_kind-All :
    {A : Type 0} (P : A → Type 0) (kind : Text) (p t s v : A)
    → P p
    → P t
    → P s
    → P v
    → P (by_kind kind p t s v)
unfolding by_kind
by_kind-All P kind p t s v hp ht hs hv = elim (Bool-cases (kind === text "project")) [
  | inl e ↦ rw e hp
  | inr e ↦ rw e (elim (Bool-cases (kind === text "tmpfs")) [
    | inl f ↦ rw f ht
    | inr f ↦
        rw f (elim (Bool-cases (kind === text "secret")) [ inl g ↦ rw g hs | inr g ↦ rw g hv ])
  ])
]

mount_of-MountIsValid :
    (kind : Text) (value : Fields) (path : Text) (m : TemplateMount)
    → mount_of kind value path ≡ ok m
    → MountIsValid m
unfolding mount_of
mount_of-MountIsValid kind value path m =
    by_kind-All (λ r. r ≡ ok m → MountIsValid m) kind (project_of value path) (tmpfs_of value path)
      (secret_of value path) (volume_of value path) (project_of-MountIsValid value path)
      (tmpfs_of-MountIsValid value path) (secret_of-MountIsValid value path)
      (volume_of-MountIsValid value path)

mount_with-MountIsValid :
    (allowed : Option (List Text)) (kind : Text) (value : Fields) (path : Text) (m : TemplateMount)
    → mount_with allowed kind value path ≡ ok m
    → MountIsValid m
unfolding mount_with
mount_with-MountIsValid allowed kind value path m e =
    let (u, a, e₁) = >>=-eq-ok (reject_forbidden kind (forbidden_keys kind) value path) _ e in
    let (v, b, e₂) = >>=-eq-ok (reject_entries_of allowed value (own_entries value) path) _ e₁ in
    mount_of-MountIsValid kind value path m e₂

mount_allowed-MountIsValid :
    (allowed : MountKeys) (kind : Text) (value : Fields) (path : Text) (m : TemplateMount)
    → mount_allowed allowed kind value path ≡ ok m
    → MountIsValid m
unfolding mount_allowed
mount_allowed-MountIsValid absent kind value path m e = cc
mount_allowed-MountIsValid inherited kind value path m e =
    mount_with-MountIsValid none kind value path m e
mount_allowed-MountIsValid (keys ks) kind value path m e =
    mount_with-MountIsValid (some ks) kind value path m e

pub parse_mount-MountIsValid :
    (value : Value) (path : Text) (m : TemplateMount)
    → parse_mount value path ≡ ok m
    → MountIsValid m
unfolding parse_mount
parse_mount-MountIsValid (obj value) path m e =
    let (kind, a, e₁) = >>=-eq-ok (non_empty_string _ _) _ e in
    mount_allowed-MountIsValid (mount_keys kind) kind value path m e₁
parse_mount-MountIsValid v path m e = cc

pub parse_path-PathIsValid :
    (value : Value) (path : Text) (s : Text) → parse_path value path ≡ ok s → PathIsValid s
unfolding parse_path
parse_path-PathIsValid value path s e =
    let (t, a, e₁) = >>=-eq-ok (string_value value path) _ e in
    let (u, b, e₂) = >>=-eq-ok (throw_if (has_unit b':' t || has_control t) _) _ e₁ in
    let units : (has_unit b':' t || has_control t) ≡ false = throw_if-eq-ok _ _ b in
    let (clean, same) = (clean_absolute_text_iff t s).0 (require-eq-ok _ _ e₂) in
    subst PathIsValid (sym same) (has_unit-Without b':' t (ground arith), clean)

port_in-bounds :
    (least : ℕ) (value : Value) {n : ℕ} → port_in least value ≡ some n → (least ≤ n) × (n ≤ 65535)
port_in-bounds least (num n) e = ground arith
port_in-bounds least v e = cc

host_of-HostIsValid :
    (value : Value) (path : Text) {h : Option ℕ} → host_of value path ≡ ok h → HostIsValid h
unfolding host_of
host_of-HostIsValid undef path e = subst HostIsValid (ok-injective e) tt
host_of-HostIsValid (num n) path {h} e =
    let (port, a, e₁) = >>=-eq-ok (require (port_in 1024 (num n)) _) some_port e in
    subst HostIsValid (ok-injective e₁) (port_in-bounds 1024 (num n) (require-eq-ok _ _ a))
  where
    some_port : ℕ → Checked (Option ℕ)
    some_port p = ok (some p)
host_of-HostIsValid v path e = cc

pub parse_port-PortIsValid :
    (value : Value) (path : Text) (p : TemplatePort) → parse_port value path ≡ ok p → PortIsValid p
unfolding parse_port
parse_port-PortIsValid (obj value) path p e =
    let (u, a, e₁) = >>=-eq-ok (reject_unknown value _ path) _ e in
    let (container, b, e₂) =
      >>=-eq-ok (require (port_in 1 (get (text "container") value)) _) _ e₁ in
    let (v, c, e₃) = >>=-eq-ok (check_protocol _ path) _ e₂ in
    let (host, d, e₄) = >>=-eq-ok (host_of (get (text "host") value) path) _ e₃ in
    let (low, high) = port_in-bounds 1 (get (text "container") value) (require-eq-ok _ _ b) in
    subst PortIsValid (ok-injective e₄)
      (low, high, host_of-HostIsValid (get (text "host") value) path d)
parse_port-PortIsValid v path p e = cc
