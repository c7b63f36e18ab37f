-- ===== src/ProjectPath/Laws.antt =====
-- Project paths stay below the projects root (src/project-path.ts).
use mathlib.Core.Option
use mathlib.Core.Option.{some-injective}
use dsh_podman.Prelude.{
  ◌≡◌, ◌≢◌, ◌⊎◌, refl, sym, ◌∙◌, inl, inr, false, List, [], ◌∷◌, ◌++◌, Option, none, some, All,
  Bool-cases, ◌||◌, ◌+◌, drop, length,
}
use dsh_podman.Text.{Text, ◌===◌, is_empty, starts_with, join}
use dsh_podman.Segments.{resolve_path}
use dsh_podman.Segments.Laws.{IsName, resolve_path-IsName, resolve_path-join}
use dsh_podman.ProjectPath.{
  strip_trailing_slash, below, normalize_project_path, confined, confine_to_root,
}

-- A directory of the projects root: the root itself, or one below it by plain names.
abbrev pub IsWithin : Text → Text → Type 0
IsWithin root path =
    (path ≡ root)
    ⊎ ((name : Text) × (rest : List Text) × All IsName (name ∷ rest)
        × (path ≡ below root (join b'/' (name ∷ rest))))

-- A relative path of plain names, at least one.
abbrev pub IsProjectName : Text → Type 0
IsProjectName path =
    (name : Text) × (rest : List Text) × All IsName (name ∷ rest) × (path ≡ join b'/' (name ∷ rest))

pub join-ne-nil :
    (name : Text) (rest : List Text) → All IsName (name ∷ rest) → join b'/' (name ∷ rest) ≢ []
unfolding join
join-ne-nil [] rest (n, h) e = n.0 refl
join-ne-nil (x ∷ name) [] h e = cc
join-ne-nil (x ∷ name) (m ∷ rest) h e = cc

pub is_empty_of_ne : (s : Text) → s ≢ [] → is_empty s ≡ false
is_empty_of_ne [] n = absurd (n refl)
is_empty_of_ne (x ∷ s) n = refl

-- A normalised project path is empty, or a path of plain names.
pub normalize_project_path-IsProjectName :
    (project : Text) {name : Text}
    → normalize_project_path project ≡ some name
    → (name ≡ []) ⊎ IsProjectName name
unfolding normalize_project_path
normalize_project_path-IsProjectName project {name} e =
    go (resolve_path project) (λ segments. resolve_path-IsName project) e
  where
    go :
        (r : Option (List Text))
        → ((segments : List Text) → r ≡ some segments → All IsName segments)
        → Option.map (join b'/') r ≡ some name
        → (name ≡ []) ⊎ IsProjectName name
    go none h k = cc
    go (some []) h k = inl (sym (some-injective _ _ k) ∙ unfold join in refl)
    go (some (s ∷ rest)) h k = inr (s, rest, h (s ∷ rest) refl, sym (some-injective _ _ k))

-- A path of plain names is its own normal form.
pub normalize_project_path_of_IsProjectName :
    (name : Text) → IsProjectName name → normalize_project_path name ≡ some name
unfolding normalize_project_path
normalize_project_path_of_IsProjectName path (name, rest, h, e) =
    rw e (rw (resolve_path-join name rest h))

confined-IsWithin :
    (root : Text) (o : Option Text)
    → ((name : Text) → o ≡ some name → (name ≡ []) ⊎ IsProjectName name)
    → IsWithin root (confined root o)
unfolding confined
confined-IsWithin root none h = inl refl
confined-IsWithin root (some name) h = elim (Bool-cases (is_empty name)) [
  | inl e ↦ inl (rw e)
  | inr e ↦ elim (h name refl) [
    | inl k ↦ inl (rw k)
    | inr (s, rest, names, k) ↦ inr (s, rest, names, rw e (rw k))
  ]
]

-- Whatever the path, the directory that a browser is opened at lies within the projects root.
pub confine_to_root-IsWithin :
    (root path : Text) → IsWithin (strip_trailing_slash root) (confine_to_root root path)
unfolding confine_to_root
confine_to_root-IsWithin root path =
    let r = strip_trailing_slash root in
    let p = strip_trailing_slash path in
    elim (Bool-cases (is_empty r || p === r)) [
      | inl e ↦ inl (rw e)
      | inr e ↦ elim (Bool-cases (starts_with p (r ++ b'/' ∷ []))) [
        | inl k ↦ rw e (
            rw k (
              confined-IsWithin r (normalize_project_path (drop (length r + 1) p))
                (λ name. normalize_project_path-IsProjectName (drop (length r + 1) p))))
        | inr k ↦ inl (rw e (rw k))
      ]
    ]
