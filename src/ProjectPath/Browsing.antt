-- ===== src/ProjectPath/Browsing.antt =====
-- Between a project path and the host directory that it names (src/project-path.ts).

use dsh_podman.Prelude.{
  ℕ, ◌+◌, suc, ◌≡◌, ◌≢◌, refl, sym, ap, ◌∙◌, inl, inr, true, false, List, [], ◌∷◌, ◌++◌, Option,
  none, some, arith, All, Bool-cases, length, drop, length-append, append_assoc, Bool,
  if◌then◌else◌, ◌==◌, ◌&&◌,
}
use dsh_podman.Text.{Text, ◌===◌, is_empty, starts_with, join, strip_end}
use dsh_podman.Text.Laws.{===_iff, Without, starts_with-append}
use dsh_podman.Segments.Laws.{IsName}
use dsh_podman.ProjectPath.{
  strip_trailing_slash, below, normalize_project_path, project_name_from_host_path,
  decide_project_path, accept, decide_name, host_path_of, host_path_for_project_name, confined,
  confine_to_root, typed,
}
use dsh_podman.ProjectPath.Laws.{
  IsWithin, IsProjectName, join-ne-nil, is_empty_of_ne, normalize_project_path-IsProjectName,
  normalize_project_path_of_IsProjectName, confine_to_root-IsWithin,
}

-- A text whose end is not the separator keeps its end.
strip_end_of_Without : (c : ℕ) (s : Text) → Without c s → strip_end c s ≡ s
unfolding strip_end
strip_end_of_Without c [] h = refl
strip_end_of_Without c (x ∷ s) (n, h) = rw (strip_end_of_Without c s h) (ground arith)

strip_end-append : (c : ℕ) (s t : Text) → t ≢ [] → strip_end c t ≡ t → strip_end c (s ++ t) ≡ s ++ t
unfolding strip_end
strip_end-append c [] t n h = h
strip_end-append c (x ∷ s) t n h = rw (strip_end-append c s t n h) (kept s t n)
  where
    kept :
        (s t : Text)
        → t ≢ []
        → (if is_empty (s ++ t) && x == c then [] else x ∷ (s ++ t)) ≡ x ∷ (s ++ t)
    kept [] [] k = absurd (k refl)
    kept [] (y ∷ t) k = refl
    kept (y ∷ s) t k = refl

strip_end-join :
    (name : Text) (rest : List Text)
    → All IsName (name ∷ rest)
    → strip_end b'/' (join b'/' (name ∷ rest)) ≡ join b'/' (name ∷ rest)
unfolding join
strip_end-join name [] (n, h) = strip_end_of_Without b'/' name n.3
strip_end-join name (m ∷ rest) (n, h) = simp append_assoc at (
    strip_end-append b'/' (name ++ b'/' ∷ []) (join b'/' (m ∷ rest)) (join-ne-nil m rest h)
      (strip_end-join m rest h))

below_assoc : (root name : Text) → (root ++ b'/' ∷ []) ++ name ≡ below root name
below_assoc root name = append_assoc root (b'/' ∷ []) name

-- A directory below the root has no slash at its end.
strip_trailing_slash-below :
    (root path : Text)
    → IsProjectName path
    → strip_trailing_slash (below root path) ≡ below root path
unfolding strip_trailing_slash
strip_trailing_slash-below root path (name, rest, h, e) = rw e (
    rw (← below_assoc root (join b'/' (name ∷ rest))) (
      strip_end-append b'/' (root ++ b'/' ∷ []) _ (join-ne-nil name rest h)
        (strip_end-join name rest h)))

drop_past : (root name : Text) → drop (length root + 1) (below root name) ≡ name
drop_past [] name = refl
drop_past (x ∷ root) name = rw (the x root) (drop_past root name)
  where
    the : (x : ℕ) (root : Text) → length (x ∷ root) + 1 ≡ suc (length root + 1)
    the x root = omega arith

below-ne : (root name : Text) → below root name ≢ root
below-ne root name e = absurd (omega (arith, ap length e, length-append root (b'/' ∷ name)))

starts_with-below : (root name : Text) → starts_with (below root name) (root ++ b'/' ∷ []) ≡ true
starts_with-below root name =
    rw (← below_assoc root name) (starts_with-append (root ++ b'/' ∷ []) name)

===-false : (s t : Text) → s ≢ t → (s === t) ≡ false
===-false s t n = elim (Bool-cases (s === t)) [ inl e ↦ absurd (n ((===_iff s t).0 e)) | inr e ↦ e ]

below-ne-nil : (root name : Text) → below root name ≢ []
below-ne-nil [] name e = cc
below-ne-nil (x ∷ root) name e = cc

-- The browser's answer for the host directory of a project is that project: the two directions
-- between a project path and its host path are inverse, for a root that is not empty and a project
-- path whose normal form is not empty.
pub project_name_from_host_path-host_path_for_project_name :
    (root project name : Text)
    → strip_trailing_slash root ≢ []
    → normalize_project_path project ≡ some name
    → name ≢ []
    → project_name_from_host_path root (host_path_for_project_name root project) ≡ some name
unfolding project_name_from_host_path host_path_for_project_name host_path_of
project_name_from_host_path-host_path_for_project_name root project name n e m =
    elim (normalize_project_path-IsProjectName project e) [
      | inl none_left ↦ absurd (m none_left)
      | inr valid ↦
          let r = strip_trailing_slash root in
          rw (e, host_path_of)
            (rw (is_empty_of_ne r n) (
              rw (is_empty_of_ne name m) (
                rw (strip_trailing_slash-below r name valid) (
                  rw (is_empty_of_ne (below r name) (below-ne-nil r name)) (
                    rw (===-false (below r name) r (below-ne r name))
                      (rw (starts_with-below r name) (ap some (drop_past r name))))))))
    ]

strip_trailing_slash_idem :
    (s : Text) → strip_trailing_slash (strip_trailing_slash s) ≡ strip_trailing_slash s
unfolding strip_trailing_slash strip_end
strip_trailing_slash_idem [] = refl
strip_trailing_slash_idem (x ∷ s) = elim (Bool-cases (is_empty (strip_end b'/' s) && x == b'/')) [
  | inl e ↦ rw e
  | inr e ↦ rw e (rw (strip_trailing_slash_idem s) (rw e))
]

-- A directory within the root is not moved.
confine_to_root_of_IsWithin :
    (root path : Text)
    → IsWithin (strip_trailing_slash root) path
    → strip_trailing_slash root ≢ []
    → confine_to_root root path ≡ path
unfolding confine_to_root confined
confine_to_root_of_IsWithin root path (inl e) n = rw e (
    rw
      (
        strip_trailing_slash_idem root,
        is_empty_of_ne _ n,
        (===_iff (strip_trailing_slash root) _).1 refl,
      )
      (refl))
confine_to_root_of_IsWithin root path (inr (name, rest, h, e)) n =
    let r = strip_trailing_slash root in
    let p = join b'/' (name ∷ rest) in
    rw e (
      rw (strip_trailing_slash-below r p (name, rest, h, refl)) (
        rw (is_empty_of_ne r n) (
          rw (===-false (below r p) r (below-ne r p)) (
            rw (starts_with-below r p) (
              rw (drop_past r p) (
                rw (normalize_project_path_of_IsProjectName p (name, rest, h, refl), confined)
                  (rw (is_empty_of_ne p (join-ne-nil name rest h)))))))))

-- Opening a browser at a directory that was already confined to the root opens that directory.
pub confine_to_root_idem :
    (root path : Text)
    → confine_to_root root (confine_to_root root path) ≡ confine_to_root root path
confine_to_root_idem root path = elim (Bool-cases (is_empty (strip_trailing_slash root))) [
  | inl e ↦ unrooted e _ ∙ sym (unrooted e path)
  | inr e ↦
      confine_to_root_of_IsWithin root _ (confine_to_root-IsWithin root path) (λ n. ground arith)
]
  where
    unrooted :
        is_empty (strip_trailing_slash root) ≡ true
        → (p : Text) → confine_to_root root p ≡ strip_trailing_slash root
    unrooted e p = unfold confine_to_root in (rw e)

decide_name-accept :
    (o : Option Text) (exists : Bool) {name : Text}
    → decide_name o exists ≡ accept name
    → (exists ≡ true) × (name ≢ []) × (o ≡ some name)
unfolding decide_name
decide_name-accept none exists e = cc
decide_name-accept (some []) exists e = cc
decide_name-accept (some (x ∷ n)) true {name} e =
    let same : x ∷ n ≡ name = cc in (refl, λ k. cc, ap some same)
decide_name-accept (some (x ∷ n)) false e = cc

-- A typed path is accepted only where the host reports its directory; what is stored is then a path
-- of plain names, and it names the same host directory as the path that was typed.
pub decide_project_path-typed :
    (root project name : Text) (directory_exists : Bool)
    → decide_project_path typed project directory_exists ≡ accept name
    → (directory_exists ≡ true)
      × IsProjectName name
      × (host_path_for_project_name root name ≡ host_path_for_project_name root project)
unfolding decide_project_path host_path_for_project_name
decide_project_path-typed root project name exists e =
    let (there, n, same) =
      decide_name-accept (normalize_project_path project) exists (ground arith) in
    elim (normalize_project_path-IsProjectName project same) [
      | inl none_left ↦ absurd (n none_left)
      | inr valid ↦
          (there, valid, rw (normalize_project_path_of_IsProjectName name valid) (rw same))
    ]
