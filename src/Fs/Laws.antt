-- ===== src/Fs/Laws.antt =====
-- The key of a guest path (src/fs-key.ts).
use dsh_podman.Prelude.{
  ℕ, ◌≡◌, ◌≢◌, refl, sym, ap, ◌∙◌, Bool, true, false, ◌==◌, List, [], ◌∷◌, ◌++◌, if◌then◌else◌, All,
  All-append, append-nil, append_assoc, arith,
}
use dsh_podman.Text.{Text, text, ◌===◌, starts_with, split, join}
use dsh_podman.Text.Laws.{Without, split-Without, split-join}
use dsh_podman.Fs.{pop, is_void, push, collapse, keyed, normalize_fs_key}

-- A segment that names something: no slash in it, and not empty, "." or "..".
pub record IsName (segment : Text) : Type 0 where
  pub no_slash : Without 47 segment
  pub kept : is_void segment ≡ false
  pub not_up : (segment === text "..") ≡ false

pop-IsName : (segments : List Text) → All IsName segments → All IsName (pop segments)
pop-IsName [] h = tt
pop-IsName (segment ∷ []) h = tt
pop-IsName (segment ∷ next ∷ segments) (p, h) = (p, pop-IsName (next ∷ segments) h)

push-IsName :
    (segments : List Text) (segment : Text)
    → All IsName segments
    → Without 47 segment
    → All IsName (push segments segment)
push-IsName segments segment h n = pushed (is_void segment) (segment === text "..") refl refl
  where
    pushed :
        (skips up : Bool)
        → is_void segment ≡ skips
        → (segment === text "..") ≡ up
        → All IsName
            (if skips then segments else if up then pop segments else segments ++ segment ∷ [])
    pushed true up e f = h
    pushed false true e f = pop-IsName segments h
    pushed false false e f =
        All-append IsName segments (segment ∷ []) h
          (record { no_slash = n; kept = e; not_up = f }, tt)

collapse-IsName :
    (segments rest : List Text)
    → All IsName segments
    → All (Without 47) rest
    → All IsName (collapse segments rest)
unfolding collapse
collapse-IsName segments [] h k = h
collapse-IsName segments (segment ∷ rest) h (n, k) =
    collapse-IsName (push segments segment) rest (push-IsName segments segment h n) k

collapse-names :
    (segments names : List Text) → All IsName names → collapse segments names ≡ segments ++ names
unfolding collapse
collapse-names segments [] h = sym (append-nil segments)
collapse-names segments (name ∷ names) (p, h) =
    rw (p.kept, p.not_up)
      (collapse-names (segments ++ name ∷ []) names h ∙ append_assoc segments (name ∷ []) names)

names-Without : (names : List Text) → All IsName names → All (Without 47) names
names-Without [] h = tt
names-Without (name ∷ names) (p, h) = (p.no_slash, names-Without names h)

collapse-split :
    (name : Text) (names : List Text)
    → All IsName (name ∷ names)
    → collapse [] (split 47 (join 47 (name ∷ names))) ≡ name ∷ names
collapse-split name names h =
    ap (collapse []) (split-join 47 name names (names-Without (name ∷ names) h))
    ∙ collapse-names [] (name ∷ names) h

-- A path of names starts with a code unit that is not a slash.
join-first :
    (name : Text) (names : List Text)
    → IsName name
    → (x : ℕ) × (rest : Text) × (x ≢ 47) × (join 47 (name ∷ names) ≡ x ∷ rest)
unfolding join
join-first [] names p = ground (arith, p.kept)
join-first (x ∷ name) [] p = (x, name, p.no_slash.0, refl)
join-first (x ∷ name) (next ∷ names) p = (x, _, p.no_slash.0, refl)

relative_again :
    (joined : Text) (x : ℕ) (rest : Text)
    → x ≢ 47
    → joined ≡ x ∷ rest
    → join 47 (collapse [] (split 47 joined)) ≡ joined
    → normalize_fs_key (keyed false joined) ≡ keyed false joined
unfolding normalize_fs_key text starts_with
relative_again [] x rest n e same = cc
relative_again (y ∷ joined) x rest n e same =
    let first : y ≡ x = cc in
    let relative : (y == 47) ≡ false = ground (arith, n, first) in rw (relative, same) refl

-- The key that names make is its own key.
key_again :
    (absolute : Bool) (names : List Text)
    → All IsName names
    → normalize_fs_key (keyed absolute (join 47 names)) ≡ keyed absolute (join 47 names)
key_again true [] h = unfold normalize_fs_key text starts_with collapse join split ◌===◌ in refl
key_again false [] h = unfold normalize_fs_key text starts_with collapse join split ◌===◌ in refl
key_again true (name ∷ names) h =
    unfold normalize_fs_key text starts_with in ap (λ t. 47 ∷ t) (ap (join 47) below)
  where
    below : collapse [] (split 47 (47 ∷ join 47 (name ∷ names))) ≡ name ∷ names
    below = unfold split collapse in collapse-split name names h
key_again false (name ∷ names) (p, h) =
    let (x, rest, n, e) = join-first name names p in
    relative_again (join 47 (name ∷ names)) x rest n e
      (ap (join 47) (collapse-split name names (p, h)))

-- `normalizeFsKey` is idempotent: a key is its own key.
pub normalize_fs_key_idem :
    (path : Text) → normalize_fs_key (normalize_fs_key path) ≡ normalize_fs_key path
normalize_fs_key_idem path =
    ap normalize_fs_key same
    ∙ key_again (starts_with path (text "/")) (collapse [] (split 47 path))
        (collapse-IsName [] (split 47 path) tt (split-Without 47 path))
    ∙ sym same
  where
    same :
        normalize_fs_key path
        ≡ keyed (starts_with path (text "/")) (join 47 (collapse [] (split 47 path)))
    same = unfold normalize_fs_key in refl
