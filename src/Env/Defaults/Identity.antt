-- ===== src/Env/Defaults/Identity.antt =====
-- The Git identity in the default environment (src/container-env.ts).
use dsh_podman.Prelude.{
  ◌≡◌, refl, ◌∙◌, ap, inl, inr, true, false, List, [], ◌∷◌, Option, none, some, arith, Bool-cases,
  if◌then◌else◌, ◌||◌,
}
use dsh_podman.Text.{Text, text, ◌===◌, is_empty, includes}
use dsh_podman.Text.Laws.{===_refl, ===_comm}
use dsh_podman.Dict.{Dict, empty, get, lookup, put_all, spread, delete}
use dsh_podman.Dict.Laws.{
  IsMap, or_else, lookup-put_all, lookup-remove, remove-IsMap, put_all-IsMap,
}
use dsh_podman.Env.Defaults.{
  git_identity_env, git_identity_keys, git_author_name, git_author_email, git_committer_name,
  git_committer_email, read_git_identity, delete_all, set_git_identity, same_value, drift_within,
  git_only_drift,
}

get-delete : (k j : Text) (d : Dict) → get k (delete j d) ≡ (if j === k then none else get k d)
unfolding get delete
get-delete k j d = lookup-remove k j d.entries

get-delete_all :
    (k : Text) (ks : List Text) (d : Dict)
    → get k (delete_all ks d) ≡ (if includes k ks then none else get k d)
unfolding delete_all includes
get-delete_all k [] d = refl
get-delete_all k (j ∷ ks) d =
    get-delete_all k ks (delete j d) ∙ ground (arith, get-delete k j d, ===_comm j k)

get-spread :
    (k : Text) (a b : Dict)
    → IsMap a.entries
    → IsMap b.entries
    → get k (spread a b) ≡ or_else (get k b) (get k a)
unfolding get spread
get-spread k a b m n =
    lookup-put_all k (put_all [] a.entries) b.entries n
    ∙ ap (or_else (lookup k b.entries)) (lookup-put_all k [] a.entries m ∙ or_else-none _)
  where
    or_else-none : (o : Option Text) → or_else o none ≡ o
    or_else-none none = refl
    or_else-none (some v) = refl

identity-IsMap : (name email : Text) → IsMap (git_identity_env name email).entries
unfolding git_identity_env includes text ◌===◌
identity-IsMap name email = (refl, (refl, (refl, (refl, tt))))

get-identity :
    (k name email : Text)
    → includes k git_identity_keys ≡ false
    → get k (git_identity_env name email) ≡ none
unfolding get git_identity_env lookup includes
get-identity k name email h = ground (
  arith,
  ===_comm k git_author_name,
  ===_comm k git_author_email,
  ===_comm k git_committer_name,
  ===_comm k git_committer_email,
)

-- What is left of an environment when its identity is taken out.
without_identity : Dict → Dict
without_identity env = delete_all git_identity_keys (spread env empty)

delete_all-IsMap : (ks : List Text) (d : Dict) → IsMap d.entries → IsMap (delete_all ks d).entries
unfolding delete_all delete
delete_all-IsMap [] d m = m
delete_all-IsMap (j ∷ ks) d m = delete_all-IsMap ks (delete j d) (remove-IsMap j d.entries m)

without_identity-IsMap : (env : Dict) → IsMap (without_identity env).entries
unfolding without_identity spread
without_identity-IsMap env =
    delete_all-IsMap git_identity_keys _
      (put_all-IsMap (put_all [] env.entries) [] (put_all-IsMap [] env.entries tt))

get-empty : (k : Text) → get k empty ≡ none
unfolding get lookup
get-empty k = refl

get-without_identity :
    (k : Text) (env : Dict)
    → IsMap env.entries
    → get k (without_identity env) ≡ (if includes k git_identity_keys then none else get k env)
unfolding without_identity
get-without_identity k env m =
    get-delete_all k git_identity_keys (spread env empty)
    ∙ ap (λ o. if includes k git_identity_keys then none else o)
        (get-spread k env empty m tt ∙ rw (get-empty k) refl)

get-set_git_identity :
    (k : Text) (env : Dict) (name email : Text)
    → IsMap env.entries
    → get k (set_git_identity env name email) ≡ (
        if is_empty name || is_empty email
        then get k (without_identity env)
        else or_else (get k (git_identity_env name email)) (get k (without_identity env)))
unfolding set_git_identity without_identity
get-set_git_identity k env name email m = elim (Bool-cases (is_empty name || is_empty email)) [
  | inl e ↦ rw e refl
  | inr e ↦ rw e (
      get-spread k (without_identity env) (git_identity_env name email) (without_identity-IsMap env)
        (identity-IsMap name email))
]

-- Setting the identity leaves every variable that is not of the identity as it was.
pub set_git_identity-get_other :
    (key : Text) (env : Dict) (name email : Text)
    → IsMap env.entries
    → includes key git_identity_keys ≡ false
    → get key (set_git_identity env name email) ≡ get key env
set_git_identity-get_other key env name email m h =
    get-set_git_identity key env name email m
    ∙ elim (Bool-cases (is_empty name || is_empty email)) [
      | inl e ↦ rw e (get-without_identity key env m ∙ rw h refl)
      | inr e ↦
          rw e (rw (get-identity key name email h) (get-without_identity key env m ∙ rw h refl))
    ]

identity_parts :
    (name email : Text)
    → (get git_author_name (git_identity_env name email) ≡ some name)
      × (get git_author_email (git_identity_env name email) ≡ some email)
      × (includes git_author_name git_identity_keys ≡ true)
      × (includes git_author_email git_identity_keys ≡ true)
unfolding get lookup git_identity_env includes text ◌===◌
identity_parts name email = (refl, refl, refl, refl)

-- Reading the identity back gives the one that was set, and a blank one where the name or the email
-- that was set is empty.
pub read_git_identity-set_git_identity :
    (env : Dict) (name email : Text)
    → IsMap env.entries
    → read_git_identity (some (set_git_identity env name email)) ≡ (
        if is_empty name || is_empty email
        then record { name = []; email = [] }
        else record { name = name; email = email })
unfolding read_git_identity
read_git_identity-set_git_identity env name email m =
    let (n, e, a, b) = identity_parts name email in
    rw (get-set_git_identity git_author_name env name email m) (
      rw (get-set_git_identity git_author_email env name email m) (
        rw (get-without_identity git_author_name env m) (
          rw (get-without_identity git_author_email env m) (
            rw (n, e, a, b)
              (elim (Bool-cases (is_empty name || is_empty email)) [
                | inl h ↦ rw h refl
                | inr h ↦ rw h refl
              ])))))

same_value_refl : (o : Option Text) → same_value o o ≡ true
same_value_refl none = refl
same_value_refl (some a) = ===_refl a

drift_within_of_same :
    (server before : Dict) (ks : List Text)
    → ((key : Text) → includes key git_identity_keys ≡ false → get key before ≡ get key server)
    → drift_within server before ks ≡ true
unfolding drift_within
drift_within_of_same server before [] h = refl
drift_within_of_same server before (key ∷ ks) h =
    elim (Bool-cases (includes key git_identity_keys)) [
      | inl e ↦ rw e (drift_within_of_same server before ks h)
      | inr e ↦ rw e (
          rw (h key e)
            (rw (same_value_refl (get key server)) (drift_within_of_same server before ks h)))
    ]

-- A change of the identity alone is a drift of the identity only, so the popup may save it directly.
pub git_only_drift-set_git_identity :
    (env : Dict) (name email : Text)
    → IsMap env.entries
    → git_only_drift env (set_git_identity env name email) ≡ true
unfolding git_only_drift
git_only_drift-set_git_identity env name email m =
    drift_within_of_same env (set_git_identity env name email) _
      (λ key h. set_git_identity-get_other key env name email m h)
