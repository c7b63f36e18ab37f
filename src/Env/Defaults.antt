-- ===== src/Env/Defaults.antt =====
-- src/container-env.ts: the default environment and the Git identity in it.
-- An absent environment is `none`.
pub mod Laws
pub mod Identity
use dsh_podman.Prelude.{
  Bool, true, false, List, [], ◌∷◌, Option, none, some, if◌then◌else◌, ◌||◌, ◌&&◌, ◌++◌,
}
use dsh_podman.Text.{Text, text, ◌===◌, is_empty, includes, starts_with}
use dsh_podman.Dict.{Dict, Entries, empty, get, has_own, assign, spread, delete, keys}

abbrev pub reserved_env_prefix : Text
reserved_env_prefix = text "DSH_PODMAN"

-- `env ?? {}`
abbrev pub or_empty : Option Dict → Dict
or_empty none = empty
or_empty (some d) = d

-- A default that is not applied: an empty name, or one in the reserved namespace.
abbrev pub is_dropped : Text → Bool
is_dropped key = is_empty key || starts_with key reserved_env_prefix

pub applied : Dict → Entries → Dict
applied merged [] = merged
applied merged ((key, value) ∷ rest) =
    applied (if is_dropped key then merged else assign key value merged) rest

unfoldable pub merge_default_env : Option Dict → Option Dict → Dict
unfolding applied
merge_default_env defaults env = spread (applied empty (or_empty defaults).entries) (or_empty env)

pub missing_from : Dict → Dict → Entries → Dict
missing_from env missing [] = missing
missing_from env missing ((key, value) ∷ rest) =
    missing_from env (if has_own key env then missing else assign key value missing) rest

unfoldable pub missing_default_env : Option Dict → Option Dict → Dict
unfolding missing_from merge_default_env
missing_default_env defaults env =
    missing_from (or_empty env) empty (merge_default_env defaults none).entries

abbrev pub git_author_name : Text
git_author_name = text "GIT_AUTHOR_NAME"

abbrev pub git_author_email : Text
git_author_email = text "GIT_AUTHOR_EMAIL"

abbrev pub git_committer_name : Text
git_committer_name = text "GIT_COMMITTER_NAME"

abbrev pub git_committer_email : Text
git_committer_email = text "GIT_COMMITTER_EMAIL"

unfoldable pub git_identity_env : Text → Text → Dict
git_identity_env name email = record {
  inherits = true;
  entries =
      (git_author_name, name)
      ∷ (git_author_email, email)
      ∷ (git_committer_name, name)
      ∷ (git_committer_email, email)
      ∷ [];
}

-- `value ?? ""`
abbrev pub or_blank : Option Text → Text
or_blank none = []
or_blank (some s) = s

pub record GitIdentity : Type 0 where
  pub name : Text
  pub email : Text

unfoldable pub read_git_identity : Option Dict → GitIdentity
read_git_identity env = record {
  name = or_blank (get git_author_name (or_empty env));
  email = or_blank (get git_author_email (or_empty env));
}

abbrev pub git_identity_keys : List Text
git_identity_keys =
    git_author_name ∷ git_author_email ∷ git_committer_name ∷ git_committer_email ∷ []

delete_all : List Text → Dict → Dict
delete_all [] d = d
delete_all (key ∷ rest) d = delete_all rest (delete key d)

unfoldable pub set_git_identity : Dict → Text → Text → Dict
unfolding delete_all
set_git_identity env name email =
    let next = delete_all git_identity_keys (spread env empty) in
    if is_empty name || is_empty email then next else spread next (git_identity_env name email)

-- `a !== b` on what two lookups give
abbrev same_value : Option Text → Option Text → Bool
same_value none none = true
same_value none (some b) = false
same_value (some a) none = false
same_value (some a) (some b) = a === b

drift_within : Dict → Dict → List Text → Bool
drift_within server before [] = true
drift_within server before (key ∷ rest) =
    let others = drift_within server before rest in
    if includes key git_identity_keys
    then others
    else if same_value (get key server) (get key before)
    then others
    else false

-- The keys are those of both; a key of both is looked at twice, to the same effect.
unfoldable pub git_only_drift : Dict → Dict → Bool
unfolding drift_within
git_only_drift server before =
    drift_within server before (keys server.entries ++ keys before.entries)

pub data IdentityAction : Type 0 where
  discard save draft : IdentityAction

same_entries : Entries → Entries → Bool
same_entries [] [] = true
same_entries [] (e ∷ es) = false
same_entries (e ∷ es) [] = false
same_entries ((k, v) ∷ es) ((j, w) ∷ fs) = k === j && v === w && same_entries es fs

-- Two maps of strings have one JSON text exactly when they have the same entries in the same order.
unfoldable pub commit_identity_action : Dict → Dict → Dict → IdentityAction
unfolding same_entries
commit_identity_action server draft_env next =
    if same_entries next.entries server.entries
    then discard
    else if git_only_drift server draft_env
    then save
    else draft
