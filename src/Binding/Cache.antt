-- ===== src/Binding/Cache.antt =====
-- src/workspace-binding.ts: the maps of cached bindings, and what a mutation drops from them.
pub mod Laws
use dsh_podman.Prelude.{
  ℕ, Bool, true, false, List, [], ◌∷◌, ◌++◌, Option, none, some, if◌then◌else◌, not, ◌&&◌, ◌||◌,
  filter,
}
use dsh_podman.Text.{Text, text, ◌===◌, is_empty, starts_with}

-- A map from texts, as the list of its entries, whose order nothing depends on.
abbrev pub Cache {ℓ} : Type ℓ → Type ℓ
Cache A = List (Text × A)

-- The key of a named container.
abbrev pub container_key : Text → Text → Text
container_key slug container = slug ++ 58 ∷ container

module _ {ℓ} {A : Type ℓ} where
  abbrev pub cached : Text → Cache A → Option A
  cached key [] = none
  cached key ((k, a) ∷ entries) = if k === key then some a else cached key entries

  abbrev pub drop_key : Text → Cache A → Cache A
  drop_key key entries = filter (λ e. not (e.0 === key)) entries

  -- `map.set(key, a)`
  abbrev pub set_key : Text → A → Cache A → Cache A
  set_key key a entries = (key, a) ∷ drop_key key entries

  unfoldable pub forget_container : Text → Text → Cache A → Cache A
  forget_container slug container entries = drop_key (container_key slug container) entries

  unfoldable pub forget_workspace : Text → Cache A → Cache A
  forget_workspace slug entries = filter (λ e. not (starts_with e.0 (slug ++ 58 ∷ []))) entries

pub data Scope : Type 0 where
  of_one : Scope
  of_all : Scope

-- CONTAINER_MUTATIONS
unfoldable pub container_mutation : Text → Option Scope
container_mutation method =
    if method === text "startContainer"
      || method === text "recreateContainer"
      || method === text "removeContainer"
      || method === text "addContainerMount"
      || method === text "removeContainerMount"
      || method === text "updateContainerMount"
      || method === text "addContainerSecret"
      || method === text "removeContainerSecret"
    then some of_one
    else if method === text "removeWorkspace"
    then some of_all
    else none

abbrev pub ptc_container : Text
ptc_container = text "ptc"

abbrev pub ptc_binding_key : Text
ptc_binding_key = text "ptc:shared"

module _ {ℓ} {A : Type ℓ} where
  -- What is dropped when the request names a workspace.
  unfoldable pub forget : Scope → Text → Text → Cache A → Cache A
  forget of_all slug container entries = forget_workspace slug entries
  forget of_one slug container entries =
      if is_empty container then entries else forget_container slug container entries

  -- `invalidateAfter`; a field of the request that is not a string is the empty text.
  unfoldable pub invalidate_after : Text → Text → Text → Cache A → Cache A
  invalidate_after method slug container entries = elim (container_mutation method) [
    | none ↦ entries
    | some scope ↦
        if is_empty slug
        then if method === text "removeContainer" && container === ptc_container
          then drop_key ptc_binding_key entries
          else entries
        else forget scope slug container entries
  ]
