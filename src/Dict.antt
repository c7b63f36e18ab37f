-- ===== src/Dict.antt =====
-- A JavaScript object used as a map from strings to strings: `Record<string, string>`.
-- The entries stand in the order in which they were first set. (JavaScript lists keys that read as
-- array indices, such as "0", before all others; no environment variable needs such a name.)
pub mod Laws
use dsh_podman.Prelude.{
  Bool, true, false, List, [], ◌∷◌, Option, none, some, if◌then◌else◌, ◌||◌, ◌&&◌, map,
}
use dsh_podman.Text.{Text, text, ◌===◌, includes}
use dsh_podman.Value.{prototype_names}

abbrev pub Entries : Type 0
Entries = List (Text × Text)

pub record Dict : Type 0 where
  -- `false` for an object made by `Object.create(null)`
  pub inherits : Bool
  pub entries : Entries

-- `{}`
abbrev pub empty : Dict
empty = record { inherits = true; entries = [] }

-- `Object.create(null)`
abbrev pub bare : Dict
bare = record { inherits = false; entries = [] }

unfoldable pub lookup : Text → Entries → Option Text
lookup k [] = none
lookup k ((j, v) ∷ es) = if j === k then some v else lookup k es

unfoldable pub put : Text → Text → Entries → Entries
put k v [] = (k, v) ∷ []
put k v ((j, w) ∷ es) = if j === k then (j, v) ∷ es else (j, w) ∷ put k v es

unfoldable pub remove : Text → Entries → Entries
remove k [] = []
remove k ((j, w) ∷ es) = let rest = remove k es in if j === k then rest else (j, w) ∷ rest

-- `Object.keys(d)`
abbrev pub keys : Entries → List Text
keys es = map (λ e. e.0) es

-- the own entry of a key
unfoldable pub get : Text → Dict → Option Text
unfolding lookup
get k d = lookup k d.entries

-- `k in d`
unfoldable pub has_in : Text → Dict → Bool
unfolding includes
has_in k d = includes k (keys d.entries) || (d.inherits && includes k prototype_names)

-- `Object.prototype.hasOwnProperty.call(d, k)`
unfoldable pub has_own : Text → Dict → Bool
unfolding includes
has_own k d = includes k (keys d.entries)

-- `d[k] = v`; a plain object ignores a string assigned to its `__proto__`.
unfoldable pub assign : Text → Text → Dict → Dict
unfolding put
assign k v d =
    if d.inherits && k === text "__proto__" then d else record d { entries = put k v d.entries }

unfoldable pub put_all : Entries → Entries → Entries
put_all es [] = es
put_all es ((k, v) ∷ more) = put_all (put k v es) more

-- `{ ...a, ...b }`
unfoldable pub spread : Dict → Dict → Dict
unfolding put_all put
spread a b = record { inherits = true; entries = put_all (put_all [] a.entries) b.entries }

-- `delete d[k]`
unfoldable pub delete : Text → Dict → Dict
unfolding remove
delete k d = record d { entries = remove k d.entries }
