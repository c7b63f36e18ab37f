-- ===== src/Value.antt =====
-- The values that a parsed YAML document holds, as src/container-template.ts reads them.
-- `num` is a number that is an integer at or above 0, `other_num` any other number, by its text.
-- `undef` is what reading an absent key gives. Date and tag values are not produced by the schema.
use dsh_podman.Prelude.{ℕ, Bool, false, List, [], ◌∷◌, if◌then◌else◌, ◌||◌}
use dsh_podman.Text.{Text, text, ◌===◌}

mutual
  pub data Value : Type 0 where
    undef null : Value
    bool : Bool → Value
    num : ℕ → Value
    other_num : Text → Value
    str : Text → Value
    arr : Items → Value
    obj : Fields → Value

  pub data Items : Type 0 where
    nil : Items
    cons : Value → Items → Items

  pub data Fields : Type 0 where
    end : Fields
    field : Text → Value → Fields → Fields

abbrev pub items : Items → List Value
items nil = []
items (cons v vs) = v ∷ items vs

-- `value[key]`
unfoldable pub get : Text → Fields → Value
get key end = undef
get key (field k v fs) = if k === key then v else get key fs

-- `key in value`, for keys that `Object.prototype` does not have
unfoldable pub has_key : Text → Fields → Bool
has_key key end = false
has_key key (field k v fs) = k === key || has_key key fs

-- `ownEntries`
unfoldable pub own_entries : Fields → List (Text × Value)
own_entries end = []
own_entries (field k v fs) =
    let rest = own_entries fs in if k === text "__proto__" then rest else (k, v) ∷ rest

-- The names that every plain object inherits from `Object.prototype`.
abbrev pub prototype_names : List Text
prototype_names =
    text "constructor"
    ∷ text "__defineGetter__"
    ∷ text "__defineSetter__"
    ∷ text "hasOwnProperty"
    ∷ text "__lookupGetter__"
    ∷ text "__lookupSetter__"
    ∷ text "isPrototypeOf"
    ∷ text "propertyIsEnumerable"
    ∷ text "toString"
    ∷ text "valueOf"
    ∷ text "__proto__"
    ∷ text "toLocaleString"
    ∷ []
