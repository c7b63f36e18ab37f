-- ===== src/Template/Items/Inherited.antt =====
-- Mount kinds that are spelled like what every object inherits (src/container-template.ts).
use dsh_podman.Prelude.{◌≡◌, refl, inl, inr, Bool-cases, true, false, List, [], ◌∷◌, All, throw}
use dsh_podman.Text.{Text, text, ◌===◌, includes, is_empty}
use dsh_podman.Text.Laws.{===_iff}
use dsh_podman.Text.Sets.{All-includes}
use dsh_podman.Value.{Value, str, obj, Fields, end, field, get, own_entries, prototype_names}
use dsh_podman.Template.{type_error}
use dsh_podman.Template.Fields.{non_empty_string, string_value}
use dsh_podman.Template.Items.{
  inherited, mount_keys, forbidden_keys, reject_forbidden, reject_entries_of, mount_with,
  mount_allowed, parse_mount,
}

-- What the tables of the parser say of a kind that the table object inherits.
record IsInherited (kind : Text) : Type 0 where
  keys_found : mount_keys kind ≡ inherited
  none_forbidden : forbidden_keys kind ≡ []
  named : is_empty kind ≡ false

found :
    {kind : Text}
    → mount_keys kind ≡ inherited
    → forbidden_keys kind ≡ []
    → is_empty kind ≡ false
    → IsInherited kind
found k f n = record { keys_found = k; none_forbidden = f; named = n }

inherited_names : All IsInherited prototype_names
unfolding mount_keys forbidden_keys text ◌===◌ includes
inherited_names = (
  found refl refl refl,
  (
    found refl refl refl,
    (
      found refl refl refl,
      (
        found refl refl refl,
        (
          found refl refl refl,
          (
            found refl refl refl,
            (
              found refl refl refl,
              (
                found refl refl refl,
                (
                  found refl refl refl,
                  (found refl refl refl, (found refl refl refl, (found refl refl refl, tt))),
                ),
              ),
            ),
          ),
        ),
      ),
    ),
  ),
)

-- A mount with a kind has an own entry.
own_entries_of_kind :
    (value : Fields) (kind : Text)
    → get (text "kind") value ≡ str kind
    → (entry : Text × Value) × (rest : List (Text × Value)) × (own_entries value ≡ entry ∷ rest)
unfolding get own_entries
own_entries_of_kind end kind e = cc
own_entries_of_kind (field k v fs) kind e = elim (Bool-cases (k === text "__proto__")) [
  | inr other ↦ ((k, v), own_entries fs, rw other refl)
  | inl proto ↦
      let later : (k === text "kind") ≡ false =
        rw ((===_iff k (text "__proto__")).0 proto) (unfold text ◌===◌ in refl) in
      let (entry, rest, same) = own_entries_of_kind fs kind (rw later at e) in
      (entry, rest, rw proto same)
]

-- A mount whose kind is the name of a property that every object has is refused with a type error,
-- not as an unknown kind of mount.
pub parse_mount-type_error :
    (value : Fields) (kind path : Text)
    → get (text "kind") value ≡ str kind
    → includes kind prototype_names ≡ true
    → parse_mount (obj value) path ≡ throw type_error
unfolding parse_mount
parse_mount-type_error value kind path k e =
    let i = All-includes IsInherited kind prototype_names inherited_names e in
    let (entry, rest, own) = own_entries_of_kind value kind k in
    rw k (
      unfold non_empty_string string_value in
      (rw i.named (
        rw i.keys_found (
          unfold mount_allowed mount_with in
          (rw i.none_forbidden
            (unfold reject_forbidden in (rw own (unfold reject_entries_of in refl))))))))
