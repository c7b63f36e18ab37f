-- ===== src/Template/Fields/Laws.antt =====
-- What a field that is accepted satisfies (src/container-template.ts).
use dsh_podman.Prelude.{
  ℕ, ◌+◌, ◌≡◌, ◌≢◌, refl, sym, inl, inr, Bool, true, false, List, [], ◌∷◌, arith, All, Bool-cases,
  ok, subst, >>=-eq-ok, throw_if-eq-ok, throw_if, ok-injective, not, ◌&&◌,
}
use dsh_podman.Text.{Text, text, ◌===◌, is_empty, has_unit, starts_with}
use dsh_podman.Text.Laws.{===_iff, Without, has_unit-Without}
use dsh_podman.Value.{Value, undef, arr, obj, items, own_entries}
use dsh_podman.Dict.{Dict, Entries, put, assign, bare}
use dsh_podman.Template.{Checked}
use dsh_podman.Template.Names.{matches_secret}
use dsh_podman.Template.Fields.{
  dotted, indexed, string_value, non_empty_string, env_key, env_value, secret_name, string_map_from,
  string_map, parse_from, parse_list,
}

-- A name that a variable may have.
pub record IsEnvKey (key : Text) : Type 0 where
  pub not_empty : key ≢ []
  pub no_equals : Without b'=' key
  pub no_nul : Without 0 key
  pub not_reserved : starts_with key (text "DSH_PODMAN") ≡ false

is_empty-false : (s : Text) → is_empty s ≡ false → s ≢ []
is_empty-false [] h e = cc
is_empty-false (x ∷ s) h e = cc

pub env_key-IsEnvKey : (value path : Text) {key : Text} → env_key value path ≡ ok key → IsEnvKey key
unfolding env_key
env_key-IsEnvKey value path {key} e =
    let (u, a, e₁) = >>=-eq-ok (throw_if (is_empty value) _) _ e in
    let (v, b, e₂) = >>=-eq-ok (throw_if (has_unit b'=' value) _) _ e₁ in
    let (w, c, e₃) = >>=-eq-ok (throw_if (has_unit 0 value) _) _ e₂ in
    let (x, d, e₄) = >>=-eq-ok (throw_if (starts_with value (text "DSH_PODMAN")) _) _ e₃ in
    let same : value ≡ key = ground arith in
    subst IsEnvKey same (record {
      not_empty = is_empty-false value (throw_if-eq-ok _ _ a);
      no_equals = has_unit-Without b'=' value (throw_if-eq-ok _ _ b);
      no_nul = has_unit-Without 0 value (throw_if-eq-ok _ _ c);
      not_reserved = throw_if-eq-ok _ _ d;
    })

pub env_value-Without :
    (value : Value) (path : Text) {s : Text} → env_value value path ≡ ok s → Without 0 s
unfolding env_value
env_value-Without value path {s} e =
    let (t, read, e₁) = >>=-eq-ok (string_value value path) _ e in
    let (u, a, e₂) = >>=-eq-ok (throw_if (has_unit 0 t) _) _ e₁ in
    let same : t ≡ s = ground arith in
    subst (Without 0) same (has_unit-Without 0 t (throw_if-eq-ok _ _ a))

pub not-false : (b : Bool) → not b ≡ false → b ≡ true
not-false true h = refl
not-false false h = cc

pub secret_name-matches :
    (value : Value) (path : Text) {s : Text}
    → secret_name value path ≡ ok s
    → matches_secret s ≡ true
unfolding secret_name
secret_name-matches value path {s} e =
    let (t, read, e₁) = >>=-eq-ok (non_empty_string value path) _ e in
    let (u, a, e₂) = >>=-eq-ok (throw_if (not (matches_secret t)) _) _ e₁ in
    let same : t ≡ s = ground arith in
    subst (λ z. matches_secret z ≡ true) same (not-false _ (throw_if-eq-ok _ _ a))

-- Setting a key keeps what holds of every entry.
pub put-All :
    (P : Text × Text → Type 0) (k v : Text) (es : Entries)
    → P (k, v)
    → All P es
    → All P (put k v es)
unfolding put
put-All P k v [] p h = (p, tt)
put-All P k v ((j, w) ∷ es) p (q, h) = elim (Bool-cases (j === k)) [
  | inl e ↦ rw e (subst (λ z. P (z, v)) (sym ((===_iff j k).0 e)) p, h)
  | inr e ↦ rw e (q, put-All P k v es p h)
]

pub assign-All :
    (P : Text × Text → Type 0) (k v : Text) (d : Dict)
    → P (k, v)
    → All P d.entries
    → All P (assign k v d).entries
unfolding assign
assign-All P k v d p h = elim (Bool-cases (d.inherits && k === text "__proto__")) [
  | inl e ↦ rw e h
  | inr e ↦ rw e (put-All P k v d.entries p h)
]

module _ (P : Text × Text → Type 0) (key_check : Text → Text → Checked Text)
    (value_check : Value → Text → Checked Text)
    (checked : (key : Text) (v : Value) (path k s : Text)
      → key_check key path ≡ ok k
      → value_check v path ≡ ok s
      → P (k, s)) where
  string_map_from-All :
      (result : Dict) (entries : List (Text × Value)) (path : Text) {out : Dict}
      → All P result.entries
      → string_map_from key_check value_check result entries path ≡ ok out
      → All P out.entries
  unfolding string_map_from
  string_map_from-All result [] path h e = subst (λ d. All P d.entries) (ok-injective e) h
  string_map_from-All result ((key, item) ∷ rest) path h e =
      let (k, a, e₁) = >>=-eq-ok (key_check key (dotted path key)) _ e in
      let (s, b, e₂) = >>=-eq-ok (value_check item (dotted path key)) _ e₁ in
      string_map_from-All (assign k s result) rest path
        (assign-All P k s result (checked key item (dotted path key) k s a b) h) e₂

  -- What the checks ensure of one entry holds of every entry of an accepted map.
  pub string_map-All :
      (value : Value) (path : Text) {out : Dict}
      → string_map key_check value_check value path ≡ ok out
      → All P out.entries
  unfolding string_map
  string_map-All undef path e = subst (λ d. All P d.entries) (ok-injective e) tt
  string_map-All (obj fields) path e = string_map_from-All bare (own_entries fields) path tt e
  string_map-All v path e = cc

module _ {T : Type 0} (P : T → Type 0) (parse_item : Value → Text → Checked T)
    (parsed : (v : Value) (path : Text) (t : T) → parse_item v path ≡ ok t → P t) where
  parse_from-All :
      (index : ℕ) (vs : List Value) (path : Text) {out : List T}
      → parse_from parse_item index vs path ≡ ok out
      → All P out
  unfolding parse_from
  parse_from-All index [] path e = subst (All P) (ok-injective e) tt
  parse_from-All index (v ∷ vs) path e =
      let (t, a, e₁) = >>=-eq-ok (parse_item v (indexed path index)) _ e in
      let (ts, b, e₂) = >>=-eq-ok (parse_from parse_item (index + 1) vs path) _ e₁ in
      subst (All P) (ok-injective e₂)
        (parsed v (indexed path index) t a, parse_from-All (index + 1) vs path b)

  -- What the parser ensures of one item holds of every item of an accepted list.
  pub parse_list-All :
      (value : Value) (path : Text) {out : List T}
      → parse_list parse_item value path ≡ ok out
      → All P out
  unfolding parse_list
  parse_list-All undef path e = subst (All P) (ok-injective e) tt
  parse_list-All (arr vs) path e = parse_from-All 0 (items vs) path e
  parse_list-All v path e = cc
