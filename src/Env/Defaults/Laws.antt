-- ===== src/Env/Defaults/Laws.antt =====
-- The default environment under a container's own (src/container-env.ts).
use dsh_podman.Prelude.{
  ◌≡◌, refl, ◌∙◌, ap, inl, inr, Bool, true, false, [], ◌∷◌, Option, none, some, Bool-cases,
  if◌then◌else◌, ◌||◌, ◌&&◌, subst,
}
use dsh_podman.Text.{Text, text, ◌===◌}
use dsh_podman.Text.Laws.{===_iff, ===_refl}
use dsh_podman.Dict.{Dict, Entries, empty, get, lookup, assign, spread}
use dsh_podman.Dict.Laws.{IsMap, or_else, lookup-put, lookup-none, lookup-put_all, put-IsMap}
use dsh_podman.Env.Defaults.{is_dropped, applied, merge_default_env}

-- A default that is not applied: a name that is empty or reserved, or the prototype of an object.
abbrev pub is_skipped : Text → Bool
is_skipped key = is_dropped key || key === text "__proto__"

-- The default of a name, if it is applied.
abbrev pub default_of : Text → Entries → Option Text
default_of key es = if is_skipped key then none else lookup key es

get-assign :
    (k j v : Text) (d : Dict)
    → d.inherits ≡ true
    → get k (assign j v d)
      ≡ (if j === text "__proto__" then get k d else if j === k then some v else get k d)
unfolding get assign
get-assign k j v d h = elim (Bool-cases (j === text "__proto__")) [
  | inl e ↦ rw h (rw e refl)
  | inr e ↦ rw h (rw e (lookup-put k j v d.entries))
]

assign-inherits : (j v : Text) (d : Dict) → d.inherits ≡ true → (assign j v d).inherits ≡ true
unfolding assign
assign-inherits j v d h = elim (Bool-cases (d.inherits && j === text "__proto__")) [
  | inl e ↦ rw e h
  | inr e ↦ rw e h
]

apply_one-inherits :
    (b : Bool) (j v : Text) (d : Dict)
    → d.inherits ≡ true
    → (if b then d else assign j v d).inherits ≡ true
apply_one-inherits true j v d h = h
apply_one-inherits false j v d h = assign-inherits j v d h

get-apply_one :
    (k j v : Text) (d : Dict)
    → d.inherits ≡ true
    → get k (if is_dropped j then d else assign j v d)
      ≡ (if is_skipped j then get k d else if j === k then some v else get k d)
get-apply_one k j v d h = elim (Bool-cases (is_dropped j)) [
  | inl e ↦ rw e refl
  | inr e ↦ rw e (get-assign k j v d h)
]

get-applied :
    (k : Text) (d : Dict) (es : Entries)
    → d.inherits ≡ true
    → IsMap es
    → get k (applied d es) ≡ or_else (default_of k es) (get k d)
unfolding applied
get-applied k d [] h m = elim (Bool-cases (is_skipped k)) [
  | inl e ↦ rw e refl
  | inr e ↦ rw e (unfold lookup in refl)
]
get-applied k d ((j, v) ∷ es) h (new, m) =
    get-applied k (if is_dropped j then d else assign j v d) es
      (apply_one-inherits (is_dropped j) j v d h) m
    ∙ ap (or_else (default_of k es)) (get-apply_one k j v d h)
    ∙ elim (Bool-cases (j === k)) [
      | inl e ↦
          subst
            (λ x.
              or_else (default_of x es)
                (if is_skipped j then get x d else if j === x then some v else get x d)
              ≡ or_else (default_of x ((j, v) ∷ es)) (get x d))
            ((===_iff j k).0 e) same
      | inr e ↦
          unfold lookup in
          (rw e (elim (Bool-cases (is_skipped j)) [ inl f ↦ rw f refl | inr f ↦ rw f refl ]))
    ]
  where
    same :
        or_else
          (default_of j es)
          (if is_skipped j then get j d else if j === j then some v else get j d)
        ≡ or_else (default_of j ((j, v) ∷ es)) (get j d)
    same = rw (lookup-none j es new) (
        unfold lookup in
        (rw (===_refl j)
          (elim (Bool-cases (is_skipped j)) [ inl f ↦ rw f refl | inr f ↦ rw f refl ])))

applied-IsMap : (d : Dict) (es : Entries) → IsMap d.entries → IsMap (applied d es).entries
unfolding applied
applied-IsMap d [] h = h
applied-IsMap d ((j, v) ∷ es) h =
    applied-IsMap (if is_dropped j then d else assign j v d) es (one (is_dropped j))
  where
    assigned : IsMap (assign j v d).entries
    assigned = elim (Bool-cases (d.inherits && j === text "__proto__")) [
      | inl e ↦ unfold assign in (rw e h)
      | inr e ↦ unfold assign in (rw e (put-IsMap j v d.entries h))
    ]

    one : (b : Bool) → IsMap (if b then d else assign j v d).entries
    one true = h
    one false = assigned

or_else-none : (o : Option Text) → or_else o none ≡ o
or_else-none none = refl
or_else-none (some a) = refl

-- A variable of the merged environment has the caller's value where the caller gives one, otherwise
-- its default, unless the default's name is empty, reserved or that of the object's prototype.
pub merge_default_env-get :
    (key : Text) (defaults env : Dict)
    → IsMap defaults.entries
    → IsMap env.entries
    → get key (merge_default_env (some defaults) (some env))
      ≡ or_else (get key env) (default_of key defaults.entries)
unfolding merge_default_env spread get
merge_default_env-get key defaults env m n =
    lookup-put_all key _ env.entries n
    ∙ ap (or_else (lookup key env.entries)) (
        lookup-put_all key [] (applied empty defaults.entries).entries
          (applied-IsMap empty defaults.entries tt)
        ∙ or_else-none _
        ∙ get-applied key empty defaults.entries refl m
        ∙ or_else-none _)
