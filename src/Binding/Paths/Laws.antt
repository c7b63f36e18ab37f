-- ===== src/Binding/Paths/Laws.antt =====
-- The names and paths that a binding is found by (src/workspace-binding.ts).
use mathlib.Core.Option.{some-injective, none-ne-some}
use dsh_podman.Prelude.{
  ℕ, ◌≤◌, ◌≡◌, refl, sym, ◌∙◌, subst, inl, inr, Bool-cases, Bool, true, false, not, ◌&&◌, ltb, List,
  [], ◌∷◌, Option, none, some, if◌then◌else◌, length, All, All-imp, arith, ◌⊎◌,
}
use dsh_podman.Text.{Text, is_empty}
use dsh_podman.Binding.{RegisteredWorkspace}
use dsh_podman.Binding.Paths.{is_at_or_below, longer, containing_from, containing_workspace}

abbrev pub contains : Text → RegisteredWorkspace → Bool
contains path w = not (is_empty w.path) && is_at_or_below w.path path

-- How much of a path a workspace owns: all of its own path where that contains the path.
abbrev pub owned_by : Text → RegisteredWorkspace → ℕ
owned_by path w = if contains path w then length w.path else 0

abbrev pub owned : Text → Option RegisteredWorkspace → ℕ
owned path none = 0
owned path (some w) = owned_by path w

-- One of the workspaces that are listed, and it contains the path.
pub Owns : Text → List RegisteredWorkspace → RegisteredWorkspace → Type 0
Owns path [] w = ⊥
Owns path (x ∷ entries) w = ((w ≡ x) × ((contains path w) ≡ true)) ⊎ Owns path entries w

abbrev pub IsFound : Text → List RegisteredWorkspace → Option RegisteredWorkspace → Type 0
IsFound path entries none = All (λ w. (contains path w) ≡ false) entries
IsFound path entries (some w) =
    Owns path entries w × All (λ other. owned_by path other ≤ length w.path) entries

-- What the loop finds, given the match that it starts with.
record Improves (path : Text) (given : Option RegisteredWorkspace)
    (entries : List RegisteredWorkspace) (found : Option RegisteredWorkspace) : Type 0 where
  not_less : owned path given ≤ owned path found
  longest : All (λ other. owned_by path other ≤ owned path found) entries
  from : (found ≡ given) ⊎ ((w : RegisteredWorkspace) × (found ≡ some w) × Owns path entries w)

-- A match so far contains the path.
abbrev Holds : Text → Option RegisteredWorkspace → Type 0
Holds path none = Unit {0}
Holds path (some m) = contains path m ≡ true

record Longer (path : Text) (w : RegisteredWorkspace) (given found : Option RegisteredWorkspace)
    : Type 0 where
  holds : Holds path found
  not_less : owned path given ≤ owned path found
  not_less_new : owned_by path w ≤ owned path found
  either : (found ≡ given) ⊎ (found ≡ some w)

longer-Longer :
    (path : Text) (w : RegisteredWorkspace) (given : Option RegisteredWorkspace)
    → contains path w ≡ true
    → Holds path given
    → Longer path w given (longer w given)
longer-Longer path w none c h = record {
  holds = c;
  not_less = omega arith;
  not_less_new = omega arith;
  either = inr refl;
}
longer-Longer path w (some m) c h =
    let own_w : owned_by path w ≡ length w.path = rw c refl in
    let own_m : owned_by path m ≡ length m.path = rw h refl in
    elim (Bool-cases (ltb (length m.path) (length w.path))) [
      | inl e ↦ rw e (record {
        holds = c;
        not_less = ground (arith, own_w, own_m);
        not_less_new = omega arith;
        either = inr refl;
      })
      | inr e ↦ rw e (record {
        holds = h;
        not_less = omega arith;
        not_less_new = ground (arith, own_w, own_m);
        either = inl refl;
      })
    ]

containing_from-Improves :
    (path : Text) (given : Option RegisteredWorkspace) (entries : List RegisteredWorkspace)
    → Holds path given
    → Improves path given entries (containing_from path given entries)
unfolding containing_from Owns
containing_from-Improves path given [] h = record {
  not_less = omega arith;
  longest = tt;
  from = inl refl;
}
containing_from-Improves path given (w ∷ entries) h = elim (Bool-cases (contains path w)) [
  | inl c ↦
      let l = longer-Longer path w given c h in
      let i = containing_from-Improves path (longer w given) entries l.holds in
      rw c (record {
        not_less = omega (arith, l.not_less, i.not_less);
        longest = (omega (arith, l.not_less_new, i.not_less), i.longest);
        from = elim i.from [
          | inl same ↦ elim l.either [
            | inl k ↦ inl (same ∙ k)
            | inr k ↦ inr (w, same ∙ k, inl (refl, c))
          ]
          | inr (m, e, o) ↦ inr (m, e, inr o)
        ];
      })
  | inr c ↦
      let i = containing_from-Improves path given entries h in
      let nothing : owned_by path w ≡ 0 = rw c refl in
      rw c (record {
        not_less = i.not_less;
        longest = (omega (arith, nothing), i.longest);
        from = elim i.from [ inl same ↦ inl same | inr (m, e, o) ↦ inr (m, e, inr o) ];
      })
]

not_owned : (path : Text) (w : RegisteredWorkspace) → owned_by path w ≤ 0 → contains path w ≡ false
not_owned path w h = elim (Bool-cases (contains path w)) [
  | inl c ↦
      let own : owned_by path w ≡ length w.path = rw c refl in
      absurd (named w.path (ground (arith, c)) (omega (arith, own, h)))
  | inr c ↦ c
]
  where
    named : (p : Text) → is_empty p ≡ false → length p ≤ 0 → ⊥
    named [] e k = ground (arith, e)
    named (x ∷ p) e k = omega (arith, k)

-- `containingWorkspace` gives a listed workspace whose path is the path or above it, the longest
-- such path of those listed; or nothing, and then no listed workspace contains the path.
pub containing_workspace-IsFound :
    (path : Text) (entries : List RegisteredWorkspace)
    → IsFound path entries (containing_workspace path entries)
unfolding containing_workspace
containing_workspace-IsFound path entries =
    found (containing_from path none entries) (containing_from-Improves path none entries tt)
  where
    found : (r : Option RegisteredWorkspace) → Improves path none entries r → IsFound path entries r
    found none i = All-imp (not_owned path) entries i.longest
    found (some w) i = (
      elim i.from [
        | inl e ↦ absurd (none-ne-some w (sym e))
        | inr (m, e, o) ↦ subst (Owns path entries) (sym (some-injective _ _ e)) o
      ],
      All-imp (λ other h. omega (arith, h, at_most)) entries i.longest,
    )
      where
        at_most : owned_by path w ≤ length w.path
        at_most = elim (Bool-cases (contains path w)) [
          | inl c ↦ rw c (omega arith)
          | inr c ↦ rw c (omega arith)
        ]
