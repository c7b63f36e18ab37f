-- ===== src/Process/Spawn/Laws.antt =====
-- The argument vectors that reach the guest (src/guest-rpc.ts).
use mathlib.Core.Option.{some-injective}
use dsh_podman.Prelude.{
  ℕ, zero, suc, ◌<◌, ◌≡◌, refl, ap, ◌∙◌, inl, inr, Bool-cases, true, List, [], ◌∷◌, Option, none,
  some, length, arith,
}
use dsh_podman.Text.{Text, text, ◌===◌, split}
use dsh_podman.Process.Spawn.{
  is_ripgrep, is_landlock, after_separator, Rewrite, done, again, unwrapped, rewrite, unwrap,
  remote_argv,
}

length-after_separator :
    (argv inner : List Text) → after_separator argv ≡ some inner → length inner < length argv
unfolding after_separator
length-after_separator [] inner e = cc
length-after_separator (arg ∷ args) inner e = elim (Bool-cases (arg === text "--")) [
  | inl h ↦ omega (arith, ap length (some-injective _ _ (rw h at e)))
  | inr h ↦ omega (arith, length-after_separator args inner (rw h at e))
]

-- A call with fewer arguments, and a result that `remoteArgv` keeps.
abbrev IsGood : List Text → Rewrite → Type 0
IsGood argv (done result) = rewrite result ≡ done result
IsGood argv (again inner) = length inner < length argv

unwrapped-IsGood :
    (argv : List Text) (o : Option (List Text))
    → after_separator argv ≡ o
    → rewrite argv ≡ unwrapped argv o
    → IsGood argv (unwrapped argv o)
unwrapped-IsGood argv none e h = h
unwrapped-IsGood argv (some inner) e h = length-after_separator argv inner e

guest_ripgrep : is_ripgrep (text "/usr/bin/rg") ≡ true
unfolding is_ripgrep text ◌===◌ split
guest_ripgrep = refl

rewrite-IsGood : (argv : List Text) → IsGood argv (rewrite argv)
unfolding rewrite
rewrite-IsGood [] = refl
rewrite-IsGood (runner ∷ args) = elim (Bool-cases (is_ripgrep runner)) [
  | inl h ↦ rw h (rw guest_ripgrep refl)
  | inr h ↦ elim (Bool-cases (is_landlock runner)) [
    | inl k ↦
        rw (h, k)
          (unwrapped-IsGood (runner ∷ args) (after_separator (runner ∷ args)) refl (rw (h, k) refl))
    | inr k ↦ rw (h, k) (rw (h, k) refl)
  ]
]

-- With more fuel than arguments, the fuel does not matter.
unwrap_enough :
    (f g : ℕ) (argv : List Text) → length argv < f → length argv < g → unwrap f argv ≡ unwrap g argv
unfolding unwrap
unwrap_enough zero g argv p q = absurd (omega (arith, p))
unwrap_enough (suc f) zero argv p q = absurd (omega (arith, q))
unwrap_enough (suc f) (suc g) argv p q =
    by_call (rewrite argv) (rewrite-IsGood argv)
      (λ inner h. unwrap_enough f g inner (omega (arith, h, p)) (omega (arith, h, q)))
  where
    by_call :
        (r : Rewrite)
        → IsGood argv r
        → ((inner : List Text) → length inner < length argv → unwrap f inner ≡ unwrap g inner)
        → (elim r [ done result ↦ result | again inner ↦ unwrap f inner ])
          ≡ (elim r [ done result ↦ result | again inner ↦ unwrap g inner ])
    by_call (done result) h same = refl
    by_call (again inner) h same = same inner h

-- What a finished call of `remoteArgv` returns, or what the call that it makes returns.
abbrev pub returns : Rewrite → List Text
returns (done result) = result
returns (again inner) = remote_argv inner

remote_argv_step : (argv : List Text) → remote_argv argv ≡ returns (rewrite argv)
unfolding remote_argv unwrap
remote_argv_step argv = by_call (rewrite argv) (rewrite-IsGood argv)
  where
    by_call :
        (r : Rewrite)
        → IsGood argv r
        → (elim r [ done result ↦ result | again inner ↦ unwrap (length argv) inner ]) ≡ returns r
    by_call (done result) h = refl
    by_call (again inner) h = unwrap_enough (length argv) (suc (length inner)) inner h (omega arith)

unwrap-done :
    (fuel : ℕ) (argv : List Text)
    → length argv < fuel
    → rewrite (unwrap fuel argv) ≡ done (unwrap fuel argv)
unfolding unwrap
unwrap-done zero argv p = absurd (omega (arith, p))
unwrap-done (suc fuel) argv p =
    by_call (rewrite argv) (rewrite-IsGood argv)
      (λ inner h. unwrap-done fuel inner (omega (arith, h, p)))
  where
    by_call :
        (r : Rewrite)
        → IsGood argv r
        → ((inner : List Text)
            → length inner < length argv
            → rewrite (unwrap fuel inner) ≡ done (unwrap fuel inner))
        → rewrite (elim r [ done result ↦ result | again inner ↦ unwrap fuel inner ])
          ≡ done (elim r [ done result ↦ result | again inner ↦ unwrap fuel inner ])
    by_call (done result) h same = h
    by_call (again inner) h same = same inner h

remote_argv-done : (argv : List Text) → rewrite (remote_argv argv) ≡ done (remote_argv argv)
unfolding remote_argv
remote_argv-done argv = unwrap-done (suc (length argv)) argv (omega arith)

-- `remoteArgv` ends on every argument vector: it returns what one call of its body returns, with
-- its own result in place of the call that the body makes; and a vector that it returned is
-- returned unchanged when it is given again.
pub remote_argv_total :
    (argv : List Text)
    → (remote_argv argv ≡ returns (rewrite argv))
      × (remote_argv (remote_argv argv) ≡ remote_argv argv)
remote_argv_total argv = (
  remote_argv_step argv,
  remote_argv_step (remote_argv argv) ∙ ap returns (remote_argv-done argv),
)
