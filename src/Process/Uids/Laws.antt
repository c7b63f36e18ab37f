-- ===== src/Process/Uids/Laws.antt =====
-- The pool of identities over the life of the control spawns (src/subprocess.ts).
use mathlib.Core.Option.{some-injective, none-ne-some}
use dsh_podman.Prelude.{
  ℕ, zero, suc, ◌+◌, ◌≤◌, ◌<◌, ◌≡◌, refl, sym, ◌∙◌, subst, inl, inr, Bool-cases, true, false, ◌==◌,
  [], ◌∷◌, none, some, arith, length, ==_iff,
}
use dsh_podman.Process.Uids.{PtcUidPool, has_uid, first_free, release}

-- The id that the loop finds is the lowest free one.
pub record IsLowest (first : ℕ) (left : ℕ) (pool : PtcUidPool) (id : ℕ) : Type 0 where
  pub from : first ≤ id
  pub below : id < first + left
  pub free : has_uid id pool ≡ false
  pub taken : (other : ℕ) → first ≤ other → other < id → has_uid other pool ≡ true

pub first_free-some :
    (left first : ℕ) (pool : PtcUidPool) (id : ℕ)
    → first_free left first pool ≡ some id
    → IsLowest first left pool id
unfolding first_free
first_free-some zero first pool id e = absurd (ground (arith, e))
first_free-some (suc left) first pool id e = elim (Bool-cases (has_uid first pool)) [
  | inl h ↦
      let k = first_free-some left (first + 1) pool id (rw (h, first_free) at e) in
      record {
        from = omega (arith, k.from);
        below = omega (arith, k.below);
        free = k.free;
        taken = λ other p q. elim (Bool-cases (other == first)) [
          | inl same ↦ subst (λ n. has_uid n pool ≡ true) (sym ((==_iff other first).0 same)) h
          | inr differs ↦ k.taken other (ground (arith, p)) q
        ];
      }
  | inr h ↦
      let same : first ≡ id = some-injective _ _ (rw (h, first_free) at e) in
      record {
        from = omega (arith, same);
        below = omega (arith, same);
        free = subst (λ n. has_uid n pool ≡ false) same h;
        taken = λ other p q. absurd (omega (arith, p, q, same));
      }
]

pub first_free-none :
    (left first : ℕ) (pool : PtcUidPool)
    → first_free left first pool ≡ none
    → (other : ℕ) → first ≤ other
    → other < first + left
    → has_uid other pool ≡ true
unfolding first_free
first_free-none zero first pool e other p q = absurd (omega (arith, p, q))
first_free-none (suc left) first pool e other p q = elim (Bool-cases (has_uid first pool)) [
  | inl h ↦ elim (Bool-cases (other == first)) [
    | inl same ↦ subst (λ n. has_uid n pool ≡ true) (sym ((==_iff other first).0 same)) h
    | inr differs ↦
        first_free-none left (first + 1) pool (rw (h, first_free) at e) other (ground (arith, p))
          (omega (arith, q))
  ]
  | inr h ↦ absurd (none-ne-some first (sym (rw (h, first_free) at e)))
]

has_uid-release_other :
    (pool : PtcUidPool) (id other : ℕ)
    → (other == id) ≡ false
    → has_uid other (release pool id) ≡ has_uid other pool
unfolding release
has_uid-release_other [] id other h = refl
has_uid-release_other (x ∷ pool) id other h = ground (arith, has_uid-release_other pool id other h)

length-release_at_most : (pool : PtcUidPool) (id : ℕ) → length (release pool id) ≤ length pool
unfolding release
length-release_at_most [] id = omega arith
length-release_at_most (x ∷ pool) id = ground (arith, length-release_at_most pool id)

length-release :
    (pool : PtcUidPool) (id : ℕ) → has_uid id pool ≡ true → length (release pool id) < length pool
unfolding release
length-release [] id h = ground arith
length-release (x ∷ pool) id h = elim (Bool-cases (x == id)) [
  | inl e ↦ ground (arith, length-release_at_most pool id)
  | inr e ↦ ground (arith, length-release pool id)
]

-- A pool that holds every id of a range is at least as long as the range.
pub pigeonhole :
    (left first : ℕ) (pool : PtcUidPool)
    → ((other : ℕ) → first ≤ other → other < first + left → has_uid other pool ≡ true)
    → left ≤ length pool
pigeonhole zero first pool h = omega arith
pigeonhole (suc left) first pool h = omega (
  arith,
  length-release pool first (h first (omega arith) (omega arith)),
  pigeonhole left (first + 1) (release pool first) (λ other p q.
      has_uid-release_other pool first other (ground (arith, p))
      ∙ h other (omega (arith, p)) (omega (arith, q))),
)
