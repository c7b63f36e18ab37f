-- ===== src/Text/Laws.antt =====
-- Laws of the string methods.
use dsh_podman.Prelude.{
  ℕ, ◌≡◌, ◌≢◌, ◌↔◌, refl, ap, ◌∙◌, inl, inr, true, false, List, [], ◌∷◌, ◌++◌, arith, All, ◌==◌,
  Bool-cases, All-append,
}
use dsh_podman.Text.{Text, ◌===◌, has_unit, starts_with, push_head, split, join}

===_sound : (s t : Text) → (s === t) ≡ true → s ≡ t
unfolding ◌===◌
===_sound [] [] h = refl
===_sound [] (y ∷ t) h = ground arith
===_sound (x ∷ s) [] h = ground arith
===_sound (x ∷ s) (y ∷ t) h = ground (arith, ===_sound s t)

pub ===_refl : (s : Text) → (s === s) ≡ true
unfolding ◌===◌
===_refl [] = refl
===_refl (x ∷ s) = ground (arith, ===_refl s)

pub ===_iff : (s t : Text) → ((s === t) ≡ true) ↔ (s ≡ t)
===_iff s t = (===_sound s t, λ e. rw e (===_refl t))

-- No occurrence of a code unit.
abbrev pub Without : ℕ → Text → Type 0
Without c s = All (λ x. x ≢ c) s

push_head-Without :
    (c x : ℕ) (ps : List Text) → x ≢ c → All (Without c) ps → All (Without c) (push_head x ps)
push_head-Without c x [] n h = ((n, tt), tt)
push_head-Without c x (p ∷ ps) n (k, h) = ((n, k), h)

pub split-Without : (c : ℕ) (s : Text) → All (Without c) (split c s)
unfolding split
split-Without c [] = (tt, tt)
split-Without c (x ∷ s) = elim (Bool-cases (x == c)) [
  | inl e ↦ rw e (tt, split-Without c s)
  | inr e ↦ rw e (push_head-Without c x (split c s) (ground arith) (split-Without c s))
]

split-ne-nil : (c : ℕ) (s : Text) → split c s ≢ []
unfolding split
split-ne-nil c [] h = cc
split-ne-nil c (x ∷ s) h = elim (Bool-cases (x == c)) [
  | inl e ↦ ground arith
  | inr e ↦ ground arith
]

join-push_head : (c x : ℕ) (ps : List Text) → ps ≢ [] → join c (push_head x ps) ≡ x ∷ join c ps
unfolding join
join-push_head c x [] n = absurd (n refl)
join-push_head c x (p ∷ []) n = refl
join-push_head c x (p ∷ q ∷ ps) n = refl

-- Joining what was split gives the text back.
pub join-split : (c : ℕ) (s : Text) → join c (split c s) ≡ s
unfolding split
join-split c [] = unfold join in refl
join-split c (x ∷ s) = elim (Bool-cases (x == c)) [
  | inl e ↦ rw e (join_nil (split c s) (split-ne-nil c s) ∙ ground (arith, join-split c s))
  | inr e ↦ rw e (join-push_head c x (split c s) (split-ne-nil c s) ∙ ap (◌∷◌ x) (join-split c s))
]
  where
    join_nil : (ps : List Text) → ps ≢ [] → join c ([] ∷ ps) ≡ c ∷ join c ps
    join_nil [] n = absurd (n refl)
    join_nil (p ∷ ps) n = unfold join in refl

split-append : (c : ℕ) (p s : Text) → Without c p → split c (p ++ c ∷ s) ≡ p ∷ split c s
unfolding split
split-append c [] s h = ground arith
split-append c (x ∷ p) s (n, h) = rw (split-append c p s h) (ground arith)

split_of_Without : (c : ℕ) (p : Text) → Without c p → split c p ≡ p ∷ []
unfolding split
split_of_Without c [] h = refl
split_of_Without c (x ∷ p) (n, h) = rw (split_of_Without c p h) (ground arith)

-- Splitting what was joined gives the parts back, if none holds the separator.
pub split-join :
    (c : ℕ) (p : Text) (ps : List Text)
    → All (Without c) (p ∷ ps)
    → split c (join c (p ∷ ps)) ≡ p ∷ ps
unfolding join
split-join c p [] (h, _) = split_of_Without c p h
split-join c p (q ∷ ps) (h, hs) =
    split-append c p (join c (q ∷ ps)) h ∙ ap (◌∷◌ p) (split-join c q ps hs)

pub starts_with-append : (p s : Text) → starts_with (p ++ s) p ≡ true
unfolding starts_with
starts_with-append [] s = refl
starts_with-append (x ∷ p) s = ground (arith, starts_with-append p s)

-- A text that starts with another is it and a rest.
pub starts_with_rest : (s p : Text) → starts_with s p ≡ true → (r : Text) × (s ≡ p ++ r)
unfolding starts_with
starts_with_rest s [] h = (s, refl)
starts_with_rest [] (y ∷ p) h = absurd (ground arith)
starts_with_rest (x ∷ s) (y ∷ p) h =
    let rec = starts_with_rest s p (ground arith) in (rec.0, ground (arith, rec.1))

pub has_unit-Without : (c : ℕ) (s : Text) → has_unit c s ≡ false → Without c s
unfolding has_unit
has_unit-Without c [] h = tt
has_unit-Without c (x ∷ s) h = (ground arith, has_unit-Without c s (ground arith))

pub has_unit_of_Without : (c : ℕ) (s : Text) → Without c s → has_unit c s ≡ false
unfolding has_unit
has_unit_of_Without c [] h = refl
has_unit_of_Without c (x ∷ s) (n, h) = ground (arith, has_unit_of_Without c s h)

push_head-All :
    (d x : ℕ) (ps : List Text) → x ≢ d → All (Without d) ps → All (Without d) (push_head x ps)
push_head-All d x [] n h = ((n, tt), tt)
push_head-All d x (p ∷ ps) n (k, h) = ((n, k), h)

pub split-Without_of : (c d : ℕ) (s : Text) → Without d s → All (Without d) (split c s)
unfolding split
split-Without_of c d [] h = (tt, tt)
split-Without_of c d (x ∷ s) (n, h) = elim (Bool-cases (x == c)) [
  | inl e ↦ rw e (tt, split-Without_of c d s h)
  | inr e ↦ rw e (push_head-All d x (split c s) n (split-Without_of c d s h))
]

pub join-Without : (c d : ℕ) (ps : List Text) → c ≢ d → All (Without d) ps → Without d (join c ps)
unfolding join
join-Without c d [] n h = tt
join-Without c d (p ∷ []) n (k, h) = k
join-Without c d (p ∷ q ∷ ps) n (k, h) =
    All-append (λ x. x ≢ d) p (c ∷ join c (q ∷ ps)) k (n, join-Without c d (q ∷ ps) n h)

pub ===_comm : (s t : Text) → (s === t) ≡ (t === s)
===_comm s t = ground (arith, ===_iff s t, ===_iff t s)
