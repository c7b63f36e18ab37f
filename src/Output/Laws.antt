-- ===== src/Output/Laws.antt =====
-- The tail that a reader keeps (src/output-reader.ts).
use dsh_podman.Prelude.{
  ℕ, zero, suc, ◌+◌, ◌-◌, ◌*◌, ◌≤◌, ◌≡◌, refl, sym, ap, ◌∙◌, inl, inr, true, List, [], ◌∷◌, ◌++◌,
  Option, arith, Bool-cases, ◌&&◌, ◌||◌, ◌==◌, leb, ltb, length, drop, length-append, append-nil,
  append_assoc,
}
use dsh_podman.Output.{
  Bytes, SpillSpec, OutputReader, Window, output_reader, concat, trim, compact, with_window, append,
}

concat-append : (xs ys : List Bytes) → concat (xs ++ ys) ≡ concat xs ++ concat ys
concat-append [] ys = refl
concat-append (x ∷ xs) ys =
    ap (λ r. x ++ r) (concat-append xs ys) ∙ sym (append_assoc x (concat xs) (concat ys))

pub length-drop : (n : ℕ) (xs : Bytes) → length (drop n xs) ≡ length xs - n
length-drop zero xs = omega arith
length-drop (suc n) [] = omega arith
length-drop (suc n) (x ∷ xs) = omega (arith, length-drop n xs)

drop_past : (n : ℕ) (xs ys : Bytes) → length xs ≤ n → drop n (xs ++ ys) ≡ drop (n - length xs) ys
drop_past n [] ys h = ap (λ k. drop k ys) (omega arith)
drop_past zero (x ∷ xs) ys h = absurd (omega arith)
drop_past (suc n) (x ∷ xs) ys h =
    drop_past n xs ys (omega arith) ∙ ap (λ k. drop k ys) (omega arith)

drop_within : (n : ℕ) (xs ys : Bytes) → n ≤ length xs → drop n (xs ++ ys) ≡ drop n xs ++ ys
drop_within zero xs ys h = refl
drop_within (suc n) [] ys h = absurd (omega arith)
drop_within (suc n) (x ∷ xs) ys h = drop_within n xs ys (omega arith)

drop-nil : (n : ℕ) → drop {A = ℕ} n [] ≡ []
drop-nil zero = refl
drop-nil (suc n) = refl

pub drop-drop : (m n : ℕ) (xs : Bytes) → drop m (drop n xs) ≡ drop (n + m) xs
drop-drop m zero xs = ap (λ k. drop k xs) (omega arith)
drop-drop m (suc n) [] = drop-nil m ∙ sym (drop-nil (suc n + m))
drop-drop m (suc n) (x ∷ xs) =
    let same : suc (n + m) ≡ suc n + m = omega arith in
    drop-drop m n xs ∙ ap (λ k. drop k (x ∷ xs)) same

drop_all : (n : ℕ) (xs : Bytes) → length xs ≤ n → drop n xs ≡ []
drop_all zero [] h = refl
drop_all zero (x ∷ xs) h = absurd (omega arith)
drop_all (suc n) [] h = refl
drop_all (suc n) (x ∷ xs) h = drop_all n xs (omega arith)

-- The last bytes of a stream, at most `max_bytes` of them.
abbrev pub tail_of : ℕ → Bytes → Bytes
tail_of max_bytes stream = drop (length stream - max_bytes) stream

tail_of-append :
    (max_bytes : ℕ) (stream chunk : Bytes)
    → drop
        (length (tail_of max_bytes stream) + length chunk - max_bytes)
        (tail_of max_bytes stream ++ chunk)
      ≡ tail_of max_bytes (stream ++ chunk)
tail_of-append max_bytes stream chunk =
    ap (drop _) (sym (drop_within (length stream - max_bytes) stream chunk (omega arith)))
    ∙ drop-drop _ (length stream - max_bytes) (stream ++ chunk)
    ∙ ap (λ k. drop k (stream ++ chunk))
        (omega
          (arith, length-drop (length stream - max_bytes) stream, length-append {0} stream chunk))

tail_of-unchanged :
    (max_bytes : ℕ) (stream chunk : Bytes)
    → (max_bytes == 0 || length chunk == 0) ≡ true
    → tail_of max_bytes stream ≡ tail_of max_bytes (stream ++ chunk)
tail_of-unchanged max_bytes stream [] e = ap (tail_of max_bytes) (sym (append-nil stream))
tail_of-unchanged max_bytes stream (c ∷ chunk) e =
    let none_kept : max_bytes ≡ 0 = ground arith in
    drop_all (length stream - max_bytes) stream (omega arith)
    ∙ sym (drop_all (length (stream ++ c ∷ chunk) - max_bytes) (stream ++ c ∷ chunk) (omega arith))

-- What a window holds after the bytes in front were dropped.
record Trimmed (excess : ℕ) (given : Bytes) (w : Window) : Type 0 where
  kept : concat w.live ≡ drop excess given
  counted : w.retained ≡ length given - excess

trim-Trimmed :
    (excess : ℕ) (dead : List Bytes) (retained : ℕ) (live : List Bytes)
    → retained ≡ length (concat live)
    → excess ≤ retained
    → Trimmed excess (concat live) (trim excess dead retained live)
unfolding trim
trim-Trimmed excess dead retained [] r h = record {
  kept = sym (drop_all excess [] (omega arith));
  counted = omega arith;
}
trim-Trimmed excess dead retained (first ∷ rest) r h = elim (Bool-cases (excess == 0)) [
  | inl e ↦
      let none_left : 0 ≡ excess = ground arith in
      rw e
        (record { kept = ap (λ k. drop k (first ++ concat rest)) none_left; counted = omega arith })
  | inr e ↦ rw e (elim (Bool-cases (leb (length first) excess)) [
    | inl f ↦
        let within : length first ≤ excess = ground arith in
        let t =
          trim-Trimmed (excess - length first) (dead ++ first ∷ []) (retained - length first) rest
            (omega (arith, length-append {0} first (concat rest))) (omega arith) in
        rw f (record {
          kept = t.kept ∙ sym (drop_past excess first (concat rest) within);
          counted = t.counted ∙ omega (arith, length-append {0} first (concat rest));
        })
    | inr f ↦ rw f (record {
      kept = sym (drop_within excess first (concat rest) (ground arith));
      counted = ap (λ n. n - excess) r;
    })
  ])
]

compact-Trimmed :
    (excess : ℕ) (given : Bytes) (w : Window)
    → Trimmed excess given w
    → Trimmed excess given (compact w)
unfolding compact
compact-Trimmed excess given w t =
    elim (Bool-cases
      (ltb 32 (length w.dead) && leb (length w.dead + length w.live) (length w.dead * 2))) [
        | inl e ↦ rw e (record { kept = t.kept; counted = t.counted })
        | inr e ↦ rw e t
      ]

-- A reader that stands for a stream: it has counted all of it, and it keeps the tail.
pub record Reads (r : OutputReader) (stream : Bytes) : Type 0 where
  pub counted : r.total ≡ length stream
  pub kept : concat r.live ≡ tail_of r.max_bytes stream
  pub sized : r.retained ≡ length (tail_of r.max_bytes stream)

pub output_reader-Reads :
    (max_bytes : ℕ) (spill : Option SpillSpec) → Reads (output_reader max_bytes spill) []
unfolding output_reader
output_reader-Reads max_bytes spill = record {
  counted = refl;
  kept = sym (drop_all (0 - max_bytes) [] (omega arith));
  sized = ap length (sym (drop_all (0 - max_bytes) [] (omega arith)));
}

-- The fields that no operation but `setSpillValid` changes.
pub append-same :
    (r : OutputReader) (chunk : Bytes)
    → ((append r chunk).max_bytes ≡ r.max_bytes)
      × ((append r chunk).spill ≡ r.spill)
      × ((append r chunk).spill_valid ≡ r.spill_valid)
unfolding append
append-same r chunk = elim (Bool-cases (r.max_bytes == 0 || length chunk == 0)) [
  | inl e ↦ rw e (refl, refl, refl)
  | inr e ↦ rw e (unfold with_window in (refl, refl, refl))
]

pub append-Reads :
    (r : OutputReader) (stream chunk : Bytes)
    → Reads r stream
    → Reads (append r chunk) (stream ++ chunk)
unfolding append
append-Reads r stream chunk h = elim (Bool-cases (r.max_bytes == 0 || length chunk == 0)) [
  | inl e ↦ rw e (record {
    counted = omega (arith, h.counted, length-append {0} stream chunk);
    kept = h.kept ∙ unchanged e;
    sized = h.sized ∙ ap length (unchanged e);
  })
  | inr e ↦ rw e (
      let t = compact-Trimmed _ _ _ (
        trim-Trimmed (r.retained + length chunk - r.max_bytes) r.dead (r.retained + length chunk)
          (r.live ++ chunk ∷ []) sizes (omega arith)) in
      unfold with_window in
      record {
        counted = omega (arith, h.counted, length-append {0} stream chunk);
        kept = t.kept ∙ trimmed;
        sized = t.counted ∙ sym (length-drop _ _) ∙ ap length trimmed;
      })
]
  where
    all_live : concat (r.live ++ chunk ∷ []) ≡ tail_of r.max_bytes stream ++ chunk
    all_live =
        concat-append r.live (chunk ∷ [])
        ∙ ap (λ b. b ++ (chunk ++ [])) h.kept
        ∙ ap (λ b. tail_of r.max_bytes stream ++ b) (append-nil chunk)

    sizes : r.retained + length chunk ≡ length (concat (r.live ++ chunk ∷ []))
    sizes =
        omega
          (arith, h.sized, ap length all_live, length-append {0} (tail_of r.max_bytes stream) chunk)

    trimmed :
        drop (r.retained + length chunk - r.max_bytes) (concat (r.live ++ chunk ∷ []))
        ≡ tail_of r.max_bytes (stream ++ chunk)
    trimmed =
        ap (drop _) all_live
        ∙ ap (λ n. drop (n + length chunk - r.max_bytes) (tail_of r.max_bytes stream ++ chunk))
            h.sized
        ∙ tail_of-append r.max_bytes stream chunk

    unchanged :
        (r.max_bytes == 0 || length chunk == 0) ≡ true
        → tail_of r.max_bytes stream ≡ tail_of r.max_bytes (stream ++ chunk)
    unchanged = tail_of-unchanged r.max_bytes stream chunk
