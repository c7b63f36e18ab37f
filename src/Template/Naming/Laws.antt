-- ===== src/Template/Naming/Laws.antt =====
-- Every template has an image id (src/container-template.ts).
use dsh_podman.Prelude.{
  ℕ, suc, ◌/◌, ◌%◌, ◌≤◌, ◌<◌, ◌≡◌, refl, ap, inl, inr, Bool, true, false, List, [], ◌∷◌, ◌++◌,
  arith, All, All-append, All-take, All-all, all-All, Bool-cases, ok, if◌then◌else◌, ◌&&◌, ◌||◌,
  ◌==◌, all, take, length, length-append, length-take,
}
use dsh_podman.Text.{Text, text, is_empty, lower_unit, to_lower_case}
use dsh_podman.Template.Names.{is_alphanumeric, is_name_unit, matches_image_id}
use dsh_podman.Template.Naming.{
  strip_extension, dash_runs, strip_start, strip_dashes, sanitized_template_name,
  template_image_id_from_digest, hex_digit, hex, template_image_id, is_id_head,
}

-- Every unit is one that an image id may hold.
abbrev pub IsNameText : Text → Type 0
IsNameText s = All (λ c. is_name_unit c ≡ true) s

dash_runs-IsNameText : (in_run : Bool) (s : Text) → IsNameText (dash_runs in_run s)
unfolding dash_runs
dash_runs-IsNameText in_run [] = tt
dash_runs-IsNameText in_run (x ∷ s) = elim (Bool-cases (is_name_unit x)) [
  | inl e ↦ rw e (e, dash_runs-IsNameText false s)
  | inr e ↦ rw e (dashed in_run (dash_runs-IsNameText true s))
]
  where
    dashed :
        (b : Bool)
        → IsNameText (dash_runs true s)
        → IsNameText (if b then dash_runs true s else b'-' ∷ dash_runs true s)
    dashed true h = h
    dashed false h = (refl, h)

strip_start-All : (P : ℕ → Type 0) (s : Text) → All P s → All P (strip_start s)
unfolding strip_start
strip_start-All P [] h = tt
strip_start-All P (x ∷ s) (p, h) = elim (Bool-cases (is_id_head x)) [
  | inl e ↦ rw e (p, h)
  | inr e ↦ rw e (strip_start-All P s h)
]

strip_dashes-All : (P : ℕ → Type 0) (s : Text) → All P s → All P (strip_dashes s)
unfolding strip_dashes
strip_dashes-All P [] h = tt
strip_dashes-All P (x ∷ s) (p, h) =
    elim (Bool-cases (is_empty (strip_dashes s) && (x == b'.' || x == b'-'))) [
      | inl e ↦ rw e tt
      | inr e ↦ rw e (p, strip_dashes-All P s h)
    ]

template-IsNameText : IsNameText (text "template")
unfolding text
template-IsNameText = All-all is_name_unit (text "template") refl

or_template-IsNameText :
    (s : Text) → IsNameText s → IsNameText (if is_empty s then text "template" else s)
or_template-IsNameText [] h = template-IsNameText
or_template-IsNameText (x ∷ s) h = h

-- The readable part of an image id: at most 40 units, each of them allowed.
pub sanitized_template_name_bounds :
    (name : Text)
    → IsNameText (sanitized_template_name name) × (length (sanitized_template_name name) ≤ 40)
unfolding sanitized_template_name
sanitized_template_name_bounds name = (
  All-take _ 40 _ (
      or_template-IsNameText _ (
        strip_dashes-All _ _
          (strip_start-All _ _ (dash_runs-IsNameText false (strip_extension name))))),
  omega (arith, length-take {0} 40),
)

lower_unit-IsNameText : (c : ℕ) → is_name_unit c ≡ true → is_name_unit (lower_unit c) ≡ true
unfolding lower_unit
lower_unit-IsNameText c h = ground arith

to_lower_case-IsNameText : (s : Text) → IsNameText s → IsNameText (to_lower_case s)
unfolding to_lower_case
to_lower_case-IsNameText [] h = tt
to_lower_case-IsNameText (x ∷ s) (p, h) = (lower_unit-IsNameText x p, to_lower_case-IsNameText s h)

length-to_lower_case : (s : Text) → length (to_lower_case s) ≡ length s
unfolding to_lower_case
length-to_lower_case [] = refl
length-to_lower_case (x ∷ s) = ap suc (length-to_lower_case s)

matches_image_id_of_parts :
    (c : ℕ) (s : Text)
    → is_alphanumeric c ≡ true
    → IsNameText s
    → length s ≤ 63
    → matches_image_id (c ∷ s) ≡ true
unfolding matches_image_id
matches_image_id_of_parts c s h n l =
    let e : all is_name_unit s ≡ true = all-All is_name_unit s n in ground arith

-- The shape of an image id: the prefix, a readable part and a part of the digest.
id_of_parts :
    (s d : Text)
    → IsNameText s
    → IsNameText d
    → length s ≤ 40
    → length d ≤ 8
    → (matches_image_id (text "template-" ++ s ++ b'-' ∷ d) ≡ true)
      × (length (text "template-" ++ s ++ b'-' ∷ d) ≤ 58)
unfolding text
id_of_parts s d hs hd ls ld =
    let prefix : Text = text "emplate-" in
    (
      matches_image_id_of_parts b't' (prefix ++ s ++ b'-' ∷ d) refl
          (All-append _ (prefix ++ s) (b'-' ∷ d)
            (All-append _ prefix s (All-all is_name_unit prefix refl) hs) (refl, hd))
          (omega (arith, length-append {0} s (b'-' ∷ d))),
      omega (arith, length-append {0} s (b'-' ∷ d)),
    )

-- With a digest of allowed units the image id is always found: the error about an id that cannot be
-- derived is never thrown, and the id is one that the image id pattern accepts.
pub template_image_id_from_digest_total :
    (name digest : Text)
    → IsNameText digest
    → (id : Text) × (template_image_id_from_digest name digest ≡ ok id)
      × (matches_image_id id ≡ true)
      × (length id ≤ 58)
unfolding template_image_id_from_digest
template_image_id_from_digest_total name digest h =
    let s = sanitized_template_name name in
    let d = to_lower_case (take 8 digest) in
    let (hs, ls) = sanitized_template_name_bounds name in
    let (m, l) =
      id_of_parts s d hs (to_lower_case-IsNameText _ (All-take _ 8 digest h)) ls
        (omega (arith, length-to_lower_case (take 8 digest), length-take {0} 8 digest)) in
    (text "template-" ++ s ++ b'-' ∷ d, rw m, m, l)

hex_digit-IsNameText : (n : ℕ) → n < 16 → is_name_unit (hex_digit n) ≡ true
unfolding hex_digit
hex_digit-IsNameText n h = ground arith

hex-IsNameText : (bytes : List ℕ) → All (λ b. b < 256) bytes → IsNameText (hex bytes)
unfolding hex
hex-IsNameText [] h = tt
hex-IsNameText (b ∷ bytes) (p, h) = (
  hex_digit-IsNameText (b / 16) (omega arith),
  (hex_digit-IsNameText (b % 16) (omega arith), hex-IsNameText bytes h),
)

-- Whatever the digest of its path, a template has an image id that the pattern accepts, of at most 58
-- units.
pub template_image_id_total :
    (sha256 : Text → List ℕ) (name path : Text)
    → All (λ b. b < 256) (sha256 path)
    → (id : Text) × (template_image_id sha256 name path ≡ ok id)
      × (matches_image_id id ≡ true)
      × (length id ≤ 58)
unfolding template_image_id
template_image_id_total sha256 name path h =
    template_image_id_from_digest_total name (hex (sha256 path)) (hex-IsNameText (sha256 path) h)
