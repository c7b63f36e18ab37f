-- ===== src/Text.antt =====
-- JavaScript strings, as lists of UTF-16 code units, and the methods that the program calls on
-- them. `split`, `join`, `startsWith`, `includes`, `slice` and `<` work on code units, as here.
pub mod Laws
pub mod Order
pub mod Sets
use Prim.Native.Char.{code}
use Prim.Native.String.{String}
use dsh_podman.Prelude.{
  ℕ, zero, suc, ◌+◌, ◌/◌, ◌%◌, Bool, true, false, List, [], ◌∷◌, ◌++◌, ◌==◌, ◌&&◌, ◌||◌, leb, ltb,
  any, if◌then◌else◌, map,
}

abbrev pub Text : Type 0
Text = List ℕ

-- A literal of the source (all are ASCII, so its code points are its code units).
unfoldable pub text : String → Text
text String.[] = []
text (String.◌∷◌ c s) = code c ∷ text s

infix 50 ◌===◌
-- `a === b`
unfoldable pub ◌===◌ : Text → Text → Bool
[] === [] = true
[] === (y ∷ t) = false
(x ∷ s) === [] = false
(x ∷ s) === (y ∷ t) = x == y && s === t

-- `s === ""`
abbrev pub is_empty : Text → Bool
is_empty [] = true
is_empty (x ∷ s) = false

-- `set.has(a)`, `list.includes(a)`
unfoldable pub includes : Text → List Text → Bool
unfolding ◌===◌
includes a [] = false
includes a (x ∷ xs) = a === x || includes a xs

-- `s.includes(c)` for one code unit
unfoldable pub has_unit : ℕ → Text → Bool
has_unit c [] = false
has_unit c (x ∷ s) = x == c || has_unit c s

-- `s.startsWith(p)`
unfoldable pub starts_with : Text → Text → Bool
starts_with s [] = true
starts_with [] (y ∷ p) = false
starts_with (x ∷ s) (y ∷ p) = x == y && starts_with s p

abbrev pub push_head : ℕ → List Text → List Text
push_head x [] = (x ∷ []) ∷ []
push_head x (p ∷ ps) = (x ∷ p) ∷ ps

-- `s.split(c)` for one code unit
unfoldable pub split : ℕ → Text → List Text
split c [] = [] ∷ []
split c (x ∷ s) = let rest = split c s in if x == c then [] ∷ rest else push_head x rest

-- `parts.join(c)` for one code unit
unfoldable pub join : ℕ → List Text → Text
join c [] = []
join c (p ∷ []) = p
join c (p ∷ q ∷ ps) = p ++ c ∷ join c (q ∷ ps)

-- `s.replace(/c+$/, "")` for one code unit
unfoldable pub strip_end : ℕ → Text → Text
strip_end c [] = []
strip_end c (x ∷ s) = let rest = strip_end c s in if is_empty rest && x == c then [] else x ∷ rest

-- `s.toLowerCase()` on ASCII letters; other code units are kept.
unfoldable pub lower_unit : ℕ → ℕ
lower_unit c = if leb b'A' c && leb c b'Z' then c + 32 else c

unfoldable pub to_lower_case : Text → Text
unfolding lower_unit
to_lower_case s = map lower_unit s

decimal_from : ℕ → ℕ → Text → Text
decimal_from zero n out = out
decimal_from (suc fuel) n out =
    let digits = (b'0' + n % 10) ∷ out in
    let rest = decimal_from fuel (n / 10) digits in if ltb n 10 then digits else rest

-- `String(n)` of a non-negative integer
unfoldable pub decimal : ℕ → Text
unfolding decimal_from
decimal n = decimal_from (suc n) n []

-- `a <= b`: code unit by code unit
unfoldable pub text_le : Text → Text → Bool
text_le [] t = true
text_le (x ∷ s) [] = false
text_le (x ∷ s) (y ∷ t) = if ltb x y then true else if x == y then text_le s t else false
