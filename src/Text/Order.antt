-- ===== src/Text/Order.antt =====
-- The order of JavaScript strings is a total order.
use dsh_podman.Prelude.{◌≡◌, refl, ◌||◌, true, [], ◌∷◌, arith}
use dsh_podman.Text.{Text, text_le}

pub text_le_refl : (s : Text) → text_le s s ≡ true
unfolding text_le
text_le_refl [] = refl
text_le_refl (x ∷ s) = ground (arith, text_le_refl s)

pub text_le_total : (s t : Text) → (text_le s t || text_le t s) ≡ true
unfolding text_le
text_le_total [] t = refl
text_le_total (x ∷ s) [] = refl
text_le_total (x ∷ s) (y ∷ t) = ground (arith, text_le_total s t)

pub text_le_trans : (r s t : Text) → text_le r s ≡ true → text_le s t ≡ true → text_le r t ≡ true
unfolding text_le
text_le_trans [] s t h k = refl
text_le_trans (x ∷ r) [] t h k = ground arith
text_le_trans (x ∷ r) (y ∷ s) [] h k = ground arith
text_le_trans (x ∷ r) (y ∷ s) (z ∷ t) h k = ground (arith, text_le_trans r s t)

pub text_le_antisymm : (s t : Text) → text_le s t ≡ true → text_le t s ≡ true → s ≡ t
unfolding text_le
text_le_antisymm [] [] h k = refl
text_le_antisymm [] (y ∷ t) h k = ground arith
text_le_antisymm (x ∷ s) [] h k = ground arith
text_le_antisymm (x ∷ s) (y ∷ t) h k = ground (arith, text_le_antisymm s t)
