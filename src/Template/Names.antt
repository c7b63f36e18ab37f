-- ===== src/Template/Names.antt =====
-- src/container-template.ts: the patterns of package, secret and image names.
use dsh_podman.Prelude.{ℕ, Bool, false, [], ◌∷◌, ◌&&◌, ◌||◌, not, all, leb, ◌==◌, length}
use dsh_podman.Text.{Text, ◌===◌}
use dsh_podman.Segments.{dot, dot_dot}

-- [A-Za-z0-9]
abbrev pub is_alphanumeric : ℕ → Bool
is_alphanumeric c =
    (leb b'A' c && leb c b'Z') || (leb b'a' c && leb c b'z') || (leb b'0' c && leb c b'9')

-- [A-Za-z0-9@+._:]
abbrev pub is_package_head : ℕ → Bool
is_package_head c =
    is_alphanumeric c || c == b'@' || c == b'+' || c == b'.' || c == b'_' || c == b':'

abbrev pub is_package_unit : ℕ → Bool
is_package_unit c = is_package_head c || c == b'-'

-- [A-Za-z0-9_.-]
abbrev pub is_name_unit : ℕ → Bool
is_name_unit c = is_alphanumeric c || c == b'_' || c == b'.' || c == b'-'

-- `PACKAGE_PATTERN.test(value)`
unfoldable pub matches_package : Text → Bool
matches_package [] = false
matches_package (c ∷ s) = is_package_head c && all is_package_unit s

-- `SECRET_PATTERN.test(value)`
unfoldable pub matches_secret : Text → Bool
matches_secret [] = false
matches_secret (c ∷ s) = is_alphanumeric c && all is_name_unit s && leb (length s) 63

-- `IMAGE_ID_PATTERN.test(value)`
unfoldable pub matches_image_id : Text → Bool
matches_image_id [] = false
matches_image_id (c ∷ s) =
    (is_alphanumeric c || c == b'_') && all is_name_unit s && leb (length s) 63

unfoldable pub valid_package_name : Text → Bool
valid_package_name value = not (value === dot) && not (value === dot_dot) && matches_package value
